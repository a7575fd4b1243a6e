-- ===== src/Authoring/Domains.antt =====
-- A value that meets the rules of a path is listed in each finite domain.
use constitutional_agent_tes.Base.{
  ◌≡◌, refl, ap, ◌∙◌, Bool, true, false, Option, none, some, List, [], ◌∷◌, arith, if◌then◌else◌,
  Text, txt, same, same→eq, eq→same, contains, all, any, keep, All, Bool-cases, inl, inr,
}
use constitutional_agent_tes.Json.{Value, obj, end, field, member}
use constitutional_agent_tes.Json.Path.{get_field}
use constitutional_agent_tes.Json.Encode.{FloatText, canonical_json}
use constitutional_agent_tes.Policy.{
  Kind, equals, one_of, false_kind, empty_list, required_field, type_kind, range_kind, length_kind,
  unknown, Rule,
}
use constitutional_agent_tes.Evaluator.{value_markers, push_marker}
use constitutional_agent_tes.Evaluator.Satisfies.{Some, SameJson, Meets, evaluate_rule-Satisfies}
use constitutional_agent_tes.Authoring.{domain_as, narrow, is_listed, survivors, passes_alone}

-- The value is in the list.
abbrev pub Listed : Value → List Value → Type 0
Listed v = Some (λ w. w ≡ v)

pub any-Listed :
    (p : Value → Bool) (v : Value) (vs : List Value) → Listed v vs → p v ≡ true → any p vs ≡ true
any-Listed p v [] listed h = absurd listed
any-Listed p v (w ∷ vs) listed h = elim listed [
  | inl e ↦ rw e (rw h refl)
  | inr later ↦ ground (arith, any-Listed p v vs later h)
]

contains-keep :
    (p : Text → Bool) (names : List Text) (t : Text)
    → contains names t ≡ true
    → p t ≡ true
    → contains (keep p names) t ≡ true
unfolding contains
contains-keep p [] t h here = h
contains-keep p (n ∷ names) t h here = elim (Bool-cases (same n t)) [
  | inl e ↦ rw (same→eq n t e) (rw here (ground (arith, eq→same t t refl)))
  | inr e ↦ ground (arith, contains-keep p names t)
]

module _ ⦃repr : FloatText⦄ where
  pub value_text :
      (k : Kind) (r : Rule) (v : Value) {d : List Value}
      → domain_as k r ≡ some d
      → Meets k r v
      → (t : Text) × (canonical_json v ≡ some t)
  unfolding domain_as
  value_text equals r v h m = (m.0, m.1)
  value_text one_of r v h m = first r.values m
    where
      first : (vs : List Value) → Some (SameJson v) vs → (t : Text) × (canonical_json v ≡ some t)
      first [] m = absurd m
      first (w ∷ vs) m = elim m [ inl here ↦ (here.0, here.1) | inr later ↦ first vs later ]
  value_text false_kind r v h m = (txt "false", ap canonical_json m ∙ unfold canonical_json in refl)
  value_text empty_list r v h m = (txt "[]", ap canonical_json m ∙ unfold canonical_json in refl)
  value_text _ r v h m = cc

  contains-value_markers :
      (vs : List Value) (v : Value) {t : Text}
      → Listed v vs
      → canonical_json v ≡ some t
      → contains (value_markers vs) t ≡ true
  unfolding value_markers contains
  contains-value_markers [] v listed h = absurd listed
  contains-value_markers (w ∷ vs) v {t} listed h = elim listed [
    | inl e ↦ rw e (rw h (ground (arith, eq→same t t refl)))
    | inr later ↦ pushed (canonical_json w) (contains-value_markers vs v later h)
  ]
    where
      pushed :
          (o : Option Text)
          → contains (value_markers vs) t ≡ true
          → contains (push_marker o (value_markers vs)) t ≡ true
      pushed none h = h
      pushed (some m) h = ground (arith, h)

  -- A value of the rule's domain, with its text.
  abbrev pub Member : Value → Rule × List Value → Type 0
  Member v x = Listed v x.1

  contains-narrow :
      (allowed : List Text) (finite : List (Rule × List Value)) (v : Value) {t : Text}
      → canonical_json v ≡ some t
      → contains allowed t ≡ true
      → All (Member v) finite
      → contains (narrow allowed finite) t ≡ true
  unfolding narrow
  contains-narrow allowed [] v e h members = h
  contains-narrow allowed ((r, d) ∷ finite) v {t} e h members =
      contains-narrow (keep (contains (value_markers d)) allowed) finite v e
        (contains-keep (contains (value_markers d)) allowed t h
          (contains-value_markers d v members.0 e))
        members.1

  pub allowed_listed :
      (r : Rule) (d : List Value) (finite : List (Rule × List Value)) (v : Value) {t : Text}
      → canonical_json v ≡ some t
      → All (Member v) ((r, d) ∷ finite)
      → contains (narrow (value_markers d) finite) t ≡ true
  allowed_listed r d finite v e members =
      contains-narrow (value_markers d) finite v e (contains-value_markers d v members.0 e)
        members.1

  pub survivors-Listed :
      (allowed : List Text) (vs : List Value) (v : Value) {t : Text}
      → canonical_json v ≡ some t
      → contains allowed t ≡ true
      → Listed v vs
      → Listed v (survivors allowed vs)
  survivors-Listed allowed [] v e h listed = listed
  survivors-Listed allowed (w ∷ vs) v {t} e h listed = elim listed [
    | inl here ↦ rw here (rw e (rw h (inl refl)))
    | inr later ↦
        kept (is_listed allowed (canonical_json w)) (survivors-Listed allowed vs v e h later)
  ]
    where
      kept :
          (b : Bool)
          → Listed v (survivors allowed vs)
          → Listed v (if b then w ∷ survivors allowed vs else survivors allowed vs)
      kept true h = inr h
      kept false h = h

  -- What a rule demands of a value does not depend on its path.
  pub Meets-path :
      (k : Kind) (r : Rule) (v : Value) (path : Text)
      → Meets k r v
      → Meets k (record r { path = path }) v
  Meets-path equals r v path m = m
  Meets-path one_of r v path m = m
  Meets-path range_kind r v path m = m
  Meets-path length_kind r v path m = m
  Meets-path type_kind r v path m = m
  Meets-path required_field r v path m = m
  Meets-path false_kind r v path m = m
  Meets-path empty_list r v path m = m
  Meets-path (unknown name) r v path m = m

  -- A value that meets filters passes them in a document of its own.
  pub passes_alone-Meets :
      (filters : List Rule) (v : Value)
      → All (λ (r : Rule). Meets r.kind r v) filters
      → all (passes_alone v) filters ≡ true
  unfolding passes_alone
  passes_alone-Meets [] v m = refl
  passes_alone-Meets (r ∷ filters) v m =
      let alone =
        (evaluate_rule-Satisfies (record r { path = txt "value" })
            (obj (field (txt "value") v end))).1
          (v, unfold get_field member same in refl, Meets-path r.kind r v (txt "value") m.0) in
      rw alone (passes_alone-Meets filters v m.1)
