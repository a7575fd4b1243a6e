-- ===== src/Authoring/Calm.antt =====
-- The parts of the loop of lint_policy, for the value that a response has at the path.
use constitutional_agent_tes.Base.{
  ℕ, ◌+◌, ◌*◌, ◌≡◌, refl, ◌∙◌, subst, Bool, true, false, inl, inr, some, List, [], ◌∷◌, arith, ltb,
  if◌then◌else◌, Text, contains, all, any, length, All, any-append, ok, err, >>=-eq-ok,
  ok-injective, Option-cases,
}
use constitutional_agent_tes.Json.{Value}
use constitutional_agent_tes.Json.Encode.{FloatText, canonical_json}
use constitutional_agent_tes.Policy.{Rule}
use constitutional_agent_tes.Errors.{authoring_limit}
use constitutional_agent_tes.Evaluator.{value_markers}
use constitutional_agent_tes.Evaluator.Satisfies.{Meets}
use constitutional_agent_tes.Authoring.{
  domain, Finding, LintState, finding, add_finding, add_unless, finite_of, charge, narrow,
  survivors, passes_alone, some_survives, check_filters, check_allowed, check_domains,
  check_duplicates, seen_rule, constraint_marker, is_conflict, max_authoring_work_bytes,
  value_bytes, duplicate_constraint,
}
use constitutional_agent_tes.Authoring.Domains.{
  Listed, any-Listed, value_text, allowed_listed, survivors-Listed, passes_alone-Meets,
}

-- No conflict was found so far.
abbrev pub Calm : LintState → Type 0
Calm s = any is_conflict s.findings ≡ false

add_finding-Calm :
    (f : Finding) (s : LintState) → is_conflict f ≡ false → Calm s → Calm (add_finding f s)
add_finding-Calm f s own calm =
    any-append is_conflict s.findings (f ∷ []) ∙ ground (arith, own, calm)

pub add_unless-Calm :
    (b : Bool) (f : Finding) (s : LintState) → b ≡ true → Calm s → Calm (add_unless b f s)
add_unless-Calm true f s h calm = calm
add_unless-Calm false f s h calm = cc

unless_err :
    {A : Type 0} (b : Bool) (a : A) {r : A}
    → (if b then err authoring_limit else ok a) ≡ ok r
    → a ≡ r
unless_err true a h = cc
unless_err false a h = ok-injective a _ h

pub charge-Calm :
    (bytes : ℕ) (s : LintState) {t : LintState} → charge bytes s ≡ ok t → Calm s → Calm t
charge-Calm bytes s h calm =
    subst Calm (unless_err (ltb max_authoring_work_bytes (s.work + bytes)) _ h) calm

module _ ⦃repr : FloatText⦄ where
  -- The rule accepts the value, which is in its domain where it has one.
  abbrev pub Held : Value → Rule → Type 0
  Held v r = Meets r.kind r v × ((d : List Value) → domain r ≡ some d → Listed v d)

  -- A finite domain with the value, and the value's text.
  abbrev pub FiniteHeld : Value → Rule × List Value → Type 0
  FiniteHeld v x = Listed v x.1 × ((t : Text) × (canonical_json v ≡ some t))

  pub finite_of-Held :
      (v : Value) (rules : List Rule) → All (Held v) rules → All (FiniteHeld v) (finite_of rules)
  unfolding finite_of
  finite_of-Held v [] h = tt
  finite_of-Held v (r ∷ rules) h = elim (Option-cases (domain r)) [
    | inl e ↦ rw (e, All, finite_of) (finite_of-Held v rules h.1)
    | inr (d, e) ↦
        rw (e, All, finite_of)
          ((h.0.1 d e, unfold domain in value_text r.kind r v e h.0.0), finite_of-Held v rules h.1)
  ]

  check_filters-Calm :
      (path : Text) (finite : List (Rule × List Value)) (filters : List Rule) (values : List Value)
      (s : LintState) (v : Value) {t : LintState}
      → Listed v values
      → All (λ (r : Rule). Meets r.kind r v) filters
      → check_filters path finite filters values s ≡ ok t
      → Calm s
      → Calm t
  unfolding check_filters some_survives
  check_filters-Calm path finite [] values s v listed m h calm =
      subst Calm (ok-injective _ _ h) calm
  check_filters-Calm path finite (f ∷ filters) values s v listed m h calm =
      let (charged, hc, h1) =
        >>=-eq-ok (charge (length (f ∷ filters) * value_bytes values) s) _ h in
      subst Calm (ok-injective _ _ h1) (
        add_unless-Calm (some_survives (f ∷ filters) values) _ charged
          (any-Listed (λ w. all (passes_alone w) (f ∷ filters)) v values listed
            (passes_alone-Meets (f ∷ filters) v m))
          (charge-Calm _ s hc calm))

  check_allowed-Calm :
      (path : Text) (finite : List (Rule × List Value)) (filters : List Rule) (values : List Value)
      (allowed : List Text) (s : LintState) (v : Value) {text : Text} {t : LintState}
      → canonical_json v ≡ some text
      → contains allowed text ≡ true
      → Listed v values
      → All (λ (r : Rule). Meets r.kind r v) filters
      → check_allowed path finite filters values allowed s ≡ ok t
      → Calm s
      → Calm t
  check_allowed-Calm path finite filters values [] s v e here listed m h calm =
      unfold contains in cc
  check_allowed-Calm path finite filters values (a ∷ allowed) s v e here listed m h calm =
      check_filters-Calm path finite filters (survivors (a ∷ allowed) values) s v
        (survivors-Listed (a ∷ allowed) values v e here listed) m h calm

  values_in :
      (v : Value) (finite : List (Rule × List Value))
      → All (FiniteHeld v) finite
      → All (λ (x : Rule × List Value). Listed v x.1) finite
  values_in v [] h = tt
  values_in v (x ∷ finite) h = (h.0.0, values_in v finite h.1)

  pub check_domains-Calm :
      (path : Text) (filters : List Rule) (finite : List (Rule × List Value)) (s : LintState)
      (v : Value) {t : LintState}
      → All (FiniteHeld v) finite
      → All (λ (r : Rule). Meets r.kind r v) filters
      → check_domains path filters finite s ≡ ok t
      → Calm s
      → Calm t
  unfolding check_domains
  check_domains-Calm path filters [] s v held m h calm = subst Calm (ok-injective _ _ h) calm
  check_domains-Calm path filters ((r, d) ∷ finite) s v held m h calm =
      let (text, e) = held.0.1 in
      check_allowed-Calm path ((r, d) ∷ finite) filters d (narrow (value_markers d) finite) s v e
        (allowed_listed r d finite v e (values_in v ((r, d) ∷ finite) held)) held.0.0 m h calm

  pub check_duplicates-Calm :
      (path : Text) (seen : List (Text × Rule)) (rules : List Rule) (s : LintState)
      → Calm s
      → Calm (check_duplicates path seen rules s)
  unfolding check_duplicates finding
  check_duplicates-Calm path seen [] s calm = calm
  check_duplicates-Calm path seen (r ∷ rules) s calm =
      elim (Option-cases (seen_rule seen (constraint_marker r))) [
        | inl e ↦
            rw (e, check_duplicates)
              (check_duplicates-Calm path ((constraint_marker r, r) ∷ seen) rules s calm)
        | inr (first, e) ↦
            rw (e, check_duplicates)
              (check_duplicates-Calm path seen rules
                (add_finding (finding duplicate_constraint path (first ∷ r ∷ [])) s)
                (add_finding-Calm (finding duplicate_constraint path (first ∷ r ∷ [])) s refl calm))
      ]
