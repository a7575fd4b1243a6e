-- ===== src/Precedence/Witness/Steady.antt =====
-- Observations that show the same of every rule: no search finds a witness of another meaning.
use constitutional_agent_tes.Base.{
  ◌≡◌, refl, sym, ap, subst, ◌∙◌, inl, inr, Bool, Bool-cases, true, false, Option-cases, none, some,
  List, [], ◌∷◌, arith, Text, same, same→eq, same_refl, text_le, All, ok,
}
use mathlib.Core.Option.{some-injective}
use constitutional_agent_tes.Json.{Value}
use constitutional_agent_tes.Json.Encode.{FloatText}
use constitutional_agent_tes.Precedence.Result.{same_bool}
use constitutional_agent_tes.Precedence.Projections.{
  Evidence, Projections, find, different, same_names,
}
use constitutional_agent_tes.Precedence.Witness.{
  Observations, observed, insert_pair, sort_pairs, Firsts, scan_items, scan_orders, same_evidence,
  Aggregates, find_aggregate, scan_overall,
}

-- What every order shows: the verdict, the participation, and for a rule its verdict and evidence.
pub record Meaning : Type 0 where
  pub overall : Bool
  pub rows : Value
  pub pass_of : Text → Bool
  pub evidence_for : Text → Evidence

-- The pairs of a dict are those of a function of the key.
abbrev pub IsGraph {ℓ} : {A : Type ℓ} → (Text → A) → List (Text × A) → Type ℓ
IsGraph f pairs = All (λ x. x.1 ≡ f x.0) pairs

pub record Steady (m : Meaning) (p : Projections) : Type 0 where
  pub overall : p.overall_pass ≡ m.overall
  pub rows : p.participation ≡ m.rows
  pub complete : p.participation_complete ≡ true
  pub passes : IsGraph m.pass_of p.rule_passes
  pub evidence : IsGraph m.evidence_for p.reason_by_rule

-- Every observation shows the meaning.
abbrev pub AllSteady : Meaning → Observations → Type 0
AllSteady m os = All (λ (o : List Text × Projections). Steady m o.1) os

pub observed-Steady :
    (m : Meaning) (order : List Text) (os : Observations) {p : Projections}
    → AllSteady m os
    → observed order os ≡ some p
    → Steady m p
unfolding observed
observed-Steady m order [] s h = cc
observed-Steady m order ((o, q) ∷ os) s h = elim (Bool-cases (same_names o order)) [
  | inl e ↦ subst (Steady m) (some-injective q _ (rw e at h)) s.0
  | inr e ↦ observed-Steady m order os s.1 (rw e at h)
]

module _ {A : Type 0} (f : Text → A) where
  insert_pair-IsGraph :
      (k : Text) (a : A) (pairs : List (Text × A))
      → a ≡ f k
      → IsGraph f pairs
      → IsGraph f (insert_pair k a pairs)
  unfolding insert_pair
  insert_pair-IsGraph k a [] e g = (e, tt)
  insert_pair-IsGraph k a ((j, b) ∷ pairs) e g = elim (Bool-cases (text_le k j)) [
    | inl before ↦ rw before (e, g)
    | inr after ↦ rw after (g.0, insert_pair-IsGraph k a pairs e g.1)
  ]

  sort_pairs-IsGraph : (pairs : List (Text × A)) → IsGraph f pairs → IsGraph f (sort_pairs pairs)
  unfolding sort_pairs
  sort_pairs-IsGraph [] g = tt
  sort_pairs-IsGraph ((k, a) ∷ pairs) g =
      insert_pair-IsGraph k a (sort_pairs pairs) g.0 (sort_pairs-IsGraph pairs g.1)

  -- The values first seen are those of the function.
  abbrev Known : Firsts A → Type 0
  Known firsts = All (λ x. (x.1).0 ≡ f x.0) firsts

  find-Known :
      (key : Text) (firsts : Firsts A) {prior : A × List Text}
      → Known firsts
      → find key firsts ≡ some prior
      → prior.0 ≡ f key
  unfolding find
  find-Known key [] g h = cc
  find-Known key ((k, a) ∷ firsts) {prior} g h = elim (Bool-cases (same k key)) [
    | inl e ↦
        ap (λ (x : A × List Text). x.0) (sym (some-injective a prior (rw e at h)))
        ∙ (g.0 ∙ ap f (same→eq k key e))
    | inr e ↦ find-Known key firsts g.1 (rw e at h)
  ]

  module _ (equal : A → A → Bool) (equal_refl : (a : A) → equal a a ≡ true)
      (witness : Text → A → List Text → A → List Text → Value) where
    scan_items-Known :
        (order : List Text) (items : List (Text × A)) (firsts : Firsts A)
        → IsGraph f items
        → Known firsts
        → (next : Firsts A) × (scan_items equal witness order items firsts ≡ ok next) × Known next
    unfolding scan_items
    scan_items-Known order [] firsts g k = (firsts, refl, k)
    scan_items-Known order ((key, a) ∷ items) firsts g k = elim (Option-cases (find key firsts)) [
      | inl fresh ↦
          let (next, done, known) =
            scan_items-Known order items ((key, (a, order)) ∷ firsts) g.1 (g.0, k) in
          (next, rw (scan_items, fresh) done, known)
      | inr (prior, seen) ↦
          let alike : equal a prior.0 ≡ true =
            ap (equal a) (find-Known key firsts k seen ∙ sym g.0) ∙ equal_refl a in
          let (next, done, known) = scan_items-Known order items firsts g.1 k in
          (next, rw (scan_items, seen, alike) done, known)
    ]

    pub scan_orders-Known :
        (items : Projections → List (Text × A)) (m : Meaning)
        → ((p : Projections) → Steady m p → IsGraph f (items p))
        → (orders : List (List Text)) (os : Observations) (firsts : Firsts A) → AllSteady m os
        → Known firsts
        → (next : Firsts A) × (scan_orders equal witness items orders os firsts ≡ ok next)
    unfolding scan_orders
    scan_orders-Known items m graph [] os firsts s k = (firsts, refl)
    scan_orders-Known items m graph (order ∷ orders) os firsts s k =
        elim (Option-cases (observed order os)) [
          | inl absent ↦
              let (next, done) = scan_orders-Known items m graph orders os firsts s k in
              (next, rw (scan_orders, absent) done)
          | inr (p, seen) ↦
              let steady = observed-Steady m order os s seen in
              let (later, scanned, known) =
                scan_items-Known order (sort_pairs (items p)) firsts
                  (sort_pairs-IsGraph (items p) (graph p steady)) k in
              let (next, done) = scan_orders-Known items m graph orders os later s known in
              (next, rw (scan_orders, seen, scanned) done)
        ]

pub same_bool_refl : (b : Bool) → same_bool b b ≡ true
same_bool_refl true = refl
same_bool_refl false = refl

pub same_evidence_refl : (e : Evidence) → same_evidence e e ≡ true
same_evidence_refl e = ground (arith, same_refl e.kind, same_refl e.path, same_refl e.reason_code)

module _ ⦃repr : FloatText⦄ where
  -- The aggregates first seen are the one verdict.
  abbrev Agreed : Meaning → Aggregates → Type 0
  Agreed m seen = All (λ (x : Value × Bool × List Text). x.1 ≡ m.overall) seen

  find_aggregate-Agreed :
      (m : Meaning) (rows : Value) (seen : Aggregates) {prior : Value × Bool × List Text}
      → Agreed m seen
      → find_aggregate rows seen ≡ some prior
      → prior.1 ≡ m.overall
  unfolding find_aggregate
  find_aggregate-Agreed m rows [] g h = cc
  find_aggregate-Agreed m rows ((v, b, order) ∷ seen) {prior} g h =
      elim (Bool-cases (different v rows)) [
        | inl e ↦ find_aggregate-Agreed m rows seen g.1 (rw e at h)
        | inr e ↦
            ap (λ (x : Value × Bool × List Text). x.1)
              (sym (some-injective (v, b, order) prior (rw e at h)))
            ∙ g.0
      ]

  pub scan_overall-none :
      (m : Meaning) (orders : List (List Text)) (os : Observations) (seen : Aggregates)
      → AllSteady m os
      → Agreed m seen
      → scan_overall orders os seen ≡ none
  unfolding scan_overall
  scan_overall-none m [] os seen s g = refl
  scan_overall-none m (order ∷ orders) os seen s g = elim (Option-cases (observed order os)) [
    | inl absent ↦ rw (scan_overall, absent) (scan_overall-none m orders os seen s g)
    | inr (p, shown) ↦
        let steady = observed-Steady m order os s shown in
        elim (Option-cases (find_aggregate p.participation seen)) [
          | inl fresh ↦
              rw (scan_overall, shown, fresh)
                (scan_overall-none m orders os ((p.participation, p.overall_pass, order) ∷ seen) s
                  (steady.overall, g))
          | inr (prior, found) ↦
              let alike : same_bool p.overall_pass prior.1 ≡ true =
                ap (λ b. same_bool b prior.1)
                  (steady.overall ∙ sym (find_aggregate-Agreed m p.participation seen g found))
                ∙ same_bool_refl prior.1 in
              rw (scan_overall, shown, found, alike) (scan_overall-none m orders os seen s g)
        ]
  ]
