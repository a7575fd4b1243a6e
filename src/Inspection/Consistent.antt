-- ===== src/Inspection/Consistent.antt =====
-- What the groups of equal responses in inspect_suite tell of the expectations.
use constitutional_agent_tes.Base.{
  ◌≡◌, refl, sym, ap, ◌∙◌, inl, inr, Bool, Bool-cases, true, false, ◌&&◌, ◌||◌, not, List, [], ◌∷◌,
  ◌++◌, map, arith, any, keep, Text, same, same→eq, eq→same, if◌then◌else◌,
}
use mathlib.Core.List.{append_assoc, append-nil}
use constitutional_agent_tes.Json.{obj}
use constitutional_agent_tes.Json.Encode.{FloatText, canonical_json}
use constitutional_agent_tes.Evaluator.Satisfies.{Some}
use constitutional_agent_tes.Precedence.Report.{text_or_empty}
use constitutional_agent_tes.Suite.{Case, Suite}
use constitutional_agent_tes.Inspection.{
  DuplicateGroup, mixed_verdicts, has_two, duplicate_group, add_response, group_responses,
  suite_inventory, conflicting, all_assertions,
}

any-holds :
    {A : Type 0} (p : A → Bool) (xs : List A) (x : A)
    → Some (λ y. y ≡ x) xs
    → p x ≡ true
    → any p xs ≡ true
any-holds p [] x own h = absurd own
any-holds p (y ∷ ys) x (inl e) h = let here = ap p e ∙ h in ground (arith, here)
any-holds p (y ∷ ys) x (inr own) h = let there = any-holds p ys x own h in ground (arith, there)

keep-holds :
    {A : Type 0} (p : A → Bool) (xs : List A) (x : A)
    → Some (λ y. y ≡ x) xs
    → p x ≡ true
    → Some (λ y. y ≡ x) (keep p xs)
keep-holds p [] x own h = own
keep-holds p (y ∷ ys) x (inl e) h = rw (ap p e ∙ h) (inl e)
keep-holds p (y ∷ ys) x (inr own) h = elim (Bool-cases (p y)) [
  | inl e ↦ rw e (inr (keep-holds p ys x own h))
  | inr e ↦ rw e (keep-holds p ys x own h)
]

-- Where no two verdicts differ, any two cases have one verdict.
mixed_verdicts-same :
    (cases : List Case) (c d : Case)
    → mixed_verdicts cases ≡ false
    → Some (λ x. x ≡ c) cases
    → Some (λ x. x ≡ d) cases
    → c.expected_passed ≡ d.expected_passed
mixed_verdicts-same cases c d pure own other =
    let passes : c.expected_passed ≡ true → any (λ (x : Case). x.expected_passed) cases ≡ true =
      any-holds (λ (x : Case). x.expected_passed) cases c own in
    let fails : not c.expected_passed ≡ true
        → any (λ (x : Case). not x.expected_passed) cases ≡ true =
      any-holds (λ (x : Case). not x.expected_passed) cases c own in
    let passes_too : d.expected_passed ≡ true → any (λ (x : Case). x.expected_passed) cases ≡ true =
      any-holds (λ (x : Case). x.expected_passed) cases d other in
    let fails_too : not d.expected_passed ≡ true
        → any (λ (x : Case). not x.expected_passed) cases ≡ true =
      any-holds (λ (x : Case). not x.expected_passed) cases d other in
    one_verdict c.expected_passed d.expected_passed (any (λ (x : Case). x.expected_passed) cases)
      (any (λ (x : Case). not x.expected_passed) cases) passes fails passes_too fails_too pure
  where
    one_verdict :
        (a b some_pass some_fail : Bool)
        → (a ≡ true → some_pass ≡ true)
        → (not a ≡ true → some_fail ≡ true)
        → (b ≡ true → some_pass ≡ true)
        → (not b ≡ true → some_fail ≡ true)
        → (some_pass && some_fail) ≡ false
        → a ≡ b
    one_verdict true true x y p q r t h = refl
    one_verdict false false x y p q r t h = refl
    one_verdict true false x y p q r t h = ground (arith, p refl, t refl, h)
    one_verdict false true x y p q r t h = ground (arith, r refl, q refl, h)

abbrev some_conflict : List (Text × List Case) → Bool
some_conflict groups =
    any (λ (d : DuplicateGroup). d.conflicting_expectations)
      (map (λ (g : Text × List Case). duplicate_group g.1)
        (keep (λ (g : Text × List Case). has_two g.1) groups))

-- Without a conflict, the first group has one verdict and the others have no conflict.
some_conflict-cons :
    (m : Text) (cases : List Case) (groups : List (Text × List Case))
    → some_conflict ((m, cases) ∷ groups) ≡ false
    → (mixed_verdicts cases ≡ false) × (some_conflict groups ≡ false)
unfolding duplicate_group
some_conflict-cons m [] groups h = (refl, h)
some_conflict-cons m (c ∷ []) groups h = (ground arith, h)
some_conflict-cons m (c ∷ d ∷ cases) groups h =
    both (mixed_verdicts (c ∷ d ∷ cases)) (conflicting [] (all_assertions (c ∷ d ∷ cases)))
      (some_conflict groups) h
  where
    both : (a b x : Bool) → ((a || b) || x) ≡ false → (a ≡ false) × (x ≡ false)
    both a b x h = (ground arith, ground arith)

-- The cases that are listed under a marker.
abbrev group_of : Text → List (Text × List Case) → List Case
group_of m [] = []
group_of m ((n, cases) ∷ groups) = if same n m then cases else group_of m groups

some_conflict-group_of :
    (m : Text) (groups : List (Text × List Case))
    → some_conflict groups ≡ false
    → mixed_verdicts (group_of m groups) ≡ false
some_conflict-group_of m [] h = refl
some_conflict-group_of m ((n, cases) ∷ groups) h =
    let (one, others) = some_conflict-cons n cases groups h in
    elim (Bool-cases (same n m)) [
      | inl e ↦ rw e one
      | inr e ↦ rw e (some_conflict-group_of m groups others)
    ]

module _ ⦃repr : FloatText⦄ where
  -- `canonical_json(case["response"])`
  abbrev pub marker_of : Case → Text
  marker_of c = text_or_empty (canonical_json (obj c.response))

  abbrev with_marker : Text → List Case → List Case
  with_marker m cases = keep (λ (c : Case). same (marker_of c) m) cases

  group_of-add_response :
      (m : Text) (c : Case) (groups : List (Text × List Case))
      → group_of m (add_response c groups) ≡ group_of m groups ++ with_marker m (c ∷ [])
  unfolding add_response
  group_of-add_response m c [] = refl
  group_of-add_response m c ((n, cases) ∷ groups) = elim (Bool-cases (same n (marker_of c))) [
    | inl e ↦ rw e (elim (Bool-cases (same n m)) [
      | inl f ↦ rw (f, eq→same (marker_of c) m (sym (same→eq n _ e) ∙ same→eq n m f)) refl
      | inr f ↦
          rw (f, ap (λ (k : Text). same k m) (sym (same→eq n _ e)) ∙ f)
            (sym (append-nil (group_of m groups)))
    ])
    | inr e ↦ rw e (elim (Bool-cases (same n m)) [
      | inl f ↦ elim (Bool-cases (same (marker_of c) m)) [
        | inl g ↦ cc (e, eq→same n (marker_of c) (same→eq n m f ∙ sym (same→eq _ m g)))
        | inr g ↦ rw (f, g) (sym (append-nil cases))
      ]
      | inr f ↦ rw f (group_of-add_response m c groups)
    ])
  ]

  group_of-group_responses :
      (m : Text) (cases : List Case) (groups : List (Text × List Case))
      → group_of m (group_responses cases groups) ≡ group_of m groups ++ with_marker m cases
  unfolding group_responses
  group_of-group_responses m [] groups = sym (append-nil (group_of m groups))
  group_of-group_responses m (c ∷ cases) groups =
      group_of-group_responses m cases (add_response c groups)
      ∙ ap (λ xs. xs ++ with_marker m cases) (group_of-add_response m c groups)
      ∙ append_assoc (group_of m groups) (with_marker m (c ∷ [])) (with_marker m cases)
      ∙ ap (λ xs. group_of m groups ++ xs) (split m c cases)
    where
      split :
          (m : Text) (c : Case) (cases : List Case)
          → with_marker m (c ∷ []) ++ with_marker m cases ≡ with_marker m (c ∷ cases)
      split m c cases = elim (Bool-cases (same (marker_of c) m)) [
        | inl e ↦ rw e refl
        | inr e ↦ rw e refl
      ]

  -- Cases whose responses have one canonical text are expected to have one verdict.
  abbrev pub Consistent : List Case → Type 0
  Consistent cases =
      (c d : Case)
      → Some (λ x. x ≡ c) cases
      → Some (λ x. x ≡ d) cases
      → canonical_json (obj c.response) ≡ canonical_json (obj d.response)
      → c.expected_passed ≡ d.expected_passed

  pub suite_inventory-Consistent :
      (s : Suite) → (suite_inventory s).consistent_expectations ≡ true → Consistent s.cases
  unfolding suite_inventory
  suite_inventory-Consistent s h c d own other same_response =
      let m = marker_of c in
      let same_marker : marker_of d ≡ m = ap text_or_empty (sym same_response) in
      let groups = group_responses s.cases [] in
      let calm : mixed_verdicts (with_marker m s.cases) ≡ false =
        ap mixed_verdicts (sym (group_of-group_responses m s.cases []))
        ∙ some_conflict-group_of m groups (not-true (some_conflict groups) h) in
      mixed_verdicts-same (with_marker m s.cases) c d calm
        (keep-holds (λ (x : Case). same (marker_of x) m) s.cases c own (eq→same m m refl))
        (keep-holds (λ (x : Case). same (marker_of x) m) s.cases d other
          (eq→same (marker_of d) m same_marker))
    where
      not-true : (b : Bool) → not b ≡ true → b ≡ false
      not-true true h = cc
      not-true false h = refl
