-- ===== src/Probes/Hits.antt =====
-- A probe that hits the rule which it targets.
use constitutional_agent_tes.Base.{
  ◌≡◌, refl, sym, ap, ◌∙◌, ◌⊎◌, inl, inr, Bool-cases, true, false, ◌||◌, not, List, [], ◌∷◌, ◌++◌,
  map, arith, Text, same, same→eq, contains, insert_sorted, sort_names, keep, All,
}
use constitutional_agent_tes.Json.{Value, obj, Fields}
use constitutional_agent_tes.Json.Encode.{FloatText}
use constitutional_agent_tes.Policy.{Rule, Policy}
use constitutional_agent_tes.Evaluator.{
  RuleResult, CompiledRule, compile, compile_rule, evaluate_rule, evaluate_checked,
  evaluate_compiled_rule,
}
use constitutional_agent_tes.Evaluator.Compiled.{evaluate_compiled_rule-compile_rule}
use constitutional_agent_tes.Evaluator.Satisfies.{Some, Satisfies, evaluate_rule-Satisfies}
use constitutional_agent_tes.Suite.{Case}
use constitutional_agent_tes.Probes.{Mutation, modes, Probe, failed_ids}
use constitutional_agent_tes.Probes.Mutated.{Mutated, All-Some}

-- Sorting keeps the names.
contains-insert_sorted :
    (n : Text) (names : List Text) (m : Text)
    → contains (insert_sorted n names) m ≡ (same n m || contains names m)
unfolding contains insert_sorted
contains-insert_sorted n [] m = refl
contains-insert_sorted n (k ∷ names) m = ground (arith, contains-insert_sorted n names m)

contains-sort_names :
    (names : List Text) (m : Text) → contains (sort_names names) m ≡ contains names m
unfolding contains sort_names
contains-sort_names [] m = refl
contains-sort_names (n ∷ names) m =
    contains-insert_sorted n (sort_names names) m
    ∙ ap (λ b. same n m || b) (contains-sort_names names m)

-- Two lists whose members are related in pairs.
abbrev pub Paired : {A B : Type 0} → (A → B → Type 0) → List A → List B → Type 0
Paired R [] [] = Unit
Paired R (x ∷ xs) (y ∷ ys) = R x y × Paired R xs ys
Paired R _ _ = ⊥

pub Paired-snoc :
    {A B : Type 0} (R : A → B → Type 0) (xs : List A) (ys : List B) (x : A) (y : B)
    → Paired R xs ys
    → R x y
    → Paired R (xs ++ x ∷ []) (ys ++ y ∷ [])
Paired-snoc R [] [] x y h r = (r, tt)
Paired-snoc R [] (b ∷ ys) x y h r = absurd h
Paired-snoc R (a ∷ xs) [] x y h r = absurd h
Paired-snoc R (a ∷ xs) (b ∷ ys) x y h r = (h.0, Paired-snoc R xs ys x y h.1 r)

abbrev failed_names : List RuleResult → List Text
failed_names xs = map (λ (x : RuleResult). x.rule_id) (keep (λ (x : RuleResult). not x.passed) xs)

failed_names-cases :
    (x : RuleResult) (xs : List RuleResult) (name : Text)
    → contains (failed_names (x ∷ xs)) name ≡ true
    → ((x.passed ≡ false) × (x.rule_id ≡ name)) ⊎ (contains (failed_names xs) name ≡ true)
unfolding contains
failed_names-cases x xs name h = elim (Bool-cases x.passed) [
  | inl passed ↦ inr (rw passed at h)
  | inr failed ↦ elim (Bool-cases (same x.rule_id name)) [
    | inl here ↦ inl (failed, same→eq x.rule_id name here)
    | inr later ↦ inr (rw later at (rw failed at h))
  ]
]

module _ ⦃repr : FloatText⦄ where
  -- Some rule of the list has the identifier, and the response violates it.
  abbrev pub Violates : List Rule → Value → Text → Type 0
  Violates rules response name = Some (λ r. (r.rule_id ≡ name) × ¬ (Satisfies response r)) rules

  pub failed-Violates :
      (rules : List Rule) (response : Value) (name : Text)
      → contains
          (failed_names (map (λ c. evaluate_compiled_rule c response) (map compile_rule rules)))
          name
        ≡ true
      → Violates rules response name
  unfolding contains evaluate_rule
  failed-Violates [] response name h = cc
  failed-Violates (r ∷ rules) response name h =
      let results = map (λ c. evaluate_compiled_rule c response) (map compile_rule rules) in
      let same_result = evaluate_compiled_rule-compile_rule r response in
      elim (failed_names-cases (evaluate_rule r response) results name
        (ap (λ x. contains (failed_names (x ∷ results)) name) (sym same_result) ∙ h)) [
          | inl (failed, same_id) ↦
              inl (same_id, λ s. cc (failed, (evaluate_rule-Satisfies r response).1 s))
          | inr later ↦ inr (failed-Violates rules response name later)
        ]

  pub failed_ids-failed :
      (policy_id : Text) (cs : List CompiledRule) (response : Value) (name : Text)
      → contains (failed_ids (evaluate_checked policy_id cs response)) name ≡ true
      → contains (failed_names (map (λ c. evaluate_compiled_rule c response) cs)) name ≡ true
  unfolding failed_ids evaluate_checked
  failed_ids-failed policy_id cs response name h =
      sym
        (contains-sort_names (failed_names (map (λ c. evaluate_compiled_rule c response) cs)) name)
      ∙ h

  -- Where a response satisfies all rules, it violates none.
  pub satisfied-Violates :
      (rules : List Rule) (response : Value) (name : Text)
      → All (Satisfies response) rules
      → Violates rules response name
      → ⊥
  satisfied-Violates rules response name good h =
      let (r, holds, (same_id, fails)) = All-Some rules good h in fails holds

  -- A probe and its case: the response of the case is the mutation of the baseline at the path of the
  -- rule that the probe targets, violates this rule and is expected to fail, and the probe lists the
  -- rules that its evaluation fails.
  pub record Hits (p : Policy) (baseline : Fields) (x : Probe) (c : Case) : Type 0 where
    pub same_case : c.case_id ≡ x.case_id
    pub expected : c.expected_passed ≡ false
    pub mutated :
        Some
          (λ (r : Rule). (r.rule_id ≡ x.target_rule_id) × Mutated x.mutation baseline r c.response)
          p.rules
    pub violated : Violates p.rules (obj c.response) x.target_rule_id
    pub listed :
        x.failed_rule_ids ≡ failed_ids (evaluate_checked p.policy_id (compile p) (obj c.response))

-- The mutations that each rule gets.
abbrev pub planned : List Rule → List (Text × Mutation)
planned [] = []
planned (r ∷ rules) = map (λ m. (r.rule_id, m)) (modes r.kind) ++ planned rules

abbrev pub targets : List Probe → List (Text × Mutation)
targets probes = map (λ (x : Probe). (x.target_rule_id, x.mutation)) probes
