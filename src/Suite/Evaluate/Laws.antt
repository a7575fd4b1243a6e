-- ===== src/Suite/Evaluate/Laws.antt =====
-- What the report of evaluate_suite says.
use constitutional_agent_tes.Base.{
  suc, ◌≡◌, refl, ap, subst, ◌↔◌, Bool, true, false, List, [], ◌∷◌, arith, Text, all, All, length,
  ok, >>=-eq-ok, ok-injective,
}
use constitutional_agent_tes.Json.{Value, obj}
use constitutional_agent_tes.Json.Encode.{FloatText}
use constitutional_agent_tes.Policy.{Policy}
use constitutional_agent_tes.Evaluator.{
  EvaluationResult, check_response, compile, evaluate_checked, evaluate_compiled,
}
use constitutional_agent_tes.Evaluator.Results.{check_response-same}
use constitutional_agent_tes.Evaluator.Satisfies.{Satisfies, evaluate_checked-Satisfies}
use constitutional_agent_tes.Precedence.Result.{same_bool}
use constitutional_agent_tes.Suite.{Case, Suite}
use constitutional_agent_tes.Suite.Evaluate.{
  CaseReport, SuiteReport, case_report, count_mismatches, evaluate_cases, evaluate_fixtures,
}

count_mismatches_iff :
    (rs : List CaseReport)
    → (all (λ (r : CaseReport). r.matches_expectation) rs ≡ true) ↔ (count_mismatches rs ≡ 0)
count_mismatches_iff [] = ((λ e. refl), (λ e. refl))
count_mismatches_iff (r ∷ rs) = ground (arith, count_mismatches_iff rs)

same_bool→eq : (a b : Bool) → same_bool a b ≡ true → a ≡ b
same_bool→eq true true h = refl
same_bool→eq true false h = cc
same_bool→eq false true h = cc
same_bool→eq false false h = refl

-- A case that matches its expectation was expected to end as it did.
matches-expected :
    (version : Text) (c : Case) (x : EvaluationResult)
    → (case_report version c x).matches_expectation ≡ true
    → x.passed ≡ c.expected_passed
unfolding case_report
matches-expected version c x h = same_bool→eq x.passed c.expected_passed (ground arith)

same_expectation :
    {P : Type 0} (passed expected : Bool)
    → (passed ≡ true) ↔ P
    → passed ≡ expected
    → (expected ≡ true) ↔ P
same_expectation {P} passed expected h e = subst (λ b. (b ≡ true) ↔ P) e h

module _ ⦃repr : FloatText⦄ where
  pub evaluate_compiled-eq-ok :
      (p : Policy) (v : Value) {x : EvaluationResult}
      → evaluate_compiled p.policy_id (compile p) v ≡ ok x
      → (x.passed ≡ true) ↔ All (Satisfies v) p.rules
  unfolding evaluate_compiled
  evaluate_compiled-eq-ok p v h =
      let (w, hw, h1) = >>=-eq-ok (check_response v) _ h in
      let result = ok-injective _ _ h1 in
      subst (λ (x : EvaluationResult). (x.passed ≡ true) ↔ All (Satisfies v) p.rules) result
        (subst
          (λ u.
            ((evaluate_checked p.policy_id (compile p) u).passed ≡ true)
            ↔ All (Satisfies v) p.rules)
          (check_response-same v hw) (evaluate_checked-Satisfies p v))

  -- The expectation of a case is the one that the policy's rules give its response.
  abbrev pub AsExpected : Policy → Case → Type 0
  AsExpected p c = (c.expected_passed ≡ true) ↔ All (Satisfies (obj c.response)) p.rules

  pub evaluate_cases-AsExpected :
      (version : Text) (p : Policy) (cases : List Case) {reports : List CaseReport}
      → evaluate_cases version p.policy_id (compile p) cases ≡ ok reports
      → (length reports ≡ length cases)
        × (all (λ (r : CaseReport). r.matches_expectation) reports ≡ true
            → All (AsExpected p) cases)
  unfolding evaluate_cases
  evaluate_cases-AsExpected version p [] h =
      subst
        (λ reports.
          (length reports ≡ 0)
          × (all (λ (r : CaseReport). r.matches_expectation) reports ≡ true → Unit))
        (ok-injective _ _ h) (refl, λ e. tt)
  evaluate_cases-AsExpected version p (c ∷ cases) h =
      let (x, hx, h1) =
        >>=-eq-ok (evaluate_compiled p.policy_id (compile p) (obj c.response)) _ h in
      let (rest, hr, h2) = >>=-eq-ok (evaluate_cases version p.policy_id (compile p) cases) _ h1 in
      let (size, later) = evaluate_cases-AsExpected version p cases hr in
      let one =
        same_expectation x.passed c.expected_passed
          (evaluate_compiled-eq-ok p (obj c.response) hx) in
      subst
        (λ reports.
          (length reports ≡ suc (length cases))
          × (all (λ (r : CaseReport). r.matches_expectation) reports ≡ true
              → All (AsExpected p) (c ∷ cases)))
        (ok-injective _ _ h2)
        (
          ap suc size,
          λ e. (one (matches-expected version c x (ground arith)), later (ground arith)),
        )

  -- What a report promises of the policy and the suite that were evaluated.
  pub record GoodReport (p : Policy) (s : Suite) (r : SuiteReport) : Type 0 where
    pub size : r.case_count ≡ length s.cases
    pub counted : (r.matches_expectations ≡ true) ↔ (r.mismatch_count ≡ 0)
    pub expected : r.matches_expectations ≡ true → All (AsExpected p) s.cases

  -- A report on a validated policy and suite counts every case, matches exactly where it counts no
  -- mismatch, and where it matches, each case is expected to pass exactly when its response satisfies
  -- every rule of the policy.
  pub evaluate_fixtures-GoodReport :
      (p : Policy) (s : Suite) {r : SuiteReport} → evaluate_fixtures p s ≡ ok r → GoodReport p s r
  unfolding evaluate_fixtures
  evaluate_fixtures-GoodReport p s h =
      let (reports, hr, h1) =
        >>=-eq-ok (evaluate_cases s.suite_version p.policy_id (compile p) s.cases) _ h in
      let (size, expected) = evaluate_cases-AsExpected s.suite_version p s.cases hr in
      subst (GoodReport p s) (ok-injective _ _ h1)
        (record { size = size; counted = count_mismatches_iff reports; expected = expected })
