-- ===== src/Synthetic/Generate/Laws.antt =====
-- What generate_synthetic_cases returns: a response that satisfies the policy and one that does not.
use constitutional_agent_tes.Base.{
  ◌≡◌, refl, sym, ap, ◌∙◌, subst, Bool, true, false, not, Option, none, some, List, [], Text, All,
  ok, >>=-eq-ok, guard-eq-ok, ok-injective, map_err-eq-ok,
}
use constitutional_agent_tes.Json.{Value, obj, Fields}
use constitutional_agent_tes.Json.Encode.{FloatText}
use constitutional_agent_tes.Policy.{Policy}
use constitutional_agent_tes.Errors.{synthetic_failed, no_passing, no_failing}
use constitutional_agent_tes.Evaluator.{
  EvaluationResult, CompiledRule, check_response, compile, evaluate_checked, evaluate_compiled,
}
use constitutional_agent_tes.Evaluator.Results.{check_response-same}
use constitutional_agent_tes.Evaluator.Satisfies.{Satisfies, evaluate_checked-Satisfies}
use constitutional_agent_tes.Synthetic.Paths.{delete_path}
use constitutional_agent_tes.Synthetic.Generate.{
  Bundle, SyntheticCase, first_path, deleted, verify, response_failure, build_paths, sort_groups,
  group_rules, generate,
}

not-false : (b : Bool) → not b ≡ true → b ≡ false
not-false true h = cc
not-false false h = refl

deleted-eq-ok : (o : Option Fields) {fs : Fields} → deleted o ≡ ok fs → o ≡ some fs
deleted-eq-ok none h = cc
deleted-eq-ok (some gs) h = ap some (ok-injective gs _ h)

module _ ⦃repr : FloatText⦄ where
  -- A case that holds an accepted response with its evaluation, and whether that passed.
  pub record Verified (p : Policy) (passed : Bool) (c : SyntheticCase) : Type 0 where
    pub accepted : check_response (obj c.response) ≡ ok (obj c.response)
    pub evaluated : c.evaluation ≡ evaluate_checked p.policy_id (compile p) (obj c.response)
    pub verdict : c.evaluation.passed ≡ passed

  pub record Separates (p : Policy) (b : Bundle) : Type 0 where
    pub passing : Verified p true b.passing_case
    pub failing : Verified p false b.failing_case
    pub satisfied : All (Satisfies (obj b.passing_case.response)) p.rules
    pub violated : ¬ (All (Satisfies (obj b.failing_case.response)) p.rules)
    pub one_deletion :
        delete_path b.passing_case.response (first_path p.rules) ≡ some b.failing_case.response

  pub verify-eq-ok :
      (name : Text) (cs : List CompiledRule) (v : Value) {e : EvaluationResult}
      → verify name cs v ≡ ok e
      → (check_response v ≡ ok v) × (e ≡ evaluate_checked name cs v)
  unfolding verify evaluate_compiled
  verify-eq-ok name cs v h =
      let (w, hw, h1) = >>=-eq-ok (check_response v) _ (map_err-eq-ok response_failure _ h) in
      let same_value = check_response-same v hw in
      (
        hw ∙ ap ok (sym same_value),
        sym (ok-injective _ _ h1) ∙ ap (evaluate_checked name cs) (sym same_value),
      )

  -- A bundle that generate_synthetic_cases returns for a validated policy holds a response that
  -- satisfies every rule and a response that does not, the second the first without the member at
  -- the first rule's path; each is accepted and is stored with its own evaluation.
  pub generate-Separates : (p : Policy) {b : Bundle} → generate p ≡ ok b → Separates p b
  unfolding generate
  generate-Separates p h =
      let (built, _, h1) = >>=-eq-ok (build_paths (sort_groups (group_rules [] p.rules)) _) _ h in
      let (passed, hp, h2) = >>=-eq-ok (verify p.policy_id (compile p) (obj built.passing)) _ h1 in
      let (good, h3) = guard-eq-ok passed.passed (synthetic_failed no_passing) _ h2 in
      let (fs, hf, h4) =
        >>=-eq-ok (deleted (delete_path built.passing (first_path p.rules))) _ h3 in
      let (failed, hq, h5) = >>=-eq-ok (verify p.policy_id (compile p) (obj fs)) _ h4 in
      let (bad, h6) = guard-eq-ok (not failed.passed) (synthetic_failed no_failing) _ h5 in
      let (accepted, evaluated) = verify-eq-ok p.policy_id (compile p) (obj built.passing) hp in
      let (accepted_too, evaluated_too) = verify-eq-ok p.policy_id (compile p) (obj fs) hq in
      let fails = not-false failed.passed bad in
      let whole = evaluate_checked-Satisfies p in
      subst (Separates p) (ok-injective _ _ h6) (record {
        passing = record { accepted = accepted; evaluated = evaluated; verdict = good };
        failing = record { accepted = accepted_too; evaluated = evaluated_too; verdict = fails };
        satisfied =
            (whole (obj built.passing)).0
              (sym (ap (λ (x : EvaluationResult). x.passed) evaluated) ∙ good);
        violated = λ s. cc (fails, evaluated_too, (whole (obj fs)).1 s);
        one_deletion = deleted-eq-ok (delete_path built.passing (first_path p.rules)) hf;
      })
