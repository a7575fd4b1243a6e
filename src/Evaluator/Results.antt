-- ===== src/Evaluator/Results.antt =====
-- The public record of an evaluation: one result for each rule, in order, with a stable reason.
use constitutional_agent_tes.Base.{
  ◌≡◌, refl, sym, ap, ◌∙◌, ◌↔◌, ◌⊎◌, inl, inr, Bool, true, false, Option, none, some, List, [], ◌∷◌,
  map, arith, ok, >>=-eq-ok, map_err, map_err-eq-ok,
}
use constitutional_agent_tes.Json.{Value, null, obj}
use constitutional_agent_tes.Json.Path.{get_field}
use constitutional_agent_tes.Json.Encode.{FloatText}
use constitutional_agent_tes.Policy.{Kind, required_field, unknown, Rule, Policy}
use constitutional_agent_tes.Policy.Validate.{PolicyInput, validate_policy}
use constitutional_agent_tes.Errors.{invalid_policy}
use constitutional_agent_tes.Evaluator.{
  ReasonCode, rule_satisfied, field_missing, failure_reason, CompiledRule, uncompiled,
  EvaluationResult, judge, verdict, outcome, evaluate_rule, compile, compile_rule,
  evaluate_compiled_rule, evaluate_checked, evaluate_response, check_response,
}
use constitutional_agent_tes.Evaluator.Compiled.{evaluate_compiled_rule-compile_rule}

-- The reason of a result: satisfied exactly with a pass, missing exactly without a value, else the
-- failure of the kind.
pub record HasReason (k : Kind) (found : Option Value) (passed : Bool) (code : ReasonCode)
    : Type 0 where
  pub satisfied : (passed ≡ true) ↔ (code ≡ rule_satisfied)
  pub missing : (code ≡ field_missing) ↔ (found ≡ none)
  pub failed : passed ≡ false → (code ≡ field_missing) ⊎ (failure_reason k ≡ some code)

abbrev pub IsKnown : Kind → Type 0
IsKnown (unknown name) = ⊥
IsKnown _ = Unit

outcome-HasReason :
    (k : Kind) (v : Value) (b : Bool) (code : ReasonCode)
    → (code ≡ rule_satisfied → ⊥)
    → (code ≡ field_missing → ⊥)
    → failure_reason k ≡ some code
    → HasReason k (some v) (outcome b code).0 (outcome b code).1
outcome-HasReason k v true code fails present own = record {
  satisfied = ((λ e. refl), (λ e. refl));
  missing = ((λ e. cc), (λ e. cc));
  failed = λ e. cc;
}
outcome-HasReason k v false code fails present own = record {
  satisfied = ((λ e. cc), (λ e. absurd (fails e)));
  missing = ((λ e. absurd (present e)), (λ e. cc));
  failed = λ e. inr own;
}

module _ ⦃repr : FloatText⦄ where
  judge-HasReason :
      (k : Kind) (c : CompiledRule) (v : Value)
      → IsKnown k
      → HasReason k (some v) (judge k c v).0 (judge k c v).1
  unfolding judge failure_reason
  judge-HasReason required_field c v known = record {
    satisfied = ((λ e. refl), (λ e. refl));
    missing = ((λ e. cc), (λ e. cc));
    failed = λ e. cc;
  }
  judge-HasReason (unknown name) c v known = absurd known
  judge-HasReason k c v known = outcome-HasReason _ v _ _ (λ e. cc) (λ e. cc) refl

  -- A rule of a supported kind is reported as satisfied exactly when it passed, as missing exactly
  -- when its path does not resolve, and otherwise with the failure code of its kind.
  pub evaluate_rule-HasReason :
      (r : Rule) (response : Value)
      → IsKnown r.kind
      → HasReason r.kind
          (get_field response r.path)
          (evaluate_rule r response).passed
          (evaluate_rule r response).reason_code
  unfolding evaluate_rule
  evaluate_rule-HasReason r response known = reason (get_field response r.path)
    where
      reason :
          (o : Option Value)
          → HasReason r.kind o (verdict (uncompiled r) o).0 (verdict (uncompiled r) o).1
      reason none = record {
        satisfied = ((λ e. cc), (λ e. cc));
        missing = ((λ e. refl), (λ e. refl));
        failed = λ e. inl refl;
      }
      reason (some v) = judge-HasReason r.kind (uncompiled r) v known

  results_in_order :
      (rules : List Rule) (response : Value)
      → map (λ c. evaluate_compiled_rule c response) (map compile_rule rules)
        ≡ map (λ r. evaluate_rule r response) rules
  results_in_order [] response = refl
  results_in_order (r ∷ rules) response =
      cc (evaluate_compiled_rule-compile_rule r response, results_in_order rules response)

  -- An accepted response is the one that was given.
  pub check_response-same : (v : Value) {w : Value} → check_response v ≡ ok w → v ≡ w
  unfolding check_response
  check_response-same (obj fs) h = ground arith
  check_response-same null h = cc
  check_response-same _ h = cc

  -- A returned evaluation names the validated policy and holds the result of each of its rules, in
  -- policy order, evaluated one by one.
  pub evaluate_response-results :
      (policy : PolicyInput) (response : Value) {x : EvaluationResult}
      → evaluate_response policy response ≡ ok x
      → (p : Policy) × (validate_policy policy ≡ ok p)
        × (x.policy_id ≡ p.policy_id)
        × (x.rule_results ≡ map (λ r. evaluate_rule r response) p.rules)
  unfolding evaluate_response
  evaluate_response-results policy response {x} h =
      let (p, valid, rest) = >>=-eq-ok (map_err invalid_policy (validate_policy policy)) _ h in
      let (v, checked, last) = >>=-eq-ok (check_response response) _ rest in
      let whole : evaluate_checked p.policy_id (compile p) v ≡ x = ground arith in
      let same : evaluate_checked p.policy_id (compile p) response ≡ x =
        rw (check_response-same response checked) whole in
      (
        p,
        map_err-eq-ok invalid_policy (validate_policy policy) valid,
        unfold evaluate_checked in sym (ap (λ (y : EvaluationResult). y.policy_id) same),
        unfold evaluate_checked compile in
            sym (ap (λ (y : EvaluationResult). y.rule_results) same)
            ∙ results_in_order p.rules response,
      )
