-- ===== src/Tests/Evaluation.antt =====
-- Examples of evaluation and validation.
use constitutional_agent_tes.Base.{
  ◌≤◌, ◌≡◌, refl, ◌↔◌, true, false, some, [], ◌∷◌, map, Text, txt, same, All, ok, pos, encodable,
  utf8_size,
}
use constitutional_agent_tes.Json.{int, obj}
use constitutional_agent_tes.Json.Float.{whole, extended, num_le}
use constitutional_agent_tes.Json.Encode.{canonical_json}
use constitutional_agent_tes.Json.Encode.Size.{
  bounded_canonical_json_size, bounded_size-canonical_json,
}
use constitutional_agent_tes.Json.Ensure.{ensure_json_value, max_json_nodes, max_json_nesting}
use constitutional_agent_tes.Json.Ensure.Strict.{node_count, nesting, IsStrict}
use constitutional_agent_tes.Json.Ensure.Accepts.{ensure_json_value-accepts}
use constitutional_agent_tes.Json.Path.{get_field, split_path}
use constitutional_agent_tes.Policy.{Rule, Policy, plain_rule, range_kind}
use constitutional_agent_tes.Policy.Validate.{raw, validate_policy}
use constitutional_agent_tes.Policy.Guarantees.{WellFormed, validate_policy-WellFormed}
use constitutional_agent_tes.Evaluator.{
  EvaluationResult, compile, compile_rule, evaluate_rule, evaluate_compiled_rule, evaluate_checked,
  evaluate_response, within,
}
use constitutional_agent_tes.Evaluator.Compiled.{evaluate_compiled_rule-compile_rule}
use constitutional_agent_tes.Evaluator.Satisfies.{Satisfies, evaluate_checked-Satisfies}
use constitutional_agent_tes.Evaluator.Results.{
  HasReason, evaluate_rule-HasReason, evaluate_response-results,
}
use constitutional_agent_tes.Explain.{BoundName, violated_bound, traverse}
use constitutional_agent_tes.Explain.Bounds.{
  Crossed, found, traverse-get_field, violated_bound-Crossed,
}
use constitutional_agent_tes.Tests.Data.{
  bit_patterns, approval, quiet, two_rules, two_rules_json, good_fields, bad_fields,
}

evaluate_checked-Satisfies_example :
    ((evaluate_checked (txt "site") (compile two_rules) (obj good_fields)).passed ≡ true)
    ↔ All (Satisfies (obj good_fields)) (approval ∷ quiet ∷ [])
evaluate_checked-Satisfies_example = evaluate_checked-Satisfies two_rules (obj good_fields)

evaluate_compiled_rule-compile_rule_example :
    evaluate_compiled_rule (compile_rule quiet) (obj bad_fields)
    ≡ evaluate_rule quiet (obj bad_fields)
evaluate_compiled_rule-compile_rule_example =
    evaluate_compiled_rule-compile_rule quiet (obj bad_fields)

two_rules-valid : validate_policy (raw two_rules_json) ≡ ok two_rules
unfolding validate_policy same
two_rules-valid = refl

validate_policy-WellFormed_example : WellFormed two_rules
validate_policy-WellFormed_example =
    validate_policy-WellFormed (raw two_rules_json) {p = two_rules} two_rules-valid

evaluate_rule-HasReason_example :
    HasReason quiet.kind
      (get_field (obj bad_fields) (txt "alarm"))
      (evaluate_rule quiet (obj bad_fields)).passed
      (evaluate_rule quiet (obj bad_fields)).reason_code
evaluate_rule-HasReason_example = evaluate_rule-HasReason quiet (obj bad_fields) tt

evaluated :
    (x : EvaluationResult) × (evaluate_response (raw two_rules_json) (obj good_fields) ≡ ok x)
unfolding evaluate_response validate_policy
evaluated = (_, refl)

evaluate_response-results_example :
    (p : Policy) × (validate_policy (raw two_rules_json) ≡ ok p)
    × (evaluated.0.policy_id ≡ p.policy_id)
    × (evaluated.0.rule_results ≡ map (λ r. evaluate_rule r (obj good_fields)) p.rules)
evaluate_response-results_example =
    evaluate_response-results (raw two_rules_json) (obj good_fields) {x = evaluated.0} evaluated.1

ensure_json_value-accepts_example : (ensure_json_value two_rules_json ≡ ok tt) ↔ (
    (node_count two_rules_json ≤ max_json_nodes)
    × (nesting two_rules_json ≤ max_json_nesting)
    × IsStrict two_rules_json)
ensure_json_value-accepts_example = ensure_json_value-accepts two_rules_json

bounded_size-canonical_json_example : (bounded_canonical_json_size (obj bad_fields) 20 ≡ ok 14) ↔ (
    (t : Text) × (canonical_json (obj bad_fields) ≡ some t)
    × (encodable t ≡ true)
    × (utf8_size t ≡ 14)
    × (14 ≤ 20))
bounded_size-canonical_json_example = bounded_size-canonical_json (obj bad_fields) 20 14

traverse-get_field_example :
    found (traverse (obj good_fields) [] (split_path (txt "review.by")))
    ≡ get_field (obj good_fields) (txt "review.by")
traverse-get_field_example = traverse-get_field (obj good_fields) (txt "review.by")

abbrev percentage : Rule
percentage = record (plain_rule (txt "percentage") range_kind (txt "score")) {
  minimum = some (whole (pos 1));
  maximum = some (whole (pos 100));
}

crosses : within (whole (pos 101)) percentage ≡ false
unfolding within num_le extended
crosses = refl

violated_bound-Crossed_example :
    (name : BoundName) × (violated_bound percentage (int (pos 101)) ≡ some name)
    × Crossed percentage (whole (pos 101)) name
violated_bound-Crossed_example =
    violated_bound-Crossed percentage (int (pos 101)) (whole (pos 101)) refl refl refl refl crosses
