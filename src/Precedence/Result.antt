-- ===== src/Precedence/Result.antt =====
-- precedence.py: the contract of an evaluator's result, and one guarded run.
use constitutional_agent_tes.Base.{
  ℕ, Bool, true, false, ◌&&◌, not, Option, none, some, List, [], ◌∷◌, map, ltb, leb, if◌then◌else◌,
  Text, txt, same, contains, all, length, utf8_size, Result, ok, err, ◌>>=◌, ◌>>◌, guard, map_err,
}
use constitutional_agent_tes.Json.{
  Value, bool, str, arr, obj, Items, Fields, end, field, member, items_list, list_items,
}
use constitutional_agent_tes.Json.Ensure.{ensure_json_value}
use constitutional_agent_tes.Json.Encode.{FloatText, canonical_json}
use constitutional_agent_tes.Json.Encode.Size.{bounded_canonical_json_size}
use constitutional_agent_tes.Policy.{kind_name, Rule, Policy}
use constitutional_agent_tes.Policy.Checks.{missing_keys, unknown_keys, is_nil}
use constitutional_agent_tes.Evaluator.{
  RuleResult, EvaluationResult, CompiledRule, evaluate_checked, reason_name,
}
use constitutional_agent_tes.Errors.{
  TestbenchError, order_check, bad_result, evaluator_failed, other_policy, result_limit,
}

abbrev pub max_evaluator_result_bytes : ℕ
max_evaluator_result_bytes = 1_000_000

-- The members of a result that met the contract, with their types known.
pub record ReportedRule : Type 0 where
  pub kind : Text
  pub passed : Bool
  pub path : Text
  pub reason_code : Text
  pub rule_id : Text

pub record Reported : Type 0 where
  pub passed : Bool
  pub policy_id : Text
  pub rule_results : List ReportedRule

abbrev pub reported_rule_value : ReportedRule → Value
reported_rule_value r = obj (
    field (txt "kind") (str r.kind) (
      field (txt "passed") (bool r.passed) (
        field (txt "path") (str r.path) (
          field (txt "reason_code") (str r.reason_code)
            (field (txt "rule_id") (str r.rule_id) end)))))

abbrev pub reported_value : Reported → Value
reported_value r = obj (
    field (txt "passed") (bool r.passed) (
      field (txt "policy_id") (str r.policy_id) (
        field (txt "rule_results") (arr (list_items (map reported_rule_value r.rule_results)))
          end)))

-- The public record of the built-in evaluator.
abbrev pub report_rule : RuleResult → ReportedRule
report_rule r = record {
  kind = kind_name r.kind;
  passed = r.passed;
  path = r.path;
  reason_code = reason_name r.reason_code;
  rule_id = r.rule_id;
}

abbrev pub report_evaluation : EvaluationResult → Reported
report_evaluation x = record {
  passed = x.passed;
  policy_id = x.policy_id;
  rule_results = map report_rule x.rule_results;
}

abbrev pub bad : {A : Type 0} → Result TestbenchError A
bad = err (order_check bad_result)

-- `set(d) == {...}`
unfoldable pub exact_keys : Fields → List Text → Bool
unfolding missing_keys unknown_keys
exact_keys fs names = is_nil (missing_keys names fs) && is_nil (unknown_keys names fs)

abbrev pub text_member : Text → Fields → Result TestbenchError Text
text_member name fs = elim (member name fs) [ some (str s) ↦ ok s | _ ↦ bad ]

abbrev pub bool_member : Text → Fields → Result TestbenchError Bool
bool_member name fs = elim (member name fs) [ some (bool b) ↦ ok b | _ ↦ bad ]

-- `declared_rules.get(rule_id)`
unfoldable pub declared_rule : List Rule → Text → Option Rule
declared_rule [] rule_id = none
declared_rule (r ∷ rules) rule_id =
    if same r.rule_id rule_id then some r else declared_rule rules rule_id

abbrev pub matches_declared : Option Rule → Text → Text → Bool
matches_declared none kind path = false
matches_declared (some r) kind path = same kind (kind_name r.kind) && same path r.path

-- The body of the loop over the rule results.
unfoldable pub check_result : List Rule → List Text → Value → Result TestbenchError ReportedRule
unfolding exact_keys declared_rule
check_result rules seen (obj fs) = do
  guard
      (exact_keys fs
        (txt "kind" ∷ txt "passed" ∷ txt "path" ∷ txt "reason_code" ∷ txt "rule_id" ∷ []))
      (order_check bad_result)
  rule_id ← text_member (txt "rule_id") fs
  passed ← bool_member (txt "passed") fs
  kind ← text_member (txt "kind") fs
  path ← text_member (txt "path") fs
  reason ← text_member (txt "reason_code") fs
  guard (leb 1 (length reason) && leb (length reason) 128) (order_check bad_result)
  guard (not (contains seen rule_id)) (order_check bad_result)
  guard (matches_declared (declared_rule rules rule_id) kind path) (order_check bad_result)
  ok (record { kind = kind; passed = passed; path = path; reason_code = reason; rule_id = rule_id })
check_result rules seen _ = bad

unfoldable pub check_results :
    List Rule → List Text → List Value → Result TestbenchError (List ReportedRule)
unfolding check_result
check_results rules seen [] = ok []
check_results rules seen (v ∷ vs) = do
  r ← check_result rules seen v
  rest ← check_results rules (r.rule_id ∷ seen) vs
  ok (r ∷ rest)

abbrev pub array_member : Text → Fields → Result TestbenchError Items
array_member name fs = elim (member name fs) [ some (arr xs) ↦ ok xs | _ ↦ bad ]

-- `complete and all(item["passed"] for item in rule_results)`
unfoldable pub expected_passed : List Rule → List ReportedRule → Bool
expected_passed rules results =
    all (λ (r : Rule). contains (map (λ (x : ReportedRule). x.rule_id) results) r.rule_id) rules
    && all (λ (x : ReportedRule). x.passed) results

abbrev pub same_bool : Bool → Bool → Bool
same_bool true b = b
same_bool false b = not b

module _ ⦃repr : FloatText⦄ where
  -- precedence.py: _validate_evaluation, with the result's size
  unfoldable pub validate_evaluation : Value → Policy → Result TestbenchError (Reported × ℕ)
  unfolding exact_keys check_results expected_passed
  validate_evaluation (obj fs) p = do
    passed ← bool_member (txt "passed") fs
    guard (exact_keys fs (txt "passed" ∷ txt "policy_id" ∷ txt "rule_results" ∷ []))
        (order_check bad_result)
    policy_id ← text_member (txt "policy_id") fs
    items ← array_member (txt "rule_results") fs
    results ← check_results p.rules [] (items_list items)
    guard (same_bool passed (expected_passed p.rules results)) (order_check bad_result)
    map_err (λ e. order_check bad_result) (ensure_json_value (obj fs))
    size ←
        map_err (λ e. order_check result_limit)
          (bounded_canonical_json_size (obj fs) max_evaluator_result_bytes)
    ok (record { passed = passed; policy_id = policy_id; rule_results = results }, size)
  validate_evaluation _ p = bad

-- What a call of a custom evaluator ends with: a value, a TestbenchError, or another exception.
pub data CallOutcome : Type 0 where
  returned : Value → CallOutcome
  raised : TestbenchError → CallOutcome
  crashed : CallOutcome

-- The evaluator argument. A custom one may answer differently on each run, which it is given.
pub data Evaluator : Type 0 where
  builtin : Evaluator
  custom : (ℕ → Policy → Value → CallOutcome) → Evaluator

-- `len(canonical_json(result).encode("utf-8"))`; a built-in result always has a text
abbrev pub text_bytes : Option Text → ℕ
text_bytes none = 0
text_bytes (some t) = utf8_size t

module _ ⦃repr : FloatText⦄ where
  abbrev pub guarded_result : Policy → CallOutcome → Result TestbenchError (Reported × ℕ)
  guarded_result p (raised e) = err e
  guarded_result p crashed = err (order_check evaluator_failed)
  guarded_result p (returned v) = do
    checked ← validate_evaluation v p
    guard (same checked.0.policy_id p.policy_id) (order_check other_policy)
    ok checked

  -- precedence.py: _run_evaluator
  unfoldable pub run_evaluator :
      (ℕ → Policy → Value → CallOutcome) → ℕ → Policy → Value → Result TestbenchError (Reported × ℕ)
  unfolding validate_evaluation
  run_evaluator evaluator run p response = guarded_result p (evaluator run p response)

  -- precedence.py: _run_builtin
  unfoldable pub run_builtin :
      List CompiledRule → Policy → Value → Result TestbenchError (Reported × ℕ)
  unfolding evaluate_checked
  run_builtin compiled p response =
      let result = report_evaluation (evaluate_checked p.policy_id compiled response) in
      let bytes = text_bytes (canonical_json (reported_value result)) in
      if ltb max_evaluator_result_bytes bytes
      then err (order_check result_limit)
      else ok (result, bytes)
