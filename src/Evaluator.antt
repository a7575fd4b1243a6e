-- ===== src/Evaluator.antt =====
-- evaluator.py: the verdict on one response.
pub mod Compiled
pub mod Satisfies
pub mod Results
use constitutional_agent_tes.Base.{
  ℕ, Bool, true, false, ◌&&◌, ◌||◌, Option, none, some, List, [], ◌∷◌, map, if◌then◌else◌, Text,
  txt, contains, same, all, any, length, pos, Result, ok, err, ◌>>=◌, ◌>>◌, map_err,
}
use constitutional_agent_tes.Json.{
  Value, null, bool, int, float, str, arr, obj, other, Items, nil, cons, Fields, json_type_name,
  count_items, count_fields,
}
use constitutional_agent_tes.Json.Float.{Num, whole, num_le}
use constitutional_agent_tes.Json.Path.{get_field}
use constitutional_agent_tes.Json.Ensure.{ensure_json_value, max_json_input_bytes}
use constitutional_agent_tes.Json.Encode.{FloatText, canonical_json, equal_texts}
use constitutional_agent_tes.Json.Encode.Size.{bounded_canonical_json_size}
use constitutional_agent_tes.Policy.{
  Kind, required_field, equals, one_of, false_kind, empty_list, type_kind, range_kind, length_kind,
  unknown, Rule, Policy,
}
use constitutional_agent_tes.Policy.Checks.{number_of}
use constitutional_agent_tes.Policy.Validate.{PolicyInput, validate_policy}
use constitutional_agent_tes.Errors.{
  ResponseReason, response_not_object, response_json, TestbenchError, invalid_policy,
  invalid_response,
}

-- ReasonCode
pub data ReasonCode : Type 0 where
  rule_satisfied field_missing value_not_equal value_not_allowed value_not_false : ReasonCode
  value_not_empty_list value_wrong_type value_out_of_range value_length_out_of_range : ReasonCode

-- FAILURE_REASON_BY_KIND; `required_field` and unknown kinds are no keys
unfoldable pub failure_reason : Kind → Option ReasonCode
failure_reason equals = some value_not_equal
failure_reason one_of = some value_not_allowed
failure_reason false_kind = some value_not_false
failure_reason empty_list = some value_not_empty_list
failure_reason type_kind = some value_wrong_type
failure_reason range_kind = some value_out_of_range
failure_reason length_kind = some value_length_out_of_range
failure_reason _ = none

pub record RuleResult : Type 0 where
  pub kind : Kind
  pub passed : Bool
  pub path : Text
  pub reason_code : ReasonCode
  pub rule_id : Text

pub record EvaluationResult : Type 0 where
  pub passed : Bool
  pub policy_id : Text
  pub rule_results : List RuleResult

-- The two tests of `_within`.
abbrev pub at_least : Option Num → Num → Bool
at_least none n = true
at_least (some lo) n = num_le lo n

abbrev pub at_most : Option Num → Num → Bool
at_most none n = true
at_most (some hi) n = num_le n hi

-- evaluator.py: _within
unfoldable pub within : Num → Rule → Bool
within observed r = at_least r.minimum observed && at_most r.maximum observed

-- evaluator.py: _type_matches
unfoldable pub type_matches : Value → List Text → Bool
unfolding json_type_name contains same
type_matches observed types =
    contains types (json_type_name observed)
    || (same (json_type_name observed) (txt "integer") && contains types (txt "number"))

-- `len(observed)`, of a string, list or dict
abbrev pub size_of : Value → Option ℕ
size_of (str s) = some (length s)
size_of (arr xs) = some (count_items xs)
size_of (obj fs) = some (count_fields fs)
size_of _ = none

abbrev pub is_false : Value → Bool
is_false (bool false) = true
is_false _ = false

abbrev pub is_empty_list : Value → Bool
is_empty_list (arr nil) = true
is_empty_list _ = false

-- A number is tested by `within`; what is no number, or has no length, fails.
abbrev pub number_within : Option Num → Rule → Bool
number_within none r = false
number_within (some n) r = within n r

abbrev pub size_within : Option ℕ → Rule → Bool
size_within none r = false
size_within (some n) r = within (whole (pos n)) r

-- evaluator.py: _CompiledRule
pub record CompiledRule : Type 0 where
  pub rule : Rule
  pub marker : Option Text
  pub markers : Option (List Text)

-- `_CompiledRule(rule)`
abbrev pub uncompiled : Rule → CompiledRule
uncompiled r = record { rule = r; marker = none; markers = none }

abbrev pub outcome : Bool → ReasonCode → Bool × ReasonCode
outcome passed code = (passed, if passed then rule_satisfied else code)

abbrev pub push_marker : Option Text → List Text → List Text
push_marker none markers = markers
push_marker (some m) markers = m ∷ markers

module _ ⦃repr : FloatText⦄ where
  -- The markers of the allowed values that have one.
  unfoldable pub value_markers : List Value → List Text
  value_markers [] = []
  value_markers (v ∷ vs) = push_marker (canonical_json v) (value_markers vs)

  unfoldable pub compile_as : Kind → Rule → CompiledRule
  unfolding value_markers
  compile_as equals r = record (uncompiled r) { marker = canonical_json r.value }
  compile_as one_of r = record (uncompiled r) { markers = some (value_markers r.values) }
  compile_as _ r = uncompiled r

  -- evaluator.py: _compile_rule
  unfoldable pub compile_rule : Rule → CompiledRule
  unfolding compile_as
  compile_rule r = compile_as r.kind r

  -- evaluator.py: _compile
  unfoldable pub compile : Policy → List CompiledRule
  unfolding compile_rule
  compile p = map compile_rule p.rules

  abbrev pub expected_marker : CompiledRule → Option Text
  expected_marker c = elim c.marker [ none ↦ canonical_json c.rule.value | some m ↦ some m ]

  abbrev pub is_allowed : CompiledRule → Option Text → Bool
  is_allowed c none = false
  is_allowed c (some m) = elim c.markers [
    | none ↦ any (λ v. equal_texts (canonical_json v) (some m)) c.rule.values
    | some markers ↦ contains markers m
  ]

  -- The branches of `_evaluate_compiled_rule` for a field that was found.
  unfoldable pub judge : Kind → CompiledRule → Value → Bool × ReasonCode
  unfolding within type_matches contains
  judge required_field c observed = (true, rule_satisfied)
  judge equals c observed =
      outcome (equal_texts (canonical_json observed) (expected_marker c)) value_not_equal
  judge one_of c observed = outcome (is_allowed c (canonical_json observed)) value_not_allowed
  judge false_kind c observed = outcome (is_false observed) value_not_false
  judge empty_list c observed = outcome (is_empty_list observed) value_not_empty_list
  judge type_kind c observed = outcome (type_matches observed c.rule.types) value_wrong_type
  judge range_kind c observed =
      outcome (number_within (number_of observed) c.rule) value_out_of_range
  judge length_kind c observed =
      outcome (size_within (size_of observed) c.rule) value_length_out_of_range
  judge (unknown name) c observed = (false, field_missing)

  abbrev pub verdict : CompiledRule → Option Value → Bool × ReasonCode
  verdict c none = (false, field_missing)
  verdict c (some observed) = judge c.rule.kind c observed

  -- evaluator.py: _evaluate_compiled_rule
  unfoldable pub evaluate_compiled_rule : CompiledRule → Value → RuleResult
  unfolding judge
  evaluate_compiled_rule c response = record {
    kind = c.rule.kind;
    passed = (verdict c (get_field response c.rule.path)).0;
    path = c.rule.path;
    reason_code = (verdict c (get_field response c.rule.path)).1;
    rule_id = c.rule.rule_id;
  }

  -- evaluator.py: _evaluate_rule
  unfoldable pub evaluate_rule : Rule → Value → RuleResult
  unfolding evaluate_compiled_rule
  evaluate_rule r response = evaluate_compiled_rule (uncompiled r) response

  -- evaluator.py: _check_response
  unfoldable pub check_response : Value → Result TestbenchError Value
  check_response (obj fs) = do
    map_err (λ e. invalid_response (response_json e)) (ensure_json_value (obj fs))
    size ←
        map_err (λ e. invalid_response (response_json e))
          (bounded_canonical_json_size (obj fs) max_json_input_bytes)
    ok (obj fs)
  check_response _ = err (invalid_response response_not_object)

  -- evaluator.py: _evaluate_checked
  unfoldable pub evaluate_checked : Text → List CompiledRule → Value → EvaluationResult
  unfolding evaluate_compiled_rule
  evaluate_checked policy_id compiled response = record {
    passed =
        all (λ (r : RuleResult). r.passed) (map (λ c. evaluate_compiled_rule c response) compiled);
    policy_id = policy_id;
    rule_results = map (λ c. evaluate_compiled_rule c response) compiled;
  }

  -- evaluator.py: _evaluate_compiled
  unfoldable pub evaluate_compiled :
      Text → List CompiledRule → Value → Result TestbenchError EvaluationResult
  unfolding evaluate_checked check_response
  evaluate_compiled policy_id compiled response = do
    checked ← check_response response
    ok (evaluate_checked policy_id compiled checked)

  -- evaluator.py: evaluate_response
  unfoldable pub evaluate_response : PolicyInput → Value → Result TestbenchError EvaluationResult
  unfolding compile evaluate_compiled
  evaluate_response policy response = do
    validated ← map_err invalid_policy (validate_policy policy)
    evaluate_compiled validated.policy_id (compile validated) response

-- The text of a reason code.
abbrev pub reason_name : ReasonCode → Text
reason_name rule_satisfied = txt "RULE_SATISFIED"
reason_name field_missing = txt "FIELD_MISSING"
reason_name value_not_equal = txt "VALUE_NOT_EQUAL"
reason_name value_not_allowed = txt "VALUE_NOT_ALLOWED"
reason_name value_not_false = txt "VALUE_NOT_FALSE"
reason_name value_not_empty_list = txt "VALUE_NOT_EMPTY_LIST"
reason_name value_wrong_type = txt "VALUE_WRONG_TYPE"
reason_name value_out_of_range = txt "VALUE_OUT_OF_RANGE"
reason_name value_length_out_of_range = txt "VALUE_LENGTH_OUT_OF_RANGE"
