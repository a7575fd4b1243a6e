-- ===== src/Suite.antt =====
-- suite.py and workflow.py: regression fixtures and their evaluation.
pub mod Validate
pub mod Evaluate
pub mod Curation
use constitutional_agent_tes.Base.{
  ℕ, Bool, true, false, Option, none, some, List, [], ◌∷◌, map, if◌then◌else◌, Text, txt, same,
}
use constitutional_agent_tes.Json.{Value, bool, str, arr, obj, Fields, end, field, list_items}
use constitutional_agent_tes.Evaluator.{
  ReasonCode, rule_satisfied, field_missing, value_not_equal, value_not_allowed, value_not_false,
  value_not_empty_list, value_wrong_type, value_out_of_range, value_length_out_of_range,
  reason_name,
}

-- `{"passed": ..., "reason_code": ...}`
pub record Assertion : Type 0 where
  pub passed : Bool
  pub reason_code : ReasonCode

-- A validated case; `expected_rules` is `none` where the member is absent.
pub record Case : Type 0 where
  pub case_id : Text
  pub response : Fields
  pub expected_passed : Bool
  pub expected_rules : Option (List (Text × Assertion))

pub record Suite : Type 0 where
  pub suite_version : Text
  pub cases : List Case

abbrev pub max_suite_cases : ℕ
max_suite_cases = 256

abbrev pub reason_codes : List ReasonCode
reason_codes =
    rule_satisfied ∷ field_missing ∷ value_not_equal ∷ value_not_allowed ∷ value_not_false
    ∷ value_not_empty_list ∷ value_wrong_type ∷ value_out_of_range ∷ value_length_out_of_range ∷ []

-- The reason code of a text, where it is in REASON_CODES.
unfoldable pub find_reason : List ReasonCode → Text → Option ReasonCode
find_reason [] name = none
find_reason (c ∷ codes) name = if same (reason_name c) name then some c else find_reason codes name

-- The dicts that the validated data stand for.
abbrev pub assertion_value : Assertion → Value
assertion_value a = obj (
    field (txt "passed") (bool a.passed)
      (field (txt "reason_code") (str (reason_name a.reason_code)) end))

abbrev pub assertion_fields : List (Text × Assertion) → Fields
assertion_fields [] = end
assertion_fields ((name, a) ∷ rest) = field name (assertion_value a) (assertion_fields rest)

abbrev pub rules_member : Option (List (Text × Assertion)) → Fields
rules_member none = end
rules_member (some rules) = field (txt "expected_rules") (obj (assertion_fields rules)) end

abbrev pub case_value : Case → Value
case_value c = obj (
    field (txt "case_id") (str c.case_id) (
      field (txt "response") (obj c.response)
        (field (txt "expected_passed") (bool c.expected_passed) (rules_member c.expected_rules))))

abbrev pub suite_value : Suite → Value
suite_value s = obj (
    field (txt "suite_version") (str s.suite_version)
      (field (txt "cases") (arr (list_items (map case_value s.cases))) end))
