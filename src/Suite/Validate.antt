-- ===== src/Suite/Validate.antt =====
-- suite.py: validate_suite; workflow.py: bounded_artifact.
pub mod Laws
use constitutional_agent_tes.Base.{
  ℕ, Bool, true, false, ◌&&◌, ◌||◌, not, Option, none, some, List, [], ◌∷◌, map, ltb, leb,
  if◌then◌else◌, Text, txt, same, contains, all, keep, length, utf8_size, encodable, Result, ok,
  err, ◌>>=◌, ◌>>◌, guard, map_err,
}
use constitutional_agent_tes.Json.{
  Value, bool, str, arr, obj, Items, nil, cons, Fields, end, field, member, keys, items_list,
}
use constitutional_agent_tes.Json.Ensure.{ensure_json_value, max_json_input_bytes}
use constitutional_agent_tes.Json.Encode.{FloatText}
use constitutional_agent_tes.Json.Encode.Size.{bounded_canonical_json_size}
use constitutional_agent_tes.Policy.Checks.{is_identifier, missing_keys, unknown_keys, is_nil}
use constitutional_agent_tes.Evaluator.{ReasonCode, rule_satisfied}
use constitutional_agent_tes.Errors.{
  TestbenchError, invalid_suite, SuiteReason, suite_limits, suite_fields, suite_version_or_size,
  case_fields, case_identifier, case_types, rules_not_object, bad_assertion,
}
use constitutional_agent_tes.Precedence.Result.{exact_keys, same_bool}
use constitutional_agent_tes.Suite.{
  Assertion, Case, Suite, max_suite_cases, reason_codes, find_reason, suite_value,
}

abbrev pub is_satisfied : ReasonCode → Bool
is_satisfied rule_satisfied = true
is_satisfied _ = false

abbrev pub check_assertion : Option Value → Option Value → Result TestbenchError Assertion
check_assertion (some (bool passed)) (some (str name)) = elim (find_reason reason_codes name) [
  | none ↦ err (invalid_suite bad_assertion)
  | some code ↦
      if same_bool passed (is_satisfied code)
      then ok (record { passed = passed; reason_code = code })
      else err (invalid_suite bad_assertion)
]
check_assertion _ _ = err (invalid_suite bad_assertion)

abbrev pub read_assertion : Value → Result TestbenchError Assertion
read_assertion (obj fs) =
    if exact_keys fs (txt "passed" ∷ txt "reason_code" ∷ [])
    then check_assertion (member (txt "passed") fs) (member (txt "reason_code") fs)
    else err (invalid_suite bad_assertion)
read_assertion _ = err (invalid_suite bad_assertion)

-- The loop of _validate_assertions.
unfoldable pub read_assertions : Fields → Result TestbenchError (List (Text × Assertion))
unfolding find_reason exact_keys is_identifier
read_assertions end = ok []
read_assertions (field name v fs) = do
  guard (is_identifier name) (invalid_suite bad_assertion)
  assertion ← read_assertion v
  rest ← read_assertions fs
  ok ((name, assertion) ∷ rest)

-- suite.py: _validate_assertions
unfoldable pub validate_assertions :
    Option Value → Result TestbenchError (Option (List (Text × Assertion)))
unfolding read_assertions
validate_assertions none = ok none
validate_assertions (some (obj fs)) = do rules ← read_assertions fs; ok (some rules)
validate_assertions (some _) = err (invalid_suite rules_not_object)

abbrev pub required_fields : List Text
required_fields = txt "case_id" ∷ txt "response" ∷ txt "expected_passed" ∷ []

abbrev pub allowed_fields : Text → List Text
allowed_fields version =
    if same version (txt "1.1") then txt "expected_rules" ∷ required_fields else required_fields

abbrev pub read_case_id : List Text → Option Value → Result TestbenchError Text
read_case_id seen (some (str name)) =
    if is_identifier name && not (contains seen name)
    then ok name
    else err (invalid_suite case_identifier)
read_case_id seen _ = err (invalid_suite case_identifier)

abbrev pub read_case_types : Option Value → Option Value → Result TestbenchError (Fields × Bool)
read_case_types (some (obj fs)) (some (bool b)) = ok (fs, b)
read_case_types _ _ = err (invalid_suite case_types)

-- The body of the loop over the cases.
unfoldable pub validate_case : Text → List Text → Value → Result TestbenchError Case
unfolding validate_assertions missing_keys unknown_keys is_identifier contains
validate_case version seen (obj fs) = do
  guard
      (is_nil (missing_keys required_fields fs)
        && is_nil (unknown_keys (allowed_fields version) fs))
      (invalid_suite case_fields)
  case_id ← read_case_id seen (member (txt "case_id") fs)
  types ← read_case_types (member (txt "response") fs) (member (txt "expected_passed") fs)
  rules ← validate_assertions (member (txt "expected_rules") fs)
  ok (record {
    case_id = case_id;
    response = types.0;
    expected_passed = types.1;
    expected_rules = rules;
  })
validate_case version seen _ = err (invalid_suite case_fields)

unfoldable pub validate_cases : Text → List Text → List Value → Result TestbenchError (List Case)
unfolding validate_case
validate_cases version seen [] = ok []
validate_cases version seen (v ∷ vs) = do
  one ← validate_case version seen v
  rest ← validate_cases version (one.case_id ∷ seen) vs
  ok (one ∷ rest)

abbrev pub suite_version_of : Option Value → Option Text
suite_version_of (some (str version)) =
    if contains (txt "1.0" ∷ txt "1.1" ∷ []) version then some version else none
suite_version_of _ = none

abbrev pub suite_cases_of : Option Value → Option (List Value)
suite_cases_of (some (arr (cons v vs))) =
    if leb (length (v ∷ items_list vs)) max_suite_cases then some (v ∷ items_list vs) else none
suite_cases_of _ = none

unfoldable pub read_suite : Option Text → Option (List Value) → Result TestbenchError Suite
unfolding validate_cases
read_suite (some version) (some raws) = do
  cases ← validate_cases version [] raws
  ok (record { suite_version = version; cases = cases })
read_suite _ _ = err (invalid_suite suite_version_or_size)

module _ ⦃repr : FloatText⦄ where
  -- suite.py: validate_suite
  unfoldable pub validate_suite : Value → Result TestbenchError Suite
  unfolding read_suite exact_keys contains
  validate_suite (obj fs) = do
    map_err (λ e. invalid_suite suite_limits) (ensure_json_value (obj fs))
    size ←
        map_err (λ e. invalid_suite suite_limits)
          (bounded_canonical_json_size (obj fs) max_json_input_bytes)
    guard (exact_keys fs (txt "suite_version" ∷ txt "cases" ∷ [])) (invalid_suite suite_fields)
    read_suite (suite_version_of (member (txt "suite_version") fs))
        (suite_cases_of (member (txt "cases") fs))
  validate_suite v = do
    map_err (λ e. invalid_suite suite_limits) (ensure_json_value v)
    size ←
        map_err (λ e. invalid_suite suite_limits)
          (bounded_canonical_json_size v max_json_input_bytes)
    err (invalid_suite suite_fields)
