-- ===== src/Tests/Data.antt =====
-- A small policy in its three forms, two responses and a suite.
use constitutional_agent_tes.Base.{Bool, true, false, [], ◌∷◌, ◌++◌, Text, txt, decimal, pos}
use constitutional_agent_tes.Json.{Value, bool, int, str, arr, obj, nil, cons, Fields, end, field}
use constitutional_agent_tes.Json.Encode.{FloatText}
use constitutional_agent_tes.Policy.{required_field, false_kind, Rule, Policy, plain_rule}
use constitutional_agent_tes.Precedence.Report.{Digest}

-- A float is shown by its bit pattern.
instance abbrev pub bit_patterns : FloatText
bit_patterns = record { float_repr = λ b. txt "float:" ++ decimal b }

-- A digest that keeps the text.
instance abbrev pub whole_text : Digest
whole_text = record { sha256_hex = λ t. t }

abbrev pub approval : Rule
approval = plain_rule (txt "approval") required_field (txt "review.by")

abbrev pub quiet : Rule
quiet = plain_rule (txt "quiet") false_kind (txt "alarm")

abbrev pub two_rules : Policy
two_rules = record {
  policy_id = txt "site";
  rules = approval ∷ quiet ∷ [];
  schema_version = txt "1.0";
}

abbrev pub rule_fields : Text → Text → Text → Value
rule_fields kind path name = obj (
    field (txt "kind") (str kind)
      (field (txt "path") (str path) (field (txt "rule_id") (str name) end)))

abbrev pub two_rules_json : Value
two_rules_json = obj (
    field (txt "policy_id") (str (txt "site")) (
      field (txt "rules")
        (arr (
          cons (rule_fields (txt "required_field") (txt "review.by") (txt "approval"))
            (cons (rule_fields (txt "false") (txt "alarm") (txt "quiet")) nil)))
        (field (txt "schema_version") (str (txt "1.0")) end)))

abbrev pub good_fields : Fields
good_fields =
    field (txt "review") (obj (field (txt "by") (str (txt "lee")) end))
      (field (txt "alarm") (bool false) end)

abbrev pub bad_fields : Fields
bad_fields = field (txt "alarm") (bool true) end

abbrev pub case_json : Text → Fields → Bool → Value
case_json name response expected = obj (
    field (txt "case_id") (str name)
      (field (txt "response") (obj response) (field (txt "expected_passed") (bool expected) end)))

abbrev pub two_cases_json : Value
two_cases_json = obj (
    field (txt "suite_version") (str (txt "1.0")) (
      field (txt "cases")
        (arr (
          cons (case_json (txt "good") good_fields true)
            (cons (case_json (txt "bad") bad_fields false) nil)))
        end))

abbrev pub last_of_two : Value
last_of_two = obj (field (txt "index") (int (pos 1)) (field (txt "count") (int (pos 2)) end))
