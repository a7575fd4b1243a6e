-- ===== src/Suite/Evaluate.antt =====
-- suite.py: evaluate_suite.
pub mod Laws
use constitutional_agent_tes.Base.{
  ℕ, zero, suc, ◌+◌, Bool, true, false, ◌&&◌, not, Option, none, some, List, [], ◌∷◌, map,
  if◌then◌else◌, Text, txt, same, sort_names, all, keep, length, Result, ok, err, ◌>>=◌, ◌>>◌,
  map_err,
}
use constitutional_agent_tes.Json.{Value, obj}
use constitutional_agent_tes.Json.Encode.{FloatText}
use constitutional_agent_tes.Policy.{Policy}
use constitutional_agent_tes.Policy.Validate.{PolicyInput, validate_policy}
use constitutional_agent_tes.Errors.{TestbenchError, invalid_policy}
use constitutional_agent_tes.Evaluator.{
  ReasonCode, reason_name, RuleResult, EvaluationResult, CompiledRule, compile, evaluate_compiled,
}
use constitutional_agent_tes.Precedence.Result.{same_bool}
use constitutional_agent_tes.Suite.{Assertion, Case, Suite}
use constitutional_agent_tes.Suite.Validate.{validate_suite}

pub record CaseReport : Type 0 where
  pub case_id : Text
  pub expected_passed : Bool
  pub matches_expectation : Bool
  pub evaluation : EvaluationResult
  pub rule_assertion_mismatches : Option (List Text)

pub record SuiteReport : Type 0 where
  pub suite_version : Text
  pub policy_id : Text
  pub matches_expectations : Bool
  pub case_count : ℕ
  pub mismatch_count : ℕ
  pub cases : List CaseReport

-- `actual.get(identifier)`: a later row overrides an earlier one.
unfoldable pub actual : List RuleResult → Text → Option Assertion
actual [] name = none
actual (r ∷ rows) name = elim (actual rows name) [
  | some a ↦ some a
  | none ↦
      if same r.rule_id name
      then some (record { passed = r.passed; reason_code = r.reason_code })
      else none
]

-- `actual.get(identifier) == expected`
abbrev pub same_assertion : Option Assertion → Assertion → Bool
same_assertion none expected = false
same_assertion (some a) expected =
    same_bool a.passed expected.passed
    && same (reason_name a.reason_code) (reason_name expected.reason_code)

abbrev pub mismatched : List RuleResult → List (Text × Assertion) → List Text
mismatched rows [] = []
mismatched rows ((name, expected) ∷ rest) =
    let later = mismatched rows rest in
    if same_assertion (actual rows name) expected then later else name ∷ later

abbrev pub rules_or_empty : Option (List (Text × Assertion)) → List (Text × Assertion)
rules_or_empty none = []
rules_or_empty (some rules) = rules

unfoldable pub rule_mismatches : List RuleResult → Case → List Text
unfolding actual same sort_names
rule_mismatches rows c = sort_names (mismatched rows (rules_or_empty c.expected_rules))

abbrev pub no_names : List Text → Bool
no_names [] = true
no_names _ = false

-- The body of the loop behind the evaluation.
unfoldable pub case_report : Text → Case → EvaluationResult → CaseReport
unfolding rule_mismatches
case_report version c x =
    if same version (txt "1.1")
    then record {
      case_id = c.case_id;
      expected_passed = c.expected_passed;
      matches_expectation =
          same_bool x.passed c.expected_passed && no_names (rule_mismatches x.rule_results c);
      evaluation = x;
      rule_assertion_mismatches = some (rule_mismatches x.rule_results c);
    }
    else record {
      case_id = c.case_id;
      expected_passed = c.expected_passed;
      matches_expectation = same_bool x.passed c.expected_passed;
      evaluation = x;
      rule_assertion_mismatches = none;
    }

abbrev pub count_mismatches : List CaseReport → ℕ
count_mismatches [] = 0
count_mismatches (r ∷ rs) =
    let rest = count_mismatches rs in if r.matches_expectation then rest else suc rest

abbrev pub summarize : Suite → Text → List CaseReport → SuiteReport
summarize s policy_id reports = record {
  suite_version = s.suite_version;
  policy_id = policy_id;
  matches_expectations = all (λ (r : CaseReport). r.matches_expectation) reports;
  case_count = length reports;
  mismatch_count = count_mismatches reports;
  cases = reports;
}

module _ ⦃repr : FloatText⦄ where
  unfoldable pub evaluate_cases :
      Text → Text → List CompiledRule → List Case → Result TestbenchError (List CaseReport)
  unfolding case_report evaluate_compiled
  evaluate_cases version policy_id compiled [] = ok []
  evaluate_cases version policy_id compiled (c ∷ cases) = do
    x ← evaluate_compiled policy_id compiled (obj c.response)
    rest ← evaluate_cases version policy_id compiled cases
    ok (case_report version c x ∷ rest)

  -- evaluate_suite behind the two validations
  unfoldable pub evaluate_fixtures : Policy → Suite → Result TestbenchError SuiteReport
  unfolding evaluate_cases compile
  evaluate_fixtures p s = do
    reports ← evaluate_cases s.suite_version p.policy_id (compile p) s.cases
    ok (summarize s p.policy_id reports)

  -- suite.py: evaluate_suite
  unfoldable pub evaluate_suite : PolicyInput → Value → Result TestbenchError SuiteReport
  unfolding evaluate_fixtures validate_suite
  evaluate_suite policy suite = do
    p ← map_err invalid_policy (validate_policy policy)
    s ← validate_suite suite
    evaluate_fixtures p s
