-- ===== src/Triage.antt =====
-- triage.py: the failed expectations of a suite, and the preflight that combines the diagnostics.
pub mod Ready
use constitutional_agent_tes.Base.{
  ℕ, Bool, true, false, ◌&&◌, ◌||◌, not, Option, none, some, List, [], ◌∷◌, ◌++◌, map, length,
  if◌then◌else◌, Text, txt, same, text_le, keep, Result, ok, ◌>>=◌, ◌>>◌, map_err,
}
use constitutional_agent_tes.Json.{Value, bool, str, arr, obj, end, field, list_items}
use constitutional_agent_tes.Json.Encode.{FloatText}
use constitutional_agent_tes.Artifact.{bounded_artifact}
use constitutional_agent_tes.Policy.{Policy}
use constitutional_agent_tes.Policy.Validate.{PolicyInput, object, validate_policy}
use constitutional_agent_tes.Errors.{TestbenchError, invalid_policy}
use constitutional_agent_tes.Evaluator.{RuleResult, reason_name}
use constitutional_agent_tes.Precedence.Projections.{names_value}
use constitutional_agent_tes.Precedence.Report.{nat_value}
use constitutional_agent_tes.Suite.{Suite, suite_value}
use constitutional_agent_tes.Suite.Validate.{validate_suite}
use constitutional_agent_tes.Suite.Evaluate.{CaseReport, SuiteReport, evaluate_suite}
use constitutional_agent_tes.Authoring.{Finding, Lint, code_name, lint_policy}
use constitutional_agent_tes.Inspection.{DuplicateGroup, SuiteInventory, Audit}
use constitutional_agent_tes.Inspection.Reports.{
  inspect_suite, audit_assertions, audit_value, duplicate_value,
}

pub record CaseMismatch : Type 0 where
  pub case_id : Text
  pub expected_passed : Bool
  pub actual_passed : Bool
  pub failed_rule_ids : List Text
  pub rule_assertion_mismatches : List Text

pub record FailureGroup : Type 0 where
  pub rule_id : Text
  pub path : Text
  pub reason_code : Text
  pub case_ids : List Text

pub record Triage : Type 0 where
  pub policy_id : Text
  pub case_count : ℕ
  pub matches_expectations : Bool
  pub mismatch_count : ℕ
  pub mismatches : List CaseMismatch
  pub failure_groups : List FailureGroup

abbrev pub failed_rows : CaseReport → List RuleResult
failed_rows c = keep (λ (r : RuleResult). not r.passed) c.evaluation.rule_results

abbrev pub names_or_empty : Option (List Text) → List Text
names_or_empty none = []
names_or_empty (some names) = names

abbrev pub case_mismatch : CaseReport → CaseMismatch
case_mismatch c = record {
  case_id = c.case_id;
  expected_passed = c.expected_passed;
  actual_passed = c.evaluation.passed;
  failed_rule_ids = map (λ (r : RuleResult). r.rule_id) (failed_rows c);
  rule_assertion_mismatches = names_or_empty c.rule_assertion_mismatches;
}

-- `groups.setdefault((rule_id, path, reason_code), []).append(case_id)`
abbrev pub same_group : FailureGroup → RuleResult → Bool
same_group g r =
    same g.rule_id r.rule_id && same g.path r.path && same g.reason_code (reason_name r.reason_code)

unfoldable pub add_failure : Text → RuleResult → List FailureGroup → List FailureGroup
unfolding same
add_failure case_id r [] =
    record {
      rule_id = r.rule_id;
      path = r.path;
      reason_code = reason_name r.reason_code;
      case_ids = case_id ∷ [];
    }
    ∷ []
add_failure case_id r (g ∷ groups) =
    if same_group g r
    then record g { case_ids = g.case_ids ++ case_id ∷ [] } ∷ groups
    else g ∷ add_failure case_id r groups

unfoldable pub add_failures : Text → List RuleResult → List FailureGroup → List FailureGroup
unfolding add_failure
add_failures case_id [] groups = groups
add_failures case_id (r ∷ rows) groups = add_failures case_id rows (add_failure case_id r groups)

unfoldable pub failures_of : List CaseReport → List FailureGroup → List FailureGroup
unfolding add_failures
failures_of [] groups = groups
failures_of (c ∷ cases) groups = failures_of cases (add_failures c.case_id (failed_rows c) groups)

-- `sorted(groups)` by the triple
unfoldable pub group_le : FailureGroup → FailureGroup → Bool
unfolding text_le same
group_le g h =
    if not (same g.rule_id h.rule_id)
    then text_le g.rule_id h.rule_id
    else if not (same g.path h.path)
    then text_le g.path h.path
    else text_le g.reason_code h.reason_code

unfoldable pub insert_group_row : FailureGroup → List FailureGroup → List FailureGroup
unfolding group_le
insert_group_row g [] = g ∷ []
insert_group_row g (h ∷ groups) =
    if group_le g h then g ∷ h ∷ groups else h ∷ insert_group_row g groups

unfoldable pub sort_failures : List FailureGroup → List FailureGroup
unfolding insert_group_row
sort_failures [] = []
sort_failures (g ∷ groups) = insert_group_row g (sort_failures groups)

abbrev pub unexpected_cases : List CaseReport → List CaseReport
unexpected_cases = keep (λ (c : CaseReport). not c.matches_expectation)

unfoldable pub triage_of : SuiteReport → Triage
unfolding failures_of sort_failures
triage_of report = record {
  policy_id = report.policy_id;
  case_count = report.case_count;
  matches_expectations = report.matches_expectations;
  mismatch_count = length (unexpected_cases report.cases);
  mismatches = map case_mismatch (unexpected_cases report.cases);
  failure_groups = sort_failures (failures_of (unexpected_cases report.cases) []);
}

-- The dicts.
abbrev pub case_mismatch_value : CaseMismatch → Value
case_mismatch_value m = obj (
    field (txt "case_id") (str m.case_id) (
      field (txt "expected_passed") (bool m.expected_passed) (
        field (txt "actual_passed") (bool m.actual_passed) (
          field (txt "failed_rule_ids") (names_value m.failed_rule_ids) (
            field (txt "rule_assertion_mismatches") (names_value m.rule_assertion_mismatches)
              end)))))

abbrev pub failure_group_value : FailureGroup → Value
failure_group_value g = obj (
    field (txt "rule_id") (str g.rule_id) (
      field (txt "path") (str g.path) (
        field (txt "reason_code") (str g.reason_code)
          (field (txt "case_ids") (names_value g.case_ids) end))))

abbrev pub triage_value : Triage → Value
triage_value t = obj (
    field (txt "policy_id") (str t.policy_id) (
      field (txt "case_count") (nat_value t.case_count) (
        field (txt "matches_expectations") (bool t.matches_expectations) (
          field (txt "mismatch_count") (nat_value t.mismatch_count) (
            field (txt "mismatches") (arr (list_items (map case_mismatch_value t.mismatches))) (
              field (txt "failure_groups")
                (arr (list_items (map failure_group_value t.failure_groups)))
                (field (txt "values_included") (bool false) end)))))))

-- check_suite
pub record Preflight : Type 0 where
  pub policy_id : Text
  pub ready : Bool
  pub no_policy_conflicts : Bool
  pub consistent_expectations : Bool
  pub compatible_assertions : Bool
  pub matches_expectations : Bool
  pub policy_findings : List Finding
  pub duplicate_responses : List DuplicateGroup
  pub assertions : Audit
  pub regressions : Triage

unfoldable pub preflight : Policy → Lint → SuiteInventory → Audit → Triage → Preflight
preflight p lint inventory assertions regression = record {
  policy_id = p.policy_id;
  ready =
      not lint.has_conflicts
      && inventory.consistent_expectations
      && assertions.assertions_compatible
      && regression.matches_expectations;
  no_policy_conflicts = not lint.has_conflicts;
  consistent_expectations = inventory.consistent_expectations;
  compatible_assertions = assertions.assertions_compatible;
  matches_expectations = regression.matches_expectations;
  policy_findings = lint.findings;
  duplicate_responses = inventory.duplicate_responses;
  assertions = assertions;
  regressions = regression;
}

abbrev pub finding_value : Finding → Value
finding_value f = obj (
    field (txt "code") (str (code_name f.code))
      (field (txt "path") (str f.path) (field (txt "rule_ids") (names_value f.rule_ids) end)))

abbrev pub checks_value : Preflight → Value
checks_value r = obj (
    field (txt "no_policy_conflicts") (bool r.no_policy_conflicts) (
      field (txt "consistent_expectations") (bool r.consistent_expectations) (
        field (txt "compatible_assertions") (bool r.compatible_assertions)
          (field (txt "matches_expectations") (bool r.matches_expectations) end))))

abbrev pub preflight_value : Preflight → Value
preflight_value r = obj (
    field (txt "policy_id") (str r.policy_id) (
      field (txt "ready") (bool r.ready) (
        field (txt "checks") (checks_value r) (
          field (txt "policy_findings") (arr (list_items (map finding_value r.policy_findings))) (
            field (txt "duplicate_responses")
              (arr (list_items (map duplicate_value r.duplicate_responses)))
              (field (txt "assertions") (audit_value r.assertions) (
                field (txt "regressions") (triage_value r.regressions) (
                  field (txt "scope")
                    (str (txt "local fixture preflight; not a safety or satisfiability proof"))
                    end))))))))

module _ ⦃repr : FloatText⦄ where
  -- triage.py: triage_suite
  unfoldable pub triage_suite : PolicyInput → Value → Result TestbenchError Triage
  unfolding triage_of evaluate_suite
  triage_suite policy suite = do
    report ← evaluate_suite policy suite
    bounded_artifact (triage_value (triage_of report))
    ok (triage_of report)

  -- triage.py: check_suite
  unfoldable pub check_suite : PolicyInput → Value → Result TestbenchError Preflight
  unfolding preflight lint_policy inspect_suite audit_assertions triage_suite
  check_suite policy suite = do
    current ← map_err invalid_policy (validate_policy policy)
    fixtures ← validate_suite suite
    lint ← lint_policy (object current)
    inventory ← inspect_suite (suite_value fixtures)
    assertions ← audit_assertions (object current) (suite_value fixtures)
    regression ← triage_suite (object current) (suite_value fixtures)
    bounded_artifact (preflight_value (preflight current lint inventory assertions regression))
    ok (preflight current lint inventory assertions regression)
