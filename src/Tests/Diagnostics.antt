-- ===== src/Tests/Diagnostics.antt =====
-- Examples of coverage and of the lint of a policy.
use constitutional_agent_tes.Base.{
  ◌≡◌, refl, true, some, [], ◌∷◌, txt, same, contains, sort_names, encodable, All, ok, pos,
}
use constitutional_agent_tes.Json.{int, obj, end, field, member}
use constitutional_agent_tes.Json.Path.{get_field}
use constitutional_agent_tes.Json.Float.{whole, extended}
use constitutional_agent_tes.Json.Ensure.{ensure_json_value}
use constitutional_agent_tes.Json.Encode.{object_chunks}
use constitutional_agent_tes.Json.Encode.Size.{bounded_canonical_json_size}
use constitutional_agent_tes.Policy.{Policy, plain_rule, equals, range_kind}
use constitutional_agent_tes.Policy.Validate.{raw, object, validate_policy}
use constitutional_agent_tes.Evaluator.{reason_name, evaluate_rule}
use constitutional_agent_tes.Suite.Evaluate.{SuiteReport, evaluate_suite}
use constitutional_agent_tes.Coverage.{Coverage, reachable_reason_codes, suite_coverage}
use constitutional_agent_tes.Coverage.Reachable.{evaluate_rule-reachable_reason_codes}
use constitutional_agent_tes.Coverage.Tally.{Covered, suite_coverage-Covered}
use constitutional_agent_tes.Authoring.{Lint, lint_policy}
use constitutional_agent_tes.Authoring.Group.{Agrees}
use constitutional_agent_tes.Authoring.Sound.{lint_policy-Sound}
use constitutional_agent_tes.Artifact.{stable_json, bounded_artifact}
use constitutional_agent_tes.Triage.{Preflight, check_suite}
use constitutional_agent_tes.Triage.Ready.{Ready, check_suite-Ready}
use constitutional_agent_tes.Compare.{MigrationReport, migration_expectations}
use constitutional_agent_tes.Compare.Migration.{Migrated, migration_expectations-Migrated}
use constitutional_agent_tes.Tests.Data.{
  bit_patterns, quiet, two_rules_json, two_cases_json, bad_fields,
}

evaluate_rule-reachable_reason_codes_example :
    contains
      (reachable_reason_codes quiet.kind)
      (reason_name (evaluate_rule quiet (obj bad_fields)).reason_code)
    ≡ true
evaluate_rule-reachable_reason_codes_example =
    evaluate_rule-reachable_reason_codes quiet (obj bad_fields) tt

coverage : (c : Coverage) × (suite_coverage (raw two_rules_json) two_cases_json ≡ ok c)
unfolding suite_coverage validate_policy get_field ensure_json_value encodable
    bounded_canonical_json_size object_chunks sort_names same member
coverage = (_, refl)

suite_coverage-Covered_example :
    (report : SuiteReport) × (evaluate_suite (raw two_rules_json) two_cases_json ≡ ok report)
    × Covered report coverage.0
suite_coverage-Covered_example =
    suite_coverage-Covered (raw two_rules_json) two_cases_json {c = coverage.0} coverage.1

-- A level that is fixed to 0 and demanded to be at least 1.
abbrev clashing : Policy
clashing = record {
  policy_id = txt "site";
  rules =
      record (plain_rule (txt "fixed") equals (txt "level")) { value = int (pos 0) }
      ∷ record (plain_rule (txt "high") range_kind (txt "level")) { minimum = some (whole (pos 1)) }
      ∷ [];
  schema_version = txt "1.1";
}

clashing_valid : validate_policy (object clashing) ≡ ok clashing
unfolding validate_policy ensure_json_value encodable bounded_canonical_json_size object_chunks
    sort_names same member
clashing_valid = refl

clashing_lint :
    (report : Lint) × (lint_policy (object clashing) ≡ ok report) × (report.has_conflicts ≡ true)
unfolding lint_policy validate_policy evaluate_rule extended get_field ensure_json_value encodable
    bounded_canonical_json_size object_chunks sort_names same member
clashing_lint = (_, refl, refl)

lint_policy-Sound_example :
    ¬ All (Agrees (obj (field (txt "level") (int (pos 0)) end))) clashing.rules
lint_policy-Sound_example =
    lint_policy-Sound (object clashing) clashing (obj (field (txt "level") (int (pos 0)) end))
      {report = clashing_lint.0} clashing_valid clashing_lint.1 clashing_lint.2

ready :
    (r : Preflight) × (check_suite (raw two_rules_json) two_cases_json ≡ ok r) × (r.ready ≡ true)
unfolding check_suite validate_policy get_field ensure_json_value encodable
    bounded_canonical_json_size object_chunks sort_names same member stable_json bounded_artifact
    evaluate_rule
ready = (_, refl, refl)

check_suite-Ready_example : Ready (raw two_rules_json) two_cases_json
check_suite-Ready_example =
    check_suite-Ready (raw two_rules_json) two_cases_json {r = ready.0} ready.1 ready.2

migration :
    (m : MigrationReport) × (migration_expectations
        (raw two_rules_json)
        (raw two_rules_json)
        two_cases_json
      ≡ ok m)
unfolding migration_expectations validate_policy get_field ensure_json_value encodable
    bounded_canonical_json_size object_chunks sort_names same member stable_json bounded_artifact
migration = (_, refl)

migration_expectations-Migrated_example :
    Migrated (raw two_rules_json) (raw two_rules_json) two_cases_json migration.0
migration_expectations-Migrated_example =
    migration_expectations-Migrated (raw two_rules_json) (raw two_rules_json) two_cases_json
      {m = migration.0} migration.1
