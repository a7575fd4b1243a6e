-- ===== src/Cli/Operations.antt =====
-- operations.py: the table of the commands over JSON inputs. The reading of an input is a parameter.
use constitutional_agent_tes.Base.{
  ℕ, Bool, Option, none, some, List, [], ◌∷◌, length, Text, txt, Result, ok, ◌>>=◌,
}
use constitutional_agent_tes.Json.{Value, Fields}
use constitutional_agent_tes.Json.Encode.{FloatText}
use constitutional_agent_tes.Policy.Validate.{raw}
use constitutional_agent_tes.Errors.{TestbenchError}
use constitutional_agent_tes.Precedence.Report.{Digest}
use constitutional_agent_tes.Suite.{Suite}
use constitutional_agent_tes.Suite.Validate.{validate_suite}
use constitutional_agent_tes.Suite.Curation.{
  merge_suites, select_suite, capture_assertions, shard_suite, select_outcomes, deduplicate_suite,
  import_responses,
}
use constitutional_agent_tes.Suite.Curation.Reduce.{reduce_suite}
use constitutional_agent_tes.Inspection.{PolicyInventory, SuiteInventory, Audit}
use constitutional_agent_tes.Inspection.Reports.{inspect_policy, inspect_suite, audit_assertions}
use constitutional_agent_tes.Inspection.Difference.{Difference, diff_suites}
use constitutional_agent_tes.Triage.{Triage, Preflight, triage_suite, check_suite}
use constitutional_agent_tes.Compare.{MigrationReport, migration_expectations}
use constitutional_agent_tes.Receipt.{Verification}
use constitutional_agent_tes.Receipt.Suites.{
  Replay, create_suite_receipt, verify_suite_receipt, create_replay_bundle, replay_bundle,
}

-- The keys of COMMANDS.
pub data Operation : Type 0 where
  policy_inventory suite_inventory merging selection triage reduction : Operation
  suite_receipt suite_receipt_check replay_creation replay : Operation
  suite_check assertion_capture suite_difference sharding outcome_selection : Operation
  deduplication assertion_audit migration preflight response_import : Operation

abbrev pub operation_name : Operation → Text
operation_name policy_inventory = txt "inspect-policy"
operation_name suite_inventory = txt "inspect-suite"
operation_name merging = txt "merge-suites"
operation_name selection = txt "select-suite"
operation_name triage = txt "triage-suite"
operation_name reduction = txt "reduce-suite"
operation_name suite_receipt = txt "create-suite-receipt"
operation_name suite_receipt_check = txt "verify-suite-receipt"
operation_name replay_creation = txt "create-replay"
operation_name replay = txt "replay"
operation_name suite_check = txt "validate-suite"
operation_name assertion_capture = txt "capture-assertions"
operation_name suite_difference = txt "diff-suites"
operation_name sharding = txt "shard-suite"
operation_name outcome_selection = txt "select-outcomes"
operation_name deduplication = txt "deduplicate-suite"
operation_name assertion_audit = txt "audit-assertions"
operation_name migration = txt "migration-expectations"
operation_name preflight = txt "check-suite"
operation_name response_import = txt "import-responses"

-- The ordered JSON inputs.
abbrev pub input_fields : Operation → List Text
input_fields policy_inventory = txt "policy" ∷ []
input_fields suite_inventory = txt "suite" ∷ []
input_fields merging = txt "suite" ∷ txt "incoming" ∷ []
input_fields selection = txt "suite" ∷ txt "selection" ∷ []
input_fields triage = txt "policy" ∷ txt "suite" ∷ []
input_fields reduction = txt "policy" ∷ txt "suite" ∷ []
input_fields suite_receipt = txt "policy" ∷ txt "suite" ∷ []
input_fields suite_receipt_check = txt "policy" ∷ txt "suite" ∷ txt "receipt" ∷ []
input_fields replay_creation = txt "policy" ∷ txt "suite" ∷ []
input_fields replay = txt "bundle" ∷ []
input_fields suite_check = txt "suite" ∷ []
input_fields assertion_capture = txt "policy" ∷ txt "suite" ∷ []
input_fields suite_difference = txt "suite" ∷ txt "incoming" ∷ []
input_fields sharding = txt "suite" ∷ txt "partition" ∷ []
input_fields outcome_selection = txt "policy" ∷ txt "suite" ∷ txt "selection" ∷ []
input_fields deduplication = txt "suite" ∷ []
input_fields assertion_audit = txt "policy" ∷ txt "suite" ∷ []
input_fields migration = txt "policy" ∷ txt "candidate" ∷ txt "suite" ∷ []
input_fields preflight = txt "policy" ∷ txt "suite" ∷ []
input_fields response_import = txt "responses" ∷ txt "expectations" ∷ []

-- What an operation returns.
pub data OperationResult : Type 0 where
  policy_inspected : PolicyInventory → OperationResult
  suite_inspected : SuiteInventory → OperationResult
  suite_edited : Suite → OperationResult
  suite_triaged : Triage → OperationResult
  record_created : Fields → OperationResult
  record_verified : Verification → OperationResult
  bundle_replayed : Replay → OperationResult
  suite_counted : Text → ℕ → OperationResult
  suites_compared : Difference → OperationResult
  assertions_audited : Audit → OperationResult
  migrated : MigrationReport → OperationResult
  suite_preflighted : Preflight → OperationResult

-- `result[strict_field]`, where the operation has one
unfoldable pub strict_field : OperationResult → Option Bool
strict_field (suite_inspected r) = some r.consistent_expectations
strict_field (suite_triaged t) = some t.matches_expectations
strict_field (record_verified v) = some v.verified
strict_field (bundle_replayed r) = some r.replay_passed
strict_field (suites_compared d) = some d.identical
strict_field (assertions_audited a) = some a.assertions_compatible
strict_field (migrated m) = some m.no_regressions
strict_field (suite_preflighted p) = some p.ready
strict_field _ = none

-- suite.py: validate_suite_report, its version and count
unfoldable pub validate_suite_report :
    ⦃repr : FloatText⦄ → Value → Result TestbenchError OperationResult
unfolding validate_suite
validate_suite_report suite = do
  s ← validate_suite suite
  ok (suite_counted s.suite_version (length s.cases))

abbrev pub edited : Result TestbenchError Suite → Result TestbenchError OperationResult
edited run = do s ← run; ok (suite_edited s)

abbrev pub created : Result TestbenchError Fields → Result TestbenchError OperationResult
created run = do fs ← run; ok (record_created fs)

module _ ⦃repr : FloatText⦄ ⦃digest : Digest⦄ (read : Text → Result TestbenchError Value) where
  -- operations.py: run_operation, with the function of the table; `read` loads a field's input
  unfoldable pub run_operation : Operation → Result TestbenchError OperationResult
  unfolding validate_suite_report inspect_policy inspect_suite merge_suites select_suite
      triage_suite reduce_suite create_suite_receipt verify_suite_receipt create_replay_bundle
      replay_bundle capture_assertions diff_suites shard_suite select_outcomes deduplicate_suite
      audit_assertions migration_expectations check_suite import_responses
  run_operation policy_inventory = do
    policy ← read (txt "policy")
    r ← inspect_policy (raw policy)
    ok (policy_inspected r)
  run_operation suite_inventory = do
    suite ← read (txt "suite")
    r ← inspect_suite suite
    ok (suite_inspected r)
  run_operation merging = do
    suite ← read (txt "suite")
    incoming ← read (txt "incoming")
    edited (merge_suites suite incoming)
  run_operation selection = do
    suite ← read (txt "suite")
    names ← read (txt "selection")
    edited (select_suite suite names)
  run_operation triage = do
    policy ← read (txt "policy")
    suite ← read (txt "suite")
    t ← triage_suite (raw policy) suite
    ok (suite_triaged t)
  run_operation reduction = do
    policy ← read (txt "policy")
    suite ← read (txt "suite")
    edited (reduce_suite (raw policy) suite)
  run_operation suite_receipt = do
    policy ← read (txt "policy")
    suite ← read (txt "suite")
    created (create_suite_receipt (raw policy) suite)
  run_operation suite_receipt_check = do
    policy ← read (txt "policy")
    suite ← read (txt "suite")
    receipt ← read (txt "receipt")
    v ← verify_suite_receipt (raw policy) suite receipt
    ok (record_verified v)
  run_operation replay_creation = do
    policy ← read (txt "policy")
    suite ← read (txt "suite")
    created (create_replay_bundle (raw policy) suite)
  run_operation replay = do
    bundle ← read (txt "bundle")
    r ← replay_bundle bundle
    ok (bundle_replayed r)
  run_operation suite_check = do suite ← read (txt "suite"); validate_suite_report suite
  run_operation assertion_capture = do
    policy ← read (txt "policy")
    suite ← read (txt "suite")
    edited (capture_assertions (raw policy) suite)
  run_operation suite_difference = do
    suite ← read (txt "suite")
    incoming ← read (txt "incoming")
    d ← diff_suites suite incoming
    ok (suites_compared d)
  run_operation sharding = do
    suite ← read (txt "suite")
    partition ← read (txt "partition")
    edited (shard_suite suite partition)
  run_operation outcome_selection = do
    policy ← read (txt "policy")
    suite ← read (txt "suite")
    choice ← read (txt "selection")
    edited (select_outcomes (raw policy) suite choice)
  run_operation deduplication = do suite ← read (txt "suite"); edited (deduplicate_suite suite)
  run_operation assertion_audit = do
    policy ← read (txt "policy")
    suite ← read (txt "suite")
    a ← audit_assertions (raw policy) suite
    ok (assertions_audited a)
  run_operation migration = do
    policy ← read (txt "policy")
    candidate ← read (txt "candidate")
    suite ← read (txt "suite")
    m ← migration_expectations (raw policy) (raw candidate) suite
    ok (migrated m)
  run_operation preflight = do
    policy ← read (txt "policy")
    suite ← read (txt "suite")
    p ← check_suite (raw policy) suite
    ok (suite_preflighted p)
  run_operation response_import = do
    responses ← read (txt "responses")
    expectations ← read (txt "expectations")
    edited (import_responses responses expectations)
