-- ===== src/Errors.antt =====
-- The exceptions of the library, TestbenchError and its subclasses: one constructor for each class,
-- and the message as a value.
use constitutional_agent_tes.Json.Ensure.{JsonError}
use constitutional_agent_tes.Policy.Checks.{PolicyError}

-- EvaluationInputError
pub data ResponseReason : Type 0 where
  response_not_object : ResponseReason
  response_json : JsonError → ResponseReason

-- SuiteInputError
pub data SuiteReason : Type 0 where
  suite_limits suite_fields suite_version_or_size case_fields case_identifier case_types :
      SuiteReason
  rules_not_object bad_assertion different_versions : SuiteReason

-- WorkflowInputError
pub data WorkflowReason : Type 0 where
  artifact_limits bad_selection unknown_case capture_mismatch bad_partition : WorkflowReason
  bad_outcome no_outcome bad_import : WorkflowReason
  bad_receipt bad_receipt_digest bad_replay : WorkflowReason

-- SyntheticGenerationError
pub data SyntheticReason : Type 0 where
  structural_limits conflict work_limit no_passing incompatible_paths no_failing : SyntheticReason
  too_many_probes unverified_target probe_size probe_limits : SyntheticReason

-- PrecedenceTraceError and OrderCheckTooLargeError
pub data OrderReason : Type 0 where
  order_policy : PolicyError → OrderReason
  order_response : ResponseReason → OrderReason
  too_few_rules too_many_peer_rules work_budget bad_result evaluator_failed other_policy :
      OrderReason
  result_limit report_limit : OrderReason

-- ReceiptInputError
pub data ReceiptReason : Type 0 where
  receipt_output receipt_limits receipt_fields receipt_version receipt_digest : ReceiptReason

-- JsonInputError
pub data JsonInputReason : Type 0 where
  unreadable bad_encoding too_large not_utf8_text not_strict_json too_complex : JsonInputReason

-- CliUsageError
pub data UsageReason : Type 0 where
  unknown_command extra_argument command_required missing_argument bad_arguments one_stdin :
      UsageReason

pub data TestbenchError : Type 0 where
  invalid_policy : PolicyError → TestbenchError
  invalid_response : ResponseReason → TestbenchError
  invalid_suite : SuiteReason → TestbenchError
  invalid_workflow : WorkflowReason → TestbenchError
  synthetic_failed : SyntheticReason → TestbenchError
  order_check : OrderReason → TestbenchError
  invalid_receipt : ReceiptReason → TestbenchError
  authoring_limit : TestbenchError
  invalid_json : JsonInputReason → TestbenchError
  invalid_command : UsageReason → TestbenchError
