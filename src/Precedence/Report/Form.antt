-- ===== src/Precedence/Report/Form.antt =====
-- precedence.py: the data of a report, its limits and its public dict.
use constitutional_agent_tes.Base.{
  ℕ, ◌+◌, ◌*◌, Bool, Option, none, some, List, if◌then◌else◌, Text, txt, pos,
}
use constitutional_agent_tes.Json.{Value, null, bool, int, str, arr, obj, end, field, list_items}
use constitutional_agent_tes.Precedence.Result.{max_evaluator_result_bytes}

abbrev pub order_repeats : ℕ
order_repeats = 3

abbrev pub max_exhaustive_work_bytes : ℕ
max_exhaustive_work_bytes = 100_000_000

abbrev pub max_report_bytes : ℕ
max_report_bytes = 1_000_000

pub data Status : Type 0 where
  no_variance_observed presentation_only_drift incomplete_rule_coverage evidence_order_drift :
      Status
  semantic_order_drift participation_order_drift compound_order_drift : Status
  inconclusive_nondeterministic : Status

abbrev pub status_name : Status → Text
status_name no_variance_observed = txt "NO_VARIANCE_OBSERVED"
status_name presentation_only_drift = txt "PRESENTATION_ONLY_DRIFT"
status_name incomplete_rule_coverage = txt "INCOMPLETE_RULE_COVERAGE"
status_name evidence_order_drift = txt "EVIDENCE_ORDER_DRIFT"
status_name semantic_order_drift = txt "SEMANTIC_ORDER_DRIFT"
status_name participation_order_drift = txt "PARTICIPATION_ORDER_DRIFT"
status_name compound_order_drift = txt "COMPOUND_ORDER_DRIFT"
status_name inconclusive_nondeterministic = txt "INCONCLUSIVE_NONDETERMINISTIC"

pub record Variance : Type 0 where
  pub outcome : Bool
  pub reason_evidence : Bool
  pub participation : Bool
  pub presentation : Bool

-- The work that the runs so far are charged.
pub record Work : Type 0 where
  pub runs : ℕ
  pub result_bytes : ℕ

abbrev pub charged : ℕ → Work → ℕ
charged input_bytes w = w.runs * input_bytes + w.result_bytes

pub record Report : Type 0 where
  pub conforms : Option Bool
  pub exhaustive : Bool
  pub runs : ℕ
  pub orders_completed : ℕ
  pub orders_attempted : ℕ
  pub orders_total : ℕ
  pub rule_count : ℕ
  pub estimated_work : ℕ
  pub observed_result_bytes : ℕ
  pub charged_work : ℕ
  pub rule_results_complete : Option Bool
  pub incomplete_orders : Option ℕ
  pub policy_id : Text
  pub follows_requested_order : Option Bool
  pub status : Status
  pub variance : Option Variance
  pub witnesses : List Value

abbrev pub nat_value : ℕ → Value
nat_value n = int (pos n)

abbrev pub option_bool : Option Bool → Value
option_bool none = null
option_bool (some b) = bool b

abbrev pub option_nat : Option ℕ → Value
option_nat none = null
option_nat (some n) = nat_value n

abbrev pub variance_value : Option Variance → Value
variance_value none = null
variance_value (some v) = obj (
    field (txt "outcome") (bool v.outcome) (
      field (txt "reason_evidence") (bool v.reason_evidence) (
        field (txt "participation") (bool v.participation)
          (field (txt "presentation") (bool v.presentation) end))))

abbrev pub mode_name : Bool → Text
mode_name exhaustive = if exhaustive then txt "exhaustive" else txt "incomplete"

abbrev pub coverage_value : Report → Value
coverage_value r = obj (
    field (txt "mode") (str (mode_name r.exhaustive)) (
      field (txt "evaluator_runs") (nat_value r.runs) (
        field (txt "evaluations_performed") (nat_value r.runs) (
          field (txt "evaluations_per_order") (nat_value order_repeats) (
            field (txt "orders_evaluated") (nat_value r.orders_attempted) (
              field (txt "orders_completed") (nat_value r.orders_completed) (
                field (txt "orders_attempted") (nat_value r.orders_attempted) (
                  field (txt "orders_total") (nat_value r.orders_total) (
                    field (txt "rule_count") (nat_value r.rule_count) (
                      field (txt "estimated_work_bytes") (nat_value r.estimated_work) (
                        field (txt "estimated_input_work_bytes") (nat_value r.estimated_work) (
                          field (txt "observed_result_bytes") (nat_value r.observed_result_bytes) (
                            field (txt "charged_work_bytes") (nat_value r.charged_work) (
                              field (txt "observed_work_bytes") (nat_value r.charged_work) (
                                field (txt "result_byte_limit")
                                  (nat_value max_evaluator_result_bytes)
                                  (field (txt "report_byte_limit") (nat_value max_report_bytes) (
                                    field (txt "rule_results_complete")
                                      (option_bool r.rule_results_complete)
                                      (field (txt "incomplete_orders")
                                        (option_nat r.incomplete_orders)
                                        (field (txt "work_budget_bytes")
                                          (nat_value max_exhaustive_work_bytes)
                                          end)))))))))))))))))))

-- The public dict of a report.
unfoldable pub report_value : Report → Value
report_value r = obj (
    field (txt "baseline_repeats") (nat_value order_repeats) (
      field (txt "evaluation_repeats_per_order") (nat_value order_repeats) (
        field (txt "conforms_within_coverage") (option_bool r.conforms) (
          field (txt "coverage") (coverage_value r) (
            field (txt "policy_id") (str r.policy_id) (
              field (txt "presentation_follows_requested_order")
                (option_bool r.follows_requested_order)
                (field (txt "report_schema_version") (str (txt "1.0")) (
                  field (txt "status") (str (status_name r.status)) (
                    field (txt "variance") (variance_value r.variance)
                      (field (txt "witnesses") (arr (list_items r.witnesses)) end))))))))))
