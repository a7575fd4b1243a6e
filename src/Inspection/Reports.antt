-- ===== src/Inspection/Reports.antt =====
-- inspection.py: the dicts of the inventories, and the operations that return them.
use constitutional_agent_tes.Base.{
  ℕ, false, List, [], ◌∷◌, map, length, Text, txt, Result, ok, ◌>>=◌, ◌>>◌, map_err,
}
use constitutional_agent_tes.Json.{Value, bool, str, arr, obj, Fields, end, field, list_items}
use constitutional_agent_tes.Json.Encode.{FloatText}
use constitutional_agent_tes.Artifact.{bounded_artifact}
use constitutional_agent_tes.Policy.Validate.{PolicyInput, validate_policy}
use constitutional_agent_tes.Errors.{TestbenchError, invalid_policy}
use constitutional_agent_tes.Precedence.Projections.{names_value}
use constitutional_agent_tes.Precedence.Report.{nat_value}
use constitutional_agent_tes.Suite.Validate.{validate_suite}
use constitutional_agent_tes.Inspection.{
  PathEntry, PolicyInventory, policy_inventory, DuplicateGroup, SuiteInventory, suite_inventory,
  CaseAudit, Audit, audit_of,
}

abbrev pub path_entry_value : PathEntry → Value
path_entry_value e = obj (
    field (txt "path") (str e.path) (
      field (txt "rule_ids") (names_value e.rule_ids)
        (field (txt "ancestor_paths") (names_value e.ancestor_paths) end)))

abbrev pub count_fields_of : List (Text × ℕ) → Fields
count_fields_of [] = end
count_fields_of ((name, n) ∷ counts) = field name (nat_value n) (count_fields_of counts)

abbrev pub policy_inventory_value : PolicyInventory → Value
policy_inventory_value r = obj (
    field (txt "policy_id") (str r.policy_id) (
      field (txt "schema_version") (str r.schema_version) (
        field (txt "rule_count") (nat_value r.rule_count) (
          field (txt "path_count") (nat_value (length r.paths)) (
            field (txt "kind_counts") (obj (count_fields_of r.kind_counts))
              (field (txt "paths") (arr (list_items (map path_entry_value r.paths))) end))))))

abbrev pub duplicate_value : DuplicateGroup → Value
duplicate_value d = obj (
    field (txt "case_ids") (names_value d.case_ids)
      (field (txt "conflicting_expectations") (bool d.conflicting_expectations) end))

abbrev pub suite_inventory_value : SuiteInventory → Value
suite_inventory_value r = obj (
    field (txt "suite_version") (str r.suite_version) (
      field (txt "case_count") (nat_value r.case_count) (
        field (txt "unique_response_count") (nat_value r.unique_response_count) (
          field (txt "expected_pass_count") (nat_value r.expected_pass_count) (
            field (txt "duplicate_responses")
              (arr (list_items (map duplicate_value r.duplicate_responses)))
              (field (txt "consistent_expectations") (bool r.consistent_expectations) end))))))

abbrev pub case_audit_value : CaseAudit → Value
case_audit_value a = obj (
    field (txt "case_id") (str a.case_id) (
      field (txt "unknown_rule_ids") (names_value a.unknown_rule_ids) (
        field (txt "incompatible_reason_rule_ids") (names_value a.incompatible_reason_rule_ids) (
          field (txt "unasserted_rule_ids") (names_value a.unasserted_rule_ids)
            (field (txt "contradictory_verdict") (bool a.contradictory_verdict) end)))))

abbrev pub audit_value : Audit → Value
audit_value r = obj (
    field (txt "policy_id") (str r.policy_id) (
      field (txt "case_count") (nat_value r.case_count) (
        field (txt "cases") (arr (list_items (map case_audit_value r.cases))) (
          field (txt "assertions_compatible") (bool r.assertions_compatible) (
            field (txt "fully_asserted") (bool r.fully_asserted)
              (field (txt "values_included") (bool false) end))))))

module _ ⦃repr : FloatText⦄ where
  -- inspection.py: inspect_policy
  unfoldable pub inspect_policy : PolicyInput → Result TestbenchError PolicyInventory
  unfolding policy_inventory
  inspect_policy policy = do
    current ← map_err invalid_policy (validate_policy policy)
    bounded_artifact (policy_inventory_value (policy_inventory current))
    ok (policy_inventory current)

  -- inspection.py: inspect_suite
  unfoldable pub inspect_suite : Value → Result TestbenchError SuiteInventory
  unfolding suite_inventory
  inspect_suite suite = do
    fixtures ← validate_suite suite
    bounded_artifact (suite_inventory_value (suite_inventory fixtures))
    ok (suite_inventory fixtures)

  -- inspection.py: audit_assertions
  unfoldable pub audit_assertions : PolicyInput → Value → Result TestbenchError Audit
  unfolding audit_of
  audit_assertions policy suite = do
    current ← map_err invalid_policy (validate_policy policy)
    fixtures ← validate_suite suite
    bounded_artifact (audit_value (audit_of current fixtures))
    ok (audit_of current fixtures)
