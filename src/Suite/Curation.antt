-- ===== src/Suite/Curation.antt =====
-- curation.py: corpus edits. Each works on the cases of a validated suite.
pub mod Laws
pub mod Reduce
use constitutional_agent_tes.Base.{
  ℕ, zero, suc, ◌+◌, ◌-◌, Bool, true, false, ◌&&◌, ◌||◌, not, Option, none, some, List, [], ◌∷◌,
  ◌++◌, map, ltb, leb, ◌==◌, if◌then◌else◌, Text, txt, same, contains, distinct, all, keep, length,
  decimal, ℤ, pos, Result, ok, err, ◌>>=◌, ◌>>◌, guard, map_err,
}
use constitutional_agent_tes.Json.{
  Value, bool, int, str, arr, obj, Items, nil, cons, Fields, end, field, member, items_list,
  list_items,
}
use constitutional_agent_tes.Json.Encode.{FloatText, canonical_json, equal_texts}
use constitutional_agent_tes.Artifact.{bounded_artifact}
use constitutional_agent_tes.Policy.Validate.{PolicyInput, validate_policy}
use constitutional_agent_tes.Policy.Checks.{type_name_list}
use constitutional_agent_tes.Errors.{
  TestbenchError, invalid_policy, invalid_suite, different_versions, invalid_workflow,
  bad_selection, unknown_case, capture_mismatch, bad_partition, bad_outcome, no_outcome, bad_import,
}
use constitutional_agent_tes.Evaluator.{RuleResult}
use constitutional_agent_tes.Precedence.Result.{exact_keys}
use constitutional_agent_tes.Suite.{
  Assertion, Case, Suite, max_suite_cases, rules_member, case_value, suite_value,
}
use constitutional_agent_tes.Suite.Validate.{validate_suite}
use constitutional_agent_tes.Suite.Evaluate.{CaseReport, evaluate_suite}

abbrev pub case_ids : List Case → List Text
case_ids = map (λ (c : Case). c.case_id)

-- `fixtures["cases"][start::step]`: `wait` cases are skipped before the next one is taken.
unfoldable pub every : ℕ → ℕ → List Case → List Case
every wait step [] = []
every zero step (c ∷ cases) = c ∷ every (step - 1) step cases
every (suc wait) step (c ∷ cases) = every wait step cases

-- Python's `case-{index:03d}`
abbrev pub padded : ℕ → Text
padded n =
    if ltb n 10
    then txt "00" ++ decimal n
    else if ltb n 100
    then txt "0" ++ decimal n
    else decimal n

unfoldable pub imported_cases : ℕ → List Value → List Bool → List Value
imported_cases index (response ∷ responses) (expected ∷ expectations) =
    obj (
      field (txt "case_id") (str (txt "case-" ++ padded index))
        (field (txt "response") response (field (txt "expected_passed") (bool expected) end)))
    ∷ imported_cases (suc index) responses expectations
imported_cases index _ _ = []

abbrev pub objects_only : List Value → Bool
objects_only [] = true
objects_only (obj fs ∷ vs) = objects_only vs
objects_only _ = false

abbrev pub booleans : List Value → Option (List Bool)
booleans [] = some []
booleans (bool b ∷ vs) = elim (booleans vs) [ none ↦ none | some bs ↦ some (b ∷ bs) ]
booleans _ = none

-- `{row["rule_id"]: {...} for row in rule_results}`; rule identifiers of a policy are distinct
abbrev pub captured_rules : List RuleResult → List (Text × Assertion)
captured_rules =
    map (λ (r : RuleResult). (r.rule_id, record { passed = r.passed; reason_code = r.reason_code }))

unfoldable pub capture_cases : List Case → List CaseReport → List Case
capture_cases (c ∷ cases) (r ∷ reports) =
    record c { expected_rules = some (captured_rules r.evaluation.rule_results) }
    ∷ capture_cases cases reports
capture_cases _ _ = []

pub data OutcomeChoice : Type 0 where
  mismatched_cases matched_cases passed_cases failed_cases : OutcomeChoice

abbrev pub outcome_choice : Text → Option OutcomeChoice
outcome_choice name =
    if same name (txt "mismatched")
    then some mismatched_cases
    else if same name (txt "matched")
    then some matched_cases
    else if same name (txt "passed")
    then some passed_cases
    else if same name (txt "failed")
    then some failed_cases
    else none

unfoldable pub in_cohort : OutcomeChoice → CaseReport → Bool
in_cohort mismatched_cases r = not r.matches_expectation
in_cohort matched_cases r = r.matches_expectation
in_cohort passed_cases r = r.evaluation.passed
in_cohort failed_cases r = not r.evaluation.passed

unfoldable pub cohort : OutcomeChoice → List Case → List CaseReport → List Case
unfolding in_cohort
cohort choice (c ∷ cases) (r ∷ reports) =
    let rest = cohort choice cases reports in if in_cohort choice r then c ∷ rest else rest
cohort choice _ _ = []

abbrev pub choice_of : Value → Option OutcomeChoice
choice_of (str name) = outcome_choice name
choice_of _ = none

abbrev pub selection_names : Value → Option (List Text)
selection_names (arr (cons v vs)) =
    if leb (length (v ∷ items_list vs)) max_suite_cases then type_name_list (cons v vs) else none
selection_names _ = none

abbrev pub has_case : List Case → Bool
has_case [] = false
has_case (c ∷ cases) = true

abbrev pub read_partition : ℕ → Option Value → Option Value → Option (ℕ × ℕ)
read_partition size (some (int (pos index))) (some (int (pos count))) =
    if leb 1 count && leb count size && ltb index count then some (index, count) else none
read_partition size _ _ = none

abbrev pub partition_of : ℕ → Value → Option (ℕ × ℕ)
partition_of size (obj fs) =
    if exact_keys fs (txt "index" ∷ txt "count" ∷ [])
    then read_partition size (member (txt "index") fs) (member (txt "count") fs)
    else none
partition_of size _ = none

-- The payload of a case without its identifier.
abbrev pub payload : Case → Value
payload c = obj (
    field (txt "response") (obj c.response)
      (field (txt "expected_passed") (bool c.expected_passed) (rules_member c.expected_rules)))

module _ ⦃repr : FloatText⦄ where
  abbrev pub bounded : Suite → Result TestbenchError Suite
  bounded s = bounded_artifact (suite_value s) >> ok s

  abbrev pub validated : Suite → Result TestbenchError Suite
  validated s = validate_suite (suite_value s) >>= bounded

  -- curation.py: merge_suites
  unfoldable pub merge_suites : Value → Value → Result TestbenchError Suite
  merge_suites suite incoming = do
    left ← validate_suite suite
    right ← validate_suite incoming
    guard (same left.suite_version right.suite_version) (invalid_suite different_versions)
    validated (record left { cases = left.cases ++ right.cases })

  abbrev pub select_named : Suite → Option (List Text) → Result TestbenchError Suite
  select_named s none = err (invalid_workflow bad_selection)
  select_named s (some names) = do
    guard (distinct names) (invalid_workflow bad_selection)
    guard (all (contains (case_ids s.cases)) names) (invalid_workflow unknown_case)
    bounded (record s { cases = keep (λ (c : Case). contains names c.case_id) s.cases })

  -- curation.py: select_suite
  unfoldable pub select_suite : Value → Value → Result TestbenchError Suite
  select_suite suite selection = do
    s ← validate_suite suite
    bounded_artifact selection
    select_named s (selection_names selection)

  -- curation.py: capture_assertions
  unfoldable pub capture_assertions : PolicyInput → Value → Result TestbenchError Suite
  unfolding capture_cases
  capture_assertions policy suite = do
    s ← validate_suite suite
    report ← evaluate_suite policy (suite_value s)
    guard report.matches_expectations (invalid_workflow capture_mismatch)
    validated (record { suite_version = txt "1.1"; cases = capture_cases s.cases report.cases })

  abbrev pub shard_of : Suite → Option (ℕ × ℕ) → Result TestbenchError Suite
  shard_of s none = err (invalid_workflow bad_partition)
  shard_of s (some (index, count)) = bounded (record s { cases = every index count s.cases })

  -- curation.py: shard_suite
  unfoldable pub shard_suite : Value → Value → Result TestbenchError Suite
  unfolding every exact_keys
  shard_suite suite partition = do
    s ← validate_suite suite
    bounded_artifact partition
    shard_of s (partition_of (length s.cases) partition)

  abbrev pub select_cohort :
      PolicyInput → Value → Option OutcomeChoice → Result TestbenchError Suite
  select_cohort policy suite none = err (invalid_workflow bad_outcome)
  select_cohort policy suite (some choice) = do
    s ← validate_suite suite
    report ← evaluate_suite policy (suite_value s)
    guard (has_case (cohort choice s.cases report.cases)) (invalid_workflow no_outcome)
    bounded (record s { cases = cohort choice s.cases report.cases })

  -- curation.py: select_outcomes
  unfoldable pub select_outcomes : PolicyInput → Value → Value → Result TestbenchError Suite
  unfolding cohort
  select_outcomes policy suite selection = do
    bounded_artifact selection
    select_cohort policy suite (choice_of selection)

  abbrev pub same_payload : Case → Case → Bool
  same_payload c d = equal_texts (canonical_json (payload c)) (canonical_json (payload d))

  abbrev pub seen_payload : Case → List Case → Bool
  seen_payload c [] = false
  seen_payload c (d ∷ cases) = same_payload d c || seen_payload c cases

  -- The loop of deduplicate_suite, with the cases retained so far.
  unfoldable pub deduplicate : List Case → List Case → List Case
  deduplicate seen [] = []
  deduplicate seen (c ∷ cases) = elim (seen_payload c seen) [
    | true ↦ deduplicate seen cases
    | false ↦ c ∷ deduplicate (c ∷ seen) cases
  ]

  -- curation.py: deduplicate_suite
  unfoldable pub deduplicate_suite : Value → Result TestbenchError Suite
  unfolding deduplicate
  deduplicate_suite suite = do
    s ← validate_suite suite
    bounded (record s { cases = deduplicate [] s.cases })

  abbrev pub import_lists : List Value → Option (List Bool) → Result TestbenchError Suite
  import_lists responses none = err (invalid_workflow bad_import)
  import_lists responses (some expectations) = do
    guard
        (leb 1 (length responses)
          && leb (length responses) max_suite_cases
          && objects_only responses
          && length expectations == length responses)
        (invalid_workflow bad_import)
    s ← validate_suite (
        obj (
          field (txt "suite_version") (str (txt "1.0"))
            (field (txt "cases") (arr (list_items (imported_cases 1 responses expectations))) end)))
    bounded s

  abbrev pub import_values : Value → Value → Result TestbenchError Suite
  import_values (arr xs) (arr ys) = import_lists (items_list xs) (booleans (items_list ys))
  import_values _ _ = err (invalid_workflow bad_import)

  -- curation.py: import_responses
  unfoldable pub import_responses : Value → Value → Result TestbenchError Suite
  unfolding imported_cases
  import_responses responses expectations = do
    bounded_artifact responses
    bounded_artifact expectations
    import_values responses expectations
