-- ===== src/Coverage.antt =====
-- coverage.py: the rule outcomes and reason codes that the cases of a suite exercise.
pub mod Counts
pub mod Tally
pub mod Reachable
use constitutional_agent_tes.Base.{
  ℕ, zero, suc, ◌+◌, Bool, true, false, ◌&&◌, not, Option, none, some, List, [], ◌∷◌, ◌++◌, map,
  ltb, ◌==◌, if◌then◌else◌, Text, txt, same, text_le, sort_names, contains, keep, length, Result,
  ok, ◌>>=◌,
}
use constitutional_agent_tes.Json.{Value}
use constitutional_agent_tes.Json.Encode.{FloatText}
use constitutional_agent_tes.Policy.{Kind}
use constitutional_agent_tes.Policy.Validate.{PolicyInput}
use constitutional_agent_tes.Errors.{TestbenchError}
use constitutional_agent_tes.Evaluator.{
  rule_satisfied, field_missing, failure_reason, reason_name, RuleResult,
}
use constitutional_agent_tes.Suite.Evaluate.{CaseReport, SuiteReport, evaluate_suite}

abbrev pub failure_names : Kind → List Text
failure_names kind = elim (failure_reason kind) [ none ↦ [] | some code ↦ reason_name code ∷ [] ]

-- coverage.py: reachable_reason_codes; the failure codes differ from the other two
unfoldable pub reachable_reason_codes : Kind → List Text
unfolding failure_reason sort_names
reachable_reason_codes kind =
    sort_names (reason_name rule_satisfied ∷ reason_name field_missing ∷ failure_names kind)

-- One entry of the dict `rules`.
pub record Row : Type 0 where
  pub rule_id : Text
  pub path : Text
  pub kind : Kind
  pub passed_cases : ℕ
  pub failed_cases : ℕ
  pub reason_counts : List (Text × ℕ)

-- `reasons[code] = reasons.get(code, 0) + 1`
unfoldable pub add_reason : Text → List (Text × ℕ) → List (Text × ℕ)
unfolding same
add_reason code [] = (code, 1) ∷ []
add_reason code ((c, n) ∷ counts) =
    if same c code then (c, suc n) ∷ counts else (c, n) ∷ add_reason code counts

-- The default of `setdefault`.
abbrev pub empty_row : RuleResult → Row
empty_row r = record {
  rule_id = r.rule_id;
  path = r.path;
  kind = r.kind;
  passed_cases = 0;
  failed_cases = 0;
  reason_counts = [];
}

unfoldable pub count_result : RuleResult → Row → Row
unfolding add_reason
count_result r row = record row {
  passed_cases = if r.passed then suc row.passed_cases else row.passed_cases;
  failed_cases = if r.passed then row.failed_cases else suc row.failed_cases;
  reason_counts = add_reason (reason_name r.reason_code) row.reason_counts;
}

-- The body of the inner loop.
unfoldable pub add_result : RuleResult → List Row → List Row
unfolding count_result
add_result r [] = count_result r (empty_row r) ∷ []
add_result r (row ∷ rows) =
    if same row.rule_id r.rule_id then count_result r row ∷ rows else row ∷ add_result r rows

unfoldable pub add_results : List RuleResult → List Row → List Row
unfolding add_result
add_results [] rows = rows
add_results (r ∷ results) rows = add_results results (add_result r rows)

unfoldable pub add_cases : List CaseReport → List Row → List Row
unfolding add_results
add_cases [] rows = rows
add_cases (c ∷ cases) rows = add_cases cases (add_results c.evaluation.rule_results rows)

-- `sorted(rules.values(), key=lambda row: row["rule_id"])`
unfoldable pub insert_row : Row → List Row → List Row
unfolding text_le
insert_row row [] = row ∷ []
insert_row row (other ∷ rows) =
    if text_le row.rule_id other.rule_id then row ∷ other ∷ rows else other ∷ insert_row row rows

unfoldable pub sort_rows : List Row → List Row
unfolding insert_row
sort_rows [] = []
sort_rows (row ∷ rows) = insert_row row (sort_rows rows)

abbrev pub both_outcomes_observed : Row → Bool
both_outcomes_observed row = ltb 0 row.passed_cases && ltb 0 row.failed_cases

abbrev pub count_names : List (Text × ℕ) → List Text
count_names = map (λ (entry : Text × ℕ). entry.0)

unfoldable pub unexercised_reason_codes : Row → List Text
unfolding reachable_reason_codes contains
unexercised_reason_codes row =
    keep (λ code. not (contains (count_names row.reason_counts) code))
      (reachable_reason_codes row.kind)

abbrev pub is_empty : List Text → Bool
is_empty [] = true
is_empty (name ∷ names) = false

abbrev pub row_ids : List Row → List Text
row_ids = map (λ (row : Row). row.rule_id)

pub record Coverage : Type 0 where
  pub policy_id : Text
  pub case_count : ℕ
  pub rules : List Row
  pub rules_with_both_outcomes : ℕ
  pub unexercised_failures : List Text
  pub unexercised_passes : List Text
  pub rules_with_all_reason_codes : ℕ
  pub rules_missing_reason_codes : List Text

-- The end of suite_coverage, from the sorted rows on.
unfoldable pub summarize_rows : SuiteReport → List Row → Coverage
unfolding unexercised_reason_codes
summarize_rows report rows = record {
  policy_id = report.policy_id;
  case_count = report.case_count;
  rules = rows;
  rules_with_both_outcomes = length (keep both_outcomes_observed rows);
  unexercised_failures = row_ids (keep (λ (row : Row). row.failed_cases == 0) rows);
  unexercised_passes = row_ids (keep (λ (row : Row). row.passed_cases == 0) rows);
  rules_with_all_reason_codes = length (keep (λ row. is_empty (unexercised_reason_codes row)) rows);
  rules_missing_reason_codes =
      row_ids (keep (λ row. not (is_empty (unexercised_reason_codes row))) rows);
}

unfoldable pub coverage_of : SuiteReport → Coverage
unfolding summarize_rows sort_rows add_cases
coverage_of report = summarize_rows report (sort_rows (add_cases report.cases []))

module _ ⦃repr : FloatText⦄ where
  -- coverage.py: suite_coverage
  unfoldable pub suite_coverage : PolicyInput → Value → Result TestbenchError Coverage
  unfolding coverage_of evaluate_suite
  suite_coverage policy suite = do report ← evaluate_suite policy suite; ok (coverage_of report)
