-- ===== src/Coverage/Tally.antt =====
-- The fold of suite_coverage over a suite report, and its sorted rows.
use constitutional_agent_tes.Base.{
  ◌+◌, ◌≡◌, refl, sym, ap, ◌∙◌, subst, Bool, ◌&&◌, ◌||◌, not, inl, inr, List, [], ◌∷◌, ◌++◌, arith,
  Text, same, contains, text_le, distinct, keep, All, length, Bool-cases, ok, >>=-eq-ok,
  ok-injective,
}
use constitutional_agent_tes.Json.{Value}
use constitutional_agent_tes.Json.Encode.{FloatText}
use constitutional_agent_tes.Policy.Validate.{PolicyInput}
use constitutional_agent_tes.Evaluator.{RuleResult}
use constitutional_agent_tes.Suite.Evaluate.{CaseReport, SuiteReport, evaluate_suite}
use constitutional_agent_tes.Coverage.{
  Row, Coverage, add_result, add_results, add_cases, row_ids, insert_row, sort_rows, coverage_of,
  suite_coverage, summarize_rows,
}
use constitutional_agent_tes.Coverage.Counts.{
  Exact, Tally, is_pass, is_fail, has_code, is_named, same_comm, add_result-Tally,
}

count_append :
    (p : RuleResult → Bool) (xs ys : List RuleResult)
    → length (keep p (xs ++ ys)) ≡ length (keep p xs) + length (keep p ys)
count_append p [] ys = omega arith
count_append p (x ∷ xs) ys = ground (arith, count_append p xs ys)

recount_Exact :
    (xs ys : List RuleResult)
    → ((p : RuleResult → Bool) → length (keep p xs) ≡ length (keep p ys))
    → (rows : List Row) → All (Exact xs) rows
    → All (Exact ys) rows
recount_Exact xs ys h [] exact = tt
recount_Exact xs ys h (row ∷ rows) exact = (
  record {
    passed = exact.0.passed ∙ h (is_pass row.rule_id);
    failed = exact.0.failed ∙ h (is_fail row.rule_id);
    reasons = λ code. exact.0.reasons code ∙ h (has_code row.rule_id code);
  },
  recount_Exact xs ys h rows exact.1,
)

-- A tally depends on the number of results of each sort only.
recount :
    (xs ys : List RuleResult) (rows : List Row)
    → ((p : RuleResult → Bool) → length (keep p xs) ≡ length (keep p ys))
    → Tally xs rows
    → Tally ys rows
recount xs ys rows h t = record {
  exact = recount_Exact xs ys h rows t.exact;
  single = t.single;
  absent = λ name e. sym (h (is_named name)) ∙ t.absent name e;
}

add_results-Tally :
    (results done : List RuleResult) (rows : List Row)
    → Tally done rows
    → Tally (results ++ done) (add_results results rows)
unfolding add_results
add_results-Tally [] done rows t = t
add_results-Tally (r ∷ results) done rows t =
    recount (results ++ r ∷ done) (r ∷ (results ++ done)) (add_results results (add_result r rows))
      (λ p. ground (arith, count_append p results (r ∷ done), count_append p results done))
      (add_results-Tally results (r ∷ done) (add_result r rows) (add_result-Tally done r rows t))

-- Every rule result of every case.
unfoldable pub all_results : List CaseReport → List RuleResult
all_results [] = []
all_results (c ∷ cases) = c.evaluation.rule_results ++ all_results cases

add_cases-Tally :
    (cases : List CaseReport) (done : List RuleResult) (rows : List Row)
    → Tally done rows
    → Tally (all_results cases ++ done) (add_cases cases rows)
unfolding add_cases all_results
add_cases-Tally [] done rows t = t
add_cases-Tally (c ∷ cases) done rows t =
    let own = c.evaluation.rule_results in
    let others = all_results cases in
    recount (others ++ (own ++ done)) ((own ++ others) ++ done)
      (add_cases cases (add_results own rows))
      (λ p. omega (
        arith,
        count_append p others (own ++ done),
        count_append p own done,
        count_append p (own ++ others) done,
        count_append p own others,
      ))
      (add_cases-Tally cases (own ++ done) (add_results own rows)
        (add_results-Tally own done rows t))

contains-insert_row :
    (row : Row) (rows : List Row) (name : Text)
    → contains (row_ids (insert_row row rows)) name
      ≡ (same row.rule_id name || contains (row_ids rows) name)
unfolding insert_row contains
contains-insert_row row [] name = refl
contains-insert_row row (other ∷ rows) name = ground (arith, contains-insert_row row rows name)

distinct-insert_row :
    (row : Row) (rows : List Row)
    → distinct (row_ids (insert_row row rows))
      ≡ (not (contains (row_ids rows) row.rule_id) && distinct (row_ids rows))
unfolding insert_row distinct contains
distinct-insert_row row [] = refl
distinct-insert_row row (other ∷ rows) = ground (
  arith,
  distinct-insert_row row rows,
  contains-insert_row row rows other.rule_id,
  same_comm row.rule_id other.rule_id,
)

insert_row-Exact :
    (done : List RuleResult) (row : Row) (rows : List Row)
    → Exact done row
    → All (Exact done) rows
    → All (Exact done) (insert_row row rows)
unfolding insert_row
insert_row-Exact done row [] own exact = (own, tt)
insert_row-Exact done row (other ∷ rows) own exact =
    elim (Bool-cases (text_le row.rule_id other.rule_id)) [
      | inl e ↦ rw e (own, exact)
      | inr e ↦ rw e (exact.0, insert_row-Exact done row rows own exact.1)
    ]

sort_rows-Tally :
    (done : List RuleResult) (rows : List Row) → Tally done rows → Tally done (sort_rows rows)
unfolding sort_rows contains distinct
sort_rows-Tally done rows t = record {
  exact = sorted_exact rows t.exact;
  single = sorted_single rows ∙ t.single;
  absent = λ name h. t.absent name (sym (sorted_names rows name) ∙ h);
}
  where
    sorted_exact : (rows : List Row) → All (Exact done) rows → All (Exact done) (sort_rows rows)
    sorted_exact [] exact = tt
    sorted_exact (row ∷ rows) exact =
        insert_row-Exact done row (sort_rows rows) exact.0 (sorted_exact rows exact.1)

    sorted_names :
        (rows : List Row) (name : Text)
        → contains (row_ids (sort_rows rows)) name ≡ contains (row_ids rows) name
    sorted_names [] name = refl
    sorted_names (row ∷ rows) name =
        contains-insert_row row (sort_rows rows) name
        ∙ ap (λ b. same row.rule_id name || b) (sorted_names rows name)

    sorted_single :
        (rows : List Row) → distinct (row_ids (sort_rows rows)) ≡ distinct (row_ids rows)
    sorted_single [] = refl
    sorted_single (row ∷ rows) = ground (
      arith,
      distinct-insert_row row (sort_rows rows),
      sorted_names rows row.rule_id,
      sorted_single rows,
    )

coverage_of-Tally :
    (report : SuiteReport) → Tally (all_results report.cases ++ []) (coverage_of report).rules
unfolding coverage_of summarize_rows
coverage_of-Tally report = sort_rows-Tally _ (add_cases report.cases []) (
    add_cases-Tally report.cases [] []
      (record { exact = tt; single = unfold distinct in refl; absent = λ name h. refl }))

-- What suite_coverage promises of the report that it counts.
pub record Covered (report : SuiteReport) (c : Coverage) : Type 0 where
  pub size : c.case_count ≡ report.case_count
  pub tally : Tally (all_results report.cases) c.rules

module _ ⦃repr : FloatText⦄ where
  -- A returned coverage holds one row for each rule that has a result in the suite report; the row's
  -- numbers of passed and failed cases and of each reason code are exactly those of the results.
  pub suite_coverage-Covered :
      (policy : PolicyInput) (suite : Value) {c : Coverage}
      → suite_coverage policy suite ≡ ok c
      → (report : SuiteReport) × (evaluate_suite policy suite ≡ ok report) × Covered report c
  unfolding suite_coverage
  suite_coverage-Covered policy suite h =
      let (report, hr, h1) = >>=-eq-ok (evaluate_suite policy suite) _ h in
      (
        report,
        hr,
        subst (Covered report) (ok-injective _ _ h1) (record {
          size = unfold coverage_of summarize_rows in refl;
          tally =
              recount (all_results report.cases ++ []) (all_results report.cases) _
                (λ p. omega (arith, count_append p (all_results report.cases) []))
                (coverage_of-Tally report);
        }),
      )
