-- ===== src/Coverage/Counts.antt =====
-- The counts of suite_coverage, against the rule results that they were made from.
use constitutional_agent_tes.Base.{
  ℕ, ◌+◌, ◌≡◌, refl, sym, ◌∙◌, subst, Bool, true, false, ◌&&◌, ◌||◌, not, inl, inr, List, [], ◌∷◌,
  arith, Text, same, same→eq, eq→same, same_refl, contains, distinct, keep, All, length, Bool-cases,
}
use constitutional_agent_tes.Evaluator.{reason_name, RuleResult}
use constitutional_agent_tes.Coverage.{
  Row, add_reason, empty_row, count_result, add_result, row_ids,
}

pub same_comm : (s t : Text) → same s t ≡ same t s
unfolding same
same_comm [] [] = refl
same_comm [] (d ∷ t) = refl
same_comm (c ∷ s) [] = refl
same_comm (c ∷ s) (d ∷ t) = ground (arith, same_comm s t)

-- The results of a rule that passed, that failed, and that gave a reason code.
abbrev pub is_pass : Text → RuleResult → Bool
is_pass name r = same name r.rule_id && r.passed

abbrev pub is_fail : Text → RuleResult → Bool
is_fail name r = same name r.rule_id && not r.passed

abbrev pub has_code : Text → Text → RuleResult → Bool
has_code name code r = same name r.rule_id && same (reason_name r.reason_code) code

abbrev pub is_named : Text → RuleResult → Bool
is_named name r = same name r.rule_id

-- `reason_counts.get(code, 0)`
abbrev pub count_of : Text → List (Text × ℕ) → ℕ
count_of code [] = 0
count_of code ((c, n) ∷ counts) =
    let later = count_of code counts in elim (same c code) [ true ↦ n | false ↦ later ]

-- Texts that differ are not both the same as a third one.
apart : (s t u : Text) → same s t ≡ false → same s u ≡ true → same t u ≡ false
apart s t u differ h = elim (Bool-cases (same t u)) [
  | inl e ↦ cc (differ, eq→same s t (same→eq s u h ∙ sym (same→eq t u e)))
  | inr e ↦ e
]

count_of-add_reason :
    (added code : Text) (counts : List (Text × ℕ))
    → count_of code (add_reason added counts)
      ≡ count_of code counts + elim (same added code) [ true ↦ 1 | false ↦ 0 ]
unfolding add_reason
count_of-add_reason added code [] = ground arith
count_of-add_reason added code ((c, n) ∷ counts) = elim (Bool-cases (same c added)) [
  | inl e ↦ rw (same→eq c added e) (rw (same_refl added) (ground arith))
  | inr e ↦ ground (arith, count_of-add_reason added code counts, apart c added code e)
]

same_other : (s t u : Text) → same s t ≡ true → same s u ≡ same t u
same_other s t u h = rw (same→eq s t h)

-- What a row counts, of all the results.
pub record Exact (done : List RuleResult) (row : Row) : Type 0 where
  pub passed : row.passed_cases ≡ length (keep (is_pass row.rule_id) done)
  pub failed : row.failed_cases ≡ length (keep (is_fail row.rule_id) done)
  pub reasons :
      (code : Text)
      → count_of code row.reason_counts ≡ length (keep (has_code row.rule_id code) done)

counted :
    (done : List RuleResult) (r : RuleResult) (row : Row)
    → same row.rule_id r.rule_id ≡ true
    → Exact done row
    → Exact (r ∷ done) (count_result r row)
unfolding count_result
counted done r row own exact = record {
  passed = ground (arith, exact.passed);
  failed = ground (arith, exact.failed);
  reasons = λ code. ground (
    arith,
    exact.reasons code,
    count_of-add_reason (reason_name r.reason_code) code row.reason_counts,
  );
}

not_counted :
    (done : List RuleResult) (r : RuleResult) (row : Row)
    → same row.rule_id r.rule_id ≡ false
    → Exact done row
    → Exact (r ∷ done) row
not_counted done r row other exact = record {
  passed = ground (arith, exact.passed);
  failed = ground (arith, exact.failed);
  reasons = λ code. ground (arith, exact.reasons code);
}

none_counted :
    (name : Text) (p : RuleResult → Bool) (done : List RuleResult)
    → length (keep (is_named name) done) ≡ 0
    → length (keep (λ r. same name r.rule_id && p r) done) ≡ 0
none_counted name p [] h = refl
none_counted name p (r ∷ done) h = ground (arith, none_counted name p done)

empty_row-Exact :
    (done : List RuleResult) (r : RuleResult)
    → length (keep (is_named r.rule_id) done) ≡ 0
    → Exact done (empty_row r)
empty_row-Exact done r absent = record {
  passed = sym (none_counted r.rule_id (λ x. x.passed) done absent);
  failed = sym (none_counted r.rule_id (λ x. not x.passed) done absent);
  reasons =
      λ code. sym (none_counted r.rule_id (λ x. same (reason_name x.reason_code) code) done absent);
}

others_uncounted :
    (done : List RuleResult) (r : RuleResult) (rows : List Row)
    → contains (row_ids rows) r.rule_id ≡ false
    → All (Exact done) rows
    → All (Exact (r ∷ done)) rows
unfolding contains
others_uncounted done r [] h exact = tt
others_uncounted done r (row ∷ rows) h exact = (
  not_counted done r row (ground arith) exact.0,
  others_uncounted done r rows (ground arith) exact.1,
)

contains-add_result :
    (r : RuleResult) (rows : List Row) (name : Text)
    → contains (row_ids (add_result r rows)) name
      ≡ (same r.rule_id name || contains (row_ids rows) name)
unfolding contains add_result count_result
contains-add_result r [] name = refl
contains-add_result r (row ∷ rows) name = elim (Bool-cases (same row.rule_id r.rule_id)) [
  | inl e ↦ ground (arith, same_other row.rule_id r.rule_id name e)
  | inr e ↦ ground (arith, contains-add_result r rows name)
]

-- The rows of the loop: exact, one for each rule, and none is missing.
pub record Tally (done : List RuleResult) (rows : List Row) : Type 0 where
  pub exact : All (Exact done) rows
  pub single : distinct (row_ids rows) ≡ true
  pub absent :
      (name : Text) → contains (row_ids rows) name ≡ false → length (keep (is_named name) done) ≡ 0

add_result-Exact :
    (done : List RuleResult) (r : RuleResult) (rows : List Row)
    → (contains (row_ids rows) r.rule_id ≡ false → length (keep (is_named r.rule_id) done) ≡ 0)
    → distinct (row_ids rows) ≡ true
    → All (Exact done) rows
    → All (Exact (r ∷ done)) (add_result r rows)
unfolding add_result distinct contains
add_result-Exact done r [] absent single exact =
    (counted done r (empty_row r) (same_refl r.rule_id) (empty_row-Exact done r (absent refl)), tt)
add_result-Exact done r (row ∷ rows) absent single exact =
    elim (Bool-cases (same row.rule_id r.rule_id)) [
      | inl e ↦
          let only : contains (row_ids rows) r.rule_id ≡ false =
            subst (λ name. contains (row_ids rows) name ≡ false) (same→eq row.rule_id r.rule_id e)
              (ground arith) in
          rw e (counted done r row e exact.0, others_uncounted done r rows only exact.1)
      | inr e ↦ rw e (
        not_counted done r row e exact.0,
        add_result-Exact done r rows (λ h. absent (ground (arith, h))) (ground arith) exact.1,
      )
    ]

add_result-distinct :
    (r : RuleResult) (rows : List Row)
    → distinct (row_ids rows) ≡ true
    → distinct (row_ids (add_result r rows)) ≡ true
unfolding add_result count_result distinct contains
add_result-distinct r [] single = refl
add_result-distinct r (row ∷ rows) single = elim (Bool-cases (same row.rule_id r.rule_id)) [
  | inl e ↦ rw e single
  | inr e ↦ rw e (
      ground (
        arith,
        contains-add_result r rows row.rule_id,
        same_comm r.rule_id row.rule_id,
        add_result-distinct r rows,
      ))
]

pub add_result-Tally :
    (done : List RuleResult) (r : RuleResult) (rows : List Row)
    → Tally done rows
    → Tally (r ∷ done) (add_result r rows)
add_result-Tally done r rows t = record {
  exact = add_result-Exact done r rows (t.absent r.rule_id) t.single t.exact;
  single = add_result-distinct r rows t.single;
  absent = λ name h.
      ground (arith, contains-add_result r rows name, same_comm r.rule_id name, t.absent name);
}
