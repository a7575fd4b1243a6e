-- ===== src/Suite/Curation/Reduce.antt =====
-- curation.py: reduce_suite, the greedy choice of cases.
pub mod Covers
pub mod Retain
use constitutional_agent_tes.Base.{
  ℕ, zero, suc, ◌+◌, Bool, true, false, ◌&&◌, ◌||◌, not, Option, none, some, List, [], ◌∷◌, ◌++◌,
  map, leb, ◌==◌, if◌then◌else◌, Text, txt, same, any, keep, length, Result, ok, err, ◌>>=◌, ◌>>◌,
  map_err,
}
use constitutional_agent_tes.Json.{Value}
use constitutional_agent_tes.Json.Encode.{FloatText}
use constitutional_agent_tes.Policy.Validate.{PolicyInput, object, validate_policy}
use constitutional_agent_tes.Errors.{TestbenchError, invalid_policy}
use constitutional_agent_tes.Evaluator.{RuleResult, reason_name}
use constitutional_agent_tes.Precedence.Result.{same_bool}
use constitutional_agent_tes.Suite.{Assertion, Case, Suite, suite_value}
use constitutional_agent_tes.Suite.Validate.{validate_suite}
use constitutional_agent_tes.Suite.Evaluate.{CaseReport, evaluate_suite, rules_or_empty}
use constitutional_agent_tes.Suite.Curation.{validated}

-- The tuples of a signature: of a rule result, of the verdict and of an assertion.
pub data Mark : Type 0 where
  rule_mark : Text → Bool → Text → Mark
  verdict_mark : Bool → Bool → Mark
  assertion_mark : Text → Bool → Text → Mark

unfoldable pub same_mark : Mark → Mark → Bool
same_mark (rule_mark a p r) (rule_mark b q s) = same a b && (same_bool p q && same r s)
same_mark (verdict_mark a p) (verdict_mark b q) = same_bool a b && same_bool p q
same_mark (assertion_mark a p r) (assertion_mark b q s) = same a b && (same_bool p q && same r s)
same_mark _ _ = false

abbrev pub has_mark : List Mark → Mark → Bool
has_mark marks m = any (λ n. same_mark n m) marks

-- A set of marks, from a list with repeats.
unfoldable pub mark_set : List Mark → List Mark
mark_set [] = []
mark_set (m ∷ marks) = let rest = mark_set marks in if has_mark rest m then rest else m ∷ rest

abbrev pub row_mark : RuleResult → Mark
row_mark r = rule_mark r.rule_id r.passed (reason_name r.reason_code)

abbrev pub expected_mark : Text × Assertion → Mark
expected_mark (name, a) = assertion_mark name a.passed (reason_name a.reason_code)

unfoldable pub signature : Case → CaseReport → List Mark
unfolding mark_set same_mark
signature c r = mark_set (
    map row_mark r.evaluation.rule_results
    ++ verdict_mark r.evaluation.passed c.expected_passed
      ∷ map expected_mark (rules_or_empty c.expected_rules))

unfoldable pub signatures : List Case → List CaseReport → List (List Mark)
unfolding signature
signatures (c ∷ cases) (r ∷ reports) = signature c r ∷ signatures cases reports
signatures _ _ = []

-- The positions, from k on, of the cases that do not match their expectation.
abbrev pub mismatching : ℕ → List CaseReport → List ℕ
mismatching k [] = []
mismatching k (r ∷ reports) =
    let rest = mismatching (suc k) reports in if r.matches_expectation then rest else k ∷ rest

abbrev pub signature_at : ℕ → List (List Mark) → List Mark
signature_at k [] = []
signature_at zero (s ∷ sigs) = s
signature_at (suc k) (s ∷ sigs) = signature_at k sigs

-- `uncovered - signature`
abbrev pub minus : List Mark → List Mark → List Mark
minus uncovered s = keep (λ m. not (has_mark s m)) uncovered

-- `len(signature & uncovered)`
abbrev pub overlap : List Mark → List Mark → ℕ
overlap s uncovered = length (keep (has_mark uncovered) s)

-- The largest overlap and the first position that has it.
unfoldable pub choose : List Mark → List (List Mark) → ℕ × ℕ
choose uncovered [] = (0, 0)
choose uncovered (s ∷ sigs) =
    let later = choose uncovered sigs in
    if leb later.0 (overlap s uncovered) then (overlap s uncovered, 0) else (later.0, suc later.1)

-- `while uncovered`, with one step of fuel for each uncovered mark.
unfoldable pub greedy : ℕ → List Mark → List (List Mark) → List ℕ → List ℕ
unfolding choose
greedy fuel [] sigs retained = retained
greedy zero (m ∷ uncovered) sigs retained = retained
greedy (suc fuel) (m ∷ uncovered) sigs retained =
    let chosen = (choose (m ∷ uncovered) sigs).1 in
    greedy fuel (minus (m ∷ uncovered) (signature_at chosen sigs)) sigs (chosen ∷ retained)

abbrev pub all_marks : List (List Mark) → List Mark
all_marks [] = []
all_marks (s ∷ sigs) = s ++ all_marks sigs

abbrev pub minus_all : List Mark → List (List Mark) → List ℕ → List Mark
minus_all uncovered sigs [] = uncovered
minus_all uncovered sigs (k ∷ retained) =
    minus_all (minus uncovered (signature_at k sigs)) sigs retained

-- The retained positions.
unfoldable pub retain : List (List Mark) → List ℕ → List ℕ
unfolding greedy mark_set same_mark
retain sigs retained =
    let uncovered = minus_all (mark_set (all_marks sigs)) sigs retained in
    greedy (length uncovered) uncovered sigs retained

abbrev pub keep_at : ℕ → List ℕ → List Case → List Case
keep_at k retained [] = []
keep_at k retained (c ∷ cases) =
    let rest = keep_at (suc k) retained cases in
    if any (λ i. i == k) retained then c ∷ rest else rest

module _ ⦃repr : FloatText⦄ where
  -- curation.py: reduce_suite
  unfoldable pub reduce_suite : PolicyInput → Value → Result TestbenchError Suite
  unfolding retain signatures
  reduce_suite policy suite = do
    p ← map_err invalid_policy (validate_policy policy)
    s ← validate_suite suite
    report ← evaluate_suite (object p) (suite_value s)
    validated (record s {
      cases =
          keep_at 0 (retain (signatures s.cases report.cases) (mismatching 0 report.cases)) s.cases;
    })
