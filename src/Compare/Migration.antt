-- ===== src/Compare/Migration.antt =====
-- What migration_expectations says of the cases.
use constitutional_agent_tes.Base.{
  ◌≡◌, refl, sym, ap, ◌∙◌, subst, ◌↔◌, Bool, true, false, List, [], ◌∷◌, Text, ◌&&◌, if◌then◌else◌,
  length, ok, map_err, >>=-eq-ok, ok-injective,
}
use constitutional_agent_tes.Json.{Value}
use constitutional_agent_tes.Json.Encode.{FloatText}
use constitutional_agent_tes.Artifact.{bounded_artifact}
use constitutional_agent_tes.Coverage.{is_empty}
use constitutional_agent_tes.Precedence.Result.{same_bool}
use constitutional_agent_tes.Policy.Validate.{PolicyInput, validate_policy}
use constitutional_agent_tes.Suite.{Suite, suite_value}
use constitutional_agent_tes.Suite.Validate.{validate_suite}
use constitutional_agent_tes.Suite.Evaluate.{
  CaseReport, SuiteReport, evaluate_suite, evaluate_fixtures, evaluate_cases,
}
use constitutional_agent_tes.Suite.Evaluate.Laws.{evaluate_cases-AsExpected}
use constitutional_agent_tes.Evaluator.{compile}
use constitutional_agent_tes.Errors.{invalid_policy}
use constitutional_agent_tes.Compare.{
  MigrationGroups, MigrationReport, add_to_group, migration_groups, migration_of, migration_value,
  migration_expectations,
}

-- Each case that matched before matches after.
abbrev pub Kept : List CaseReport → List CaseReport → Type 0
Kept (left ∷ lefts) (right ∷ rights) =
    (left.matches_expectation ≡ true → right.matches_expectation ≡ true) × Kept lefts rights
Kept _ _ = Unit

-- A list with a name in front, for a case that matches as given before and after.
abbrev pub add_where : (before after left right : Bool) → Text → List Text → List Text
add_where before after left right name ids =
    if same_bool before left && same_bool after right then name ∷ ids else ids

-- The identifiers of the cases that match as given before and after, in order.
abbrev pub ids_where : (before after : Bool) → List CaseReport → List CaseReport → List Text
ids_where before after (left ∷ lefts) (right ∷ rights) =
    add_where before after left.matches_expectation right.matches_expectation left.case_id
      (ids_where before after lefts rights)
ids_where before after _ _ = []

-- The four groups hold these lists: for those that matched only before, only after, never and always.
pub record Groups (ids : Bool → Bool → List Text) (g : MigrationGroups) : Type 0 where
  pub regressions : g.regressions ≡ ids true false
  pub recoveries : g.recoveries ≡ ids false true
  pub still_mismatched : g.still_mismatched ≡ ids false false
  pub still_matched : g.still_matched ≡ ids true true

abbrev pub Grouped : List CaseReport → List CaseReport → MigrationGroups → Type 0
Grouped lefts rights g = Groups (λ before after. ids_where before after lefts rights) g

add_to_group-regressions :
    (before after : Bool) (name : Text) (g : MigrationGroups)
    → (is_empty (add_to_group before after name g).regressions ≡ true)
      ↔ ((before ≡ true → after ≡ true) × (is_empty g.regressions ≡ true))
add_to_group-regressions true false name g = ((λ h. cc), (λ h. cc (h.0 refl)))
add_to_group-regressions false true name g = ((λ h. ((λ e. refl), h)), (λ h. h.1))
add_to_group-regressions false false name g = ((λ h. ((λ e. e), h)), (λ h. h.1))
add_to_group-regressions true true name g = ((λ h. ((λ e. e), h)), (λ h. h.1))

no_regressions_iff :
    (lefts rights : List CaseReport)
    → (is_empty (migration_groups lefts rights).regressions ≡ true) ↔ Kept lefts rights
unfolding migration_groups
no_regressions_iff [] rights = ((λ h. tt), (λ h. refl))
no_regressions_iff (left ∷ lefts) [] = ((λ h. tt), (λ h. refl))
no_regressions_iff (left ∷ lefts) (right ∷ rights) =
    let one =
      add_to_group-regressions left.matches_expectation right.matches_expectation left.case_id
        (migration_groups lefts rights) in
    let rest = no_regressions_iff lefts rights in
    ((λ h. let (own, others) = one.0 h in (own, rest.0 others)), (λ h. one.1 (h.0, rest.1 h.1)))

add_to_group-Groups :
    (left right : Bool) (name : Text) (ids : Bool → Bool → List Text) (g : MigrationGroups)
    → Groups ids g
    → Groups
        (λ before after. add_where before after left right name (ids before after))
        (add_to_group left right name g)
add_to_group-Groups true false name ids g h = record {
  regressions = ap (λ (l : List Text). name ∷ l) h.regressions;
  recoveries = h.recoveries;
  still_mismatched = h.still_mismatched;
  still_matched = h.still_matched;
}
add_to_group-Groups false true name ids g h = record {
  regressions = h.regressions;
  recoveries = ap (λ (l : List Text). name ∷ l) h.recoveries;
  still_mismatched = h.still_mismatched;
  still_matched = h.still_matched;
}
add_to_group-Groups false false name ids g h = record {
  regressions = h.regressions;
  recoveries = h.recoveries;
  still_mismatched = ap (λ (l : List Text). name ∷ l) h.still_mismatched;
  still_matched = h.still_matched;
}
add_to_group-Groups true true name ids g h = record {
  regressions = h.regressions;
  recoveries = h.recoveries;
  still_mismatched = h.still_mismatched;
  still_matched = ap (λ (l : List Text). name ∷ l) h.still_matched;
}

migration_groups-Grouped :
    (lefts rights : List CaseReport) → Grouped lefts rights (migration_groups lefts rights)
unfolding migration_groups
migration_groups-Grouped [] rights = record {
  regressions = refl;
  recoveries = refl;
  still_mismatched = refl;
  still_matched = refl;
}
migration_groups-Grouped (left ∷ lefts) [] = record {
  regressions = refl;
  recoveries = refl;
  still_mismatched = refl;
  still_matched = refl;
}
migration_groups-Grouped (left ∷ lefts) (right ∷ rights) =
    add_to_group-Groups left.matches_expectation right.matches_expectation left.case_id
      (λ before after. ids_where before after lefts rights) (migration_groups lefts rights)
      (migration_groups-Grouped lefts rights)

module _ ⦃repr : FloatText⦄ where
  evaluate_suite-valid :
      (policy : PolicyInput) (suite : Value) {r : SuiteReport}
      → evaluate_suite policy suite ≡ ok r
      → (s : Suite) × (validate_suite suite ≡ ok s)
  unfolding evaluate_suite
  evaluate_suite-valid policy suite h =
      let (p, hp, h1) = >>=-eq-ok (map_err invalid_policy (validate_policy policy)) _ h in
      let (s, hs, rest) = >>=-eq-ok (validate_suite suite) _ h1 in (s, hs)

  -- A suite report has one entry for each case of the validated suite.
  evaluate_suite-length :
      (policy : PolicyInput) (suite : Value) (s : Suite) {r : SuiteReport}
      → validate_suite suite ≡ ok s
      → evaluate_suite policy suite ≡ ok r
      → length r.cases ≡ length s.cases
  unfolding evaluate_suite evaluate_fixtures
  evaluate_suite-length policy suite s checked h =
      let (p, hp, h1) = >>=-eq-ok (map_err invalid_policy (validate_policy policy)) _ h in
      let (t, ht, h2) = >>=-eq-ok (validate_suite suite) _ h1 in
      let (reports, hr, h3) =
        >>=-eq-ok (evaluate_cases t.suite_version p.policy_id (compile p) t.cases) _ h2 in
      ap (λ (x : SuiteReport). length x.cases) (sym (ok-injective _ _ h3))
      ∙ (evaluate_cases-AsExpected t.suite_version p t.cases hr).0
      ∙ ap (λ (x : Suite). length x.cases) (ok-injective _ _ (sym ht ∙ checked))

  -- What a migration report says of the two reports on one suite.
  pub record Migrated (policy candidate : PolicyInput) (suite : Value) (m : MigrationReport)
      : Type 0 where
    pub fixtures : Suite
    pub checked : validate_suite suite ≡ ok fixtures
    pub before : SuiteReport
    pub evaluated : evaluate_suite policy (suite_value fixtures) ≡ ok before
    pub after : SuiteReport
    pub evaluated_again : evaluate_suite candidate (suite_value fixtures) ≡ ok after
    pub same_length : length before.cases ≡ length after.cases
    pub grouped : Grouped before.cases after.cases m.groups
    pub none_lost : (m.no_regressions ≡ true) ↔ Kept before.cases after.cases

  -- A returned migration report is about the suite reports of the two policies on the validated suite,
  -- one entry for each case. Regressions are the cases that match their expectation under the policy
  -- only, recoveries those that match under the candidate only, still_mismatched those that match under
  -- neither and still_matched those that match under both, each in the order of the suite. It has no
  -- regressions exactly where every case that matches under the policy matches under the candidate.
  pub migration_expectations-Migrated :
      (policy candidate : PolicyInput) (suite : Value) {m : MigrationReport}
      → migration_expectations policy candidate suite ≡ ok m
      → Migrated policy candidate suite m
  unfolding migration_expectations
  migration_expectations-Migrated policy candidate suite h =
      let (s, hs, h1) = >>=-eq-ok (validate_suite suite) _ h in
      let (before, hb, h2) = >>=-eq-ok (evaluate_suite policy (suite_value s)) _ h1 in
      let (after, ha, h3) = >>=-eq-ok (evaluate_suite candidate (suite_value s)) _ h2 in
      let (u, hu, h4) =
        >>=-eq-ok (bounded_artifact (migration_value (migration_of before after))) _ h3 in
      let (t, ht) = evaluate_suite-valid policy (suite_value s) hb in
      let size =
        evaluate_suite-length policy (suite_value s) t ht hb
        ∙ sym (evaluate_suite-length candidate (suite_value s) t ht ha) in
      subst (Migrated policy candidate suite) (ok-injective _ _ h4) (record {
        fixtures = s;
        checked = hs;
        before = before;
        evaluated = hb;
        after = after;
        evaluated_again = ha;
        same_length = size;
        grouped = unfold migration_of in migration_groups-Grouped before.cases after.cases;
        none_lost = unfold migration_of in no_regressions_iff before.cases after.cases;
      })
