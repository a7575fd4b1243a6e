-- ===== src/Compare.antt =====
-- compare.py: the changes between two policies, over the cases of a suite.
pub mod Migration
use constitutional_agent_tes.Base.{
  ℕ, Bool, true, false, ◌&&◌, ◌||◌, not, Option, none, some, List, [], ◌∷◌, ◌++◌, map, length,
  if◌then◌else◌, Text, txt, same, text_le, contains, sort_names, keep, all, Result, ok, ◌>>=◌, ◌>>◌,
  map_err,
}
use constitutional_agent_tes.Json.{Value, bool, str, obj, end, field}
use constitutional_agent_tes.Json.Encode.{FloatText, canonical_json}
use constitutional_agent_tes.Artifact.{bounded_artifact}
use constitutional_agent_tes.Policy.{Rule, Policy, one_of, type_kind, kind_name, rule_to_dict}
use constitutional_agent_tes.Policy.Validate.{PolicyInput, object, validate_policy}
use constitutional_agent_tes.Errors.{TestbenchError, invalid_policy}
use constitutional_agent_tes.Evaluator.{RuleResult, reason_name}
use constitutional_agent_tes.Coverage.{is_empty}
use constitutional_agent_tes.Inspection.{rule_names}
use constitutional_agent_tes.Inspection.Difference.{equal_names}
use constitutional_agent_tes.Precedence.Projections.{names_value}
use constitutional_agent_tes.Precedence.Report.{text_or_empty}
use constitutional_agent_tes.Precedence.Result.{declared_rule, same_bool}
use constitutional_agent_tes.Suite.{suite_value}
use constitutional_agent_tes.Suite.Validate.{validate_suite}
use constitutional_agent_tes.Suite.Evaluate.{CaseReport, SuiteReport, evaluate_suite}

module _ ⦃repr : FloatText⦄ where
  -- `sorted(rule["values"], key=canonical_json)`
  unfoldable pub insert_value : Value → List Value → List Value
  unfolding text_le
  insert_value v [] = v ∷ []
  insert_value v (w ∷ vs) =
      if text_le (text_or_empty (canonical_json v)) (text_or_empty (canonical_json w))
      then v ∷ w ∷ vs
      else w ∷ insert_value v vs

  unfoldable pub sort_values : List Value → List Value
  unfolding insert_value
  sort_values [] = []
  sort_values (v ∷ vs) = insert_value v (sort_values vs)

  abbrev pub ordered : Rule → Rule
  ordered r = elim r.kind [
    | one_of ↦ record r { values = sort_values r.values }
    | type_kind ↦ record r { types = sort_names r.types }
    | _ ↦ r
  ]

  -- compare.py: _rule_signature
  unfoldable pub rule_signature : Rule → Text
  unfolding sort_values sort_names rule_to_dict
  rule_signature r = text_or_empty (canonical_json (rule_to_dict (ordered r)))

  abbrev pub signatures_differ : Option Rule → Option Rule → Bool
  signatures_differ (some old) (some new) = not (same (rule_signature old) (rule_signature new))
  signatures_differ _ _ = false

pub record RuleChanges : Type 0 where
  pub added : List Text
  pub removed : List Text
  pub modified : List Text
  pub order_changed : Bool

pub record CaseChange : Type 0 where
  pub case_id : Text
  pub before_passed : Bool
  pub after_passed : Bool
  pub verdict_changed : Bool
  pub changed_rule_results : List Text

pub record Comparison : Type 0 where
  pub before_policy_id : Text
  pub after_policy_id : Text
  pub rule_changes : RuleChanges
  pub cases : List CaseChange
  pub verdict_change_count : ℕ
  pub newly_passing : List Text
  pub newly_failing : List Text
  pub before_matches_expectations : Bool
  pub after_matches_expectations : Bool

-- `{r["rule_id"]: r for r in rule_results}.get(key)`
unfoldable pub result_of : List RuleResult → Text → Option RuleResult
unfolding same
result_of [] name = none
result_of (r ∷ rows) name = if same r.rule_id name then some r else result_of rows name

abbrev pub same_result : Option RuleResult → Option RuleResult → Bool
same_result (some a) (some b) =
    same (kind_name a.kind) (kind_name b.kind)
    && same_bool a.passed b.passed
    && same a.path b.path
    && same (reason_name a.reason_code) (reason_name b.reason_code)
    && same a.rule_id b.rule_id
same_result none none = true
same_result _ _ = false

abbrev pub result_ids : List RuleResult → List Text
result_ids = map (λ (r : RuleResult). r.rule_id)

unfoldable pub changed_results : List RuleResult → List RuleResult → List Text
unfolding result_of contains sort_names
changed_results before after = sort_names (
    keep (λ name. not (same_result (result_of before name) (result_of after name)))
      (result_ids before
        ++ keep (λ name. not (contains (result_ids before) name)) (result_ids after)))

unfoldable pub case_change : CaseReport → CaseReport → CaseChange
unfolding changed_results
case_change left right = record {
  case_id = left.case_id;
  before_passed = left.evaluation.passed;
  after_passed = right.evaluation.passed;
  verdict_changed = not (same_bool left.evaluation.passed right.evaluation.passed);
  changed_rule_results = changed_results left.evaluation.rule_results right.evaluation.rule_results;
}

-- `zip(old_report["cases"], new_report["cases"], strict=True)`; both have the cases of one suite
unfoldable pub case_changes : List CaseReport → List CaseReport → List CaseChange
unfolding case_change
case_changes (left ∷ lefts) (right ∷ rights) = case_change left right ∷ case_changes lefts rights
case_changes _ _ = []

abbrev pub change_ids : List CaseChange → List Text
change_ids = map (λ (c : CaseChange). c.case_id)

module _ ⦃repr : FloatText⦄ where
  unfoldable pub rule_changes_of : Policy → Policy → RuleChanges
  unfolding rule_signature declared_rule equal_names contains sort_names
  rule_changes_of old new =
      let old_ids = rule_names old.rules in
      let new_ids = rule_names new.rules in
      record {
        added = sort_names (keep (λ name. not (contains old_ids name)) new_ids);
        removed = sort_names (keep (λ name. not (contains new_ids name)) old_ids);
        modified = sort_names (
            keep
              (λ name.
                contains new_ids name
                && signatures_differ (declared_rule old.rules name) (declared_rule new.rules name))
              old_ids);
        order_changed =
            not (equal_names (keep (contains new_ids) old_ids) (keep (contains old_ids) new_ids));
      }

  unfoldable pub comparison_of : Policy → Policy → SuiteReport → SuiteReport → Comparison
  unfolding rule_changes_of case_changes
  comparison_of old new before after =
      let cases = case_changes before.cases after.cases in
      record {
        before_policy_id = old.policy_id;
        after_policy_id = new.policy_id;
        rule_changes = rule_changes_of old new;
        cases = cases;
        verdict_change_count = length (keep (λ (c : CaseChange). c.verdict_changed) cases);
        newly_passing =
            change_ids (keep (λ (c : CaseChange). not c.before_passed && c.after_passed) cases);
        newly_failing =
            change_ids (keep (λ (c : CaseChange). c.before_passed && not c.after_passed) cases);
        before_matches_expectations = before.matches_expectations;
        after_matches_expectations = after.matches_expectations;
      }

  -- compare.py: compare_policies
  unfoldable pub compare_policies :
      PolicyInput → PolicyInput → Value → Result TestbenchError Comparison
  unfolding comparison_of evaluate_suite
  compare_policies before after suite = do
    old ← map_err invalid_policy (validate_policy before)
    new ← map_err invalid_policy (validate_policy after)
    fixtures ← validate_suite suite
    old_report ← evaluate_suite (object old) (suite_value fixtures)
    new_report ← evaluate_suite (object new) (suite_value fixtures)
    ok (comparison_of old new old_report new_report)

-- migration_expectations
pub record MigrationGroups : Type 0 where
  pub regressions : List Text
  pub recoveries : List Text
  pub still_mismatched : List Text
  pub still_matched : List Text

pub record MigrationReport : Type 0 where
  pub before_policy_id : Text
  pub after_policy_id : Text
  pub groups : MigrationGroups
  pub no_regressions : Bool
  pub candidate_matches_expectations : Bool

abbrev pub no_groups : MigrationGroups
no_groups = record { regressions = []; recoveries = []; still_mismatched = []; still_matched = [] }

-- The category of a case, from its two matches.
abbrev pub add_to_group : Bool → Bool → Text → MigrationGroups → MigrationGroups
add_to_group true false name g = record g { regressions = name ∷ g.regressions }
add_to_group false true name g = record g { recoveries = name ∷ g.recoveries }
add_to_group false false name g = record g { still_mismatched = name ∷ g.still_mismatched }
add_to_group true true name g = record g { still_matched = name ∷ g.still_matched }

-- The loop, with the groups in the order of the cases.
unfoldable pub migration_groups : List CaseReport → List CaseReport → MigrationGroups
migration_groups (left ∷ lefts) (right ∷ rights) =
    add_to_group left.matches_expectation right.matches_expectation left.case_id
      (migration_groups lefts rights)
migration_groups _ _ = no_groups

unfoldable pub migration_of : SuiteReport → SuiteReport → MigrationReport
unfolding migration_groups
migration_of before after = record {
  before_policy_id = before.policy_id;
  after_policy_id = after.policy_id;
  groups = migration_groups before.cases after.cases;
  no_regressions = is_empty (migration_groups before.cases after.cases).regressions;
  candidate_matches_expectations = after.matches_expectations;
}

abbrev pub migration_value : MigrationReport → Value
migration_value m = obj (
    field (txt "before_policy_id") (str m.before_policy_id) (
      field (txt "after_policy_id") (str m.after_policy_id) (
        field (txt "regressions") (names_value m.groups.regressions) (
          field (txt "recoveries") (names_value m.groups.recoveries) (
            field (txt "still_mismatched") (names_value m.groups.still_mismatched) (
              field (txt "still_matched") (names_value m.groups.still_matched) (
                field (txt "no_regressions") (bool m.no_regressions) (
                  field (txt "candidate_matches_expectations")
                    (bool m.candidate_matches_expectations)
                    (field (txt "comparison_scope")
                      (str (txt "supplied expectations only; no policy recommendation"))
                      end)))))))))

module _ ⦃repr : FloatText⦄ where
  -- compare.py: migration_expectations
  unfoldable pub migration_expectations :
      PolicyInput → PolicyInput → Value → Result TestbenchError MigrationReport
  unfolding migration_of evaluate_suite
  migration_expectations policy candidate suite = do
    fixtures ← validate_suite suite
    before ← evaluate_suite policy (suite_value fixtures)
    after ← evaluate_suite candidate (suite_value fixtures)
    bounded_artifact (migration_value (migration_of before after))
    ok (migration_of before after)
