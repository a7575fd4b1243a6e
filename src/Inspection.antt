-- ===== src/Inspection.antt =====
-- inspection.py: inventories of a policy and of a suite, the audit of assertions, and the differences
-- of two suites.
pub mod Reports
pub mod Consistent
pub mod Compatible
pub mod Difference
use constitutional_agent_tes.Base.{
  ℕ, suc, Bool, true, false, ◌&&◌, ◌||◌, not, Option, none, some, List, [], ◌∷◌, ◌++◌, map, ltb,
  if◌then◌else◌, Text, txt, same, contains, sort_names, all, any, keep, length, Result, ok, ◌>>=◌,
  ◌>>◌, map_err,
}
use constitutional_agent_tes.Json.{Value, obj, bool, null}
use constitutional_agent_tes.Json.Encode.{FloatText, canonical_json, equal_texts}
use constitutional_agent_tes.Policy.{Rule, Policy, kind_name}
use constitutional_agent_tes.Evaluator.{rule_satisfied, field_missing, reason_name}
use constitutional_agent_tes.Coverage.{failure_names, is_empty, add_reason}
use constitutional_agent_tes.Precedence.Result.{declared_rule, same_bool}
use constitutional_agent_tes.Precedence.Report.{text_or_empty}
use constitutional_agent_tes.Suite.{
  Assertion, Case, Suite, rules_member, assertion_fields, suite_value,
}
use constitutional_agent_tes.Suite.Evaluate.{same_assertion, rules_or_empty}
use constitutional_agent_tes.Suite.Curation.{case_ids}
use constitutional_agent_tes.Synthetic.Generate.{starts_with}

-- inspect_policy: one declared path.
pub record PathEntry : Type 0 where
  pub path : Text
  pub rule_ids : List Text
  pub ancestor_paths : List Text

pub record PolicyInventory : Type 0 where
  pub policy_id : Text
  pub schema_version : Text
  pub rule_count : ℕ
  pub kind_counts : List (Text × ℕ)
  pub paths : List PathEntry

-- `sorted({...})`: a name once
unfoldable pub unique : List Text → List Text
unfolding contains
unique [] = []
unique (n ∷ names) = let rest = unique names in if contains names n then rest else n ∷ rest

unfoldable pub path_entry : List Rule → List Text → Text → PathEntry
unfolding starts_with same
path_entry rules paths path = record {
  path = path;
  rule_ids = map (λ (r : Rule). r.rule_id) (keep (λ (r : Rule). same r.path path) rules);
  ancestor_paths = keep (λ p. starts_with path (p ++ txt ".")) paths;
}

-- `Counter(rule.kind for rule in rules)`, with its items sorted
unfoldable pub count_kinds : List Rule → List (Text × ℕ) → List (Text × ℕ)
unfolding add_reason
count_kinds [] counts = counts
count_kinds (r ∷ rules) counts = count_kinds rules (add_reason (kind_name r.kind) counts)

unfoldable pub count_in : Text → List (Text × ℕ) → ℕ
unfolding same
count_in name [] = 0
count_in name ((n, k) ∷ counts) = let rest = count_in name counts in if same n name then k else rest

unfoldable pub policy_inventory : Policy → PolicyInventory
unfolding unique path_entry count_kinds count_in sort_names
policy_inventory p =
    let paths = sort_names (unique (map (λ (r : Rule). r.path) p.rules)) in
    let counts = count_kinds p.rules [] in
    record {
      policy_id = p.policy_id;
      schema_version = p.schema_version;
      rule_count = length p.rules;
      kind_counts =
          map (λ name. (name, count_in name counts))
            (sort_names (map (λ (c : Text × ℕ). c.0) counts));
      paths = map (path_entry p.rules paths) paths;
    }

-- inspect_suite: cases with one response.
pub record DuplicateGroup : Type 0 where
  pub case_ids : List Text
  pub conflicting_expectations : Bool

pub record SuiteInventory : Type 0 where
  pub suite_version : Text
  pub case_count : ℕ
  pub unique_response_count : ℕ
  pub expected_pass_count : ℕ
  pub duplicate_responses : List DuplicateGroup
  pub consistent_expectations : Bool

-- `asserted.get(identifier)`, where the last entry counts
unfoldable pub asserted_as : List (Text × Assertion) → Text → Option Assertion
unfolding same
asserted_as [] name = none
asserted_as ((n, a) ∷ asserted) name = if same n name then some a else asserted_as asserted name

abbrev pub contradicts : Option Assertion → Assertion → Bool
contradicts none a = false
contradicts (some b) a = not (same_assertion (some b) a)

-- The two inner loops: whether an assertion differs from the last one for its rule.
unfoldable pub conflicting : List (Text × Assertion) → List (Text × Assertion) → Bool
unfolding asserted_as
conflicting asserted [] = false
conflicting asserted ((name, a) ∷ rest) =
    contradicts (asserted_as asserted name) a || conflicting ((name, a) ∷ asserted) rest

abbrev pub all_assertions : List Case → List (Text × Assertion)
all_assertions [] = []
all_assertions (c ∷ cases) = rules_or_empty c.expected_rules ++ all_assertions cases

-- `len({case["expected_passed"] for case in cases}) > 1`
abbrev pub mixed_verdicts : List Case → Bool
mixed_verdicts cases =
    any (λ (c : Case). c.expected_passed) cases && any (λ (c : Case). not c.expected_passed) cases

abbrev pub has_two : List Case → Bool
has_two (c ∷ d ∷ cases) = true
has_two _ = false

unfoldable pub duplicate_group : List Case → DuplicateGroup
unfolding conflicting
duplicate_group cases = record {
  case_ids = case_ids cases;
  conflicting_expectations = mixed_verdicts cases || conflicting [] (all_assertions cases);
}

module _ ⦃repr : FloatText⦄ where
  -- `groups.setdefault(canonical_json(case["response"]), []).append(case)`
  unfoldable pub add_response : Case → List (Text × List Case) → List (Text × List Case)
  unfolding same
  add_response c [] = (text_or_empty (canonical_json (obj c.response)), c ∷ []) ∷ []
  add_response c ((marker, cases) ∷ groups) =
      if same marker (text_or_empty (canonical_json (obj c.response)))
      then (marker, cases ++ c ∷ []) ∷ groups
      else (marker, cases) ∷ add_response c groups

  unfoldable pub group_responses : List Case → List (Text × List Case) → List (Text × List Case)
  unfolding add_response
  group_responses [] groups = groups
  group_responses (c ∷ cases) groups = group_responses cases (add_response c groups)

  unfoldable pub suite_inventory : Suite → SuiteInventory
  unfolding group_responses duplicate_group
  suite_inventory s =
      let groups = group_responses s.cases [] in
      let duplicates =
        map (λ (g : Text × List Case). duplicate_group g.1)
          (keep (λ (g : Text × List Case). has_two g.1) groups) in
      record {
        suite_version = s.suite_version;
        case_count = length s.cases;
        unique_response_count = length groups;
        expected_pass_count = length (keep (λ (c : Case). c.expected_passed) s.cases);
        duplicate_responses = duplicates;
        consistent_expectations =
            not (any (λ (d : DuplicateGroup). d.conflicting_expectations) duplicates);
      }

-- audit_assertions: the findings on one case.
pub record CaseAudit : Type 0 where
  pub case_id : Text
  pub unknown_rule_ids : List Text
  pub incompatible_reason_rule_ids : List Text
  pub unasserted_rule_ids : List Text
  pub contradictory_verdict : Bool

pub record Audit : Type 0 where
  pub policy_id : Text
  pub case_count : ℕ
  pub cases : List CaseAudit
  pub assertions_compatible : Bool
  pub fully_asserted : Bool

abbrev pub assertion_names : List (Text × Assertion) → List Text
assertion_names = map (λ (a : Text × Assertion). a.0)

abbrev pub rule_names : List Rule → List Text
rule_names = map (λ (r : Rule). r.rule_id)

-- The reason code is none that the rule can give.
abbrev pub is_incompatible : Option Rule → Assertion → Bool
is_incompatible none a = false
is_incompatible (some r) a = not (
    contains (reason_name rule_satisfied ∷ reason_name field_missing ∷ failure_names r.kind)
      (reason_name a.reason_code))

abbrev pub asserted_passed : Option Assertion → Bool
asserted_passed none = false
asserted_passed (some a) = a.passed

unfoldable pub audit_case : List Rule → Case → CaseAudit
unfolding contains declared_rule asserted_as sort_names
audit_case rules c =
    let assertions = rules_or_empty c.expected_rules in
    let missing =
      keep (λ name. not (contains (assertion_names assertions) name)) (rule_names rules) in
    let known_failed =
      any (λ (a : Text × Assertion). contains (rule_names rules) a.0 && not a.1.passed)
        assertions in
    record {
      case_id = c.case_id;
      unknown_rule_ids =
          sort_names
            (keep (λ name. not (contains (rule_names rules) name)) (assertion_names assertions));
      incompatible_reason_rule_ids = sort_names (
          assertion_names (
            keep (λ (a : Text × Assertion). is_incompatible (declared_rule rules a.0) a.1)
              assertions));
      unasserted_rule_ids = sort_names missing;
      contradictory_verdict =
          (c.expected_passed && known_failed)
          || (not c.expected_passed
              && is_empty missing
              && all (λ name. asserted_passed (asserted_as assertions name)) (rule_names rules));
    }

abbrev pub is_clean : CaseAudit → Bool
is_clean a =
    is_empty a.unknown_rule_ids
    && is_empty a.incompatible_reason_rule_ids
    && not a.contradictory_verdict

unfoldable pub audit_of : Policy → Suite → Audit
unfolding audit_case
audit_of p s =
    let cases = map (audit_case p.rules) s.cases in
    record {
      policy_id = p.policy_id;
      case_count = length cases;
      cases = cases;
      assertions_compatible = all is_clean cases;
      fully_asserted = all (λ (a : CaseAudit). is_empty a.unasserted_rule_ids) cases;
    }
