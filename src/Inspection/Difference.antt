-- ===== src/Inspection/Difference.antt =====
-- inspection.py: diff_suites.
use constitutional_agent_tes.Base.{
  Bool, true, false, ◌&&◌, not, Option, none, some, List, [], ◌∷◌, ◌++◌, map, if◌then◌else◌, Text,
  txt, same, contains, sort_names, keep, Result, ok, ◌>>=◌, ◌>>◌,
}
use constitutional_agent_tes.Json.{Value, bool, str, arr, obj, end, field, list_items}
use constitutional_agent_tes.Json.Encode.{FloatText, canonical_json, equal_texts}
use constitutional_agent_tes.Artifact.{bounded_artifact}
use constitutional_agent_tes.Errors.{TestbenchError}
use constitutional_agent_tes.Coverage.{is_empty}
use constitutional_agent_tes.Precedence.Projections.{names_value}
use constitutional_agent_tes.Suite.{Assertion, Case, Suite, assertion_fields, suite_value}
use constitutional_agent_tes.Suite.Validate.{validate_suite}
use constitutional_agent_tes.Suite.Curation.{case_ids}

-- `{case["case_id"]: case ...}[identifier]`; the identifiers of a suite are distinct
unfoldable pub find_case : List Case → Text → Option Case
unfolding same
find_case [] name = none
find_case (c ∷ cases) name = if same c.case_id name then some c else find_case cases name

unfoldable pub equal_names : List Text → List Text → Bool
unfolding same
equal_names [] [] = true
equal_names (n ∷ names) (m ∷ others) = same n m && equal_names names others
equal_names _ _ = false

pub record Difference : Type 0 where
  pub added : List Text
  pub removed : List Text
  pub modified : List (Text × List Text)
  pub order_changed : Bool
  pub version_changed : Bool
  pub identical : Bool

abbrev pub name_if : Bool → Text → List Text
name_if true name = name ∷ []
name_if false name = []

abbrev pub modified_value : Text × List Text → Value
modified_value m =
    obj (field (txt "case_id") (str m.0) (field (txt "changed_fields") (names_value m.1) end))

abbrev pub difference_value : Difference → Value
difference_value d = obj (
    field (txt "added") (names_value d.added) (
      field (txt "removed") (names_value d.removed) (
        field (txt "modified") (arr (list_items (map modified_value d.modified))) (
          field (txt "order_changed") (bool d.order_changed) (
            field (txt "version_changed") (bool d.version_changed) (
              field (txt "identical") (bool d.identical)
                (field (txt "values_included") (bool false) end)))))))

module _ ⦃repr : FloatText⦄ where
  -- `canonical_json(a) != canonical_json(b)`
  abbrev pub differs : Value → Value → Bool
  differs v w = not (equal_texts (canonical_json v) (canonical_json w))

  abbrev pub rules_differ :
      Option (List (Text × Assertion)) → Option (List (Text × Assertion)) → Bool
  rules_differ none none = false
  rules_differ (some left) (some right) =
      differs (obj (assertion_fields left)) (obj (assertion_fields right))
  rules_differ _ _ = true

  unfoldable pub changed_fields : Case → Case → List Text
  changed_fields old new =
      name_if (differs (obj old.response) (obj new.response)) (txt "response")
      ++ (name_if (differs (bool old.expected_passed) (bool new.expected_passed))
            (txt "expected_passed")
          ++ name_if (rules_differ old.expected_rules new.expected_rules) (txt "expected_rules"))

  abbrev pub modification : Text → Option Case → Option Case → List (Text × List Text)
  modification name (some old) (some new) =
      if is_empty (changed_fields old new) then [] else (name, changed_fields old new) ∷ []
  modification name _ _ = []

  unfoldable pub modifications : List Case → List Case → List Text → List (Text × List Text)
  unfolding changed_fields find_case
  modifications old new [] = []
  modifications old new (name ∷ names) =
      modification name (find_case old name) (find_case new name) ++ modifications old new names

  unfoldable pub difference_of : Suite → Suite → Difference
  unfolding modifications equal_names sort_names
  difference_of left right =
      let old = case_ids left.cases in
      let new = case_ids right.cases in
      record {
        added = sort_names (keep (λ name. not (contains old name)) new);
        removed = sort_names (keep (λ name. not (contains new name)) old);
        modified = modifications left.cases right.cases (sort_names (keep (contains new) old));
        order_changed = not (equal_names (keep (contains new) old) (keep (contains old) new));
        version_changed = not (same left.suite_version right.suite_version);
        identical =
            equal_texts (canonical_json (suite_value left)) (canonical_json (suite_value right));
      }

  -- inspection.py: diff_suites
  unfoldable pub diff_suites : Value → Value → Result TestbenchError Difference
  unfolding difference_of
  diff_suites suite incoming = do
    left ← validate_suite suite
    right ← validate_suite incoming
    bounded_artifact (difference_value (difference_of left right))
    ok (difference_of left right)
