-- ===== src/Authoring.antt =====
-- authoring.py: lint_policy, the contradictions and repetitions among the rules of a policy.
-- Every value of a validated policy has a canonical text.
pub mod Domains
pub mod Below
pub mod Calm
pub mod Group
pub mod Sound
mod Findings
unfoldable pub use Findings.*
use constitutional_agent_tes.Base.{
  ℕ, zero, suc, ◌+◌, ◌*◌, Bool, true, false, ◌&&◌, ◌||◌, not, Option, none, some, List, [], ◌∷◌,
  ◌++◌, map, ltb, if◌then◌else◌, Text, txt, same, text_le, contains, sort_names, all, any, keep,
  length, utf8_size, Result, ok, err, ◌>>=◌, ◌>>◌, guard, map_err,
}
use constitutional_agent_tes.Json.{Value, null, bool, str, arr, obj, nil, end, field, list_items}
use constitutional_agent_tes.Json.Float.{Num}
use constitutional_agent_tes.Json.Encode.{FloatText, canonical_json, equal_texts}
use constitutional_agent_tes.Policy.{
  Kind, equals, one_of, false_kind, empty_list, type_kind, range_kind, length_kind, Rule, Policy,
  kind_name, num_value,
}
use constitutional_agent_tes.Policy.Validate.{PolicyInput, validate_policy}
use constitutional_agent_tes.Errors.{TestbenchError, invalid_policy, authoring_limit}
use constitutional_agent_tes.Evaluator.{evaluate_rule, value_markers}
use constitutional_agent_tes.Precedence.Report.{text_or_empty}
use constitutional_agent_tes.Synthetic.Candidates.{is_filter}
use constitutional_agent_tes.Synthetic.Generate.{Groups, group_rules, starts_with, descendants_of}

module _ ⦃repr : FloatText⦄ where
  -- authoring.py: _constraint_marker
  unfoldable pub marker_as : Kind → Rule → Value
  unfolding domain_as
  marker_as type_kind r =
      arr
        (list_items (str (kind_name r.kind) ∷ arr (list_items (map str (sort_names r.types))) ∷ []))
  marker_as range_kind r =
      arr (
        list_items
          (str (kind_name r.kind) ∷ option_number r.minimum ∷ option_number r.maximum ∷ []))
  marker_as length_kind r =
      arr (
        list_items
          (str (kind_name r.kind) ∷ option_number r.minimum ∷ option_number r.maximum ∷ []))
  marker_as one_of r = arr (
      list_items (
        str (kind_name r.kind)
        ∷ arr (list_items (map str (sort_names (value_markers r.values))))
        ∷ []))
  marker_as kind r = arr (list_items (str (kind_name r.kind) ∷ option_list (domain_as kind r) ∷ []))

  unfoldable pub constraint_marker : Rule → Text
  unfolding marker_as
  constraint_marker r = text_or_empty (canonical_json (marker_as r.kind r))

  -- `len(canonical_json(value).encode("utf-8"))`, summed
  unfoldable pub value_bytes : List Value → ℕ
  value_bytes [] = 0
  value_bytes (v ∷ vs) = utf8_size (text_or_empty (canonical_json v)) + value_bytes vs

  -- `allowed.intersection_update(...)` over the other domains
  unfoldable pub narrow : List Text → List (Rule × List Value) → List Text
  unfolding value_markers contains
  narrow allowed [] = allowed
  narrow allowed ((r, d) ∷ finite) = narrow (keep (contains (value_markers d)) allowed) finite

  abbrev pub is_listed : List Text → Option Text → Bool
  is_listed allowed none = false
  is_listed allowed (some t) = contains allowed t

  abbrev pub survivors : List Text → List Value → List Value
  survivors allowed = keep (λ v. is_listed allowed (canonical_json v))

  -- `_evaluate_rule(replace(rule, path="value"), {"value": value})["passed"]`
  unfoldable pub passes_alone : Value → Rule → Bool
  passes_alone v r =
      (evaluate_rule (record r { path = txt "value" }) (obj (field (txt "value") v end))).passed

  unfoldable pub some_survives : List Rule → List Value → Bool
  unfolding passes_alone
  some_survives filters = any (λ v. all (passes_alone v) filters)

  unfoldable pub check_filters :
      Text
      → List (Rule × List Value)
      → List Rule
      → List Value
      → LintState
      → Result TestbenchError LintState
  unfolding some_survives value_bytes finding
  check_filters path finite [] values s = ok s
  check_filters path finite (f ∷ filters) values s = do
    charged ← charge (length (f ∷ filters) * value_bytes values) s
    ok (
        add_unless (some_survives (f ∷ filters) values)
          (finding disjoint_constraints path
            (map (λ (x : Rule × List Value). x.0) finite ++ f ∷ filters))
          charged)

  abbrev pub check_allowed :
      Text
      → List (Rule × List Value)
      → List Rule
      → List Value
      → List Text
      → LintState
      → Result TestbenchError LintState
  check_allowed path finite filters values [] s = ok (
      add_finding (finding disjoint_constraints path (map (λ (x : Rule × List Value). x.0) finite))
        s)
  check_allowed path finite filters values (t ∷ allowed) s =
      check_filters path finite filters (survivors (t ∷ allowed) values) s

  -- The first part of the loop body: `if finite: ...`.
  unfoldable pub check_domains :
      Text → List Rule → List (Rule × List Value) → LintState → Result TestbenchError LintState
  unfolding narrow check_filters
  check_domains path filters [] s = ok s
  check_domains path filters ((r, d) ∷ finite) s =
      check_allowed path ((r, d) ∷ finite) filters d (narrow (value_markers d) finite) s

  -- `seen[marker]`
  unfoldable pub seen_rule : List (Text × Rule) → Text → Option Rule
  unfolding same
  seen_rule [] marker = none
  seen_rule ((m, r) ∷ seen) marker = if same m marker then some r else seen_rule seen marker

  -- The second part: constraints that occur twice.
  unfoldable pub check_duplicates : Text → List (Text × Rule) → List Rule → LintState → LintState
  unfolding seen_rule constraint_marker finding
  check_duplicates path seen [] s = s
  check_duplicates path seen (r ∷ rules) s = elim (seen_rule seen (constraint_marker r)) [
    | some first ↦
        check_duplicates path seen rules
          (add_finding (finding duplicate_constraint path (first ∷ r ∷ [])) s)
    | none ↦ check_duplicates path ((constraint_marker r, r) ∷ seen) rules s
  ]

  unfoldable pub fits : Text → List Rule → Value → Bool
  unfolding skip
  fits path descendants v =
      is_object v && all (λ child. (evaluate_rule (below path child) v).passed) descendants

  unfoldable pub child_comparisons : List Rule → ℕ
  child_comparisons [] = 0
  child_comparisons (child ∷ rules) =
      elim child.kind [ one_of ↦ length child.values | _ ↦ 1 ] + child_comparisons rules

  unfoldable pub child_bytes : List Rule → ℕ
  unfolding domain
  child_bytes [] = 0
  child_bytes (child ∷ rules) =
      utf8_size (text_or_empty (canonical_json (option_list (domain child)))) + child_bytes rules

  abbrev pub check_descendants :
      Text → Rule → List Value → List Rule → LintState → Result TestbenchError LintState
  check_descendants path r d descendants s = do
    charged ←
        charge (value_bytes d * child_comparisons descendants + child_bytes descendants * length d)
          s
    ok (
        add_unless (no_rules descendants || any (fits path descendants) d)
          (finding incompatible_descendants path (r ∷ descendants)) charged)

  abbrev pub check_ancestor :
      List Rule → Text → Rule → Option (List Value) → LintState → Result TestbenchError LintState
  check_ancestor all_rules path r none s = ok s
  check_ancestor all_rules path r (some d) s =
      check_descendants path r d (descendants_of path all_rules) s

  -- The third part: the rules below a finite domain.
  unfoldable pub check_ancestors :
      List Rule → Text → List Rule → LintState → Result TestbenchError LintState
  unfolding domain fits starts_with value_bytes child_comparisons child_bytes finding
  check_ancestors all_rules path [] s = ok s
  check_ancestors all_rules path (r ∷ rules) s =
      check_ancestor all_rules path r (domain r) s >>= check_ancestors all_rules path rules

  -- The body of the loop over the paths.
  unfoldable pub check_group :
      List Rule → Text → List Rule → LintState → Result TestbenchError LintState
  unfolding check_domains check_duplicates check_ancestors finite_of
  check_group all_rules path rules s = do
    narrowed ← check_domains path (keep is_filter rules) (finite_of rules) s
    check_ancestors all_rules path rules (check_duplicates path [] rules narrowed)

  unfoldable pub check_groups : List Rule → Groups → LintState → Result TestbenchError LintState
  unfolding check_group
  check_groups all_rules [] s = ok s
  check_groups all_rules ((path, rules) ∷ groups) s =
      check_group all_rules path rules s >>= check_groups all_rules groups

module _ ⦃repr : FloatText⦄ where
  -- lint_policy behind the validation
  unfoldable pub lint_rules : Policy → Result TestbenchError Lint
  unfolding check_groups sort_paths group_rules sort_findings
  lint_rules p = do
    s ← check_groups p.rules (sort_paths (group_rules [] p.rules)) no_findings
    ok (lint_of p (sort_findings s.findings))

  -- authoring.py: lint_policy
  unfoldable pub lint_policy : PolicyInput → Result TestbenchError Lint
  unfolding lint_rules
  lint_policy policy = do
    current ← map_err invalid_policy (validate_policy policy)
    lint_rules current
