-- ===== src/Synthetic/Generate.antt =====
-- synthetic.py: generate_synthetic_cases.
pub mod Laws
use constitutional_agent_tes.Base.{
  ℕ, zero, suc, ◌+◌, ◌*◌, Bool, true, false, ◌&&◌, ◌||◌, not, Option, none, some, List, [], ◌∷◌,
  ◌++◌, map, ltb, ◌==◌, if◌then◌else◌, Text, txt, same, text_le, all, keep, length, Result, ok, err,
  ◌>>=◌, ◌>>◌, guard, map_err,
}
use constitutional_agent_tes.Json.{Value, obj, Fields, end}
use constitutional_agent_tes.Json.Path.{split_path}
use constitutional_agent_tes.Json.Encode.{FloatText}
use constitutional_agent_tes.Policy.{
  Kind, one_of, Rule, Policy, max_policy_rules, max_one_of_values,
}
use constitutional_agent_tes.Policy.Validate.{PolicyInput, validate_policy}
use constitutional_agent_tes.Evaluator.{
  RuleResult, EvaluationResult, CompiledRule, compile, evaluate_rule, evaluate_compiled,
}
use constitutional_agent_tes.Errors.{
  TestbenchError, invalid_policy, invalid_response, synthetic_failed, structural_limits, work_limit,
  no_passing, no_failing,
}
use constitutional_agent_tes.Synthetic.Paths.{candidate_view, assign_path, delete_path}
use constitutional_agent_tes.Synthetic.Candidates.{candidate_values}

abbrev pub max_compatibility_work : ℕ
max_compatibility_work = max_policy_rules * max_one_of_values

-- synthetic.py: _compatibility_cost of a rule; that of `None` is 1
unfoldable pub compatibility_cost : Rule → ℕ
compatibility_cost r = elim r.kind [ one_of ↦ length r.values | _ ↦ 1 ]

-- `text.startswith(prefix)`
unfoldable pub starts_with : Text → Text → Bool
starts_with text [] = true
starts_with [] (c ∷ prefix) = false
starts_with (d ∷ text) (c ∷ prefix) = c == d && starts_with text prefix

-- The rules grouped by path, in the order of first occurrence.
abbrev pub Groups : Type 0
Groups = List (Text × List Rule)

unfoldable pub add_rule : Rule → Groups → Groups
add_rule r [] = (r.path, r ∷ []) ∷ []
add_rule r ((path, rules) ∷ groups) =
    if same path r.path then (path, rules ++ r ∷ []) ∷ groups else (path, rules) ∷ add_rule r groups

unfoldable pub group_rules : Groups → List Rule → Groups
unfolding add_rule
group_rules groups [] = groups
group_rules groups (r ∷ rules) = group_rules (add_rule r groups) rules

-- `key=lambda path: (-path.count("."), path)`
abbrev pub sorts_before : Text → Text → Bool
sorts_before p q =
    ltb (length (split_path q)) (length (split_path p))
    || (length (split_path p) == length (split_path q) && text_le p q)

unfoldable pub insert_group : Text → List Rule → Groups → Groups
insert_group path rules [] = (path, rules) ∷ []
insert_group path rules ((q, others) ∷ groups) =
    if sorts_before path q
    then (path, rules) ∷ (q, others) ∷ groups
    else (q, others) ∷ insert_group path rules groups

unfoldable pub sort_groups : Groups → Groups
unfolding insert_group split_path text_le
sort_groups [] = []
sort_groups ((path, rules) ∷ groups) = insert_group path rules (sort_groups groups)

-- The variables of the loop over the paths.
pub record Progress : Type 0 where
  pub passing : Fields
  pub constructed : List Rule
  pub work : ℕ

abbrev pub within_work : ℕ → Bool
within_work work = if ltb max_compatibility_work work then false else true

module _ ⦃repr : FloatText⦄ where
  -- The loop over the descendant rules of one candidate: whether all hold, and the work.
  unfoldable pub check_descendants : Value → List Rule → ℕ → Result TestbenchError (Bool × ℕ)
  unfolding compatibility_cost
  check_descendants view [] work = ok (true, work)
  check_descendants view (r ∷ rules) work = do
    guard (within_work (work + compatibility_cost r)) (synthetic_failed work_limit)
    elim ((evaluate_rule r view).passed) [
      | true ↦ check_descendants view rules (work + compatibility_cost r)
      | false ↦ ok (false, work + compatibility_cost r)
    ]

  -- `descendant_rules or (None,)`: without descendants a candidate costs 1.
  unfoldable pub check_candidate : Value → List Rule → ℕ → Result TestbenchError (Bool × ℕ)
  unfolding check_descendants
  check_candidate view [] work = do
    guard (within_work (work + 1)) (synthetic_failed work_limit)
    ok (true, work + 1)
  check_candidate view (r ∷ rules) work = check_descendants view (r ∷ rules) work

  -- The loop over the candidates of a path.
  unfoldable pub select_candidate :
      Text → List Rule → List Value → ℕ → Result TestbenchError (Value × ℕ)
  unfolding check_candidate candidate_view
  select_candidate path descendants [] work = err (synthetic_failed no_passing)
  select_candidate path descendants (v ∷ vs) work = do
    checked ← check_candidate (candidate_view path v) descendants work
    elim checked.0 [
      | true ↦ ok (v, checked.1)
      | false ↦ select_candidate path descendants vs checked.1
    ]

  abbrev pub already_passes : Fields → List Rule → Bool
  already_passes response rules = all (λ (r : Rule). (evaluate_rule r (obj response)).passed) rules

  abbrev pub descendants_of : Text → List Rule → List Rule
  descendants_of path rules = keep (λ (r : Rule). starts_with r.path (path ++ txt ".")) rules

  -- The body of the loop over the paths.
  unfoldable pub build_path : Text → List Rule → Progress → Result TestbenchError Progress
  unfolding select_candidate candidate_values assign_path starts_with
  build_path path rules s = elim (already_passes s.passing rules) [
    | true ↦ ok (record s { constructed = s.constructed ++ rules })
    | false ↦ do
      candidates ← candidate_values rules
      selected ← select_candidate path (descendants_of path s.constructed) candidates s.work
      passing ← assign_path s.passing path selected.0
      ok (record { passing = passing; constructed = s.constructed ++ rules; work = selected.1 })
  ]

  unfoldable pub build_paths : Groups → Progress → Result TestbenchError Progress
  unfolding build_path
  build_paths [] s = ok s
  build_paths ((path, rules) ∷ groups) s = build_path path rules s >>= build_paths groups

-- A limit breach of a synthesized response is a generation failure.
abbrev pub response_failure : TestbenchError → TestbenchError
response_failure (invalid_response reason) = synthetic_failed structural_limits
response_failure e = e

pub record SyntheticCase : Type 0 where
  pub evaluation : EvaluationResult
  pub response : Fields

pub record Bundle : Type 0 where
  pub failing_case : SyntheticCase
  pub passing_case : SyntheticCase
  pub policy_id : Text

abbrev pub first_path : List Rule → Text
first_path [] = []
first_path (r ∷ rules) = r.path

abbrev pub deleted : Option Fields → Result TestbenchError Fields
deleted none = err (synthetic_failed no_failing)
deleted (some fs) = ok fs

module _ ⦃repr : FloatText⦄ where
  -- synthetic.py: _verify
  unfoldable pub verify : Text → List CompiledRule → Value → Result TestbenchError EvaluationResult
  unfolding evaluate_compiled
  verify policy_id compiled response =
      map_err response_failure (evaluate_compiled policy_id compiled response)

  -- generate_synthetic_cases of a validated policy
  unfoldable pub generate : Policy → Result TestbenchError Bundle
  unfolding verify build_paths sort_groups group_rules compile delete_path
  generate p = do
    built ←
        build_paths (sort_groups (group_rules [] p.rules))
          (record { passing = end; constructed = []; work = 0 })
    passed ← verify p.policy_id (compile p) (obj built.passing)
    guard passed.passed (synthetic_failed no_passing)
    failing ← deleted (delete_path built.passing (first_path p.rules))
    failed ← verify p.policy_id (compile p) (obj failing)
    guard (not failed.passed) (synthetic_failed no_failing)
    ok (record {
      failing_case = record { evaluation = failed; response = failing };
      passing_case = record { evaluation = passed; response = built.passing };
      policy_id = p.policy_id;
    })

  -- synthetic.py: generate_synthetic_cases
  unfoldable pub generate_synthetic_cases : PolicyInput → Result TestbenchError Bundle
  unfolding generate
  generate_synthetic_cases policy = do
    p ← map_err invalid_policy (validate_policy policy)
    generate p
