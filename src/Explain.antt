-- ===== src/Explain.antt =====
-- explain.py: path and type diagnostics beside the evaluation.
pub mod Bounds
use constitutional_agent_tes.Base.{
  ℕ, zero, suc, ◌+◌, Bool, true, false, ◌&&◌, ◌||◌, not, Option, none, some, List, [], ◌∷◌, ◌++◌,
  map, if◌then◌else◌, Text, txt, same, contains, sort_names, pos, Result, ok, err, ◌>>=◌, map_err,
}
use constitutional_agent_tes.Json.{
  Value, null, bool, int, float, str, arr, obj, other, Fields, member, json_type_name,
}
use constitutional_agent_tes.Json.Float.{Num, whole, num_le}
use constitutional_agent_tes.Json.Path.{split_path}
use constitutional_agent_tes.Json.Encode.{FloatText}
use constitutional_agent_tes.Policy.{
  Kind, required_field, equals, one_of, false_kind, empty_list, type_kind, range_kind, length_kind,
  unknown, Rule, Policy,
}
use constitutional_agent_tes.Policy.Checks.{number_of}
use constitutional_agent_tes.Policy.Validate.{PolicyInput, validate_policy}
use constitutional_agent_tes.Errors.{TestbenchError, invalid_policy}
use constitutional_agent_tes.Evaluator.{
  ReasonCode, RuleResult, EvaluationResult, compile, evaluate_compiled, size_of,
}

-- `set(names)`, in the order of first occurrence
unfoldable pub name_set : List Text → List Text
unfolding contains
name_set [] = []
name_set (n ∷ names) = let rest = name_set names in if contains rest n then rest else n ∷ rest

-- explain.py: _expected_types
unfoldable pub expected_types : Kind → Rule → Option (List Text)
unfolding name_set sort_names json_type_name
expected_types equals r = some (json_type_name r.value ∷ [])
expected_types one_of r = some (sort_names (name_set (map json_type_name r.values)))
expected_types false_kind r = some (txt "boolean" ∷ [])
expected_types empty_list r = some (txt "array" ∷ [])
expected_types type_kind r = some (
    sort_names
      (name_set (if contains r.types (txt "number") then txt "integer" ∷ r.types else r.types)))
expected_types range_kind r = some (txt "integer" ∷ txt "number" ∷ [])
expected_types length_kind r = some (txt "array" ∷ txt "object" ∷ txt "string" ∷ [])
expected_types _ r = none

pub data BoundName : Type 0 where
  minimum_bound maximum_bound : BoundName

-- What a range or length rule measures of a value of a fitting type.
abbrev pub measured : Kind → Value → Option Num
measured range_kind v = number_of v
measured length_kind v = elim (size_of v) [ none ↦ none | some n ↦ some (whole (pos n)) ]
measured _ v = none

-- `rule.minimum is not None and measured < rule.minimum`
abbrev pub below : Option Num → Num → Bool
below none n = false
below (some lo) n = num_le n lo && not (num_le lo n)

abbrev pub crossed_bound : Option Num → Rule → Option BoundName
crossed_bound none r = none
crossed_bound (some n) r = if below r.minimum n then some minimum_bound else some maximum_bound

-- explain.py: _violated_bound
unfoldable pub violated_bound : Rule → Value → Option BoundName
unfolding num_le
violated_bound r v = crossed_bound (measured r.kind v) r

-- Where the traversal of a path ended; the names are those traversed.
pub data Resolution : Type 0 where
  resolved : Value → Resolution
  parent_not_object : List Text → Resolution
  member_absent : List Text → Resolution

-- The loop over the segments of the path.
unfoldable pub traverse : Value → List Text → List Text → Resolution
traverse v traversed [] = resolved v
traverse (obj fs) traversed (s ∷ rest) = elim (member s fs) [
  | none ↦ member_absent (traversed ++ s ∷ [])
  | some v ↦ traverse v (traversed ++ s ∷ []) rest
]
traverse _ traversed (s ∷ rest) = parent_not_object traversed

pub record Explanation : Type 0 where
  pub rule_id : Text
  pub reason_code : ReasonCode
  pub path : Text
  pub resolution : Resolution
  pub expected : Option (List Text)
  pub observed_type : Option Text
  pub violated : Option BoundName

abbrev pub observed_type_of : Resolution → Option Text
observed_type_of (resolved v) = some (json_type_name v)
observed_type_of _ = none

abbrev pub violated_of : Rule → Bool → Resolution → Option BoundName
violated_of r false (resolved v) = violated_bound r v
violated_of r _ _ = none

-- The body of the loop over the rules.
unfoldable pub explain_rule : Rule → RuleResult → Value → Explanation
unfolding traverse expected_types violated_bound split_path
explain_rule r x response = record {
  rule_id = x.rule_id;
  reason_code = x.reason_code;
  path = x.path;
  resolution = traverse response [] (split_path x.path);
  expected = expected_types r.kind r;
  observed_type = observed_type_of (traverse response [] (split_path x.path));
  violated = violated_of r x.passed (traverse response [] (split_path x.path));
}

unfoldable pub explain_rules : List Rule → List RuleResult → Value → List Explanation
unfolding explain_rule
explain_rules (r ∷ rules) (x ∷ results) response =
    explain_rule r x response ∷ explain_rules rules results response
explain_rules _ _ response = []

module _ ⦃repr : FloatText⦄ where
  -- explain.py: explain_response
  unfoldable pub explain_response :
      PolicyInput → Value → Result TestbenchError (EvaluationResult × List Explanation)
  unfolding explain_rules
  explain_response policy response = do
    p ← map_err invalid_policy (validate_policy policy)
    x ← evaluate_compiled p.policy_id (compile p) response
    ok (x, explain_rules p.rules x.rule_results response)
