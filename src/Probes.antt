-- ===== src/Probes.antt =====
-- probes.py: targeted mutations of a synthetic passing response.
pub mod Names
pub mod Mutated
pub mod Hits
pub mod Targeted
pub mod Values
mod Wrong
unfoldable pub use Wrong.*
use constitutional_agent_tes.Base.{
  ℕ, zero, suc, ◌+◌, ◌≡◌, refl, Bool, true, false, not, Option, none, some, List, [], ◌∷◌, ◌++◌,
  map, ltb, leb, if◌then◌else◌, Text, txt, decimal, contains, sort_names, keep, length, replicate,
  utf8_size, ℤ, pos, negsuc, Result, ok, err, ◌>>=◌, ◌>>◌, guard, map_err,
}
use constitutional_agent_tes.Json.{
  Value, null, bool, int, float, str, arr, obj, nil, cons, Fields, end, field, list_items,
}
use constitutional_agent_tes.Json.Float.{Num, whole}
use constitutional_agent_tes.Json.Arithmetic.{add_int}
use constitutional_agent_tes.Json.Ensure.{ensure_json_value, max_json_input_bytes}
use constitutional_agent_tes.Json.Encode.{FloatText, canonical_json}
use constitutional_agent_tes.Json.Encode.Size.{bounded_canonical_json_size}
use constitutional_agent_tes.Policy.{
  Kind, required_field, equals, one_of, false_kind, empty_list, type_kind, range_kind, length_kind,
  unknown, Rule, Policy, num_value,
}
use constitutional_agent_tes.Policy.Validate.{PolicyInput, object, validate_policy}
use constitutional_agent_tes.Evaluator.{
  RuleResult, EvaluationResult, CompiledRule, value_markers, compile, evaluate_rule,
}
use constitutional_agent_tes.Errors.{
  TestbenchError, invalid_policy, synthetic_failed, too_many_probes, unverified_target, probe_size,
  probe_limits,
}
use constitutional_agent_tes.Artifact.{stable_json}
use constitutional_agent_tes.Suite.{Case, Suite, case_value, suite_value}
use constitutional_agent_tes.Suite.Validate.{validate_suite}
use constitutional_agent_tes.Synthetic.Paths.{candidate_view, assign_path, delete_path}
use constitutional_agent_tes.Synthetic.Generate.{Bundle, verify, generate_synthetic_cases}

abbrev pub max_probe_rules : ℕ
max_probe_rules = 64

pub data Mutation : Type 0 where
  missing wrong : Mutation

abbrev pub mutation_name : Mutation → Text
mutation_name missing = txt "missing"
mutation_name wrong = txt "wrong_value"

abbrev pub modes : Kind → List Mutation
modes required_field = missing ∷ []
modes _ = missing ∷ wrong ∷ []

-- A member of `probes`.
pub record Probe : Type 0 where
  pub case_id : Text
  pub target_rule_id : Text
  pub mutation : Mutation
  pub failed_rule_ids : List Text

-- The two lists that grow.
pub record Growth : Type 0 where
  pub cases : List Case
  pub probes : List Probe

abbrev pub new_case : Text → Fields → Bool → Case
new_case case_id response expected = record {
  case_id = case_id;
  response = response;
  expected_passed = expected;
  expected_rules = none;
}

-- _delete_path leaves a document without the path as it is.
abbrev pub without : Fields → Option Fields → Fields
without fs none = fs
without fs (some rest) = rest

-- The ids of the failed results, sorted.
unfoldable pub failed_ids : EvaluationResult → List Text
unfolding sort_names
failed_ids x =
    sort_names
      (map (λ (r : RuleResult). r.rule_id) (keep (λ (r : RuleResult). not r.passed) x.rule_results))

abbrev pub probe_id : ℕ → Mutation → Text
probe_id index mode = txt "probe-" ++ decimal index ++ txt "-" ++ mutation_name mode

module _ ⦃repr : FloatText⦄ where
  unfoldable pub mutate : Mutation → Fields → Rule → Result TestbenchError Fields
  unfolding delete_path assign_path wrong_value
  mutate missing passing r = ok (without passing (delete_path passing r.path))
  mutate wrong passing r = do v ← wrong_value r.kind r; assign_path passing r.path v

  -- The size of the cases so far.
  abbrev pub cases_size : Growth → Result TestbenchError ℕ
  cases_size g =
      map_err (λ e. synthetic_failed probe_size)
        (bounded_canonical_json_size (arr (list_items (map case_value g.cases)))
          max_json_input_bytes)

  unfoldable pub check_growth : Growth → Result TestbenchError Growth
  unfolding bounded_canonical_json_size
  check_growth g = do size ← cases_size g; ok g

  -- The body of the loop over the modes of a rule.
  unfoldable pub add_probe :
      Policy → Fields → ℕ → Rule → Mutation → Growth → Result TestbenchError Growth
  unfolding mutate verify compile failed_ids contains check_growth decimal
  add_probe p passing index r mode g = do
    response ← mutate mode passing r
    x ← verify p.policy_id (compile p) (obj response)
    guard (contains (failed_ids x) r.rule_id) (synthetic_failed unverified_target)
    check_growth (record {
      cases = g.cases ++ new_case (probe_id index mode) response false ∷ [];
      probes =
          g.probes
          ++ record {
            case_id = probe_id index mode;
            target_rule_id = r.rule_id;
            mutation = mode;
            failed_rule_ids = failed_ids x;
          }
            ∷ [];
    })

  unfoldable pub add_modes :
      Policy → Fields → ℕ → Rule → List Mutation → Growth → Result TestbenchError Growth
  unfolding add_probe
  add_modes p passing index r [] g = ok g
  add_modes p passing index r (mode ∷ rest) g =
      add_probe p passing index r mode g >>= add_modes p passing index r rest

  -- The loop over the rules.
  unfoldable pub add_rules : Policy → Fields → ℕ → List Rule → Growth → Result TestbenchError Growth
  unfolding add_modes
  add_rules p passing index [] g = ok g
  add_rules p passing index (r ∷ rules) g =
      add_modes p passing index r (modes r.kind) g >>= add_rules p passing (index + 1) rules

-- What generate_rule_probes returns, with its constant scope text in the value.
pub record ProbeReport : Type 0 where
  pub policy_id : Text
  pub suite : Suite
  pub probes : List Probe

abbrev pub probe_value : Probe → Value
probe_value x = obj (
    field (txt "case_id") (str x.case_id) (
      field (txt "target_rule_id") (str x.target_rule_id) (
        field (txt "mutation") (str (mutation_name x.mutation))
          (field (txt "failed_rule_ids") (arr (list_items (map str x.failed_rule_ids))) end))))

unfoldable pub probes_value : ProbeReport → Value
probes_value r = obj (
    field (txt "policy_id") (str r.policy_id) (
      field (txt "suite") (suite_value r.suite) (
        field (txt "probes") (arr (list_items (map probe_value r.probes)))
          (field (txt "coverage_scope") (str (txt "verified synthetic mutations only")) end))))

abbrev pub formatted_within : Option Text → Bool
formatted_within none = false
formatted_within (some t) = leb (utf8_size t) max_json_input_bytes

abbrev pub limits : {E A : Type 0} → Result E A → Result TestbenchError A
limits action = map_err (λ e. synthetic_failed probe_limits) action

module _ ⦃repr : FloatText⦄ where
  -- The checks of the result.
  unfoldable pub check_report : ProbeReport → Result TestbenchError ProbeReport
  unfolding validate_suite ensure_json_value bounded_canonical_json_size stable_json probes_value
      utf8_size
  check_report r = do
    s ← limits (validate_suite (suite_value r.suite))
    limits (ensure_json_value (probes_value r))
    size ← limits (bounded_canonical_json_size (probes_value r) max_json_input_bytes)
    guard (formatted_within (stable_json (probes_value r))) (synthetic_failed probe_limits)
    ok r

  -- generate_rule_probes of a validated policy
  unfoldable pub rule_probes : Policy → Result TestbenchError ProbeReport
  unfolding generate_synthetic_cases add_rules check_report
  rule_probes p = do
    guard (leb (length p.rules) max_probe_rules) (synthetic_failed too_many_probes)
    b ← generate_synthetic_cases (object p)
    g ← add_rules p b.passing_case.response 0 p.rules (record {
      cases = new_case (txt "baseline") b.passing_case.response true ∷ [];
      probes = [];
    })
    check_report (record {
      policy_id = p.policy_id;
      suite = record { suite_version = txt "1.0"; cases = g.cases };
      probes = g.probes;
    })

  -- probes.py: generate_rule_probes
  unfoldable pub generate_rule_probes : PolicyInput → Result TestbenchError ProbeReport
  unfolding rule_probes validate_policy
  generate_rule_probes policy = do
    p ← map_err invalid_policy (validate_policy policy)
    rule_probes p
