-- ===== src/Precedence/Check.antt =====
-- precedence.py: check_order_conformance.
pub mod Endings
pub mod Laws
pub mod Builtin
pub mod Steady
pub mod Permuted
pub mod Conforms
use constitutional_agent_tes.Base.{
  ℕ, zero, suc, ◌+◌, ◌*◌, Bool, true, false, Option, none, some, List, [], ◌∷◌, ◌++◌, map, ltb,
  if◌then◌else◌, Text, txt, same, any, length, Result, ok, err, ◌>>=◌, ◌>>◌, guard, map_err,
}
use constitutional_agent_tes.Json.{Value, null, bool, int, float, str, arr, obj, other, Fields}
use constitutional_agent_tes.Json.Ensure.{ensure_json_value, max_json_input_bytes}
use constitutional_agent_tes.Json.Encode.{FloatText}
use constitutional_agent_tes.Json.Encode.Size.{bounded_canonical_json_size}
use constitutional_agent_tes.Policy.{Rule, Policy, policy_to_dict}
use constitutional_agent_tes.Policy.Validate.{PolicyInput, validate_policy}
use constitutional_agent_tes.Policy.Checks.{nowhere, invalid, invalid_json}
use constitutional_agent_tes.Evaluator.{CompiledRule, compile_rule}
use constitutional_agent_tes.Errors.{
  TestbenchError, order_check, order_policy, order_response, response_not_object, response_json,
  too_few_rules, too_many_peer_rules, work_budget,
}
use constitutional_agent_tes.Precedence.Result.{
  Reported, reported_value, Evaluator, builtin, custom, run_evaluator, run_builtin,
}
use constitutional_agent_tes.Precedence.Orders.{permutations, factorial}
use constitutional_agent_tes.Precedence.Projections.{projections, different}
use constitutional_agent_tes.Precedence.Witness.{Observations}
use constitutional_agent_tes.Precedence.Report.{
  order_repeats, max_exhaustive_work_bytes, Work, charged, Report, Digest, bounded_report,
  nondeterministic_report, exhaustive_report,
}

abbrev pub rule_ids : List Rule → List Text
rule_ids = map (λ (r : Rule). r.rule_id)

abbrev pub permuted : Policy → List Rule → Policy
permuted p rules = record p { rules = rules }

-- Within the deterministic work budget.
abbrev pub not_over : ℕ → Bool
not_over bytes = if ltb max_exhaustive_work_bytes bytes then false else true

abbrev pub charge : Work → ℕ → Work
charge w bytes = record { runs = w.runs + 1; result_bytes = w.result_bytes + bytes }

-- Where the loop over the orders ends: with an early report, or with all observations.
pub data Ending : Type 0 where
  early : Report → Ending
  observed_all : Observations → Work → Ending

module _ ⦃repr : FloatText⦄ where
  -- One run, by the fast path of the built-in evaluator or with every guard. The compiled rules are
  -- those of the order, since compiling is by rule.
  unfoldable pub run_once : Evaluator → Policy → Value → ℕ → Result TestbenchError (Reported × ℕ)
  unfolding run_builtin run_evaluator compile_rule
  run_once builtin p response run = run_builtin (map compile_rule p.rules) p response
  run_once (custom evaluator) p response run = run_evaluator evaluator run p response

  -- `for _ in range(ORDER_REPEATS)`, with the results of the order and the work charged.
  unfoldable pub run_repeats :
      Evaluator → Policy → Value → ℕ → ℕ → Work → Result TestbenchError (List Reported × Work)
  unfolding run_once
  run_repeats evaluator p response input_bytes zero work = ok ([], work)
  run_repeats evaluator p response input_bytes (suc k) work = do
    result ← run_once evaluator p response work.runs
    guard (not_over (charged input_bytes (charge work result.1))) (order_check work_budget)
    rest ← run_repeats evaluator p response input_bytes k (charge work result.1)
    ok (result.0 ∷ rest.0, rest.1)

  abbrev pub repeats_differ : Reported → List Reported → Bool
  repeats_differ baseline rest =
      any (λ r. different (reported_value baseline) (reported_value r)) rest

  module _ ⦃digest : Digest⦄ where
    -- The body of the loop behind the repeats: an early report, or one more observation.
    abbrev pub observe :
        Policy
        → List Text
        → ℕ
        → ℕ
        → List Reported
        → Observations
        → Work
        → (Observations → Result TestbenchError Ending)
        → Result TestbenchError Ending
    observe p order input_bytes estimated [] observations work continue = continue observations
    observe p order input_bytes estimated (baseline ∷ rest) observations work continue =
        elim (repeats_differ baseline rest) [
          | true ↦ ok (
              early (
                nondeterministic_report p order baseline rest estimated (length observations + 1)
                  work (charged input_bytes work)))
          | false ↦ continue (observations ++ (order, projections baseline order) ∷ [])
        ]

    -- `for rules, order_ids in zip(rule_orders, id_orders)`
    unfoldable pub run_orders :
        Evaluator
        → Policy
        → Value
        → ℕ
        → ℕ
        → List (List Rule)
        → Observations
        → Work
        → Result TestbenchError Ending
    unfolding run_repeats different projections nondeterministic_report
    run_orders evaluator p response input_bytes estimated [] observations work =
        ok (observed_all observations work)
    run_orders evaluator p response input_bytes estimated (order ∷ orders) observations work = do
      repeats ← run_repeats evaluator (permuted p order) response input_bytes order_repeats work
      observe p (rule_ids order) input_bytes estimated repeats.0 observations repeats.1
          (λ next. run_orders evaluator p response input_bytes estimated orders next repeats.1)

    unfoldable pub conclude :
        Policy → List (List Text) → ℕ → ℕ → Ending → Result TestbenchError Report
    unfolding bounded_report exhaustive_report
    conclude p orders input_bytes estimated (early report) = bounded_report report
    conclude p orders input_bytes estimated (observed_all observations work) =
        bounded_report
          (exhaustive_report p orders observations estimated work (charged input_bytes work))

    unfoldable pub check_response_size : Value → Result TestbenchError ℕ
    check_response_size (obj fs) = do
      map_err (λ e. order_check (order_response (response_json e))) (ensure_json_value (obj fs))
      map_err (λ e. order_check (order_response (response_json e)))
          (bounded_canonical_json_size (obj fs) max_json_input_bytes)
    check_response_size _ = err (order_check (order_response response_not_object))

    -- precedence.py: check_order_conformance
    unfoldable pub check_order_conformance :
        PolicyInput → Value → Evaluator → Result TestbenchError Report
    unfolding check_response_size run_orders conclude permutations factorial
    check_order_conformance policy response evaluator = do
      p ← map_err (λ e. order_check (order_policy e)) (validate_policy policy)
      guard (if ltb (length p.rules) 2 then false else true) (order_check too_few_rules)
      guard (if ltb 7 (length p.rules) then false else true) (order_check too_many_peer_rules)
      response_bytes ← check_response_size response
      policy_bytes ←
          map_err (λ e. order_check (order_policy (invalid nowhere (invalid_json e))))
            (bounded_canonical_json_size (policy_to_dict p) max_json_input_bytes)
      let input_bytes = policy_bytes + response_bytes
      let estimated = input_bytes * (factorial (length p.rules) * order_repeats)
      guard (not_over estimated) (order_check work_budget)
      let orders = permutations (length p.rules) p.rules
      ending ←
          run_orders evaluator p response input_bytes estimated orders []
            (record { runs = 0; result_bytes = 0 })
      conclude p (map rule_ids orders) input_bytes estimated ending
