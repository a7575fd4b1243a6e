-- ===== src/Precedence/Check/Builtin.antt =====
-- The built-in evaluator is deterministic: its order check never ends early.
use constitutional_agent_tes.Base.{
  ℕ, zero, suc, ◌+◌, ◌*◌, ◌≡◌, refl, sym, ap, ◌∙◌, subst, true, false, not, Option, none, some,
  List, [], ◌∷◌, ◌++◌, map, arith, ltb, if◌then◌else◌, Text, same_refl, All, All-append, length,
  Result, ok, map_err, map_err-eq-ok, >>=-eq-ok, guard-eq-ok, ok-injective,
}
use constitutional_agent_tes.Json.{Value}
use constitutional_agent_tes.Json.Encode.{FloatText, canonical_json}
use constitutional_agent_tes.Json.Encode.Size.{bounded_canonical_json_size}
use constitutional_agent_tes.Policy.{Rule, Policy, policy_to_dict}
use constitutional_agent_tes.Policy.Validate.{PolicyInput, validate_policy}
use constitutional_agent_tes.Errors.{TestbenchError, order_check, order_policy, work_budget}
use constitutional_agent_tes.Evaluator.{compile_rule, evaluate_checked}
use constitutional_agent_tes.Precedence.Result.{
  Reported, reported_value, report_evaluation, builtin, run_builtin,
}
use constitutional_agent_tes.Precedence.Orders.{permutations, factorial}
use constitutional_agent_tes.Precedence.Projections.{
  Projections, same_texts, different, projections,
}
use constitutional_agent_tes.Precedence.Witness.{Observations}
use constitutional_agent_tes.Precedence.Report.{
  order_repeats, Work, charged, Report, Digest, report_value, bounded_report, exhaustive_report,
}
use constitutional_agent_tes.Precedence.Check.{
  Ending, early, observed_all, not_over, charge, run_once, run_repeats, observe, repeats_differ,
  run_orders, conclude, rule_ids, permuted, check_response_size, check_order_conformance,
}

same_texts_refl : (o : Option Text) → same_texts o o ≡ true
same_texts_refl none = refl
same_texts_refl (some t) = same_refl t

every_unit : {A : Type 0} (xs : List A) → All (λ x. Unit {0}) xs
every_unit [] = tt
every_unit (x ∷ xs) = (tt, every_unit xs)

module _ ⦃repr : FloatText⦄ where
  pub different_refl : (v : Value) → different v v ≡ false
  unfolding different
  different_refl v = ap not (same_texts_refl (canonical_json v))

  -- The result of the built-in evaluator, for every run.
  abbrev pub builtin_result : Policy → Value → Reported
  builtin_result p response =
      report_evaluation (evaluate_checked p.policy_id (map compile_rule p.rules) response)

  run_once-builtin :
      (p : Policy) (response : Value) (run : ℕ) {out : Reported × ℕ}
      → run_once builtin p response run ≡ ok out
      → out.0 ≡ builtin_result p response
  unfolding run_once run_builtin
  run_once-builtin p response run h = ground arith

  run_repeats-builtin :
      (p : Policy) (response : Value) (input_bytes k : ℕ) (w : Work) {out : List Reported × Work}
      → run_repeats builtin p response input_bytes k w ≡ ok out
      → All (λ r. r ≡ builtin_result p response) out.0
  unfolding run_repeats
  run_repeats-builtin p response input_bytes zero w h =
      subst (λ (x : List Reported × Work). All (λ r. r ≡ builtin_result p response) x.0)
        (ok-injective _ _ h) tt
  run_repeats-builtin p response input_bytes (suc k) w h =
      let (result, hr, h1) = >>=-eq-ok (run_once builtin p response w.runs) _ h in
      let (_, h2) =
        guard-eq-ok (not_over (charged input_bytes (charge w result.1))) (order_check work_budget) _
          h1 in
      let (rest, hs, h3) =
        >>=-eq-ok (run_repeats builtin p response input_bytes k (charge w result.1)) _ h2 in
      subst (λ (x : List Reported × Work). All (λ r. r ≡ builtin_result p response) x.0)
        (ok-injective _ _ h3)
        (
          run_once-builtin p response w.runs hr,
          run_repeats-builtin p response input_bytes k (charge w result.1) hs,
        )

  repeats_agree :
      (x baseline : Reported) (rest : List Reported)
      → baseline ≡ x
      → All (λ r. r ≡ x) rest
      → repeats_differ baseline rest ≡ false
  repeats_agree x baseline [] e h = refl
  repeats_agree x baseline (r ∷ rest) e h =
      let one : different (reported_value baseline) (reported_value r) ≡ false =
        ap (λ y. different (reported_value baseline) (reported_value y)) (h.0 ∙ sym e)
        ∙ different_refl (reported_value baseline) in
      ground (arith, one, repeats_agree x baseline rest e h.1)

  -- What an order of the policy's rules shows.
  abbrev pub shown : Policy → Value → List Rule → List Text × Projections
  shown p response order =
      (rule_ids order, projections (builtin_result (permuted p order) response) (rule_ids order))

  module _ ⦃digest : Digest⦄ (S : List Text × Projections → Type 0) where
    -- The loop over the orders ended with all observations, which have a property.
    abbrev pub Complete : Ending → Type 0
    Complete (early r) = ⊥
    Complete (observed_all os w) = All S os

    observe-agreed :
        (x : Reported) (p : Policy) (order : List Text) (input_bytes estimated : ℕ)
        (repeats : List Reported) (os : Observations) (w : Work)
        (continue : Observations → Result TestbenchError Ending) {e : Ending}
        → S (order, projections x order)
        → All S os
        → All (λ r. r ≡ x) repeats
        → ((next : Observations) → All S next → continue next ≡ ok e → Complete e)
        → observe p order input_bytes estimated repeats os w continue ≡ ok e
        → Complete e
    observe-agreed x p order input_bytes estimated [] os w continue s ss agreed later h =
        later os ss h
    observe-agreed x p order input_bytes estimated (baseline ∷ rest) os w continue s ss agreed later
          h =
        let alike = repeats_agree x baseline rest agreed.0 agreed.1 in
        later (os ++ (order, projections baseline order) ∷ [])
          (All-append S os _ ss (subst (λ r. S (order, projections r order)) (sym agreed.0) s, tt))
          (rw (observe, alike) at h)

    pub run_orders-Complete :
        (p : Policy) (response : Value) (input_bytes estimated : ℕ) (orders : List (List Rule))
        (os : Observations) (w : Work) {e : Ending}
        → All (λ order. S (shown p response order)) orders
        → All S os
        → run_orders builtin p response input_bytes estimated orders os w ≡ ok e
        → Complete e
    unfolding run_orders
    run_orders-Complete p response input_bytes estimated [] os w s ss h =
        subst Complete (ok-injective _ _ h) ss
    run_orders-Complete p response input_bytes estimated (order ∷ orders) os w s ss h =
        let (repeats, hr, h1) =
          >>=-eq-ok (run_repeats builtin (permuted p order) response input_bytes order_repeats w) _
            h in
        observe-agreed (builtin_result (permuted p order) response) p (rule_ids order) input_bytes
          estimated repeats.0 os repeats.1 _ s.0 ss
          (run_repeats-builtin (permuted p order) response input_bytes order_repeats w hr)
          (λ next good g.
            run_orders-Complete p response input_bytes estimated orders next repeats.1 s.1 good g)
          h1

  module _ ⦃digest : Digest⦄ where
    -- The report of all observations, which have a property.
    pub record Reports (p : Policy) (S : List Text × Projections → Type 0) (r : Report)
        : Type 0 where
      pub orders : List (List Text)
      pub observations : Observations
      pub estimated : ℕ
      pub work : Work
      pub bytes : ℕ
      pub all_shown : All S observations
      pub reported : exhaustive_report p orders observations estimated work bytes ≡ r

    concluded :
        (S : List Text × Projections → Type 0) (p : Policy) (orders : List (List Text))
        (input_bytes estimated : ℕ) (e : Ending) {r : Report}
        → Complete S e
        → conclude p orders input_bytes estimated e ≡ ok r
        → Reports p S r
    unfolding conclude bounded_report
    concluded S p orders input_bytes estimated (early r) complete h = absurd complete
    concluded S p orders input_bytes estimated (observed_all os w) complete h =
        let report = exhaustive_report p orders os estimated w (charged input_bytes w) in
        let (_, _, h1) =
          >>=-eq-ok (map_err _ (bounded_canonical_json_size (report_value report) _)) _ h in
        record {
          orders = orders;
          observations = os;
          estimated = estimated;
          work = w;
          bytes = charged input_bytes w;
          all_shown = complete;
          reported = ok-injective _ _ h1;
        }

    -- A report that is returned for the built-in evaluator is that of a valid policy over
    -- observations with every property that its orders show.
    pub builtin_report :
        (policy : PolicyInput) (response : Value) {r : Report}
        → check_order_conformance policy response builtin ≡ ok r
        → (S : Policy → List Text × Projections → Type 0)
        → ((p : Policy)
            → validate_policy policy ≡ ok p
            → All (λ order. S p (shown p response order)) (permutations (length p.rules) p.rules))
        → (p : Policy) × (validate_policy policy ≡ ok p) × Reports p (S p) r
    unfolding check_order_conformance
    builtin_report policy response h S shows =
        let (p, hp, h1) =
          >>=-eq-ok (map_err (λ e. order_check (order_policy e)) (validate_policy policy)) _ h in
        let (_, h2) = guard-eq-ok (if ltb (length p.rules) 2 then false else true) _ _ h1 in
        let (_, h3) = guard-eq-ok (if ltb 7 (length p.rules) then false else true) _ _ h2 in
        let (response_bytes, _, h4) = >>=-eq-ok (check_response_size response) _ h3 in
        let (policy_bytes, _, h5) =
          >>=-eq-ok (map_err _ (bounded_canonical_json_size (policy_to_dict p) _)) _ h4 in
        let input_bytes = policy_bytes + response_bytes in
        let (_, h6) =
          guard-eq-ok (not_over (input_bytes * (factorial (length p.rules) * order_repeats))) _ _
            h5 in
        let orders = permutations (length p.rules) p.rules in
        let (e, he, h7) =
          >>=-eq-ok (run_orders builtin p response input_bytes _ orders [] _) _ h6 in
        let valid = map_err-eq-ok (λ e. order_check (order_policy e)) (validate_policy policy) hp in
        (
          p,
          valid,
          concluded (S p) p (map rule_ids orders) input_bytes _ e
              (run_orders-Complete (S p) p response input_bytes _ orders [] _ (shows p valid) tt he)
              h7,
        )

    -- A report that is returned for the built-in evaluator is exhaustive: its repeated runs never
    -- differ, so that the check never ends with the inconclusive report.
    pub check_order_conformance-exhaustive :
        (policy : PolicyInput) (response : Value) {r : Report}
        → check_order_conformance policy response builtin ≡ ok r
        → r.exhaustive ≡ true
    unfolding exhaustive_report
    check_order_conformance-exhaustive policy response h =
        let (p, valid, reports) =
          builtin_report policy response h (λ p o. Unit {0})
            (λ p valid. every_unit (permutations (length p.rules) p.rules)) in
        sym (ap (λ (r : Report). r.exhaustive) reports.reported)
