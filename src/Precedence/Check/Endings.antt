-- ===== src/Precedence/Check/Endings.antt =====
-- How the loop over the orders ends: its runs, its observations and its work.
use constitutional_agent_tes.Base.{
  ℕ, zero, suc, ◌+◌, ◌*◌, ◌≤◌, ◌≡◌, refl, ap, subst, true, false, none, List, [], ◌∷◌, ◌++◌, arith,
  Text, length, length-append, Result, ok, >>=-eq-ok, guard-eq-ok, ok-injective, Bool-cases, inl,
  inr, ◌⊎◌,
}
use constitutional_agent_tes.Json.{Value}
use constitutional_agent_tes.Json.Encode.{FloatText}
use constitutional_agent_tes.Policy.{Rule, Policy}
use constitutional_agent_tes.Errors.{TestbenchError, order_check, work_budget}
use constitutional_agent_tes.Precedence.Result.{Reported, Evaluator}
use constitutional_agent_tes.Precedence.Projections.{projections}
use constitutional_agent_tes.Precedence.Witness.{Observations}
use constitutional_agent_tes.Precedence.Report.{
  order_repeats, max_exhaustive_work_bytes, inconclusive_nondeterministic, Work, charged, Digest,
  nondeterministic_report,
}
use constitutional_agent_tes.Precedence.Check.{
  Ending, early, observed_all, not_over, charge, run_once, run_repeats, observe, repeats_differ,
  run_orders, rule_ids, permuted,
}

module _ ⦃repr : FloatText⦄ where
  -- What the repeats of one order leave behind: their number, the count of the runs, and work that is
  -- within the budget.
  abbrev Ran : ℕ → Work → ℕ → List Reported × Work → Type 0
  Ran input_bytes w k out =
      (length out.0 ≡ k) × (out.1.runs ≡ w.runs + k) × (not_over (charged input_bytes out.1) ≡ true)

  run_repeats-Ran :
      (evaluator : Evaluator) (p : Policy) (response : Value) (input_bytes : ℕ) (k : ℕ) (w : Work)
      {out : List Reported × Work}
      → not_over (charged input_bytes w) ≡ true
      → run_repeats evaluator p response input_bytes k w ≡ ok out
      → Ran input_bytes w k out
  unfolding run_repeats
  run_repeats-Ran evaluator p response input_bytes zero w small h =
      subst (Ran input_bytes w 0) (ok-injective _ _ h) (refl, omega arith, small)
  run_repeats-Ran evaluator p response input_bytes (suc k) w small h =
      let (result, _, h1) = >>=-eq-ok (run_once evaluator p response w.runs) _ h in
      let (fits, h2) =
        guard-eq-ok (not_over (charged input_bytes (charge w result.1))) (order_check work_budget) _
          h1 in
      let (rest, hr, h3) =
        >>=-eq-ok (run_repeats evaluator p response input_bytes k (charge w result.1)) _ h2 in
      let (total, count, within) =
        run_repeats-Ran evaluator p response input_bytes k (charge w result.1) fits hr in
      subst (Ran input_bytes w (suc k)) (ok-injective _ _ h3)
        (ap suc total, omega (arith, count), within)

  module _ ⦃digest : Digest⦄ where
    -- An early report is inconclusive; otherwise every order was observed with its runs. The work
    -- charged is within the budget.
    abbrev pub GoodEnding : ℕ → ℕ → ℕ → Ending → Type 0
    GoodEnding input_bytes orders runs (early r) =
        (r.status ≡ inconclusive_nondeterministic)
        × (r.conforms ≡ none)
        × (r.exhaustive ≡ false)
        × (r.charged_work ≤ max_exhaustive_work_bytes)
    GoodEnding input_bytes orders runs (observed_all os w) =
        (length os ≡ orders) × (w.runs ≡ runs) × (charged input_bytes w ≤ max_exhaustive_work_bytes)

    pub not_over→le : (n : ℕ) → not_over n ≡ true → n ≤ max_exhaustive_work_bytes
    not_over→le n h = ground arith

    observe-eq-ok :
        (p : Policy) (order : List Text) (input_bytes estimated k : ℕ) (repeats : List Reported)
        (os : Observations) (w : Work) (continue : Observations → Result TestbenchError Ending)
        {e : Ending}
        → length repeats ≡ suc k
        → not_over (charged input_bytes w) ≡ true
        → observe p order input_bytes estimated repeats os w continue ≡ ok e
        → ((next : Observations) × (length next ≡ length os + 1) × (continue next ≡ ok e))
          ⊎ ((n : ℕ) → (m : ℕ) → GoodEnding input_bytes n m e)
    observe-eq-ok p order input_bytes estimated k [] os w continue few small h = cc
    observe-eq-ok p order input_bytes estimated k (baseline ∷ rest) os w continue few small h =
        elim (Bool-cases (repeats_differ baseline rest)) [
          | inr e ↦ inl (
            os ++ (order, projections baseline order) ∷ [],
            length-append os _,
            rw (observe, e) at h,
          )
          | inl e ↦ inr (λ n m.
              subst (GoodEnding input_bytes n m) (ok-injective _ _ (rw (observe, e) at h)) (
                unfold nondeterministic_report in
                (refl, refl, refl, not_over→le (charged input_bytes w) small)))
        ]

    pub run_orders-GoodEnding :
        (evaluator : Evaluator) (p : Policy) (response : Value) (input_bytes estimated : ℕ)
        (orders : List (List Rule)) (os : Observations) (w : Work) {e : Ending}
        → not_over (charged input_bytes w) ≡ true
        → run_orders evaluator p response input_bytes estimated orders os w ≡ ok e
        → GoodEnding input_bytes
            (length os + length orders)
            (w.runs + order_repeats * length orders)
            e
    unfolding run_orders
    run_orders-GoodEnding evaluator p response input_bytes estimated [] os w small h =
        subst (GoodEnding input_bytes (length os + 0) (w.runs + order_repeats * 0))
          (ok-injective _ _ h) (omega arith, omega arith, not_over→le (charged input_bytes w) small)
    run_orders-GoodEnding evaluator p response input_bytes estimated (order ∷ orders) os w small h =
        let (repeats, hr, h1) =
          >>=-eq-ok (run_repeats evaluator (permuted p order) response input_bytes order_repeats w)
            _ h in
        let (total, count, within) =
          run_repeats-Ran evaluator (permuted p order) response input_bytes order_repeats w small
            hr in
        elim (observe-eq-ok p (rule_ids order) input_bytes estimated 2 repeats.0 os repeats.1 _
          total within h1) [
            | inr good ↦ good _ _
            | inl (next, longer, h2) ↦
                let sum : length next + length orders ≡ length os + suc (length orders) =
                  omega (arith, longer) in
                let runs : repeats.1.runs + order_repeats * length orders
                    ≡ w.runs + order_repeats * suc (length orders) =
                  omega (arith, count) in
                let rest =
                  run_orders-GoodEnding evaluator p response input_bytes estimated orders next
                    repeats.1 within h2 in
                rw (sum, runs) at rest
          ]
