-- ===== src/Precedence/Check/Laws.antt =====
-- What a report of check_order_conformance says: its conclusion, its status and its coverage.
use constitutional_agent_tes.Base.{
  ℕ, ◌+◌, ◌*◌, ◌≤◌, ◌≡◌, refl, ap, sym, ◌∙◌, subst, Bool, true, false, not, Option, none, some,
  List, [], map, arith, ltb, if◌then◌else◌, Text, map_err, length, ok, >>=-eq-ok, guard-eq-ok,
  ok-injective, map_err-eq-ok,
}
use constitutional_agent_tes.Json.{Value}
use constitutional_agent_tes.Json.Encode.{FloatText}
use constitutional_agent_tes.Policy.{Policy, policy_to_dict}
use constitutional_agent_tes.Policy.Validate.{PolicyInput, validate_policy}
use constitutional_agent_tes.Json.Encode.Size.{bounded_canonical_json_size}
use constitutional_agent_tes.Precedence.Result.{Evaluator}
use constitutional_agent_tes.Precedence.Orders.Count.{length-permutations}
use constitutional_agent_tes.Precedence.Orders.{permutations, factorial}
use constitutional_agent_tes.Precedence.Report.{
  order_repeats, max_exhaustive_work_bytes, Status, no_variance_observed, presentation_only_drift,
  inconclusive_nondeterministic, Variance, Work, charged, Report, Digest, status_of, semantic_drift,
  bounded_report, exhaustive_report, report_value, variance_of, is_incomplete, incomplete_of,
}
use constitutional_agent_tes.Precedence.Check.{
  Ending, early, observed_all, not_over, run_orders, conclude, rule_ids, check_response_size,
  check_order_conformance,
}
use constitutional_agent_tes.Precedence.Check.Endings.{GoodEnding, run_orders-GoodEnding}

-- What the conclusion of a report has to be for its status.
abbrev pub conclusion_of : Status → Option Bool
conclusion_of no_variance_observed = some true
conclusion_of presentation_only_drift = some true
conclusion_of inconclusive_nondeterministic = none
conclusion_of _ = some false

-- The conclusion and the status ladder agree: an exhaustive report conforms exactly where its status
-- is NO_VARIANCE_OBSERVED or PRESENTATION_ONLY_DRIFT, and is never inconclusive.
status_of-conclusion_of :
    (v : Variance) (incomplete : Bool)
    → some (not (semantic_drift v incomplete)) ≡ conclusion_of (status_of v incomplete)
unfolding status_of
status_of-conclusion_of v incomplete = ground arith

module _ ⦃repr : FloatText⦄ where
  module _ ⦃digest : Digest⦄ where
    -- What a report promises of the policy that was checked.
    pub record GoodReport (p : Policy) (r : Report) : Type 0 where
      pub several : 2 ≤ length p.rules
      pub few : length p.rules ≤ 7
      pub conclusion : r.conforms ≡ conclusion_of r.status
      pub budget : r.charged_work ≤ max_exhaustive_work_bytes
      pub complete :
          r.exhaustive ≡ true
          → (r.orders_completed ≡ factorial (length p.rules))
            × (r.orders_total ≡ factorial (length p.rules))
            × (r.runs ≡ order_repeats * factorial (length p.rules))
      pub inconclusive : r.exhaustive ≡ false → r.status ≡ inconclusive_nondeterministic

    abbrev no_work : Work
    no_work = record { runs = 0; result_bytes = 0 }

    all_orders-GoodEnding :
        (evaluator : Evaluator) (p : Policy) (response : Value) (input_bytes estimated : ℕ)
        {e : Ending}
        → run_orders evaluator p response input_bytes estimated
            (permutations (length p.rules) p.rules)
            []
            no_work
          ≡ ok e
        → GoodEnding input_bytes
            (factorial (length p.rules))
            (order_repeats * factorial (length p.rules))
            e
    all_orders-GoodEnding evaluator p response input_bytes estimated {e} h =
        let orders = permutations (length p.rules) p.rules in
        let count = length-permutations (length p.rules) p.rules refl in
        let sum : 0 + length orders ≡ factorial (length p.rules) = omega (arith, count) in
        let runs : 0 + order_repeats * length orders ≡ order_repeats * factorial (length p.rules) =
          omega (arith, count) in
        let good =
          run_orders-GoodEnding evaluator p response input_bytes estimated orders [] no_work
            (small input_bytes) h in
        subst (λ n. GoodEnding input_bytes n (order_repeats * factorial (length p.rules)) e) sum
          (subst (λ n. GoodEnding input_bytes (0 + length orders) n e) runs good)
      where
        small : (n : ℕ) → not_over (charged n no_work) ≡ true
        small n = ground arith

    conclude-GoodReport :
        (p : Policy) (orders : List (List Text)) (input_bytes estimated : ℕ) (e : Ending)
        {r : Report}
        → 2 ≤ length p.rules
        → length p.rules ≤ 7
        → GoodEnding input_bytes
            (factorial (length p.rules))
            (order_repeats * factorial (length p.rules))
            e
        → conclude p orders input_bytes estimated e ≡ ok r
        → GoodReport p r
    unfolding conclude bounded_report
    conclude-GoodReport p orders input_bytes estimated (early report) several few good h =
        let (size, _, h1) =
          >>=-eq-ok (map_err _ (bounded_canonical_json_size (report_value report) _)) _ h in
        subst (GoodReport p) (ok-injective _ _ h1) (record {
          several = several;
          few = few;
          conclusion = good.1 ∙ sym (ap conclusion_of good.0);
          budget = good.3;
          complete = λ e. cc (good.2);
          inconclusive = λ e. good.0;
        })
    conclude-GoodReport p orders input_bytes estimated (observed_all os w) several few good h =
        let report = exhaustive_report p orders os estimated w (charged input_bytes w) in
        let (size, _, h1) =
          >>=-eq-ok (map_err _ (bounded_canonical_json_size (report_value report) _)) _ h in
        subst (GoodReport p) (ok-injective _ _ h1) (
          unfold exhaustive_report in
          record {
            several = several;
            few = few;
            conclusion =
                status_of-conclusion_of (variance_of orders os) (is_incomplete (incomplete_of os));
            budget = good.2;
            complete = λ e. (good.0, refl, good.1);
            inconclusive = λ e. cc;
          })

    -- A returned report is about a valid policy of 2 to 7 rules, and its work is within the budget.
    -- Where it says exhaustive coverage, it completed as many orders as n rules have permutations, n!,
    -- with three runs for each; where it does not, its status is inconclusive. Its conclusion is the
    -- one of its status: true for no variance or drift of presentation only, absent where it is
    -- inconclusive, else false.
    pub check_order_conformance-GoodReport :
        (policy : PolicyInput) (response : Value) (evaluator : Evaluator) {r : Report}
        → check_order_conformance policy response evaluator ≡ ok r
        → (p : Policy) × (validate_policy policy ≡ ok p) × GoodReport p r
    unfolding check_order_conformance
    check_order_conformance-GoodReport policy response evaluator h =
        let (p, hp, h1) = >>=-eq-ok (map_err _ (validate_policy policy)) _ h in
        let (several, h2) = guard-eq-ok (if ltb (length p.rules) 2 then false else true) _ _ h1 in
        let (few, h3) = guard-eq-ok (if ltb 7 (length p.rules) then false else true) _ _ h2 in
        let (response_bytes, _, h4) = >>=-eq-ok (check_response_size response) _ h3 in
        let (policy_bytes, _, h5) =
          >>=-eq-ok (map_err _ (bounded_canonical_json_size (policy_to_dict p) _)) _ h4 in
        let input_bytes = policy_bytes + response_bytes in
        let (_, h6) =
          guard-eq-ok (not_over (input_bytes * (factorial (length p.rules) * order_repeats))) _ _
            h5 in
        let orders = permutations (length p.rules) p.rules in
        let (e, he, h7) =
          >>=-eq-ok (run_orders evaluator p response input_bytes _ orders [] _) _ h6 in
        let good = all_orders-GoodEnding evaluator p response input_bytes _ he in
        (
          p,
          map_err-eq-ok _ (validate_policy policy) hp,
          conclude-GoodReport p (map rule_ids orders) input_bytes _ e
              (at_least_two (length p.rules) several) (at_most_seven (length p.rules) few) good h7,
        )
      where
        at_least_two : (n : ℕ) → (if ltb n 2 then false else true) ≡ true → 2 ≤ n
        at_least_two n e = ground arith

        at_most_seven : (n : ℕ) → (if ltb 7 n then false else true) ≡ true → n ≤ 7
        at_most_seven n e = ground arith
