-- ===== src/Precedence/Report.antt =====
-- precedence.py: the status ladder and the two reports.
mod Form
unfoldable pub use Form.*
use constitutional_agent_tes.Base.{
  ℕ, zero, suc, ◌+◌, ◌-◌, ◌*◌, Bool, true, false, ◌&&◌, ◌||◌, not, Option, none, some, List, [],
  ◌∷◌, ◌++◌, if◌then◌else◌, Text, txt, contains, keep, all, length, pos, Result, ok, ◌>>=◌, map_err,
}
use constitutional_agent_tes.Json.{Value, null, bool, int, str, arr, obj, end, field, list_items}
use constitutional_agent_tes.Json.Encode.{FloatText, canonical_json}
use constitutional_agent_tes.Json.Encode.Size.{bounded_canonical_json_size}
use constitutional_agent_tes.Policy.{Policy}
use constitutional_agent_tes.Errors.{TestbenchError, order_check, report_limit}
use constitutional_agent_tes.Precedence.Result.{
  Reported, reported_value, max_evaluator_result_bytes,
}
use constitutional_agent_tes.Precedence.Orders.{factorial}
use constitutional_agent_tes.Precedence.Projections.{
  outcome, reason_evidence, participation, presentation, Projections, pair_keys, names_value,
  different,
}
use constitutional_agent_tes.Precedence.Witness.{
  Observations, adjacent_witness, global_outcome_witness, global_evidence_witness,
}

-- `hashlib.sha256(...).hexdigest()` of the UTF-8 bytes of a text
pub record Digest : Type 0 where
  pub sha256_hex : Text → Text

abbrev pub text_or_empty : Option Text → Text
text_or_empty none = []
text_or_empty (some t) = t

module _ ⦃repr : FloatText⦄ where
  -- precedence.py: _bounded_report
  unfoldable pub bounded_report : Report → Result TestbenchError Report
  unfolding bounded_canonical_json_size report_value
  bounded_report r = do
    size ←
        map_err (λ e. order_check report_limit)
          (bounded_canonical_json_size (report_value r) max_report_bytes)
    ok r

  -- The index of the first repeat that differs from the first one, or 1.
  unfoldable pub differing_index : ℕ → Reported → List Reported → ℕ
  unfolding different
  differing_index k baseline [] = 1
  differing_index k baseline (r ∷ rest) =
      if different (reported_value baseline) (reported_value r)
      then k
      else differing_index (suc k) baseline rest

  module _ ⦃digest : Digest⦄ where
    -- precedence.py: _fingerprint
    unfoldable pub fingerprint : Value → Text
    fingerprint v = digest.sha256_hex (text_or_empty (canonical_json v))

    abbrev pub nth_reported : ℕ → Reported → List Reported → Reported
    nth_reported zero r rest = r
    nth_reported (suc k) r [] = r
    nth_reported (suc k) r (s ∷ rest) = nth_reported k s rest

    abbrev pub repeat_witness : List Text → Reported → List Reported → Value
    repeat_witness order baseline rest =
        let k = differing_index 1 baseline rest in
        obj (
          field (txt "dimension") (str (txt "evaluator_result")) (
            field (txt "left_fingerprint") (str (fingerprint (reported_value baseline))) (
              field (txt "left_repeat") (nat_value 1) (
                field (txt "order") (names_value order) (
                  field (txt "right_fingerprint")
                    (str (fingerprint (reported_value (nth_reported k baseline rest))))
                    (field (txt "right_repeat") (nat_value (k + 1)) end))))))

    -- precedence.py: _nondeterministic_report
    unfoldable pub nondeterministic_report :
        Policy → List Text → Reported → List Reported → ℕ → ℕ → Work → ℕ → Report
    unfolding fingerprint differing_index factorial
    nondeterministic_report p order baseline rest estimated attempted work charged_bytes = record {
      conforms = none;
      exhaustive = false;
      runs = work.runs;
      orders_completed = attempted - 1;
      orders_attempted = attempted;
      orders_total = factorial (length p.rules);
      rule_count = length p.rules;
      estimated_work = estimated;
      observed_result_bytes = work.result_bytes;
      charged_work = charged_bytes;
      rule_results_complete = none;
      incomplete_orders = none;
      policy_id = p.policy_id;
      follows_requested_order = none;
      status = inconclusive_nondeterministic;
      variance = none;
      witnesses = repeat_witness order baseline rest ∷ [];
    }

abbrev pub is_found : Option Value → Bool
is_found none = false
is_found (some w) = true

-- More than one of the three semantic dimensions varies.
abbrev pub compound : Variance → Bool
compound v =
    (v.outcome && (v.reason_evidence || v.participation)) || (v.reason_evidence && v.participation)

-- The status ladder of check_order_conformance.
unfoldable pub status_of : Variance → Bool → Status
status_of v incomplete =
    if compound v
    then compound_order_drift
    else if v.participation
    then participation_order_drift
    else if v.outcome
    then semantic_order_drift
    else if v.reason_evidence
    then evidence_order_drift
    else if incomplete
    then incomplete_rule_coverage
    else if v.presentation
    then presentation_only_drift
    else no_variance_observed

abbrev pub semantic_drift : Variance → Bool → Bool
semantic_drift v incomplete = incomplete || (v.outcome || (v.reason_evidence || v.participation))

-- The orders whose participation is not complete.
abbrev pub incomplete_of : Observations → Observations
incomplete_of = keep (λ (o : List Text × Projections). not o.1.participation_complete)

abbrev pub coverage_witness : Observations → List Value
coverage_witness [] = []
coverage_witness ((order, p) ∷ rest) =
    obj (
      field (txt "dimension") (str (txt "rule_coverage")) (
        field (txt "order") (names_value order) (
          field (txt "missing_rule_ids")
            (names_value (keep (λ name. not (contains (pair_keys p.rule_passes) name)) order))
            end)))
    ∷ []

abbrev pub is_incomplete : Observations → Bool
is_incomplete [] = false
is_incomplete (o ∷ os) = true

abbrev pub witness_list : Option Value → List Value
witness_list none = []
witness_list (some w) = w ∷ []

abbrev pub or_witness : Option Value → Option Value → Option Value
or_witness none o = o
or_witness (some w) o = some w

module _ ⦃repr : FloatText⦄ where
  unfoldable pub variance_of : List (List Text) → Observations → Variance
  unfolding global_outcome_witness global_evidence_witness adjacent_witness
  variance_of orders observations = record {
    outcome = is_found (global_outcome_witness orders observations);
    reason_evidence = is_found (global_evidence_witness orders observations);
    participation = is_found (adjacent_witness participation orders observations);
    presentation = is_found (adjacent_witness presentation orders observations);
  }

  abbrev pub dimension_witnesses : List (List Text) → Observations → List Value
  dimension_witnesses orders observations =
      witness_list (
        or_witness (adjacent_witness outcome orders observations)
          (global_outcome_witness orders observations))
      ++ (witness_list (
            or_witness (adjacent_witness reason_evidence orders observations)
              (global_evidence_witness orders observations))
          ++ (witness_list (adjacent_witness participation orders observations)
              ++ witness_list (adjacent_witness presentation orders observations)))

  -- The end of check_order_conformance, from the variance on.
  unfoldable pub exhaustive_report :
      Policy → List (List Text) → Observations → ℕ → Work → ℕ → Report
  unfolding variance_of status_of factorial
  exhaustive_report p orders observations estimated work charged_bytes =
      let variance = variance_of orders observations in
      let incomplete = is_incomplete (incomplete_of observations) in
      record {
        conforms = some (not (semantic_drift variance incomplete));
        exhaustive = true;
        runs = work.runs;
        orders_completed = length observations;
        orders_attempted = length observations;
        orders_total = factorial (length p.rules);
        rule_count = length p.rules;
        estimated_work = estimated;
        observed_result_bytes = work.result_bytes;
        charged_work = charged_bytes;
        rule_results_complete = some (not incomplete);
        incomplete_orders = some (length (incomplete_of observations));
        policy_id = p.policy_id;
        follows_requested_order =
            some (all (λ (o : List Text × Projections). o.1.follows_requested_order) observations);
        status = status_of variance incomplete;
        variance = some variance;
        witnesses =
            dimension_witnesses orders observations
            ++ coverage_witness (incomplete_of observations);
      }
