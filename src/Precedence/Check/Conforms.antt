-- ===== src/Precedence/Check/Conforms.antt =====
-- The order check of the built-in evaluator: it conforms.
use constitutional_agent_tes.Base.{◌≡◌, sym, ap, ◌∙◌, true, some, List, Text, ok}
use constitutional_agent_tes.Json.{Value}
use constitutional_agent_tes.Json.Encode.{FloatText}
use constitutional_agent_tes.Policy.Validate.{PolicyInput}
use constitutional_agent_tes.Policy.Guarantees.{validate_policy-WellFormed}
use constitutional_agent_tes.Precedence.Result.{builtin}
use constitutional_agent_tes.Precedence.Projections.{Projections}
use constitutional_agent_tes.Precedence.Witness.Steady.{Steady}
use constitutional_agent_tes.Precedence.Report.{Report, Digest}
use constitutional_agent_tes.Precedence.Check.{check_order_conformance}
use constitutional_agent_tes.Precedence.Check.Builtin.{
  builtin_report, check_order_conformance-exhaustive,
}
use constitutional_agent_tes.Precedence.Check.Steady.{exhaustive_report-conforms}
use constitutional_agent_tes.Precedence.Check.Permuted.{meaning_of, permutations-ShowsMeaning}

module _ ⦃repr : FloatText⦄ ⦃digest : Digest⦄ where
  -- A report that is returned for the built-in evaluator is exhaustive and says that the evaluator
  -- conforms: no order of the policy's rules changes the outcome, the evidence or the participation,
  -- and none leaves a rule out.
  pub check_order_conformance-conforms :
      (policy : PolicyInput) (response : Value) {r : Report}
      → check_order_conformance policy response builtin ≡ ok r
      → (r.exhaustive ≡ true) × (r.conforms ≡ some true)
  check_order_conformance-conforms policy response h =
      let (p, valid, reports) =
        builtin_report policy response h
          (λ p (o : List Text × Projections). Steady (meaning_of response p.rules) o.1)
          (λ p valid.
            permutations-ShowsMeaning response p
              (validate_policy-WellFormed policy valid).distinct_ids) in
      (
        check_order_conformance-exhaustive policy response h,
        sym (ap (λ (r : Report). r.conforms) reports.reported)
            ∙ exhaustive_report-conforms (meaning_of response p.rules) reports.orders
                reports.observations reports.all_shown p reports.estimated reports.work
                reports.bytes,
      )
