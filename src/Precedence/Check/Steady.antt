-- ===== src/Precedence/Check/Steady.antt =====
-- The report of observations that show one meaning.
use constitutional_agent_tes.Base.{
  ℕ, suc, ◌<◌, ◌≡◌, refl, sym, ap, ◌∙◌, true, false, Option, none, some, List, [], ◌∷◌, Text, All,
  length,
}
use constitutional_agent_tes.Json.Encode.{FloatText}
use constitutional_agent_tes.Policy.{Policy}
use constitutional_agent_tes.Precedence.Orders.{swap_at}
use constitutional_agent_tes.Precedence.Projections.{
  Projections, participation, different, dimension_projection_pair,
}
use constitutional_agent_tes.Precedence.Result.{same_bool}
use constitutional_agent_tes.Precedence.Witness.{
  Observations, observed, same_evidence, pass_witness, evidence_witness, global_outcome_witness,
  global_evidence_witness,
}
use constitutional_agent_tes.Precedence.Witness.Laws.{Agree, variance_of-AgreeOnSwaps}
use constitutional_agent_tes.Precedence.Witness.Steady.{
  Meaning, Steady, AllSteady, observed-Steady, same_bool_refl, same_evidence_refl,
  scan_orders-Known, scan_overall-none,
}
use constitutional_agent_tes.Precedence.Report.{
  Work, is_found, incomplete_of, variance_of, exhaustive_report,
}
use constitutional_agent_tes.Precedence.Check.Builtin.{different_refl}

All-every : {A : Type 0} (P : A → Type 0) → ((a : A) → P a) → (xs : List A) → All P xs
All-every P h [] = tt
All-every P h (x ∷ xs) = (h x, All-every P h xs)

all_complete : (m : Meaning) (os : Observations) → AllSteady m os → incomplete_of os ≡ []
all_complete m [] s = refl
all_complete m ((order, p) ∷ os) s =
    let complete = (s.0).complete in rw complete (all_complete m os s.1)

module _ ⦃repr : FloatText⦄ (m : Meaning) (orders : List (List Text)) (os : Observations)
    (s : AllSteady m os) where
  agree :
      (left right : Option Projections)
      → ((p : Projections) → left ≡ some p → Steady m p)
      → ((p : Projections) → right ≡ some p → Steady m p)
      → Agree participation left right
  unfolding dimension_projection_pair
  agree none right l r = tt
  agree (some p) none l r = tt
  agree (some p) (some q) l r =
      ap (λ v. different p.participation v) ((r q refl).rows ∙ sym (l p refl).rows)
      ∙ different_refl p.participation

  no_participation_drift : (variance_of orders os).participation ≡ false
  no_participation_drift = (variance_of-AgreeOnSwaps orders os).0.1 (
      All-every
        (λ left.
          (k : ℕ)
          → suc k < length left
          → Agree participation (observed left os) (observed (swap_at k left) os))
        (λ left k h.
          agree (observed left os) (observed (swap_at k left) os)
            (λ p e. observed-Steady m left os s e)
            (λ p e. observed-Steady m (swap_at k left) os s e))
        orders)

  no_outcome_witness : global_outcome_witness orders os ≡ none
  unfolding global_outcome_witness
  no_outcome_witness =
      let (firsts, scanned) =
        scan_orders-Known m.pass_of same_bool same_bool_refl pass_witness (λ p. p.rule_passes) m
          (λ p t. t.passes) orders os [] s tt in
      rw (global_outcome_witness, scanned) (scan_overall-none m orders os [] s tt)

  no_outcome_drift : (variance_of orders os).outcome ≡ false
  unfolding variance_of
  no_outcome_drift = ap is_found no_outcome_witness

  no_evidence_witness : global_evidence_witness orders os ≡ none
  unfolding global_evidence_witness
  no_evidence_witness =
      let (firsts, scanned) =
        scan_orders-Known m.evidence_for same_evidence same_evidence_refl evidence_witness
          (λ p. p.reason_by_rule) m (λ p t. t.evidence) orders os [] s tt in
      rw (global_evidence_witness, scanned) refl

  no_evidence_drift : (variance_of orders os).reason_evidence ≡ false
  unfolding variance_of
  no_evidence_drift = ap is_found no_evidence_witness

  -- The report of an exhaustive check says that the evaluator conforms.
  pub exhaustive_report-conforms :
      (p : Policy) (estimated : ℕ) (w : Work) (charged_bytes : ℕ)
      → (exhaustive_report p orders os estimated w charged_bytes).conforms ≡ some true
  unfolding exhaustive_report
  exhaustive_report-conforms p estimated w charged_bytes =
      rw (all_complete m os s, no_outcome_drift, no_evidence_drift, no_participation_drift) refl
