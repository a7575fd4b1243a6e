-- ===== src/Coverage/Reachable.antt =====
-- The reason codes that a kind of rule can give.
use constitutional_agent_tes.Base.{
  ◌≡◌, refl, subst, inl, inr, true, some, contains, Bool-cases, same,
}
use mathlib.Core.Option.{some-injective}
use constitutional_agent_tes.Json.{Value}
use constitutional_agent_tes.Json.Encode.{FloatText}
use constitutional_agent_tes.Policy.{
  Kind, required_field, equals, one_of, false_kind, empty_list, type_kind, range_kind, length_kind,
  unknown, Rule,
}
use constitutional_agent_tes.Evaluator.{
  ReasonCode, rule_satisfied, field_missing, failure_reason, reason_name, evaluate_rule,
}
use constitutional_agent_tes.Evaluator.Results.{IsKnown, evaluate_rule-HasReason}
use constitutional_agent_tes.Coverage.{reachable_reason_codes}

satisfied_reachable :
    (k : Kind) → contains (reachable_reason_codes k) (reason_name rule_satisfied) ≡ true
unfolding reachable_reason_codes contains same
satisfied_reachable required_field = refl
satisfied_reachable equals = refl
satisfied_reachable one_of = refl
satisfied_reachable false_kind = refl
satisfied_reachable empty_list = refl
satisfied_reachable type_kind = refl
satisfied_reachable range_kind = refl
satisfied_reachable length_kind = refl
satisfied_reachable (unknown name) = refl

missing_reachable :
    (k : Kind) → contains (reachable_reason_codes k) (reason_name field_missing) ≡ true
unfolding reachable_reason_codes contains same
missing_reachable required_field = refl
missing_reachable equals = refl
missing_reachable one_of = refl
missing_reachable false_kind = refl
missing_reachable empty_list = refl
missing_reachable type_kind = refl
missing_reachable range_kind = refl
missing_reachable length_kind = refl
missing_reachable (unknown name) = refl

failure_reachable :
    (k : Kind) (code : ReasonCode)
    → failure_reason k ≡ some code
    → contains (reachable_reason_codes k) (reason_name code) ≡ true
unfolding reachable_reason_codes contains same failure_reason
failure_reachable equals code h =
    subst (λ c. contains (reachable_reason_codes equals) (reason_name c) ≡ true)
      (some-injective _ _ h) refl
failure_reachable one_of code h =
    subst (λ c. contains (reachable_reason_codes one_of) (reason_name c) ≡ true)
      (some-injective _ _ h) refl
failure_reachable false_kind code h =
    subst (λ c. contains (reachable_reason_codes false_kind) (reason_name c) ≡ true)
      (some-injective _ _ h) refl
failure_reachable empty_list code h =
    subst (λ c. contains (reachable_reason_codes empty_list) (reason_name c) ≡ true)
      (some-injective _ _ h) refl
failure_reachable type_kind code h =
    subst (λ c. contains (reachable_reason_codes type_kind) (reason_name c) ≡ true)
      (some-injective _ _ h) refl
failure_reachable range_kind code h =
    subst (λ c. contains (reachable_reason_codes range_kind) (reason_name c) ≡ true)
      (some-injective _ _ h) refl
failure_reachable length_kind code h =
    subst (λ c. contains (reachable_reason_codes length_kind) (reason_name c) ≡ true)
      (some-injective _ _ h) refl
failure_reachable _ code h = cc

reachable_code :
    (k : Kind) {c d : ReasonCode}
    → d ≡ c
    → contains (reachable_reason_codes k) (reason_name c) ≡ true
    → contains (reachable_reason_codes k) (reason_name d) ≡ true
reachable_code k e h = rw e h

module _ ⦃repr : FloatText⦄ where
  -- The reason code that the evaluator gives a rule of a supported kind is one of the reachable codes
  -- of the kind.
  pub evaluate_rule-reachable_reason_codes :
      (r : Rule) (response : Value)
      → IsKnown r.kind
      → contains
          (reachable_reason_codes r.kind)
          (reason_name (evaluate_rule r response).reason_code)
        ≡ true
  evaluate_rule-reachable_reason_codes r response known =
      let reason = evaluate_rule-HasReason r response known in
      elim (Bool-cases (evaluate_rule r response).passed) [
        | inl passed ↦
            reachable_code r.kind (reason.satisfied.0 passed) (satisfied_reachable r.kind)
        | inr failed ↦ elim (reason.failed failed) [
          | inl gone ↦ reachable_code r.kind gone (missing_reachable r.kind)
          | inr own ↦ failure_reachable r.kind _ own
        ]
      ]
