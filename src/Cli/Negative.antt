-- ===== src/Cli/Negative.antt =====
-- The outcomes that main counts as negative, described without its code.
use constitutional_agent_tes.Base.{
  ◌≡◌, refl, ◌↔◌, ◌⊎◌, ◌≢◌, Bool, true, false, not, ◌||◌, Option, none, some, List, [], ◌∷◌, arith,
  or_iff, Text,
}
use constitutional_agent_tes.Evaluator.Satisfies.{Some, any_iff}
use constitutional_agent_tes.Coverage.{is_empty}
use constitutional_agent_tes.Compare.{CaseChange}
use constitutional_agent_tes.Cli.Operations.{
  OperationResult, policy_inspected, suite_inspected, suite_edited, suite_triaged, record_created,
  record_verified, bundle_replayed, suite_counted, suites_compared, assertions_audited, migrated,
  suite_preflighted, strict_field,
}
use constitutional_agent_tes.Cli.Run.{
  Outcome, suite_run, covered, receipt_made, receipt_checked, linted, explained, generated, probed,
  policy_shown, evaluated, order_checked, compared, operated, is_yes, fails_field,
  is_negative_outcome, has_reason_gap,
}

-- Inconsistent expectations, a mismatch, a receipt that is not verified, a replay that does not pass,
-- suites that differ, incompatible assertions, a regression, or a suite that is not ready.
abbrev pub Failed : OperationResult → Type 0
Failed (suite_inspected r) = r.consistent_expectations ≡ false
Failed (suite_triaged t) = t.matches_expectations ≡ false
Failed (record_verified v) = v.verified ≡ false
Failed (bundle_replayed r) = r.replay_passed ≡ false
Failed (suites_compared d) = d.identical ≡ false
Failed (assertions_audited a) = a.assertions_compatible ≡ false
Failed (migrated m) = m.no_regressions ≡ false
Failed (suite_preflighted p) = p.ready ≡ false
Failed (policy_inspected r) = ⊥
Failed (suite_edited s) = ⊥
Failed (record_created fs) = ⊥
Failed (suite_counted version n) = ⊥

-- A case with another verdict or another result of a rule.
abbrev pub Changed : CaseChange → Type 0
Changed x = (x.changed_rule_results ≢ []) ⊎ (x.verdict_changed ≡ true)

-- A suite with a mismatch, a rule that never passes or never fails, a receipt that is not verified, a
-- lint with a conflict, a response that does not pass, an order check that does not conform, a
-- comparison with a changed case, or an operation that failed; every other outcome is not negative.
abbrev pub Negative : Outcome → Type 0
Negative (suite_run r) = r.matches_expectations ≡ false
Negative (covered c) = (c.unexercised_passes ≢ []) ⊎ (c.unexercised_failures ≢ [])
Negative (receipt_checked v) = v.verified ≡ false
Negative (linted l) = l.has_conflicts ≡ true
Negative (explained x explanations) = x.passed ≡ false
Negative (evaluated x) = x.passed ≡ false
Negative (order_checked r) = r.conforms ≢ some true
Negative (compared c) = Some Changed c.cases
Negative (operated r) = Failed r
Negative (receipt_made fs) = ⊥
Negative (generated b) = ⊥
Negative (probed r) = ⊥
Negative (policy_shown p) = ⊥

-- A coverage with a rule whose reason codes were not all seen.
abbrev pub ReasonGap : Outcome → Type 0
ReasonGap (covered c) = c.rules_missing_reason_codes ≢ []
ReasonGap _ = ⊥

not_empty_iff : (xs : List Text) → (not (is_empty xs) ≡ true) ↔ (xs ≢ [])
not_empty_iff [] = ((λ h. cc), (λ h. absurd (h refl)))
not_empty_iff (x ∷ xs) = ((λ h e. cc), (λ h. refl))

not-true_iff : (b : Bool) → (not b ≡ true) ↔ (b ≡ false)
not-true_iff b = ground arith

nothing_iff : (false ≡ true) ↔ ⊥
nothing_iff = ((λ h. cc), (λ h. absurd h))

not_yes_iff : (o : Option Bool) → (not (is_yes o) ≡ true) ↔ (o ≢ some true)
not_yes_iff none = ((λ h e. cc), (λ h. refl))
not_yes_iff (some true) = ((λ h. cc), (λ h. absurd (h refl)))
not_yes_iff (some false) = ((λ h e. cc), (λ h. refl))

strict_field-Failed : (r : OperationResult) → (fails_field (strict_field r) ≡ true) ↔ Failed r
unfolding strict_field
strict_field-Failed (suite_inspected r) = not-true_iff r.consistent_expectations
strict_field-Failed (suite_triaged t) = not-true_iff t.matches_expectations
strict_field-Failed (record_verified v) = not-true_iff v.verified
strict_field-Failed (bundle_replayed r) = not-true_iff r.replay_passed
strict_field-Failed (suites_compared d) = not-true_iff d.identical
strict_field-Failed (assertions_audited a) = not-true_iff a.assertions_compatible
strict_field-Failed (migrated m) = not-true_iff m.no_regressions
strict_field-Failed (suite_preflighted p) = not-true_iff p.ready
strict_field-Failed (policy_inspected r) = nothing_iff
strict_field-Failed (suite_edited s) = nothing_iff
strict_field-Failed (record_created fs) = nothing_iff
strict_field-Failed (suite_counted version n) = nothing_iff

case_iff :
    (x : CaseChange)
    → ((not (is_empty x.changed_rule_results) || x.verdict_changed) ≡ true) ↔ Changed x
case_iff x =
    or_iff (not (is_empty x.changed_rule_results)) x.verdict_changed
      (not_empty_iff x.changed_rule_results) ((λ h. h), (λ h. h))

pub is_negative_outcome-Negative :
    (outcome : Outcome) → (is_negative_outcome outcome ≡ true) ↔ Negative outcome
unfolding is_negative_outcome
is_negative_outcome-Negative (suite_run r) = not-true_iff r.matches_expectations
is_negative_outcome-Negative (covered c) =
    or_iff (not (is_empty c.unexercised_passes)) (not (is_empty c.unexercised_failures))
      (not_empty_iff c.unexercised_passes) (not_empty_iff c.unexercised_failures)
is_negative_outcome-Negative (receipt_checked v) = not-true_iff v.verified
is_negative_outcome-Negative (linted l) = ((λ h. h), (λ h. h))
is_negative_outcome-Negative (explained x explanations) = not-true_iff x.passed
is_negative_outcome-Negative (evaluated x) = not-true_iff x.passed
is_negative_outcome-Negative (order_checked r) = not_yes_iff r.conforms
is_negative_outcome-Negative (compared c) =
    any_iff (λ (x : CaseChange). not (is_empty x.changed_rule_results) || x.verdict_changed) Changed
      case_iff c.cases
is_negative_outcome-Negative (operated r) = strict_field-Failed r
is_negative_outcome-Negative (receipt_made fs) = nothing_iff
is_negative_outcome-Negative (generated b) = nothing_iff
is_negative_outcome-Negative (probed r) = nothing_iff
is_negative_outcome-Negative (policy_shown p) = nothing_iff

pub has_reason_gap-ReasonGap :
    (outcome : Outcome) → (has_reason_gap outcome ≡ true) ↔ ReasonGap outcome
unfolding has_reason_gap
has_reason_gap-ReasonGap (covered c) = not_empty_iff c.rules_missing_reason_codes
has_reason_gap-ReasonGap (suite_run r) = nothing_iff
has_reason_gap-ReasonGap _ = nothing_iff
