-- ===== src/Triage/Ready.antt =====
-- What check_suite promises of a suite that it reports as ready.
use constitutional_agent_tes.Base.{
  ◌≡◌, refl, sym, ◌∙◌, subst, Bool, true, false, ◌&&◌, not, arith, All, ok, >>=-eq-ok, ok-injective,
  map_err, map_err-eq-ok,
}
use constitutional_agent_tes.Json.{Value}
use constitutional_agent_tes.Json.Encode.{FloatText}
use constitutional_agent_tes.Artifact.{bounded_artifact}
use constitutional_agent_tes.Policy.{Policy}
use constitutional_agent_tes.Policy.Validate.{PolicyInput, object, validate_policy}
use constitutional_agent_tes.Policy.RoundTrip.{validate_policy-object}
use constitutional_agent_tes.Errors.{invalid_policy}
use constitutional_agent_tes.Suite.{Suite, suite_value}
use constitutional_agent_tes.Suite.Validate.{validate_suite}
use constitutional_agent_tes.Suite.Evaluate.{evaluate_suite}
use constitutional_agent_tes.Suite.Evaluate.Laws.{AsExpected, evaluate_fixtures-GoodReport}
use constitutional_agent_tes.Authoring.{Lint, lint_policy}
use constitutional_agent_tes.Inspection.{SuiteInventory, Audit, suite_inventory, audit_of}
use constitutional_agent_tes.Inspection.Reports.{
  suite_inventory_value, audit_value, inspect_suite, audit_assertions,
}
use constitutional_agent_tes.Inspection.Consistent.{Consistent, suite_inventory-Consistent}
use constitutional_agent_tes.Inspection.Compatible.{Compatible, audit_of-Compatible}
use constitutional_agent_tes.Triage.{
  Triage, Preflight, preflight, preflight_value, triage_of, triage_value, triage_suite, check_suite,
}

four :
    (a b c d : Bool) → (a && b && c && d) ≡ true → (a ≡ true) × (b ≡ true) × (c ≡ true) × (d ≡ true)
four a b c d h = (ground arith, ground arith, ground arith, ground arith)

not-eq-true : (b : Bool) → not b ≡ true → b ≡ false
not-eq-true true h = cc
not-eq-true false h = refl

module _ ⦃repr : FloatText⦄ where
  -- The lint finds no conflict, and the cases are consistent, compatible with the rules and as expected.
  pub record Ready (policy : PolicyInput) (suite : Value) : Type 0 where
    pub current : Policy
    pub valid : validate_policy policy ≡ ok current
    pub fixtures : Suite
    pub checked : validate_suite suite ≡ ok fixtures
    pub lint : Lint
    pub linted : lint_policy (object current) ≡ ok lint
    pub no_conflicts : lint.has_conflicts ≡ false
    pub rules : Policy
    pub valid_again : validate_policy (object current) ≡ ok rules
    pub same_rules : current ≡ rules
    pub cases : Suite
    pub checked_again : validate_suite (suite_value fixtures) ≡ ok cases
    pub consistent : Consistent cases.cases
    pub compatible : Compatible rules.rules cases.cases
    pub expected : All (AsExpected rules) cases.cases

  inspect_suite-Consistent :
      (suite : Value) (s : Suite) {inventory : SuiteInventory}
      → inspect_suite suite ≡ ok inventory
      → inventory.consistent_expectations ≡ true
      → validate_suite suite ≡ ok s
      → Consistent s.cases
  unfolding inspect_suite
  inspect_suite-Consistent suite s h consistent checked =
      let (t, ht, h1) = >>=-eq-ok (validate_suite suite) _ h in
      let (u, hu, h2) =
        >>=-eq-ok (bounded_artifact (suite_inventory_value (suite_inventory t))) _ h1 in
      subst (λ (x : Suite). Consistent x.cases) (ok-injective _ _ (sym ht ∙ checked))
        (suite_inventory-Consistent t (
          subst (λ (x : SuiteInventory). x.consistent_expectations ≡ true)
            (sym (ok-injective _ _ h2)) consistent))

  audit_assertions-Compatible :
      (policy : PolicyInput) (suite : Value) (p : Policy) (s : Suite) {audit : Audit}
      → audit_assertions policy suite ≡ ok audit
      → audit.assertions_compatible ≡ true
      → validate_policy policy ≡ ok p
      → validate_suite suite ≡ ok s
      → Compatible p.rules s.cases
  unfolding audit_assertions
  audit_assertions-Compatible policy suite p s h compatible valid checked =
      let (q, hq, h1) = >>=-eq-ok (map_err invalid_policy (validate_policy policy)) _ h in
      let (t, ht, h2) = >>=-eq-ok (validate_suite suite) _ h1 in
      let (u, hu, h3) = >>=-eq-ok (bounded_artifact (audit_value (audit_of q t))) _ h2 in
      let same_policy =
        ok-injective _ _ (sym (map_err-eq-ok invalid_policy (validate_policy policy) hq) ∙ valid) in
      let same_suite = ok-injective _ _ (sym ht ∙ checked) in
      let found = audit_of-Compatible q t (
        subst (λ (x : Audit). x.assertions_compatible ≡ true) (sym (ok-injective _ _ h3))
          compatible) in
      subst (λ (x : Policy). Compatible x.rules s.cases) same_policy
        (subst (λ (x : Suite). Compatible q.rules x.cases) same_suite found)

  triage_suite-expected :
      (policy : PolicyInput) (suite : Value) {t : Triage}
      → triage_suite policy suite ≡ ok t
      → t.matches_expectations ≡ true
      → (q : Policy) × (validate_policy policy ≡ ok q)
        × ((s : Suite) × (validate_suite suite ≡ ok s) × All (AsExpected q) s.cases)
  unfolding triage_suite evaluate_suite triage_of
  triage_suite-expected policy suite h matched =
      let (report, hr, h1) = >>=-eq-ok (evaluate_suite policy suite) _ h in
      let (u, hu, h2) = >>=-eq-ok (bounded_artifact (triage_value (triage_of report))) _ h1 in
      let (q, hq, h3) = >>=-eq-ok (map_err invalid_policy (validate_policy policy)) _ hr in
      let (s, hs, h4) = >>=-eq-ok (validate_suite suite) _ h3 in
      (
        q,
        map_err-eq-ok invalid_policy (validate_policy policy) hq,
        (
          s,
          hs,
          (evaluate_fixtures-GoodReport q s h4).expected (
              subst (λ (t : Triage). t.matches_expectations ≡ true) (sym (ok-injective _ _ h2))
                matched),
        ),
      )

  -- Where check_suite reports a suite as ready, the policy and the suite are valid, and so are the
  -- validated ones again, the policy as itself; the lint finds no conflict; cases whose responses have one canonical text are
  -- expected to have one verdict; every assertion names a rule, gives a reason code that a rule of the
  -- kind can have, and is of a pass where the case is expected to pass; and each case is expected to
  -- pass exactly when its response satisfies every rule.
  pub check_suite-Ready :
      (policy : PolicyInput) (suite : Value) {r : Preflight}
      → check_suite policy suite ≡ ok r
      → r.ready ≡ true
      → Ready policy suite
  unfolding check_suite
  check_suite-Ready policy suite h ready =
      let (p, hp, h1) = >>=-eq-ok (map_err invalid_policy (validate_policy policy)) _ h in
      let (s, hs, h2) = >>=-eq-ok (validate_suite suite) _ h1 in
      let (lint, hl, h3) = >>=-eq-ok (lint_policy (object p)) _ h2 in
      let (inventory, hi, h4) = >>=-eq-ok (inspect_suite (suite_value s)) _ h3 in
      let (audit, ha, h5) = >>=-eq-ok (audit_assertions (object p) (suite_value s)) _ h4 in
      let (t, ht, h6) = >>=-eq-ok (triage_suite (object p) (suite_value s)) _ h5 in
      let (u, hu, h7) =
        >>=-eq-ok (bounded_artifact (preflight_value (preflight p lint inventory audit t))) _ h6 in
      let (a, b, c, d) =
        four (not lint.has_conflicts) inventory.consistent_expectations audit.assertions_compatible
          t.matches_expectations
          (unfold preflight in
            subst (λ (x : Preflight). x.ready ≡ true) (sym (ok-injective _ _ h7)) ready) in
      let (q, hq, (cases, hc, expected)) = triage_suite-expected (object p) (suite_value s) ht d in
      record {
        current = p;
        valid = map_err-eq-ok invalid_policy (validate_policy policy) hp;
        fixtures = s;
        checked = hs;
        lint = lint;
        linted = hl;
        no_conflicts = not-eq-true lint.has_conflicts a;
        rules = q;
        valid_again = hq;
        same_rules =
            validate_policy-object policy p
              (map_err-eq-ok invalid_policy (validate_policy policy) hp) hq;
        cases = cases;
        checked_again = hc;
        consistent = inspect_suite-Consistent (suite_value s) cases hi b hc;
        compatible = audit_assertions-Compatible (object p) (suite_value s) q cases ha c hq hc;
        expected = expected;
      }
