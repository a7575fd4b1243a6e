-- ===== src/Policy/Guarantees.antt =====
-- The policy that validate_policy returns is well formed.
use constitutional_agent_tes.Base.{
  ℕ, suc, ◌+◌, ◌≤◌, ◌≡◌, refl, subst, true, not, List, [], ◌∷◌, arith, ltb, Text, txt, All, length,
  ok, >>=-eq-ok, guard-eq-ok, ok-injective, if-eq-ok, map_err,
}
use constitutional_agent_tes.Json.{Value, str, obj, arr, nil, cons, Fields, items_list}
use constitutional_agent_tes.Json.Ensure.{ensure_json_value, max_json_input_bytes}
use constitutional_agent_tes.Json.Encode.{FloatText}
use constitutional_agent_tes.Json.Encode.Size.{bounded_canonical_json_size}
use constitutional_agent_tes.Policy.{
  Rule, Policy, policy_to_dict, max_policy_rules, supported_version,
}
use constitutional_agent_tes.Policy.Checks.{
  nowhere, is_identifier, check_exact_keys, check_identifier, invalid, invalid_json,
}
use constitutional_agent_tes.Policy.Validate.{
  PolicyInput, object, raw, item, policy_fields, validate_rule, validate_rules, check_version,
  check_rules, validate_fields, validate_raw, check_relevant, validate_policy,
}
use constitutional_agent_tes.Policy.Constraints.{StrictRule}
use constitutional_agent_tes.Policy.WellFormed.{
  GoodRule, Fresh, validate_rule_ok, check_identifier_ok,
}

-- The schema of a policy that was accepted.
pub record WellFormed ⦃repr : FloatText⦄ (p : Policy) : Type 0 where
  pub version : supported_version p.schema_version ≡ true
  pub identifier : is_identifier p.policy_id ≡ true
  pub some_rule : 1 ≤ length p.rules
  pub few_rules : length p.rules ≤ max_policy_rules
  pub distinct_ids : Fresh [] p.rules
  pub good_rules : All (GoodRule p.schema_version) p.rules
  pub strict_rules : All StrictRule p.rules

record Listed ⦃repr : FloatText⦄ (version : Text) (seen : List Text) (n : ℕ) (rules : List Rule)
    : Type 0 where
  counted : length rules ≡ n
  fresh : Fresh seen rules
  good : All (GoodRule version) rules
  strict : All StrictRule rules

module _ ⦃repr : FloatText⦄ where
  validate_rules_ok :
      (version policy_id : Text) (seen : List Text) (index : ℕ) (vs : List Value)
      {rules : List Rule}
      → validate_rules version policy_id seen index vs ≡ ok rules
      → Listed version seen (length vs) rules
  unfolding validate_rules
  validate_rules_ok version policy_id seen index [] h =
      subst (Listed version seen 0) (ok-injective [] _ h)
        (record { counted = refl; fresh = tt; good = tt; strict = tt })
  validate_rules_ok version policy_id seen index (v ∷ vs) h =
      let (r, hr, h1) = >>=-eq-ok (validate_rule version policy_id seen index v) _ h in
      let (rest, hs, h2) =
        >>=-eq-ok (validate_rules version policy_id (r.rule_id ∷ seen) (index + 1) vs) _ h1 in
      let one = validate_rule_ok version policy_id seen index v hr in
      let more = validate_rules_ok version policy_id (r.rule_id ∷ seen) (index + 1) vs hs in
      subst (Listed version seen (suc (length vs))) (ok-injective _ _ h2) (record {
        counted = omega (arith, more.counted);
        fresh = (one.0, more.fresh);
        good = (one.1, more.good);
        strict = (one.2, more.strict);
      })

  check_version_ok : (v : Value) {s : Text} → check_version v ≡ ok s → supported_version s ≡ true
  unfolding check_version
  check_version_ok (str s) h =
      let (good, same_version) = if-eq-ok (supported_version s) s _ h in
      subst (λ x. supported_version x ≡ true) same_version good
  check_version_ok Value.null h = cc
  check_version_ok _ h = cc

  record Checked (version : Text) (rules : List Rule) : Type 0 where
    some_rule : 1 ≤ length rules
    few_rules : length rules ≤ max_policy_rules
    fresh : Fresh [] rules
    good : All (GoodRule version) rules
    strict : All StrictRule rules

  check_rules_ok :
      (version policy_id : Text) (v : Value) {rules : List Rule}
      → check_rules version policy_id v ≡ ok rules
      → Checked version rules
  unfolding check_rules
  check_rules_ok version policy_id (arr (cons v vs)) h =
      let (few, h1) = guard-eq-ok (not (ltb max_policy_rules (length (v ∷ items_list vs)))) _ _ h in
      let listed = validate_rules_ok version policy_id [] 0 (v ∷ items_list vs) h1 in
      let n = listed.counted in
      record {
        some_rule = omega arith;
        few_rules = ground arith;
        fresh = listed.fresh;
        good = listed.good;
        strict = listed.strict;
      }
  check_rules_ok version policy_id (arr nil) h = cc
  check_rules_ok version policy_id Value.null h = cc
  check_rules_ok version policy_id _ h = cc

  validate_fields_ok : (fs : Fields) {p : Policy} → validate_fields fs ≡ ok p → WellFormed p
  unfolding validate_fields
  validate_fields_ok fs h =
      let (u, hu, h1) =
        >>=-eq-ok (map_err (λ e. invalid nowhere (invalid_json e)) (ensure_json_value (obj fs))) _
          h in
      let (n, hn, h2) =
        >>=-eq-ok
          (map_err (λ e. invalid nowhere (invalid_json e))
            (bounded_canonical_json_size (obj fs) max_json_input_bytes))
          _ h1 in
      let (w, hw, h3) = >>=-eq-ok (check_exact_keys fs policy_fields nowhere) _ h2 in
      let (version, hv, h4) = >>=-eq-ok (check_version (item fs (txt "schema_version"))) _ h3 in
      let (name, hi, h5) = >>=-eq-ok (check_identifier (item fs (txt "policy_id")) nowhere) _ h4 in
      let (rules, hr, h6) = >>=-eq-ok (check_rules version name (item fs (txt "rules"))) _ h5 in
      let checked = check_rules_ok version name (item fs (txt "rules")) hr in
      subst WellFormed (ok-injective _ _ h6) (record {
        version = check_version_ok (item fs (txt "schema_version")) hv;
        identifier = check_identifier_ok (item fs (txt "policy_id")) nowhere hi;
        some_rule = checked.some_rule;
        few_rules = checked.few_rules;
        distinct_ids = checked.fresh;
        good_rules = checked.good;
        strict_rules = checked.strict;
      })

  validate_raw_ok : (v : Value) {p : Policy} → validate_raw v ≡ ok p → WellFormed p
  unfolding validate_raw
  validate_raw_ok (obj fs) h = validate_fields_ok fs h
  validate_raw_ok Value.null h = cc
  validate_raw_ok _ h = cc

  -- A policy that validate_policy returns, from a raw value or from a Policy object, has a supported
  -- version, a valid identifier and 1 to 256 rules with distinct valid identifiers, valid paths of
  -- at most 32 segments and kinds of its version. An expected value is strict JSON with a canonical
  -- text, 1 to 256 allowed values have pairwise distinct canonical texts, a type list is not empty, has
  -- known names without repetition or overlap and leaves some value out, and bounds are not both
  -- missing and do not cross: finite for a range, whole from 0 to 1,000,000 for a length. A rule has no
  -- field of another kind.
  pub validate_policy-WellFormed :
      (input : PolicyInput) {p : Policy} → validate_policy input ≡ ok p → WellFormed p
  unfolding validate_policy
  validate_policy-WellFormed (raw v) h = validate_raw_ok v h
  validate_policy-WellFormed (object q) h =
      let (u, hu, h1) = >>=-eq-ok (check_relevant q.policy_id 0 q.rules) _ h in
      validate_raw_ok (policy_to_dict q) h1
