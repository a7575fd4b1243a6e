-- ===== src/Policy/RoundTrip.antt =====
-- validate_policy on a Policy object, which it reads again through policy_to_dict.
pub mod Rebuilt
pub mod Again
use constitutional_agent_tes.Base.{
  ℕ, zero, suc, ◌+◌, ◌≡◌, refl, sym, ap, subst, ◌∙◌, Bool, Bool-cases, inl, inr, true, false, ◌&&◌,
  ◌||◌, not, Option, none, some, List, [], ◌∷◌, map, arith, ltb, Text, txt, same, contains, length,
  All, pos, negsuc, ok, >>=-eq-ok, guard-eq-ok, ok-injective, if-eq-ok, map_err,
}
use constitutional_agent_tes.Json.{
  Value, null, str, arr, obj, nil, cons, Fields, end, field, member, items_list, list_items,
  copy_json_tree, copy_json_tree_lem, list_items-items_list,
}
use constitutional_agent_tes.Json.Float.{Num, whole, real, num_is_finite}
use constitutional_agent_tes.Json.Ensure.{ensure_json_value, max_json_input_bytes}
use constitutional_agent_tes.Json.Encode.{FloatText}
use constitutional_agent_tes.Json.Encode.Size.{bounded_canonical_json_size}
use constitutional_agent_tes.Policy.{
  Kind, required_field, equals, one_of, false_kind, empty_list, type_kind, range_kind, length_kind,
  unknown, kind_name, kind_of, Rule, Policy, plain_rule, num_value, bound_member,
  constraint_members, rule_to_dict, policy_to_dict, max_length_bound, allowed_kind,
  supported_version,
}
use constitutional_agent_tes.Policy.Checks.{
  Location, nowhere, invalid, invalid_json, is_identifier, safe_identifier, check_exact_keys,
  check_json_value, check_identifier, check_path, check_names, check_types, type_name_list,
  check_bound, check_bounds, is_none, number_of, length_bound, range_bound, crossed,
}
use constitutional_agent_tes.Policy.WellFormed.{GoodRule}
use constitutional_agent_tes.Policy.Guarantees.{WellFormed, validate_policy-WellFormed}
use constitutional_agent_tes.Policy.Validate.{
  PolicyInput, object, raw, has_irrelevant, stray_value, stray_list, stray_bounds, build_rule,
  check_one_of, check_values, item, check_kind, expected_keys, validate_rule_fields, validate_rule,
  validate_rules, check_rules, check_version, check_relevant, policy_fields, validate_fields,
  validate_raw, validate_policy,
}
use constitutional_agent_tes.Policy.RoundTrip.Rebuilt.{members, rebuilt}

-- A kind that is read from its own name.
abbrev pub Named : Rule → Type 0
Named r = kind_of (kind_name r.kind) ≡ r.kind

pub allowed_kind-kind_of :
    (version : Text) (k : Kind) → allowed_kind version k ≡ true → kind_of (kind_name k) ≡ k
unfolding kind_of same
allowed_kind-kind_of version required_field h = refl
allowed_kind-kind_of version equals h = refl
allowed_kind-kind_of version one_of h = refl
allowed_kind-kind_of version false_kind h = refl
allowed_kind-kind_of version empty_list h = refl
allowed_kind-kind_of version type_kind h = refl
allowed_kind-kind_of version range_kind h = refl
allowed_kind-kind_of version length_kind h = refl
allowed_kind-kind_of version (unknown name) h = ground arith

GoodRule-Named :
    (version : Text) (rules : List Rule) → All (GoodRule version) rules → All Named rules
GoodRule-Named version [] g = tt
GoodRule-Named version (r ∷ rules) g =
    (allowed_kind-kind_of version r.kind (g.0).allowed, GoodRule-Named version rules g.1)

check_path-same :
    (path : Text) (at : Location) {out : Text} → check_path (str path) at ≡ ok out → path ≡ out
unfolding check_path
check_path-same path at h = ground arith

abbrev pub policy_members : Policy → Fields
policy_members p = field (txt "policy_id") (str p.policy_id) (
    field (txt "rules") (arr (list_items (map rule_to_dict p.rules)))
      (field (txt "schema_version") (str p.schema_version) end))

-- Where the dict of a rule is read.
abbrev pub place : Text → ℕ → Rule → Location
place policy_id index r = record {
  policy_id = some policy_id;
  rule_id = safe_identifier (some (str r.rule_id));
  rule_index = some index;
}

module _ ⦃repr : FloatText⦄ where
  pub rule_same :
      (version policy_id : Text) (seen : List Text) (index : ℕ) (r : Rule) {out : Rule}
      → Named r
      → has_irrelevant r ≡ false
      → validate_rule version policy_id seen index (rule_to_dict r) ≡ ok out
      → r ≡ out
  unfolding rule_to_dict validate_rule validate_rule_fields check_kind check_identifier item member
      same
  rule_same version policy_id seen index r named calm h =
      let fs = members r r.kind in
      let at = place policy_id index r in
      let (k, hk, h1) = >>=-eq-ok (check_kind version (some (str (kind_name r.kind))) at) _ h in
      let (u, hu, h2) = >>=-eq-ok (check_exact_keys fs (expected_keys k fs) at) _ h1 in
      let (name, hn, h3) = >>=-eq-ok (check_identifier (str r.rule_id) at) _ h2 in
      let (fresh, h4) = guard-eq-ok (not (contains seen name)) _ _ h3 in
      let (path, hp, h5) = >>=-eq-ok (check_path (str r.path) at) _ h4 in
      let same_kind = (if-eq-ok (allowed_kind version (kind_of (kind_name r.kind))) _ _ hk).1 in
      let same_id = (if-eq-ok (is_identifier r.rule_id) _ _ hn).1 in
      let same_path = check_path-same r.path at hp in
      rebuilt r.kind r at calm (cc (named, same_kind, same_id, same_path, h5))

  check_relevant-calm :
      (policy_id : Text) (index : ℕ) (rules : List Rule)
      → check_relevant policy_id index rules ≡ ok tt
      → All (λ r. has_irrelevant r ≡ false) rules
  unfolding check_relevant
  check_relevant-calm policy_id index [] h = tt
  check_relevant-calm policy_id index (r ∷ rules) h = elim (Bool-cases (has_irrelevant r)) [
    | inl e ↦ cc (rw e at h)
    | inr e ↦ (e, check_relevant-calm policy_id (index + 1) rules (rw e at h))
  ]

  rules_same :
      (version policy_id : Text) (seen : List Text) (index : ℕ) (rules : List Rule)
      {out : List Rule}
      → All Named rules
      → All (λ r. has_irrelevant r ≡ false) rules
      → validate_rules version policy_id seen index (map rule_to_dict rules) ≡ ok out
      → rules ≡ out
  unfolding validate_rules
  rules_same version policy_id seen index [] n c h = ok-injective [] _ h
  rules_same version policy_id seen index (r ∷ rules) n c h =
      let (one, h1, h2) =
        >>=-eq-ok (validate_rule version policy_id seen index (rule_to_dict r)) _ h in
      let (rest, h3, h4) =
        >>=-eq-ok
          (validate_rules version policy_id (one.rule_id ∷ seen) (index + 1)
            (map rule_to_dict rules))
          _ h2 in
      let first = rule_same version policy_id seen index r n.0 c.0 h1 in
      let others = rules_same version policy_id (one.rule_id ∷ seen) (index + 1) rules n.1 c.1 h3 in
      cc (first, others, ok-injective _ _ h4)

  check_rules-same :
      (version policy_id : Text) (rules : List Rule) {out : List Rule}
      → All Named rules
      → All (λ r. has_irrelevant r ≡ false) rules
      → check_rules version policy_id (arr (list_items (map rule_to_dict rules))) ≡ ok out
      → rules ≡ out
  unfolding check_rules
  check_rules-same version policy_id [] n c h = cc
  check_rules-same version policy_id (r ∷ rules) n c h =
      let raws = items_list (list_items (map rule_to_dict rules)) in
      let (few, h1) = guard-eq-ok (not (ltb 256 (length (rule_to_dict r ∷ raws)))) _ _ h in
      rules_same version policy_id [] 0 (r ∷ rules) n c (
        ap (λ vs. validate_rules version policy_id [] 0 (rule_to_dict r ∷ vs))
          (sym (list_items-items_list (map rule_to_dict rules)))
        ∙ h1)

  -- The fields of a policy are what their members were checked to be.
  validate_fields-parts :
      (fs : Fields) {q : Policy}
      → validate_fields fs ≡ ok q
      → (check_version (item fs (txt "schema_version")) ≡ ok q.schema_version)
        × (check_identifier (item fs (txt "policy_id")) nowhere ≡ ok q.policy_id)
        × (check_rules q.schema_version q.policy_id (item fs (txt "rules")) ≡ ok q.rules)
  unfolding validate_fields
  validate_fields-parts fs h =
      let (u, hu, h1) =
        >>=-eq-ok (map_err (λ e. invalid nowhere (invalid_json e)) (ensure_json_value (obj fs))) _
          h in
      let (size, hs, h2) =
        >>=-eq-ok
          (map_err (λ e. invalid nowhere (invalid_json e))
            (bounded_canonical_json_size (obj fs) max_json_input_bytes))
          _ h1 in
      let (w, hw, h3) = >>=-eq-ok (check_exact_keys fs policy_fields nowhere) _ h2 in
      let (version, hv, h4) = >>=-eq-ok (check_version (item fs (txt "schema_version"))) _ h3 in
      let (name, hi, h5) = >>=-eq-ok (check_identifier (item fs (txt "policy_id")) nowhere) _ h4 in
      let (rules, hr, h6) = >>=-eq-ok (check_rules version name (item fs (txt "rules"))) _ h5 in
      let built = ok-injective _ _ h6 in
      subst
        (λ (x : Policy).
          (check_version (item fs (txt "schema_version")) ≡ ok x.schema_version)
          × (check_identifier (item fs (txt "policy_id")) nowhere ≡ ok x.policy_id)
          × (check_rules x.schema_version x.policy_id (item fs (txt "rules")) ≡ ok x.rules))
        built (hv, hi, hr)

  validate_raw-same :
      (p : Policy) {q : Policy}
      → All Named p.rules
      → All (λ r. has_irrelevant r ≡ false) p.rules
      → validate_fields (policy_members p) ≡ ok q
      → p ≡ q
  unfolding item member same check_version check_identifier
  validate_raw-same p {q} n c h =
      let (version, name, rules) = validate_fields-parts (policy_members p) h in
      let same_version = (if-eq-ok (supported_version p.schema_version) _ _ version).1 in
      let same_id = (if-eq-ok (is_identifier p.policy_id) _ _ name).1 in
      let same_rules = check_rules-same q.schema_version q.policy_id p.rules n c rules in
      cc (same_version, same_id, same_rules)

  -- A Policy object that validate_policy returned is read again as itself: where validate_policy
  -- accepts it once more, it returns the same policy.
  pub validate_policy-object :
      (input : PolicyInput) (p : Policy) {q : Policy}
      → validate_policy input ≡ ok p
      → validate_policy (object p) ≡ ok q
      → p ≡ q
  unfolding validate_policy validate_raw policy_to_dict
  validate_policy-object input p first again =
      let (u, hu, h1) = >>=-eq-ok (check_relevant p.policy_id 0 p.rules) _ again in
      validate_raw-same p
        (GoodRule-Named p.schema_version p.rules
          (validate_policy-WellFormed input first).good_rules)
        (check_relevant-calm p.policy_id 0 p.rules hu) h1
