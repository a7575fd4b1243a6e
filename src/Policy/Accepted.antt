-- ===== src/Policy/Accepted.antt =====
-- validate_policy accepts the policy that it returned once more, where its dict is within the limits.
use constitutional_agent_tes.Base.{
  ℕ, ◌+◌, ◌≡◌, ◌≤◌, refl, sym, ap, ◌∙◌, true, false, not, some, List, [], ◌∷◌, map, arith, ltb,
  Text, txt, same, contains, length, length-map, ◌↔◌, All, Result, ok, err, ◌>>=◌, >>=-eq-ok,
  guard-true, map_err, map_err-eq-ok, text_le, insert_sorted, sort_names, if◌then◌else◌,
}
use constitutional_agent_tes.Json.{
  Value, str, arr, obj, Fields, member, items_list, list_items, list_items-items_list,
}
use constitutional_agent_tes.Json.Ensure.{ensure_json_value, max_json_input_bytes, max_json_nesting}
use constitutional_agent_tes.Json.Path.{split_path}
use constitutional_agent_tes.Json.Encode.{FloatText}
use constitutional_agent_tes.Json.Encode.Size.{bounded_canonical_json_size}
use constitutional_agent_tes.Policy.{
  Kind, kind_name, Rule, Policy, rule_to_dict, policy_to_dict, allowed_kind, supported_version,
  max_policy_rules,
}
use constitutional_agent_tes.Policy.Checks.{
  unknown_kind, Location, PolicyError, nowhere, invalid, invalid_json, is_identifier, is_path,
  check_exact_keys, check_identifier, check_path, missing_keys, unknown_keys,
}
use constitutional_agent_tes.Policy.Constraints.{StrictRule}
use constitutional_agent_tes.Policy.WellFormed.{GoodRule, Fresh}
use constitutional_agent_tes.Policy.Guarantees.{WellFormed, validate_policy-WellFormed}
use constitutional_agent_tes.Policy.Validate.{
  PolicyInput, object, item, check_kind, expected_keys, validate_rule_fields, validate_rule,
  validate_rules, check_rules, check_version, check_relevant, policy_fields, validate_fields,
  validate_raw, validate_policy,
}
use constitutional_agent_tes.Policy.RoundTrip.{
  allowed_kind-kind_of, policy_members, place, rule_same,
}
use constitutional_agent_tes.Policy.RoundTrip.Rebuilt.{members}
use constitutional_agent_tes.Policy.RoundTrip.Again.{
  bind-ok, check_exact_keys-members, build_rule-again,
}

check_kind-again :
    (version : Text) (k : Kind) (at : Location)
    → allowed_kind version k ≡ true
    → check_kind version (some (str (kind_name k))) at ≡ ok k
unfolding check_kind
check_kind-again version k at allowed =
    ap (λ x. if allowed_kind version x then ok x else err (invalid at unknown_kind))
      (allowed_kind-kind_of version k allowed)
    ∙ rw allowed refl

check_identifier-again :
    (name : Text) (at : Location)
    → is_identifier name ≡ true
    → check_identifier (str name) at ≡ ok name
unfolding check_identifier
check_identifier-again name at good = rw good refl

check_path-again :
    (path : Text) (at : Location)
    → is_path path ≡ true
    → length (split_path path) ≤ max_json_nesting
    → check_path (str path) at ≡ ok path
unfolding check_path
check_path-again path at good short = rw (good, not_long (length (split_path path)) short) refl
  where
    not_long : (n : ℕ) → n ≤ max_json_nesting → ltb max_json_nesting n ≡ false
    not_long n h = ground (arith, h)

module _ ⦃repr : FloatText⦄ where
  rule_again :
      (version policy_id : Text) (seen : List Text) (index : ℕ) (r : Rule)
      → GoodRule version r
      → StrictRule r
      → contains seen r.rule_id ≡ false
      → validate_rule version policy_id seen index (rule_to_dict r) ≡ ok r
  unfolding rule_to_dict validate_rule validate_rule_fields item member same
  rule_again version policy_id seen index r good strict fresh =
      let at = place policy_id index r in
      let fs = members r r.kind in
      let (out, built) = build_rule-again r.kind r at good.constraint strict.0 in
      let read : validate_rule version policy_id seen index (rule_to_dict r) ≡ ok out =
        bind-ok (check_kind version (some (str (kind_name r.kind))) at) _
          (check_kind-again version r.kind at good.allowed)
          (bind-ok (check_exact_keys fs (expected_keys r.kind fs) at) _
            (check_exact_keys-members r.kind r at)
            (bind-ok (check_identifier (str r.rule_id) at) _
              (check_identifier-again r.rule_id at good.identifier)
              (guard-true (not (contains seen r.rule_id)) _ _ (ap not fresh) (
                bind-ok (check_path (str r.path) at) _
                  (check_path-again r.path at good.path good.short) built)))) in
      let same_rule =
        rule_same version policy_id seen index r (allowed_kind-kind_of version r.kind good.allowed)
          strict.1 read in
      read ∙ ap ok (sym same_rule)

  rules_again :
      (version policy_id : Text) (seen : List Text) (index : ℕ) (rules : List Rule)
      → All (GoodRule version) rules
      → All StrictRule rules
      → Fresh seen rules
      → validate_rules version policy_id seen index (map rule_to_dict rules) ≡ ok rules
  unfolding validate_rules
  rules_again version policy_id seen index [] good strict fresh = refl
  rules_again version policy_id seen index (r ∷ rules) good strict fresh =
      bind-ok (validate_rule version policy_id seen index (rule_to_dict r)) _
        (rule_again version policy_id seen index r good.0 strict.0 fresh.0)
        (bind-ok
          (validate_rules version policy_id (r.rule_id ∷ seen) (index + 1) (map rule_to_dict rules))
          _
          (rules_again version policy_id (r.rule_id ∷ seen) (index + 1) rules good.1 strict.1
            fresh.1)
          refl)

  check_rules-again :
      (version policy_id : Text) (rules : List Rule)
      → 1 ≤ length rules
      → length rules ≤ max_policy_rules
      → validate_rules version policy_id [] 0 (map rule_to_dict rules) ≡ ok rules
      → check_rules version policy_id (arr (list_items (map rule_to_dict rules))) ≡ ok rules
  unfolding check_rules
  check_rules-again version policy_id [] full few h = absurd (omega arith)
  check_rules-again version policy_id (r ∷ rules) full few h =
      let raws = rule_to_dict r ∷ items_list (list_items (map rule_to_dict rules)) in
      let same_raws : raws ≡ map rule_to_dict (r ∷ rules) =
        ap (λ vs. rule_to_dict r ∷ vs) (list_items-items_list (map rule_to_dict rules)) in
      guard-true (not (ltb max_policy_rules (length raws))) _ _
        (ap (λ (vs : List Value). not (ltb max_policy_rules (length vs))) same_raws
          ∙ within (length (map rule_to_dict (r ∷ rules)))
              (omega (arith, few, length-map rule_to_dict rules)))
        (ap (λ vs. validate_rules version policy_id [] 0 vs) same_raws ∙ h)
    where
      within : (n : ℕ) → n ≤ max_policy_rules → not (ltb max_policy_rules n) ≡ true
      within n h = ground (arith, h)

  check_relevant-again :
      (policy_id : Text) (index : ℕ) (rules : List Rule)
      → All StrictRule rules
      → check_relevant policy_id index rules ≡ ok tt
  unfolding check_relevant
  check_relevant-again policy_id index [] h = refl
  check_relevant-again policy_id index (r ∷ rules) h =
      rw ((h.0).1) (check_relevant-again policy_id (index + 1) rules h.1)

  check_fields-again :
      (p : Policy) → check_exact_keys (policy_members p) policy_fields nowhere ≡ ok tt
  unfolding check_exact_keys missing_keys unknown_keys contains same sort_names insert_sorted
      text_le
  check_fields-again p = refl

  check_version-again :
      (version : Text) → supported_version version ≡ true → check_version (str version) ≡ ok version
  unfolding check_version
  check_version-again version h = rw h refl

  -- The rest of validate_fields behind each of its checks.
  abbrev made : Text → Text → List Rule → Result PolicyError Policy
  made version name rules =
      ok (record { policy_id = name; rules = rules; schema_version = version })

  abbrev read_rules : Policy → Text → Text → Result PolicyError Policy
  read_rules p version name =
      check_rules version name (item (policy_members p) (txt "rules")) >>= made version name

  abbrev read_name : Policy → Text → Result PolicyError Policy
  read_name p version =
      check_identifier (item (policy_members p) (txt "policy_id")) nowhere >>= read_rules p version

  abbrev read_version : Policy → Result PolicyError Policy
  read_version p = check_version (item (policy_members p) (txt "schema_version")) >>= read_name p

  fields_again :
      (p : Policy) (n : ℕ)
      → WellFormed p
      → ensure_json_value (obj (policy_members p)) ≡ ok tt
      → bounded_canonical_json_size (obj (policy_members p)) max_json_input_bytes ≡ ok n
      → validate_fields (policy_members p) ≡ ok p
  unfolding validate_fields item member same
  fields_again p n good strict small =
      let v = obj (policy_members p) in
      let wrap = map_err (λ e. invalid nowhere (invalid_json e)) in
      bind-ok (wrap (ensure_json_value v)) _ (ap wrap strict) (
        bind-ok
          (map_err (λ e. invalid nowhere (invalid_json e))
            (bounded_canonical_json_size v max_json_input_bytes))
          _ (ap (map_err (λ e. invalid nowhere (invalid_json e))) small)
          (bind-ok (check_exact_keys (policy_members p) policy_fields nowhere) (λ u. read_version p)
            (check_fields-again p)
            (bind-ok (check_version (str p.schema_version)) (read_name p)
              (check_version-again p.schema_version good.version)
              (bind-ok (check_identifier (str p.policy_id) nowhere) (read_rules p p.schema_version)
                (check_identifier-again p.policy_id nowhere good.identifier)
                (bind-ok
                  (check_rules p.schema_version p.policy_id
                    (arr (list_items (map rule_to_dict p.rules))))
                  (made p.schema_version p.policy_id)
                  (check_rules-again p.schema_version p.policy_id p.rules good.some_rule
                    good.few_rules
                    (rules_again p.schema_version p.policy_id [] 0 p.rules good.good_rules
                      good.strict_rules good.distinct_ids))
                  refl)))))

  -- The dict of a policy is strict JSON within the limits on nodes, nesting and canonical size.
  abbrev pub Portable : Policy → Type 0
  Portable p =
      (ensure_json_value (policy_to_dict p) ≡ ok tt)
      × ((n : ℕ) × (bounded_canonical_json_size (policy_to_dict p) max_json_input_bytes ≡ ok n))

  validate_fields-limits :
      (fs : Fields) {q : Policy}
      → validate_fields fs ≡ ok q
      → (ensure_json_value (obj fs) ≡ ok tt)
        × ((n : ℕ) × (bounded_canonical_json_size (obj fs) max_json_input_bytes ≡ ok n))
  unfolding validate_fields
  validate_fields-limits fs h =
      let (u, hu, h1) =
        >>=-eq-ok (map_err (λ e. invalid nowhere (invalid_json e)) (ensure_json_value (obj fs))) _
          h in
      let (n, hn, h2) =
        >>=-eq-ok
          (map_err (λ e. invalid nowhere (invalid_json e))
            (bounded_canonical_json_size (obj fs) max_json_input_bytes))
          _ h1 in
      (
        map_err-eq-ok (λ e. invalid nowhere (invalid_json e)) (ensure_json_value (obj fs)) hu,
        (
          n,
          map_err-eq-ok (λ e. invalid nowhere (invalid_json e))
              (bounded_canonical_json_size (obj fs) max_json_input_bytes) hn,
        ),
      )

  -- A policy that validate_policy returned is accepted once more, as itself, exactly where its own
  -- dict is strict JSON within the limits on nodes, nesting and canonical size.
  pub validate_policy-Portable :
      (input : PolicyInput) (p : Policy)
      → validate_policy input ≡ ok p
      → (validate_policy (object p) ≡ ok p) ↔ Portable p
  unfolding validate_policy validate_raw policy_to_dict
  validate_policy-Portable input p valid =
      let good = validate_policy-WellFormed input valid in
      (
        (λ h.
            let (u, hu, h1) = >>=-eq-ok (check_relevant p.policy_id 0 p.rules) _ h in
            validate_fields-limits (policy_members p) h1),
        (λ h.
            bind-ok (check_relevant p.policy_id 0 p.rules) _
              (check_relevant-again p.policy_id 0 p.rules good.strict_rules)
              (fields_again p h.1.0 good h.0 h.1.1)),
      )
