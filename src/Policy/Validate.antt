-- ===== src/Policy/Validate.antt =====
-- policy.py: validate_policy, for raw values and for Policy objects.
use constitutional_agent_tes.Base.{
  ℕ, ◌+◌, Bool, true, false, ◌||◌, not, Option, none, some, List, [], ◌∷◌, map, ltb, if◌then◌else◌,
  Text, txt, contains, keep, length, Result, ok, err, ◌>>=◌, ◌>>◌, guard, map_err,
}
use constitutional_agent_tes.Json.{
  Value, null, str, arr, obj, nil, cons, Fields, member, keys, items_list, copy_json_tree,
}
use constitutional_agent_tes.Json.Ensure.{ensure_json_value, max_json_input_bytes}
use constitutional_agent_tes.Json.Encode.{FloatText}
use constitutional_agent_tes.Json.Encode.Size.{bounded_canonical_json_size}
use constitutional_agent_tes.Policy.{
  Kind, equals, one_of, type_kind, range_kind, length_kind, kind_of, Rule, plain_rule, Policy,
  policy_to_dict, max_policy_rules, max_one_of_values, supported_version, allowed_kind,
}
use constitutional_agent_tes.Policy.Checks.{
  not_object, bad_version, rules_not_array, too_many_rules, rule_not_object, unknown_kind,
  repeated_rule_id, irrelevant_fields, values_not_array, too_many_values, duplicate_value,
  invalid_json, PolicyError, Location, nowhere, invalid, safe_identifier, check_exact_keys,
  check_identifier, check_path, check_json_value, check_types, check_bounds, is_none,
}

-- `d[key]`, where check_exact_keys has found the key.
abbrev pub or_null : Option Value → Value
or_null none = null
or_null (some v) = v

unfoldable pub item : Fields → Text → Value
unfolding member
item fs key = or_null (member key fs)

abbrev pub is_member : Fields → Text → Bool
is_member fs key = contains (keys fs) key

-- The field set of a rule: `expected_keys`.
unfoldable pub expected_keys : Kind → Fields → List Text
unfolding contains
expected_keys kind fs = txt "rule_id" ∷ txt "kind" ∷ txt "path" ∷ (elim kind [
  | equals ↦ txt "value" ∷ []
  | one_of ↦ txt "values" ∷ []
  | type_kind ↦ txt "types" ∷ []
  | range_kind ↦ keep (is_member fs) (txt "minimum" ∷ txt "maximum" ∷ [])
  | length_kind ↦ keep (is_member fs) (txt "minimum" ∷ txt "maximum" ∷ [])
  | _ ↦ []
])

unfoldable pub check_kind : Text → Option Value → Location → Result PolicyError Kind
unfolding kind_of
check_kind version (some (str name)) at =
    if allowed_kind version (kind_of name) then ok (kind_of name) else err (invalid at unknown_kind)
check_kind version _ at = err (invalid at unknown_kind)

unfoldable pub check_version : Value → Result PolicyError Text
unfolding contains
check_version (str version) =
    if supported_version version then ok version else err (invalid nowhere bad_version)
check_version _ = err (invalid nowhere bad_version)

abbrev pub policy_fields : List Text
policy_fields = txt "schema_version" ∷ txt "policy_id" ∷ txt "rules" ∷ []

module _ ⦃repr : FloatText⦄ where
  -- The loop over the allowed values, with the markers of those before.
  unfoldable pub check_values : List Text → List Value → Location → Result PolicyError Unit
  unfolding check_json_value
  check_values seen [] at = ok tt
  check_values seen (v ∷ vs) at = do
    marker ← check_json_value v at
    guard (not (contains seen marker)) (invalid at duplicate_value)
    check_values (marker ∷ seen) vs at

  unfoldable pub check_one_of : Value → Location → Result PolicyError (List Value)
  unfolding check_values copy_json_tree
  check_one_of (arr nil) at = err (invalid at values_not_array)
  check_one_of (arr (cons v xs)) at = do
    guard (not (ltb max_one_of_values (length (v ∷ items_list xs)))) (invalid at too_many_values)
    check_values [] (v ∷ items_list xs) at
    ok (map copy_json_tree (v ∷ items_list xs))
  check_one_of _ at = err (invalid at values_not_array)

  -- The part of the loop body that depends on the kind.
  unfoldable pub build_rule : Kind → Text → Text → Fields → Location → Result PolicyError Rule
  unfolding check_one_of item check_types check_bounds
  build_rule equals rule_id path fs at = do
    marker ← check_json_value (item fs (txt "value")) at
    ok (record (plain_rule rule_id equals path) { value = copy_json_tree (item fs (txt "value")) })
  build_rule one_of rule_id path fs at = do
    values ← check_one_of (item fs (txt "values")) at
    ok (record (plain_rule rule_id one_of path) { values = values })
  build_rule type_kind rule_id path fs at = do
    types ← check_types (item fs (txt "types")) at
    ok (record (plain_rule rule_id type_kind path) { types = types })
  build_rule range_kind rule_id path fs at = do
    bounds ← check_bounds fs range_kind at
    ok (record (plain_rule rule_id range_kind path) { minimum = bounds.0; maximum = bounds.1 })
  build_rule length_kind rule_id path fs at = do
    bounds ← check_bounds fs length_kind at
    ok (record (plain_rule rule_id length_kind path) { minimum = bounds.0; maximum = bounds.1 })
  build_rule kind rule_id path fs at = ok (plain_rule rule_id kind path)

  unfoldable pub validate_rule_fields :
      Text → List Text → Fields → Location → Result PolicyError Rule
  unfolding check_kind expected_keys check_exact_keys check_identifier check_path build_rule
  validate_rule_fields version seen fs at = do
    kind ← check_kind version (member (txt "kind") fs) at
    check_exact_keys fs (expected_keys kind fs) at
    rule_id ← check_identifier (item fs (txt "rule_id")) at
    guard (not (contains seen rule_id)) (invalid at repeated_rule_id)
    path ← check_path (item fs (txt "path")) at
    build_rule kind rule_id path fs at

  -- The body of the loop over the raw rules.
  unfoldable pub validate_rule : Text → Text → List Text → ℕ → Value → Result PolicyError Rule
  unfolding validate_rule_fields safe_identifier
  validate_rule version policy_id seen index (obj fs) =
      validate_rule_fields version seen fs (record {
        policy_id = some policy_id;
        rule_id = safe_identifier (member (txt "rule_id") fs);
        rule_index = some index;
      })
  validate_rule version policy_id seen index _ = err (
      invalid (record { policy_id = some policy_id; rule_id = none; rule_index = some index })
        rule_not_object)

  unfoldable pub validate_rules :
      Text → Text → List Text → ℕ → List Value → Result PolicyError (List Rule)
  unfolding validate_rule
  validate_rules version policy_id seen index [] = ok []
  validate_rules version policy_id seen index (raw ∷ raws) = do
    rule ← validate_rule version policy_id seen index raw
    rules ← validate_rules version policy_id (rule.rule_id ∷ seen) (index + 1) raws
    ok (rule ∷ rules)

  unfoldable pub check_rules : Text → Text → Value → Result PolicyError (List Rule)
  unfolding validate_rules
  check_rules version policy_id (arr (cons raw raws)) = do
    guard (not (ltb max_policy_rules (length (raw ∷ items_list raws))))
        (invalid (record nowhere { policy_id = some policy_id }) too_many_rules)
    validate_rules version policy_id [] 0 (raw ∷ items_list raws)
  check_rules version policy_id _ =
      err (invalid (record nowhere { policy_id = some policy_id }) rules_not_array)

  unfoldable pub validate_fields : Fields → Result PolicyError Policy
  unfolding check_version check_rules bounded_canonical_json_size ensure_json_value
  validate_fields fs = do
    map_err (λ e. invalid nowhere (invalid_json e)) (ensure_json_value (obj fs))
    size ←
        map_err (λ e. invalid nowhere (invalid_json e))
          (bounded_canonical_json_size (obj fs) max_json_input_bytes)
    check_exact_keys fs policy_fields nowhere
    version ← check_version (item fs (txt "schema_version"))
    policy_id ← check_identifier (item fs (txt "policy_id")) nowhere
    rules ← check_rules version policy_id (item fs (txt "rules"))
    ok (record { policy_id = policy_id; rules = rules; schema_version = version })

  -- validate_policy of a raw value
  unfoldable pub validate_raw : Value → Result PolicyError Policy
  unfolding validate_fields
  validate_raw (obj fs) = validate_fields fs
  validate_raw _ = err (invalid nowhere not_object)

-- A Policy object's rule that sets a field of another kind.
abbrev pub stray_value : Value → Bool
stray_value null = false
stray_value _ = true

abbrev pub stray_list {ℓ} : {A : Type ℓ} → List A → Bool
stray_list [] = false
stray_list _ = true

abbrev pub stray_bounds : Rule → Bool
stray_bounds r = not (is_none r.minimum) || not (is_none r.maximum)

unfoldable pub has_irrelevant : Rule → Bool
has_irrelevant r = elim r.kind [
  | equals ↦ stray_list r.values || stray_list r.types || stray_bounds r
  | one_of ↦ stray_value r.value || stray_list r.types || stray_bounds r
  | type_kind ↦ stray_value r.value || stray_list r.values || stray_bounds r
  | range_kind ↦ stray_value r.value || stray_list r.values || stray_list r.types
  | length_kind ↦ stray_value r.value || stray_list r.values || stray_list r.types
  | _ ↦ stray_value r.value || stray_list r.values || stray_list r.types || stray_bounds r
]

-- The loop over the rules of a Policy object.
unfoldable pub check_relevant : Text → ℕ → List Rule → Result PolicyError Unit
unfolding has_irrelevant safe_identifier
check_relevant policy_id index [] = ok tt
check_relevant policy_id index (r ∷ rules) =
    let rest = check_relevant policy_id (index + 1) rules in
    if has_irrelevant r
    then err (
        invalid
          (record {
            policy_id = safe_identifier (some (str policy_id));
            rule_id = safe_identifier (some (str r.rule_id));
            rule_index = some index;
          })
          irrelevant_fields)
    else rest

-- The argument of validate_policy: a Policy object, or any other value.
pub data PolicyInput : Type 0 where
  object : Policy → PolicyInput
  raw : Value → PolicyInput

module _ ⦃repr : FloatText⦄ where
  unfoldable pub validate_policy : PolicyInput → Result PolicyError Policy
  unfolding check_relevant validate_raw policy_to_dict
  validate_policy (object p) = do
    check_relevant p.policy_id 0 p.rules
    validate_raw (policy_to_dict p)
  validate_policy (raw v) = validate_raw v
