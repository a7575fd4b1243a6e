-- ===== src/Policy/WellFormed.antt =====
-- What validate_policy guarantees of the policy that it returns.
use constitutional_agent_tes.Base.{
  ℕ, ◌≤◌, ◌≡◌, refl, sym, Bool, true, false, ◌&&◌, not, Option, none, some, List, [], ◌∷◌, arith,
  ltb, Text, txt, contains, distinct, all, All, length, ok, >>=-eq-ok, guard-eq-ok, ok-injective,
  if-eq-ok, subst, all→All, length-map,
}
use constitutional_agent_tes.Json.{
  Value, str, obj, arr, nil, cons, Fields, member, items_list, copy_json_tree,
}
use constitutional_agent_tes.Json.Float.{Num}
use constitutional_agent_tes.Json.Path.{split_path}
use constitutional_agent_tes.Json.Ensure.{max_json_nesting}
use constitutional_agent_tes.Json.Encode.{FloatText}
use constitutional_agent_tes.Policy.{
  Kind, equals, one_of, type_kind, range_kind, length_kind, kind_of, Rule, max_one_of_values,
  allowed_kind, json_type_names, all_value_types,
}
use constitutional_agent_tes.Policy.Checks.{
  Location, check_exact_keys, check_json_value, is_identifier, is_path, check_identifier,
  check_path, check_names, check_name_list, check_types, check_bound, check_bounds, crossed,
  is_none, is_nil, type_name_list,
}
use constitutional_agent_tes.Policy.Constraints.{
  StrictRule, build_rule-relevant, StrictConstraint, build_rule-StrictConstraint,
}
use constitutional_agent_tes.Policy.Validate.{
  item, check_kind, expected_keys, check_values, check_one_of, build_rule, validate_rule_fields,
  validate_rule,
}

-- A type list: known names without repetition, not every value, and no integer beside number.
pub record GoodTypes (names : List Text) : Type 0 where
  pub some_name : is_nil names ≡ false
  pub known : All (λ n. contains json_type_names n ≡ true) names
  pub no_repeat : distinct names ≡ true
  pub no_overlap : (contains names (txt "integer") && contains names (txt "number")) ≡ false
  pub not_all : all (contains names) all_value_types ≡ false

-- The constraint of each kind.
abbrev pub GoodConstraint : Kind → Rule → Type 0
GoodConstraint one_of r = (1 ≤ length r.values) × (length r.values ≤ max_one_of_values)
GoodConstraint type_kind r = GoodTypes r.types
GoodConstraint range_kind r =
    ((is_none r.minimum && is_none r.maximum) ≡ false) × (crossed r.minimum r.maximum ≡ false)
GoodConstraint length_kind r =
    ((is_none r.minimum && is_none r.maximum) ≡ false) × (crossed r.minimum r.maximum ≡ false)
GoodConstraint _ r = Unit

pub record GoodRule (version : Text) (r : Rule) : Type 0 where
  pub identifier : is_identifier r.rule_id ≡ true
  pub path : is_path r.path ≡ true
  pub short : length (split_path r.path) ≤ max_json_nesting
  pub allowed : allowed_kind version r.kind ≡ true
  pub constraint : GoodConstraint r.kind r

-- No rule has an identifier that is listed or that an earlier rule has.
abbrev pub Fresh : List Text → List Rule → Type 0
Fresh seen [] = Unit
Fresh seen (r ∷ rules) = (contains seen r.rule_id ≡ false) × Fresh (r.rule_id ∷ seen) rules

not-true : (b : Bool) → not b ≡ true → b ≡ false
not-true true h = cc
not-true false h = refl

pub check_identifier_ok :
    (v : Value) (at : Location) {s : Text} → check_identifier v at ≡ ok s → is_identifier s ≡ true
unfolding check_identifier
check_identifier_ok (str s) at h = ground arith
check_identifier_ok Value.null at h = cc
check_identifier_ok _ at h = cc

check_path_ok :
    (v : Value) (at : Location) {s : Text}
    → check_path v at ≡ ok s
    → (is_path s ≡ true) × (length (split_path s) ≤ max_json_nesting)
unfolding check_path
check_path_ok (str s) at h = ground arith
check_path_ok Value.null at h = cc
check_path_ok _ at h = cc

check_kind_ok :
    (version : Text) (o : Option Value) (at : Location) {k : Kind}
    → check_kind version o at ≡ ok k
    → allowed_kind version k ≡ true
unfolding check_kind
check_kind_ok version (some (str s)) at h =
    let (good, same_kind) = if-eq-ok (allowed_kind version (kind_of s)) (kind_of s) _ h in
    subst (λ k. allowed_kind version k ≡ true) same_kind good
check_kind_ok version none at h = cc
check_kind_ok version _ at h = cc

check_names_ok :
    (names : List Text) (at : Location) {r : List Text} → check_names names at ≡ ok r → GoodTypes r
unfolding check_names
check_names_ok names at h =
    let (a, h1) = guard-eq-ok (not (is_nil names)) _ _ h in
    let (b, h2) = guard-eq-ok (all (contains json_type_names) names) _ _ h1 in
    let (c, h3) = guard-eq-ok (distinct names) _ _ h2 in
    let (d, h4) =
      guard-eq-ok (not (contains names (txt "integer") && contains names (txt "number"))) _ _ h3 in
    let (e, h5) = guard-eq-ok (not (all (contains names) all_value_types)) _ _ h4 in
    subst GoodTypes (ok-injective names _ h5) (record {
      some_name = not-true _ a;
      known = all→All (contains json_type_names) names b;
      no_repeat = c;
      no_overlap = not-true _ d;
      not_all = not-true _ e;
    })

check_name_list_ok :
    (o : Option (List Text)) (at : Location) {r : List Text}
    → check_name_list o at ≡ ok r
    → GoodTypes r
check_name_list_ok none at h = cc
check_name_list_ok (some names) at h = check_names_ok names at h

check_types_ok : (v : Value) (at : Location) {r : List Text} → check_types v at ≡ ok r → GoodTypes r
unfolding check_types
check_types_ok (arr xs) at h = check_name_list_ok (type_name_list xs) at h
check_types_ok Value.null at h = cc
check_types_ok _ at h = cc

check_bounds_ok :
    (fs : Fields) (k : Kind) (at : Location) {lo hi : Option Num}
    → check_bounds fs k at ≡ ok (lo, hi)
    → ((is_none lo && is_none hi) ≡ false) × (crossed lo hi ≡ false)
unfolding check_bounds
check_bounds_ok fs k at {lo} {hi} h =
    let (a, ha, h1) = >>=-eq-ok (check_bound (member (txt "minimum") fs) k at) _ h in
    let (b, hb, h2) = >>=-eq-ok (check_bound (member (txt "maximum") fs) k at) _ h1 in
    let (p, h3) = guard-eq-ok (not (is_none a && is_none b)) _ _ h2 in
    let (q, h4) = guard-eq-ok (not (crossed a b)) _ _ h3 in
    subst
      (λ (x : Option Num × Option Num).
        ((is_none x.0 && is_none x.1) ≡ false) × (crossed x.0 x.1 ≡ false))
      (ok-injective _ (lo, hi) h4) (not-true _ p, not-true _ q)

module _ ⦃repr : FloatText⦄ where
  check_one_of_ok :
      (v : Value) (at : Location) {r : List Value}
      → check_one_of v at ≡ ok r
      → (1 ≤ length r) × (length r ≤ max_one_of_values)
  unfolding check_one_of
  check_one_of_ok (arr nil) at h = cc
  check_one_of_ok (arr (cons v xs)) at h =
      let (a, h1) = guard-eq-ok (not (ltb max_one_of_values (length (v ∷ items_list xs)))) _ _ h in
      let (u, hu, h2) = >>=-eq-ok (check_values [] (v ∷ items_list xs) at) _ h1 in
      subst (λ vs. (1 ≤ length vs) × (length vs ≤ max_one_of_values)) (ok-injective _ _ h2)
        (omega arith, ground (arith, length-map copy_json_tree (items_list xs)))
  check_one_of_ok Value.null at h = cc
  check_one_of_ok _ at h = cc

  -- What build_rule keeps, and the constraint that it establishes.
  record Built (k : Kind) (rule_id path : Text) (r : Rule) : Type 0 where
    same_id : r.rule_id ≡ rule_id
    same_kind : r.kind ≡ k
    same_path : r.path ≡ path
    good : GoodConstraint k r

  build_rule_ok :
      (k : Kind) (rule_id path : Text) (fs : Fields) (at : Location) {r : Rule}
      → build_rule k rule_id path fs at ≡ ok r
      → Built k rule_id path r
  unfolding build_rule
  build_rule_ok equals rule_id path fs at h =
      let (m, hm, h1) = >>=-eq-ok (check_json_value (item fs (txt "value")) at) _ h in
      subst (Built equals rule_id path) (ok-injective _ _ h1)
        (record { same_id = refl; same_kind = refl; same_path = refl; good = tt })
  build_rule_ok one_of rule_id path fs at h =
      let (vs, hv, h1) = >>=-eq-ok (check_one_of (item fs (txt "values")) at) _ h in
      subst (Built one_of rule_id path) (ok-injective _ _ h1) (record {
        same_id = refl;
        same_kind = refl;
        same_path = refl;
        good = check_one_of_ok (item fs (txt "values")) at hv;
      })
  build_rule_ok type_kind rule_id path fs at h =
      let (names, hn, h1) = >>=-eq-ok (check_types (item fs (txt "types")) at) _ h in
      subst (Built type_kind rule_id path) (ok-injective _ _ h1) (record {
        same_id = refl;
        same_kind = refl;
        same_path = refl;
        good = check_types_ok (item fs (txt "types")) at hn;
      })
  build_rule_ok range_kind rule_id path fs at h =
      let (bounds, hb, h1) = >>=-eq-ok (check_bounds fs range_kind at) _ h in
      subst (Built range_kind rule_id path) (ok-injective _ _ h1) (record {
        same_id = refl;
        same_kind = refl;
        same_path = refl;
        good = check_bounds_ok fs range_kind at hb;
      })
  build_rule_ok length_kind rule_id path fs at h =
      let (bounds, hb, h1) = >>=-eq-ok (check_bounds fs length_kind at) _ h in
      subst (Built length_kind rule_id path) (ok-injective _ _ h1) (record {
        same_id = refl;
        same_kind = refl;
        same_path = refl;
        good = check_bounds_ok fs length_kind at hb;
      })
  build_rule_ok k rule_id path fs at h =
      subst (Built _ rule_id path) (ok-injective _ _ h)
        (record { same_id = refl; same_kind = refl; same_path = refl; good = tt })

  validate_rule_fields_ok :
      (version : Text) (seen : List Text) (fs : Fields) (at : Location) {r : Rule}
      → validate_rule_fields version seen fs at ≡ ok r
      → (contains seen r.rule_id ≡ false) × GoodRule version r × StrictRule r
  unfolding validate_rule_fields
  validate_rule_fields_ok version seen fs at {r} h =
      let (k, hk, h1) = >>=-eq-ok (check_kind version (member (txt "kind") fs) at) _ h in
      let (u, hu, h2) = >>=-eq-ok (check_exact_keys fs (expected_keys k fs) at) _ h1 in
      let (name, hn, h3) = >>=-eq-ok (check_identifier (item fs (txt "rule_id")) at) _ h2 in
      let (fresh, h4) = guard-eq-ok (not (contains seen name)) _ _ h3 in
      let (path, hp, h5) = >>=-eq-ok (check_path (item fs (txt "path")) at) _ h4 in
      let built = build_rule_ok k name path fs at h5 in
      let (good_path, short_path) = check_path_ok (item fs (txt "path")) at hp in
      (
        rw built.same_id (not-true _ fresh),
        record {
          identifier = rw built.same_id (check_identifier_ok (item fs (txt "rule_id")) at hn);
          path = rw built.same_path good_path;
          short = rw built.same_path short_path;
          allowed = rw built.same_kind (check_kind_ok version (member (txt "kind") fs) at hk);
          constraint = subst (λ x. GoodConstraint x r) (sym built.same_kind) built.good;
        },
        (
          subst (λ x. StrictConstraint x r) (sym built.same_kind)
              (build_rule-StrictConstraint k name path fs at h5),
          build_rule-relevant k name path fs at h5,
        ),
      )

  pub validate_rule_ok :
      (version policy_id : Text) (seen : List Text) (index : ℕ) (v : Value) {r : Rule}
      → validate_rule version policy_id seen index v ≡ ok r
      → (contains seen r.rule_id ≡ false) × GoodRule version r × StrictRule r
  unfolding validate_rule
  validate_rule_ok version policy_id seen index (obj fs) h =
      validate_rule_fields_ok version seen fs _ h
  validate_rule_ok version policy_id seen index Value.null h = cc
  validate_rule_ok version policy_id seen index _ h = cc
