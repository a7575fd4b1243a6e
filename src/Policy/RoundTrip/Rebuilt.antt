-- ===== src/Policy/RoundTrip/Rebuilt.antt =====
-- A rule that build_rule reads from its own dict.
use constitutional_agent_tes.Base.{
  ◌≡◌, refl, sym, ap, ◌∙◌, Bool, false, ◌&&◌, ◌||◌, not, Option, none, some, List, [], ◌∷◌, map,
  arith, ltb, Text, txt, same, length, pos, negsuc, ok, >>=-eq-ok, guard-eq-ok, ok-injective,
  if-eq-ok,
}
use constitutional_agent_tes.Json.{
  Value, null, str, arr, Fields, end, field, member, items_list, list_items, copy_json_tree,
  copy_json_tree_lem, map_copy, list_items-items_list,
}
use constitutional_agent_tes.Json.Float.{Num, whole, real, num_is_finite}
use constitutional_agent_tes.Json.Encode.{FloatText}
use constitutional_agent_tes.Policy.{
  Kind, required_field, equals, one_of, false_kind, empty_list, type_kind, range_kind, length_kind,
  unknown, kind_name, Rule, plain_rule, num_value, bound_member, constraint_members,
}
use constitutional_agent_tes.Policy.Checks.{
  Location, check_json_value, check_names, check_types, type_name_list, check_bound, check_bounds,
  is_none, number_of, range_bound, crossed,
}
use constitutional_agent_tes.Policy.Validate.{
  has_irrelevant, stray_value, stray_list, stray_bounds, build_rule, check_one_of, check_values,
  item,
}

stray_value-false : (v : Value) → stray_value v ≡ false → v ≡ null
stray_value-false null h = refl
stray_value-false (str s) h = cc
stray_value-false _ h = cc

stray_list-false {ℓ} : {A : Type ℓ} (xs : List A) → stray_list xs ≡ false → xs ≡ []
stray_list-false [] h = refl
stray_list-false (x ∷ xs) h = cc

not-is_none : (o : Option Num) → not (is_none o) ≡ false → o ≡ none
not-is_none none h = refl
not-is_none (some n) h = cc

pub type_name_list-str :
    (names : List Text) → type_name_list (list_items (map str names)) ≡ some names
type_name_list-str [] = refl
type_name_list-str (n ∷ names) = rw (type_name_list-str names)

check_names-same :
    (names : List Text) (at : Location) {r : List Text} → check_names names at ≡ ok r → names ≡ r
unfolding check_names
check_names-same names at h = ground arith

abbrev pub written : Option Num → Option Value
written none = none
written (some n) = some (num_value n)

pub number_of-num_value : (n : Num) → number_of (num_value n) ≡ some n
number_of-num_value (whole n) = refl
number_of-num_value (real b) = refl

-- A bound that is read again is the bound that was written.
range_bound-same :
    (o : Option Num) (at : Location) {r : Option Num}
    → check_bound (written o) range_kind at ≡ ok r
    → o ≡ r
unfolding check_bound
range_bound-same none at h = ok-injective none _ h
range_bound-same (some n) at h =
    (if-eq-ok (num_is_finite n) (some n) _
      (ap (λ o. range_bound o at) (sym (number_of-num_value n)) ∙ h)).1

length_bound-same :
    (o : Option Num) (at : Location) {r : Option Num}
    → check_bound (written o) length_kind at ≡ ok r
    → o ≡ r
unfolding check_bound
length_bound-same none at h = ok-injective none _ h
length_bound-same (some (whole (pos n))) at h = ground arith
length_bound-same (some (whole (negsuc n))) at h = cc
length_bound-same (some (real b)) at h = cc

-- The dict of a rule, by its kind.
abbrev pub members : Rule → Kind → Fields
members r k = field (txt "kind") (str (kind_name k)) (
    field (txt "path") (str r.path)
      (field (txt "rule_id") (str r.rule_id) (constraint_members r k)))

-- The bounds that the dict of a rule shows.
abbrev pub with_bounds : Text → Text → Text → Option Num → Option Num → Fields
with_bounds kind path rule_id lo hi = field (txt "kind") (str kind) (
    field (txt "path") (str path) (
      field (txt "rule_id") (str rule_id)
        (bound_member (txt "minimum") lo (bound_member (txt "maximum") hi end))))

pub member-minimum :
    (kind path rule_id : Text) (lo hi : Option Num)
    → member (txt "minimum") (with_bounds kind path rule_id lo hi) ≡ written lo
unfolding member same
member-minimum kind path rule_id none none = refl
member-minimum kind path rule_id none (some hi) = refl
member-minimum kind path rule_id (some lo) hi = refl

pub member-maximum :
    (kind path rule_id : Text) (lo hi : Option Num)
    → member (txt "maximum") (with_bounds kind path rule_id lo hi) ≡ written hi
unfolding member same
member-maximum kind path rule_id none none = refl
member-maximum kind path rule_id none (some hi) = refl
member-maximum kind path rule_id (some lo) none = refl
member-maximum kind path rule_id (some lo) (some hi) = refl

module _ (fs : Fields) (lo hi : Option Num) (at : Location) where
  -- Bounds that are read again, kind by kind.
  bounds_same :
      (k : Kind) {b : Option Num × Option Num}
      → ((o r : Option Num) → check_bound (written o) k at ≡ ok r → o ≡ r)
      → member (txt "minimum") fs ≡ written lo
      → member (txt "maximum") fs ≡ written hi
      → check_bounds fs k at ≡ ok b
      → (lo, hi) ≡ b
  unfolding check_bounds
  bounds_same k one elo ehi h =
      let (a, ha, h1) = >>=-eq-ok (check_bound (member (txt "minimum") fs) k at) _ h in
      let (c, hc, h2) = >>=-eq-ok (check_bound (member (txt "maximum") fs) k at) _ h1 in
      let (p, h3) = guard-eq-ok (not (is_none a && is_none c)) _ _ h2 in
      let (q, h4) = guard-eq-ok (not (crossed a c)) _ _ h3 in
      let same_lo = one lo a (ap (λ o. check_bound o k at) (sym elo) ∙ ha) in
      let same_hi = one hi c (ap (λ o. check_bound o k at) (sym ehi) ∙ hc) in
      cc (same_lo, same_hi, ok-injective _ _ h4)

-- The fields of the other kinds have their defaults.
no_bounds : (r : Rule) → stray_bounds r ≡ false → (r.minimum ≡ none) × (r.maximum ≡ none)
no_bounds r h = (not-is_none r.minimum (ground arith), not-is_none r.maximum (ground arith))

abbrev stray : Rule → Bool
stray r = stray_value r.value || stray_list r.values || stray_list r.types || stray_bounds r

rebuilt_plain :
    (r : Rule) (k : Kind) {out : Rule}
    → stray r ≡ false
    → plain_rule r.rule_id k r.path ≡ out
    → record r { kind = k } ≡ out
rebuilt_plain r k calm h =
    let a = stray_value-false r.value (ground arith) in
    let b = stray_list-false r.values (ground arith) in
    let c = stray_list-false r.types (ground arith) in
    let (d, e) = no_bounds r (ground arith) in cc (a, b, c, d, e)

rebuilt_bounds :
    (r : Rule) (k : Kind) {b : Option Num × Option Num} {out : Rule}
    → stray_value r.value ≡ false
    → stray_list r.values ≡ false
    → stray_list r.types ≡ false
    → (r.minimum, r.maximum) ≡ b
    → record (plain_rule r.rule_id k r.path) { minimum = b.0; maximum = b.1 } ≡ out
    → record r { kind = k } ≡ out
rebuilt_bounds r k no_value no_values no_types same_bounds h =
    let a = stray_value-false r.value no_value in
    let b = stray_list-false r.values no_values in
    let c = stray_list-false r.types no_types in cc (a, b, c, same_bounds, h)

module _ ⦃repr : FloatText⦄ where
  check_one_of-same :
      (vs : List Value) (at : Location) {r : List Value}
      → check_one_of (arr (list_items (map copy_json_tree vs))) at ≡ ok r
      → vs ≡ r
  unfolding check_one_of
  check_one_of-same [] at h = cc
  check_one_of-same (v ∷ vs) at h =
      let read = items_list (list_items (map copy_json_tree vs)) in
      let (a, h1) = guard-eq-ok (not (ltb 256 (length (copy_json_tree v ∷ read)))) _ _ h in
      let (u, hu, h2) = >>=-eq-ok (check_values [] (copy_json_tree v ∷ read) at) _ h1 in
      let twice : map copy_json_tree (copy_json_tree v ∷ read) ≡ v ∷ vs =
        map_copy (copy_json_tree v ∷ read)
        ∙ ap (λ ws. copy_json_tree v ∷ ws) (list_items-items_list (map copy_json_tree vs))
        ∙ map_copy (v ∷ vs) in
      sym twice ∙ ok-injective _ _ h2

  check_types-same :
      (names : List Text) (at : Location) {r : List Text}
      → check_types (arr (list_items (map str names))) at ≡ ok r
      → names ≡ r
  unfolding check_types
  check_types-same names at h = check_names-same names at (rw (type_name_list-str names) at h)

  -- A rule that is built from its own dict is the rule.
  pub rebuilt :
      (k : Kind) (r : Rule) (at : Location) {out : Rule}
      → has_irrelevant (record r { kind = k }) ≡ false
      → build_rule k r.rule_id r.path (members r k) at ≡ ok out
      → record r { kind = k } ≡ out
  unfolding build_rule has_irrelevant item same
  rebuilt equals r at calm h =
      let (m, hm, h1) =
        >>=-eq-ok (check_json_value (item (members r equals) (txt "value")) at) _ h in
      let b = stray_list-false r.values (ground arith) in
      let c = stray_list-false r.types (ground arith) in
      let (d, e) = no_bounds r (ground arith) in
      cc (b, c, d, e, copy_json_tree_lem r.value, ok-injective _ _ h1)
  rebuilt one_of r at calm h =
      let (vs, hv, h1) = >>=-eq-ok (check_one_of (item (members r one_of) (txt "values")) at) _ h in
      let a = stray_value-false r.value (ground arith) in
      let c = stray_list-false r.types (ground arith) in
      let (d, e) = no_bounds r (ground arith) in
      cc (a, c, d, e, check_one_of-same r.values at hv, ok-injective _ _ h1)
  rebuilt type_kind r at calm h =
      let (ns, hn, h1) =
        >>=-eq-ok (check_types (item (members r type_kind) (txt "types")) at) _ h in
      let a = stray_value-false r.value (ground arith) in
      let b = stray_list-false r.values (ground arith) in
      let (d, e) = no_bounds r (ground arith) in
      cc (a, b, d, e, check_types-same r.types at hn, ok-injective _ _ h1)
  rebuilt range_kind r at calm h =
      let fs = members r range_kind in
      let (b, hb, h1) = >>=-eq-ok (check_bounds fs range_kind at) _ h in
      let e =
        bounds_same fs r.minimum r.maximum at range_kind (λ o n. range_bound-same o at)
          (member-minimum (txt "range") r.path r.rule_id r.minimum r.maximum)
          (member-maximum (txt "range") r.path r.rule_id r.minimum r.maximum) hb in
      rebuilt_bounds r range_kind (ground arith) (ground arith) (ground arith) e
        (ok-injective _ _ h1)
  rebuilt length_kind r at calm h =
      let fs = members r length_kind in
      let (b, hb, h1) = >>=-eq-ok (check_bounds fs length_kind at) _ h in
      let e =
        bounds_same fs r.minimum r.maximum at length_kind (λ o n. length_bound-same o at)
          (member-minimum (txt "length") r.path r.rule_id r.minimum r.maximum)
          (member-maximum (txt "length") r.path r.rule_id r.minimum r.maximum) hb in
      rebuilt_bounds r length_kind (ground arith) (ground arith) (ground arith) e
        (ok-injective _ _ h1)
  rebuilt required_field r at calm h = rebuilt_plain r required_field calm (ok-injective _ _ h)
  rebuilt false_kind r at calm h = rebuilt_plain r false_kind calm (ok-injective _ _ h)
  rebuilt empty_list r at calm h = rebuilt_plain r empty_list calm (ok-injective _ _ h)
  rebuilt (unknown name) r at calm h = rebuilt_plain r (unknown name) calm (ok-injective _ _ h)
