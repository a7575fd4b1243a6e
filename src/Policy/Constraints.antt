-- ===== src/Policy/Constraints.antt =====
-- The constraints that validate_policy accepts, described without its code: canonical values, bounds.
use constitutional_agent_tes.Base.{
  ℕ, ◌≤◌, ◌≡◌, refl, sym, ap, subst, ◌∙◌, Bool, true, false, ◌&&◌, not, Option, none, some, List,
  [], ◌∷◌, arith, leb, ltb, Text, txt, same_sym, contains, distinct, All, pos, ok, >>=-eq-ok,
  guard-eq-ok, ok-injective, if-eq-ok, map_err, map_err-eq-ok, length,
}
use constitutional_agent_tes.Json.{
  Value, null, int, arr, nil, cons, Fields, member, items_list, copy_json_tree_lem, map_copy,
}
use constitutional_agent_tes.Json.Float.{Num, whole, num_is_finite}
use constitutional_agent_tes.Json.Ensure.{ensure_json_value}
use constitutional_agent_tes.Json.Encode.{FloatText, canonical_json}
use constitutional_agent_tes.Policy.{
  Kind, equals, one_of, type_kind, range_kind, length_kind, Rule, max_one_of_values,
  max_length_bound, required_field, false_kind, empty_list, unknown,
}
use constitutional_agent_tes.Policy.Checks.{
  Location, invalid, invalid_json, marker_or, check_json_value, check_types, number_of, range_bound,
  length_bound, check_bound, check_bounds, crossed, is_none,
}
use constitutional_agent_tes.Policy.Validate.{
  has_irrelevant, item, check_values, check_one_of, build_rule,
}

-- A declared bound: finite for a range, a whole number from 0 to 1,000,000 for a length.
abbrev pub GoodBound : Kind → Option Num → Type 0
GoodBound range_kind (some n) = num_is_finite n ≡ true
GoodBound length_kind (some n) = (k : ℕ) × (n ≡ whole (pos k)) × (k ≤ max_length_bound)
GoodBound _ _ = Unit

range_bound-GoodBound :
    (o : Option Num) (at : Location) {r : Option Num}
    → range_bound o at ≡ ok r
    → GoodBound range_kind r
range_bound-GoodBound none at h = cc
range_bound-GoodBound (some n) at h =
    let (finite, same_bound) = if-eq-ok (num_is_finite n) (some n) _ h in
    subst (GoodBound range_kind) same_bound finite

length_bound-GoodBound :
    (v : Value) (at : Location) {r : Option Num}
    → length_bound v at ≡ ok r
    → GoodBound length_kind r
length_bound-GoodBound (int (pos n)) at h =
    let (small, same_bound) = if-eq-ok (leb n max_length_bound) (some (whole (pos n))) _ h in
    subst (GoodBound length_kind) same_bound (n, refl, ground (arith, small))
length_bound-GoodBound null at h = cc
length_bound-GoodBound _ at h = cc

check_range-GoodBound :
    (o : Option Value) (at : Location) {r : Option Num}
    → check_bound o range_kind at ≡ ok r
    → GoodBound range_kind r
unfolding check_bound
check_range-GoodBound none at h = subst (GoodBound range_kind) (ok-injective none _ h) tt
check_range-GoodBound (some v) at h = range_bound-GoodBound (number_of v) at h

check_length-GoodBound :
    (o : Option Value) (at : Location) {r : Option Num}
    → check_bound o length_kind at ≡ ok r
    → GoodBound length_kind r
unfolding check_bound
check_length-GoodBound none at h = subst (GoodBound length_kind) (ok-injective none _ h) tt
check_length-GoodBound (some v) at h = length_bound-GoodBound v at h

check_bounds-parts :
    (fs : Fields) (k : Kind) (at : Location) {bounds : Option Num × Option Num}
    → check_bounds fs k at ≡ ok bounds
    → (check_bound (member (txt "minimum") fs) k at ≡ ok bounds.0)
      × (check_bound (member (txt "maximum") fs) k at ≡ ok bounds.1)
unfolding check_bounds
check_bounds-parts fs k at h =
    let (a, ha, h1) = >>=-eq-ok (check_bound (member (txt "minimum") fs) k at) _ h in
    let (b, hb, h2) = >>=-eq-ok (check_bound (member (txt "maximum") fs) k at) _ h1 in
    let (p, h3) = guard-eq-ok (not (is_none a && is_none b)) _ _ h2 in
    let (q, h4) = guard-eq-ok (not (crossed a b)) _ _ h3 in
    subst
      (λ (x : Option Num × Option Num).
        (check_bound (member (txt "minimum") fs) k at ≡ ok x.0)
        × (check_bound (member (txt "maximum") fs) k at ≡ ok x.1))
      (ok-injective _ _ h4) (ha, hb)

not-false : (b : Bool) → not b ≡ true → b ≡ false
not-false true h = cc
not-false false h = refl

no_match :
    (m : Text) (seen ms : List Text)
    → All (λ x. contains (m ∷ seen) x ≡ false) ms
    → (contains ms m ≡ false) × All (λ x. contains seen x ≡ false) ms
unfolding contains
no_match m seen [] h = (refl, tt)
no_match m seen (x ∷ ms) h =
    let (none_left, others) = no_match m seen ms h.1 in
    let symmetric = same_sym m x in
    (ground (arith, h.0, none_left, symmetric), (ground (arith, h.0), others))

distinct-none : distinct [] ≡ true
unfolding distinct
distinct-none = refl

distinct-cons :
    (m : Text) (ms : List Text)
    → contains ms m ≡ false
    → distinct ms ≡ true
    → distinct (m ∷ ms) ≡ true
unfolding distinct
distinct-cons m ms unseen apart = ground (arith, unseen, apart)

module _ ⦃repr : FloatText⦄ where
  -- A strict JSON value and its canonical text.
  abbrev pub IsMarked : Value → Text → Type 0
  IsMarked v m = (ensure_json_value v ≡ ok tt) × (canonical_json v ≡ some m)

  abbrev pub Marked : List Value → List Text → Type 0
  Marked [] [] = Unit
  Marked (v ∷ vs) (m ∷ ms) = IsMarked v m × Marked vs ms
  Marked _ _ = ⊥

  -- An expected value has a canonical text, allowed values have pairwise distinct ones, bounds are in
  -- their domain.
  abbrev pub StrictConstraint : Kind → Rule → Type 0
  StrictConstraint equals r = (m : Text) × IsMarked r.value m
  StrictConstraint one_of r = (ms : List Text) × Marked r.values ms × (distinct ms ≡ true)
  StrictConstraint range_kind r = GoodBound range_kind r.minimum × GoodBound range_kind r.maximum
  StrictConstraint length_kind r = GoodBound length_kind r.minimum × GoodBound length_kind r.maximum
  StrictConstraint _ r = Unit

  marker_or-eq-ok :
      (o : Option Text) (at : Location) {m : Text} → marker_or o at ≡ ok m → o ≡ some m
  marker_or-eq-ok none at h = cc
  marker_or-eq-ok (some t) at h = ap some (ok-injective t _ h)

  check_json_value-IsMarked :
      (v : Value) (at : Location) {m : Text} → check_json_value v at ≡ ok m → IsMarked v m
  unfolding check_json_value
  check_json_value-IsMarked v at h =
      let (u, hu, h1) =
        >>=-eq-ok (map_err (λ e. invalid at (invalid_json e)) (ensure_json_value v)) _ h in
      (
        map_err-eq-ok (λ e. invalid at (invalid_json e)) (ensure_json_value v) hu,
        marker_or-eq-ok (canonical_json v) at h1,
      )

  check_values-Marked :
      (seen : List Text) (vs : List Value) (at : Location)
      → check_values seen vs at ≡ ok tt
      → (ms : List Text) × Marked vs ms
        × (distinct ms ≡ true)
        × All (λ m. contains seen m ≡ false) ms
  unfolding check_values
  check_values-Marked seen [] at h = ([], tt, distinct-none, tt)
  check_values-Marked seen (v ∷ vs) at h =
      let (m, hm, h1) = >>=-eq-ok (check_json_value v at) _ h in
      let (fresh, h2) = guard-eq-ok (not (contains seen m)) _ _ h1 in
      let (ms, marked, apart, others) = check_values-Marked (m ∷ seen) vs at h2 in
      let (unseen, rest) = no_match m seen ms others in
      (
        m ∷ ms,
        (check_json_value-IsMarked v at hm, marked),
        distinct-cons m ms unseen apart,
        (not-false _ fresh, rest),
      )

  check_one_of-Marked :
      (v : Value) (at : Location) {vs : List Value}
      → check_one_of v at ≡ ok vs
      → (ms : List Text) × Marked vs ms × (distinct ms ≡ true)
  unfolding check_one_of
  check_one_of-Marked (arr nil) at h = cc
  check_one_of-Marked (arr (cons v xs)) at h =
      let (a, h1) = guard-eq-ok (not (ltb max_one_of_values (length (v ∷ items_list xs)))) _ _ h in
      let (u, hu, h2) = >>=-eq-ok (check_values [] (v ∷ items_list xs) at) _ h1 in
      let (ms, marked, apart, rest) = check_values-Marked [] (v ∷ items_list xs) at hu in
      subst (λ vs. (ms : List Text) × Marked vs ms × (distinct ms ≡ true))
        (sym (map_copy (v ∷ items_list xs)) ∙ ok-injective _ _ h2) (ms, marked, apart)
  check_one_of-Marked null at h = cc
  check_one_of-Marked _ at h = cc

  pub build_rule-StrictConstraint :
      (k : Kind) (rule_id path : Text) (fs : Fields) (at : Location) {r : Rule}
      → build_rule k rule_id path fs at ≡ ok r
      → StrictConstraint k r
  unfolding build_rule
  build_rule-StrictConstraint equals rule_id path fs at h =
      let (m, hm, h1) = >>=-eq-ok (check_json_value (item fs (txt "value")) at) _ h in
      let copied = sym (copy_json_tree_lem (item fs (txt "value"))) in
      let marked = check_json_value-IsMarked (item fs (txt "value")) at hm in
      subst (StrictConstraint equals) (ok-injective _ _ h1)
        (m, subst (λ v. IsMarked v m) copied marked)
  build_rule-StrictConstraint one_of rule_id path fs at h =
      let (vs, hv, h1) = >>=-eq-ok (check_one_of (item fs (txt "values")) at) _ h in
      subst (StrictConstraint one_of) (ok-injective _ _ h1)
        (check_one_of-Marked (item fs (txt "values")) at hv)
  build_rule-StrictConstraint range_kind rule_id path fs at h =
      let (bounds, hb, h1) = >>=-eq-ok (check_bounds fs range_kind at) _ h in
      let (lo, hi) = check_bounds-parts fs range_kind at hb in
      subst (StrictConstraint range_kind) (ok-injective _ _ h1) (
        check_range-GoodBound (member (txt "minimum") fs) at lo,
        check_range-GoodBound (member (txt "maximum") fs) at hi,
      )
  build_rule-StrictConstraint length_kind rule_id path fs at h =
      let (bounds, hb, h1) = >>=-eq-ok (check_bounds fs length_kind at) _ h in
      let (lo, hi) = check_bounds-parts fs length_kind at hb in
      subst (StrictConstraint length_kind) (ok-injective _ _ h1) (
        check_length-GoodBound (member (txt "minimum") fs) at lo,
        check_length-GoodBound (member (txt "maximum") fs) at hi,
      )
  build_rule-StrictConstraint type_kind rule_id path fs at h = tt
  build_rule-StrictConstraint _ rule_id path fs at h = tt

  -- A rule whose constraint is good and that has no field of another kind.
  abbrev pub StrictRule : Rule → Type 0
  StrictRule r = StrictConstraint r.kind r × (has_irrelevant r ≡ false)

  pub build_rule-relevant :
      (k : Kind) (rule_id path : Text) (fs : Fields) (at : Location) {r : Rule}
      → build_rule k rule_id path fs at ≡ ok r
      → has_irrelevant r ≡ false
  unfolding build_rule has_irrelevant
  build_rule-relevant equals rule_id path fs at h =
      let (m, hm, h1) = >>=-eq-ok (check_json_value (item fs (txt "value")) at) _ h in
      subst (λ r. has_irrelevant r ≡ false) (ok-injective _ _ h1) refl
  build_rule-relevant one_of rule_id path fs at h =
      let (vs, hv, h1) = >>=-eq-ok (check_one_of (item fs (txt "values")) at) _ h in
      subst (λ r. has_irrelevant r ≡ false) (ok-injective _ _ h1) refl
  build_rule-relevant type_kind rule_id path fs at h =
      let (names, hn, h1) = >>=-eq-ok (check_types (item fs (txt "types")) at) _ h in
      subst (λ r. has_irrelevant r ≡ false) (ok-injective _ _ h1) refl
  build_rule-relevant range_kind rule_id path fs at h =
      let (bounds, hb, h1) = >>=-eq-ok (check_bounds fs range_kind at) _ h in
      subst (λ r. has_irrelevant r ≡ false) (ok-injective _ _ h1) refl
  build_rule-relevant length_kind rule_id path fs at h =
      let (bounds, hb, h1) = >>=-eq-ok (check_bounds fs length_kind at) _ h in
      subst (λ r. has_irrelevant r ≡ false) (ok-injective _ _ h1) refl
  build_rule-relevant required_field rule_id path fs at h =
      subst (λ r. has_irrelevant r ≡ false) (ok-injective _ _ h) refl
  build_rule-relevant false_kind rule_id path fs at h =
      subst (λ r. has_irrelevant r ≡ false) (ok-injective _ _ h) refl
  build_rule-relevant empty_list rule_id path fs at h =
      subst (λ r. has_irrelevant r ≡ false) (ok-injective _ _ h) refl
  build_rule-relevant (unknown name) rule_id path fs at h =
      subst (λ r. has_irrelevant r ≡ false) (ok-injective _ _ h) refl
