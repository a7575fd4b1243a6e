-- ===== src/Policy/RoundTrip/Again.antt =====
-- The checks of a rule that is read again from its own dict do not fail.
use constitutional_agent_tes.Base.{
  ℕ, ◌≡◌, ◌≤◌, refl, sym, ap, subst, ◌∙◌, Bool, true, false, ◌&&◌, not, Option, none, some, List,
  [], ◌∷◌, map, arith, ltb, leb, Text, txt, same, same_sym, contains, distinct, all, All, length,
  pos, Result, ok, ◌>>=◌, guard-true, map_err, text_le, insert_sorted, sort_names,
}
use constitutional_agent_tes.Json.{
  Value, str, arr, Fields, member, items_list, list_items, copy_json_tree, copy_json_tree_lem,
  map_copy, list_items-items_list,
}
use constitutional_agent_tes.Json.Float.{Num, whole}
use constitutional_agent_tes.Json.Ensure.{ensure_json_value}
use constitutional_agent_tes.Json.Encode.{FloatText}
use constitutional_agent_tes.Policy.{
  Kind, required_field, equals, one_of, false_kind, empty_list, type_kind, range_kind, length_kind,
  unknown, Rule, max_one_of_values, max_length_bound, json_type_names, all_value_types,
}
use constitutional_agent_tes.Policy.Checks.{
  Location, invalid, invalid_json, marker_or, check_json_value, check_names, check_name_list,
  check_types, range_bound, check_bound, check_bounds, crossed, is_none, is_nil, check_exact_keys,
  missing_keys, unknown_keys,
}
use constitutional_agent_tes.Policy.Constraints.{GoodBound, IsMarked, Marked, StrictConstraint}
use constitutional_agent_tes.Policy.WellFormed.{GoodTypes, GoodConstraint}
use constitutional_agent_tes.Policy.Validate.{
  item, check_values, check_one_of, build_rule, expected_keys,
}
use constitutional_agent_tes.Policy.RoundTrip.Rebuilt.{
  members, with_bounds, written, type_name_list-str, number_of-num_value, member-minimum,
  member-maximum,
}

pub bind-ok :
    {A B E : Type 0} (m : Result E A) (k : A → Result E B) {a : A} {r : Result E B}
    → m ≡ ok a
    → k a ≡ r
    → (m >>= k) ≡ r
bind-ok m k e h = rw e h

All→all : (p : Text → Bool) (xs : List Text) → All (λ x. p x ≡ true) xs → all p xs ≡ true
All→all p [] h = refl
All→all p (x ∷ xs) h = rw (h.0) (All→all p xs h.1)

check_names-again :
    (names : List Text) (at : Location) → GoodTypes names → check_names names at ≡ ok names
unfolding check_names
check_names-again names at good = guard-true (not (is_nil names)) _ _ (ap not good.some_name) (
    guard-true (all (contains json_type_names) names) _ _
      (All→all (contains json_type_names) names good.known)
      (guard-true (distinct names) _ _ good.no_repeat (
        guard-true (not (contains names (txt "integer") && contains names (txt "number"))) _ _
          (ap not good.no_overlap)
          (guard-true (not (all (contains names) all_value_types)) _ _ (ap not good.not_all)
            refl))))

check_types-again :
    (names : List Text) (at : Location)
    → GoodTypes names
    → check_types (arr (list_items (map str names))) at ≡ ok names
unfolding check_types
check_types-again names at good =
    ap (λ o. check_name_list o at) (type_name_list-str names) ∙ check_names-again names at good

range_bound-again :
    (o : Option Num) (at : Location)
    → GoodBound range_kind o
    → check_bound (written o) range_kind at ≡ ok o
unfolding check_bound
range_bound-again none at good = refl
range_bound-again (some n) at good =
    ap (λ o. range_bound o at) (number_of-num_value n) ∙ rw good refl

length_whole-again :
    (k : ℕ) (at : Location)
    → k ≤ max_length_bound
    → check_bound (written (some (whole (pos k)))) length_kind at ≡ ok (some (whole (pos k)))
unfolding check_bound
length_whole-again k at small =
    let e : leb k max_length_bound ≡ true = ground (arith, small) in rw e refl

length_bound-again :
    (o : Option Num) (at : Location)
    → GoodBound length_kind o
    → check_bound (written o) length_kind at ≡ ok o
unfolding check_bound
length_bound-again none at good = refl
length_bound-again (some n) at good =
    let (k, same_number, small) = good in
    subst (λ x. check_bound (written (some x)) length_kind at ≡ ok (some x)) (sym same_number)
      (length_whole-again k at small)

check_bounds-again :
    (fs : Fields) (lo hi : Option Num) (k : Kind) (at : Location)
    → member (txt "minimum") fs ≡ written lo
    → member (txt "maximum") fs ≡ written hi
    → check_bound (written lo) k at ≡ ok lo
    → check_bound (written hi) k at ≡ ok hi
    → (is_none lo && is_none hi) ≡ false
    → crossed lo hi ≡ false
    → check_bounds fs k at ≡ ok (lo, hi)
unfolding check_bounds
check_bounds-again fs lo hi k at elo ehi clo chi some_bound ordered =
    bind-ok (check_bound (member (txt "minimum") fs) k at) _
      (ap (λ o. check_bound o k at) elo ∙ clo)
      (bind-ok (check_bound (member (txt "maximum") fs) k at) _
        (ap (λ o. check_bound o k at) ehi ∙ chi)
        (guard-true (not (is_none lo && is_none hi)) _ _ (ap not some_bound)
          (guard-true (not (crossed lo hi)) _ _ (ap not ordered) refl)))

distinct-parts :
    (m : Text) (ms : List Text)
    → distinct (m ∷ ms) ≡ true
    → (contains ms m ≡ false) × (distinct ms ≡ true)
unfolding distinct
distinct-parts m ms h = (ground (arith, h), ground (arith, h))

no_match-cons :
    (m : Text) (seen ms : List Text)
    → contains ms m ≡ false
    → All (λ x. contains seen x ≡ false) ms
    → All (λ x. contains (m ∷ seen) x ≡ false) ms
unfolding contains
no_match-cons m seen [] h k = tt
no_match-cons m seen (x ∷ ms) h k =
    let symmetric = same_sym m x in
    let others : contains ms m ≡ false = ground (arith, h) in
    (ground (arith, h, symmetric, k.0), no_match-cons m seen ms others k.1)

bounds_keys :
    (kind path rule_id : Text) (lo hi : Option Num) (at : Location)
    → (check_exact_keys
          (with_bounds kind path rule_id lo hi)
          (expected_keys range_kind (with_bounds kind path rule_id lo hi))
          at
        ≡ ok tt)
      × (check_exact_keys
            (with_bounds kind path rule_id lo hi)
            (expected_keys length_kind (with_bounds kind path rule_id lo hi))
            at
          ≡ ok tt)
unfolding check_exact_keys expected_keys missing_keys unknown_keys contains same sort_names
    insert_sorted text_le
bounds_keys kind path rule_id none none at = (refl, refl)
bounds_keys kind path rule_id none (some hi) at = (refl, refl)
bounds_keys kind path rule_id (some lo) none at = (refl, refl)
bounds_keys kind path rule_id (some lo) (some hi) at = (refl, refl)

pub check_exact_keys-members :
    (k : Kind) (r : Rule) (at : Location)
    → check_exact_keys (members r k) (expected_keys k (members r k)) at ≡ ok tt
unfolding check_exact_keys expected_keys missing_keys unknown_keys contains same sort_names
    insert_sorted text_le
check_exact_keys-members required_field r at = refl
check_exact_keys-members equals r at = refl
check_exact_keys-members one_of r at = refl
check_exact_keys-members false_kind r at = refl
check_exact_keys-members empty_list r at = refl
check_exact_keys-members type_kind r at = refl
check_exact_keys-members range_kind r at =
    (bounds_keys (txt "range") r.path r.rule_id r.minimum r.maximum at).0
check_exact_keys-members length_kind r at =
    (bounds_keys (txt "length") r.path r.rule_id r.minimum r.maximum at).1
check_exact_keys-members (unknown name) r at = refl

module _ ⦃repr : FloatText⦄ where
  check_json_value-again :
      (v : Value) (at : Location) (m : Text) → IsMarked v m → check_json_value v at ≡ ok m
  unfolding check_json_value
  check_json_value-again v at m h =
      bind-ok (map_err (λ e. invalid at (invalid_json e)) (ensure_json_value v)) _
        (ap (map_err (λ e. invalid at (invalid_json e))) h.0) (ap (λ o. marker_or o at) h.1)

  check_values-again :
      (seen : List Text) (vs : List Value) (at : Location) (ms : List Text)
      → Marked vs ms
      → distinct ms ≡ true
      → All (λ m. contains seen m ≡ false) ms
      → check_values seen vs at ≡ ok tt
  unfolding check_values
  check_values-again seen [] at ms h apart fresh = refl
  check_values-again seen (v ∷ vs) at [] h apart fresh = absurd h
  check_values-again seen (v ∷ vs) at (m ∷ ms) h apart fresh =
      let (unseen, rest) = distinct-parts m ms apart in
      bind-ok (check_json_value v at) _ (check_json_value-again v at m h.0) (
        guard-true (not (contains seen m)) _ _ (ap not fresh.0) (
          check_values-again (m ∷ seen) vs at ms h.1 rest (no_match-cons m seen ms unseen fresh.1)))

  nothing_seen : (ms : List Text) → All (λ m. contains [] m ≡ false) ms
  unfolding contains
  nothing_seen [] = tt
  nothing_seen (m ∷ ms) = (refl, nothing_seen ms)

  check_one_of-again :
      (vs : List Value) (at : Location) (ms : List Text)
      → 1 ≤ length vs
      → length vs ≤ max_one_of_values
      → Marked vs ms
      → distinct ms ≡ true
      → (out : List Value) × (check_one_of (arr (list_items (map copy_json_tree vs))) at ≡ ok out)
  unfolding check_one_of
  check_one_of-again [] at ms full few h apart = absurd (omega arith)
  check_one_of-again (v ∷ vs) at ms full few h apart =
      let read = copy_json_tree v ∷ items_list (list_items (map copy_json_tree vs)) in
      let same_values : read ≡ v ∷ vs =
        ap (λ ws. copy_json_tree v ∷ ws) (list_items-items_list (map copy_json_tree vs))
        ∙ map_copy (v ∷ vs) in
      let small : not (ltb max_one_of_values (length read)) ≡ true =
        ap (λ (ws : List Value). not (ltb max_one_of_values (length ws))) same_values
        ∙ within (length (v ∷ vs)) few in
      (
        map copy_json_tree read,
        guard-true (not (ltb max_one_of_values (length read))) _ _ small (
            bind-ok (check_values [] read at) _
              (ap (λ ws. check_values [] ws at) same_values
                ∙ check_values-again [] (v ∷ vs) at ms h apart (nothing_seen ms))
              refl),
      )
    where
      within : (n : ℕ) → n ≤ max_one_of_values → not (ltb max_one_of_values n) ≡ true
      within n h = ground (arith, h)

  pub build_rule-again :
      (k : Kind) (r : Rule) (at : Location)
      → GoodConstraint k r
      → StrictConstraint k r
      → (out : Rule) × (build_rule k r.rule_id r.path (members r k) at ≡ ok out)
  unfolding build_rule item member same
  build_rule-again equals r at good (m, marked) = (
    _,
    bind-ok (check_json_value (copy_json_tree r.value) at) _
        (check_json_value-again (copy_json_tree r.value) at m
          (subst (λ v. IsMarked v m) (sym (copy_json_tree_lem r.value)) marked))
        refl,
  )
  build_rule-again one_of r at good (ms, marked, apart) =
      let (vs, read) = check_one_of-again r.values at ms good.0 good.1 marked apart in
      (_, bind-ok (check_one_of (arr (list_items (map copy_json_tree r.values))) at) _ read refl)
  build_rule-again type_kind r at good strict = (
    _,
    bind-ok (check_types (arr (list_items (map str r.types))) at) _
        (check_types-again r.types at good) refl,
  )
  build_rule-again range_kind r at good strict =
      let fs = members r range_kind in
      let read =
        check_bounds-again fs r.minimum r.maximum range_kind at
          (member-minimum (txt "range") r.path r.rule_id r.minimum r.maximum)
          (member-maximum (txt "range") r.path r.rule_id r.minimum r.maximum)
          (range_bound-again r.minimum at strict.0) (range_bound-again r.maximum at strict.1) good.0
          good.1 in
      (_, bind-ok (check_bounds fs range_kind at) _ read refl)
  build_rule-again length_kind r at good strict =
      let fs = members r length_kind in
      let read =
        check_bounds-again fs r.minimum r.maximum length_kind at
          (member-minimum (txt "length") r.path r.rule_id r.minimum r.maximum)
          (member-maximum (txt "length") r.path r.rule_id r.minimum r.maximum)
          (length_bound-again r.minimum at strict.0) (length_bound-again r.maximum at strict.1)
          good.0 good.1 in
      (_, bind-ok (check_bounds fs length_kind at) _ read refl)
  build_rule-again required_field r at good strict = (_, refl)
  build_rule-again false_kind r at good strict = (_, refl)
  build_rule-again empty_list r at good strict = (_, refl)
  build_rule-again (unknown name) r at good strict = (_, refl)
