-- ===== src/Stream/Members.antt =====
-- The hook of json.loads keeps the members of an object, and refuses a name that occurs twice.
use constitutional_agent_tes.Base.{
  ◌≡◌, refl, sym, ap, ◌∙◌, Bool, true, false, ◌&&◌, ◌||◌, not, inl, inr, Option, none, some, List,
  [], ◌∷◌, ◌++◌, map, arith, if◌then◌else◌, Text, same, contains, distinct, all, Bool-cases,
  Option-cases,
}
use constitutional_agent_tes.Json.{Value, Fields, end, field, member, set_member, keys}
use constitutional_agent_tes.Coverage.Counts.{same_comm}
use constitutional_agent_tes.Stream.{add_members, reject_duplicate_members}

-- The names of the pairs, and the dict that holds them in this order.
abbrev pub pair_names : List (Text × Value) → List Text
pair_names = map (λ (p : Text × Value). p.0)

unfoldable pub fields_of : List (Text × Value) → Fields
fields_of [] = end
fields_of ((key, value) ∷ pairs) = field key value (fields_of pairs)

abbrev append_fields : Fields → Fields → Fields
append_fields end fs = fs
append_fields (field k v rest) fs = field k v (append_fields rest fs)

-- No name of the list is in the dict.
abbrev is_fresh : Fields → List Text → Bool
is_fresh result = all (λ name. not (contains (keys result) name))

member-none : (key : Text) (fs : Fields) → member key fs ≡ none → contains (keys fs) key ≡ false
unfolding member contains
member-none key end h = refl
member-none key (field k v fs) h = elim (Bool-cases (same k key)) [
  | inl e ↦ absurd (ground (arith, e))
  | inr e ↦ ground (arith, e, member-none key fs)
]

member-some :
    (key : Text) (fs : Fields) {v : Value} → member key fs ≡ some v → contains (keys fs) key ≡ true
unfolding member contains
member-some key end h = cc
member-some key (field k u fs) {v = w} h = elim (Bool-cases (same k key)) [
  | inl e ↦ ground (arith, e)
  | inr e ↦ ground (arith, e, member-some key fs {v = w})
]

keys-append_fields : (fs gs : Fields) → keys (append_fields fs gs) ≡ keys fs ++ keys gs
keys-append_fields end gs = refl
keys-append_fields (field k v fs) gs = ap (λ ks. k ∷ ks) (keys-append_fields fs gs)

append_fields_assoc :
    (fs gs hs : Fields)
    → append_fields (append_fields fs gs) hs ≡ append_fields fs (append_fields gs hs)
append_fields_assoc end gs hs = refl
append_fields_assoc (field k v fs) gs hs = ap (field k v) (append_fields_assoc fs gs hs)

append_fields_end : (fs : Fields) → append_fields fs end ≡ fs
append_fields_end end = refl
append_fields_end (field k v fs) = ap (field k v) (append_fields_end fs)

set_member-append_fields :
    (key : Text) (value : Value) (fs : Fields)
    → contains (keys fs) key ≡ false
    → set_member key value fs ≡ append_fields fs (field key value end)
unfolding set_member contains
set_member-append_fields key value end h = refl
set_member-append_fields key value (field k v fs) h = elim (Bool-cases (same k key)) [
  | inl e ↦ absurd (ground (arith, e))
  | inr e ↦ rw e (ap (field k v) (set_member-append_fields key value fs (ground (arith, e))))
]

contains-append :
    (names others : List Text) (name : Text)
    → contains (names ++ others) name ≡ (contains names name || contains others name)
unfolding contains
contains-append [] others name = refl
contains-append (n ∷ names) others name = ground (arith, contains-append names others name)

-- A dict with one more key is fresh for the names without that key.
fresh_grown :
    (key : Text) (value : Value) (result : Fields) (names : List Text)
    → is_fresh (append_fields result (field key value end)) names
      ≡ (is_fresh result names && not (contains names key))
unfolding contains
fresh_grown key value result [] = refl
fresh_grown key value result (n ∷ names) = ground (
  arith,
  fresh_grown key value result names,
  ap (λ ks. contains ks n) (keys-append_fields result (field key value end)),
  contains-append (keys result) (key ∷ []) n,
  same_comm key n,
)

-- What the loop gives from a dict on.
abbrev collected : Fields → List (Text × Value) → Option Fields
collected result pairs =
    if distinct (pair_names pairs) && is_fresh result (pair_names pairs)
    then some (append_fields result (fields_of pairs))
    else none

both_or_none :
    (a b : Bool) (fs gs : Fields)
    → a ≡ b
    → fs ≡ gs
    → (if a then some fs else none) ≡ (if b then some gs else none)
both_or_none a b fs gs h e = rw (h, e) refl

none_where_false : (b : Bool) (fs : Fields) → b ≡ false → none ≡ (if b then some fs else none)
none_where_false b fs h = rw h refl

add_members-collected :
    (pairs : List (Text × Value)) (result : Fields)
    → add_members result pairs ≡ collected result pairs
unfolding add_members fields_of distinct
add_members-collected [] result = ap some (sym (append_fields_end result))
add_members-collected ((key, value) ∷ pairs) result =
    let names = pair_names pairs in
    let grown = append_fields result (field key value end) in
    let whole = append_fields result (field key value (fields_of pairs)) in
    elim (Option-cases (member key result)) [
      | inl e ↦
          let absent = member-none key result e in
          rw (e, add_members)
            (ap (λ fs. add_members fs pairs) (set_member-append_fields key value result absent)
              ∙ add_members-collected pairs grown
              ∙ both_or_none (distinct names && is_fresh grown names)
                  ((not (contains names key) && distinct names)
                    && (not (contains (keys result) key) && is_fresh result names))
                  (append_fields grown (fields_of pairs)) whole
                  (ground (arith, fresh_grown key value result names, absent))
                  (append_fields_assoc result (field key value end) (fields_of pairs)))
      | inr (v, e) ↦
          rw (e, add_members)
            (none_where_false
              ((not (contains names key) && distinct names)
                && (not (contains (keys result) key) && is_fresh result names))
              whole (ground (arith, member-some key result e)))
    ]

all_fresh : (names : List Text) → is_fresh end names ≡ true
unfolding contains
all_fresh [] = refl
all_fresh (n ∷ names) = all_fresh names

and_true : (b : Bool) → (b && true) ≡ b
and_true true = refl
and_true false = refl

-- The hook gives the dict of the pairs in their order where no name occurs twice, and raises
-- otherwise.
pub reject_duplicate_members-fields_of :
    (pairs : List (Text × Value))
    → reject_duplicate_members pairs
      ≡ (if distinct (pair_names pairs) then some (fields_of pairs) else none)
unfolding reject_duplicate_members
reject_duplicate_members-fields_of pairs =
    add_members-collected pairs end
    ∙ both_or_none (distinct (pair_names pairs) && is_fresh end (pair_names pairs))
        (distinct (pair_names pairs)) (fields_of pairs) (fields_of pairs)
        (ap (λ b. distinct (pair_names pairs) && b) (all_fresh (pair_names pairs)) ∙ and_true _)
        refl
