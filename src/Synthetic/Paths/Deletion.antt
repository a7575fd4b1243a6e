-- ===== src/Synthetic/Paths/Deletion.antt =====
-- Reading a path after _delete_path.
use constitutional_agent_tes.Base.{
  ◌≡◌, refl, sym, ap, ◌∙◌, subst, true, false, Option, none, some, List, [], ◌∷◌, arith, Text, same,
  same→eq, contains, distinct, Bool-cases, inl, inr, if◌then◌else◌,
}
use mathlib.Core.Option.{some-injective}
use constitutional_agent_tes.Json.{
  Value, null, obj, Fields, end, field, member, set_member, del_member, keys,
}
use constitutional_agent_tes.Json.Path.{get_field, get_segments, split_path}
use constitutional_agent_tes.Synthetic.Paths.{replace_member, delete_segments, delete_path}
use constitutional_agent_tes.Synthetic.Paths.Laws.{
  member-later, member-set_member, get_segments-member, split_path-some,
}

-- The dicts that a path goes through have distinct keys, as every dict has.
abbrev pub UniqueAlong : Fields → List Text → Type 0
UniqueAlong fs [] = Unit
UniqueAlong fs (s ∷ rest) =
    (distinct (keys fs) ≡ true)
    × ((inner : Fields) → member s fs ≡ some (obj inner) → UniqueAlong inner rest)

member-absent : (s : Text) (fs : Fields) → contains (keys fs) s ≡ false → member s fs ≡ none
unfolding contains
member-absent s end h = unfold member in refl
member-absent s (field k v fs) h =
    member-later k s v fs (ground arith) ∙ member-absent s fs (ground arith)

del_member-here :
    (k s : Text) (v : Value) (fs : Fields) → same k s ≡ true → del_member s (field k v fs) ≡ fs
unfolding del_member
del_member-here k s v fs e = ap (λ b. if b then fs else field k v (del_member s fs)) e

del_member-later :
    (k s : Text) (v : Value) (fs : Fields)
    → same k s ≡ false
    → del_member s (field k v fs) ≡ field k v (del_member s fs)
unfolding del_member
del_member-later k s v fs e = ap (λ b. if b then fs else field k v (del_member s fs)) e

member-del_member :
    (s : Text) (fs : Fields) → distinct (keys fs) ≡ true → member s (del_member s fs) ≡ none
unfolding distinct
member-del_member s end h = unfold member del_member in refl
member-del_member s (field k v fs) h = elim (Bool-cases (same k s)) [
  | inl e ↦
      let fresh : contains (keys fs) k ≡ false = ground arith in
      ap (member s) (del_member-here k s v fs e)
      ∙ member-absent s fs (subst (λ n. contains (keys fs) n ≡ false) (same→eq k s e) fresh)
  | inr e ↦
      ap (member s) (del_member-later k s v fs e)
      ∙ (member-later k s v (del_member s fs) e ∙ member-del_member s fs (ground arith))
]

get_segments-absent :
    (s : Text) (rest : List Text) (fs : Fields)
    → member s fs ≡ none
    → get_segments (obj fs) (s ∷ rest) ≡ none
unfolding get_segments
get_segments-absent s rest fs e = ap (λ o. elim o [ none ↦ none | some w ↦ get_segments w rest ]) e

-- The path resolved before, and does not resolve after.
abbrev pub Removed : List Text → Fields → Fields → Type 0
Removed segments before after =
    ((v : Value) × (get_segments (obj before) segments ≡ some v))
    × (get_segments (obj after) segments ≡ none)

replace_member-eq-some :
    (s : Text) (fs : Fields) (o : Option Fields) {out : Fields}
    → replace_member s fs o ≡ some out
    → (inner : Fields) × (o ≡ some inner) × (set_member s (obj inner) fs ≡ out)
replace_member-eq-some s fs none h = cc
replace_member-eq-some s fs (some inner) h = (inner, refl, some-injective _ _ h)

delete_segments-Removed :
    (fs : Fields) (s : Text) (rest : List Text) {out : Fields}
    → UniqueAlong fs (s ∷ rest)
    → delete_segments fs (s ∷ rest) ≡ some out
    → Removed (s ∷ rest) fs out
unfolding delete_segments
delete_segments-Removed fs s [] {out} unique h = step (member s fs) refl h
  where
    step :
        (o : Option Value)
        → member s fs ≡ o
        → ◌≡◌ {A = Option Fields}
            (elim o [ none ↦ none | some v ↦ some (del_member s fs) ])
            (some out)
        → Removed (s ∷ []) fs out
    step none e g = cc
    step (some v) e g = (
      (v, get_segments-member s [] fs v e ∙ unfold get_segments in refl),
      subst (λ x. get_segments (obj x) (s ∷ []) ≡ none) (some-injective _ _ g)
          (get_segments-absent s [] (del_member s fs) (member-del_member s fs unique.0)),
    )
delete_segments-Removed fs s (t ∷ rest) {out} unique h =
    step (λ inner after u g. delete_segments-Removed inner t rest {out = after} u g) (member s fs)
      refl h
  where
    step :
        ((inner after : Fields)
          → UniqueAlong inner (t ∷ rest)
          → delete_segments inner (t ∷ rest) ≡ some after
          → Removed (t ∷ rest) inner after)
        → (o : Option Value) → member s fs ≡ o
        → ◌≡◌ {A = Option Fields}
            (elim o [
              | some (obj inner) ↦ replace_member s fs (delete_segments inner (t ∷ rest))
              | _ ↦ none
            ])
            (some out)
        → Removed (s ∷ t ∷ rest) fs out
    step deeper (some (obj inner)) e g =
        let (after, deleted, put) =
          replace_member-eq-some s fs (delete_segments inner (t ∷ rest)) g in
        let ((v, was), gone) = deeper inner after (unique.1 inner e) deleted in
        (
          (v, get_segments-member s (t ∷ rest) fs (obj inner) e ∙ was),
          subst (λ x. get_segments (obj x) (s ∷ t ∷ rest) ≡ none) put
              (get_segments-member s (t ∷ rest) _ (obj after) (member-set_member s (obj after) fs)
                ∙ gone),
        )
    step deeper none e g = cc
    step deeper (some null) e g = cc
    step deeper (some _) e g = cc

-- Where dicts have distinct keys, a path that was deleted resolved before and does not resolve after.
pub get_field-delete_path :
    (document : Fields) (path : Text) {out : Fields}
    → UniqueAlong document (split_path path)
    → delete_path document path ≡ some out
    → ((v : Value) × (get_field (obj document) path ≡ some v)) × (get_field (obj out) path ≡ none)
unfolding get_field delete_path
get_field-delete_path document path {out} unique h =
    let (s, rest, e) = split_path-some path in
    subst (λ l. Removed l document out) (sym e)
      (delete_segments-Removed document s rest (subst (UniqueAlong document) e unique)
        (subst (λ l. delete_segments document l ≡ some out) e h))
