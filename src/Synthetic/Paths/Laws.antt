-- ===== src/Synthetic/Paths/Laws.antt =====
-- Reading a path after it was built or assigned.
use constitutional_agent_tes.Base.{
  ◌≡◌, refl, ap, ◌∙◌, subst, true, false, Option, none, some, List, [], ◌∷◌, Text, same, eq→same,
  Result, ok, err, ◌>>=◌, >>=-eq-ok, ok-injective, Bool-cases, inl, inr, if◌then◌else◌, ◌==◌,
}
use constitutional_agent_tes.Json.{Value, null, bool, obj, Fields, end, field, member, set_member}
use constitutional_agent_tes.Json.Path.{get_field, get_segments, split_path}
use constitutional_agent_tes.Errors.{TestbenchError, synthetic_failed, incompatible_paths}
use constitutional_agent_tes.Synthetic.Paths.{view_of, candidate_view, assign_segments, assign_path}

pub member-here :
    (k s : Text) (v : Value) (fs : Fields) → same k s ≡ true → member s (field k v fs) ≡ some v
unfolding member
member-here k s v fs e = ap (λ b. if b then some v else member s fs) e

pub member-later :
    (k s : Text) (v : Value) (fs : Fields)
    → same k s ≡ false
    → member s (field k v fs) ≡ member s fs
unfolding member
member-later k s v fs e = ap (λ b. if b then some v else member s fs) e

set_member-here :
    (k s : Text) (v w : Value) (fs : Fields)
    → same k s ≡ true
    → set_member s v (field k w fs) ≡ field k v fs
unfolding set_member
set_member-here k s v w fs e = ap (λ b. if b then field k v fs else field k w (set_member s v fs)) e

set_member-later :
    (k s : Text) (v w : Value) (fs : Fields)
    → same k s ≡ false
    → set_member s v (field k w fs) ≡ field k w (set_member s v fs)
unfolding set_member
set_member-later k s v w fs e =
    ap (λ b. if b then field k v fs else field k w (set_member s v fs)) e

pub get_segments-member :
    (s : Text) (rest : List Text) (fs : Fields) (v : Value)
    → member s fs ≡ some v
    → get_segments (obj fs) (s ∷ rest) ≡ get_segments v rest
unfolding get_segments
get_segments-member s rest fs v e =
    ap (λ o. elim o [ none ↦ none | some w ↦ get_segments w rest ]) e

get_segments-view_of :
    (segments : List Text) (v : Value) → get_segments (view_of segments v) segments ≡ some v
unfolding view_of
get_segments-view_of [] v = unfold get_segments in refl
get_segments-view_of (s ∷ segments) v =
    get_segments-member s segments _ (view_of segments v) (member-here s s _ end (eq→same s s refl))
    ∙ get_segments-view_of segments v

-- The candidate document of a path holds the candidate there.
pub get_field-candidate_view :
    (path : Text) (v : Value) → get_field (candidate_view path v) path ≡ some v
unfolding get_field candidate_view
get_field-candidate_view path v = get_segments-view_of (split_path path) v

pub member-set_member : (s : Text) (v : Value) (fs : Fields) → member s (set_member s v fs) ≡ some v
member-set_member s v end = unfold set_member in member-here s s v end (eq→same s s refl)
member-set_member s v (field k w fs) = elim (Bool-cases (same k s)) [
  | inl e ↦ ap (member s) (set_member-here k s v w fs e) ∙ member-here k s v fs e
  | inr e ↦
      ap (member s) (set_member-later k s v w fs e)
      ∙ (member-later k s w (set_member s v fs) e ∙ member-set_member s v fs)
]

abbrev pub Assigned : List Text → Value → Fields → Type 0
Assigned segments v fs = get_segments (obj fs) segments ≡ some v

put_inner :
    (s : Text) (segments : List Text) (v : Value) (fs : Fields) (m : Result TestbenchError Fields)
    {out : Fields}
    → ((inner : Fields) → m ≡ ok inner → Assigned segments v inner)
    → (m >>= λ inner. ok (set_member s (obj inner) fs)) ≡ ok out
    → Assigned (s ∷ segments) v out
put_inner s segments v fs m deeper h =
    let (inner, hi, h1) = >>=-eq-ok m _ h in
    subst (Assigned (s ∷ segments) v) (ok-injective _ _ h1) (
      get_segments-member s segments _ (obj inner) (member-set_member s (obj inner) fs)
      ∙ deeper inner hi)

assign_segments-Assigned :
    (fs : Fields) (s : Text) (rest : List Text) (v : Value) {out : Fields}
    → assign_segments fs (s ∷ rest) v ≡ ok out
    → Assigned (s ∷ rest) v out
unfolding assign_segments
assign_segments-Assigned fs s [] v h =
    subst (Assigned (s ∷ []) v) (ok-injective _ _ h)
      (get_segments-member s [] _ v (member-set_member s v fs) ∙ unfold get_segments in refl)
assign_segments-Assigned fs s (t ∷ rest) v {out} h =
    step (λ gs inner e. assign_segments-Assigned gs t rest v {out = inner} e) (member s fs) h
  where
    step :
        ((gs inner : Fields)
          → assign_segments gs (t ∷ rest) v ≡ ok inner
          → Assigned (t ∷ rest) v inner)
        → (o : Option Value)
        → ◌≡◌ {A = Result TestbenchError Fields}
            (elim o [
              | none ↦
                  assign_segments end (t ∷ rest) v >>= λ inner. ok (set_member s (obj inner) fs)
              | some null ↦
                  assign_segments end (t ∷ rest) v >>= λ inner. ok (set_member s (obj inner) fs)
              | some (obj old) ↦
                  assign_segments old (t ∷ rest) v >>= λ inner. ok (set_member s (obj inner) fs)
              | some _ ↦ err (synthetic_failed incompatible_paths)
            ])
            (ok out)
        → Assigned (s ∷ t ∷ rest) v out
    step deeper none g = put_inner s (t ∷ rest) v fs _ (deeper end) g
    step deeper (some null) g = put_inner s (t ∷ rest) v fs _ (deeper end) g
    step deeper (some (obj old)) g = put_inner s (t ∷ rest) v fs _ (deeper old) g
    step deeper (some (bool b)) g = cc
    step deeper (some _) g = cc

pub split_path-some : (path : Text) → (s : Text) × (rest : List Text) × (split_path path ≡ s ∷ rest)
unfolding split_path
split_path-some [] = ([], [], refl)
split_path-some (c ∷ path) = elim (Bool-cases (c == b'.')) [
  | inl e ↦ ([], split_path path, rw e)
  | inr e ↦ let (s, rest, h) = split_path-some path in (c ∷ s, rest, rw (e, h))
]

-- A document in which a path was assigned holds the value there, whatever it held before.
pub get_field-assign_path :
    (document : Fields) (path : Text) (v : Value) {out : Fields}
    → assign_path document path v ≡ ok out
    → get_field (obj out) path ≡ some v
unfolding get_field assign_path
get_field-assign_path document path v {out} h =
    let (s, rest, e) = split_path-some path in
    rw e (assign_segments-Assigned document s rest v (rw e at h))
