-- ===== src/Authoring/Below.antt =====
-- Paths below a path, as the check of descendants reads them.
use constitutional_agent_tes.Base.{
  ℕ, ◌+◌, ◌≡◌, refl, ap, ◌∙◌, subst, true, Option, none, some, List, [], ◌∷◌, ◌++◌, arith, ◌==◌,
  ==_iff, Text, txt, length, length-append, Bool-cases, inl, inr,
}
use mathlib.Core.Option.{some-injective}
use constitutional_agent_tes.Json.{Value, null, obj, member}
use constitutional_agent_tes.Json.Path.{extend_first, split_path, get_segments, get_field}
use constitutional_agent_tes.Synthetic.Generate.{starts_with}
use constitutional_agent_tes.Synthetic.Paths.Laws.{split_path-some}
use constitutional_agent_tes.Authoring.{skip, is_object}

extend_first-append :
    (c : ℕ) (xs ys : List Text) (s : Text) (rest : List Text)
    → xs ≡ s ∷ rest
    → extend_first c (xs ++ ys) ≡ extend_first c xs ++ ys
extend_first-append c xs ys s rest e = rw e refl

split_path-append : (p q : Text) → split_path (p ++ b'.' ∷ q) ≡ split_path p ++ split_path q
unfolding split_path
split_path-append [] q = refl
split_path-append (c ∷ p) q =
    let (s, rest, e) = split_path-some p in
    elim (Bool-cases (c == b'.')) [
      | inl dot ↦ rw (dot, split_path-append p q) refl
      | inr other ↦
          rw (other, split_path-append p q)
            (extend_first-append c (split_path p) (split_path q) s rest e)
    ]

starts_with-append :
    (text prefix : Text)
    → starts_with text prefix ≡ true
    → text ≡ prefix ++ skip (length prefix) text
unfolding starts_with skip
starts_with-append text [] h = refl
starts_with-append [] (c ∷ prefix) h = cc
starts_with-append (d ∷ text) (c ∷ prefix) h =
    cc ((==_iff c d).0 (ground arith), starts_with-append text prefix (ground arith))

append_assoc : (xs ys zs : Text) → (xs ++ ys) ++ zs ≡ xs ++ (ys ++ zs)
append_assoc [] ys zs = refl
append_assoc (x ∷ xs) ys zs = ap (λ t. x ∷ t) (append_assoc xs ys zs)

-- What a longer path finds is found below what the shorter one finds.
get_segments-append :
    (v : Value) (xs ys : List Text) {u w : Value}
    → get_segments v xs ≡ some u
    → get_segments v (xs ++ ys) ≡ some w
    → get_segments u ys ≡ some w
unfolding get_segments
get_segments-append v [] ys {u} {w} hu hw =
    subst (λ x. get_segments x ys ≡ some w) (some-injective v u hu) hw
get_segments-append (obj fs) (s ∷ xs) ys {u} {w} hu hw =
    step (member s fs) (λ v. get_segments-append v xs ys) hu hw
  where
    step :
        (o : Option Value)
        → ((v : Value)
            → get_segments v xs ≡ some u
            → get_segments v (xs ++ ys) ≡ some w
            → get_segments u ys ≡ some w)
        → elim o [ none ↦ none | some v ↦ get_segments v xs ] ≡ some u
        → elim o [ none ↦ none | some v ↦ get_segments v (xs ++ ys) ] ≡ some w
        → get_segments u ys ≡ some w
    step none rest hu hw = cc
    step (some v) rest hu hw = rest v hu hw
get_segments-append null (s ∷ xs) ys hu hw = cc
get_segments-append _ (s ∷ xs) ys hu hw = cc

object_found :
    (v : Value) (s : Text) (rest : List Text) {w : Value}
    → get_segments v (s ∷ rest) ≡ some w
    → is_object v ≡ true
unfolding get_segments
object_found (obj fs) s rest h = refl
object_found null s rest h = cc
object_found _ s rest h = cc

-- The value at a path below is the one that the rest of the path finds in a dict.
pub get_field-below :
    (response : Value) (path text : Text) {v w : Value}
    → starts_with text (path ++ txt ".") ≡ true
    → get_field response path ≡ some v
    → get_field response text ≡ some w
    → (is_object v ≡ true) × (get_field v (skip (length path + 1) text) ≡ some w)
unfolding get_field
get_field-below response path text {v} {w} h hv hw =
    let rest = skip (length path + 1) text in
    let same_length : length (path ++ txt ".") ≡ length path + 1 = length-append path (txt ".") in
    let parts : text ≡ path ++ b'.' ∷ rest =
      subst (λ n. text ≡ (path ++ txt ".") ++ skip n text) same_length
        (starts_with-append text (path ++ txt ".") h)
      ∙ append_assoc path (txt ".") rest in
    let found = get_segments-append response (split_path path) (split_path rest) hv (
      subst (λ segments. get_segments response segments ≡ some w)
        (ap split_path parts ∙ split_path-append path rest) hw) in
    let (s, others, e) = split_path-some rest in
    (object_found v s others (subst (λ segments. get_segments v segments ≡ some w) e found), found)
