-- ===== src/Explain/Bounds.antt =====
-- What explain_response says of a path and of a bound.
use constitutional_agent_tes.Base.{
  ◌≡◌, refl, true, false, Option, none, some, List, [], ◌∷◌, ◌++◌, arith, Text, Bool-cases, inl,
  inr,
}
use constitutional_agent_tes.Json.{Value, null, obj, member}
use constitutional_agent_tes.Json.Float.{Num, num_le, num_le_total, num_is_finite}
use constitutional_agent_tes.Json.Path.{get_field, get_segments, split_path}
use constitutional_agent_tes.Policy.{Rule}
use constitutional_agent_tes.Evaluator.{within, at_least, at_most}
use constitutional_agent_tes.Explain.{
  BoundName, minimum_bound, maximum_bound, below, measured, violated_bound, Resolution, resolved,
  parent_not_object, member_absent, traverse,
}

-- The value that a resolution found.
abbrev pub found : Resolution → Option Value
found (resolved v) = some v
found (parent_not_object names) = none
found (member_absent names) = none

traverse-get_segments :
    (v : Value) (traversed : List Text) (segments : List Text)
    → found (traverse v traversed segments) ≡ get_segments v segments
unfolding traverse get_segments
traverse-get_segments v traversed [] = refl
traverse-get_segments (obj fs) traversed (s ∷ rest) =
    step (λ w. traverse-get_segments w (traversed ++ s ∷ []) rest) (member s fs)
  where
    step :
        ((w : Value) → found (traverse w (traversed ++ s ∷ []) rest) ≡ get_segments w rest)
        → (o : Option Value)
        → found (elim o [
          | none ↦ member_absent (traversed ++ s ∷ [])
          | some w ↦ traverse w (traversed ++ s ∷ []) rest
        ])
          ≡ elim o [ none ↦ none | some w ↦ get_segments w rest ]
    step later none = refl
    step later (some w) = later w
traverse-get_segments null traversed (s ∷ rest) = refl
traverse-get_segments _ traversed (s ∷ rest) = refl

-- The diagnostic walk resolves a path exactly where get_field does, with the same value.
pub traverse-get_field :
    (document : Value) (path : Text)
    → found (traverse document [] (split_path path)) ≡ get_field document path
unfolding get_field
traverse-get_field document path = traverse-get_segments document [] (split_path path)

-- A bound that is finite where it is declared.
abbrev pub FiniteBound : Option Num → Type 0
FiniteBound none = Unit
FiniteBound (some b) = num_is_finite b ≡ true

-- The bound of that name is declared and the number is beyond it.
abbrev pub Crossed : Rule → Num → BoundName → Type 0
Crossed r n minimum_bound =
    (lo : Num) × (r.minimum ≡ some lo) × (num_le lo n ≡ false) × (num_le n lo ≡ true)
Crossed r n maximum_bound =
    (hi : Num) × (r.maximum ≡ some hi) × (num_le n hi ≡ false) × (num_le hi n ≡ true)

below-eq-true :
    (o : Option Num) (n : Num)
    → below o n ≡ true
    → (lo : Num) × (o ≡ some lo) × (num_le lo n ≡ false) × (num_le n lo ≡ true)
below-eq-true none n h = cc
below-eq-true (some lo) n h = (lo, refl, ground arith, ground arith)

below-eq-false :
    (o : Option Num) (n : Num)
    → FiniteBound o
    → num_is_finite n ≡ true
    → below o n ≡ false
    → at_least o n ≡ true
below-eq-false none n hf hn h = refl
below-eq-false (some lo) n hf hn h = elim (Bool-cases (num_le lo n)) [
  | inl e ↦ e
  | inr e ↦ let f = num_le_total lo n hf hn e in ground arith
]

above :
    (o : Option Num) (n : Num)
    → FiniteBound o
    → num_is_finite n ≡ true
    → at_most o n ≡ false
    → (hi : Num) × (o ≡ some hi) × (num_le n hi ≡ false) × (num_le hi n ≡ true)
above none n hf hn h = cc
above (some hi) n hf hn h = (hi, refl, h, num_le_total n hi hn hf h)

-- Where a rule with finite bounds fails on a finite measured number, the bound that is named is
-- declared and the number is strictly beyond it.
pub violated_bound-Crossed :
    (r : Rule) (v : Value) (n : Num)
    → measured r.kind v ≡ some n
    → num_is_finite n ≡ true
    → FiniteBound r.minimum
    → FiniteBound r.maximum
    → within n r ≡ false
    → (name : BoundName) × (violated_bound r v ≡ some name) × Crossed r n name
unfolding violated_bound within
violated_bound-Crossed r v n hm hn hlo hhi hw = elim (Bool-cases (below r.minimum n)) [
  | inl e ↦ (minimum_bound, rw (hm, e), below-eq-true r.minimum n e)
  | inr e ↦
      let low = below-eq-false r.minimum n hlo hn e in
      (maximum_bound, rw (hm, e), above r.maximum n hhi hn (ground arith))
]
