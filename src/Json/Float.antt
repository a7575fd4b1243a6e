-- ===== src/Json/Float.antt =====
-- Python's numbers, `int | float`, and their exact order. A float is read from its bit pattern;
-- a finite one is an integer number of units of 2 ^ -1074.
use constitutional_agent_tes.Base.{
  ℕ, ◌+◌, ◌-◌, ◌*◌, ◌/◌, ◌%◌, ◌^◌, max, ◌≡◌, refl, inl, inr, Bool, true, false, not, arith, ◌==◌,
  if◌then◌else◌, Bool-cases, ℤ, pos, negate, scale, leb_ℤ,
}

pub data Num : Type 0 where
  whole : ℤ → Num
  real : ℕ → Num

unfoldable pub exponent : ℕ → ℕ
exponent b = b / 2 ^ 52 % 2 ^ 11

unfoldable pub fraction : ℕ → ℕ
fraction b = b % 2 ^ 52

unfoldable pub is_negative : ℕ → Bool
is_negative b = b / 2 ^ 63 % 2 == 1

-- `math.isfinite`
unfoldable pub is_finite : ℕ → Bool
unfolding exponent
is_finite b = not (exponent b == 2047)

-- The size of a finite float in units of 2 ^ -1074.
unfoldable pub magnitude : ℕ → ℕ
unfolding exponent fraction
magnitude b =
    (if exponent b == 0 then fraction b else 2 ^ 52 + fraction b) * 2 ^ (max (exponent b) 1 - 1)

pub data Extended : Type 0 where
  nan neg_inf pos_inf : Extended
  units : ℤ → Extended

unfoldable pub units_per_one : ℕ
units_per_one = 2 ^ 1074

unfoldable pub extended : Num → Extended
unfolding is_finite is_negative magnitude units_per_one
extended (whole n) = units (scale n units_per_one)
extended (real b) =
    if is_finite b
    then (if is_negative b then units (negate (magnitude b)) else units (pos (magnitude b)))
    else if fraction b == 0
    then (if is_negative b then neg_inf else pos_inf)
    else nan

abbrev pub extended_le : Extended → Extended → Bool
extended_le nan y = false
extended_le neg_inf nan = false
extended_le neg_inf _ = true
extended_le pos_inf pos_inf = true
extended_le pos_inf _ = false
extended_le (units a) nan = false
extended_le (units a) neg_inf = false
extended_le (units a) pos_inf = true
extended_le (units a) (units b) = leb_ℤ a b

-- `a <= b`, and `b >= a`
unfoldable pub num_le : Num → Num → Bool
num_le a b = extended_le (extended a) (extended b)

-- Whether a bound or an observed number is finite: an `int` always is.
abbrev pub num_is_finite : Num → Bool
num_is_finite (whole n) = true
num_is_finite (real b) = is_finite b

extended_total :
    (x y : ℤ) → extended_le (units x) (units y) ≡ false → extended_le (units y) (units x) ≡ true
extended_total x y h = ground arith

finite-extended : (a : Num) → num_is_finite a ≡ true → (z : ℤ) × (extended a ≡ units z)
unfolding extended
finite-extended (whole n) h = (scale n units_per_one, refl)
finite-extended (real b) h = elim (Bool-cases (is_negative b)) [
  | inl e ↦ (negate (magnitude b), rw (h, e))
  | inr e ↦ (pos (magnitude b), rw (h, e))
]

-- Finite numbers are ordered totally.
pub num_le_total :
    (a b : Num)
    → num_is_finite a ≡ true
    → num_is_finite b ≡ true
    → num_le a b ≡ false
    → num_le b a ≡ true
unfolding num_le
num_le_total a b ha hb h =
    let (x, ex) = finite-extended a ha in
    let (y, ey) = finite-extended b hb in rw (ex, ey) (extended_total x y (rw (ex, ey) at h))

one_tenth_below_one : num_le (real 0x3fb999999999999a) (whole (pos 1)) ≡ true
unfolding num_le extended
one_tenth_below_one = refl

negative_zero : num_le (whole (pos 0)) (real 0x8000000000000000) ≡ true
unfolding num_le extended
negative_zero = refl
