-- ===== src/Json/Arithmetic.antt =====
-- Python's `n + 1` and `n - 1` for `int | float`, as probes.py uses them. A float sum is the exact
-- sum rounded to the nearest binary64 value, ties to the even one.
use constitutional_agent_tes.Base.{
  ℕ, zero, suc, ◌+◌, ◌-◌, ◌*◌, ◌/◌, ◌%◌, ◌^◌, min, ◌≡◌, refl, ◌&&◌, ◌||◌, ltb, leb, ◌==◌,
  if◌then◌else◌, ℤ, pos, negsuc, pos_part, neg_part, negate, scale,
}
use constitutional_agent_tes.Json.Float.{Num, whole, real, Extended, units, extended, units_per_one}

unfoldable pub ◌+ℤ◌ : ℤ → ℤ → ℤ

infixl 65 ◌+ℤ◌
a +ℤ b =
    let above = pos_part a + pos_part b in
    let below = neg_part a + neg_part b in
    if leb below above then pos (above - below) else negate (below - above)

-- How often m is halved until it has at most 53 binary digits, with fuel.
unfoldable pub excess : ℕ → ℕ → ℕ
excess zero m = 0
excess (suc fuel) m = let rest = excess fuel (m / 2) in if ltb m (2 ^ 53) then 0 else suc rest

-- m / 2 ^ e, rounded to the nearest integer, ties to the even one
unfoldable pub round_shift : ℕ → ℕ → ℕ
round_shift m e =
    let up = ltb (2 ^ e) (2 * (m % 2 ^ e)) || (2 ^ e == 2 * (m % 2 ^ e) && m / 2 ^ e % 2 == 1) in
    if up then m / 2 ^ e + 1 else m / 2 ^ e

-- A finite float is below 2 ^ 2098 units, and so is 1, so 2,047 halvings are enough for their sum.
abbrev pub max_halvings : ℕ
max_halvings = 2047

-- The bit pattern of the float nearest to a number of units of 2 ^ -1074.
unfoldable pub nearest : ℕ → ℕ
unfolding excess round_shift
nearest m = let e = excess max_halvings m in min (e * 2 ^ 52 + round_shift m e) (2047 * 2 ^ 52)

abbrev pub float_of_units : ℤ → ℕ
float_of_units (pos n) = nearest n
float_of_units (negsuc n) = 2 ^ 63 + nearest (suc n)

abbrev pub add_units : ℕ → Extended → ℤ → ℕ
add_units b (units z) n = float_of_units (z +ℤ scale n units_per_one)
add_units b _ n = b

-- `number + n`
unfoldable pub add_int : Num → ℤ → Num
unfolding ◌+ℤ◌ nearest extended
add_int (whole m) n = whole (m +ℤ n)
add_int (real b) n = real (add_units b (extended (real b)) n)

one_tenth_and_one : add_int (real 0x3fb999999999999a) (pos 1) ≡ real 0x3ff199999999999a
unfolding add_int
one_tenth_and_one = refl

three_less_one : add_int (whole (pos 3)) (negsuc 0) ≡ whole (pos 2)
unfolding add_int
three_less_one = refl

half_less_one : add_int (real 0x3fe0000000000000) (negsuc 0) ≡ real 0xbfe0000000000000
unfolding add_int
half_less_one = refl

-- 2 ^ 53 + 1 is a tie, which goes to the even neighbour.
tie : add_int (real 0x4340000000000000) (pos 1) ≡ real 0x4340000000000000
unfolding add_int
tie = refl
