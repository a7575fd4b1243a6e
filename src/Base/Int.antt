-- ===== src/Base/Int.antt =====
-- Python's `int`, its order and its decimal text.
use Prim.Native.Nat.{ℕ, zero, suc, ◌+◌, ◌-◌, ◌*◌, ◌/◌, ◌%◌}
use mathlib.Core.Path.{◌≡◌, refl}
use mathlib.Core.Bool.{Bool}
use mathlib.Core.List.{[], ◌∷◌}
use constitutional_agent_tes.Base.Tests.{ltb, leb, ◌==◌, if◌then◌else◌}
use constitutional_agent_tes.Base.Texts.{Text}

-- `negsuc n` is -(n + 1).
pub data ℤ : Type 0 where
  pos : ℕ → ℤ
  negsuc : ℕ → ℤ

abbrev pub pos_part : ℤ → ℕ
pos_part (pos n) = n
pos_part (negsuc n) = 0

abbrev pub neg_part : ℤ → ℕ
neg_part (pos n) = 0
neg_part (negsuc n) = suc n

abbrev pub leb_ℤ : ℤ → ℤ → Bool
leb_ℤ a b = leb (pos_part a + neg_part b) (pos_part b + neg_part a)

-- n times a natural number
abbrev pub scale : ℤ → ℕ → ℤ
scale (pos n) k = pos (n * k)
scale (negsuc n) k = if k == 0 then pos 0 else negsuc (suc n * k - 1)

abbrev pub negate : ℕ → ℤ
negate zero = pos 0
negate (suc n) = negsuc n

-- The decimal digits of n, with fuel above n.
unfoldable pub decimal_digits : ℕ → ℕ → Text → Text
decimal_digits zero n acc = acc
decimal_digits (suc fuel) n acc =
    let digit = b'0' + n % 10 in
    let rest = decimal_digits fuel (n / 10) (digit ∷ acc) in if ltb n 10 then digit ∷ acc else rest

-- `str(n)` for a natural number and for an `int`
unfoldable pub decimal : ℕ → Text
unfolding decimal_digits
decimal n = decimal_digits (suc n) n []

unfoldable pub int_text : ℤ → Text
unfolding decimal
int_text (pos n) = decimal n
int_text (negsuc n) = b'-' ∷ decimal (suc n)

int_text_runs : int_text (negsuc 1023) ≡ b'-' ∷ b'1' ∷ b'0' ∷ b'2' ∷ b'4' ∷ []
unfolding int_text
int_text_runs = refl
