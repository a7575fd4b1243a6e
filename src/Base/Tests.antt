-- ===== src/Base/Tests.antt =====
-- Boolean tests on native numbers, the conditional, and the result of code that may raise.
use Prim.Native.Nat.{ℕ, ◌≤◌, ◌<◌, compare, Ordering}
use mathlib.Core.Path.{◌≡◌, refl}
use mathlib.Core.Logic.{◌↔◌, ◌⊎◌, inl, inr}
use mathlib.Core.Bool.{Bool, true, false}
use mathlib.Core.Option.{Option, none, some}
use native.Mathlib.Omega.{arith}

abbrev pub ltb : ℕ → ℕ → Bool
ltb a b = elim (compare a b) [ Ordering.lt ↦ true | _ ↦ false ]

abbrev pub leb : ℕ → ℕ → Bool
leb a b = elim (compare a b) [ Ordering.gt ↦ false | _ ↦ true ]

infix 50 ◌==◌
abbrev pub ◌==◌ : ℕ → ℕ → Bool
a == b = elim (compare a b) [ Ordering.eq ↦ true | _ ↦ false ]

infix 1 if◌then◌else◌
abbrev pub if◌then◌else◌ {ℓ} : {A : Type ℓ} → Bool → A → A → A
if true then x else y = x
if false then x else y = y

pub ltb→lt : (a b : ℕ) → ltb a b ≡ true → a < b
ltb→lt a b h = ground arith

pub leb→le : (a b : ℕ) → leb a b ≡ true → a ≤ b
leb→le a b h = ground arith

pub not_ltb→le : (a b : ℕ) → ltb a b ≡ false → b ≤ a
not_ltb→le a b h = ground arith

pub le→leb : (a b : ℕ) → a ≤ b → leb a b ≡ true
le→leb a b h = ground arith

pub ==_iff : (a b : ℕ) → ((a == b) ≡ true) ↔ (a ≡ b)
==_iff a b = ground arith

pub Bool-cases : (b : Bool) → (b ≡ true) ⊎ (b ≡ false)
Bool-cases true = inl refl
Bool-cases false = inr refl

pub Option-cases {ℓ} : {A : Type ℓ} (o : Option A) → (o ≡ none) ⊎ ((a : A) × (o ≡ some a))
Option-cases none = inl refl
Option-cases (some a) = inr (a, refl)

-- A computation that returns a value or raises an error of type `E`.
pub data Result (E : Type 0) (A : Type 0) : Type 0 where
  ok : A → Result E A
  err : E → Result E A

-- `except ...: raise f(exc)`
abbrev pub map_err : {E F A : Type 0} → (E → F) → Result E A → Result F A
map_err f (ok a) = ok a
map_err f (err e) = err (f e)

-- `if not test: raise e`
abbrev pub guard : {E : Type 0} → Bool → E → Result E Unit
guard false exc = err exc
guard true exc = ok tt

-- The rest of the function, unless an error was raised.
infixl 5 ◌>>=◌ ◌>>◌
abbrev pub ◌>>=◌ : {E A B : Type 0} → Result E A → (A → Result E B) → Result E B
err exc >>= rest = err exc
ok value >>= rest = rest value

abbrev pub ◌>>◌ : {E B : Type 0} → Result E Unit → Result E B → Result E B
first >> rest = first >>= λ done. rest

pub >>=-eq-ok :
    {E A B : Type 0} (action : Result E A) (rest : A → Result E B) {out : B}
    → (action >>= rest) ≡ ok out
    → (value : A) × (action ≡ ok value) × (rest value ≡ ok out)
>>=-eq-ok (err exc) rest raised = cc
>>=-eq-ok (ok value) rest returned = (value, refl, returned)

pub guard-eq-ok :
    {E B : Type 0} (t : Bool) (e : E) (k : Result E B) {b : B}
    → (guard t e >> k) ≡ ok b
    → (t ≡ true) × (k ≡ ok b)
guard-eq-ok true e k h = (refl, h)
guard-eq-ok false e k h = cc

pub map_err-eq-ok :
    {E F A : Type 0} (f : E → F) (m : Result E A) {a : A} → map_err f m ≡ ok a → m ≡ ok a
map_err-eq-ok f (ok x) h = cc
map_err-eq-ok f (err e) h = cc

pub Result-cases :
    {E A : Type 0} (r : Result E A) → ((a : A) × (r ≡ ok a)) ⊎ ((e : E) × (r ≡ err e))
Result-cases (ok a) = inl (a, refl)
Result-cases (err e) = inr (e, refl)

pub ok-injective : {E A : Type 0} (a b : A) → ◌≡◌ {A = Result E A} (ok a) (ok b) → a ≡ b
ok-injective a b h = ground arith

pub if-eq-ok :
    {E A : Type 0} (t : Bool) (a : A) (e : E) {r : A}
    → (if t then ok a else err e) ≡ ok r
    → (t ≡ true) × (a ≡ r)
if-eq-ok true a e h = (refl, ok-injective a _ h)
if-eq-ok false a e h = cc

-- A step that returns is followed by the rest.
pub >>=-ok :
    {E A B : Type 0} (action : Result E A) (rest : A → Result E B) {value : A} {r : Result E B}
    → action ≡ ok value
    → rest value ≡ r
    → (action >>= rest) ≡ r
>>=-ok action rest done h = rw done h

pub guard-true :
    {E B : Type 0} (t : Bool) (e : E) (k : Result E B) {r : Result E B}
    → t ≡ true
    → k ≡ r
    → (guard t e >> k) ≡ r
guard-true t e k holds h = rw holds h
