-- ===== src/Base/Texts.antt =====
-- Python's `str`: the list of its code points, surrogates included.
use Prim.Native.Nat.{ℕ, ◌+◌}
use Prim.Native.Char.{code}
use Prim.Native.String.{String}
use mathlib.Core.Path.{◌≡◌, refl, ap}
use mathlib.Core.Logic.{◌↔◌}
use mathlib.Core.Bool.{Bool, true, false, ◌&&◌, ◌||◌, not}
use mathlib.Core.List.{List, [], ◌∷◌, ◌++◌}
use native.Mathlib.Omega.{arith}
use constitutional_agent_tes.Base.Tests.{ltb, leb, ◌==◌, if◌then◌else◌}
use constitutional_agent_tes.Base.Lists.{any}

abbrev pub Text : Type 0
Text = List ℕ

-- The code points of a literal.
abbrev pub txt : String → Text
txt String.[] = []
txt (String.◌∷◌ c s) = code c ∷ txt s

-- `s == t`
unfoldable pub same : Text → Text → Bool
same [] [] = true
same [] (d ∷ t) = false
same (c ∷ s) [] = false
same (c ∷ s) (d ∷ t) = c == d && same s t

pub same→eq : (s t : Text) → same s t ≡ true → s ≡ t
unfolding same
same→eq [] [] h = refl
same→eq [] (d ∷ t) h = cc
same→eq (c ∷ s) [] h = cc
same→eq (c ∷ s) (d ∷ t) h = ground (arith, same→eq s t)

pub same_refl : (s : Text) → same s s ≡ true
unfolding same
same_refl [] = refl
same_refl (c ∷ s) = ground (arith, same_refl s)

pub same_sym : (s t : Text) → same s t ≡ same t s
unfolding same
same_sym [] [] = refl
same_sym [] (d ∷ t) = refl
same_sym (c ∷ s) [] = refl
same_sym (c ∷ s) (d ∷ t) = ground (arith, same_sym s t)

pub eq→same : (s t : Text) → s ≡ t → same s t ≡ true
eq→same s t e = rw e (same_refl t)

pub same_iff : (s t : Text) → (same s t ≡ true) ↔ (s ≡ t)
same_iff s t = (same→eq s t, eq→same s t)

-- `s <= t` in the order of code points.
unfoldable pub text_le : Text → Text → Bool
text_le [] t = true
text_le (c ∷ s) [] = false
text_le (c ∷ s) (d ∷ t) = ltb c d || (c == d && text_le s t)

-- `name in names`
unfoldable pub contains : List Text → Text → Bool
contains [] name = false
contains (n ∷ names) name = same n name || contains names name

pub contains-any :
    (names : List Text) (name : Text) → contains names name ≡ any (λ n. same n name) names
unfolding contains
contains-any [] name = refl
contains-any (n ∷ names) name = ap (λ b. same n name || b) (contains-any names name)

-- Whether no name occurs twice, `len(set(names)) == len(names)`.
unfoldable pub distinct : List Text → Bool
distinct [] = true
distinct (n ∷ names) = not (contains names n) && distinct names

-- `sorted(names)`
unfoldable pub insert_sorted : Text → List Text → List Text
insert_sorted n [] = n ∷ []
insert_sorted n (m ∷ names) = if text_le n m then n ∷ m ∷ names else m ∷ insert_sorted n names

unfoldable pub sort_names : List Text → List Text
unfolding insert_sorted text_le
sort_names [] = []
sort_names (n ∷ names) = insert_sorted n (sort_names names)

-- The bytes of a code point in UTF-8.
unfoldable pub utf8_width : ℕ → ℕ
utf8_width c = if ltb c 0x80 then 1 else if ltb c 0x800 then 2 else if ltb c 0x10000 then 3 else 4

-- `len(s.encode("utf-8"))`, where that is defined.
unfoldable pub utf8_size : Text → ℕ
unfolding utf8_width
utf8_size [] = 0
utf8_size (c ∷ s) = utf8_width c + utf8_size s

abbrev pub is_surrogate : ℕ → Bool
is_surrogate c = leb 0xd800 c && leb c 0xdfff

-- `s.encode("utf-8")` raises on a surrogate only.
unfoldable pub encodable : Text → Bool
encodable [] = true
encodable (c ∷ s) = not (is_surrogate c) && encodable s

pub utf8_size-append : (s t : Text) → utf8_size (s ++ t) ≡ utf8_size s + utf8_size t
unfolding utf8_size
utf8_size-append [] t = omega arith
utf8_size-append (c ∷ s) t = omega (arith, utf8_size-append s t)

pub encodable-append : (s t : Text) → encodable (s ++ t) ≡ (encodable s && encodable t)
unfolding encodable
encodable-append [] t = refl
encodable-append (c ∷ s) t = rw (encodable-append s t) (ground arith)

literals_differ : same (txt "kind") (txt "path") ≡ false
unfolding same
literals_differ = refl

sorted_names : sort_names (txt "b" ∷ txt "ab" ∷ txt "a" ∷ []) ≡ txt "a" ∷ txt "ab" ∷ txt "b" ∷ []
unfolding sort_names
sorted_names = refl
