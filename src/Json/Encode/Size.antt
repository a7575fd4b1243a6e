-- ===== src/Json/Encode/Size.antt =====
-- common.py: bounded_canonical_json_size, and its agreement with canonical_json.
use constitutional_agent_tes.Base.{
  ℕ, ◌+◌, ◌≤◌, ◌≡◌, refl, sym, ap, ◌∙◌, ◌↔◌, ◌&&◌, true, Option, none, some, List, [], ◌∷◌, ◌++◌,
  arith, ltb, if◌then◌else◌, Text, utf8_size, encodable, utf8_size-append, encodable-append, Result,
  ok, err,
}
use mathlib.Core.Option.{some-injective}
use constitutional_agent_tes.Json.{Value}
use constitutional_agent_tes.Json.Ensure.{JsonError, invalid_unicode, byte_limit, not_strict}
use constitutional_agent_tes.Json.Encode.{
  FloatText, Chunk, piece, failure, iterencode, join, canonical_json,
}

-- `for chunk in encoder.iterencode(value)`
unfoldable pub measure : ℕ → ℕ → List Chunk → Result JsonError ℕ
measure limit total [] = ok total
measure limit total (failure ∷ cs) = err not_strict
measure limit total (piece t ∷ cs) =
    let rest = measure limit (total + utf8_size t) cs in
    if encodable t
    then (if ltb limit (total + utf8_size t) then err byte_limit else rest)
    else err invalid_unicode

module _ ⦃repr : FloatText⦄ where
  unfoldable pub bounded_canonical_json_size : Value → ℕ → Result JsonError ℕ
  unfolding measure iterencode utf8_size encodable
  bounded_canonical_json_size v limit = measure limit 0 (iterencode v)

-- The text of all chunks is there, encodable, and fits.
abbrev Measured : ℕ → ℕ → Option Text → ℕ → Type 0
Measured limit total joined n =
    (t : Text) × (joined ≡ some t) × (encodable t ≡ true) × (total + utf8_size t ≡ n) × (n ≤ limit)

measure_sound :
    (limit total : ℕ) (cs : List Chunk) (n : ℕ)
    → total ≤ limit
    → measure limit total cs ≡ ok n
    → Measured limit total (join cs) n
unfolding measure join
measure_sound limit total [] n h e =
    ([], refl, unfold encodable in refl, unfold utf8_size in ground arith, ground arith)
measure_sound limit total (failure ∷ cs) n h e = cc
measure_sound limit total (piece t ∷ cs) n h e =
    let (rest, joined, enc, size, fits) =
      measure_sound limit (total + utf8_size t) cs n (ground arith) (ground arith) in
    (
      t ++ rest,
      rw joined,
      rw encodable-append (ground arith),
      rw utf8_size-append (omega arith),
      fits,
    )

piece-cases :
    (p : Text) (joined : Option Text) {t : Text}
    → elim joined [ none ↦ none | some rest ↦ some (p ++ rest) ] ≡ some t
    → (rest : Text) × (joined ≡ some rest) × (p ++ rest ≡ t)
piece-cases p none h = cc
piece-cases p (some rest) h = (rest, refl, ground arith)

empty_total : (limit total n : ℕ) → Measured limit total (some []) n → total ≡ n
unfolding utf8_size
empty_total limit total n (t, joined, enc, size, fits) =
    omega (arith, ap utf8_size (some-injective [] t joined))

measure_complete :
    (limit total : ℕ) (cs : List Chunk) (n : ℕ)
    → Measured limit total (join cs) n
    → measure limit total cs ≡ ok n
unfolding measure join
measure_complete limit total [] n (t, joined, enc, size, fits) =
    ap ok (empty_total limit total n (t, joined, enc, size, fits))
measure_complete limit total (failure ∷ cs) n (t, joined, enc, size, fits) = cc
measure_complete limit total (piece p ∷ cs) n (t, joined, enc, size, fits) =
    let (rest, e, whole) = piece-cases p (join cs) joined in
    let both : (encodable p && encodable rest) ≡ true =
      sym (encodable-append p rest) ∙ ap encodable whole ∙ enc in
    let sum : utf8_size p + utf8_size rest ≡ utf8_size t =
      sym (utf8_size-append p rest) ∙ ap utf8_size whole in
    ground (
      arith,
      measure_complete limit (total + utf8_size p) cs n (rest, e, ground arith, omega arith, fits),
    )

module _ ⦃repr : FloatText⦄ where
  -- The measured size is `n` exactly when the canonical text is there, encodable in UTF-8, `n`
  -- bytes long and within the limit: the early stop changes no result.
  pub bounded_size-canonical_json :
      (v : Value) (limit n : ℕ)
      → (bounded_canonical_json_size v limit ≡ ok n) ↔ (
          (t : Text) × (canonical_json v ≡ some t)
          × (encodable t ≡ true)
          × (utf8_size t ≡ n)
          × (n ≤ limit))
  unfolding bounded_canonical_json_size canonical_json
  bounded_size-canonical_json v limit n = (
    (λ h.
        let (t, j, enc, size, fits) = measure_sound limit 0 (iterencode v) n (omega arith) h in
        (t, j, enc, omega arith, fits)),
    (λ (t, j, enc, size, fits).
        measure_complete limit 0 (iterencode v) n (t, j, enc, omega arith, fits)),
  )
