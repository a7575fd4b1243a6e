-- ===== src/Json/Encode.antt =====
-- common.py: canonical_json, bounded_canonical_json_size and json_values_equal, over the encoder of
-- Python's `json` (sorted keys, compact separators, no ASCII escapes, NaN refused).
-- `float.__repr__` is a parameter.
pub mod Size
use constitutional_agent_tes.Base.{
  ℕ, zero, suc, ◌+◌, ◌/◌, ◌%◌, ◌≡◌, refl, Bool, true, false, Option, none, some, List, [], ◌∷◌,
  ◌++◌, arith, ltb, leb, ◌==◌, if◌then◌else◌, Text, txt, same, text_le, decimal, int_text, length,
  ℤ, pos, negsuc,
}
use constitutional_agent_tes.Json.{
  Value, null, bool, int, float, str, arr, obj, other, Items, nil, cons, Fields, end, field,
}
use constitutional_agent_tes.Json.Float.{is_finite}

-- The text of a finite float, `float.__repr__`.
pub record FloatText : Type 0 where
  pub float_repr : ℕ → Text

-- A chunk of output, or the exception that the encoder raises at that place.
pub data Chunk : Type 0 where
  piece : Text → Chunk
  failure : Chunk

abbrev pub hex_digit : ℕ → ℕ
hex_digit n = if ltb n 10 then 48 + n else 87 + n

-- ESCAPE_DCT of the encoder
unfoldable pub escape : ℕ → Text
escape c =
    if c == 0x22
    then txt "\\\""
    else if c == 0x5c
    then txt "\\\\"
    else if c == 0x0a
    then txt "\\n"
    else if c == 0x0d
    then txt "\\r"
    else if c == 0x09
    then txt "\\t"
    else if c == 0x0c
    then txt "\\f"
    else if c == 0x08
    then txt "\\b"
    else if ltb c 0x20
    then txt "\\u00" ++ hex_digit (c / 16) ∷ hex_digit (c % 16) ∷ []
    else c ∷ []

unfoldable pub escape_all : Text → Text
unfolding escape
escape_all [] = []
escape_all (c ∷ s) = escape c ++ escape_all s

unfoldable pub quote : Text → Text
unfolding escape_all
quote s = 0x22 ∷ (escape_all s ++ 0x22 ∷ [])

-- `int.__repr__` raises above 4300 digits.
abbrev pub max_int_digits : ℕ
max_int_digits = 4300

abbrev pub digit_count : ℤ → ℕ
digit_count (pos n) = length (decimal n)
digit_count (negsuc n) = length (decimal (suc n))

-- The members of a dict, each with its key and the chunks of its value.
abbrev pub Members : Type 0
Members = List (Text × List Chunk)

unfoldable pub insert_member : Text → List Chunk → Members → Members
insert_member k cs [] = (k, cs) ∷ []
insert_member k cs ((m, ds) ∷ rest) =
    if text_le k m then (k, cs) ∷ (m, ds) ∷ rest else (m, ds) ∷ insert_member k cs rest

-- `sorted(dct.items())`
unfoldable pub sort_members : Members → Members
unfolding insert_member text_le
sort_members [] = []
sort_members ((k, cs) ∷ rest) = insert_member k cs (sort_members rest)

-- The members in order, each behind its separator: the bracket, then commas.
unfoldable pub member_chunks : Text → Members → List Chunk
unfolding quote
member_chunks lead [] = []
member_chunks lead ((k, cs) ∷ rest) =
    piece lead ∷ piece (quote k) ∷ piece (txt ":") ∷ (cs ++ member_chunks (txt ",") rest)

unfoldable pub object_chunks : Members → List Chunk
unfolding sort_members member_chunks
object_chunks [] = piece (txt "{}") ∷ []
object_chunks (m ∷ ms) = member_chunks (txt "{") (sort_members (m ∷ ms)) ++ piece (txt "}") ∷ []

module _ ⦃repr : FloatText⦄ where
  -- `JSONEncoder(...).iterencode(value)`
  unfoldable mutual
    pub iterencode : Value → List Chunk
    iterencode null = piece (txt "null") ∷ []
    iterencode (bool true) = piece (txt "true") ∷ []
    iterencode (bool false) = piece (txt "false") ∷ []
    iterencode (int n) =
        (if leb (digit_count n) max_int_digits then piece (int_text n) else failure) ∷ []
    iterencode (float b) = (if is_finite b then piece (repr.float_repr b) else failure) ∷ []
    iterencode (str s) = piece (quote s) ∷ []
    iterencode (arr nil) = piece (txt "[]") ∷ []
    iterencode (arr (cons v xs)) = piece (txt "[") ∷ (iterencode v ++ tail_chunks xs)
    iterencode (obj fs) = object_chunks (encode_members fs)
    iterencode other = failure ∷ []

    -- The items behind the first one, and the bracket.
    pub tail_chunks : Items → List Chunk
    tail_chunks nil = piece (txt "]") ∷ []
    tail_chunks (cons v xs) = piece (txt ",") ∷ (iterencode v ++ tail_chunks xs)

    pub encode_members : Fields → Members
    encode_members end = []
    encode_members (field k v fs) = (k, iterencode v) ∷ encode_members fs

-- `"".join(chunks)`
unfoldable pub join : List Chunk → Option Text
join [] = some []
join (failure ∷ cs) = none
join (piece t ∷ cs) = elim (join cs) [ none ↦ none | some rest ↦ some (t ++ rest) ]

-- An encoder that raised makes the comparison false.
abbrev pub equal_texts : Option Text → Option Text → Bool
equal_texts (some s) (some t) = same s t
equal_texts _ _ = false

module _ ⦃repr : FloatText⦄ where
  -- common.py: canonical_json; `none` is the exception of the encoder
  unfoldable pub canonical_json : Value → Option Text
  unfolding iterencode join object_chunks quote int_text is_finite
  canonical_json v = join (iterencode v)

  -- common.py: json_values_equal
  unfoldable pub json_values_equal : Value → Value → Bool
  unfolding canonical_json same
  json_values_equal left right = equal_texts (canonical_json left) (canonical_json right)
