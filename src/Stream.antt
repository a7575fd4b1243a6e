-- ===== src/Stream.antt =====
-- common.py: load_json_stream and parse_json_text. The stream, the decoder of UTF-8 and json.loads are
-- parameters.
pub mod Limit
pub mod Chunks
pub mod Members
use constitutional_agent_tes.Base.{
  ℕ, zero, suc, ◌+◌, ◌-◌, ◌/◌, ◌%◌, Bool, true, false, ◌&&◌, ◌||◌, not, Option, none, some, List,
  [], ◌∷◌, ◌++◌, ltb, ◌==◌, if◌then◌else◌, Text, length, utf8_size, encodable, Result, ok, err,
  ◌>>=◌, ◌>>◌, guard, map_err,
}
use constitutional_agent_tes.Json.{Value, obj, Fields, end, set_member, member}
use constitutional_agent_tes.Json.Ensure.{
  ensure_json_value, max_json_input_bytes, JsonError, invalid_unicode, non_finite,
}
use constitutional_agent_tes.Errors.{
  JsonInputReason, unreadable, bad_encoding, too_large, not_utf8_text, not_strict_json, too_complex,
  TestbenchError, invalid_json,
}
use constitutional_agent_tes.Precedence.Result.{same_bool}

-- What `input_file.read(size)` does: return bytes or a str, raise a UnicodeError or an OSError, or
-- return another object.
pub data ReadResult : Type 0 where
  byte_chunk : List ℕ → ReadResult
  text_chunk : Text → ReadResult
  undecodable failed_read other_object : ReadResult

-- The bytes of a code point in UTF-8.
unfoldable pub utf8_bytes : ℕ → List ℕ
utf8_bytes c =
    if ltb c 0x80
    then c ∷ []
    else if ltb c 0x800
    then (0xc0 + c / 64) ∷ (0x80 + c % 64) ∷ []
    else if ltb c 0x10000
    then (0xe0 + c / 4096) ∷ (0x80 + c / 64 % 64) ∷ (0x80 + c % 64) ∷ []
    else (0xf0 + c / 262144) ∷ (0x80 + c / 4096 % 64) ∷ (0x80 + c / 64 % 64) ∷ (0x80 + c % 64) ∷ []

unfoldable pub encode : Text → List ℕ
unfolding utf8_bytes
encode [] = []
encode (c ∷ t) = utf8_bytes c ++ encode t

abbrev pub encode_strict : Text → Option (List ℕ)
encode_strict t = if encodable t then some (encode t) else none

-- One iteration: the loop ends, or goes on with the kind of the stream and the data so far.
pub data Iteration : Type 0 where
  stop : Result JsonInputReason (List ℕ) → Iteration
  more : Bool → List ℕ → Iteration

-- `stream_is_binary is not None and binary != stream_is_binary`
abbrev pub changes : Option Bool → Bool → Bool
changes none binary = false
changes (some b) binary = not (same_bool b binary)

abbrev pub extend : Bool → List ℕ → Option (List ℕ) → Iteration
extend binary buffer none = stop (err unreadable)
extend binary buffer (some raw) =
    if ltb max_json_input_bytes (length buffer + length raw)
    then stop (err too_large)
    else more binary (buffer ++ raw)

abbrev pub nothing_read : List ℕ → Bool
nothing_read [] = true
nothing_read (c ∷ cs) = false

abbrev pub add_chunk : Option Bool → Bool → List ℕ → List ℕ → Option (List ℕ) → Iteration
add_chunk mode binary buffer chunk raw =
    if changes mode binary
    then stop (err unreadable)
    else if nothing_read chunk
    then stop (ok buffer)
    else extend binary buffer raw

-- The body of the loop, behind the read.
unfoldable pub read_step : Option Bool → List ℕ → ReadResult → Iteration
unfolding encode encodable
read_step mode buffer undecodable = stop (err bad_encoding)
read_step mode buffer failed_read = stop (err unreadable)
read_step mode buffer other_object = stop (err unreadable)
read_step mode buffer (byte_chunk bytes) = add_chunk mode true buffer bytes (some bytes)
read_step mode buffer (text_chunk t) = add_chunk mode false buffer t (encode_strict t)

-- The loop, on fuel; `read s size` is a call of the stream in the state s, with the state behind it.
unfoldable pub read_loop :
    {S : Type 0}
    → (S → ℕ → ReadResult × S)
    → ℕ
    → S
    → Option Bool
    → List ℕ
    → Option (Result JsonInputReason (List ℕ))
unfolding read_step
read_loop read zero s mode buffer = none
read_loop read (suc fuel) s mode buffer =
    let (chunk, next) = read s (max_json_input_bytes + 1 - length buffer) in
    elim (read_step mode buffer chunk) [
      | stop r ↦ some r
      | more binary longer ↦ read_loop read fuel next (some binary) longer
    ]

-- One byte more in each call, and the call that ends the loop.
abbrev pub read_fuel : ℕ
read_fuel = max_json_input_bytes + 2

-- `data.startswith(_BYTE_ORDER_MARKS)`
abbrev pub has_order_mark : List ℕ → Bool
has_order_mark (a ∷ b ∷ c ∷ rest) =
    (a == 0xef && b == 0xbb && c == 0xbf) || ((a == 0xff && b == 0xfe) || (a == 0xfe && b == 0xff))
has_order_mark (a ∷ b ∷ []) = (a == 0xff && b == 0xfe) || (a == 0xfe && b == 0xff)
has_order_mark _ = false

-- common.py: _reject_duplicate_members
unfoldable pub add_members : Fields → List (Text × Value) → Option Fields
unfolding member set_member
add_members result [] = some result
add_members result ((key, value) ∷ pairs) = elim (member key result) [
  | some v ↦ none
  | none ↦ add_members (set_member key value result) pairs
]

unfoldable pub reject_duplicate_members : List (Text × Value) → Option Fields
unfolding add_members
reject_duplicate_members pairs = add_members end pairs

-- `bytes.decode("utf-8")`, and `json.loads` with its hook for objects; it refuses NaN and Infinity.
pub record JsonLibrary : Type 0 where
  pub decode : List ℕ → Option Text
  pub loads : (List (Text × Value) → Option Fields) → Text → Option Value

abbrev pub starts_with_mark : Text → Bool
starts_with_mark [] = false
starts_with_mark (c ∷ t) = c == 0xfeff

-- How parse_json_text reports an error of ensure_json_value.
abbrev pub parse_reason : JsonError → TestbenchError
parse_reason invalid_unicode = invalid_json not_strict_json
parse_reason non_finite = invalid_json not_strict_json
parse_reason _ = invalid_json too_complex

abbrev pub or_reason : {A : Type 0} → JsonInputReason → Option A → Result TestbenchError A
or_reason reason none = err (invalid_json reason)
or_reason reason (some a) = ok a

-- The loop never runs out of fuel.
abbrev pub loaded : Option (Result JsonInputReason (List ℕ)) → Result TestbenchError (List ℕ)
loaded none = err (invalid_json unreadable)
loaded (some r) = map_err invalid_json r

module _ ⦃json : JsonLibrary⦄ where
  -- common.py: parse_json_text
  unfoldable pub parse_json_text : Text → Result TestbenchError Value
  unfolding reject_duplicate_members
  parse_json_text text = do
    guard (encodable text) (invalid_json not_utf8_text)
    guard (not (ltb max_json_input_bytes (utf8_size text))) (invalid_json too_large)
    guard (not (starts_with_mark text)) (invalid_json bad_encoding)
    value ← or_reason not_strict_json (json.loads reject_duplicate_members text)
    map_err parse_reason (ensure_json_value value)
    ok value

  -- load_json_stream behind the loop: the order mark, the decoder and the parser.
  abbrev pub parse_buffer : List ℕ → Result TestbenchError Value
  parse_buffer buffer = do
    guard (not (has_order_mark buffer)) (invalid_json bad_encoding)
    text ← or_reason bad_encoding (json.decode buffer)
    parse_json_text text

  -- common.py: load_json_stream
  unfoldable pub load_json_stream :
      {S : Type 0} → (S → ℕ → ReadResult × S) → S → Result TestbenchError Value
  unfolding read_loop parse_json_text
  load_json_stream read s = do
    buffer ← loaded (read_loop read read_fuel s none [])
    parse_buffer buffer
