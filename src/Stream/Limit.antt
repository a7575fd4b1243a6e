-- ===== src/Stream/Limit.antt =====
-- The loop of load_json_stream ends, within the limit on bytes; what is returned is strict JSON.
use constitutional_agent_tes.Base.{
  ℕ, zero, suc, ◌+◌, ◌-◌, ◌≡◌, refl, ap, subst, ◌≤◌, ◌<◌, Bool, true, false, not, inl, inr, Option,
  none, some, List, [], ◌∷◌, arith, ltb, Text, length, length-append, encodable, utf8_size, Result,
  ok, err, Bool-cases, not_ltb→le, ◌>>=◌, >>=-eq-ok, ok-injective, guard, map_err, map_err-eq-ok,
}
use constitutional_agent_tes.Json.{Value}
use constitutional_agent_tes.Json.Ensure.{
  ensure_json_value, max_json_input_bytes, max_json_nodes, max_json_nesting,
}
use constitutional_agent_tes.Json.Ensure.Strict.{node_count, nesting, IsStrict}
use constitutional_agent_tes.Json.Ensure.Accepts.{ensure_json_value-accepts}
use constitutional_agent_tes.Errors.{
  JsonInputReason, too_large, invalid_json, not_utf8_text, bad_encoding, not_strict_json,
}
use constitutional_agent_tes.Stream.{
  ReadResult, byte_chunk, text_chunk, undecodable, failed_read, other_object, utf8_bytes, encode,
  encode_strict, Iteration, stop, more, extend, nothing_read, add_chunk, changes, read_step,
  read_loop, JsonLibrary, parse_json_text, load_json_stream, loaded, parse_buffer, read_fuel,
  has_order_mark, or_reason, starts_with_mark, parse_reason, reject_duplicate_members,
}

-- What the loop may return: an error, or at most 1,000,000 bytes.
abbrev pub WithinLimit : Result JsonInputReason (List ℕ) → Type 0
WithinLimit (ok bytes) = length bytes ≤ max_json_input_bytes
WithinLimit (err reason) = Unit

-- An iteration that goes on has read a byte and stays within the limit.
abbrev Advances : List ℕ → Iteration → Type 0
Advances buffer (stop r) = WithinLimit r
Advances buffer (more binary longer) =
    (length buffer < length longer) × (length longer ≤ max_json_input_bytes)

extend-Advances :
    (binary : Bool) (buffer raw : List ℕ)
    → 1 ≤ length raw
    → Advances buffer (extend binary buffer (some raw))
extend-Advances binary buffer raw some_byte =
    elim (Bool-cases (ltb max_json_input_bytes (length buffer + length raw))) [
      | inl e ↦ rw e tt
      | inr e ↦ rw e (
        omega (arith, length-append buffer raw),
        omega (arith, length-append buffer raw, not_ltb→le _ _ e),
      )
    ]

utf8_bytes_some : (c : ℕ) → 1 ≤ length (utf8_bytes c)
unfolding utf8_bytes
utf8_bytes_some c = ground arith

encode_some : (c : ℕ) (t : Text) → 1 ≤ length (encode (c ∷ t))
unfolding encode
encode_some c t = omega (arith, length-append (utf8_bytes c) (encode t), utf8_bytes_some c)

add_chunk-Advances :
    (mode : Option Bool) (binary : Bool) (buffer chunk : List ℕ) (raw : Option (List ℕ))
    → length buffer ≤ max_json_input_bytes
    → (nothing_read chunk ≡ false → Advances buffer (extend binary buffer raw))
    → Advances buffer (add_chunk mode binary buffer chunk raw)
add_chunk-Advances mode binary buffer chunk raw fit extends =
    elim (Bool-cases (changes mode binary)) [
      | inl e ↦ rw e tt
      | inr e ↦ rw e (elim (Bool-cases (nothing_read chunk)) [
        | inl empty ↦ rw empty fit
        | inr full ↦ rw full (extends full)
      ])
    ]

byte_count : (bytes : List ℕ) → nothing_read bytes ≡ false → 1 ≤ length bytes
byte_count [] h = cc
byte_count (b ∷ bytes) h = omega arith

text_extends :
    (buffer : List ℕ) (t : Text)
    → nothing_read t ≡ false
    → Advances buffer (extend false buffer (encode_strict t))
text_extends buffer [] h = cc
text_extends buffer (c ∷ t) h = elim (Bool-cases (encodable (c ∷ t))) [
  | inl e ↦ rw e (extend-Advances false buffer (encode (c ∷ t)) (encode_some c t))
  | inr e ↦ rw e tt
]

read_step-Advances :
    (mode : Option Bool) (buffer : List ℕ) (chunk : ReadResult)
    → length buffer ≤ max_json_input_bytes
    → Advances buffer (read_step mode buffer chunk)
unfolding read_step
read_step-Advances mode buffer undecodable fit = tt
read_step-Advances mode buffer failed_read fit = tt
read_step-Advances mode buffer other_object fit = tt
read_step-Advances mode buffer (byte_chunk bytes) fit =
    add_chunk-Advances mode true buffer bytes (some bytes) fit
      (λ full. extend-Advances true buffer bytes (byte_count bytes full))
read_step-Advances mode buffer (text_chunk t) fit =
    add_chunk-Advances mode false buffer t (encode_strict t) fit (text_extends buffer t)

-- With more fuel than bytes that may still be read, the loop ends within the limit.
loop_ends :
    {S : Type 0} (read : S → ℕ → ReadResult × S) (fuel : ℕ) (s : S) (mode : Option Bool)
    (buffer : List ℕ)
    → length buffer ≤ max_json_input_bytes
    → max_json_input_bytes < fuel + length buffer
    → (r : Result JsonInputReason (List ℕ)) × (read_loop read fuel s mode buffer ≡ some r)
      × WithinLimit r
unfolding read_loop
loop_ends read zero s mode buffer fit enough = absurd (omega arith)
loop_ends {S = S} read (suc fuel) s mode buffer fit enough =
    let answer = read s (max_json_input_bytes + 1 - length buffer) in
    step answer.1 (read_step mode buffer answer.0) (read_step-Advances mode buffer answer.0 fit)
      (loop_ends read fuel)
  where
    step :
        (next : S) (i : Iteration)
        → Advances buffer i
        → ((s : S) (mode : Option Bool) (longer : List ℕ)
            → length longer ≤ max_json_input_bytes
            → max_json_input_bytes < fuel + length longer
            → (r : Result JsonInputReason (List ℕ)) × (read_loop read fuel s mode longer ≡ some r)
              × WithinLimit r)
        → (r : Result JsonInputReason (List ℕ)) × (elim i [
          | stop r ↦ some r
          | more binary longer ↦ read_loop read fuel next (some binary) longer
        ]
            ≡ some r)
          × WithinLimit r
    step next (stop r) within rest = (r, refl, within)
    step next (more binary longer) within rest =
        rest next (some binary) longer within.1 (omega (arith, within.0, enough))

-- Whatever a stream answers, the loop of load_json_stream ends: with an error, or with at most
-- 1,000,000 bytes.
pub read_loop-WithinLimit :
    {S : Type 0} (read : S → ℕ → ReadResult × S) (s : S)
    → (r : Result JsonInputReason (List ℕ)) × (read_loop read read_fuel s none [] ≡ some r)
      × WithinLimit r
read_loop-WithinLimit read s = loop_ends read read_fuel s none [] (omega arith) (omega arith)

or_reason-eq-ok :
    {A : Type 0} (reason : JsonInputReason) (o : Option A) {a : A}
    → or_reason reason o ≡ ok a
    → o ≡ some a
or_reason-eq-ok reason none h = cc
or_reason-eq-ok reason (some x) h = ap some (ok-injective x _ h)

module _ ⦃json : JsonLibrary⦄ where
  -- A value that is parsed has passed the structural checks.
  parse_json_text-checked :
      (text : Text) {v : Value} → parse_json_text text ≡ ok v → ensure_json_value v ≡ ok tt
  unfolding parse_json_text
  parse_json_text-checked text h =
      let (u, hu, h1) = >>=-eq-ok (guard (encodable text) (invalid_json not_utf8_text)) _ h in
      let (w, hw, h2) =
        >>=-eq-ok (guard (not (ltb max_json_input_bytes (utf8_size text))) (invalid_json too_large))
          _ h1 in
      let (x, hx, h3) =
        >>=-eq-ok (guard (not (starts_with_mark text)) (invalid_json bad_encoding)) _ h2 in
      let (value, hv, h4) =
        >>=-eq-ok (or_reason not_strict_json (json.loads reject_duplicate_members text)) _ h3 in
      let (done, checked, h5) = >>=-eq-ok (map_err parse_reason (ensure_json_value value)) _ h4 in
      subst (λ y. ensure_json_value y ≡ ok tt) (ok-injective _ _ h5)
        (map_err-eq-ok parse_reason (ensure_json_value value) checked)

  loaded-checked :
      (o : Option (Result JsonInputReason (List ℕ))) {v : Value}
      → (loaded o >>= parse_buffer) ≡ ok v
      → ensure_json_value v ≡ ok tt
  loaded-checked o h =
      let (buffer, hb, h1) = >>=-eq-ok (loaded o) parse_buffer h in
      let (u, hu, h2) =
        >>=-eq-ok (guard (not (has_order_mark buffer)) (invalid_json bad_encoding)) _ h1 in
      let (text, ht, h3) = >>=-eq-ok (or_reason bad_encoding (json.decode buffer)) _ h2 in
      parse_json_text-checked text h3

  -- A value that load_json_stream returns is a tree of JSON types with encodable text and finite
  -- numbers, of at most 100,000 nodes and 32 nested containers.
  pub load_json_stream-IsStrict :
      {S : Type 0} (read : S → ℕ → ReadResult × S) (s : S) {v : Value}
      → load_json_stream read s ≡ ok v
      → (node_count v ≤ max_json_nodes) × (nesting v ≤ max_json_nesting) × IsStrict v
  unfolding load_json_stream
  load_json_stream-IsStrict read s h =
      (ensure_json_value-accepts _).0 (loaded-checked (read_loop read read_fuel s none []) h)
