-- ===== src/Stream/Chunks.antt =====
-- How a binary stream is cut into chunks does not matter.
use constitutional_agent_tes.Base.{
  ℕ, zero, suc, ◌+◌, ◌-◌, ◌≡◌, refl, sym, ap, ◌∙◌, ◌≤◌, ◌<◌, Bool, true, false, inl, inr, Option,
  none, some, List, [], ◌∷◌, ◌++◌, arith, ltb, if◌then◌else◌, length, length-append, Result, ok,
  err, Bool-cases, not_ltb→le, ltb→lt,
}
use constitutional_agent_tes.Json.Ensure.{max_json_input_bytes}
use constitutional_agent_tes.Errors.{JsonInputReason, too_large}
use constitutional_agent_tes.Stream.{
  ReadResult, byte_chunk, Iteration, stop, more, extend, read_step, read_loop, read_fuel, changes,
}

-- A binary stream, with the bytes that it has not returned yet: a call for at least one byte returns a
-- part of them from the front, and no byte only where none is left.
abbrev pub Serves : {S : Type 0} → (S → ℕ → ReadResult × S) → (S → List ℕ) → Type 0
Serves {S = S} read unread =
    (s : S) (size : ℕ)
    → 1 ≤ size
    → (chunk : List ℕ) × ((read s size).0 ≡ byte_chunk chunk)
      × (unread s ≡ chunk ++ unread (read s size).1)
      × (chunk ≡ [] → unread s ≡ [])

-- The data, unless there is too much of it.
abbrev pub limited : List ℕ → Result JsonInputReason (List ℕ)
limited bytes = if ltb max_json_input_bytes (length bytes) then err too_large else ok bytes

append_nil : (xs : List ℕ) → xs ++ [] ≡ xs
append_nil [] = refl
append_nil (x ∷ xs) = ap (λ ys. x ∷ ys) (append_nil xs)

append_assoc : (xs ys zs : List ℕ) → (xs ++ ys) ++ zs ≡ xs ++ (ys ++ zs)
append_assoc [] ys zs = refl
append_assoc (x ∷ xs) ys zs = ap (λ t. x ∷ t) (append_assoc xs ys zs)

-- No chunk was read yet, or the stream is binary.
abbrev IsBinary : Option Bool → Type 0
IsBinary mode = changes mode true ≡ false

limited_small : (bytes : List ℕ) → length bytes ≤ max_json_input_bytes → limited bytes ≡ ok bytes
limited_small bytes small = elim (Bool-cases (ltb max_json_input_bytes (length bytes))) [
  | inl e ↦ absurd (omega (arith, ltb→lt max_json_input_bytes (length bytes) e))
  | inr e ↦ rw e refl
]

limited_large :
    (bytes : List ℕ) → max_json_input_bytes < length bytes → limited bytes ≡ err too_large
limited_large bytes large = elim (Bool-cases (ltb max_json_input_bytes (length bytes))) [
  | inl e ↦ rw e refl
  | inr e ↦ absurd (omega (arith, not_ltb→le max_json_input_bytes (length bytes) e))
]

step_end :
    (mode : Option Bool) (buffer : List ℕ)
    → IsBinary mode
    → read_step mode buffer (byte_chunk []) ≡ stop (ok buffer)
unfolding read_step
step_end mode buffer binary = rw binary refl

step_chunk :
    (mode : Option Bool) (buffer chunk : List ℕ)
    → IsBinary mode
    → 1 ≤ length chunk
    → read_step mode buffer (byte_chunk chunk) ≡ extend true buffer (some chunk)
unfolding read_step
step_chunk mode buffer [] binary full = absurd (omega arith)
step_chunk mode buffer (c ∷ chunk) binary full = rw binary refl

module _ {S : Type 0} (read : S → ℕ → ReadResult × S) (unread : S → List ℕ) where
  -- What an iteration leads to.
  abbrev next : ℕ → S → Iteration → Option (Result JsonInputReason (List ℕ))
  next fuel s i = elim i [
    | stop r ↦ some r
    | more binary longer ↦ read_loop read fuel s (some binary) longer
  ]

  read_loop-read_step :
      (fuel : ℕ) (s : S) (mode : Option Bool) (buffer : List ℕ) (chunk : ReadResult) {i : Iteration}
      → (read s (max_json_input_bytes + 1 - length buffer)).0 ≡ chunk
      → read_step mode buffer chunk ≡ i
      → read_loop read (suc fuel) s mode buffer
        ≡ next fuel (read s (max_json_input_bytes + 1 - length buffer)).1 i
  unfolding read_loop
  read_loop-read_step fuel s mode buffer chunk answer step =
      ap (next fuel (read s (max_json_input_bytes + 1 - length buffer)).1)
        (ap (read_step mode buffer) answer ∙ step)

  -- The iteration behind a chunk, where the rest of the loop is as promised.
  next-chunk :
      (fuel : ℕ) (later : S) (mode : Option Bool) (buffer chunk bytes : List ℕ)
      → IsBinary mode
      → length buffer ≤ max_json_input_bytes
      → bytes ≡ chunk ++ unread later
      → (chunk ≡ [] → bytes ≡ [])
      → (1 ≤ length chunk
          → length (buffer ++ chunk) ≤ max_json_input_bytes
          → read_loop read fuel later (some true) (buffer ++ chunk)
            ≡ some (limited ((buffer ++ chunk) ++ unread later)))
      → next fuel later (read_step mode buffer (byte_chunk chunk))
        ≡ some (limited (buffer ++ bytes))
  next-chunk fuel later mode buffer [] bytes binary fit split ended rest =
      ap (next fuel later) (step_end mode buffer binary)
      ∙ ap some (
          sym (limited_small buffer fit)
          ∙ ap limited (sym (append_nil buffer) ∙ ap (λ ys. buffer ++ ys) (sym (ended refl))))
  next-chunk fuel later mode buffer (b ∷ bs) bytes binary fit split ended rest =
      let chunk = b ∷ bs in
      ap (next fuel later) (step_chunk mode buffer chunk binary (omega arith))
      ∙ elim (Bool-cases (ltb max_json_input_bytes (length buffer + length chunk))) [
        | inl e ↦ rw e (
            ap some (
              sym (
                limited_large (buffer ++ bytes) (
                  omega (
                    arith,
                    length-append buffer bytes,
                    ap (λ (ys : List ℕ). length ys) split,
                    length-append chunk (unread later),
                    ltb→lt max_json_input_bytes (length buffer + length chunk) e,
                  )))))
        | inr e ↦ rw e (
            rest (omega arith) (omega (arith, length-append buffer chunk, not_ltb→le _ _ e))
            ∙ ap (λ ys. some (limited ys))
                (append_assoc buffer chunk (unread later) ∙ ap (λ ys. buffer ++ ys) (sym split)))
      ]

  read_loop-Serves :
      (fuel : ℕ) (s : S) (mode : Option Bool) (buffer : List ℕ)
      → Serves read unread
      → IsBinary mode
      → length buffer ≤ max_json_input_bytes
      → max_json_input_bytes < fuel + length buffer
      → read_loop read fuel s mode buffer ≡ some (limited (buffer ++ unread s))
  read_loop-Serves zero s mode buffer serves binary fit enough = absurd (omega arith)
  read_loop-Serves (suc fuel) s mode buffer serves binary fit enough =
      let size = max_json_input_bytes + 1 - length buffer in
      let (chunk, answer, split, ended) = serves s size (omega (arith, fit)) in
      let later = (read s size).1 in
      read_loop-read_step fuel s mode buffer (byte_chunk chunk) answer refl
      ∙ next-chunk fuel later mode buffer chunk (unread s) binary fit split ended
          (λ some_byte within.
            read_loop-Serves fuel later (some true) (buffer ++ chunk) serves refl within
              (omega (arith, length-append buffer chunk, some_byte, enough)))

-- However a binary stream cuts its content into the answers to read(size), where an answer to a size
-- of at least 1 takes bytes from the front of what is left and is empty only at the end, the loop of
-- load_json_stream returns the whole content, or refuses it where it is longer than 1,000,000 bytes.
pub read_loop-limited :
    {S : Type 0} (read : S → ℕ → ReadResult × S) (unread : S → List ℕ) (s : S)
    → Serves read unread
    → read_loop read read_fuel s none [] ≡ some (limited (unread s))
read_loop-limited read unread s serves =
    read_loop-Serves read unread read_fuel s none [] serves refl (omega arith) (omega arith)
