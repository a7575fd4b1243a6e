-- ===== src/Tests/Inputs.antt =====
-- Examples of the reading of JSON inputs.
use constitutional_agent_tes.Base.{
  ℕ, zero, suc, ◌≡◌, refl, ◌≤◌, true, false, none, some, List, [], ◌∷◌, Text, txt, same, distinct,
  arith, encodable, utf8_size, if◌then◌else◌, Result, ok,
}
use constitutional_agent_tes.Json.{Value, null, bool}
use constitutional_agent_tes.Json.Ensure.{ensure_json_value, max_json_nodes, max_json_nesting}
use constitutional_agent_tes.Json.Ensure.Strict.{node_count, nesting, IsStrict}
use constitutional_agent_tes.Errors.{JsonInputReason}
use constitutional_agent_tes.Stream.{
  ReadResult, byte_chunk, read_loop, read_fuel, JsonLibrary, load_json_stream,
  reject_duplicate_members,
}
use constitutional_agent_tes.Stream.Limit.{
  WithinLimit, read_loop-WithinLimit, load_json_stream-IsStrict,
}
use constitutional_agent_tes.Stream.Chunks.{limited, Serves, read_loop-limited}
use constitutional_agent_tes.Stream.Members.{
  pair_names, fields_of, reject_duplicate_members-fields_of,
}

-- A stream that never ends, and one that returns at most two bytes of a list at a time.
abbrev endless : ℕ → ℕ → ReadResult × ℕ
endless s size = (byte_chunk (b' ' ∷ []), s)

abbrev slowly : List ℕ → ℕ → ReadResult × List ℕ
slowly [] size = (byte_chunk [], [])
slowly (a ∷ b ∷ rest) (suc (suc size)) = (byte_chunk (a ∷ b ∷ []), rest)
slowly (a ∷ rest) (suc size) = (byte_chunk (a ∷ []), rest)
slowly s zero = (byte_chunk [], s)

slowly-Serves : Serves slowly (λ s. s)
slowly-Serves [] size h = ([], refl, refl, (λ e. refl))
slowly-Serves (a ∷ rest) zero h = absurd (omega (arith, h))
slowly-Serves (a ∷ []) (suc size) h = (a ∷ [], refl, refl, (λ e. cc))
slowly-Serves (a ∷ b ∷ rest) (suc zero) h = (a ∷ [], refl, refl, (λ e. cc))
slowly-Serves (a ∷ b ∷ rest) (suc (suc size)) h = (a ∷ b ∷ [], refl, refl, (λ e. cc))

read_loop-WithinLimit_example :
    (r : Result JsonInputReason (List ℕ)) × (read_loop endless read_fuel 0 none [] ≡ some r)
    × WithinLimit r
read_loop-WithinLimit_example = read_loop-WithinLimit endless 0

read_loop-limited_example :
    read_loop slowly read_fuel (txt "false") none [] ≡ some (limited (txt "false"))
read_loop-limited_example = read_loop-limited slowly (λ s. s) (txt "false") slowly-Serves

-- A library that reads one text.
instance abbrev only_null : JsonLibrary
only_null = record {
  decode = λ bytes. some bytes;
  loads = λ hook text. if same text (txt "null") then some null else none;
}

null_loaded : load_json_stream slowly (txt "null") ≡ ok null
unfolding load_json_stream ensure_json_value encodable same utf8_size
null_loaded = refl

load_json_stream-IsStrict_example :
    (node_count null ≤ max_json_nodes) × (nesting null ≤ max_json_nesting) × IsStrict null
load_json_stream-IsStrict_example =
    load_json_stream-IsStrict slowly (txt "null") {v = null} null_loaded

abbrev repeated : List (Text × Value)
repeated = (txt "a", null) ∷ (txt "b", bool true) ∷ (txt "a", bool false) ∷ []

reject_duplicate_members-fields_of_example :
    reject_duplicate_members repeated
    ≡ (if distinct (pair_names repeated) then some (fields_of repeated) else none)
reject_duplicate_members-fields_of_example = reject_duplicate_members-fields_of repeated
