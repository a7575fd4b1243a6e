-- ===== src/Artifact.antt =====
-- common.py: stable_json, the encoder with an indent of two; workflow.py: bounded_artifact.
pub mod Written
use constitutional_agent_tes.Base.{
  ℕ, suc, ◌*◌, true, false, Option, none, some, List, [], ◌∷◌, ◌++◌, ltb, leb, if◌then◌else◌, Text,
  txt, int_text, replicate, utf8_size, Result, ok, err, ◌>>◌, map_err,
}
use constitutional_agent_tes.Json.{
  Value, null, bool, int, float, str, arr, obj, other, Items, nil, cons, Fields, end, field,
}
use constitutional_agent_tes.Json.Float.{is_finite}
use constitutional_agent_tes.Json.Ensure.{ensure_json_value, max_json_input_bytes}
use constitutional_agent_tes.Json.Encode.{
  FloatText, Chunk, piece, failure, quote, digit_count, max_int_digits, Members, sort_members, join,
}
use constitutional_agent_tes.Errors.{TestbenchError, invalid_workflow, artifact_limits}

-- A newline and the indent of a depth.
abbrev pub new_line : ℕ → Text
new_line depth = 0x0a ∷ replicate (2 * depth) b' '

unfoldable pub indented_members : ℕ → Text → Members → List Chunk
unfolding quote
indented_members depth lead [] = []
indented_members depth lead ((k, cs) ∷ rest) =
    piece lead
    ∷ piece (new_line depth)
    ∷ piece (quote k)
    ∷ piece (txt ": ")
    ∷ (cs ++ indented_members depth (txt ",") rest)

unfoldable pub indented_object : ℕ → Members → List Chunk
unfolding indented_members sort_members
indented_object depth [] = piece (txt "{}") ∷ []
indented_object depth (m ∷ ms) =
    indented_members (suc depth) (txt "{") (sort_members (m ∷ ms))
    ++ piece (new_line depth) ∷ piece (txt "}") ∷ []

abbrev pub within_limit : Option Text → Result TestbenchError Unit
within_limit none = err (invalid_workflow artifact_limits)
within_limit (some t) =
    if ltb max_json_input_bytes (utf8_size t) then err (invalid_workflow artifact_limits) else ok tt

module _ ⦃repr : FloatText⦄ where
  unfoldable mutual
    pub indented : Value → ℕ → List Chunk
    indented null depth = piece (txt "null") ∷ []
    indented (bool true) depth = piece (txt "true") ∷ []
    indented (bool false) depth = piece (txt "false") ∷ []
    indented (int n) depth =
        (if leb (digit_count n) max_int_digits then piece (int_text n) else failure) ∷ []
    indented (float b) depth = (if is_finite b then piece (repr.float_repr b) else failure) ∷ []
    indented (str s) depth = piece (quote s) ∷ []
    indented (arr nil) depth = piece (txt "[]") ∷ []
    indented (arr (cons v xs)) depth =
        piece (txt "[")
        ∷ piece (new_line (suc depth))
        ∷ (indented v (suc depth) ++ indented_tail xs depth)
    indented (obj fs) depth = indented_object depth (indented_fields fs depth)
    indented other depth = failure ∷ []

    pub indented_tail : Items → ℕ → List Chunk
    indented_tail nil depth = piece (new_line depth) ∷ piece (txt "]") ∷ []
    indented_tail (cons v xs) depth =
        piece (txt ",")
        ∷ piece (new_line (suc depth))
        ∷ (indented v (suc depth) ++ indented_tail xs depth)

    pub indented_fields : Fields → ℕ → Members
    indented_fields end depth = []
    indented_fields (field k v fs) depth = (k, indented v (suc depth)) ∷ indented_fields fs depth

  -- common.py: stable_json
  unfoldable pub stable_json : Value → Option Text
  unfolding indented indented_object join int_text is_finite quote
  stable_json v = join (indented v 0 ++ piece (0x0a ∷ []) ∷ [])

  -- workflow.py: bounded_artifact; the value itself is what it returns
  unfoldable pub bounded_artifact : Value → Result TestbenchError Unit
  bounded_artifact v = do
    map_err (λ e. invalid_workflow artifact_limits) (ensure_json_value v)
    within_limit (stable_json v)
