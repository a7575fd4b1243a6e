-- ===== src/Json/Ensure.antt =====
-- common.py: ensure_json_value. The stack's top is its head, and the loop recurs on the nodes that
-- may still be visited, so it ends by itself.
pub mod Strict
pub mod Laws
pub mod Accepts
use constitutional_agent_tes.Base.{
  ℕ, zero, suc, ◌+◌, List, [], ◌∷◌, ltb, if◌then◌else◌, encodable, Result, ok, err, ◌>>=◌,
}
use constitutional_agent_tes.Json.{
  Value, null, bool, int, float, str, arr, obj, other, Items, nil, cons, Fields, end, field,
}
use constitutional_agent_tes.Json.Float.{is_finite}

-- The messages of the `ValueError`s and `UnicodeError`s, without the label.
pub data JsonError : Type 0 where
  node_limit nesting_limit invalid_unicode non_finite not_json byte_limit not_strict : JsonError

abbrev pub max_json_nesting : ℕ
max_json_nesting = 32

abbrev pub max_json_nodes : ℕ
max_json_nodes = 100_000

abbrev pub max_json_input_bytes : ℕ
max_json_input_bytes = 1_000_000

-- The values to visit, each with the number of containers around it.
abbrev pub Stack : Type 0
Stack = List (Value × ℕ)

unfoldable pub push_items : Items → ℕ → Stack → Stack
push_items nil depth stack = stack
push_items (cons v xs) depth stack = push_items xs depth ((v, depth) ∷ stack)

unfoldable pub push_fields : Fields → ℕ → Stack → Result JsonError Stack
push_fields end depth stack = ok stack
push_fields (field k v fs) depth stack =
    let rest = push_fields fs depth ((v, depth) ∷ stack) in
    if encodable k then rest else err invalid_unicode

-- The body of the loop behind the count of nodes: the new stack, or the error.
unfoldable pub visit : Value → ℕ → Stack → Result JsonError Stack
unfolding push_items push_fields
visit null depth stack = ok stack
visit (bool b) depth stack = ok stack
visit (int n) depth stack = ok stack
visit (str s) depth stack = if encodable s then ok stack else err invalid_unicode
visit (float b) depth stack = if is_finite b then ok stack else err non_finite
visit (arr xs) depth stack =
    if ltb max_json_nesting (depth + 1)
    then err nesting_limit
    else ok (push_items xs (depth + 1) stack)
visit (obj fs) depth stack =
    if ltb max_json_nesting (depth + 1) then err nesting_limit else push_fields fs (depth + 1) stack
visit other depth stack =
    if ltb max_json_nesting (depth + 1) then err nesting_limit else err not_json

-- `while stack`, with the number of nodes that the limit leaves.
unfoldable pub ensure_loop : ℕ → Stack → Result JsonError Unit
ensure_loop zero [] = ok tt
ensure_loop zero (top ∷ stack) = err node_limit
ensure_loop (suc left) [] = ok tt
ensure_loop (suc left) ((v, depth) ∷ stack) = visit v depth stack >>= ensure_loop left

unfoldable pub ensure_json_value : Value → Result JsonError Unit
unfolding ensure_loop visit
ensure_json_value v = ensure_loop max_json_nodes ((v, 0) ∷ [])
