-- ===== src/Json/Ensure/Strict.antt =====
-- The size, the depth and the strictness of JSON trees.
use constitutional_agent_tes.Base.{ℕ, suc, ◌+◌, ◌≤◌, max, ◌≡◌, true, arith, encodable}
use constitutional_agent_tes.Json.{
  Value, null, bool, int, float, str, arr, obj, other, Items, nil, cons, Fields, end, field,
}
use constitutional_agent_tes.Json.Float.{is_finite}

-- The number of values in a tree, containers and scalars.
unfoldable mutual
  pub node_count : Value → ℕ
  node_count null = 1
  node_count (bool b) = 1
  node_count (int n) = 1
  node_count (float b) = 1
  node_count (str s) = 1
  node_count (arr xs) = suc (node_items xs)
  node_count (obj fs) = suc (node_fields fs)
  node_count other = 1

  pub node_items : Items → ℕ
  node_items nil = 0
  node_items (cons v xs) = node_count v + node_items xs

  pub node_fields : Fields → ℕ
  node_fields end = 0
  node_fields (field k v fs) = node_count v + node_fields fs

pub node_count_pos : (v : Value) → 1 ≤ node_count v
unfolding node_count
node_count_pos (arr xs) = omega arith
node_count_pos (obj fs) = omega arith
node_count_pos _ = omega arith

-- The number of containers that surround the deepest value, itself included if it is one.
unfoldable mutual
  pub nesting : Value → ℕ
  nesting null = 0
  nesting (bool b) = 0
  nesting (int n) = 0
  nesting (float b) = 0
  nesting (str s) = 0
  nesting (arr xs) = suc (nesting_items xs)
  nesting (obj fs) = suc (nesting_fields fs)
  nesting other = 0

  pub nesting_items : Items → ℕ
  nesting_items nil = 0
  nesting_items (cons v xs) = max (nesting v) (nesting_items xs)

  pub nesting_fields : Fields → ℕ
  nesting_fields end = 0
  nesting_fields (field k v fs) = max (nesting v) (nesting_fields fs)

-- Every string and key is encodable, every number finite, every value of a JSON type.
abbrev mutual
  pub IsStrict : Value → Type 0
  IsStrict null = Unit
  IsStrict (bool b) = Unit
  IsStrict (int n) = Unit
  IsStrict (float b) = is_finite b ≡ true
  IsStrict (str s) = encodable s ≡ true
  IsStrict (arr xs) = StrictItems xs
  IsStrict (obj fs) = StrictFields fs
  IsStrict other = ⊥

  pub StrictItems : Items → Type 0
  StrictItems nil = Unit
  StrictItems (cons v xs) = IsStrict v × StrictItems xs

  pub StrictFields : Fields → Type 0
  StrictFields end = Unit
  StrictFields (field k v fs) = (encodable k ≡ true) × IsStrict v × StrictFields fs
