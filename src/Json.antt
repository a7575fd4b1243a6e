-- ===== src/Json.antt =====
-- common.py: the Python values that the library handles, its objects and its paths.
-- A `float` is its IEEE 754 binary64 bit pattern. `other` is an object that no JSON type covers.
pub mod Float
pub mod Ensure
pub mod Encode
pub mod Path
pub mod Arithmetic
use constitutional_agent_tes.Base.{
  map, ℕ, zero, suc, ◌+◌, ◌≡◌, refl, Bool, true, false, ◌&&◌, not, Option, none, some, List, [],
  ◌∷◌, arith, if◌then◌else◌, Text, txt, same, ℤ,
}

mutual
  pub data Value : Type 0 where
    null : Value
    bool : Bool → Value
    int : ℤ → Value
    float : ℕ → Value
    str : Text → Value
    arr : Items → Value
    obj : Fields → Value
    other : Value

  pub data Items : Type 0 where
    nil : Items
    cons : Value → Items → Items

  -- The members of a dict in insertion order.
  pub data Fields : Type 0 where
    end : Fields
    field : Text → Value → Fields → Fields

abbrev pub items_list : Items → List Value
items_list nil = []
items_list (cons v xs) = v ∷ items_list xs

abbrev pub list_items : List Value → Items
list_items [] = nil
list_items (v ∷ vs) = cons v (list_items vs)

pub list_items-items_list : (vs : List Value) → items_list (list_items vs) ≡ vs
list_items-items_list [] = refl
list_items-items_list (v ∷ vs) = rw (list_items-items_list vs)

-- `d.get(key)`, which is `none` where `key not in d`
unfoldable pub member : Text → Fields → Option Value
member key end = none
member key (field k v fs) = if same k key then some v else member key fs

-- `d[key] = value`
unfoldable pub set_member : Text → Value → Fields → Fields
set_member key value end = field key value end
set_member key value (field k v fs) =
    if same k key then field k value fs else field k v (set_member key value fs)

-- `del d[key]`
unfoldable pub del_member : Text → Fields → Fields
del_member key end = end
del_member key (field k v fs) = if same k key then fs else field k v (del_member key fs)

-- `list(d)`
abbrev pub keys : Fields → List Text
keys end = []
keys (field k v fs) = k ∷ keys fs

-- `len(xs)` and `len(d)`
abbrev pub count_items : Items → ℕ
count_items nil = 0
count_items (cons v xs) = suc (count_items xs)

abbrev pub count_fields : Fields → ℕ
count_fields end = 0
count_fields (field k v fs) = suc (count_fields fs)

-- common.py: json_type_name
unfoldable pub json_type_name : Value → Text
json_type_name null = txt "null"
json_type_name (bool b) = txt "boolean"
json_type_name (int n) = txt "integer"
json_type_name (float b) = txt "number"
json_type_name (str s) = txt "string"
json_type_name (arr xs) = txt "array"
json_type_name (obj fs) = txt "object"
json_type_name other = txt "object"

-- common.py: copy_json_tree, which rebuilds every dict and list
unfoldable mutual
  pub copy_json_tree : Value → Value
  copy_json_tree null = null
  copy_json_tree (bool b) = bool b
  copy_json_tree (int n) = int n
  copy_json_tree (float b) = float b
  copy_json_tree (str s) = str s
  copy_json_tree (arr xs) = arr (copy_items xs)
  copy_json_tree (obj fs) = obj (copy_fields fs)
  copy_json_tree other = other

  pub copy_items : Items → Items
  copy_items nil = nil
  copy_items (cons v xs) = cons (copy_json_tree v) (copy_items xs)

  pub copy_fields : Fields → Fields
  copy_fields end = end
  copy_fields (field k v fs) = field k (copy_json_tree v) (copy_fields fs)

mutual
  unfolding copy_json_tree

  copy_value : (v : Value) → copy_json_tree v ≡ v
  copy_value null = refl
  copy_value (bool b) = refl
  copy_value (int n) = refl
  copy_value (float b) = refl
  copy_value (str s) = refl
  copy_value (arr xs) = cc (copy_items_same xs)
  copy_value (obj fs) = cc (copy_fields_same fs)
  copy_value other = refl

  copy_items_same : (xs : Items) → copy_items xs ≡ xs
  copy_items_same nil = refl
  copy_items_same (cons v xs) = cc (copy_value v, copy_items_same xs)

  copy_fields_same : (fs : Fields) → copy_fields fs ≡ fs
  copy_fields_same end = refl
  copy_fields_same (field k v fs) = cc (copy_value v, copy_fields_same fs)

-- A copy has the value that it copies; only the identity of its objects is new.
pub copy_json_tree_lem : (v : Value) → copy_json_tree v ≡ v
copy_json_tree_lem v = copy_value v

pub map_copy : (vs : List Value) → map copy_json_tree vs ≡ vs
map_copy [] = refl
map_copy (v ∷ vs) = cc (copy_json_tree_lem v, map_copy vs)
