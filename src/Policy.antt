-- ===== src/Policy.antt =====
-- policy.py: the data of a validated policy, and its public JSON form.
pub mod Checks
pub mod Validate
pub mod Constraints
pub mod WellFormed
pub mod Guarantees
pub mod RoundTrip
pub mod Accepted
use constitutional_agent_tes.Base.{
  ℕ, ◌≡◌, refl, Bool, Option, none, some, List, [], ◌∷◌, map, arith, if◌then◌else◌, Text, txt, same,
  same→eq, ℤ, pos, contains, same_refl,
}
use constitutional_agent_tes.Json.{
  Value, null, bool, int, float, str, arr, obj, Items, nil, cons, Fields, end, field, list_items,
  copy_json_tree,
}
use constitutional_agent_tes.Json.Float.{Num, whole, real}

-- The rule kinds of schema versions 1.0 and 1.1; `unknown` is any other string.
pub data Kind : Type 0 where
  required_field equals one_of false_kind empty_list type_kind range_kind length_kind : Kind
  unknown : Text → Kind

abbrev pub kind_name : Kind → Text
kind_name required_field = txt "required_field"
kind_name equals = txt "equals"
kind_name one_of = txt "one_of"
kind_name false_kind = txt "false"
kind_name empty_list = txt "empty_list"
kind_name type_kind = txt "type"
kind_name range_kind = txt "range"
kind_name length_kind = txt "length"
kind_name (unknown name) = name

unfoldable pub kind_of : Text → Kind
kind_of name =
    if same name (txt "required_field")
    then required_field
    else if same name (txt "equals")
    then equals
    else if same name (txt "one_of")
    then one_of
    else if same name (txt "false")
    then false_kind
    else if same name (txt "empty_list")
    then empty_list
    else if same name (txt "type")
    then type_kind
    else if same name (txt "range")
    then range_kind
    else if same name (txt "length")
    then length_kind
    else unknown name

pub record Rule : Type 0 where
  pub rule_id : Text
  pub kind : Kind
  pub path : Text
  pub value : Value
  pub values : List Value
  pub types : List Text
  pub minimum : Option Num
  pub maximum : Option Num

-- `Rule(rule_id=..., kind=..., path=...)`, with the defaults of the dataclass
abbrev pub plain_rule : Text → Kind → Text → Rule
plain_rule rule_id kind path = record {
  rule_id = rule_id;
  kind = kind;
  path = path;
  value = null;
  values = [];
  types = [];
  minimum = none;
  maximum = none;
}

pub record Policy : Type 0 where
  pub policy_id : Text
  pub rules : List Rule
  pub schema_version : Text

abbrev pub max_policy_rules : ℕ
max_policy_rules = 256

abbrev pub max_one_of_values : ℕ
max_one_of_values = 256

abbrev pub max_length_bound : ℕ
max_length_bound = 1_000_000

abbrev pub json_type_names : List Text
json_type_names =
    txt "array"
    ∷ txt "boolean"
    ∷ txt "integer"
    ∷ txt "null"
    ∷ txt "number"
    ∷ txt "object"
    ∷ txt "string"
    ∷ []

abbrev pub all_value_types : List Text
all_value_types =
    txt "array" ∷ txt "boolean" ∷ txt "null" ∷ txt "number" ∷ txt "object" ∷ txt "string" ∷ []

-- RULE_KINDS_BY_SCHEMA_VERSION; `Option` because only two versions are keys.
abbrev pub schema_1_0_kind : Kind → Bool
schema_1_0_kind required_field = Bool.true
schema_1_0_kind equals = Bool.true
schema_1_0_kind one_of = Bool.true
schema_1_0_kind false_kind = Bool.true
schema_1_0_kind empty_list = Bool.true
schema_1_0_kind _ = Bool.false

abbrev pub schema_1_1_kind : Kind → Bool
schema_1_1_kind (unknown name) = Bool.false
schema_1_1_kind _ = Bool.true

abbrev pub supported_version : Text → Bool
supported_version version = contains (txt "1.0" ∷ txt "1.1" ∷ []) version

abbrev pub allowed_kind : Text → Kind → Bool
allowed_kind version kind =
    if same version (txt "1.0") then schema_1_0_kind kind else schema_1_1_kind kind

abbrev pub num_value : Num → Value
num_value (whole n) = int n
num_value (real b) = float b

-- The members that a rule has beside `kind`, `path` and `rule_id`.
abbrev pub bound_member : Text → Option Num → Fields → Fields
bound_member name none fs = fs
bound_member name (some n) fs = field name (num_value n) fs

abbrev pub constraint_members : Rule → Kind → Fields
constraint_members r equals = field (txt "value") (copy_json_tree r.value) end
constraint_members r one_of =
    field (txt "values") (arr (list_items (map copy_json_tree r.values))) end
constraint_members r type_kind = field (txt "types") (arr (list_items (map str r.types))) end
constraint_members r range_kind =
    bound_member (txt "minimum") r.minimum (bound_member (txt "maximum") r.maximum end)
constraint_members r length_kind =
    bound_member (txt "minimum") r.minimum (bound_member (txt "maximum") r.maximum end)
constraint_members r _ = end

unfoldable pub rule_to_dict : Rule → Value
rule_to_dict r = obj (
    field (txt "kind") (str (kind_name r.kind)) (
      field (txt "path") (str r.path)
        (field (txt "rule_id") (str r.rule_id) (constraint_members r r.kind))))

-- policy.py: policy_to_dict
unfoldable pub policy_to_dict : Policy → Value
unfolding rule_to_dict
policy_to_dict p = obj (
    field (txt "policy_id") (str p.policy_id) (
      field (txt "rules") (arr (list_items (map rule_to_dict p.rules)))
        (field (txt "schema_version") (str p.schema_version) end)))

-- A kind has the name that it was read from.
pub kind_name-kind_of : (name : Text) → kind_name (kind_of name) ≡ name
unfolding kind_of
kind_name-kind_of name = ground (
  arith,
  same→eq name (txt "required_field"),
  same→eq name (txt "equals"),
  same→eq name (txt "one_of"),
  same→eq name (txt "false"),
  same→eq name (txt "empty_list"),
  same→eq name (txt "type"),
  same→eq name (txt "range"),
  same→eq name (txt "length"),
)
