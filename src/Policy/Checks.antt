-- ===== src/Policy/Checks.antt =====
-- policy.py: the errors and the checks of single fields.
use constitutional_agent_tes.Base.{
  ℕ, Bool, true, false, ◌&&◌, ◌||◌, not, Option, none, some, List, [], ◌∷◌, ltb, leb, ◌==◌,
  if◌then◌else◌, Text, txt, contains, distinct, sort_names, all, keep, length, pos, Result, ok, err,
  ◌>>=◌, ◌>>◌, guard, map_err,
}
use constitutional_agent_tes.Json.{
  Value, int, float, str, arr, Items, nil, cons, Fields, member, keys,
}
use constitutional_agent_tes.Json.Float.{Num, whole, real, is_finite, num_le, num_is_finite}
use constitutional_agent_tes.Json.Path.{split_path}
use constitutional_agent_tes.Json.Ensure.{
  JsonError, max_json_nesting, ensure_json_value, not_strict,
}
use constitutional_agent_tes.Json.Encode.{FloatText, canonical_json}
use constitutional_agent_tes.Policy.{
  Kind, range_kind, json_type_names, all_value_types, max_length_bound,
}

-- The messages of PolicyValidationError, without the label.
pub data Reason : Type 0 where
  invalid_object not_object bad_version bad_identifier rules_not_array too_many_rules : Reason
  rule_not_object unknown_kind repeated_rule_id bad_path long_path irrelevant_fields : Reason
  values_not_array too_many_values duplicate_value : Reason
  types_not_names unknown_type duplicate_type integer_beside_number all_types : Reason
  bound_not_number bound_not_length no_bound crossed_bounds : Reason
  invalid_fields : List Text → List Text → Reason
  invalid_json : JsonError → Reason

-- PolicyValidationError, with the location that its public error shows.
pub record PolicyError : Type 0 where
  pub reason : Reason
  pub policy_id : Option Text
  pub rule_id : Option Text
  pub rule_index : Option ℕ

-- The location keywords, `**location`.
pub record Location : Type 0 where
  pub policy_id : Option Text
  pub rule_id : Option Text
  pub rule_index : Option ℕ

abbrev pub nowhere : Location
nowhere = record { policy_id = none; rule_id = none; rule_index = none }

-- policy.py: _invalid
abbrev pub invalid : Location → Reason → PolicyError
invalid at reason = record {
  reason = reason;
  policy_id = at.policy_id;
  rule_id = at.rule_id;
  rule_index = at.rule_index;
}

abbrev pub is_letter : ℕ → Bool
is_letter c = (leb b'A' c && leb c b'Z') || (leb b'a' c && leb c b'z')

abbrev pub is_alphanumeric : ℕ → Bool
is_alphanumeric c = is_letter c || (leb b'0' c && leb c b'9')

abbrev pub identifier_char : ℕ → Bool
identifier_char c = is_alphanumeric c || c == b'.' || c == b'_' || c == b'-'

-- `_IDENTIFIER_PATTERN.fullmatch`
unfoldable pub is_identifier : Text → Bool
is_identifier [] = false
is_identifier (c ∷ rest) = is_alphanumeric c && leb (length rest) 127 && all identifier_char rest

abbrev pub segment_char : ℕ → Bool
segment_char c = is_alphanumeric c || c == b'_' || c == b'-'

unfoldable pub is_segment : Text → Bool
is_segment [] = false
is_segment (c ∷ rest) = (is_letter c || c == b'_') && all segment_char rest

-- `_PATH_PATTERN.fullmatch`: segments joined by dots
unfoldable pub is_path : Text → Bool
unfolding is_segment split_path
is_path path = all is_segment (split_path path)

-- policy.py: _safe_identifier
unfoldable pub safe_identifier : Option Value → Option Text
unfolding is_identifier
safe_identifier (some (str s)) = if is_identifier s then some s else none
safe_identifier _ = none

unfoldable pub missing_keys : List Text → Fields → List Text
missing_keys expected fs = sort_names (keep (λ k. not (contains (keys fs) k)) expected)

unfoldable pub unknown_keys : List Text → Fields → List Text
unknown_keys expected fs = sort_names (keep (λ k. not (contains expected k)) (keys fs))

abbrev pub is_nil : List Text → Bool
is_nil [] = true
is_nil _ = false

-- policy.py: _check_exact_keys
unfoldable pub check_exact_keys : Fields → List Text → Location → Result PolicyError Unit
unfolding missing_keys unknown_keys contains sort_names
check_exact_keys fs expected at =
    guard (is_nil (missing_keys expected fs) && is_nil (unknown_keys expected fs))
      (invalid at (invalid_fields (missing_keys expected fs) (unknown_keys expected fs)))

-- policy.py: _check_identifier
unfoldable pub check_identifier : Value → Location → Result PolicyError Text
unfolding is_identifier
check_identifier (str s) at = if is_identifier s then ok s else err (invalid at bad_identifier)
check_identifier _ at = err (invalid at bad_identifier)

-- policy.py: _check_path
unfoldable pub check_path : Value → Location → Result PolicyError Text
unfolding is_path split_path
check_path (str s) at =
    if is_path s
    then (if ltb max_json_nesting (length (split_path s)) then err (invalid at long_path) else ok s)
    else err (invalid at bad_path)
check_path _ at = err (invalid at bad_path)

abbrev pub marker_or : Option Text → Location → Result PolicyError Text
marker_or none at = err (invalid at (invalid_json not_strict))
marker_or (some t) at = ok t

-- policy.py: _check_json_value; the canonical text that it builds is returned
module _ ⦃repr : FloatText⦄ where
  unfoldable pub check_json_value : Value → Location → Result PolicyError Text
  unfolding ensure_json_value canonical_json
  check_json_value v at = do
    map_err (λ e. invalid at (invalid_json e)) (ensure_json_value v)
    marker_or (canonical_json v) at

-- `isinstance(value, (int, float)) and not isinstance(value, bool)`, with the number
abbrev pub number_of : Value → Option Num
number_of (int n) = some (whole n)
number_of (float b) = some (real b)
number_of _ = none

-- The names in an array of strings.
abbrev pub type_name_list : Items → Option (List Text)
type_name_list nil = some []
type_name_list (cons (str s) xs) = elim (type_name_list xs) [
  | none ↦ none
  | some names ↦ some (s ∷ names)
]
type_name_list (cons _ xs) = none

unfoldable pub check_names : List Text → Location → Result PolicyError (List Text)
unfolding contains distinct
check_names names at = do
  guard (not (is_nil names)) (invalid at types_not_names)
  guard (all (contains json_type_names) names) (invalid at unknown_type)
  guard (distinct names) (invalid at duplicate_type)
  guard (not (contains names (txt "integer") && contains names (txt "number")))
      (invalid at integer_beside_number)
  guard (not (all (contains names) all_value_types)) (invalid at all_types)
  ok names

abbrev pub check_name_list : Option (List Text) → Location → Result PolicyError (List Text)
check_name_list none at = err (invalid at types_not_names)
check_name_list (some names) at = check_names names at

-- policy.py: _check_types
unfoldable pub check_types : Value → Location → Result PolicyError (List Text)
unfolding check_names
check_types (arr xs) at = check_name_list (type_name_list xs) at
check_types _ at = err (invalid at types_not_names)

abbrev pub range_bound : Option Num → Location → Result PolicyError (Option Num)
range_bound none at = err (invalid at bound_not_number)
range_bound (some n) at = if num_is_finite n then ok (some n) else err (invalid at bound_not_number)

abbrev pub length_bound : Value → Location → Result PolicyError (Option Num)
length_bound (int (pos n)) at =
    if leb n max_length_bound then ok (some (whole (pos n))) else err (invalid at bound_not_length)
length_bound _ at = err (invalid at bound_not_length)

-- The body of the loop over the bound fields.
unfoldable pub check_bound : Option Value → Kind → Location → Result PolicyError (Option Num)
unfolding is_finite
check_bound none kind at = ok none
check_bound (some bound) range_kind at = range_bound (number_of bound) at
check_bound (some bound) _ at = length_bound bound at

-- `minimum > maximum`
abbrev pub crossed : Option Num → Option Num → Bool
crossed (some lo) (some hi) = num_le hi lo && not (num_le lo hi)
crossed _ _ = false

abbrev pub is_none : Option Num → Bool
is_none none = true
is_none (some n) = false

-- policy.py: _check_bounds
unfoldable pub check_bounds :
    Fields → Kind → Location → Result PolicyError (Option Num × Option Num)
unfolding check_bound member num_le
check_bounds fs kind at = do
  lo ← check_bound (member (txt "minimum") fs) kind at
  hi ← check_bound (member (txt "maximum") fs) kind at
  guard (not (is_none lo && is_none hi)) (invalid at no_bound)
  guard (not (crossed lo hi)) (invalid at crossed_bounds)
  ok (lo, hi)
