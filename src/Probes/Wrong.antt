-- ===== src/Probes/Wrong.antt =====
-- probes.py: _filter_probe_value, and the wrong value of a rule.
use constitutional_agent_tes.Base.{
  ℕ, zero, suc, ◌+◌, Bool, true, false, Option, none, some, List, [], ◌∷◌, ◌++◌, leb, if◌then◌else◌,
  Text, txt, decimal, contains, replicate, ℤ, pos, negsuc, Result, ok, err,
}
use constitutional_agent_tes.Json.{
  Value, null, bool, int, float, str, arr, obj, nil, cons, end, list_items,
}
use constitutional_agent_tes.Json.Float.{Num, whole}
use constitutional_agent_tes.Json.Arithmetic.{add_int}
use constitutional_agent_tes.Json.Encode.{FloatText, canonical_json}
use constitutional_agent_tes.Policy.{
  Kind, one_of, false_kind, empty_list, type_kind, range_kind, length_kind, Rule, num_value,
}
use constitutional_agent_tes.Evaluator.{value_markers, evaluate_rule}
use constitutional_agent_tes.Errors.{TestbenchError, synthetic_failed, unverified_target}
use constitutional_agent_tes.Synthetic.Paths.{candidate_view}

abbrev pub max_length_probe : ℕ
max_length_probe = 4096

-- The float 0.5 is given by its bit pattern.
abbrev pub probe_menu : List Value
probe_menu =
    null
    ∷ bool false
    ∷ int (pos 0)
    ∷ float 0x3fe0000000000000
    ∷ str (txt "synthetic-probe")
    ∷ arr nil
    ∷ obj end
    ∷ []

abbrev pub shifted : Option Num → ℤ → List Value
shifted none n = []
shifted (some m) n = num_value (add_int m n) ∷ []

-- A validated length bound is a natural number.
abbrev pub over_maximum : Option Num → List Value
over_maximum (some (whole (pos n))) =
    if leb (n + 1) max_length_probe
    then str (replicate (n + 1) b's') ∷ arr (list_items (replicate (n + 1) null)) ∷ []
    else []
over_maximum _ = []

-- `if rule.minimum:`
abbrev pub under_minimum : Option Num → List Value
under_minimum (some (whole (pos (suc n)))) = str [] ∷ []
under_minimum _ = []

unfoldable pub boundaries : Kind → Rule → List Value
unfolding add_int
boundaries range_kind r = shifted r.maximum (pos 1) ++ shifted r.minimum (negsuc 0)
boundaries length_kind r = over_maximum r.maximum ++ under_minimum r.minimum
boundaries _ r = []

module _ ⦃repr : FloatText⦄ where
  unfoldable pub first_failing : Rule → List Value → Result TestbenchError Value
  first_failing r [] = err (synthetic_failed unverified_target)
  first_failing r (v ∷ vs) = elim ((evaluate_rule r (candidate_view r.path v)).passed) [
    | true ↦ first_failing r vs
    | false ↦ ok v
  ]

  -- probes.py: _filter_probe_value
  unfoldable pub filter_probe_value : Rule → Result TestbenchError Value
  unfolding first_failing boundaries evaluate_rule candidate_view
  filter_probe_value r = first_failing r (boundaries r.kind r ++ probe_menu)

abbrev pub probe_name : ℕ → Value
probe_name n = str (txt "synthetic-probe-" ++ decimal n)

-- The values that the rule admits, and their markers.
abbrev pub admitted : Kind → Rule → List Value
admitted one_of r = r.values
admitted _ r = r.value ∷ []

abbrev pub is_forbidden : List Text → Option Text → Bool
is_forbidden markers none = false
is_forbidden markers (some m) = contains markers m

module _ ⦃repr : FloatText⦄ where
  -- `next(...)` over the names from n on, as many as `count`
  unfoldable pub next_name : List Text → ℕ → ℕ → Option Value
  next_name markers n zero = none
  next_name markers n (suc count) = elim (is_forbidden markers (canonical_json (probe_name n))) [
    | true ↦ next_name markers (n + 1) count
    | false ↦ some (probe_name n)
  ]

  -- Where no name is left, `next` raises StopIteration, which no handler of the library names.
  -- A validated rule admits at most 256 values, so one of the 257 names is left.
  abbrev pub named_value : Option Value → Result TestbenchError Value
  named_value none = err (synthetic_failed unverified_target)
  named_value (some v) = ok v

  -- The value of a wrong_value probe.
  unfoldable pub wrong_value : Kind → Rule → Result TestbenchError Value
  unfolding filter_probe_value next_name value_markers canonical_json decimal contains
  wrong_value false_kind r = ok (bool true)
  wrong_value empty_list r = ok (arr (cons null nil))
  wrong_value type_kind r = filter_probe_value r
  wrong_value range_kind r = filter_probe_value r
  wrong_value length_kind r = filter_probe_value r
  wrong_value kind r = named_value (next_name (value_markers (admitted kind r)) 0 257)
