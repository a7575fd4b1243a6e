-- ===== src/Synthetic/Candidates.antt =====
-- synthetic.py: the candidate values of a path.
use constitutional_agent_tes.Base.{
  ℕ, suc, ◌+◌, ◌-◌, ◌/◌, Bool, true, false, not, Option, none, some, List, [], ◌∷◌, ◌++◌, map, ltb,
  if◌then◌else◌, all, any, keep, replicate, ℤ, pos, negate, Result, ok, err, ◌>>=◌, ◌>>◌, guard,
}
use constitutional_agent_tes.Json.{Value, null, bool, int, str, arr, obj, nil, end, list_items}
use constitutional_agent_tes.Json.Float.{Num, whole, real, magnitude, is_negative, units_per_one}
use constitutional_agent_tes.Json.Ensure.{max_json_nodes}
use constitutional_agent_tes.Json.Encode.{FloatText, canonical_json, equal_texts}
use constitutional_agent_tes.Policy.{
  required_field, equals, one_of, false_kind, empty_list, type_kind, range_kind, length_kind, Rule,
  num_value,
}
use constitutional_agent_tes.Evaluator.{evaluate_rule}
use constitutional_agent_tes.Errors.{TestbenchError, synthetic_failed, conflict}
use constitutional_agent_tes.Synthetic.Paths.{candidate_view}

-- _FILTER_KINDS
abbrev pub is_filter : Rule → Bool
is_filter r = elim r.kind [ type_kind ↦ true | range_kind ↦ true | length_kind ↦ true | _ ↦ false ]

abbrev pub is_required : Rule → Bool
is_required r = elim r.kind [ required_field ↦ true | _ ↦ false ]

abbrev pub fixed_value : Rule → Option Value
fixed_value r = elim r.kind [
  | equals ↦ some r.value
  | false_kind ↦ some (bool false)
  | empty_list ↦ some (arr nil)
  | _ ↦ none
]

abbrev pub fixed_values : List Rule → List Value
fixed_values [] = []
fixed_values (r ∷ rules) =
    let rest = fixed_values rules in elim (fixed_value r) [ none ↦ rest | some v ↦ v ∷ rest ]

abbrev pub allowed_groups : List Rule → List (List Value)
allowed_groups [] = []
allowed_groups (r ∷ rules) =
    let rest = allowed_groups rules in elim r.kind [ one_of ↦ r.values ∷ rest | _ ↦ rest ]

abbrev pub clash : {A : Type 0} → Result TestbenchError A
clash = err (synthetic_failed conflict)

abbrev pub non_empty : List Value → Result TestbenchError (List Value)
non_empty [] = clash
non_empty (v ∷ vs) = ok (v ∷ vs)

-- `math.ceil` and `math.floor` of a finite number
abbrev pub ceil_ratio : ℕ → ℕ → ℕ
ceil_ratio m d = (m + d - 1) / d

unfoldable pub ceil : Num → ℤ
unfolding is_negative magnitude units_per_one
ceil (whole n) = n
ceil (real b) =
    if is_negative b
    then negate (magnitude b / units_per_one)
    else pos (ceil_ratio (magnitude b) units_per_one)

unfoldable pub floor : Num → ℤ
unfolding is_negative magnitude units_per_one
floor (whole n) = n
floor (real b) =
    if is_negative b
    then negate (ceil_ratio (magnitude b) units_per_one)
    else pos (magnitude b / units_per_one)

abbrev pub bound_list : (Num → Value) → Option Num → List Value
bound_list f none = []
bound_list f (some n) = f n ∷ []

-- The part of the menu that a range rule adds.
abbrev pub range_menu : Rule → List Value
range_menu r = elim r.kind [
  | range_kind ↦
      bound_list (λ n. int (ceil n)) r.minimum
      ++ (bound_list (λ n. int (floor n)) r.maximum
          ++ (bound_list num_value r.minimum ++ bound_list num_value r.maximum))
  | _ ↦ []
]

abbrev pub range_menus : List Rule → List Value
range_menus [] = []
range_menus (r ∷ rules) = range_menu r ++ range_menus rules

-- A positive length minimum; those of validated rules are natural numbers.
abbrev pub length_minimum : Option Num → List ℕ
length_minimum (some (whole (pos (suc n)))) = suc n ∷ []
length_minimum _ = []

abbrev pub length_minimums : List Rule → List ℕ
length_minimums [] = []
length_minimums (r ∷ rules) =
    let rest = length_minimums rules in
    elim r.kind [ length_kind ↦ length_minimum r.minimum ++ rest | _ ↦ rest ]

-- synthetic.py: _filter_menu
unfoldable pub filter_menu : List Rule → List Value
unfolding ceil floor
filter_menu filters =
    null
    ∷ bool false
    ∷ int (pos 0)
    ∷ (range_menus filters
        ++ str []
          ∷ (map (λ n. str (replicate n b's')) (length_minimums filters)
              ++ arr nil
                ∷ (map (λ n. arr (list_items (replicate n null)))
                      (keep (λ n. ltb n max_json_nodes) (length_minimums filters))
                    ++ obj end ∷ [])))

module _ ⦃repr : FloatText⦄ where
  abbrev pub same_marker : Value → Value → Bool
  same_marker v w = equal_texts (canonical_json v) (canonical_json w)

  abbrev pub choose_candidates : List Value → List (List Value) → Result TestbenchError (List Value)
  choose_candidates (selected ∷ others) groups = do
    guard (all (same_marker selected) others) (synthetic_failed conflict)
    guard (all (any (same_marker selected)) groups) (synthetic_failed conflict)
    ok (selected ∷ [])
  choose_candidates [] (group ∷ []) = ok group
  choose_candidates [] (group ∷ other_group ∷ groups) =
      non_empty (keep (λ v. all (any (same_marker v)) (other_group ∷ groups)) group)
  choose_candidates [] [] = ok (null ∷ [])

  -- synthetic.py: _finite_candidates
  unfoldable pub finite_candidates : List Rule → Result TestbenchError (List Value)
  finite_candidates rules = choose_candidates (fixed_values rules) (allowed_groups rules)

  abbrev pub passes_filters : List Rule → Value → Bool
  passes_filters filters v =
      all (λ (r : Rule). (evaluate_rule r (candidate_view r.path v)).passed) filters

  -- The end of _candidate_values, by the filters and the other rules.
  abbrev pub filtered : List Rule → List Rule → List Value → Result TestbenchError (List Value)
  filtered [] finite candidates = ok candidates
  filtered (r ∷ filters) finite candidates = non_empty (
      keep (passes_filters (r ∷ filters))
        (if all is_required finite then filter_menu (r ∷ filters) else candidates))

  -- synthetic.py: _candidate_values
  unfoldable pub candidate_values : List Rule → Result TestbenchError (List Value)
  unfolding finite_candidates filter_menu candidate_view
  candidate_values rules = do
    candidates ← finite_candidates (keep (λ r. not (is_filter r)) rules)
    filtered (keep is_filter rules) (keep (λ r. not (is_filter r)) rules) candidates
