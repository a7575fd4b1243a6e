-- ===== src/Precedence/Witness.antt =====
-- precedence.py: the searches for a witness of variance. `err` is an early return of a witness.
pub mod Laws
pub mod Steady
use constitutional_agent_tes.Base.{
  ℕ, zero, suc, ◌-◌, Bool, true, false, ◌&&◌, Option, none, some, List, [], ◌∷◌, map, if◌then◌else◌,
  Text, txt, same, text_le, length, pos, Result, ok, err, ◌>>=◌,
}
use constitutional_agent_tes.Json.{Value, bool, int, str, arr, obj, end, field, list_items}
use constitutional_agent_tes.Json.Encode.{FloatText}
use constitutional_agent_tes.Precedence.Result.{same_bool}
use constitutional_agent_tes.Precedence.Orders.{swap_at, adjacent_swap_path}
use constitutional_agent_tes.Precedence.Projections.{
  Dimension, outcome, reason_evidence, dimension_name, Evidence, Projections, find, names_value,
  same_names, different, dimension_projection_pair,
}

-- The observations in the order in which they were made.
abbrev pub Observations : Type 0
Observations = List (List Text × Projections)

unfoldable pub observed : List Text → Observations → Option Projections
unfolding same_names
observed order [] = none
observed order ((o, p) ∷ rest) = if same_names o order then some p else observed order rest

-- The first value that a search over a list returns.
abbrev pub first {ℓ} : {A : Type ℓ} → (A → Option Value) → List A → Option Value
first f [] = none
first f (x ∷ xs) = let rest = first f xs in elim (f x) [ none ↦ rest | some w ↦ some w ]

-- `range(n)` from k on
abbrev pub range_from : ℕ → ℕ → List ℕ
range_from k zero = []
range_from k (suc n) = k ∷ range_from (suc k) n

abbrev pub nth_name : List Text → ℕ → Text
nth_name [] k = []
nth_name (n ∷ names) zero = n
nth_name (n ∷ names) (suc k) = nth_name names k

module _ ⦃repr : FloatText⦄ where
  abbrev pub swap_witness : Dimension → List Text → ℕ → Value × Value → Value
  swap_witness d left k (l, r) = obj (
      field (txt "comparison") (str (txt "adjacent_swap")) (
        field (txt "dimension") (str (dimension_name d)) (
          field (txt "left_order") (names_value left) (
            field (txt "left_projection") l (
              field (txt "right_order") (names_value (swap_at k left)) (
                field (txt "right_projection") r (
                  field (txt "swap_index") (int (pos k)) (
                    field (txt "swapped_rule_ids")
                      (names_value (nth_name left k ∷ nth_name left (suc k) ∷ [])) end))))))))

  abbrev pub compare_pair : Dimension → List Text → ℕ → Value × Value → Option Value
  compare_pair d left k pair =
      if different pair.0 pair.1 then some (swap_witness d left k pair) else none

  abbrev pub compare_swap :
      Dimension → List Text → ℕ → Option Projections → Option Projections → Option Value
  compare_swap d left k (some p) (some q) = compare_pair d left k (dimension_projection_pair d p q)
  compare_swap d left k _ _ = none

  -- precedence.py: _adjacent_witness
  unfoldable pub adjacent_witness : Dimension → List (List Text) → Observations → Option Value
  unfolding observed different dimension_projection_pair swap_at
  adjacent_witness d orders observations =
      first
        (λ left.
          first
            (λ k.
              compare_swap d left k (observed left observations)
                (observed (swap_at k left) observations))
            (range_from 0 (length left - 1)))
        orders

-- precedence.py: _endpoint_path_witness
unfoldable pub endpoint_path_witness :
    Dimension → Text → List Text → Value → List Text → Value → Value
unfolding adjacent_swap_path
endpoint_path_witness d reason left l right r = obj (
    field (txt "adjacent_swap_path")
      (arr (list_items (map names_value (adjacent_swap_path left right))))
      (field (txt "comparison") (str (txt "endpoint_path")) (
        field (txt "dimension") (str (dimension_name d)) (
          field (txt "left_order") (names_value left) (
            field (txt "left_projection") l (
              field (txt "reason") (str reason) (
                field (txt "right_order") (names_value right)
                  (field (txt "right_projection") r end))))))))

-- `sorted(d.items())`
unfoldable pub insert_pair {ℓ} : {A : Type ℓ} → Text → A → List (Text × A) → List (Text × A)
insert_pair k a [] = (k, a) ∷ []
insert_pair k a ((m, b) ∷ rest) =
    if text_le k m then (k, a) ∷ (m, b) ∷ rest else (m, b) ∷ insert_pair k a rest

unfoldable pub sort_pairs {ℓ} : {A : Type ℓ} → List (Text × A) → List (Text × A)
unfolding insert_pair text_le
sort_pairs [] = []
sort_pairs ((k, a) ∷ rest) = insert_pair k a (sort_pairs rest)

-- The value first seen for each rule, with its order.
abbrev pub Firsts : Type 0 → Type 0
Firsts A = List (Text × (A × List Text))

module _ {A : Type 0} (equal : A → A → Bool)
    (witness : Text → A → List Text → A → List Text → Value) where
  -- One order's items against the values first seen.
  unfoldable pub scan_items : List Text → List (Text × A) → Firsts A → Result Value (Firsts A)
  unfolding find
  scan_items order [] firsts = ok firsts
  scan_items order ((rule_id, a) ∷ items) firsts = elim (find rule_id firsts) [
    | none ↦ scan_items order items ((rule_id, (a, order)) ∷ firsts)
    | some prior ↦ elim (equal a prior.0) [
      | true ↦ scan_items order items firsts
      | false ↦ err (witness rule_id prior.0 prior.1 a order)
    ]
  ]

  unfoldable pub scan_orders :
      (Projections → List (Text × A))
      → List (List Text)
      → Observations
      → Firsts A
      → Result Value (Firsts A)
  unfolding scan_items observed sort_pairs
  scan_orders items [] observations firsts = ok firsts
  scan_orders items (order ∷ orders) observations firsts = elim (observed order observations) [
    | none ↦ scan_orders items orders observations firsts
    | some p ↦
        scan_items order (sort_pairs (items p)) firsts >>= scan_orders items orders observations
  ]

abbrev pub pass_projection : Text → Bool → Value
pass_projection rule_id b =
    obj (field (txt "passed") (bool b) (field (txt "rule_id") (str rule_id) end))

abbrev pub pass_witness : Text → Bool → List Text → Bool → List Text → Value
pass_witness rule_id prior left passed right =
    endpoint_path_witness outcome (txt "shared_rule_pass") left (pass_projection rule_id prior)
      right (pass_projection rule_id passed)

abbrev pub evidence_projection : Text → Evidence → Value
evidence_projection rule_id e = obj (
    field (txt "kind") (str e.kind) (
      field (txt "path") (str e.path)
        (field (txt "reason_code") (str e.reason_code) (field (txt "rule_id") (str rule_id) end))))

abbrev pub evidence_witness : Text → Evidence → List Text → Evidence → List Text → Value
evidence_witness rule_id prior left e right =
    endpoint_path_witness reason_evidence (txt "shared_rule_evidence") left
      (evidence_projection rule_id prior) right (evidence_projection rule_id e)

abbrev pub same_evidence : Evidence → Evidence → Bool
same_evidence d e = same d.kind e.kind && same d.path e.path && same d.reason_code e.reason_code

-- The aggregate first seen for each participation.
abbrev pub Aggregates : Type 0
Aggregates = List (Value × Bool × List Text)

abbrev pub overall_projection : Bool → Value → Value
overall_projection b rows =
    obj (field (txt "overall_pass") (bool b) (field (txt "participation") rows end))

module _ ⦃repr : FloatText⦄ where
  unfoldable pub find_aggregate : Value → Aggregates → Option (Value × Bool × List Text)
  unfolding different
  find_aggregate rows [] = none
  find_aggregate rows ((v, b, order) ∷ rest) =
      if different v rows then find_aggregate rows rest else some (v, b, order)

  abbrev pub overall_witness : Value × Bool × List Text → Projections → List Text → Value
  overall_witness (v, b, left) p order =
      endpoint_path_witness outcome (txt "aggregate_with_equal_participation") left
        (overall_projection b v) order (overall_projection p.overall_pass p.participation)

  unfoldable pub scan_overall : List (List Text) → Observations → Aggregates → Option Value
  unfolding observed find_aggregate
  scan_overall [] observations seen = none
  scan_overall (order ∷ orders) observations seen = elim (observed order observations) [
    | none ↦ scan_overall orders observations seen
    | some p ↦ elim (find_aggregate p.participation seen) [
      | none ↦ scan_overall orders observations ((p.participation, p.overall_pass, order) ∷ seen)
      | some prior ↦ elim (same_bool p.overall_pass prior.1) [
        | true ↦ scan_overall orders observations seen
        | false ↦ some (overall_witness prior p order)
      ]
    ]
  ]

  abbrev pub rule_pass_scan : List (List Text) → Observations → Result Value (Firsts Bool)
  rule_pass_scan orders observations =
      scan_orders same_bool pass_witness (λ p. p.rule_passes) orders observations []

  abbrev pub evidence_scan : List (List Text) → Observations → Result Value (Firsts Evidence)
  evidence_scan orders observations =
      scan_orders same_evidence evidence_witness (λ p. p.reason_by_rule) orders observations []

  -- precedence.py: _global_identity_witness, for its two dimensions
  unfoldable pub global_outcome_witness : List (List Text) → Observations → Option Value
  unfolding scan_orders scan_overall
  global_outcome_witness orders observations = elim (rule_pass_scan orders observations) [
    | err w ↦ some w
    | ok firsts ↦ scan_overall orders observations []
  ]

  unfoldable pub global_evidence_witness : List (List Text) → Observations → Option Value
  unfolding scan_orders
  global_evidence_witness orders observations = elim (evidence_scan orders observations) [
    | err w ↦ some w
    | ok firsts ↦ none
  ]
