-- ===== src/Precedence/Projections.antt =====
-- precedence.py: what is compared between two orders.
pub mod Counter
use constitutional_agent_tes.Base.{
  ℕ, suc, Bool, true, false, ◌&&◌, not, Option, none, some, List, [], ◌∷◌, map, ◌==◌, leb,
  if◌then◌else◌, Text, txt, same, text_le, contains, distinct, sort_names, keep, all, pos,
}
use constitutional_agent_tes.Json.{
  Value, null, bool, int, str, arr, obj, Fields, end, field, list_items,
}
use constitutional_agent_tes.Json.Encode.{FloatText, canonical_json}
use constitutional_agent_tes.Precedence.Result.{ReportedRule, Reported}
use constitutional_agent_tes.Precedence.Orders.{index_of}

pub data Dimension : Type 0 where
  outcome reason_evidence participation presentation : Dimension

abbrev pub dimension_name : Dimension → Text
dimension_name outcome = txt "outcome"
dimension_name reason_evidence = txt "reason_evidence"
dimension_name participation = txt "participation"
dimension_name presentation = txt "presentation"

pub record Evidence : Type 0 where
  pub kind : Text
  pub path : Text
  pub reason_code : Text

-- A Counter's items, sorted.
abbrev pub Counts : Type 0
Counts = List (Text × ℕ)

unfoldable pub count_name : Text → Counts → Counts
count_name name [] = (name, 1) ∷ []
count_name name ((m, c) ∷ rest) =
    let later = count_name name rest in
    if same m name
    then (m, suc c) ∷ rest
    else if text_le name m
    then (name, 1) ∷ (m, c) ∷ rest
    else (m, c) ∷ later

unfoldable pub counter : List Text → Counts
unfolding count_name text_le
counter [] = []
counter (name ∷ names) = count_name name (counter names)

unfoldable pub same_counts : Counts → Counts → Bool
same_counts [] [] = true
same_counts ((m, c) ∷ xs) ((n, d) ∷ ys) = same m n && c == d && same_counts xs ys
same_counts _ _ = false

abbrev pub count_row : Text × ℕ → Value
count_row (name, c) = obj (field (txt "rule_id") (str name) (field (txt "count") (int (pos c)) end))

-- precedence.py: _counter_projection, with the label `rule_id`
unfoldable pub counter_projection : Counts → Value
counter_projection counts = arr (list_items (map count_row counts))

-- `sorted(names, key=positions.__getitem__)`
unfoldable pub insert_by_position : List Text → Text → List Text → List Text
insert_by_position order name [] = name ∷ []
insert_by_position order name (m ∷ names) =
    if leb (index_of name order) (index_of m order)
    then name ∷ m ∷ names
    else m ∷ insert_by_position order name names

unfoldable pub sort_by_position : List Text → List Text → List Text
unfolding insert_by_position index_of
sort_by_position order [] = []
sort_by_position order (name ∷ names) = insert_by_position order name (sort_by_position order names)

-- `xs == ys` for lists of names
unfoldable pub same_names : List Text → List Text → Bool
same_names [] [] = true
same_names (x ∷ xs) (y ∷ ys) = same x y && same_names xs ys
same_names _ _ = false

pub record Projections : Type 0 where
  pub overall_pass : Bool
  pub rule_passes : List (Text × Bool)
  pub reason_by_rule : List (Text × Evidence)
  pub participation : Value
  pub participation_complete : Bool
  pub presentation : List Text
  pub follows_requested_order : Bool

abbrev pub rule_ids : List ReportedRule → List Text
rule_ids = map (λ (r : ReportedRule). r.rule_id)

abbrev pub evidence_of : ReportedRule → Evidence
evidence_of r = record { kind = r.kind; path = r.path; reason_code = r.reason_code }

-- precedence.py: _projections
unfoldable pub projections : Reported → List Text → Projections
unfolding counter same_counts counter_projection sort_by_position same_names contains distinct
projections result requested = record {
  overall_pass = result.passed;
  rule_passes = map (λ (r : ReportedRule). (r.rule_id, r.passed)) result.rule_results;
  reason_by_rule = map (λ (r : ReportedRule). (r.rule_id, evidence_of r)) result.rule_results;
  participation = counter_projection (counter (rule_ids result.rule_results));
  participation_complete = same_counts (counter (rule_ids result.rule_results)) (counter requested);
  presentation = rule_ids result.rule_results;
  follows_requested_order =
      distinct (rule_ids result.rule_results)
      && all (contains requested) (rule_ids result.rule_results)
      && same_names (rule_ids result.rule_results)
          (sort_by_position requested (rule_ids result.rule_results));
}

-- `d[key]`, and the keys of a dict in a list of pairs.
unfoldable pub find {ℓ} : {A : Type ℓ} → Text → List (Text × A) → Option A
find key [] = none
find key ((k, a) ∷ rest) = if same k key then some a else find key rest

abbrev pub pair_keys {ℓ} : {A : Type ℓ} → List (Text × A) → List Text
pair_keys [] = []
pair_keys ((k, a) ∷ rest) = k ∷ pair_keys rest

-- `sorted(set(left) & set(right))`
unfoldable pub shared_keys {ℓ} : {A : Type ℓ} → List (Text × A) → List (Text × A) → List Text
unfolding contains sort_names
shared_keys left right = sort_names (keep (contains (pair_keys right)) (pair_keys left))

abbrev pub pass_value : Option Bool → Value
pass_value none = null
pass_value (some b) = bool b

abbrev pub evidence_value : Option Evidence → Value
evidence_value none = null
evidence_value (some e) = arr (list_items (str e.kind ∷ str e.path ∷ str e.reason_code ∷ []))

-- `{key: d[key] for key in names}`
unfoldable pub select_members {ℓ} :
    {A : Type ℓ} → (Option A → Value) → List (Text × A) → List Text → Fields
unfolding find
select_members show d [] = end
select_members show d (name ∷ names) = field name (show (find name d)) (select_members show d names)

abbrev pub same_texts : Option Text → Option Text → Bool
same_texts none none = true
same_texts (some s) (some t) = same s t
same_texts _ _ = false

abbrev pub names_value : List Text → Value
names_value names = arr (list_items (map str names))

module _ ⦃repr : FloatText⦄ where
  -- precedence.py: _different
  unfoldable pub different : Value → Value → Bool
  unfolding same
  different left right = not (same_texts (canonical_json left) (canonical_json right))

  -- The left or right half of the outcome pair.
  abbrev pub outcome_half : List Text → Bool → Projections → Value
  outcome_half shared aggregate p = obj (
      field (txt "shared_rule_passes") (obj (select_members pass_value p.rule_passes shared))
        (if aggregate then field (txt "overall_pass") (bool p.overall_pass) end else end))

  abbrev pub evidence_half : List Text → Projections → Value
  evidence_half shared p = obj (
      field (txt "shared_rule_evidence")
        (obj (select_members evidence_value p.reason_by_rule shared)) end)

  -- precedence.py: _dimension_projection_pair
  unfoldable pub dimension_projection_pair : Dimension → Projections → Projections → Value × Value
  unfolding shared_keys select_members different
  dimension_projection_pair outcome left right =
      let shared = shared_keys left.rule_passes right.rule_passes in
      let aggregate = not (different left.participation right.participation) in
      (outcome_half shared aggregate left, outcome_half shared aggregate right)
  dimension_projection_pair reason_evidence left right =
      let shared = shared_keys left.reason_by_rule right.reason_by_rule in
      (evidence_half shared left, evidence_half shared right)
  dimension_projection_pair participation left right = (left.participation, right.participation)
  dimension_projection_pair presentation left right = (
    obj (field (txt "rule_ids") (names_value left.presentation) end),
    obj (field (txt "rule_ids") (names_value right.presentation) end),
  )
