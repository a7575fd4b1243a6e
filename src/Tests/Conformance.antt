-- ===== src/Tests/Conformance.antt =====
-- Examples of order conformance and of synthetic cases.
use constitutional_agent_tes.Base.{
  ℕ, ◌≡◌, refl, true, false, some, List, [], ◌∷◌, txt, same, encodable, ok, distinct, none, ◌↔◌,
  Text, contains,
}
use constitutional_agent_tes.Json.{Value, str, obj, Fields}
use constitutional_agent_tes.Json.Ensure.{ensure_json_value}
use constitutional_agent_tes.Json.Encode.{object_chunks}
use constitutional_agent_tes.Json.Encode.Size.{bounded_canonical_json_size}
use constitutional_agent_tes.Evaluator.{evaluate_rule, evaluate_checked, compile}
use constitutional_agent_tes.Json.Path.{get_field, split_path}
use constitutional_agent_tes.Policy.{Policy}
use constitutional_agent_tes.Policy.Validate.{raw, validate_policy}
use constitutional_agent_tes.Precedence.Result.{builtin, Reported, report_evaluation}
use constitutional_agent_tes.Precedence.Orders.{adjacent_swap_path}
use constitutional_agent_tes.Precedence.Report.{Report, variance_of}
use constitutional_agent_tes.Precedence.Check.{check_order_conformance}
use constitutional_agent_tes.Precedence.Orders.Laws.{
  SwapPath, NoRepeats, Rearranges, adjacent_swap_path-SwapPath,
}
use constitutional_agent_tes.Precedence.Projections.{participation, presentation, projections}
use constitutional_agent_tes.Precedence.Witness.{Observations}
use constitutional_agent_tes.Precedence.Witness.Laws.{AgreeOnSwaps, variance_of-AgreeOnSwaps}
use constitutional_agent_tes.Precedence.Check.Conforms.{check_order_conformance-conforms}
use constitutional_agent_tes.Precedence.Check.Laws.{GoodReport, check_order_conformance-GoodReport}
use constitutional_agent_tes.Synthetic.Paths.{assign_path, delete_path}
use constitutional_agent_tes.Synthetic.Paths.Deletion.{UniqueAlong, get_field-delete_path}
use constitutional_agent_tes.Synthetic.Paths.Laws.{get_field-assign_path}
use constitutional_agent_tes.Synthetic.Generate.{Bundle, generate}
use constitutional_agent_tes.Synthetic.Generate.Laws.{Separates, generate-Separates}
use constitutional_agent_tes.Tests.Data.{
  bit_patterns, whole_text, approval, quiet, two_rules, two_rules_json, good_fields, bad_fields,
}

reported :
    (r : Report) × (check_order_conformance (raw two_rules_json) (obj good_fields) builtin ≡ ok r)
unfolding check_order_conformance validate_policy get_field
reported = (_, refl)

check_order_conformance-GoodReport_example :
    (p : Policy) × (validate_policy (raw two_rules_json) ≡ ok p) × GoodReport p reported.0
check_order_conformance-GoodReport_example =
    check_order_conformance-GoodReport (raw two_rules_json) (obj good_fields) builtin
      {r = reported.0} reported.1

abbrev three_numbers : List ℕ
three_numbers = 1 ∷ 2 ∷ 3 ∷ []

generated : (b : Bundle) × (generate two_rules ≡ ok b)
unfolding generate evaluate_rule get_field ensure_json_value encodable bounded_canonical_json_size
    object_chunks
generated = (_, refl)

generate-Separates_example : Separates two_rules generated.0
generate-Separates_example = generate-Separates two_rules {b = generated.0} generated.1

assigned : (out : Fields) × (assign_path bad_fields (txt "review.by") (str (txt "lee")) ≡ ok out)
unfolding assign_path same
assigned = (_, refl)

get_field-assign_path_example :
    get_field (obj assigned.0) (txt "review.by") ≡ some (str (txt "lee"))
get_field-assign_path_example =
    get_field-assign_path bad_fields (txt "review.by") (str (txt "lee")) {out = assigned.0}
      assigned.1

check_order_conformance-conforms_example :
    (reported.0.exhaustive ≡ true) × (reported.0.conforms ≡ some true)
check_order_conformance-conforms_example =
    check_order_conformance-conforms (raw two_rules_json) (obj good_fields) {r = reported.0}
      reported.1

abbrev forward : List Text
forward = txt "a" ∷ txt "b" ∷ txt "c" ∷ []

abbrev rotated : List Text
rotated = txt "c" ∷ txt "a" ∷ txt "b" ∷ []

rotated-NoRepeats : NoRepeats [] rotated
unfolding contains same
rotated-NoRepeats = (refl, (refl, (refl, tt)))

forward-Rearranges : Rearranges forward rotated
unfolding contains same
forward-Rearranges = (
  txt "a" ∷ txt "b" ∷ [],
  [],
  refl,
  refl,
  ([], txt "b" ∷ [], refl, refl, ([], [], refl, refl, refl)),
)

adjacent_swap_path-SwapPath_example : SwapPath forward rotated (adjacent_swap_path forward rotated)
adjacent_swap_path-SwapPath_example =
    adjacent_swap_path-SwapPath forward rotated rotated-NoRepeats forward-Rearranges

abbrev builtin_answer : Policy → Reported
builtin_answer p = report_evaluation (evaluate_checked p.policy_id (compile p) (obj good_fields))

abbrev first_order : List Text
first_order = txt "approval" ∷ txt "quiet" ∷ []

abbrev second_order : List Text
second_order = txt "quiet" ∷ txt "approval" ∷ []

-- The two orders of the policy, as the evaluator answers them.
abbrev both_orders : Observations
both_orders =
    (first_order, projections (builtin_answer two_rules) first_order)
    ∷ (
      second_order,
      projections (builtin_answer (record two_rules { rules = quiet ∷ approval ∷ [] }))
          second_order,
    )
    ∷ []

variance_of-AgreeOnSwaps_example :
    (((variance_of (first_order ∷ second_order ∷ []) both_orders).participation ≡ false)
      ↔ AgreeOnSwaps participation (first_order ∷ second_order ∷ []) both_orders)
    × (((variance_of (first_order ∷ second_order ∷ []) both_orders).presentation ≡ false)
        ↔ AgreeOnSwaps presentation (first_order ∷ second_order ∷ []) both_orders)
variance_of-AgreeOnSwaps_example =
    variance_of-AgreeOnSwaps (first_order ∷ second_order ∷ []) both_orders

deleted : (out : Fields) × (delete_path good_fields (txt "alarm") ≡ some out)
unfolding delete_path same
deleted = (_, refl)

good_fields-UniqueAlong : UniqueAlong good_fields (split_path (txt "alarm"))
unfolding split_path distinct contains same
good_fields-UniqueAlong = (refl, λ inner e. tt)

get_field-delete_path_example :
    ((v : Value) × (get_field (obj good_fields) (txt "alarm") ≡ some v))
    × (get_field (obj deleted.0) (txt "alarm") ≡ none)
get_field-delete_path_example =
    get_field-delete_path good_fields (txt "alarm") {out = deleted.0} good_fields-UniqueAlong
      deleted.1
