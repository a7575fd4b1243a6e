-- ===== src/Tests/Corpora.antt =====
-- Examples of suites and of their curation.
use constitutional_agent_tes.Base.{
  ℕ, ◌≡◌, refl, Bool, true, false, List, [], ◌∷◌, Text, txt, same, encodable, sort_names, none, ok,
}
use constitutional_agent_tes.Json.{Fields, member}
use constitutional_agent_tes.Json.Path.{get_field}
use constitutional_agent_tes.Json.Ensure.{ensure_json_value}
use constitutional_agent_tes.Json.Encode.{object_chunks}
use constitutional_agent_tes.Json.Encode.Size.{bounded_canonical_json_size}
use constitutional_agent_tes.Artifact.{bounded_artifact, stable_json}
use constitutional_agent_tes.Suite.{Case, Suite}
use constitutional_agent_tes.Suite.Validate.{validate_suite}
use constitutional_agent_tes.Suite.Validate.Laws.{WellFormed, validate_suite-WellFormed}
use constitutional_agent_tes.Suite.Evaluate.{SuiteReport, evaluate_fixtures}
use constitutional_agent_tes.Suite.Evaluate.Laws.{GoodReport, evaluate_fixtures-GoodReport}
use constitutional_agent_tes.Suite.Curation.{shard_suite}
use constitutional_agent_tes.Suite.Curation.Reduce.{
  Mark, rule_mark, verdict_mark, same_mark, retain,
}
use constitutional_agent_tes.Suite.Curation.Reduce.Covers.{Shown, Available}
use constitutional_agent_tes.Suite.Curation.Reduce.Retain.{retain-Shown}
use constitutional_agent_tes.Suite.Curation.Laws.{Declares, Shard, shard_suite-Shard}
use constitutional_agent_tes.Tests.Data.{
  bit_patterns, two_rules, two_cases_json, good_fields, bad_fields, last_of_two,
}

two_cases : (s : Suite) × (validate_suite two_cases_json ≡ ok s)
unfolding validate_suite ensure_json_value encodable bounded_canonical_json_size object_chunks
    sort_names same member
two_cases = (_, refl)

validate_suite-WellFormed_example : WellFormed two_cases.0
validate_suite-WellFormed_example =
    validate_suite-WellFormed two_cases_json {s = two_cases.0} two_cases.1

abbrev case_of : Text → Fields → Bool → Case
case_of name response expected = record {
  case_id = name;
  response = response;
  expected_passed = expected;
  expected_rules = none;
}

abbrev good_and_bad : Suite
good_and_bad = record {
  suite_version = txt "1.0";
  cases = case_of (txt "good") good_fields true ∷ case_of (txt "bad") bad_fields false ∷ [];
}

report : (r : SuiteReport) × (evaluate_fixtures two_rules good_and_bad ≡ ok r)
unfolding evaluate_fixtures get_field ensure_json_value encodable bounded_canonical_json_size
    object_chunks sort_names
report = (_, refl)

evaluate_fixtures-GoodReport_example : GoodReport two_rules good_and_bad report.0
evaluate_fixtures-GoodReport_example =
    evaluate_fixtures-GoodReport two_rules good_and_bad {r = report.0} report.1

half : (out : Suite) × (shard_suite two_cases_json last_of_two ≡ ok out)
unfolding shard_suite validate_suite ensure_json_value encodable bounded_canonical_json_size
    object_chunks sort_names same member bounded_artifact stable_json
half = (_, refl)

shard_suite-Shard_example :
    (s : Suite) × (validate_suite two_cases_json ≡ ok s)
    × ((index : ℕ) × (count : ℕ) × Declares last_of_two (index, count) × Shard s half.0 index count)
shard_suite-Shard_example = shard_suite-Shard two_cases_json last_of_two {out = half.0} half.1

abbrev two_signatures : List (List Mark)
two_signatures =
    (verdict_mark true true ∷ rule_mark (txt "quiet") true (txt "RULE_SATISFIED") ∷ [])
    ∷ (verdict_mark false false ∷ [])
    ∷ []

shows_verdict : Available two_signatures (verdict_mark false false)
unfolding same_mark same
shows_verdict = refl

retain-Shown_example : Shown (retain two_signatures []) two_signatures (verdict_mark false false)
retain-Shown_example = retain-Shown two_signatures [] (verdict_mark false false) shows_verdict
