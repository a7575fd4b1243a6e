-- ===== src/Tests/Records.antt =====
-- Examples of receipts and of replay bundles.
use constitutional_agent_tes.Base.{
  ◌≡◌, refl, true, [], Text, txt, same, sort_names, encodable, ok, replicate,
}
use constitutional_agent_tes.Json.{Value, Fields, obj, member, set_member, null}
use constitutional_agent_tes.Json.Path.{get_field}
use constitutional_agent_tes.Json.Ensure.{ensure_json_value}
use constitutional_agent_tes.Json.Encode.{object_chunks}
use constitutional_agent_tes.Json.Encode.Size.{bounded_canonical_json_size}
use constitutional_agent_tes.Artifact.{stable_json}
use constitutional_agent_tes.Policy.{Policy}
use constitutional_agent_tes.Policy.Validate.{raw, object, validate_policy}
use constitutional_agent_tes.Evaluator.{evaluate_response}
use constitutional_agent_tes.Suite.{Suite, suite_value}
use constitutional_agent_tes.Suite.Validate.{validate_suite}
use constitutional_agent_tes.Precedence.Report.{Digest}
use constitutional_agent_tes.Receipt.{
  is_digest, receipt_keys, create_receipt, verify_receipt, verification, Verification,
}
use constitutional_agent_tes.Receipt.Suites.{
  suite_receipt_keys, create_suite_receipt, verify_suite_receipt, create_replay_bundle,
}
use constitutional_agent_tes.Receipt.RoundTrip.{
  Evidence, Replayed, verify_suite_receipt-create_suite_receipt, replay_bundle-create_replay_bundle,
}
use constitutional_agent_tes.Receipt.Detects.{
  Agreement, verify_receipt-Agreement, verify_suite_receipt-Agreement,
}
use constitutional_agent_tes.Tests.Data.{bit_patterns, two_rules_json, two_cases_json, good_fields}

-- A digest in the form that the verification demands.
instance abbrev sixty_four : Digest
sixty_four = record { sha256_hex = λ t. replicate 64 b'a' }

hex_digits : (t : Text) → is_digest (sixty_four.sha256_hex t) ≡ true
unfolding is_digest
hex_digits t = refl

suite_receipt : (fs : Fields) × (create_suite_receipt (raw two_rules_json) two_cases_json ≡ ok fs)
unfolding create_suite_receipt validate_policy get_field ensure_json_value encodable
    bounded_canonical_json_size object_chunks sort_names same member stable_json
suite_receipt = (_, refl)

verify_suite_receipt-create_suite_receipt_example :
    verify_suite_receipt (raw two_rules_json) two_cases_json (obj suite_receipt.0)
    ≡ ok (verification [])
verify_suite_receipt-create_suite_receipt_example =
    verify_suite_receipt-create_suite_receipt (raw two_rules_json) two_cases_json
      {fs = suite_receipt.0} hex_digits suite_receipt.1

bundle : (fs : Fields) × (create_replay_bundle (raw two_rules_json) two_cases_json ≡ ok fs)
unfolding create_replay_bundle validate_policy get_field ensure_json_value encodable
    bounded_canonical_json_size object_chunks sort_names same member stable_json
bundle = (_, refl)

replay_bundle-create_replay_bundle_example :
    (p : Policy) × (validate_policy (raw two_rules_json) ≡ ok p)
    × ((s : Suite) × (validate_suite two_cases_json ≡ ok s)
        × ((x : Evidence (object p) (suite_value s)) × Replayed bundle.0
              x.report.matches_expectations))
replay_bundle-create_replay_bundle_example =
    replay_bundle-create_replay_bundle (raw two_rules_json) two_cases_json {fs = bundle.0}
      hex_digits bundle.1

-- A receipt whose evaluation was replaced.
abbrev receipt_of : Fields → Value
receipt_of fs = obj (set_member (txt "evaluation") null fs)

honest : (fs : Fields) × (create_receipt (raw two_rules_json) (obj good_fields) ≡ ok fs)
unfolding create_receipt evaluate_response validate_policy get_field ensure_json_value encodable
    bounded_canonical_json_size object_chunks sort_names same member stable_json
honest = (_, refl)

forged :
    (v : Verification) × (verify_receipt
        (raw two_rules_json)
        (obj good_fields)
        (receipt_of honest.0)
      ≡ ok v)
unfolding verify_receipt honest set_member evaluate_response validate_policy get_field
    ensure_json_value encodable bounded_canonical_json_size object_chunks sort_names same member
    stable_json
forged = (_, refl)

verify_receipt-Agreement_example :
    Agreement receipt_keys
      (create_receipt (raw two_rules_json) (obj good_fields))
      (receipt_of honest.0)
      forged.0
verify_receipt-Agreement_example =
    verify_receipt-Agreement (raw two_rules_json) (obj good_fields) (receipt_of honest.0)
      {v = forged.0} forged.1

verify_suite_receipt-Agreement_example :
    Agreement suite_receipt_keys
      (create_suite_receipt (raw two_rules_json) two_cases_json)
      (obj suite_receipt.0)
      (verification [])
verify_suite_receipt-Agreement_example =
    verify_suite_receipt-Agreement (raw two_rules_json) two_cases_json (obj suite_receipt.0)
      {v = verification []} verify_suite_receipt-create_suite_receipt_example
