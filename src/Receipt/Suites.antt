-- ===== src/Receipt/Suites.antt =====
-- corpus_receipt.py: receipts of a whole suite; replay.py: bundles of a policy, a suite and a receipt.
use constitutional_agent_tes.Base.{
  Bool, true, false, ◌&&◌, Option, none, some, List, [], ◌∷◌, map, if◌then◌else◌, Text, txt, pos,
  Result, ok, err, ◌>>=◌, ◌>>◌, guard, map_err,
}
use constitutional_agent_tes.Json.{
  Value, null, bool, int, str, arr, obj, Fields, end, field, member, list_items,
}
use constitutional_agent_tes.Json.Encode.{FloatText}
use constitutional_agent_tes.Artifact.{bounded_artifact}
use constitutional_agent_tes.Policy.{Policy, policy_to_dict}
use constitutional_agent_tes.Policy.Validate.{PolicyInput, object, raw, validate_policy}
use constitutional_agent_tes.Errors.{
  TestbenchError, invalid_policy, invalid_workflow, bad_receipt, bad_receipt_digest, bad_replay,
}
use constitutional_agent_tes.Precedence.Result.{exact_keys, reported_value, report_evaluation}
use constitutional_agent_tes.Precedence.Report.{Digest, fingerprint}
use constitutional_agent_tes.Suite.{Suite, suite_value}
use constitutional_agent_tes.Suite.Validate.{validate_suite}
use constitutional_agent_tes.Suite.Evaluate.{CaseReport, SuiteReport, evaluate_suite}
use constitutional_agent_tes.Receipt.{
  algorithm, digest_value, is_digest, equals_text, mismatches, verification, Verification,
}

-- The dict of a suite report.
abbrev pub mismatches_member : Option (List Text) → Fields
mismatches_member none = end
mismatches_member (some names) =
    field (txt "rule_assertion_mismatches") (arr (list_items (map str names))) end

abbrev pub case_report_value : CaseReport → Value
case_report_value c = obj (
    field (txt "case_id") (str c.case_id) (
      field (txt "expected_passed") (bool c.expected_passed) (
        field (txt "matches_expectation") (bool c.matches_expectation) (
          field (txt "evaluation") (reported_value (report_evaluation c.evaluation))
            (mismatches_member c.rule_assertion_mismatches)))))

abbrev pub suite_report_fields : SuiteReport → Fields
suite_report_fields r = field (txt "suite_version") (str r.suite_version) (
    field (txt "policy_id") (str r.policy_id) (
      field (txt "matches_expectations") (bool r.matches_expectations) (
        field (txt "case_count") (int (pos r.case_count)) (
          field (txt "mismatch_count") (int (pos r.mismatch_count))
            (field (txt "cases") (arr (list_items (map case_report_value r.cases))) end)))))

abbrev pub suite_receipt_keys : List Text
suite_receipt_keys =
    txt "suite_receipt_version"
    ∷ txt "digest_algorithm"
    ∷ txt "policy_digest"
    ∷ txt "suite_digest"
    ∷ txt "evaluation"
    ∷ []

abbrev pub replay_keys : List Text
replay_keys = txt "replay_version" ∷ txt "policy" ∷ txt "suite" ∷ txt "receipt" ∷ []

-- The tests on the fields, the version and the algorithm.
abbrev pub check_suite_receipt : Value → Result TestbenchError Fields
check_suite_receipt (obj fs) =
    if exact_keys fs suite_receipt_keys
      && (equals_text (member (txt "suite_receipt_version") fs) (txt "1.0")
          && equals_text (member (txt "digest_algorithm") fs) algorithm)
    then ok fs
    else err (invalid_workflow bad_receipt)
check_suite_receipt _ = err (invalid_workflow bad_receipt)

abbrev pub check_replay : Value → Result TestbenchError Fields
check_replay (obj fs) =
    if exact_keys fs replay_keys && equals_text (member (txt "replay_version") fs) (txt "1.0")
    then ok fs
    else err (invalid_workflow bad_replay)
check_replay _ = err (invalid_workflow bad_replay)

-- `fs[key]`, of a key that is there
abbrev pub item_of : Text → Fields → Value
item_of key fs = elim (member key fs) [ none ↦ null | some v ↦ v ]

-- `receipt["evaluation"]["matches_expectations"]`, of a receipt that was verified
abbrev pub matches_of : Value → Value
matches_of (obj fs) = elim (item_of (txt "evaluation") fs) [
  | obj report ↦ item_of (txt "matches_expectations") report
  | _ ↦ null
]
matches_of _ = null

pub record Replay : Type 0 where
  pub verified : Bool
  pub matches_expectations : Option Value
  pub replay_passed : Bool
  pub verification : Verification

-- `matched is True`
abbrev pub is_true : Option Value → Bool
is_true (some (bool b)) = b
is_true _ = false

abbrev pub matched_of : Bool → Value → Option Value
matched_of true receipt = some (matches_of receipt)
matched_of false receipt = none

abbrev pub replay_of : Value → Verification → Replay
replay_of receipt v = record {
  verified = v.verified;
  matches_expectations = matched_of v.verified receipt;
  replay_passed = v.verified && is_true (matched_of v.verified receipt);
  verification = v;
}

module _ ⦃repr : FloatText⦄ ⦃digest : Digest⦄ where
  unfoldable pub suite_receipt_members : Policy → Suite → SuiteReport → Fields
  unfolding fingerprint policy_to_dict
  suite_receipt_members p s report = field (txt "suite_receipt_version") (str (txt "1.0")) (
      field (txt "digest_algorithm") (str algorithm) (
        field (txt "policy_digest") (str (fingerprint (policy_to_dict p))) (
          field (txt "suite_digest") (str (fingerprint (suite_value s)))
            (field (txt "evaluation") (obj (suite_report_fields report)) end))))

  -- corpus_receipt.py: create_suite_receipt
  unfoldable pub create_suite_receipt : PolicyInput → Value → Result TestbenchError Fields
  unfolding suite_receipt_members evaluate_suite bounded_artifact
  create_suite_receipt policy suite = do
    current ← map_err invalid_policy (validate_policy policy)
    fixtures ← validate_suite suite
    report ← evaluate_suite (object current) (suite_value fixtures)
    bounded_artifact (obj (suite_receipt_members current fixtures report))
    ok (suite_receipt_members current fixtures report)

  -- The end of verify_suite_receipt, from the digests on.
  unfoldable pub verify_fields : PolicyInput → Value → Fields → Result TestbenchError Verification
  unfolding create_suite_receipt mismatches is_digest
  verify_fields policy suite fs = do
    guard
        (digest_value (member (txt "policy_digest") fs)
          && digest_value (member (txt "suite_digest") fs))
        (invalid_workflow bad_receipt_digest)
    expected ← create_suite_receipt policy suite
    ok (verification (mismatches suite_receipt_keys fs expected))

  -- corpus_receipt.py: verify_suite_receipt
  unfoldable pub verify_suite_receipt :
      PolicyInput → Value → Value → Result TestbenchError Verification
  unfolding verify_fields
  verify_suite_receipt policy suite receipt = do
    bounded_artifact receipt
    fs ← check_suite_receipt receipt
    verify_fields policy suite fs

  unfoldable pub replay_members : Policy → Suite → Fields → Fields
  replay_members p s receipt = field (txt "replay_version") (str (txt "1.0")) (
      field (txt "policy") (policy_to_dict p)
        (field (txt "suite") (suite_value s) (field (txt "receipt") (obj receipt) end)))

  -- replay.py: create_replay_bundle
  unfoldable pub create_replay_bundle : PolicyInput → Value → Result TestbenchError Fields
  unfolding replay_members create_suite_receipt
  create_replay_bundle policy suite = do
    current ← map_err invalid_policy (validate_policy policy)
    fixtures ← validate_suite suite
    receipt ← create_suite_receipt (object current) (suite_value fixtures)
    bounded_artifact (obj (replay_members current fixtures receipt))
    ok (replay_members current fixtures receipt)

  -- The end of replay_bundle, behind the tests on the fields.
  unfoldable pub replay_owned : Fields → Result TestbenchError Replay
  unfolding verify_suite_receipt
  replay_owned owned = do
    v ←
        verify_suite_receipt (raw (item_of (txt "policy") owned)) (item_of (txt "suite") owned)
          (item_of (txt "receipt") owned)
    ok (replay_of (item_of (txt "receipt") owned) v)

  -- replay.py: replay_bundle
  unfoldable pub replay_bundle : Value → Result TestbenchError Replay
  unfolding replay_owned
  replay_bundle bundle = do bounded_artifact bundle; owned ← check_replay bundle; replay_owned owned
