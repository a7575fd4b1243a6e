-- ===== src/Receipt.antt =====
-- receipt.py, corpus_receipt.py and replay.py: records bound to their inputs by digests, and their
-- verification. The digest is a parameter.
pub mod Suites
pub mod RoundTrip
pub mod Detects
use constitutional_agent_tes.Base.{
  ℕ, Bool, true, false, ◌&&◌, ◌||◌, not, Option, none, some, List, [], ◌∷◌, map, ltb, leb, ◌==◌,
  if◌then◌else◌, Text, txt, same, sort_names, all, keep, length, utf8_size, Result, ok, err, ◌>>=◌,
  ◌>>◌, guard, map_err,
}
use constitutional_agent_tes.Json.{Value, str, obj, Fields, end, field, member}
use constitutional_agent_tes.Json.Ensure.{ensure_json_value, max_json_input_bytes}
use constitutional_agent_tes.Json.Encode.{FloatText, canonical_json, equal_texts}
use constitutional_agent_tes.Json.Encode.Size.{bounded_canonical_json_size}
use constitutional_agent_tes.Artifact.{stable_json}
use constitutional_agent_tes.Policy.{Policy, policy_to_dict}
use constitutional_agent_tes.Policy.Validate.{PolicyInput, object, validate_policy}
use constitutional_agent_tes.Errors.{
  TestbenchError, invalid_policy, invalid_receipt, receipt_output, receipt_limits, receipt_fields,
  receipt_version, receipt_digest,
}
use constitutional_agent_tes.Evaluator.{EvaluationResult, evaluate_response}
use constitutional_agent_tes.Precedence.Result.{exact_keys, reported_value, report_evaluation}
use constitutional_agent_tes.Precedence.Report.{Digest, fingerprint}

-- `re.fullmatch(r"[0-9a-f]{64}", text)`
abbrev pub is_hex : ℕ → Bool
is_hex c = (leb b'0' c && leb c b'9') || (leb b'a' c && leb c b'f')

unfoldable pub is_digest : Text → Bool
is_digest t = length t == 64 && all is_hex t

abbrev pub digest_value : Option Value → Bool
digest_value (some (str t)) = is_digest t
digest_value _ = false

-- `receipt[key] == text`
abbrev pub equals_text : Option Value → Text → Bool
equals_text (some (str s)) t = same s t
equals_text _ t = false

abbrev pub algorithm : Text
algorithm = txt "sha256-canonical-json-v1"

abbrev pub receipt_keys : List Text
receipt_keys =
    txt "receipt_version"
    ∷ txt "digest_algorithm"
    ∷ txt "policy_digest"
    ∷ txt "response_digest"
    ∷ txt "evaluation"
    ∷ []

abbrev pub is_current : Fields → Bool
is_current fs =
    equals_text (member (txt "receipt_version") fs) (txt "1.0")
    && equals_text (member (txt "digest_algorithm") fs) algorithm

abbrev pub has_digests : Fields → Bool
has_digests fs =
    digest_value (member (txt "policy_digest") fs)
    && digest_value (member (txt "response_digest") fs)

pub record Verification : Type 0 where
  pub verified : Bool
  pub mismatched_fields : List Text

abbrev pub has_none : List Text → Bool
has_none [] = true
has_none (name ∷ names) = false

-- The result of a verification with these mismatches.
abbrev pub verification : List Text → Verification
verification mismatches = record { verified = has_none mismatches; mismatched_fields = mismatches }

module _ ⦃repr : FloatText⦄ where
  abbrev pub member_text : Option Value → Option Text
  member_text none = none
  member_text (some v) = canonical_json v

  -- `canonical_json(receipt[key]) == canonical_json(expected[key])`
  abbrev pub agrees : Fields → Fields → Text → Bool
  agrees receipt expected key =
      equal_texts (member_text (member key receipt)) (member_text (member key expected))

  -- `sorted(key for key in keys if ...)`
  unfoldable pub mismatches : List Text → Fields → Fields → List Text
  unfolding sort_names
  mismatches names receipt expected =
      sort_names (keep (λ key. not (agrees receipt expected key)) names)

  -- The size checks of create_receipt, which become one error.
  abbrev pub formatted : Option Text → Result TestbenchError Unit
  formatted none = err (invalid_receipt receipt_output)
  formatted (some t) =
      if ltb max_json_input_bytes (utf8_size t) then err (invalid_receipt receipt_output) else ok tt

  module _ ⦃digest : Digest⦄ where
    unfoldable pub receipt_members : Policy → Value → EvaluationResult → Fields
    unfolding fingerprint policy_to_dict
    receipt_members p response x = field (txt "receipt_version") (str (txt "1.0")) (
        field (txt "digest_algorithm") (str algorithm) (
          field (txt "policy_digest") (str (fingerprint (policy_to_dict p))) (
            field (txt "response_digest") (str (fingerprint response))
              (field (txt "evaluation") (reported_value (report_evaluation x)) end))))

    -- receipt.py: create_receipt
    unfoldable pub create_receipt : PolicyInput → Value → Result TestbenchError Fields
    unfolding receipt_members stable_json
    create_receipt policy response = do
      current ← map_err invalid_policy (validate_policy policy)
      evaluation ← evaluate_response (object current) response
      size ←
          map_err (λ e. invalid_receipt receipt_output)
            (bounded_canonical_json_size (obj (receipt_members current response evaluation))
              max_json_input_bytes)
      formatted (stable_json (obj (receipt_members current response evaluation)))
      ok (receipt_members current response evaluation)

    abbrev pub check_receipt_fields : Value → Result TestbenchError Fields
    check_receipt_fields (obj fs) =
        if exact_keys fs receipt_keys then ok fs else err (invalid_receipt receipt_fields)
    check_receipt_fields _ = err (invalid_receipt receipt_fields)

    -- The end of verify_receipt, from the version on.
    unfoldable pub verify_members :
        PolicyInput → Value → Fields → Result TestbenchError Verification
    unfolding create_receipt mismatches is_digest
    verify_members policy response fs = do
      guard (is_current fs) (invalid_receipt receipt_version)
      guard (has_digests fs) (invalid_receipt receipt_digest)
      expected ← create_receipt policy response
      ok (verification (mismatches receipt_keys fs expected))

    -- receipt.py: verify_receipt
    unfoldable pub verify_receipt : PolicyInput → Value → Value → Result TestbenchError Verification
    unfolding verify_members exact_keys
    verify_receipt policy response receipt = do
      map_err (λ e. invalid_receipt receipt_limits) (ensure_json_value receipt)
      size ←
          map_err (λ e. invalid_receipt receipt_limits)
            (bounded_canonical_json_size receipt max_json_input_bytes)
      fs ← check_receipt_fields receipt
      verify_members policy response fs
