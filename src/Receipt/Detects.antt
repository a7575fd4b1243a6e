-- ===== src/Receipt/Detects.antt =====
-- A verification succeeds exactly where the receipt agrees with the recomputed one.
use constitutional_agent_tes.Base.{
  ◌≡◌, refl, sym, ◌∙◌, subst, ◌↔◌, true, false, not, some, List, [], ◌∷◌, arith, Text,
  insert_sorted, sort_names, keep, All, Result, ok, guard, map_err, >>=-eq-ok, ok-injective,
  guard-eq-ok, Bool-cases, inl, inr,
}
use constitutional_agent_tes.Json.{Value, obj, Fields, member, null}
use constitutional_agent_tes.Json.Ensure.{ensure_json_value, max_json_input_bytes}
use constitutional_agent_tes.Json.Encode.{FloatText}
use constitutional_agent_tes.Json.Encode.Size.{bounded_canonical_json_size}
use constitutional_agent_tes.Artifact.{bounded_artifact}
use constitutional_agent_tes.Policy.Validate.{PolicyInput}
use constitutional_agent_tes.Errors.{
  TestbenchError, invalid_receipt, receipt_limits, receipt_version, receipt_digest,
}
use constitutional_agent_tes.Precedence.Report.{Digest}
use constitutional_agent_tes.Evaluator.Satisfies.{equal_texts_iff}
use constitutional_agent_tes.Receipt.{
  agrees, member_text, mismatches, has_none, receipt_keys, check_receipt_fields, create_receipt,
  is_current, has_digests, verify_receipt, verify_members, Verification, verification,
}
use constitutional_agent_tes.Receipt.Suites.{
  suite_receipt_keys, check_suite_receipt, create_suite_receipt, verify_suite_receipt,
  verify_fields,
}

has_none-insert_sorted : (n : Text) (names : List Text) → has_none (insert_sorted n names) ≡ false
unfolding insert_sorted
has_none-insert_sorted n [] = refl
has_none-insert_sorted n (m ∷ names) = ground arith

has_none-sort_names : (names : List Text) → has_none (sort_names names) ≡ has_none names
unfolding sort_names
has_none-sort_names [] = refl
has_none-sort_names (n ∷ names) = has_none-insert_sorted n (sort_names names)

module _ ⦃repr : FloatText⦄ where
  -- A field has one canonical text in both receipts.
  abbrev pub SameField : Fields → Fields → Text → Type 0
  SameField receipt expected key =
      (t : Text) × (member_text (member key receipt) ≡ some t)
      × (member_text (member key expected) ≡ some t)

  none_kept_iff :
      (names : List Text) (receipt expected : Fields)
      → (has_none (keep (λ key. not (agrees receipt expected key)) names) ≡ true)
        ↔ All (SameField receipt expected) names
  none_kept_iff [] receipt expected = ((λ h. tt), (λ h. refl))
  none_kept_iff (name ∷ names) receipt expected =
      let own =
        equal_texts_iff (member_text (member name receipt)) (member_text (member name expected)) in
      let rest = none_kept_iff names receipt expected in
      elim (Bool-cases (agrees receipt expected name)) [
        | inl e ↦ rw e ((λ h. (own.0 e, rest.0 h)), (λ h. rest.1 h.1))
        | inr e ↦ rw e ((λ h. cc), (λ h. cc (e, own.1 h.0)))
      ]

  verified_iff :
      (names : List Text) (receipt expected : Fields)
      → ((verification (mismatches names receipt expected)).verified ≡ true)
        ↔ All (SameField receipt expected) names
  unfolding mismatches
  verified_iff names receipt expected =
      let both = none_kept_iff names receipt expected in
      let sorted = has_none-sort_names (keep (λ key. not (agrees receipt expected key)) names) in
      ((λ h. both.0 (sym sorted ∙ h)), (λ h. sorted ∙ both.1 h))

  module _ ⦃digest : Digest⦄ where
    -- A verification that ends well agrees with the receipt that was made again.
    pub record Agreement (names : List Text) (made : Result TestbenchError Fields) (receipt : Value)
        (v : Verification) : Type 0 where
      pub members : Fields
      pub is_dict : receipt ≡ obj members
      pub expected : Fields
      pub recomputed : made ≡ ok expected
      pub agreement : (v.verified ≡ true) ↔ All (SameField members expected) names

    check_receipt_fields-eq-ok :
        (receipt : Value) {fs : Fields} → check_receipt_fields receipt ≡ ok fs → receipt ≡ obj fs
    check_receipt_fields-eq-ok (obj fs) h = ground arith
    check_receipt_fields-eq-ok null h = cc
    check_receipt_fields-eq-ok _ h = cc

    check_suite_receipt-eq-ok :
        (receipt : Value) {fs : Fields} → check_suite_receipt receipt ≡ ok fs → receipt ≡ obj fs
    check_suite_receipt-eq-ok (obj fs) h = ground arith
    check_suite_receipt-eq-ok null h = cc
    check_suite_receipt-eq-ok _ h = cc

    verify_members-Agreement :
        (policy : PolicyInput) (response : Value) (fs : Fields) {v : Verification}
        → verify_members policy response fs ≡ ok v
        → Agreement receipt_keys (create_receipt policy response) (obj fs) v
    unfolding verify_members
    verify_members-Agreement policy response fs h =
        let (u, hu, h1) = >>=-eq-ok (guard (is_current fs) (invalid_receipt receipt_version)) _ h in
        let (w, hw, h2) =
          >>=-eq-ok (guard (has_digests fs) (invalid_receipt receipt_digest)) _ h1 in
        let (expected, he, h3) = >>=-eq-ok (create_receipt policy response) _ h2 in
        subst (Agreement receipt_keys (create_receipt policy response) (obj fs))
          (ok-injective _ _ h3)
          (record {
            members = fs;
            is_dict = refl;
            expected = expected;
            recomputed = he;
            agreement = verified_iff receipt_keys fs expected;
          })

    -- Where verify_receipt returns, the receipt is a dict and create_receipt returns on the same
    -- inputs; the receipt is verified exactly when each of its five fields has the canonical text of
    -- the recomputed field.
    pub verify_receipt-Agreement :
        (policy : PolicyInput) (response receipt : Value) {v : Verification}
        → verify_receipt policy response receipt ≡ ok v
        → Agreement receipt_keys (create_receipt policy response) receipt v
    unfolding verify_receipt
    verify_receipt-Agreement policy response receipt h =
        let (u, hu, h1) =
          >>=-eq-ok (map_err (λ e. invalid_receipt receipt_limits) (ensure_json_value receipt)) _
            h in
        let (size, hs, h2) =
          >>=-eq-ok
            (map_err (λ e. invalid_receipt receipt_limits)
              (bounded_canonical_json_size receipt max_json_input_bytes))
            _ h1 in
        let (fs, hf, h3) = >>=-eq-ok (check_receipt_fields receipt) _ h2 in
        rw (check_receipt_fields-eq-ok receipt hf) (verify_members-Agreement policy response fs h3)

    -- Where verify_suite_receipt returns, the receipt is a dict and create_suite_receipt returns on
    -- the same inputs; the receipt is verified exactly when each of its five fields has the canonical
    -- text of the recomputed field.
    pub verify_suite_receipt-Agreement :
        (policy : PolicyInput) (suite receipt : Value) {v : Verification}
        → verify_suite_receipt policy suite receipt ≡ ok v
        → Agreement suite_receipt_keys (create_suite_receipt policy suite) receipt v
    unfolding verify_suite_receipt verify_fields
    verify_suite_receipt-Agreement policy suite receipt h =
        let (u, hu, h1) = >>=-eq-ok (bounded_artifact receipt) _ h in
        let (fs, hf, h2) = >>=-eq-ok (check_suite_receipt receipt) _ h1 in
        let (digests, h3) = guard-eq-ok _ _ _ h2 in
        let (expected, he, h4) = >>=-eq-ok (create_suite_receipt policy suite) _ h3 in
        subst (Agreement suite_receipt_keys (create_suite_receipt policy suite) receipt)
          (ok-injective _ _ h4)
          (record {
            members = fs;
            is_dict = check_suite_receipt-eq-ok receipt hf;
            expected = expected;
            recomputed = he;
            agreement = verified_iff suite_receipt_keys fs expected;
          })
