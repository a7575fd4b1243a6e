-- ===== src/Receipt/RoundTrip.antt =====
-- What was created is verified.
use constitutional_agent_tes.Base.{
  ◌≡◌, refl, sym, ap, ◌∙◌, subst, Bool, true, ◌&&◌, not, some, List, [], ◌∷◌, Text, txt, same,
  same_refl, sort_names, keep, All, Result, ok, ◌>>=◌, map_err, >>=-eq-ok, >>=-ok, guard-true,
  ok-injective, map_err-eq-ok,
}
use constitutional_agent_tes.Json.{Value, obj, Fields, member}
use constitutional_agent_tes.Json.Encode.{FloatText, canonical_json, equal_texts}
use constitutional_agent_tes.Artifact.{bounded_artifact}
use constitutional_agent_tes.Artifact.Written.{bounded_artifact-member}
use constitutional_agent_tes.Policy.{Policy, policy_to_dict}
use constitutional_agent_tes.Policy.Validate.{
  PolicyInput, object, raw, validate_policy, check_relevant,
}
use constitutional_agent_tes.Errors.{
  TestbenchError, invalid_policy, invalid_workflow, bad_receipt_digest,
}
use constitutional_agent_tes.Precedence.Report.{Digest, fingerprint, text_or_empty}
use constitutional_agent_tes.Precedence.Result.{exact_keys}
use constitutional_agent_tes.Suite.{Suite, suite_value}
use constitutional_agent_tes.Suite.Validate.{validate_suite}
use constitutional_agent_tes.Suite.Evaluate.{SuiteReport, evaluate_suite}
use constitutional_agent_tes.Receipt.{is_digest, agrees, mismatches, verification, Verification}
use constitutional_agent_tes.Receipt.Suites.{
  suite_receipt_members, suite_receipt_keys, create_suite_receipt, verify_suite_receipt,
  replay_members, create_replay_bundle, replay_bundle, replay_owned, verify_fields,
  check_suite_receipt, check_replay, Replay, replay_of,
}

and_true : {a b : Bool} → a ≡ true → b ≡ true → (a && b) ≡ true
and_true h k = rw h k

equal_texts_refl : (t : Text) → equal_texts (some t) (some t) ≡ true
equal_texts_refl t = same_refl t

-- The record of an evaluation that a suite receipt is made from.
pub record Evidence ⦃repr : FloatText⦄ (policy : PolicyInput) (suite : Value) : Type 0 where
  pub current : Policy
  pub fixtures : Suite
  pub report : SuiteReport
  pub valid : validate_policy policy ≡ ok current
  pub checked : validate_suite suite ≡ ok fixtures
  pub evaluated : evaluate_suite (object current) (suite_value fixtures) ≡ ok report

module _ ⦃repr : FloatText⦄ where
  agrees_refl :
      (key : Text) (fs : Fields) {v : Value}
      → bounded_artifact (obj fs) ≡ ok tt
      → member key fs ≡ some v
      → agrees fs fs key ≡ true
  agrees_refl key fs bounded here =
      let (t, e) = bounded_artifact-member key fs bounded here in
      rw here (rw e (equal_texts_refl t))

  nothing_kept :
      (names : List Text) (receipt expected : Fields)
      → All (λ key. agrees receipt expected key ≡ true) names
      → keep (λ key. not (agrees receipt expected key)) names ≡ []
  nothing_kept [] receipt expected h = refl
  nothing_kept (name ∷ names) receipt expected h = rw h.0 (nothing_kept names receipt expected h.1)

  raw_valid :
      (p : Policy) {q : Policy}
      → validate_policy (object p) ≡ ok q
      → validate_policy (raw (policy_to_dict p)) ≡ ok q
  unfolding validate_policy
  raw_valid p h = (>>=-eq-ok (check_relevant p.policy_id 0 p.rules) _ h).2

  module _ ⦃digest : Digest⦄ where
    -- A suite receipt that was created is made of an evaluation and is within the limits.
    create_suite_receipt-eq-ok :
        (policy : PolicyInput) (suite : Value) {fs : Fields}
        → create_suite_receipt policy suite ≡ ok fs
        → (x : Evidence policy suite) × (bounded_artifact
              (obj (suite_receipt_members x.current x.fixtures x.report))
            ≡ ok tt)
          × (suite_receipt_members x.current x.fixtures x.report ≡ fs)
    unfolding create_suite_receipt
    create_suite_receipt-eq-ok policy suite h =
        let (p, hp, h1) = >>=-eq-ok (map_err invalid_policy (validate_policy policy)) _ h in
        let (s, hs, h2) = >>=-eq-ok (validate_suite suite) _ h1 in
        let (r, hr, h3) = >>=-eq-ok (evaluate_suite (object p) (suite_value s)) _ h2 in
        let (u, hu, h4) = >>=-eq-ok (bounded_artifact (obj (suite_receipt_members p s r))) _ h3 in
        (
          record {
            current = p;
            fixtures = s;
            report = r;
            valid = map_err-eq-ok invalid_policy (validate_policy policy) hp;
            checked = hs;
            evaluated = hr;
          },
          hu,
          ok-injective _ _ h4,
        )

    verified_fields :
        (policy : PolicyInput) (suite : Value) (p : Policy) (s : Suite) (r : SuiteReport)
        → ((t : Text) → is_digest (digest.sha256_hex t) ≡ true)
        → bounded_artifact (obj (suite_receipt_members p s r)) ≡ ok tt
        → create_suite_receipt policy suite ≡ ok (suite_receipt_members p s r)
        → verify_fields policy suite (suite_receipt_members p s r) ≡ ok (verification [])
    unfolding verify_fields suite_receipt_members member same fingerprint
    verified_fields policy suite p s r hex bounded created =
        let fs = suite_receipt_members p s r in
        let compare : Fields → Result TestbenchError Verification =
          λ expected. ok (verification (mismatches suite_receipt_keys fs expected)) in
        guard-true _ (invalid_workflow bad_receipt_digest)
          (create_suite_receipt policy suite >>= compare)
          (and_true (hex (text_or_empty (canonical_json (policy_to_dict p))))
            (hex (text_or_empty (canonical_json (suite_value s)))))
          (>>=-ok (create_suite_receipt policy suite) compare created (
            unfold mismatches sort_names in
            ap (λ names. ok (verification (sort_names names)))
              (nothing_kept suite_receipt_keys fs fs (
                agrees_refl (txt "suite_receipt_version") fs bounded refl,
                (
                  agrees_refl (txt "digest_algorithm") fs bounded refl,
                  (
                    agrees_refl (txt "policy_digest") fs bounded refl,
                    (
                      agrees_refl (txt "suite_digest") fs bounded refl,
                      (agrees_refl (txt "evaluation") fs bounded refl, tt),
                    ),
                  ),
                ),
              ))))

    verified_members :
        (policy : PolicyInput) (suite : Value) (p : Policy) (s : Suite) (r : SuiteReport)
        → ((t : Text) → is_digest (digest.sha256_hex t) ≡ true)
        → bounded_artifact (obj (suite_receipt_members p s r)) ≡ ok tt
        → create_suite_receipt policy suite ≡ ok (suite_receipt_members p s r)
        → verify_suite_receipt policy suite (obj (suite_receipt_members p s r))
          ≡ ok (verification [])
    unfolding verify_suite_receipt suite_receipt_members exact_keys member same
    verified_members policy suite p s r hex bounded created =
        let fs = suite_receipt_members p s r in
        rw bounded (
          >>=-ok (check_suite_receipt (obj fs)) (verify_fields policy suite) refl
            (verified_fields policy suite p s r hex bounded created))

    -- A suite receipt that was created is verified against its policy and suite without a mismatch,
    -- where every digest is 64 lower case hexadecimal digits.
    pub verify_suite_receipt-create_suite_receipt :
        (policy : PolicyInput) (suite : Value) {fs : Fields}
        → ((t : Text) → is_digest (digest.sha256_hex t) ≡ true)
        → create_suite_receipt policy suite ≡ ok fs
        → verify_suite_receipt policy suite (obj fs) ≡ ok (verification [])
    verify_suite_receipt-create_suite_receipt policy suite {fs} hex created =
        let (x, bounded, made) = create_suite_receipt-eq-ok policy suite created in
        subst (λ fs. verify_suite_receipt policy suite (obj fs) ≡ ok (verification [])) made
          (verified_members policy suite x.current x.fixtures x.report hex bounded
            (created ∙ ap ok (sym made)))

    -- A dict that validate_policy read a policy from gives the same receipt as the policy.
    create_suite_receipt-raw :
        (p : Policy) (suite : Value) {fs : Fields}
        → create_suite_receipt (object p) suite ≡ ok fs
        → create_suite_receipt (raw (policy_to_dict p)) suite ≡ ok fs
    unfolding create_suite_receipt
    create_suite_receipt-raw p suite h =
        let (q, valid, rest) =
          >>=-eq-ok (map_err invalid_policy (validate_policy (object p))) _ h in
        >>=-ok (map_err invalid_policy (validate_policy (raw (policy_to_dict p)))) _
          (ap (map_err invalid_policy)
            (raw_valid p (map_err-eq-ok invalid_policy (validate_policy (object p)) valid)))
          rest

    -- The replay of a bundle that was created.
    pub record Replayed (fs : Fields) (passed : Bool) : Type 0 where
      pub result : Replay
      pub replayed : replay_bundle (obj fs) ≡ ok result
      pub verified : result.verified ≡ true
      pub expected : result.replay_passed ≡ passed

    replay_of_members :
        (p : Policy) (s : Suite) (q : Policy) (t : Suite) (r : SuiteReport)
        → ((t : Text) → is_digest (digest.sha256_hex t) ≡ true)
        → bounded_artifact (obj (suite_receipt_members q t r)) ≡ ok tt
        → bounded_artifact (obj (replay_members p s (suite_receipt_members q t r))) ≡ ok tt
        → create_suite_receipt (object p) (suite_value s) ≡ ok (suite_receipt_members q t r)
        → Replayed (replay_members p s (suite_receipt_members q t r)) r.matches_expectations
    unfolding replay_bundle replay_owned replay_members exact_keys member same suite_receipt_members
    replay_of_members p s q t r hex inner bounded created =
        let fs = suite_receipt_members q t r in
        record {
          result = replay_of (obj fs) (verification []);
          replayed = rw bounded (
              >>=-ok (check_replay (obj (replay_members p s fs))) replay_owned refl (
                >>=-ok (verify_suite_receipt (raw (policy_to_dict p)) (suite_value s) (obj fs))
                  (λ v. ok (replay_of (obj fs) v))
                  (verified_members (raw (policy_to_dict p)) (suite_value s) q t r hex inner
                    (create_suite_receipt-raw p (suite_value s) created))
                  refl));
          verified = refl;
          expected = refl;
        }

    -- A replay bundle that was created is replayed: its receipt is verified, and the replay passes
    -- exactly where the bundled suite's report matches its expectations; every digest is 64 lower case
    -- hexadecimal digits.
    pub replay_bundle-create_replay_bundle :
        (policy : PolicyInput) (suite : Value) {fs : Fields}
        → ((t : Text) → is_digest (digest.sha256_hex t) ≡ true)
        → create_replay_bundle policy suite ≡ ok fs
        → (p : Policy) × (validate_policy policy ≡ ok p)
          × ((s : Suite) × (validate_suite suite ≡ ok s)
              × ((x : Evidence (object p) (suite_value s)) × Replayed fs
                    x.report.matches_expectations))
    unfolding create_replay_bundle
    replay_bundle-create_replay_bundle policy suite hex h =
        let (p, hp, h1) = >>=-eq-ok (map_err invalid_policy (validate_policy policy)) _ h in
        let (s, hs, h2) = >>=-eq-ok (validate_suite suite) _ h1 in
        let (receipt, hr, h3) = >>=-eq-ok (create_suite_receipt (object p) (suite_value s)) _ h2 in
        let (u, bounded, h4) =
          >>=-eq-ok (bounded_artifact (obj (replay_members p s receipt))) _ h3 in
        let (x, inner, made) = create_suite_receipt-eq-ok (object p) (suite_value s) hr in
        (
          p,
          map_err-eq-ok invalid_policy (validate_policy policy) hp,
          (
            s,
            hs,
            (
              x,
              subst (λ fs. Replayed fs x.report.matches_expectations)
                  (ap (replay_members p s) made ∙ ok-injective _ _ h4)
                  (replay_of_members p s x.current x.fixtures x.report hex inner
                    (subst (λ fs. bounded_artifact (obj (replay_members p s fs)) ≡ ok tt) (sym made)
                      bounded)
                    (hr ∙ ap ok (sym made))),
            ),
          ),
        )
