-- ===== src/Cli/Status.antt =====
-- What the exit status of main tells.
use constitutional_agent_tes.Base.{
  ℕ, ◌≡◌, refl, sym, ap, ◌∙◌, subst, ◌↔◌, ◌⊎◌, inl, inr, Bool, true, false, not, ◌&&◌, ◌||◌, List,
  arith, ltb, Text, txt, All, or_iff, and_iff, Result, ok, err, >>=-eq-ok, guard, map_err,
  map_err-eq-ok, ok-injective,
}
use constitutional_agent_tes.Json.{Value}
use constitutional_agent_tes.Json.Encode.{FloatText}
use constitutional_agent_tes.Policy.{Policy}
use constitutional_agent_tes.Policy.Validate.{object, raw, validate_policy}
use constitutional_agent_tes.Policy.Accepted.{Portable, validate_policy-Portable}
use constitutional_agent_tes.Policy.RoundTrip.{validate_policy-object}
use constitutional_agent_tes.Errors.{TestbenchError, invalid_policy, invalid_command, one_stdin}
use constitutional_agent_tes.Precedence.Report.{Digest}
use constitutional_agent_tes.Evaluator.{
  EvaluationResult, check_response, compile, evaluate_checked, evaluate_compiled, evaluate_response,
}
use constitutional_agent_tes.Evaluator.Results.{check_response-same}
use constitutional_agent_tes.Evaluator.Satisfies.{Satisfies, evaluate_checked-Satisfies}
use constitutional_agent_tes.Cli.Negative.{
  Negative, ReasonGap, is_negative_outcome-Negative, has_reason_gap-ReasonGap,
}
use constitutional_agent_tes.Cli.Run.{
  Arguments, evaluate, Outcome, evaluated, path_of, stdin_count, is_negative_outcome,
  has_reason_gap, status_if, exit_status, finish, run_with_policy, run_policy_command, run_command,
  main,
}

-- The outcome is negative under a flag that was given.
abbrev pub Flagged : Arguments → Outcome → Type 0
Flagged arguments outcome =
    ((arguments.strict_exit ≡ true) × Negative outcome)
    ⊎ ((arguments.strict_reasons ≡ true) × ReasonGap outcome)

status_one : (b : Bool) → (status_if b ≡ 1) ↔ (b ≡ true)
status_one true = ((λ h. refl), (λ h. refl))
status_one false = ((λ h. absurd (omega (arith, h))), (λ h. cc))

exit_status_one :
    (arguments : Arguments) (outcome : Outcome)
    → (exit_status arguments outcome ≡ 1) ↔ Flagged arguments outcome
unfolding exit_status
exit_status_one arguments outcome =
    let strict = arguments.strict_exit && is_negative_outcome outcome in
    let gap = arguments.strict_reasons && has_reason_gap outcome in
    let one = status_one (strict || gap) in
    let either =
      or_iff strict gap
        (and_iff arguments.strict_exit (is_negative_outcome outcome)
          (is_negative_outcome-Negative outcome))
        (and_iff arguments.strict_reasons (has_reason_gap outcome)
          (has_reason_gap-ReasonGap outcome)) in
    ((λ h. either.0 (one.0 h)), (λ f. one.1 (either.1 f)))

exit_status_cases :
    (arguments : Arguments) (outcome : Outcome)
    → (exit_status arguments outcome ≡ 0) ⊎ (exit_status arguments outcome ≡ 1)
unfolding exit_status
exit_status_cases arguments outcome = ground arith

-- What a status tells of the result of a command.
pub record ExitStatus (arguments : Arguments) (run : Result TestbenchError Outcome) (status : ℕ)
    : Type 0 where
  pub failure : (status ≡ 2) ↔ ((e : TestbenchError) × (run ≡ err e))
  pub negative :
      (status ≡ 1) ↔ ((outcome : Outcome) × (run ≡ ok outcome) × Flagged arguments outcome)
  pub success :
      (status ≡ 0) ↔ ((outcome : Outcome) × (run ≡ ok outcome) × (¬ Flagged arguments outcome))

finish-ExitStatus :
    (arguments : Arguments) (run : Result TestbenchError Outcome)
    → ExitStatus arguments run (finish arguments run)
unfolding finish
finish-ExitStatus arguments (err e) = record {
  failure = ((λ h. (e, refl)), (λ h. refl));
  negative = ((λ h. absurd (omega (arith, h))), (λ h. cc (h.1)));
  success = ((λ h. absurd (omega (arith, h))), (λ h. cc (h.1)));
}
finish-ExitStatus arguments (ok outcome) =
    let cases = exit_status_cases arguments outcome in
    let one = exit_status_one arguments outcome in
    record {
      failure = (
        (λ h. elim cases [
          | inl z ↦ absurd (omega (arith, z, h))
          | inr o ↦ absurd (omega (arith, o, h))
        ]),
        (λ h. cc (h.1)),
      );
      negative = (
        (λ h. (outcome, refl, one.0 h)),
        (λ h. one.1 (subst (Flagged arguments) (sym (ok-injective _ _ h.1)) h.2)),
      );
      success = (
        (λ h. (outcome, refl, λ f. omega (arith, h, one.1 f))),
        (λ h. elim cases [
          | inl z ↦ z
          | inr o ↦ absurd (h.2 (subst (Flagged arguments) (ok-injective _ _ h.1) (one.0 o)))
        ]),
      );
    }

-- `evaluate --strict-exit` with these paths
abbrev pub evaluate_strictly : List (Text × Text) → Arguments
evaluate_strictly paths = record {
  command = evaluate;
  paths = paths;
  strict_exit = true;
  strict_reasons = false;
}

evaluated_status :
    (paths : List (Text × Text)) (x : EvaluationResult)
    → (exit_status (evaluate_strictly paths) (evaluated x) ≡ 0) ↔ (x.passed ≡ true)
unfolding exit_status is_negative_outcome
evaluated_status paths x = ground arith

module _ ⦃repr : FloatText⦄ ⦃digest : Digest⦄ (load : Text → Result TestbenchError Value) where
  -- Once the arguments are parsed, and for a result that can be written, main returns 2 exactly where
  -- the command raises an error of the library, 1 exactly where it returns an outcome that is negative
  -- and --strict-exit was given or has a reason gap and --strict-reasons was given, and 0 exactly where
  -- it returns another outcome.
  pub main-ExitStatus :
      (arguments : Arguments)
      → ExitStatus arguments (run_command load arguments) (main load arguments)
  unfolding main
  main-ExitStatus arguments = finish-ExitStatus arguments (run_command load arguments)

  -- One input is standard input at most, both inputs can be read, the policy is valid and its own dict is
  -- within the limits, and the response is accepted and satisfies every rule of the policy.
  pub record Conforming (paths : List (Text × Text)) : Type 0 where
    pub single : ltb 1 (stdin_count (evaluate_strictly paths)) ≡ false
    pub document : Value
    pub policy_read : load (path_of (evaluate_strictly paths) (txt "policy")) ≡ ok document
    pub policy : Policy
    pub valid : validate_policy (raw document) ≡ ok policy
    pub response : Value
    pub response_read : load (path_of (evaluate_strictly paths) (txt "response")) ≡ ok response
    pub portable : Portable policy
    pub accepted : check_response response ≡ ok response
    pub satisfied : All (Satisfies response) policy.rules

  guard_passed : (b : Bool) (e : TestbenchError) {u : Unit} → guard (not b) e ≡ ok u → b ≡ false
  guard_passed true e h = cc
  guard_passed false e h = refl

  zero-Conforming :
      (paths : List (Text × Text)) (outcome : Outcome)
      → run_command load (evaluate_strictly paths) ≡ ok outcome
      → exit_status (evaluate_strictly paths) outcome ≡ 0
      → Conforming paths
  unfolding run_command run_policy_command run_with_policy evaluate_response evaluate_compiled
  zero-Conforming paths outcome h zero =
      let arguments = evaluate_strictly paths in
      let (u, hu, h1) =
        >>=-eq-ok (guard (not (ltb 1 (stdin_count arguments))) (invalid_command one_stdin)) _ h in
      let (document, hd, h2) = >>=-eq-ok (load (path_of arguments (txt "policy"))) _ h1 in
      let (p, hp, h3) = >>=-eq-ok (map_err invalid_policy (validate_policy (raw document))) _ h2 in
      let (response, hr, h4) = >>=-eq-ok (load (path_of arguments (txt "response"))) _ h3 in
      let (x, hx, h5) = >>=-eq-ok (evaluate_response (object p) response) _ h4 in
      let (q, hq, h6) = >>=-eq-ok (map_err invalid_policy (validate_policy (object p))) _ hx in
      let (w, hw, h7) = >>=-eq-ok (check_response response) _ h6 in
      let same_response = check_response-same response hw in
      let valid = map_err-eq-ok invalid_policy (validate_policy (raw document)) hp in
      let valid_again = map_err-eq-ok invalid_policy (validate_policy (object p)) hq in
      let same_policy = validate_policy-object (raw document) p valid valid_again in
      let passed : x.passed ≡ true =
        (evaluated_status paths x).0
          (subst (λ o. exit_status arguments o ≡ 0) (sym (ok-injective _ _ h5)) zero) in
      record {
        single = guard_passed (ltb 1 (stdin_count arguments)) (invalid_command one_stdin) hu;
        document = document;
        policy_read = hd;
        policy = p;
        valid = valid;
        response = response;
        response_read = hr;
        portable =
            (validate_policy-Portable (raw document) p valid).0
              (valid_again ∙ ap ok (sym same_policy));
        accepted = hw ∙ ap ok (sym same_response);
        satisfied =
            subst (λ (y : Policy). All (Satisfies response) y.rules) (sym same_policy)
              ((evaluate_checked-Satisfies q response).0 (
                subst (λ (y : EvaluationResult). y.passed ≡ true)
                  (sym (ok-injective _ _ h7)
                    ∙ ap (evaluate_checked q.policy_id (compile q)) (sym same_response))
                  passed));
      }

  Conforming-main :
      (paths : List (Text × Text)) → Conforming paths → main load (evaluate_strictly paths) ≡ 0
  unfolding main run_command run_policy_command run_with_policy evaluate_response evaluate_compiled
      finish
  Conforming-main paths c =
      let again = (validate_policy-Portable (raw c.document) c.policy c.valid).1 c.portable in
      let x = evaluate_checked c.policy.policy_id (compile c.policy) c.response in
      rw (c.single, c.policy_read, c.valid, c.response_read, again, c.accepted)
        ((evaluated_status paths x).1
          ((evaluate_checked-Satisfies c.policy c.response).1 c.satisfied))

  -- Once the arguments are parsed, and for a result that can be written, `evaluate --strict-exit`
  -- returns 0 exactly where at most one input is standard input, both inputs can be read, the policy is
  -- valid, the dict of the validated policy is strict JSON within the limits on nodes, nesting and
  -- canonical size, and the response is accepted and satisfies every rule of the validated policy.
  pub main-Conforming :
      (paths : List (Text × Text)) → (main load (evaluate_strictly paths) ≡ 0) ↔ Conforming paths
  main-Conforming paths = (
    (λ h.
        let (outcome, returned, other) = (main-ExitStatus (evaluate_strictly paths)).success.0 h in
        zero-Conforming paths outcome returned
          (elim (exit_status_cases (evaluate_strictly paths) outcome) [
            | inl z ↦ z
            | inr o ↦ absurd (other ((exit_status_one (evaluate_strictly paths) outcome).0 o))
          ])),
    Conforming-main paths,
  )
