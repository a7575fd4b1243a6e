-- ===== src/Cli/Run.antt =====
-- cli.py: _run_command, without playground, and the exit status of main. The
-- reading of an argument's file or of standard input is a parameter.
use constitutional_agent_tes.Base.{
  ℕ, Bool, true, false, ◌&&◌, ◌||◌, not, Option, none, some, List, [], keep, length, ltb, Text, txt,
  any, same, Result, ok, err, ◌>>=◌, ◌>>◌, guard, map_err,
}
use constitutional_agent_tes.Json.{Value, Fields}
use constitutional_agent_tes.Json.Encode.{FloatText}
use constitutional_agent_tes.Policy.{Policy}
use constitutional_agent_tes.Policy.Validate.{object, raw, validate_policy}
use constitutional_agent_tes.Errors.{TestbenchError, invalid_policy, invalid_command, one_stdin}
use constitutional_agent_tes.Evaluator.{EvaluationResult, evaluate_response}
use constitutional_agent_tes.Precedence.Report.{Report, Digest}
use constitutional_agent_tes.Precedence.Result.{builtin}
use constitutional_agent_tes.Precedence.Check.{check_order_conformance}
use constitutional_agent_tes.Suite.Evaluate.{SuiteReport, evaluate_suite}
use constitutional_agent_tes.Coverage.{Coverage, suite_coverage, is_empty}
use constitutional_agent_tes.Receipt.{Verification, create_receipt, verify_receipt}
use constitutional_agent_tes.Authoring.{Lint, lint_policy}
use constitutional_agent_tes.Explain.{Explanation, explain_response}
use constitutional_agent_tes.Synthetic.Generate.{Bundle, generate_synthetic_cases}
use constitutional_agent_tes.Probes.{ProbeReport, generate_rule_probes}
use constitutional_agent_tes.Compare.{CaseChange, Comparison, compare_policies}
use constitutional_agent_tes.Cli.{find_entry}
use constitutional_agent_tes.Cli.Operations.{
  Operation, OperationResult, input_fields, strict_field, run_operation,
}

pub data Command : Type 0 where
  run_suite cover_suite make_receipt check_receipt lint explain generate_synthetic generate_probes :
      Command
  show_policy evaluate check_order compare : Command
  operation : Operation → Command

-- The namespace of argparse; `paths` has the attributes that are paths of JSON inputs.
pub record Arguments : Type 0 where
  pub command : Command
  pub paths : List (Text × Text)
  pub strict_exit : Bool
  pub strict_reasons : Bool

-- What a command returns.
pub data Outcome : Type 0 where
  suite_run : SuiteReport → Outcome
  covered : Coverage → Outcome
  receipt_made : Fields → Outcome
  receipt_checked : Verification → Outcome
  linted : Lint → Outcome
  explained : EvaluationResult → List Explanation → Outcome
  generated : Bundle → Outcome
  probed : ProbeReport → Outcome
  policy_shown : Policy → Outcome
  evaluated : EvaluationResult → Outcome
  order_checked : Report → Outcome
  compared : Comparison → Outcome
  operated : OperationResult → Outcome

-- `getattr(arguments, field)`, of a field that the command's parser has
abbrev pub path_of : Arguments → Text → Text
path_of arguments name = elim (find_entry arguments.paths name) [ none ↦ [] | some path ↦ path ]

-- `input_paths.count("-")`
abbrev pub stdin_count : Arguments → ℕ
stdin_count arguments = length (keep (λ (p : Text × Text). same p.1 (txt "-")) arguments.paths)

-- `... is True`
abbrev pub is_yes : Option Bool → Bool
is_yes (some true) = true
is_yes _ = false

abbrev pub status_if : Bool → ℕ
status_if true = 1
status_if false = 0

-- `not result[field]`, of a field that the command has
abbrev pub fails_field : Option Bool → Bool
fails_field none = false
fails_field (some b) = not b

-- Whether the outcome is negative under --strict-exit.
unfoldable pub is_negative_outcome : Outcome → Bool
unfolding strict_field
is_negative_outcome (suite_run r) = not r.matches_expectations
is_negative_outcome (covered c) =
    not (is_empty c.unexercised_passes) || not (is_empty c.unexercised_failures)
is_negative_outcome (receipt_checked v) = not v.verified
is_negative_outcome (linted l) = l.has_conflicts
is_negative_outcome (explained x explanations) = not x.passed
is_negative_outcome (evaluated x) = not x.passed
is_negative_outcome (order_checked r) = not (is_yes r.conforms)
is_negative_outcome (compared c) =
    any (λ (x : CaseChange). not (is_empty x.changed_rule_results) || x.verdict_changed) c.cases
is_negative_outcome (operated r) = fails_field (strict_field r)
is_negative_outcome _ = false

-- Whether it is negative under --strict-reasons.
unfoldable pub has_reason_gap : Outcome → Bool
has_reason_gap (covered c) = not (is_empty c.rules_missing_reason_codes)
has_reason_gap _ = false

-- The end of main, behind the output of the result.
unfoldable pub exit_status : Arguments → Outcome → ℕ
unfolding is_negative_outcome has_reason_gap
exit_status arguments outcome = status_if (
    (arguments.strict_exit && is_negative_outcome outcome)
    || (arguments.strict_reasons && has_reason_gap outcome))

-- The status that main returns: 2 for an error of the library.
unfoldable pub finish : Arguments → Result TestbenchError Outcome → ℕ
unfolding exit_status
finish arguments (ok outcome) = exit_status arguments outcome
finish arguments (err e) = 2

module _ ⦃repr : FloatText⦄ ⦃digest : Digest⦄ (load : Text → Result TestbenchError Value) where
  -- The stdin check of the commands of operations.py, and run_operation.
  unfoldable pub run_table_command : Arguments → Operation → Result TestbenchError Outcome
  unfolding run_operation find_entry
  run_table_command arguments op = do
    guard
        (not (
          ltb 1
            (length (keep (λ name. same (path_of arguments name) (txt "-")) (input_fields op)))))
        (invalid_command one_stdin)
    r ← run_operation (λ name. load (path_of arguments name)) op
    ok (operated r)

  -- The dispatch of _run_command, behind the validation of the policy.
  unfoldable pub run_with_policy : Policy → Arguments → Command → Result TestbenchError Outcome
  unfolding find_entry evaluate_response evaluate_suite suite_coverage create_receipt verify_receipt
      run_table_command lint_policy compare_policies explain_response check_order_conformance
      generate_synthetic_cases
  run_with_policy p arguments run_suite = do
    suite ← load (path_of arguments (txt "suite"))
    r ← evaluate_suite (object p) suite
    ok (suite_run r)
  run_with_policy p arguments cover_suite = do
    suite ← load (path_of arguments (txt "suite"))
    c ← suite_coverage (object p) suite
    ok (covered c)
  run_with_policy p arguments make_receipt = do
    response ← load (path_of arguments (txt "response"))
    fs ← create_receipt (object p) response
    ok (receipt_made fs)
  run_with_policy p arguments check_receipt = do
    response ← load (path_of arguments (txt "response"))
    receipt ← load (path_of arguments (txt "receipt"))
    v ← verify_receipt (object p) response receipt
    ok (receipt_checked v)
  run_with_policy p arguments lint = do l ← lint_policy (object p); ok (linted l)
  run_with_policy p arguments explain = do
    response ← load (path_of arguments (txt "response"))
    x ← explain_response (object p) response
    ok (explained x.0 x.1)
  run_with_policy p arguments generate_probes = do
    r ← generate_rule_probes (object p)
    ok (probed r)
  run_with_policy p arguments generate_synthetic = do
    b ← generate_synthetic_cases (object p)
    ok (generated b)
  run_with_policy p arguments show_policy = ok (policy_shown p)
  run_with_policy p arguments evaluate = do
    response ← load (path_of arguments (txt "response"))
    x ← evaluate_response (object p) response
    ok (evaluated x)
  run_with_policy p arguments check_order = do
    response ← load (path_of arguments (txt "response"))
    r ← check_order_conformance (object p) response builtin
    ok (order_checked r)
  run_with_policy p arguments compare = do
    candidate ← load (path_of arguments (txt "candidate"))
    suite ← load (path_of arguments (txt "suite"))
    c ← compare_policies (object p) (raw candidate) suite
    ok (compared c)
  -- A command of operations.py does not come here.
  run_with_policy p arguments (operation op) = run_table_command arguments op

  -- The rest of _run_command.
  unfoldable pub run_policy_command : Arguments → Result TestbenchError Outcome
  unfolding run_with_policy
  run_policy_command arguments = do
    guard (not (ltb 1 (stdin_count arguments))) (invalid_command one_stdin)
    raw_policy ← load (path_of arguments (txt "policy"))
    p ← map_err invalid_policy (validate_policy (raw raw_policy))
    run_with_policy p arguments arguments.command

  abbrev pub operation_of : Command → Option Operation
  operation_of (operation op) = some op
  operation_of _ = none

  -- cli.py: _run_command
  unfoldable pub run_command : Arguments → Result TestbenchError Outcome
  unfolding run_policy_command run_table_command
  run_command arguments = elim (operation_of arguments.command) [
    | some op ↦ run_table_command arguments op
    | none ↦ run_policy_command arguments
  ]

  -- cli.py: main, for a result that could be written
  unfoldable pub main : Arguments → ℕ
  unfolding run_command finish
  main arguments = finish arguments (run_command arguments)
