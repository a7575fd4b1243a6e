-- ===== src/Lib.antt =====
-- Verification of the core of constitutional-agent-testbench: the Python package
-- src/constitutional_agent_testbench, which checks JSON responses of agents against declarative
-- policies, generates test cases for a policy, and checks that an evaluator does not depend on the
-- order of a policy's rules.
--
-- The parts and the files that model them (sources are in src/constitutional_agent_testbench):
--   Base       what the files share: Boolean tests, results, lists, texts as lists of code points with
--              their UTF-8 sizes, integers with decimal text.
--   Json       common.py. The Python values (Value), dicts as member lists in insertion order
--              (member, set_member, del_member), json_type_name, copy_json_tree. Json.Float: floats as
--              binary64 bit patterns, and the exact order of int and float. Json.Path: get_field.
--              Json.Ensure: ensure_json_value as the loop over its stack. Json.Encode: the encoder of
--              the json package with the options of canonical_json, as the chunks of iterencode;
--              Json.Encode.Size: bounded_canonical_json_size.
--   Policy     policy.py. Rule, Policy, policy_to_dict; Policy.Checks: the checks of single fields and
--              the errors with their locations; Policy.Validate: validate_policy on raw values and on
--              Policy objects. Proofs: Policy.Constraints, WellFormed and Guarantees for what is
--              accepted, Policy.RoundTrip and Accepted for a policy that is read again.
--   Errors     TestbenchError and its subclasses as one sum type.
--   Evaluator  evaluator.py: _compile_rule, _evaluate_compiled_rule, _evaluate_rule, _check_response,
--              evaluate_response.
--   Precedence precedence.py. Precedence.Result: _validate_evaluation, _run_evaluator, _run_builtin;
--              Precedence.Orders: permutations, _adjacent_swap_path; Precedence.Projections:
--              _projections, _dimension_projection_pair; Precedence.Witness: _adjacent_witness,
--              _global_identity_witness; Precedence.Report: the data of a report, the
--              status ladder, the two reports;
--              Precedence.Check: check_order_conformance.
--   Suite      suite.py and curation.py. Suite.Validate: validate_suite; Suite.Evaluate:
--              evaluate_suite; Suite.Curation: the edits of a corpus;
--              Suite.Curation.Reduce: reduce_suite.
--   Artifact   workflow.py and stable_json: the size bound of what is written.
--   Explain    explain.py: path, type and bound diagnostics.
--   Synthetic  synthetic.py. Synthetic.Paths: _candidate_view, _assign_path, _delete_path;
--              Synthetic.Candidates: _candidate_values; Synthetic.Generate: generate_synthetic_cases.
--   Probes     probes.py: generate_rule_probes; Probes.Wrong: the wrong value of a rule.
--              Json.Arithmetic: the sums of its boundaries, `n + 1` and `n - 1`.
--   Coverage   coverage.py: suite_coverage.
--   Receipt    receipt.py; Receipt.Suites: corpus_receipt.py and replay.py.
--   Authoring  authoring.py: lint_policy; Authoring.Findings: its findings and their order.
--   Inspection inspection.py: inspect_policy, inspect_suite, audit_assertions; Inspection.Difference:
--              diff_suites.
--   Triage     triage.py: triage_suite, check_suite.
--   Compare    compare.py: compare_policies, migration_expectations.
--   Stream     common.py: load_json_stream, parse_json_text, _reject_duplicate_members.
--   Cli        cli.py: usage errors and the scan of the tokens; Cli.Run: _run_command and the exit
--              status of main; Cli.Operations: the table of operations.py;
--              Cli.Negative: which outcomes are negative, without the code of main.
--   Tests      concrete policies, responses and suites.
--
-- How they interact: validate_policy yields the Policy that every other part takes; the evaluator
-- judges responses by it; the order check, the suites, the explanations and the generator call the
-- evaluator; every input goes through ensure_json_value and bounded_canonical_json_size.
--
-- Parameters: float.__repr__ (FloatText), the hexadecimal SHA-256 digest of a text (Digest), the
-- stream (a type of states with a function for read(size)), decoder and json.loads of load_json_stream, str.lower, str.isdigit and the tables of
-- argparse in cli.py, the reading of an argument's JSON, and the custom evaluator of
-- check_order_conformance, a function of the run's number, the policy and the
-- response, so that it may answer differently each time.
--
-- Bounds: ensure_json_value recurs on the nodes that MAX_JSON_NODES leaves, which is the source's own
-- counter. The greedy loop of reduce_suite recurs on fuel, one step for each uncovered mark.
-- The loop of load_json_stream recurs on 1,000,002 steps: each call that does not end it reads a byte
-- at least, and more than 1,000,000 bytes end it. The rounding of a float sum halves at most 2,047
-- times: finite floats are below 2 ^ 2098 units of 2 ^ -1074. No other function takes fuel: the loops
-- are over lists, and the permutations recur on the number of rules.
--
-- Not modelled: keys of a dict that are no strings, tuples, subclasses of the JSON types and the
-- recursion limit of the interpreter; the opening and writing of files and the output streams; the
-- construction of the parser, --output, the playground and the status 2 of main for errors of the
-- parser, of the output and of the interpreter; the scripts; the constant scope
-- texts in the results of coverage.py, receipt.py, corpus_receipt.py, compare.py and authoring.py.
pub mod Base
pub mod Json
pub mod Policy
pub mod Errors
pub mod Evaluator
pub mod Precedence
pub mod Suite
pub mod Artifact
pub mod Explain
pub mod Synthetic
pub mod Tests
pub mod Coverage
pub mod Receipt
pub mod Authoring
pub mod Stream
pub mod Cli
pub mod Inspection
pub mod Triage
pub mod Compare
pub mod Probes
