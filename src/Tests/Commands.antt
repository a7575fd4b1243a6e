-- ===== src/Tests/Commands.antt =====
-- Examples of the command line.
use constitutional_agent_tes.Base.{
  ◌≡◌, ◌↔◌, true, false, ◌&&◌, none, List, [], ◌∷◌, leb, Text, txt, same, if◌then◌else◌, Result, ok,
  err,
}
use constitutional_agent_tes.Json.{Value, obj}
use constitutional_agent_tes.Errors.{TestbenchError, invalid_json, unreadable}
use constitutional_agent_tes.Cli.{Characters, Table, scan_unknown_option}
use constitutional_agent_tes.Cli.Scan.{Accepted, scan_unknown_option_iff}
use constitutional_agent_tes.Cli.Run.{run_command, main}
use constitutional_agent_tes.Cli.Status.{
  ExitStatus, Conforming, evaluate_strictly, main-ExitStatus, main-Conforming,
}
use constitutional_agent_tes.Tests.Data.{bit_patterns, whole_text, two_rules_json, good_fields}

instance abbrev ascii : Characters
ascii = record { lower = λ t. t; is_digit = λ c. leb b'0' c && leb c b'9' }

abbrev version_only : Table
version_only = (txt "--version", false) ∷ []

abbrev command_tables : List (Text × Table)
command_tables = (txt "evaluate", (txt "--strict-exit", false) ∷ (txt "--output", true) ∷ []) ∷ []

abbrev some_tokens : List Text
some_tokens = txt "evaluate" ∷ txt "--output" ∷ txt "out.json" ∷ txt "--strict-exit" ∷ txt "-5" ∷ []

scan_unknown_option_iff_example :
    (scan_unknown_option version_only command_tables none some_tokens ≡ false)
    ↔ Accepted version_only command_tables none some_tokens
scan_unknown_option_iff_example = scan_unknown_option_iff version_only command_tables some_tokens

-- Two files.
abbrev files : Text → Result TestbenchError Value
files path =
    if same path (txt "p.json")
    then ok two_rules_json
    else if same path (txt "r.json")
    then ok (obj good_fields)
    else err (invalid_json unreadable)

abbrev two_paths : List (Text × Text)
two_paths = (txt "policy", txt "p.json") ∷ (txt "response", txt "r.json") ∷ []

main-ExitStatus_example :
    ExitStatus
      (evaluate_strictly two_paths)
      (run_command files (evaluate_strictly two_paths))
      (main files (evaluate_strictly two_paths))
main-ExitStatus_example = main-ExitStatus files (evaluate_strictly two_paths)

main-Conforming_example :
    (main files (evaluate_strictly two_paths) ≡ 0) ↔ Conforming files two_paths
main-Conforming_example = main-Conforming files two_paths
