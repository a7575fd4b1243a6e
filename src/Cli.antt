-- ===== src/Cli.antt =====
-- cli.py: the classification of usage errors, and the scan of the tokens for unknown options.
-- `str.lower` and `str.isdigit` are parameters, and so are the tables that argparse holds.
pub mod Scan
pub mod Operations
pub mod Run
pub mod Negative
pub mod Status
use constitutional_agent_tes.Base.{
  ℕ, Bool, true, false, ◌&&◌, ◌||◌, not, Option, none, some, List, [], ◌∷◌, ◌==◌, if◌then◌else◌,
  Text, txt, same,
}
use constitutional_agent_tes.Errors.{
  UsageReason, unknown_command, extra_argument, command_required, missing_argument, bad_arguments,
}
use constitutional_agent_tes.Synthetic.Generate.{starts_with}

-- `str.lower`, and `str.isdigit` of one character
pub record Characters : Type 0 where
  pub lower : Text → Text
  pub is_digit : ℕ → Bool

-- `part in text`
unfoldable pub has_part : Text → Text → Bool
unfolding starts_with
has_part [] part = starts_with [] part
has_part (c ∷ text) part = starts_with (c ∷ text) part || has_part text part

-- The options of a parser, each with whether it takes a value.
abbrev pub Table : Type 0
Table = List (Text × Bool)

-- `table.get(name)`
unfoldable pub find_entry {ℓ} : {A : Type ℓ} → List (Text × A) → Text → Option A
unfolding same
find_entry [] name = none
find_entry ((n, a) ∷ entries) name = if same n name then some a else find_entry entries name

-- `token.partition("=")`: the name, and whether there is a separator.
unfoldable pub before_equals : Text → Text
before_equals [] = []
before_equals (c ∷ token) = let rest = before_equals token in if c == b'=' then [] else c ∷ rest

unfoldable pub has_equals : Text → Bool
has_equals [] = false
has_equals (c ∷ token) = c == b'=' || has_equals token

module _ ⦃characters : Characters⦄ where
  -- cli.py: _usage_error_message
  unfoldable pub usage_error_message : Text → UsageReason
  unfolding has_part
  usage_error_message message =
      let lowered = characters.lower message in
      if has_part lowered (txt "invalid choice")
      then unknown_command
      else if has_part lowered (txt "unrecognized arguments")
      then extra_argument
      else if has_part lowered (txt "required: command")
      then command_required
      else if has_part lowered (txt "required")
          || has_part lowered (txt "expected")
          || has_part lowered (txt "too few")
      then missing_argument
      else bad_arguments

  abbrev pub digit_first : Text → Bool
  digit_first [] = false
  digit_first (c ∷ body) = characters.is_digit c

  -- The body of a token that is a number.
  abbrev pub is_numeric : Text → Bool
  is_numeric [] = false
  is_numeric (c ∷ body) = characters.is_digit c || (c == b'.' && digit_first body)

  -- cli.py: _is_option_token
  unfoldable pub is_option_token : Text → Bool
  is_option_token (c ∷ d ∷ body) = c == b'-' && not (is_numeric (d ∷ body))
  is_option_token _ = false

  -- The options that apply behind a command.
  abbrev pub options_of : Table → List (Text × Table) → Option Text → Table
  options_of main_options by_command none = main_options
  options_of main_options by_command (some command) = elim (find_entry by_command command) [
    | none ↦ main_options
    | some options ↦ options
  ]

  -- What the loop does at a token.
  pub data Move : Type 0 where
    end_of_options unknown_option advance consume_value : Move
    take_command : Move

  abbrev pub known_move : Bool → Option Bool → Move
  known_move separator none = unknown_option
  known_move separator (some takes_value) =
      if takes_value && not separator then consume_value else advance

  unfoldable pub move_at : Table → List (Text × Table) → Option Text → Text → Move
  unfolding is_option_token find_entry before_equals has_equals
  move_at main_options by_command command token =
      if same token (txt "--")
      then end_of_options
      else if not (is_option_token token)
      then take_command
      else known_move (has_equals token)
          (find_entry (options_of main_options by_command command) (before_equals token))

  abbrev pub command_or : Option Text → Text → Option Text
  command_or none token = some token
  command_or (some command) token = some command

  -- The loop of _scan_unknown_option, on the tokens from `index` on.
  unfoldable pub scan_unknown_option : Table → List (Text × Table) → Option Text → List Text → Bool
  unfolding move_at
  scan_unknown_option main_options by_command command [] = false
  scan_unknown_option main_options by_command command (token ∷ []) =
      elim (move_at main_options by_command command token) [ unknown_option ↦ true | _ ↦ false ]
  scan_unknown_option main_options by_command command (token ∷ following ∷ tokens) =
      elim (move_at main_options by_command command token) [
        | end_of_options ↦ false
        | unknown_option ↦ true
        | advance ↦ scan_unknown_option main_options by_command command (following ∷ tokens)
        | take_command ↦
            scan_unknown_option main_options by_command (command_or command token)
              (following ∷ tokens)
        | consume_value ↦ elim (is_option_token following) [
          | true ↦ scan_unknown_option main_options by_command command (following ∷ tokens)
          | false ↦ scan_unknown_option main_options by_command command tokens
        ]
      ]

  -- cli.py: _requests_version
  unfoldable pub requests_version : List Text → Bool
  unfolding is_option_token same
  requests_version [] = false
  requests_version (token ∷ tokens) =
      let rest = requests_version tokens in
      if same token (txt "--version")
      then true
      else if same token (txt "--") || not (is_option_token token)
      then false
      else rest
