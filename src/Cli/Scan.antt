-- ===== src/Cli/Scan.antt =====
-- The scan of the tokens, against the sequences that a parser with these tables knows.
use constitutional_agent_tes.Base.{
  ◌≡◌, refl, sym, ◌∙◌, ◌↔◌, Bool, true, false, ◌&&◌, not, inl, inr, Option, none, some, List, [],
  ◌∷◌, Text, txt, same, Bool-cases, if◌then◌else◌,
}
use constitutional_agent_tes.Cli.{
  Characters, Table, find_entry, before_equals, has_equals, is_option_token, options_of, Move,
  end_of_options, unknown_option, advance, consume_value, take_command, known_move, move_at,
  command_or, scan_unknown_option,
}

module _ ⦃characters : Characters⦄ (main_options : Table) (by_command : List (Text × Table)) where
  -- A token that is no option, and not the end of the options.
  abbrev pub IsPositional : Text → Type 0
  IsPositional token = (same token (txt "--") ≡ false) × (is_option_token token ≡ false)

  -- An option of the parser in use, which wants the next token as its value, or does not.
  abbrev pub IsOption : Option Text → Text → Bool → Type 0
  IsOption command token wants =
      (same token (txt "--") ≡ false)
      × (is_option_token token ≡ true)
      × ((takes_value : Bool) × (find_entry (options_of main_options by_command command)
              (before_equals token)
            ≡ some takes_value)
          × ((takes_value && not (has_equals token)) ≡ wants))

  -- No token follows that could be a value.
  abbrev pub no_value : List Text → Bool
  no_value [] = true
  no_value (token ∷ tokens) = is_option_token token

  -- The sequences of tokens in which every option before `--` is known to the parser that reads it.
  pub data Accepted : Option Text → List Text → Type 0 where
    finished : {command : Option Text} → Accepted command []
    ended :
        {command : Option Text} {token : Text} {tokens : List Text}
        → same token (txt "--") ≡ true
        → Accepted command (token ∷ tokens)
    positional :
        {command : Option Text} {token : Text} {tokens : List Text}
        → IsPositional token
        → Accepted (command_or command token) tokens
        → Accepted command (token ∷ tokens)
    flag :
        {command : Option Text} {token : Text} {tokens : List Text}
        → IsOption command token false
        → Accepted command tokens
        → Accepted command (token ∷ tokens)
    valued :
        {command : Option Text} {token value : Text} {tokens : List Text}
        → IsOption command token true
        → is_option_token value ≡ false
        → Accepted command tokens
        → Accepted command (token ∷ value ∷ tokens)
    without_value :
        {command : Option Text} {token : Text} {tokens : List Text}
        → IsOption command token true
        → no_value tokens ≡ true
        → Accepted command tokens
        → Accepted command (token ∷ tokens)

  abbrev scan : Option Text → List Text → Bool
  scan = scan_unknown_option main_options by_command

  abbrev move : Option Text → Text → Move
  move = move_at main_options by_command

  -- What the token is, for each move.
  abbrev Moved : Option Text → Text → Move → Type 0
  Moved command token end_of_options = same token (txt "--") ≡ true
  Moved command token unknown_option = Unit
  Moved command token advance = IsOption command token false
  Moved command token consume_value = IsOption command token true
  Moved command token take_command = IsPositional token

  known_token :
      (command : Option Text) (token : Text) (o : Option Bool)
      → same token (txt "--") ≡ false
      → is_option_token token ≡ true
      → find_entry (options_of main_options by_command command) (before_equals token) ≡ o
      → Moved command token (known_move (has_equals token) o)
  known_token command token none e i f = tt
  known_token command token (some takes) e i f =
      elim (Bool-cases (takes && not (has_equals token))) [
        | inl wants ↦ rw wants (e, i, (takes, f, wants))
        | inr wants ↦ rw wants (e, i, (takes, f, wants))
      ]

  moved : (command : Option Text) (token : Text) → Moved command token (move command token)
  unfolding move_at
  moved command token = elim (Bool-cases (same token (txt "--"))) [
    | inl e ↦ rw e e
    | inr e ↦ rw e (elim (Bool-cases (is_option_token token)) [
      | inl i ↦ rw i (known_token command token _ e i refl)
      | inr i ↦ rw i (e, i)
    ])
  ]

  positional_move :
      (command : Option Text) (token : Text)
      → IsPositional token
      → move command token ≡ take_command
  unfolding move_at
  positional_move command token p = rw (p.0, p.1) refl

  option_move :
      (command : Option Text) (token : Text) (wants : Bool)
      → IsOption command token wants
      → move command token ≡ (if wants then consume_value else advance)
  unfolding move_at
  option_move command token wants (e, i, (takes, f, w)) = rw (e, i, f, w) refl

  scan_positional :
      (command : Option Text) (token : Text) (tokens : List Text)
      → move command token ≡ take_command
      → scan command (token ∷ tokens) ≡ scan (command_or command token) tokens
  unfolding scan_unknown_option
  scan_positional command token [] m = rw (m, scan_unknown_option) refl
  scan_positional command token (t ∷ tokens) m = rw (m, scan_unknown_option) refl

  scan_flag :
      (command : Option Text) (token : Text) (tokens : List Text)
      → move command token ≡ advance
      → scan command (token ∷ tokens) ≡ scan command tokens
  unfolding scan_unknown_option
  scan_flag command token [] m = rw (m, scan_unknown_option) refl
  scan_flag command token (t ∷ tokens) m = rw (m, scan_unknown_option) refl

  scan_without_value :
      (command : Option Text) (token : Text) (tokens : List Text)
      → move command token ≡ consume_value
      → no_value tokens ≡ true
      → scan command (token ∷ tokens) ≡ scan command tokens
  unfolding scan_unknown_option
  scan_without_value command token [] m h = rw (m, scan_unknown_option) refl
  scan_without_value command token (t ∷ tokens) m h = rw (m, h, scan_unknown_option) refl

  scan_valued :
      (command : Option Text) (token value : Text) (tokens : List Text)
      → move command token ≡ consume_value
      → is_option_token value ≡ false
      → scan command (token ∷ value ∷ tokens) ≡ scan command tokens
  unfolding scan_unknown_option
  scan_valued command token value tokens m h = rw (m, h, scan_unknown_option) refl

  scan_ended :
      (command : Option Text) (token : Text) (tokens : List Text)
      → same token (txt "--") ≡ true
      → scan command (token ∷ tokens) ≡ false
  unfolding scan_unknown_option move_at
  scan_ended command token [] h = rw (h, scan_unknown_option, move_at) refl
  scan_ended command token (t ∷ tokens) h = rw (h, scan_unknown_option, move_at) refl

  Accepted-scan :
      {command : Option Text} {tokens : List Text}
      → Accepted command tokens
      → scan command tokens ≡ false
  Accepted-scan finished = unfold scan_unknown_option in refl
  Accepted-scan (ended h) = scan_ended _ _ _ h
  Accepted-scan (positional p rest) =
      scan_positional _ _ _ (positional_move _ _ p) ∙ Accepted-scan rest
  Accepted-scan (flag o rest) = scan_flag _ _ _ (option_move _ _ false o) ∙ Accepted-scan rest
  Accepted-scan (valued o v rest) =
      scan_valued _ _ _ _ (option_move _ _ true o) v ∙ Accepted-scan rest
  Accepted-scan (without_value o h rest) =
      scan_without_value _ _ _ (option_move _ _ true o) h ∙ Accepted-scan rest

  scan_unknown :
      (command : Option Text) (token : Text) (tokens : List Text)
      → move command token ≡ unknown_option
      → scan command (token ∷ tokens) ≡ true
  unfolding scan_unknown_option
  scan_unknown command token [] m = rw (m, scan_unknown_option) refl
  scan_unknown command token (t ∷ tokens) m = rw (m, scan_unknown_option) refl

  abbrev behind_first : List Text → List Text
  behind_first [] = []
  behind_first (token ∷ tokens) = tokens

  -- The tokens behind a move, and what is known of them.
  tokens_behind :
      (command : Option Text) (token : Text) (tokens : List Text) (m : Move)
      → move command token ≡ m
      → Moved command token m
      → scan command (token ∷ tokens) ≡ false
      → ((c : Option Text) → scan c tokens ≡ false → Accepted c tokens)
      → (scan command (behind_first tokens) ≡ false → Accepted command (behind_first tokens))
      → Accepted command (token ∷ tokens)
  tokens_behind command token tokens end_of_options e known h rest later = ended known
  tokens_behind command token tokens unknown_option e known h rest later =
      cc (h, scan_unknown command token tokens e)
  tokens_behind command token tokens take_command e known h rest later =
      positional known
        (rest (command_or command token) (sym (scan_positional command token tokens e) ∙ h))
  tokens_behind command token tokens advance e known h rest later =
      flag known (rest command (sym (scan_flag command token tokens e) ∙ h))
  tokens_behind command token [] consume_value e known h rest later =
      without_value known refl finished
  tokens_behind command token (value ∷ tokens) consume_value e known h rest later =
      elim (Bool-cases (is_option_token value)) [
        | inl o ↦
            without_value known o
              (rest command (sym (scan_without_value command token (value ∷ tokens) e o) ∙ h))
        | inr o ↦ valued known o (later (sym (scan_valued command token value tokens e o) ∙ h))
      ]

  scan-Accepted :
      (command : Option Text) (tokens : List Text)
      → scan command tokens ≡ false
      → Accepted command tokens
  scan-Accepted command [] h = finished
  scan-Accepted command (token ∷ []) h =
      tokens_behind command token [] (move command token) refl (moved command token) h
        (λ c e. finished) (λ e. finished)
  scan-Accepted command (token ∷ following ∷ tokens) h =
      tokens_behind command token (following ∷ tokens) (move command token) refl
        (moved command token) h (λ c. scan-Accepted c (following ∷ tokens))
        (scan-Accepted command tokens)

  -- The scan finds no unknown option exactly where every option before `--` is known to the parser that
  -- reads it, the main one or that of the first token that is no option, values being skipped.
  pub scan_unknown_option_iff :
      (tokens : List Text)
      → (scan_unknown_option main_options by_command none tokens ≡ false) ↔ Accepted none tokens
  scan_unknown_option_iff tokens = (scan-Accepted none tokens, Accepted-scan)
