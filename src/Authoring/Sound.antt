-- ===== src/Authoring/Sound.antt =====
-- The conflicts of lint_policy are no false alarms.
use constitutional_agent_tes.Base.{
  ◌≡◌, refl, sym, ap, ◌∙◌, subst, Bool, true, false, ◌||◌, inl, inr, List, [], ◌∷◌, arith, Text,
  same, same→eq, text_le, any, All, All-append, ok, >>=-eq-ok, ok-injective, map_err, map_err-eq-ok,
  Bool-cases,
}
use constitutional_agent_tes.Json.{Value}
use constitutional_agent_tes.Json.Encode.{FloatText}
use constitutional_agent_tes.Policy.{Rule, Policy}
use constitutional_agent_tes.Policy.Validate.{PolicyInput, validate_policy}
use constitutional_agent_tes.Errors.{invalid_policy}
use constitutional_agent_tes.Synthetic.Generate.{Groups, add_rule, group_rules}
use constitutional_agent_tes.Authoring.{
  Finding, LintState, check_group, check_groups, insert_path, sort_paths, insert_finding,
  sort_findings, is_conflict, no_findings, Lint, lint_rules, lint_policy,
}
use constitutional_agent_tes.Authoring.Calm.{Calm}
use constitutional_agent_tes.Authoring.Group.{Agrees, Grouped, check_group-Calm}

module _ ⦃repr : FloatText⦄ where
  abbrev GroupsAgree : Value → Groups → Type 0
  GroupsAgree response = All (λ (g : Text × List Rule). All (Grouped response g.0) g.1)

  check_groups-Calm :
      (response : Value) (all_rules : List Rule) (groups : Groups) (s : LintState) {t : LintState}
      → GroupsAgree response groups
      → All (Agrees response) all_rules
      → check_groups all_rules groups s ≡ ok t
      → Calm s
      → Calm t
  unfolding check_groups
  check_groups-Calm response all_rules [] s grouped h e calm = subst Calm (ok-injective _ _ e) calm
  check_groups-Calm response all_rules ((path, rules) ∷ groups) s grouped h e calm =
      let (next, hn, rest) = >>=-eq-ok (check_group all_rules path rules s) _ e in
      check_groups-Calm response all_rules groups next grouped.1 h rest
        (check_group-Calm response all_rules path rules s grouped.0 h hn calm)

  add_rule-GroupsAgree :
      (response : Value) (r : Rule) (groups : Groups)
      → Agrees response r
      → GroupsAgree response groups
      → GroupsAgree response (add_rule r groups)
  unfolding add_rule
  add_rule-GroupsAgree response r [] h grouped = (((refl, h), tt), tt)
  add_rule-GroupsAgree response r ((path, rules) ∷ groups) h grouped =
      elim (Bool-cases (same path r.path)) [
        | inl e ↦
            rw (e, All)
              (
                All-append (Grouped response path) rules (r ∷ []) grouped.0
                    ((sym (same→eq path r.path e), h), tt),
                grouped.1,
              )
        | inr e ↦ rw (e, All) (grouped.0, add_rule-GroupsAgree response r groups h grouped.1)
      ]

  group_rules-GroupsAgree :
      (response : Value) (groups : Groups) (rules : List Rule)
      → All (Agrees response) rules
      → GroupsAgree response groups
      → GroupsAgree response (group_rules groups rules)
  unfolding group_rules
  group_rules-GroupsAgree response groups [] h grouped = grouped
  group_rules-GroupsAgree response groups (r ∷ rules) h grouped =
      group_rules-GroupsAgree response (add_rule r groups) rules h.1
        (add_rule-GroupsAgree response r groups h.0 grouped)

  insert_path-GroupsAgree :
      (response : Value) (path : Text) (rules : List Rule) (groups : Groups)
      → All (Grouped response path) rules
      → GroupsAgree response groups
      → GroupsAgree response (insert_path path rules groups)
  unfolding insert_path
  insert_path-GroupsAgree response path rules [] h grouped = (h, tt)
  insert_path-GroupsAgree response path rules ((q, others) ∷ groups) h grouped =
      elim (Bool-cases (text_le path q)) [
        | inl e ↦ rw (e, All) (h, grouped)
        | inr e ↦
            rw (e, All) (grouped.0, insert_path-GroupsAgree response path rules groups h grouped.1)
      ]

  sort_paths-GroupsAgree :
      (response : Value) (groups : Groups)
      → GroupsAgree response groups
      → GroupsAgree response (sort_paths groups)
  unfolding sort_paths
  sort_paths-GroupsAgree response [] h = tt
  sort_paths-GroupsAgree response ((path, rules) ∷ groups) h =
      insert_path-GroupsAgree response path rules (sort_paths groups) h.0
        (sort_paths-GroupsAgree response groups h.1)

any-insert_finding :
    (p : Finding → Bool) (f : Finding) (fs : List Finding)
    → any p (insert_finding f fs) ≡ (p f || any p fs)
unfolding insert_finding
any-insert_finding p f [] = refl
any-insert_finding p f (g ∷ fs) = ground (arith, any-insert_finding p f fs)

any-sort_findings : (p : Finding → Bool) (fs : List Finding) → any p (sort_findings fs) ≡ any p fs
unfolding sort_findings
any-sort_findings p [] = refl
any-sort_findings p (f ∷ fs) =
    any-insert_finding p f (sort_findings fs) ∙ ap (λ b. p f || b) (any-sort_findings p fs)

module _ ⦃repr : FloatText⦄ where
  lint_rules-Calm :
      (response : Value) (p : Policy) {report : Lint}
      → All (Agrees response) p.rules
      → lint_rules p ≡ ok report
      → report.has_conflicts ≡ false
  unfolding lint_rules
  lint_rules-Calm response p agrees h =
      let (s, hs, h1) =
        >>=-eq-ok (check_groups p.rules (sort_paths (group_rules [] p.rules)) no_findings) _ h in
      let calm =
        check_groups-Calm response p.rules (sort_paths (group_rules [] p.rules)) no_findings
          (sort_paths-GroupsAgree response (group_rules [] p.rules)
            (group_rules-GroupsAgree response [] p.rules agrees tt))
          agrees hs refl in
      subst (λ (x : Lint). x.has_conflicts ≡ false) (ok-injective _ _ h1)
        (any-sort_findings is_conflict s.findings ∙ calm)

  -- Where lint_policy reports a conflict, no response satisfies every rule of the validated policy with
  -- values that the rules list: each rule `equals`, `one_of`, `false` and `empty_list` holds its values
  -- as they are listed.
  pub lint_policy-Sound :
      (policy : PolicyInput) (p : Policy) (response : Value) {report : Lint}
      → validate_policy policy ≡ ok p
      → lint_policy policy ≡ ok report
      → report.has_conflicts ≡ true
      → ¬ All (Agrees response) p.rules
  unfolding lint_policy
  lint_policy-Sound policy p response {report} valid h found agrees =
      let (q, hq, h1) = >>=-eq-ok (map_err invalid_policy (validate_policy policy)) _ h in
      let same_policy : q ≡ p =
        ok-injective _ _ (sym (map_err-eq-ok invalid_policy (validate_policy policy) hq) ∙ valid) in
      let calm =
        lint_rules-Calm response p agrees (subst (λ x. lint_rules x ≡ ok report) same_policy h1) in
      cc (found, calm)
