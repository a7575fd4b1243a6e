-- ===== src/Authoring/Group.antt =====
-- The rules of one path: where a response satisfies them, their lint finds no conflict.
use constitutional_agent_tes.Base.{
  ◌+◌, ◌*◌, ◌≡◌, refl, sym, ◌∙◌, subst, true, ◌||◌, inl, inr, Option, none, some, List, [], ◌∷◌,
  ◌++◌, Text, txt, all, any, keep, length, All, All-keep, ok, >>=-eq-ok, ok-injective, Bool-cases,
}
use mathlib.Core.Option.{some-injective}
use constitutional_agent_tes.Json.{Value}
use constitutional_agent_tes.Json.Path.{get_field}
use constitutional_agent_tes.Json.Encode.{FloatText}
use constitutional_agent_tes.Policy.{Rule}
use constitutional_agent_tes.Evaluator.{evaluate_rule}
use constitutional_agent_tes.Evaluator.Satisfies.{Meets, Satisfies, evaluate_rule-Satisfies}
use constitutional_agent_tes.Synthetic.Candidates.{is_filter}
use constitutional_agent_tes.Synthetic.Generate.{starts_with, descendants_of}
use constitutional_agent_tes.Authoring.{
  domain, LintState, finding, finite_of, charge, below, is_object, fits, no_rules, check_domains,
  check_duplicates, check_descendants, check_ancestor, check_ancestors, check_group, value_bytes,
  incompatible_descendants, child_comparisons, child_bytes,
}
use constitutional_agent_tes.Authoring.Below.{get_field-below}
use constitutional_agent_tes.Authoring.Domains.{Listed, any-Listed, Meets-path}
use constitutional_agent_tes.Authoring.Calm.{
  Calm, Held, finite_of-Held, add_unless-Calm, charge-Calm, check_domains-Calm,
  check_duplicates-Calm,
}

module _ ⦃repr : FloatText⦄ where
  -- The response satisfies the rule, with a value that the rule lists where it lists values.
  abbrev pub Agrees : Value → Rule → Type 0
  Agrees response r =
      Satisfies response r
      × ((d : List Value) (v : Value)
          → domain r ≡ some d
          → get_field response r.path ≡ some v
          → Listed v d)

  -- A rule of a group, which has the path of the group.
  abbrev pub Grouped : Value → Text → Rule → Type 0
  Grouped response path r = (r.path ≡ path) × Agrees response r

  Grouped-Held :
      (response : Value) (path : Text) (v : Value) (rules : List Rule)
      → get_field response path ≡ some v
      → All (Grouped response path) rules
      → All (Held v) rules
  Grouped-Held response path v [] here h = tt
  Grouped-Held response path v (r ∷ rules) here h =
      let found : get_field response r.path ≡ some v = rw h.0.0 here in
      let (w, e, m) = h.0.1.0 in
      (
        (
          subst (Meets r.kind r) (some-injective w v (sym e ∙ found)) m,
          λ d finite. h.0.1.1 d v finite found,
        ),
        Grouped-Held response path v rules here h.1,
      )

  below_passes :
      (response : Value) (path : Text) (v : Value) (child : Rule)
      → get_field response path ≡ some v
      → starts_with child.path (path ++ txt ".") ≡ true
      → Agrees response child
      → (is_object v ≡ true) × ((evaluate_rule (below path child) v).passed ≡ true)
  below_passes response path v child here starts h =
      let (w, e, m) = h.0 in
      let (dict, found) = get_field-below response path child.path starts here e in
      (
        dict,
        (evaluate_rule-Satisfies (below path child) v).1
            (w, found, Meets-path child.kind child w _ m),
      )

  -- A rule below the path that the response agrees with.
  abbrev Child : Value → Text → Rule → Type 0
  Child response path child =
      Agrees response child × (starts_with child.path (path ++ txt ".") ≡ true)

  children_pass :
      (response : Value) (path : Text) (v : Value) (children : List Rule)
      → get_field response path ≡ some v
      → All (Child response path) children
      → all (λ child. (evaluate_rule (below path child) v).passed) children ≡ true
  children_pass response path v [] here h = refl
  children_pass response path v (child ∷ children) here h =
      rw (below_passes response path v child here h.0.1 h.0.0).1
        (children_pass response path v children here h.1)

  some_fits :
      (response : Value) (path : Text) (v : Value) (d : List Value) (children : List Rule)
      → get_field response path ≡ some v
      → Listed v d
      → All (Child response path) children
      → (no_rules children || any (fits path children) d) ≡ true
  some_fits response path v d [] here listed h = refl
  some_fits response path v d (child ∷ children) here listed h =
      any-Listed (fits path (child ∷ children)) v d listed (
        unfold fits in
        rw (below_passes response path v child here h.0.1 h.0.0).0
          (children_pass response path v (child ∷ children) here h))

  check_descendants-Calm :
      (response : Value) (path : Text) (r : Rule) (v : Value) (d : List Value)
      (children : List Rule) (s : LintState) {t : LintState}
      → get_field response path ≡ some v
      → Listed v d
      → All (Child response path) children
      → check_descendants path r d children s ≡ ok t
      → Calm s
      → Calm t
  check_descendants-Calm response path r v d children s here listed h e calm =
      let (charged, hc, rest) =
        >>=-eq-ok
          (charge (value_bytes d * child_comparisons children + child_bytes children * length d) s)
          _ e in
      subst Calm (ok-injective _ _ rest) (
        add_unless-Calm (no_rules children || any (fits path children) d)
          (finding incompatible_descendants path (r ∷ children)) charged
          (some_fits response path v d children here listed h) (charge-Calm _ s hc calm))

  check_ancestor-Calm :
      (response : Value) (all_rules : List Rule) (path : Text) (r : Rule) (v : Value)
      (o : Option (List Value)) (s : LintState) {t : LintState}
      → get_field response path ≡ some v
      → ((d : List Value) → o ≡ some d → Listed v d)
      → All (Agrees response) all_rules
      → check_ancestor all_rules path r o s ≡ ok t
      → Calm s
      → Calm t
  check_ancestor-Calm response all_rules path r v none s here listed h e calm =
      subst Calm (ok-injective _ _ e) calm
  check_ancestor-Calm response all_rules path r v (some d) s here listed h e calm =
      check_descendants-Calm response path r v d (descendants_of path all_rules) s here
        (listed d refl)
        (All-keep (Agrees response) (λ (c : Rule). starts_with c.path (path ++ txt ".")) all_rules
          h)
        e calm

  check_ancestors-Calm :
      (response : Value) (all_rules : List Rule) (path : Text) (v : Value) (rules : List Rule)
      (s : LintState) {t : LintState}
      → get_field response path ≡ some v
      → All (Held v) rules
      → All (Agrees response) all_rules
      → check_ancestors all_rules path rules s ≡ ok t
      → Calm s
      → Calm t
  unfolding check_ancestors
  check_ancestors-Calm response all_rules path v [] s here held h e calm =
      subst Calm (ok-injective _ _ e) calm
  check_ancestors-Calm response all_rules path v (r ∷ rules) s here held h e calm =
      let (next, hn, rest) = >>=-eq-ok (check_ancestor all_rules path r (domain r) s) _ e in
      check_ancestors-Calm response all_rules path v rules next here held.1 h rest
        (check_ancestor-Calm response all_rules path r v (domain r) s here held.0.1 h hn calm)

  filters_meet :
      (v : Value) (rules : List Rule)
      → All (Held v) rules
      → All (λ (r : Rule). Meets r.kind r v) (keep is_filter rules)
  filters_meet v [] h = tt
  filters_meet v (r ∷ rules) h = elim (Bool-cases (is_filter r)) [
    | inl e ↦ rw (e, keep, All) (h.0.0, filters_meet v rules h.1)
    | inr e ↦ rw (e, keep, All) (filters_meet v rules h.1)
  ]

  pub check_group-Calm :
      (response : Value) (all_rules : List Rule) (path : Text) (rules : List Rule) (s : LintState)
      {t : LintState}
      → All (Grouped response path) rules
      → All (Agrees response) all_rules
      → check_group all_rules path rules s ≡ ok t
      → Calm s
      → Calm t
  unfolding check_group
  check_group-Calm response all_rules path [] s grouped h e calm =
      unfold finite_of check_domains check_duplicates check_ancestors in
      subst Calm (ok-injective _ _ e) calm
  check_group-Calm response all_rules path (r ∷ rules) s grouped h e calm =
      let (narrowed, hn, rest) =
        >>=-eq-ok (check_domains path (keep is_filter (r ∷ rules)) (finite_of (r ∷ rules)) s) _ e in
      let (v, found, m) = grouped.0.1.0 in
      let here : get_field response path ≡ some v = rw (sym grouped.0.0) found in
      let held = Grouped-Held response path v (r ∷ rules) here grouped in
      check_ancestors-Calm response all_rules path v (r ∷ rules) _ here held h rest (
        check_duplicates-Calm path [] (r ∷ rules) narrowed (
          check_domains-Calm path (keep is_filter (r ∷ rules)) (finite_of (r ∷ rules)) s v
            (finite_of-Held v (r ∷ rules) held) (filters_meet v (r ∷ rules) held) hn calm))
