-- ===== src/Probes/Targeted.antt =====
-- What generate_rule_probes returns: a response that the policy accepts, and for every rule the
-- mutations of it that violate the rule.
use constitutional_agent_tes.Base.{
  ℕ, ◌+◌, ◌≡◌, refl, sym, ap, subst, ◌∙◌, true, false, List, [], ◌∷◌, ◌++◌, inl, inr, map, Text,
  txt, contains, All, length, leb, ok, >>=-eq-ok, guard-eq-ok, ok-injective, map_err, map_err-eq-ok,
}
use mathlib.Core.List.{append_assoc, append-nil, map-append}
use constitutional_agent_tes.Json.{obj, Fields}
use constitutional_agent_tes.Json.Encode.{FloatText}
use constitutional_agent_tes.Json.Ensure.{ensure_json_value, max_json_input_bytes}
use constitutional_agent_tes.Json.Encode.Size.{bounded_canonical_json_size}
use constitutional_agent_tes.Artifact.{stable_json}
use constitutional_agent_tes.Suite.Validate.{validate_suite}
use constitutional_agent_tes.Errors.{invalid_policy}
use constitutional_agent_tes.Policy.{Rule, Policy}
use constitutional_agent_tes.Policy.Validate.{PolicyInput, object, validate_policy}
use constitutional_agent_tes.Policy.WellFormed.{GoodRule}
use constitutional_agent_tes.Policy.Guarantees.{validate_policy-WellFormed}
use constitutional_agent_tes.Policy.RoundTrip.{validate_policy-object}
use constitutional_agent_tes.Evaluator.{compile}
use constitutional_agent_tes.Evaluator.Satisfies.{Some, Satisfies}
use constitutional_agent_tes.Suite.{Case, suite_value}
use constitutional_agent_tes.Synthetic.Generate.{generate_synthetic_cases, verify}
use constitutional_agent_tes.Synthetic.Generate.Laws.{verify-eq-ok, generate-Separates}
use constitutional_agent_tes.Probes.{
  Mutation, modes, Growth, ProbeReport, new_case, failed_ids, probe_id, mutate, limits,
  formatted_within, probes_value, cases_size, check_growth, add_probe, add_modes, add_rules,
  check_report, rule_probes, generate_rule_probes,
}
use constitutional_agent_tes.Probes.Mutated.{
  Mutated, Fits, modes-Fits, mutate-Mutated, Some-map, All-Some,
}
use constitutional_agent_tes.Probes.Hits.{
  Paired, Paired-snoc, Violates, satisfied-Violates, failed-Violates, failed_ids-failed, Hits,
  planned, targets,
}

module _ ⦃repr : FloatText⦄ where
  -- The baseline satisfies the rules, which are those of a validated policy.
  record Based (p : Policy) (baseline : Fields) : Type 0 where
    satisfied : All (Satisfies (obj baseline)) p.rules
    good : All (GoodRule p.schema_version) p.rules

  -- The rule is one of the policy.
  abbrev IsRule : Policy → Rule → Type 0
  IsRule p r = Some (λ q. q ≡ r) p.rules

  -- The lists behind a first case.
  record Grown (p : Policy) (passing : Fields) (first : Case) (done : List (Text × Mutation))
      (g : Growth) : Type 0 where
    rest : List Case
    shape : g.cases ≡ first ∷ rest
    hits : Paired (Hits p passing) g.probes rest
    told : targets g.probes ≡ done

  check_growth-same : (g : Growth) {out : Growth} → check_growth g ≡ ok out → g ≡ out
  unfolding check_growth
  check_growth-same g h = let (size, hs, h1) = >>=-eq-ok (cases_size g) _ h in ok-injective _ _ h1

  -- A mutation whose response violates a rule has changed the baseline as it says.
  violated-Mutated :
      (p : Policy) (passing : Fields) (r : Rule) (mode : Mutation) {fs : Fields}
      → Based p passing
      → IsRule p r
      → Fits r.kind mode
      → mutate mode passing r ≡ ok fs
      → Violates p.rules (obj fs) r.rule_id
      → Some (λ (q : Rule). (q.rule_id ≡ r.rule_id) × Mutated mode passing q fs) p.rules
  violated-Mutated p passing r mode {fs} based own fits h violated =
      let (q, good, same_rule) = All-Some p.rules based.good own in
      let good_rule = subst (GoodRule p.schema_version) same_rule good in
      elim (mutate-Mutated p.schema_version mode passing r good_rule fits h) [
        | inl m ↦
            Some-map
              (λ x e.
                (ap (λ (y : Rule). y.rule_id) e, subst (λ y. Mutated mode passing y fs) (sym e) m))
              p.rules own
        | inr e ↦ absurd (
            satisfied-Violates p.rules (obj fs) r.rule_id
              (subst (λ y. All (Satisfies (obj y)) p.rules) (sym e) based.satisfied) violated)
      ]

  add_probe-Grown :
      (p : Policy) (passing : Fields) (index : ℕ) (r : Rule) (mode : Mutation) (first : Case)
      (done : List (Text × Mutation)) (g : Growth) {out : Growth}
      → Based p passing
      → IsRule p r
      → Fits r.kind mode
      → Grown p passing first done g
      → add_probe p passing index r mode g ≡ ok out
      → Grown p passing first (done ++ (r.rule_id, mode) ∷ []) out
  unfolding add_probe
  add_probe-Grown p passing index r mode first done g based own fits grown h =
      let (fs, hf, h1) = >>=-eq-ok (mutate mode passing r) _ h in
      let (x, hx, h2) = >>=-eq-ok (verify p.policy_id (compile p) (obj fs)) _ h1 in
      let (hit, h3) = guard-eq-ok (contains (failed_ids x) r.rule_id) _ _ h2 in
      let (accepted, evaluated) = verify-eq-ok p.policy_id (compile p) (obj fs) hx in
      let violated : Violates p.rules (obj fs) r.rule_id =
        failed-Violates p.rules (obj fs) r.rule_id (
          failed_ids-failed p.policy_id (compile p) (obj fs) r.rule_id
            (ap (λ y. contains (failed_ids y) r.rule_id) (sym evaluated) ∙ hit)) in
      let changed = violated-Mutated p passing r mode based own fits hf violated in
      subst (Grown p passing first (done ++ (r.rule_id, mode) ∷ [])) (check_growth-same _ h3)
        (record {
          rest = grown.rest ++ new_case (probe_id index mode) fs false ∷ [];
          shape = ap (λ cs. cs ++ new_case (probe_id index mode) fs false ∷ []) grown.shape;
          hits = Paired-snoc (Hits p passing) g.probes grown.rest _ _ grown.hits (record {
            same_case = refl;
            expected = refl;
            mutated = changed;
            violated = violated;
            listed = ap failed_ids evaluated;
          });
          told = map-append _ g.probes _ ∙ ap (λ t. t ++ (r.rule_id, mode) ∷ []) grown.told;
        })

  add_modes-Grown :
      (p : Policy) (passing : Fields) (index : ℕ) (r : Rule) (ms : List Mutation) (first : Case)
      (done : List (Text × Mutation)) (g : Growth) {out : Growth}
      → Based p passing
      → IsRule p r
      → All (Fits r.kind) ms
      → Grown p passing first done g
      → add_modes p passing index r ms g ≡ ok out
      → Grown p passing first (done ++ map (λ m. (r.rule_id, m)) ms) out
  unfolding add_modes
  add_modes-Grown p passing index r [] first done g based own fits grown h =
      subst (Grown p passing first (done ++ [])) (ok-injective _ _ h)
        (subst (λ d. Grown p passing first d g) (sym (append-nil done)) grown)
  add_modes-Grown p passing index r (m ∷ ms) first done g {out} based own fits grown h =
      let (next, h1, h2) = >>=-eq-ok (add_probe p passing index r m g) _ h in
      let one = add_probe-Grown p passing index r m first done g based own fits.0 grown h1 in
      let more =
        add_modes-Grown p passing index r ms first (done ++ (r.rule_id, m) ∷ []) next based own
          fits.1 one h2 in
      subst (λ d. Grown p passing first d out) (append_assoc done _ _) more

  add_rules-Grown :
      (p : Policy) (passing : Fields) (index : ℕ) (rules : List Rule) (first : Case)
      (done : List (Text × Mutation)) (g : Growth) {out : Growth}
      → Based p passing
      → ((r : Rule) → Some (λ q. q ≡ r) rules → IsRule p r)
      → Grown p passing first done g
      → add_rules p passing index rules g ≡ ok out
      → Grown p passing first (done ++ planned rules) out
  unfolding add_rules
  add_rules-Grown p passing index [] first done g based own grown h =
      subst (Grown p passing first (done ++ [])) (ok-injective _ _ h)
        (subst (λ d. Grown p passing first d g) (sym (append-nil done)) grown)
  add_rules-Grown p passing index (r ∷ rules) first done g {out} based own grown h =
      let (next, h1, h2) = >>=-eq-ok (add_modes p passing index r (modes r.kind) g) _ h in
      let one =
        add_modes-Grown p passing index r (modes r.kind) first done g based (own r (inl refl))
          (modes-Fits r.kind) grown h1 in
      let more =
        add_rules-Grown p passing (index + 1) rules first _ next based (λ q m. own q (inr m)) one
          h2 in
      subst (λ d. Grown p passing first d out) (append_assoc done _ _) more

  check_report-same : (r : ProbeReport) {out : ProbeReport} → check_report r ≡ ok out → r ≡ out
  unfolding check_report
  check_report-same r h =
      let value = probes_value r in
      let (s, hs, h1) = >>=-eq-ok (limits (validate_suite (suite_value r.suite))) _ h in
      let (u, hu, h2) = >>=-eq-ok (limits (ensure_json_value value)) _ h1 in
      let (n, hn, h3) =
        >>=-eq-ok (limits (bounded_canonical_json_size value max_json_input_bytes)) _ h2 in
      let (fits, h4) = guard-eq-ok (formatted_within (stable_json value)) _ _ h3 in
      ok-injective _ _ h4

  -- What a report of the probes of a policy shows.
  pub record Targeted (p : Policy) (r : ProbeReport) : Type 0 where
    pub about : r.policy_id ≡ p.policy_id
    pub baseline : Fields
    pub probed : List Case
    pub cases : r.suite.cases ≡ new_case (txt "baseline") baseline true ∷ probed
    pub satisfied : All (Satisfies (obj baseline)) p.rules
    pub hits : Paired (Hits p baseline) r.probes probed
    pub complete : targets r.probes ≡ planned p.rules

  rule_probes-Targeted :
      (input : PolicyInput) (p : Policy) {r : ProbeReport}
      → validate_policy input ≡ ok p
      → rule_probes p ≡ ok r
      → Targeted p r
  unfolding rule_probes generate_synthetic_cases
  rule_probes-Targeted input p valid h =
      let (few, h1) = guard-eq-ok (leb (length p.rules) 64) _ _ h in
      let (b, hb, h2) = >>=-eq-ok (generate_synthetic_cases (object p)) _ h1 in
      let (q, hq, made) = >>=-eq-ok (map_err invalid_policy (validate_policy (object p))) _ hb in
      let same_policy = validate_policy-object input p valid (map_err-eq-ok invalid_policy _ hq) in
      let separates = generate-Separates q made in
      let first = new_case (txt "baseline") b.passing_case.response true in
      let start : Growth = record { cases = first ∷ []; probes = [] } in
      let (g, hg, h3) = >>=-eq-ok (add_rules p b.passing_case.response 0 p.rules start) _ h2 in
      let based : Based p b.passing_case.response = record {
        satisfied =
            subst (λ (x : Policy). All (Satisfies (obj b.passing_case.response)) x.rules)
              (sym same_policy) separates.satisfied;
        good = (validate_policy-WellFormed input valid).good_rules;
      } in
      let grown =
        add_rules-Grown p b.passing_case.response 0 p.rules first [] start based (λ r own. own)
          (record { rest = []; shape = refl; hits = tt; told = refl }) hg in
      subst (Targeted p) (check_report-same _ h3) (record {
        about = refl;
        baseline = b.passing_case.response;
        probed = grown.rest;
        cases = grown.shape;
        satisfied = based.satisfied;
        hits = grown.hits;
        complete = grown.told;
      })

  -- A report that generate_rule_probes returns is about the validated policy: its suite begins with
  -- a response that satisfies every rule; each further case belongs to a probe and holds this response
  -- with the path of the targeted rule deleted, for a missing field, or with a value at the path that
  -- does not meet the rule, for a wrong value; it violates the targeted rule, and the probe lists the
  -- rules that fail. The probes are, in the order of the rules, a missing field for every rule and a
  -- wrong value for every rule but those of kind required_field.
  pub generate_rule_probes-Targeted :
      (input : PolicyInput) {r : ProbeReport}
      → generate_rule_probes input ≡ ok r
      → (p : Policy) × (validate_policy input ≡ ok p) × Targeted p r
  unfolding generate_rule_probes
  generate_rule_probes-Targeted input h =
      let (p, hp, h1) = >>=-eq-ok (map_err invalid_policy (validate_policy input)) _ h in
      let valid = map_err-eq-ok invalid_policy (validate_policy input) hp in
      (p, valid, rule_probes-Targeted input p valid h1)
