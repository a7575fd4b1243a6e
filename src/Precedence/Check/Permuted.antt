-- ===== src/Precedence/Check/Permuted.antt =====
-- The built-in evaluator over the orders of a policy's rules: every order shows one meaning.
use constitutional_agent_tes.Base.{
  ◌≡◌, refl, sym, ap, ◌∙◌, Bool, true, false, ◌&&◌, Option, none, some, List, [], ◌∷◌, map, arith,
  Text, same_refl, contains, all, All, length,
}
use constitutional_agent_tes.Json.{Value}
use constitutional_agent_tes.Json.Encode.{FloatText}
use constitutional_agent_tes.Policy.{Rule, Policy}
use constitutional_agent_tes.Policy.WellFormed.{Fresh}
use constitutional_agent_tes.Evaluator.{
  RuleResult, compile_rule, evaluate_compiled_rule, evaluate_checked, evaluate_rule,
}
use constitutional_agent_tes.Evaluator.Compiled.{evaluate_compiled_rule-compile_rule}
use constitutional_agent_tes.Precedence.Result.{ReportedRule, report_rule, declared_rule}
use constitutional_agent_tes.Precedence.Orders.{permutations}
use constitutional_agent_tes.Precedence.Orders.Fold.{
  fold, permutations-fold, permutations-All, All-map, All-zip,
}
use constitutional_agent_tes.Precedence.Projections.{
  Counts, Evidence, count_name, counter, counter_projection, same_counts, evidence_of, projections,
}
use constitutional_agent_tes.Precedence.Projections.Counter.{count_name_comm, same_counts_refl}
use constitutional_agent_tes.Precedence.Witness.Steady.{Meaning, IsGraph, Steady}
use constitutional_agent_tes.Precedence.Check.{rule_ids, permuted}
use constitutional_agent_tes.Precedence.Check.Builtin.{builtin_result}

-- A rule with its own identifier is the one that is declared under it.
declared_rule-Fresh :
    (seen : List Text) (rules : List Rule)
    → Fresh seen rules
    → All
        (λ (r : Rule). (declared_rule rules r.rule_id ≡ some r) × (contains seen r.rule_id ≡ false))
        rules
unfolding declared_rule contains
declared_rule-Fresh seen [] f = tt
declared_rule-Fresh seen (r ∷ rules) f = (
  (rw (same_refl r.rule_id) refl, f.0),
  All-map rules
      (λ (q : Rule)
          (h : (declared_rule rules q.rule_id ≡ some q)
            × (contains (r.rule_id ∷ seen) q.rule_id ≡ false)).
        (ground (arith, h.0, h.1), ground (arith, h.1)))
      (declared_rule-Fresh (r.rule_id ∷ seen) rules f.1),
)

-- The participation of an order.
count_rule : Rule → Counts → Counts
count_rule r counts = count_name r.rule_id counts

counter-fold : (rules : List Rule) → counter (rule_ids rules) ≡ fold count_rule [] rules
unfolding counter count_rule
counter-fold [] = refl
counter-fold (r ∷ rules) = ap (count_name r.rule_id) (counter-fold rules)

count_rule_comm :
    (r q : Rule) (c : Counts) → count_rule r (count_rule q c) ≡ count_rule q (count_rule r c)
unfolding count_rule
count_rule_comm r q c = count_name_comm r.rule_id q.rule_id c

module _ ⦃repr : FloatText⦄ (response : Value) where
  pub rule_result : Rule → RuleResult
  rule_result r = evaluate_compiled_rule (compile_rule r) response

  abbrev results_of : List Rule → List RuleResult
  results_of rules = map (λ c. evaluate_compiled_rule c response) (map compile_rule rules)

  abbrev reported_of : List Rule → List ReportedRule
  reported_of rules = map report_rule (results_of rules)

  and_rule : Rule → Bool → Bool
  unfolding rule_result
  and_rule r b = (rule_result r).passed && b

  and_rule_comm : (r q : Rule) (b : Bool) → and_rule r (and_rule q b) ≡ and_rule q (and_rule r b)
  unfolding and_rule
  and_rule_comm r q b = ground arith

  all_passed-fold :
      (rules : List Rule)
      → all (λ (x : RuleResult). x.passed) (results_of rules) ≡ fold and_rule true rules
  unfolding and_rule
  all_passed-fold [] = refl
  all_passed-fold (r ∷ rules) = ap (λ b. and_rule r b) (all_passed-fold rules)

  result_id : (r : Rule) → (rule_result r).rule_id ≡ r.rule_id
  unfolding rule_result evaluate_rule
  result_id r = ap (λ (x : RuleResult). x.rule_id) (evaluate_compiled_rule-compile_rule r response)

  reported_ids :
      (rules : List Rule)
      → map (λ (x : ReportedRule). x.rule_id) (reported_of rules) ≡ rule_ids rules
  unfolding rule_result
  reported_ids [] = refl
  reported_ids (r ∷ rules) = cc (result_id r, reported_ids rules)

  pub passed_as : Option Rule → Bool
  unfolding rule_result
  passed_as none = false
  passed_as (some r) = (rule_result r).passed

  pub evidence_as : Option Rule → Evidence
  unfolding rule_result
  evidence_as none = record { kind = []; path = []; reason_code = [] }
  evidence_as (some r) = evidence_of (report_rule (rule_result r))

  -- What every order of the policy's rules shows of the response.
  abbrev pub meaning_of : List Rule → Meaning
  meaning_of rules = record {
    overall = all (λ (x : RuleResult). x.passed) (results_of rules);
    rows = counter_projection (counter (rule_ids rules));
    pass_of = λ name. passed_as (declared_rule rules name);
    evidence_for = λ name. evidence_as (declared_rule rules name);
  }

  -- The rules are declared under their identifiers.
  abbrev Declared : List Rule → List Rule → Type 0
  Declared rules order = All (λ (r : Rule). declared_rule rules r.rule_id ≡ some r) order

  declared_result :
      (rules : List Rule) (r : Rule)
      → declared_rule rules r.rule_id ≡ some r
      → declared_rule rules (rule_result r).rule_id ≡ some r
  declared_result rules r h = ap (declared_rule rules) (result_id r) ∙ h

  passes-IsGraph :
      (rules order : List Rule)
      → Declared rules order
      → IsGraph
          (λ name. passed_as (declared_rule rules name))
          (map (λ (x : ReportedRule). (x.rule_id, x.passed)) (reported_of order))
  unfolding passed_as
  passes-IsGraph rules [] d = tt
  passes-IsGraph rules (r ∷ order) d =
      (sym (ap passed_as (declared_result rules r d.0)), passes-IsGraph rules order d.1)

  evidence-IsGraph :
      (rules order : List Rule)
      → Declared rules order
      → IsGraph
          (λ name. evidence_as (declared_rule rules name))
          (map (λ (x : ReportedRule). (x.rule_id, evidence_of x)) (reported_of order))
  unfolding evidence_as
  evidence-IsGraph rules [] d = tt
  evidence-IsGraph rules (r ∷ order) d =
      (sym (ap evidence_as (declared_result rules r d.0)), evidence-IsGraph rules order d.1)

  -- An order shows the meaning.
  abbrev pub ShowsMeaning : Policy → List Rule → Type 0
  ShowsMeaning p order =
      Steady (meaning_of p.rules)
        (projections (builtin_result (permuted p order) response) (rule_ids order))

  order-ShowsMeaning :
      (p : Policy) (order : List Rule)
      → fold and_rule true order ≡ fold and_rule true p.rules
      → fold count_rule [] order ≡ fold count_rule [] p.rules
      → Declared p.rules order
      → ShowsMeaning p order
  unfolding projections evaluate_checked
  order-ShowsMeaning p order same_pass same_count d =
      let ids = ap counter (reported_ids order) in
      let counts = counter-fold order ∙ same_count ∙ sym (counter-fold p.rules) in
      record {
        overall = all_passed-fold order ∙ same_pass ∙ sym (all_passed-fold p.rules);
        rows = ap counter_projection (ids ∙ counts);
        complete =
            ap (λ c. same_counts c (counter (rule_ids order))) ids
            ∙ same_counts_refl (counter (rule_ids order));
        passes = passes-IsGraph p.rules order d;
        evidence = evidence-IsGraph p.rules order d;
      }

  -- Every order of a policy with distinct rule identifiers shows the meaning.
  pub permutations-ShowsMeaning :
      (p : Policy) → Fresh [] p.rules → All (ShowsMeaning p) (permutations (length p.rules) p.rules)
  permutations-ShowsMeaning p fresh =
      let orders = permutations (length p.rules) p.rules in
      let declared =
        All-map p.rules
          (λ (r : Rule)
              (h : (declared_rule p.rules r.rule_id ≡ some r) × (contains [] r.rule_id ≡ false)).
            h.0)
          (declared_rule-Fresh [] p.rules fresh) in
      All-map orders (λ order h. order-ShowsMeaning p order h.0 h.1 h.2)
        (All-zip (λ order. fold and_rule true order ≡ fold and_rule true p.rules)
          (λ order. fold count_rule [] order ≡ fold count_rule [] p.rules) (Declared p.rules) orders
          (permutations-fold and_rule true and_rule_comm (length p.rules) p.rules refl)
          (permutations-fold count_rule [] count_rule_comm (length p.rules) p.rules refl)
          (permutations-All (λ (r : Rule). declared_rule p.rules r.rule_id ≡ some r)
            (length p.rules) p.rules declared))
