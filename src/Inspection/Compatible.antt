-- ===== src/Inspection/Compatible.antt =====
-- What audit_assertions tells of the assertions of a suite without a finding.
use constitutional_agent_tes.Base.{
  ◌≡◌, refl, sym, ap, ◌∙◌, inl, inr, Bool, Bool-cases, true, false, ◌&&◌, ◌||◌, not, some, List, [],
  ◌∷◌, map, arith, all, any, keep, All, Text, contains, text_le, insert_sorted, sort_names,
}
use constitutional_agent_tes.Policy.{Rule, Policy}
use constitutional_agent_tes.Evaluator.{rule_satisfied, field_missing, reason_name}
use constitutional_agent_tes.Coverage.{failure_names, is_empty}
use constitutional_agent_tes.Precedence.Result.{declared_rule}
use constitutional_agent_tes.Suite.{Assertion, Case, Suite}
use constitutional_agent_tes.Suite.Evaluate.{rules_or_empty}
use constitutional_agent_tes.Inspection.{
  assertion_names, rule_names, is_incompatible, audit_case, is_clean, audit_of,
}

-- The assertion names a rule, gives a reason code that a rule of the kind can have, and says that the
-- rule passes where the case is expected to pass.
pub record Asserts (rules : List Rule) (c : Case) (a : Text × Assertion) : Type 0 where
  pub known : contains (rule_names rules) a.0 ≡ true
  pub reason :
      (r : Rule)
      → declared_rule rules a.0 ≡ some r
      → contains
          (reason_name rule_satisfied ∷ reason_name field_missing ∷ failure_names r.kind)
          (reason_name a.1.reason_code)
        ≡ true
  pub verdict : c.expected_passed ≡ true → a.1.passed ≡ true

not-false : (b : Bool) → not b ≡ false → b ≡ true
not-false true h = refl
not-false false h = cc

insert_sorted-empty : (n : Text) (xs : List Text) → is_empty (insert_sorted n xs) ≡ false
unfolding insert_sorted
insert_sorted-empty n [] = refl
insert_sorted-empty n (x ∷ xs) = elim (Bool-cases (text_le n x)) [
  | inl e ↦ rw e refl
  | inr e ↦ rw e refl
]

sort_names-empty : (xs : List Text) → is_empty (sort_names xs) ≡ true → xs ≡ []
unfolding sort_names
sort_names-empty [] h = refl
sort_names-empty (x ∷ xs) h = cc (h, insert_sorted-empty x (sort_names xs))

-- Nothing is kept of a list without a name that has the property.
keep-map-none :
    (p : Text → Bool) (xs : List (Text × Assertion))
    → keep p (assertion_names xs) ≡ []
    → All (λ a. p a.0 ≡ false) xs
keep-map-none p [] h = tt
keep-map-none p (x ∷ xs) h = elim (Bool-cases (p x.0)) [
  | inl e ↦ cc (rw e at h)
  | inr e ↦ (e, keep-map-none p xs (rw e at h))
]

map-keep-none :
    (p : Text × Assertion → Bool) (xs : List (Text × Assertion))
    → assertion_names (keep p xs) ≡ []
    → All (λ a. p a ≡ false) xs
map-keep-none p [] h = tt
map-keep-none p (x ∷ xs) h = elim (Bool-cases (p x)) [
  | inl e ↦ cc (rw e at h)
  | inr e ↦ (e, map-keep-none p xs (rw e at h))
]

any-false : {A : Type 0} (p : A → Bool) (xs : List A) → any p xs ≡ false → All (λ a. p a ≡ false) xs
any-false p [] h = tt
any-false p (x ∷ xs) h =
    let rest : any p xs ≡ false = ground (arith, h) in (ground (arith, h), any-false p xs rest)

is_incompatible-reason :
    (rules : List Rule) (a : Text × Assertion)
    → is_incompatible (declared_rule rules a.0) a.1 ≡ false
    → (r : Rule) → declared_rule rules a.0 ≡ some r
    → contains
        (reason_name rule_satisfied ∷ reason_name field_missing ∷ failure_names r.kind)
        (reason_name a.1.reason_code)
      ≡ true
is_incompatible-reason rules a h r e = not-false _ (ap (λ o. is_incompatible o a.1) (sym e) ∙ h)

All-Asserts :
    (rules : List Rule) (c : Case) (xs : List (Text × Assertion))
    → All (λ a. not (contains (rule_names rules) a.0) ≡ false) xs
    → All (λ a. is_incompatible (declared_rule rules a.0) a.1 ≡ false) xs
    → (c.expected_passed ≡ true
        → All (λ a. (contains (rule_names rules) a.0 && not a.1.passed) ≡ false) xs)
    → All (Asserts rules c) xs
All-Asserts rules c [] known reasons verdicts = tt
All-Asserts rules c (a ∷ xs) known reasons verdicts = (
  record {
    known = not-false _ known.0;
    reason = is_incompatible-reason rules a reasons.0;
    verdict = λ e.
        passing (contains (rule_names rules) a.0) a.1.passed (verdicts e).0 (not-false _ known.0);
  },
  All-Asserts rules c xs known.1 reasons.1 (λ e. (verdicts e).1),
)
  where
    passing : (k b : Bool) → (k && not b) ≡ false → k ≡ true → b ≡ true
    passing k b h e = ground arith

three : (a b c : Bool) → (a && b && not c) ≡ true → (a ≡ true) × (b ≡ true) × (c ≡ false)
three a b c h = (ground arith, ground arith, ground arith)

consistent_verdict : (e k x : Bool) → ((e && k) || x) ≡ false → e ≡ true → k ≡ false
consistent_verdict e k x h f = ground arith

audit_case-Asserts :
    (rules : List Rule) (c : Case)
    → is_clean (audit_case rules c) ≡ true
    → All (Asserts rules c) (rules_or_empty c.expected_rules)
unfolding audit_case
audit_case-Asserts rules c h =
    let a = audit_case rules c in
    let (no_unknown, no_incompatible, no_contradiction) =
      three (is_empty a.unknown_rule_ids) (is_empty a.incompatible_reason_rule_ids)
        a.contradictory_verdict h in
    let xs = rules_or_empty c.expected_rules in
    All-Asserts rules c xs
      (keep-map-none (λ name. not (contains (rule_names rules) name)) xs
        (sort_names-empty _ no_unknown))
      (map-keep-none (λ (y : Text × Assertion). is_incompatible (declared_rule rules y.0) y.1) xs
        (sort_names-empty _ no_incompatible))
      (λ e.
        any-false (λ (y : Text × Assertion). contains (rule_names rules) y.0 && not y.1.passed) xs
          (consistent_verdict c.expected_passed _ _ no_contradiction e))

-- Every assertion of every case is one that the rules admit.
abbrev pub Compatible : List Rule → List Case → Type 0
Compatible rules cases =
    All (λ (c : Case). All (Asserts rules c) (rules_or_empty c.expected_rules)) cases

audit_cases-Compatible :
    (rules : List Rule) (cases : List Case)
    → all is_clean (map (audit_case rules) cases) ≡ true
    → Compatible rules cases
audit_cases-Compatible rules [] h = tt
audit_cases-Compatible rules (c ∷ cases) h =
    let (one, others) =
      two (is_clean (audit_case rules c)) (all is_clean (map (audit_case rules) cases)) h in
    (audit_case-Asserts rules c one, audit_cases-Compatible rules cases others)
  where
    two : (a b : Bool) → (a && b) ≡ true → (a ≡ true) × (b ≡ true)
    two a b h = (ground arith, ground arith)

pub audit_of-Compatible :
    (p : Policy) (s : Suite)
    → (audit_of p s).assertions_compatible ≡ true
    → Compatible p.rules s.cases
unfolding audit_of
audit_of-Compatible p s h = audit_cases-Compatible p.rules s.cases h
