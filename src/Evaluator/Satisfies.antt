-- ===== src/Evaluator/Satisfies.antt =====
-- What a rule demands of a response, stated without the evaluator, and the agreement of the two.
use constitutional_agent_tes.Base.{
  ℕ, ◌≡◌, refl, sym, ap, ◌∙◌, ◌↔◌, ◌⊎◌, inl, inr, Bool, true, false, ◌||◌, Option, none, some, List,
  [], ◌∷◌, map, arith, Text, txt, contains, same, same→eq, eq→same, subst, any, all, All, pos,
  Bool-cases, same_iff, contains-any,
}
use mathlib.Core.Option.{some-injective}
use constitutional_agent_tes.Json.{Value, bool, arr, nil, cons, json_type_name}
use constitutional_agent_tes.Json.Float.{Num, whole, num_le}
use constitutional_agent_tes.Json.Path.{get_field}
use constitutional_agent_tes.Json.Encode.{FloatText, canonical_json, equal_texts}
use constitutional_agent_tes.Policy.{
  Kind, required_field, equals, one_of, false_kind, empty_list, type_kind, range_kind, length_kind,
  unknown, Rule, Policy,
}
use constitutional_agent_tes.Policy.Checks.{number_of}
use constitutional_agent_tes.Evaluator.{
  at_least, at_most, within, type_matches, size_of, is_false, is_empty_list, number_within,
  size_within, uncompiled, RuleResult, judge, verdict, evaluate_rule, compile, compile_rule,
  evaluate_checked, evaluate_compiled_rule, is_allowed,
}
use constitutional_agent_tes.Evaluator.Compiled.{evaluate_compiled_rule-compile_rule}

-- Some value of a list has the property.
abbrev pub Some : {A : Type 0} → (A → Type 0) → List A → Type 0
Some P [] = ⊥
Some P (x ∷ xs) = P x ⊎ Some P xs

-- The bounds that are declared hold.
abbrev pub InBounds : Rule → Num → Type 0
InBounds r n =
    ((lo : Num) → r.minimum ≡ some lo → num_le lo n ≡ true)
    × ((hi : Num) → r.maximum ≡ some hi → num_le n hi ≡ true)

-- The listed types admit a value: by its own type name, or as an integer under `number`.
abbrev pub HasType : List Text → Value → Type 0
HasType types v =
    Some (λ name. name ≡ json_type_name v) types
    ⊎ ((json_type_name v ≡ txt "integer") × Some (λ name. name ≡ txt "number") types)

module _ ⦃repr : FloatText⦄ where
  -- The two values have one canonical text.
  abbrev pub SameJson : Value → Value → Type 0
  SameJson v w = (t : Text) × (canonical_json v ≡ some t) × (canonical_json w ≡ some t)

  -- What each kind of rule demands of a value that is present.
  abbrev pub Meets : Kind → Rule → Value → Type 0
  Meets required_field r v = Unit
  Meets equals r v = SameJson v r.value
  Meets one_of r v = Some (SameJson v) r.values
  Meets false_kind r v = v ≡ bool false
  Meets empty_list r v = v ≡ arr nil
  Meets type_kind r v = HasType r.types v
  Meets range_kind r v = (n : Num) × (number_of v ≡ some n) × InBounds r n
  Meets length_kind r v = (n : ℕ) × (size_of v ≡ some n) × InBounds r (whole (pos n))
  Meets (unknown name) r v = ⊥

  -- The path resolves, and its value meets the rule.
  abbrev pub Satisfies : Value → Rule → Type 0
  Satisfies response r = (v : Value) × (get_field response r.path ≡ some v) × Meets r.kind r v

pub equal_texts_iff :
    (a b : Option Text) → (equal_texts a b ≡ true) ↔ ((t : Text) × (a ≡ some t) × (b ≡ some t))
equal_texts_iff none b = (λ h. cc, λ h. cc (h.1))
equal_texts_iff (some s) none = (λ h. cc, λ h. cc (h.2))
equal_texts_iff (some s) (some t) =
    ((λ h. (t, ap some (same→eq s t h), refl)), (λ (u, p, q). eq→same s t (ground arith)))

abbrev no_text : Option Text
no_text = none

or_true : (a b : Bool) → b ≡ true → (a || b) ≡ true
or_true true b h = refl
or_true false b h = h

pub any_iff :
    {A : Type 0} (p : A → Bool) (P : A → Type 0)
    → ((a : A) → (p a ≡ true) ↔ P a)
    → (xs : List A) → (any p xs ≡ true) ↔ Some P xs
any_iff p P h [] = (λ e. cc, λ e. absurd e)
any_iff p P h (x ∷ xs) = (
  (λ e. elim (Bool-cases (p x)) [
    | inl here ↦ inl ((h x).0 here)
    | inr later ↦ inr ((any_iff p P h xs).0 (ground arith))
  ]),
  (λ s. elim s [
    | inl here ↦ ground (arith, (h x).1 here)
    | inr later ↦ or_true (p x) (any p xs) ((any_iff p P h xs).1 later)
  ]),
)

at_least_iff :
    (o : Option Num) (n : Num)
    → (at_least o n ≡ true) ↔ ((lo : Num) → o ≡ some lo → num_le lo n ≡ true)
at_least_iff none n = (λ h lo e. cc, λ h. refl)
at_least_iff (some m) n =
    ((λ h lo e. subst (λ x. num_le x n ≡ true) (some-injective m lo e) h), (λ h. h m refl))

at_most_iff :
    (o : Option Num) (n : Num)
    → (at_most o n ≡ true) ↔ ((hi : Num) → o ≡ some hi → num_le n hi ≡ true)
at_most_iff none n = (λ h lo e. cc, λ h. refl)
at_most_iff (some m) n =
    ((λ h hi e. subst (λ x. num_le n x ≡ true) (some-injective m hi e) h), (λ h. h m refl))

pub within_iff : (n : Num) (r : Rule) → (within n r ≡ true) ↔ InBounds r n
unfolding within
within_iff n r = (
  (λ h. ((at_least_iff r.minimum n).0 (ground arith), (at_most_iff r.maximum n).0 (ground arith))),
  (λ b. ground (arith, (at_least_iff r.minimum n).1 b.0, (at_most_iff r.maximum n).1 b.1)),
)

is_false→eq : (v : Value) → is_false v ≡ true → v ≡ bool false
is_false→eq (bool false) h = refl
is_false→eq (bool true) h = cc
is_false→eq _ h = cc

is_empty_list→eq : (v : Value) → is_empty_list v ≡ true → v ≡ arr nil
is_empty_list→eq (arr nil) h = refl
is_empty_list→eq (arr (cons w xs)) h = cc
is_empty_list→eq _ h = cc

contains_iff :
    (names : List Text) (name : Text) → (contains names name ≡ true) ↔ Some (λ n. n ≡ name) names
contains_iff names name =
    let found = any_iff (λ n. same n name) (λ n. n ≡ name) (λ n. same_iff n name) names in
    ((λ h. found.0 (sym (contains-any names name) ∙ h)), (λ s. contains-any names name ∙ found.1 s))

type_matches_iff : (v : Value) (types : List Text) → (type_matches v types ≡ true) ↔ HasType types v
unfolding type_matches
type_matches_iff v types =
    let own = contains_iff types (json_type_name v) in
    let number = contains_iff types (txt "number") in
    let integer = same_iff (json_type_name v) (txt "integer") in
    (
      (λ h. elim (Bool-cases (contains types (json_type_name v))) [
        | inl e ↦ inl (own.0 e)
        | inr e ↦ inr (integer.0 (ground arith), number.0 (ground arith))
      ]),
      (λ s. elim s [
        | inl e ↦ ground (arith, own.1 e)
        | inr (i, e) ↦ ground (arith, integer.1 i, number.1 e)
      ]),
    )

number_within_iff :
    (o : Option Num) (r : Rule)
    → (number_within o r ≡ true) ↔ ((n : Num) × (o ≡ some n) × InBounds r n)
number_within_iff none r = (λ h. cc, λ h. cc (h.1))
number_within_iff (some m) r = (
  (λ h. (m, refl, (within_iff m r).0 h)),
  (λ (n, e, b). (within_iff m r).1 (subst (InBounds r) (sym (some-injective m n e)) b)),
)

size_within_iff :
    (o : Option ℕ) (r : Rule)
    → (size_within o r ≡ true) ↔ ((n : ℕ) × (o ≡ some n) × InBounds r (whole (pos n)))
size_within_iff none r = (λ h. cc, λ h. cc (h.1))
size_within_iff (some m) r = (
  (λ h. (m, refl, (within_iff (whole (pos m)) r).0 h)),
  (λ (n, e, b).
      (within_iff (whole (pos m)) r).1
        (subst (λ k. InBounds r (whole (pos k))) (sym (some-injective m n e)) b)),
)

module _ ⦃repr : FloatText⦄ where
  none_allowed :
      (vs : List Value)
      → Some (λ w. (t : Text) × (no_text ≡ some t) × (canonical_json w ≡ some t)) vs
      → ⊥
  none_allowed [] s = s
  none_allowed (v ∷ vs) s = elim s [ inl h ↦ cc (h.1) | inr later ↦ none_allowed vs later ]

  allowed_iff :
      (r : Rule) (o : Option Text)
      → (is_allowed (uncompiled r) o ≡ true)
        ↔ Some (λ w. (t : Text) × (o ≡ some t) × (canonical_json w ≡ some t)) r.values
  allowed_iff r none = ((λ h. cc), (λ s. absurd (none_allowed r.values s)))
  allowed_iff r (some m) =
      any_iff (λ w. equal_texts (canonical_json w) (some m))
        (λ w. (t : Text) × (some m ≡ some t) × (canonical_json w ≡ some t))
        (λ w.
          let both = equal_texts_iff (canonical_json w) (some m) in
          ((λ e. let (t, p, q) = both.0 e in (t, q, p)), (λ (t, q, p). both.1 (t, p, q))))
        r.values

  pub judge_iff :
      (k : Kind) (r : Rule) (v : Value) → ((judge k (uncompiled r) v).0 ≡ true) ↔ Meets k r v
  unfolding judge
  judge_iff required_field r v = (λ h. tt, λ h. refl)
  judge_iff equals r v = equal_texts_iff (canonical_json v) (canonical_json r.value)
  judge_iff one_of r v = allowed_iff r (canonical_json v)
  judge_iff false_kind r v = (is_false→eq v, λ e. ap is_false e)
  judge_iff empty_list r v = (is_empty_list→eq v, λ e. ap is_empty_list e)
  judge_iff type_kind r v = type_matches_iff v r.types
  judge_iff range_kind r v = number_within_iff (number_of v) r
  judge_iff length_kind r v = size_within_iff (size_of v) r
  judge_iff (unknown name) r v = (λ h. cc, λ h. absurd h)

  -- The evaluator passes a rule exactly when the response satisfies it.
  pub evaluate_rule-Satisfies :
      (r : Rule) (response : Value)
      → ((evaluate_rule r response).passed ≡ true) ↔ Satisfies response r
  unfolding evaluate_rule
  evaluate_rule-Satisfies r response = verdict_iff (get_field response r.path)
    where
      verdict_iff :
          (o : Option Value)
          → ((verdict (uncompiled r) o).0 ≡ true) ↔ ((v : Value) × (o ≡ some v) × Meets r.kind r v)
      verdict_iff none = ((λ h. cc), (λ h. cc (h.1)))
      verdict_iff (some v) = (
        (λ h. (v, refl, (judge_iff r.kind r v).0 h)),
        (λ (w, e, m).
            (judge_iff r.kind r v).1 (subst (Meets r.kind r) (sym (some-injective v w e)) m)),
      )

  all_passed_iff :
      (rules : List Rule) (response : Value)
      → (all
            (λ (x : RuleResult). x.passed)
            (map (λ c. evaluate_compiled_rule c response) (map compile_rule rules))
          ≡ true)
        ↔ All (Satisfies response) rules
  all_passed_iff [] response = ((λ h. tt), (λ h. refl))
  all_passed_iff (r ∷ rules) response =
      let one = evaluate_rule-Satisfies r response in
      let rest = all_passed_iff rules response in
      let same_result = evaluate_compiled_rule-compile_rule r response in
      (
        (λ h. (one.0 (ground (arith, same_result)), rest.0 (ground arith))),
        (λ h. ground (arith, same_result, one.1 h.0, rest.1 h.1)),
      )

  -- For a validated policy and a response that is accepted, the evaluation passes exactly when the
  -- response satisfies every rule.
  pub evaluate_checked-Satisfies :
      (p : Policy) (response : Value)
      → ((evaluate_checked p.policy_id (compile p) response).passed ≡ true)
        ↔ All (Satisfies response) p.rules
  unfolding evaluate_checked compile
  evaluate_checked-Satisfies p response = all_passed_iff p.rules response
