-- ===== src/Evaluator/Compiled.antt =====
-- Compiling a rule changes no verdict.
use constitutional_agent_tes.Base.{
  ◌≡◌, refl, ap, ◌∙◌, ◌||◌, Option, none, some, List, [], ◌∷◌, Text, contains, any, Option-cases,
  inl, inr,
}
use constitutional_agent_tes.Json.{Value}
use constitutional_agent_tes.Json.Path.{get_field}
use constitutional_agent_tes.Json.Encode.{FloatText, canonical_json, equal_texts}
use constitutional_agent_tes.Policy.{
  Kind, equals, one_of, required_field, type_kind, range_kind, length_kind, Rule,
}
use constitutional_agent_tes.Evaluator.{
  uncompiled, value_markers, push_marker, compile_as, compile_rule, judge, is_allowed,
  expected_marker, verdict, evaluate_compiled_rule, evaluate_rule,
}

contains-push_marker :
    (o : Option Text) (ms : List Text) (m : Text)
    → contains (push_marker o ms) m ≡ (equal_texts o (some m) || contains ms m)
unfolding contains
contains-push_marker none ms m = refl
contains-push_marker (some t) ms m = refl

module _ ⦃repr : FloatText⦄ where
  contains-value_markers :
      (vs : List Value) (m : Text)
      → contains (value_markers vs) m ≡ any (λ v. equal_texts (canonical_json v) (some m)) vs
  unfolding contains value_markers
  contains-value_markers [] m = refl
  contains-value_markers (v ∷ vs) m =
      contains-push_marker (canonical_json v) (value_markers vs) m
      ∙ ap (λ b. equal_texts (canonical_json v) (some m) || b) (contains-value_markers vs m)

  allowed_compiled :
      (r : Rule) (o : Option Text)
      → is_allowed (compile_as one_of r) o ≡ is_allowed (uncompiled r) o
  unfolding compile_as
  allowed_compiled r none = refl
  allowed_compiled r (some m) = contains-value_markers r.values m

  expected_compiled : (r : Rule) → expected_marker (compile_as equals r) ≡ canonical_json r.value
  unfolding compile_as
  expected_compiled r = elim (Option-cases (canonical_json r.value)) [
    | inl e ↦ rw e e
    | inr (t, e) ↦ rw e
  ]

  judge-compile_as :
      (k : Kind) (r : Rule) (v : Value) → judge k (compile_as k r) v ≡ judge k (uncompiled r) v
  unfolding judge
  judge-compile_as equals r v = rw (expected_compiled r)
  judge-compile_as one_of r v = rw (allowed_compiled r (canonical_json v))
  judge-compile_as required_field r v = refl
  judge-compile_as type_kind r v = unfold compile_as in refl
  judge-compile_as range_kind r v = unfold compile_as in refl
  judge-compile_as length_kind r v = unfold compile_as in refl
  judge-compile_as _ r v = refl

  rule-compile_as : (k : Kind) (r : Rule) → (compile_as k r).rule ≡ r
  unfolding compile_as
  rule-compile_as equals r = refl
  rule-compile_as one_of r = refl
  rule-compile_as _ r = refl

  verdict_compiled :
      (r : Rule) (o : Option Value) → verdict (compile_rule r) o ≡ verdict (uncompiled r) o
  unfolding compile_rule
  verdict_compiled r none = refl
  verdict_compiled r (some v) = rw (rule-compile_as r.kind r) (judge-compile_as r.kind r v)

  -- A compiled rule gives every response the result that the rule gives it without compiling.
  pub evaluate_compiled_rule-compile_rule :
      (r : Rule) (response : Value)
      → evaluate_compiled_rule (compile_rule r) response ≡ evaluate_rule r response
  unfolding evaluate_rule compile_rule
  evaluate_compiled_rule-compile_rule r response =
      cc (rule-compile_as r.kind r, verdict_compiled r (get_field response r.path))
