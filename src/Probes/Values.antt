-- ===== src/Probes/Values.antt =====
-- The wrong value of a probe: the search for it succeeds, and the value does not meet the rule.
use constitutional_agent_tes.Base.{
  ◌≤◌, ◌≡◌, ◌≢◌, refl, sym, ap, subst, ◌∙◌, inl, inr, Bool, Bool-cases, true, false, ◌&&◌, ◌||◌,
  not, List, [], ◌∷◌, ◌++◌, arith, Text, txt, contains, all, any, any-append, length, ok,
}
use constitutional_agent_tes.Json.{Value, null, bool, arr, nil, cons}
use constitutional_agent_tes.Json.Encode.{FloatText}
use constitutional_agent_tes.Policy.{
  Kind, required_field, equals, one_of, false_kind, empty_list, type_kind, range_kind, length_kind,
  unknown, Rule, all_value_types, allowed_kind,
}
use constitutional_agent_tes.Policy.WellFormed.{GoodConstraint, GoodRule}
use constitutional_agent_tes.Evaluator.{
  uncompiled, judge, verdict, evaluate_rule, value_markers, type_matches,
}
use constitutional_agent_tes.Evaluator.Satisfies.{Meets, judge_iff}
use constitutional_agent_tes.Synthetic.Paths.{candidate_view}
use constitutional_agent_tes.Synthetic.Paths.Laws.{get_field-candidate_view}
use constitutional_agent_tes.Probes.{
  boundaries, probe_menu, first_failing, filter_probe_value, admitted, next_name, named_value,
  wrong_value,
}
use constitutional_agent_tes.Probes.Names.{
  IsUnlisted, next_name-finds, length-value_markers, unlisted-differs,
}

module _ ⦃repr : FloatText⦄ where
  -- The verdict of a rule on a value.
  abbrev judged : Rule → Value → Bool
  judged r v = (judge r.kind (uncompiled r) v).0

  candidate_judged :
      (r : Rule) (v : Value) → (evaluate_rule r (candidate_view r.path v)).passed ≡ judged r v
  unfolding evaluate_rule
  candidate_judged r v = ap (λ o. (verdict (uncompiled r) o).0) (get_field-candidate_view r.path v)

  first_failing-finds :
      (r : Rule) (vs : List Value)
      → any (λ v. not (judged r v)) vs ≡ true
      → (v : Value) × (first_failing r vs ≡ ok v) × (judged r v ≡ false)
  unfolding first_failing
  first_failing-finds r [] h = cc
  first_failing-finds r (v ∷ vs) h = elim (Bool-cases (judged r v)) [
    | inl e ↦
        let (w, found, fails) = first_failing-finds r vs (rw e at h) in
        (w, rw (first_failing, candidate_judged r v, e) found, fails)
    | inr e ↦ (v, rw (first_failing, candidate_judged r v, e) refl, e)
  ]

one_missing :
    (ar bo nu nm ob st it : Bool)
    → (ar && (bo && (nu && (nm && (ob && (st && true)))))) ≡ false
    → (not (nu || (false && nm))
        || (not (bo || (false && nm))
            || (not (it || (true && nm))
                || (not (nm || (false && nm))
                    || (not (st || (false && nm))
                        || (not (ar || (false && nm)) || (not (ob || (false && nm)) || false)))))))
      ≡ true
one_missing ar bo nu nm ob st it h = ground arith

-- A list of types that leaves one of the six out does not admit the whole menu.
type_left_out :
    (types : List Text)
    → all (contains types) all_value_types ≡ false
    → any (λ v. not (type_matches v types)) probe_menu ≡ true
unfolding type_matches
type_left_out types h =
    one_missing (contains types (txt "array")) (contains types (txt "boolean"))
      (contains types (txt "null")) (contains types (txt "number")) (contains types (txt "object"))
      (contains types (txt "string")) (contains types (txt "integer")) h

-- The kinds whose wrong value is searched in the menu.
abbrev IsFiltered : Kind → Type 0
IsFiltered type_kind = Unit
IsFiltered range_kind = Unit
IsFiltered length_kind = Unit
IsFiltered _ = ⊥

module _ ⦃repr : FloatText⦄ where
  -- Every such rule is failed by a value of the menu: no list of types admits all of them, and null
  -- is no number and has no length.
  menu_fails :
      (k : Kind) (r : Rule)
      → IsFiltered k
      → GoodConstraint k r
      → any (λ v. not (judge k (uncompiled r) v).0) probe_menu ≡ true
  unfolding judge
  menu_fails type_kind r f good = type_left_out r.types good.not_all
  menu_fails range_kind r f good = refl
  menu_fails length_kind r f good = refl
  menu_fails required_field r f good = absurd f
  menu_fails _ r f good = absurd f

  or_true : (a b : Bool) → b ≡ true → (a || b) ≡ true
  or_true true b h = refl
  or_true false b h = h

  filter_probe_value-finds :
      (k : Kind) (r : Rule)
      → r.kind ≡ k
      → IsFiltered k
      → GoodConstraint k r
      → (v : Value) × (filter_probe_value r ≡ ok v) × ¬ (Meets k r v)
  unfolding filter_probe_value
  filter_probe_value-finds k r e f good =
      let some_fails =
        any-append (λ v. not (judged r v)) (boundaries r.kind r) probe_menu
        ∙ or_true (any (λ v. not (judged r v)) (boundaries r.kind r)) _ (
            subst (λ x. any (λ v. not (judge x (uncompiled r) v).0) probe_menu ≡ true) (sym e)
              (menu_fails k r f good)) in
      let (v, found, fails) =
        first_failing-finds r (boundaries r.kind r ++ probe_menu) some_fails in
      (v, found, λ m. cc (e, fails, (judge_iff k r v).1 m))

  named_value-finds :
      (k : Kind) (r : Rule)
      → length (admitted k r) ≤ 256
      → (v : Value) × (named_value (next_name (value_markers (admitted k r)) 0 257) ≡ ok v)
        × IsUnlisted (value_markers (admitted k r)) v
  named_value-finds k r few =
      let (v, found, unlisted) =
        next_name-finds (value_markers (admitted k r))
          (omega (arith, length-value_markers (admitted k r))) in
      (v, ap named_value found, unlisted)

  constraint_of :
      {k : Kind} {version : Text} {r : Rule} → r.kind ≡ k → GoodRule version r → GoodConstraint k r
  constraint_of {r = r} e good = subst (λ k. GoodConstraint k r) e good.constraint

  unknown-refused : (version name : Text) → allowed_kind version (unknown name) ≡ true → ⊥
  unknown-refused version name h = ground arith

  -- A wrong value is found for every validated rule but one of kind required_field, and it does not
  -- meet the rule: the search over the boundaries and the menu, or over the names, does not fail.
  pub wrong_value-finds :
      (k : Kind) (version : Text) (r : Rule)
      → r.kind ≡ k
      → k ≢ required_field
      → GoodRule version r
      → (v : Value) × (wrong_value k r ≡ ok v) × ¬ (Meets k r v)
  unfolding wrong_value
  wrong_value-finds required_field version r e other good = absurd (other refl)
  wrong_value-finds false_kind version r e other good = (bool true, refl, λ m. cc m)
  wrong_value-finds empty_list version r e other good = (arr (cons null nil), refl, λ m. cc m)
  wrong_value-finds type_kind version r e other good =
      filter_probe_value-finds type_kind r e tt (constraint_of e good)
  wrong_value-finds range_kind version r e other good =
      filter_probe_value-finds range_kind r e tt (constraint_of e good)
  wrong_value-finds length_kind version r e other good =
      filter_probe_value-finds length_kind r e tt (constraint_of e good)
  wrong_value-finds equals version r e other good =
      let (v, found, unlisted) = named_value-finds equals r (omega arith) in
      (v, found, λ m. unlisted-differs (r.value ∷ []) v unlisted (inl m))
  wrong_value-finds one_of version r e other good =
      let few = constraint_of e good in
      let (v, found, unlisted) = named_value-finds one_of r few.1 in
      (v, found, unlisted-differs r.values v unlisted)
  wrong_value-finds (unknown name) version r e other good =
      absurd
        (unknown-refused version name (subst (λ k. allowed_kind version k ≡ true) e good.allowed))
