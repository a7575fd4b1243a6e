-- ===== src/Probes/Mutated.antt =====
-- What the two mutations do to a response.
use constitutional_agent_tes.Base.{
  ◌≡◌, ◌≢◌, refl, sym, ap, ◌∙◌, ◌⊎◌, inl, inr, Option, none, some, List, [], ◌∷◌, Text, All, ok,
  >>=-eq-ok, ok-injective,
}
use constitutional_agent_tes.Json.{Value, Fields}
use constitutional_agent_tes.Json.Encode.{FloatText}
use constitutional_agent_tes.Policy.{
  Kind, required_field, equals, one_of, false_kind, empty_list, type_kind, range_kind, length_kind,
  unknown, Rule,
}
use constitutional_agent_tes.Policy.WellFormed.{GoodRule}
use constitutional_agent_tes.Evaluator.Satisfies.{Some, Meets}
use constitutional_agent_tes.Synthetic.Paths.{assign_path, delete_path}
use constitutional_agent_tes.Probes.{Mutation, missing, wrong, modes, without, wrong_value, mutate}
use constitutional_agent_tes.Probes.Values.{wrong_value-finds}

pub Some-map :
    {A : Type 0} {P Q : A → Type 0} → ((x : A) → P x → Q x) → (xs : List A) → Some P xs → Some Q xs
Some-map f [] h = absurd h
Some-map f (x ∷ xs) (inl h) = inl (f x h)
Some-map f (x ∷ xs) (inr h) = inr (Some-map f xs h)

pub All-Some :
    {A : Type 0} {P Q : A → Type 0} (xs : List A) → All P xs → Some Q xs → (x : A) × P x × Q x
All-Some [] g h = absurd h
All-Some (x ∷ xs) g (inl h) = (x, g.0, h)
All-Some (x ∷ xs) g (inr h) = All-Some xs g.1 h

-- A rule of kind required_field gets no wrong value.
abbrev pub Fits : Kind → Mutation → Type 0
Fits k m = m ≡ wrong → k ≢ required_field

pub modes-Fits : (k : Kind) → All (Fits k) (modes k)
modes-Fits required_field = ((λ e. cc e), tt)
modes-Fits equals = ((λ e. cc e), ((λ e h. cc h), tt))
modes-Fits one_of = ((λ e. cc e), ((λ e h. cc h), tt))
modes-Fits false_kind = ((λ e. cc e), ((λ e h. cc h), tt))
modes-Fits empty_list = ((λ e. cc e), ((λ e h. cc h), tt))
modes-Fits type_kind = ((λ e. cc e), ((λ e h. cc h), tt))
modes-Fits range_kind = ((λ e. cc e), ((λ e h. cc h), tt))
modes-Fits length_kind = ((λ e. cc e), ((λ e h. cc h), tt))
modes-Fits (unknown name) = ((λ e. cc e), ((λ e h. cc h), tt))

module _ ⦃repr : FloatText⦄ where
  -- The response is the baseline with the rule's path deleted, or with a value in its place that does
  -- not meet the rule.
  abbrev pub Mutated : Mutation → Fields → Rule → Fields → Type 0
  Mutated missing baseline r response = delete_path baseline r.path ≡ some response
  Mutated wrong baseline r response =
      (v : Value) × ¬ (Meets r.kind r v) × (assign_path baseline r.path v ≡ ok response)

  without-cases :
      (baseline : Fields) (o : Option Fields) {response : Fields}
      → without baseline o ≡ response
      → (o ≡ some response) ⊎ (response ≡ baseline)
  without-cases baseline none h = inr (sym h)
  without-cases baseline (some rest) h = inl (ap some h)

  -- A mutation takes the path away, gives it a wrong value, or changes nothing.
  pub mutate-Mutated :
      (version : Text) (m : Mutation) (baseline : Fields) (r : Rule) {response : Fields}
      → GoodRule version r
      → Fits r.kind m
      → mutate m baseline r ≡ ok response
      → Mutated m baseline r response ⊎ (response ≡ baseline)
  unfolding mutate
  mutate-Mutated version missing baseline r good fits h =
      without-cases baseline (delete_path baseline r.path) (ok-injective _ _ h)
  mutate-Mutated version wrong baseline r good fits h =
      let (v, hv, h1) = >>=-eq-ok (wrong_value r.kind r) _ h in
      let (w, found, fails) = wrong_value-finds r.kind version r refl (fits refl) good in
      let same_value : w ≡ v = ok-injective _ _ (sym found ∙ hv) in
      inl (w, fails, ap (assign_path baseline r.path) same_value ∙ h1)
