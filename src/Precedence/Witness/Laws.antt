-- ===== src/Precedence/Witness/Laws.antt =====
-- The search for an adjacent witness misses nothing.
use constitutional_agent_tes.Base.{
  ℕ, zero, suc, ◌+◌, ◌-◌, ◌≤◌, ◌<◌, ◌≡◌, refl, subst, ◌↔◌, ◌⊎◌, false, Option, none, some, List, [],
  ◌∷◌, arith, Text, All, length, inl, inr,
}
use constitutional_agent_tes.Json.{Value}
use constitutional_agent_tes.Json.Encode.{FloatText}
use constitutional_agent_tes.Precedence.Orders.{swap_at}
use constitutional_agent_tes.Precedence.Projections.{
  Dimension, participation, presentation, Projections, different, dimension_projection_pair,
}
use constitutional_agent_tes.Precedence.Witness.{
  Observations, observed, first, range_from, compare_swap, adjacent_witness,
}
use constitutional_agent_tes.Precedence.Report.{is_found, variance_of}

first-none_iff {ℓ} :
    {A : Type ℓ} (f : A → Option Value) (xs : List A)
    → (first f xs ≡ none) ↔ All (λ x. f x ≡ none) xs
first-none_iff f [] = (λ e. tt, λ h. refl)
first-none_iff f (x ∷ xs) = step (f x) refl (first-none_iff f xs)
  where
    step :
        (o : Option Value)
        → f x ≡ o
        → (first f xs ≡ none) ↔ All (λ x. f x ≡ none) xs
        → (elim o [ none ↦ first f xs | some w ↦ some w ] ≡ none)
          ↔ ((o ≡ none) × All (λ x. f x ≡ none) xs)
    step none e rest = ((λ h. (refl, rest.0 h)), (λ h. rest.1 h.1))
    step (some w) e rest = ((λ h. cc), (λ h. cc (h.0)))

All-iff {ℓ} :
    {A : Type ℓ} (P Q : A → Type 0) → ((a : A) → P a ↔ Q a) → (xs : List A) → All P xs ↔ All Q xs
All-iff P Q h [] = ((λ e. tt), (λ e. tt))
All-iff P Q h (x ∷ xs) =
    ((λ e. ((h x).0 e.0, (All-iff P Q h xs).0 e.1)), (λ e. ((h x).1 e.0, (All-iff P Q h xs).1 e.1)))

range_from_iff :
    (P : ℕ → Type 0) (a n : ℕ) → All P (range_from a n) ↔ ((k : ℕ) → a ≤ k → k < a + n → P k)
range_from_iff P a zero = ((λ h k l u. absurd (omega (arith, l, u))), (λ h. tt))
range_from_iff P a (suc n) =
    let rest = range_from_iff P (suc a) n in
    (
      (λ h k l u. elim (le-cases a k l) [
        | inl e ↦ subst P e h.0
        | inr m ↦ rest.0 h.1 k m (omega (arith, u))
      ]),
      (λ h. (
        h a (omega arith) (omega arith),
        rest.1 (λ k l u. h k (omega (arith, l)) (omega (arith, u))),
      )),
    )
  where
    le-cases : (a k : ℕ) → a ≤ k → (a ≡ k) ⊎ (suc a ≤ k)
    le-cases a k l = ground arith

module _ ⦃repr : FloatText⦄ where
  -- Two orders show the same projection, where both were observed.
  abbrev pub Agree : Dimension → Option Projections → Option Projections → Type 0
  Agree d (some p) (some q) =
      different (dimension_projection_pair d p q).0 (dimension_projection_pair d p q).1 ≡ false
  Agree d none q = Unit
  Agree d (some p) none = Unit

  -- Each order agrees with every order that exchanges two neighbours of it.
  abbrev pub AgreeOnSwaps : Dimension → List (List Text) → Observations → Type 0
  AgreeOnSwaps d orders os =
      All
        (λ left.
          (k : ℕ) → suc k < length left → Agree d (observed left os) (observed (swap_at k left) os))
        orders

  compare_swap_iff :
      (d : Dimension) (left : List Text) (k : ℕ) (a b : Option Projections)
      → (compare_swap d left k a b ≡ none) ↔ Agree d a b
  compare_swap_iff d left k (some p) (some q) = ground arith
  compare_swap_iff d left k none b = (λ e. tt, λ h. refl)
  compare_swap_iff d left k (some p) none = (λ e. tt, λ h. refl)

  adjacent_witness-none_iff :
      (d : Dimension) (orders : List (List Text)) (os : Observations)
      → (adjacent_witness d orders os ≡ none) ↔ AgreeOnSwaps d orders os
  unfolding adjacent_witness
  adjacent_witness-none_iff d orders os =
      let outer = first-none_iff search orders in
      let inner = All-iff (λ left. search left ≡ none) (λ left. Agreeing left) agreeing orders in
      ((λ e. inner.0 (outer.0 e)), (λ h. outer.1 (inner.1 h)))
    where
      compare_at : List Text → ℕ → Option Value
      compare_at left k = compare_swap d left k (observed left os) (observed (swap_at k left) os)

      search : List Text → Option Value
      search left = first (compare_at left) (range_from 0 (length left - 1))

      Agreeing : List Text → Type 0
      Agreeing left =
          (k : ℕ) → suc k < length left → Agree d (observed left os) (observed (swap_at k left) os)

      agreeing : (left : List Text) → (search left ≡ none) ↔ Agreeing left
      agreeing left =
          let found = first-none_iff (compare_at left) (range_from 0 (length left - 1)) in
          let places = range_from_iff (λ k. compare_at left k ≡ none) 0 (length left - 1) in
          let one = λ (k : ℕ).
            compare_swap_iff d left k (observed left os) (observed (swap_at k left) os) in
          (
            (λ e k l. (one k).0 (places.0 (found.0 e) k (omega arith) (omega (arith, l)))),
            (λ h. found.1 (places.1 (λ k l u. (one k).1 (h k (omega (arith, u)))))),
          )

  is_found_iff : (o : Option Value) → (is_found o ≡ false) ↔ (o ≡ none)
  is_found_iff none = ((λ e. refl), (λ e. refl))
  is_found_iff (some w) = ((λ e. cc), (λ e. cc))

  -- The variance of a report says that participation, or presentation, does not vary exactly when no
  -- two observed orders that differ by one exchange of neighbours differ in it.
  pub variance_of-AgreeOnSwaps :
      (orders : List (List Text)) (os : Observations)
      → (((variance_of orders os).participation ≡ false) ↔ AgreeOnSwaps participation orders os)
        × (((variance_of orders os).presentation ≡ false) ↔ AgreeOnSwaps presentation orders os)
  unfolding variance_of
  variance_of-AgreeOnSwaps orders os = (agrees participation, agrees presentation)
    where
      agrees :
          (d : Dimension)
          → (is_found (adjacent_witness d orders os) ≡ false) ↔ AgreeOnSwaps d orders os
      agrees d =
          let found = is_found_iff (adjacent_witness d orders os) in
          let swaps = adjacent_witness-none_iff d orders os in
          ((λ e. swaps.0 (found.0 e)), (λ h. found.1 (swaps.1 h)))
