-- ===== src/Precedence/Orders/Count.antt =====
-- The number of orders that are evaluated.
use constitutional_agent_tes.Base.{
  ℕ, zero, suc, ◌*◌, ◌≡◌, refl, ap, ◌∙◌, List, [], ◌∷◌, map, arith, length, length-append,
  length-map,
}
use constitutional_agent_tes.Precedence.Orders.{
  permutations, picks, prefix_all, concat_map, factorial,
}

module _ {ℓ} {A : Type ℓ} where
  length-prefix_all : (x : A) (yss : List (List A)) → length (prefix_all x yss) ≡ length yss
  length-prefix_all x [] = refl
  length-prefix_all x (ys ∷ yss) = ap suc (length-prefix_all x yss)

  -- Each pick leaves one element less.
  abbrev pub Shorter : ℕ → List (A × List A) → Type 0
  Shorter n [] = Unit
  Shorter n (p ∷ ps) = (length p.1 ≡ n) × Shorter n ps

  Shorter-map :
      (n : ℕ) (x : A) (ps : List (A × List A))
      → Shorter n ps
      → Shorter (suc n) (map (λ (p : A × List A). (p.0, x ∷ p.1)) ps)
  Shorter-map n x [] h = tt
  Shorter-map n x (p ∷ ps) h = (ap suc h.0, Shorter-map n x ps h.1)

  length-picks : (xs : List A) → length (picks xs) ≡ length xs
  unfolding picks
  length-picks [] = refl
  length-picks (x ∷ xs) =
      ap suc (length-map (λ (p : A × List A). (p.0, x ∷ p.1)) (picks xs) ∙ length-picks xs)

  pub picks-Shorter : (n : ℕ) (xs : List A) → length xs ≡ suc n → Shorter n (picks xs)
  unfolding picks
  picks-Shorter n [] h = cc
  picks-Shorter zero (x ∷ []) h = (refl, tt)
  picks-Shorter zero (x ∷ y ∷ xs) h = ground arith
  picks-Shorter (suc n) (x ∷ xs) h =
      let e : length xs ≡ suc n = omega (arith, h) in
      (e, Shorter-map n x (picks xs) (picks-Shorter n xs e))

  -- The number of orders that are evaluated is the factorial of the number of rules.
  pub length-permutations :
      (n : ℕ) (xs : List A) → length xs ≡ n → length (permutations n xs) ≡ factorial n
  unfolding permutations factorial
  length-permutations zero xs h = refl
  length-permutations (suc n) xs h =
      sum_of (λ ys e. length-permutations n ys e) (picks xs) (picks-Shorter n xs h)
      ∙ ap (λ k. k * factorial n) (length-picks xs ∙ h)
    where
      sum_of :
          ((ys : List A) → length ys ≡ n → length (permutations n ys) ≡ factorial n)
          → (ps : List (A × List A)) → Shorter n ps
          → length (concat_map (λ (p : A × List A). prefix_all p.0 (permutations n p.1)) ps)
            ≡ length ps * factorial n
      sum_of smaller [] g = omega arith
      sum_of smaller (p ∷ ps) g =
          let one = length-prefix_all p.0 (permutations n p.1) in
          length-append (prefix_all p.0 (permutations n p.1)) _
          ∙ omega (arith, one, smaller p.1 g.0, sum_of smaller ps g.1)
