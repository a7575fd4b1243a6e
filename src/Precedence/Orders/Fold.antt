-- ===== src/Precedence/Orders/Fold.antt =====
-- What does not depend on the order of a list: its permutations agree in it.
use constitutional_agent_tes.Base.{
  ℕ, zero, suc, ◌≡◌, refl, ap, ◌∙◌, List, [], ◌∷◌, map, arith, All, All-append, length,
}
use constitutional_agent_tes.Precedence.Orders.Count.{Shorter, picks-Shorter}
use constitutional_agent_tes.Precedence.Orders.{permutations, picks, prefix_all, concat_map}

-- The fold of a step over a list, from the right.
abbrev pub fold {ℓ κ} : {A : Type ℓ} {B : Type κ} → (A → B → B) → B → List A → B
fold step b [] = b
fold step b (x ∷ xs) = step x (fold step b xs)

pub All-map :
    {A : Type 0} {P Q : A → Type 0} (xs : List A) → ((x : A) → P x → Q x) → All P xs → All Q xs
All-map [] f h = tt
All-map (x ∷ xs) f h = (f x h.0, All-map xs f h.1)

pub All-zip :
    {A : Type 0} (P Q R : A → Type 0) (xs : List A)
    → All P xs
    → All Q xs
    → All R xs
    → All (λ x. P x × Q x × R x) xs
All-zip P Q R [] p q r = tt
All-zip P Q R (x ∷ xs) p q r = ((p.0, q.0, r.0), All-zip P Q R xs p.1 q.1 r.1)

module _ {A : Type 0} {B : Type 0} (step : A → B → B) (b : B)
    (commutes : (x y : A) (c : B) → step x (step y c) ≡ step y (step x c)) where
  -- What is left behind a pick folds, with the pick, to the fold of the whole.
  picks-fold :
      (xs : List A) → All (λ (p : A × List A). fold step b (p.0 ∷ p.1) ≡ fold step b xs) (picks xs)
  unfolding picks
  picks-fold [] = tt
  picks-fold (x ∷ xs) = (refl, later (picks xs) (picks-fold xs))
    where
      later :
          (ps : List (A × List A))
          → All (λ (p : A × List A). fold step b (p.0 ∷ p.1) ≡ fold step b xs) ps
          → All
              (λ (p : A × List A). fold step b (p.0 ∷ p.1) ≡ fold step b (x ∷ xs))
              (map (λ (p : A × List A). (p.0, x ∷ p.1)) ps)
      later [] h = tt
      later (p ∷ ps) h = (commutes p.0 x (fold step b p.1) ∙ ap (step x) h.0, later ps h.1)

  prefix_all-fold :
      (x : A) (c : B) (yss : List (List A))
      → All (λ ys. fold step b ys ≡ c) yss
      → All (λ ys. fold step b ys ≡ step x c) (prefix_all x yss)
  prefix_all-fold x c [] h = tt
  prefix_all-fold x c (ys ∷ yss) h = (ap (step x) h.0, prefix_all-fold x c yss h.1)

  -- A fold whose steps commute is the same over every permutation.
  pub permutations-fold :
      (n : ℕ) (xs : List A)
      → length xs ≡ n
      → All (λ ys. fold step b ys ≡ fold step b xs) (permutations n xs)
  unfolding permutations
  permutations-fold zero [] h = (refl, tt)
  permutations-fold zero (x ∷ xs) h = absurd (omega arith)
  permutations-fold (suc n) xs h =
      by_pick (permutations-fold n) (picks xs) (picks-Shorter n xs h) (picks-fold xs)
    where
      by_pick :
          ((ys : List A)
            → length ys ≡ n
            → All (λ zs. fold step b zs ≡ fold step b ys) (permutations n ys))
          → (ps : List (A × List A)) → Shorter n ps
          → All (λ (p : A × List A). fold step b (p.0 ∷ p.1) ≡ fold step b xs) ps
          → All
              (λ ys. fold step b ys ≡ fold step b xs)
              (concat_map (λ (p : A × List A). prefix_all p.0 (permutations n p.1)) ps)
      by_pick rest [] s f = tt
      by_pick rest (p ∷ ps) s f =
          All-append (λ ys. fold step b ys ≡ fold step b xs) (prefix_all p.0 (permutations n p.1)) _
            (All-map (prefix_all p.0 (permutations n p.1)) (λ ys e. e ∙ f.0)
              (prefix_all-fold p.0 (fold step b p.1) (permutations n p.1) (rest p.1 s.0)))
            (by_pick rest ps s.1 f.1)

module _ {A : Type 0} (P : A → Type 0) where
  prefix_all-All :
      (x : A) (yss : List (List A)) → P x → All (All P) yss → All (All P) (prefix_all x yss)
  prefix_all-All x [] px h = tt
  prefix_all-All x (ys ∷ yss) px h = ((px, h.0), prefix_all-All x yss px h.1)

  picks-All : (xs : List A) → All P xs → All (λ (p : A × List A). P p.0 × All P p.1) (picks xs)
  unfolding picks
  picks-All [] h = tt
  picks-All (x ∷ xs) h = (h, later (picks xs) (picks-All xs h.1))
    where
      later :
          (ps : List (A × List A))
          → All (λ (p : A × List A). P p.0 × All P p.1) ps
          → All
              (λ (p : A × List A). P p.0 × All P p.1)
              (map (λ (p : A × List A). (p.0, x ∷ p.1)) ps)
      later [] g = tt
      later (p ∷ ps) g = (((g.0).0, (h.0, (g.0).1)), later ps g.1)

  -- A permutation has no other elements.
  pub permutations-All : (n : ℕ) (xs : List A) → All P xs → All (All P) (permutations n xs)
  unfolding permutations
  permutations-All zero xs h = (tt, tt)
  permutations-All (suc n) xs h = by_pick (permutations-All n) (picks xs) (picks-All xs h)
    where
      by_pick :
          ((ys : List A) → All P ys → All (All P) (permutations n ys))
          → (ps : List (A × List A)) → All (λ (p : A × List A). P p.0 × All P p.1) ps
          → All (All P) (concat_map (λ (p : A × List A). prefix_all p.0 (permutations n p.1)) ps)
      by_pick rest [] g = tt
      by_pick rest (p ∷ ps) g =
          All-append (All P) (prefix_all p.0 (permutations n p.1)) _
            (prefix_all-All p.0 (permutations n p.1) (g.0).0 (rest p.1 (g.0).1))
            (by_pick rest ps g.1)
