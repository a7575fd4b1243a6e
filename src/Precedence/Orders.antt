-- ===== src/Precedence/Orders.antt =====
-- precedence.py: the orders of the peer rules, and the adjacent-swap path between two of them.
pub mod Laws
pub mod Count
pub mod Fold
use constitutional_agent_tes.Base.{
  ℕ, zero, suc, ◌+◌, ◌-◌, ◌*◌, List, [], ◌∷◌, ◌++◌, map, if◌then◌else◌, Text, same,
}

module _ {ℓ} {A : Type ℓ} where
  -- Each element with the others, in order.
  unfoldable pub picks : List A → List (A × List A)
  picks [] = []
  picks (x ∷ xs) = (x, xs) ∷ map (λ (p : A × List A). (p.0, x ∷ p.1)) (picks xs)

  abbrev pub prefix_all : A → List (List A) → List (List A)
  prefix_all x [] = []
  prefix_all x (ys ∷ yss) = (x ∷ ys) ∷ prefix_all x yss

  abbrev pub concat_map {κ} : {B : Type κ} → (B → List (List A)) → List B → List (List A)
  concat_map f [] = []
  concat_map f (b ∷ bs) = f b ++ concat_map f bs

  -- `itertools.permutations` of a list of n elements
  unfoldable pub permutations : ℕ → List A → List (List A)
  unfolding picks
  permutations zero xs = [] ∷ []
  permutations (suc n) xs =
      concat_map (λ (p : A × List A). prefix_all p.0 (permutations n p.1)) (picks xs)

-- `math.factorial`
unfoldable pub factorial : ℕ → ℕ
factorial zero = 1
factorial (suc n) = suc n * factorial n

-- `current.index(rule_id)`; the length where it is missing
unfoldable pub index_of : Text → List Text → ℕ
index_of name [] = 0
index_of name (n ∷ names) = if same n name then 0 else suc (index_of name names)

-- Exchanges the elements at k and k + 1.
unfoldable pub swap_at : ℕ → List Text → List Text
swap_at zero (a ∷ b ∷ rest) = b ∷ a ∷ rest
swap_at (suc k) (a ∷ rest) = a ∷ swap_at k rest
swap_at k rest = rest

-- The inner loop: `steps` swaps bring the element at target + steps down to target. The orders
-- behind the first one are returned with the last order.
unfoldable pub move_down : ℕ → ℕ → List Text → List (List Text) × List Text
unfolding swap_at
move_down target zero current = ([], current)
move_down target (suc steps) current =
    let next = swap_at (target + steps) current in
    let (path, last) = move_down target steps next in (next ∷ path, last)

-- The outer loop, over the right order from position target on.
unfoldable pub swap_path_from : ℕ → List Text → List Text → List (List Text)
unfolding move_down index_of
swap_path_from target current [] = []
swap_path_from target current (name ∷ names) =
    let (path, next) = move_down target (index_of name current - target) current in
    path ++ swap_path_from (target + 1) next names

-- precedence.py: _adjacent_swap_path
unfoldable pub adjacent_swap_path : List Text → List Text → List (List Text)
unfolding swap_path_from
adjacent_swap_path left right = left ∷ swap_path_from 0 left right
