-- ===== src/Precedence/Orders/Laws.antt =====
-- The adjacent-swap path between two orders of the same names.
use constitutional_agent_tes.Base.{
  ℕ, zero, suc, ◌+◌, ◌-◌, ◌<◌, ◌≡◌, refl, sym, ap, ◌∙◌, subst, false, List, [], ◌∷◌, ◌++◌, arith,
  Text, same, same_refl, contains, length, length-append, if◌then◌else◌,
}
use mathlib.Core.List.{append_assoc}
use constitutional_agent_tes.Precedence.Orders.{
  index_of, swap_at, move_down, swap_path_from, adjacent_swap_path,
}

-- The next order exchanges two neighbours of the current one, and so on up to the last one.
abbrev pub Chain : List Text → List (List Text) → List Text → Type 0
Chain current [] last = current ≡ last
Chain current (next ∷ path) last =
    ((k : ℕ) × (suc k < length current) × (next ≡ swap_at k current)) × Chain next path last

-- A path from one order to another by exchanges of neighbours.
abbrev pub SwapPath : List Text → List Text → List (List Text) → Type 0
SwapPath left right [] = ⊥
SwapPath left right (order ∷ path) = (order ≡ left) × Chain left path right

-- The names of `right`, one after the other, taken out of `left` at their first occurrence.
abbrev pub Rearranges : List Text → List Text → Type 0
Rearranges left [] = left ≡ []
Rearranges left (name ∷ names) =
    (before : List Text) × (after : List Text) × (left ≡ before ++ name ∷ after)
    × (contains before name ≡ false)
    × Rearranges (before ++ after) names

abbrev pub NoRepeats : List Text → List Text → Type 0
NoRepeats seen [] = Unit
NoRepeats seen (name ∷ names) = (contains seen name ≡ false) × NoRepeats (seen ++ name ∷ []) names

Chain-append :
    (a : List Text) (p : List (List Text)) (b : List Text) (q : List (List Text)) (c : List Text)
    → Chain a p b
    → Chain b q c
    → Chain a (p ++ q) c
Chain-append a [] b q c h g = subst (λ x. Chain x q c) (sym h) g
Chain-append a (n ∷ p) b q c h g = (h.0, Chain-append n p b q c h.1 g)

swap_at-append :
    (p : List Text) (x n : Text) (b : List Text)
    → swap_at (length p) (p ++ x ∷ n ∷ b) ≡ p ++ n ∷ x ∷ b
unfolding swap_at
swap_at-append [] x n b = refl
swap_at-append (y ∷ p) x n b = ap (λ l. y ∷ l) (swap_at-append p x n b)

-- The last element of a list that has one.
unsnoc :
    (a : List Text) (k : ℕ)
    → length a ≡ suc k
    → (front : List Text) × (x : Text) × (a ≡ front ++ x ∷ []) × (length front ≡ k)
unsnoc [] k h = cc
unsnoc (x ∷ []) k h = ([], x, refl, ground arith)
unsnoc (x ∷ y ∷ a) zero h = ground arith
unsnoc (x ∷ y ∷ a) (suc k) h =
    let (front, z, e, size) = unsnoc (y ∷ a) k (omega (arith, h)) in
    (x ∷ front, z, ap (λ l. x ∷ l) e, ap suc size)

abbrev MovesTo : ℕ → ℕ → List Text → List Text → Type 0
MovesTo target steps current goal =
    Chain current (move_down target steps current).0 goal
    × ((move_down target steps current).1 ≡ goal)

move_down-MovesTo :
    (d a : List Text) (n : Text) (b : List Text) (target steps : ℕ)
    → length d ≡ target
    → length a ≡ steps
    → MovesTo target steps (d ++ (a ++ n ∷ b)) (d ++ n ∷ (a ++ b))
unfolding move_down
move_down-MovesTo d [] n b target zero hd ha = (refl, refl)
move_down-MovesTo d (x ∷ a) n b target zero hd ha = ground arith
move_down-MovesTo d a n b target (suc k) hd ha =
    let (front, x, e, size) = unsnoc a k ha in
    let current : d ++ (a ++ n ∷ b) ≡ (d ++ front) ++ x ∷ n ∷ b =
      ap (λ l. d ++ (l ++ n ∷ b)) e
      ∙ (ap (λ l. d ++ l) (append_assoc front (x ∷ []) (n ∷ b))
          ∙ sym (append_assoc d front (x ∷ n ∷ b))) in
    let place : target + k ≡ length (d ++ front) = omega (arith, length-append d front, hd, size) in
    let next : swap_at (target + k) (d ++ (a ++ n ∷ b)) ≡ d ++ (front ++ n ∷ x ∷ b) =
      ap (λ l. swap_at (target + k) l) current
      ∙ (ap (λ j. swap_at j ((d ++ front) ++ x ∷ n ∷ b)) place
          ∙ (swap_at-append (d ++ front) x n b ∙ append_assoc d front (n ∷ x ∷ b))) in
    let goal : d ++ n ∷ (a ++ b) ≡ d ++ n ∷ (front ++ x ∷ b) =
      ap (λ l. d ++ n ∷ (l ++ b)) e ∙ ap (λ l. d ++ n ∷ l) (append_assoc front (x ∷ []) b) in
    let later = move_down-MovesTo d front n (x ∷ b) target k hd size in
    let moved =
      subst (λ c. MovesTo target k c (d ++ n ∷ (a ++ b))) (sym next)
        (subst (λ g. MovesTo target k (d ++ (front ++ n ∷ x ∷ b)) g) (sym goal) later) in
    let wide : suc (target + k) < length (d ++ (a ++ n ∷ b)) =
      omega (arith, ap (λ l. length l) current, length-append (d ++ front) (x ∷ n ∷ b), place) in
    (((target + k, wide, refl), moved.0), moved.1)

contains-append_false :
    (a b : List Text) (name : Text)
    → contains a name ≡ false
    → contains b name ≡ false
    → contains (a ++ b) name ≡ false
unfolding contains
contains-append_false [] b name ha hb = hb
contains-append_false (x ∷ a) b name ha hb =
    ground (arith, contains-append_false a b name (ground arith) hb)

index_of-append :
    (p : List Text) (name : Text) (b : List Text)
    → contains p name ≡ false
    → index_of name (p ++ name ∷ b) ≡ length p
unfolding index_of contains
index_of-append [] name b h = ap (λ t. if t then 0 else suc (index_of name b)) (same_refl name)
index_of-append (x ∷ p) name b h =
    let other : same x name ≡ false = ground arith in
    ap (λ t. if t then 0 else suc (index_of name (p ++ name ∷ b))) other
    ∙ ap suc (index_of-append p name b (ground arith))

swap_path_from-Chain :
    (names d rest : List Text) (target : ℕ)
    → length d ≡ target
    → NoRepeats d names
    → Rearranges rest names
    → Chain (d ++ rest) (swap_path_from target (d ++ rest) names) (d ++ names)
unfolding swap_path_from
swap_path_from-Chain [] d rest target hd fresh h = ap (λ l. d ++ l) h
swap_path_from-Chain (n ∷ names) d rest target hd fresh (a, b, e, first, remaining) =
    let current : d ++ rest ≡ d ++ (a ++ n ∷ b) = ap (λ l. d ++ l) e in
    let index : index_of n (d ++ rest) ≡ length (d ++ a) =
      ap (λ l. index_of n l) (current ∙ sym (append_assoc d a (n ∷ b)))
      ∙ index_of-append (d ++ a) n b (contains-append_false d a n fresh.0 first) in
    let steps : length a ≡ index_of n (d ++ rest) - target =
      omega (arith, index, length-append d a, hd) in
    let moved =
      subst (λ c. MovesTo target (index_of n (d ++ rest) - target) c (d ++ n ∷ (a ++ b)))
        (sym current)
        (move_down-MovesTo d a n b target (index_of n (d ++ rest) - target) hd steps) in
    let longer : length (d ++ n ∷ []) ≡ target + 1 = omega (arith, length-append d (n ∷ []), hd) in
    let later =
      swap_path_from-Chain names (d ++ n ∷ []) (a ++ b) (target + 1) longer fresh.1 remaining in
    let here : (d ++ n ∷ []) ++ (a ++ b) ≡ d ++ n ∷ (a ++ b) = append_assoc d (n ∷ []) (a ++ b) in
    let there : (d ++ n ∷ []) ++ names ≡ d ++ n ∷ names = append_assoc d (n ∷ []) names in
    let rest_path =
      subst (λ c. Chain c (swap_path_from (target + 1) c names) (d ++ n ∷ names)) here
        (subst
          (λ g.
            Chain ((d ++ n ∷ []) ++ (a ++ b))
              (swap_path_from (target + 1) ((d ++ n ∷ []) ++ (a ++ b)) names) g)
          there later) in
    Chain-append (d ++ rest) _ (d ++ n ∷ (a ++ b)) _ (d ++ n ∷ names) moved.0 (
      subst (λ c. Chain (d ++ n ∷ (a ++ b)) (swap_path_from (target + 1) c names) (d ++ n ∷ names))
        (sym moved.1) rest_path)

-- For two orders of the same names, without repeats, the path begins at the left order, exchanges two
-- neighbours in each step and ends at the right order.
pub adjacent_swap_path-SwapPath :
    (left right : List Text)
    → NoRepeats [] right
    → Rearranges left right
    → SwapPath left right (adjacent_swap_path left right)
unfolding adjacent_swap_path
adjacent_swap_path-SwapPath left right fresh same_names =
    (refl, swap_path_from-Chain right [] left 0 refl fresh same_names)
