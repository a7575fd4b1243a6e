-- ===== src/Suite/Curation/Reduce/Covers.antt =====
-- The retained cases show every mark that some case shows.
use constitutional_agent_tes.Base.{
  ℕ, zero, suc, ◌≤◌, ◌<◌, ◌≡◌, refl, sym, subst, Bool, true, false, ◌||◌, not, List, [], ◌∷◌, arith,
  leb, if◌then◌else◌, same→eq, same_refl, any, keep, All, length, Bool-cases, inl, inr,
}
use constitutional_agent_tes.Precedence.Result.{same_bool}
use constitutional_agent_tes.Suite.Curation.Reduce.{
  Mark, rule_mark, verdict_mark, assertion_mark, same_mark, has_mark, signature_at, minus, overlap,
  choose, greedy,
}

same_bool→eq : (a b : Bool) → same_bool a b ≡ true → a ≡ b
same_bool→eq true true h = refl
same_bool→eq true false h = cc
same_bool→eq false true h = cc
same_bool→eq false false h = refl

same_bool_refl : (a : Bool) → same_bool a a ≡ true
same_bool_refl true = refl
same_bool_refl false = refl

pub same_mark_refl : (m : Mark) → same_mark m m ≡ true
unfolding same_mark
same_mark_refl (rule_mark a p r) = ground (arith, same_refl a, same_bool_refl p, same_refl r)
same_mark_refl (verdict_mark a p) = ground (arith, same_bool_refl a, same_bool_refl p)
same_mark_refl (assertion_mark a p r) = ground (arith, same_refl a, same_bool_refl p, same_refl r)

pub same_mark→eq : (m n : Mark) → same_mark m n ≡ true → m ≡ n
unfolding same_mark
same_mark→eq (rule_mark a p r) (rule_mark b q s) h =
    cc (same→eq a b (ground arith), same_bool→eq p q (ground arith), same→eq r s (ground arith))
same_mark→eq (verdict_mark a p) (verdict_mark b q) h =
    cc (same_bool→eq a b (ground arith), same_bool→eq p q (ground arith))
same_mark→eq (assertion_mark a p r) (assertion_mark b q s) h =
    cc (same→eq a b (ground arith), same_bool→eq p q (ground arith), same→eq r s (ground arith))
same_mark→eq (rule_mark a p r) _ h = cc
same_mark→eq (verdict_mark a p) _ h = cc
same_mark→eq (assertion_mark a p r) _ h = cc

module _ {A : Type 0} where
  any-weaken :
      (p q : A → Bool)
      → ((a : A) → p a ≡ true → q a ≡ true)
      → (xs : List A) → any p xs ≡ true
      → any q xs ≡ true
  any-weaken p q h [] e = e
  any-weaken p q h (x ∷ xs) e = elim (Bool-cases (p x)) [
    | inl here ↦ ground (arith, h x here)
    | inr later ↦
        let rest = any-weaken p q h xs (ground arith) in
        elim (Bool-cases (q x)) [ inl good ↦ ground arith | inr bad ↦ ground arith ]
  ]

  length-keep-not : (p : A → Bool) (xs : List A) → length (keep (λ a. not (p a)) xs) ≤ length xs
  length-keep-not p [] = omega arith
  length-keep-not p (x ∷ xs) = ground (arith, length-keep-not p xs)

  keep-not-shorter :
      (p : A → Bool) (xs : List A) → any p xs ≡ true → length (keep (λ a. not (p a)) xs) < length xs
  keep-not-shorter p [] e = cc
  keep-not-shorter p (x ∷ xs) e = elim (Bool-cases (p x)) [
    | inl here ↦ ground (arith, length-keep-not p xs)
    | inr later ↦ ground (arith, keep-not-shorter p xs (ground arith))
  ]

  any-keep : (p : A → Bool) (xs : List A) → 1 ≤ length (keep p xs) → any p xs ≡ true
  any-keep p [] h = absurd (omega (arith, h))
  any-keep p (x ∷ xs) h = elim (Bool-cases (p x)) [
    | inl here ↦ ground arith
    | inr later ↦ ground (arith, any-keep p xs (ground arith))
  ]

  keep-any : (p : A → Bool) (xs : List A) → any p xs ≡ true → 1 ≤ length (keep p xs)
  keep-any p [] h = cc
  keep-any p (x ∷ xs) h = elim (Bool-cases (p x)) [
    | inl here ↦ ground arith
    | inr later ↦ ground (arith, keep-any p xs (ground arith))
  ]

  pub All-keep : (P : A → Type 0) (p : A → Bool) (xs : List A) → All P xs → All P (keep p xs)
  All-keep P p [] h = tt
  All-keep P p (x ∷ xs) h = by_test (p x) (All-keep P p xs h.1)
    where
      by_test : (b : Bool) → All P (keep p xs) → All P (if b then x ∷ keep p xs else keep p xs)
      by_test true rest = (h.0, rest)
      by_test false rest = rest

  All-split :
      (P : A → Type 0) (p : A → Bool)
      → ((a : A) → p a ≡ true → P a)
      → (xs : List A) → All P (keep (λ a. not (p a)) xs)
      → All P xs
  All-split P p f [] h = tt
  All-split P p f (x ∷ xs) h = by_test (p x) refl (λ g. All-split P p f xs g) h
    where
      by_test :
          (b : Bool)
          → p x ≡ b
          → (All P (keep (λ a. not (p a)) xs) → All P xs)
          → All P (if not b then x ∷ keep (λ a. not (p a)) xs else keep (λ a. not (p a)) xs)
          → All P (x ∷ xs)
      by_test true e rest g = (f x e, rest g)
      by_test false e rest g = (g.0, rest g.1)

-- A mark that two sets share is found from either side.
shared : (s marks : List Mark) → any (has_mark marks) s ≡ true → any (has_mark s) marks ≡ true
shared [] marks h = cc
shared (m ∷ s) marks h = elim (Bool-cases (has_mark marks m)) [
  | inl here ↦ any-weaken (λ n. same_mark n m) (has_mark (m ∷ s)) (λ n e. found n e) marks here
  | inr later ↦
      any-weaken (has_mark s) (has_mark (m ∷ s)) (λ n e. longer n e) marks
        (shared s marks (ground arith))
]
  where
    found : (n : Mark) → same_mark n m ≡ true → has_mark (m ∷ s) n ≡ true
    found n e =
        let turned : same_mark m n ≡ true =
          subst (λ x. same_mark m x ≡ true) (sym (same_mark→eq n m e)) (same_mark_refl m) in
        ground arith

    longer : (n : Mark) → has_mark s n ≡ true → has_mark (m ∷ s) n ≡ true
    longer n e = elim (Bool-cases (same_mark m n)) [ inl a ↦ ground arith | inr b ↦ ground arith ]

choose-overlap :
    (uncovered : List Mark) (sigs : List (List Mark))
    → (choose uncovered sigs).0 ≡ overlap (signature_at (choose uncovered sigs).1 sigs) uncovered
unfolding choose
choose-overlap uncovered [] = refl
choose-overlap uncovered (s ∷ sigs) =
    elim (Bool-cases (leb (choose uncovered sigs).0 (overlap s uncovered))) [
      | inl e ↦ rw e
      | inr e ↦ rw e (choose-overlap uncovered sigs)
    ]

choose-positive :
    (uncovered : List Mark) (sigs : List (List Mark)) (m : Mark)
    → has_mark uncovered m ≡ true
    → any (λ s. has_mark s m) sigs ≡ true
    → 1 ≤ (choose uncovered sigs).0
unfolding choose
choose-positive uncovered [] m hm h = cc
choose-positive uncovered (s ∷ sigs) m hm h = elim (Bool-cases (has_mark s m)) [
  | inl here ↦ let one = keep-any (has_mark uncovered) s (shared_mark here) in ground (arith, one)
  | inr later ↦
      let rest = choose-positive uncovered sigs m hm (ground arith) in ground (arith, rest)
]
  where
    shared_mark : has_mark s m ≡ true → any (has_mark uncovered) s ≡ true
    shared_mark here =
        any-weaken (λ n. same_mark n m) (has_mark uncovered)
          (λ n e. subst (λ x. has_mark uncovered x ≡ true) (sym (same_mark→eq n m e)) hm) s here

-- Some retained case shows the mark.
abbrev pub Shown : List ℕ → List (List Mark) → Mark → Type 0
Shown retained sigs m = any (λ k. has_mark (signature_at k sigs) m) retained ≡ true

abbrev pub Available : List (List Mark) → Mark → Type 0
Available sigs m = any (λ s. has_mark s m) sigs ≡ true

pub greedy-keeps :
    (fuel : ℕ) (uncovered : List Mark) (sigs : List (List Mark)) (retained : List ℕ) (m : Mark)
    → Shown retained sigs m
    → Shown (greedy fuel uncovered sigs retained) sigs m
unfolding greedy
greedy-keeps fuel [] sigs retained m h = h
greedy-keeps zero (n ∷ uncovered) sigs retained m h = h
greedy-keeps (suc fuel) (n ∷ uncovered) sigs retained m h =
    let chosen = (choose (n ∷ uncovered) sigs).1 in
    greedy-keeps fuel (minus (n ∷ uncovered) (signature_at chosen sigs)) sigs (chosen ∷ retained) m
      (or_later (has_mark (signature_at chosen sigs) m) _ h)
  where
    or_later : (a b : Bool) → b ≡ true → (a || b) ≡ true
    or_later true b e = refl
    or_later false b e = e

pub greedy-Shown :
    (fuel : ℕ) (uncovered : List Mark) (sigs : List (List Mark)) (retained : List ℕ)
    → length uncovered ≤ fuel
    → All (Available sigs) uncovered
    → All (Shown (greedy fuel uncovered sigs retained) sigs) uncovered
unfolding greedy
greedy-Shown fuel [] sigs retained few h = tt
greedy-Shown zero (m ∷ uncovered) sigs retained few h = absurd (omega (arith, few))
greedy-Shown (suc fuel) (m ∷ uncovered) sigs retained few h =
    let marks = m ∷ uncovered in
    let chosen = (choose marks sigs).1 in
    let s = signature_at chosen sigs in
    let head : has_mark marks m ≡ true =
      or_first (same_mark m m) (has_mark uncovered m) (same_mark_refl m) in
    let positive = choose-positive marks sigs m head h.0 in
    let size = choose-overlap marks sigs in
    let crossing = shared s marks (any-keep (has_mark marks) s (omega (arith, positive, size))) in
    let shorter = keep-not-shorter (has_mark s) marks crossing in
    All-split (Shown (greedy fuel (minus marks s) sigs (chosen ∷ retained)) sigs) (has_mark s)
      (λ n e.
        greedy-keeps fuel (minus marks s) sigs (chosen ∷ retained) n (or_first (has_mark s n) _ e))
      marks
      (greedy-Shown fuel (minus marks s) sigs (chosen ∷ retained) (omega (arith, shorter, few))
        (All-keep (Available sigs) (λ n. not (has_mark s n)) marks h))
  where
    or_first : (a b : Bool) → a ≡ true → (a || b) ≡ true
    or_first true b e = refl
    or_first false b e = cc
