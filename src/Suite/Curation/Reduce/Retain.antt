-- ===== src/Suite/Curation/Reduce/Retain.antt =====
-- The positions that reduce_suite retains show every mark that some case shows.
use constitutional_agent_tes.Base.{
  ℕ, ◌≡◌, refl, sym, ap, ◌∙◌, subst, ◌⊎◌, Bool, true, false, ◌||◌, not, List, [], ◌∷◌, ◌++◌, arith,
  if◌then◌else◌, any, All, length, Bool-cases, inl, inr,
}
use constitutional_agent_tes.Suite.Curation.Reduce.{
  Mark, same_mark, has_mark, mark_set, signature_at, minus, greedy, all_marks, minus_all, retain,
}
use constitutional_agent_tes.Suite.Curation.Reduce.Covers.{
  same_mark_refl, same_mark→eq, Shown, Available, greedy-keeps, greedy-Shown, All-keep,
}

any-append :
    {A : Type 0} (p : A → Bool) (xs ys : List A) → any p (xs ++ ys) ≡ (any p xs || any p ys)
any-append p [] ys = refl
any-append p (x ∷ xs) ys = ground (arith, any-append p xs ys)

has_mark-all_marks :
    (sigs : List (List Mark)) (m : Mark)
    → has_mark (all_marks sigs) m ≡ any (λ s. has_mark s m) sigs
has_mark-all_marks [] m = refl
has_mark-all_marks (s ∷ sigs) m =
    any-append (λ n. same_mark n m) s (all_marks sigs)
    ∙ ap (λ b. has_mark s m || b) (has_mark-all_marks sigs m)

or_later : (a b : Bool) → b ≡ true → (a || b) ≡ true
or_later true b e = refl
or_later false b e = e

or_first : (a b : Bool) → a ≡ true → (a || b) ≡ true
or_first true b e = refl
or_first false b e = cc

All-weaken :
    {A : Type 0} (P Q : A → Type 0) → ((a : A) → P a → Q a) → (xs : List A) → All P xs → All Q xs
All-weaken P Q f [] h = tt
All-weaken P Q f (x ∷ xs) h = (f x h.0, All-weaken P Q f xs h.1)

each-has_mark : (marks : List Mark) → All (λ n. has_mark marks n ≡ true) marks
each-has_mark [] = tt
each-has_mark (m ∷ marks) = (
  or_first (same_mark m m) _ (same_mark_refl m),
  All-weaken (λ n. has_mark marks n ≡ true) (λ n. has_mark (m ∷ marks) n ≡ true)
      (λ n e. or_later (same_mark m n) _ e) marks (each-has_mark marks),
)

has_mark-mark_set :
    (marks : List Mark) (m : Mark) → has_mark marks m ≡ true → has_mark (mark_set marks) m ≡ true
unfolding mark_set
has_mark-mark_set [] m h = h
has_mark-mark_set (n ∷ marks) m h =
    by_test (has_mark (mark_set marks) n) refl (elim (Bool-cases (same_mark n m)) [
      | inl e ↦ inl e
      | inr e ↦ inr (has_mark-mark_set marks m (ground arith))
    ])
  where
    by_test :
        (b : Bool)
        → has_mark (mark_set marks) n ≡ b
        → (same_mark n m ≡ true) ⊎ (has_mark (mark_set marks) m ≡ true)
        → has_mark (if b then mark_set marks else n ∷ mark_set marks) m ≡ true
    by_test true e (inl here) =
        subst (λ x. has_mark (mark_set marks) x ≡ true) (same_mark→eq n m here) e
    by_test true e (inr later) = later
    by_test false e (inl here) = or_first (same_mark n m) _ here
    by_test false e (inr later) = or_later (same_mark n m) _ later

All-mark_set : (P : Mark → Type 0) (marks : List Mark) → All P marks → All P (mark_set marks)
unfolding mark_set
All-mark_set P [] h = tt
All-mark_set P (m ∷ marks) h = by_test (has_mark (mark_set marks) m) (All-mark_set P marks h.1)
  where
    by_test :
        (b : Bool)
        → All P (mark_set marks)
        → All P (if b then mark_set marks else m ∷ mark_set marks)
    by_test true rest = rest
    by_test false rest = (h.0, rest)

All-has_mark :
    (P : Mark → Type 0) (marks : List Mark) (m : Mark) → All P marks → has_mark marks m ≡ true → P m
All-has_mark P [] m h e = cc
All-has_mark P (n ∷ marks) m h e = elim (Bool-cases (same_mark n m)) [
  | inl here ↦ subst P (same_mark→eq n m here) h.0
  | inr later ↦ All-has_mark P marks m h.1 (ground arith)
]

All-minus_all :
    (P : Mark → Type 0) (uncovered : List Mark) (sigs : List (List Mark)) (retained : List ℕ)
    → All P uncovered
    → All P (minus_all uncovered sigs retained)
All-minus_all P uncovered sigs [] h = h
All-minus_all P uncovered sigs (k ∷ retained) h =
    All-minus_all P (minus uncovered (signature_at k sigs)) sigs retained
      (All-keep P (λ m. not (has_mark (signature_at k sigs) m)) uncovered h)

has_mark-minus :
    (uncovered s : List Mark) (m : Mark)
    → has_mark uncovered m ≡ true
    → has_mark s m ≡ false
    → has_mark (minus uncovered s) m ≡ true
has_mark-minus [] s m h e = h
has_mark-minus (n ∷ uncovered) s m h e = elim (Bool-cases (same_mark n m)) [
  | inl here ↦
      let kept : has_mark s n ≡ false =
        subst (λ x. has_mark s x ≡ false) (sym (same_mark→eq n m here)) e in
      ground arith
  | inr later ↦
      let rest = has_mark-minus uncovered s m (ground arith) e in
      elim (Bool-cases (has_mark s n)) [
        | inl a ↦ ground (arith, rest)
        | inr b ↦ ground (arith, rest)
      ]
]

minus_all-cases :
    (uncovered : List Mark) (sigs : List (List Mark)) (retained : List ℕ) (m : Mark)
    → has_mark uncovered m ≡ true
    → Shown retained sigs m ⊎ (has_mark (minus_all uncovered sigs retained) m ≡ true)
minus_all-cases uncovered sigs [] m h = inr h
minus_all-cases uncovered sigs (k ∷ retained) m h =
    elim (Bool-cases (has_mark (signature_at k sigs) m)) [
      | inl e ↦ inl (or_first (has_mark (signature_at k sigs) m) _ e)
      | inr e ↦
          elim (minus_all-cases (minus uncovered (signature_at k sigs)) sigs retained m
            (has_mark-minus uncovered (signature_at k sigs) m h e)) [
              | inl shown ↦ inl (or_later (has_mark (signature_at k sigs) m) _ shown)
              | inr left ↦ inr left
            ]
    ]

-- Every mark of some signature is a mark of the signature at some retained position: the loop is given
-- enough steps to cover all of them.
pub retain-Shown :
    (sigs : List (List Mark)) (retained : List ℕ) (m : Mark)
    → Available sigs m
    → Shown (retain sigs retained) sigs m
unfolding retain
retain-Shown sigs retained m h =
    let every_mark = mark_set (all_marks sigs) in
    let uncovered = minus_all every_mark sigs retained in
    let here = has_mark-mark_set (all_marks sigs) m (has_mark-all_marks sigs m ∙ h) in
    let available =
      All-weaken (λ n. has_mark (all_marks sigs) n ≡ true) (Available sigs)
        (λ n e. sym (has_mark-all_marks sigs n) ∙ e) (all_marks sigs)
        (each-has_mark (all_marks sigs)) in
    let all_available =
      All-minus_all (Available sigs) every_mark sigs retained
        (All-mark_set (Available sigs) (all_marks sigs) available) in
    elim (minus_all-cases every_mark sigs retained m here) [
      | inl shown ↦ greedy-keeps (length uncovered) uncovered sigs retained m shown
      | inr left ↦
          All-has_mark (Shown (greedy (length uncovered) uncovered sigs retained) sigs) uncovered m
            (greedy-Shown (length uncovered) uncovered sigs retained (omega arith) all_available)
            left
    ]
