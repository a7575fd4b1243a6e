-- ===== src/Precedence/Projections/Counter.antt =====
-- A Counter of names does not depend on their order.
use constitutional_agent_tes.Base.{
  ℕ, ◌≡◌, refl, sym, ◌∙◌, inl, inr, Bool-cases, true, false, [], ◌∷◌, arith, Text, same, same→eq,
  same_refl, same_sym, text_le,
}
use constitutional_agent_tes.Precedence.Projections.{Counts, count_name, same_counts}

pub text_le_total : (s t : Text) → text_le s t ≡ false → text_le t s ≡ true
unfolding text_le
text_le_total [] t h = cc
text_le_total (c ∷ s) [] h = refl
text_le_total (c ∷ s) (d ∷ t) h = ground (arith, text_le_total s t)

pub text_le_antisym : (s t : Text) → text_le s t ≡ true → text_le t s ≡ true → same s t ≡ true
unfolding text_le same
text_le_antisym [] [] h k = refl
text_le_antisym [] (d ∷ t) h k = cc
text_le_antisym (c ∷ s) [] h k = cc
text_le_antisym (c ∷ s) (d ∷ t) h k = ground (arith, text_le_antisym s t)

pub text_le_trans : (s t u : Text) → text_le s t ≡ true → text_le t u ≡ true → text_le s u ≡ true
unfolding text_le
text_le_trans [] t u h k = refl
text_le_trans (c ∷ s) [] u h k = cc
text_le_trans (c ∷ s) (d ∷ t) [] h k = cc
text_le_trans (c ∷ s) (d ∷ t) (e ∷ u) h k = ground (arith, text_le_trans s t u)

count_name_here :
    (x y : Text) (k : ℕ) (rest : Counts)
    → same x y ≡ false
    → count_name x (count_name y ((x, k) ∷ rest)) ≡ count_name y (count_name x ((x, k) ∷ rest))
unfolding count_name
count_name_here x y k rest apart =
    ground (arith, same_refl x, same_sym x y, text_le_total x y, text_le_antisym x y)

count_name_swap :
    (x y : Text) (counts : Counts)
    → same x y ≡ false
    → count_name x (count_name y counts) ≡ count_name y (count_name x counts)
unfolding count_name
count_name_swap x y [] apart = ground (arith, same_sym x y, text_le_total x y, text_le_antisym x y)
count_name_swap x y ((m, k) ∷ rest) apart = elim (Bool-cases (same m x)) [
  | inl e ↦ rw (same→eq m x e) (count_name_here x y k rest apart)
  | inr e ↦ elim (Bool-cases (same m y)) [
    | inl f ↦ rw (same→eq m y f) (sym (count_name_here y x k rest (sym (same_sym x y) ∙ apart)))
    | inr f ↦ ground (
      arith,
      same_sym x y,
      text_le_total x y,
      text_le_antisym x y,
      text_le_trans x y m,
      text_le_trans y x m,
      count_name_swap x y rest apart,
    )
  ]
]

pub count_name_comm :
    (x y : Text) (counts : Counts)
    → count_name x (count_name y counts) ≡ count_name y (count_name x counts)
count_name_comm x y counts = elim (Bool-cases (same x y)) [
  | inl e ↦ rw (same→eq x y e) refl
  | inr e ↦ count_name_swap x y counts e
]

pub same_counts_refl : (counts : Counts) → same_counts counts counts ≡ true
unfolding same_counts
same_counts_refl [] = refl
same_counts_refl ((m, k) ∷ rest) = ground (arith, same_refl m, same_counts_refl rest)
