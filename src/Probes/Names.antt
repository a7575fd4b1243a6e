-- ===== src/Probes/Names.antt =====
-- The names that a wrong_value probe tries: one of 257 names is none of 256 values.
use constitutional_agent_tes.Base.{
  ℕ, zero, suc, ◌+◌, ◌≤◌, ◌≡◌, refl, ap, ◌⊎◌, inl, inr, Bool-cases, true, false, Option, none, some,
  List, [], ◌∷◌, ◌++◌, arith, if◌then◌else◌, Text, txt, same, same→eq, same_refl, same_sym, decimal,
  contains, distinct, all, length,
}
use constitutional_agent_tes.Json.{Value}
use constitutional_agent_tes.Json.Encode.{FloatText, canonical_json, iterencode, join, quote}
use constitutional_agent_tes.Evaluator.{value_markers, push_marker}
use constitutional_agent_tes.Evaluator.Satisfies.{Some, SameJson}
use constitutional_agent_tes.Probes.{probe_name, next_name}

-- The list without the first occurrence of a name.
remove : Text → List Text → List Text
remove x [] = []
remove x (y ∷ ys) = if same y x then ys else y ∷ remove x ys

length-remove :
    (x : Text) (ys : List Text) → contains ys x ≡ true → length ys ≡ suc (length (remove x ys))
unfolding remove contains
length-remove x [] h = cc
length-remove x (y ∷ ys) h = ground (arith, length-remove x ys)

contains-remove :
    (x z : Text) (ys : List Text)
    → same x z ≡ false
    → contains ys z ≡ true
    → contains (remove x ys) z ≡ true
unfolding remove contains
contains-remove x z [] apart h = cc
contains-remove x z (y ∷ ys) apart h = elim (Bool-cases (same y x)) [
  | inl e ↦ rw e (rw (same→eq y x e, apart) at h)
  | inr e ↦ rw e (elim (Bool-cases (same y z)) [
    | inl here ↦ rw here refl
    | inr later ↦ rw later (contains-remove x z ys apart (rw later at h))
  ])
]

all-remove :
    (x : Text) (xs ys : List Text)
    → contains xs x ≡ false
    → all (contains ys) xs ≡ true
    → all (contains (remove x ys)) xs ≡ true
unfolding contains
all-remove x [] ys fresh h = refl
all-remove x (z ∷ xs) ys fresh h =
    ground (arith, all-remove x xs ys, contains-remove x z ys, same_sym x z)

-- Distinct names that all occur in a list are no more than its members.
distinct-le-length :
    (xs ys : List Text) → distinct xs ≡ true → all (contains ys) xs ≡ true → length xs ≤ length ys
unfolding distinct
distinct-le-length [] ys d h = omega arith
distinct-le-length (x ∷ xs) ys d h =
    let fewer =
      distinct-le-length xs (remove x ys) (ground arith)
        (all-remove x xs ys (ground arith) (ground arith)) in
    omega (arith, fewer, length-remove x ys (ground arith))

-- The canonical text of a name, and those of the names from n on.
name_marker : ℕ → Text
name_marker n = quote (txt "synthetic-probe-" ++ decimal n) ++ []

name_markers : ℕ → ℕ → List Text
unfolding name_marker
name_markers n zero = []
name_markers n (suc count) = name_marker n ∷ name_markers (n + 1) count

names_distinct : distinct (name_markers 0 257) ≡ true
unfolding distinct name_markers name_marker quote decimal contains same
names_distinct = refl

length-name_markers : (n count : ℕ) → length (name_markers n count) ≡ count
unfolding name_markers
length-name_markers n zero = refl
length-name_markers n (suc count) = ap suc (length-name_markers (n + 1) count)

pushed : (t : Text) (ms : List Text) → contains (push_marker (some t) ms) t ≡ true
unfolding contains
pushed t ms = rw (same_refl t) refl

unpushed :
    (o : Option Text) (t : Text) (ms : List Text)
    → contains (push_marker o ms) t ≡ false
    → contains ms t ≡ false
unfolding contains
unpushed none t ms h = h
unpushed (some m) t ms h = ground arith

module _ ⦃repr : FloatText⦄ where
  canonical_json-probe_name : (n : ℕ) → canonical_json (probe_name n) ≡ some (name_marker n)
  unfolding canonical_json iterencode join name_marker
  canonical_json-probe_name n = refl

  -- A value whose canonical text is none of the markers.
  abbrev pub IsUnlisted : List Text → Value → Type 0
  IsUnlisted markers v = (t : Text) × (canonical_json v ≡ some t) × (contains markers t ≡ false)

  next_name-cases :
      (markers : List Text) (n count : ℕ)
      → ((v : Value) × (next_name markers n count ≡ some v) × IsUnlisted markers v)
        ⊎ (all (contains markers) (name_markers n count) ≡ true)
  unfolding next_name name_markers
  next_name-cases markers n zero = inr refl
  next_name-cases markers n (suc count) = elim (Bool-cases (contains markers (name_marker n))) [
    | inl listed ↦ elim (next_name-cases markers (n + 1) count) [
      | inl (v, found, unlisted) ↦
          inl (v, rw (canonical_json-probe_name n, next_name, listed) found, unlisted)
      | inr others ↦ inr (rw (listed, others) refl)
    ]
    | inr free ↦ inl (
      probe_name n,
      rw (canonical_json-probe_name n, next_name, free) refl,
      (name_marker n, canonical_json-probe_name n, free),
    )
  ]

  -- Of 257 names one is not among 256 markers.
  pub next_name-finds :
      (markers : List Text)
      → length markers ≤ 256
      → (v : Value) × (next_name markers 0 257 ≡ some v) × IsUnlisted markers v
  next_name-finds markers few = elim (next_name-cases markers 0 257) [
    | inl found ↦ found
    | inr listed ↦
        let crowd = distinct-le-length (name_markers 0 257) markers names_distinct listed in
        absurd (omega (arith, length-name_markers 0 257))
  ]

  pub length-value_markers : (vs : List Value) → length (value_markers vs) ≤ length vs
  unfolding value_markers
  length-value_markers [] = omega arith
  length-value_markers (v ∷ vs) = ground (arith, length-value_markers vs)

  -- A value that is not listed has the canonical text of no value.
  pub unlisted-differs :
      (vs : List Value) (v : Value) → IsUnlisted (value_markers vs) v → ¬ (Some (SameJson v) vs)
  unfolding value_markers contains
  unlisted-differs [] v u s = s
  unlisted-differs (w ∷ vs) v (t, e, free) s = elim s [
    | inl (u, ev, ew) ↦ cc (pushed t (value_markers vs), ev, ew, e, free)
    | inr later ↦
        unlisted-differs vs v (t, e, unpushed (canonical_json w) t (value_markers vs) free) later
  ]
