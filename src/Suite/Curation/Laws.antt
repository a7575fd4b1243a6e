-- ===== src/Suite/Curation/Laws.antt =====
-- What shard_suite keeps, by position.
use constitutional_agent_tes.Base.{
  ℕ, zero, suc, ◌+◌, ◌-◌, ◌*◌, ◌≤◌, ◌<◌, ◌≡◌, refl, ap, subst, Bool, true, false, ◌&&◌, Option,
  none, some, List, [], ◌∷◌, arith, leb, ltb, Text, txt, length, get_elem?, ok, >>=-eq-ok,
  ok-injective, pos, Bool-cases, inl, inr, if◌then◌else◌,
}
use mathlib.Core.Option.{some-injective}
use constitutional_agent_tes.Json.{Value, null, int, obj, Fields, member}
use constitutional_agent_tes.Json.Encode.{FloatText}
use constitutional_agent_tes.Artifact.{bounded_artifact}
use constitutional_agent_tes.Precedence.Result.{exact_keys}
use constitutional_agent_tes.Suite.{Case, Suite, suite_value}
use constitutional_agent_tes.Suite.Validate.{validate_suite}
use constitutional_agent_tes.Suite.Curation.{
  every, read_partition, partition_of, shard_of, shard_suite,
}

every-position :
    (wait step : ℕ) (cases : List Case) (j : ℕ)
    → 1 ≤ step
    → get_elem? (every wait step cases) j ≡ get_elem? cases (wait + step * j)
unfolding every
every-position wait step [] j h = refl
every-position zero step (c ∷ cases) zero h = let e : 0 + step * 0 ≡ 0 = omega arith in rw e
every-position zero step (c ∷ cases) (suc j) h =
    let e : 0 + step * suc j ≡ suc (step - 1 + step * j) = omega (arith, h) in
    rw e (every-position (step - 1) step cases j h)
every-position (suc wait) step (c ∷ cases) j h =
    let e : suc wait + step * j ≡ suc (wait + step * j) = omega arith in
    rw e (every-position wait step cases j h)

abbrev partition_keys : List Text
partition_keys = txt "index" ∷ txt "count" ∷ []

-- A partition that is read has 1 ≤ count ≤ size and index < count.
abbrev pub GoodPartition : ℕ → ℕ × ℕ → Type 0
GoodPartition size x = (1 ≤ x.1) × (x.1 ≤ size) × (x.0 < x.1)

if-eq-some :
    {A : Type 0} (t : Bool) (a : A) {b : A}
    → (if t then some a else none) ≡ some b
    → (t ≡ true) × (a ≡ b)
if-eq-some true a h = (refl, some-injective a _ h)
if-eq-some false a h = cc

-- Two fields hold the index and the count.
abbrev Holds : Option Value → Option Value → ℕ × ℕ → Type 0
Holds a b x = (a ≡ some (int (pos x.0))) × (b ≡ some (int (pos x.1)))

read_partition-GoodPartition :
    (size : ℕ) (a b : Option Value) {x : ℕ × ℕ}
    → read_partition size a b ≡ some x
    → Holds a b x × GoodPartition size x
read_partition-GoodPartition size (some (int (pos index))) (some (int (pos count))) h =
    let (t, e) = if-eq-some (leb 1 count && leb count size && ltb index count) (index, count) h in
    subst (λ x. Holds (some (int (pos index))) (some (int (pos count))) x × GoodPartition size x) e
      ((refl, refl), (ground arith, ground arith, ground arith))
read_partition-GoodPartition size none b h = cc
read_partition-GoodPartition size a b h = cc

-- The object has the fields "index" and "count", with these integers.
abbrev pub Declares : Value → ℕ × ℕ → Type 0
Declares v x =
    (fs : Fields) × (v ≡ obj fs)
    × (member (txt "index") fs ≡ some (int (pos x.0)))
    × (member (txt "count") fs ≡ some (int (pos x.1)))

partition_of-GoodPartition :
    (size : ℕ) (v : Value) {x : ℕ × ℕ}
    → partition_of size v ≡ some x
    → Declares v x × GoodPartition size x
partition_of-GoodPartition size (obj fs) h = elim (Bool-cases (exact_keys fs partition_keys)) [
  | inl e ↦
      let (holds, good) =
        read_partition-GoodPartition size (member (txt "index") fs) (member (txt "count") fs)
          (rw (partition_of, e) at h) in
      ((fs, refl, holds.0, holds.1), good)
  | inr e ↦ cc (
    ap
        (λ (b : Bool).
          if b
          then read_partition size (member (txt "index") fs) (member (txt "count") fs)
          else none)
        e,
    h,
  )
]
partition_of-GoodPartition size null h = cc
partition_of-GoodPartition size _ h = cc

module _ ⦃repr : FloatText⦄ where
  -- The cases that a suite keeps of another one: every `count`-th case from `index` on.
  pub record Shard (whole part : Suite) (index count : ℕ) : Type 0 where
    pub partition : GoodPartition (length whole.cases) (index, count)
    pub version : part.suite_version ≡ whole.suite_version
    pub position : (j : ℕ) → get_elem? part.cases j ≡ get_elem? whole.cases (index + count * j)

  shard_of-Shard :
      (s : Suite) (partition : Value) (o : Option (ℕ × ℕ)) {out : Suite}
      → ((x : ℕ × ℕ) → o ≡ some x → Declares partition x × GoodPartition (length s.cases) x)
      → shard_of s o ≡ ok out
      → (index : ℕ) × (count : ℕ) × Declares partition (index, count) × Shard s out index count
  shard_of-Shard s partition none good h = cc
  shard_of-Shard s partition (some (index, count)) good h =
      let (_, _, h1) =
        >>=-eq-ok (bounded_artifact (suite_value (record s { cases = every index count s.cases })))
          _ h in
      let (declares, limits) = good (index, count) refl in
      (
        index,
        count,
        declares,
        subst (λ out. Shard s out index count) (ok-injective _ _ h1)
            (record {
              partition = limits;
              version = refl;
              position = λ j. every-position index count s.cases j limits.0;
            }),
      )

  -- A shard that is returned holds the cases at positions index, index + count, index + 2 count and so
  -- on of the validated suite, in their order, for the index and the count that the partition object
  -- declares, with 1 ≤ count ≤ the number of cases and index < count.
  pub shard_suite-Shard :
      (suite : Value) (partition : Value) {out : Suite}
      → shard_suite suite partition ≡ ok out
      → (s : Suite) × (validate_suite suite ≡ ok s)
        × ((index : ℕ) × (count : ℕ) × Declares partition (index, count) × Shard s out index count)
  unfolding shard_suite
  shard_suite-Shard suite partition h =
      let (s, hs, h1) = >>=-eq-ok (validate_suite suite) _ h in
      let (_, _, h2) = >>=-eq-ok (bounded_artifact partition) _ h1 in
      (
        s,
        hs,
        (shard_of-Shard s partition (partition_of (length s.cases) partition)
            (λ x e. partition_of-GoodPartition (length s.cases) partition e) h2),
      )
