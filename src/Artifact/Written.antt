-- ===== src/Artifact/Written.antt =====
-- stable_json and canonical_json raise on the same values.
use constitutional_agent_tes.Base.{
  ℕ, suc, ◌≡◌, refl, sym, ap, ◌∙◌, ◌↔◌, Bool, true, false, ◌||◌, Option, none, some, List, [], ◌∷◌,
  ◌++◌, arith, if◌then◌else◌, Text, txt, same, subst, ok, Option-cases, inl, inr, >>=-eq-ok,
  map_err,
}
use mathlib.Core.Option.{some-injective}
use constitutional_agent_tes.Json.{
  Value, null, bool, int, float, str, arr, obj, other, Items, nil, cons, Fields, end, field, member,
}
use constitutional_agent_tes.Json.Ensure.{ensure_json_value}
use constitutional_agent_tes.Json.Encode.{
  FloatText, Chunk, piece, failure, Members, insert_member, sort_members, member_chunks,
  object_chunks, iterencode, tail_chunks, encode_members, join, canonical_json,
}
use constitutional_agent_tes.Artifact.{
  indented_members, indented_object, indented, indented_tail, indented_fields, stable_json,
  within_limit, bounded_artifact, new_line,
}

-- Whether the encoder raises somewhere.
abbrev fails : List Chunk → Bool
fails [] = false
fails (failure ∷ cs) = true
fails (piece t ∷ cs) = fails cs

abbrev fails_members : Members → Bool
fails_members [] = false
fails_members ((k, cs) ∷ rest) = fails cs || fails_members rest

fails-append : (cs ds : List Chunk) → fails (cs ++ ds) ≡ (fails cs || fails ds)
fails-append [] ds = refl
fails-append (failure ∷ cs) ds = refl
fails-append (piece t ∷ cs) ds = fails-append cs ds

join-fails : (cs : List Chunk) {t : Text} → join cs ≡ some t → fails cs ≡ false
unfolding join
join-fails [] h = refl
join-fails (failure ∷ cs) h = cc
join-fails (piece s ∷ cs) h = elim (Option-cases (join cs)) [
  | inl e ↦ ground (arith, e)
  | inr (t, e) ↦ join-fails cs e
]

join_total : (cs : List Chunk) → fails cs ≡ false → (t : Text) × (join cs ≡ some t)
unfolding join
join_total [] h = (_, refl)
join_total (failure ∷ cs) h = cc
join_total (piece s ∷ cs) h = let (t, e) = join_total cs h in (s ++ t, rw e)

fails-insert_member :
    (k : Text) (cs : List Chunk) (ms : Members)
    → fails_members (insert_member k cs ms) ≡ (fails cs || fails_members ms)
unfolding insert_member
fails-insert_member k cs [] = refl
fails-insert_member k cs ((m, ds) ∷ rest) = ground (arith, fails-insert_member k cs rest)

fails-sort_members : (ms : Members) → fails_members (sort_members ms) ≡ fails_members ms
unfolding sort_members
fails-sort_members [] = refl
fails-sort_members ((k, cs) ∷ rest) =
    fails-insert_member k cs (sort_members rest) ∙ ap (λ b. fails cs || b) (fails-sort_members rest)

fails-member_chunks :
    (lead : Text) (ms : Members) → fails (member_chunks lead ms) ≡ fails_members ms
unfolding member_chunks
fails-member_chunks lead [] = refl
fails-member_chunks lead ((k, cs) ∷ rest) =
    fails-append cs (member_chunks (txt ",") rest)
    ∙ ap (λ b. fails cs || b) (fails-member_chunks (txt ",") rest)

fails-indented_members :
    (depth : ℕ) (lead : Text) (ms : Members)
    → fails (indented_members depth lead ms) ≡ fails_members ms
unfolding indented_members
fails-indented_members depth lead [] = refl
fails-indented_members depth lead ((k, cs) ∷ rest) =
    fails-append cs (indented_members depth (txt ",") rest)
    ∙ ap (λ b. fails cs || b) (fails-indented_members depth (txt ",") rest)

or_false : (b : Bool) → (b || false) ≡ b
or_false true = refl
or_false false = refl

fails-object_chunks : (ms : Members) → fails (object_chunks ms) ≡ fails_members ms
unfolding object_chunks
fails-object_chunks [] = refl
fails-object_chunks (m ∷ ms) =
    fails-append (member_chunks (txt "{") (sort_members (m ∷ ms))) (piece (txt "}") ∷ [])
    ∙ or_false _
    ∙ fails-member_chunks (txt "{") (sort_members (m ∷ ms))
    ∙ fails-sort_members (m ∷ ms)

fails-indented_object :
    (depth : ℕ) (ms : Members) → fails (indented_object depth ms) ≡ fails_members ms
unfolding indented_object
fails-indented_object depth [] = refl
fails-indented_object depth (m ∷ ms) =
    fails-append (indented_members (suc depth) (txt "{") (sort_members (m ∷ ms)))
      (piece (new_line depth) ∷ piece (txt "}") ∷ [])
    ∙ or_false _
    ∙ fails-indented_members (suc depth) (txt "{") (sort_members (m ∷ ms))
    ∙ fails-sort_members (m ∷ ms)

neither : (a b : Bool) → (a || b) ≡ false → (a ≡ false) × (b ≡ false)
neither true b h = cc
neither false b h = (refl, h)

module _ ⦃repr : FloatText⦄ where
  mutual
    unfolding indented iterencode

    fails-indented : (v : Value) (depth : ℕ) → fails (indented v depth) ≡ fails (iterencode v)
    fails-indented null depth = refl
    fails-indented (bool true) depth = refl
    fails-indented (bool false) depth = refl
    fails-indented (int n) depth = refl
    fails-indented (float b) depth = refl
    fails-indented (str s) depth = refl
    fails-indented (arr nil) depth = refl
    fails-indented (arr (cons v xs)) depth =
        fails-append (indented v (suc depth)) (indented_tail xs depth)
        ∙ ground (
          arith,
          fails-indented v (suc depth),
          fails-indented_tail xs depth,
          fails-append (iterencode v) (tail_chunks xs),
        )
    fails-indented (obj fs) depth =
        fails-indented_object depth (indented_fields fs depth)
        ∙ fails-indented_fields fs depth
        ∙ sym (fails-object_chunks (encode_members fs))
    fails-indented other depth = refl

    fails-indented_tail :
        (xs : Items) (depth : ℕ) → fails (indented_tail xs depth) ≡ fails (tail_chunks xs)
    fails-indented_tail nil depth = refl
    fails-indented_tail (cons v xs) depth =
        fails-append (indented v (suc depth)) (indented_tail xs depth)
        ∙ ground (
          arith,
          fails-indented v (suc depth),
          fails-indented_tail xs depth,
          fails-append (iterencode v) (tail_chunks xs),
        )

    fails-indented_fields :
        (fs : Fields) (depth : ℕ)
        → fails_members (indented_fields fs depth) ≡ fails_members (encode_members fs)
    fails-indented_fields end depth = refl
    fails-indented_fields (field k v fs) depth =
        ground (arith, fails-indented v (suc depth), fails-indented_fields fs depth)

  -- A value is written with an indent exactly when it has a canonical text.
  pub stable_json-canonical_json :
      (v : Value)
      → ((t : Text) × (stable_json v ≡ some t)) ↔ ((t : Text) × (canonical_json v ≡ some t))
  unfolding stable_json canonical_json
  stable_json-canonical_json v =
      let end_line = piece (0x0a ∷ []) ∷ [] in
      let both = fails-append (indented v 0) end_line ∙ or_false _ ∙ fails-indented v 0 in
      (
        (λ (t, e). join_total (iterencode v) (sym both ∙ join-fails (indented v 0 ++ end_line) e)),
        (λ (t, e). join_total (indented v 0 ++ end_line) (both ∙ join-fails (iterencode v) e)),
      )

  member-fails :
      (key : Text) (fs : Fields) {v : Value}
      → member key fs ≡ some v
      → fails_members (encode_members fs) ≡ false
      → fails (iterencode v) ≡ false
  unfolding member iterencode
  member-fails key end e h = cc
  member-fails key (field k w fs) {v} e h =
      found (same k key) (member-fails key fs) e
        (neither (fails (iterencode w)) (fails_members (encode_members fs)) h)
    where
      found :
          (b : Bool)
          → (member key fs ≡ some v
              → fails_members (encode_members fs) ≡ false
              → fails (iterencode v) ≡ false)
          → (if b then some w else member key fs) ≡ some v
          → (fails (iterencode w) ≡ false) × (fails_members (encode_members fs) ≡ false)
          → fails (iterencode v) ≡ false
      found true rest own h = subst (λ x. fails (iterencode x) ≡ false) (some-injective w v own) h.0
      found false rest later h = rest later h.1

  within_limit-eq-ok : (o : Option Text) → within_limit o ≡ ok tt → (t : Text) × (o ≡ some t)
  within_limit-eq-ok none h = cc
  within_limit-eq-ok (some t) h = (t, refl)

  -- Each member of a dict that is accepted as an artifact has a canonical text.
  pub bounded_artifact-member :
      (key : Text) (fs : Fields) {v : Value}
      → bounded_artifact (obj fs) ≡ ok tt
      → member key fs ≡ some v
      → (t : Text) × (canonical_json v ≡ some t)
  unfolding bounded_artifact canonical_json
  bounded_artifact-member key fs {v} h e =
      let (done, checked, rest) = >>=-eq-ok (map_err _ (ensure_json_value (obj fs))) _ h in
      let (t, written) =
        (stable_json-canonical_json (obj fs)).0 (within_limit-eq-ok (stable_json (obj fs)) rest) in
      join_total (iterencode v) (
        member-fails key fs e (
          unfold iterencode in
          sym (fails-object_chunks (encode_members fs)) ∙ join-fails (iterencode (obj fs)) written))
