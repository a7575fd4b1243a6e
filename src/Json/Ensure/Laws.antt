-- ===== src/Json/Ensure/Laws.antt =====
-- What ensure_json_value accepts, stated on the value instead of the loop.
use constitutional_agent_tes.Base.{
  ℕ, ◌+◌, ◌≤◌, ◌≡◌, refl, sym, subst, ◌∙◌, ◌↔◌, true, false, [], ◌∷◌, arith, Bool, ◌&&◌,
  if◌then◌else◌, ltb, encodable, ok, err, Result,
}
use constitutional_agent_tes.Json.{
  Value, null, bool, int, float, str, arr, obj, other, Items, nil, cons, Fields, end, field,
}
use constitutional_agent_tes.Json.Float.{is_finite}
use constitutional_agent_tes.Json.Ensure.{
  JsonError, invalid_unicode, max_json_nesting, Stack, push_items, push_fields, visit,
}
use constitutional_agent_tes.Json.Ensure.Strict.{
  node_count, node_items, node_fields, nesting, nesting_items, nesting_fields, IsStrict,
  StrictItems, StrictFields,
}

-- What the loop needs of the values on its stack.
abbrev pub total : Stack → ℕ
total [] = 0
total ((v, d) ∷ stack) = node_count v + total stack

abbrev pub AllFit : Stack → Type 0
AllFit [] = Unit
AllFit ((v, d) ∷ stack) = IsStrict v × (d + nesting v ≤ max_json_nesting) × AllFit stack

total-push_items :
    (xs : Items) (d : ℕ) (stack : Stack)
    → total (push_items xs d stack) ≡ node_items xs + total stack
unfolding push_items node_count
total-push_items nil d stack = omega arith
total-push_items (cons v xs) d stack = omega (arith, total-push_items xs d ((v, d) ∷ stack))

AllFit-push_items :
    (xs : Items) (d : ℕ) (stack : Stack)
    → d ≤ max_json_nesting
    → AllFit (push_items xs d stack)
      ↔ (StrictItems xs × (d + nesting_items xs ≤ max_json_nesting) × AllFit stack)
unfolding push_items nesting
AllFit-push_items nil d stack h = (λ f. (tt, omega arith, f), λ f. f.2)
AllFit-push_items (cons v xs) d stack h =
    let ih = AllFit-push_items xs d ((v, d) ∷ stack) h in
    (
      λ f. let g = ih.0 f in ((g.2.0, g.0), omega arith, g.2.2),
      λ f. ih.1 (f.0.1, omega arith, (f.0.0, omega arith, f.2)),
    )

-- push_fields without its checks, and the checks.
abbrev pushed : Fields → ℕ → Stack → Stack
pushed end d stack = stack
pushed (field k v fs) d stack = pushed fs d ((v, d) ∷ stack)

abbrev keys_encodable : Fields → Bool
keys_encodable end = true
keys_encodable (field k v fs) = encodable k && keys_encodable fs

push_fields-pushed :
    (fs : Fields) (d : ℕ) (stack : Stack)
    → push_fields fs d stack
      ≡ (if keys_encodable fs then ok (pushed fs d stack) else err invalid_unicode)
unfolding push_fields
push_fields-pushed end d stack = refl
push_fields-pushed (field k v fs) d stack = ground (arith, push_fields-pushed fs d ((v, d) ∷ stack))

total-pushed :
    (fs : Fields) (d : ℕ) (stack : Stack) → total (pushed fs d stack) ≡ node_fields fs + total stack
unfolding node_count
total-pushed end d stack = omega arith
total-pushed (field k v fs) d stack = omega (arith, total-pushed fs d ((v, d) ∷ stack))

StrictFields-keys : (fs : Fields) → StrictFields fs → keys_encodable fs ≡ true
StrictFields-keys end s = refl
StrictFields-keys (field k v fs) s = ground (arith, StrictFields-keys fs s.2, s.0)

AllFit-pushed :
    (fs : Fields) (d : ℕ) (stack : Stack)
    → d ≤ max_json_nesting
    → keys_encodable fs ≡ true
    → AllFit (pushed fs d stack)
      ↔ (StrictFields fs × (d + nesting_fields fs ≤ max_json_nesting) × AllFit stack)
unfolding nesting
AllFit-pushed end d stack h e = (λ f. (tt, omega arith, f), λ f. f.2)
AllFit-pushed (field k v fs) d stack h e =
    let ih = AllFit-pushed fs d ((v, d) ∷ stack) h (ground arith) in
    (
      λ f. let g = ih.0 f in ((ground arith, g.2.0, g.0), omega arith, g.2.2),
      λ f. ih.1 (f.0.2, omega arith, (f.0.1, omega arith, f.2)),
    )

-- No value on the stack lies deeper than the limit.
abbrev pub AllShallow : Stack → Type 0
AllShallow [] = Unit
AllShallow ((v, d) ∷ stack) = (d ≤ max_json_nesting) × AllShallow stack

AllShallow-push_items :
    (xs : Items) (d : ℕ) (stack : Stack)
    → d ≤ max_json_nesting
    → AllShallow stack
    → AllShallow (push_items xs d stack)
unfolding push_items
AllShallow-push_items nil d stack h s = s
AllShallow-push_items (cons v xs) d stack h s = AllShallow-push_items xs d ((v, d) ∷ stack) h (h, s)

AllShallow-pushed :
    (fs : Fields) (d : ℕ) (stack : Stack)
    → d ≤ max_json_nesting
    → AllShallow stack
    → AllShallow (pushed fs d stack)
AllShallow-pushed end d stack h s = s
AllShallow-pushed (field k v fs) d stack h s = AllShallow-pushed fs d ((v, d) ∷ stack) h (h, s)

-- One visit removes one node, and the new stack fits exactly when the old one did.
pub record Visited (v : Value) (d : ℕ) (stack r : Stack) : Type 0 where
  pub counted : total r + 1 ≡ node_count v + total stack
  pub fits : AllFit r ↔ (IsStrict v × (d + nesting v ≤ max_json_nesting) × AllFit stack)
  pub shallow : AllShallow stack → AllShallow r

abbrev Returns : {A : Type 0} → Result JsonError A → A → Type 0
Returns r a = r ≡ ok a

ok-injective : {A : Type 0} (a b : A) → Returns (ok a) b → a ≡ b
ok-injective a b h = ground arith

Visited-scalar :
    (v : Value) (d : ℕ) (stack r : Stack)
    → d ≤ max_json_nesting
    → node_count v ≡ 1
    → nesting v ≡ 0
    → IsStrict v
    → Returns (ok stack) r
    → Visited v d stack r
Visited-scalar v d stack r h one flat strict e =
    subst (Visited v d stack) (ok-injective stack r e) (record {
      counted = omega arith;
      fits = (λ f. (strict, omega arith, f), λ f. f.2);
      shallow = λ s. s;
    })

guarded :
    {A : Type 0} (t : Bool) (a : A) (e : JsonError) {r : A}
    → (if t then ok a else err e) ≡ ok r
    → (t ≡ true) × Returns (ok a) r
guarded true a e h = (refl, h)
guarded false a e h = cc

within :
    {A : Type 0} (d : ℕ) (e : JsonError) (a : Result JsonError A) {r : A}
    → (if ltb max_json_nesting (d + 1) then err e else a) ≡ ok r
    → (d + 1 ≤ max_json_nesting) × (a ≡ ok r)
within d e a h = (ground arith, ground arith)

pub visit_sound :
    (v : Value) (d : ℕ) (stack r : Stack)
    → d ≤ max_json_nesting
    → visit v d stack ≡ ok r
    → Visited v d stack r
unfolding visit node_count nesting
visit_sound null d stack r h e = Visited-scalar null d stack r h refl refl tt e
visit_sound (bool b) d stack r h e = Visited-scalar (bool b) d stack r h refl refl tt e
visit_sound (int n) d stack r h e = Visited-scalar (int n) d stack r h refl refl tt e
visit_sound (float b) d stack r h e =
    let (good, same) = guarded (is_finite b) stack _ e in
    Visited-scalar (float b) d stack r h refl refl good same
visit_sound (str s) d stack r h e =
    let (good, same) = guarded (encodable s) stack _ e in
    Visited-scalar (str s) d stack r h refl refl good same
visit_sound (arr xs) d stack r h e =
    let (deep, same) = within d _ _ e in
    let items = AllFit-push_items xs (d + 1) stack deep in
    subst (Visited (arr xs) d stack) (ok-injective _ r same) (record {
      counted = omega (arith, total-push_items xs (d + 1) stack);
      fits = (
        (λ f. let g = items.0 f in (g.0, omega arith, g.2)),
        (λ f. items.1 (f.0, omega arith, f.2)),
      );
      shallow = AllShallow-push_items xs (d + 1) stack deep;
    })
visit_sound (obj fs) d stack r h e =
    let (deep, whole) = within d _ _ e in
    let (good, same) =
      guarded (keys_encodable fs) _ _ (sym (push_fields-pushed fs (d + 1) stack) ∙ whole) in
    let members = AllFit-pushed fs (d + 1) stack deep good in
    subst (Visited (obj fs) d stack) (ok-injective _ r same) (record {
      counted = omega (arith, total-pushed fs (d + 1) stack);
      fits = (
        (λ f. let g = members.0 f in (g.0, omega arith, g.2)),
        (λ f. members.1 (f.0, omega arith, f.2)),
      );
      shallow = AllShallow-pushed fs (d + 1) stack deep;
    })
visit_sound other d stack r h e = ground arith

-- A value that fits is visited without an error.
pub visit_complete :
    (v : Value) (d : ℕ) (stack : Stack)
    → IsStrict v
    → d + nesting v ≤ max_json_nesting
    → (r : Stack) × (visit v d stack ≡ ok r)
unfolding visit nesting
visit_complete null d stack s h = (stack, refl)
visit_complete (bool b) d stack s h = (stack, refl)
visit_complete (int n) d stack s h = (stack, refl)
visit_complete (float b) d stack s h = (stack, rw s)
visit_complete (str t) d stack s h = (stack, rw s)
visit_complete (arr xs) d stack s h = (push_items xs (d + 1) stack, ground arith)
visit_complete (obj fs) d stack s h = (
  pushed fs (d + 1) stack,
  rw (push_fields-pushed fs (d + 1) stack, StrictFields-keys fs s) (ground arith),
)
visit_complete other d stack s h = elim s [ ]
