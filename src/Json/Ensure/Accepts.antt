-- ===== src/Json/Ensure/Accepts.antt =====
-- ensure_json_value accepts exactly the strict values within the node and nesting limits.
use constitutional_agent_tes.Base.{ℕ, zero, suc, ◌≤◌, ◌≡◌, refl, ◌↔◌, [], ◌∷◌, arith, ok, >>=-eq-ok}
use constitutional_agent_tes.Json.{Value}
use constitutional_agent_tes.Json.Ensure.{
  max_json_nesting, max_json_nodes, Stack, visit, ensure_loop, ensure_json_value,
}
use constitutional_agent_tes.Json.Ensure.Strict.{node_count, node_count_pos, nesting, IsStrict}
use constitutional_agent_tes.Json.Ensure.Laws.{
  total, AllFit, AllShallow, visit_sound, visit_complete,
}

abbrev Fits : ℕ → Stack → Type 0
Fits left stack = (total stack ≤ left) × AllFit stack

loop_sound :
    (left : ℕ) (stack : Stack) → AllShallow stack → ensure_loop left stack ≡ ok tt → Fits left stack
unfolding ensure_loop
loop_sound zero [] s h = (omega arith, tt)
loop_sound zero (top ∷ stack) s h = ground arith
loop_sound (suc left) [] s h = (omega arith, tt)
loop_sound (suc left) ((v, d) ∷ stack) s h =
    let (r, visited, rest) = >>=-eq-ok (visit v d stack) (ensure_loop left) h in
    let step = visit_sound v d stack r s.0 visited in
    let (few, fit) = loop_sound left r (step.shallow s.1) rest in
    let one = step.counted in (omega arith, step.fits.0 fit)

loop_complete :
    (left : ℕ) (stack : Stack) → AllShallow stack → Fits left stack → ensure_loop left stack ≡ ok tt
unfolding ensure_loop
loop_complete zero [] s h = refl
loop_complete zero ((v, d) ∷ stack) s h = absurd (omega (arith, node_count_pos v))
loop_complete (suc left) [] s h = refl
loop_complete (suc left) ((v, d) ∷ stack) s (few, fit) =
    let (r, visited) = visit_complete v d stack fit.0 fit.1 in
    let step = visit_sound v d stack r s.0 visited in
    let one = step.counted in
    rw visited (loop_complete left r (step.shallow s.1) (omega arith, step.fits.1 fit))

-- ensure_json_value returns exactly on the trees of JSON types with encodable text and finite
-- numbers that have at most 100,000 nodes and at most 32 nested containers.
pub ensure_json_value-accepts :
    (v : Value)
    → (ensure_json_value v ≡ ok tt)
      ↔ ((node_count v ≤ max_json_nodes) × (nesting v ≤ max_json_nesting) × IsStrict v)
unfolding ensure_json_value
ensure_json_value-accepts v = (
  (λ h.
      let (few, fit) = loop_sound max_json_nodes ((v, 0) ∷ []) (omega arith, tt) h in
      (omega arith, omega arith, fit.0)),
  (λ h.
      loop_complete max_json_nodes ((v, 0) ∷ []) (omega arith, tt)
        (omega arith, (h.2, omega arith, tt))),
)
