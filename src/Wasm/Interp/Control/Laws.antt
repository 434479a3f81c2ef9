-- ===== src/Wasm/Interp/Control/Laws.antt =====
-- What a return leaves on the stack.
use wasm_os.Base.{
  ℕ, zero, suc, ◌+◌, ◌-◌, ◌≤◌, List, ◌∷◌, some, get_or, set, take, length, slice, length-set,
  drop-set_lt, take-set_self, take-take, get_or-take, slice-suc, get_or-set_self, ◌≡◌, refl, sym,
  ap, ap₂, ◌∙◌, arith,
}
use wasm_os.Wasm.Interp.State.{Interpreter, ok, current_frame}
use wasm_os.Wasm.Interp.Valid.{IsValid}
use wasm_os.Wasm.Interp.Control.{copy_results, do_return}

-- The stack with `n` values from `src` on moved down to `dst`.
record IsMoved (n src dst : ℕ) (stack out : List ℕ) : Type 0 where
  pub size : length out ≡ length stack
  pub below : take dst out ≡ take dst stack
  pub moved : slice out dst n ≡ slice stack src n

-- One value moved, and then the others.
move_first :
    (n src dst : ℕ) (stack out : List ℕ)
    → dst ≤ src
    → src + suc n ≤ length stack
    → IsMoved n (suc src) (suc dst) (set stack dst (get_or stack src 0)) out
    → IsMoved (suc n) src dst stack out
move_first n src dst stack out h k r = record {
  size = r.size ∙ length-set stack dst v;
  below =
      sym (take-take dst out)
      ∙ ap (take dst) r.below
      ∙ take-take dst (set stack dst v)
      ∙ take-set_self dst stack v;
  moved =
      slice-suc out dst n 0 (omega (arith, r.size, length-set stack dst v))
      ∙ ap₂ ◌∷◌ first (r.moved ∙ ap (take n) (drop-set_lt (suc src) stack dst v (omega arith)))
      ∙ sym (slice-suc stack src n 0 (omega arith));
}
  where
    v : ℕ
    v = get_or stack src 0

    first : get_or out dst 0 ≡ get_or stack src 0
    first =
        sym (get_or-take dst out 0)
        ∙ ap (λ xs. get_or xs dst 0) r.below
        ∙ get_or-take dst (set stack dst v) 0
        ∙ get_or-set_self stack dst v 0 (omega arith)

add_one : (n : ℕ) → n + 1 ≡ suc n
add_one n = omega arith

-- The values moved lie in the stack and do not go up, so that none is overwritten before it is read.
copy_results-IsMoved :
    (n src dst : ℕ) (stack : List ℕ)
    → dst ≤ src
    → src + n ≤ length stack
    → (out : List ℕ) × (copy_results n src dst stack ≡ some out) × IsMoved n src dst stack out
unfolding copy_results
copy_results-IsMoved zero src dst stack h k =
    (stack, refl, record { size = refl; below = refl; moved = refl })
copy_results-IsMoved (suc n) src dst stack h k =
    let v = get_or stack src 0 in
    let (out, e, r) =
      copy_results-IsMoved n (src + 1) (dst + 1) (set stack dst v) (omega arith)
        (omega (arith, length-set stack dst v)) in
    (
      out,
      ground (arith, e),
      move_first n src dst stack out h k (rw (add_one src, add_one dst) at r),
    )

-- In a well-formed state with as many values above the frame's base as the function has results, a
-- return succeeds: it drops the frame and its labels, leaves the values below the base alone, and
-- puts the topmost values, as many as the function has results, in their order on top of those.
pub do_return-results :
    (s : Interpreter)
    → IsValid s
    → (current_frame s).vsp_base + (current_frame s).result_count ≤ s.vsp
    → (t : Interpreter) × (do_return s ≡ ok tt t)
      × (t.fdepth ≡ s.fdepth - 1)
      × (t.ctrl_depth ≡ (current_frame s).ctrl_base)
      × (t.vsp ≡ (current_frame s).vsp_base + (current_frame s).result_count)
      × (take (current_frame s).vsp_base t.vstack ≡ take (current_frame s).vsp_base s.vstack)
      × (slice t.vstack (current_frame s).vsp_base (current_frame s).result_count
          ≡ slice s.vstack (s.vsp - (current_frame s).result_count) (current_frame s).result_count)
unfolding do_return
do_return-results s h k =
    let f = current_frame s in
    let (out, e, r) =
      copy_results-IsMoved f.result_count (s.vsp - f.result_count) f.vsp_base s.vstack (omega arith)
        (omega (arith, h.stack.bound, h.stack.size_eq)) in
    (
      record s {
        vstack = out;
        vsp = f.vsp_base + f.result_count;
        ctrl_depth = f.ctrl_base;
        fdepth = s.fdepth - 1;
      },
      rw (do_return, e) refl,
      refl,
      refl,
      refl,
      r.below,
      r.moved,
    )
