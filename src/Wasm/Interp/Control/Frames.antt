-- ===== src/Wasm/Interp/Control/Frames.antt =====
-- Frames pushed and dropped, and jumps to labels, on a well-formed interpreter.
use wasm_os.Base.{
  ℕ, zero, suc, ◌+◌, ◌-◌, ◌≤◌, List, Option, none, some, ltb, leb, ◌==◌, get_or, set, length,
  length-set, All-set, ◌≡◌, refl, ◌∙◌, arith, ◌<◌,
}
use wasm_os.Wasm.Interp.State.{
  Interpreter, Frame, CtrlFrame, BlockKind, block, loop, if_block, ok, panic, M, after, ◌>>=◌,
  current_frame, stack_depth, call_depth, max_ctrl_depth, max_locals, blank_frame, blank_ctrl,
  v_pop, call_stack_overflow, too_many_locals,
}
use wasm_os.Wasm.Interp.Valid.{
  IsFrame, IsValid, Keeps, Preserves, if-Keeps, if_in-Keeps, fail_if-Keeps, set-IsArray,
  move-IsArray, current_frame-IsFrame, update_frame-IsValid, set_pc-IsFrame,
}
use wasm_os.Wasm.Interp.Control.{
  copy_results, do_return, branch_to, do_br, pop_params, signature_counts, push_frame,
}

-- Copying keeps the size of the stack, and copies nothing past it.
copy_results-length :
    (n src dst : ℕ) (stack out : List ℕ)
    → dst ≤ length stack
    → copy_results n src dst stack ≡ some out
    → (length out ≡ length stack) × (dst + n ≤ length stack)
unfolding copy_results
copy_results-length zero src dst stack out h e = ground arith
copy_results-length (suc n) src dst stack out h e = ground (
  arith,
  length-set stack dst (get_or stack src 0),
  copy_results-length n (src + 1) (dst + 1) (set stack dst (get_or stack src 0)) out,
)

returned-IsValid :
    (s : Interpreter) (copied : Option (List ℕ)) (f : Frame)
    → IsValid s
    → IsFrame f
    → ((out : List ℕ)
        → copied ≡ some out
        → (length out ≡ length s.vstack) × (f.vsp_base + f.result_count ≤ length s.vstack))
    → Keeps (elim copied [
      | none ↦ panic
      | some stack ↦ ok tt (record s {
        vstack = stack;
        vsp = f.vsp_base + f.result_count;
        ctrl_depth = f.ctrl_base;
        fdepth = s.fdepth - 1;
      })
    ])
unfolding Keeps
returned-IsValid s none f h k c = tt
returned-IsValid s (some out) f h k c = record {
  stack = record {
    size_eq = (c out refl).0 ∙ h.stack.size_eq;
    bound = omega (arith, (c out refl).1, h.stack.size_eq);
  };
  frames = move-IsArray (s.fdepth - 1) (omega (arith, h.frames.bound)) h.frames;
  each_frame = h.each_frame;
  ctrl = move-IsArray f.ctrl_base k.ctrl_base_bound h.ctrl;
  globals_size = h.globals_size;
  memory = h.memory;
  hosts = h.hosts;
}

pub do_return-Preserves : Preserves do_return
unfolding do_return
do_return-Preserves = record {
  keeps = λ s h.
      let f = current_frame s in
      let k = current_frame-IsFrame s h in
      returned-IsValid s (copy_results f.result_count (s.vsp - f.result_count) f.vsp_base s.vstack)
        f h k
        (λ out.
          copy_results-length f.result_count (s.vsp - f.result_count) f.vsp_base s.vstack out
            (omega (arith, k.vsp_base_bound, h.stack.size_eq)));
}

pub lower_ctrl-IsValid :
    (n : ℕ) (s : Interpreter)
    → n ≤ max_ctrl_depth
    → IsValid s
    → IsValid (record s { ctrl_depth = n })
lower_ctrl-IsValid n s k h = record {
  stack = h.stack;
  frames = h.frames;
  each_frame = h.each_frame;
  ctrl = move-IsArray n k h.ctrl;
  globals_size = h.globals_size;
  memory = h.memory;
  hosts = h.hosts;
}

branch_to-IsValid :
    (n : ℕ) (cf : CtrlFrame) (kind : BlockKind) (s : Interpreter)
    → n + 1 ≤ max_ctrl_depth
    → IsValid s
    → IsValid (branch_to n cf kind s)
unfolding branch_to
branch_to-IsValid n cf loop s k h =
    update_frame-IsValid (λ f. record f { pc = cf.pc_start }) (record s { ctrl_depth = n + 1 })
      (set_pc-IsFrame cf.pc_start) (lower_ctrl-IsValid (n + 1) s k h)
branch_to-IsValid n cf block s k h =
    update_frame-IsValid (λ f. record f { pc = cf.end_pc + 1 }) (record s { ctrl_depth = n })
      (set_pc-IsFrame (cf.end_pc + 1)) (lower_ctrl-IsValid n s (omega arith) h)
branch_to-IsValid n cf if_block s k h =
    update_frame-IsValid (λ f. record f { pc = cf.end_pc + 1 }) (record s { ctrl_depth = n })
      (set_pc-IsFrame (cf.end_pc + 1)) (lower_ctrl-IsValid n s (omega arith) h)

pub do_br-Preserves : (n : ℕ) → Preserves (do_br n)
unfolding do_br Keeps
do_br-Preserves n = record {
  keeps = λ s h.
      if-Keeps (ltb s.ctrl_depth (current_frame s).ctrl_base) _ _ (λ _. tt)
        λ _.
          if-Keeps (leb (s.ctrl_depth - (current_frame s).ctrl_base) n) _ _
            (λ _. do_return-Preserves.keeps s h)
            λ near.
              branch_to-IsValid (s.ctrl_depth - 1 - n)
                (get_or s.ctrl (s.ctrl_depth - 1 - n) blank_ctrl)
                (get_or s.ctrl (s.ctrl_depth - 1 - n) blank_ctrl).kind s
                (ground (arith, h.ctrl.bound)) h;
}

move_stack-IsValid :
    (n : ℕ) (s : Interpreter) → n ≤ stack_depth → IsValid s → IsValid (record s { vsp = n })
move_stack-IsValid n s k h = record {
  stack = move-IsArray n k h.stack;
  frames = h.frames;
  each_frame = h.each_frame;
  ctrl = h.ctrl;
  globals_size = h.globals_size;
  memory = h.memory;
  hosts = h.hosts;
}

entered-IsValid :
    (body_idx total results : ℕ) (locals : List ℕ) (v : ℕ) (s : Interpreter)
    → IsValid s
    → length locals ≡ max_locals
    → v ≤ stack_depth
    → total ≤ max_locals
    → s.fdepth < call_depth
    → IsValid (record s {
      vsp = v;
      frames = set s.frames s.fdepth (record {
        body_idx = body_idx;
        pc = 0;
        locals = locals;
        local_count = total;
        ctrl_base = s.ctrl_depth;
        vsp_base = v;
        result_count = results;
      });
      fdepth = s.fdepth + 1;
    })
entered-IsValid body_idx total results locals v s h e vb tb fb = record {
  stack = move-IsArray v vb h.stack;
  frames = move-IsArray (s.fdepth + 1) (omega arith) (set-IsArray s.fdepth _ h.frames);
  each_frame = All-set IsFrame s.frames s.fdepth _ h.each_frame (record {
    locals_size = e;
    locals_bound = tb;
    ctrl_base_bound = h.ctrl.bound;
    vsp_base_bound = vb;
  });
  ctrl = h.ctrl;
  globals_size = h.globals_size;
  memory = h.memory;
  hosts = h.hosts;
}

-- Popping the arguments moves the stack pointer only, and keeps the number of locals.
pop_params-Keeps :
    {A : Type 0} (n : ℕ) (locals : List ℕ) (s : Interpreter) (f : List ℕ → M A)
    → IsValid s
    → ((out : List ℕ) (v : ℕ)
        → length out ≡ length locals
        → v ≤ s.vsp
        → Keeps (f out (record s { vsp = v })))
    → Keeps ((pop_params n locals >>= f) s)
unfolding pop_params Keeps v_pop
pop_params-Keeps zero locals s f h k = k locals s.vsp refl (omega arith)
pop_params-Keeps (suc n) locals s f h k =
    if_in-Keeps (λ r. after (after r (λ v. pop_params n (set locals n v))) f) (s.vsp == 0) _ _
      (λ _. h)
      λ some_left.
        pop_params-Keeps n (set locals n (get_or s.vstack (s.vsp - 1) 0))
          (record s { vsp = s.vsp - 1 }) f
          (move_stack-IsValid (s.vsp - 1) s (omega (arith, h.stack.bound)) h)
          (λ out v e le.
            k out v (e ∙ length-set locals n (get_or s.vstack (s.vsp - 1) 0)) (omega arith))

pub push_frame-Preserves : (body_idx : ℕ) → Preserves (push_frame body_idx)
unfolding push_frame Keeps
push_frame-Preserves body_idx = record {
  keeps = λ s h.
      let counts = signature_counts s.code (get_or s.code.func_type_indices body_idx 0) in
      let total = counts.0 + get_or s.code.local_counts body_idx 0 in
      fail_if-Keeps (leb call_depth s.fdepth) call_stack_overflow _ s h λ shallow.
        fail_if-Keeps (ltb max_locals total) too_many_locals _ s h λ few.
          pop_params-Keeps counts.0 blank_frame.locals s _ h λ out v e le.
            entered-IsValid body_idx total counts.1 out v s h e (omega (arith, h.stack.bound))
              (ground arith) (ground arith);
}
