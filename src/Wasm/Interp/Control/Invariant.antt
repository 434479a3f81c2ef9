-- ===== src/Wasm/Interp/Control/Invariant.antt =====
-- The instructions on blocks, branches and calls on a well-formed interpreter.
use wasm_os.Base.{
  ℕ, zero, suc, ◌+◌, ◌-◌, List, Option, none, some, ltb, ◌==◌, arith, if◌then◌else◌, if_both,
}
use wasm_os.Wasm.Interp.State.{
  Interpreter, InterpError, BlockKind, HostFn, import_not_found, ok, err, pure, ok_or, ◌>>=◌, ◌>>◌,
  modify, current_frame, max_funcs,
}
use wasm_os.Wasm.Interp.Valid.{
  IsHost, IsSlot, IsValid, Keeps, Preserves, if-Keeps, >>=-Preserves, if-Preserves,
  read_u32_at-Preserves, pure-Preserves, index->>=-Preserves, modify-Preserves, preserves_rules,
}
use wasm_os.Wasm.Interp.Control.{
  jumped, find_block_end, enter_block, enter_if, leave_then, return_op, end_op, br_op, br_if_op,
  read_labels, br_table_op, count_call, run_host, enter_callee, call_op, call_indirect_op,
}
use wasm_os.Wasm.Interp.Control.Frames.{
  lower_ctrl-IsValid, do_return-Preserves, do_br-Preserves, push_frame-Preserves,
}

find_block_end-Preserves :
    (body_idx : ℕ) (body : List ℕ) (pc : ℕ) → Preserves (find_block_end body_idx body pc)
unfolding find_block_end Keeps
find_block_end-Preserves body_idx body pc = record { keeps = λ s h. ground arith }

ruleset control_rules = (
  preserves_rules, do_return-Preserves, do_br-Preserves, push_frame-Preserves,
  find_block_end-Preserves,
)

pub enter_block-Preserves :
    (kind : BlockKind) (i : ℕ) (body : List ℕ) (pc : ℕ) → Preserves (enter_block kind i body pc)
unfolding enter_block
enter_block-Preserves kind i body pc = search control_rules depth 20

pub enter_if-Preserves : (i : ℕ) (body : List ℕ) (pc : ℕ) → Preserves (enter_if i body pc)
unfolding enter_if
enter_if-Preserves i body pc = search control_rules depth 20

pub leave_then-Preserves : Preserves leave_then
unfolding leave_then Keeps
leave_then-Preserves = record {
  keeps = λ s h.
      if-Keeps (s.ctrl_depth == 0) _ _ (λ _. tt)
        λ _. lower_ctrl-IsValid (s.ctrl_depth - 1) s (omega (arith, h.ctrl.bound)) h;
}

pub return_op-Preserves : Preserves return_op
unfolding return_op
return_op-Preserves = search control_rules depth 20

pub end_op-Preserves : (pc : ℕ) → Preserves (end_op pc)
unfolding end_op Keeps
end_op-Preserves pc = record {
  keeps = λ s h.
      if-Keeps (ltb (current_frame s).ctrl_base s.ctrl_depth) _ _
        (λ _. lower_ctrl-IsValid (s.ctrl_depth - 1) s (omega (arith, h.ctrl.bound)) h)
        (λ _. return_op-Preserves.keeps s h);
}

pub br_op-Preserves : (body : List ℕ) (pc : ℕ) → Preserves (br_op body pc)
unfolding br_op
br_op-Preserves body pc = search control_rules depth 20

pub br_if_op-Preserves : (body : List ℕ) (pc : ℕ) → Preserves (br_if_op body pc)
unfolding br_if_op
br_if_op-Preserves body pc = search control_rules depth 20

read_labels-Preserves :
    (left k wanted : ℕ) (body : List ℕ) (pos target : ℕ)
    → Preserves (read_labels left k wanted body pos target)
unfolding read_labels
read_labels-Preserves zero k wanted body pos target = search control_rules depth 20
read_labels-Preserves (suc left) k wanted body pos target =
    >>=-Preserves (read_u32_at-Preserves body pos) λ r.
      read_labels-Preserves left (k + 1) wanted body (pos + r.1)
        (if k == wanted then r.0 else target)

pub br_table_op-Preserves : (body : List ℕ) (pc : ℕ) → Preserves (br_table_op body pc)
unfolding br_table_op
br_table_op-Preserves body pc = search (control_rules, read_labels-Preserves) depth 20

count_call-Preserves : (callee : ℕ) → Preserves (modify (count_call callee))
unfolding count_call
count_call-Preserves callee = modify-Preserves _ λ s h.
    if_both IsValid (ltb callee max_funcs)
      record {
        stack = h.stack;
        frames = h.frames;
        each_frame = h.each_frame;
        ctrl = h.ctrl;
        globals_size = h.globals_size;
        memory = h.memory;
        hosts = h.hosts;
      }
      h

host_end-Keeps :
    (e : Option InterpError) (s : Interpreter)
    → IsValid s
    → Keeps (elim e [ none ↦ ok tt s | some x ↦ err x s ])
unfolding Keeps
host_end-Keeps none s h = h
host_end-Keeps (some x) s h = h

run_host-Preserves : (f : HostFn) → IsHost f → Preserves (run_host f)
unfolding run_host Keeps IsHost
run_host-Preserves f k = record {
  keeps = λ s h.
      let r = f s.vstack s.vsp s.mem in
      let c = k s.vstack s.vsp s.mem h.stack.size_eq h.stack.bound in
      let s' : Interpreter = record s { vstack = r.vstack; vsp = r.vsp; mem = r.mem } in
      let v : IsValid s' = record {
        stack = record { size_eq = c.0; bound = c.1 };
        frames = h.frames;
        each_frame = h.each_frame;
        ctrl = h.ctrl;
        globals_size = h.globals_size;
        memory = record { cached = h.memory.cached; inside = omega (arith, c.2, h.memory.inside) };
        hosts = h.hosts;
      } in
      host_end-Keeps r.error s' v;
}

slot-Preserves :
    (entry : Option HostFn)
    → IsSlot entry
    → Preserves (ok_or entry import_not_found >>= λ host. run_host host >> pure jumped)
unfolding IsSlot
slot-Preserves none k = search preserves_rules
slot-Preserves (some f) k = >>=-Preserves (run_host-Preserves f k) (λ _. pure-Preserves jumped)

enter_callee-Preserves : (callee : ℕ) → Preserves (enter_callee callee)
unfolding enter_callee
enter_callee-Preserves callee = record {
  keeps = λ s h.
      (if-Preserves (ltb callee s.code.import_count)
          (index->>=-Preserves {P = IsSlot} s.code.host_fns callee _ h.hosts slot-Preserves)
          (search control_rules depth 20)).keeps
        s h;
}

pub call_op-Preserves : (body : List ℕ) (pc : ℕ) → Preserves (call_op body pc)
unfolding call_op
call_op-Preserves body pc =
    search (control_rules, count_call-Preserves, enter_callee-Preserves) depth 20

pub call_indirect_op-Preserves : (body : List ℕ) (pc : ℕ) → Preserves (call_indirect_op body pc)
unfolding call_indirect_op
call_indirect_op-Preserves body pc =
    search (control_rules, count_call-Preserves, enter_callee-Preserves) depth 20
