-- ===== src/Wasm/Interp/Control.antt =====
-- Calls, returns and branches: `push_frame`, `do_return`, `do_br`, and the instructions that open,
-- close or leave a block.
pub mod Frames
pub mod Laws
pub mod Invariant
use wasm_os.Base.{
  ℕ, zero, suc, ◌+◌, ◌-◌, Bool, not, ◌&&◌, ◌||◌, List, [], ◌∷◌, Option, none, some, ltb, leb, ◌==◌,
  if◌then◌else◌, get_elem?, get_or, set, drop, length,
}
use wasm_os.Wasm.Interp.Scan.{no_else, scan_block_end}
use wasm_os.Wasm.Interp.Jumps.{Lookup, hit, miss, spins, jump_lookup}
use wasm_os.Wasm.Interp.State.{
  Interpreter, Code, Frame, CtrlFrame, BlockKind, block, loop, if_block, HostFn, HostResult,
  InterpError, malformed_code, func_index_out_of_range, import_not_found, call_stack_overflow,
  too_many_locals, indirect_call_null, indirect_call_type_mismatch, unreachable, M, Res, ok, err,
  panic, hang, pure, fail, crash, ◌>>=◌, ◌>>◌, modify, gets, ok_or, index, fail_if, v_push, v_pop,
  ctrl_push, current_frame, update_frame, set_pc, read_u32_at, max_funcs, max_locals, call_depth,
  stack_depth, null_func, blank_ctrl, blank_frame, low_word,
}

-- What an instruction leaves to the loop: the program counter to write back, or nothing, where the
-- code says `continue 'outer`.
pub data Next : Type 0 where
  advance : ℕ → Next
  jumped : Next

-- `for i in 0..result_count { vstack[vsp_base + i] = vstack[src + i]; }`; `none` is an index out of
-- the stack.
unfoldable pub copy_results : ℕ → ℕ → ℕ → List ℕ → Option (List ℕ)
copy_results zero src dst stack = some stack
copy_results (suc n) src dst stack =
    let further = copy_results n (src + 1) (dst + 1) (set stack dst (get_or stack src 0)) in
    if leb (length stack) src || leb (length stack) dst then none else further

unfoldable pub do_return : M (Unit {0})
unfolding copy_results
do_return s =
    let frame = current_frame s in
    let src = s.vsp - frame.result_count in
    elim (copy_results frame.result_count src frame.vsp_base s.vstack) [
      | none ↦ panic
      | some stack ↦ ok tt (record s {
        vstack = stack;
        vsp = frame.vsp_base + frame.result_count;
        ctrl_depth = frame.ctrl_base;
        fdepth = s.fdepth - 1;
      })
    ]

-- The jump of a branch to the label in `ctrl[target_abs]`.
unfoldable pub branch_to : ℕ → CtrlFrame → BlockKind → Interpreter → Interpreter
branch_to target_abs cf loop s =
    update_frame (λ f. record f { pc = cf.pc_start }) (record s { ctrl_depth = target_abs + 1 })
branch_to target_abs cf block s =
    update_frame (λ f. record f { pc = cf.end_pc + 1 }) (record s { ctrl_depth = target_abs })
branch_to target_abs cf if_block s =
    update_frame (λ f. record f { pc = cf.end_pc + 1 }) (record s { ctrl_depth = target_abs })

-- A control depth below the frame's base makes the subtraction overflow.
unfoldable pub do_br : ℕ → M (Unit {0})
unfolding do_return branch_to
do_br n s =
    let base = (current_frame s).ctrl_base in
    let target_abs = s.ctrl_depth - 1 - n in
    let cf = get_or s.ctrl target_abs blank_ctrl in
    if ltb s.ctrl_depth base
    then panic
    else if leb (s.ctrl_depth - base) n
    then do_return s
    else ok tt (branch_to target_abs cf cf.kind s)

-- `for i in (0..param_count).rev() { frame.locals[i] = self.v_pop()?; }`
unfoldable pub pop_params : ℕ → List ℕ → M (List ℕ)
pop_params zero locals = pure locals
pop_params (suc i) locals = v_pop >>= λ v. pop_params i (set locals i v)

-- A function's counts of parameters and of results, by its type index.
unfoldable pub signature_counts : Code → ℕ → ℕ × ℕ
signature_counts c type_idx =
    if ltb type_idx c.type_count
    then (get_or c.type_param_counts type_idx 0, get_or c.type_result_counts type_idx 0)
    else (0, 0)

unfoldable pub push_frame : ℕ → M (Unit {0})
unfolding signature_counts
push_frame body_idx = do
  s ← gets (λ s. s)
  fail_if (leb call_depth s.fdepth) call_stack_overflow
  let counts = signature_counts s.code (get_or s.code.func_type_indices body_idx 0)
  let total = counts.0 + get_or s.code.local_counts body_idx 0
  fail_if (ltb max_locals total) too_many_locals
  locals ← pop_params counts.0 blank_frame.locals
  modify λ t. record t {
    frames = set t.frames t.fdepth (record {
      body_idx = body_idx;
      pc = 0;
      locals = locals;
      local_count = total;
      ctrl_base = s.ctrl_depth;
      vsp_base = t.vsp;
      result_count = counts.1;
    });
    fdepth = t.fdepth + 1;
  }

-- `self.jump_lookup(..).or_else(|| scan_block_end(..)).ok_or(MalformedCode)?`
unfoldable pub find_block_end : ℕ → List ℕ → ℕ → M (ℕ × ℕ)
find_block_end body_idx body pc_body s = elim (jump_lookup s.code.jump_table body_idx pc_body) [
  | hit e l ↦ ok (e, l) s
  | miss ↦ ok_or (scan_block_end body pc_body) malformed_code s
  | spins ↦ hang
]

-- `block` and `loop`
unfoldable pub enter_block : BlockKind → ℕ → List ℕ → ℕ → M Next
enter_block kind body_idx body pc = do
  (end_pc, else_pc) ← find_block_end body_idx body (pc + 1)
  ctrl_push (record { kind = kind; pc_start = pc + 1; end_pc = end_pc })
  pure (advance (pc + 1))

unfoldable pub enter_if : ℕ → List ℕ → ℕ → M Next
enter_if body_idx body pc = do
  (end_pc, else_pc) ← find_block_end body_idx body (pc + 1)
  cond ← v_pop
  let frame : CtrlFrame = record { kind = if_block; pc_start = pc + 1; end_pc = end_pc }
  if not (cond == 0)
      then (ctrl_push frame >> pure (advance (pc + 1)))
      else if not (else_pc == no_else)
      then (ctrl_push frame >> pure (advance (else_pc + 1)))
      else pure (advance (end_pc + 1))

-- `self.ctrl[self.ctrl_depth - 1]` with no block open is an index out of range.
unfoldable pub leave_then : M Next
leave_then s =
    if s.ctrl_depth == 0
    then panic
    else ok (advance ((get_or s.ctrl (s.ctrl_depth - 1) blank_ctrl).end_pc + 1))
        (record s { ctrl_depth = s.ctrl_depth - 1 })

unfoldable pub return_op : M Next
return_op = do_return >> pure jumped

unfoldable pub end_op : ℕ → M Next
unfolding return_op
end_op pc s =
    if ltb (current_frame s).ctrl_base s.ctrl_depth
    then ok (advance pc) (record s { ctrl_depth = s.ctrl_depth - 1 })
    else return_op s

unfoldable pub br_op : List ℕ → ℕ → M Next
br_op body pc = do (n, consumed) ← read_u32_at body pc; set_pc (pc + consumed); do_br n; pure jumped

unfoldable pub br_if_op : List ℕ → ℕ → M Next
br_if_op body pc = do
  (n, consumed) ← read_u32_at body pc
  cond ← v_pop
  if not (cond == 0)
      then (do set_pc (pc + consumed); do_br n; pure jumped)
      else pure (advance (pc + consumed))

-- The labels of a br_table from the `k`-th on, with `left` of them to read.
unfoldable pub read_labels : ℕ → ℕ → ℕ → List ℕ → ℕ → ℕ → M (ℕ × ℕ)
read_labels zero k wanted body pos target = pure (target, pos)
read_labels (suc left) k wanted body pos target = read_u32_at body pos >>= λ r.
    read_labels left (k + 1) wanted body (pos + r.1) (if k == wanted then r.0 else target)

unfoldable pub br_table_op : List ℕ → ℕ → M Next
br_table_op body pc = do
  (count, n) ← read_u32_at body pc
  v ← v_pop
  let i = low_word v
  (target, pos) ← read_labels (count + 1) 0 (if ltb i count then i else count) body (pc + n) 0
  set_pc pos
  do_br target
  pure jumped

-- `FUNC_CALL_COUNT[callee].saturating_add(1)`, for a callee in range
unfoldable pub count_call : ℕ → Interpreter → Interpreter
count_call callee s =
    let n = get_or s.func_call_count callee 0 in
    if ltb callee max_funcs
    then record s {
      func_call_count = set s.func_call_count callee (if n == null_func then n else n + 1);
    }
    else s

-- What the call of a host function leaves in the interpreter.
unfoldable pub run_host : HostFn → M (Unit {0})
run_host h s =
    let r = h s.vstack s.vsp s.mem in
    let s' = record s { vstack = r.vstack; vsp = r.vsp; mem = r.mem } in
    elim r.error [ none ↦ ok tt s' | some e ↦ err e s' ]

-- The call proper, once the program counter is written back.
unfoldable pub enter_callee : ℕ → M Next
unfolding run_host
enter_callee callee = do
  c ← gets (λ s. s.code)
  if ltb callee c.import_count
      then (do
        entry ← index c.host_fns callee
        host ← ok_or entry import_not_found
        run_host host
        pure jumped)
      else (do
        fail_if (leb c.body_count (callee - c.import_count)) func_index_out_of_range
        push_frame (callee - c.import_count)
        pure jumped)

unfoldable pub call_op : List ℕ → ℕ → M Next
unfolding count_call enter_callee
call_op body pc = do
  (callee, consumed) ← read_u32_at body pc
  modify (count_call callee)
  set_pc (pc + consumed)
  enter_callee callee

-- `usize::MAX` for a callee out of range, which no type index equals.
unfoldable pub type_of_callee : Code → ℕ → ℕ
type_of_callee c callee = if ltb callee max_funcs then get_or c.all_func_types callee 0 else no_else

unfoldable pub call_indirect_op : List ℕ → ℕ → M Next
unfolding count_call enter_callee type_of_callee
call_indirect_op body pc = do
  (expected_type, n1) ← read_u32_at body pc
  (table_idx, n2) ← read_u32_at body (pc + n1)
  v ← v_pop
  c ← gets (λ s. s.code)
  let i = low_word v
  let callee = get_or c.table i null_func
  fail_if (leb c.table_size i || callee == null_func) indirect_call_null
  modify (count_call callee)
  fail_if (not (type_of_callee c callee == expected_type)) indirect_call_type_mismatch
  set_pc (pc + n1 + n2)
  enter_callee callee
