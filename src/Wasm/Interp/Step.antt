-- ===== src/Wasm/Interp/Step.antt =====
-- The dispatch loop `run`, and the entry points `call` and `resume`.
pub mod Arms
pub mod Invariant
pub mod Division
mod Tests
use wasm_os.Base.{
  ℕ, zero, suc, ◌+◌, ◌-◌, ◌*◌, ◌%◌, ◌^◌, Bool, true, false, not, ◌&&◌, ◌||◌, List, [], ◌∷◌, ◌++◌,
  Option, none, some, ltb, leb, ◌==◌, if◌then◌else◌, get_elem?, get_or, set, drop, slice, length,
}
use wasm_os.Wasm.Leb.{read_i32_leb128, read_i64_leb128}
use wasm_os.Wasm.Interp.State.{
  Interpreter, Frame, BlockKind, block, loop, InterpError, malformed_code, unreachable,
  local_index_out_of_range, global_index_out_of_range, global_immutable, stack_underflow,
  division_by_zero, invalid_conversion, unknown_opcode, func_index_out_of_range, import_not_found,
  yielded, M, Res, ok, err, panic, hang, pure, fail, crash, ◌>>=◌, ◌>>◌, modify, gets, ok_or,
  fail_if, index, v_push, v_pop, current_frame, update_frame, set_pc, read_u32_at, page_size,
  low_word,
}
use wasm_os.Wasm.Interp.Num.{
  Numeric, unary, binary, partial, sext, low32, flag, comparisons32, comparisons64, arithmetic32,
  arithmetic64, conversions,
}
use wasm_os.Wasm.Interp.Control.{
  Next, advance, jumped, do_return, push_frame, enter_block, enter_if, leave_then, return_op,
  end_op, br_op, br_if_op, br_table_op, call_op, call_indirect_op,
}
use wasm_os.Wasm.Interp.Mem.{
  from_le_bytes, load_op, store_op, loads, stores, memory_size_op, memory_grow_op, memory_init_op,
  data_drop_op, memory_copy_op, memory_fill_op,
}

-- Floating-point hardware and the crate `libm`, on the bit patterns of `f32` and `f64`, by the
-- opcode of the instruction. `truncate` is `none` where the value is NaN or out of range;
-- `truncate_sat` goes by the number behind the 0xFC prefix.
pub record FloatOps : Type 0 where
  pub compare_f32 : ℕ → ℕ → ℕ → Bool
  pub compare_f64 : ℕ → ℕ → ℕ → Bool
  pub unary_f32 : ℕ → ℕ → ℕ
  pub unary_f64 : ℕ → ℕ → ℕ
  pub binary_f32 : ℕ → ℕ → ℕ → ℕ
  pub binary_f64 : ℕ → ℕ → ℕ → ℕ
  pub truncate : ℕ → ℕ → Option ℕ
  pub convert : ℕ → ℕ → ℕ
  pub truncate_sat : ℕ → ℕ → ℕ

-- The entry for an opcode in a table of instructions.
unfoldable pub find_op {ℓ} : {A : Type ℓ} → ℕ → List (ℕ × A) → Option A
find_op op [] = none
find_op op ((k, a) ∷ rest) = if k == op then some a else find_op op rest

unfoldable pub numeric_op : Numeric → ℕ → M Next
numeric_op (unary f) pc = do a ← v_pop; v_push (f a); pure (advance pc)
numeric_op (binary f) pc = do b ← v_pop; a ← v_pop; v_push (f a b); pure (advance pc)
numeric_op (partial f) pc = do
  b ← v_pop
  a ← v_pop
  r ← ok_or (f a b) division_by_zero
  v_push r
  pure (advance pc)

unfoldable pub numerics : List (ℕ × Numeric)
unfolding comparisons32 comparisons64 arithmetic32 arithmetic64 conversions
numerics = comparisons32 ++ (comparisons64 ++ (arithmetic32 ++ (arithmetic64 ++ conversions)))

unfoldable pub drop_op : ℕ → M Next
drop_op pc = do a ← v_pop; pure (advance pc)

unfoldable pub select_op : ℕ → M Next
select_op pc = do
  cond ← v_pop
  b ← v_pop
  a ← v_pop
  v_push (if not (cond == 0) then a else b)
  pure (advance pc)

-- The index of a local, checked against the frame.
unfoldable pub local_index : List ℕ → ℕ → M (ℕ × ℕ)
local_index body pc = do
  (idx, consumed) ← read_u32_at body pc
  frame ← gets current_frame
  fail_if (leb frame.local_count idx) local_index_out_of_range
  pure (idx, pc + consumed)

unfoldable pub set_local : ℕ → ℕ → Frame → Frame
set_local idx v f = record f { locals = set f.locals idx v }

unfoldable pub local_get_op : List ℕ → ℕ → M Next
unfolding local_index
local_get_op body pc = do
  (idx, pc') ← local_index body pc
  frame ← gets current_frame
  v ← index frame.locals idx
  v_push v
  pure (advance pc')

unfoldable pub local_set_op : List ℕ → ℕ → M Next
unfolding local_index set_local
local_set_op body pc = do
  (idx, pc') ← local_index body pc
  v ← v_pop
  modify (update_frame (set_local idx v))
  pure (advance pc')

unfoldable pub local_tee_op : List ℕ → ℕ → M Next
unfolding local_index set_local
local_tee_op body pc = do
  (idx, pc') ← local_index body pc
  s ← gets (λ s. s)
  fail_if (s.vsp == 0) stack_underflow
  modify (update_frame (set_local idx (get_or s.vstack (s.vsp - 1) 0)))
  pure (advance pc')

unfoldable pub global_get_op : List ℕ → ℕ → M Next
global_get_op body pc = do
  (idx, consumed) ← read_u32_at body pc
  s ← gets (λ s. s)
  fail_if (leb s.code.global_count idx) global_index_out_of_range
  v ← index s.globals idx
  v_push v
  pure (advance (pc + consumed))

unfoldable pub global_set_op : List ℕ → ℕ → M Next
global_set_op body pc = do
  (idx, consumed) ← read_u32_at body pc
  s ← gets (λ s. s)
  fail_if (leb s.code.global_count idx) global_index_out_of_range
  mutable ← index s.code.global_mutable idx
  fail_if (not mutable) global_immutable
  v ← v_pop
  modify (λ t. record t { globals = set t.globals idx v })
  pure (advance (pc + consumed))

unfoldable pub i32_const_op : List ℕ → ℕ → M Next
i32_const_op body pc = do
  (val, consumed) ← ok_or (read_i32_leb128 (drop pc body)) malformed_code
  v_push (sext 32 val)
  pure (advance (pc + consumed))

unfoldable pub i64_const_op : List ℕ → ℕ → M Next
i64_const_op body pc = do
  (val, consumed) ← ok_or (read_i64_leb128 (drop pc body)) malformed_code
  v_push val
  pure (advance (pc + consumed))

-- `f32.const` and `f64.const`: `n` bytes, lowest first.
unfoldable pub float_const_op : ℕ → List ℕ → ℕ → M Next
float_const_op n body pc = do
  fail_if (ltb (length body) (pc + n)) malformed_code
  v_push (from_le_bytes (slice body pc n))
  pure (advance (pc + n))

abbrev pub within : ℕ → ℕ → ℕ → Bool
within lo hi op = leb lo op && leb op hi

-- The floating-point instructions; `none` for any other opcode.
unfoldable pub float_numeric : FloatOps → ℕ → Option Numeric
float_numeric fp op =
    if within 0x5B 0x60 op
    then some (binary (λ a b. flag (fp.compare_f32 op (low32 a) (low32 b))))
    else if within 0x61 0x66 op
    then some (binary (λ a b. flag (fp.compare_f64 op a b)))
    else if within 0x8B 0x91 op
    then some (unary (λ a. fp.unary_f32 op (low32 a)))
    else if within 0x92 0x98 op
    then some (binary (λ a b. fp.binary_f32 op (low32 a) (low32 b)))
    else if within 0x99 0x9F op
    then some (unary (fp.unary_f64 op))
    else if within 0xA0 0xA6 op
    then some (binary (fp.binary_f64 op))
    else if within 0xB2 0xBB op
    then some (unary (fp.convert op))
    else none

unfoldable pub truncate_op : FloatOps → ℕ → ℕ → M Next
truncate_op fp op pc = do
  a ← v_pop
  r ← ok_or (fp.truncate op a) invalid_conversion
  v_push r
  pure (advance pc)

-- The instructions behind 0xFC.
unfoldable pub prefixed_op : FloatOps → List ℕ → ℕ → M Next
prefixed_op fp body pc = do
  (sub, consumed) ← read_u32_at body pc
  let pc' = pc + consumed
  if ltb sub 8
      then numeric_op (unary (fp.truncate_sat sub)) pc'
      else if sub == 8
      then memory_init_op body pc'
      else if sub == 9
      then data_drop_op body pc'
      else if sub == 10
      then memory_copy_op pc'
      else if sub == 11
      then memory_fill_op pc'
      else fail (unknown_opcode 0xFC)

-- The arms of the `match` that are neither arithmetic nor plain loads and stores.
unfoldable pub arms : FloatOps → ℕ → List ℕ → ℕ → List (ℕ × M Next)
arms fp body_idx body pc =
    (0x00, fail unreachable)
    ∷ (0x01, pure (advance pc))
    ∷ (0x02, enter_block block body_idx body pc)
    ∷ (0x03, enter_block loop body_idx body pc)
    ∷ (0x04, enter_if body_idx body pc)
    ∷ (0x05, leave_then)
    ∷ (0x0B, end_op pc)
    ∷ (0x0C, br_op body pc)
    ∷ (0x0D, br_if_op body pc)
    ∷ (0x0E, br_table_op body pc)
    ∷ (0x0F, return_op)
    ∷ (0x10, call_op body pc)
    ∷ (0x11, call_indirect_op body pc)
    ∷ (0x1A, drop_op pc)
    ∷ (0x1B, select_op pc)
    ∷ (0x20, local_get_op body pc)
    ∷ (0x21, local_set_op body pc)
    ∷ (0x22, local_tee_op body pc)
    ∷ (0x23, global_get_op body pc)
    ∷ (0x24, global_set_op body pc)
    ∷ (0x3F, memory_size_op pc)
    ∷ (0x40, memory_grow_op pc)
    ∷ (0x41, i32_const_op body pc)
    ∷ (0x42, i64_const_op body pc)
    ∷ (0x43, float_const_op 4 body pc)
    ∷ (0x44, float_const_op 8 body pc)
    ∷ (0xBD, pure (advance pc))
    ∷ (0xBE, pure (advance pc))
    ∷ (0xBF, pure (advance pc))
    ∷ (0xFC, prefixed_op fp body pc)
    ∷ []

-- Arithmetic on floats, conversions to integers, and any opcode that is left.
unfoldable pub float_op : FloatOps → ℕ → ℕ → M Next
float_op fp op pc = elim (float_numeric fp op) [
  | some f ↦ numeric_op f pc
  | none ↦
      if within 0xA8 0xAB op || within 0xAE 0xB1 op
      then truncate_op fp op pc
      else fail (unknown_opcode op)
]

unfoldable pub memory_op : FloatOps → List ℕ → ℕ → ℕ → M Next
unfolding float_op
memory_op fp body pc op = elim (find_op op loads) [
  | some (n, extend) ↦ load_op n extend body pc
  | none ↦ elim (find_op op stores) [ some n ↦ store_op n body pc | none ↦ float_op fp op pc ]
]

-- The `match` on the opcode; `pc` is just behind it.
unfoldable pub dispatch : FloatOps → ℕ → List ℕ → ℕ → ℕ → M Next
unfolding memory_op
dispatch fp body_idx body pc op = elim (find_op op (arms fp body_idx body pc)) [
  | some arm ↦ arm
  | none ↦ elim (find_op op numerics) [ some f ↦ numeric_op f pc | none ↦ memory_op fp body pc op ]
]

unfoldable pub count_opcode : Interpreter → Interpreter
count_opcode s = record s { opcode_count = (s.opcode_count + 1) % 2 ^ 64 }

unfoldable pub write_back : Next → M (Unit {0})
write_back (advance pc) = set_pc pc
write_back jumped = pure tt

-- One round of the loop, once the yield flag has been looked at.
unfoldable pub step : FloatOps → M (Unit {0})
unfolding count_opcode dispatch write_back
step fp s =
    let frame = current_frame s in
    let body = get_or s.code.bodies frame.body_idx [] in
    let op = get_or body frame.pc 0 in
    if leb (length body) frame.pc
    then do_return s
    else (modify count_opcode >> (dispatch fp frame.body_idx body (frame.pc + 1) op >>= write_back))
        s

-- How `run` ends; `out_of_fuel` is a run that has not ended.
pub data Outcome : Type 0 where
  finished : Interpreter → Outcome
  stopped : InterpError → Interpreter → Outcome
  crashed hanging out_of_fuel : Outcome

unfoldable pub run_loop : FloatOps → ℕ → Interpreter → Outcome
run_loop fp zero s = out_of_fuel
run_loop fp (suc fuel) s =
    let next : Outcome = elim (step fp s) [
      | ok _ s' ↦ run_loop fp fuel s'
      | err e s' ↦ stopped e s'
      | panic ↦ crashed
      | hang ↦ hanging
    ] in
    if leb s.fdepth s.shadow_stop_fdepth
    then finished s
    else if s.yield_requested
    then stopped yielded (record s { yield_requested = false })
    else next

unfoldable pub run : FloatOps → ℕ → Interpreter → Outcome
unfolding run_loop
run fp fuel s = run_loop fp fuel (record s { active_mem = s.current_pages * page_size })

unfoldable pub call : FloatOps → ℕ → ℕ → Interpreter → Outcome
unfolding run
call fp fuel func_idx s =
    let body_idx = func_idx - s.code.import_count in
    if ltb func_idx s.code.import_count
    then stopped import_not_found s
    else if leb s.code.body_count body_idx
    then stopped func_index_out_of_range s
    else elim (push_frame body_idx s) [
      | ok _ s' ↦ run fp fuel s'
      | err e s' ↦ stopped e s'
      | panic ↦ crashed
      | hang ↦ hanging
    ]

unfoldable pub resume : FloatOps → ℕ → Interpreter → Outcome
unfolding run
resume fp fuel s = run fp fuel s
