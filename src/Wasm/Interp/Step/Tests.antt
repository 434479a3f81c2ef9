-- ===== src/Wasm/Interp/Step/Tests.antt =====
-- Runs of small functions.
use wasm_os.Base.{
  ℕ, zero, suc, false, List, [], ◌∷◌, Option, none, some, replicate, get_or, All, ◌≡◌, refl, arith,
  set, take, slice, drop, overwrite, length-replicate, ◌%◌, ◌^◌,
}
use wasm_os.Wasm.Interp.State.{
  Interpreter, InterpError, division_by_zero, blank_frame, blank_ctrl, stack_depth, call_depth,
  max_ctrl_depth, max_globals, v_push, v_pop, set_pc, ok, read_u32_at, ◌>>◌, page_size,
}
use wasm_os.Wasm.Interp.Control.Laws.{do_return-results}
use wasm_os.Wasm.Interp.Mem.{to_le_bytes, read_memarg, load_op, store_op}
use wasm_os.Wasm.Interp.Control.{advance}
use wasm_os.Wasm.Leb.{read_u32_leb128}
use wasm_os.Wasm.Interp.Mem.Laws.{store_then_load}
use wasm_os.Wasm.Leb.{read_i32_leb128}
use wasm_os.Wasm.Interp.Control.{push_frame, pop_params, end_op, do_return}
use wasm_os.Wasm.Interp.Valid.{IsValid, IsFrame, blank_frame-IsFrame}
use wasm_os.Wasm.Interp.Step.{
  FloatOps, Outcome, finished, stopped, crashed, hanging, out_of_fuel, call, step, find_op, arms,
  i32_const_op, numerics, numeric_op,
}
use wasm_os.Wasm.Interp.Step.Invariant.{Leaves, call-Leaves}

-- A machine whose floating-point unit knows nothing but zero.
abbrev no_floats : FloatOps
no_floats = record {
  compare_f32 = λ op a b. false;
  compare_f64 = λ op a b. false;
  unary_f32 = λ op a. 0;
  unary_f64 = λ op a. 0;
  binary_f32 = λ op a b. 0;
  binary_f64 = λ op a b. 0;
  truncate = λ op a. none;
  convert = λ op a. 0;
  truncate_sat = λ op a. 0;
}

-- i32.const 40, i32.const 2, i32.add, end
abbrev sum_body : List ℕ
sum_body = 0x41 ∷ 40 ∷ 0x41 ∷ 2 ∷ 0x6A ∷ 0x0B ∷ []

-- i32.const 1, i32.const 0, i32.div_u, end
abbrev div_body : List ℕ
div_body = 0x41 ∷ 1 ∷ 0x41 ∷ 0 ∷ 0x6E ∷ 0x0B ∷ []

-- call 0, end
abbrev calling_body : List ℕ
calling_body = 0x10 ∷ 0 ∷ 0x0B ∷ []

abbrev bodies : List (List ℕ)
bodies = sum_body ∷ div_body ∷ calling_body ∷ []

-- Functions without parameters and with one result; one page of memory.
abbrev machine : Interpreter
machine = record {
  code = record {
    bodies = bodies;
    body_count = 3;
    local_counts = 0 ∷ 0 ∷ 0 ∷ [];
    type_param_counts = 0 ∷ [];
    type_result_counts = 1 ∷ [];
    type_count = 1;
    func_type_indices = 0 ∷ 0 ∷ 0 ∷ [];
    all_func_types = 0 ∷ 0 ∷ 0 ∷ [];
    import_count = 0;
    table = [];
    table_size = 0;
    global_mutable = [];
    global_count = 0;
    host_fns = [];
    jump_table = [];
    max_pages = 0;
  };
  vstack = replicate stack_depth 0;
  vsp = 0;
  frames = replicate call_depth blank_frame;
  fdepth = 0;
  ctrl = replicate max_ctrl_depth blank_ctrl;
  ctrl_depth = 0;
  globals = replicate max_globals 0;
  mem = [];
  current_pages = 0;
  active_mem = 0;
  yield_requested = false;
  shadow_stop_fdepth = 0;
  opcode_count = 0;
  func_call_count = [];
}

-- The value on top of the stack when the run has ended.
abbrev answer : Outcome → Option ℕ
answer (finished s) = some (get_or s.vstack 0 0)
answer (stopped e s) = none
answer crashed = none
answer hanging = none
answer out_of_fuel = none

abbrev error_of : Outcome → Option InterpError
error_of (finished s) = none
error_of (stopped e s) = some e
error_of crashed = none
error_of hanging = none
error_of out_of_fuel = none

run_sum : answer (call no_floats 5 0 machine) ≡ some 42
unfolding call push_frame pop_params step find_op arms i32_const_op read_i32_leb128 v_push set_pc
    numerics numeric_op v_pop end_op do_return
run_sum = refl

run_div : error_of (call no_floats 5 1 machine) ≡ some division_by_zero
unfolding call push_frame pop_params step find_op arms i32_const_op read_i32_leb128 v_push set_pc
    numerics numeric_op v_pop end_op do_return
run_div = refl

All-replicate {ℓ κ} : {A : Type ℓ} (P : A → Type κ) (n : ℕ) (a : A) → P a → All P (replicate n a)
All-replicate P zero a h = tt
All-replicate P (suc n) a h = (h, All-replicate P n a h)

machine-IsValid : IsValid machine
machine-IsValid = record {
  stack = record { size_eq = refl; bound = omega arith };
  frames = record { size_eq = refl; bound = omega arith };
  each_frame = All-replicate IsFrame call_depth blank_frame blank_frame-IsFrame;
  ctrl = record { size_eq = refl; bound = omega arith };
  globals_size = refl;
  memory = record { cached = refl; inside = omega arith };
  hosts = tt;
}

call-Leaves_example : Leaves (call no_floats 5 0 machine)
call-Leaves_example = call-Leaves no_floats 5 0 machine machine-IsValid

-- A machine that has just pushed its result, with two values above it.
abbrev returning : Interpreter
returning = record machine {
  vstack = 1 ∷ 2 ∷ 3 ∷ replicate 253 0;
  vsp = 3;
  frames = record blank_frame { vsp_base = 1; result_count = 1 } ∷ replicate 127 blank_frame;
  fdepth = 1;
}

returning-IsValid : IsValid returning
returning-IsValid = record {
  stack = record { size_eq = refl; bound = omega arith };
  frames = record { size_eq = refl; bound = omega arith };
  each_frame = (
    record {
      locals_size = refl;
      locals_bound = omega arith;
      ctrl_base_bound = omega arith;
      vsp_base_bound = omega arith;
    },
    All-replicate IsFrame 127 blank_frame blank_frame-IsFrame,
  );
  ctrl = record { size_eq = refl; bound = omega arith };
  globals_size = refl;
  memory = record { cached = refl; inside = omega arith };
  hosts = tt;
}

do_return-results_example :
    (t : Interpreter) × (do_return returning ≡ ok tt t)
    × (t.fdepth ≡ 0)
    × (t.ctrl_depth ≡ 0)
    × (t.vsp ≡ 2)
    × (take 1 t.vstack ≡ 1 ∷ [])
    × (slice t.vstack 1 1 ≡ 3 ∷ [])
do_return-results_example = do_return-results returning returning-IsValid (omega arith)

-- A machine with one page of memory.
abbrev paged : Interpreter
paged = record machine { mem = replicate page_size 0; current_pages = 1; active_mem = page_size }

paged-IsValid : IsValid paged
paged-IsValid = record {
  stack = record { size_eq = refl; bound = omega arith };
  frames = record { size_eq = refl; bound = omega arith };
  each_frame = All-replicate IsFrame call_depth blank_frame blank_frame-IsFrame;
  ctrl = record { size_eq = refl; bound = omega arith };
  globals_size = refl;
  memory = record { cached = refl; inside = omega (arith, length-replicate {A = ℕ} page_size 0) };
  hosts = tt;
}

-- An address and a value on the stack, and an access two bytes wide at the offset 4.
abbrev operands : Interpreter
operands = record paged { vstack = 8 ∷ 770 ∷ replicate 254 0; vsp = 2 }

operands-IsValid : IsValid operands
operands-IsValid = record {
  stack = record { size_eq = refl; bound = omega arith };
  frames = record { size_eq = refl; bound = omega arith };
  each_frame = All-replicate IsFrame call_depth blank_frame blank_frame-IsFrame;
  ctrl = record { size_eq = refl; bound = omega arith };
  globals_size = refl;
  memory = record { cached = refl; inside = omega (arith, length-replicate {A = ℕ} page_size 0) };
  hosts = tt;
}

abbrev access : List ℕ
access = 1 ∷ 4 ∷ []

access_lem : (t : Interpreter) → read_memarg access 0 t ≡ ok (4, 2) t
unfolding read_memarg read_u32_at read_u32_leb128
access_lem t = refl

abbrev stored : Interpreter
stored = record operands { vsp = 0; mem = overwrite operands.mem 12 (to_le_bytes 2 770) }

store_then_load_example :
    (store_op 2 access 0 operands ≡ ok (advance 2) stored)
    × ((v_push 8 >> load_op 2 (λ v. v) access 0) stored
        ≡ ok
            (advance 2)
            (record stored { vstack = set (set operands.vstack 0 8) 0 (770 % 256 ^ 2); vsp = 1 }))
    × (slice stored.mem 0 12 ≡ slice operands.mem 0 12)
    × (drop 14 stored.mem ≡ drop 14 operands.mem)
store_then_load_example =
    store_then_load 2 4 2 2 0 0 (λ v. v) access access operands operands-IsValid (omega arith)
      access_lem access_lem
