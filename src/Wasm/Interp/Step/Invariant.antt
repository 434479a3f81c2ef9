-- ===== src/Wasm/Interp/Step/Invariant.antt =====
-- The loop and the calls on a well-formed interpreter.
use wasm_os.Base.{ℕ, zero, suc, ◌*◌, ltb, leb, refl, arith, false, if_both, ◌-◌}
use wasm_os.Wasm.Interp.State.{Interpreter, Res, ok, err, panic, hang, page_size}
use wasm_os.Wasm.Interp.Valid.{IsValid, Keeps}
use wasm_os.Wasm.Interp.Control.{push_frame}
use wasm_os.Wasm.Interp.Control.Frames.{push_frame-Preserves}
use wasm_os.Wasm.Interp.Step.{
  FloatOps, step, Outcome, finished, stopped, crashed, hanging, out_of_fuel, run_loop, run, call,
}
use wasm_os.Wasm.Interp.Step.Arms.{step-Preserves}

-- A run that has ended, normally or with an error, has left a well-formed state.
pub Leaves : Outcome → Type 0
Leaves (finished s) = IsValid s
Leaves (stopped e s) = IsValid s
Leaves crashed = Unit
Leaves hanging = Unit
Leaves out_of_fuel = Unit

go_on-Leaves :
    (r : Res (Unit {0})) (k : Interpreter → Outcome)
    → Keeps r
    → ((s : Interpreter) → IsValid s → Leaves (k s))
    → Leaves
        (elim r [ ok _ s' ↦ k s' | err e s' ↦ stopped e s' | panic ↦ crashed | hang ↦ hanging ])
unfolding Leaves Keeps
go_on-Leaves (ok a s) k h j = j s h
go_on-Leaves (err e s) k h j = h
go_on-Leaves panic k h j = tt
go_on-Leaves hang k h j = tt

lower_flag-IsValid : (s : Interpreter) → IsValid s → IsValid (record s { yield_requested = false })
lower_flag-IsValid s h = record {
  stack = h.stack;
  frames = h.frames;
  each_frame = h.each_frame;
  ctrl = h.ctrl;
  globals_size = h.globals_size;
  memory = h.memory;
  hosts = h.hosts;
}

run_loop-Leaves :
    (fp : FloatOps) (fuel : ℕ) (s : Interpreter) → IsValid s → Leaves (run_loop fp fuel s)
unfolding run_loop Leaves
run_loop-Leaves fp zero s h = tt
run_loop-Leaves fp (suc fuel) s h = if_both Leaves (leb s.fdepth s.shadow_stop_fdepth) h (
    if_both Leaves s.yield_requested (lower_flag-IsValid s h) (
      go_on-Leaves (step fp s) (run_loop fp fuel) ((step-Preserves fp).keeps s h)
        (λ t k. run_loop-Leaves fp fuel t k)))

pub run-Leaves : (fp : FloatOps) (fuel : ℕ) (s : Interpreter) → IsValid s → Leaves (run fp fuel s)
unfolding run
run-Leaves fp fuel s h =
    run_loop-Leaves fp fuel (record s { active_mem = s.current_pages * page_size })
      record {
        stack = h.stack;
        frames = h.frames;
        each_frame = h.each_frame;
        ctrl = h.ctrl;
        globals_size = h.globals_size;
        memory = record { cached = refl; inside = omega (arith, h.memory.cached, h.memory.inside) };
        hosts = h.hosts;
      }

-- A call with any number of rounds that ends, normally or with an error, leaves the state well
-- formed.
pub call-Leaves :
    (fp : FloatOps) (fuel func_idx : ℕ) (s : Interpreter)
    → IsValid s
    → Leaves (call fp fuel func_idx s)
unfolding call Leaves
call-Leaves fp fuel func_idx s h = if_both Leaves (ltb func_idx s.code.import_count) h (
    if_both Leaves (leb s.code.body_count (func_idx - s.code.import_count)) h (
      go_on-Leaves (push_frame (func_idx - s.code.import_count) s) (run fp fuel)
        ((push_frame-Preserves (func_idx - s.code.import_count)).keeps s h) (run-Leaves fp fuel)))
