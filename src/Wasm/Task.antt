-- ===== src/Wasm/Task.antt =====
-- kernel/src/wasm/task.rs and the round-robin step of kernel/src/scheduler.rs. The engine
-- (kernel/src/wasm/engine.rs) and the timer are an interface on a state of their own.
pub mod Laws
mod Tests
use mathlib.Core.Option
use wasm_os.Base.{
  ℕ, zero, suc, ◌+◌, ◌*◌, ◌/◌, ◌%◌, Bool, true, false, List, [], ◌∷◌, Option, none, some, ltb, leb,
  ◌==◌, if◌then◌else◌, set, take, min, length, get_or,
}

-- `MAX_INSTANCES`
abbrev pub max_tasks : ℕ
max_tasks = 4

abbrev pub max_name : ℕ
max_name = 32

abbrev pub max_task_args : ℕ
max_task_args = 8

pub data TaskState : Type 0 where
  ready running suspended done : TaskState
  sleeping : ℕ → TaskState

pub record Task : Type 0 where
  pub state : TaskState
  pub handle : ℕ
  pub name : List ℕ
  pub wasm_args : List ℕ

-- What the engine reports of one run of an instance: `TaskResult`, or a `RunError` by its number.
pub data Ran : Type 0 where
  completed : Option ℕ → Ran
  yielded : Ran
  failed : ℕ → Ran

-- The operations of the engine that tasks use. `spawn` answers a handle, or an error.
pub record Engine (E : Type 0) : Type 0 where
  pub spawn : List ℕ → List ℕ → E → E × Option ℕ
  pub start_task : ℕ → List ℕ → E → E × Ran
  pub resume_task : ℕ → E → E × Ran
  pub destroy : ℕ → E → E
  pub take_pending_sleep_ms : E → E × ℕ
  pub ticks : E → ℕ

-- `TASK_QUEUE`, the engine behind it, and the scheduler's `CURSOR`.
pub record Tasks (E : Type 0) : Type 0 where
  pub queue : List (Option Task)
  pub engine : E
  pub cursor : ℕ

abbrev pub slot : {E : Type 0} → ℕ → Tasks E → Option Task
slot id w = get_or w.queue id none

abbrev pub put : {E : Type 0} → ℕ → Option Task → Tasks E → Tasks E
put id t w = record w { queue = set w.queue id t }

-- `position(|t| t.is_none())`
unfoldable pub free_slot : List (Option Task) → Option ℕ
free_slot [] = none
free_slot (none ∷ rest) = some 0
free_slot (some t ∷ rest) = Option.map suc (free_slot rest)

unfoldable pub new_task : ℕ → List ℕ → List ℕ → Task
new_task handle name args = record {
  state = ready;
  handle = handle;
  name = take max_name name;
  wasm_args = take max_task_args args;
}

-- `is_task_runnable` of a task in the queue
unfoldable pub runnable_state : ℕ → TaskState → Bool
runnable_state now ready = true
runnable_state now running = false
runnable_state now suspended = true
runnable_state now done = false
runnable_state now (sleeping wake) = leb wake now

unfoldable pub slot_runnable : ℕ → Option Task → Bool
unfolding runnable_state
slot_runnable now none = false
slot_runnable now (some t) = runnable_state now t.state

-- 10 ms make a tick; the time is rounded up.
abbrev pub asleep : ℕ → ℕ → TaskState
asleep now ms = if ltb 0 ms then sleeping (now + (ms + 9) / 10) else suspended

-- The first runnable slot of `left` slots from `start + i` on, around the queue.
unfoldable pub find_runnable : ℕ → ℕ → ℕ → (ℕ → Bool) → Option ℕ
find_runnable zero i start runnable = none
find_runnable (suc left) i start runnable =
    let further = find_runnable left (i + 1) start runnable in
    if runnable ((start + i) % max_tasks) then some ((start + i) % max_tasks) else further

module _ {E : Type 0} (ops : Engine E) where
  -- `none` is an error, of a full queue or of the engine.
  unfoldable pub task_spawn : List ℕ → List ℕ → List ℕ → Tasks E → Tasks E × Option ℕ
  unfolding free_slot new_task
  task_spawn name bytes args w = elim (free_slot w.queue) [
    | none ↦ (w, none)
    | some id ↦
        let r = ops.spawn name bytes w.engine in
        let w' : Tasks E = record w { engine = r.0 } in
        elim r.1 [
          | none ↦ (w', none)
          | some handle ↦ (put id (some (new_task handle name args)) w', some id)
        ]
  ]

  -- `TASK_QUEUE[id].take()`, and the engine's slot freed.
  unfoldable pub task_kill : ℕ → Tasks E → Tasks E
  task_kill id w = elim (slot id w) [
    | none ↦ w
    | some t ↦ put id none (record w { engine = ops.destroy t.handle w.engine })
  ]

  -- What `task_step` does with the outcome of a run.
  unfoldable pub settle : ℕ → Task → Tasks E → E × Ran → Tasks E × Option Ran
  settle id t w (e, completed v) =
      (put id none (record w { engine = ops.destroy t.handle e }), some (completed v))
  settle id t w (e, yielded) =
      let r = ops.take_pending_sleep_ms e in
      (
        put id (some (record t { state = asleep (ops.ticks r.0) r.1 })) (record w { engine = r.0 }),
        some yielded,
      )
  settle id t w (e, failed x) =
      (put id none (record w { engine = ops.destroy t.handle e }), some (failed x))

  -- The run itself, by the state that the task was in; the slot says Running meanwhile.
  unfoldable pub run_task : ℕ → Task → TaskState → Tasks E → Tasks E × Option Ran
  unfolding settle
  run_task id t ready w =
      settle id t (put id (some (record t { state = running })) w)
        (ops.start_task t.handle t.wasm_args w.engine)
  run_task id t suspended w =
      settle id t (put id (some (record t { state = running })) w)
        (ops.resume_task t.handle w.engine)
  run_task id t running w = (w, none)
  run_task id t done w = (w, none)
  run_task id t (sleeping wake) w = (w, none)

  -- A sleeping task whose time has come is suspended first; one that still sleeps is left alone.
  unfoldable pub wake_and_run : ℕ → Task → TaskState → Tasks E → Tasks E × Option Ran
  unfolding run_task
  wake_and_run id t (sleeping wake) w =
      let t' : Task = record t { state = suspended } in
      if leb wake (ops.ticks w.engine)
      then run_task id t' suspended (put id (some t') w)
      else (w, none)
  wake_and_run id t ready w = run_task id t ready w
  wake_and_run id t running w = run_task id t running w
  wake_and_run id t suspended w = run_task id t suspended w
  wake_and_run id t done w = run_task id t done w

  unfoldable pub step_slot : ℕ → Option Task → Tasks E → Tasks E × Option Ran
  unfolding wake_and_run
  step_slot id none w = (w, none)
  step_slot id (some t) w = wake_and_run id t t.state w

  unfoldable pub task_step : ℕ → Tasks E → Tasks E × Option Ran
  unfolding step_slot
  task_step id w = if leb max_tasks id then (w, none) else step_slot id (slot id w) w

  unfoldable pub is_task_runnable : Tasks E → ℕ → Bool
  unfolding slot_runnable
  is_task_runnable w id =
      if leb max_tasks id then false else slot_runnable (ops.ticks w.engine) (slot id w)

  -- The cursor moves to the slot that is stepped; the answer says whether one was.
  unfoldable pub take_turn : Option ℕ → Tasks E → Tasks E × Bool
  unfolding task_step
  take_turn none w = (w, false)
  take_turn (some id) w = ((task_step id (record w { cursor = id })).0, true)

  unfoldable pub run_next_task : Tasks E → Tasks E × Bool
  unfolding find_runnable is_task_runnable take_turn
  run_next_task w =
      take_turn (find_runnable max_tasks 0 ((w.cursor + 1) % max_tasks) (is_task_runnable w)) w
