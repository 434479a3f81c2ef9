-- ===== src/Wasm/Task/Laws.antt =====
-- The turns of the scheduler, the steps of a task, and the states in the queue.
use wasm_os.Base.{
  ℕ, zero, suc, ◌+◌, ◌%◌, ◌≤◌, ◌<◌, Bool, true, false, Option, none, some, ltb, leb, if◌then◌else◌,
  set, All, All-set, length, length-set, set-set, subst, ◌≡◌, inl, inr, refl, sym, ◌∙◌, arith,
  Bool-cases, if_both,
}
use native.Mathlib.Nat.{mod-add-mod}
use wasm_os.Wasm.Task.{
  TaskState, ready, running, suspended, done, sleeping, Task, Ran, completed, yielded, failed,
  Engine, Tasks, max_tasks, slot, put, asleep, wake_and_run, step_slot, slot_runnable,
  runnable_state, find_runnable, settle, run_task, task_step, is_task_runnable, take_turn,
  run_next_task,
}

-- A task that is not marked as running.
unfoldable pub IsAtRest : TaskState → Type 0
IsAtRest ready = Unit
IsAtRest running = false ≡ true
IsAtRest suspended = Unit
IsAtRest done = Unit
IsAtRest (sleeping wake) = Unit

unfoldable pub IsIdle : Option Task → Type 0
unfolding IsAtRest
IsIdle none = Unit
IsIdle (some t) = IsAtRest t.state

pub record IsQueue {E : Type 0} (w : Tasks E) : Type 0 where
  pub size : length w.queue ≡ max_tasks
  pub idle : All IsIdle w.queue

unfoldable pub is_some : Option Ran → Bool
is_some none = false
is_some (some r) = true

-- The first runnable slot comes no later than any runnable slot.
find_runnable-first :
    (left i start d : ℕ) (runnable : ℕ → Bool)
    → i ≤ d
    → d < i + left
    → runnable ((start + d) % max_tasks) ≡ true
    → (j : ℕ) × (i ≤ j)
      × (j ≤ d)
      × (find_runnable left i start runnable ≡ some ((start + j) % max_tasks))
      × (runnable ((start + j) % max_tasks) ≡ true)
unfolding find_runnable
find_runnable-first zero i start d runnable h k r = absurd (omega arith)
find_runnable-first (suc left) i start d runnable h k r =
    elim (Bool-cases (runnable ((start + i) % max_tasks))) [
      | inl e ↦ (i, omega arith, h, rw e refl, e)
      | inr e ↦
          let (j, low, high, found, runs) =
            find_runnable-first left (i + 1) start d runnable (ground arith) (omega arith) r in
          (j, omega arith, high, rw e found, runs)
    ]

asleep-IsAtRest : (now ms : ℕ) → IsAtRest (asleep now ms)
unfolding IsAtRest
asleep-IsAtRest now ms = if_both IsAtRest (ltb 0 ms) tt tt

module _ {E : Type 0} (ops : Engine E) where
  settle-is_some :
      (id : ℕ) (t : Task) (w : Tasks E) (r : E × Ran) → is_some (settle ops id t w r).1 ≡ true
  unfolding settle is_some
  settle-is_some id t w (e, completed v) = refl
  settle-is_some id t w (e, yielded) = refl
  settle-is_some id t w (e, failed x) = refl

  wake_and_run-is_some :
      (id : ℕ) (t : Task) (st : TaskState) (w : Tasks E)
      → is_some (wake_and_run ops id t st w).1 ≡ runnable_state (ops.ticks w.engine) st
  unfolding wake_and_run run_task runnable_state is_some
  wake_and_run-is_some id t ready w =
      settle-is_some id t (put id (some (record t { state = running })) w) _
  wake_and_run-is_some id t running w = refl
  wake_and_run-is_some id t suspended w =
      settle-is_some id t (put id (some (record t { state = running })) w) _
  wake_and_run-is_some id t done w = refl
  wake_and_run-is_some id t (sleeping wake) w = elim (Bool-cases (leb wake (ops.ticks w.engine))) [
    | inl e ↦
        let t' : Task = record t { state = suspended } in
        let w' : Tasks E = put id (some (record t { state = running })) (put id (some t') w) in
        rw (wake_and_run, e) (settle-is_some id t' w' (ops.resume_task t.handle w.engine))
    | inr e ↦ rw (wake_and_run, e) refl
  ]

  step_slot-is_some :
      (id : ℕ) (o : Option Task) (w : Tasks E)
      → is_some (step_slot ops id o w).1 ≡ slot_runnable (ops.ticks w.engine) o
  unfolding step_slot slot_runnable is_some
  step_slot-is_some id none w = refl
  step_slot-is_some id (some t) w = wake_and_run-is_some id t t.state w

  -- A step runs a task exactly where `is_task_runnable` says that it can be stepped.
  pub task_step-is_task_runnable :
      (id : ℕ) (w : Tasks E) → is_some (task_step ops id w).1 ≡ is_task_runnable ops w id
  unfolding task_step is_task_runnable is_some
  task_step-is_task_runnable id w = both (leb max_tasks id)
    where
      both :
          (b : Bool)
          → is_some ((if b then (w, none) else step_slot ops id (slot id w) w)).1
            ≡ (if b then false else slot_runnable (ops.ticks w.engine) (slot id w))
      both true = refl
      both false = step_slot-is_some id (slot id w) w

  -- The turn of the runnable slot that lies `d` places behind the start is not passed over: the
  -- scheduler steps a task that lies no further behind, at `j ≤ d`, which is runnable too.
  pub run_next_task-turn :
      (w : Tasks E) (d : ℕ)
      → d < max_tasks
      → is_task_runnable ops w ((w.cursor + 1 + d) % max_tasks) ≡ true
      → (j : ℕ) × (j ≤ d)
        × (is_task_runnable ops w ((w.cursor + 1 + j) % max_tasks) ≡ true)
        × (run_next_task ops w ≡ (
          (task_step ops
              ((w.cursor + 1 + j) % max_tasks)
              (record w { cursor = (w.cursor + 1 + j) % max_tasks })).0,
          true,
        ))
  unfolding run_next_task take_turn
  run_next_task-turn w d h r =
      let same : (k : ℕ)
          → ((w.cursor + 1) % max_tasks + k) % max_tasks ≡ (w.cursor + 1 + k) % max_tasks =
        λ k. mod-add-mod (w.cursor + 1) max_tasks k in
      let (j, low, high, found, runs) =
        find_runnable-first max_tasks 0 ((w.cursor + 1) % max_tasks) d (is_task_runnable ops w)
          (omega arith) (omega arith) (rw same r) in
      (j, high, rw same at runs, rw (run_next_task, found, same) refl)

  put-IsQueue :
      (id : ℕ) (o : Option Task) (e : E) (w : Tasks E)
      → IsIdle o
      → IsQueue w
      → IsQueue (put id o (record w { engine = e }))
  put-IsQueue id o e w k h = record {
    size = length-set w.queue id o ∙ h.size;
    idle = All-set IsIdle w.queue id o h.idle k;
  }

  -- A slot written twice holds what was written last.
  put_twice-IsQueue :
      (id : ℕ) (o x : Option Task) (e : E) (w : Tasks E)
      → IsIdle o
      → IsQueue w
      → IsQueue (put id o (record (put id x w) { engine = e }))
  put_twice-IsQueue id o x e w k h = record {
    size = length-set (set w.queue id x) id o ∙ length-set w.queue id x ∙ h.size;
    idle = subst (All IsIdle) (sym (set-set w.queue id x o)) (All-set IsIdle w.queue id o h.idle k);
  }

  settle-IsQueue :
      (id : ℕ) (t x : Task) (w : Tasks E) (r : E × Ran)
      → IsQueue w
      → IsQueue (settle ops id t (put id (some x) w) r).0
  unfolding settle IsIdle
  settle-IsQueue id t x w (e, completed v) h =
      put_twice-IsQueue id none (some x) (ops.destroy t.handle e) w tt h
  settle-IsQueue id t x w (e, failed n) h =
      put_twice-IsQueue id none (some x) (ops.destroy t.handle e) w tt h
  settle-IsQueue id t x w (e, yielded) h =
      let r = ops.take_pending_sleep_ms e in
      put_twice-IsQueue id (some (record t { state = asleep (ops.ticks r.0) r.1 })) (some x) r.0 w
        (asleep-IsAtRest (ops.ticks r.0) r.1) h

  run_task-IsQueue :
      (id : ℕ) (t : Task) (st : TaskState) (w : Tasks E)
      → IsQueue w
      → IsQueue (run_task ops id t st w).0
  unfolding run_task
  run_task-IsQueue id t ready w h = settle-IsQueue id t _ w _ h
  run_task-IsQueue id t suspended w h = settle-IsQueue id t _ w _ h
  run_task-IsQueue id t running w h = h
  run_task-IsQueue id t done w h = h
  run_task-IsQueue id t (sleeping wake) w h = h

  wake_and_run-IsQueue :
      (id : ℕ) (t : Task) (st : TaskState) (w : Tasks E)
      → IsQueue w
      → IsQueue (wake_and_run ops id t st w).0
  unfolding wake_and_run IsIdle
  wake_and_run-IsQueue id t ready w h = run_task-IsQueue id t ready w h
  wake_and_run-IsQueue id t running w h = run_task-IsQueue id t running w h
  wake_and_run-IsQueue id t suspended w h = run_task-IsQueue id t suspended w h
  wake_and_run-IsQueue id t done w h = run_task-IsQueue id t done w h
  wake_and_run-IsQueue id t (sleeping wake) w h =
      if_both (λ (r : Tasks E × Option Ran). IsQueue r.0) (leb wake (ops.ticks w.engine))
        (run_task-IsQueue id (record t { state = suspended }) suspended
          (put id (some (record t { state = suspended })) w)
          (put-IsQueue id (some (record t { state = suspended })) w.engine w tt h))
        h

  step_slot-IsQueue :
      (id : ℕ) (o : Option Task) (w : Tasks E) → IsQueue w → IsQueue (step_slot ops id o w).0
  unfolding step_slot
  step_slot-IsQueue id none w h = h
  step_slot-IsQueue id (some t) w h = wake_and_run-IsQueue id t t.state w h

  task_step-IsQueue : (id : ℕ) (w : Tasks E) → IsQueue w → IsQueue (task_step ops id w).0
  unfolding task_step
  task_step-IsQueue id w h =
      if_both (λ (r : Tasks E × Option Ran). IsQueue r.0) (leb max_tasks id) h
        (step_slot-IsQueue id (slot id w) w h)

  chosen-IsQueue : (o : Option ℕ) (w : Tasks E) → IsQueue w → IsQueue (take_turn ops o w).0
  unfolding take_turn
  chosen-IsQueue none w h = h
  chosen-IsQueue (some id) w h =
      task_step-IsQueue id (record w { cursor = id }) (record { size = h.size; idle = h.idle })

  -- A turn of the scheduler leaves the queue with its number of slots and no task marked as
  -- running, whatever the engine reports.
  pub run_next_task-IsQueue : (w : Tasks E) → IsQueue w → IsQueue (run_next_task ops w).0
  unfolding run_next_task
  run_next_task-IsQueue w h =
      chosen-IsQueue
        (find_runnable max_tasks 0 ((w.cursor + 1) % max_tasks) (is_task_runnable ops w)) w h
