-- ===== src/Wasm/Task/Tests.antt =====
-- The scheduler on an engine whose tasks yield once and then complete.
use wasm_os.Base.{ℕ, ◌+◌, ◌%◌, ◌≤◌, All, true, [], ◌∷◌, none, some, ◌≡◌, refl, arith}
use wasm_os.Wasm.Task.{
  suspended, sleeping, Engine, Tasks, completed, yielded, max_tasks, is_task_runnable, task_step,
  run_next_task,
}
use wasm_os.Wasm.Task.Laws.{
  IsQueue, IsIdle, is_some, task_step-is_task_runnable, run_next_task-turn, run_next_task-IsQueue,
}

-- The state of this engine is the time.
abbrev simple : Engine ℕ
simple = record {
  spawn = λ name bytes e. (e, some 0);
  start_task = λ handle args e. (e, yielded);
  resume_task = λ handle e. (e, completed none);
  destroy = λ handle e. e;
  take_pending_sleep_ms = λ e. (e, 0);
  ticks = λ e. e;
}

-- A task that sleeps until tick 9 in slot 1, and one that is suspended in slot 3, at tick 5.
abbrev two_tasks : Tasks ℕ
two_tasks = record {
  queue =
      none
      ∷ some (record { state = sleeping 9; handle = 0; name = []; wasm_args = [] })
      ∷ none
      ∷ some (record { state = suspended; handle = 1; name = []; wasm_args = [] })
      ∷ [];
  engine = 5;
  cursor = 0;
}

third_runnable : is_task_runnable simple two_tasks 3 ≡ true
unfolding is_task_runnable
third_runnable = refl

task_step-is_task_runnable_example :
    is_some (task_step simple 3 two_tasks).1 ≡ is_task_runnable simple two_tasks 3
task_step-is_task_runnable_example = task_step-is_task_runnable simple 3 two_tasks

run_next_task-turn_example :
    (j : ℕ) × (j ≤ 2)
    × (is_task_runnable simple two_tasks ((0 + 1 + j) % max_tasks) ≡ true)
    × (run_next_task simple two_tasks ≡ (
      (task_step simple
          ((0 + 1 + j) % max_tasks)
          (record two_tasks { cursor = (0 + 1 + j) % max_tasks })).0,
      true,
    ))
run_next_task-turn_example = run_next_task-turn simple two_tasks 2 (omega arith) third_runnable

two_tasks-IsIdle : All IsIdle two_tasks.queue
unfolding IsIdle
two_tasks-IsIdle = (tt, (tt, (tt, (tt, tt))))

run_next_task-IsQueue_example : IsQueue (run_next_task simple two_tasks).0
run_next_task-IsQueue_example =
    run_next_task-IsQueue simple two_tasks (record { size = refl; idle = two_tasks-IsIdle })
