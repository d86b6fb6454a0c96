-- ===== src/Execution/Tests.antt =====
-- The execution theorems at work in a world that is a pair of numbers: a log of digits, and the
-- calls of `done`.
use go_agile_pool.Prelude.{
  ℕ, ◌+◌, ◌*◌, ◌≡◌, refl, Bool, true, false, ◌==◌, if◌then◌else◌, none, some,
}
use go_agile_pool.Prelude.Int.{ℤ, pos}
use go_agile_pool.Execution.{
  Task, task_func, context_task, nil_task, Dispatcher, Environment, is_nil_task, process,
  if_recovered, handle_panic, dispatch_hook, dispatch_on, handle_with, hook_ctx, complete, run_with,
  run_task,
}
use go_agile_pool.Execution.Order.{Keeps, HooksKeep, HandlerKeeps, IsDoneCount, run_task-counts}
use go_agile_pool.Execution.Sequence.{run_task-sequence}
use go_agile_pool.Execution.Submissions.{
  AgreeOnTasks, submit_task, try_submit, submit_ctx, submit_before, update_task,
  submissions-AgreeOnTasks,
}

-- One more digit in the log
abbrev note : ℕ → ℕ × ℕ → ℕ × ℕ
note d (l, n) = (l * 10 + d, n)

-- The Started hook panics, and so do the panic handler and the task 1.
abbrev rough_hooks : Dispatcher ℕ (ℕ × ℕ) ℕ
rough_hooks = record {
  dispatch_task_submitted = λ ctx w. (w, none);
  dispatch_task_enqueued = λ ctx w. (w, none);
  dispatch_task_started = λ ctx w. (note 1 w, some 11);
  dispatch_task_completed = λ ctx v w. (note 4 w, none);
  dispatch_pool_closed = λ w. (w, none);
}

abbrev rough_world : Environment ℕ (ℕ × ℕ) ℕ ℕ ℕ
rough_world = record {
  run_func = λ g w. (note 2 w, if g == 1 then some 12 else none);
  run_retry = λ r w. (w, none);
  nil_dereference = 0;
  ctx_err = λ ctx w. ctx == 9;
  cancel = λ ctx w. w;
  background = 0;
  hooks = some rough_hooks;
  panic_handler = some (λ t v w. (note 3 w, some 13));
  printf = λ l v w. (note 8 w, none);
  count_consumed = λ w. w;
  done = λ w. (w.0, w.1 + 1);
}

-- Every stage runs, each panic is logged, and `done` is called once.
all_stages : run_task rough_world (task_func 1) (0, 0) ≡ ((182384, 1), none)
unfolding run_task run_with complete dispatch_hook dispatch_on handle_panic handle_with if_recovered
    hook_ctx process
all_stages = refl

rough_world-IsDoneCount : IsDoneCount (λ w. w.1) rough_world
unfolding Keeps HooksKeep HandlerKeeps
rough_world-IsDoneCount = record {
  done_counts = λ w. refl;
  consumed_keeps = λ w. refl;
  cancel_keeps = λ ctx w. refl;
  func_keeps = λ g w. refl;
  retry_keeps = λ r w. refl;
  hooks_keep = (λ ctx w. refl, λ ctx v w. refl);
  handler_keeps = λ t v w. refl;
  printf_keeps = λ l v w. refl;
}

run_task-counts_example : (run_task rough_world (task_func 1) (0, 0)).0.1 ≡ 0 + 1
run_task-counts_example =
    run_task-counts (λ w. w.1) rough_world rough_world-IsDoneCount (task_func 1) (0, 0)

run_task-sequence_example :
    (ctx : ℕ) × (hook_ctx rough_world (task_func 1) ≡ some ctx)
    × (let w1 = (dispatch_hook rough_world (λ h. h.dispatch_task_started ctx) (0, 0)).0 in
        let (w2, v) = process rough_world (task_func 1) w1 in
        let w3 = (if_recovered rough_world (handle_panic rough_world (task_func 1)) v w2).0 in
        let w4 = (dispatch_hook rough_world (λ h. h.dispatch_task_completed ctx v) w3).0 in
        run_task rough_world (task_func 1) (0, 0) ≡ ((w4.0, w4.1 + 1), none))
unfolding is_nil_task
run_task-sequence_example = run_task-sequence rough_world (λ l v w. refl) (task_func 1) (0, 0) refl

-- Two ways to submit that differ on nil tasks alone
abbrev accept : ℕ → Task ℕ ℕ ℕ → ℕ × ℕ → (ℕ × ℕ) × Bool
accept ctx t w = (note 5 w, true)

abbrev accept_non_nil : ℕ → Task ℕ ℕ ℕ → ℕ × ℕ → (ℕ × ℕ) × Bool
accept_non_nil ctx t w = if is_nil_task t then (w, false) else accept ctx t w

abbrev timeouts : ℤ → ℕ × ℕ → (ℕ × ℕ) × ℕ
timeouts d w = (w, 7)

they_agree : AgreeOnTasks rough_world timeouts accept accept_non_nil
unfolding AgreeOnTasks
they_agree ctx t w e = rw e refl

abbrev nil_in_context : Task ℕ ℕ ℕ
nil_in_context = context_task 3 nil_task

submissions-AgreeOnTasks_example :
    (submit_task rough_world timeouts accept nil_in_context (0, 0)
      ≡ submit_task rough_world timeouts accept_non_nil nil_in_context (0, 0))
    × (try_submit rough_world timeouts accept nil_in_context (0, 0)
        ≡ try_submit rough_world timeouts accept_non_nil nil_in_context (0, 0))
    × (submit_ctx rough_world timeouts accept none nil_in_context (0, 0)
        ≡ submit_ctx rough_world timeouts accept_non_nil none nil_in_context (0, 0))
    × (submit_before rough_world timeouts accept nil_in_context (pos 5) (0, 0)
        ≡ submit_before rough_world timeouts accept_non_nil nil_in_context (pos 5) (0, 0))
    × (is_nil_task (update_task rough_world none nil_in_context) ≡ is_nil_task nil_in_context)
submissions-AgreeOnTasks_example =
    submissions-AgreeOnTasks rough_world timeouts accept accept_non_nil they_agree nil_in_context
      none (pos 5) (0, 0)
