-- ===== src/Execution.antt =====
-- worker.go and pool.go: how a worker runs one task, what becomes of panics, and how the public
-- submit functions check and wrap a task. What user code does is a parameter: it acts on the world
-- `W` and may panic with a value of `V`. `G` and `R` are the functions and the retry tasks.
pub mod Order
pub mod Sequence
pub mod Submissions
mod Tests
use go_agile_pool.Prelude.{Bool, true, false, Option, none, some, if◌then◌else◌}
use go_agile_pool.Prelude.Effects.{Action, skip, pure, ◌>>◌, deferring, recovering}

-- A `Task` value: the nil interface, the concrete types with their nil values, and the function
-- that `SubmitBefore` makes of a task and its context.
pub data Task (G R Ctx : Type 0) : Type 0 where
  nil_task nil_func nil_retry nil_context : Task G R Ctx
  task_func : G → Task G R Ctx
  with_retry : R → Task G R Ctx
  context_task : Ctx → Task G R Ctx → Task G R Ctx
  start_before : Ctx → Task G R Ctx → Task G R Ctx

-- The methods of `Hooks` that are called here
pub record Dispatcher (V W Ctx : Type 0) : Type 0 where
  pub dispatch_task_submitted : Ctx → Action V W
  pub dispatch_task_enqueued : Ctx → Action V W
  pub dispatch_task_started : Ctx → Action V W
  pub dispatch_task_completed : Ctx → (recovered : Option V) → Action V W
  pub dispatch_pool_closed : Action V W

-- Which line is logged
pub data LogLine : Type 0 where
  worker_exits hook_dispatch_panicked panic_handler_panicked : LogLine

-- The pool's fields and the user code that running a task reads or calls. `nil_dereference` is the
-- panic value of a nil pointer, `cancel` the cancel function of a context.
pub record Environment (V W G R Ctx : Type 0) : Type 0 where
  pub run_func : G → Action V W
  pub run_retry : R → Action V W
  pub nil_dereference : V
  pub ctx_err : Ctx → W → Bool
  pub cancel : Ctx → W → W
  pub background : Ctx
  pub hooks : Option (Dispatcher V W Ctx)
  pub panic_handler : Option (Task G R Ctx → V → Action V W)
  pub printf : LogLine → V → Action V W
  pub count_consumed : W → W
  pub done : W → W

-- `isNilTask`
unfoldable pub is_nil_task : {G R Ctx : Type 0} → Task G R Ctx → Bool
is_nil_task nil_task = true
is_nil_task nil_func = true
is_nil_task nil_retry = true
is_nil_task nil_context = true
is_nil_task (task_func g) = false
is_nil_task (with_retry r) = false
is_nil_task (context_task ctx t) = is_nil_task t
is_nil_task (start_before ctx t) = false

module _ {V W G R Ctx : Type 0} (env : Environment V W G R Ctx) where
  open env use {
    run_func, run_retry, nil_dereference, ctx_err, cancel, background, hooks, panic_handler, printf,
    count_consumed, done,
  }

  nil_panic : Action V W
  nil_panic w = (w, some nil_dereference)

  -- A context that is done skips the task.
  unfoldable pub unless_done : Ctx → Action V W → Action V W
  unless_done ctx body w = if ctx_err ctx w then (w, none) else body w

  -- `process`
  unfoldable pub process : Task G R Ctx → Action V W
  unfolding nil_panic
  process nil_task = nil_panic
  process nil_func = nil_panic
  process nil_retry = nil_panic
  process nil_context = nil_panic
  process (task_func g) = run_func g
  process (with_retry r) = run_retry r
  process (context_task ctx t) = unless_done ctx (process t)
  process (start_before ctx t) = deferring (pure (cancel ctx)) (unless_done ctx (process t))

  -- What a recovered panic, where there is one, is reported with
  unfoldable pub if_recovered : (V → Action V W) → Option V → Action V W
  if_recovered report none = skip
  if_recovered report (some v) = report v

  unfoldable pub dispatch_on :
      Option (Dispatcher V W Ctx) → (Dispatcher V W Ctx → Action V W) → Action V W
  dispatch_on none fn = skip
  dispatch_on (some h) fn = recovering (if_recovered (printf hook_dispatch_panicked)) (fn h)

  -- `dispatchHook`
  unfoldable pub dispatch_hook : (Dispatcher V W Ctx → Action V W) → Action V W
  unfolding dispatch_on
  dispatch_hook fn = dispatch_on hooks fn

  unfoldable pub handle_with :
      Option (Task G R Ctx → V → Action V W) → Task G R Ctx → V → Action V W
  handle_with none task v = printf worker_exits v
  handle_with (some handler) task v =
      recovering (if_recovered (printf panic_handler_panicked)) (handler task v)

  -- `handlePanic`
  unfoldable pub handle_panic : Task G R Ctx → V → Action V W
  unfolding handle_with
  handle_panic task v = handle_with panic_handler task v

  -- `hookCtx`: the context of a context task; `none` where `wrapped.ctx` is read through nil.
  unfoldable pub hook_ctx : Task G R Ctx → Option Ctx
  hook_ctx (context_task ctx t) = some ctx
  hook_ctx nil_context = none
  hook_ctx _ = some background

  -- The second deferred function of `runTask`
  unfoldable pub complete : Task G R Ctx → Ctx → Option V → Action V W
  complete task ctx recovered =
      if_recovered (handle_panic task) recovered
      >> dispatch_hook (λ h. h.dispatch_task_completed ctx recovered)

  -- `runTask` behind its first deferred function
  unfoldable pub run_with : Task G R Ctx → Option Ctx → Action V W
  unfolding nil_panic
  run_with task none = nil_panic
  run_with task (some ctx) =
      recovering (complete task ctx)
        (dispatch_hook (λ h. h.dispatch_task_started ctx) >> process task)

  -- `runTask`
  unfoldable pub run_task : Task G R Ctx → Action V W
  run_task task = pure count_consumed >> deferring (pure done) (run_with task (hook_ctx task))
