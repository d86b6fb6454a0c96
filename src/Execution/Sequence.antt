-- ===== src/Execution/Sequence.antt =====
-- Running a task written as the sequence that it amounts to, where the logger does not panic.
use go_agile_pool.Prelude.{◌≡◌, refl, false, Option, none, some, arith}
use go_agile_pool.Prelude.Effects.{Action, pure, ◌>>◌, deferring, recovering, Quiet}
use go_agile_pool.Execution.{
  Task, nil_task, nil_func, nil_retry, nil_context, task_func, with_retry, context_task,
  start_before, Dispatcher, LogLine, hook_dispatch_panicked, panic_handler_panicked, worker_exits,
  Environment, is_nil_task, if_recovered, process, dispatch_on, dispatch_hook, handle_with,
  handle_panic, hook_ctx, complete, run_with, run_task,
}

module _ {V W : Type 0} where
  quiet-eq : (act : Action V W) (w : W) → (act w).1 ≡ none → act w ≡ ((act w).0, none)
  quiet-eq act w e = ground arith

  Quiet-recovering :
      (handler : Option V → Action V W) (body : Action V W)
      → ((v : Option V) → Quiet (handler v))
      → Quiet (recovering handler body)
  Quiet-recovering handler body h w = h (body w).1 (body w).0

  sequence_lem :
      (a p : Action V W) (report complete : Option V → Action V W) (later : W → W)
      {w w1 w2 w3 w4 : W} {v : Option V}
      → a w ≡ (w1, none)
      → p w1 ≡ (w2, v)
      → report v w2 ≡ (w3, none)
      → complete v w3 ≡ (w4, none)
      → deferring (pure later) (recovering (λ u. report u >> complete u) (a >> p)) w
        ≡ (later w4, none)
  sequence_lem a p report complete later e1 e2 e3 e4 = rw (e1, e2, e3, e4) refl

module _ {V W G R Ctx : Type 0} (env : Environment V W G R Ctx)
    (quiet : (l : LogLine) (v : V) → Quiet (env.printf l v)) where
  if_recovered-Quiet :
      (report : V → Action V W) (v : Option V)
      → ((v : V) → Quiet (report v))
      → Quiet (if_recovered env report v)
  unfolding if_recovered
  if_recovered-Quiet report none h w = refl
  if_recovered-Quiet report (some v) h w = h v w

  guarded-Quiet :
      (l : LogLine) (body : Action V W) → Quiet (recovering (if_recovered env (env.printf l)) body)
  guarded-Quiet l body =
      Quiet-recovering (if_recovered env (env.printf l)) body
        (λ (v : Option V). if_recovered-Quiet (env.printf l) v (quiet l))

  dispatch_on-Quiet :
      (hooks : Option (Dispatcher V W Ctx)) (fn : Dispatcher V W Ctx → Action V W)
      → Quiet (dispatch_on env hooks fn)
  unfolding dispatch_on
  dispatch_on-Quiet none fn w = refl
  dispatch_on-Quiet (some d) fn w = guarded-Quiet hook_dispatch_panicked (fn d) w

  handle_with-Quiet :
      (handler : Option (Task G R Ctx → V → Action V W)) (t : Task G R Ctx) (v : V)
      → Quiet (handle_with env handler t v)
  unfolding handle_with
  handle_with-Quiet none t v w = quiet worker_exits v w
  handle_with-Quiet (some handler) t v w = guarded-Quiet panic_handler_panicked (handler t v) w

  hook_ctx-some :
      (t : Task G R Ctx) → is_nil_task t ≡ false → (ctx : Ctx) × (hook_ctx env t ≡ some ctx)
  unfolding is_nil_task hook_ctx
  hook_ctx-some nil_task e = cc
  hook_ctx-some nil_func e = cc
  hook_ctx-some nil_retry e = cc
  hook_ctx-some nil_context e = cc
  hook_ctx-some (task_func g) e = (env.background, refl)
  hook_ctx-some (with_retry r) e = (env.background, refl)
  hook_ctx-some (context_task ctx t) e = (ctx, refl)
  hook_ctx-some (start_before ctx t) e = (env.background, refl)

  -- Where the logger does not panic, running a task that is not nil amounts to: counting it as
  -- consumed; the Started hook; the task; the report of its panic, where it panicked; the
  -- Completed hook, with that panic; and `done`. Each part runs whichever of the parts before it
  -- panicked, and no panic is left over.
  pub run_task-sequence :
      (t : Task G R Ctx) (w : W)
      → is_nil_task t ≡ false
      → (ctx : Ctx) × (hook_ctx env t ≡ some ctx)
        × (let w1 =
              (dispatch_hook env (λ h. h.dispatch_task_started ctx) (env.count_consumed w)).0 in
            let (w2, v) = process env t w1 in
            let w3 = (if_recovered env (handle_panic env t) v w2).0 in
            let w4 = (dispatch_hook env (λ h. h.dispatch_task_completed ctx v) w3).0 in
            run_task env t w ≡ (env.done w4, none))
  unfolding run_task run_with complete dispatch_hook handle_panic
  run_task-sequence t w e =
      let (ctx, same) = hook_ctx-some t e in
      let start = env.count_consumed w in
      let first =
        quiet-eq (dispatch_hook env (λ h. h.dispatch_task_started ctx)) start
          (dispatch_on-Quiet env.hooks (λ h. h.dispatch_task_started ctx) start) in
      let w1 = (dispatch_hook env (λ h. h.dispatch_task_started ctx) start).0 in
      let w2 = (process env t w1).0 in
      let v = (process env t w1).1 in
      let third = quiet-eq (if_recovered env (handle_panic env t) v) w2 (
        if_recovered-Quiet (handle_panic env t) v
          (λ (u : V). handle_with-Quiet env.panic_handler t u) w2) in
      let w3 = (if_recovered env (handle_panic env t) v w2).0 in
      let fourth =
        quiet-eq (dispatch_hook env (λ h. h.dispatch_task_completed ctx v)) w3
          (dispatch_on-Quiet env.hooks (λ h. h.dispatch_task_completed ctx v) w3) in
      (
        ctx,
        same,
        rw same (
            sequence_lem (dispatch_hook env (λ h. h.dispatch_task_started ctx)) (process env t)
              (if_recovered env (handle_panic env t))
              (λ (u : Option V). dispatch_hook env (λ h. h.dispatch_task_completed ctx u)) env.done
              first refl third fourth),
      )
