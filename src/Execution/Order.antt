-- ===== src/Execution/Order.antt =====
-- What running a task does, in which order, and what no panic can prevent.
use go_agile_pool.Prelude.{ℕ, ◌+◌, ◌≡◌, refl, ◌∙◌, Bool-cases, inl, inr, Option, none, some, arith}
use go_agile_pool.Prelude.Effects.{Action, ◌>>◌, continue, recovering}
use go_agile_pool.Execution.{
  Task, nil_task, nil_func, nil_retry, nil_context, task_func, with_retry, context_task,
  start_before, Dispatcher, LogLine, hook_dispatch_panicked, panic_handler_panicked, worker_exits,
  Environment, nil_panic, unless_done, process, if_recovered, dispatch_on, dispatch_hook,
  handle_with, handle_panic, hook_ctx, complete, run_with, run_task,
}

module _ {V W : Type 0} (count : W → ℕ) where
  -- The action leaves a number of the world alone, also where it panics.
  unfoldable pub Keeps : Action V W → Type 0
  Keeps act = (w : W) → count (act w).0 ≡ count w

  continue-Keeps :
      (r : W × Option V) (n : ℕ) (next : Action V W)
      → count r.0 ≡ n
      → Keeps next
      → count (continue r next).0 ≡ n
  unfolding Keeps
  continue-Keeps (w, none) n next e h = h w ∙ e
  continue-Keeps (w, some v) n next e h = e

  Keeps->> : (a b : Action V W) → Keeps a → Keeps b → Keeps (a >> b)
  unfolding Keeps
  Keeps->> a b h k w = continue-Keeps (a w) (count w) b (h w) k

  Keeps-recovering :
      (handler : Option V → Action V W) (body : Action V W)
      → ((v : Option V) → Keeps (handler v))
      → Keeps body
      → Keeps (recovering handler body)
  unfolding Keeps
  Keeps-recovering handler body h k w = h (body w).1 (body w).0 ∙ k w

  module _ {G R Ctx : Type 0} (env : Environment V W G R Ctx) where
    unfoldable pub HooksKeep : Option (Dispatcher V W Ctx) → Type 0
    HooksKeep none = Unit
    HooksKeep (some h) =
        ((ctx : Ctx) → Keeps (h.dispatch_task_started ctx))
        × ((ctx : Ctx) (v : Option V) → Keeps (h.dispatch_task_completed ctx v))

    unfoldable pub HandlerKeeps : Option (Task G R Ctx → V → Action V W) → Type 0
    HandlerKeeps none = Unit
    HandlerKeeps (some handler) = (t : Task G R Ctx) (v : V) → Keeps (handler t v)

    -- A number that `done` raises by one and that nothing else touches
    pub record IsDoneCount : Type 0 where
      pub done_counts : (w : W) → count (env.done w) ≡ count w + 1
      pub consumed_keeps : (w : W) → count (env.count_consumed w) ≡ count w
      pub cancel_keeps : (ctx : Ctx) (w : W) → count (env.cancel ctx w) ≡ count w
      pub func_keeps : (g : G) → Keeps (env.run_func g)
      pub retry_keeps : (r : R) → Keeps (env.run_retry r)
      pub hooks_keep : HooksKeep env.hooks
      pub handler_keeps : HandlerKeeps env.panic_handler
      pub printf_keeps : (l : LogLine) (v : V) → Keeps (env.printf l v)

    module _ (counts : IsDoneCount) where
      unless_done-Keeps :
          (ctx : Ctx) (body : Action V W) → Keeps body → Keeps (unless_done env ctx body)
      unfolding unless_done Keeps
      unless_done-Keeps ctx body h w = elim (Bool-cases (env.ctx_err ctx w)) [
        | inl e ↦ rw e refl
        | inr e ↦ rw e (h w)
      ]

      process-Keeps : (t : Task G R Ctx) → Keeps (process env t)
      unfolding process nil_panic Keeps
      process-Keeps nil_task w = refl
      process-Keeps nil_func w = refl
      process-Keeps nil_retry w = refl
      process-Keeps nil_context w = refl
      process-Keeps (task_func g) w = counts.func_keeps g w
      process-Keeps (with_retry r) w = counts.retry_keeps r w
      process-Keeps (context_task ctx t) w =
          unless_done-Keeps ctx (process env t) (process-Keeps t) w
      process-Keeps (start_before ctx t) w =
          counts.cancel_keeps ctx _ ∙ unless_done-Keeps ctx (process env t) (process-Keeps t) w

      if_recovered-Keeps :
          (report : V → Action V W) (v : Option V)
          → ((v : V) → Keeps (report v))
          → Keeps (if_recovered env report v)
      unfolding if_recovered Keeps
      if_recovered-Keeps report none h w = refl
      if_recovered-Keeps report (some v) h w = h v w

      guarded-Keeps :
          (l : LogLine) (body : Action V W)
          → Keeps body
          → Keeps (recovering (if_recovered env (env.printf l)) body)
      guarded-Keeps l body h =
          Keeps-recovering (if_recovered env (env.printf l)) body
            (λ (v : Option V). if_recovered-Keeps (env.printf l) v (counts.printf_keeps l)) h

      started-Keeps :
          (hooks : Option (Dispatcher V W Ctx)) (ctx : Ctx)
          → HooksKeep hooks
          → Keeps (dispatch_on env hooks (λ h. h.dispatch_task_started ctx))
      unfolding dispatch_on HooksKeep Keeps
      started-Keeps none ctx h w = refl
      started-Keeps (some d) ctx h w =
          guarded-Keeps hook_dispatch_panicked (d.dispatch_task_started ctx) (h.0 ctx) w

      completed-Keeps :
          (hooks : Option (Dispatcher V W Ctx)) (ctx : Ctx) (recovered : Option V)
          → HooksKeep hooks
          → Keeps (dispatch_on env hooks (λ h. h.dispatch_task_completed ctx recovered))
      unfolding dispatch_on HooksKeep Keeps
      completed-Keeps none ctx recovered h w = refl
      completed-Keeps (some d) ctx recovered h w =
          guarded-Keeps hook_dispatch_panicked (d.dispatch_task_completed ctx recovered)
            (h.1 ctx recovered) w

      handle-Keeps :
          (handler : Option (Task G R Ctx → V → Action V W)) (t : Task G R Ctx) (v : V)
          → HandlerKeeps handler
          → Keeps (handle_with env handler t v)
      unfolding handle_with HandlerKeeps Keeps
      handle-Keeps none t v h w = counts.printf_keeps worker_exits v w
      handle-Keeps (some handler) t v h w =
          guarded-Keeps panic_handler_panicked (handler t v) (h t v) w

      run_with-Keeps : (t : Task G R Ctx) (ctx : Option Ctx) → Keeps (run_with env t ctx)
      unfolding run_with nil_panic complete dispatch_hook handle_panic Keeps
      run_with-Keeps t none w = refl
      run_with-Keeps t (some ctx) w =
          Keeps-recovering (complete env t ctx)
            (dispatch_hook env (λ h. h.dispatch_task_started ctx) >> process env t)
            (λ (v : Option V).
              Keeps->> (if_recovered env (handle_panic env t) v)
                (dispatch_hook env (λ h. h.dispatch_task_completed ctx v))
                (if_recovered-Keeps (handle_panic env t) v
                  (λ (u : V). handle-Keeps env.panic_handler t u counts.handler_keeps))
                (completed-Keeps env.hooks ctx v counts.hooks_keep))
            (Keeps->> (dispatch_hook env (λ h. h.dispatch_task_started ctx)) (process env t)
              (started-Keeps env.hooks ctx counts.hooks_keep) (process-Keeps t))
            w

      -- `runTask` calls `done` exactly once, whatever the task, the hooks, the panic handler and
      -- the logger do, panics in any of them included.
      pub run_task-counts : (t : Task G R Ctx) (w : W) → count (run_task env t w).0 ≡ count w + 1
      unfolding run_task Keeps
      run_task-counts t w =
          let a = counts.consumed_keeps w in
          let b = run_with-Keeps t (hook_ctx env t) (env.count_consumed w) in
          let c = counts.done_counts (run_with env t (hook_ctx env t) (env.count_consumed w)).0 in
          omega arith
