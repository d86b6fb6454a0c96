-- ===== src/Hooks/Registry.antt =====
-- hook/hook.go: the dispatcher whose callbacks are registered before the pool is used.
use go_agile_pool.Prelude.{Option, none, some, [], ◌∷◌, ◌++◌}
use go_agile_pool.Prelude.Effects.{Action}
use go_agile_pool.Hooks.{
  on_task, on_complete, on_pool, on_task_submitted, on_task_enqueued, on_task_started,
  on_task_completed, on_pool_closed, Callbacks, no_callbacks, Registration, add_task_submitted,
  add_task_enqueued, add_task_started, add_task_completed, add_pool_closed, World, HookCalls,
  invoke_all,
}

-- `NewHooks`
abbrev pub new_hooks : {C : Type 0} → Callbacks C
new_hooks = no_callbacks

-- The `Add*` methods
unfoldable pub add : {C : Type 0} → Registration C → Callbacks C → Callbacks C
add (add_task_submitted c) h = record h { task_submitted = h.task_submitted ++ c ∷ [] }
add (add_task_enqueued c) h = record h { task_enqueued = h.task_enqueued ++ c ∷ [] }
add (add_task_started c) h = record h { task_started = h.task_started ++ c ∷ [] }
add (add_task_completed c) h = record h { task_completed = h.task_completed ++ c ∷ [] }
add (add_pool_closed c) h = record h { pool_closed = h.pool_closed ++ c ∷ [] }

module _ {V Ctx P C S : Type 0} (calls : HookCalls V Ctx P C S) where
  unfoldable pub dispatch_task_submitted : Ctx → Action V (World (Callbacks C) S)
  dispatch_task_submitted ctx w =
      invoke_all calls add on_task_submitted (on_task ctx) w.registered.task_submitted w

  unfoldable pub dispatch_task_enqueued : Ctx → Action V (World (Callbacks C) S)
  dispatch_task_enqueued ctx w =
      invoke_all calls add on_task_enqueued (on_task ctx) w.registered.task_enqueued w

  unfoldable pub dispatch_task_started : Ctx → Action V (World (Callbacks C) S)
  dispatch_task_started ctx w =
      invoke_all calls add on_task_started (on_task ctx) w.registered.task_started w

  unfoldable pub dispatch_task_completed : Ctx → Option V → Action V (World (Callbacks C) S)
  dispatch_task_completed ctx recovered w =
      invoke_all calls add on_task_completed (on_complete ctx recovered) w.registered.task_completed
        w

  -- `println` is the log line for a nil pool.
  unfoldable pub dispatch_pool_closed :
      (println : S → S) → Option P → Action V (World (Callbacks C) S)
  dispatch_pool_closed println none w = (record w { rest = println w.rest }, none)
  dispatch_pool_closed println (some pool) w =
      invoke_all calls add on_pool_closed (on_pool pool) w.registered.pool_closed w
