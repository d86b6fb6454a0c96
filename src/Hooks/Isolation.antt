-- ===== src/Hooks/Isolation.antt =====
-- A panicking callback does not keep the others from running.
use go_agile_pool.Prelude.{◌≡◌, refl, Option, none, some, List, [], ◌∷◌}
use go_agile_pool.Hooks.{
  Event, on_task, on_complete, on_pool, HookName, on_task_submitted, on_task_enqueued,
  on_task_started, on_task_completed, on_pool_closed, Callbacks, Registration, World, HookCalls,
  perform, log_panic, invoke, invoke_all, add_all,
}
use go_agile_pool.Hooks.Registry

-- What a callback's panic leaves behind: a log line
pub logged : {V S : Type 0} → (V → S → S) → Option V → S → S
logged log none s = s
logged log (some v) s = log v s

module _ {V Ctx P C S R : Type 0} (calls : HookCalls V Ctx P C S)
    (add : Registration C → R → R) where
  open calls use {callback, log}

  -- The callbacks one after the other, each on what those before it left, panicking or not.
  unfoldable pub each : HookName → Event V Ctx P → List C → World R S → World R S
  each name e [] w = w
  each name e (c ∷ cs) w =
      let (s, v, adds) = callback c e w.rest in
      each name e cs
        (record { registered = add_all calls add adds w.registered; rest = logged (log name) v s })

  log_panic-logged :
      (name : HookName) (v : Option V) (r : R) (s : S)
      → log_panic calls add name v (record { registered = r; rest = s })
        ≡ (record { registered = r; rest = logged (log name) v s }, none)
  unfolding log_panic logged
  log_panic-logged name none r s = refl
  log_panic-logged name (some v) r s = refl

  pub invoke_all-each :
      (name : HookName) (e : Event V Ctx P) (cs : List C) (w : World R S)
      → invoke_all calls add name e cs w ≡ (each name e cs w, none)
  unfolding invoke_all each invoke perform
  invoke_all-each name e [] w = refl
  invoke_all-each name e (c ∷ cs) w =
      let (s, v, adds) = callback c e w.rest in
      rw (log_panic-logged name v (add_all calls add adds w.registered) s)
        (invoke_all-each name e cs _)

module _ {V Ctx P C S : Type 0} (calls : HookCalls V Ctx P C S) where
  -- Each of the five dispatches of `hook.Hooks` runs every callback that was registered for its
  -- event when it began, in the order of registration, each on what those before it left and
  -- whether they panicked or not; a panic becomes a log line, and none leaves the dispatch.
  pub dispatch-each :
      (ctx : Ctx) (recovered : Option V) (pool : P) (println : S → S) (w : World (Callbacks C) S)
      → let h = w.registered in
        (Registry.dispatch_task_submitted calls ctx w
          ≡ (each calls Registry.add on_task_submitted (on_task ctx) h.task_submitted w, none))
        × (Registry.dispatch_task_enqueued calls ctx w
            ≡ (each calls Registry.add on_task_enqueued (on_task ctx) h.task_enqueued w, none))
        × (Registry.dispatch_task_started calls ctx w
            ≡ (each calls Registry.add on_task_started (on_task ctx) h.task_started w, none))
        × (Registry.dispatch_task_completed calls ctx recovered w ≡ (
          each calls Registry.add on_task_completed (on_complete ctx recovered) h.task_completed w,
          none,
        ))
        × (Registry.dispatch_pool_closed calls println (some pool) w
            ≡ (each calls Registry.add on_pool_closed (on_pool pool) h.pool_closed w, none))
  unfolding Registry.dispatch_task_submitted Registry.dispatch_task_enqueued
      Registry.dispatch_task_started Registry.dispatch_task_completed Registry.dispatch_pool_closed
  dispatch-each ctx recovered pool println w = (
    invoke_all-each calls Registry.add on_task_submitted (on_task ctx) _ w,
    invoke_all-each calls Registry.add on_task_enqueued (on_task ctx) _ w,
    invoke_all-each calls Registry.add on_task_started (on_task ctx) _ w,
    invoke_all-each calls Registry.add on_task_completed (on_complete ctx recovered) _ w,
    invoke_all-each calls Registry.add on_pool_closed (on_pool pool) _ w,
  )
