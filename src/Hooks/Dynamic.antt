-- ===== src/Hooks/Dynamic.antt =====
-- hook/dynamic/dynamic.go: the dispatcher whose callbacks may be registered at any time. What is
-- published is the pointer to a snapshot, nil in the zero value of `Hooks`.
use go_agile_pool.Prelude.{◌+◌, Option, none, some, List, [], ◌∷◌, length, set, replicate}
use go_agile_pool.Prelude.Effects.{Action}
use go_agile_pool.Hooks.{
  on_task, on_complete, on_pool, on_task_submitted, on_task_enqueued, on_task_started,
  on_task_completed, on_pool_closed, Callbacks, no_callbacks, Registration, add_task_submitted,
  add_task_enqueued, add_task_started, add_task_completed, add_pool_closed, World, HookCalls,
  invoke_all,
}

-- `NewHooks`
abbrev pub new_hooks : {C : Type 0} → Option (Callbacks C)
new_hooks = some no_callbacks

-- The built-in `copy`
unfoldable pub copy : {A : Type 0} → (dst src : List A) → List A
copy [] src = []
copy (x ∷ dst) [] = x ∷ dst
copy (x ∷ dst) (y ∷ src) = y ∷ copy dst src

module _ {C : Type 0} (nil_callback : C) where
  -- `make([]T, n)` is filled with nil callbacks.
  unfoldable pub append_callback : List C → C → List C
  append_callback callbacks callback =
      set (copy (replicate (length callbacks + 1) nil_callback) callbacks) (length callbacks)
        callback

  -- `snapshot`, with its fallback
  unfoldable pub snapshot : Option (Callbacks C) → Callbacks C
  snapshot (some published) = published
  snapshot none = no_callbacks

  -- What the `Add*` methods publish
  unfoldable pub add_to : Registration C → Callbacks C → Callbacks C
  add_to (add_task_submitted c) current = record current {
    task_submitted = append_callback current.task_submitted c;
  }
  add_to (add_task_enqueued c) current = record current {
    task_enqueued = append_callback current.task_enqueued c;
  }
  add_to (add_task_started c) current = record current {
    task_started = append_callback current.task_started c;
  }
  add_to (add_task_completed c) current = record current {
    task_completed = append_callback current.task_completed c;
  }
  add_to (add_pool_closed c) current = record current {
    pool_closed = append_callback current.pool_closed c;
  }

  unfoldable pub add : Registration C → Option (Callbacks C) → Option (Callbacks C)
  add registration snapshots = some (add_to registration (snapshot snapshots))

  module _ {V Ctx P S : Type 0} (calls : HookCalls V Ctx P C S) where
    unfoldable pub dispatch_task_submitted : Ctx → Action V (World (Option (Callbacks C)) S)
    dispatch_task_submitted ctx w =
        invoke_all calls add on_task_submitted (on_task ctx) (snapshot w.registered).task_submitted
          w

    unfoldable pub dispatch_task_enqueued : Ctx → Action V (World (Option (Callbacks C)) S)
    dispatch_task_enqueued ctx w =
        invoke_all calls add on_task_enqueued (on_task ctx) (snapshot w.registered).task_enqueued w

    unfoldable pub dispatch_task_started : Ctx → Action V (World (Option (Callbacks C)) S)
    dispatch_task_started ctx w =
        invoke_all calls add on_task_started (on_task ctx) (snapshot w.registered).task_started w

    unfoldable pub dispatch_task_completed :
        Ctx → Option V → Action V (World (Option (Callbacks C)) S)
    dispatch_task_completed ctx recovered w =
        invoke_all calls add on_task_completed (on_complete ctx recovered)
          (snapshot w.registered).task_completed w

    unfoldable pub dispatch_pool_closed :
        (println : S → S) → Option P → Action V (World (Option (Callbacks C)) S)
    dispatch_pool_closed println none w = (record w { rest = println w.rest }, none)
    dispatch_pool_closed println (some pool) w =
        invoke_all calls add on_pool_closed (on_pool pool) (snapshot w.registered).pool_closed w
