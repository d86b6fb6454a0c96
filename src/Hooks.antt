-- ===== src/Hooks.antt =====
-- hook.go, hook/hook.go and hook/dynamic/dynamic.go: lifecycle callbacks, their registration and
-- their dispatch. A callback is known by its name in `C`. What it does is a parameter: it changes
-- the rest of the program (`S`), registers callbacks, and may panic with a value of `V`.
pub mod Registry
pub mod Dynamic
pub mod Isolation
pub mod Equivalence
mod Tests
use go_agile_pool.Prelude.{Option, none, some, List, [], ◌∷◌}
use go_agile_pool.Prelude.Effects.{Action, recovering, ◌>>◌, skip}

-- What a callback is called with: `TaskHook`, `TaskCompleteHook`, `PoolHook`
pub data Event (V Ctx P : Type 0) : Type 0 where
  on_task : Ctx → Event V Ctx P
  on_complete : Ctx → (recovered : Option V) → Event V Ctx P
  on_pool : P → Event V Ctx P

-- The name under which a recovered panic is logged
pub data HookName : Type 0 where
  on_task_submitted on_task_enqueued on_task_started on_task_completed on_pool_closed : HookName

-- The five lists of callbacks, in `hook.Hooks` and in `callbackSnapshot`
pub record Callbacks (C : Type 0) : Type 0 where
  pub task_submitted : List C
  pub task_enqueued : List C
  pub task_started : List C
  pub task_completed : List C
  pub pool_closed : List C

abbrev pub no_callbacks : {C : Type 0} → Callbacks C
no_callbacks = record {
  task_submitted = [];
  task_enqueued = [];
  task_started = [];
  task_completed = [];
  pool_closed = [];
}

-- A call of one of the five `Add*` methods
pub data Registration (C : Type 0) : Type 0 where
  add_task_submitted add_task_enqueued add_task_started add_task_completed add_pool_closed :
      C → Registration C

-- The registered callbacks, however they are kept, and the rest of the program
pub record World (R S : Type 0) : Type 0 where
  pub registered : R
  pub rest : S

-- What user code and the logger do
pub record HookCalls (V Ctx P C S : Type 0) : Type 0 where
  pub callback : C → Event V Ctx P → S → S × Option V × List (Registration C)
  pub log : HookName → V → S → S

module _ {V Ctx P C S R : Type 0} (calls : HookCalls V Ctx P C S)
    (add : Registration C → R → R) where
  open calls use {callback, log}

  unfoldable pub add_all : List (Registration C) → R → R
  add_all [] r = r
  add_all (a ∷ as_) r = add_all as_ (add a r)

  -- A callback runs.
  unfoldable pub perform : C → Event V Ctx P → Action V (World R S)
  unfolding add_all
  perform c e w =
      let (s, v, adds) = callback c e w.rest in
      (record { registered = add_all adds w.registered; rest = s }, v)

  unfoldable pub log_panic : HookName → Option V → Action V (World R S)
  log_panic name none w = (w, none)
  log_panic name (some v) w = (record w { rest = log name v w.rest }, none)

  -- `invoke`
  unfoldable pub invoke : HookName → Action V (World R S) → Action V (World R S)
  unfolding log_panic
  invoke name body = recovering (log_panic name) body

  -- `for _, fn := range callbacks { h.invoke(...) }`
  unfoldable pub invoke_all : HookName → Event V Ctx P → List C → Action V (World R S)
  unfolding invoke perform
  invoke_all name e [] = skip
  invoke_all name e (c ∷ cs) = invoke name (perform c e) >> invoke_all name e cs
