-- ===== src/Hooks/Tests.antt =====
-- The hook theorems at work: three callbacks, of which the first registers the third for its own
-- event and the second panics.
use go_agile_pool.Prelude.{ℕ, ◌≡◌, refl, ◌==◌, if◌then◌else◌, Option, none, some, List, [], ◌∷◌}
use go_agile_pool.Hooks.{
  on_task, on_complete, on_pool, on_task_submitted, on_task_enqueued, on_task_started,
  on_task_completed, on_pool_closed, Callbacks, add_task_started, add_task_submitted, World,
  HookCalls, invoke_all, invoke, log_panic, perform,
}
use go_agile_pool.Hooks.Isolation.{each, dispatch-each}
use go_agile_pool.Hooks.Equivalence.{plain, plain_result, dynamic-plain}
use go_agile_pool.Hooks.Registry
use go_agile_pool.Hooks.Dynamic

-- The world is a list of what ran; a log line is 99.
abbrev some_calls : HookCalls ℕ ℕ ℕ ℕ (List ℕ)
some_calls = record {
  callback = λ c e s.
      (c ∷ s, if c == 2 then some 7 else none, if c == 1 then add_task_started 3 ∷ [] else []);
  log = λ name v s. 99 ∷ s;
}

abbrev two_started : Callbacks ℕ
two_started = record {
  task_submitted = [];
  task_enqueued = [];
  task_started = 1 ∷ 2 ∷ [];
  task_completed = [];
  pool_closed = [];
}

abbrev two_world : World (Callbacks ℕ) (List ℕ)
two_world = record { registered = two_started; rest = [] }

abbrev two_snapshot : World (Option (Callbacks ℕ)) (List ℕ)
two_snapshot = record { registered = some two_started; rest = [] }

-- The callback that is registered meanwhile does not run in this dispatch.
started_twice : (Registry.dispatch_task_started some_calls 0 two_world).0.rest ≡ 99 ∷ 2 ∷ 1 ∷ []
unfolding Registry.dispatch_task_started invoke_all invoke perform log_panic
started_twice = refl

dispatch-each_example :
    let h = two_started in
    (Registry.dispatch_task_submitted some_calls 0 two_world ≡ (
      each some_calls Registry.add on_task_submitted (on_task 0) h.task_submitted two_world,
      none,
    ))
    × (Registry.dispatch_task_enqueued some_calls 0 two_world ≡ (
      each some_calls Registry.add on_task_enqueued (on_task 0) h.task_enqueued two_world,
      none,
    ))
    × (Registry.dispatch_task_started some_calls 0 two_world
        ≡ (each some_calls Registry.add on_task_started (on_task 0) h.task_started two_world, none))
    × (Registry.dispatch_task_completed some_calls 0 (some 5) two_world ≡ (
      each some_calls Registry.add on_task_completed
          (on_complete 0 (some 5))
          h.task_completed
          two_world,
      none,
    ))
    × (Registry.dispatch_pool_closed some_calls (λ s. s) (some 4) two_world
        ≡ (each some_calls Registry.add on_pool_closed (on_pool 4) h.pool_closed two_world, none))
dispatch-each_example = dispatch-each some_calls 0 (some 5) 4 (λ s. s) two_world

dynamic-plain_example :
    (Dynamic.snapshot 0 (Dynamic.add 0 (add_task_submitted 8) (some two_started))
      ≡ Registry.add (add_task_submitted 8) (Dynamic.snapshot 0 (some two_started)))
    × (plain_result 0 some_calls (Dynamic.dispatch_task_submitted 0 some_calls 0 two_snapshot)
        ≡ Registry.dispatch_task_submitted some_calls 0 (plain 0 some_calls two_snapshot))
    × (plain_result 0 some_calls (Dynamic.dispatch_task_enqueued 0 some_calls 0 two_snapshot)
        ≡ Registry.dispatch_task_enqueued some_calls 0 (plain 0 some_calls two_snapshot))
    × (plain_result 0 some_calls (Dynamic.dispatch_task_started 0 some_calls 0 two_snapshot)
        ≡ Registry.dispatch_task_started some_calls 0 (plain 0 some_calls two_snapshot))
    × (plain_result 0 some_calls
          (Dynamic.dispatch_task_completed 0 some_calls 0 (some 5) two_snapshot)
        ≡ Registry.dispatch_task_completed some_calls 0 (some 5) (plain 0 some_calls two_snapshot))
    × (plain_result 0 some_calls
          (Dynamic.dispatch_pool_closed 0 some_calls (λ s. s) (some 4) two_snapshot)
        ≡ Registry.dispatch_pool_closed some_calls
            (λ s. s)
            (some 4)
            (plain 0 some_calls two_snapshot))
dynamic-plain_example =
    dynamic-plain 0 some_calls (add_task_submitted 8) 0 (some 5) (some 4) (λ s. s) two_snapshot
