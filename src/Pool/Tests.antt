-- ===== src/Pool/Tests.antt =====
-- The pool theorems at work on the first steps of one submission.
use go_agile_pool.Prelude.{ℕ, ◌≡◌, refl, false, [], ◌∷◌, arith}
use go_agile_pool.Prelude.Int.{pos, ◌+ℤ◌}
use go_agile_pool.Config.{block}
use go_agile_pool.Pool.{
  advance_submit, advance_worker, advance_close, advance_part, part_of, Shared, cold_load,
  cold_start, submit_start, submit_added, send_ready, advance,
}
use go_agile_pool.Pool.Weights.{queued, sum, wg_weight}
use go_agile_pool.Pool.Step.{
  System, waiting, at_lock, spawning, Reachable, here, after, submits, runs,
}
use go_agile_pool.Pool.Accounts.{
  entering, IsAccounted, scaler_weight, reachable-IsAccounted, wait-drained,
}
use go_agile_pool.Pool.Race.{capacity-exceeded}
use go_agile_pool.Pool.Capacity.{IsBounded, IsFresh, running-IsBounded}

-- A new pool with two shards
abbrev new_shared : Shared ℕ
new_shared = record {
  pending_tasks = pos 0;
  wg = pos 0;
  closed = false;
  close_pool_cn = false;
  submit_count = 0;
  consume_count = 0;
  exit_count = 0;
  running_workers_num = pos 0;
  task_queues = [] ∷ [] ∷ [];
  send_seq = 0;
  worker_seq = 0;
  buf = [];
  buf_closed = false;
  idle_works = 0;
}

abbrev new_system : System ℕ
new_system = record { shared = new_shared; scaler = waiting; threads = [] }

-- After a caller has entered submit with task 7 and counted it in `pendingTasks`
abbrev entered : System ℕ
entered = record {
  shared = record new_shared { pending_tasks = pos 1 };
  scaler = waiting;
  threads = submit_added 7 ∷ [];
}

new_system-IsAccounted : IsAccounted new_system
unfolding IsAccounted queued sum scaler_weight
new_system-IsAccounted = record {
  pending = refl;
  group = refl;
  running = refl;
  sharded = omega arith;
}

entered-Reachable : Reachable block 4 (pos 8) new_system entered
unfolding advance advance_part part_of advance_submit advance_worker advance_close ◌+ℤ◌
entered-Reachable = after (after here (submits 7 new_shared waiting [])) (
    runs send_ready [] [] (submit_added 7 ∷ []) (submit_start 7) new_shared
      (record new_shared { pending_tasks = pos 1 }) waiting refl)

reachable-IsAccounted_example : IsAccounted entered
reachable-IsAccounted_example =
    reachable-IsAccounted block 4 (pos 8) new_system entered new_system-IsAccounted
      entered-Reachable

wait-drained_example :
    (queued entered.shared ≡ 0)
    × (sum wg_weight entered.threads ≡ 0)
    × (pos 1 ≡ pos (sum entering entered.threads))
wait-drained_example =
    wait-drained block 4 (pos 8) new_system entered new_system-IsAccounted entered-Reachable refl

new_system-IsBounded : IsBounded (pos 8) new_system
unfolding IsBounded IsFresh ◌+ℤ◌
new_system-IsBounded = (new_system-IsAccounted, omega arith, tt)

running-IsBounded_example : IsBounded (pos 8) entered
running-IsBounded_example =
    running-IsBounded block 4 (pos 8) new_system entered (omega arith) new_system-IsBounded
      entered-Reachable

-- With a capacity of 1, the pool counts two workers.
capacity-exceeded_example :
    Reachable block 4
      (pos 1)
      (record { shared = new_shared; scaler = at_lock 1; threads = cold_load 7 ∷ [] })
      (record {
        shared = record new_shared { running_workers_num = pos 2 };
        scaler = spawning 1;
        threads = cold_start 7 ∷ [];
      })
capacity-exceeded_example = capacity-exceeded block 4 0 7 new_shared refl
