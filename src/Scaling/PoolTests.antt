-- ===== src/Scaling/PoolTests.antt =====
-- Whole pools with the scaler: one whose only task no worker takes, and one that is closed.
use go_agile_pool.Prelude.{suc, ℕ, ◌-◌, ◌^◌, ◌≤◌, ◌<◌, ◌≡◌, refl, true, false, some, [], ◌∷◌, arith}
use go_agile_pool.Prelude.Int.{min_ℤ, pos, ◌+ℤ◌, ◌≤ℤ◌}
use go_agile_pool.Prelude.Fixed.{fixed}
use go_agile_pool.Config.{block}
use go_agile_pool.Pool.{
  Shared, submit_start, submit_added, close_start, close_buffer, send_ready, advance, advance_part,
  part_of, advance_submit, advance_worker, advance_close,
}
use go_agile_pool.Pool.Weights.{queued, sum}
use go_agile_pool.Pool.Step.{
  System, submits, closes, runs, here, after, waiting, at_lock, Reachable,
}
use go_agile_pool.Pool.Accounts.{IsAccounted, scaler_weight}
use go_agile_pool.Scaling.{drained, exit_per_tick, decide, load_of}
use go_agile_pool.Scaling.Drained.{accepted_weight, drained-stays}
use go_agile_pool.Scaling.Rescue.{cold_target, Manned, scaler_alone, stranded-Manned}
use go_agile_pool.Scaling.Tests.{config, rates}

-- One task is queued and no worker runs.
abbrev stranded_pool : Shared ℕ
stranded_pool = record {
  pending_tasks = pos 1;
  wg = pos 1;
  closed = false;
  close_pool_cn = false;
  submit_count = 0;
  consume_count = 0;
  exit_count = 0;
  running_workers_num = pos 0;
  task_queues = (7 ∷ []) ∷ [] ∷ [];
  send_seq = 1;
  worker_seq = 0;
  buf = [];
  buf_closed = false;
  idle_works = 0;
}

stranded_pool-IsAccounted :
    IsAccounted (record { shared = stranded_pool; scaler = waiting; threads = [] })
unfolding IsAccounted queued sum scaler_weight
stranded_pool-IsAccounted = record {
  pending = refl;
  group = refl;
  running = refl;
  sharded = omega arith;
}

stranded_queue : 0 < queued stranded_pool
unfolding queued
stranded_queue = omega arith

no_exits_due :
    cold_target fixed config (pos 1) +ℤ exit_per_tick fixed config rates ≤ℤ pos (2 ^ 63 - 1)
unfolding exit_per_tick ◌+ℤ◌
no_exits_due = omega arith

stranded-Manned_example :
    (n : ℕ) × (decide fixed config rates (load_of stranded_pool (pos 50)) (pos 0) ≡ (some n, pos 0))
    × (k : ℕ) × (1 ≤ k)
    × (pos k ≡ min_ℤ (pos n) (pos 8))
    × Manned block 4 (pos 8) [] k (queued stranded_pool) (
        scaler_alone block 4
          (pos 8)
          (suc (suc (suc k)))
          (record { shared = stranded_pool; scaler = at_lock n; threads = [] }))
stranded-Manned_example =
    stranded-Manned fixed config rates block 4 (pos 0) (pos 50) stranded_pool []
      stranded_pool-IsAccounted stranded_queue refl (omega arith) no_exits_due

abbrev empty_pool : Shared ℕ
empty_pool = record stranded_pool { pending_tasks = pos 0; wg = pos 0; task_queues = [] ∷ [] ∷ [] }

abbrev empty_system : System ℕ
empty_system = record { shared = empty_pool; scaler = waiting; threads = [] }

empty_system-IsAccounted : IsAccounted empty_system
unfolding IsAccounted queued sum scaler_weight
empty_system-IsAccounted = record {
  pending = refl;
  group = refl;
  running = refl;
  sharded = omega arith;
}

abbrev closed_system : System ℕ
closed_system = record {
  shared = record empty_pool { closed = true };
  scaler = waiting;
  threads = close_buffer ∷ [];
}

closed_system-Reachable : Reachable block 4 (pos 8) empty_system closed_system
unfolding advance advance_part part_of advance_submit advance_worker advance_close
closed_system-Reachable = after (after here (closes empty_pool waiting [])) (
    runs send_ready [] [] (close_buffer ∷ []) close_start empty_pool
      (record empty_pool { closed = true }) waiting refl)

closed_system-drained : drained closed_system.shared ≡ true
unfolding drained
closed_system-drained = refl

-- A caller has come after the end.
abbrev late_system : System ℕ
late_system = record {
  shared = record empty_pool { closed = true; pending_tasks = pos 1 };
  scaler = waiting;
  threads = submit_added 7 ∷ close_buffer ∷ [];
}

late_system-Reachable : Reachable block 4 (pos 8) closed_system late_system
unfolding advance advance_part part_of advance_submit advance_worker advance_close ◌+ℤ◌
late_system-Reachable =
    after (after here (submits 7 (record empty_pool { closed = true }) waiting (close_buffer ∷ [])))
      (runs send_ready [] (close_buffer ∷ []) (submit_added 7 ∷ []) (submit_start 7)
        (record empty_pool { closed = true })
        (record empty_pool { closed = true; pending_tasks = pos 1 }) waiting refl)

drained-stays_example :
    (late_system.shared.closed ≡ true)
    × (queued late_system.shared ≡ 0)
    × (sum accepted_weight late_system.threads ≡ 0)
drained-stays_example =
    drained-stays block 4 (pos 8) empty_system closed_system late_system empty_system-IsAccounted
      closed_system-Reachable closed_system-drained late_system-Reachable
