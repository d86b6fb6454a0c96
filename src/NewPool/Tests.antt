-- ===== src/NewPool/Tests.antt =====
-- A pool from NewPool with eight workers and four shards, and a first caller.
use go_agile_pool.Prelude.{ℕ, ◌≡◌, ◌^◌, refl, some, List, [], ◌∷◌, arith}
use go_agile_pool.Prelude.Int.{pos, pos_part, ◌+ℤ◌, ◌≤ℤ◌}
use go_agile_pool.Prelude.Fixed.{fixed}
use go_agile_pool.Config.{
  ConfigOption, with_worker_num_capacity, with_task_queue_shards, if_positive, apply,
  default_config, apply_all, new_config,
}
use go_agile_pool.Shards.{
  resolve_task_queue_shards, shards_for, halve_after, double_loop, halve_loop,
}
use go_agile_pool.Pool.{submit_start}
use go_agile_pool.Pool.Step.{System, waiting, Reachable, here, after, submits}
use go_agile_pool.Pool.Accounts.{IsAccounted}
use go_agile_pool.NewPool.{Fields, pool_with, built, config_or_default, new_pool, start_of}
use go_agile_pool.NewPool.Safety.{new_pool-IsBounded}

abbrev options : List (ConfigOption fixed ℕ)
options = with_worker_num_capacity (pos 8) ∷ with_task_queue_shards (pos 3) ∷ []

abbrev four_shards : Fields ℕ ℕ ℕ
four_shards = pool_with (new_config fixed ℕ options) 4

four_shards_lem : new_pool fixed 63 (pos 4) (some (new_config fixed ℕ options)) ≡ some four_shards
unfolding new_pool built config_or_default resolve_task_queue_shards shards_for halve_after
    double_loop halve_loop new_config apply_all apply default_config if_positive
four_shards_lem = refl

few_shards : (new_config fixed ℕ options).task_queue_shards ≤ℤ pos (2 ^ 62)
unfolding new_config apply_all apply default_config if_positive
few_shards = omega arith

abbrev called : System ℕ
called = record { shared = four_shards.shared; scaler = waiting; threads = submit_start 7 ∷ [] }

called-Reachable :
    Reachable four_shards.config.work_mode
      (pos_part four_shards.per_shard_cap)
      four_shards.capacity
      (start_of four_shards)
      called
called-Reachable = after here (submits 7 four_shards.shared waiting [])

new_pool-IsBounded_example :
    IsAccounted called × (called.shared.running_workers_num ≤ℤ four_shards.capacity +ℤ pos 1)
new_pool-IsBounded_example =
    new_pool-IsBounded fixed 63 (pos 4) options four_shards called (omega arith) (omega arith)
      few_shards four_shards_lem called-Reachable
