-- ===== src/Shards/Tests.antt =====
-- The shard theorems at work on concrete configs.
use go_agile_pool.Prelude.{ℕ, ◌+◌, ◌*◌, ◌≤◌, ◌<◌, ◌≡◌, refl, none, some, arith}
use go_agile_pool.Prelude.Int.{pos, ◌+ℤ◌, ◌-ℤ◌}
use go_agile_pool.Prelude.Fixed.{fixed}
use go_agile_pool.Config.{Config, max_int64, default_config}
use go_agile_pool.Shards.{
  resolve_task_queue_shards, shards_for, halve_after, double_loop, halve_loop, per_shard_cap,
}
use go_agile_pool.Shards.Count.{
  IsShardCount, wanted, resolve-IsShardCount, resolve-never, per_shard_cap-enough,
}

-- Six shards asked for, for a queue of 5000.
abbrev six_shards : Config ℕ ℕ
six_shards = record (default_config fixed ℕ) {
  task_queue_shards = pos 6;
  task_queue_size = pos 5000;
}

-- More shards than any power of two in an int.
abbrev too_many_shards : Config ℕ ℕ
too_many_shards = record (default_config fixed ℕ) { task_queue_shards = pos max_int64 }

six_are_eight : resolve_task_queue_shards 63 (pos 4) six_shards ≡ some 8
unfolding resolve_task_queue_shards shards_for halve_after double_loop halve_loop
six_are_eight = refl

-- The sum for the largest queue overflows, and every channel gets one slot.
overflowing_cap : per_shard_cap (pos max_int64) 32 ≡ pos 1
unfolding per_shard_cap ◌+ℤ◌ ◌-ℤ◌
overflowing_cap = refl

resolve-IsShardCount_example :
    (n : ℕ) × (resolve_task_queue_shards 63 (pos 4) six_shards ≡ some n)
    × IsShardCount (wanted (pos 4) six_shards) (pos 5000) n
resolve-IsShardCount_example =
    resolve-IsShardCount 63 (pos 4) six_shards (omega arith) (omega arith) (omega arith)

resolve-never_example : resolve_task_queue_shards 1000 (pos 4) too_many_shards ≡ none
resolve-never_example =
    resolve-never 1000 (pos 4) max_int64 too_many_shards refl (omega arith) (omega arith)

per_shard_cap-enough_example :
    (cap : ℕ) × (per_shard_cap (pos 5000) 8 ≡ pos cap)
    × (1 ≤ cap)
    × (5000 ≤ cap * 8)
    × (cap * 8 < 5000 + 8)
per_shard_cap-enough_example = per_shard_cap-enough 5000 8 (omega arith) (omega arith) (omega arith)
