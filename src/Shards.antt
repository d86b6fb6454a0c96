-- ===== src/Shards.antt =====
-- pool.go: the number of handoff-queue shards (resolveTaskQueueShards) and the capacity of each
-- (NewPool). An int is read from its 64-bit pattern, so that a shift wraps as it does in Go.
pub mod Loops
pub mod Count
mod Tests
use go_agile_pool.Prelude.{
  ℕ, zero, suc, ◌-◌, ◌*◌, ◌/◌, ◌%◌, ◌^◌, Bool, ◌&&◌, ltb, Option, none, some, if◌then◌else◌,
}
use go_agile_pool.Prelude.Int.{ℤ, pos, negsuc, ◌+ℤ◌, ◌-ℤ◌, ltb_ℤ, leb_ℤ}
use go_agile_pool.Config.{Config}

abbrev pub min_shardable_queue_size : ℤ
min_shardable_queue_size = pos 1024

abbrev pub max_auto_shards : ℤ
max_auto_shards = pos 32

-- The int with a 64-bit pattern.
abbrev pub to_int : ℕ → ℤ
to_int s = if ltb s (2 ^ 63) then pos s else negsuc (2 ^ 64 - s - 1)

-- `for shards < want { shards <<= 1 }`
unfoldable pub double_loop : (fuel : ℕ) (want : ℤ) (shards : ℕ) → Option ℕ
double_loop zero want shards = none
double_loop (suc fuel) want shards =
    let rest = double_loop fuel want (2 * shards % 2 ^ 64) in
    if ltb_ℤ (to_int shards) want then rest else some shards

-- `for int64(shards) > c.taskQueueSize && shards > 1 { shards >>= 1 }`
unfoldable pub halve_loop : (fuel : ℕ) (size : ℤ) (shards : ℕ) → Option ℕ
halve_loop zero size shards = none
halve_loop (suc fuel) size shards =
    let rest = halve_loop fuel size (shards / 2) in
    if ltb_ℤ size (to_int shards) && ltb_ℤ (pos 1) (to_int shards) then rest else some shards

-- The second loop, from where the first one ended.
unfoldable pub halve_after : (fuel : ℕ) (size : ℤ) → Option ℕ → Option ℕ
halve_after fuel size none = none
halve_after fuel size (some shards) = halve_loop fuel size shards

-- The two loops, and the clamp of `want` before them.
unfoldable pub shards_for : (fuel : ℕ) (want size : ℤ) → Option ℕ
shards_for fuel want size =
    halve_after fuel size (double_loop fuel (if ltb_ℤ want (pos 1) then pos 1 else want) 1)

-- `procs` is `runtime.GOMAXPROCS(0)`; `none` when the fuel runs out in a loop.
unfoldable pub resolve_task_queue_shards :
    {F H : Type 0} → (fuel : ℕ) (procs : ℤ) → Config F H → Option ℕ
resolve_task_queue_shards fuel procs c =
    if leb_ℤ c.task_queue_shards (pos 0)
    then (if ltb_ℤ c.task_queue_size min_shardable_queue_size
        then some 1
        else shards_for fuel (if ltb_ℤ max_auto_shards procs then max_auto_shards else procs)
            c.task_queue_size)
    else shards_for fuel c.task_queue_shards c.task_queue_size

-- An int addition's result.
abbrev pub wrap : ℤ → ℤ
wrap (pos n) = to_int (n % 2 ^ 64)
wrap (negsuc n) = to_int (2 ^ 64 - 1 - n % 2 ^ 64)

-- Division of ints by a positive one, towards zero.
abbrev pub quotient : ℤ → ℕ → ℤ
quotient (pos n) s = pos (n / s)
quotient (negsuc n) s = pos 0 -ℤ pos (suc n / s)

-- `perShardCap`
unfoldable pub per_shard_cap : (size : ℤ) (shards : ℕ) → ℤ
per_shard_cap size shards =
    let cap = quotient (wrap (wrap (size +ℤ pos shards) -ℤ pos 1)) shards in
    if ltb_ℤ cap (pos 1) then pos 1 else cap
