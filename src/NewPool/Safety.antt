-- ===== src/NewPool/Safety.antt =====
-- What holds from NewPool on.
use go_agile_pool.Prelude.{
  ℕ, zero, suc, ◌^◌, ◌≤◌, ◌≡◌, refl, ap, subst, some, List, [], replicate, length-replicate, arith,
}
use go_agile_pool.Prelude.Int.{ℤ, pos, pos_part, +ℤ_parts, ◌+ℤ◌, ◌≤ℤ◌}
use go_agile_pool.Prelude.Float.{Float64}
use go_agile_pool.Config.{Config, ConfigOption, new_config}
use go_agile_pool.Config.Bounds.{new_config-IsValid}
use go_agile_pool.Shards.{}
use go_agile_pool.Shards.Loops.{pow2_positive}
use go_agile_pool.Shards.Count.{IsShardCount, resolve-IsShardCount}
use go_agile_pool.Pool.Weights.{queued, total, sum}
use go_agile_pool.Pool.Step.{System, waiting, Reachable}
use go_agile_pool.Pool.Accounts.{IsAccounted, scaler_weight}
use go_agile_pool.Pool.Capacity.{IsBounded, IsFresh, running-IsBounded}
use go_agile_pool.NewPool.{
  Fields, new_shared, pool_with, built, config_or_default, new_pool, start_of,
}

total-replicate : (T : Type 0) (n : ℕ) → total (replicate {A = List T} n []) ≡ 0
total-replicate T zero = refl
total-replicate T (suc n) = omega (arith, total-replicate T n)

new_shared-IsAccounted :
    (T : Type 0) (n : ℕ)
    → 1 ≤ n
    → IsAccounted {T = T} (record { shared = new_shared n; scaler = waiting; threads = [] })
unfolding IsAccounted new_shared queued sum scaler_weight
new_shared-IsAccounted T n h =
    let none_queued = total-replicate T n in
    record {
      pending = ap pos (omega (arith, none_queued));
      group = ap pos (omega (arith, none_queued));
      running = refl;
      sharded = omega (arith, h, length-replicate {A = List T} n []);
    }

-- The capacity is not negative, and the pool is bounded by it.
abbrev StartsBounded : {F H T : Type 0} → Fields F H T → Type 0
StartsBounded p = (pos 0 ≤ℤ p.capacity) × IsBounded p.capacity (start_of p)

pool_with-StartsBounded :
    {F H : Type 0} (T : Type 0) (c : Config F H) (n : ℕ)
    → 1 ≤ n
    → pos 1 ≤ℤ c.worker_num_capacity
    → StartsBounded (pool_with {T = T} c n)
unfolding pool_with IsBounded IsFresh new_shared
pool_with-StartsBounded T c n h room = (
  omega (arith, room),
  (new_shared-IsAccounted T n h, ground (arith, +ℤ_parts c.worker_num_capacity (pos 1)), tt),
)

IsShardCount-positive : (want size : ℤ) (n : ℕ) → IsShardCount want size n → 1 ≤ n
IsShardCount-positive want size n s = let (k, e) = s.power in omega (arith, e, pow2_positive k)

module _ (fl : Float64) {H T : Type 0} where
  -- From any pool that NewPool returns for a config of NewConfig, whatever the options, where at
  -- most 2^62 shards are asked for: in every state that is reached, the counters count exactly the
  -- tasks and workers there are, and at most one worker more than the capacity is counted.
  pub new_pool-IsBounded :
      (fuel : ℕ) (procs : ℤ) (opts : List (ConfigOption fl H)) (p : Fields fl.F H T) (m : System T)
      → 63 ≤ fuel
      → pos 1 ≤ℤ procs
      → (new_config fl H opts).task_queue_shards ≤ℤ pos (2 ^ 62)
      → new_pool fl fuel procs (some (new_config fl H opts)) ≡ some p
      → Reachable p.config.work_mode (pos_part p.per_shard_cap) p.capacity (start_of p) m
      → IsAccounted m × (m.shared.running_workers_num ≤ℤ p.capacity +ℤ pos 1)
  unfolding new_pool built config_or_default IsBounded
  new_pool-IsBounded fuel procs opts p m f few h e reached =
      let c = new_config fl H opts in
      let (n, r, count) = resolve-IsShardCount fuel procs c f few h in
      let same : pool_with {T = T} c n ≡ p = cc (rw r at e) in
      let (room, start) = subst StartsBounded same (
        pool_with-StartsBounded T c n (IsShardCount-positive _ _ n count)
          (new_config-IsValid fl H opts).worker_num_capacity) in
      let (a, b, fresh) =
        running-IsBounded p.config.work_mode (pos_part p.per_shard_cap) p.capacity (start_of p) m
          room start reached in
      (a, b)
