-- ===== src/NewPool.antt =====
-- pool.go, NewPool, up to the start of its goroutines. `procs` is `runtime.GOMAXPROCS(0)`, and the
-- fuel is that of resolveTaskQueueShards. The idle container, which NewPool makes, is in Idle.
pub mod Safety
mod Tests
use go_agile_pool.Prelude.{ℕ, false, Option, none, some, List, [], replicate}
use go_agile_pool.Prelude.Int.{ℤ, pos, pos_part}
use go_agile_pool.Prelude.Float.{Float64}
use go_agile_pool.Config.{Config, new_config}
use go_agile_pool.Shards.{resolve_task_queue_shards, per_shard_cap}
use go_agile_pool.Pool.{Shared}
use go_agile_pool.Pool.Step.{System, waiting}
use go_agile_pool.Scaling.{Statistics, new_statistics}

-- The fields of a pool: those that never change, those that its goroutines share, and the statistics
pub record Fields (F H T : Type 0) : Type 0 where
  pub config : Config F H
  pub capacity : ℤ
  pub panic_handler : Option H
  pub per_shard_cap : ℤ
  pub task_queue_size : ℤ
  pub shared : Shared T
  pub statistics : Statistics

-- `shards` channels, and every counter at 0
unfoldable pub new_shared : {T : Type 0} → (shards : ℕ) → Shared T
new_shared shards = record {
  pending_tasks = pos 0;
  wg = pos 0;
  closed = false;
  close_pool_cn = false;
  submit_count = 0;
  consume_count = 0;
  exit_count = 0;
  running_workers_num = pos 0;
  task_queues = replicate shards [];
  send_seq = 0;
  worker_seq = 0;
  buf = [];
  buf_closed = false;
  idle_works = 0;
}

module _ {F H T : Type 0} where
  -- What is built once the number of shards is known
  unfoldable pub pool_with : Config F H → (shards : ℕ) → Fields F H T
  pool_with c shards = record {
    config = c;
    capacity = c.worker_num_capacity;
    panic_handler = c.panic_handler;
    per_shard_cap = per_shard_cap c.task_queue_size shards;
    task_queue_size = c.task_queue_size;
    shared = new_shared shards;
    statistics = new_statistics c;
  }

  unfoldable pub built : Config F H → Option ℕ → Option (Fields F H T)
  unfolding pool_with
  built c none = none
  built c (some shards) = some (pool_with c shards)

-- `if c == nil { c = NewConfig() }`
unfoldable pub config_or_default :
    (fl : Float64) {H : Type 0} → Option (Config fl.F H) → Config fl.F H
config_or_default fl {H = H} none = new_config fl H []
config_or_default fl (some c) = c

-- `none` when the fuel of resolveTaskQueueShards runs out
unfoldable pub new_pool :
    (fl : Float64) {H T : Type 0} (fuel : ℕ) (procs : ℤ)
    → Option (Config fl.F H)
    → Option (Fields fl.F H T)
new_pool fl fuel procs c =
    let c' = config_or_default fl c in built c' (resolve_task_queue_shards fuel procs c')

-- The pool as NewPool returns it: its scaler waits for a tick, and no goroutine has come.
abbrev pub start_of : {F H T : Type 0} → Fields F H T → System T
start_of p = record { shared = p.shared; scaler = waiting; threads = [] }
