-- ===== src/Config.antt =====
-- config.go, and the default values of pool.go. Integers are int64 values as ℤ; durations are
-- nanoseconds. `H` is the type of panic handlers.
pub mod Bounds
mod Tests
use go_agile_pool.Prelude.{
  ℕ, ◌-◌, ◌^◌, Bool, ◌&&◌, List, [], ◌∷◌, Option, none, some, if◌then◌else◌,
}
use go_agile_pool.Prelude.Int.{ℤ, pos, ltb_ℤ}
use go_agile_pool.Prelude.Float.{Float64}
use go_agile_pool.Idle.{IdleContainerType, linked_list}

-- `WorkMode`
pub data WorkMode : Type 0 where
  block nonblock : WorkMode

-- `LockType`
pub data LockType : Type 0 where
  mutex_lock spin_lock : LockType

abbrev pub default_clean_period : ℤ
default_clean_period = pos 500_000_000

abbrev pub default_task_queue_size : ℤ
default_task_queue_size = pos 10_000

-- `math.MaxInt64`
abbrev pub max_int64 : ℕ
max_int64 = 2 ^ 63 - 1

abbrev pub default_max_worker_num_capacity : ℤ
default_max_worker_num_capacity = pos max_int64

abbrev pub default_stats_sample_period : ℤ
default_stats_sample_period = pos 100_000_000

abbrev pub default_stats_window_size : ℤ
default_stats_window_size = pos 10

abbrev pub default_scaler_period : ℤ
default_scaler_period = pos 10_000_000

abbrev pub default_zero_consume_scale_interval : ℤ
default_zero_consume_scale_interval = pos 100_000_000

abbrev pub default_max_zero_consume_scale_step : ℤ
default_max_zero_consume_scale_step = pos 64

-- `Config`, over the float type and the handler type
pub record Config (F H : Type 0) : Type 0 where
  pub clean_period : ℤ
  pub task_queue_size : ℤ
  pub task_queue_shards : ℤ
  pub worker_num_capacity : ℤ
  pub work_mode : WorkMode
  pub idle_container_type : IdleContainerType
  pub lock_type : LockType
  pub stats_sample_period : ℤ
  pub stats_window_size : ℤ
  pub scaler_period : ℤ
  pub backlog_decay_factor : F
  pub zero_consume_scale_interval : ℤ
  pub max_zero_consume_scale_step : ℤ
  pub panic_handler : Option H

module _ (fl : Float64) (H : Type 0) where
  open fl use {F, hundredths, le}

  -- A call of one of the `With*` functions, with its argument.
  pub data ConfigOption : Type 0 where
    with_clean_period : ℤ → ConfigOption
    with_task_queue_size : ℤ → ConfigOption
    with_task_queue_shards : ℤ → ConfigOption
    with_worker_num_capacity : ℤ → ConfigOption
    with_block_mode : WorkMode → ConfigOption
    with_idle_container_type : IdleContainerType → ConfigOption
    with_stats_sample_period : ℤ → ConfigOption
    with_stats_window_size : ℤ → ConfigOption
    with_scaler_period : ℤ → ConfigOption
    with_lock_type : LockType → ConfigOption
    with_backlog_decay_factor : F → ConfigOption
    with_zero_consume_scale_interval : ℤ → ConfigOption
    with_max_zero_consume_scale_step : ℤ → ConfigOption
    with_panic_handler : Option H → ConfigOption

  -- `if n > 0 { field = n }`
  unfoldable pub if_positive : ℤ → ℤ → ℤ
  if_positive n old = if ltb_ℤ (pos 0) n then n else old

  -- What the returned option does to the config.
  unfoldable pub apply : ConfigOption → Config F H → Config F H
  unfolding if_positive
  apply (with_clean_period d) c = record c { clean_period = if_positive d c.clean_period }
  apply (with_task_queue_size n) c = record c { task_queue_size = if_positive n c.task_queue_size }
  apply (with_task_queue_shards n) c = record c { task_queue_shards = n }
  apply (with_worker_num_capacity n) c = record c {
    worker_num_capacity = if_positive n c.worker_num_capacity;
  }
  apply (with_block_mode m) c = record c { work_mode = m }
  apply (with_idle_container_type t) c = record c { idle_container_type = t }
  apply (with_stats_sample_period d) c = record c {
    stats_sample_period = if_positive d c.stats_sample_period;
  }
  apply (with_stats_window_size n) c = record c {
    stats_window_size = if_positive n c.stats_window_size;
  }
  apply (with_scaler_period d) c = record c { scaler_period = if_positive d c.scaler_period }
  apply (with_lock_type t) c = record c { lock_type = t }
  apply (with_backlog_decay_factor f) c =
      if le (hundredths 0) f && le f (hundredths 100)
      then record c { backlog_decay_factor = f }
      else c
  apply (with_zero_consume_scale_interval d) c = record c {
    zero_consume_scale_interval = if_positive d c.zero_consume_scale_interval;
  }
  apply (with_max_zero_consume_scale_step n) c = record c {
    max_zero_consume_scale_step = if_positive n c.max_zero_consume_scale_step;
  }
  apply (with_panic_handler h) c = record c { panic_handler = h }

  unfoldable pub default_config : Config F H
  default_config = record {
    clean_period = default_clean_period;
    task_queue_size = default_task_queue_size;
    task_queue_shards = pos 0;
    worker_num_capacity = default_max_worker_num_capacity;
    work_mode = block;
    idle_container_type = linked_list;
    lock_type = mutex_lock;
    stats_sample_period = default_stats_sample_period;
    stats_window_size = default_stats_window_size;
    scaler_period = default_scaler_period;
    backlog_decay_factor = hundredths 30;
    zero_consume_scale_interval = default_zero_consume_scale_interval;
    max_zero_consume_scale_step = default_max_zero_consume_scale_step;
    panic_handler = none;
  }

  unfoldable pub apply_all : List ConfigOption → Config F H → Config F H
  apply_all [] c = c
  apply_all (o ∷ os) c = apply_all os (apply o c)

  unfoldable pub new_config : List ConfigOption → Config F H
  new_config opts = apply_all opts default_config
