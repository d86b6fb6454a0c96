-- ===== src/Scaling/Tests.antt =====
-- The scaler at work, over fixed-point numbers in the place of float64.
use go_agile_pool.Prelude.{
  ℕ, ◌-◌, ◌^◌, ◌≤◌, ◌<◌, ◌≡◌, refl, true, false, none, some, [], ◌∷◌, arith,
}
use go_agile_pool.Prelude.Int.{pos, ◌+ℤ◌, ◌-ℤ◌, ◌≤ℤ◌, max_ℤ}
use go_agile_pool.Prelude.Fixed.{fixed}
use go_agile_pool.Histogram as HistogramCode
use go_agile_pool.Histogram.{
  new_histogram, evict, write_sample, advance, bucket_index, bucket_index_from, fits, below_high,
  median, median_from, midpoint, exit_buckets,
}
use go_agile_pool.Idle.{linked_list}
use go_agile_pool.Config.{Config, block, mutex_lock}
use go_agile_pool.Pool.{Shared}
use go_agile_pool.Scaling.{
  new_statistics, sampler_tick, get_median_rates, positive, Medians, Load, growth_due, growth,
  exit_per_tick, decide, rate_target, backlog_target, backlog_rate_target, capped, with_exits,
  bounded, spawn_for, queued_tasks,
}
use go_agile_pool.Scaling.Decision.{decide-IsNeeded}
use go_agile_pool.Scaling.Idling.{sampled, idle_pool-grows}

abbrev pub config : Config ℕ ℕ
config = record {
  clean_period = pos 500_000_000;
  task_queue_size = pos 10_000;
  task_queue_shards = pos 0;
  worker_num_capacity = pos 8;
  work_mode = block;
  idle_container_type = linked_list;
  lock_type = mutex_lock;
  stats_sample_period = pos 100_000_000;
  stats_window_size = pos 2;
  scaler_period = pos 10_000_000;
  backlog_decay_factor = 30;
  zero_consume_scale_interval = pos 100_000_000;
  max_zero_consume_scale_step = pos 64;
  panic_handler = none;
}

-- One worker runs, on one of five tasks.
abbrev burst : Load
burst = record {
  running = pos 1;
  buf_depth = pos 0;
  total_backlog = pos 5;
  queued = pos 4;
  now = pos 1_000_000_000;
}

-- Four workers run, twenty tasks are submitted and ten consumed in each window.
abbrev busy : Load
busy = record {
  running = pos 4;
  buf_depth = pos 0;
  total_backlog = pos 40;
  queued = pos 36;
  now = pos 1_000_000_000;
}

abbrev pub rates : Medians ℕ
rates = record { submit_med = 2000; consume_med = 1000; exit_med = 0 }

busy_pool_fills : (decide fixed config rates busy (pos 0)).0 ≡ some 4
unfolding decide positive rate_target backlog_target backlog_rate_target capped spawn_for
    exit_per_tick with_exits bounded ◌+ℤ◌ ◌-ℤ◌
busy_pool_fills = refl

decide-IsNeeded_example :
    (0 < 4)
    × (busy.running +ℤ pos 1 ≤ℤ busy.total_backlog)
    × (busy.running +ℤ pos 4 ≤ℤ config.worker_num_capacity)
    × (busy.running +ℤ pos 4
        ≤ℤ busy.total_backlog +ℤ max_ℤ (pos 0) (exit_per_tick fixed config rates))
decide-IsNeeded_example = decide-IsNeeded fixed config rates busy (pos 0) 4 busy_pool_fills

abbrev quiet_pool : Shared ℕ
quiet_pool = record {
  pending_tasks = pos 5;
  wg = pos 5;
  closed = false;
  close_pool_cn = false;
  submit_count = 0;
  consume_count = 0;
  exit_count = 0;
  running_workers_num = pos 1;
  task_queues = (7 ∷ 8 ∷ []) ∷ (9 ∷ 3 ∷ []) ∷ [];
  send_seq = 4;
  worker_seq = 1;
  buf = [];
  buf_closed = false;
  idle_works = 0;
}

abbrev busy_pool : Shared ℕ
busy_pool = record quiet_pool { submit_count = 5; consume_count = 3 }

sampler_goes_on : (sampler_tick busy_pool (new_statistics config)).2 ≡ false
unfolding sampler_tick
sampler_goes_on = refl

four_queued : queued_tasks quiet_pool ≡ 4
unfolding queued_tasks
four_queued = refl

abbrev idle_medians : Medians ℕ
idle_medians =
    get_median_rates fixed
      (sampled (new_statistics config) (busy_pool ∷ quiet_pool ∷ quiet_pool ∷ []))

tasks_in_hand : burst.running +ℤ burst.queued ≤ℤ burst.total_backlog
unfolding ◌+ℤ◌
tasks_in_hand = omega arith

due : growth_due fixed config burst (pos 0) ≡ true
unfolding growth_due ◌-ℤ◌
due = refl

one_step : growth fixed config burst ≡ pos 1
unfolding growth ◌-ℤ◌
one_step = refl

no_exits : exit_per_tick fixed config idle_medians ≡ pos 0
unfolding exit_per_tick get_median_rates sampled new_statistics HistogramCode.add new_histogram
    evict write_sample advance bucket_index bucket_index_from fits below_high median median_from
    midpoint exit_buckets
no_exits = refl

no_overflow :
    growth fixed config burst +ℤ exit_per_tick fixed config idle_medians ≤ℤ pos (2 ^ 63 - 1)
unfolding ◌+ℤ◌
no_overflow = rw (one_step, no_exits) (omega arith)

idle_pool-grows_example :
    (n : ℕ) × (decide fixed config idle_medians burst (pos 0) ≡ (some n, pos 1_000_000_000))
    × (1 ≤ n)
    × (growth fixed config burst ≤ℤ pos n)
idle_pool-grows_example =
    idle_pool-grows fixed config (busy_pool ∷ []) (quiet_pool ∷ quiet_pool ∷ []) burst (pos 0)
      (omega arith) (omega arith) (refl, (refl, tt)) (omega arith) tasks_in_hand (omega arith) due
      no_overflow
