-- ===== src/Config/Bounds.antt =====
-- What every config that `NewConfig` returns satisfies.
use go_agile_pool.Prelude.{◌≡◌, true, List, [], ◌∷◌, arith}
use go_agile_pool.Prelude.Int.{pos, ◌≤ℤ◌}
use go_agile_pool.Prelude.Float.{Float64}
use go_agile_pool.Config.{
  Config, ConfigOption, with_clean_period, apply, default_config, apply_all, new_config,
}

module _ (fl : Float64) (H : Type 0) where
  open fl use {F, hundredths, le}

  pub record IsValid (c : Config F H) : Type 0 where
    pub clean_period : pos 1 ≤ℤ c.clean_period
    pub task_queue_size : pos 1 ≤ℤ c.task_queue_size
    pub worker_num_capacity : pos 1 ≤ℤ c.worker_num_capacity
    pub stats_sample_period : pos 1 ≤ℤ c.stats_sample_period
    pub stats_window_size : pos 1 ≤ℤ c.stats_window_size
    pub scaler_period : pos 1 ≤ℤ c.scaler_period
    pub decay_lower : le (hundredths 0) c.backlog_decay_factor ≡ true
    pub decay_upper : le c.backlog_decay_factor (hundredths 100) ≡ true
    pub zero_consume_scale_interval : pos 1 ≤ℤ c.zero_consume_scale_interval
    pub max_zero_consume_scale_step : pos 1 ≤ℤ c.max_zero_consume_scale_step

  apply-IsValid : (o : ConfigOption fl H) (c : Config F H) → IsValid c → IsValid (apply fl H o c)
  unfolding apply
  apply-IsValid (with_clean_period d) c v = ground arith
  apply-IsValid _ c v = ground arith

  apply_all-IsValid :
      (os : List (ConfigOption fl H)) (c : Config F H) → IsValid c → IsValid (apply_all fl H os c)
  unfolding apply_all
  apply_all-IsValid [] c v = v
  apply_all-IsValid (o ∷ os) c v = apply_all-IsValid os (apply fl H o c) (apply-IsValid o c v)

  -- Whatever options are given and in whatever order, the config has positive periods, sizes,
  -- capacity and step, and a decay factor between 0 and 1.
  pub new_config-IsValid : (opts : List (ConfigOption fl H)) → IsValid (new_config fl H opts)
  unfolding new_config default_config
  new_config-IsValid opts = apply_all-IsValid opts _ (record {
    clean_period = omega arith;
    task_queue_size = omega arith;
    worker_num_capacity = omega arith;
    stats_sample_period = omega arith;
    stats_window_size = omega arith;
    scaler_period = omega arith;
    decay_lower = fl.zero_le_three_tenths;
    decay_upper = fl.three_tenths_le_one;
    zero_consume_scale_interval = omega arith;
    max_zero_consume_scale_step = omega arith;
  })
