-- ===== src/Config/Tests.antt =====
-- The config theorems at work on concrete options.
use go_agile_pool.Prelude.{ℕ, List, [], ◌∷◌}
use go_agile_pool.Prelude.Int.{pos, negsuc}
use go_agile_pool.Prelude.Fixed.{fixed}
use go_agile_pool.Config.{
  ConfigOption, with_clean_period, with_backlog_decay_factor, with_worker_num_capacity, new_config,
}
use go_agile_pool.Config.Bounds.{IsValid, new_config-IsValid}

-- A refused period, a refused factor and an accepted capacity.
abbrev some_options : List (ConfigOption fixed ℕ)
some_options =
    with_clean_period (negsuc 4)
    ∷ with_backlog_decay_factor 150
    ∷ with_worker_num_capacity (pos 20)
    ∷ []

new_config-IsValid_example : IsValid fixed ℕ (new_config fixed ℕ some_options)
new_config-IsValid_example = new_config-IsValid fixed ℕ some_options
