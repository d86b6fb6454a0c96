-- ===== src/Scaling/Idling.antt =====
-- From the samples to the scaler: a window without consumption leaves it to the queued tasks.
use mathlib.Core.List.{map-append}
use go_agile_pool.Prelude.{
  ℕ, ◌-◌, ◌^◌, ◌≤◌, ◌<◌, ◌≡◌, refl, true, false, some, List, [], ◌∷◌, ◌++◌, map, length, length-map,
  arith,
}
use go_agile_pool.Prelude.Int.{ℤ, pos, pos_part, ◌+ℤ◌, ◌≤ℤ◌}
use go_agile_pool.Prelude.Float.{Float64}
use go_agile_pool.Config.{Config}
use go_agile_pool.Histogram.{median}
use go_agile_pool.Histogram.History.{add_all}
use go_agile_pool.Histogram.Quiet.{AllZero, median-quiet}
use go_agile_pool.Pool.{Shared}
use go_agile_pool.Scaling.{
  Statistics, new_statistics, sample_rates, get_median_rates, positive, Load, growth_due, growth,
  exit_per_tick, decide,
}
use go_agile_pool.Scaling.Growth.{decide-grows}

-- The statistics after the sampler has found the pool in these states, one tick after another.
unfoldable pub sampled : {T : Type 0} → Statistics → List (Shared T) → Statistics
unfolding sample_rates
sampled st [] = st
sampled st (s ∷ ss) = sampled (sample_rates s st).1 ss

consume_hist-sampled :
    {T : Type 0} (st : Statistics) (ss : List (Shared T))
    → (sampled st ss).consume_hist ≡ add_all st.consume_hist (map (λ s. s.consume_count) ss)
unfolding sampled add_all
consume_hist-sampled st [] = refl
consume_hist-sampled st (s ∷ ss) = consume_hist-sampled (sample_rates s st).1 ss

module _ {T : Type 0} (fl : Float64) {H : Type 0} where
  open fl use {F}

  -- The statistics of a new pool whose sampler found no consumption in the last windows
  idle_median :
      (c : Config F H) (before quiet : List (Shared T))
      → 0 < pos_part c.stats_window_size
      → pos_part c.stats_window_size ≤ length quiet
      → AllZero (map (λ s. s.consume_count) quiet)
      → median (sampled (new_statistics c) (before ++ quiet)).consume_hist ≡ 0
  unfolding new_statistics
  idle_median c before quiet some_window enough z =
      let counts = map (λ (s : Shared T). s.consume_count) in
      rw (consume_hist-sampled (new_statistics c) (before ++ quiet), map-append)
        (median-quiet (pos_part c.stats_window_size) (counts before) (counts quiet) some_window
          (omega (arith, length-map (λ (s : Shared T). s.consume_count) quiet)) z)

  -- A pool whose sampler has found no consumption in the last windows sees no rate of consumption.
  unseen :
      (c : Config F H) (before quiet : List (Shared T))
      → 0 < pos_part c.stats_window_size
      → pos_part c.stats_window_size ≤ length quiet
      → AllZero (map (λ s. s.consume_count) quiet)
      → positive fl (get_median_rates fl (sampled (new_statistics c) (before ++ quiet))).consume_med
        ≡ false
  unfolding get_median_rates positive
  unseen c before quiet some_window enough z =
      rw (idle_median c before quiet some_window enough z) fl.no_half_above_zero

  -- A pool with running workers whose sampler has found no consumption in the last windows, with
  -- tasks queued beside as many in hand as there are workers, grows once the interval is over and
  -- the capacity has room: the scaler goes to the lock with at least one worker to start and at
  -- least the step of growth, and moves its time stamp, where the sum with the expected exits does
  -- not overflow.
  pub idle_pool-grows :
      (c : Config F H) (before quiet : List (Shared T)) (l : Load) (last_scale : ℤ)
      → 0 < pos_part c.stats_window_size
      → pos_part c.stats_window_size ≤ length quiet
      → AllZero (map (λ s. s.consume_count) quiet)
      → pos 1 ≤ℤ l.running
      → l.running +ℤ l.queued ≤ℤ l.total_backlog
      → pos 1 ≤ℤ c.max_zero_consume_scale_step
      → growth_due fl c l last_scale ≡ true
      → growth fl c l
          +ℤ exit_per_tick fl c (get_median_rates fl (sampled (new_statistics c) (before ++ quiet)))
        ≤ℤ pos (2 ^ 63 - 1)
      → (n : ℕ) × (decide fl c
            (get_median_rates fl (sampled (new_statistics c) (before ++ quiet)))
            l
            last_scale
          ≡ (some n, l.now))
        × (1 ≤ n)
        × (growth fl c l ≤ℤ pos n)
  idle_pool-grows c before quiet l last_scale some_window enough z r b s d o =
      decide-grows fl c (get_median_rates fl (sampled (new_statistics c) (before ++ quiet))) l
        last_scale r b (unseen c before quiet some_window enough z) s d o
