-- ===== src/Scaling.antt =====
-- pool.go: the statistics of a pool (statsSampler, sampleRates, getMedianRates) and the part of
-- scaleIfNeeded before the lock, which decides how many workers to start. What it reads of the pool
-- is an argument, since other goroutines run between its loads. Times are nanoseconds. The numbers
-- of workers and tasks are never negative, so only the sum with the exit rate can overflow.
pub mod Decision
pub mod Drained
pub mod Growth
pub mod Idling
pub mod Rescue
mod Tests
mod PoolTests
use go_agile_pool.Prelude.{
  ℕ, ◌+◌, ◌-◌, Bool, true, false, ◌&&◌, Option, none, some, List, [], ◌∷◌, length, if◌then◌else◌,
}
use go_agile_pool.Prelude.Int.{ℤ, pos, pos_part, ◌+ℤ◌, ◌-ℤ◌, ltb_ℤ, leb_ℤ, min_ℤ, max_ℤ}
use go_agile_pool.Prelude.Float.{Float64}
use go_agile_pool.Config.{Config}
use go_agile_pool.Histogram as HistogramCode
use go_agile_pool.Histogram.{
  Histogram, new_histogram, median, submit_buckets, consume_buckets, exit_buckets,
}
use go_agile_pool.Pool.{Shared, is_zero}
use go_agile_pool.Shards.{wrap}

-- `submitHist`, `consumeHist` and `exitHist`
pub record Statistics : Type 0 where
  pub submit_hist : Histogram
  pub consume_hist : Histogram
  pub exit_hist : Histogram

pub new_statistics : {F H : Type 0} → Config F H → Statistics
new_statistics c =
    let n = pos_part c.stats_window_size in
    record {
      submit_hist = new_histogram submit_buckets n;
      consume_hist = new_histogram consume_buckets n;
      exit_hist = new_histogram exit_buckets n;
    }

module _ {T : Type 0} where
  -- `sampleRates`: each counter is swapped for 0 and recorded.
  pub sample_rates : Shared T → Statistics → Shared T × Statistics
  sample_rates s st = (
    record s { submit_count = 0; consume_count = 0; exit_count = 0 },
    record {
      submit_hist = HistogramCode.add st.submit_hist s.submit_count;
      consume_hist = HistogramCode.add st.consume_hist s.consume_count;
      exit_hist = HistogramCode.add st.exit_hist s.exit_count;
    },
  )

  -- The test behind a tick of the sampler and of the scaler: closed and drained.
  pub drained : Shared T → Bool
  drained s = s.closed && is_zero s.pending_tasks

  -- One tick of `statsSampler`, and whether it goes on
  pub sampler_tick : Shared T → Statistics → Shared T × Statistics × Bool
  unfolding sample_rates drained
  sampler_tick s st = let (s', st') = sample_rates s st in (s', st', drained s')

  -- `GetTaskQueueLen`: the loop over the shards
  pub get_task_queue_len : List (List T) → ℕ
  get_task_queue_len [] = 0
  get_task_queue_len (q ∷ qs) = length q + get_task_queue_len qs

  pub queued_tasks : Shared T → ℕ
  unfolding get_task_queue_len
  queued_tasks s = get_task_queue_len s.task_queues + length s.buf

-- What `getMedianRates` returns
pub record Medians (F : Type 0) : Type 0 where
  pub submit_med : F
  pub consume_med : F
  pub exit_med : F

-- What `scaleIfNeeded` reads, each at its own moment
pub record Load : Type 0 where
  pub running : ℤ
  pub buf_depth : ℤ
  pub total_backlog : ℤ
  pub queued : ℤ
  pub now : ℤ

-- `if exitPerTick > 0 { toSpawn += exitPerTick }`
pub with_exits : (to_spawn exits : ℤ) → ℤ
with_exits to_spawn exits = if ltb_ℤ (pos 0) exits then wrap (to_spawn +ℤ exits) else to_spawn

-- The load of a pool that stands still while it is read
pub load_of : {T : Type 0} → Shared T → (now : ℤ) → Load
load_of s now = record {
  running = s.running_workers_num;
  buf_depth = pos (length s.buf);
  total_backlog = s.pending_tasks;
  queued = pos (queued_tasks s);
  now = now;
}

module _ (fl : Float64) where
  open fl use {F, hundredths, lt, mul, div, halves, from_int, to_int}

  pub get_median_rates : Statistics → Medians F
  get_median_rates st = record {
    submit_med = halves (median st.submit_hist);
    consume_med = halves (median st.consume_hist);
    exit_med = halves (median st.exit_hist);
  }

  pub positive : F → Bool
  positive x = lt (hundredths 0) x

  -- The rate-based target, 0 where a rate is missing
  pub rate_target : Medians F → (running : ℤ) → ℤ
  unfolding positive
  rate_target m running =
      if ltb_ℤ (pos 0) running && positive m.consume_med && positive m.submit_med
      then to_int (div (mul m.submit_med (from_int running)) m.consume_med)
      else pos 0

module _ (fl : Float64) {H : Type 0} where
  open fl use {F, hundredths, add, sub, mul, div, least, from_int, to_int}

  -- `qTarget`
  pub backlog_rate_target : Config F H → Medians F → Load → ℤ
  backlog_rate_target c m l =
      let buf_cycles = div (from_int l.buf_depth) m.consume_med in
      let buf_pressure = least (hundredths 100) (mul buf_cycles (hundredths 15)) in
      let decay = c.backlog_decay_factor in
      let dynamic_decay = add decay (mul (sub (hundredths 100) decay) buf_pressure) in
      let effective_submit = add m.submit_med (mul (from_int l.total_backlog) dynamic_decay) in
      to_int (div (mul effective_submit (from_int l.running)) m.consume_med)

  -- The condition of the zero-consume fallback, and its step
  pub growth_due : Config F H → Load → (last_zero_consume_scale : ℤ) → Bool
  growth_due c l last =
      ltb_ℤ (pos 0) l.queued
      && ltb_ℤ (pos 0) (c.worker_num_capacity -ℤ l.running)
      && leb_ℤ c.zero_consume_scale_interval (l.now -ℤ last)

  pub growth : Config F H → Load → ℤ
  growth c l =
      min_ℤ (min_ℤ (min_ℤ l.queued (max_ℤ (pos 1) l.running)) c.max_zero_consume_scale_step)
        (c.worker_num_capacity -ℤ l.running)

  pub zero_consume_target : Config F H → Load → (last target : ℤ) → ℤ × ℤ
  zero_consume_target c l last target =
      if growth_due c l last then (l.running +ℤ growth c l, l.now) else (target, last)

  -- The switch on a backlog, with the time stamp of the last step of growth
  pub backlog_target : Config F H → Medians F → Load → (last target : ℤ) → ℤ × ℤ
  backlog_target c m l last target =
      if ltb_ℤ (pos 0) l.total_backlog
      then (if is_zero l.running
          then (l.total_backlog, last)
          else (if positive fl m.consume_med
              then (max_ℤ target (backlog_rate_target c m l), last)
              else zero_consume_target c l last target))
      else (target, last)

  -- The target after both caps
  pub capped : Config F H → Load → ℤ → ℤ
  capped c l target = min_ℤ (min_ℤ target l.total_backlog) c.worker_num_capacity

  -- `exitPerTick`
  pub exit_per_tick : Config F H → Medians F → ℤ
  exit_per_tick c m =
      to_int (div (mul m.exit_med (from_int c.scaler_period)) (from_int c.stats_sample_period))

  -- The bounding checks, from a target that is above the workers there are
  pub bounded : Config F H → (running to_spawn : ℤ) → Option ℕ
  bounded c running to_spawn =
      let n = min_ℤ to_spawn (c.worker_num_capacity -ℤ running) in
      if leb_ℤ n (pos 0) then none else some (pos_part n)

  pub spawn_for : Config F H → Medians F → Load → (target : ℤ) → Option ℕ
  spawn_for c m l target =
      if leb_ℤ target l.running
      then none
      else bounded c l.running (with_exits (target -ℤ l.running) (exit_per_tick c m))

  -- How many workers `scaleIfNeeded` goes to the lock with, if it does, and the time stamp that it
  -- leaves
  pub decide : Config F H → Medians F → Load → (last : ℤ) → Option ℕ × ℤ
  decide c m l last =
      let (target, last') = backlog_target c m l last (rate_target fl m l.running) in
      (spawn_for c m l (capped c l target), last')
