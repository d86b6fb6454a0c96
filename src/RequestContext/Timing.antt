-- ===== src/RequestContext/Timing.antt =====
-- How the latencies of a task add up.
use go_agile_pool.Prelude.{◌-◌, ◌^◌, ◌≡◌, sym, false, arith}
use go_agile_pool.Prelude.Int.{
  ℤ, pos, negsuc, ◌+ℤ◌, ◌-ℤ◌, ◌≤ℤ◌, min_ℤ, max_ℤ, int_laws, eq_of_parts, -ℤ_parts,
}
use go_agile_pool.RequestContext.{
  LabelMap, Times, label_timing_submitted, label_timing_enqueued, label_timing_started,
  label_timing_completed, get_time, timing, between, total_latency, queue_latency, exec_latency,
  handoff_latency, queue_wait_latency,
}

minus_split : (a b c : ℤ) → (b -ℤ a) +ℤ (c -ℤ b) ≡ c -ℤ a
unfolding ◌+ℤ◌ ◌-ℤ◌
minus_split (pos a) (pos b) c = ground arith
minus_split (pos a) (negsuc b) c = ground arith
minus_split (negsuc a) (pos b) c = ground arith
minus_split (negsuc a) (negsuc b) c = ground arith

abbrev pub max_duration : ℤ
max_duration = pos (2 ^ 63 - 1)

abbrev min_duration : ℤ
min_duration = negsuc (2 ^ 63 - 1)

-- The duration nearest to a difference
abbrev pub saturated : ℤ → ℤ
saturated d = max_ℤ min_duration (min_ℤ d max_duration)

-- A difference that is a duration
saturated-fits : (d : ℤ) → pos 0 ≤ℤ d → d ≤ℤ max_duration → saturated d ≡ d
saturated-fits d low high = eq_of_parts (saturated d) d (ground arith)

difference-le : (a b : ℤ) → a ≤ℤ b → pos 0 ≤ℤ b -ℤ a
difference-le a b h = omega (int_laws, -ℤ_parts b a, h)

difference-within : (a b c d m : ℤ) → a ≤ℤ b → c ≤ℤ d → d -ℤ a ≤ℤ m → c -ℤ b ≤ℤ m
difference-within a b c d m h k l = omega (int_laws, -ℤ_parts d a, -ℤ_parts c b, h, k, l)

module _ {T : Type 0} (times : Times T) (ticks : T → ℤ)
    (sub_saturates : (a b : T) → times.sub a b ≡ saturated (ticks a -ℤ ticks b)) where
  open times use {is_zero}

  -- Between two recorded times in order, not too far apart
  between-exact :
      (a b : T)
      → is_zero a ≡ false
      → is_zero b ≡ false
      → ticks a ≤ℤ ticks b
      → ticks b -ℤ ticks a ≤ℤ max_duration
      → between times a b ≡ ticks b -ℤ ticks a
  unfolding between
  between-exact a b x y h fits =
      rw (x, y, sub_saturates b a)
        (saturated-fits (ticks b -ℤ ticks a) (difference-le (ticks a) (ticks b) h) fits)

module _ {T O : Type 0} (times : Times T) (ticks : T → ℤ)
    (sub_saturates : (a b : T) → times.sub a b ≡ saturated (ticks a -ℤ ticks b)) where
  open times use {is_zero}

  -- The stages of a task, one after another, that are recorded
  pub record Staged (labels : LabelMap T O) : Type 0 where
    pub submitted : is_zero (get_time times labels label_timing_submitted) ≡ false
    pub enqueued : is_zero (get_time times labels label_timing_enqueued) ≡ false
    pub started : is_zero (get_time times labels label_timing_started) ≡ false
    pub completed : is_zero (get_time times labels label_timing_completed) ≡ false
    pub enqueues :
        ticks (get_time times labels label_timing_submitted)
        ≤ℤ ticks (get_time times labels label_timing_enqueued)
    pub starts :
        ticks (get_time times labels label_timing_enqueued)
        ≤ℤ ticks (get_time times labels label_timing_started)
    pub completes :
        ticks (get_time times labels label_timing_started)
        ≤ℤ ticks (get_time times labels label_timing_completed)

  -- Where `Sub` returns the difference on one scale, saturated to the least or the largest duration:
  -- with all four stages recorded, in order, and no more than the largest duration in all, no
  -- latency is negative, the total is the hand-off, the wait in the queue and the execution
  -- together, and the queue latency is the first two of these.
  pub latencies_add_up :
      (labels : LabelMap T O)
      → Staged labels
      → ticks (get_time times labels label_timing_completed)
          -ℤ ticks (get_time times labels label_timing_submitted)
        ≤ℤ max_duration
      → (queue_latency times labels
          ≡ handoff_latency times labels +ℤ queue_wait_latency times labels)
        × (total_latency times labels ≡ queue_latency times labels +ℤ exec_latency times labels)
        × (pos 0 ≤ℤ handoff_latency times labels)
        × (pos 0 ≤ℤ queue_wait_latency times labels)
        × (pos 0 ≤ℤ exec_latency times labels)
  unfolding queue_latency handoff_latency queue_wait_latency total_latency exec_latency timing
  latencies_add_up labels g fits =
      let t1 = get_time times labels label_timing_submitted in
      let t2 = get_time times labels label_timing_enqueued in
      let t3 = get_time times labels label_timing_started in
      let t4 = get_time times labels label_timing_completed in
      let to2 : ticks t1 ≤ℤ ticks t3 = omega (arith, g.enqueues, g.starts) in
      let to4 : ticks t1 ≤ℤ ticks t4 = omega (arith, to2, g.completes) in
      let from2 : ticks t2 ≤ℤ ticks t4 = omega (arith, g.starts, g.completes) in
      let near = λ (b c : T) (h : ticks t1 ≤ℤ ticks b) (k : ticks c ≤ℤ ticks t4).
        difference-within (ticks t1) (ticks b) (ticks c) (ticks t4) max_duration h k fits in
      let same : ticks t1 ≤ℤ ticks t1 = omega arith in
      let last : ticks t4 ≤ℤ ticks t4 = omega arith in
      let exact = between-exact times ticks sub_saturates in
      let d12 = exact t1 t2 g.submitted g.enqueued g.enqueues (near t1 t2 same from2) in
      let d13 = exact t1 t3 g.submitted g.started to2 (near t1 t3 same g.completes) in
      let d23 = exact t2 t3 g.enqueued g.started g.starts (near t2 t3 g.enqueues g.completes) in
      let d14 = exact t1 t4 g.submitted g.completed to4 fits in
      let d34 = exact t3 t4 g.started g.completed g.completes (near t3 t4 to2 last) in
      rw (d12, d13, d23, d14, d34)
        (
          sym (minus_split (ticks t1) (ticks t2) (ticks t3)),
          sym (minus_split (ticks t1) (ticks t3) (ticks t4)),
          difference-le (ticks t1) (ticks t2) g.enqueues,
          difference-le (ticks t2) (ticks t3) g.starts,
          difference-le (ticks t3) (ticks t4) g.completes,
        )
