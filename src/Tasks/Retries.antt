-- ===== src/Tasks/Retries.antt =====
-- How often a task with retries is tried, and how long it waits.
use go_agile_pool.Prelude.{
  ℕ, zero, suc, ◌+◌, ◌-◌, ◌^◌, ◌≤◌, ◌<◌, ◌≡◌, ◌≢◌, refl, ◌∙◌, Bool, true, false, Bool-cases, inl,
  inr, ltb, Option, none, some, if◌then◌else◌, arith,
}
use go_agile_pool.Prelude.Int.{ℤ, ◌≤ℤ◌}
use go_agile_pool.Prelude.Float.{Float64}
use go_agile_pool.Tasks.{
  Outcome, succeeded, failed, panicked, TaskWithRetry, TaskCalls, default_back_off_strategy,
  back_off_by, get_back_off_time, Wait, waits, wait_panics, try_after, after_try, retry_loop,
  round_left, next_round, Run, run_back_off_strategy, process_retry,
}

-- How many rounds a number allows: one from 2^63 on is negative as an int, and no round is run.
abbrev pub rounds : ℕ → ℕ
rounds retry_num = if ltb retry_num (2 ^ 63) then retry_num else 0

-- Unless the number is the largest int, the loop's test fails behind the last round, and up to there
-- it holds and `i++` does not wrap.
round_over : (r i : ℕ) → r < 2 ^ 63 - 1 → i ≡ r + 1 → round_left r i ≡ false
round_over r i h e = ground arith

round_on : (r i : ℕ) → r < 2 ^ 63 → i ≤ r → (round_left r i ≡ true) × (next_round i ≡ i + 1)
round_on r i h l = ground arith

no_round : (r i : ℕ) → 2 ^ 63 ≤ r → r < 2 ^ 64 → i < 2 ^ 63 → round_left r i ≡ false
no_round r i h l b = ground arith

round_always : (i : ℕ) → i < 2 ^ 64 → round_left (2 ^ 63 - 1) i ≡ true
round_always i h = ground arith

-- The test of the loop holds for a number of rounds, and then fails.
abbrev Ends : (r left i : ℕ) → Type 0
Ends r zero i = round_left r i ≡ false
Ends r (suc left) i = (round_left r i ≡ true) × Ends r left (next_round i)

Ends-small : (r left i : ℕ) → r < 2 ^ 63 - 1 → i + left ≡ r + 1 → Ends r left i
Ends-small r zero i h e = round_over r i h (omega (arith, e))
Ends-small r (suc left) i h e =
    let (on, next) = round_on r i (omega (arith, h)) (omega (arith, e)) in
    (on, Ends-small r left (next_round i) h (omega (arith, e, next)))

-- Every number but the largest int ends the loop, after as many rounds as it allows.
Ends-rounds : (r : ℕ) → r < 2 ^ 64 → r ≢ 2 ^ 63 - 1 → Ends r (rounds r) 1
Ends-rounds r h other = elim (Bool-cases (ltb r (2 ^ 63))) [
  | inl small ↦ rw small (Ends-small r r 1 (ground arith) (omega arith))
  | inr negative ↦ rw negative (no_round r 1 (ground arith) h (omega arith))
]

rounds-le : (n : ℕ) → rounds n ≤ n
rounds-le n = ground arith

-- A run ends, with a property of what it leaves.
abbrev pub Ran : {V W : Type 0} → (W × Option V → Type 0) → Option (W × Option V) → Type 0
Ran P o = (r : _) × (o ≡ some r) × P r

module _ (fl : Float64) (pow : fl.F → fl.F → fl.F) (equals : fl.F → fl.F → Bool) where
  -- Whatever the rounding of the floats does, the default wait is at most the configured maximum.
  pub default_back_off-le-max :
      (min max : ℤ) (retry_num : ℕ)
      → default_back_off_strategy fl pow equals min max retry_num ≤ℤ max
  unfolding default_back_off_strategy
  default_back_off-le-max min max retry_num = ground arith

  module _ {V W G B : Type 0} (calls : TaskCalls V W G B) where
    open calls use {call, sleep, strategy}

    -- A number that each call of the task raises by one, and that waiting leaves alone
    pub record IsCallCount (count : W → ℕ) : Type 0 where
      pub call_counts : (f : G) (w : W) → count (call f w).0 ≡ count w + 1
      pub sleep_keeps : (d : ℤ) (w : W) → count (sleep d w) ≡ count w
      pub strategy_keeps :
          (b : B) (min max : ℤ) (n : ℕ) (w : W) → count (strategy b min max n w).0 ≡ count w

    after_try-failed :
        (r : W × Outcome V) (again : Run V W)
        → r.1 ≡ failed
        → after_try fl pow equals calls r again ≡ again r.0
    unfolding after_try
    after_try-failed (w, succeeded) again e = cc
    after_try-failed (w, failed) again e = refl
    after_try-failed (w, panicked v) again e = cc

    module _ (count : W → ℕ) (counts : IsCallCount count) where
      back_off_keeps :
          (b : Option B) (t : TaskWithRetry G B) (i : ℕ) (w : W)
          → count (back_off_by fl pow equals calls b t i w).0 ≡ count w
      unfolding back_off_by
      back_off_keeps none t i w = refl
      back_off_keeps (some b) t i w = counts.strategy_keeps b t.min_back_off t.max_back_off i w

      wait_keeps :
          (t : TaskWithRetry G B) (i : ℕ) (w : W)
          → count (get_back_off_time fl pow equals calls t i w).0 ≡ count w
      unfolding get_back_off_time
      wait_keeps t i w = back_off_keeps t.back_off_strategy t i w

      -- At least `low` calls have been counted, and at most `more` beyond those.
      abbrev pub Within : (low more : ℕ) → W × Option V → Type 0
      Within low more r = (low ≤ count r.0) × (count r.0 ≤ low + more)

      -- From what a try leaves
      after_try-counts :
          (n k : ℕ) (r : W × Outcome V) (again : Run V W)
          → count r.0 ≡ n + 1
          → ((w : W) → Ran (Within (count w) k) (again w))
          → Ran (Within (n + 1) k) (after_try fl pow equals calls r again)
      unfolding after_try
      after_try-counts n k (w, succeeded) again e h = (_, refl, (omega arith, omega arith))
      after_try-counts n k (w, failed) again e h =
          let (r, run, (low, high)) = h w in (r, run, (omega arith, omega arith))
      after_try-counts n k (w, panicked v) again e h = (_, refl, (omega arith, omega arith))

      try_after-counts :
          (n k : ℕ) (r : W × Wait V) (t : TaskWithRetry G B) (again : Run V W)
          → count r.0 ≡ n
          → ((w : W) → Ran (Within (count w) k) (again w))
          → Ran (Within n (suc k)) (try_after fl pow equals calls r t again)
      unfolding try_after
      try_after-counts n k (w, waits d) t again e h =
          let slept = counts.sleep_keeps d w in
          let called = counts.call_counts t.task (sleep d w) in
          let (r, run, (low, high)) =
            after_try-counts n k (call t.task (sleep d w)) again (omega arith) h in
          (r, run, (omega arith, omega arith))
      try_after-counts n k (w, wait_panics v) t again e h = (_, refl, (omega arith, omega arith))

      retry_loop-counts :
          (left fuel i : ℕ) (t : TaskWithRetry G B) (w : W)
          → left < fuel
          → Ends t.retry_num left i
          → Ran (Within (count w) left) (retry_loop fl pow equals calls fuel i t w)
      unfolding retry_loop
      retry_loop-counts left zero i t w l e = absurd (omega arith)
      retry_loop-counts zero (suc fuel) i t w l e = rw e (_, refl, (omega arith, omega arith))
      retry_loop-counts (suc left) (suc fuel) i t w l (on, e) = rw on (
          try_after-counts (count w) left (get_back_off_time fl pow equals calls t i w) t
            (retry_loop fl pow equals calls fuel (next_round i) t) (wait_keeps t i w)
            (λ w'. retry_loop-counts left fuel (next_round i) t w' (omega arith) e))

      -- Whatever the task and the strategy do, where `RetryNum` is not the largest int: the run
      -- ends, with more fuel than there are rounds, and it has tried the task once and then at most
      -- as many times as `RetryNum` says.
      pub process_retry-counts :
          (fuel : ℕ) (t : TaskWithRetry G B) (w : W)
          → rounds t.retry_num < fuel
          → t.retry_num < 2 ^ 64
          → t.retry_num ≢ 2 ^ 63 - 1
          → Ran (Within (count w + 1) t.retry_num) (process_retry fl pow equals calls fuel t w)
      unfolding process_retry run_back_off_strategy
      process_retry-counts fuel t w enough b other =
          let first = counts.call_counts t.task w in
          let bound = rounds-le t.retry_num in
          let ends = Ends-rounds t.retry_num b other in
          let (r, run, (low, high)) =
            after_try-counts (count w) (rounds t.retry_num) (call t.task w)
              (retry_loop fl pow equals calls fuel 1 t) first
              (λ w'. retry_loop-counts (rounds t.retry_num) fuel 1 t w' enough ends) in
          (r, run, (low, omega arith))

    module _ (fails : (f : G) (w : W) → (call f w).1 ≡ failed) (t : TaskWithRetry G B)
        (plain : t.back_off_strategy ≡ none) where
      -- A round of such a task goes on to the next.
      round_fails :
          (i : ℕ) (w : W) (again : Run V W)
          → try_after fl pow equals calls (get_back_off_time fl pow equals calls t i w) t again
            ≡ again
                (call t.task (
                  sleep
                    (default_back_off_strategy fl pow equals t.min_back_off t.max_back_off i)
                    w)).0
      unfolding get_back_off_time back_off_by try_after
      round_fails i w again =
          let d = default_back_off_strategy fl pow equals t.min_back_off t.max_back_off i in
          rw plain (after_try-failed (call t.task (sleep d w)) again (fails t.task (sleep d w)))

      retry_loop-never :
          (fuel i : ℕ) (w : W)
          → i < 2 ^ 64
          → t.retry_num ≡ 2 ^ 63 - 1
          → retry_loop fl pow equals calls fuel i t w ≡ none
      unfolding retry_loop
      retry_loop-never zero i w b e = refl
      retry_loop-never (suc fuel) i w b e =
          let on : round_left t.retry_num i ≡ true = rw e (round_always i b) in
          rw (on, round_fails i w (retry_loop fl pow equals calls fuel (next_round i) t))
            (retry_loop-never fuel (next_round i) _ (omega arith) e)

      -- A task that always fails, with the default back-off and the largest int as its `RetryNum`,
      -- is tried without end: no fuel is enough.
      pub process_retry-never :
          (fuel : ℕ) (w : W)
          → t.retry_num ≡ 2 ^ 63 - 1
          → process_retry fl pow equals calls fuel t w ≡ none
      unfolding process_retry run_back_off_strategy
      process_retry-never fuel w e =
          after_try-failed (call t.task w) (retry_loop fl pow equals calls fuel 1 t)
            (fails t.task w)
          ∙ retry_loop-never fuel 1 (call t.task w).0 (omega arith) e

      module _ (count : W → ℕ) (counts : IsCallCount count) where
        retry_loop-exhausts :
            (left fuel i : ℕ) (w : W)
            → left < fuel
            → Ends t.retry_num left i
            → Ran
                (λ r. (count r.0 ≡ count w + left) × (r.1 ≡ none))
                (retry_loop fl pow equals calls fuel i t w)
        unfolding retry_loop
        retry_loop-exhausts left zero i w l e = absurd (omega arith)
        retry_loop-exhausts zero (suc fuel) i w l e = rw e (_, refl, (omega arith, refl))
        retry_loop-exhausts (suc left) (suc fuel) i w l (on, e) =
            let d = default_back_off_strategy fl pow equals t.min_back_off t.max_back_off i in
            let called = counts.call_counts t.task (sleep d w) in
            let slept = counts.sleep_keeps d w in
            let (r, run, (more, quiet)) =
              retry_loop-exhausts left fuel (next_round i) (call t.task (sleep d w)).0 (omega arith)
                e in
            rw (on, round_fails i w (retry_loop fl pow equals calls fuel (next_round i) t))
              (r, run, (omega arith, quiet))

        -- A task that always fails, with the default back-off, where `RetryNum` is not the largest
        -- int: the run ends, with more fuel than there are rounds; it has tried the task once and
        -- then in every round, and the last error is dropped without a panic. The number of rounds
        -- is `RetryNum` where that is an int, and 0 from 2^63 on.
        pub process_retry-exhausts :
            (fuel : ℕ) (w : W)
            → rounds t.retry_num < fuel
            → t.retry_num < 2 ^ 64
            → t.retry_num ≢ 2 ^ 63 - 1
            → Ran
                (λ r. (count r.0 ≡ count w + 1 + rounds t.retry_num) × (r.1 ≡ none))
                (process_retry fl pow equals calls fuel t w)
        unfolding process_retry run_back_off_strategy
        process_retry-exhausts fuel w enough b other =
            let called = counts.call_counts t.task w in
            let (r, run, (more, quiet)) =
              retry_loop-exhausts (rounds t.retry_num) fuel 1 (call t.task w).0 enough
                (Ends-rounds t.retry_num b other) in
            rw
              (after_try-failed (call t.task w) (retry_loop fl pow equals calls fuel 1 t)
                (fails t.task w))
              (r, run, (omega arith, quiet))
