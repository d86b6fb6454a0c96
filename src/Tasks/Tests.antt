-- ===== src/Tasks/Tests.antt =====
-- The task theorems at work on a task that fails and counts its tries.
use go_agile_pool.Prelude.{if◌then◌else◌, ℕ, ◌+◌, ◌-◌, ◌^◌, arith, ◌≡◌, refl, ◌==◌, none}
use go_agile_pool.Prelude.Int.{pos, ◌≤ℤ◌}
use go_agile_pool.Prelude.Fixed.{fixed}
use go_agile_pool.Tasks.{
  failed, TaskWithRetry, TaskCalls, waits, default_back_off_strategy, process_retry,
}
use go_agile_pool.Tasks.Retries.{
  Ran, Within, rounds, process_retry-never, IsCallCount, default_back_off-le-max,
  process_retry-counts, process_retry-exhausts,
}

-- A stand-in for math.Pow with base 2, in hundredths, up to 2^3
abbrev small_pow : ℕ → ℕ → ℕ
small_pow base e = if e == 100 then 200 else if e == 200 then 400 else 800

-- The world counts the calls, and every call fails.
abbrev failing_calls : TaskCalls ℕ ℕ ℕ ℕ
failing_calls = record {
  call = λ f w. (w + 1, failed);
  sleep = λ d w. w;
  strategy = λ b min max n w. (w, waits max);
}

abbrev three_retries : TaskWithRetry ℕ ℕ
three_retries = record {
  min_back_off = pos 10;
  max_back_off = pos 50;
  retry_num = 3;
  back_off_strategy = none;
  task = 0;
}

the_count : IsCallCount fixed small_pow ◌==◌ failing_calls (λ w. w)
the_count = record {
  call_counts = λ f w. refl;
  sleep_keeps = λ d w. refl;
  strategy_keeps = λ b min max n w. refl;
}

doubles : default_back_off_strategy fixed small_pow ◌==◌ (pos 10) (pos 50) 2 ≡ pos 40
unfolding default_back_off_strategy
doubles = refl

default_back_off-le-max_example :
    default_back_off_strategy fixed small_pow ◌==◌ (pos 10) (pos 50) 3 ≤ℤ pos 50
default_back_off-le-max_example = default_back_off-le-max fixed small_pow ◌==◌ (pos 10) (pos 50) 3

process_retry-counts_example :
    Ran
      (Within fixed small_pow ◌==◌ failing_calls (λ w. w) the_count (7 + 1) 3)
      (process_retry fixed small_pow ◌==◌ failing_calls 4 three_retries 7)
process_retry-counts_example =
    process_retry-counts fixed small_pow ◌==◌ failing_calls (λ w. w) the_count 4 three_retries 7
      (omega arith) (omega arith) (λ e. cc e)

process_retry-exhausts_example :
    Ran
      (λ (w', v). (w' ≡ 7 + 1 + rounds 3) × (v ≡ none))
      (process_retry fixed small_pow ◌==◌ failing_calls 4 three_retries 7)
process_retry-exhausts_example =
    process_retry-exhausts fixed small_pow ◌==◌ failing_calls (λ f w. refl) three_retries refl
      (λ w. w) the_count 4 7 (omega arith) (omega arith) (λ e. cc e)

abbrev endless_retries : TaskWithRetry ℕ ℕ
endless_retries = record three_retries { retry_num = 2 ^ 63 - 1 }

process_retry-never_example :
    process_retry fixed small_pow ◌==◌ failing_calls 1000 endless_retries 7 ≡ none
process_retry-never_example =
    process_retry-never fixed small_pow ◌==◌ failing_calls (λ f w. refl) endless_retries refl 1000 7
      refl
