-- ===== src/Tasks.antt =====
-- task.go: the kinds of tasks, a task with retries, and the default back-off. What a user function
-- does is a parameter: it acts on the world `W`, and returns nil, returns an error, or panics with
-- a value of `V`. The loop of the retries runs on fuel.
pub mod Retries
mod Tests
use go_agile_pool.Prelude.{
  ℕ, zero, suc, ◌+◌, ◌%◌, ◌^◌, Bool, true, false, ◌||◌, not, ltb, Option, none, some, if◌then◌else◌,
}
use go_agile_pool.Prelude.Int.{ℤ, pos, ltb_ℤ, leb_ℤ}
use go_agile_pool.Shards.{to_int}
use go_agile_pool.Prelude.Float.{Float64}

-- How a call of a `func() error` ends
pub data Outcome (V : Type 0) : Type 0 where
  succeeded failed : Outcome V
  panicked : V → Outcome V

-- `TaskWithRetry`, over the functions `F` that can be its task and `B` that can be its strategy
pub record TaskWithRetry (F B : Type 0) : Type 0 where
  pub min_back_off : ℤ
  pub max_back_off : ℤ
  pub retry_num : ℕ
  pub back_off_strategy : Option B
  pub task : F

-- How a call of a user's back-off strategy ends
pub data Wait (V : Type 0) : Type 0 where
  waits : ℤ → Wait V
  wait_panics : V → Wait V

-- What the tasks call: user functions, `time.Sleep`, and a user's strategy.
pub record TaskCalls (V W F B : Type 0) : Type 0 where
  pub call : F → W → W × Outcome V
  pub sleep : ℤ → W → W
  pub strategy : B → (min max : ℤ) (retry_num : ℕ) → W → W × Wait V

-- An int is its 64-bit pattern, as `uint(i)` has it. `i <= int(t.RetryNum)`
abbrev pub round_left : (retry_num i : ℕ) → Bool
round_left retry_num i = leb_ℤ (to_int i) (to_int retry_num)

-- `i++`
abbrev pub next_round : ℕ → ℕ
next_round i = (i + 1) % 2 ^ 64

-- A run that may run out of fuel, in which case it is `none`.
abbrev pub Run : (V W : Type 0) → Type 0
Run V W = W → Option (W × Option V)

module _ (fl : Float64) (pow : fl.F → fl.F → fl.F) (equals : fl.F → fl.F → Bool) where
  open fl use {F, hundredths, mul, from_int, to_int}

  -- `pow` is `math.Pow`, and `equals` is `==` on float64.
  pub default_back_off_strategy : (min max : ℤ) (retry_num : ℕ) → ℤ
  default_back_off_strategy min max retry_num =
      let mult = mul (pow (hundredths 200) (from_int (pos retry_num))) (from_int min) in
      let sleep = to_int mult in
      if not (equals (from_int sleep) mult) || ltb_ℤ max sleep then max else sleep

  module _ {V W G B : Type 0} (calls : TaskCalls V W G B) where
    open calls use {call, sleep, strategy}

    pub back_off_by : Option B → TaskWithRetry G B → ℕ → W → W × Wait V
    back_off_by (some b) t retry_num w = strategy b t.min_back_off t.max_back_off retry_num w
    back_off_by none t retry_num w =
        (w, waits (default_back_off_strategy t.min_back_off t.max_back_off retry_num))

    pub get_back_off_time : TaskWithRetry G B → ℕ → W → W × Wait V
    unfolding back_off_by
    get_back_off_time t retry_num w = back_off_by t.back_off_strategy t retry_num w

    -- What follows a try: `continue` on an error, `break` or the return on success.
    pub after_try : W × Outcome V → Run V W → Option (W × Option V)
    after_try (w, succeeded) again = some (w, none)
    after_try (w, failed) again = again w
    after_try (w, panicked v) again = some (w, some v)

    -- One round: the sleep, the try, and what follows.
    pub try_after : W × Wait V → TaskWithRetry G B → Run V W → Option (W × Option V)
    try_after (w, waits back_off_time) t again =
        after_try (call t.task (sleep back_off_time w)) again
    try_after (w, wait_panics v) t again = some (w, some v)

    -- The loop from round `i` on
    pub retry_loop : (fuel i : ℕ) → TaskWithRetry G B → Run V W
    retry_loop zero i t w = none
    retry_loop (suc fuel) i t w =
        let round = try_after (get_back_off_time t i w) t (retry_loop fuel (next_round i) t) in
        if round_left t.retry_num i then round else some (w, none)

    pub run_back_off_strategy : (fuel : ℕ) → TaskWithRetry G B → Run V W
    run_back_off_strategy fuel t = retry_loop fuel 1 t

    -- `(*TaskWithRetry).process`
    unfoldable pub process_retry : (fuel : ℕ) → TaskWithRetry G B → Run V W
    process_retry fuel t w = after_try (call t.task w) (run_back_off_strategy fuel t)
