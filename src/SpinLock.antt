-- ===== src/SpinLock.antt =====
-- spinlock.go. A goroutine's place in `Lock` is a constructor of LockPhase, and each compare-and-swap,
-- each `runtime.Gosched()` and the store of `Unlock` is one step. Gosched only lets others run.
pub mod System
pub mod Exclusion
pub mod Progress
mod Tests
use go_agile_pool.Prelude.{ℕ, ◌+◌, ◌*◌, ◌%◌, ltb, ◌==◌, if◌then◌else◌}

abbrev pub fast_spin : ℕ
fast_spin = 100

abbrev pub yield_interval : ℕ
yield_interval = 16

abbrev pub max_backoff : ℕ
max_backoff = 16

abbrev pub max_rounds : ℕ
max_rounds = 1024

-- `outside` is before a call of `Lock`, `holding` between its return and `Unlock`. The others are the
-- compare-and-swap of each phase, with the loop variables, and the calls of Gosched.
pub data LockPhase : Type 0 where
  outside : LockPhase
  fast fast_yield : (i : ℕ) → LockPhase
  slow : (round backoff : ℕ) → LockPhase
  slow_yield : (round backoff i : ℕ) → LockPhase
  fallback fallback_yield : LockPhase
  holding : LockPhase

-- `i++` of the fast loop, and its test
unfoldable pub next_fast : ℕ → LockPhase
next_fast i = if ltb (i + 1) fast_spin then fast (i + 1) else slow 0 1

-- What follows a swap that failed in the fast loop
unfoldable pub after_fast : ℕ → LockPhase
unfolding next_fast
after_fast i = if (i + 1) % yield_interval == 0 then fast_yield i else next_fast i

-- `if backoff < maxBackoff { backoff <<= 1 }`
unfoldable pub longer : ℕ → ℕ
longer backoff = if ltb backoff max_backoff then backoff * 2 else backoff

-- The end of a slow round
unfoldable pub next_slow : (round backoff : ℕ) → LockPhase
unfolding longer
next_slow round backoff =
    if ltb (round + 1) max_rounds then slow (round + 1) (longer backoff) else fallback

-- `for i := 0; i < backoff; i++`, at its test
unfoldable pub backoff_loop : (round backoff i : ℕ) → LockPhase
unfolding next_slow
backoff_loop round backoff i =
    if ltb i backoff then slow_yield round backoff i else next_slow round backoff

-- `atomic.CompareAndSwapUint32(&s.state, 0, 1)`, with the phase where it fails
unfoldable pub swap_or : LockPhase → ℕ → ℕ × LockPhase
swap_or otherwise state = if state == 0 then (1, holding) else (state, otherwise)

-- The next step of a goroutine that locks and unlocks: the state of the lock, and where it stands.
unfoldable pub advance : LockPhase → ℕ → ℕ × LockPhase
unfolding swap_or after_fast backoff_loop
advance outside state = (state, fast 0)
advance (fast i) state = swap_or (after_fast i) state
advance (fast_yield i) state = (state, next_fast i)
advance (slow round backoff) state = swap_or (backoff_loop round backoff 0) state
advance (slow_yield round backoff i) state = (state, backoff_loop round backoff (i + 1))
advance fallback state = swap_or fallback_yield state
advance fallback_yield state = (state, fallback)
advance holding state = (0, outside)
