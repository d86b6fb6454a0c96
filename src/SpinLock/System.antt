-- ===== src/SpinLock/System.antt =====
-- Goroutines that lock and unlock one spin lock, interleaved in any order.
use go_agile_pool.Prelude.{ℕ, List, [], ◌∷◌, ◌++◌}
use go_agile_pool.SpinLock.{LockPhase, outside, advance}

-- `spinLock`, with the goroutines that use it
pub record System : Type 0 where
  pub state : ℕ
  pub threads : List LockPhase

-- A goroutine comes, or one takes its next step. Only the holder unlocks, as `Unlock` demands.
pub data Step : System → System → Type 0 where
  comes :
      (state : ℕ) (phs : List LockPhase)
      → Step
          (record { state = state; threads = phs })
          (record { state = state; threads = outside ∷ phs })
  runs :
      (state : ℕ) (before after : List LockPhase) (ph : LockPhase)
      → Step
          (record { state = state; threads = before ++ ph ∷ after })
          (record {
            state = (advance ph state).0;
            threads = before ++ (advance ph state).1 ∷ after;
          })

pub data Reachable (start : System) : System → Type 0 where
  here : Reachable start start
  then_step : {m n : System} → Reachable start m → Step m n → Reachable start n

-- `newSpinLock`, with no goroutine
abbrev pub new_spin_lock : System
new_spin_lock = record { state = 0; threads = [] }
