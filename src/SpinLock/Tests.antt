-- ===== src/SpinLock/Tests.antt =====
-- Two goroutines at one spin lock.
use go_agile_pool.Prelude.{◌≤◌, ◌≡◌, refl, [], ◌∷◌}
use go_agile_pool.SpinLock.{outside, fast, slow, slow_yield, holding, advance}
use go_agile_pool.SpinLock.System.{System, comes, runs, Reachable, here, then_step, new_spin_lock}
use go_agile_pool.SpinLock.Exclusion.{holders, mutual_exclusion}
use go_agile_pool.SpinLock.Progress.{alone, Acquires, free-Acquires}

-- One holds the lock, the other has failed once.
abbrev contended : System
contended = record { state = 1; threads = holding ∷ fast 1 ∷ [] }

-- The first has unlocked again.
abbrev unlocked : System
unlocked = record { state = 0; threads = outside ∷ fast 1 ∷ [] }

contended-Reachable : Reachable new_spin_lock contended
unfolding advance
contended-Reachable =
    let two = then_step (then_step here (comes 0 [])) (comes 0 (outside ∷ [])) in
    let first =
      then_step (then_step two (runs 0 [] (outside ∷ []) outside))
        (runs 0 [] (outside ∷ []) (fast 0)) in
    then_step (then_step first (runs 1 (holding ∷ []) [] outside))
      (runs 1 (holding ∷ []) [] (fast 0))

unlocked-Reachable : Reachable new_spin_lock unlocked
unfolding advance
unlocked-Reachable = then_step contended-Reachable (runs 1 [] (fast 1 ∷ []) holding)

mutual_exclusion_example : (contended.state ≡ 1) × (holders contended.threads ≤ 1)
mutual_exclusion_example = mutual_exclusion contended contended-Reachable

free-Acquires_example : Acquires 17 (fast 1)
free-Acquires_example =
    free-Acquires unlocked (outside ∷ []) [] (fast 1) unlocked-Reachable refl refl

-- The longest wait: sixteen calls of Gosched, and the swap.
longest_wait : alone 17 (0, slow_yield 9 16 0) ≡ (1, holding)
unfolding advance
longest_wait = refl

-- While the lock is held, the last swap of the fast loop leads to the first slow round.
fast_loop_ends : alone 1 (1, fast 99) ≡ (1, slow 0 1)
unfolding advance
fast_loop_ends = refl
