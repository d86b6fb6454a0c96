-- ===== src/SpinLock/Progress.antt =====
-- A goroutine in `Lock` gets a lock that is free.
use go_agile_pool.Prelude.{
  ℕ, zero, suc, ◌+◌, ◌-◌, ◌≤◌, ◌≡◌, refl, ap, false, le→ltb, List, ◌∷◌, ◌++◌, Bool-cases, inl, inr,
  ltb, All-append_right, arith,
}
use go_agile_pool.SpinLock.{
  LockPhase, outside, fast, fast_yield, slow, slow_yield, fallback, fallback_yield, holding,
  advance, next_fast, next_slow, backoff_loop,
}
use go_agile_pool.SpinLock.System.{System, Reachable, new_spin_lock}
use go_agile_pool.SpinLock.Exclusion.{
  IsPatient, reachable-IsExclusive, holders, holders-append, holds, is_backoff→le,
}

-- Some steps of one goroutine, while the others stand still
abbrev pub alone : ℕ → ℕ × LockPhase → ℕ × LockPhase
alone zero s = s
alone (suc n) s = alone n (advance s.1 s.0)

-- The lock is got within a number of steps.
abbrev pub Acquires : ℕ → LockPhase → Type 0
Acquires bound ph = (n : ℕ) × (n ≤ bound) × (alone n (0, ph) ≡ (1, holding))

next_fast-Acquires : (i : ℕ) → Acquires 1 (next_fast i)
unfolding next_fast advance
next_fast-Acquires i = elim (Bool-cases (ltb (i + 1) 100)) [
  | inl more ↦ rw more (1, omega arith, refl)
  | inr over ↦ rw over (1, omega arith, refl)
]

next_slow-Acquires : (round backoff : ℕ) → Acquires 1 (next_slow round backoff)
unfolding next_slow advance
next_slow-Acquires round backoff = elim (Bool-cases (ltb (round + 1) 1024)) [
  | inl more ↦ rw more (1, omega arith, refl)
  | inr over ↦ rw over (1, omega arith, refl)
]

one_more :
    (ph next : LockPhase) (bound : ℕ)
    → advance ph 0 ≡ (0, next)
    → Acquires bound next
    → Acquires (suc bound) ph
one_more ph next bound e (n, b, r) = (suc n, omega arith, rw e r)

-- With `left` calls of Gosched to come
backoff_loop-Acquires :
    (left round backoff i : ℕ)
    → backoff ≤ i + left
    → Acquires (suc left) (backoff_loop round backoff i)
unfolding backoff_loop advance
backoff_loop-Acquires zero round backoff i h =
    let over : ltb i backoff ≡ false = le→ltb i backoff (omega arith) in
    rw over (next_slow-Acquires round backoff)
backoff_loop-Acquires (suc left) round backoff i h = elim (Bool-cases (ltb i backoff)) [
  | inl more ↦ rw more (
      one_more (slow_yield round backoff i) _ (suc left) refl
        (backoff_loop-Acquires left round backoff (i + 1) (omega arith)))
  | inr over ↦ rw over (later (next_slow-Acquires round backoff))
]
  where
    later : {ph : LockPhase} → Acquires 1 ph → Acquires (suc (suc left)) ph
    later (n, b, r) = (n, omega arith, r)

now : {ph : LockPhase} → alone 1 (0, ph) ≡ (1, holding) → Acquires 17 ph
now r = (1, omega arith, r)

within : (bound : ℕ) {ph : LockPhase} → bound ≤ 17 → Acquires bound ph → Acquires 17 ph
within bound h (n, b, r) = (n, omega arith, r)

patient-Acquires : (ph : LockPhase) → IsPatient ph → holds ph ≡ 0 → Acquires 17 ph
unfolding advance
patient-Acquires outside p h = (2, omega arith, refl)
patient-Acquires (fast i) p h = now refl
patient-Acquires (fast_yield i) p h =
    within 2 (omega arith) (one_more (fast_yield i) (next_fast i) 1 refl (next_fast-Acquires i))
patient-Acquires (slow round b) p h = now refl
patient-Acquires (slow_yield round b i) (l, p) h =
    within (suc (suc (b - (i + 1)))) (omega (arith, is_backoff→le b p)) (
      one_more (slow_yield round b i) (backoff_loop round b (i + 1)) (suc (b - (i + 1))) refl
        (backoff_loop-Acquires (b - (i + 1)) round b (i + 1) (omega arith)))
patient-Acquires fallback p h = now refl
patient-Acquires fallback_yield p h = (2, omega arith, refl)
patient-Acquires holding p h = absurd (omega arith)

-- In each reached state where the lock is free, every goroutine that has come, wherever it stands
-- in `Lock`, holds the lock after at most 17 steps of its own, if the others take none meanwhile.
pub free-Acquires :
    (s : System) (before after : List LockPhase) (ph : LockPhase)
    → Reachable new_spin_lock s
    → s.state ≡ 0
    → s.threads ≡ before ++ ph ∷ after
    → Acquires 17 ph
free-Acquires s before after ph r free e =
    let x =
      reachable-IsExclusive (record { counted = refl; one_at_most = omega arith; patient = tt })
        r in
    let p = All-append_right IsPatient before (ph ∷ after) (rw e at x.patient) in
    patient-Acquires ph p.0
      (omega (arith, x.counted, free, ap holders e, holders-append before (ph ∷ after)))
