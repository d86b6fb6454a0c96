-- ===== src/SpinLock/Exclusion.antt =====
-- Mutual exclusion.
use go_agile_pool.Prelude.{
  ℕ, ◌+◌, ◌≤◌, ◌<◌, ◌≡◌, refl, ◌%◌, Bool, true, ◌||◌, ltb→lt, List, [], ◌∷◌, ◌++◌, Bool-cases, inl,
  inr, ltb, ◌==◌, All, All-append, All-append_left, All-append_right, arith,
}
use go_agile_pool.SpinLock.{
  LockPhase, outside, fast, fast_yield, slow, slow_yield, fallback, fallback_yield, holding,
  max_backoff, advance, swap_or, next_fast, after_fast, longer, next_slow, backoff_loop,
}
use go_agile_pool.SpinLock.System.{
  System, Step, comes, runs, Reachable, here, then_step, new_spin_lock,
}

abbrev pub holds : LockPhase → ℕ
holds holding = 1
holds _ = 0

-- How many goroutines hold the lock
abbrev pub holders : List LockPhase → ℕ
holders [] = 0
holders (ph ∷ phs) = holds ph + holders phs

-- What a back-off is, from 1 doubled up to the maximum
abbrev pub is_backoff : ℕ → Bool
is_backoff b = b == 1 || b == 2 || b == 4 || b == 8 || b == max_backoff

pub is_backoff→le : (b : ℕ) → is_backoff b ≡ true → b ≤ max_backoff
is_backoff→le b h = ground arith

abbrev pub IsPatient : LockPhase → Type 0
IsPatient (slow round backoff) = is_backoff backoff ≡ true
IsPatient (slow_yield round backoff i) = (i < backoff) × (is_backoff backoff ≡ true)
IsPatient _ = Unit

-- The word of the lock counts the holders, which are one at most.
pub record IsExclusive (s : System) : Type 0 where
  pub counted : s.state ≡ holders s.threads
  pub one_at_most : s.state ≤ 1
  pub patient : All IsPatient s.threads

pub holders-append : (xs ys : List LockPhase) → holders (xs ++ ys) ≡ holders xs + holders ys
holders-append [] ys = omega arith
holders-append (ph ∷ xs) ys = omega (arith, holders-append xs ys)

holds-next_fast : (i : ℕ) → holds (next_fast i) ≡ 0
unfolding next_fast
holds-next_fast i = ground arith

-- A step changes the word as it changes the goroutine's hold.
advance-holds :
    (ph : LockPhase) (state rest : ℕ)
    → state ≡ holds ph + rest
    → state ≤ 1
    → ((advance ph state).0 ≡ holds (advance ph state).1 + rest) × ((advance ph state).0 ≤ 1)
unfolding advance
advance-holds outside state rest e b = ground arith
advance-holds _ state rest e b = ground arith

is_backoff-longer : (b : ℕ) → is_backoff b ≡ true → is_backoff (longer b) ≡ true
unfolding longer
is_backoff-longer b h = ground arith

next_fast-IsPatient : (i : ℕ) → IsPatient (next_fast i)
unfolding next_fast
next_fast-IsPatient i = elim (Bool-cases (ltb (i + 1) 100)) [
  | inl more ↦ rw more tt
  | inr over ↦ rw over refl
]

after_fast-IsPatient : (i : ℕ) → IsPatient (after_fast i)
unfolding after_fast
after_fast-IsPatient i = elim (Bool-cases ((i + 1) % 16 == 0)) [
  | inl yields ↦ rw yields tt
  | inr spins ↦ rw spins (next_fast-IsPatient i)
]

next_slow-IsPatient : (round b : ℕ) → is_backoff b ≡ true → IsPatient (next_slow round b)
unfolding next_slow
next_slow-IsPatient round b h = elim (Bool-cases (ltb (round + 1) 1024)) [
  | inl more ↦ rw more (is_backoff-longer b h)
  | inr over ↦ rw over tt
]

backoff_loop-IsPatient : (round b i : ℕ) → is_backoff b ≡ true → IsPatient (backoff_loop round b i)
unfolding backoff_loop
backoff_loop-IsPatient round b i h = elim (Bool-cases (ltb i b)) [
  | inl more ↦ rw more (ltb→lt i b more, h)
  | inr over ↦ rw over (next_slow-IsPatient round b h)
]

swap_or-IsPatient : (ph : LockPhase) (state : ℕ) → IsPatient ph → IsPatient (swap_or ph state).1
unfolding swap_or
swap_or-IsPatient ph state h = elim (Bool-cases (state == 0)) [
  | inl free ↦ rw free tt
  | inr held ↦ rw held h
]

advance-IsPatient : (ph : LockPhase) (state : ℕ) → IsPatient ph → IsPatient (advance ph state).1
unfolding advance
advance-IsPatient outside state h = tt
advance-IsPatient (fast i) state h = swap_or-IsPatient (after_fast i) state (after_fast-IsPatient i)
advance-IsPatient (fast_yield i) state h = next_fast-IsPatient i
advance-IsPatient (slow round b) state h =
    swap_or-IsPatient (backoff_loop round b 0) state (backoff_loop-IsPatient round b 0 h)
advance-IsPatient (slow_yield round b i) state h = backoff_loop-IsPatient round b (i + 1) h.1
advance-IsPatient fallback state h = swap_or-IsPatient fallback_yield state tt
advance-IsPatient fallback_yield state h = tt
advance-IsPatient holding state h = tt

Step-IsExclusive : {s t : System} → Step s t → IsExclusive s → IsExclusive t
Step-IsExclusive (comes state phs) h = record {
  counted = omega (arith, h.counted);
  one_at_most = h.one_at_most;
  patient = (tt, h.patient);
}
Step-IsExclusive (runs state before after ph) h =
    let P = IsPatient in
    let own = All-append_right P before (ph ∷ after) h.patient in
    let (c, o) =
      advance-holds ph state (holders before + holders after)
        (omega (arith, h.counted, holders-append before (ph ∷ after))) h.one_at_most in
    record {
      counted = omega (arith, c, holders-append before ((advance ph state).1 ∷ after));
      one_at_most = o;
      patient =
          All-append P before ((advance ph state).1 ∷ after)
            (All-append_left P before (ph ∷ after) h.patient)
            (advance-IsPatient ph state own.0, own.1);
    }

pub reachable-IsExclusive : {s t : System} → IsExclusive s → Reachable s t → IsExclusive t
reachable-IsExclusive h here = h
reachable-IsExclusive h (then_step r st) = Step-IsExclusive st (reachable-IsExclusive h r)

-- However goroutines that lock and unlock interleave, the word of the lock counts those that hold
-- it, and at most one holds it.
pub mutual_exclusion :
    (s : System)
    → Reachable new_spin_lock s
    → (s.state ≡ holders s.threads) × (holders s.threads ≤ 1)
mutual_exclusion s r =
    let h =
      reachable-IsExclusive (record { counted = refl; one_at_most = omega arith; patient = tt })
        r in
    (h.counted, omega (arith, h.counted, h.one_at_most))
