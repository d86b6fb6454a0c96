-- ===== src/Pool/Capacity.antt =====
-- How far the number of counted workers goes beyond the capacity.
use go_agile_pool.Prelude.{
  ◌⊎◌, inl, inr, subst, if◌then◌else◌, ℕ, zero, suc, ◌+◌, ◌≡◌, Option, some, List, arith,
  Bool-cases,
}
use go_agile_pool.Prelude.Int.{ℤ, pos, ◌-ℤ◌, ◌+ℤ◌, ◌≤ℤ◌, ltb_ℤ, pos_part, neg_part}
use go_agile_pool.Config.{WorkMode}
use go_agile_pool.Pool.{Shared, Phase, started}
use go_agile_pool.Pool.Accounts.{IsAccounted, Step-IsAccounted}
use go_agile_pool.Pool.Step.{
  ScalerPhase, waiting, at_lock, loaded, spawning, System, actual_spawn, popped_idle, scale, Step,
  submits, closes, ticks, scales, runs, Reachable, here, after,
}
use go_agile_pool.Pool.Workers.{AtMost, advance-AtMost}

-- What the scaler relies on between its load and its add: that there are no more workers now than
-- it loaded, or at most one.
unfoldable pub IsFresh : ScalerPhase → ℤ → Type 0
IsFresh (loaded n current) running =
    (pos 0 ≤ℤ current) × ((running ≤ℤ current) ⊎ (running ≤ℤ pos 1))
IsFresh _ running = Unit

IsFresh-less :
    (z : ScalerPhase) (old new : ℤ) → (new ≤ℤ old) ⊎ (new ≤ℤ pos 1) → IsFresh z old → IsFresh z new
unfolding IsFresh
IsFresh-less (loaded n current) old new (inl less) (low, inl h) = (low, inl (omega arith))
IsFresh-less (loaded n current) old new (inl less) (low, inr h) = (low, inr (omega arith))
IsFresh-less (loaded n current) old new (inr one) (low, h) = (low, inr one)
IsFresh-less waiting old new less h = tt
IsFresh-less (at_lock n) old new less h = tt
IsFresh-less (spawning n) old new less h = tt

-- A sum and a difference of ints, in natural numbers
parts_of_sum :
    (a b : ℤ)
    → pos_part (a +ℤ b) + (neg_part a + neg_part b) ≡ neg_part (a +ℤ b) + (pos_part a + pos_part b)
unfolding ◌+ℤ◌
parts_of_sum a b = ground arith

parts_of_difference :
    (a b : ℤ)
    → pos_part (a -ℤ b) + (neg_part a + pos_part b) ≡ neg_part (a -ℤ b) + (pos_part a + neg_part b)
unfolding ◌-ℤ◌
parts_of_difference a b = ground arith

least_of_two : (a b : ℤ) → (if ltb_ℤ a b then a else b) ≤ℤ b
least_of_two a b = elim (Bool-cases (ltb_ℤ a b)) [
  | inl e ↦ rw e (ground arith)
  | inr e ↦ rw e (omega arith)
]

sum-within :
    (capacity current running a : ℤ)
    → a ≤ℤ capacity -ℤ current
    → pos 0 ≤ℤ current
    → (running ≤ℤ current) ⊎ (running ≤ℤ pos 1)
    → running +ℤ a ≤ℤ capacity +ℤ pos 1
sum-within capacity current running a h low less =
    let x = parts_of_sum running a in
    let y = parts_of_sum capacity (pos 1) in
    let z = parts_of_difference capacity current in
    elim less [ inl l ↦ omega arith | inr l ↦ omega arith ]

-- The scaler's add stays within one of the capacity.
added-within :
    (capacity : ℤ) (n : ℕ) (current running : ℤ)
    → pos 0 ≤ℤ current
    → (running ≤ℤ current) ⊎ (running ≤ℤ pos 1)
    → running +ℤ actual_spawn capacity n current ≤ℤ capacity +ℤ pos 1
added-within capacity n current running low less =
    sum-within capacity current running (actual_spawn capacity n current)
      (least_of_two (pos n) (capacity -ℤ current)) low less

still-within :
    (capacity old new : ℤ)
    → (new ≤ℤ old) ⊎ (new ≤ℤ pos 1)
    → old ≤ℤ capacity +ℤ pos 1
    → pos 0 ≤ℤ capacity
    → new ≤ℤ capacity +ℤ pos 1
still-within capacity old new less h room =
    let y = parts_of_sum capacity (pos 1) in elim less [ inl l ↦ omega arith | inr l ↦ omega arith ]

-- A count of workers that the capacity allows, but for one.
unfoldable pub IsBounded : {T : Type 0} → ℤ → System T → Type 0
IsBounded capacity m =
    IsAccounted m
    × (m.shared.running_workers_num ≤ℤ capacity +ℤ pos 1)
    × IsFresh m.scaler m.shared.running_workers_num

module _ {T : Type 0} (mode : WorkMode) (per_shard_cap : ℕ) (capacity : ℤ) where
  at_most-bounded :
      (old : ℤ) (s' : Shared T) (phs : List (Phase T)) (o : Option (Shared T × List (Phase T)))
      → o ≡ some (s', phs)
      → AtMost old o
      → (s'.running_workers_num ≤ℤ old) ⊎ (s'.running_workers_num ≤ℤ pos 1)
  unfolding AtMost
  at_most-bounded old s' phs o e h = subst (AtMost old) e h

  Step-count :
      (m n : System T)
      → pos 0 ≤ℤ capacity
      → Step mode per_shard_cap capacity m n
      → IsAccounted m
      → m.shared.running_workers_num ≤ℤ capacity +ℤ pos 1
      → IsFresh m.scaler m.shared.running_workers_num
      → (n.shared.running_workers_num ≤ℤ capacity +ℤ pos 1)
        × IsFresh n.scaler n.shared.running_workers_num
  unfolding scale IsFresh started popped_idle IsAccounted
  Step-count _ _ room (submits t s z phs) a b f = (b, f)
  Step-count _ _ room (closes s z phs) a b f = (b, f)
  Step-count _ _ room (ticks k s phs) a b f = (b, tt)
  Step-count _ _ room (scales s waiting phs) a b f = (b, tt)
  Step-count _ _ room (scales s (at_lock k) phs) a b f =
      (b, (ground (arith, a.running), inl (omega arith)))
  Step-count _ _ room (scales s (loaded k current) phs) a b f =
      elim (Bool-cases (ltb_ℤ (pos 0) (actual_spawn capacity k current))) [
        | inl some_room ↦
            simp some_room (added-within capacity k current s.running_workers_num (f.0) (f.1), tt)
        | inr no_room ↦ simp no_room (b, tt)
      ]
  Step-count _ _ room (scales s (spawning zero) phs) a b f = (b, tt)
  Step-count _ _ room (scales s (spawning (suc k)) phs) a b f = (b, tt)
  Step-count _ _ room (runs rd before rest phs ph s s' z e) a b f =
      let less =
        at_most-bounded s.running_workers_num s' phs _ e
          (advance-AtMost mode per_shard_cap rd ph s) in
      (
        still-within capacity _ _ less b room,
        IsFresh-less z s.running_workers_num s'.running_workers_num less f,
      )

  -- In every state that is reached from a bounded one, whatever the scaler asks for, the number of
  -- counted workers is at most one above the capacity, where that is not negative.
  pub running-IsBounded :
      (m n : System T)
      → pos 0 ≤ℤ capacity
      → IsBounded capacity m
      → Reachable mode per_shard_cap capacity m n
      → IsBounded capacity n
  unfolding IsBounded
  running-IsBounded m _ room h here = h
  running-IsBounded m n room h (after {m = k} reached step) =
      let (a, b, f) = running-IsBounded m k room h reached in
      let (b', f') = Step-count k n room step a b f in
      (Step-IsAccounted mode per_shard_cap capacity k n step a, b', f')
