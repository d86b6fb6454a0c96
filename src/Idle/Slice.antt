-- ===== src/Idle/Slice.antt =====
-- internal/idle/slice.go. `workers` is the visible part of the Go slice: `Pop` clears slot 0 and
-- then reslices past it, and `RemoveExpired` clears the slots behind the survivors.
pub mod Laws
use go_agile_pool.Prelude.{
  ℕ, ◌+◌, ◌-◌, List, [], ◌∷◌, ◌++◌, Option, none, some, ltb, ◌==◌, if◌then◌else◌, length,
}
use go_agile_pool.Prelude.Run.{Run, ok, panic}
use go_agile_pool.Idle.{Dated, after}

-- `Slice`; `len` is its field `length`
pub record Slice (A : Type 0) : Type 0 where
  pub workers : List A
  pub len : ℕ

module _ {A : Type 0} where
  pub new_slice : Slice A
  new_slice = record { workers = []; len = 0 }

  pub add : Slice A → A → Slice A
  add s w = record { workers = s.workers ++ w ∷ []; len = s.len + 1 }

  -- `s.workers[0]` and `s.workers[1:]`, which panic on an empty slice
  pub take_first : List A → Slice A → Run (Option A × Slice A)
  take_first [] s = panic
  take_first (w ∷ ws) s = ok (some w, record s { workers = ws; len = s.len - 1 })

  pub pop : Slice A → Run (Option A × Slice A)
  unfolding take_first
  pop s = if s.len == 0 then ok (none, s) else take_first s.workers s

module _ {A : Type 0} ⦃d : Dated A⦄ where
  -- The loop over the workers that appends the survivors.
  pub survivors : List A → ℕ → List A
  survivors [] cutoff = []
  survivors (w ∷ ws) cutoff =
      let rest = survivors ws cutoff in if after (d.dated_time w) cutoff then w ∷ rest else rest

  pub remove_expired : Slice A → ℕ → ℕ → ℕ × Slice A
  remove_expired s now expiry =
      let left = survivors s.workers (now - expiry) in
      let removed = length s.workers - length left in
      if s.len == 0
      then (0, s)
      else if ltb 0 removed
      then (removed, record s { workers = left; len = s.len - removed })
      else (0, s)
