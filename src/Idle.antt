-- ===== src/Idle.antt =====
-- internal/idle/idle.go: what the idle containers share, and the contract they are held to.
-- A `time.Time` is the number of nanoseconds since the zero time, a `time.Duration` a number of
-- nanoseconds. A clock reading is past any expiry, so `now.Add(-expiry)` is `now - expiry`.
-- The zero value of the element type, which the pool instantiates at `*worker`, is nil: `none`.
pub mod Slice
pub mod Treap
pub mod RingQueue
pub mod LinkedList
pub mod MinHeap
pub mod Contract
pub mod Containers
mod Tests
use go_agile_pool.Prelude.{ℕ, ◌+◌, ◌-◌, Bool, List, ltb, not}

-- `Dated`
pub record Dated (A : Type 0) : Type 0 where
  pub dated_time : A → ℕ

-- `IdleContainerType`
pub data IdleContainerType : Type 0 where
  linked_list min_heap slice ring_queue treap : IdleContainerType

-- `t.After(u)`
abbrev pub after : ℕ → ℕ → Bool
after t u = ltb u t

module _ {A : Type 0} ⦃d : Dated A⦄ where
  -- `w.DatedTime().After(now.Add(-expiry))`
  abbrev pub survives : ℕ → ℕ → A → Bool
  survives now expiry w = after (d.dated_time w) (now - expiry)

  -- `w.DatedTime().Add(expiry).After(now)`
  abbrev pub unexpired : ℕ → ℕ → A → Bool
  unexpired now expiry w = after (d.dated_time w + expiry) now
