-- ===== src/Idle/RingQueue.antt =====
-- internal/idle/ring_queue.go. A slot of `buf` that holds the zero value is `none`; a call of
-- `DatedTime` on it is a nil dereference.
pub mod Slots
pub mod Compact
pub mod Laws
use go_agile_pool.Prelude.{
  ℕ, zero, suc, ◌+◌, ◌-◌, ◌*◌, ◌%◌, List, [], ◌∷◌, Option, none, some, ltb, ◌==◌, if◌then◌else◌,
  length, get_or, set, replicate,
}
use go_agile_pool.Prelude.Run.{Run, ok, panic, ◌>>=◌}
use go_agile_pool.Idle.{Dated, after}

abbrev pub default_ring_queue_capacity : ℕ
default_ring_queue_capacity = 64

-- `RingQueue`; `len` is its field `length`. An index out of range would read `none` and write
-- nothing; every index below is taken modulo the length of the buffer.
pub record RingQueue (A : Type 0) : Type 0 where
  pub buf : List (Option A)
  pub head : ℕ
  pub tail : ℕ
  pub len : ℕ

module _ {A : Type 0} where
  pub new_ring_queue : RingQueue A
  new_ring_queue = record {
    buf = replicate default_ring_queue_capacity none;
    head = 0;
    tail = 0;
    len = 0;
  }

  -- The copying loop of `grow`, with `k` rounds left from round `i` on.
  pub copy_loop : ℕ → ℕ → RingQueue A → List (Option A) → List (Option A)
  copy_loop zero i rq new_buf = new_buf
  copy_loop (suc k) i rq new_buf =
      copy_loop k (suc i) rq (set new_buf i (get_or rq.buf ((rq.head + i) % length rq.buf) none))

  pub grow : RingQueue A → RingQueue A
  grow rq = record rq {
    head = 0;
    tail = rq.len;
    buf = copy_loop rq.len 0 rq (replicate (length rq.buf * 2) none);
  }

  -- The write at `tail`, once there is room.
  pub put : RingQueue A → A → RingQueue A
  put rq w = record rq {
    buf = set rq.buf rq.tail (some w);
    tail = (rq.tail + 1) % length rq.buf;
    len = rq.len + 1;
  }

  pub add : RingQueue A → A → RingQueue A
  add rq w = put (if length rq.buf == rq.len then grow rq else rq) w

  pub pop : RingQueue A → Option A × RingQueue A
  pop rq = if rq.len == 0 then (none, rq) else (
    get_or rq.buf rq.head none,
    record rq {
      buf = set rq.buf rq.head none;
      head = (rq.head + 1) % length rq.buf;
      len = rq.len - 1;
    },
  )

  -- The loop that clears the slots of the removed elements.
  pub clear_loop : ℕ → ℕ → ℕ → List (Option A) → List (Option A)
  clear_loop zero i head buf = buf
  clear_loop (suc k) i head buf = clear_loop k (suc i) head (set buf ((head + i) % length buf) none)

module _ {A : Type 0} ⦃d : Dated A⦄ where
  -- One round of the compaction: `w` was read at round `i`.
  pub compact_step : ℕ → ℕ → ℕ → ℕ → List (Option A) → Option A → Run (ℕ × List (Option A))
  compact_step head cutoff i write_idx buf none = panic
  compact_step head cutoff i write_idx buf (some w) =
      if after (d.dated_time w) cutoff
      then ok (
        write_idx + 1,
        if write_idx == i then buf else set buf ((head + write_idx) % length buf) (some w),
      )
      else ok (write_idx, buf)

  -- The compaction loop, with `k` rounds left from round `i` on.
  pub compact_loop : ℕ → ℕ → ℕ → ℕ → ℕ → List (Option A) → Run (ℕ × List (Option A))
  compact_loop zero head cutoff i write_idx buf = ok (write_idx, buf)
  compact_loop (suc k) head cutoff i write_idx buf =
      compact_step head cutoff i write_idx buf (get_or buf ((head + i) % length buf) none) >>= λ s.
      compact_loop k head cutoff (suc i) s.0 s.1

  -- What follows the compaction.
  pub finish : RingQueue A → ℕ × List (Option A) → ℕ × RingQueue A
  finish rq (write_idx, buf) = (
    rq.len - write_idx,
    record rq {
      buf = clear_loop (rq.len - write_idx) write_idx rq.head buf;
      tail = (rq.head + write_idx) % length rq.buf;
      len = rq.len - (rq.len - write_idx);
    },
  )

  pub remove_expired : RingQueue A → ℕ → ℕ → Run (ℕ × RingQueue A)
  remove_expired rq now expiry =
      let scanned = compact_loop rq.len rq.head (now - expiry) 0 0 rq.buf in
      if rq.len == 0 then ok (0, rq) else (scanned >>= λ s. ok (finish rq s))
