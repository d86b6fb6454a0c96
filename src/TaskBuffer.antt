-- ===== src/TaskBuffer.antt =====
-- task_buffer.go: the overflow buffer of fixed-size linked chunks. Chunks live in a store, by
-- address; a pointer is an address or `none` for nil. Each method runs with `taskMu` held.
pub mod Repr
pub mod Grow
pub mod Push
pub mod Shrink
pub mod Pop
pub mod Queue
mod Tests
use go_agile_pool.Prelude.{
  ℕ, zero, suc, ◌+◌, ◌-◌, Bool, true, false, ◌&&◌, List, [], ◌∷◌, Option, none, some, leb, ◌==◌,
  if◌then◌else◌,
}

abbrev pub task_chunk_size : ℕ
task_chunk_size = 4096

abbrev pub max_chunk_len : ℕ
max_chunk_len = 100_000

-- `taskBufferPushResult`
pub data PushResult : Type 0 where
  accepted closed full : PushResult

-- `taskChunk`; the array is a function of the index, read and written below `task_chunk_size` only
pub record Chunk (T : Type 0) : Type 0 where
  pub tasks : ℕ → Option T
  pub next : Option ℕ

-- `chunkedTaskBuffer`. `fresh` is the first address that was never allocated, and `pool` what the
-- `sync.Pool` holds: `Get` takes a chunk from it if there is one.
pub record Buffer (T : Type 0) : Type 0 where
  pub store : ℕ → Chunk T
  pub fresh : ℕ
  pub pool : List ℕ
  pub head_chunk : Option ℕ
  pub tail_chunk : Option ℕ
  pub head_idx : ℕ
  pub tail_idx : ℕ
  pub chunk_len : ℕ
  pub overflow_closed : Bool

abbrev pub update {ℓ} : {V : Type ℓ} → (ℕ → V) → ℕ → V → ℕ → V
update f a v x = if a == x then v else f x

-- Pointer equality.
abbrev pub same_chunk : Option ℕ → ℕ → Bool
same_chunk none a = false
same_chunk (some b) a = b == a

module _ {T : Type 0} where
  abbrev pub empty_chunk : Chunk T
  empty_chunk = record { tasks = λ i. none; next = none }

  pub new_chunked_task_buffer : Buffer T
  new_chunked_task_buffer = record {
    store = λ a. empty_chunk;
    fresh = 0;
    pool = [];
    head_chunk = none;
    tail_chunk = none;
    head_idx = 0;
    tail_idx = 0;
    chunk_len = 0;
    overflow_closed = false;
  }

  pub len : Buffer T → ℕ
  len b = b.chunk_len

  pub close : Buffer T → Buffer T
  close b = record b { overflow_closed = true }

  -- `c.next = next`
  abbrev pub set_next : (ℕ → Chunk T) → ℕ → Option ℕ → ℕ → Chunk T
  set_next store c next = update store c (record (store c) { next = next })

  -- `c.tasks[i] = v`
  abbrev pub set_task : (ℕ → Chunk T) → ℕ → ℕ → Option T → ℕ → Chunk T
  set_task store c i v = update store c (record (store c) { tasks = update (store c).tasks i v })

  -- `b.chunkPool.Get()`
  pub get_chunk_from : List ℕ → Buffer T → ℕ × Buffer T
  get_chunk_from [] b =
      (b.fresh, record b { store = update b.store b.fresh empty_chunk; fresh = b.fresh + 1 })
  get_chunk_from (c ∷ rest) b = (c, record b { pool = rest })

  pub get_chunk : Buffer T → ℕ × Buffer T
  unfolding get_chunk_from
  get_chunk b = get_chunk_from b.pool b

  -- Both ways of giving a head chunk back: `next = nil` and `Put`.
  pub put_chunk : ℕ → Buffer T → Buffer T
  put_chunk h b = record b { store = set_next b.store h none; pool = h ∷ b.pool }

  -- `peekHead` from the test that the head has caught up with the tail. A result `some v` is
  -- `v, true`.
  pub check_drained : ℕ → Buffer T → Option (Option T) × Buffer T
  check_drained h b =
      if same_chunk b.tail_chunk h && leb b.tail_idx b.head_idx
      then (
        none,
        record (put_chunk h b) { head_chunk = none; tail_chunk = none; head_idx = 0; tail_idx = 0 },
      )
      else (some ((b.store h).tasks b.head_idx), b)

  -- The head chunk is exhausted and its successor is `next`.
  pub advance_chunk : Option ℕ → ℕ → Buffer T → Option (Option T) × Buffer T
  advance_chunk none h b = (
    none,
    record (put_chunk h b) { head_chunk = none; head_idx = 0; tail_chunk = none; tail_idx = 0 },
  )
  advance_chunk (some h') h b =
      check_drained h' (record (put_chunk h b) { head_chunk = some h'; head_idx = 0 })

  pub peek_from : Option ℕ → Buffer T → Option (Option T) × Buffer T
  peek_from none b = (none, b)
  peek_from (some h) b =
      if leb task_chunk_size b.head_idx
      then advance_chunk (b.store h).next h b
      else check_drained h b

  pub peek_head : Buffer T → Option (Option T) × Buffer T
  peek_head b = peek_from b.head_chunk b

  -- The write at the tail.
  pub write_tail : ℕ → T → Buffer T → Buffer T
  write_tail c task b = record b {
    store = set_task b.store c b.tail_idx (some task);
    tail_idx = b.tail_idx + 1;
    chunk_len = b.chunk_len + 1;
  }

  -- The first chunk of an empty buffer.
  pub first_chunk : ℕ × Buffer T → ℕ × Buffer T
  first_chunk (c, b) =
      (c, record b { tail_chunk = some c; head_chunk = some c; tail_idx = 0; head_idx = 0 })

  -- A chunk linked behind the tail `k`.
  pub link_chunk : ℕ → ℕ × Buffer T → ℕ × Buffer T
  link_chunk k (c, b) =
      (c, record b { store = set_next b.store k (some c); tail_chunk = some c; tail_idx = 0 })

  -- The chunk that the next task is written to.
  pub tail_room : Option ℕ → Buffer T → ℕ × Buffer T
  tail_room none b = first_chunk (get_chunk b)
  tail_room (some k) b =
      if leb task_chunk_size b.tail_idx then link_chunk k (get_chunk b) else (k, b)

  pub push_tail : T → Buffer T → Buffer T
  push_tail task b = let (c, b') = tail_room b.tail_chunk b in write_tail c task b'

  -- `popHead` after a successful peek: the slot is cleared through the head pointer.
  pub drop_head : Option ℕ → Buffer T → Buffer T
  drop_head none b = b
  drop_head (some h) b = record b {
    store = set_task b.store h b.head_idx none;
    head_idx = b.head_idx + 1;
    chunk_len = b.chunk_len - 1;
  }

  pub after_peek : Option (Option T) × Buffer T → Option (Option T) × Buffer T
  after_peek (none, b) = (none, b)
  after_peek (some t, b) = (some t, drop_head b.head_chunk b)

  pub pop_head : Buffer T → Option (Option T) × Buffer T
  pop_head b = after_peek (peek_head b)

  -- `PopBatch` into `n` places.
  pub pop_batch : ℕ → Buffer T → List (Option T) × Buffer T
  pop_batch zero b = ([], b)
  pop_batch (suc n) b =
      let (popped, b') = pop_head b in
      elim popped [ none ↦ ([], b') | some t ↦ (t ∷ (pop_batch n b').0, (pop_batch n b').1) ]

  -- `tryForward` also works on a state of its own, the handoff queues.
  module _ {S : Type 0} (try_forward : Option T → S → Bool × S) where
    pub forward : Option (Option T) × Buffer T → S → S × Buffer T
    forward (none, b) s = (s, b)
    forward (some t, b) s =
        let (sent, s') = try_forward t s in (s', if sent then (pop_head b).1 else b)

    pub push_and_forward : T → Buffer T → S → PushResult × S × Buffer T
    push_and_forward task b s =
        let (s', b') = forward (peek_head (push_tail task b)) s in
        if b.overflow_closed
        then (closed, s, b)
        else if leb max_chunk_len b.chunk_len
        then (full, s, b)
        else (accepted, s', b')
