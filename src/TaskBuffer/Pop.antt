-- ===== src/TaskBuffer/Pop.antt =====
-- `popHead` as a whole: it takes the oldest task, and the buffer keeps the others.
use go_agile_pool.Prelude.{
  ℕ, zero, suc, ◌+◌, ◌-◌, ◌≤◌, ◌<◌, ◌≡◌, ◌≢◌, refl, sym, subst, ap, ◌∙◌, Bool, true, false, ◌&&◌,
  List, [], ◌∷◌, Option, none, some, leb, ◌==◌, if◌then◌else◌, length, tail, get_elem?, arith,
  dec_lt, ℕ_discrete, Bool-cases, inl, inr, map, take, drop,
}
use go_agile_pool.TaskBuffer.{
  Buffer, task_chunk_size, set_task, same_chunk, check_drained, advance_chunk, peek_from, peek_head,
  drop_head, after_peek, pop_head, pop_batch,
}
use go_agile_pool.TaskBuffer.Repr.{Chain, item, place, Holds, address-ne, IsPool-same, not_pooled}
use go_agile_pool.TaskBuffer.Grow.{set_task_same, set_task_other, next-set_task}
use go_agile_pool.TaskBuffer.Push.{IsQueue}
use go_agile_pool.TaskBuffer.Shrink.{
  g', drained_buffer, advanced_buffer, release_last, release_more,
}

module _ {T : Type 0} where
  -- What a peek at the queue `xs` returns and leaves.
  abbrev pub Peeked : List T → Option (Option T) × Buffer T → Type 0
  Peeked [] (r, b) = (r ≡ none) × IsQueue b []
  Peeked (x ∷ xs) (r, b) =
      (r ≡ some (some x)) × (g : Chain) × Holds b (x ∷ xs) g × (b.head_idx < task_chunk_size)

  get_elem?-cons :
      (x : T) (xs : List T) (i : ℕ) → 0 < i → get_elem? (x ∷ xs) i ≡ get_elem? xs (i - 1)
  get_elem?-cons x xs zero h = elim h [ ]
  get_elem?-cons x xs (suc i) h = ap (get_elem? xs) (omega arith)

  -- Moving the start past the first task.
  item-suc :
      (start : ℕ) (x : T) (xs : List T) (q : ℕ)
      → item (suc start) xs q ≡ (if q == start then none else item start (x ∷ xs) q)
  item-suc start x xs q =
      let e : q - start - 1 ≡ q - suc start = omega arith in
      ground (arith, e, get_elem?-cons x xs (q - start))

  module _ (b : Buffer T) (g : Chain) (some_chunk : g.size ≢ 0) where
    abbrev caught_up : Bool
    caught_up = same_chunk b.tail_chunk (g.address g.base) && leb b.tail_idx b.head_idx

    caught_up_empty : Holds b [] g → b.head_idx < task_chunk_size → caught_up ≡ true
    caught_up_empty h room =
        let ends = h.ends some_chunk in
        let e : g.base + g.size - 1 ≡ g.base = omega arith in ground (arith, h.tail_at, e, ends)

    not_caught_up :
        (x : T) (xs : List T)
        → Holds b (x ∷ xs) g
        → b.head_idx < task_chunk_size
        → caught_up ≡ false
    not_caught_up x xs h room = elim (dec_lt 1 g.size) [
      | yes more ↦
          let m = g.base + g.size - 1 in
          let ne =
            address-ne h m g.base (omega arith) (omega arith) (omega arith) (omega arith)
              (omega arith) in
          ground (arith, h.tail_at, ne)
      | no one ↦ let ends = h.ends some_chunk in ground (arith, ends)
    ]

    check_drained-Peeked :
        (xs : List T)
        → Holds b xs g
        → b.head_idx < task_chunk_size
        → Peeked xs (check_drained (g.address g.base) b)
    unfolding check_drained
    check_drained-Peeked [] h room =
        let ends = h.ends some_chunk in
        rw (caught_up_empty h room) (
          refl,
          (g' b [] g h some_chunk, release_last b [] g h some_chunk (omega arith) (omega arith)),
        )
    check_drained-Peeked (x ∷ xs) h room =
        let read : (b.store (g.address g.base)).tasks b.head_idx ≡ some x =
          ground (arith, h.slots g.base b.head_idx) in
        rw (not_caught_up x xs h room) (ap some read, g, h, room)

    dropped_slots :
        (x : T) (xs : List T)
        → Holds b (x ∷ xs) g
        → b.head_idx < task_chunk_size
        → (k s : ℕ) → g.base ≤ k
        → k < g.base + g.size
        → s < task_chunk_size
        → (set_task b.store (g.address g.base) b.head_idx none (g.address k)).tasks s
          ≡ item (place g.base (b.head_idx + 1)) xs (place k s)
    dropped_slots x xs h room k s p q r =
        let start = place g.base b.head_idx in
        let e' : place g.base (b.head_idx + 1) ≡ suc start = omega arith in
        rw e' (elim (ℕ_discrete g.base k) [
          | yes e ↦
              rw (e, set_task_same b.store (g.address k) b.head_idx none s)
                (ground (arith, e, h.slots k s p q r, item-suc start x xs (place k s)))
          | no e ↦
              rw
                (set_task_other b.store (g.address g.base) b.head_idx (g.address k) none
                  (address-ne h g.base k (omega arith) (omega arith) p q e))
                (ground (arith, room, h.slots k s p q r, item-suc start x xs (place k s)))
        ])

    drop_head-Holds :
        (x : T) (xs : List T)
        → Holds b (x ∷ xs) g
        → b.head_idx < task_chunk_size
        → Holds (drop_head (some (g.address g.base)) b) xs g
    unfolding drop_head
    drop_head-Holds x xs h room =
        let a = g.address g.base in
        let ends = h.ends some_chunk in
        record {
          head_at = h.head_at;
          tail_at = h.tail_at;
          no_chunk = λ z. absurd (some_chunk z);
          ends = λ z. omega (arith, ends);
          head_le = omega arith;
          tail_le = h.tail_le;
          counted = omega (arith, h.counted);
          owned = h.owned;
          links = λ k p q. next-set_task b.store a b.head_idx none (g.address k) ∙ h.links k p q;
          last = λ k p q. next-set_task b.store a b.head_idx none (g.address k) ∙ h.last k p q;
          slots = dropped_slots x xs h room;
          pool_clean =
              IsPool-same b (drop_head (some a) b) g g b.pool
                (λ p j lt e. (
                  e,
                  set_task_other b.store a b.head_idx p none
                      (not_pooled g a p g.base j (h.owned g.base (omega arith) (omega arith)) e),
                ))
                h.pool_clean;
          never_used = h.never_used;
        }

  size_of_head :
      (b : Buffer T) (xs : List T) (g : Chain) (a : ℕ)
      → Holds b xs g
      → b.head_chunk ≡ some a
      → (g.size ≢ 0) × (a ≡ g.address g.base)
  size_of_head b xs g a h e = (λ z. ground (arith, h.head_at), ground (arith, h.head_at))

  Peeked-nothing : (b : Buffer T) (xs : List T) → length xs ≡ 0 → IsQueue b xs → Peeked xs (none, b)
  Peeked-nothing b [] e h = (refl, h)
  Peeked-nothing b (x ∷ xs) e h = absurd (omega arith)

  -- The head chunk is exhausted: it goes, and its successor is looked at, if there is one.
  advance_chunk-Peeked :
      (b : Buffer T) (xs : List T) (g : Chain)
      → Holds b xs g
      → g.size ≢ 0
      → task_chunk_size ≤ b.head_idx
      → Peeked xs (advance_chunk (b.store (g.address g.base)).next (g.address g.base) b)
  unfolding advance_chunk
  advance_chunk-Peeked b xs g h some_chunk used = elim (dec_lt 1 g.size) [
    | yes more ↦ rw (h.links g.base (omega arith) (omega arith)) (
        check_drained-Peeked (advanced_buffer b xs g h some_chunk) (g' b xs g h some_chunk)
          (λ z. absurd (omega arith)) xs (release_more b xs g h some_chunk more used) (omega arith))
    | no one ↦
        let ends = h.ends some_chunk in
        rw (h.last g.base (omega arith) (omega arith)) (
          Peeked-nothing (drained_buffer b xs g h some_chunk) xs (omega (arith, h.tail_le)) (
            g' b xs g h some_chunk,
            release_last b xs g h some_chunk (omega arith) (omega (arith, h.tail_le)),
          ))
  ]

  peek_from-Peeked :
      (b : Buffer T) (xs : List T) (g : Chain) (p : Option ℕ)
      → Holds b xs g
      → b.head_chunk ≡ p
      → Peeked xs (peek_from p b)
  unfolding peek_from
  peek_from-Peeked b xs g none h e =
      Peeked-nothing b xs (h.no_chunk (ground (arith, h.head_at))) (g, h)
  peek_from-Peeked b xs g (some a) h e =
      let (some_chunk, at) = size_of_head b xs g a h e in
      elim (Bool-cases (leb task_chunk_size b.head_idx)) [
        | inl used ↦ rw (used, at) (advance_chunk-Peeked b xs g h some_chunk (ground arith))
        | inr fresh ↦ rw (fresh, at) (check_drained-Peeked b g some_chunk xs h (ground arith))
      ]

  pub peek_head-Peeked : (b : Buffer T) (xs : List T) → IsQueue b xs → Peeked xs (peek_head b)
  unfolding peek_head
  peek_head-Peeked b xs (g, h) = peek_from-Peeked b xs g b.head_chunk h refl

  -- The oldest task, as the methods return it.
  abbrev pub oldest : List T → Option (Option T)
  oldest [] = none
  oldest (x ∷ xs) = some (some x)

  abbrev pub Popped : List T → Option (Option T) × Buffer T → Type 0
  Popped xs (r, b) = (r ≡ oldest xs) × IsQueue b (tail xs)

  after_peek-Popped :
      (xs : List T) (r : Option (Option T)) (b : Buffer T)
      → Peeked xs (r, b)
      → Popped xs (after_peek (r, b))
  unfolding after_peek
  after_peek-Popped [] none b h = h
  after_peek-Popped [] (some t) b h = cc (h.0)
  after_peek-Popped (x ∷ xs) none b h = cc (h.0)
  after_peek-Popped (x ∷ xs) (some t) b (e, g, h, room) =
      let some_chunk : g.size ≢ 0 = λ z. absurd (omega (arith, h.no_chunk z)) in
      let at : b.head_chunk ≡ some (g.address g.base) = ground (arith, h.head_at) in
      (
        e,
        (
          g,
          subst (λ p. Holds (drop_head p b) xs g) (sym at)
              (drop_head-Holds b g some_chunk x xs h room),
        ),
      )

  -- On a buffer that holds a queue, `popHead` returns its oldest task and leaves the others.
  pub pop_head-Popped : (b : Buffer T) (xs : List T) → IsQueue b xs → Popped xs (pop_head b)
  unfolding pop_head
  pop_head-Popped b xs h =
      after_peek-Popped xs (peek_head b).0 (peek_head b).1 (peek_head-Peeked b xs h)

  -- On a buffer that holds a queue, `PopBatch` into `n` places returns its oldest tasks in order,
  -- `n` of them or all that there are, and leaves the others.
  pub pop_batch-take :
      (n : ℕ) (b : Buffer T) (xs : List T)
      → IsQueue b xs
      → ((pop_batch n b).0 ≡ map some (take n xs)) × IsQueue (pop_batch n b).1 (drop n xs)
  unfolding pop_batch
  pop_batch-take zero b xs h = (refl, h)
  pop_batch-take (suc n) b [] h = let (e, q) = pop_head-Popped b [] h in rw (e, pop_batch) (refl, q)
  pop_batch-take (suc n) b (x ∷ xs) h =
      let (e, q) = pop_head-Popped b (x ∷ xs) h in
      let rest = pop_batch-take n (pop_head b).1 xs q in
      rw (e, pop_batch) (ap (◌∷◌ (some x)) rest.0, rest.1)
