-- ===== src/TaskBuffer/Shrink.antt =====
-- `peekHead` and `popHead`: a drained chunk goes back to the pool, the others keep the queue.
use go_agile_pool.Prelude.{
  ℕ, suc, ◌+◌, ◌-◌, ◌≤◌, ◌<◌, ◌≡◌, ◌≢◌, refl, sym, ◌∙◌, false, List, ◌∷◌, none, some, ◌==◌, length,
  arith,
}
use go_agile_pool.TaskBuffer.{Chunk, Buffer, update, task_chunk_size, set_next, put_chunk}
use go_agile_pool.TaskBuffer.Repr.{
  chained, pooled, unused, owner_ne, Chain, place, IsPool, Holds, address-ne, IsPool-same,
  not_pooled,
}
use go_agile_pool.TaskBuffer.Grow.{get_elem?_end}

-- The chain without its first chunk, which the pool has got.
abbrev pub release : Chain → ℕ → Chain
release g n = record g {
  base = suc g.base;
  size = g.size - 1;
  owner = update g.owner (g.address g.base) (pooled n);
}

module _ {T : Type 0} (b : Buffer T) (xs : List T) (g : Chain) (h : Holds b xs g)
    (some_chunk : g.size ≢ 0) where
  abbrev pub first : ℕ
  first = g.address g.base

  owned_first : g.owner first ≡ chained g.base
  owned_first = h.owned g.base (omega arith) (omega arith)

  abbrev pub g' : Chain
  g' = release g (length b.pool)

  abbrev store' : ℕ → Chunk T
  store' = set_next b.store first none

  first_ne : (k : ℕ) → suc g.base ≤ k → k < g.base + g.size → (first == g.address k) ≡ false
  first_ne k p q = address-ne h g.base k (omega arith) (omega arith) (omega arith) q (omega arith)

  first_unpooled : (p j : ℕ) → g.owner p ≡ pooled j → (first == p) ≡ false
  first_unpooled p j o = not_pooled g first p g.base j owned_first o

  first_used : (a : ℕ) → g.owner a ≡ unused → (first == a) ≡ false
  first_used a o = owner_ne g first a (λ same. cc (sym owned_first ∙ same ∙ o))

  -- The pool with the first chunk, which holds nothing of the queue.
  pool-release :
      (b' : Buffer T)
      → b'.store ≡ store'
      → ((s : ℕ) → s < task_chunk_size → (b.store first).tasks s ≡ none)
      → IsPool b' g' (first ∷ b.pool)
  pool-release b' e clean = (
    ground arith,
    rw e (ground arith),
    λ s r. rw e (ground (arith, clean s r)),
    IsPool-same b b' g g' b.pool
        (λ p j lt o. (rw (first_unpooled p j o) o, rw (e, first_unpooled p j o))) h.pool_clean,
  )

  never_used-release : (a : ℕ) → b.fresh ≤ a → g'.owner a ≡ unused
  never_used-release a le = rw (first_used a (h.never_used a le)) (h.never_used a le)

  abbrev pub drained_buffer : Buffer T
  drained_buffer = record (put_chunk first b) {
    head_chunk = none;
    tail_chunk = none;
    head_idx = 0;
    tail_idx = 0;
  }

  abbrev pub advanced_buffer : Buffer T
  advanced_buffer = record (put_chunk first b) {
    head_chunk = some (g.address (suc g.base));
    head_idx = 0;
  }

  -- The only chunk goes, and with it the queue is empty.
  pub release_last : g.size ≡ 1 → b.tail_idx ≤ b.head_idx → Holds drained_buffer xs g'
  unfolding put_chunk
  release_last one drained =
      let e : g.base + g.size - 1 ≡ g.base = omega arith in
      let ends = rw e at (h.ends some_chunk) in
      record {
        head_at = ground arith;
        tail_at = ground arith;
        no_chunk = λ z. omega arith;
        ends = λ z. absurd (z (omega arith));
        head_le = omega arith;
        tail_le = omega arith;
        counted = h.counted;
        owned = λ k p q. absurd (omega arith);
        links = λ k p q. absurd (omega arith);
        last = λ k p q. absurd (omega arith);
        slots = λ k s p q r. absurd (omega arith);
        pool_clean = pool-release drained_buffer refl (λ s r.
            ground (
              arith,
              h.slots g.base s,
              get_elem?_end xs (place g.base s - place g.base b.head_idx),
            ));
        never_used = never_used-release;
      }

  -- The exhausted first chunk goes, and its successor is the first.
  pub release_more : 1 < g.size → task_chunk_size ≤ b.head_idx → Holds advanced_buffer xs g'
  unfolding put_chunk
  release_more more used =
      let same = λ (k : ℕ) (p : suc g.base ≤ k) (q : k < g.base + g.size).
        let t : store' (g.address k) ≡ b.store (g.address k) = rw (first_ne k p q) in t in
      record {
        head_at = ground arith;
        tail_at =
            let e : suc g.base + (g.size - 1) - 1 ≡ g.base + g.size - 1 = omega arith in
            ground (arith, h.tail_at, e);
        no_chunk = λ z. absurd (omega arith);
        ends = λ z.
            let e : suc g.base + (g.size - 1) - 1 ≡ g.base + g.size - 1 = omega arith in
            rw e (omega (arith, h.ends some_chunk, h.head_le));
        head_le = omega arith;
        tail_le = h.tail_le;
        counted = h.counted;
        owned = λ k p q. rw (first_ne k p (omega arith)) (h.owned k (omega arith) (omega arith));
        links = λ k p q. rw (same k p (omega arith)) (h.links k (omega arith) (omega arith));
        last = λ k p q. rw (same k p (omega arith)) (h.last k (omega arith) (omega arith));
        slots = λ k s p q r. rw (same k p (omega arith)) (ground (arith, h.slots k s, h.head_le));
        pool_clean = pool-release advanced_buffer refl (λ s r. ground (arith, h.slots g.base s));
        never_used = never_used-release;
      }
