-- ===== src/TaskBuffer/Push.antt =====
-- `pushTail` as a whole: the task goes behind the queue, in a new chunk where it must.
use go_agile_pool.Prelude.{
  ℕ, suc, ◌+◌, ◌-◌, ◌≤◌, ◌<◌, ◌≡◌, ◌≢◌, refl, sym, ◌∙◌, false, List, [], ◌∷◌, ◌++◌, Option, none,
  some, leb, ◌==◌, length, arith, ℕ_discrete, Bool-cases, inl, inr,
}
use go_agile_pool.TaskBuffer.{
  Chunk, Buffer, update, task_chunk_size, set_next, get_chunk, get_chunk_from, write_tail,
  first_chunk, link_chunk, tail_room, push_tail,
}
use go_agile_pool.TaskBuffer.Repr.{
  chained, pooled, taken, unused, owner_ne, Chain, item, place, IsPool, Holds, address-ne,
  IsPool-same, not_pooled,
}
use go_agile_pool.TaskBuffer.Grow.{
  IsClean, take_owner, get_chunk_from-Holds, get_elem?_end, write_tail-Holds,
}

-- The chain with the taken chunk `c` behind its last one.
abbrev extend : Chain → ℕ → Chain
extend g c = record g {
  size = suc g.size;
  address = update g.address (g.base + g.size) c;
  owner = update g.owner c (chained (g.base + g.size));
}

module _ {T : Type 0} (b : Buffer T) (xs : List T) (g : Chain) (c : ℕ) (h : Holds b xs g)
    (free : g.owner c ≡ taken) (clean : IsClean (b.store c)) where
  abbrev end_no : ℕ
  end_no = g.base + g.size

  not_c : (k : ℕ) → g.base ≤ k → k < end_no → (c == g.address k) ≡ false
  not_c k p q = owner_ne g c (g.address k) (λ same. cc (sym free ∙ same ∙ h.owned k p q))

  not_c_pooled : (p j : ℕ) → g.owner p ≡ pooled j → (c == p) ≡ false
  not_c_pooled p j o = owner_ne g c p (λ same. cc (sym free ∙ same ∙ o))

  not_c_unused : (a : ℕ) → g.owner a ≡ unused → (c == a) ≡ false
  not_c_unused a o = owner_ne g c a (λ same. cc (sym free ∙ same ∙ o))

  owned-extend :
      (k : ℕ)
      → g.base ≤ k
      → k < suc end_no
      → (extend g c).owner ((extend g c).address k) ≡ chained k
  owned-extend k p q = ground (arith, not_c k, h.owned k)

  -- The slots of the clean chunk lie past the queue.
  clean_item :
      (s start : ℕ)
      → s < task_chunk_size
      → start + length xs ≤ place end_no s
      → (b.store c).tasks s ≡ item start xs (place end_no s)
  clean_item s start r past = ground (arith, clean.1 s r, get_elem?_end xs (place end_no s - start))

  pool-extend :
      (store : ℕ → Chunk T)
      → ((p j : ℕ) → g.owner p ≡ pooled j → store p ≡ b.store p)
      → IsPool (record b { store = store }) (extend g c) b.pool
  pool-extend store same =
      IsPool-same b (record b { store = store }) g (extend g c) b.pool
        (λ p j lt o. (rw (not_c_pooled p j o) o, same p j o)) h.pool_clean

  -- The first chunk of an empty buffer.
  pub first_chunk-Holds : g.size ≡ 0 → Holds (first_chunk (c, b)).1 xs (extend g c)
  unfolding first_chunk
  first_chunk-Holds e =
      let none_left = h.no_chunk e in
      record {
        head_at = ground arith;
        tail_at = ground arith;
        no_chunk = λ e'. absurd (omega arith);
        ends = λ e'. omega arith;
        head_le = omega arith;
        tail_le = omega arith;
        counted = h.counted;
        owned = λ k p q. owned-extend k p (omega arith);
        links = λ k p q. absurd (omega arith);
        last = λ k p q. ground (arith, clean.0);
        slots = λ k s p q r. ground (arith, clean_item s (place g.base 0) r);
        pool_clean = pool-extend b.store (λ p j o. refl);
        never_used = λ a le. rw (not_c_unused a (h.never_used a le)) (h.never_used a le);
      }

  module _ (m : ℕ) (last_no : suc m ≡ end_no) (some_chunk : g.size ≢ 0)
      (full : b.tail_idx ≡ task_chunk_size) where
    abbrev linked : ℕ → Chunk T
    linked = set_next b.store (g.address m) (some c)

    linked_other : (a : ℕ) → (g.address m == a) ≡ false → linked a ≡ b.store a
    linked_other a e = rw e

    tasks-linked : (a s : ℕ) → (linked a).tasks s ≡ (b.store a).tasks s
    tasks-linked a s = ground arith

    m_not_c : (g.address m == c) ≡ false
    m_not_c =
        owner_ne g (g.address m) c
          (λ same. cc (sym (h.owned m (omega arith) (omega arith)) ∙ same ∙ free))

    links-linked :
        (k : ℕ)
        → g.base ≤ k
        → suc k < suc end_no
        → (linked ((extend g c).address k)).next ≡ some ((extend g c).address (suc k))
    links-linked k p q = elim (ℕ_discrete m k) [
      | yes e ↦ rw (← e) (ground arith)
      | no e ↦
          let other = address-ne h m k (omega arith) (omega arith) p (omega arith) e in
          ground (arith, other, h.links k p)
    ]

    slots-linked :
        (k s : ℕ)
        → g.base ≤ k
        → k < suc end_no
        → s < task_chunk_size
        → (linked ((extend g c).address k)).tasks s ≡ item (place g.base b.head_idx) xs (place k s)
    slots-linked k s p q r =
        rw tasks-linked (
          ground
            (arith, clean_item s (place g.base b.head_idx) r, h.slots k s p, h.ends some_chunk))

    -- A new last chunk behind a full one.
    pub link_chunk-Holds : Holds (link_chunk (g.address m) (c, b)).1 xs (extend g c)
    unfolding link_chunk
    link_chunk-Holds = record {
      head_at = ground (arith, h.head_at);
      tail_at = ground arith;
      no_chunk = λ e'. absurd (omega arith);
      ends = λ e'. omega (arith, h.ends some_chunk);
      head_le = h.head_le;
      tail_le = omega arith;
      counted = h.counted;
      owned = λ k p q. owned-extend k p (omega arith);
      links = λ k p q. links-linked k p (omega arith);
      last = λ k p q. ground (arith, m_not_c, clean.0);
      slots = λ k s p q r. slots-linked k s p (omega arith) r;
      pool_clean = pool-extend linked (λ p j o.
          linked_other p
            (not_pooled g (g.address m) p m j (h.owned m (omega arith) (omega arith)) o));
      never_used = λ a le. rw (not_c_unused a (h.never_used a le)) (h.never_used a le);
    }

-- The buffer holds the queue `xs` in some chain of chunks.
abbrev pub IsQueue : {T : Type 0} → Buffer T → List T → Type 0
IsQueue b xs = (g : Chain) × Holds b xs g

module _ {T : Type 0} (xs : List T) (t : T) where
  -- A write to the chunk that was just put at the end of the chain.
  write_new :
      (b : Buffer T) (g : Chain) (c : ℕ)
      → Holds b xs (extend g c)
      → b.tail_idx ≡ 0
      → IsQueue (write_tail c t b) (xs ++ t ∷ [])
  write_new b g c h e =
      let m = g.base + g.size in
      let at : (extend g c).address m ≡ c = ground arith in
      (
        extend g c,
        rw at at (
            write_tail-Holds b xs (extend g c) t m h (omega arith) (λ z. absurd (omega arith))
              (omega arith)),
      )

  tail_idx-get_chunk : (b : Buffer T) (ps : List ℕ) → (get_chunk_from ps b).1.tail_idx ≡ b.tail_idx
  unfolding get_chunk_from
  tail_idx-get_chunk b [] = refl
  tail_idx-get_chunk b (p ∷ ps) = refl

  taken_self : (g : Chain) (c : ℕ) → (take_owner g c).owner c ≡ taken
  taken_self g c = ground arith

  linked-IsQueue :
      (b : Buffer T) (g : Chain) (m : ℕ)
      → Holds b xs g
      → suc m ≡ g.base + g.size
      → g.size ≢ 0
      → task_chunk_size ≤ b.tail_idx
      → let (c, b') = link_chunk (g.address m) (get_chunk b) in
        IsQueue (write_tail c t b') (xs ++ t ∷ [])
  unfolding get_chunk link_chunk
  linked-IsQueue b g m h last_no some_chunk full =
      let c = (get_chunk_from b.pool b).0 in
      let b' = (get_chunk_from b.pool b).1 in
      let got = get_chunk_from-Holds b xs g h b.pool refl in
      let idx = tail_idx-get_chunk b b.pool in
      let grown =
        link_chunk-Holds b' xs (take_owner g c) c got.0 (taken_self g c) got.1 m last_no some_chunk
          (omega (arith, h.tail_le, idx)) in
      write_new (link_chunk (g.address m) (c, b')).1 (take_owner g c) c grown refl

  tail_room-IsQueue :
      (b : Buffer T) (g : Chain) (p : Option ℕ)
      → Holds b xs g
      → b.tail_chunk ≡ p
      → let (c, b') = tail_room p b in IsQueue (write_tail c t b') (xs ++ t ∷ [])
  unfolding tail_room get_chunk first_chunk
  tail_room-IsQueue b g none h e =
      let c = (get_chunk_from b.pool b).0 in
      let b' = (get_chunk_from b.pool b).1 in
      let got = get_chunk_from-Holds b xs g h b.pool refl in
      let grown =
        first_chunk-Holds b' xs (take_owner g c) c got.0 (taken_self g c) got.1
          (ground (arith, h.tail_at)) in
      write_new (first_chunk (c, b')).1 (take_owner g c) c grown refl
  tail_room-IsQueue b g (some k) h e =
      let m = g.base + g.size - 1 in
      let some_chunk : g.size ≢ 0 = λ z. ground (arith, h.tail_at) in
      let at : g.address m ≡ k = ground (arith, h.tail_at) in
      elim (Bool-cases (leb task_chunk_size b.tail_idx)) [
        | inl full ↦
            rw (full, ← at) (linked-IsQueue b g m h (omega arith) some_chunk (ground arith))
        | inr free ↦
            rw (free, ← at)
              (g, write_tail-Holds b xs g t m h (omega arith) some_chunk (ground arith))
      ]

  -- `pushTail` puts the task at the end of the queue.
  pub push_tail-IsQueue : (b : Buffer T) → IsQueue b xs → IsQueue (push_tail t b) (xs ++ t ∷ [])
  unfolding push_tail
  push_tail-IsQueue b (g, h) = tail_room-IsQueue b g b.tail_chunk h refl
