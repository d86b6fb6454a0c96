-- ===== src/TaskBuffer/Grow.antt =====
-- `pushTail`: the write into the last chunk, and the chunk that is taken when that is full.
use go_agile_pool.Prelude.{
  ℕ, zero, suc, ◌+◌, ◌-◌, ◌≤◌, ◌<◌, ◌≡◌, ◌≢◌, refl, sym, ◌∙◌, false, List, [], ◌∷◌, ◌++◌, Option,
  none, some, ◌==◌, if◌then◌else◌, length, get_elem?, length-append, arith, ℕ_discrete,
}
use go_agile_pool.TaskBuffer.{
  Chunk, Buffer, update, task_chunk_size, set_task, get_chunk_from, write_tail,
}
use go_agile_pool.TaskBuffer.Repr.{
  taken, owner_ne, pooled-injective, Chain, item, place, IsPool, Holds, address-ne, IsPool-same,
  not_pooled,
}

abbrev pub take_owner : Chain → ℕ → Chain
take_owner g c = record g { owner = update g.owner c taken }

module _ {T : Type 0} where
  get_elem?-concat :
      (xs : List T) (t : T) (i : ℕ)
      → get_elem? (xs ++ t ∷ []) i ≡ (if i == length xs then some t else get_elem? xs i)
  get_elem?-concat [] t zero = refl
  get_elem?-concat [] t (suc i) = ground arith
  get_elem?-concat (x ∷ xs) t zero = ground arith
  get_elem?-concat (x ∷ xs) t (suc i) = ground (arith, get_elem?-concat xs t i)

  -- Reading a store after a write of a slot.
  pub set_task_same :
      (store : ℕ → Chunk T) (a i : ℕ) (v : Option T) (s : ℕ)
      → (set_task store a i v a).tasks s ≡ (if i == s then v else (store a).tasks s)
  set_task_same store a i v s = ground arith

  pub set_task_other :
      (store : ℕ → Chunk T) (a i a' : ℕ) (v : Option T)
      → (a == a') ≡ false
      → set_task store a i v a' ≡ store a'
  set_task_other store a i a' v e = rw e

  pub next-set_task :
      (store : ℕ → Chunk T) (a i : ℕ) (v : Option T) (a' : ℕ)
      → (set_task store a i v a').next ≡ (store a').next
  next-set_task store a i v a' = ground arith

  module _ (b : Buffer T) (xs : List T) (g : Chain) (t : T) (m : ℕ) (h : Holds b xs g)
      (last_no : suc m ≡ g.base + g.size) (some_chunk : g.size ≢ 0)
      (room : b.tail_idx < task_chunk_size) where
    last_end : place m b.tail_idx ≡ place g.base b.head_idx + length xs
    last_end = let e : g.base + g.size - 1 ≡ m = omega arith in rw e at (h.ends some_chunk)

    written_slots :
        (k s : ℕ)
        → g.base ≤ k
        → k < g.base + g.size
        → s < task_chunk_size
        → (set_task b.store (g.address m) b.tail_idx (some t) (g.address k)).tasks s
          ≡ item (place g.base b.head_idx) (xs ++ t ∷ []) (place k s)
    written_slots k s p q r = elim (ℕ_discrete m k) [
      | yes e ↦
          rw (e, set_task_same b.store (g.address k) b.tail_idx (some t) s)
            (ground (
              arith,
              last_end,
              h.slots k s p q r,
              get_elem?-concat xs t (place k s - place g.base b.head_idx),
            ))
      | no e ↦
          rw
            (set_task_other b.store (g.address m) b.tail_idx (g.address k) (some t)
              (address-ne h m k (omega arith) (omega arith) p q e))
            (ground (
              arith,
              last_end,
              h.slots k s p q r,
              get_elem?-concat xs t (place k s - place g.base b.head_idx),
            ))
    ]

    -- Writing the next slot of the last chunk appends the task.
    pub write_tail-Holds : Holds (write_tail (g.address m) t b) (xs ++ t ∷ []) g
    unfolding write_tail
    write_tail-Holds = record {
      head_at = h.head_at;
      tail_at = h.tail_at;
      no_chunk = λ e. absurd (some_chunk e);
      ends = λ e. omega (arith, h.ends e, length-append {0} xs (t ∷ []));
      head_le = h.head_le;
      tail_le = omega arith;
      counted = omega (arith, h.counted, length-append {0} xs (t ∷ []));
      owned = h.owned;
      links = λ k p q.
          next-set_task b.store (g.address m) b.tail_idx (some t) (g.address k) ∙ h.links k p q;
      last = λ k p q.
          next-set_task b.store (g.address m) b.tail_idx (some t) (g.address k) ∙ h.last k p q;
      slots = written_slots;
      pool_clean =
          IsPool-same b (write_tail (g.address m) t b) g g b.pool
            (λ p j lt e. (
              e,
              set_task_other b.store (g.address m) b.tail_idx p (some t)
                  (not_pooled g (g.address m) p m j (h.owned m (omega arith) (omega arith)) e),
            ))
            h.pool_clean;
      never_used = h.never_used;
    }

  pub get_elem?_end : (xs : List T) (i : ℕ) → length xs ≤ i → get_elem? xs i ≡ none
  get_elem?_end [] i h = refl
  get_elem?_end (x ∷ xs) zero h = elim h [ ]
  get_elem?_end (x ∷ xs) (suc i) h = get_elem?_end xs i (omega arith)

  -- A chunk with no task and no successor.
  abbrev pub IsClean : Chunk T → Type 0
  IsClean c = (c.next ≡ none) × ((s : ℕ) → s < task_chunk_size → c.tasks s ≡ none)

  module _ (b : Buffer T) (xs : List T) (g : Chain) (h : Holds b xs g) where
    pub get_chunk_from-Holds :
        (ps : List ℕ)
        → b.pool ≡ ps
        → let (c, b') = get_chunk_from ps b in Holds b' xs (take_owner g c) × IsClean (b'.store c)
    unfolding get_chunk_from
    get_chunk_from-Holds [] e =
        let c = b.fresh in
        let ne = λ (k : ℕ) (p : g.base ≤ k) (q : k < g.base + g.size).
          owner_ne g c (g.address k)
            (λ same. cc (sym (h.never_used c (omega arith)) ∙ same ∙ h.owned k p q)) in
        (
          record {
            head_at = h.head_at;
            tail_at = h.tail_at;
            no_chunk = h.no_chunk;
            ends = h.ends;
            head_le = h.head_le;
            tail_le = h.tail_le;
            counted = h.counted;
            owned = λ k p q. rw (ne k p q) (h.owned k p q);
            links = λ k p q. rw (ne k p (omega arith)) (h.links k p q);
            last = λ k p q. rw (ne k p (omega arith)) (h.last k p q);
            slots = λ k s p q r. rw (ne k p q) (h.slots k s p q r);
            pool_clean = rw e tt;
            never_used = λ a le. ground (arith, h.never_used a);
          },
          (ground arith, λ s r. ground arith),
        )
    get_chunk_from-Holds (c ∷ rest) e =
        let b' : Buffer T = record b { pool = rest } in
        let pc : IsPool b g (c ∷ rest) = rw e at h.pool_clean in
        let ne = λ (a : ℕ) (o : g.owner c ≢ g.owner a). owner_ne g c a o in
        let nk = λ (k : ℕ) (p : g.base ≤ k) (q : k < g.base + g.size).
          ne (g.address k) (λ same. cc (sym pc.0 ∙ same ∙ h.owned k p q)) in
        (
          record {
            head_at = h.head_at;
            tail_at = h.tail_at;
            no_chunk = h.no_chunk;
            ends = h.ends;
            head_le = h.head_le;
            tail_le = h.tail_le;
            counted = h.counted;
            owned = λ k p q. rw (nk k p q) (h.owned k p q);
            links = h.links;
            last = h.last;
            slots = h.slots;
            pool_clean =
                IsPool-same b b' g (take_owner g c) rest
                  (λ p j lt o. (
                    rw
                        (ne p
                          (λ same. absurd (omega (arith, pooled-injective (sym pc.0 ∙ same ∙ o)))))
                        o,
                    refl,
                  ))
                  pc.3;
            never_used = λ a le.
                rw (ne a (λ same. cc (sym pc.0 ∙ same ∙ h.never_used a le))) (h.never_used a le);
          },
          (pc.1, pc.2),
        )
