-- ===== src/Idle/RingQueue/Compact.antt =====
-- `RemoveExpired` of the ring queue: the compaction in place and the clearing behind it.
use mathlib.Core.List.{append_assoc, append-nil}
use go_agile_pool.Prelude.{
  ℕ, zero, suc, ◌+◌, ◌-◌, ◌%◌, ◌<◌, ◌≤◌, ◌≡◌, refl, sym, subst, ◌∙◌, true, false, List, [], ◌∷◌,
  ◌++◌, Option, none, some, Bool, ltb, leb, ◌&&◌, ◌==◌, if◌then◌else◌, length, set, get_elem?, keep,
  length-set, length-append, arith, Bool-cases, inl, inr,
}
use go_agile_pool.Prelude.Run.{Returns, Returns->>=}
use go_agile_pool.Idle.{Dated, after, survives}
use go_agile_pool.Idle.RingQueue.{
  RingQueue, compact_step, compact_loop, clear_loop, finish, remove_expired,
}
use go_agile_pool.Idle.RingQueue.Slots.{slot, slot-set, get_elem?-concat, get_elem?_end}
use go_agile_pool.Idle.RingQueue.Laws.{Holds}

module _ {A : Type 0} where
  -- The compaction at round `i`: the survivors `ys` stand from the head on, and the elements `zs`
  -- are still to be read from position `i` on.
  pub record IsCompacting (c h i : ℕ) (ys zs : List A) (buf : List (Option A)) : Type 0 where
    pub same_size : length buf ≡ c
    pub written : length ys ≤ i
    pub fits : i + length zs ≤ c
    pub done : (j : ℕ) → j < length ys → slot buf h j ≡ get_elem? ys j
    pub todo : (j : ℕ) → i + j < c → slot buf h (i + j) ≡ get_elem? zs j

  -- What the loop ends with: the write index and the buffer.
  Compacted : ℕ → ℕ → ℕ → List A → ℕ × List (Option A) → Type 0
  Compacted c h n ys (w, buf) = (w ≡ length ys) × IsCompacting c h n ys [] buf

  length-clear_loop :
      (k i h : ℕ) (buf : List (Option A)) → length (clear_loop k i h buf) ≡ length buf
  unfolding clear_loop
  length-clear_loop zero i h buf = refl
  length-clear_loop (suc k) i h buf =
      length-clear_loop k (suc i) h _ ∙ length-set buf ((h + i) % length buf) none

  clear_loop_lem :
      (k i h : ℕ) (buf : List (Option A)) (j : ℕ)
      → h < length buf
      → i + k ≤ length buf
      → j < length buf
      → slot (clear_loop k i h buf) h j ≡ (if leb i j && ltb j (i + k) then none else slot buf h j)
  unfolding clear_loop
  clear_loop_lem zero i h buf j hh hk hj = ground arith
  clear_loop_lem (suc k) i h buf j hh hk hj =
      let b' = set buf ((h + i) % length buf) none in
      ground (
        arith,
        length-set buf ((h + i) % length buf) none,
        clear_loop_lem k (suc i) h b' j,
        slot-set buf h i j none,
      )

module _ {A : Type 0} ⦃d : Dated A⦄ (c h cutoff : ℕ) (head_in : h < c) where
  abbrev alive : A → Bool
  alive w = after (d.dated_time w) cutoff

  -- Nothing is written for an element that is dropped.
  skip :
      (i : ℕ) (ys zs : List A) (z : A) (buf : List (Option A))
      → IsCompacting c h i ys (z ∷ zs) buf
      → IsCompacting c h (suc i) ys zs buf
  skip i ys zs z buf m = record {
    same_size = m.same_size;
    written = omega (arith, m.written);
    fits = omega (arith, m.fits);
    done = m.done;
    todo =
        λ j hj. let e : suc i + j ≡ i + suc j = omega arith in rw e (m.todo (suc j) (omega arith));
  }

  -- A survivor already in its place.
  stay :
      (i : ℕ) (ys zs : List A) (z : A) (buf : List (Option A))
      → IsCompacting c h i ys (z ∷ zs) buf
      → length ys ≡ i
      → IsCompacting c h (suc i) (ys ++ z ∷ []) zs buf
  stay i ys zs z buf m e =
      let s = skip i ys zs z buf m in
      record {
        same_size = s.same_size;
        written = omega (arith, m.written, length-append {0} ys (z ∷ []));
        fits = s.fits;
        done = λ j hj.
            ground (
              arith,
              get_elem?-concat ys z j,
              m.done j,
              m.todo 0,
              m.fits,
              length-append ys (z ∷ []),
            );
        todo = s.todo;
      }

  -- A survivor moved down to the write position.
  move :
      (i : ℕ) (ys zs : List A) (z : A) (buf : List (Option A))
      → IsCompacting c h i ys (z ∷ zs) buf
      → length ys < i
      → IsCompacting c h (suc i) (ys ++ z ∷ []) zs (set buf ((h + length ys) % length buf) (some z))
  move i ys zs z buf m below =
      let s = skip i ys zs z buf m in
      let p = length ys in
      record {
        same_size = length-set buf ((h + p) % length buf) (some z) ∙ m.same_size;
        written = omega (arith, m.written, length-append {0} ys (z ∷ []));
        fits = s.fits;
        done = λ j hj. ground (
          arith,
          get_elem?-concat ys z j,
          m.done j,
          m.fits,
          m.same_size,
          head_in,
          length-append ys (z ∷ []),
          slot-set buf h p j (some z),
        );
        todo = λ j hj.
            ground (
              arith,
              m.fits,
              m.same_size,
              head_in,
              s.todo j,
              slot-set buf h p (suc i + j) (some z),
            );
      }

  -- The loop reads every element before it is overwritten, and ends with the survivors in order.
  compact_loop_lem :
      (zs ys ts : List A) (i n w : ℕ) (buf : List (Option A))
      → w ≡ length ys
      → i + length zs ≡ n
      → ys ++ keep alive zs ≡ ts
      → IsCompacting c h i ys zs buf
      → Returns (Compacted c h n ts) (compact_loop (length zs) h cutoff i w buf)
  unfolding compact_loop compact_step Compacted
  compact_loop_lem [] ys ts i n w buf ew en et m =
      let en' : i ≡ n = omega arith in
      (_, refl, (rw (← et, append-nil) ew, rw (← et, ← en', append-nil) m))
  compact_loop_lem (z ∷ zs) ys ts i n w buf ew en et m =
      let read : slot buf h i ≡ some z = ground (arith, m.todo 0, m.fits) in
      let longer : w + 1 ≡ length (ys ++ z ∷ []) = omega (arith, length-append {0} ys (z ∷ [])) in
      let more =
        λ (live : alive z ≡ true). append_assoc ys (z ∷ []) (keep alive zs) ∙ (rw live at et) in
      rw read (elim (Bool-cases (alive z)) [
        | inl live ↦ elim (Bool-cases (w == i)) [
          | inl here ↦
              rw (live, here)
                (compact_loop_lem zs (ys ++ z ∷ []) ts (suc i) n (w + 1) buf longer (omega arith)
                  (more live) (stay i ys zs z buf m (ground arith)))
          | inr lower ↦
              rw (live, lower)
                (compact_loop_lem zs (ys ++ z ∷ []) ts (suc i) n (w + 1) _ longer (omega arith)
                  (more live) (rw ew (move i ys zs z buf m (ground (arith, m.written)))))
        ]
        | inr dead ↦ rw dead (
            compact_loop_lem zs ys ts (suc i) n w buf ew (omega arith) (rw dead at et)
              (skip i ys zs z buf m))
      ])

module _ {A : Type 0} ⦃d : Dated A⦄ where
  finish_lem :
      (rq : RingQueue A) (xs ys : List A) (s : ℕ × List (Option A))
      → Holds rq xs
      → Compacted (length rq.buf) rq.head (length xs) ys s
      → Holds (finish rq s).1 ys × ((finish rq s).0 + length ys ≡ length xs)
  unfolding finish Compacted
  finish_lem rq xs ys (w, buf) h (ew, m) =
      let k = rq.len - w in
      let size : length (clear_loop k w rq.head buf) ≡ length rq.buf =
        length-clear_loop k w rq.head buf ∙ m.same_size in
      let kept : rq.len - (rq.len - w) ≡ w = omega (arith, ew, m.written, h.counted) in
      (
        record {
          head_in = rw size h.head_in;
          tail_at = rw (size, kept);
          counted = omega (arith, kept, ew);
          room = rw (size, kept) (omega (arith, ew, m.written, h.room, h.counted));
          slots = λ j hj.
              let hj' : j < length rq.buf = rw size at hj in
              rw
                (clear_loop_lem k w rq.head buf j (rw m.same_size h.head_in)
                  (omega (arith, m.same_size, ew, m.written, h.room, h.counted))
                  (rw m.same_size hj'))
                (ground (
                  arith,
                  m.done j,
                  m.todo (j - length xs),
                  get_elem?_end ys j,
                  m.written,
                  h.counted,
                  h.room,
                ));
        },
        omega (arith, ew, m.written, h.counted),
      )

  start :
      (rq : RingQueue A) (xs : List A)
      → Holds rq xs
      → IsCompacting (length rq.buf) rq.head 0 [] xs rq.buf
  start rq xs h = record {
    same_size = refl;
    written = omega arith;
    fits = omega (arith, h.room, h.counted);
    done = λ j hj. elim hj [ ];
    todo = λ j hj. let e : 0 + j ≡ j = omega arith in rw e (h.slots j (omega arith));
  }

  -- `RemoveExpired` does not panic on a ring that holds `xs`: the ring then holds exactly the
  -- elements dated after the cutoff, in their order and with every other slot cleared, and the
  -- result is how many it removed.
  pub RingQueue-remove_expired :
      (rq : RingQueue A) (xs : List A) (now expiry : ℕ)
      → Holds rq xs
      → Returns
          (λ (n, rq').
            Holds rq' (keep (survives now expiry) xs)
            × (n + length (keep (survives now expiry) xs) ≡ length xs))
          (remove_expired rq now expiry)
  unfolding remove_expired
  RingQueue-remove_expired rq [] now expiry h =
      let none_left : (rq.len == 0) ≡ true = ground (arith, h.counted) in
      rw none_left (_, refl, (h, refl))
  RingQueue-remove_expired rq (x ∷ xs) now expiry h =
      let some_left : (rq.len == 0) ≡ false = ground (arith, h.counted) in
      let cutoff = now - expiry in
      let c = length rq.buf in
      let ys = keep (survives now expiry) (x ∷ xs) in
      let scanned =
        subst
          (λ k.
            Returns (Compacted c rq.head (length (x ∷ xs)) ys)
              (compact_loop k rq.head cutoff 0 0 rq.buf))
          (sym h.counted)
          (compact_loop_lem c rq.head cutoff h.head_in (x ∷ xs) [] ys 0 (length (x ∷ xs)) 0 rq.buf
            refl (omega arith) refl (start rq (x ∷ xs) h)) in
      rw some_left (
        Returns->>= _ _ (compact_loop rq.len rq.head cutoff 0 0 rq.buf) _ scanned
          λ s c. (_, refl, finish_lem rq (x ∷ xs) ys s h c))
