-- ===== src/Idle/RingQueue/Laws.antt =====
-- A ring queue against the queue of its elements: `Add`, with the growth of the buffer, and `Pop`.
use native.Mathlib.Nat.{mod-lt, mod-add-mod, add-mod_right, mod-eq_of_lt}
use go_agile_pool.Prelude.{
  ℕ, zero, suc, ◌+◌, ◌*◌, ◌%◌, ◌<◌, ◌≤◌, ◌≡◌, refl, ap, ◌∙◌, true, false, List, [], ◌∷◌, ◌++◌,
  Option, none, some, ltb, leb, ◌&&◌, ◌==◌, if◌then◌else◌, length, get_or, set, get_elem?, head?,
  tail, replicate, length-set, get_or-set, length-append, length-replicate, get_or-replicate, arith,
  dec_lt, Bool-cases, inl, inr,
}
use go_agile_pool.Idle.RingQueue.{RingQueue, new_ring_queue, copy_loop, grow, put, add, pop}
use go_agile_pool.Idle.RingQueue.Slots.{ring_index, slot, slot-set, get_elem?-concat, get_elem?_end}

module _ {A : Type 0} where
  -- The ring holds the elements `xs`, oldest first, and every other slot is cleared.
  pub record Holds (rq : RingQueue A) (xs : List A) : Type 0 where
    pub head_in : rq.head < length rq.buf
    pub tail_at : rq.tail ≡ (rq.head + rq.len) % length rq.buf
    pub counted : rq.len ≡ length xs
    pub room : rq.len ≤ length rq.buf
    pub slots : (i : ℕ) → i < length rq.buf → slot rq.buf rq.head i ≡ get_elem? xs i

  pub new_ring_queue-Holds : Holds new_ring_queue []
  unfolding new_ring_queue
  new_ring_queue-Holds = record {
    head_in = omega arith;
    tail_at = refl;
    counted = refl;
    room = omega arith;
    slots = λ i h. get_or-replicate 64 ((0 + i) % 64) none;
  }

  length-copy_loop :
      (k i : ℕ) (rq : RingQueue A) (b : List (Option A)) → length (copy_loop k i rq b) ≡ length b
  unfolding copy_loop
  length-copy_loop zero i rq b = refl
  length-copy_loop (suc k) i rq b = length-copy_loop k (suc i) rq _ ∙ length-set b i _

  copy_loop_lem :
      (k i : ℕ) (rq : RingQueue A) (b : List (Option A)) (j : ℕ)
      → i + k ≤ length b
      → get_or (copy_loop k i rq b) j none
        ≡ (if leb i j && ltb j (i + k) then slot rq.buf rq.head j else get_or b j none)
  unfolding copy_loop
  copy_loop_lem zero i rq b j h = ground arith
  copy_loop_lem (suc k) i rq b j h =
      let v = slot rq.buf rq.head i in
      ground
        (arith, length-set b i v, copy_loop_lem k (suc i) rq (set b i v) j, get_or-set b i j v none)

  grow_lem :
      (rq : RingQueue A) (xs : List A)
      → Holds rq xs
      → Holds (grow rq) xs × (length (grow rq).buf ≡ length rq.buf * 2)
  unfolding grow
  grow_lem rq xs h =
      let c = length rq.buf in
      let b : List (Option A) = replicate (c * 2) none in
      let e : length (copy_loop rq.len 0 rq b) ≡ c * 2 =
        length-copy_loop rq.len 0 rq b ∙ length-replicate (c * 2) none in
      (
        record {
          head_in = omega (arith, e, h.head_in);
          tail_at = rw e (ground (arith, ring_index (c * 2) 0 rq.len, h.room, h.head_in));
          counted = h.counted;
          room = omega (arith, e, h.room);
          slots = λ i hi.
              let hi' : i < c * 2 = omega (arith, hi, e) in
              let at : (0 + i) % (c * 2) ≡ i = ground (arith, ring_index (c * 2) 0 i) in
              rw
                (
                  e,
                  at,
                  copy_loop_lem rq.len 0 rq b i
                      (omega (arith, h.room, length-replicate {0} {A = Option A} (c * 2) none)),
                )
                (ground (
                  arith,
                  h.slots i,
                  h.room,
                  h.counted,
                  get_elem?_end xs i,
                  get_or-replicate {0} {A = Option A} (c * 2) i none,
                ));
        },
        e,
      )

  put_lem :
      (rq : RingQueue A) (xs : List A) (w : A)
      → Holds rq xs
      → rq.len < length rq.buf
      → Holds (put rq w) (xs ++ w ∷ [])
  unfolding put
  put_lem rq xs w h room =
      let c = length rq.buf in
      record {
        head_in = rw length-set h.head_in;
        tail_at = rw (h.tail_at, length-set, mod-add-mod) (ap (λ k. k % c) (omega arith));
        counted = omega (arith, h.counted, length-append {0} xs (w ∷ []));
        room = rw length-set (omega arith);
        slots = λ i hi.
            let hi' : i < c = omega (arith, hi, length-set rq.buf rq.tail (some w)) in
            rw
              (
                h.tail_at,
                get_elem?-concat xs w i,
                slot-set rq.buf rq.head rq.len i (some w) h.head_in room hi',
              )
              (ground (arith, h.slots i, h.counted));
      }

  -- `Add` puts the element behind those that the ring holds, growing the buffer when it is full.
  pub RingQueue-add :
      (rq : RingQueue A) (xs : List A) (w : A) → Holds rq xs → Holds (add rq w) (xs ++ w ∷ [])
  unfolding add
  RingQueue-add rq xs w h = elim (Bool-cases (length rq.buf == rq.len)) [
    | inl full ↦
        let grown = grow_lem rq xs h in
        rw full (
          put_lem (grow rq) xs w grown.0
            (ground (arith, grown.0.counted, h.counted, grown.1, h.head_in)))
    | inr free ↦ rw free (put_lem rq xs w h (ground (arith, h.room)))
  ]

  -- Past the old head, with its slot cleared, stand the other elements.
  popped_slots :
      (rq : RingQueue A) (x : A) (xs : List A)
      → Holds rq (x ∷ xs)
      → (i : ℕ) → i < length rq.buf
      → get_or (set rq.buf rq.head none) ((rq.head + 1 + i) % length rq.buf) none ≡ get_elem? xs i
  popped_slots rq x xs h i hi =
      let c = length rq.buf in
      let next : rq.head + 1 + i ≡ rq.head + suc i = omega arith in
      elim (dec_lt (suc i) c) [
        | yes p ↦
            rw (next, get_or-set rq.buf rq.head ((rq.head + suc i) % c) none none h.head_in)
              (ground (arith, ring_index c rq.head (suc i), h.head_in, h.slots (suc i)))
        | no p ↦
            let round : (rq.head + suc i) % c ≡ rq.head =
              let last : suc i ≡ c = omega arith in
              rw last (add-mod_right rq.head c ∙ mod-eq_of_lt h.head_in) in
            rw (next, round, get_or-set rq.buf rq.head rq.head none none h.head_in)
              (ground (arith, get_elem?_end xs i, h.room, h.counted))
      ]

  -- `Pop` returns the oldest element (nil if there is none), leaves the others and clears its slot.
  pub RingQueue-pop :
      (rq : RingQueue A) (xs : List A)
      → Holds rq xs
      → ((pop rq).0 ≡ head? xs) × Holds (pop rq).1 (tail xs)
  unfolding pop
  RingQueue-pop rq [] h =
      let none_left : (rq.len == 0) ≡ true = ground (arith, h.counted) in rw none_left (refl, h)
  RingQueue-pop rq (x ∷ xs) h =
      let c = length rq.buf in
      let some_left : (rq.len == 0) ≡ false = ground (arith, h.counted) in
      let at_head : (rq.head + 0) % c ≡ rq.head = ground (arith, ring_index c rq.head 0) in
      rw some_left (
        ground (arith, h.slots 0, at_head),
        record {
          head_in = rw length-set (mod-lt (rq.head + 1) (omega (arith, h.head_in)));
          tail_at =
              rw (h.tail_at, length-set, mod-add-mod) (ap (λ k. k % c) (omega (arith, h.counted)));
          counted = omega (arith, h.counted);
          room = omega (arith, h.room, length-set rq.buf rq.head none);
          slots = λ i hi.
              let hi' : i < c = omega (arith, hi, length-set rq.buf rq.head none) in
              rw (length-set, mod-add-mod) (popped_slots rq x xs h i hi');
        },
      )
