-- ===== src/Idle/Tests.antt =====
-- Witnesses and tests of the idle containers, over time stamps as elements.
use go_agile_pool.Prelude.{
  Bool, ℕ, zero, suc, ◌<◌, get_elem?, ◌+◌, ◌≡◌, refl, List, [], ◌∷◌, none, some, keep, length,
  arith,
}
use go_agile_pool.Prelude.Run.{Returns}
use go_agile_pool.Idle.{Dated, survives}
use go_agile_pool.Idle.Slice
use go_agile_pool.Idle.Slice.{Slice}
use go_agile_pool.Idle.Slice.Laws as SliceLaws
use go_agile_pool.Idle.Treap
use go_agile_pool.Idle.Treap.{Treap, PoolNode, node, leaf}
use go_agile_pool.Idle.Treap.Laws as TreapLaws
use go_agile_pool.Idle.Treap.Heap as TreapHeap
use go_agile_pool.Idle.RingQueue
use go_agile_pool.Idle.RingQueue.{RingQueue}
use go_agile_pool.Idle.RingQueue.Slots.{slot}
use go_agile_pool.Idle.RingQueue.Laws as RingLaws
use go_agile_pool.Idle.RingQueue.Compact as RingCompact
use go_agile_pool.Idle.Contract.{IsFifo}
use go_agile_pool.Idle.Containers.{slice_container, list_container, ring_container, queues-IsFifo}

-- A worker known by its time stamp.
instance abbrev stamp : Dated ℕ
stamp = record { dated_time = λ t. t }

abbrev slice_of : List ℕ → Slice ℕ
slice_of ts = record { workers = ts; len = length ts }

Slice-add_example :
    (SliceLaws.IsValid (Slice.add (slice_of (5 ∷ [])) 3))
    × ((Slice.add (slice_of (5 ∷ [])) 3).workers ≡ 5 ∷ 3 ∷ [])
Slice-add_example = SliceLaws.Slice-add (slice_of (5 ∷ [])) 3 refl

Slice-pop_example :
    Returns
      (λ (x, s'). SliceLaws.IsValid s' × (x ≡ some 5) × (s'.workers ≡ 3 ∷ []))
      (Slice.pop (slice_of (5 ∷ 3 ∷ [])))
Slice-pop_example = SliceLaws.Slice-pop (slice_of (5 ∷ 3 ∷ [])) refl

Slice-remove_expired_example :
    let (n, s') = Slice.remove_expired (slice_of (5 ∷ 30 ∷ 9 ∷ [])) 20 10 in
    SliceLaws.IsValid s'
    × (s'.workers ≡ keep (survives 20 10) (5 ∷ 30 ∷ 9 ∷ []))
    × (n + length s'.workers ≡ 3)
Slice-remove_expired_example =
    SliceLaws.Slice-remove_expired (slice_of (5 ∷ 30 ∷ 9 ∷ [])) 20 10 refl

-- A node that was put back
abbrev recycled : PoolNode ℕ
recycled = record { value = none; left = leaf; right = leaf; priority = 8 }

abbrev two_stamps : Treap ℕ
two_stamps = record { root = node 5 4 leaf (node 9 7 leaf leaf); size = 2; pool = recycled ∷ [] }

two_stamps-IsValid : TreapLaws.IsValid two_stamps
two_stamps-IsValid = record {
  ordered = omega arith;
  sized = omega arith;
  cleared = ((refl, refl, refl), tt);
}

operations-refine_example :
    ((reuse : Bool) (p w : ℕ)
      → TreapLaws.IsValid (Treap.add reuse p two_stamps w)
        × TreapHeap.IsHeap (Treap.add reuse p two_stamps w).root
        × (TreapLaws.contents (Treap.add reuse p two_stamps w)
            ≡ TreapLaws.insert_late w (TreapLaws.contents two_stamps)))
    × (TreapLaws.IsValid (Treap.pop two_stamps).1
        × TreapHeap.IsHeap (Treap.pop two_stamps).1.root
        × ((Treap.pop two_stamps).0 ≡ some 5)
        × (TreapLaws.contents (Treap.pop two_stamps).1 ≡ 9 ∷ []))
    × ((now expiry : ℕ)
        → let (n, t') = Treap.remove_expired two_stamps now expiry in
          TreapLaws.IsValid t'
          × TreapHeap.IsHeap t'.root
          × (TreapLaws.contents t' ≡ keep (survives now expiry) (TreapLaws.contents two_stamps))
          × (n + length (TreapLaws.contents t') ≡ length (TreapLaws.contents two_stamps)))
operations-refine_example = TreapHeap.operations-refine two_stamps two_stamps-IsValid (omega arith)

-- Three elements round the end of four slots.
abbrev ring : RingQueue ℕ
ring = record { buf = some 7 ∷ none ∷ some 30 ∷ some 9 ∷ []; head = 2; tail = 1; len = 3 }

abbrev ring_list : List ℕ
ring_list = 30 ∷ 9 ∷ 7 ∷ []

ring_slots : (i : ℕ) → i < 4 → slot ring.buf 2 i ≡ get_elem? ring_list i
ring_slots zero h = refl
ring_slots (suc zero) h = refl
ring_slots (suc (suc zero)) h = refl
ring_slots (suc (suc (suc zero))) h = refl
ring_slots (suc (suc (suc (suc i)))) h = absurd (omega arith)

ring-Holds : RingLaws.Holds ring ring_list
ring-Holds = record {
  head_in = omega arith;
  tail_at = refl;
  counted = refl;
  room = omega arith;
  slots = ring_slots;
}

RingQueue-add_example : RingLaws.Holds (RingQueue.add ring 4) (30 ∷ 9 ∷ 7 ∷ 4 ∷ [])
RingQueue-add_example = RingLaws.RingQueue-add ring ring_list 4 ring-Holds

RingQueue-pop_example :
    ((RingQueue.pop ring).0 ≡ some 30) × RingLaws.Holds (RingQueue.pop ring).1 (9 ∷ 7 ∷ [])
RingQueue-pop_example = RingLaws.RingQueue-pop ring ring_list ring-Holds

RingQueue-remove_expired_example :
    Returns
      (λ (n, rq').
        RingLaws.Holds rq' (keep (survives 18 10) ring_list)
        × (n + length (keep (survives 18 10) ring_list) ≡ 3))
      (RingQueue.remove_expired ring 18 10)
RingQueue-remove_expired_example =
    RingCompact.RingQueue-remove_expired ring ring_list 18 10 ring-Holds

queues-IsFifo_example :
    IsFifo {A = ℕ} slice_container × IsFifo {A = ℕ} list_container × IsFifo {A = ℕ} ring_container
queues-IsFifo_example = queues-IsFifo {A = ℕ} ⦃d = stamp⦄
