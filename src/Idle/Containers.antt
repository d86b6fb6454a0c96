-- ===== src/Idle/Containers.antt =====
-- The containers of internal/idle fill the contract.
use mathlib.Core.List.{Permᴰ}
use mathlib.Core.List.Permᴰ as PermOf
use go_agile_pool.Prelude.{
  Bool, ℕ, ◌+◌, ◌≡◌, refl, ap, ◌∙◌, subst, List, [], ◌∷◌, ◌++◌, length, keep, head?, tail, arith,
}
use go_agile_pool.Prelude.Run.{ok, Returns}
use go_agile_pool.Idle.{
  Dated, survives, IdleContainerType, linked_list, min_heap, slice, ring_queue, treap,
}
use go_agile_pool.Idle.MinHeap.{HeapPackage, Documented}
use go_agile_pool.Idle.MinHeap.Laws.{heap_container, heap-Fulfils}
use go_agile_pool.Idle.Contract.{
  IdleContainer, Fulfils, same_tests, keep_both-perm, IsFifo, IsFifo-Fulfils, Taken-head,
}
use go_agile_pool.Idle.Slice as SliceCode
use go_agile_pool.Idle.Slice.{Slice}
use go_agile_pool.Idle.Slice.Laws as SliceLaws
use go_agile_pool.Idle.LinkedList as ListCode
use go_agile_pool.Idle.LinkedList.{LinkedList}
use go_agile_pool.Idle.LinkedList.Laws as ListLaws
use go_agile_pool.Idle.RingQueue as RingCode
use go_agile_pool.Idle.RingQueue.{RingQueue}
use go_agile_pool.Idle.RingQueue.Laws as RingLaws
use go_agile_pool.Idle.RingQueue.Compact as RingCompact
use go_agile_pool.Idle.Treap as TreapCode
use go_agile_pool.Idle.Treap.{Treap}
use go_agile_pool.Idle.Treap.Order.{early, late}
use go_agile_pool.Idle.Treap.Laws as TreapLaws

module _ {A : Type 0} ⦃d : Dated A⦄ where
  abbrev pub slice_container : IdleContainer A
  slice_container = record {
    Container = Slice A;
    new = ok SliceCode.new_slice;
    add = λ s w. ok (SliceCode.add s w);
    pop = SliceCode.pop;
    remove_expired = λ s now expiry. ok (SliceCode.remove_expired s now expiry);
    len = λ s. s.len;
  }

  abbrev pub list_container : IdleContainer A
  list_container = record {
    Container = LinkedList A;
    new = ok ListCode.new_linked_list;
    add = ListCode.add;
    pop = ListCode.pop;
    remove_expired = ListCode.remove_expired;
    len = ListCode.length;
  }

  abbrev pub ring_container : IdleContainer A
  ring_container = record {
    Container = RingQueue A;
    new = ok RingCode.new_ring_queue;
    add = λ rq w. ok (RingCode.add rq w);
    pop = λ rq. ok (RingCode.pop rq);
    remove_expired = RingCode.remove_expired;
    len = λ rq. rq.len;
  }

  -- `random` is whether `pool.Get` finds a recycled node, and `rand.Int()`, whatever they are on
  -- each call.
  abbrev pub treap_container : (random : Treap A → A → Bool × ℕ) → IdleContainer A
  treap_container random = record {
    Container = Treap A;
    new = ok TreapCode.new_treap;
    add = λ t w. ok (TreapCode.add (random t w).0 (random t w).1 t w);
    pop = λ t. ok (TreapCode.pop t);
    remove_expired = λ t now expiry. ok (TreapCode.remove_expired t now expiry);
    len = TreapCode.len;
  }

  SliceQueue : Slice A → List A → Type 0
  SliceQueue s xs = SliceLaws.IsValid s × (s.workers ≡ xs)

  slice-IsFifo : IsFifo slice_container
  unfolding SliceQueue
  slice-IsFifo = record {
    Queue = SliceQueue;
    new_queue = (_, refl, SliceLaws.new_slice-IsValid);
    add_queue = λ s xs w (v, e).
        let (v', f) = SliceLaws.Slice-add s w v in (_, refl, (v', f ∙ ap (λ us. us ++ w ∷ []) e));
    pop_queue = λ s xs (v, e).
        let (r, run, (v', x, ys)) = SliceLaws.Slice-pop s v in
        (r, run, (x ∙ ap head? e, (v', ys ∙ ap tail e)));
    remove_expired_queue = λ s xs now expiry past (v, e).
        let (v', ys, n) = SliceLaws.Slice-remove_expired s now expiry v in
        let left = ys ∙ ap (keep (survives now expiry)) e in
        (_, refl, ((v', left), (omega (arith, n, ap length left, ap length e))));
    len_queue = λ s xs (v, e). v ∙ ap length e;
  }

  list-IsFifo : IsFifo list_container
  list-IsFifo = record {
    Queue = ListLaws.IsQueue;
    new_queue = (_, refl, ListLaws.new-IsQueue);
    add_queue = λ ll vs w q. (ListLaws.LinkedList-IsQueue ll vs q).0 w;
    pop_queue = λ ll vs q. (ListLaws.LinkedList-IsQueue ll vs q).1;
    remove_expired_queue = λ ll vs now expiry past q.
        subst
          (λ p.
            Returns
              (λ (n, r). ListLaws.IsQueue r (keep p vs) × (n + length (keep p vs) ≡ length vs))
              (ListCode.remove_expired ll now expiry))
          (same_tests now expiry past) ((ListLaws.LinkedList-IsQueue ll vs q).2 now expiry);
    len_queue = λ ll vs q. (ListLaws.LinkedList-IsQueue ll vs q).3;
  }

  ring-IsFifo : IsFifo ring_container
  ring-IsFifo = record {
    Queue = RingLaws.Holds;
    new_queue = (_, refl, RingLaws.new_ring_queue-Holds);
    add_queue = λ rq xs w h. (_, refl, RingLaws.RingQueue-add rq xs w h);
    pop_queue = λ rq xs h. (_, refl, RingLaws.RingQueue-pop rq xs h);
    remove_expired_queue =
        λ rq xs now expiry past h. RingCompact.RingQueue-remove_expired rq xs now expiry h;
    len_queue = λ rq xs h. h.counted;
  }

  -- The slice, the linked list and the ring queue are queues: no operation panics, a new one is
  -- empty, Add puts its element last, Pop takes the first (nil if there is none), RemoveExpired
  -- leaves exactly the elements that are not expired, in their order, and returns how many it
  -- removed, where the clock reading is past the expiry, and Len counts the elements.
  pub queues-IsFifo : IsFifo slice_container × IsFifo list_container × IsFifo ring_container
  queues-IsFifo = (slice-IsFifo, list-IsFifo, ring-IsFifo)

  insert_late-perm : (w : A) (xs : List A) → Permᴰ (TreapLaws.insert_late w xs) (w ∷ xs)
  insert_late-perm w xs =
      let k = d.dated_time w in
      Permᴰ.trans (PermOf.middle w (keep (early k) xs) (keep (late k) xs))
        (Permᴰ.cons refl (keep_both-perm (early k) (late k) xs (λ x. ground arith)))

  TreapHolds : Treap A → List A → Type 0
  TreapHolds t xs = TreapLaws.IsValid t × (TreapLaws.contents t ≡ xs)

  treap-Fulfils : (random : Treap A → A → Bool × ℕ) → Fulfils (treap_container random)
  unfolding TreapHolds
  treap-Fulfils random = record {
    Holds = TreapHolds;
    new_holds = (_, refl, (TreapLaws.new_treap-IsValid, TreapLaws.contents-new_treap));
    add_holds = λ t xs w (v, e).
        let (v', f) = TreapLaws.Treap-add (random t w).0 (random t w).1 t w v in
        (
          _,
          refl,
          (
            TreapLaws.insert_late w xs,
            (v', f ∙ ap (TreapLaws.insert_late w) e),
            insert_late-perm w xs,
          ),
        );
    pop_holds = λ t xs (v, e).
        let (v', x, ys) = TreapLaws.Treap-pop t v in
        (
          _,
          refl,
          (tail xs, (v', ys ∙ ap tail e), Taken-head xs (TreapCode.pop t).0 (x ∙ ap head? e)),
        );
    remove_expired_holds = λ t xs now expiry past (v, e).
        let (v', ys, n) = TreapLaws.Treap-remove_expired t now expiry v in
        let left = ys ∙ ap (keep (survives now expiry)) e in
        (
          _,
          refl,
          (
            _,
            (v', left),
            PermOf.refl (keep (survives now expiry) xs),
            omega (arith, n, ap length left, ap length e),
          ),
        );
    len_holds = λ t xs (v, e). TreapLaws.len-contents t v ∙ ap length e;
  }

  pub list-Fulfils : Fulfils list_container
  list-Fulfils = IsFifo-Fulfils list-IsFifo

  -- The switch of `NewPool` on the configured type
  pub new_idle_works :
      HeapPackage (List A) A
      → (random : Treap A → A → Bool × ℕ) → IdleContainerType
      → IdleContainer A
  new_idle_works pkg random min_heap = heap_container pkg
  new_idle_works pkg random slice = slice_container
  new_idle_works pkg random ring_queue = ring_container
  new_idle_works pkg random treap = treap_container random
  new_idle_works pkg random linked_list = list_container

  -- Whatever type of container is configured, the one that NewPool takes fulfils the contract: no
  -- operation panics, a new one is empty, Add adds one element, Pop takes one wherever there is one,
  -- RemoveExpired leaves exactly the elements that are not expired and returns how many it removed,
  -- where the clock reading is past the expiry, and Len counts the elements; with the documented
  -- container/heap, whatever priorities are drawn and whichever nodes are recycled.
  pub idle_works-Fulfils :
      (pkg : HeapPackage (List A) A) (random : Treap A → A → Bool × ℕ) (t : IdleContainerType)
      → Documented A pkg
      → Fulfils (new_idle_works pkg random t)
  unfolding new_idle_works
  idle_works-Fulfils pkg random min_heap docs = heap-Fulfils pkg docs
  idle_works-Fulfils pkg random slice docs = IsFifo-Fulfils slice-IsFifo
  idle_works-Fulfils pkg random ring_queue docs = IsFifo-Fulfils ring-IsFifo
  idle_works-Fulfils pkg random treap docs = treap-Fulfils random
  idle_works-Fulfils pkg random linked_list docs = list-Fulfils
