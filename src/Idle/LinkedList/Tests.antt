-- ===== src/Idle/LinkedList/Tests.antt =====
-- The linked list at work on two time stamps, the older one behind the newer one.
use go_agile_pool.Prelude.{ℕ, ◌+◌, ◌≡◌, refl, arith, [], ◌∷◌, ◌++◌, List, some, none, keep, length}
use go_agile_pool.Prelude.Run.{Run, ok, ◌>>=◌, Returns}
use go_agile_pool.Idle.{Dated, unexpired}
use go_agile_pool.Idle.LinkedList as ListCode
use go_agile_pool.Idle.LinkedList.{
  LinkedList, Node, Nodes, write, load, set_next, new_linked_list, add, pop, remove_expired,
  remove_node,
}
use go_agile_pool.Idle.LinkedList.Laws.{IsQueue, LinkedList-IsQueue}

instance abbrev stamp : Dated ℕ
stamp = record { dated_time = λ t. t }

abbrev two_nodes : Nodes ℕ
two_nodes =
    write 0 (record { val = 30; next = some 1; prev = none })
      (write 1 (record { val = 5; next = none; prev = some 0 }) (λ a. none))

abbrev two_stamps : LinkedList ℕ
two_stamps = record { head = some 0; tail = some 1; length = 2; nodes = two_nodes; fresh = 2 }

two_stamps-IsQueue : IsQueue two_stamps (30 ∷ 5 ∷ [])
unfolding write
two_stamps-IsQueue = (
  (0, 30) ∷ (1, 5) ∷ [],
  record {
    begins = refl;
    ends = refl;
    counts = refl;
    linked = (refl, (refl, tt));
    distinct = ((refl, tt), (tt, tt));
    bounded = (omega arith, (omega arith, tt));
  },
  refl,
)

-- After a removal the element that is left can be taken.
sweep_then_pop : Run (ℕ × List ℕ)
sweep_then_pop = remove_expired two_stamps 20 10 >>= λ (n, ll).
    pop ll >>= λ (x, r). ok (n, elim x [ none ↦ [] | some v ↦ v ∷ r.length ∷ [] ])

sweep_then_pop_runs : sweep_then_pop ≡ ok (1, 30 ∷ 0 ∷ [])
unfolding sweep_then_pop write remove_expired pop load remove_node set_next ListCode.set_prev
sweep_then_pop_runs = refl

LinkedList-IsQueue_example :
    ((w : ℕ) → Returns (λ r. IsQueue r ((30 ∷ 5 ∷ []) ++ w ∷ [])) (add two_stamps w))
    × Returns (λ (x, r). (x ≡ some 30) × IsQueue r (5 ∷ [])) (pop two_stamps)
    × ((now expiry : ℕ)
        → Returns
            (λ (n, r).
              IsQueue r (keep (unexpired now expiry) (30 ∷ 5 ∷ []))
              × (n + length {A = ℕ} (keep (unexpired now expiry) (30 ∷ 5 ∷ [])) ≡ 2))
            (remove_expired two_stamps now expiry))
    × (ListCode.length two_stamps ≡ 2)
LinkedList-IsQueue_example = LinkedList-IsQueue two_stamps (30 ∷ 5 ∷ []) two_stamps-IsQueue
