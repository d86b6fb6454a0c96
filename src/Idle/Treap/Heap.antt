-- ===== src/Idle/Treap/Heap.antt =====
-- The priorities of a treap, where no node is above one of lower priority value, and the treap as a
-- whole.
use go_agile_pool.Prelude.{
  Bool, List, All, ℕ, ◌+◌, ◌≤◌, ◌≡◌, head?, tail, keep, length, ltb, Bool-cases, inl, inr, arith,
}
use go_agile_pool.Idle.{Dated, survives}
use go_agile_pool.Idle.Treap.{
  Tree, leaf, node, PoolNode, Treap, merge, split, pop_leftmost, pop_tree, pop, add, remove_expired,
}
use go_agile_pool.Idle.Treap.Order.{IsCleared, get_node-IsCleared}
use go_agile_pool.Idle.Treap.Laws.{
  IsValid, contents, insert_late, Treap-add, Treap-pop, Treap-remove_expired,
}

module _ {A : Type 0} where
  -- The root's priority, if there is a root, is at least `b`.
  abbrev pub AtLeast : ℕ → Tree A → Type 0
  AtLeast b leaf = Unit {0}
  AtLeast b (node v p l r) = b ≤ p

  abbrev pub IsHeap : Tree A → Type 0
  IsHeap leaf = Unit {0}
  IsHeap (node v p l r) = AtLeast p l × AtLeast p r × IsHeap l × IsHeap r

  AtLeast-merge : (b : ℕ) (t u : Tree A) → AtLeast b t → AtLeast b u → AtLeast b (merge t u)
  unfolding merge
  AtLeast-merge b leaf u h k = k
  AtLeast-merge b (node v p l r) leaf h k = h
  AtLeast-merge b (node v p l r) (node w q m s) h k = ground arith

  merge-IsHeap : (t u : Tree A) → IsHeap t → IsHeap u → IsHeap (merge t u)
  unfolding merge
  merge-IsHeap leaf u h k = k
  merge-IsHeap (node v p l r) leaf h k = h
  merge-IsHeap (node v p l r) (node w q m s) h k = elim (Bool-cases (ltb p q)) [
    | inl e ↦
        rw (e, merge)
          (
            h.0,
            AtLeast-merge p r (node w q m s) h.1 (ground arith),
            h.2,
            merge-IsHeap r (node w q m s) h.3 k,
          )
    | inr e ↦
        rw (e, merge)
          (
            AtLeast-merge q (node v p l r) m (ground arith) k.0,
            k.1,
            merge-IsHeap (node v p l r) m h k.2,
            k.3,
          )
  ]

  AtLeast-mono : (b c : ℕ) (t : Tree A) → b ≤ c → AtLeast c t → AtLeast b t
  AtLeast-mono b c leaf h k = tt
  AtLeast-mono b c (node v p l r) h k = omega arith

  AtLeast-pop :
      (b : ℕ) (v : A) (p : ℕ) (l r : Tree A)
      → b ≤ p
      → IsHeap (node v p l r)
      → AtLeast b (pop_leftmost v p l r).1
  unfolding pop_leftmost
  AtLeast-pop b v p leaf r h k = AtLeast-mono b p r h k.1
  AtLeast-pop b v p (node w q m s) r h k = h

  pop_leftmost-IsHeap :
      (v : A) (p : ℕ) (l r : Tree A) → IsHeap (node v p l r) → IsHeap (pop_leftmost v p l r).1
  unfolding pop_leftmost
  pop_leftmost-IsHeap v p leaf r k = k.3
  pop_leftmost-IsHeap v p (node w q m s) r k =
      (AtLeast-pop p w q m s k.0 k.2, k.1, pop_leftmost-IsHeap w q m s k.2, k.3)

  pop_tree-IsHeap :
      (u : Tree A) (n : ℕ) (ns : List (PoolNode A)) → IsHeap u → IsHeap (pop_tree u n ns).1.root
  unfolding pop_tree
  pop_tree-IsHeap leaf n ns h = tt
  pop_tree-IsHeap (node v p l r) n ns h = pop_leftmost-IsHeap v p l r h

module _ {A : Type 0} ⦃d : Dated A⦄ where
  AtLeast-split :
      (b : ℕ) (u : Tree A) (k : ℕ)
      → AtLeast b u
      → IsHeap u
      → AtLeast b (split u k).0 × AtLeast b (split u k).1
  unfolding split
  AtLeast-split b leaf k h i = (tt, tt)
  AtLeast-split b (node v p l r) k h i =
      let hl = AtLeast-split b l k (AtLeast-mono b p l h i.0) i.2 in
      let hr = AtLeast-split b r k (AtLeast-mono b p r h i.1) i.3 in
      elim (Bool-cases (ltb k (d.dated_time v))) [ inl e ↦ rw e (hl.0, h) | inr e ↦ rw e (h, hr.1) ]

  split-IsHeap : (u : Tree A) (k : ℕ) → IsHeap u → IsHeap (split u k).0 × IsHeap (split u k).1
  unfolding split
  split-IsHeap leaf k i = (tt, tt)
  split-IsHeap (node v p l r) k i =
      let sl = split-IsHeap l k i.2 in
      let sr = split-IsHeap r k i.3 in
      let al = AtLeast-split p l k i.0 i.2 in
      let ar = AtLeast-split p r k i.1 i.3 in
      elim (Bool-cases (ltb k (d.dated_time v))) [
        | inl e ↦ rw e (sl.0, (al.1, i.1, sl.1, i.3))
        | inr e ↦ rw e ((i.0, ar.0, i.2, sr.0), sr.1)
      ]

  -- Every operation keeps the priorities in heap order, where the nodes in the pool are cleared:
  -- `Add` at any drawn priority, `Pop`, and `RemoveExpired`.
  pub operations-IsHeap :
      (t : Treap A)
      → All IsCleared t.pool
      → IsHeap t.root
      → ((reuse : Bool) (p : ℕ) (w : A) → IsHeap (add reuse p t w).root)
        × IsHeap (pop t).1.root
        × ((now expiry : ℕ) → IsHeap (remove_expired t now expiry).1.root)
  unfolding add pop remove_expired
  operations-IsHeap t c h = (
    λ reuse p w.
        let (blank, no_left, no_right) = (get_node-IsCleared reuse t.pool c).0 in
        let s = split-IsHeap t.root (d.dated_time w) h in
        rw (no_left, no_right)
          (merge-IsHeap _ _ s.0 (merge-IsHeap (node w p leaf leaf) _ (tt, tt, tt, tt) s.1)),
    pop_tree-IsHeap t.root t.size t.pool h,
    λ now expiry. (split-IsHeap t.root _ h).1,
  )

  -- A valid treap with its priorities in heap order stays one under each operation: `Add` inserts
  -- the element behind all that are not later, whatever priority is drawn and whichever node is
  -- used, `Pop` returns and removes the first element in order (nil if there is none), and
  -- `RemoveExpired` leaves exactly the elements dated after the cutoff in their order and returns how
  -- many it removed.
  pub operations-refine :
      (t : Treap A)
      → IsValid t
      → IsHeap t.root
      → ((reuse : Bool) (p : ℕ) (w : A)
          → IsValid (add reuse p t w)
            × IsHeap (add reuse p t w).root
            × (contents (add reuse p t w) ≡ insert_late w (contents t)))
        × (IsValid (pop t).1
            × IsHeap (pop t).1.root
            × ((pop t).0 ≡ head? (contents t))
            × (contents (pop t).1 ≡ tail (contents t)))
        × ((now expiry : ℕ)
            → let (n, t') = remove_expired t now expiry in
              IsValid t'
              × IsHeap t'.root
              × (contents t' ≡ keep (survives now expiry) (contents t))
              × (n + length (contents t') ≡ length (contents t)))
  operations-refine t ok h =
      let (added, popped, removed) = operations-IsHeap t ok.cleared h in
      (
        λ reuse p w. let (v, e) = Treap-add reuse p t w ok in (v, added reuse p w, e),
        (let (v, x, e) = Treap-pop t ok in (v, popped, x, e)),
        λ now expiry.
            let (v, e, n) = Treap-remove_expired t now expiry ok in (v, removed now expiry, e, n),
      )
