-- ===== src/Idle/Treap/Laws.antt =====
-- The operations of a treap against the ordered list of its elements.
use go_agile_pool.Prelude.{
  ℕ, ◌+◌, ◌-◌, ◌≡◌, refl, ap, sym, Bool, true, List, [], ◌∷◌, ◌++◌, length, keep, All, All-append,
  All-map, All-keep', length-append, arith, length-keep-complement, head?, tail, subst,
}
use go_agile_pool.Idle.{Dated, survives}
use go_agile_pool.Idle.Treap.{
  Tree, leaf, node, PoolNode, Treap, new_treap, len, merge, split, pop_tree, pop, add,
  remove_expired,
}
use go_agile_pool.Idle.Treap.Order.{
  inorder, inorder-merge, remove_tree_lem, IsCleared, remove_tree-IsCleared, get_node-IsCleared,
  pop_leftmost_lem, IsOrdered, early, late, IsOrdered-keep, split_cuts,
}

module _ {A : Type 0} ⦃d : Dated A⦄ where
  abbrev pub contents : Treap A → List A
  contents t = inorder t.root

  -- Ordered by `DatedTime`, with the right size, and a pool of cleared nodes.
  pub record IsValid (t : Treap A) : Type 0 where
    pub ordered : IsOrdered (contents t)
    pub sized : t.size ≡ length (contents t)
    pub cleared : All IsCleared t.pool

  pub new_treap-IsValid : IsValid new_treap
  unfolding new_treap
  new_treap-IsValid = record { ordered = tt; sized = refl; cleared = tt }

  pub contents-new_treap : contents new_treap ≡ []
  unfolding new_treap
  contents-new_treap = refl

  pub len-contents : (t : Treap A) → IsValid t → len t ≡ length (contents t)
  unfolding len
  len-contents t ok = ok.sized

  IsOrdered-insert :
      (xs ys : List A) (w : A)
      → IsOrdered xs
      → IsOrdered ys
      → All (λ x. early (d.dated_time w) x ≡ true) xs
      → All (λ y. late (d.dated_time w) y ≡ true) ys
      → IsOrdered (xs ++ w ∷ ys)
  IsOrdered-insert [] ys w ox oy hx hy = (All-map _ _ ys (λ y q. ground arith) hy, oy)
  IsOrdered-insert (x ∷ xs) ys w ox oy hx hy = (
    All-append _ xs (w ∷ ys) ox.0 (ground arith, All-map _ _ ys (λ y q. ground arith) hy),
    IsOrdered-insert xs ys w ox.1 oy hx.1 hy,
  )

  -- The sorted list with `w` put behind all elements that are not later.
  abbrev pub insert_late : A → List A → List A
  insert_late w xs = keep (early (d.dated_time w)) xs ++ w ∷ keep (late (d.dated_time w)) xs

  contents-add :
      (reuse : Bool) (p : ℕ) (t : Treap A) (w : A)
      → IsValid t
      → contents (add reuse p t w) ≡ insert_late w (contents t)
  unfolding add
  contents-add reuse p t w ok =
      let (blank, no_left, no_right) = (get_node-IsCleared reuse t.pool ok.cleared).0 in
      let (left, right) = split t.root (d.dated_time w) in
      let cut = split_cuts t.root (d.dated_time w) ok.ordered in
      rw (
        no_left,
        no_right,
        inorder-merge left (merge (node w p leaf leaf) right),
        inorder-merge (node w p leaf leaf) right,
        cut.0,
        cut.1,
      )

  length-insert_late : (w : A) (xs : List A) → length (insert_late w xs) ≡ length xs + 1
  length-insert_late w xs =
      let k = d.dated_time w in
      omega (
        arith,
        length-append {0} (keep (early k) xs) (w ∷ keep (late k) xs),
        length-keep-complement {0} (early k) (late k) xs (λ x. ground arith),
      )

  -- `Add` keeps a valid treap valid and inserts the element behind all that are not later,
  -- whatever priority is drawn and whichever node is used.
  pub Treap-add :
      (reuse : Bool) (p : ℕ) (t : Treap A) (w : A)
      → IsValid t
      → IsValid (add reuse p t w) × (contents (add reuse p t w) ≡ insert_late w (contents t))
  unfolding add
  Treap-add reuse p t w ok =
      let k = d.dated_time w in
      let xs = contents t in
      (
        record {
          ordered = rw (contents-add reuse p t w ok) (
              IsOrdered-insert (keep (early k) xs) (keep (late k) xs) w
                (IsOrdered-keep (early k) xs ok.ordered) (IsOrdered-keep (late k) xs ok.ordered)
                (All-keep' (early k) xs) (All-keep' (late k) xs));
          sized = rw (contents-add reuse p t w ok, length-insert_late, ok.sized);
          cleared = (get_node-IsCleared reuse t.pool ok.cleared).1;
        },
        contents-add reuse p t w ok,
      )

  pop_tree_lem :
      (u : Tree A) (n : ℕ) (ns : List (PoolNode A))
      → IsOrdered (inorder u)
      → n ≡ length (inorder u)
      → All IsCleared ns
      → IsValid (pop_tree u n ns).1
        × ((pop_tree u n ns).0 ≡ head? (inorder u))
        × (contents (pop_tree u n ns).1 ≡ tail (inorder u))
  unfolding pop_tree
  pop_tree_lem leaf n ns o e c = (record { ordered = tt; sized = e; cleared = c }, refl, refl)
  pop_tree_lem (node v p l r) n ns o e c =
      let first = pop_leftmost_lem v p l r in
      (
        record {
          ordered = (subst IsOrdered first o).1;
          sized = omega (arith, ap length first);
          cleared = ((refl, refl, refl), c);
        },
        sym (ap head? first),
        sym (ap tail first),
      )

  -- `Pop` keeps a valid treap valid, returns the first element in order (nil if there is none)
  -- and leaves the others.
  pub Treap-pop :
      (t : Treap A)
      → IsValid t
      → IsValid (pop t).1
        × ((pop t).0 ≡ head? (contents t))
        × (contents (pop t).1 ≡ tail (contents t))
  unfolding pop
  Treap-pop t ok = pop_tree_lem t.root t.size t.pool ok.ordered ok.sized ok.cleared

  -- `RemoveExpired` keeps a valid treap valid, leaves exactly the elements dated after the cutoff
  -- in their order, and returns how many it removed.
  pub Treap-remove_expired :
      (t : Treap A) (now expiry : ℕ)
      → IsValid t
      → let (n, t') = remove_expired t now expiry in
        IsValid t'
        × (contents t' ≡ keep (survives now expiry) (contents t))
        × (n + length (contents t') ≡ length (contents t))
  unfolding remove_expired
  Treap-remove_expired t now expiry ok =
      let k = now - expiry in
      let cut = split_cuts t.root k ok.ordered in
      let gone = remove_tree_lem (split t.root k).0 (t.size, t.pool) in
      let shares = length-keep-complement {0} (early k) (late k) (contents t) (λ x. ground arith) in
      let l0 = ap length cut.0 in
      let l1 = ap length cut.1 in
      (
        record {
          ordered = rw cut.1 (IsOrdered-keep (late k) (contents t) ok.ordered);
          sized = omega (arith, gone, shares, l0, l1, ok.sized);
          cleared = remove_tree-IsCleared (split t.root k).0 (t.size, t.pool) ok.cleared;
        },
        cut.1,
        omega (arith, gone, shares, l0, l1, ok.sized),
      )
