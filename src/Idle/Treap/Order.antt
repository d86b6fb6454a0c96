-- ===== src/Idle/Treap/Order.antt =====
-- The elements of a treap in order, and what `split`, `merge` and the descent of `Pop` do to them.
use mathlib.Core.List.{append_assoc, append-nil}
use go_agile_pool.Prelude.{
  true, false, none, ℕ, ◌-◌, ◌≤◌, ◌<◌, ◌≡◌, refl, ap, sym, Bool, List, [], ◌∷◌, ◌++◌, ltb, leb,
  Bool-cases, inl, inr, length, keep, All, All-append_left, All-append_right, All-map, All-keep,
  keep-append, keep-All, keep_none, length-append, arith,
}
use go_agile_pool.Idle.{Dated}
use go_agile_pool.Idle.Treap.{
  Tree, leaf, node, merge, split, PoolNode, get_node, remove_tree, pop_leftmost,
}

module _ {A : Type 0} where
  abbrev pub inorder : Tree A → List A
  inorder leaf = []
  inorder (node v p l r) = inorder l ++ v ∷ inorder r

  pub inorder-merge : (t u : Tree A) → inorder (merge t u) ≡ inorder t ++ inorder u
  unfolding merge
  inorder-merge leaf u = refl
  inorder-merge (node v p l r) leaf = sym (append-nil _)
  inorder-merge (node v p l r) (node w q m s) = elim (Bool-cases (ltb p q)) [
    | inl e ↦
        rw (e, merge, inorder-merge r (node w q m s))
          (sym (append_assoc (inorder l) (v ∷ inorder r) (inorder (node w q m s))))
    | inr e ↦
        rw (e, merge, inorder-merge (node v p l r) m)
          (append_assoc (inorder (node v p l r)) (inorder m) (w ∷ inorder s))
  ]

  pub remove_tree_lem :
      (t : Tree A) (s : ℕ × List (PoolNode A)) → (remove_tree t s).0 ≡ s.0 - length (inorder t)
  unfolding remove_tree
  remove_tree_lem leaf s = omega arith
  remove_tree_lem (node v p l r) s = omega (
    arith,
    remove_tree_lem l s,
    remove_tree_lem r (remove_tree l s),
    length-append {0} (inorder l) (v ∷ inorder r),
  )

  -- A node that can be used like a new one
  abbrev pub IsCleared : PoolNode A → Type 0
  IsCleared n = (n.value ≡ none) × (n.left ≡ leaf) × (n.right ≡ leaf)

  pub remove_tree-IsCleared :
      (t : Tree A) (s : ℕ × List (PoolNode A))
      → All IsCleared s.1
      → All IsCleared (remove_tree t s).1
  unfolding remove_tree
  remove_tree-IsCleared leaf s h = h
  remove_tree-IsCleared (node v p l r) s h =
      ((refl, refl, refl), remove_tree-IsCleared r (remove_tree l s) (remove_tree-IsCleared l s h))

  pub get_node-IsCleared :
      (reuse : Bool) (pool : List (PoolNode A))
      → All IsCleared pool
      → IsCleared (get_node reuse pool).0 × All IsCleared (get_node reuse pool).1
  unfolding get_node
  get_node-IsCleared true [] h = ((refl, refl, refl), h)
  get_node-IsCleared true (n ∷ pool) h = h
  get_node-IsCleared false pool h = ((refl, refl, refl), h)

  -- The descent takes out the first element.
  pub pop_leftmost_lem :
      (v : A) (p : ℕ) (l r : Tree A)
      → inorder (node v p l r) ≡ (pop_leftmost v p l r).0 ∷ inorder (pop_leftmost v p l r).1
  unfolding pop_leftmost
  pop_leftmost_lem v p leaf r = refl
  pop_leftmost_lem v p (node w q l m) r = ap (λ xs. xs ++ v ∷ inorder r) (pop_leftmost_lem w q l m)

module _ {A : Type 0} ⦃d : Dated A⦄ where
  abbrev pub IsOrdered : List A → Type 0
  IsOrdered [] = Unit {0}
  IsOrdered (x ∷ xs) = All (λ y. d.dated_time x ≤ d.dated_time y) xs × IsOrdered xs

  -- Not after `k`, and after `k`.
  abbrev pub early : ℕ → A → Bool
  early k w = leb (d.dated_time w) k

  abbrev pub late : ℕ → A → Bool
  late k w = ltb k (d.dated_time w)

  pub IsOrdered-append_left : (xs ys : List A) → IsOrdered (xs ++ ys) → IsOrdered xs
  IsOrdered-append_left [] ys h = tt
  IsOrdered-append_left (x ∷ xs) ys h =
      (All-append_left _ xs ys h.0, IsOrdered-append_left xs ys h.1)

  pub IsOrdered-append_right : (xs ys : List A) → IsOrdered (xs ++ ys) → IsOrdered ys
  IsOrdered-append_right [] ys h = h
  IsOrdered-append_right (x ∷ xs) ys h = IsOrdered-append_right xs ys h.1

  -- What stands before `y` is not after it.
  before_middle :
      (xs : List A) (y : A) (ys : List A)
      → IsOrdered (xs ++ y ∷ ys)
      → All (λ x. d.dated_time x ≤ d.dated_time y) xs
  before_middle [] y ys h = tt
  before_middle (x ∷ xs) y ys h =
      ((All-append_right _ xs (y ∷ ys) h.0).0, before_middle xs y ys h.1)

  pub IsOrdered-keep : (p : A → Bool) (xs : List A) → IsOrdered xs → IsOrdered (keep p xs)
  IsOrdered-keep p [] h = tt
  IsOrdered-keep p (x ∷ xs) h = elim (Bool-cases (p x)) [
    | inl e ↦ rw e (All-keep _ p xs h.0, IsOrdered-keep p xs h.1)
    | inr e ↦ rw e (IsOrdered-keep p xs h.1)
  ]

  -- After an element later than `k` everything is, and before one that is not nothing is.
  module _ (k : ℕ) (v : A) where
    early-after :
        (ys : List A)
        → k < d.dated_time v
        → All (λ y. d.dated_time v ≤ d.dated_time y) ys
        → keep (early k) ys ≡ []
    early-after ys h a = keep_none _ ys (All-map _ _ ys (λ y q. ground arith) a)

    late-after :
        (ys : List A)
        → k < d.dated_time v
        → All (λ y. d.dated_time v ≤ d.dated_time y) ys
        → keep (late k) ys ≡ ys
    late-after ys h a = keep-All _ ys (All-map _ _ ys (λ y q. ground arith) a)

    early-before :
        (xs : List A)
        → d.dated_time v ≤ k
        → All (λ x. d.dated_time x ≤ d.dated_time v) xs
        → keep (early k) xs ≡ xs
    early-before xs h a = keep-All _ xs (All-map _ _ xs (λ y q. ground arith) a)

    late-before :
        (xs : List A)
        → d.dated_time v ≤ k
        → All (λ x. d.dated_time x ≤ d.dated_time v) xs
        → keep (late k) xs ≡ []
    late-before xs h a = keep_none _ xs (All-map _ _ xs (λ y q. ground arith) a)

  -- `split` cuts an ordered tree at `k`.
  pub split_cuts :
      (u : Tree A) (k : ℕ)
      → IsOrdered (inorder u)
      → (inorder (split u k).0 ≡ keep (early k) (inorder u))
        × (inorder (split u k).1 ≡ keep (late k) (inorder u))
  unfolding split
  split_cuts leaf k o = (refl, refl)
  split_cuts (node v p l r) k o =
      let xs = inorder l in
      let ys = inorder r in
      let ol = IsOrdered-append_left xs (v ∷ ys) o in
      let ov = IsOrdered-append_right xs (v ∷ ys) o in
      let bm = before_middle xs v ys o in
      ground (
        arith,
        split_cuts l k ol,
        split_cuts r k ov.1,
        keep-append (early k) xs (v ∷ ys),
        keep-append (late k) xs (v ∷ ys),
        early-after k v ys,
        late-after k v ys,
        early-before k v xs,
        late-before k v xs,
        append-nil xs,
        append-nil (keep (early k) xs),
        ov.0,
        bm,
      )
