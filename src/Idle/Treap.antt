-- ===== src/Idle/Treap.antt =====
-- internal/idle/treap.go. A node has one owner at a time, so the linked nodes are a tree by value;
-- the `sync.Pool` recycles nodes that no tree holds, with what their fields then are. `rand.Int`, and
-- whether `Get` finds a recycled node, are arguments of `add`.
pub mod Order
pub mod Laws
pub mod Heap
use go_agile_pool.Prelude.{
  ℕ, ◌+◌, ◌-◌, Bool, List, [], ◌∷◌, Option, none, some, ltb, if◌then◌else◌, true, false,
}
use go_agile_pool.Idle.{Dated, after}

-- `treapNode`; `leaf` is nil
pub data Tree (A : Type 0) : Type 0 where
  leaf : Tree A
  node : A → ℕ → Tree A → Tree A → Tree A

-- The fields of a node in the pool; a value that is zero is `none`.
pub record PoolNode (A : Type 0) : Type 0 where
  pub value : Option A
  pub left : Tree A
  pub right : Tree A
  pub priority : ℕ

-- `Treap`
pub record Treap (A : Type 0) : Type 0 where
  pub root : Tree A
  pub size : ℕ
  pub pool : List (PoolNode A)

pub new_treap : {A : Type 0} → Treap A
new_treap = record { root = leaf; size = 0; pool = [] }

-- `pool.Get`, which may or may not find a node that was put back; `New` makes one of zero fields.
pub get_node : {A : Type 0} → Bool → List (PoolNode A) → PoolNode A × List (PoolNode A)
get_node true (n ∷ pool) = (n, pool)
get_node _ pool = (record { value = none; left = leaf; right = leaf; priority = 0 }, pool)

pub merge : {A : Type 0} → Tree A → Tree A → Tree A
merge leaf right = right
merge (node v p l r) leaf = node v p l r
merge (node v p l r) (node w q m s) = elim (ltb p q) [
  | true ↦ node v p l (merge r (node w q m s))
  | false ↦ node w q (merge (node v p l r) m) s
]

-- `removeTree`, on the size and the pool: each node is cleared, goes back to the pool and off the
-- size.
pub remove_tree : {A : Type 0} → Tree A → ℕ × List (PoolNode A) → ℕ × List (PoolNode A)
remove_tree leaf s = s
remove_tree (node v p l r) s =
    let (size, pool) = remove_tree r (remove_tree l s) in
    (size - 1, record { value = none; left = leaf; right = leaf; priority = p } ∷ pool)

-- The descent of `Pop` from a node to its leftmost one, which its right child replaces; its value, the
-- tree that is left, and its priority.
pub pop_leftmost : {A : Type 0} → A → ℕ → Tree A → Tree A → A × Tree A × ℕ
pop_leftmost v p leaf r = (v, r, p)
pop_leftmost v p (node w q l m) r =
    let (x, l', priority) = pop_leftmost w q l m in (x, node v p l' r, priority)

-- The node that is taken out has no left child; its value and its right child are cleared.
pub pop_tree : {A : Type 0} → Tree A → ℕ → List (PoolNode A) → Option A × Treap A
pop_tree leaf size pool = (none, record { root = leaf; size = size; pool = pool })
pop_tree {A = A} (node v p l r) size pool =
    let (x, t, priority) = pop_leftmost v p l r in
    let put_back : PoolNode A = record {
      value = none;
      left = leaf;
      right = leaf;
      priority = priority;
    } in
    (some x, record { root = t; size = size - 1; pool = put_back ∷ pool })

pub pop : {A : Type 0} → Treap A → Option A × Treap A
unfolding pop_tree
pop t = pop_tree t.root t.size t.pool

pub len : {A : Type 0} → Treap A → ℕ
len t = t.size

module _ {A : Type 0} ⦃d : Dated A⦄ where
  pub split : Tree A → ℕ → Tree A × Tree A
  split leaf k = (leaf, leaf)
  split (node v p l r) k =
      let (ll, lr) = split l k in
      let (rl, rr) = split r k in
      if after (d.dated_time v) k then (ll, node v p lr r) else (node v p l rl, rr)

  pub add : (reuse : Bool) (priority : ℕ) → Treap A → A → Treap A
  unfolding get_node
  add reuse priority t work =
      let (n, pool) = get_node reuse t.pool in
      let (left, right) = split t.root (d.dated_time work) in
      record {
        root = merge left (merge (node work priority n.left n.right) right);
        size = t.size + 1;
        pool = pool;
      }

  -- The number removed beside the new treap.
  pub remove_expired : Treap A → ℕ → ℕ → ℕ × Treap A
  remove_expired t now expiry =
      let (left, right) = split t.root (now - expiry) in
      let (size', pool) = remove_tree left (t.size, t.pool) in
      (t.size - size', record { root = right; size = size'; pool = pool })
