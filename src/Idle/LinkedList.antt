-- ===== src/Idle/LinkedList.antt =====
-- internal/idle/linkedlist.go. Nodes live at addresses and are never given back by the code; a nil
-- pointer is `none`, and an access through it panics.
pub mod Segment
pub mod Apart
pub mod Ends
pub mod Middle
pub mod Laws
mod Tests
use go_agile_pool.Prelude.{
  ℕ, zero, suc, ◌+◌, ◌-◌, Bool, true, false, ◌==◌, ◌&&◌, not, Option, none, some, if◌then◌else◌,
}
use go_agile_pool.Prelude.Run.{Run, ok, panic, ◌>>=◌}
use go_agile_pool.Idle.{Dated, after}

-- `llNode`
pub record Node (A : Type 0) : Type 0 where
  pub val : A
  pub next : Option ℕ
  pub prev : Option ℕ

abbrev pub Nodes : Type 0 → Type 0
Nodes A = ℕ → Option (Node A)

-- `LinkedList`, with the nodes and the address of the next allocation
pub record LinkedList (A : Type 0) : Type 0 where
  pub head : Option ℕ
  pub tail : Option ℕ
  pub length : ℕ
  pub nodes : Nodes A
  pub fresh : ℕ

abbrev pub is_nil : Option ℕ → Bool
is_nil none = true
is_nil (some a) = false

abbrev pub same_pointer : Option ℕ → Option ℕ → Bool
same_pointer none none = true
same_pointer (some a) (some b) = a == b
same_pointer _ _ = false

module _ {A : Type 0} where
  unfoldable pub write : ℕ → Node A → Nodes A → Nodes A
  write a n nodes b = if a == b then some n else nodes b

  found_node : Option (Node A) → Run (Node A)
  found_node none = panic
  found_node (some n) = ok n

  -- `*p`
  unfoldable pub load : Option ℕ → Nodes A → Run (Node A)
  unfolding found_node
  load none nodes = panic
  load (some a) nodes = found_node (nodes a)

  -- `p.next = q`
  unfoldable pub set_next : (p q : Option ℕ) → Nodes A → Run (Nodes A)
  set_next none q nodes = panic
  set_next (some a) q nodes =
      load (some a) nodes >>= λ n. ok (write a (record n { next = q }) nodes)

  -- `p.prev = q`
  unfoldable pub set_prev : (p q : Option ℕ) → Nodes A → Run (Nodes A)
  set_prev none q nodes = panic
  set_prev (some a) q nodes =
      load (some a) nodes >>= λ n. ok (write a (record n { prev = q }) nodes)

  pub new_linked_list : LinkedList A
  new_linked_list = record { head = none; tail = none; length = 0; nodes = λ a. none; fresh = 0 }

  -- `newLLNode`
  pub new_node : A → LinkedList A → LinkedList A
  new_node w ll = record ll {
    nodes = write ll.fresh (record { val = w; next = none; prev = none }) ll.nodes;
    fresh = ll.fresh + 1;
  }

  -- `Add` behind the allocation of the node at an address
  pub add_node : ℕ → LinkedList A → Run (LinkedList A)
  add_node node ll =
      if is_nil ll.head && is_nil ll.tail
      then ok (record ll { head = some node; tail = some node; length = ll.length + 1 })
      else (set_next ll.tail (some node) ll.nodes >>= λ linked. load ll.tail linked >>= λ last.
          set_prev last.next ll.tail linked >>= λ both.
          ok (record ll { tail = last.next; nodes = both; length = ll.length + 1 }))

  pub add : LinkedList A → A → Run (LinkedList A)
  unfolding add_node new_node
  add ll w = add_node ll.fresh (new_node w ll)

  -- `Pop` of a list that is not empty, with what its head is
  pub pop_head : Node A → LinkedList A → Run (Option A × LinkedList A)
  pop_head first ll =
      if same_pointer ll.head ll.tail
      then ok (some first.val, record ll { head = none; tail = none; length = ll.length - 1 })
      else (set_prev first.next none ll.nodes >>= λ cut.
          ok (some first.val, record ll { head = first.next; nodes = cut; length = ll.length - 1 }))

  pub pop : LinkedList A → Run (Option A × LinkedList A)
  unfolding pop_head
  pop ll =
      if is_nil ll.head
      then ok (none, ll)
      else (load ll.head ll.nodes >>= λ first. pop_head first ll)

  -- The first half of `removeNode`: what comes before the node is linked to what comes after it.
  unlink_next : Node A → LinkedList A → Run (LinkedList A)
  unlink_next n ll =
      if is_nil n.prev
      then ok (record ll { head = n.next })
      else (set_next n.prev n.next ll.nodes >>= λ nodes. ok (record ll { nodes = nodes }))

  unlink_prev : Node A → LinkedList A → Run (LinkedList A)
  unlink_prev n ll =
      if is_nil n.next
      then ok (record ll { tail = n.prev })
      else (set_prev n.next n.prev ll.nodes >>= λ nodes. ok (record ll { nodes = nodes }))

  -- The last lines of `removeNode`
  detach : Option ℕ → LinkedList A → Run (LinkedList A)
  detach node ll = set_prev node none ll.nodes >>= λ half.
      set_next node none half >>= λ nodes. ok (record ll { nodes = nodes; length = ll.length - 1 })

  -- `removeNode`: the fields of the node are not written before the last two lines.
  pub remove_node : Option ℕ → LinkedList A → Run (LinkedList A)
  unfolding unlink_next unlink_prev detach
  remove_node node ll = load node ll.nodes >>= λ n.
      unlink_next n ll >>= λ left. unlink_prev n left >>= λ both. detach node both

  -- `Len`
  pub length : LinkedList A → ℕ
  length ll = ll.length

module _ {A : Type 0} ⦃d : Dated A⦄ where
  -- One round of `RemoveExpired`
  pub sweep : (now expiry : ℕ) → Option ℕ → Node A → ℕ × LinkedList A → Run (ℕ × LinkedList A)
  sweep now expiry node n (removed, ll) =
      if after (d.dated_time n.val + expiry) now
      then ok (removed, ll)
      else (remove_node node ll >>= λ ll'. ok (removed + 1, ll'))

  -- `for node != nil`; `panic` also stands for the end of the fuel.
  pub remove_loop : (fuel now expiry : ℕ) → Option ℕ → ℕ × LinkedList A → Run (ℕ × LinkedList A)
  remove_loop zero now expiry none s = ok s
  remove_loop zero now expiry (some a) s = panic
  remove_loop (suc k) now expiry none s = ok s
  remove_loop (suc k) now expiry (some a) s = load (some a) s.1.nodes >>= λ n.
      sweep now expiry (some a) n s >>= λ s'. remove_loop k now expiry n.next s'

  pub remove_expired : LinkedList A → (now expiry : ℕ) → Run (ℕ × LinkedList A)
  unfolding remove_loop sweep
  remove_expired ll now expiry = remove_loop ll.length now expiry ll.head (0, ll)
