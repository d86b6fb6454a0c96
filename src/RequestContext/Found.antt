-- ===== src/RequestContext/Found.antt =====
-- A request context is found again through what is wrapped around it, with its labels, and one from
-- the pool carries no label of an earlier task.
use Prim.Native.String.{String}
use go_agile_pool.Prelude.{
  ℕ, zero, suc, ◌+◌, ◌≤◌, ◌≡◌, refl, Bool, true, false, ◌==◌, Option, some, List, [], ◌∷◌, length,
  arith,
}
use go_agile_pool.RequestContext.{Any, get}
use go_agile_pool.RequestContext.Chain.{
  Key, string_key, pool_context_key, same_key, Value, label, pointer, Ctx, derived, with_value,
  pool_context, Contexts, found, get_from, new_context, own_label, or_parent, value,
  pool_context_from, asserted,
}

-- What `context.WithTimeout` and its like, or `context.WithValue`, put around a context
pub data Wrapper (T O : Type 0) : Type 0 where
  derive : Wrapper T O
  add_value : Key → Value T O → Wrapper T O

same_address : (c : ℕ) → (c == c) ≡ true
same_address c = ground arith

module _ {T O : Type 0} where
  pub wrap : List (Wrapper T O) → Ctx T O → Ctx T O
  wrap [] ctx = ctx
  wrap (derive ∷ ws) ctx = derived (wrap ws ctx)
  wrap (add_value k v ∷ ws) ctx = with_value (wrap ws ctx) k v

  -- No value is added under a key.
  unfoldable pub LeavesKey : Key → List (Wrapper T O) → Type 0
  LeavesKey key [] = Unit
  LeavesKey key (derive ∷ ws) = LeavesKey key ws
  LeavesKey key (add_value k v ∷ ws) = (same_key k key ≡ false) × LeavesKey key ws

  value-wrap :
      (key : Key) (ws : List (Wrapper T O)) (n extra : ℕ) (s : Contexts T O) (ctx : Ctx T O)
      (v : Value T O)
      → LeavesKey key ws
      → length ws + extra ≤ n
      → ((k : ℕ) → extra ≤ k → value k s ctx key ≡ found v)
      → value n s (wrap ws ctx) key ≡ found v
  unfolding value wrap LeavesKey
  value-wrap key [] n extra s ctx v l f h = h n (omega arith)
  value-wrap key (w ∷ ws) zero extra s ctx v l f h = absurd (omega arith)
  value-wrap key (derive ∷ ws) (suc n) extra s ctx v l f h =
      value-wrap key ws n extra s ctx v l (omega arith) h
  value-wrap key (add_value k u ∷ ws) (suc n) extra s ctx v (other, l) f h =
      rw other (value-wrap key ws n extra s ctx v l (omega arith) h)

  new_context-value :
      (reuse : Bool) (parent : Option (Ctx T O)) (s : Contexts T O) (k : ℕ)
      → 2 ≤ k
      → let (c, s') = new_context reuse parent s in
        value k s' (pool_context c) pool_context_key ≡ found (pointer c)
  unfolding new_context value
  new_context-value reuse parent s zero h = absurd (omega arith)
  new_context-value reuse parent s (suc zero) h = absurd (omega arith)
  new_context-value reuse parent s (suc (suc k)) h =
      rw (same_address (get_from reuse s.pool s).0) refl

  label_at :
      (s : Contexts T O) (c : ℕ) (key : String) (v : Any T O)
      → get (s.at c).labels key ≡ some v
      → (k : ℕ) → 1 ≤ k
      → value k s (pool_context c) (string_key key) ≡ found (label v)
  unfolding value or_parent own_label
  label_at s c key v e zero h = absurd (omega arith)
  label_at s c key v e (suc k) h = rw e refl

  -- `PoolContextFrom` finds a context that `NewContext` returned through any number of contexts
  -- wrapped around it, as long as none of them adds a value under the package's own key, which no
  -- other package can name. Its fuel need only exceed the number of wrappers by 2.
  pub pool_context_from-wrap :
      (reuse : Bool) (parent : Option (Ctx T O)) (s : Contexts T O) (ws : List (Wrapper T O))
      (n : ℕ)
      → LeavesKey pool_context_key ws
      → length ws + 2 ≤ n
      → let (c, s') = new_context reuse parent s in
        pool_context_from n s' (wrap ws (pool_context c)) ≡ found (pointer c)
  unfolding pool_context_from wrap asserted LeavesKey
  pool_context_from-wrap reuse parent s [] n l f = refl
  pool_context_from-wrap reuse parent s (derive ∷ ws) n l f =
      let (c, s') = new_context reuse parent s in
      rw
        (value-wrap pool_context_key (derive ∷ ws) n 2 s' (pool_context c) (pointer c) l f
          (λ (k : ℕ) (h : 2 ≤ k). new_context-value reuse parent s k h))
        refl
  pool_context_from-wrap reuse parent s (add_value k v ∷ ws) n l f =
      let (c, s') = new_context reuse parent s in
      rw
        (value-wrap pool_context_key (add_value k v ∷ ws) n 2 s' (pool_context c) (pointer c) l f
          (λ (k : ℕ) (h : 2 ≤ k). new_context-value reuse parent s k h))
        refl

  -- A label reads through the same wrappers, as long as none of them adds a value under its key.
  pub value-label :
      (s : Contexts T O) (c : ℕ) (key : String) (v : Any T O) (ws : List (Wrapper T O)) (n : ℕ)
      → LeavesKey (string_key key) ws
      → get (s.at c).labels key ≡ some v
      → length ws + 1 ≤ n
      → value n s (wrap ws (pool_context c)) (string_key key) ≡ found (label v)
  unfolding value or_parent own_label
  value-label s c key v ws n l e f =
      value-wrap (string_key key) ws n 1 s (pool_context c) (label v) l f (label_at s c key v e)
