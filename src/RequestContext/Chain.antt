-- ===== src/RequestContext/Chain.antt =====
-- internal/context/context.go: contexts and their Value chains, and the pool that request contexts
-- are taken from and put back to. A request context is known by its address.
use Prim.Native.String.{String}
use text.Mathlib.Text.{◌==◌ as str_eq}
use go_agile_pool.Prelude.{
  ℕ, zero, suc, ◌+◌, Bool, true, false, ◌==◌, Option, none, some, List, [], ◌∷◌, if◌then◌else◌,
}
use go_agile_pool.RequestContext.{Any, LabelMap, store, get, reset}

-- A key of `context.WithValue`; `pool_context_key` is the package's own, of an unexported type.
pub data Key : Type 0 where
  string_key : String → Key
  pool_context_key : Key
  other_key : ℕ → Key

abbrev pub same_key : Key → Key → Bool
same_key (string_key k) (string_key j) = str_eq k j
same_key pool_context_key pool_context_key = true
same_key (other_key k) (other_key j) = k == j
same_key _ _ = false

-- What `Value` returns
pub data Value (T O : Type 0) : Type 0 where
  nothing : Value T O
  label : Any T O → Value T O
  pointer : ℕ → Value T O

-- A `context.Context`: the library's own, which `WithCancel` and `WithTimeout` derive from another
-- one and which `WithValue` adds a value to, or a request context.
pub data Ctx (T O : Type 0) : Type 0 where
  background : Ctx T O
  derived : Ctx T O → Ctx T O
  with_value : Ctx T O → Key → Value T O → Ctx T O
  pool_context : ℕ → Ctx T O

-- `Context`; its embedded context is nil after Release.
pub record RequestContext (T O : Type 0) : Type 0 where
  pub parent : Option (Ctx T O)
  pub labels : LabelMap T O

-- The contexts by address, `contextPool`, and the next address that is not in use
pub record Contexts (T O : Type 0) : Type 0 where
  pub at : ℕ → RequestContext T O
  pub pool : List ℕ
  pub next : ℕ

-- How a lookup ends: with a value, by a method call on a nil interface, or out of fuel.
pub data Lookup (T O : Type 0) : Type 0 where
  found : Value T O → Lookup T O
  nil_context out_of_fuel : Lookup T O

module _ {T O : Type 0} where
  abbrev pub put : ℕ → RequestContext T O → Contexts T O → Contexts T O
  put c r s = record s { at = λ a. if c == a then r else s.at a }

  unfoldable pub or_background : Option (Ctx T O) → Ctx T O
  or_background none = background
  or_background (some ctx) = ctx

  -- `New` makes a context with no labels.
  unfoldable pub fresh : Contexts T O → ℕ × Contexts T O
  fresh s =
      (s.next, put s.next (record { parent = none; labels = [] }) (record s { next = s.next + 1 }))

  -- `contextPool.Get`, which may or may not find one that was put back
  unfoldable pub get_from : Bool → List ℕ → Contexts T O → ℕ × Contexts T O
  unfolding fresh
  get_from true (c ∷ rest) s = (c, record s { pool = rest })
  get_from _ _ s = fresh s

  unfoldable pub inject : Option (Ctx T O) → ℕ × Contexts T O → ℕ × Contexts T O
  unfolding or_background
  inject parent (c, s) = (
    c,
    put c
        (record (s.at c) {
          parent = some (with_value (or_background parent) pool_context_key (pointer c));
        })
        s,
  )

  -- `NewContext`
  unfoldable pub new_context : (reuse : Bool) → Option (Ctx T O) → Contexts T O → ℕ × Contexts T O
  unfolding inject get_from
  new_context reuse parent s = inject parent (get_from reuse s.pool s)

  -- `Release`
  unfoldable pub release : ℕ → Contexts T O → Contexts T O
  release c s =
      put c (record { parent = none; labels = reset (s.at c).labels })
        (record s { pool = c ∷ s.pool })

  -- `Store` on the context at an address
  unfoldable pub store_at : ℕ → String → Any T O → Contexts T O → Contexts T O
  store_at c key v s = put c (record (s.at c) { labels = store key v (s.at c).labels }) s

  -- The labels of a request context, for a string key
  unfoldable pub own_label : Key → LabelMap T O → Option (Any T O)
  own_label (string_key k) labels = get labels k
  own_label _ labels = none

  unfoldable pub or_parent :
      Option (Any T O) → Option (Ctx T O) → (Ctx T O → Lookup T O) → Lookup T O
  or_parent (some v) parent up = found (label v)
  or_parent none none up = nil_context
  or_parent none (some ctx) up = up ctx

  -- `Value`, along the chain; every hop takes one unit of fuel.
  unfoldable pub value : ℕ → Contexts T O → Ctx T O → Key → Lookup T O
  unfolding own_label or_parent
  value zero s ctx key = out_of_fuel
  value (suc k) s background key = found nothing
  value (suc k) s (derived ctx) key = value k s ctx key
  value (suc k) s (with_value ctx j v) key =
      let rest = value k s ctx key in if same_key j key then found v else rest
  value (suc k) s (pool_context c) key =
      or_parent (own_label key (s.at c).labels) (s.at c).parent (λ ctx. value k s ctx key)

  -- The type assertion on what was found: nil where it is no request context.
  unfoldable pub asserted : Lookup T O → Lookup T O
  asserted (found (label v)) = found nothing
  asserted r = r

  -- `PoolContextFrom`
  unfoldable pub pool_context_from : ℕ → Contexts T O → Ctx T O → Lookup T O
  unfolding asserted
  pool_context_from fuel s (pool_context c) = found (pointer c)
  pool_context_from fuel s ctx = asserted (value fuel s ctx pool_context_key)
