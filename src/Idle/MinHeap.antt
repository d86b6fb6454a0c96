-- ===== src/Idle/MinHeap.antt =====
-- internal/idle/heap.go. The package container/heap is a parameter: it works on a heap.Interface,
-- and `Documented` is what its documentation says of it, for an interface as it demands.
pub mod Interface
pub mod Root
pub mod Laws
mod Tests
use mathlib.Core.List.{Permᴰ}
use go_agile_pool.Prelude.{
  ℕ, zero, suc, ◌+◌, ◌-◌, ◌*◌, ◌≤◌, ◌<◌, ◌≡◌, Bool, true, false, Option, none, some, List, [], ◌∷◌,
  ◌++◌, ltb, ◌==◌, if◌then◌else◌, length, get_elem?, set, take,
}
use go_agile_pool.Prelude.Run.{Run, ok, panic, ◌>>=◌, Returns}
use go_agile_pool.Idle.{Dated, after}

-- `heap.Interface`, for a state and its elements
pub record HeapInterface (S X : Type 0) : Type 0 where
  pub len : S → ℕ
  pub less : S → ℕ → ℕ → Run Bool
  pub swap : S → ℕ → ℕ → Run S
  pub push : S → X → Run S
  pub pop : S → Run (X × S)

-- What the code calls of the package container/heap, at a state and its elements
pub record HeapPackage (S X : Type 0) : Type 0 where
  pub init : HeapInterface S X → S → Run S
  pub push : HeapInterface S X → S → X → Run S
  pub pop : HeapInterface S X → S → Run (X × S)

module _ {A : Type 0} where
  found : Option A → Run A
  found none = panic
  found (some x) = ok x

  -- `h[i]`
  unfoldable pub at : List A → ℕ → Run A
  unfolding found
  at h i = found (get_elem? h i)

  -- `minHeapInner.Swap`
  unfoldable pub inner_swap : List A → ℕ → ℕ → Run (List A)
  inner_swap h i j = at h j >>= λ y. at h i >>= λ x. ok (set (set h i y) j x)

  -- `minHeapInner.Push`
  unfoldable pub inner_push : List A → A → Run (List A)
  inner_push h x = ok (h ++ x ∷ [])

  -- `minHeapInner.Pop`: the slot behind the new end is cleared.
  unfoldable pub inner_pop : List A → Run (A × List A)
  inner_pop h =
      if length h == 0 then panic else (at h (length h - 1) >>= λ x. ok (x, take (length h - 1) h))

-- `MinHeap`
pub record MinHeap (A : Type 0) : Type 0 where
  pub inner : List A
  pub size : ℕ

module _ {A : Type 0} ⦃d : Dated A⦄ where
  -- `minHeapInner.Less`
  unfoldable pub inner_less : List A → ℕ → ℕ → Run Bool
  inner_less h i j = at h i >>= λ x. at h j >>= λ y. ok (ltb (d.dated_time x) (d.dated_time y))

  abbrev pub min_heap_inner : HeapInterface (List A) A
  min_heap_inner = record {
    len = length;
    less = inner_less;
    swap = inner_swap;
    push = inner_push;
    pop = inner_pop;
  }

  -- The heap invariant as the package documents it: no element is less than its parent.
  abbrev pub IsHeap : List A → Type 0
  IsHeap h = (i j : ℕ) → 2 * i + 1 ≤ j → j ≤ 2 * i + 2 → j < length h → inner_less h j i ≡ ok false

  -- Nothing in a list is dated before a time.
  abbrev pub NoneBefore : ℕ → List A → Type 0
  NoneBefore t [] = Unit {0}
  NoneBefore t (x ∷ xs) = (t ≤ d.dated_time x) × NoneBefore t xs

-- What the package demands of an interface, for a slice ordered by its time stamps: Push adds as
-- the last element, and Pop removes the last one.
pub record IsInterface {A : Type 0} ⦃d : Dated A⦄ (i : HeapInterface (List A) A) : Type 0 where
  pub len_of : (h : List A) → i.len h ≡ length h
  pub less_of :
      (h : List A) (j k : ℕ) (x y : A)
      → get_elem? h j ≡ some x
      → get_elem? h k ≡ some y
      → i.less h j k ≡ ok (ltb (d.dated_time x) (d.dated_time y))
  pub swap_of :
      (h : List A) (j k : ℕ) (x y : A)
      → get_elem? h j ≡ some x
      → get_elem? h k ≡ some y
      → i.swap h j k ≡ ok (set (set h j y) k x)
  pub push_of : (h : List A) (x : A) → i.push h x ≡ ok (h ++ x ∷ [])
  pub pop_of : (h : List A) (x : A) → i.pop (h ++ x ∷ []) ≡ ok (x, h)

-- What the package promises of such an interface: Init establishes the invariant, Push adds an
-- element, and Pop takes a least one, of the same elements.
pub record Documented (A : Type 0) ⦃d : Dated A⦄ (pkg : HeapPackage (List A) A) : Type 0 where
  pub init_heap :
      (i : HeapInterface (List A) A)
      → IsInterface i
      → (h : List A) → Returns (λ h'. IsHeap h' × Permᴰ h' h) (pkg.init i h)
  pub push_heap :
      (i : HeapInterface (List A) A)
      → IsInterface i
      → (h : List A) (x : A) → IsHeap h
      → Returns (λ h'. IsHeap h' × Permᴰ h' (x ∷ h)) (pkg.push i h x)
  pub pop_heap :
      (i : HeapInterface (List A) A)
      → IsInterface i
      → (h : List A) → 0 < length h
      → IsHeap h
      → Returns
          (λ (x, h'). IsHeap h' × Permᴰ h (x ∷ h') × NoneBefore (d.dated_time x) h)
          (pkg.pop i h)

module _ {A : Type 0} ⦃d : Dated A⦄ where
  module _ (pkg : HeapPackage (List A) A) where
    -- `NewMinHeap`
    pub new_min_heap : Run (MinHeap A)
    new_min_heap = pkg.init min_heap_inner [] >>= λ h. ok (record { inner = h; size = 0 })

    pub add : MinHeap A → A → Run (MinHeap A)
    add h w = pkg.push min_heap_inner h.inner w >>= λ inner.
        ok (record { inner = inner; size = h.size + 1 })

    pub pop : MinHeap A → Run (Option A × MinHeap A)
    pop h =
        if length h.inner == 0
        then ok (none, h)
        else (pkg.pop min_heap_inner h.inner >>= λ (w, inner).
            ok (some w, record { inner = inner; size = h.size - 1 }))

    -- `for h.inner.Len() > 0`; `panic` also stands for the end of the fuel.
    pub remove_loop : (fuel now expiry : ℕ) → ℕ × MinHeap A → Run (ℕ × MinHeap A)
    remove_loop zero now expiry (removed, h) =
        if length h.inner == 0 then ok (removed, h) else panic
    remove_loop (suc k) now expiry (removed, h) =
        let rest : Run (ℕ × MinHeap A) =
          pop h >>= λ (x, h'). remove_loop k now expiry (removed + 1, h') in
        let step : Run (ℕ × MinHeap A) = at h.inner 0 >>= λ root.
        if after (d.dated_time root + expiry) now then ok (removed, h) else rest in
        if ltb 0 (length h.inner) then step else ok (removed, h)

    pub remove_expired : MinHeap A → (now expiry : ℕ) → Run (ℕ × MinHeap A)
    unfolding remove_loop
    remove_expired h now expiry = remove_loop (length h.inner) now expiry (0, h)

  pub min_heap_len : MinHeap A → ℕ
  min_heap_len h = h.size
