-- ===== src/Idle/MinHeap/Interface.antt =====
-- The heap.Interface of heap.go is one as container/heap demands.
use go_agile_pool.Prelude.{
  ℕ, ◌-◌, ◌≡◌, refl, ap, false, ◌==◌, some, List, [], ◌∷◌, ◌++◌, ltb, length, length-append,
  get_elem?, set, take, arith,
}
use go_agile_pool.Prelude.Run.{ok}
use go_agile_pool.Idle.{Dated}
use go_agile_pool.Idle.MinHeap.{
  IsInterface, min_heap_inner, inner_less, inner_swap, inner_push, inner_pop,
}
use go_agile_pool.Idle.MinHeap.Root.{at_lem}

module _ {A : Type 0} where
  last_at : (h : List A) (x : A) → get_elem? (h ++ x ∷ []) (length h) ≡ some x
  last_at [] x = refl
  last_at (y ∷ h) x = last_at h x

  take-length : (h : List A) (x : A) → take (length h) (h ++ x ∷ []) ≡ h
  take-length [] x = refl
  take-length (y ∷ h) x = ap (λ t. y ∷ t) (take-length h x)

module _ {A : Type 0} ⦃d : Dated A⦄ where
  inner_less_lem :
      (h : List A) (j k : ℕ) (x y : A)
      → get_elem? h j ≡ some x
      → get_elem? h k ≡ some y
      → inner_less h j k ≡ ok (ltb (d.dated_time x) (d.dated_time y))
  unfolding inner_less
  inner_less_lem h j k x y ej ek = rw (at_lem h j x ej, at_lem h k y ek) refl

  inner_swap_lem :
      (h : List A) (j k : ℕ) (x y : A)
      → get_elem? h j ≡ some x
      → get_elem? h k ≡ some y
      → inner_swap h j k ≡ ok (set (set h j y) k x)
  unfolding inner_swap
  inner_swap_lem h j k x y ej ek = rw (at_lem h k y ek, at_lem h j x ej) refl

  inner_push_lem : (h : List A) (x : A) → inner_push h x ≡ ok (h ++ x ∷ [])
  unfolding inner_push
  inner_push_lem h x = refl

  inner_pop_lem : (h : List A) (x : A) → inner_pop (h ++ x ∷ []) ≡ ok (x, h)
  unfolding inner_pop
  inner_pop_lem h x =
      let n : length (h ++ x ∷ []) - 1 ≡ length h = omega (arith, length-append h (x ∷ [])) in
      let some_left : (length (h ++ x ∷ []) == 0) ≡ false =
        ground (arith, length-append h (x ∷ [])) in
      rw (some_left, n, at_lem (h ++ x ∷ []) (length h) x (last_at h x), take-length h x) refl

  pub min_heap_inner-IsInterface : IsInterface (min_heap_inner {A = A})
  min_heap_inner-IsInterface = record {
    len_of = λ h. refl;
    less_of = inner_less_lem;
    swap_of = inner_swap_lem;
    push_of = inner_push_lem;
    pop_of = inner_pop_lem;
  }
