-- ===== src/Idle/MinHeap/Root.antt =====
-- The root of a heap is a least element.
use native.Mathlib.Nat.{le_refl}
use go_agile_pool.Prelude.{
  ℕ, zero, suc, ◌/◌, ◌≤◌, ◌<◌, ◌≡◌, refl, subst, false, some, List, [], ◌∷◌, ltb, length, get_elem?,
  arith,
}
use go_agile_pool.Prelude.Run.{ok}
use go_agile_pool.Idle.{Dated}
use go_agile_pool.Idle.MinHeap.{at, inner_less, IsHeap, NoneBefore}

module _ {A : Type 0} where
  pub at_lem : (h : List A) (i : ℕ) (x : A) → get_elem? h i ≡ some x → at h i ≡ ok x
  unfolding at
  at_lem h i x e = rw e refl

  pub get_elem?_in : (h : List A) (i : ℕ) → i < length h → (x : A) × (get_elem? h i ≡ some x)
  get_elem?_in [] i l = elim l [ ]
  get_elem?_in (x ∷ h) zero l = (x, refl)
  get_elem?_in (x ∷ h) (suc i) l = get_elem?_in h i (omega arith)

module _ {A : Type 0} ⦃d : Dated A⦄ where
  -- An element that is not less than another is not dated before it.
  inner_less→le :
      (h : List A) (i j : ℕ) (x y : A)
      → get_elem? h i ≡ some x
      → get_elem? h j ≡ some y
      → inner_less h j i ≡ ok false
      → d.dated_time x ≤ d.dated_time y
  unfolding inner_less
  inner_less→le h i j x y ei ej l =
      let e : ok (ltb (d.dated_time y) (d.dated_time x)) ≡ ok false =
        rw (at_lem h j y ej, at_lem h i x ei) at l in
      not_before (cc e)
    where
      not_before : ltb (d.dated_time y) (d.dated_time x) ≡ false → d.dated_time x ≤ d.dated_time y
      not_before e = ground arith

  root-le_at :
      (k j : ℕ) (x y : A) (xs : List A)
      → j < k
      → IsHeap (x ∷ xs)
      → get_elem? (x ∷ xs) j ≡ some y
      → j < length (x ∷ xs)
      → d.dated_time x ≤ d.dated_time y
  root-le_at zero j x y xs b h e l = elim b [ ]
  root-le_at (suc k) zero x y xs b h e l =
      let same : x ≡ y = cc e in
      subst (λ z. d.dated_time x ≤ d.dated_time z) same (le_refl (d.dated_time x))
  root-le_at (suc k) (suc j) x y xs b h e l =
      let i = j / 2 in
      let (p, at_p) = get_elem?_in (x ∷ xs) i (omega arith) in
      let above =
        inner_less→le (x ∷ xs) i (suc j) p y at_p e (h i (suc j) (omega arith) (omega arith) l) in
      let up = root-le_at k i x p xs (omega arith) h at_p (omega arith) in omega arith

  NoneBefore-at :
      (t : ℕ) (xs : List A)
      → ((j : ℕ) (y : A) → j < length xs → get_elem? xs j ≡ some y → t ≤ d.dated_time y)
      → NoneBefore t xs
  NoneBefore-at t [] f = tt
  NoneBefore-at t (x ∷ xs) f =
      (f 0 x (omega arith) refl, NoneBefore-at t xs (λ j y l e. f (suc j) y (omega arith) e))

  pub root-NoneBefore :
      (x : A) (xs : List A) → IsHeap (x ∷ xs) → NoneBefore (d.dated_time x) (x ∷ xs)
  root-NoneBefore x xs h =
      NoneBefore-at (d.dated_time x) (x ∷ xs)
        (λ j y l e. root-le_at (suc j) j x y xs (omega arith) h e l)
