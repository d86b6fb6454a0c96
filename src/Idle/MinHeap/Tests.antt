-- ===== src/Idle/MinHeap/Tests.antt =====
-- The contract at work, with a heap package for time stamps that keeps the slice sorted.
use mathlib.Core.List.{Permᴰ}
use mathlib.Core.List.Permᴰ as PermOf
use native.Mathlib.Nat.{le_refl}
use go_agile_pool.Prelude.{
  ℕ, zero, suc, ◌≤◌, ◌<◌, ◌≡◌, refl, true, false, Bool-cases, inl, inr, some, List, [], ◌∷◌, ltb,
  length, get_elem?, if◌then◌else◌, arith,
}
use go_agile_pool.Prelude.Run.{Run, ok, panic, Returns}
use go_agile_pool.Idle.{Dated, min_heap}
use go_agile_pool.Idle.Contract.{Fulfils}
use go_agile_pool.Idle.Containers.{new_idle_works, idle_works-Fulfils}
use go_agile_pool.Idle.MinHeap.{
  HeapPackage, Documented, MinHeap, IsHeap, NoneBefore, inner_less, at, pop, remove_expired,
}
use go_agile_pool.Idle.MinHeap.Laws.{length-perm}
use go_agile_pool.Idle.MinHeap.Root.{at_lem, get_elem?_in}

instance abbrev stamp : Dated ℕ
stamp = record { dated_time = λ t. t }

insert : ℕ → List ℕ → List ℕ
insert t [] = t ∷ []
insert t (u ∷ us) = if ltb t u then t ∷ u ∷ us else u ∷ insert t us

sort : List ℕ → List ℕ
unfolding insert
sort [] = []
sort (t ∷ ts) = insert t (sort ts)

insert-perm : (t : ℕ) (us : List ℕ) → Permᴰ (insert t us) (t ∷ us)
unfolding insert
insert-perm t [] = PermOf.refl (t ∷ [])
insert-perm t (u ∷ us) = elim (Bool-cases (ltb t u)) [
  | inl e ↦ rw e (PermOf.refl (t ∷ u ∷ us))
  | inr e ↦ rw e (Permᴰ.trans (Permᴰ.cons refl (insert-perm t us)) (Permᴰ.swap refl refl))
]

sort-perm : (ts : List ℕ) → Permᴰ (sort ts) ts
unfolding sort
sort-perm [] = Permᴰ.nil
sort-perm (t ∷ ts) = Permᴰ.trans (insert-perm t (sort ts)) (Permᴰ.cons refl (sort-perm ts))

abbrev IsSorted : List ℕ → Type 0
IsSorted [] = Unit
IsSorted (t ∷ ts) = NoneBefore t ts × IsSorted ts

NoneBefore-less : (s t : ℕ) (us : List ℕ) → s ≤ t → NoneBefore t us → NoneBefore s us
NoneBefore-less s t [] l h = tt
NoneBefore-less s t (u ∷ us) l (b, h) = (omega arith, NoneBefore-less s t us l h)

insert-NoneBefore : (s t : ℕ) (us : List ℕ) → s ≤ t → NoneBefore s us → NoneBefore s (insert t us)
unfolding insert
insert-NoneBefore s t [] l h = (l, tt)
insert-NoneBefore s t (u ∷ us) l (b, h) = elim (Bool-cases (ltb t u)) [
  | inl e ↦ rw e (l, (b, h))
  | inr e ↦ rw e (b, insert-NoneBefore s t us l h)
]

insert-IsSorted : (t : ℕ) (us : List ℕ) → IsSorted us → IsSorted (insert t us)
unfolding insert
insert-IsSorted t [] h = (tt, tt)
insert-IsSorted t (u ∷ us) (b, h) = elim (Bool-cases (ltb t u)) [
  | inl e ↦ let l : t ≤ u = ground arith in rw e ((l, NoneBefore-less t u us l b), (b, h))
  | inr e ↦
      let l : u ≤ t = ground arith in rw e (insert-NoneBefore u t us l b, insert-IsSorted t us h)
]

sort-IsSorted : (ts : List ℕ) → IsSorted (sort ts)
unfolding sort
sort-IsSorted [] = tt
sort-IsSorted (t ∷ ts) = insert-IsSorted t (sort ts) (sort-IsSorted ts)

NoneBefore-at : (t : ℕ) (us : List ℕ) (j v : ℕ) → NoneBefore t us → get_elem? us j ≡ some v → t ≤ v
NoneBefore-at t [] j v h e = cc e
NoneBefore-at t (u ∷ us) zero v (b, h) e = ground arith
NoneBefore-at t (u ∷ us) (suc j) v (b, h) e = NoneBefore-at t us j v h e

sorted-le :
    (ts : List ℕ) (i j u v : ℕ)
    → IsSorted ts
    → i < j
    → get_elem? ts i ≡ some u
    → get_elem? ts j ≡ some v
    → u ≤ v
sorted-le [] i j u v h l e f = cc e
sorted-le (t ∷ ts) zero zero u v h l e f = absurd (omega arith)
sorted-le (t ∷ ts) zero (suc j) u v (b, h) l e f =
    let le = NoneBefore-at t ts j v b f in ground arith
sorted-le (t ∷ ts) (suc i) zero u v h l e f = elim l [ ]
sorted-le (t ∷ ts) (suc i) (suc j) u v (b, h) l e f = sorted-le ts i j u v h (omega arith) e f

IsSorted-IsHeap : (ts : List ℕ) → IsSorted ts → IsHeap ts
unfolding inner_less
IsSorted-IsHeap ts h i j lo hi l =
    let (u, at_i) = get_elem?_in ts i (omega arith) in
    let (v, at_j) = get_elem?_in ts j l in
    let le = sorted-le ts i j u v h (omega arith) at_i at_j in
    let e : ltb v u ≡ false = ground arith in rw (at_lem ts j v at_j, at_lem ts i u at_i, e) refl

first_of_sorted : List ℕ → Run (ℕ × List ℕ)
first_of_sorted [] = panic
first_of_sorted (t ∷ ts) = ok (t, ts)

-- It sorts the slice at each call, and asks the interface nothing.
sorting : HeapPackage (List ℕ) ℕ
unfolding sort first_of_sorted
sorting = record {
  init = λ i h. ok (sort h);
  push = λ i h x. ok (sort (x ∷ h));
  pop = λ i h. first_of_sorted (sort h);
}

perm-NoneBefore : (t : ℕ) {us vs : List ℕ} → Permᴰ us vs → NoneBefore t us → NoneBefore t vs
perm-NoneBefore t Permᴰ.nil h = tt
perm-NoneBefore t (Permᴰ.cons e p) (b, h) = (rw e at b, perm-NoneBefore t p h)
perm-NoneBefore t (Permᴰ.swap e f) (b, (c, h)) = (rw f at c, (rw e at b, h))
perm-NoneBefore t (Permᴰ.trans p q) h = perm-NoneBefore t q (perm-NoneBefore t p h)

pop_sorted :
    (h s : List ℕ)
    → Permᴰ s h
    → IsSorted s
    → 0 < length h
    → Returns (λ (x, h'). IsHeap h' × Permᴰ h (x ∷ h') × NoneBefore x h) (first_of_sorted s)
unfolding first_of_sorted
pop_sorted [] s p o l = elim l [ ]
pop_sorted (t ∷ h) [] p o l = absurd (omega (arith, length-perm p))
pop_sorted (t ∷ h) (x ∷ s) p (b, o) l =
    ((x, s), refl, (IsSorted-IsHeap s o, PermOf.symm p, perm-NoneBefore x p (le_refl x, b)))

sorting-Documented : Documented ℕ sorting
unfolding sorting
sorting-Documented = record {
  init_heap = λ i good h. (sort h, refl, (IsSorted-IsHeap (sort h) (sort-IsSorted h), sort-perm h));
  push_heap = λ i good h x is_heap. (
    sort (x ∷ h),
    refl,
    (IsSorted-IsHeap (sort (x ∷ h)) (sort-IsSorted (x ∷ h)), sort-perm (x ∷ h)),
  );
  pop_heap =
      λ i good h some_left is_heap. pop_sorted h (sort h) (sort-perm h) (sort-IsSorted h) some_left;
}

idle_works-Fulfils_example : Fulfils (new_idle_works sorting (λ t w. (true, 3)) min_heap)
idle_works-Fulfils_example =
    idle_works-Fulfils sorting (λ t w. (true, 3)) min_heap sorting-Documented

abbrev three_stamps : MinHeap ℕ
three_stamps = record { inner = 5 ∷ 30 ∷ 9 ∷ []; size = 3 }

-- The sweep stops at the root that is alive.
sweep_stops :
    remove_expired sorting three_stamps 20 10 ≡ ok (2, record { inner = 30 ∷ []; size = 1 })
unfolding sorting remove_expired pop at
sweep_stops = refl
