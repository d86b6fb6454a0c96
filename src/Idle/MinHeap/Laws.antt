-- ===== src/Idle/MinHeap/Laws.antt =====
-- The heap against the bag of its elements.
use mathlib.Core.List.{Permᴰ}
use mathlib.Core.List.Permᴰ as PermOf
use go_agile_pool.Prelude.{
  ℕ, zero, suc, ◌+◌, ◌-◌, ◌≤◌, ◌<◌, ◌≡◌, refl, sym, ap, ◌∙◌, subst, true, false, Bool, Bool-cases,
  inl, inr, Option, none, some, List, [], ◌∷◌, ltb, ◌==◌, length, keep, keep-All, All, arith,
}
use go_agile_pool.Prelude.Run.{Returns}
use go_agile_pool.Idle.{Dated, after, unexpired}
use go_agile_pool.Idle.Contract.{IdleContainer, Fulfils, Taken, same_tests}
use go_agile_pool.Idle.MinHeap.{
  HeapPackage, min_heap_inner, Documented, MinHeap, IsHeap, NoneBefore, new_min_heap, add, pop,
  remove_loop, remove_expired, min_heap_len,
}
use go_agile_pool.Idle.MinHeap.Interface.{min_heap_inner-IsInterface}
use go_agile_pool.Idle.MinHeap.Root.{at_lem, root-NoneBefore}

pub length-perm : {A : Type 0} {xs ys : List A} → Permᴰ xs ys → length xs ≡ length ys
length-perm Permᴰ.nil = refl
length-perm (Permᴰ.cons e p) = ap suc (length-perm p)
length-perm (Permᴰ.swap e f) = refl
length-perm (Permᴰ.trans p q) = length-perm p ∙ length-perm q

no_length : {A : Type 0} (xs : List A) → length xs ≡ 0 → xs ≡ []
no_length [] e = refl
no_length (x ∷ xs) e = absurd (omega arith)

module _ {A : Type 0} (p : A → Bool) where
  keep-cons_perm :
      (x : A) (xs ys : List A)
      → Permᴰ (keep p xs) (keep p ys)
      → Permᴰ (keep p (x ∷ xs)) (keep p (x ∷ ys))
  keep-cons_perm x xs ys q = elim (Bool-cases (p x)) [
    | inl e ↦ rw e (Permᴰ.cons refl q)
    | inr e ↦ rw e q
  ]

  keep-swap_perm : (x y : A) (xs : List A) → Permᴰ (keep p (x ∷ y ∷ xs)) (keep p (y ∷ x ∷ xs))
  keep-swap_perm x y xs = elim (Bool-cases (p x)) [
    | inl e ↦ elim (Bool-cases (p y)) [
      | inl f ↦ rw (e, f) (Permᴰ.swap refl refl)
      | inr f ↦ rw (e, f) (PermOf.refl (x ∷ keep p xs))
    ]
    | inr e ↦ rw e (PermOf.refl (keep p (y ∷ xs)))
  ]

  keep-perm : {xs ys : List A} → Permᴰ xs ys → Permᴰ (keep p xs) (keep p ys)
  keep-perm Permᴰ.nil = Permᴰ.nil
  keep-perm (Permᴰ.cons {a} {b} {l₁ = xs} {l₂ = ys} e q) =
      subst (λ z. Permᴰ (keep p (a ∷ xs)) (keep p (z ∷ ys))) e
        (keep-cons_perm a xs ys (keep-perm q))
  keep-perm (Permᴰ.swap {a} {b} {a'} {b'} {l = xs} e f) =
      subst (λ z. Permᴰ (keep p (a ∷ b ∷ xs)) (keep p (a' ∷ z ∷ xs))) e
        (subst (λ z. Permᴰ (keep p (a ∷ b ∷ xs)) (keep p (z ∷ a ∷ xs))) f (keep-swap_perm a b xs))
  keep-perm (Permᴰ.trans q r) = Permᴰ.trans (keep-perm q) (keep-perm r)

module _ {A : Type 0} ⦃d : Dated A⦄ where
  abbrev pub heap_container : HeapPackage (List A) A → IdleContainer A
  heap_container pkg = record {
    Container = MinHeap A;
    new = new_min_heap pkg;
    add = add pkg;
    pop = pop pkg;
    remove_expired = remove_expired pkg;
    len = min_heap_len;
  }

module _ {A : Type 0} ⦃d : Dated A⦄ (pkg : HeapPackage (List A) A) (docs : Documented A pkg) where
  -- The heap holds these elements, in some order.
  pub record IsBag (h : MinHeap A) (xs : List A) : Type 0 where
    pub heap : IsHeap h.inner
    pub sized : h.size ≡ length h.inner
    pub same : Permᴰ h.inner xs

  new-IsBag : Returns (λ h. IsBag h []) (new_min_heap pkg)
  unfolding new_min_heap
  new-IsBag =
      let (h, run, (heap, q)) = docs.init_heap min_heap_inner min_heap_inner-IsInterface [] in
      (
        record { inner = h; size = 0 },
        rw run refl,
        record { heap = heap; sized = sym (length-perm q); same = q },
      )

  add-IsBag :
      (h : MinHeap A) (xs : List A) (w : A)
      → IsBag h xs
      → Returns (λ h'. IsBag h' (w ∷ xs)) (add pkg h w)
  unfolding add
  add-IsBag h xs w b =
      let (h', run, (heap, q)) =
        docs.push_heap min_heap_inner min_heap_inner-IsInterface h.inner w b.heap in
      (
        record { inner = h'; size = h.size + 1 },
        rw run refl,
        record {
          heap = heap;
          sized = omega (arith, b.sized, length-perm q);
          same = Permᴰ.trans q (Permᴰ.cons refl b.same);
        },
      )

  -- What `Pop` takes of a heap that is not empty
  abbrev LeastTaken : List A → List A → Option A → MinHeap A → Type 0
  LeastTaken inner xs o h' =
      (x : A) × (o ≡ some x)
      × IsBag h' h'.inner
      × Permᴰ xs (x ∷ h'.inner)
      × NoneBefore (d.dated_time x) inner

  pop_some :
      (h : MinHeap A) (xs : List A)
      → 0 < length h.inner
      → IsBag h xs
      → Returns (λ (o, h'). LeastTaken h.inner xs o h') (pop pkg h)
  unfolding pop
  pop_some h xs some_left b =
      let ((x, inner), run, (heap, q, least)) =
        docs.pop_heap min_heap_inner min_heap_inner-IsInterface h.inner some_left b.heap in
      let left : (length h.inner == 0) ≡ false = ground arith in
      (
        (some x, record { inner = inner; size = h.size - 1 }),
        rw (left, run) refl,
        (
          x,
          refl,
          record {
            heap = heap;
            sized = omega (arith, b.sized, length-perm q);
            same = PermOf.refl inner;
          },
          Permᴰ.trans (PermOf.symm b.same) q,
          least,
        ),
      )

  pop-IsBag :
      (h : MinHeap A) (xs : List A)
      → IsBag h xs
      → Returns (λ (o, h'). (ys : List A) × IsBag h' ys × Taken xs o ys) (pop pkg h)
  unfolding pop
  pop-IsBag h xs b = elim (Bool-cases (length h.inner == 0)) [
    | inl e ↦
        let none_left = no_length xs (omega (arith, length-perm b.same, is_empty e)) in
        ((none, h), rw e refl, (xs, b, (none_left, none_left)))
    | inr e ↦
        let (r, run, (x, o, b', q, least)) = pop_some h xs (not_empty e) b in
        (r, run, (r.1.inner, b', subst (λ z. Taken xs z r.1.inner) (sym o) q))
  ]
    where
      is_empty : (length h.inner == 0) ≡ true → length h.inner ≡ 0
      is_empty e = ground arith

      not_empty : (length h.inner == 0) ≡ false → 0 < length h.inner
      not_empty e = ground arith

  NoneBefore-All :
      (now expiry t : ℕ) (xs : List A)
      → after (t + expiry) now ≡ true
      → NoneBefore t xs
      → All (λ x. unexpired now expiry x ≡ true) xs
  NoneBefore-All now expiry t [] e l = tt
  NoneBefore-All now expiry t (x ∷ xs) e (b, l) = (ground arith, NoneBefore-All now expiry t xs e l)

  -- An element dated no later than an expired one is expired.
  earlier-expired :
      (now expiry s t : ℕ) → s ≤ t → after (t + expiry) now ≡ false → after (s + expiry) now ≡ false
  earlier-expired now expiry s t l e = ground arith

  abbrev Swept : (now expiry n : ℕ) (xs : List A) → ℕ × MinHeap A → Type 0
  Swept now expiry n xs (m, h') =
      (ys : List A) × IsBag h' ys
      × Permᴰ ys (keep (unexpired now expiry) xs)
      × (m + length ys ≡ n + length xs)

  Swept-empty :
      (now expiry n s : ℕ) (xs : List A)
      → IsBag (record { inner = []; size = s }) xs
      → Swept now expiry n xs (n, record { inner = []; size = s })
  Swept-empty now expiry n s xs b =
      let none_left = no_length xs (omega (arith, length-perm b.same)) in
      (
        xs,
        b,
        subst (λ zs. Permᴰ zs (keep (unexpired now expiry) zs)) (sym none_left) Permᴰ.nil,
        refl,
      )

  remove_loop-Swept :
      (k now expiry n : ℕ) (inner : List A) (s : ℕ) (xs : List A)
      → IsBag (record { inner = inner; size = s }) xs
      → length inner ≤ k
      → Returns
          (Swept now expiry n xs)
          (remove_loop pkg k now expiry (n, record { inner = inner; size = s }))
  unfolding remove_loop
  remove_loop-Swept zero now expiry n [] s xs b l = (_, refl, Swept-empty now expiry n s xs b)
  remove_loop-Swept zero now expiry n (root ∷ rest) s xs b l = elim l [ ]
  remove_loop-Swept (suc k) now expiry n [] s xs b l = (_, refl, Swept-empty now expiry n s xs b)
  remove_loop-Swept (suc k) now expiry n (root ∷ rest) s xs b l =
      let some_left : ltb 0 (suc (length rest)) ≡ true = ground arith in
      let p : A → Bool = unexpired now expiry in
      let read = at_lem (root ∷ rest) 0 root refl in
      let kept = keep-perm p b.same in
      elim (Bool-cases (after (d.dated_time root + expiry) now)) [
        | inl alive ↦
            let all =
              NoneBefore-All now expiry (d.dated_time root) (root ∷ rest) alive
                (root-NoneBefore root rest b.heap) in
            let q = subst (λ zs. Permᴰ zs (keep p xs)) (keep-All p (root ∷ rest) all) kept in
            (
              (n, record { inner = root ∷ rest; size = s }),
              rw (some_left, read, alive) refl,
              (
                root ∷ rest,
                record { heap = b.heap; sized = b.sized; same = PermOf.refl (root ∷ rest) },
                q,
                ap (λ m. n + m) (length-perm b.same),
              ),
            )
        | inr expired ↦
            let ((o, h'), run, (x, e, b', q, least)) =
              pop_some (record { inner = root ∷ rest; size = s }) xs (omega arith) b in
            let gone =
              earlier-expired now expiry (d.dated_time x) (d.dated_time root) least.0 expired in
            let ih =
              remove_loop-Swept k now expiry (n + 1) h'.inner h'.size h'.inner b'
                (omega (arith, l, length-perm b.same, length-perm q)) in
            let dropped : keep p (x ∷ h'.inner) ≡ keep p h'.inner = rw gone refl in
            (
              ih.0,
              rw (some_left, read, expired, run) ih.1,
              (
                ih.2.0,
                ih.2.1,
                Permᴰ.trans ih.2.2
                    (subst (λ zs. Permᴰ zs (keep p xs)) dropped (keep-perm p (PermOf.symm q))),
                omega (arith, ih.2.3, length-perm q),
              ),
            )
      ]

  remove_expired-Swept :
      (h : MinHeap A) (xs : List A) (now expiry : ℕ)
      → IsBag h xs
      → Returns (Swept now expiry 0 xs) (remove_expired pkg h now expiry)
  unfolding remove_expired
  remove_expired-Swept h xs now expiry b =
      remove_loop-Swept (length h.inner) now expiry 0 h.inner h.size xs b (omega arith)

  -- With the documented container/heap, no operation of the heap panics, and each does to the
  -- elements held what its comment says: the loop of RemoveExpired may stop at the first root that
  -- is alive.
  pub heap-Fulfils : Fulfils (heap_container pkg)
  unfolding min_heap_len
  heap-Fulfils = record {
    Holds = IsBag;
    new_holds = new-IsBag;
    add_holds = λ h xs w b.
        let (h', run, k) = add-IsBag h xs w b in (h', run, (w ∷ xs, k, PermOf.refl (w ∷ xs)));
    pop_holds = pop-IsBag;
    remove_expired_holds = λ h xs now expiry past b.
        let ((n, h'), run, (ys, b', q, c)) = remove_expired-Swept h xs now expiry b in
        (
          (n, h'),
          run,
          (
            ys,
            b',
            subst (λ p. Permᴰ ys (keep p xs)) (same_tests now expiry past) q,
            omega (arith, c),
          ),
        );
    len_holds = λ h xs b. b.sized ∙ length-perm b.same;
  }
