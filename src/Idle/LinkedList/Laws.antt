-- ===== src/Idle/LinkedList/Laws.antt =====
-- The linked list against the queue of its elements.
use mathlib.Core.List.{append_assoc, map-append}
use go_agile_pool.Prelude.{
  ℕ, zero, suc, ◌+◌, ◌≤◌, ◌≡◌, refl, sym, ap, ◌∙◌, subst, Bool, Bool-cases, inl, inr, none, List,
  [], ◌∷◌, ◌++◌, map, length, keep, head?, tail, arith,
}
use go_agile_pool.Prelude.Run.{Returns}
use go_agile_pool.Idle.{Dated, unexpired}
use go_agile_pool.Idle.LinkedList as ListCode
use go_agile_pool.Idle.LinkedList.{
  LinkedList, new_linked_list, add, pop, sweep, remove_loop, remove_expired, load,
}
use go_agile_pool.Idle.LinkedList.Segment.{first, Linked-split, load_at}
use go_agile_pool.Idle.LinkedList.Ends.{IsList, add-IsList, pop-IsList}
use go_agile_pool.Idle.LinkedList.Middle.{remove_node-IsList}

module _ {A : Type 0} where
  abbrev pub values : List (ℕ × A) → List A
  values = map (λ c. c.1)

  -- The list holds these elements, from head to tail.
  abbrev pub IsQueue : LinkedList A → List A → Type 0
  IsQueue ll vs = (cells : List (ℕ × A)) × IsList ll cells × (values cells ≡ vs)

  length-values : (cells : List (ℕ × A)) → length (values cells) ≡ length cells
  length-values [] = refl
  length-values (c ∷ cells) = ap suc (length-values cells)

  tail-values : (cells : List (ℕ × A)) → values (tail cells) ≡ tail (values cells)
  tail-values [] = refl
  tail-values (c ∷ cells) = refl

  values-keep :
      (p : A → Bool) (cells : List (ℕ × A))
      → values (keep (λ c. p c.1) cells) ≡ keep p (values cells)
  values-keep p [] = refl
  values-keep p (c ∷ cells) = ground (arith, values-keep p cells)

  pub new-IsQueue : IsQueue new_linked_list []
  unfolding new_linked_list
  new-IsQueue = (
    [],
    record { begins = refl; ends = refl; counts = refl; linked = tt; distinct = tt; bounded = tt },
    refl,
  )

  add-IsQueue :
      (ll : LinkedList A) (vs : List A) (w : A)
      → IsQueue ll vs
      → Returns (λ r. IsQueue r (vs ++ w ∷ [])) (add ll w)
  add-IsQueue ll vs w (cells, h, e) =
      let (r, run, l) = add-IsList ll cells w h in
      (r, run, (_, l, rw map-append (ap (λ us. us ++ w ∷ []) e)))

  pop-IsQueue :
      (ll : LinkedList A) (vs : List A)
      → IsQueue ll vs
      → Returns (λ (x, r). (x ≡ head? vs) × IsQueue r (tail vs)) (pop ll)
  pop-IsQueue ll vs (cells, h, e) =
      let (r, run, (x, l)) = pop-IsList ll cells h in
      (r, run, (x ∙ ap head? e, (tail cells, l, tail-values cells ∙ ap tail e)))

module _ {A : Type 0} ⦃d : Dated A⦄ where
  abbrev kept_cells : ℕ → ℕ → List (ℕ × A) → List (ℕ × A)
  kept_cells now expiry = keep (λ c. unexpired now expiry c.1)

  -- The loop with the nodes behind it kept and those before it still to look at
  remove_loop-IsList :
      (k now expiry : ℕ) (before rest : List (ℕ × A)) (n : ℕ) (ll : LinkedList A)
      → IsList ll (before ++ rest)
      → length rest ≤ k
      → Returns
          (λ (m, r).
            IsList r (before ++ kept_cells now expiry rest)
            × (m + length (kept_cells now expiry rest) ≡ n + length rest))
          (remove_loop k now expiry (first rest none) (n, ll))
  unfolding remove_loop sweep
  remove_loop-IsList zero now expiry before [] n ll h b = (_, refl, (h, refl))
  remove_loop-IsList zero now expiry before (c ∷ rest) n ll h b = elim b [ ]
  remove_loop-IsList (suc k) now expiry before [] n ll h b = (_, refl, (h, refl))
  remove_loop-IsList (suc k) now expiry before ((a, v) ∷ rest) n ll h b =
      let at_a =
        load_at a ll.nodes _
          (Linked-split ll.nodes none none before ((a, v) ∷ rest) h.linked).1.0 in
      elim (Bool-cases (unexpired now expiry v)) [
        | inl alive ↦
            let longer = append_assoc before ((a, v) ∷ []) rest in
            let ih =
              remove_loop-IsList k now expiry (before ++ (a, v) ∷ []) rest n ll
                (subst (IsList ll) (sym longer) h) (omega arith) in
            rw (at_a, alive)
              (
                ih.0,
                ih.1,
                (
                  subst (IsList ih.0.1)
                      (append_assoc before ((a, v) ∷ []) (kept_cells now expiry rest)) ih.2.0,
                  omega (arith, ih.2.1),
                ),
              )
        | inr expired ↦
            let gone = remove_node-IsList ll before rest a v h in
            let ih =
              remove_loop-IsList k now expiry before rest (n + 1) gone.0 gone.2 (omega arith) in
            rw (at_a, expired, gone.1) (ih.0, ih.1, (ih.2.0, omega (arith, ih.2.1)))
      ]

  remove_expired-IsQueue :
      (ll : LinkedList A) (vs : List A) (now expiry : ℕ)
      → IsQueue ll vs
      → Returns
          (λ (n, r).
            IsQueue r (keep (unexpired now expiry) vs)
            × (n + length (keep (unexpired now expiry) vs) ≡ length vs))
          (remove_expired ll now expiry)
  unfolding remove_expired
  remove_expired-IsQueue ll vs now expiry (cells, h, e) =
      let (r, run, (l, m)) =
        remove_loop-IsList ll.length now expiry [] cells 0 ll h (omega (arith, h.counts)) in
      let p = unexpired now expiry in
      let left = values-keep p cells ∙ ap (keep p) e in
      (
        r,
        rw (← h.begins) at run,
        (
          (_, l, left),
          omega (
            arith,
            m,
            ap length left,
            length-values (kept_cells now expiry cells),
            length-values cells,
            ap length e,
          ),
        ),
      )

  -- On a linked list that holds a queue of elements no operation panics, `Add` appends, `Pop` takes
  -- the first element (nil if there is none), `RemoveExpired` leaves exactly the unexpired elements
  -- in their order and returns how many it removed, and `Len` is the length of the queue.
  pub LinkedList-IsQueue :
      (ll : LinkedList A) (vs : List A)
      → IsQueue ll vs
      → ((w : A) → Returns (λ r. IsQueue r (vs ++ w ∷ [])) (add ll w))
        × Returns (λ (x, r). (x ≡ head? vs) × IsQueue r (tail vs)) (pop ll)
        × ((now expiry : ℕ)
            → Returns
                (λ (n, r).
                  IsQueue r (keep (unexpired now expiry) vs)
                  × (n + length (keep (unexpired now expiry) vs) ≡ length vs))
                (remove_expired ll now expiry))
        × (ListCode.length ll ≡ length vs)
  unfolding ListCode.length
  LinkedList-IsQueue ll vs q = (
    λ w. add-IsQueue ll vs w q,
    pop-IsQueue ll vs q,
    λ now expiry. remove_expired-IsQueue ll vs now expiry q,
    q.1.counts ∙ sym (length-values q.0) ∙ ap length q.2,
  )
