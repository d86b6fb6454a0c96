-- ===== src/Idle/LinkedList/Middle.antt =====
-- `removeNode` on a node anywhere in the list.
use go_agile_pool.Prelude.{
  ℕ, ◌-◌, ◌<◌, ◌≡◌, refl, sym, subst, ◌∙◌, false, ◌==◌, Option, none, some, List, [], ◌∷◌, ◌++◌,
  length-append, All, All-append, All-append_left, All-append_right, arith,
}
use go_agile_pool.Prelude.Run.{Returns}
use go_agile_pool.Idle.LinkedList.{
  Node, LinkedList, write, is_nil, unlink_next, unlink_prev, detach, remove_node,
}
use go_agile_pool.Idle.LinkedList.Segment.{
  first, last, Linked, Distinct, Frame, Linked-Frame, Linked-append, Linked-split, Outside-each,
  write_outside, write_same, load_at, set_next_at, set_prev_at, set_next-last, set_prev-first,
  last-append, first-append,
}
use go_agile_pool.Idle.LinkedList.Apart.{Distinct-join, Distinct-middle, Apart-sym}
use go_agile_pool.Idle.LinkedList.Ends.{IsList}

module _ {A : Type 0} where
  -- The ends and the chain after `unlink_next`: what came before the node leads past it.
  abbrev PastNext : LinkedList A → Option ℕ → List (ℕ × A) → LinkedList A → Type 0
  PastNext ll next xs r =
      (r.head ≡ first xs next)
      × (r.tail ≡ ll.tail)
      × (r.length ≡ ll.length)
      × (r.fresh ≡ ll.fresh)
      × Linked r.nodes none xs next
      × Frame ll.nodes r.nodes xs

  abbrev PastPrev : LinkedList A → Option ℕ → List (ℕ × A) → LinkedList A → Type 0
  PastPrev ll prev ys r =
      (r.head ≡ ll.head)
      × (r.tail ≡ last prev ys)
      × (r.length ≡ ll.length)
      × (r.fresh ≡ ll.fresh)
      × Linked r.nodes prev ys none
      × Frame ll.nodes r.nodes ys

  is_nil-last : (a : ℕ) (xs : List (ℕ × A)) → is_nil (last (some a) xs) ≡ false
  is_nil-last a [] = refl
  is_nil-last a ((b, v) ∷ xs) = is_nil-last b xs

  unlink_next_lem :
      (ll : LinkedList A) (xs : List (ℕ × A)) (v : A) (next q : Option ℕ)
      → Distinct xs
      → Linked ll.nodes none xs q
      → ll.head ≡ first xs q
      → Returns
          (PastNext ll next xs)
          (unlink_next (record { val = v; next = next; prev = last none xs }) ll)
  unfolding unlink_next
  unlink_next_lem ll [] v next q d h e = (_, refl, (refl, refl, refl, refl, tt, λ a o. refl))
  unlink_next_lem ll ((a, w) ∷ xs) v next q d h e =
      let (new, r, (l, f)) = set_next-last ll.nodes none q next (a, w) xs d h in
      (record ll { nodes = new }, rw (is_nil-last a xs, r) refl, (e, refl, refl, refl, l, f))

  unlink_prev_lem :
      (ll : LinkedList A) (ys : List (ℕ × A)) (v : A) (prev q : Option ℕ)
      → Distinct ys
      → Linked ll.nodes q ys none
      → ll.tail ≡ last q ys
      → Returns
          (PastPrev ll prev ys)
          (unlink_prev (record { val = v; next = first ys none; prev = prev }) ll)
  unfolding unlink_prev
  unlink_prev_lem ll [] v prev q d h e = (_, refl, (refl, refl, refl, refl, tt, λ a o. refl))
  unlink_prev_lem ll ((a, w) ∷ ys) v prev q d h e =
      let (new, r, (l, f)) = set_prev-first ll.nodes q none prev (a, w) ys d h in
      (record ll { nodes = new }, rw r refl, (refl, e, refl, refl, l, f))

  detach_lem :
      (a : ℕ) (v : A) (ll : LinkedList A) (x : Node A)
      → ll.nodes a ≡ some x
      → Returns
          (λ r.
            (r.head ≡ ll.head)
            × (r.tail ≡ ll.tail)
            × (r.length ≡ ll.length - 1)
            × (r.fresh ≡ ll.fresh)
            × Frame ll.nodes r.nodes ((a, v) ∷ []))
          (detach (some a) ll)
  unfolding detach
  detach_lem a v ll x e =
      let half = write a (record x { prev = none }) ll.nodes in
      let y : Node A = record x { prev = none } in
      (
        record ll { nodes = write a (record y { next = none }) half; length = ll.length - 1 },
        rw (set_prev_at a none ll.nodes x e, set_next_at a none half y (write_same a y ll.nodes))
            refl,
        (
          refl,
          refl,
          refl,
          refl,
          λ b o.
              write_outside a (record y { next = none }) half v [] b o
              ∙ write_outside a y ll.nodes v [] b o,
        ),
      )

  below_rest :
      (n : ℕ) (xs ys : List (ℕ × A)) (a : ℕ) (v : A)
      → All (λ c. c.0 < n) (xs ++ (a, v) ∷ ys)
      → All (λ c. c.0 < n) (xs ++ ys)
  below_rest n xs ys a v h =
      let P = λ (c : ℕ × A). c.0 < n in
      All-append P xs ys (All-append_left P xs ((a, v) ∷ ys) h)
        (All-append_right P xs ((a, v) ∷ ys) h).1

  -- `removeNode` takes the node out of the list and leaves the others in their order.
  pub remove_node-IsList :
      (ll : LinkedList A) (xs ys : List (ℕ × A)) (a : ℕ) (v : A)
      → IsList ll (xs ++ (a, v) ∷ ys)
      → Returns (λ r. IsList r (xs ++ ys)) (remove_node (some a) ll)
  unfolding remove_node
  remove_node-IsList ll xs ys a v h =
      let (ox, oy, dx, dy, p) = Distinct-middle a v xs ys h.distinct in
      let (lx, (e, ly)) = Linked-split ll.nodes none none xs ((a, v) ∷ ys) h.linked in
      let (l1, r1, (h1, t1, n1, f1, k1, fr1)) =
        unlink_next_lem ll xs v (first ys none) (some a) dx lx
          (h.begins ∙ first-append xs ((a, v) ∷ ys) none) in
      let ly1 = Linked-Frame ll.nodes l1.nodes (some a) none ys xs fr1 (Apart-sym xs ys p) ly in
      let (l2, r2, (h2, t2, n2, f2, k2, fr2)) =
        unlink_prev_lem l1 ys v (last none xs) (some a) dy ly1
          (t1 ∙ h.ends ∙ last-append none xs ((a, v) ∷ ys)) in
      let (l3, r3, (h3, t3, n3, f3, fr3)) = detach_lem a v l2 _ (fr2 a oy ∙ fr1 a ox ∙ e) in
      let chain : Linked l2.nodes none (xs ++ ys) none =
        Linked-append l2.nodes none none xs ys
          (Linked-Frame l1.nodes l2.nodes none (first ys none) xs ys fr2 p k1) k2 in
      (
        l3,
        rw (load_at a ll.nodes _ e, r1, r2, r3) refl,
        record {
          begins = h3 ∙ h2 ∙ h1 ∙ sym (first-append xs ys none);
          ends = t3 ∙ t2 ∙ sym (last-append none xs ys);
          counts =
              omega
                (arith, n3, n2, n1, h.counts, length-append xs ys, length-append xs ((a, v) ∷ ys));
          linked =
              Linked-Frame l2.nodes l3.nodes none none (xs ++ ys) ((a, v) ∷ []) fr3
                (Outside-each a v (xs ++ ys)
                  (All-append (λ (c : ℕ × A). (a == c.0) ≡ false) xs ys ox oy))
                chain;
          distinct = Distinct-join xs ys dx dy p;
          bounded =
              subst (λ n. All (λ c. c.0 < n) (xs ++ ys)) (sym (f3 ∙ f2 ∙ f1))
                (below_rest ll.fresh xs ys a v h.bounded);
        },
      )
