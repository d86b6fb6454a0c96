-- ===== src/Idle/LinkedList/Ends.antt =====
-- The two ends: what `Add` and `Pop` do to the list that the nodes make.
use go_agile_pool.Prelude.{
  ℕ, ◌+◌, ◌-◌, ◌<◌, ◌≡◌, refl, sym, ◌∙◌, true, false, ◌==◌, Option, none, some, List, [], ◌∷◌, ◌++◌,
  map, length, length-append, head?, tail, All, All-append, All-map, arith,
}
use go_agile_pool.Prelude.Run.{Returns}
use go_agile_pool.Idle.LinkedList.{
  Node, LinkedList, write, load, same_pointer, new_node, add_node, add, pop, pop_head,
}
use go_agile_pool.Idle.LinkedList.Segment.{
  first, last, Linked, Distinct, Outside, Linked-Frame, Linked-append, write_outside, write_same,
  load_at, set_next-last, set_prev-first, last-append,
}
use go_agile_pool.Idle.LinkedList.Apart.{Distinct-join, Outside-fresh}

module _ {A : Type 0} where
  -- The list stands at some addresses.
  pub record IsList (ll : LinkedList A) (cells : List (ℕ × A)) : Type 0 where
    pub begins : ll.head ≡ first cells none
    pub ends : ll.tail ≡ last none cells
    pub counts : ll.length ≡ length cells
    pub linked : Linked ll.nodes none cells none
    pub distinct : Distinct cells
    pub bounded : All (λ c. c.0 < ll.fresh) cells

  -- The node a chain ends with
  load-last :
      (nodes : ℕ → Option (Node A)) (b n : Option ℕ) (c : ℕ × A) (xs : List (ℕ × A))
      → Linked nodes b (c ∷ xs) n
      → Returns (λ (x : Node A). x.next ≡ n) (load (last b (c ∷ xs)) nodes)
  load-last nodes b n (a, v) [] (e, _) = (_, load_at a nodes _ e, refl)
  load-last nodes b n (a, v) (y ∷ xs) (e, h) = load-last nodes (some a) n y xs h

  Outside-last :
      (a : ℕ) (c : ℕ × A) (xs : List (ℕ × A)) (b : Option ℕ)
      → Outside a (c ∷ xs)
      → same_pointer (some a) (last b (c ∷ xs)) ≡ false
  Outside-last a c [] b (o, _) = o
  Outside-last a (x, v) (y ∷ xs) b (_, o) = Outside-last a y xs (some x) o

  pub pop-IsList :
      (ll : LinkedList A) (cells : List (ℕ × A))
      → IsList ll cells
      → Returns
          (λ (r : Option A × LinkedList A).
            (r.0 ≡ head? (map (λ c. c.1) cells)) × IsList r.1 (tail cells))
          (pop ll)
  unfolding pop pop_head
  pop-IsList ll [] h = simp h.begins ((none, ll), refl, (refl, h))
  pop-IsList ll ((a, v) ∷ []) h =
      let same : (a == a) ≡ true = ground arith in
      (
        (some v, record ll { head = none; tail = none; length = ll.length - 1 }),
        rw (h.begins, h.ends, load_at a ll.nodes _ h.linked.0, same) refl,
        (
          refl,
          record {
            begins = refl;
            ends = refl;
            counts = omega (arith, h.counts);
            linked = tt;
            distinct = tt;
            bounded = tt;
          },
        ),
      )
  pop-IsList ll ((a, v) ∷ y ∷ xs) h =
      let (new, r, (l, f)) =
        set_prev-first ll.nodes (some a) none none y xs h.distinct.1 h.linked.1 in
      (
        (some v, record ll { head = some y.0; length = ll.length - 1; nodes = new }),
        rw
            (
              h.begins,
              load_at a ll.nodes _ h.linked.0,
              h.ends,
              Outside-last a y xs (some a) h.distinct.0,
              r,
            )
            refl,
        (
          refl,
          record {
            begins = refl;
            ends = h.ends;
            counts = omega (arith, h.counts);
            linked = l;
            distinct = h.distinct.1;
            bounded = h.bounded.1;
          },
        ),
      )

  below_each :
      (f : ℕ) (w : A) (xs : List (ℕ × A))
      → All (λ c. c.0 < f) xs
      → All (λ c. Outside c.0 ((f, w) ∷ [])) xs
  below_each f w xs h =
      All-map (λ (c : ℕ × A). c.0 < f) (λ (c : ℕ × A). Outside c.0 ((f, w) ∷ [])) xs
        (λ c b. (ground arith, tt)) h

  pub add-IsList :
      (ll : LinkedList A) (cells : List (ℕ × A)) (w : A)
      → IsList ll cells
      → Returns (λ r. IsList r (cells ++ (ll.fresh, w) ∷ [])) (add ll w)
  unfolding add add_node new_node
  add-IsList ll [] w h =
      let f = ll.fresh in
      let nodes = write f (record { val = w; next = none; prev = none }) ll.nodes in
      (
        record {
          head = some f;
          tail = some f;
          length = ll.length + 1;
          nodes = nodes;
          fresh = f + 1;
        },
        rw (h.begins, h.ends) refl,
        record {
          begins = refl;
          ends = refl;
          counts = omega (arith, h.counts);
          linked = (write_same f _ ll.nodes, tt);
          distinct = (tt, tt);
          bounded = (omega arith, tt);
        },
      )
  add-IsList ll (c ∷ xs) w h =
      let f = ll.fresh in
      let nodes = write f (record { val = w; next = none; prev = none }) ll.nodes in
      let before =
        Linked-Frame ll.nodes nodes none none (c ∷ xs) ((f, w) ∷ [])
          (write_outside f _ ll.nodes w []) (below_each f w (c ∷ xs) h.bounded) h.linked in
      let (linked, r, (l, fr)) = set_next-last nodes none none (some f) c xs h.distinct before in
      let (x, e, nx) = load-last linked none (some f) c xs l in
      let at_f = fr f (Outside-fresh f (c ∷ xs) h.bounded) ∙ write_same f _ ll.nodes in
      let (both, r', (l', fr')) =
        set_prev-first linked none none (last none (c ∷ xs)) (f, w) [] (tt, tt) (at_f, tt) in
      (
        record {
          head = ll.head;
          tail = some f;
          length = ll.length + 1;
          nodes = both;
          fresh = f + 1;
        },
        rw (h.begins, h.ends, r, e, nx, r') refl,
        record {
          begins = h.begins;
          ends = sym (last-append none (c ∷ xs) ((f, w) ∷ []));
          counts = omega (arith, h.counts, length-append xs ((f, w) ∷ []));
          linked =
              Linked-append both none none (c ∷ xs) ((f, w) ∷ [])
                (Linked-Frame linked both none (some f) (c ∷ xs) ((f, w) ∷ []) fr'
                  (below_each f w (c ∷ xs) h.bounded) l)
                l';
          distinct =
              Distinct-join (c ∷ xs) ((f, w) ∷ []) h.distinct (tt, tt)
                (below_each f w (c ∷ xs) h.bounded);
          bounded =
              All-append (λ (d : ℕ × A). d.0 < f + 1) (c ∷ xs) ((f, w) ∷ [])
                (All-map (λ (d : ℕ × A). d.0 < f) (λ (d : ℕ × A). d.0 < f + 1) (c ∷ xs)
                  (λ d b. omega arith) h.bounded)
                (omega arith, tt);
        },
      )
