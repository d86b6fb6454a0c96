-- ===== src/Idle/LinkedList/Segment.antt =====
-- Chains of nodes in memory: the cells of a chain are its addresses with their values.
use go_agile_pool.Prelude.{
  ℕ, ◌≡◌, refl, sym, ap, ◌∙◌, false, ◌==◌, Option, some, List, [], ◌∷◌, ◌++◌, All, arith,
}
use go_agile_pool.Prelude.Run.{ok, Returns}
use go_agile_pool.Idle.LinkedList.{Node, Nodes, write, load, set_next, set_prev, found_node}

pub differ_sym : (a b : ℕ) → (a == b) ≡ false → (b == a) ≡ false
differ_sym a b h = ground arith

module _ {A : Type 0} where
  -- The pointer to a chain, and the pointer to its last node
  abbrev pub first : List (ℕ × A) → Option ℕ → Option ℕ
  first [] n = n
  first ((a, v) ∷ xs) n = some a

  abbrev pub last : Option ℕ → List (ℕ × A) → Option ℕ
  last b [] = b
  last b ((a, v) ∷ xs) = last (some a) xs

  -- The nodes of a chain, with what comes before it and after it
  abbrev pub Linked : Nodes A → Option ℕ → List (ℕ × A) → Option ℕ → Type 0
  Linked nodes b [] n = Unit
  Linked nodes b ((a, v) ∷ xs) n =
      (nodes a ≡ some (record { val = v; next = first xs n; prev = b }))
      × Linked nodes (some a) xs n

  -- An address is none of a chain's.
  abbrev pub Outside : ℕ → List (ℕ × A) → Type 0
  Outside a = All (λ c. (a == c.0) ≡ false)

  abbrev pub Distinct : List (ℕ × A) → Type 0
  Distinct [] = Unit
  Distinct ((a, v) ∷ xs) = Outside a xs × Distinct xs

  -- Only a chain's nodes have changed.
  abbrev pub Frame : Nodes A → Nodes A → List (ℕ × A) → Type 0
  Frame old new xs = (a : ℕ) → Outside a xs → new a ≡ old a

  pub first-append :
      (xs ys : List (ℕ × A)) (n : Option ℕ) → first (xs ++ ys) n ≡ first xs (first ys n)
  first-append [] ys n = refl
  first-append (x ∷ xs) ys n = refl

  pub last-append : (b : Option ℕ) (xs ys : List (ℕ × A)) → last b (xs ++ ys) ≡ last (last b xs) ys
  last-append b [] ys = refl
  last-append b ((a, v) ∷ xs) ys = last-append (some a) xs ys

  pub Linked-append :
      (nodes : Nodes A) (b n : Option ℕ) (xs ys : List (ℕ × A))
      → Linked nodes b xs (first ys n)
      → Linked nodes (last b xs) ys n
      → Linked nodes b (xs ++ ys) n
  Linked-append nodes b n [] ys h k = k
  Linked-append nodes b n ((a, v) ∷ xs) ys (e, h) k = (
    e ∙ ap (λ m. some (record { val = v; next = m; prev = b })) (sym (first-append xs ys n)),
    Linked-append nodes (some a) n xs ys h k,
  )

  pub Linked-split :
      (nodes : Nodes A) (b n : Option ℕ) (xs ys : List (ℕ × A))
      → Linked nodes b (xs ++ ys) n
      → Linked nodes b xs (first ys n) × Linked nodes (last b xs) ys n
  Linked-split nodes b n [] ys h = (tt, h)
  Linked-split nodes b n ((a, v) ∷ xs) ys (e, h) =
      let (l, r) = Linked-split nodes (some a) n xs ys h in
      ((e ∙ ap (λ m. some (record { val = v; next = m; prev = b })) (first-append xs ys n), l), r)

  -- Nodes that stay the same keep a chain.
  pub Linked-Frame :
      (old new : Nodes A) (b n : Option ℕ) (xs zs : List (ℕ × A))
      → Frame old new zs
      → All (λ c. Outside c.0 zs) xs
      → Linked old b xs n
      → Linked new b xs n
  Linked-Frame old new b n [] zs f o h = tt
  Linked-Frame old new b n ((a, v) ∷ xs) zs f (o, os) (e, h) =
      (f a o ∙ e, Linked-Frame old new (some a) n xs zs f os h)

  pub write-Frame :
      (a : ℕ) (x : Node A) (v : A) (nodes : Nodes A) → Frame nodes (write a x nodes) ((a, v) ∷ [])
  unfolding write
  write-Frame a x v nodes b (o, _) = ground arith

  pub write_same : (a : ℕ) (x : Node A) (nodes : Nodes A) → write a x nodes a ≡ some x
  unfolding write
  write_same a x nodes = ground arith

  pub load_at :
      (a : ℕ) (nodes : Nodes A) (x : Node A) → nodes a ≡ some x → load (some a) nodes ≡ ok x
  unfolding load found_node
  load_at a nodes x e = rw e refl

  pub set_next_at :
      (a : ℕ) (q : Option ℕ) (nodes : Nodes A) (x : Node A)
      → nodes a ≡ some x
      → set_next (some a) q nodes ≡ ok (write a (record x { next = q }) nodes)
  unfolding set_next
  set_next_at a q nodes x e = rw (load_at a nodes x e) refl

  pub set_prev_at :
      (a : ℕ) (q : Option ℕ) (nodes : Nodes A) (x : Node A)
      → nodes a ≡ some x
      → set_prev (some a) q nodes ≡ ok (write a (record x { prev = q }) nodes)
  unfolding set_prev
  set_prev_at a q nodes x e = rw (load_at a nodes x e) refl

  -- A written node is all that has changed.
  pub write_outside :
      (a : ℕ) (x : Node A) (nodes : Nodes A) (v : A) (xs : List (ℕ × A))
      → Frame nodes (write a x nodes) ((a, v) ∷ xs)
  unfolding write
  write_outside a x nodes v xs b (o, _) = rw (differ_sym b a o) refl

  pub Outside-each :
      (a : ℕ) (v : A) (xs : List (ℕ × A)) → Outside a xs → All (λ c. Outside c.0 ((a, v) ∷ [])) xs
  Outside-each a v [] h = tt
  Outside-each a v (c ∷ xs) (o, h) = ((differ_sym a c.0 o, tt), Outside-each a v xs h)

  -- `last.next = q`, for the last node of a chain that is not empty
  pub set_next-last :
      (nodes : Nodes A) (b n q : Option ℕ) (c : ℕ × A) (xs : List (ℕ × A))
      → Distinct (c ∷ xs)
      → Linked nodes b (c ∷ xs) n
      → Returns
          (λ (new : Nodes A). Linked new b (c ∷ xs) q × Frame nodes new (c ∷ xs))
          (set_next (last b (c ∷ xs)) q nodes)
  set_next-last nodes b n q (a, v) [] d (e, _) =
      (_, set_next_at a q nodes _ e, ((write_same a _ nodes, tt), write_outside a _ nodes v []))
  set_next-last nodes b n q (a, v) (y ∷ xs) (o, d) (e, h) =
      let (new, r, (l, f)) = set_next-last nodes (some a) n q y xs d h in
      (new, r, ((f a o ∙ e, l), λ z (_, oz). f z oz))

  -- `first.prev = p`, for the first node of a chain that is not empty
  pub set_prev-first :
      (nodes : Nodes A) (b n p : Option ℕ) (c : ℕ × A) (xs : List (ℕ × A))
      → Distinct (c ∷ xs)
      → Linked nodes b (c ∷ xs) n
      → Returns
          (λ (new : Nodes A). Linked new p (c ∷ xs) n × Frame nodes new (c ∷ xs))
          (set_prev (some c.0) p nodes)
  set_prev-first nodes b n p (a, v) xs (o, d) (e, h) = (
    _,
    set_prev_at a p nodes _ e,
    (
      (
        write_same a _ nodes,
        Linked-Frame nodes _ (some a) n xs ((a, v) ∷ []) (write_outside a _ nodes v [])
            (Outside-each a v xs o) h,
      ),
      write_outside a _ nodes v xs,
    ),
  )
