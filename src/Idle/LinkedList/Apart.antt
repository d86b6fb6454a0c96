-- ===== src/Idle/LinkedList/Apart.antt =====
-- Chains at different addresses.
use go_agile_pool.Prelude.{
  ℕ, ◌≡◌, false, ◌==◌, ◌<◌, List, [], ◌∷◌, ◌++◌, All, All-map, All-append, All-append_left,
  All-append_right, arith,
}
use go_agile_pool.Idle.LinkedList.Segment.{Outside, Distinct, differ_sym}

-- A fresh address is not in use.
below_differs : (a f : ℕ) → a < f → (f == a) ≡ false
below_differs a f h = ground arith

module _ {A : Type 0} where
  abbrev pub Apart : List (ℕ × A) → List (ℕ × A) → Type 0
  Apart xs ys = All (λ c. Outside c.0 ys) xs

  pub Distinct-split :
      (xs ys : List (ℕ × A)) → Distinct (xs ++ ys) → Distinct xs × Distinct ys × Apart xs ys
  Distinct-split [] ys d = (tt, d, tt)
  Distinct-split ((a, v) ∷ xs) ys (o, d) =
      let (l, r, p) = Distinct-split xs ys d in
      let P = λ (c : ℕ × A). (a == c.0) ≡ false in
      ((All-append_left P xs ys o, l), r, (All-append_right P xs ys o, p))

  pub Distinct-join :
      (xs ys : List (ℕ × A)) → Distinct xs → Distinct ys → Apart xs ys → Distinct (xs ++ ys)
  Distinct-join [] ys d e p = e
  Distinct-join ((a, v) ∷ xs) ys (o, d) e (q, p) =
      (All-append (λ (c : ℕ × A). (a == c.0) ≡ false) xs ys o q, Distinct-join xs ys d e p)

  Outside-Apart :
      (a : ℕ) (v : A) (xs ys : List (ℕ × A)) → Outside a xs → Apart xs ys → Apart xs ((a, v) ∷ ys)
  Outside-Apart a v [] ys o p = tt
  Outside-Apart a v (c ∷ xs) ys (e, o) (q, p) =
      ((differ_sym a c.0 e, q), Outside-Apart a v xs ys o p)

  Apart-nil : (xs : List (ℕ × A)) → Apart xs []
  Apart-nil [] = tt
  Apart-nil (c ∷ xs) = (tt, Apart-nil xs)

  pub Apart-sym : (xs ys : List (ℕ × A)) → Apart xs ys → Apart ys xs
  Apart-sym [] ys p = Apart-nil ys
  Apart-sym ((a, v) ∷ xs) ys (o, p) = Outside-Apart a v ys xs o (Apart-sym xs ys p)

  -- One cell taken out of the middle
  pub Distinct-middle :
      (a : ℕ) (v : A) (xs ys : List (ℕ × A))
      → Distinct (xs ++ (a, v) ∷ ys)
      → Outside a xs × Outside a ys × Distinct xs × Distinct ys × Apart xs ys
  Distinct-middle a v xs ys d =
      let (l, (o, r), p) = Distinct-split xs ((a, v) ∷ ys) d in
      let P = λ (c : ℕ × A). Outside c.0 ((a, v) ∷ ys) in
      (
        All-map P (λ (c : ℕ × A). (a == c.0) ≡ false) xs (λ c h. differ_sym c.0 a h.0) p,
        o,
        l,
        r,
        All-map P (λ (c : ℕ × A). Outside c.0 ys) xs (λ c h. h.1) p,
      )

  pub Outside-fresh : (f : ℕ) (xs : List (ℕ × A)) → All (λ c. c.0 < f) xs → Outside f xs
  Outside-fresh f [] h = tt
  Outside-fresh f (c ∷ xs) (b, h) = (below_differs c.0 f b, Outside-fresh f xs h)
