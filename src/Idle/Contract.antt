-- ===== src/Idle/Contract.antt =====
-- internal/idle/idle.go, IdleContainer: the operations of a container, and what the pool relies on:
-- which elements a container holds, whatever their order.
use mathlib.Core.Path.{fun_ext}
use mathlib.Core.List.{Permᴰ, append-nil}
use mathlib.Core.List.Permᴰ as PermOf
use go_agile_pool.Prelude.{
  ℕ, ◌+◌, ◌-◌, ◌≤◌, arith, ◌≡◌, refl, sym, subst, Bool, true, false, Bool-cases, inl, inr,
  if◌then◌else◌, Option, none, some, List, [], ◌∷◌, ◌++◌, length, keep, head?, tail,
}
use go_agile_pool.Prelude.Run.{Run, Returns}
use go_agile_pool.Idle.{Dated, after, survives, unexpired}

same_test : (t now expiry : ℕ) → expiry ≤ now → after (t + expiry) now ≡ after t (now - expiry)
same_test t now expiry past = ground arith

module _ {A : Type 0} ⦃d : Dated A⦄ where
  -- The two ways to test an expiry, where a clock reading is past it
  pub same_tests :
      (now expiry : ℕ) → expiry ≤ now → unexpired {A = A} now expiry ≡ survives now expiry
  same_tests now expiry past = fun_ext (λ v. same_test (d.dated_time v) now expiry past)

-- `IdleContainer`, with the constructor of a type that has it
pub record IdleContainer (A : Type 0) : Type 1 where
  pub Container : Type 0
  pub new : Run Container
  pub add : Container → A → Run Container
  pub pop : Container → Run (Option A × Container)
  pub remove_expired : Container → (now expiry : ℕ) → Run (ℕ × Container)
  pub len : Container → ℕ

-- What is left when an element is taken; nil only where there is none
abbrev pub Taken : {A : Type 0} → List A → Option A → List A → Type 0
Taken xs none ys = (xs ≡ []) × (ys ≡ [])
Taken xs (some x) ys = Permᴰ xs (x ∷ ys)

-- No operation panics, and each does to the elements held what its comment says. A clock reading is
-- past any expiry.
pub record Fulfils {A : Type 0} ⦃d : Dated A⦄ (ic : IdleContainer A) : Type 1 where
  pub Holds : ic.Container → List A → Type 0
  pub new_holds : Returns (λ c. Holds c []) ic.new
  pub add_holds :
      (c : ic.Container) (xs : List A) (w : A)
      → Holds c xs
      → Returns (λ c'. (ys : List A) × Holds c' ys × Permᴰ ys (w ∷ xs)) (ic.add c w)
  pub pop_holds :
      (c : ic.Container) (xs : List A)
      → Holds c xs
      → Returns (λ (x, c'). (ys : List A) × Holds c' ys × Taken xs x ys) (ic.pop c)
  pub remove_expired_holds :
      (c : ic.Container) (xs : List A) (now expiry : ℕ)
      → expiry ≤ now
      → Holds c xs
      → Returns
          (λ (n, c').
            (ys : List A) × Holds c' ys
            × Permᴰ ys (keep (survives now expiry) xs)
            × (n + length ys ≡ length xs))
          (ic.remove_expired c now expiry)
  pub len_holds : (c : ic.Container) (xs : List A) → Holds c xs → ic.len c ≡ length xs

-- A container that holds its elements in the order of a queue
pub record IsFifo {A : Type 0} ⦃d : Dated A⦄ (ic : IdleContainer A) : Type 1 where
  pub Queue : ic.Container → List A → Type 0
  pub new_queue : Returns (λ c. Queue c []) ic.new
  pub add_queue :
      (c : ic.Container) (xs : List A) (w : A)
      → Queue c xs
      → Returns (λ c'. Queue c' (xs ++ w ∷ [])) (ic.add c w)
  pub pop_queue :
      (c : ic.Container) (xs : List A)
      → Queue c xs
      → Returns (λ (x, c'). (x ≡ head? xs) × Queue c' (tail xs)) (ic.pop c)
  pub remove_expired_queue :
      (c : ic.Container) (xs : List A) (now expiry : ℕ)
      → expiry ≤ now
      → Queue c xs
      → Returns
          (λ (n, c').
            Queue c' (keep (survives now expiry) xs)
            × (n + length (keep (survives now expiry) xs) ≡ length xs))
          (ic.remove_expired c now expiry)
  pub len_queue : (c : ic.Container) (xs : List A) → Queue c xs → ic.len c ≡ length xs

module _ {A : Type 0} where
  -- A test and its opposite share a list out between them.
  pub keep_both-perm :
      (p q : A → Bool) (xs : List A)
      → ((x : A) → (if p x then false else true) ≡ q x)
      → Permᴰ (keep p xs ++ keep q xs) xs
  keep_both-perm p q [] h = PermOf.refl []
  keep_both-perm p q (x ∷ xs) h = elim (Bool-cases (p x)) [
    | inl e ↦ rw (e, ← h x, e) (Permᴰ.cons refl (keep_both-perm p q xs h))
    | inr e ↦
        rw (e, ← h x, e)
          (Permᴰ.trans (PermOf.middle x (keep p xs) (keep q xs))
            (Permᴰ.cons refl (keep_both-perm p q xs h)))
  ]

  append-perm : (xs : List A) (w : A) → Permᴰ (xs ++ w ∷ []) (w ∷ xs)
  append-perm xs w =
      subst (λ ys. Permᴰ (xs ++ w ∷ []) (w ∷ ys)) (append-nil xs) (PermOf.middle w xs [])

  first-Taken : (xs : List A) → Taken xs (head? xs) (tail xs)
  first-Taken [] = (refl, refl)
  first-Taken (x ∷ xs) = PermOf.refl (x ∷ xs)

  pub Taken-head : (xs : List A) (x : Option A) → x ≡ head? xs → Taken xs x (tail xs)
  Taken-head xs x e = subst (λ o. Taken xs o (tail xs)) (sym e) (first-Taken xs)

module _ {A : Type 0} ⦃d : Dated A⦄ {ic : IdleContainer A} where
  pub IsFifo-Fulfils : IsFifo ic → Fulfils ic
  IsFifo-Fulfils q = record {
    Holds = q.Queue;
    new_holds = q.new_queue;
    add_holds = λ c xs w h.
        let (c', run, k) = q.add_queue c xs w h in (c', run, (xs ++ w ∷ [], k, append-perm xs w));
    pop_holds = λ c xs h.
        let (r, run, (x, k)) = q.pop_queue c xs h in (r, run, (tail xs, k, Taken-head xs r.0 x));
    remove_expired_holds = λ c xs now expiry past h.
        let (r, run, (k, n)) = q.remove_expired_queue c xs now expiry past h in
        (
          r,
          run,
          (keep (survives now expiry) xs, k, PermOf.refl (keep (survives now expiry) xs), n),
        );
    len_holds = q.len_queue;
  }
