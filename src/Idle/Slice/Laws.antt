-- ===== src/Idle/Slice/Laws.antt =====
-- A slice against the queue of its workers.
use go_agile_pool.Prelude.{
  ℕ, ◌+◌, ◌-◌, ◌≡◌, refl, false, List, [], ◌∷◌, ◌++◌, Bool, ◌==◌, length, keep, head?, tail,
  length-append, length-keep-le, arith, ◌≤◌,
}
use go_agile_pool.Prelude.Run.{Returns}
use go_agile_pool.Idle.{Dated, after, survives}
use go_agile_pool.Idle.Slice.{Slice, new_slice, add, pop, survivors, remove_expired}

module _ {A : Type 0} where
  abbrev pub IsValid : Slice A → Type 0
  IsValid s = s.len ≡ length s.workers

  pub new_slice-IsValid : let s : Slice A = new_slice in IsValid s × (s.workers ≡ [])
  unfolding new_slice
  new_slice-IsValid = (refl, refl)

  -- `Add` keeps the length right and puts the worker at the end.
  pub Slice-add :
      (s : Slice A) (w : A)
      → IsValid s
      → IsValid (add s w) × ((add s w).workers ≡ s.workers ++ w ∷ [])
  unfolding add
  Slice-add s w v = (omega (arith, length-append {0} s.workers (w ∷ [])), refl)

  pop_lem :
      (ws : List A) (n : ℕ)
      → n ≡ length ws
      → Returns
          (λ (x, s'). IsValid s' × (x ≡ head? ws) × (s'.workers ≡ tail ws))
          (pop (record { workers = ws; len = n }))
  unfolding pop
  pop_lem [] n e = rw e (_, refl, (refl, refl, refl))
  pop_lem (w ∷ ws) n e =
      let some_left : (n == 0) ≡ false = ground arith in
      rw some_left (_, refl, (omega arith, refl, refl))

  -- `Pop` on a valid slice does not panic, returns the first worker (nil if there is none) and
  -- leaves the others.
  pub Slice-pop :
      (s : Slice A)
      → IsValid s
      → Returns
          (λ (x, s'). IsValid s' × (x ≡ head? s.workers) × (s'.workers ≡ tail s.workers))
          (pop s)
  Slice-pop s v = pop_lem s.workers s.len v

module _ {A : Type 0} ⦃d : Dated A⦄ where
  survivors_lem : (ws : List A) (c : ℕ) → survivors ws c ≡ keep (λ w. after (d.dated_time w) c) ws
  unfolding survivors
  survivors_lem [] c = refl
  survivors_lem (w ∷ ws) c = rw (survivors_lem ws c)

  keep_same_length : (p : A → Bool) (ws : List A) → length ws ≤ length (keep p ws) → keep p ws ≡ ws
  keep_same_length p [] h = refl
  keep_same_length p (w ∷ ws) h = ground (arith, length-keep-le p ws, keep_same_length p ws)

  -- `RemoveExpired` on a valid slice leaves exactly the workers dated after the cutoff in their
  -- order, keeps the length right, and returns how many it removed.
  pub Slice-remove_expired :
      (s : Slice A) (now expiry : ℕ)
      → IsValid s
      → let (n, s') = remove_expired s now expiry in
        IsValid s'
        × (s'.workers ≡ keep (survives now expiry) s.workers)
        × (n + length s'.workers ≡ length s.workers)
  unfolding remove_expired
  Slice-remove_expired s now expiry v =
      let p : A → Bool = survives now expiry in
      ground (
        arith,
        survivors_lem s.workers (now - expiry),
        length-keep-le p s.workers,
        keep_same_length p s.workers,
      )
