-- ===== src/Parking/Conserved.antt =====
-- No worker is lost or started twice.
use mathlib.Core.List.{Permᴰ, append_assoc}
use mathlib.Core.List.Permᴰ as PermOf
use go_agile_pool.Prelude.{
  ℕ, suc, ◌+◌, ◌≤◌, ◌≡◌, refl, sym, ap, ◌∙◌, subst, true, Bool, Option, none, some, List, [], ◌∷◌,
  ◌++◌, length, keep, All, All-append, All-map, not, All-keep', arith,
}
use go_agile_pool.Prelude.Run.{ok, Returns}
use go_agile_pool.Idle.{Dated, survives}
use go_agile_pool.Idle.Contract.{IdleContainer, Fulfils, Taken, keep_both-perm}
use go_agile_pool.Parking.{
  idle_expiry, Parking, Use, parks, cleans, starts, cold_starts, allocate, add_to_idle, clean_tick,
  started_with, start_one, use_idle, use_all,
}

-- The workers parked in some uses, on top of earlier ones
abbrev pub all_parked : {W : Type 0} → List (Use W) → List W → List W
all_parked [] ws = ws
all_parked (parks w ∷ us) ws = all_parked us (w ∷ ws)
all_parked (cleans now ∷ us) ws = all_parked us ws
all_parked (starts ∷ us) ws = all_parked us ws
all_parked (cold_starts ∷ us) ws = all_parked us ws

abbrev pub all_starts : {W : Type 0} → List (Use W) → ℕ
all_starts [] = 0
all_starts (parks w ∷ us) = all_starts us
all_starts (cleans now ∷ us) = all_starts us
all_starts (starts ∷ us) = suc (all_starts us)
all_starts (cold_starts ∷ us) = suc (all_starts us)

-- The cleaner's clock reads past the expiry, and at most a last time.
abbrev pub CleansBy : {W : Type 0} → ℕ → List (Use W) → Type 0
CleansBy last [] = Unit
CleansBy last (parks w ∷ us) = CleansBy last us
CleansBy last (cleans now ∷ us) = (idle_expiry ≤ now) × (now ≤ last) × CleansBy last us
CleansBy last (starts ∷ us) = CleansBy last us
CleansBy last (cold_starts ∷ us) = CleansBy last us

module _ {W : Type 0} ⦃d : Dated W⦄ {ic : IdleContainer W} (law : Fulfils ic) where
  -- All the workers that were ever parked: those that are idle, those that the cleaner dropped, and
  -- those that were started again.
  pub record Accounts (last : ℕ) (p : Parking ic) (seen : List W) : Type 0 where
    pub idle : List W
    pub dropped : List W
    pub held : law.Holds p.idle_works idle
    pub expired : All (λ w. d.dated_time w + idle_expiry ≤ last) dropped
    pub shared_out : Permᴰ (idle ++ (dropped ++ p.reused)) seen

  -- No worker is started.
  abbrev Unmoved : Parking ic → Parking ic → Type 0
  Unmoved p p' = (p'.reused ≡ p.reused) × (p'.worker_create_count ≡ p.worker_create_count)

  parks-Accounts :
      (last : ℕ) (w : W) (p : Parking ic) (seen : List W)
      → Accounts last p seen
      → Returns (λ p'. Accounts last p' (w ∷ seen) × Unmoved p p') (add_to_idle w p)
  unfolding add_to_idle
  parks-Accounts last w p seen a =
      let (c, run, (ys, h, q)) = law.add_holds p.idle_works a.idle w a.held in
      (
        record p { idle_works = c },
        rw run refl,
        (
          record {
            idle = ys;
            dropped = a.dropped;
            held = h;
            expired = a.expired;
            shared_out =
                Permᴰ.trans (PermOf.append_right (a.dropped ++ p.reused) q)
                  (Permᴰ.cons refl a.shared_out);
          },
          (refl, refl),
        ),
      )

  -- One worker goes from the idle ones to those started.
  start_perm :
      (w : W) (idle ys dropped reused : List W)
      → Permᴰ idle (w ∷ ys)
      → Permᴰ (ys ++ (dropped ++ w ∷ reused)) (idle ++ (dropped ++ reused))
  start_perm w idle ys dropped reused q =
      Permᴰ.trans (PermOf.append_left ys (PermOf.middle w dropped reused)) (
        Permᴰ.trans (PermOf.middle w ys (dropped ++ reused))
          (PermOf.append_right (dropped ++ reused) (PermOf.symm q)))

  started_with-Accounts :
      (last : ℕ) (w : Option W) (c : ic.Container) (p : Parking ic) (seen ys : List W)
      → (a : Accounts last p seen) → law.Holds c ys
      → Taken a.idle w ys
      → Accounts last (started_with w c p) seen
        × (length (started_with w c p).reused + (started_with w c p).worker_create_count
            ≡ suc (length p.reused + p.worker_create_count))
  unfolding started_with allocate
  started_with-Accounts last none c p seen ys a h (e, f) = (
    record {
      idle = ys;
      dropped = a.dropped;
      held = h;
      expired = a.expired;
      shared_out =
          subst (λ zs. Permᴰ (zs ++ (a.dropped ++ p.reused)) seen) (e ∙ sym f) a.shared_out;
    },
    omega arith,
  )
  started_with-Accounts last (some w) c p seen ys a h q = (
    record {
      idle = ys;
      dropped = a.dropped;
      held = h;
      expired = a.expired;
      shared_out = Permᴰ.trans (start_perm w a.idle ys a.dropped p.reused q) a.shared_out;
    },
    omega arith,
  )

  starts-Accounts :
      (last : ℕ) (p : Parking ic) (seen : List W)
      → Accounts last p seen
      → Returns
          (λ p'.
            Accounts last p' seen
            × (length p'.reused + p'.worker_create_count
                ≡ suc (length p.reused + p.worker_create_count)))
          (start_one p)
  unfolding start_one
  starts-Accounts last p seen a =
      let ((w, c), run, (ys, h, q)) = law.pop_holds p.idle_works a.idle a.held in
      (started_with w c p, rw run refl, started_with-Accounts last w c p seen ys a h q)

  -- Those that the cleaner drops
  abbrev drops : ℕ → W → Bool
  drops now w = not (survives now idle_expiry w)

  drops-expired :
      (now last : ℕ) (xs : List W)
      → idle_expiry ≤ now
      → now ≤ last
      → All (λ w. d.dated_time w + idle_expiry ≤ last) (keep (drops now) xs)
  drops-expired now last xs past l =
      All-map (λ w. drops now w ≡ true) (λ w. d.dated_time w + idle_expiry ≤ last)
        (keep (drops now) xs) (λ w e. ground arith) (All-keep' (drops now) xs)

  regroup :
      (ys ks dropped reused : List W)
      → ys ++ ((ks ++ dropped) ++ reused) ≡ (ys ++ ks) ++ (dropped ++ reused)
  regroup ys ks dropped reused = simp append_assoc

  cleans-Accounts :
      (last now : ℕ) (p : Parking ic) (seen : List W)
      → idle_expiry ≤ now
      → now ≤ last
      → Accounts last p seen
      → Returns (λ p'. Accounts last p' seen × Unmoved p p') (clean_tick now p)
  unfolding clean_tick
  cleans-Accounts last now p seen past l a =
      let ((n, c), run, (ys, h, q, count)) =
        law.remove_expired_holds p.idle_works a.idle now idle_expiry past a.held in
      let ks = keep (drops now) a.idle in
      let both =
        Permᴰ.trans (PermOf.append_right ks q)
          (keep_both-perm (survives now idle_expiry) (drops now) a.idle (λ w. ground arith)) in
      (
        record p { idle_works = c },
        rw run refl,
        (
          record {
            idle = ys;
            dropped = ks ++ a.dropped;
            held = h;
            expired =
                All-append (λ w. d.dated_time w + idle_expiry ≤ last) ks a.dropped
                  (drops-expired now last a.idle past l) a.expired;
            shared_out =
                subst (λ zs. Permᴰ zs seen) (sym (regroup ys ks a.dropped p.reused))
                  (Permᴰ.trans (PermOf.append_right (a.dropped ++ p.reused) both) a.shared_out);
          },
          (refl, refl),
        ),
      )

  allocate-Accounts :
      (last : ℕ) (p : Parking ic) (seen : List W)
      → Accounts last p seen
      → Accounts last (allocate p) seen
  unfolding allocate
  allocate-Accounts last p seen a = record {
    idle = a.idle;
    dropped = a.dropped;
    held = a.held;
    expired = a.expired;
    shared_out = a.shared_out;
  }

  use_all-Accounts :
      (last : ℕ) (us : List (Use W)) (p : Parking ic) (seen : List W)
      → CleansBy last us
      → Accounts last p seen
      → Returns
          (λ p'.
            Accounts last p' (all_parked us seen)
            × (length p'.reused + p'.worker_create_count
                ≡ length p.reused + p.worker_create_count + all_starts us))
          (use_all us p)
  unfolding use_all use_idle allocate
  use_all-Accounts last [] p seen b a = (p, refl, (a, omega arith))
  use_all-Accounts last (parks w ∷ us) p seen b a =
      let (p1, run, (a1, same)) = parks-Accounts last w p seen a in
      let (p', run', (a', c')) = use_all-Accounts last us p1 (w ∷ seen) b a1 in
      (p', rw run run', (a', omega (arith, c', ap length same.0, same.1)))
  use_all-Accounts last (cleans now ∷ us) p seen (past, l, b) a =
      let (p1, run, (a1, same)) = cleans-Accounts last now p seen past l a in
      let (p', run', (a', c')) = use_all-Accounts last us p1 seen b a1 in
      (p', rw run run', (a', omega (arith, c', ap length same.0, same.1)))
  use_all-Accounts last (starts ∷ us) p seen b a =
      let (p1, run, (a1, c1)) = starts-Accounts last p seen a in
      let (p', run', (a', c')) = use_all-Accounts last us p1 seen b a1 in
      (p', rw run run', (a', omega (arith, c', c1)))
  use_all-Accounts last (cold_starts ∷ us) p seen b a =
      let (p', run', (a', c')) =
        use_all-Accounts last us (allocate p) seen b (allocate-Accounts last p seen a) in
      (p', run', (a', omega (arith, c')))

  -- In a new pool, however the uses of the idle container follow one another, none of them panics;
  -- the workers that were ever parked are exactly those that are idle, those that the cleaner
  -- dropped and those that were started again, each as often as it was parked; the dropped ones had
  -- been inactive for a second by the cleaner's last time; and each start, by the scaler or cold,
  -- has started one worker, from the container or new.
  pub new_pool-Accounts :
      (last : ℕ) (us : List (Use W)) (c : ic.Container)
      → ic.new ≡ ok c
      → CleansBy last us
      → Returns
          (λ p'.
            Accounts last p' (all_parked us [])
            × (length p'.reused + p'.worker_create_count ≡ all_starts us))
          (use_all us (record { idle_works = c; reused = []; worker_create_count = 0 }))
  new_pool-Accounts last us c e b =
      let (c0, e0, h) = law.new_holds in
      let same : c0 ≡ c = cc (e0, e) in
      let (p', run, (a, n)) =
        use_all-Accounts last us (record { idle_works = c; reused = []; worker_create_count = 0 })
          [] b
          (record {
            idle = [];
            dropped = [];
            held = subst (λ k. law.Holds k []) same h;
            expired = tt;
            shared_out = Permᴰ.nil;
          }) in
      (p', run, (a, omega (arith, n)))
