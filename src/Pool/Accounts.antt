-- ===== src/Pool/Accounts.antt =====
-- What the counters of a pool say in every state that it reaches.
use go_agile_pool.Prelude.{
  ℕ, zero, suc, ◌+◌, ◌≡◌, refl, subst, Bool-cases, inl, inr, some, List, [], ◌∷◌, ◌++◌, arith,
}
use go_agile_pool.Prelude.Int.{ℤ, pos, ◌+ℤ◌, ◌-ℤ◌, ltb_ℤ}
use go_agile_pool.Config.{WorkMode}
use go_agile_pool.Pool.{Shared, Phase, submit_added, Ready, advance, started, start_worker}
use go_agile_pool.Pool.Weights.{
  queued, pending_weight, wg_weight, running_weight, sum, Balanced, Balanced-at, AfterStep,
}
use go_agile_pool.Pool.Balance.{advance-Balanced}
use go_agile_pool.Pool.Step.{
  ScalerPhase, waiting, at_lock, loaded, spawning, System, actual_spawn, popped_idle, scale, Step,
  submits, closes, ticks, scales, runs, Reachable, here, after,
}

pub sum-append :
    {T : Type 0} (weight : Phase T → ℕ) (xs ys : List (Phase T))
    → sum weight (xs ++ ys) ≡ sum weight xs + sum weight ys
unfolding sum
sum-append weight [] ys = omega arith
sum-append weight (x ∷ xs) ys = let ih = sum-append weight xs ys in omega arith

-- The workers that the scaler has counted and not yet started
unfoldable pub scaler_weight : ScalerPhase → ℕ
scaler_weight (spawning n) = n
scaler_weight _ = 0

-- A caller of submit between `pendingTasks` and the wait group
abbrev pub entering : {T : Type 0} → Phase T → ℕ
entering (submit_added t) = 1
entering _ = 0

-- Where the wait group counts nothing, the pending tasks are those of such callers.
weight-entering : {T : Type 0} (ph : Phase T) → wg_weight ph ≡ 0 → pending_weight ph ≡ entering ph
unfolding wg_weight pending_weight
weight-entering ph h = ground arith

sum-entering :
    {T : Type 0} (phs : List (Phase T))
    → sum wg_weight phs ≡ 0
    → sum pending_weight phs ≡ sum entering phs
unfolding sum
sum-entering [] h = refl
sum-entering (ph ∷ phs) h =
    omega (arith, weight-entering ph (omega (arith, h)), sum-entering phs (omega (arith, h)))

module _ {T : Type 0} where
  -- The counters agree with what the goroutines have in hand and what is queued.
  unfoldable pub IsAccounted : System T → Type 0
  IsAccounted m =
      Balanced m.shared (sum pending_weight m.threads) (sum wg_weight m.threads)
        (sum running_weight m.threads + scaler_weight m.scaler)

  module _ (mode : WorkMode) (per_shard_cap : ℕ) (capacity : ℤ) where
    scale-IsAccounted :
        (s : Shared T) (z : ScalerPhase) (phs : List (Phase T))
        → IsAccounted (record { shared = s; scaler = z; threads = phs })
        → let (s', z', new) = scale mode per_shard_cap capacity z s in
          IsAccounted (record { shared = s'; scaler = z'; threads = new ++ phs })
    unfolding scale IsAccounted scaler_weight started start_worker popped_idle sum pending_weight
        wg_weight running_weight queued ◌+ℤ◌ ◌-ℤ◌
    scale-IsAccounted s waiting phs h = h
    scale-IsAccounted s (at_lock n) phs h = h
    scale-IsAccounted s (loaded n current) phs h =
        elim (Bool-cases (ltb_ℤ (pos 0) (actual_spawn capacity n current))) [
          | inl some_room ↦ simp some_room (record {
            pending = h.pending;
            group = h.group;
            running = ground arith;
            sharded = h.sharded;
          })
          | inr no_room ↦ simp no_room h
        ]
    scale-IsAccounted s (spawning zero) phs h = h
    scale-IsAccounted s (spawning (suc n)) phs h = record {
      pending = ground arith;
      group = ground arith;
      running = ground arith;
      sharded = h.sharded;
    }

    -- A goroutine's step, seen beside the others.
    run-IsAccounted :
        (rd : Ready) (before rest phs : List (Phase T)) (ph : Phase T) (s s' : Shared T)
        (z : ScalerPhase)
        → advance mode per_shard_cap rd ph s ≡ some (s', phs)
        → IsAccounted (record { shared = s; scaler = z; threads = before ++ ph ∷ rest })
        → IsAccounted (record { shared = s'; scaler = z; threads = before ++ phs ++ rest })
    unfolding IsAccounted AfterStep sum
    run-IsAccounted rd before rest phs ph s s' z e h =
        let p = sum pending_weight before + sum pending_weight rest in
        let w = sum wg_weight before + sum wg_weight rest in
        let r = sum running_weight before + sum running_weight rest + scaler_weight z in
        let a = sum-append pending_weight before (ph ∷ rest) in
        let b = sum-append wg_weight before (ph ∷ rest) in
        let c = sum-append running_weight before (ph ∷ rest) in
        let a' = sum-append pending_weight (before ++ phs) rest in
        let b' = sum-append wg_weight (before ++ phs) rest in
        let c' = sum-append running_weight (before ++ phs) rest in
        let a'' = sum-append pending_weight before phs in
        let b'' = sum-append wg_weight before phs in
        let c'' = sum-append running_weight before phs in
        let seen =
          Balanced-at s _ _ _ (pending_weight ph + p) (wg_weight ph + w) (running_weight ph + r) h
            (omega arith) (omega arith) (omega arith) in
        let moved =
          subst (AfterStep p w r) e (advance-Balanced mode per_shard_cap rd ph s p w r seen) in
        Balanced-at s' _ _ _ _ _ _ moved (omega arith) (omega arith) (omega arith)

    pub Step-IsAccounted :
        (m n : System T) → Step mode per_shard_cap capacity m n → IsAccounted m → IsAccounted n
    unfolding IsAccounted sum pending_weight wg_weight running_weight scaler_weight
    Step-IsAccounted _ _ (submits t s z phs) h =
        Balanced-at s _ _ _ _ _ _ h (omega arith) (omega arith) (omega arith)
    Step-IsAccounted _ _ (closes s z phs) h =
        Balanced-at s _ _ _ _ _ _ h (omega arith) (omega arith) (omega arith)
    Step-IsAccounted _ _ (ticks n s phs) h = h
    Step-IsAccounted _ _ (scales s z phs) h = scale-IsAccounted s z phs h
    Step-IsAccounted _ _ (runs rd before rest phs ph s s' z e) h =
        run-IsAccounted rd before rest phs ph s s' z e h

    -- In every state that is reached from an accounted one, however the goroutines interleave and
    -- whatever the channels, the closing and the cancellations do: `pendingTasks` is the number of
    -- submitted tasks that are queued or in a goroutine's hands, the wait group counts the same
    -- tasks up to its own step, and `runningWorkersNum` is the number of workers that run or are
    -- about to be started.
    pub reachable-IsAccounted :
        (m n : System T) → IsAccounted m → Reachable mode per_shard_cap capacity m n → IsAccounted n
    reachable-IsAccounted m _ h here = h
    reachable-IsAccounted m n h (after {m = k} reached step) =
        Step-IsAccounted k n step (reachable-IsAccounted m k h reached)

    -- `Wait` returns when the wait group is at 0. Then, in every reached state, no task is queued, no
    -- goroutine has a task in hand that the wait group counts, and `pendingTasks` is exactly the
    -- number of callers of submit that have added to it and have not yet added to the wait group.
    pub wait-drained :
        (m n : System T)
        → IsAccounted m
        → Reachable mode per_shard_cap capacity m n
        → n.shared.wg ≡ pos 0
        → (queued n.shared ≡ 0)
          × (sum wg_weight n.threads ≡ 0)
          × (n.shared.pending_tasks ≡ pos (sum entering n.threads))
    unfolding IsAccounted
    wait-drained m n h reached idle =
        let a = reachable-IsAccounted m n h reached in
        let none_left : sum wg_weight n.threads + queued n.shared ≡ 0 = ground (arith, a.group) in
        let rest = sum-entering n.threads (omega (arith, none_left)) in
        (
          omega (arith, none_left),
          omega (arith, none_left),
          ground (arith, a.pending, none_left, rest),
        )
