-- ===== src/Scaling/Rescue.antt =====
-- Tasks that no worker will take are not left: the next tick of the scaler starts workers.
use go_agile_pool.Prelude.{
  zero, suc, ◌+◌, Bool, false, All, ◌∷◌, length, ℕ, ◌-◌, ◌^◌, ◌≤◌, ◌<◌, ◌≡◌, refl, sym, ap, ◌∙◌,
  subst, true, some, List, [], ◌++◌, arith,
}
use go_agile_pool.Prelude.Int.{
  ℤ, pos, negsuc, pos_part, neg_part, ◌+ℤ◌, ◌≤ℤ◌, min_ℤ, int_laws, eq_of_parts, -ℤ_parts,
}
use go_agile_pool.Prelude.Float.{Float64}
use go_agile_pool.Config.{Config, WorkMode}
use go_agile_pool.Pool.{scan, started, start_worker, Shared, Phase, is_zero}
use go_agile_pool.Pool.Weights.{queued}
use go_agile_pool.Pool.Step.{
  System, popped_idle, waiting, at_lock, loaded, spawning, actual_spawn, scale,
}
use go_agile_pool.Pool.Accounts.{IsAccounted}
use go_agile_pool.Scaling.{
  Medians, Load, load_of, rate_target, backlog_target, capped, exit_per_tick, decide, spawn_for,
}
use go_agile_pool.Scaling.Growth.{spawn_for-some, lt_pos, min-eq}

pos_of : (a : ℤ) → pos 1 ≤ℤ a → (k : ℕ) × (a ≡ pos k) × (1 ≤ k)
pos_of (pos k) h = (k, refl, omega arith)
pos_of (negsuc k) h = absurd (omega arith)

actual_spawn-pos :
    (capacity : ℤ) (n : ℕ) → pos 1 ≤ℤ capacity → 1 ≤ n → pos 1 ≤ℤ actual_spawn capacity n (pos 0)
actual_spawn-pos capacity n h p = ground (arith, -ℤ_parts capacity (pos 0))

zero_add : (a g : ℤ) → a ≡ pos 0 → a +ℤ g ≡ g
zero_add a g e = eq_of_parts _ _ (omega (int_laws, ap pos_part e, ap neg_part e))

is_zero-zero : (a : ℤ) → a ≡ pos 0 → is_zero a ≡ true
is_zero-zero a e = rw e refl

min-pos : (a b : ℤ) → pos 1 ≤ℤ a → pos 1 ≤ℤ b → pos 1 ≤ℤ min_ℤ a b
min-pos a b h k = ground arith

min-le_right : (a b : ℤ) → min_ℤ a b ≤ℤ b
min-le_right a b = ground arith

min_same : (a : ℤ) → min_ℤ a a ≡ a
min_same a = min-eq a a (omega arith)

module _ (fl : Float64) {H : Type 0} where
  open fl use {F}

  -- What a cold start aims at
  abbrev pub cold_target : Config F H → (total_backlog : ℤ) → ℤ
  cold_target c total_backlog = min_ℤ total_backlog c.worker_num_capacity

  cold_lem :
      (c : Config F H) (m : Medians F) (l : Load) (last target : ℤ)
      → l.running ≡ pos 0
      → pos 1 ≤ℤ l.total_backlog
      → backlog_target fl c m l last target ≡ (l.total_backlog, last)
  unfolding backlog_target
  cold_lem c m l last target r b = rw (lt_pos l.total_backlog b, is_zero-zero l.running r) refl

  capped_lem :
      (c : Config F H) (l : Load) → capped fl c l l.total_backlog ≡ cold_target c l.total_backlog
  unfolding capped
  capped_lem c l = ap (λ z. min_ℤ z c.worker_num_capacity) (min_same l.total_backlog)

  decide-cold :
      (c : Config F H) (m : Medians F) (l : Load) (last : ℤ)
      → l.running ≡ pos 0
      → pos 1 ≤ℤ l.total_backlog
      → pos 1 ≤ℤ c.worker_num_capacity
      → cold_target c l.total_backlog +ℤ exit_per_tick fl c m ≤ℤ pos (2 ^ 63 - 1)
      → (n : ℕ) × (decide fl c m l last ≡ (some n, last)) × (1 ≤ n)
  unfolding decide
  decide-cold c m l last r b room o =
      let g = cold_target c l.total_backlog in
      let e = cold_lem c m l last (rate_target fl m l.running) r b in
      let adds = zero_add l.running g r in
      let fits : l.running +ℤ g ≤ℤ c.worker_num_capacity =
        subst (λ z. z ≤ℤ c.worker_num_capacity) (sym adds)
          (min-le_right l.total_backlog c.worker_num_capacity) in
      let (n, found, one, big) =
        spawn_for-some fl c m l g (min-pos l.total_backlog c.worker_num_capacity b room) fits o in
      let counted = ap (spawn_for fl c m l) (sym adds) ∙ found in
      (n, rw (e, capped_lem c l) (ap (λ z. (z, last)) counted), one)

spawned-min : (capacity : ℤ) (n : ℕ) → actual_spawn capacity n (pos 0) ≡ min_ℤ (pos n) capacity
spawned-min capacity n =
    eq_of_parts (actual_spawn capacity n (pos 0)) (min_ℤ (pos n) capacity)
      (ground (arith, -ℤ_parts capacity (pos 0)))

abbrev pub is_scan : {T : Type 0} → Phase T → Bool
is_scan (scan start zero) = true
is_scan _ = false

module _ {T : Type 0} (mode : WorkMode) (per_shard_cap : ℕ) (capacity : ℤ) where
  loaded_lem :
      (n k : ℕ) (current : ℤ) (s : Shared T)
      → actual_spawn capacity n current ≡ pos k
      → s.running_workers_num +ℤ pos k ≡ pos k
      → 1 ≤ k
      → scale mode per_shard_cap capacity (loaded n current) s
        ≡ (record s { running_workers_num = pos k }, spawning k, [])
  unfolding scale
  loaded_lem n k current s e adds one = rw (e, lt_pos (pos k) (omega arith), adds) refl

  -- The scaler takes one step, and several, while everyone else stands still.
  abbrev pub scaler_step : System T → System T
  scaler_step m =
      let (s, z, new) = scale mode per_shard_cap capacity m.scaler m.shared in
      record { shared = s; scaler = z; threads = new ++ m.threads }

  abbrev pub scaler_alone : ℕ → System T → System T
  scaler_alone zero m = m
  scaler_alone (suc k) m = scaler_alone k (scaler_step m)

  -- The scaler waits again, and has counted and started a number of workers, each at the start of
  -- its scan, beside the goroutines there were.
  pub record Manned (phs : List (Phase T)) (k tasks : ℕ) (m : System T) : Type 0 where
    pub waits : m.scaler ≡ waiting
    pub counted : m.shared.running_workers_num ≡ pos k
    pub kept : queued m.shared ≡ tasks
    pub workers : List (Phase T)
    pub beside : m.threads ≡ workers ++ phs
    pub as_many : length workers ≡ k
    pub scanning : All (λ ph. is_scan ph ≡ true) workers

  -- While it starts those that it has counted
  spawning-Manned :
      (left k done : ℕ) (s : Shared T) (phs ws : List (Phase T))
      → s.running_workers_num ≡ pos k
      → length ws ≡ done
      → done + left ≡ k
      → All (λ ph. is_scan ph ≡ true) ws
      → Manned phs k (queued s) (
          scaler_alone
            (suc left)
            (record { shared = s; scaler = spawning left; threads = ws ++ phs }))
  unfolding scale started popped_idle start_worker queued
  spawning-Manned zero k done s phs ws e l d a = record {
    waits = refl;
    counted = e;
    kept = refl;
    workers = ws;
    beside = refl;
    as_many = omega (arith, l, d);
    scanning = a;
  }
  spawning-Manned (suc left) k done s phs ws e l d a =
      let w = start_worker mode per_shard_cap s in
      spawning-Manned left k (suc done)
        (started mode per_shard_cap (popped_idle mode per_shard_cap capacity s)) phs (w ∷ ws) e
        (omega (arith, l)) (omega (arith, d)) (refl, a)

  -- From the lock on, with no worker counted
  at_lock-Manned :
      (n : ℕ) (s : Shared T) (phs : List (Phase T))
      → s.running_workers_num ≡ pos 0
      → pos 1 ≤ℤ capacity
      → 1 ≤ n
      → (k : ℕ) × (1 ≤ k)
        × (pos k ≡ min_ℤ (pos n) capacity)
        × Manned phs k (queued s) (
            scaler_alone
              (suc (suc (suc k)))
              (record { shared = s; scaler = at_lock n; threads = phs }))
  unfolding scale queued
  at_lock-Manned n s phs e room h =
      let (k, is_k, one) =
        pos_of (actual_spawn capacity n (pos 0)) (actual_spawn-pos capacity n room h) in
      let counted = ap (actual_spawn capacity n) e ∙ is_k in
      let end =
        loaded_lem n k s.running_workers_num s counted (zero_add s.running_workers_num (pos k) e)
          one in
      (
        k,
        one,
        sym is_k ∙ spawned-min capacity n,
        subst
            (λ r.
              Manned phs k (queued s) (
                scaler_alone (suc k) (record { shared = r.0; scaler = r.1; threads = r.2 ++ phs })))
            (sym end)
            (spawning-Manned k k 0 (record s { running_workers_num = pos k }) phs [] refl refl
              (omega arith) tt),
      )

-- In a pool whose counters are in agreement, with a task queued and no worker counted, the scaler's
-- decision on that load is to start some number of workers, at least one, where the capacity is at
-- least 1 and the sum with the expected exits does not overflow. With exactly that number at its
-- lock, and while everyone else stands still, steps of the scaler lead back to its wait: it has then
-- counted and started as many workers as it decided on, or the capacity where that is less, at least
-- one, each of them at the start of its scan, and the tasks are still queued.
pub stranded-Manned :
    {T H : Type 0} (fl : Float64) (c : Config fl.F H) (m : Medians fl.F) (mode : WorkMode)
    (per_shard_cap : ℕ) (last now : ℤ) (s : Shared T) (phs : List (Phase T))
    → IsAccounted (record { shared = s; scaler = waiting; threads = phs })
    → 0 < queued s
    → s.running_workers_num ≡ pos 0
    → pos 1 ≤ℤ c.worker_num_capacity
    → cold_target fl c s.pending_tasks +ℤ exit_per_tick fl c m ≤ℤ pos (2 ^ 63 - 1)
    → (n : ℕ) × (decide fl c m (load_of s now) last ≡ (some n, last))
      × (k : ℕ) × (1 ≤ k)
      × (pos k ≡ min_ℤ (pos n) c.worker_num_capacity)
      × Manned mode per_shard_cap c.worker_num_capacity phs k (queued s) (
          scaler_alone mode per_shard_cap c.worker_num_capacity
            (suc (suc (suc k)))
            (record { shared = s; scaler = at_lock n; threads = phs }))
unfolding IsAccounted load_of
stranded-Manned fl c m mode per_shard_cap last now s phs a q r room o =
    let waits : pos 1 ≤ℤ s.pending_tasks =
      omega (arith, ap pos_part a.pending, ap neg_part a.pending) in
    let (n, e, one) = decide-cold fl c m (load_of s now) last r waits room o in
    let (k, some_k, least, manned) =
      at_lock-Manned mode per_shard_cap c.worker_num_capacity n s phs r room one in
    (n, e, k, some_k, least, manned)
