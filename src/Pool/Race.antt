-- ===== src/Pool/Race.antt =====
-- The cold start of submit against the scaler: the swap from 0 to 1 is not under the scaler's lock.
use go_agile_pool.Prelude.{ℕ, suc, ◌+◌, ◌≡◌, refl, subst, ◌++◌, true, [], ◌∷◌, List, ltb, arith}
use go_agile_pool.Prelude.Int.{pos, ◌+ℤ◌, ◌-ℤ◌}
use go_agile_pool.Config.{WorkMode}
use go_agile_pool.Pool.{
  advance_submit, advance_worker, advance_close, advance_part, part_of, Shared, Phase, cold_load,
  cold_swap, cold_start, send_ready, advance,
}
use go_agile_pool.Pool.Step.{
  ScalerPhase, at_lock, loaded, spawning, System, actual_spawn, scale, scales, runs, Reachable,
  here, after,
}

actual_spawn-full : (c : ℕ) → actual_spawn (pos (suc c)) (suc c) (pos 0) ≡ pos (suc c)
unfolding ◌-ℤ◌
actual_spawn-full c = ground arith

one_more : (c : ℕ) → pos 1 +ℤ pos (suc c) ≡ pos (c + 2)
unfolding ◌+ℤ◌
one_more c = ground arith

module _ {T : Type 0} (mode : WorkMode) (per_shard_cap c : ℕ) (t : T) (s : Shared T) where
  -- The scaler's step with a given outcome
  scales-to :
      (start : System T) (u v : Shared T) (y z : ScalerPhase) (phs : List (Phase T))
      → scale mode per_shard_cap (pos (suc c)) y u ≡ (v, z, [])
      → Reachable mode per_shard_cap
          (pos (suc c))
          start
          (record { shared = u; scaler = y; threads = phs })
      → Reachable mode per_shard_cap
          (pos (suc c))
          start
          (record { shared = v; scaler = z; threads = phs })
  scales-to start u v y z phs e reached =
      subst
        (λ r.
          Reachable mode per_shard_cap (pos (suc c)) start
            (record { shared = r.0; scaler = r.1; threads = r.2 ++ phs }))
        e (after reached (scales u y phs))

  adds_capacity :
      scale mode per_shard_cap
        (pos (suc c))
        (loaded (suc c) (pos 0))
        (record s { running_workers_num = pos 1 })
      ≡ (record s { running_workers_num = pos (c + 2) }, spawning (suc c), [])
  unfolding scale
  adds_capacity =
      let some_room : ltb 0 (suc c) ≡ true = ground arith in
      rw (actual_spawn-full c, one_more c) (ground arith)

  -- A scaler that wants as many workers as the capacity allows, and is about to load their number,
  -- while a submitter is about to load it too, where there is no worker: both go on from 0, and the
  -- pool counts one worker more than the capacity.
  pub capacity-exceeded :
      s.running_workers_num ≡ pos 0
      → Reachable mode per_shard_cap
          (pos (suc c))
          (record { shared = s; scaler = at_lock (suc c); threads = cold_load t ∷ [] })
          (record {
            shared = record s { running_workers_num = pos (c + 2) };
            scaler = spawning (suc c);
            threads = cold_start t ∷ [];
          })
  unfolding scale advance advance_part part_of advance_submit advance_worker advance_close
  capacity-exceeded zero_running =
      let start : System T = record {
        shared = s;
        scaler = at_lock (suc c);
        threads = cold_load t ∷ [];
      } in
      let first =
        scales-to start s s (at_lock (suc c)) (loaded (suc c) (pos 0)) (cold_load t ∷ [])
          (simp zero_running refl) here in
      let second = after first (
        runs send_ready [] [] (cold_swap t ∷ []) (cold_load t) s s (loaded (suc c) (pos 0))
          (simp zero_running refl)) in
      let third = after second (
        runs send_ready [] [] (cold_start t ∷ []) (cold_swap t) s
          (record s { running_workers_num = pos 1 }) (loaded (suc c) (pos 0))
          (simp zero_running refl)) in
      scales-to start _ _ (loaded (suc c) (pos 0)) (spawning (suc c)) (cold_start t ∷ [])
        adds_capacity third
