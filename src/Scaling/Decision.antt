-- ===== src/Scaling/Decision.antt =====
-- What the scaler may ask for, whatever the rates and however floats round.
use go_agile_pool.Prelude.{ℕ, ◌<◌, ◌≡◌, Bool-cases, inl, inr, some, arith}
use go_agile_pool.Prelude.Int.{
  ℤ, pos, negsuc, ◌+ℤ◌, ◌-ℤ◌, ◌≤ℤ◌, ltb_ℤ, leb_ℤ, max_ℤ, int_laws, +ℤ_parts, -ℤ_parts, ltb_ℤ→lt,
}
use go_agile_pool.Prelude.Float.{Float64}
use go_agile_pool.Config.{Config}
use go_agile_pool.Shards.{wrap}
use go_agile_pool.Scaling.{
  Medians, Load, with_exits, backlog_target, rate_target, capped, bounded, spawn_for, exit_per_tick,
  decide,
}

-- Wrapping never makes a number that is not negative larger.
wrap-le : (a : ℤ) → pos 0 ≤ℤ a → wrap a ≤ℤ a
wrap-le (pos n) h = ground arith
wrap-le (negsuc n) h = absurd (omega arith)

with_exits-le : (n e : ℤ) → pos 0 ≤ℤ n → with_exits n e ≤ℤ n +ℤ max_ℤ (pos 0) e
unfolding with_exits
with_exits-le n e h = elim (Bool-cases (ltb_ℤ (pos 0) e)) [
  | inl some_exit ↦ rw some_exit (wrap-le (n +ℤ e) (omega (int_laws, ltb_ℤ→lt (pos 0) e some_exit)))
  | inr no_exit ↦ rw no_exit (omega int_laws)
]

over_running : (r t x w : ℤ) (n : ℕ) → w ≤ℤ (t -ℤ r) +ℤ x → pos n ≤ℤ w → r +ℤ pos n ≤ℤ t +ℤ x
over_running r t x w n h k = omega int_laws

over_target : (r t b x : ℤ) → r ≤ℤ t +ℤ x → t ≤ℤ b → r ≤ℤ b +ℤ x
over_target r t b x h k = omega int_laws

module _ (fl : Float64) {H : Type 0} where
  open fl use {F}

  bounded_lem :
      (c : Config F H) (running to_spawn : ℤ) (n : ℕ)
      → bounded fl c running to_spawn ≡ some n
      → (0 < n) × (running +ℤ pos n ≤ℤ c.worker_num_capacity) × (pos n ≤ℤ to_spawn)
  unfolding bounded
  bounded_lem c running to_spawn n h =
      ground (arith, -ℤ_parts c.worker_num_capacity running, +ℤ_parts running (pos n))

  capped-le : (c : Config F H) (l : Load) (target : ℤ) → capped fl c l target ≤ℤ l.total_backlog
  unfolding capped
  capped-le c l target = ground arith

  -- A target above the workers there are, and the workers that come of it
  pub spawn_for_lem :
      (c : Config F H) (m : Medians F) (l : Load) (target : ℤ) (n : ℕ)
      → spawn_for fl c m l target ≡ some n
      → (0 < n)
        × (l.running +ℤ pos n ≤ℤ c.worker_num_capacity)
        × (l.running +ℤ pos 1 ≤ℤ target)
        × (l.running +ℤ pos n ≤ℤ target +ℤ max_ℤ (pos 0) (exit_per_tick fl c m))
  unfolding spawn_for
  spawn_for_lem c m l target n h = elim (Bool-cases (leb_ℤ target l.running)) [
    | inl enough ↦ cc (rw enough at h)
    | inr more ↦
        let above : l.running +ℤ pos 1 ≤ℤ target = ground (arith, +ℤ_parts l.running (pos 1)) in
        let exits = exit_per_tick fl c m in
        let (p, b, w) =
          bounded_lem c l.running (with_exits (target -ℤ l.running) exits) n (rw more at h) in
        let e = with_exits-le (target -ℤ l.running) exits (omega int_laws) in
        (p, b, above, over_running l.running target (max_ℤ (pos 0) exits) _ n e w)
  ]

  -- Whatever the rates, the floats and the time, the scaler goes to the lock only where fewer
  -- workers run than tasks are pending, with at least one worker to start, with no more than the
  -- capacity leaves room for, and with no more than the pending tasks need beside those that are
  -- expected to exit.
  pub decide-IsNeeded :
      (c : Config F H) (m : Medians F) (l : Load) (last : ℤ) (n : ℕ)
      → (decide fl c m l last).0 ≡ some n
      → (0 < n)
        × (l.running +ℤ pos 1 ≤ℤ l.total_backlog)
        × (l.running +ℤ pos n ≤ℤ c.worker_num_capacity)
        × (l.running +ℤ pos n ≤ℤ l.total_backlog +ℤ max_ℤ (pos 0) (exit_per_tick fl c m))
  unfolding decide
  decide-IsNeeded c m l last n h =
      let target = (backlog_target fl c m l last (rate_target fl m l.running)).0 in
      let (p, b, a, w) = spawn_for_lem c m l (capped fl c l target) n h in
      let below = capped-le c l target in
      (
        p,
        omega (arith, a, below),
        b,
        over_target (l.running +ℤ pos n) _ _ (max_ℤ (pos 0) (exit_per_tick fl c m)) w below,
      )
