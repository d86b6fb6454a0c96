-- ===== src/Scaling/Growth.antt =====
-- The zero-consume fallback: the pool grows where tasks wait and no rate has been seen.
use go_agile_pool.Prelude.{
  ℕ, ◌-◌, ◌^◌, ◌≤◌, ◌≡◌, refl, ap, ◌∙◌, true, false, Bool-cases, inl, inr, none, some, arith,
  if◌then◌else◌,
}
use go_agile_pool.Prelude.Int.{
  ℤ, pos, negsuc, pos_part, ◌+ℤ◌, ◌-ℤ◌, ◌≤ℤ◌, ltb_ℤ, leb_ℤ, min_ℤ, int_laws, eq_of_parts, +ℤ_parts,
  -ℤ_parts, ltb_ℤ→lt,
}
use go_agile_pool.Prelude.Float.{Float64}
use go_agile_pool.Config.{Config}
use go_agile_pool.Pool.{is_zero}
use go_agile_pool.Shards.{wrap}
use go_agile_pool.Scaling.{
  Medians, Load, positive, with_exits, backlog_target, zero_consume_target, growth_due, growth,
  rate_target, capped, bounded, spawn_for, exit_per_tick, decide,
}

wrap-eq : (a : ℤ) → pos 0 ≤ℤ a → a ≤ℤ pos (2 ^ 63 - 1) → wrap a ≡ a
wrap-eq (pos n) h k = ground arith
wrap-eq (negsuc n) h k = absurd (omega arith)

pub lt_pos : (a : ℤ) → pos 1 ≤ℤ a → ltb_ℤ (pos 0) a ≡ true
lt_pos a h = ground arith

with_exits-ge : (n e : ℤ) → pos 0 ≤ℤ n → n +ℤ e ≤ℤ pos (2 ^ 63 - 1) → n ≤ℤ with_exits n e
unfolding with_exits
with_exits-ge n e h k = elim (Bool-cases (ltb_ℤ (pos 0) e)) [
  | inl some_exit ↦
      let more = ltb_ℤ→lt (pos 0) e some_exit in
      rw (some_exit, wrap-eq (n +ℤ e) (omega int_laws) k) (omega int_laws)
  | inr no_exit ↦ rw no_exit (omega arith)
]

is_zero-running : (running : ℤ) → pos 1 ≤ℤ running → is_zero running ≡ false
is_zero-running (pos n) h = ground arith
is_zero-running (negsuc n) h = refl

pub min-eq : (a b : ℤ) → a ≤ℤ b → min_ℤ a b ≡ a
min-eq a b h = ground arith

leb_of_le : (a b : ℤ) → a ≤ℤ b → leb_ℤ a b ≡ true
leb_of_le a b h = ground arith

leb_of_lt : (a g : ℤ) → pos 1 ≤ℤ g → leb_ℤ (a +ℤ g) a ≡ false
leb_of_lt a g h = ground (arith, +ℤ_parts a g)

add_sub : (a g : ℤ) → (a +ℤ g) -ℤ a ≡ g
add_sub a g = eq_of_parts _ _ (omega int_laws)

min-ge : (a b g : ℤ) → g ≤ℤ a → g ≤ℤ b → g ≤ℤ min_ℤ a b
min-ge a b g h k = ground arith

at_least_one : (x g : ℤ) → pos 1 ≤ℤ g → g ≤ℤ x → (leb_ℤ x (pos 0) ≡ false) × (g ≤ℤ pos (pos_part x))
at_least_one x g h k = ground arith

module _ (fl : Float64) where
  open fl use {F}

  rate_target_unseen :
      (m : Medians F) (running : ℤ)
      → positive fl m.consume_med ≡ false
      → rate_target fl m running ≡ pos 0
  unfolding rate_target
  rate_target_unseen m running h = ground arith

module _ (fl : Float64) {H : Type 0} where
  open fl use {F}

  backlog_target_unseen :
      (c : Config F H) (m : Medians F) (l : Load) (last target : ℤ)
      → pos 1 ≤ℤ l.running
      → pos 1 ≤ℤ l.total_backlog
      → positive fl m.consume_med ≡ false
      → backlog_target fl c m l last target ≡ zero_consume_target fl c l last target
  unfolding backlog_target
  backlog_target_unseen c m l last target r b h =
      rw (h, is_zero-running l.running r, lt_pos l.total_backlog b) refl

  bounded-ge :
      (c : Config F H) (running to_spawn : ℤ) (g : ℤ)
      → pos 1 ≤ℤ g
      → g ≤ℤ to_spawn
      → running +ℤ g ≤ℤ c.worker_num_capacity
      → (n : ℕ) × (bounded fl c running to_spawn ≡ some n) × (g ≤ℤ pos n)
  unfolding bounded
  bounded-ge c running to_spawn g h k e =
      let room = c.worker_num_capacity -ℤ running in
      let x = min_ℤ to_spawn room in
      let (up, above) = at_least_one x g h (min-ge to_spawn room g k (omega int_laws)) in
      (pos_part x, rw up refl, above)

  growth_bounds :
      (c : Config F H) (l : Load) (last : ℤ)
      → growth_due fl c l last ≡ true
      → pos 1 ≤ℤ c.max_zero_consume_scale_step
      → (pos 1 ≤ℤ growth fl c l)
        × (growth fl c l ≤ℤ l.queued)
        × (growth fl c l ≤ℤ c.worker_num_capacity -ℤ l.running)
  unfolding growth growth_due
  growth_bounds c l last d s = ground (arith, -ℤ_parts c.worker_num_capacity l.running)

  spawn_for-none :
      (c : Config F H) (m : Medians F) (l : Load) (target : ℤ)
      → target ≤ℤ l.running
      → spawn_for fl c m l target ≡ none
  unfolding spawn_for
  spawn_for-none c m l target h = rw (leb_of_le target l.running h)

  capped-le_running :
      (c : Config F H) (l : Load) → pos 1 ≤ℤ l.running → capped fl c l (pos 0) ≤ℤ l.running
  unfolding capped
  capped-le_running c l h = ground arith

  -- A target of some steps above the workers there are, with enough tasks and room
  capped-ge :
      (c : Config F H) (l : Load) (g : ℤ)
      → g ≤ℤ l.queued
      → l.running +ℤ l.queued ≤ℤ l.total_backlog
      → g ≤ℤ c.worker_num_capacity -ℤ l.running
      → capped fl c l (l.running +ℤ g) ≡ l.running +ℤ g
  unfolding capped
  capped-ge c l g h k r =
      rw
        (
          min-eq (l.running +ℤ g) l.total_backlog (omega int_laws),
          min-eq (l.running +ℤ g) c.worker_num_capacity (omega int_laws),
        )
        refl

  -- A target some steps above the workers there are leads to at least as many starts.
  pub spawn_for-some :
      (c : Config F H) (m : Medians F) (l : Load) (g : ℤ)
      → pos 1 ≤ℤ g
      → l.running +ℤ g ≤ℤ c.worker_num_capacity
      → g +ℤ exit_per_tick fl c m ≤ℤ pos (2 ^ 63 - 1)
      → (n : ℕ) × (spawn_for fl c m l (l.running +ℤ g) ≡ some n) × (1 ≤ n) × (g ≤ℤ pos n)
  unfolding spawn_for
  spawn_for-some c m l g one room o =
      let grows = with_exits-ge g (exit_per_tick fl c m) (omega (arith, one)) o in
      let (n, found, big) =
        bounded-ge c l.running (with_exits g (exit_per_tick fl c m)) g one grows room in
      (
        n,
        rw (leb_of_lt l.running g one, add_sub l.running g, found) refl,
        omega (arith, one, big),
        big,
      )

  -- Where no consumption has been seen and some workers run, the scaler grows the pool exactly when
  -- tasks are pending and the fallback is due, and then moves its time stamp.
  pub decide_unseen :
      (c : Config F H) (m : Medians F) (l : Load) (last : ℤ)
      → pos 1 ≤ℤ l.running
      → pos 1 ≤ℤ l.total_backlog
      → positive fl m.consume_med ≡ false
      → decide fl c m l last ≡ (
          if growth_due fl c l last
          then (spawn_for fl c m l (capped fl c l (l.running +ℤ growth fl c l)), l.now)
          else (none, last))
  unfolding decide zero_consume_target
  decide_unseen c m l last r b h =
      let e : backlog_target fl c m l last (rate_target fl m l.running)
          ≡ zero_consume_target fl c l last (pos 0) =
        ap (backlog_target fl c m l last) (rate_target_unseen fl m l.running h)
        ∙ backlog_target_unseen c m l last (pos 0) r b h in
      elim (Bool-cases (growth_due fl c l last)) [
        | inl due ↦ rw (e, due) refl
        | inr waits ↦
            rw (e, waits, spawn_for-none c m l (capped fl c l (pos 0)) (capped-le_running c l r))
              refl
      ]

  -- With no consumption seen, tasks queued beside as many in hand as there are workers, room in the
  -- capacity and the interval over, the scaler goes to the lock with at least one worker to start
  -- and at least the step of growth, and moves its time stamp, where the sum with the expected exits
  -- does not overflow.
  pub decide-grows :
      (c : Config F H) (m : Medians F) (l : Load) (last : ℤ)
      → pos 1 ≤ℤ l.running
      → l.running +ℤ l.queued ≤ℤ l.total_backlog
      → positive fl m.consume_med ≡ false
      → pos 1 ≤ℤ c.max_zero_consume_scale_step
      → growth_due fl c l last ≡ true
      → growth fl c l +ℤ exit_per_tick fl c m ≤ℤ pos (2 ^ 63 - 1)
      → (n : ℕ) × (decide fl c m l last ≡ (some n, l.now)) × (1 ≤ n) × (growth fl c l ≤ℤ pos n)
  decide-grows c m l last r b h s d o =
      let (one, some_queued, room) = growth_bounds c l last d s in
      let g = growth fl c l in
      let e = decide_unseen c m l last r (omega (int_laws, r, one, some_queued, b)) h in
      let (n, found, positive_n, big) = spawn_for-some c m l g one (omega (int_laws, room)) o in
      (n, e ∙ rw (d, capped-ge c l g some_queued b room, found) refl, positive_n, big)
