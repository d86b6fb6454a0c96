-- ===== src/Scaling/Drained.antt =====
-- The loops of the scaler and the sampler end where the pool is closed and drained. `closed` is
-- loaded first and never reset, so the test is that of the state in which pendingTasks is loaded.
use go_agile_pool.Prelude.{
  ℕ, zero, suc, ◌+◌, ◌≤◌, ◌≡◌, refl, sym, ◌∙◌, true, false, Bool, ◌&&◌, ltb, Bool-cases, inl, inr,
  Option, none, some, List, [], ◌∷◌, ◌++◌, length, get_or, subst, arith, ap, ◌%◌,
}
use go_agile_pool.Prelude.Int.{negsuc, ℤ, pos, pos_part, ltb_ℤ}
use go_agile_pool.Config.{WorkMode}
use go_agile_pool.Pool.{
  Shared, Phase, submit_added, submit_counted, reject_pending, scan, pop_tasks, done_wg,
  close_start, Ready, advance, advance_part, part_of, advance_submit, advance_worker, advance_close,
  started, start_worker, take_from, scan_step, next_of, after_batch, is_zero,
}
use go_agile_pool.Pool.Weights.{queued, total, pending_weight, sum}
use go_agile_pool.Pool.Step.{
  ScalerPhase, waiting, at_lock, loaded, spawning, System, actual_spawn, popped_idle, scale, Step,
  submits, closes, ticks, scales, runs, Reachable, here, after,
}
use go_agile_pool.Pool.Accounts.{IsAccounted, reachable-IsAccounted, sum-append}
use go_agile_pool.Scaling.{drained}

-- The tasks in the hands of a goroutine, except those of submitters that have not been accepted
unfoldable pub accepted_weight : {T : Type 0} → Phase T → ℕ
accepted_weight (submit_added t) = 0
accepted_weight (submit_counted t) = 0
accepted_weight reject_pending = 0
accepted_weight ph = pending_weight ph

get_or-nil : {T : Type 0} (qs : List (List T)) (i : ℕ) → total qs ≡ 0 → get_or qs i [] ≡ []
get_or-nil [] i h = refl
get_or-nil ([] ∷ qs) zero h = refl
get_or-nil ((t ∷ q) ∷ qs) zero h = absurd (omega arith)
get_or-nil (q ∷ qs) (suc i) h = get_or-nil qs i (omega arith)

nil_of_length : {T : Type 0} (xs : List T) → length xs ≡ 0 → xs ≡ []
nil_of_length [] h = refl
nil_of_length (x ∷ xs) h = absurd (omega arith)

zero_pending : (a : ℤ) → is_zero a ≡ true → a ≡ pos 0
zero_pending (pos n) h = ap pos (ground arith)
zero_pending (negsuc n) h = cc h

and-left : (a b : Bool) → (a && b) ≡ true → a ≡ true
and-left true b h = refl
and-left false b h = h

and-right : (a b : Bool) → (a && b) ≡ true → b ≡ true
and-right true b h = h
and-right false b h = cc h

module _ {T : Type 0} where
  -- Closed, and no task is queued.
  IsQuiet : Shared T → Type 0
  IsQuiet s = (s.closed ≡ true) × (queued s ≡ 0)

  -- What a step leaves, where there is one.
  QuietAfter : Option (Shared T × List (Phase T)) → Type 0
  QuietAfter none = Unit
  QuietAfter (some (s, phs)) = IsQuiet s × (sum accepted_weight phs ≡ 0)

  accepted-le : (ph : Phase T) → accepted_weight ph ≤ pending_weight ph
  unfolding accepted_weight pending_weight
  accepted-le ph = ground arith

  sum_accepted-le : (phs : List (Phase T)) → sum accepted_weight phs ≤ sum pending_weight phs
  unfolding sum
  sum_accepted-le [] = omega arith
  sum_accepted-le (ph ∷ phs) = omega (arith, accepted-le ph, sum_accepted-le phs)

  module _ (mode : WorkMode) (per_shard_cap : ℕ) where
    scan-Quiet :
        (start i : ℕ) (s : Shared T)
        → IsQuiet s
        → QuietAfter (some (scan_step mode per_shard_cap start i s))
    unfolding scan_step take_from QuietAfter IsQuiet queued sum accepted_weight pending_weight
    scan-Quiet start i s (c, q) = elim (Bool-cases (ltb i (length s.task_queues))) [
      | inl more ↦
          rw (more, get_or-nil s.task_queues ((start + i) % length s.task_queues) (omega arith))
            ((c, q), refl)
      | inr over ↦ rw over ((c, q), refl)
    ]

    advance-Quiet :
        (rd : Ready) (ph : Phase T) (s : Shared T)
        → IsQuiet s
        → accepted_weight ph ≡ 0
        → QuietAfter (advance mode per_shard_cap rd ph s)
    unfolding advance advance_part part_of advance_submit advance_worker advance_close
        accepted_weight pending_weight sum queued QuietAfter IsQuiet next_of after_batch
    advance-Quiet rd (submit_counted t) s (c, q) h = rw c ((refl, q), refl)
    advance-Quiet rd (scan start i) s c h = scan-Quiet start i s c
    advance-Quiet rd (pop_tasks cursor) s (c, q) h =
        rw (nil_of_length s.buf (omega arith)) ((c, omega (arith, q)), refl)
    advance-Quiet rd (done_wg cursor []) s (c, q) h = ((c, q), refl)
    advance-Quiet rd (done_wg cursor (t ∷ rest)) s c h = absurd (omega arith)
    advance-Quiet rd close_start s (c, q) h = rw c ((refl, q), refl)
    advance-Quiet rd ph s (c, q) h = ground arith

  module _ (mode : WorkMode) (per_shard_cap : ℕ) (capacity : ℤ) where
    -- A pool that is closed, with no task queued or in the hands of a worker, and no submitter that
    -- has been accepted
    QuietSystem : System T → Type 0
    QuietSystem m = IsQuiet m.shared × (sum accepted_weight m.threads ≡ 0)

    scale-Quiet :
        (s : Shared T) (z : ScalerPhase)
        → IsQuiet s
        → let (s', z', new) = scale mode per_shard_cap capacity z s in
          IsQuiet s' × (sum accepted_weight new ≡ 0)
    unfolding scale IsQuiet started start_worker popped_idle sum accepted_weight pending_weight
        queued
    scale-Quiet s waiting q = (q, refl)
    scale-Quiet s (at_lock n) q = (q, refl)
    scale-Quiet s (loaded n current) q =
        elim (Bool-cases (ltb_ℤ (pos 0) (actual_spawn capacity n current))) [
          | inl some_room ↦ rw some_room (q, refl)
          | inr no_room ↦ rw no_room (q, refl)
        ]
    scale-Quiet s (spawning zero) q = (q, refl)
    scale-Quiet s (spawning (suc n)) q = (q, refl)

    run-Quiet :
        (rd : Ready) (before rest phs : List (Phase T)) (ph : Phase T) (s s' : Shared T)
        (z : ScalerPhase)
        → advance mode per_shard_cap rd ph s ≡ some (s', phs)
        → QuietSystem (record { shared = s; scaler = z; threads = before ++ ph ∷ rest })
        → QuietSystem (record { shared = s'; scaler = z; threads = before ++ phs ++ rest })
    unfolding QuietSystem QuietAfter sum
    run-Quiet rd before rest phs ph s s' z e (q, h) =
        let a = sum-append accepted_weight before (ph ∷ rest) in
        let a' = sum-append accepted_weight (before ++ phs) rest in
        let a'' = sum-append accepted_weight before phs in
        let (q', h') =
          subst QuietAfter e (advance-Quiet mode per_shard_cap rd ph s q (omega (arith, a, h))) in
        (q', omega (arith, a, a', a'', h, h'))

    Step-Quiet :
        (m n : System T) → Step mode per_shard_cap capacity m n → QuietSystem m → QuietSystem n
    unfolding QuietSystem sum accepted_weight pending_weight
    Step-Quiet _ _ (submits t s z phs) (q, h) = (q, omega arith)
    Step-Quiet _ _ (closes s z phs) (q, h) = (q, omega arith)
    Step-Quiet _ _ (ticks n s phs) h = h
    Step-Quiet _ _ (scales s z phs) (q, h) =
        let (q', new) = scale-Quiet s z q in
        (
          q',
          omega (
            arith,
            h,
            new,
            sum-append accepted_weight (scale mode per_shard_cap capacity z s).2 phs,
          ),
        )
    Step-Quiet _ _ (runs rd before rest phs ph s s' z e) h =
        run-Quiet rd before rest phs ph s s' z e h

    reachable-Quiet :
        (m n : System T) → QuietSystem m → Reachable mode per_shard_cap capacity m n → QuietSystem n
    reachable-Quiet m _ h here = h
    reachable-Quiet m n h (after {m = k} reached step) =
        Step-Quiet k n step (reachable-Quiet m k h reached)

    drained-Quiet : (n : System T) → IsAccounted n → drained n.shared ≡ true → QuietSystem n
    unfolding IsAccounted drained QuietSystem IsQuiet
    drained-Quiet n a d =
        let none_pending =
          zero_pending n.shared.pending_tasks
            (and-right n.shared.closed (is_zero n.shared.pending_tasks) d) in
        let e = ap pos_part (sym a.pending ∙ none_pending) in
        (
          (and-left n.shared.closed (is_zero n.shared.pending_tasks) d, omega (arith, e)),
          omega (arith, e, sum_accepted-le n.threads),
        )

    -- Once the test that ends the loops of the scaler and the sampler holds in a reached state, the
    -- pool needs neither: in every state that follows it is closed, no task is queued, and no task
    -- is in the hands of a worker or of a submitter that has been accepted.
    pub drained-stays :
        (m n k : System T)
        → IsAccounted m
        → Reachable mode per_shard_cap capacity m n
        → drained n.shared ≡ true
        → Reachable mode per_shard_cap capacity n k
        → (k.shared.closed ≡ true) × (queued k.shared ≡ 0) × (sum accepted_weight k.threads ≡ 0)
    unfolding QuietSystem IsQuiet
    drained-stays m n k h before d then_ =
        let n_accounted = reachable-IsAccounted mode per_shard_cap capacity m n h before in
        let ((c, q), w) = reachable-Quiet n k (drained-Quiet n n_accounted d) then_ in (c, q, w)
