-- ===== src/Pool/Workers.antt =====
-- How a goroutine's step changes the number of counted workers.
use go_agile_pool.Prelude.{
  ◌⊎◌, inl, inr, ℕ, ◌≡◌, refl, ltb, leb, Option, none, some, List, [], ◌∷◌, ◌++◌, length, get_or,
  arith, Bool-cases,
}
use go_agile_pool.Prelude.Int.{ℤ, pos, ◌-ℤ◌, ◌≤ℤ◌}
use go_agile_pool.Config.{WorkMode}
use go_agile_pool.TaskBuffer.{max_chunk_len}
use go_agile_pool.Pool.{
  advance_submit, advance_worker, advance_close, advance_part, part_of, Shared, Phase, returned,
  parked, close_returned, cold_swap, leave_running, close_start, is_zero, overflow, first_send,
  full_wait, scan, Ready, send_ready, ctx_done, pool_closed, moved, send_at, send_to, sent_or,
  forward_to, forward_first, push_and_forward_step, started, take_from, scan_step, sent_only,
  wait_step, advance,
}

module _ {T : Type 0} where
  -- After a step, no more workers than before, or at most one.
  unfoldable pub AtMost : ℤ → Option (Shared T × List (Phase T)) → Type 0
  AtMost old none = Unit
  AtMost old (some (s, phs)) = (s.running_workers_num ≤ℤ old) ⊎ (s.running_workers_num ≤ℤ pos 1)

  Same : ℤ → Option (Shared T) → Type 0
  Same old none = Unit
  Same old (some s) = s.running_workers_num ≡ old

  module _ (mode : WorkMode) (per_shard_cap : ℕ) where
    send_at-Same :
        (i : ℕ) (t : T) (s : Shared T)
        → Same s.running_workers_num (send_at mode per_shard_cap i t s)
    unfolding send_at Same
    send_at-Same i t s =
        elim (Bool-cases (ltb (length (get_or s.task_queues i [])) per_shard_cap)) [
          | inl room ↦ simp room refl
          | inr full ↦ simp full tt
        ]

    forward_to-Same :
        (o : Option (Shared T)) (all rest : List T) (s : Shared T)
        → Same s.running_workers_num o
        → (forward_to mode per_shard_cap o all rest s).running_workers_num ≡ s.running_workers_num
    unfolding forward_to Same
    forward_to-Same none all rest s h = refl
    forward_to-Same (some s') all rest s h = h

    forward_first-Same :
        (xs : List T) (s : Shared T)
        → (forward_first mode per_shard_cap xs s).running_workers_num ≡ s.running_workers_num
    unfolding forward_first send_to moved
    forward_first-Same [] s = refl
    forward_first-Same (x ∷ rest) s =
        forward_to-Same _ (x ∷ rest) rest (moved mode per_shard_cap s)
          (send_at-Same _ x (moved mode per_shard_cap s))

    overflow-AtMost :
        (t : T) (s : Shared T)
        → AtMost s.running_workers_num (some (push_and_forward_step mode per_shard_cap t s))
    unfolding push_and_forward_step AtMost
    overflow-AtMost t s =
        let same = forward_first-Same (s.buf ++ t ∷ []) s in
        elim (Bool-cases s.buf_closed) [
          | inl shut ↦ simp shut (inl (omega arith))
          | inr open_ ↦ elim (Bool-cases (leb max_chunk_len (length s.buf))) [
            | inl full ↦ simp (open_, full) (inl (omega arith))
            | inr room ↦ simp (open_, room) (inl (ground (arith, same)))
          ]
        ]

    sent_or-AtMost :
        (o : Option (Shared T)) (s : Shared T) (ph : Phase T)
        → Same s.running_workers_num o
        → AtMost s.running_workers_num (some (sent_or mode per_shard_cap o s ph))
    unfolding sent_or Same AtMost
    sent_or-AtMost none s ph h = inl (omega arith)
    sent_or-AtMost (some s') s ph h = inl (ground arith)

    sent_only-AtMost :
        (o : Option (Shared T)) (old : ℤ) → Same old o → AtMost old (sent_only mode per_shard_cap o)
    unfolding sent_only Same AtMost
    sent_only-AtMost none old h = tt
    sent_only-AtMost (some s') old h = inl (ground arith)

    wait_step-AtMost :
        (rd : Ready) (t : T) (i : ℕ) (s : Shared T)
        → AtMost s.running_workers_num (wait_step mode per_shard_cap rd t i s)
    unfolding wait_step AtMost send_to
    wait_step-AtMost send_ready t i s = sent_only-AtMost _ _ (send_at-Same _ t s)
    wait_step-AtMost ctx_done t i s = inl (omega arith)
    wait_step-AtMost pool_closed t i s = elim (Bool-cases s.close_pool_cn) [
      | inl e ↦ simp e (inl (omega arith))
      | inr e ↦ simp e tt
    ]

    take_from-AtMost :
        (start i idx : ℕ) (q : List T) (s : Shared T)
        → AtMost s.running_workers_num (some (take_from mode per_shard_cap start i idx q s))
    unfolding take_from AtMost
    take_from-AtMost start i idx [] s = inl (omega arith)
    take_from-AtMost start i idx (t ∷ q) s = inl (omega arith)

    scan_step-AtMost :
        (start i : ℕ) (s : Shared T)
        → AtMost s.running_workers_num (some (scan_step mode per_shard_cap start i s))
    unfolding scan_step AtMost
    scan_step-AtMost start i s = elim (Bool-cases (ltb i (length s.task_queues))) [
      | inl more ↦ simp more (take_from-AtMost start i _ _ s)
      | inr over ↦ simp over (inl (omega arith))
    ]

    pub advance-AtMost :
        (rd : Ready) (ph : Phase T) (s : Shared T)
        → AtMost s.running_workers_num (advance mode per_shard_cap rd ph s)
    unfolding advance advance_part part_of advance_submit advance_worker advance_close AtMost ◌-ℤ◌
        send_to moved started
    advance-AtMost rd (first_send t i) s = sent_or-AtMost _ s _ (send_at-Same _ t s)
    advance-AtMost rd (overflow t) s = overflow-AtMost t s
    advance-AtMost rd (full_wait t i) s = wait_step-AtMost rd t i s
    advance-AtMost rd (scan start i) s = scan_step-AtMost start i s
    advance-AtMost rd (cold_swap t) s = elim (Bool-cases (is_zero s.running_workers_num)) [
      | inl e ↦ simp e (inr (omega arith))
      | inr e ↦ simp e (inl (omega arith))
    ]
    advance-AtMost rd close_start s = elim (Bool-cases s.closed) [
      | inl e ↦ simp e (inl (omega arith))
      | inr e ↦ simp e (inl (omega arith))
    ]
    advance-AtMost rd leave_running s = inl (ground arith)
    advance-AtMost rd (returned b) s = tt
    advance-AtMost rd parked s = tt
    advance-AtMost rd close_returned s = tt
    advance-AtMost rd ph s = inl (omega arith)
