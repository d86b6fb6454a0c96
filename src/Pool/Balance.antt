-- ===== src/Pool/Balance.antt =====
-- Every step of a goroutine keeps the counters of the pool in agreement with what they count.
use go_agile_pool.Prelude.{
  ℕ, zero, suc, ◌+◌, ◌%◌, ap, ◌≤◌, ◌<◌, ◌≡◌, refl, ltb, leb, Option, none, some, List, [], ◌∷◌,
  ◌++◌, length, get_or, set, take, drop, arith, length-append, length-set, Bool-cases, inl, inr,
}
use go_agile_pool.Prelude.Int.{◌+ℤ◌, ◌-ℤ◌}
use go_agile_pool.Config.{WorkMode, block, nonblock}
use go_agile_pool.TaskBuffer.{max_chunk_len}
use go_agile_pool.Pool.{
  advance_submit, advance_worker, advance_close, advance_part, part_of, Shared, Phase, overflow,
  first_send, full_wait, scan, pop_tasks, done_wg, Ready, send_ready, ctx_done, pool_closed,
  next_shard, moved, send_at, send_to, sent_or, forward_to, forward_first, push_and_forward_step,
  started, start_worker, take_from, scan_step, next_of, after_batch, sent_only, wait_step,
  otherwise_first, advance,
}
use go_agile_pool.Pool.Weights.{
  total, queued, pending_weight, wg_weight, running_weight, sum, Balanced, Balanced-at, AfterStep,
}

length-take-drop :
    {T : Type 0} (n : ℕ) (xs : List T) → length (take n xs) + length (drop n xs) ≡ length xs
length-take-drop zero xs = omega arith
length-take-drop (suc n) [] = omega arith
length-take-drop (suc n) (x ∷ xs) = let ih = length-take-drop n xs in omega arith

total-set :
    {T : Type 0} (qs : List (List T)) (i : ℕ) (q : List T)
    → i < length qs
    → total (set qs i q) + length (get_or qs i []) ≡ total qs + length q
total-set [] i q h = elim h [ ]
total-set (p ∷ qs) zero q h = omega arith
total-set (p ∷ qs) (suc i) q h = let ih = total-set qs i q (omega arith) in omega arith

module _ {T : Type 0} where
  AfterSend : (p w r : ℕ) → Option (Shared T) → Type 0
  AfterSend p w r none = Unit
  AfterSend p w r (some s) = Balanced s p w r

  module _ (mode : WorkMode) (per_shard_cap : ℕ) where
    send_at-Balanced :
        (i : ℕ) (t : T) (s : Shared T) (p w r : ℕ)
        → i < length s.task_queues
        → Balanced s (suc p) (suc w) r
        → AfterSend p w r (send_at mode per_shard_cap i t s)
    unfolding send_at AfterSend queued
    send_at-Balanced i t s p w r small h =
        let q = get_or s.task_queues i [] in
        let grown = total-set s.task_queues i (q ++ t ∷ []) small in
        let longer = length-append q (t ∷ []) in
        let kept = length-set s.task_queues i (q ++ t ∷ []) in
        elim (Bool-cases (ltb (length q) per_shard_cap)) [
          | inl room ↦ rw room (record {
            pending = ground (arith, h.pending, grown, longer);
            group = ground (arith, h.group, grown, longer);
            running = h.running;
            sharded = omega arith;
          })
          | inr full ↦ rw full tt
        ]

    -- A task leaves the submitter's hands exactly when the channel takes it.
    sent_or-Balanced :
        (o : Option (Shared T)) (s : Shared T) (ph : Phase T) (p w r : ℕ)
        → AfterSend p w r o
        → AfterStep p w r (some (s, ph ∷ []))
        → AfterStep p w r (some (sent_or mode per_shard_cap o s ph))
    unfolding sent_or AfterSend AfterStep sum pending_weight wg_weight running_weight
    sent_or-Balanced none s ph p w r a b = b
    sent_or-Balanced (some s') s ph p w r a b = ground arith

    sent_only-Balanced :
        (o : Option (Shared T)) (p w r : ℕ)
        → AfterSend p w r o
        → AfterStep p w r (sent_only mode per_shard_cap o)
    unfolding sent_only AfterSend AfterStep sum pending_weight wg_weight running_weight
    sent_only-Balanced none p w r a = tt
    sent_only-Balanced (some s') p w r a = ground arith

    wait_step-Balanced :
        (rd : Ready) (t : T) (i : ℕ) (s : Shared T) (p w r : ℕ)
        → Balanced s (suc p) (suc w) r
        → AfterStep p w r (wait_step mode per_shard_cap rd t i s)
    unfolding wait_step AfterStep sum pending_weight wg_weight running_weight send_to
    wait_step-Balanced send_ready t i s p w r h =
        sent_only-Balanced _ p w r
          (send_at-Balanced (i % length s.task_queues) t s p w r (omega (arith, h.sharded)) h)
    wait_step-Balanced ctx_done t i s p w r h = ground arith
    wait_step-Balanced pool_closed t i s p w r h = elim (Bool-cases s.close_pool_cn) [
      | inl e ↦ rw e (ground arith)
      | inr e ↦ rw e tt
    ]

    take_from-Balanced :
        (start i idx : ℕ) (q : List T) (s : Shared T) (p w r : ℕ)
        → idx < length s.task_queues
        → get_or s.task_queues idx [] ≡ q
        → Balanced s p w (suc r)
        → AfterStep p w r (some (take_from mode per_shard_cap start i idx q s))
    unfolding take_from AfterStep sum pending_weight wg_weight running_weight queued
    take_from-Balanced start i idx [] s p w r small e h = ground arith
    take_from-Balanced start i idx (t ∷ q) s p w r small e h =
        let shrunk = total-set s.task_queues idx q small in
        let kept = length-set s.task_queues idx q in
        let taken : length (get_or s.task_queues idx []) ≡ suc (length q) = ap length e in
        record {
          pending = ground (arith, h.pending, shrunk, taken);
          group = ground (arith, h.group, shrunk, taken);
          running = ground (arith, h.running);
          sharded = omega arith;
        }

    scan_step-Balanced :
        (start i : ℕ) (s : Shared T) (p w r : ℕ)
        → Balanced s p w (suc r)
        → AfterStep p w r (some (scan_step mode per_shard_cap start i s))
    unfolding scan_step AfterStep sum pending_weight wg_weight running_weight
    scan_step-Balanced start i s p w r h = elim (Bool-cases (ltb i (length s.task_queues))) [
      | inl more ↦ rw more (
          take_from-Balanced start i ((start + i) % length s.task_queues) _ s p w r
            (omega (arith, h.sharded)) refl h)
      | inr over ↦ rw over (ground arith)
    ]

    -- The overflow buffer's oldest task moves to a channel or stays.
    forward_to-Balanced :
        (i : ℕ) (x : T) (rest : List T) (s : Shared T) (p w r : ℕ)
        → i < length s.task_queues
        → Balanced (record s { buf = x ∷ rest }) p w r
        → Balanced
            (forward_to mode per_shard_cap (send_at mode per_shard_cap i x s) (x ∷ rest) rest s)
            p
            w
            r
    unfolding forward_to send_at queued
    forward_to-Balanced i x rest s p w r small h =
        let q = get_or s.task_queues i [] in
        let grown = total-set s.task_queues i (q ++ x ∷ []) small in
        let longer = length-append q (x ∷ []) in
        let kept = length-set s.task_queues i (q ++ x ∷ []) in
        elim (Bool-cases (ltb (length q) per_shard_cap)) [
          | inl room ↦ rw room (record {
            pending = ground (arith, h.pending, grown, longer);
            group = ground (arith, h.group, grown, longer);
            running = h.running;
            sharded = omega (arith, h.sharded);
          })
          | inr full ↦ rw full h
        ]

    forward_first-Balanced :
        (xs : List T) (s : Shared T) (p w r : ℕ)
        → 1 ≤ length xs
        → Balanced (record s { buf = xs }) p w r
        → Balanced (forward_first mode per_shard_cap xs s) p w r
    unfolding forward_first send_to moved queued
    forward_first-Balanced [] s p w r some_task h = absurd (omega arith)
    forward_first-Balanced (x ∷ rest) s p w r some_task h =
        forward_to-Balanced _ x rest (moved mode per_shard_cap s) p w r (omega (arith, h.sharded))
          (record {
            pending = h.pending;
            group = h.group;
            running = h.running;
            sharded = h.sharded;
          })

    overflow-Balanced :
        (t : T) (s : Shared T) (p w r : ℕ)
        → Balanced s (suc p) (suc w) r
        → AfterStep p w r (some (push_and_forward_step mode per_shard_cap t s))
    unfolding push_and_forward_step AfterStep sum pending_weight wg_weight running_weight queued
    overflow-Balanced t s p w r h =
        let longer = length-append s.buf (t ∷ []) in
        elim (Bool-cases s.buf_closed) [
          | inl shut ↦ rw shut (ground arith)
          | inr open_ ↦ elim (Bool-cases (leb max_chunk_len (length s.buf))) [
            | inl full ↦ rw (open_, full) (ground arith)
            | inr room ↦
                simp (open_, room)
                  (Balanced-at _ p w r _ _ _
                    (forward_first-Balanced (s.buf ++ t ∷ []) s p w r (omega arith) (record {
                      pending = ground (arith, h.pending, longer);
                      group = ground (arith, h.group, longer);
                      running = h.running;
                      sharded = h.sharded;
                    }))
                    (omega arith) (omega arith) (omega arith))
          ]
        ]

    batch_weights :
        (cursor : ℕ) (xs : List T)
        → (pending_weight (after_batch mode per_shard_cap cursor xs) ≡ length xs)
          × (wg_weight (after_batch mode per_shard_cap cursor xs) ≡ length xs)
          × (running_weight (after_batch mode per_shard_cap cursor xs) ≡ 1)
    unfolding after_batch pending_weight wg_weight running_weight
    batch_weights cursor [] = (refl, refl, refl)
    batch_weights cursor (t ∷ xs) = (refl, refl, refl)

    otherwise_first-Balanced :
        (m : WorkMode) (t : T) (s : Shared T) (p w r : ℕ)
        → Balanced s (suc p) (suc w) r
        → AfterStep p w r (some (s, otherwise_first mode per_shard_cap m t ∷ []))
    unfolding otherwise_first AfterStep sum pending_weight wg_weight running_weight
    otherwise_first-Balanced block t s p w r h = ground arith
    otherwise_first-Balanced nonblock t s p w r h = ground arith

    pub advance-Balanced :
        (rd : Ready) (ph : Phase T) (s : Shared T) (p w r : ℕ)
        → Balanced s (pending_weight ph + p) (wg_weight ph + w) (running_weight ph + r)
        → AfterStep p w r (advance mode per_shard_cap rd ph s)
    unfolding advance advance_part part_of advance_submit advance_worker advance_close
        pending_weight wg_weight running_weight sum queued AfterStep ◌+ℤ◌ ◌-ℤ◌ started start_worker
        moved next_shard next_of send_to
    advance-Balanced rd (first_send t i) s p w r h =
        sent_or-Balanced _ s (otherwise_first mode per_shard_cap mode t) p w r
          (send_at-Balanced (i % length s.task_queues) t s p w r (omega (arith, h.sharded))
            (ground arith))
          (otherwise_first-Balanced mode t s p w r (ground arith))
    advance-Balanced rd (overflow t) s p w r h = overflow-Balanced t s p w r (ground arith)
    advance-Balanced rd (full_wait t i) s p w r h = wait_step-Balanced rd t i s p w r (ground arith)
    advance-Balanced rd (scan start i) s p w r h = scan_step-Balanced start i s p w r (ground arith)
    advance-Balanced rd (pop_tasks cursor) s p w r h =
        let (a, b, c) = batch_weights cursor (take 8 s.buf) in
        let whole = length-take-drop 8 s.buf in
        record {
          pending = ground (arith, h.pending, a, whole);
          group = ground (arith, h.group, b, whole);
          running = ground (arith, h.running, c);
          sharded = h.sharded;
        }
    advance-Balanced rd (done_wg cursor []) s p w r h = ground arith
    advance-Balanced rd (done_wg cursor (t ∷ rest)) s p w r h = ground arith
    advance-Balanced rd ph s p w r h = ground arith
