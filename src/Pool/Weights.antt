-- ===== src/Pool/Weights.antt =====
-- How much each goroutine counts in the pool's counters, and what the counters then are.
use go_agile_pool.Prelude.{ℕ, suc, ◌+◌, ◌≤◌, ◌≡◌, Option, none, some, List, [], ◌∷◌, length, arith}
use go_agile_pool.Prelude.Int.{pos}
use go_agile_pool.Pool.{
  Shared, Phase, submit_added, submit_counted, reject_pending, reject_wg, count_submit, cold_load,
  cold_swap, cold_start, submitted_hook, first_shard, overflow, wait_shard, first_send, full_wait,
  refuse_pending, refuse_wg, scan, pop_tasks, consume, execute, done_pending, done_wg,
  leave_running,
}

-- Tasks in all channels
abbrev pub total : {T : Type 0} → List (List T) → ℕ
total [] = 0
total (q ∷ qs) = length q + total qs

module _ {T : Type 0} where
  -- Submitted tasks that wait for a worker
  unfoldable pub queued : Shared T → ℕ
  queued s = total s.task_queues + length s.buf

  -- The tasks that a goroutine has in hand and that `pendingTasks` counts
  unfoldable pub pending_weight : Phase T → ℕ
  pending_weight (submit_added t) = 1
  pending_weight (submit_counted t) = 1
  pending_weight reject_pending = 1
  pending_weight (count_submit t) = 1
  pending_weight (cold_load t) = 1
  pending_weight (cold_swap t) = 1
  pending_weight (cold_start t) = 1
  pending_weight (submitted_hook t) = 1
  pending_weight (first_shard t) = 1
  pending_weight (first_send t i) = 1
  pending_weight (overflow t) = 1
  pending_weight (wait_shard t) = 1
  pending_weight (full_wait t i) = 1
  pending_weight refuse_pending = 1
  pending_weight (consume cursor t rest) = suc (length rest)
  pending_weight (execute cursor t rest) = suc (length rest)
  pending_weight (done_pending cursor rest) = suc (length rest)
  pending_weight (done_wg cursor rest) = length rest
  pending_weight _ = 0

  -- Those that the wait group counts: the group is one step behind.
  unfoldable pub wg_weight : Phase T → ℕ
  wg_weight (submit_added t) = 0
  wg_weight reject_wg = 1
  wg_weight refuse_wg = 1
  wg_weight (done_wg cursor rest) = suc (length rest)
  wg_weight ph = pending_weight ph

  -- The workers that `runningWorkersNum` counts: one that is being started, and each one that has
  -- not left
  unfoldable pub running_weight : Phase T → ℕ
  running_weight (cold_start t) = 1
  running_weight (scan start i) = 1
  running_weight (pop_tasks cursor) = 1
  running_weight (consume cursor t rest) = 1
  running_weight (execute cursor t rest) = 1
  running_weight (done_pending cursor rest) = 1
  running_weight (done_wg cursor rest) = 1
  running_weight leave_running = 1
  running_weight _ = 0

  unfoldable pub sum : (Phase T → ℕ) → List (Phase T) → ℕ
  sum weight [] = 0
  sum weight (ph ∷ phs) = weight ph + sum weight phs

  -- The counters of a pool whose goroutines are together worth p, w and r.
  pub record Balanced (s : Shared T) (p w r : ℕ) : Type 0 where
    pub pending : s.pending_tasks ≡ pos (p + queued s)
    pub group : s.wg ≡ pos (w + queued s)
    pub running : s.running_workers_num ≡ pos r
    pub sharded : 1 ≤ length s.task_queues

  -- What a step leaves, where there is one.
  unfoldable pub AfterStep : (p w r : ℕ) → Option (Shared T × List (Phase T)) → Type 0
  AfterStep p w r none = Unit
  AfterStep p w r (some (s, phs)) =
      Balanced s (sum pending_weight phs + p) (sum wg_weight phs + w) (sum running_weight phs + r)

  pub Balanced-at :
      (s : Shared T) (p w r p' w' r' : ℕ)
      → Balanced s p w r
      → p ≡ p'
      → w ≡ w'
      → r ≡ r'
      → Balanced s p' w' r'
  Balanced-at s p w r p' w' r' h a b c = record {
    pending = ground (arith, h.pending);
    group = ground (arith, h.group);
    running = ground (arith, h.running);
    sharded = h.sharded;
  }
