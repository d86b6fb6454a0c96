-- ===== src/Pool.antt =====
-- pool.go and worker.go: the goroutines of a pool, as threads that take one atomic step at a time
-- on the shared counters, channels and flags. `T` is the type of tasks. Tasks and hooks have no
-- effect here: a panic in one is recovered, and the deferred calls run as they do after a return.
pub mod Weights
pub mod Balance
pub mod Step
pub mod Accounts
pub mod Workers
pub mod Capacity
pub mod Race
mod Tests
use go_agile_pool.Prelude.{
  ℕ, zero, suc, ◌+◌, ◌*◌, ◌%◌, ◌^◌, Bool, true, false, ltb, leb, ◌==◌, Option, none, some, List, [],
  ◌∷◌, ◌++◌, length, get_or, set, take, drop, if◌then◌else◌,
}
use go_agile_pool.Prelude.Int.{ℤ, pos, negsuc, ◌+ℤ◌, ◌-ℤ◌, ltb_ℤ}
use go_agile_pool.Config.{WorkMode, block, nonblock}
use go_agile_pool.TaskBuffer.{max_chunk_len}

-- What the goroutines share: the atomics of `Pool`, the handoff channels, and the overflow buffer
-- as the bounded queue that it is.
pub record Shared (T : Type 0) : Type 0 where
  pub pending_tasks : ℤ
  pub wg : ℤ
  pub closed : Bool
  pub close_pool_cn : Bool
  pub submit_count : ℕ
  pub consume_count : ℕ
  pub exit_count : ℕ
  pub running_workers_num : ℤ
  pub task_queues : List (List T)
  pub send_seq : ℕ
  pub worker_seq : ℕ
  pub buf : List T
  pub buf_closed : Bool
  pub idle_works : ℕ

-- Where a goroutine stands: in `submit`, in `worker.run`, or in `Close`.
pub data Phase (T : Type 0) : Type 0 where
  -- submit: at its start, after the first Add, and after the second
  submit_start submit_added submit_counted : T → Phase T
  -- the rejection because of closed
  reject_pending reject_wg : Phase T
  -- accepted so far: the submit count, the load of the workers' number, the swap, the cold start
  count_submit cold_load cold_swap cold_start : T → Phase T
  -- the Submitted hook, the first send, the overflow buffer, the wait
  submitted_hook first_shard overflow wait_shard : T → Phase T
  first_send full_wait : T → ℕ → Phase T
  -- `p.done()` on the paths that refuse, and the Enqueued hook
  refuse_pending refuse_wg : Phase T
  enqueued_hook : Phase T
  returned : Bool → Phase T
  -- worker: the scan of shard `start + i`, the batch, a task with the rest of its batch
  scan : (start i : ℕ) → Phase T
  pop_tasks : ℕ → Phase T
  consume : ℕ → T → List T → Phase T
  execute : ℕ → T → List T → Phase T
  done_pending : ℕ → List T → Phase T
  done_wg : ℕ → List T → Phase T
  -- parking
  leave_running leave_count add_to_idle parked : Phase T
  -- Close
  close_start close_buffer close_channel closed_hook close_returned : Phase T

-- Which function a goroutine is in
pub data Part : Type 0 where
  submitting working closing : Part

unfoldable pub part_of : {T : Type 0} → Phase T → Part
part_of (scan start i) = working
part_of (pop_tasks cursor) = working
part_of (consume cursor t rest) = working
part_of (execute cursor t rest) = working
part_of (done_pending cursor rest) = working
part_of (done_wg cursor rest) = working
part_of leave_running = working
part_of leave_count = working
part_of add_to_idle = working
part_of parked = working
part_of close_start = closing
part_of close_buffer = closing
part_of close_channel = closing
part_of closed_hook = closing
part_of close_returned = closing
part_of _ = submitting

-- What a select finds ready beside the send.
pub data Ready : Type 0 where
  send_ready ctx_done pool_closed : Ready

abbrev pub is_zero : ℤ → Bool
is_zero (pos n) = n == 0
is_zero (negsuc n) = false

module _ {T : Type 0} (mode : WorkMode) (per_shard_cap : ℕ) where
  -- The cursor after `nextShard` has moved it
  unfoldable pub next_shard : Shared T → ℕ
  next_shard s = (s.send_seq + 1) % 2 ^ 64

  -- `nextShard` moves the cursor.
  unfoldable pub moved : Shared T → Shared T
  moved s = record s { send_seq = next_shard s }

  -- `select { case q <- task: ... default: }` on the shard of a cursor. The mask keeps the
  -- remainder, since the number of shards is a power of two.
  unfoldable pub send_at : ℕ → T → Shared T → Option (Shared T)
  send_at i t s =
      let q = get_or s.task_queues i [] in
      if ltb (length q) per_shard_cap
      then some (record s { task_queues = set s.task_queues i (q ++ t ∷ []) })
      else none

  unfoldable pub send_to : (seq : ℕ) → T → Shared T → Option (Shared T)
  send_to seq t s = send_at (seq % length s.task_queues) t s

  -- The non-blocking send of `submit`, or what comes where the channel is full.
  unfoldable pub sent_or : Option (Shared T) → Shared T → Phase T → Shared T × List (Phase T)
  sent_or (some s') s otherwise = (s', enqueued_hook ∷ [])
  sent_or none s otherwise = (s, otherwise ∷ [])

  -- What `PushAndForward` leaves: the oldest task of all is offered to the next shard, and leaves
  -- the buffer where it was taken.
  unfoldable pub forward_to : Option (Shared T) → List T → List T → Shared T → Shared T
  forward_to (some s') all rest s = record s' { buf = rest }
  forward_to none all rest s = record s { buf = all }

  unfoldable pub forward_first : List T → Shared T → Shared T
  forward_first [] s = s
  forward_first (x ∷ rest) s =
      forward_to (send_to (next_shard s) x (moved s)) (x ∷ rest) rest (moved s)

  unfoldable pub push_and_forward_step : T → Shared T → Shared T × List (Phase T)
  push_and_forward_step t s =
      if s.buf_closed
      then (s, refuse_pending ∷ [])
      else (if leb max_chunk_len (length s.buf)
          then (s, wait_shard t ∷ [])
          else (forward_first (s.buf ++ t ∷ []) s, enqueued_hook ∷ []))

  -- `startWorker`: a new goroutine that scans from the next shard.
  unfoldable pub started : Shared T → Shared T
  started s = record s { worker_seq = (s.worker_seq + 1) % 2 ^ 64 }

  unfoldable pub start_worker : Shared T → Phase T
  start_worker s = scan ((s.worker_seq + 1) % 2 ^ 64 % length s.task_queues) 0

  -- A scanned shard's first task is taken; an empty one sends the worker to the next shard.
  unfoldable pub take_from : (start i idx : ℕ) → List T → Shared T → Shared T × List (Phase T)
  take_from start i idx [] s = (s, scan start (i + 1) ∷ [])
  take_from start i idx (t ∷ q) s =
      (record s { task_queues = set s.task_queues idx q }, consume idx t [] ∷ [])

  unfoldable pub scan_step : (start i : ℕ) → Shared T → Shared T × List (Phase T)
  scan_step start i s =
      if ltb i (length s.task_queues)
      then (let idx = (start + i) % length s.task_queues in
          take_from start i idx (get_or s.task_queues idx []) s)
      else (s, pop_tasks start ∷ [])

  -- `PopBatch` of at most 8, and then the tasks in turn.
  unfoldable pub next_of : ℕ → List T → Phase T
  next_of cursor [] = scan cursor 0
  next_of cursor (t ∷ rest) = consume cursor t rest

  unfoldable pub after_batch : ℕ → List T → Phase T
  after_batch cursor [] = leave_running
  after_batch cursor (t ∷ rest) = consume cursor t rest

  -- The last select of `submit` has no default: it goes on only with what is ready.
  unfoldable pub sent_only : Option (Shared T) → Option (Shared T × List (Phase T))
  sent_only (some s') = some (s', enqueued_hook ∷ [])
  sent_only none = none

  unfoldable pub wait_step : Ready → T → ℕ → Shared T → Option (Shared T × List (Phase T))
  wait_step send_ready t i s = sent_only (send_to i t s)
  wait_step ctx_done t i s = some (s, refuse_pending ∷ [])
  wait_step pool_closed t i s = if s.close_pool_cn then some (s, refuse_pending ∷ []) else none

  unfoldable pub otherwise_first : WorkMode → T → Phase T
  otherwise_first nonblock t = refuse_pending
  otherwise_first block t = overflow t

  -- The next atomic step of `submit`: what is shared afterwards, and the goroutine itself with the
  -- one that it starts. `none` where it has returned, or waits.
  unfoldable pub advance_submit : Ready → Phase T → Shared T → Option (Shared T × List (Phase T))
  advance_submit r (submit_start t) s =
      some (record s { pending_tasks = s.pending_tasks +ℤ pos 1 }, submit_added t ∷ [])
  advance_submit r (submit_added t) s =
      some (record s { wg = s.wg +ℤ pos 1 }, submit_counted t ∷ [])
  advance_submit r (submit_counted t) s =
      some (s, (if s.closed then reject_pending else count_submit t) ∷ [])
  advance_submit r reject_pending s =
      some (record s { pending_tasks = s.pending_tasks -ℤ pos 1 }, reject_wg ∷ [])
  advance_submit r reject_wg s = some (record s { wg = s.wg -ℤ pos 1 }, returned false ∷ [])
  advance_submit r (count_submit t) s =
      some (record s { submit_count = s.submit_count + 1 }, cold_load t ∷ [])
  advance_submit r (cold_load t) s =
      some (s, (if is_zero s.running_workers_num then cold_swap t else submitted_hook t) ∷ [])
  advance_submit r (cold_swap t) s = some (
      if is_zero s.running_workers_num
      then (record s { running_workers_num = pos 1 }, cold_start t ∷ [])
      else (s, submitted_hook t ∷ []))
  advance_submit r (cold_start t) s = some (started s, submitted_hook t ∷ start_worker s ∷ [])
  advance_submit r (submitted_hook t) s = some (s, first_shard t ∷ [])
  advance_submit r (first_shard t) s = some (moved s, first_send t (next_shard s) ∷ [])
  advance_submit r (first_send t i) s = some (sent_or (send_to i t s) s (otherwise_first mode t))
  advance_submit r (overflow t) s = some (push_and_forward_step t s)
  advance_submit r (wait_shard t) s = some (moved s, full_wait t (next_shard s) ∷ [])
  advance_submit r (full_wait t i) s = wait_step r t i s
  advance_submit r refuse_pending s =
      some (record s { pending_tasks = s.pending_tasks -ℤ pos 1 }, refuse_wg ∷ [])
  advance_submit r refuse_wg s = some (record s { wg = s.wg -ℤ pos 1 }, returned false ∷ [])
  advance_submit r enqueued_hook s = some (s, returned true ∷ [])
  advance_submit r (returned b) s = none
  advance_submit r _ s = none

  -- The next atomic step of `worker.run`, with `runTask` and `done`.
  unfoldable pub advance_worker : Phase T → Shared T → Option (Shared T × List (Phase T))
  advance_worker (scan start i) s = some (scan_step start i s)
  advance_worker (pop_tasks cursor) s =
      some (record s { buf = drop 8 s.buf }, after_batch cursor (take 8 s.buf) ∷ [])
  advance_worker (consume cursor t rest) s =
      some (record s { consume_count = s.consume_count + 1 }, execute cursor t rest ∷ [])
  advance_worker (execute cursor t rest) s = some (s, done_pending cursor rest ∷ [])
  advance_worker (done_pending cursor rest) s =
      some (record s { pending_tasks = s.pending_tasks -ℤ pos 1 }, done_wg cursor rest ∷ [])
  advance_worker (done_wg cursor rest) s =
      some (record s { wg = s.wg -ℤ pos 1 }, next_of cursor rest ∷ [])
  advance_worker leave_running s =
      some (record s { running_workers_num = s.running_workers_num -ℤ pos 1 }, leave_count ∷ [])
  advance_worker leave_count s = some (record s { exit_count = s.exit_count + 1 }, add_to_idle ∷ [])
  advance_worker add_to_idle s = some (record s { idle_works = s.idle_works + 1 }, parked ∷ [])
  advance_worker parked s = none
  advance_worker _ s = none

  -- The next atomic step of `Close`
  unfoldable pub advance_close : Phase T → Shared T → Option (Shared T × List (Phase T))
  advance_close close_start s = some (
      if s.closed
      then (s, close_returned ∷ [])
      else (record s { closed = true }, close_buffer ∷ []))
  advance_close close_buffer s = some (record s { buf_closed = true }, close_channel ∷ [])
  advance_close close_channel s = some (record s { close_pool_cn = true }, closed_hook ∷ [])
  advance_close closed_hook s = some (s, close_returned ∷ [])
  advance_close close_returned s = none
  advance_close _ s = none

  unfoldable pub advance_part :
      Part → Ready → Phase T → Shared T → Option (Shared T × List (Phase T))
  advance_part submitting r ph s = advance_submit r ph s
  advance_part working r ph s = advance_worker ph s
  advance_part closing r ph s = advance_close ph s

  -- One atomic step of a goroutine
  unfoldable pub advance : Ready → Phase T → Shared T → Option (Shared T × List (Phase T))
  advance r ph s = advance_part (part_of ph) r ph s
