-- ===== src/TaskBuffer/Tests.antt =====
-- Witnesses and tests of the overflow buffer.
use go_agile_pool.Prelude.{ℕ, ◌≤◌, ◌<◌, ◌≡◌, Bool, true, false, List, [], ◌∷◌, Option, some}
use go_agile_pool.TaskBuffer.{
  Buffer, accepted, closed, full, max_chunk_len, new_chunked_task_buffer, push_tail, pop_batch,
  push_and_forward,
}
use go_agile_pool.TaskBuffer.Push.{IsQueue, push_tail-IsQueue}
use go_agile_pool.TaskBuffer.Pop.{pop_batch-take}
use go_agile_pool.TaskBuffer.Queue.{push_and_forward_lem, new-IsQueue}

abbrev fresh : Buffer ℕ
fresh = new_chunked_task_buffer

abbrev two_tasks : Buffer ℕ
two_tasks = push_tail 8 (push_tail 7 fresh)

two_tasks-IsQueue : IsQueue two_tasks (7 ∷ 8 ∷ [])
two_tasks-IsQueue =
    push_tail-IsQueue (7 ∷ []) 8 (push_tail 7 fresh) (push_tail-IsQueue [] 7 fresh (new-IsQueue ℕ))

push_tail-IsQueue_example : IsQueue (push_tail 9 two_tasks) (7 ∷ 8 ∷ 9 ∷ [])
push_tail-IsQueue_example = push_tail-IsQueue (7 ∷ 8 ∷ []) 9 two_tasks two_tasks-IsQueue

pop_batch-take_example :
    ((pop_batch 8 two_tasks).0 ≡ some 7 ∷ some 8 ∷ []) × IsQueue (pop_batch 8 two_tasks).1 []
pop_batch-take_example = pop_batch-take 8 two_tasks (7 ∷ 8 ∷ []) two_tasks-IsQueue

-- A handoff queue of one place.
abbrev offer : Option ℕ → List (Option ℕ) → Bool × List (Option ℕ)
offer t [] = (true, t ∷ [])
offer t (x ∷ xs) = (false, x ∷ xs)

push_and_forward_lem_example :
    (two_tasks.overflow_closed ≡ true
      → push_and_forward offer 9 two_tasks [] ≡ (closed, [], two_tasks))
    × (two_tasks.overflow_closed ≡ false
        → max_chunk_len ≤ 2
        → push_and_forward offer 9 two_tasks [] ≡ (full, [], two_tasks))
    × (two_tasks.overflow_closed ≡ false
        → 2 < max_chunk_len
        → let (result, s, b) = push_and_forward offer 9 two_tasks [] in
          (result ≡ accepted) × (s ≡ some 7 ∷ []) × IsQueue b (8 ∷ 9 ∷ []))
push_and_forward_lem_example =
    push_and_forward_lem offer 9 two_tasks [] (7 ∷ 8 ∷ []) two_tasks-IsQueue
