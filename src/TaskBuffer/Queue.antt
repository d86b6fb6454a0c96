-- ===== src/TaskBuffer/Queue.antt =====
-- `PushAndForward` against the bounded queue of the buffered tasks.
use go_agile_pool.Prelude.{
  ◌≤◌, ◌<◌, ◌≡◌, refl, Bool, true, false, List, [], ◌∷◌, ◌++◌, Option, none, some, leb,
  if◌then◌else◌, length, tail, arith, Bool-cases, inl, inr,
}
use go_agile_pool.TaskBuffer.{
  Buffer, accepted, closed, full, max_chunk_len, push_tail, peek_head, forward, push_and_forward,
  len, new_chunked_task_buffer,
}
use go_agile_pool.TaskBuffer.Repr.{new-Holds}
use go_agile_pool.TaskBuffer.Push.{IsQueue, push_tail-IsQueue}
use go_agile_pool.TaskBuffer.Pop.{Peeked, peek_head-Peeked, pop_head-Popped}

module _ {T : Type 0} where
  pub len-IsQueue : (b : Buffer T) (xs : List T) → IsQueue b xs → len b ≡ length xs
  unfolding len
  len-IsQueue b xs (g, h) = h.counted

  -- The oldest task of a queue with `t` behind it.
  abbrev pub first_or : T → List T → T
  first_or t [] = t
  first_or t (x ∷ xs) = x

  abbrev pub rest_with : T → List T → List T
  rest_with t xs = tail (xs ++ t ∷ [])

  module _ {S : Type 0} (try_forward : Option T → S → Bool × S) where
    forward_lem :
        (x : T) (xs : List T) (r : Option (Option T)) (b : Buffer T) (s : S)
        → Peeked (x ∷ xs) (r, b)
        → let (sent, s') = try_forward (some x) s in
          ((forward try_forward (r, b) s).0 ≡ s')
          × IsQueue (forward try_forward (r, b) s).1 (if sent then xs else x ∷ xs)
    unfolding forward
    forward_lem x xs none b s h = cc (h.0)
    forward_lem x xs (some t) b s (e, g, h, room) =
        let same : t ≡ some x = cc e in
        let popped = pop_head-Popped b (x ∷ xs) (g, h) in
        rw same (
          refl,
          elim (Bool-cases (try_forward (some x) s).0) [
            | inl sent ↦ rw sent popped.1
            | inr kept ↦ rw kept (g, h)
          ],
        )

    forward-IsQueue :
        (t : T) (xs : List T) (pb : Option (Option T) × Buffer T) (s : S)
        → Peeked (xs ++ t ∷ []) pb
        → let (sent, s') = try_forward (some (first_or t xs)) s in
          ((forward try_forward pb s).0 ≡ s')
          × IsQueue (forward try_forward pb s).1 (if sent then rest_with t xs else xs ++ t ∷ [])
    forward-IsQueue t [] (r, b) s h = forward_lem t [] r b s h
    forward-IsQueue t (x ∷ xs) (r, b) s h = forward_lem x (xs ++ t ∷ []) r b s h

    -- `PushAndForward` on a buffer that holds the queue `xs`: a closed buffer and a full one refuse
    -- the task and change nothing. Otherwise the task is accepted behind `xs`, the oldest task of
    -- all is offered to `tryForward`, and it leaves the queue exactly when it was taken.
    pub push_and_forward_lem :
        (t : T) (b : Buffer T) (s : S) (xs : List T)
        → IsQueue b xs
        → (b.overflow_closed ≡ true → push_and_forward try_forward t b s ≡ (closed, s, b))
          × (b.overflow_closed ≡ false
              → max_chunk_len ≤ length xs
              → push_and_forward try_forward t b s ≡ (full, s, b))
          × (b.overflow_closed ≡ false
              → length xs < max_chunk_len
              → let (sent, s') = try_forward (some (first_or t xs)) s in
                let (result, s'', b') = push_and_forward try_forward t b s in
                (result ≡ accepted)
                × (s'' ≡ s')
                × IsQueue b' (if sent then rest_with t xs else xs ++ t ∷ []))
    unfolding push_and_forward
    push_and_forward_lem t b s xs h =
        let count = len-IsQueue b xs h in
        let moved =
          forward-IsQueue t xs (peek_head (push_tail t b)) s
            (peek_head-Peeked (push_tail t b) (xs ++ t ∷ []) (push_tail-IsQueue xs t b h)) in
        (
          λ is_closed. simp is_closed,
          λ is_open is_full.
              let test : leb max_chunk_len b.chunk_len ≡ true = ground (arith, h.1.counted) in
              simp (is_open, test),
          λ is_open room.
              let test : leb max_chunk_len b.chunk_len ≡ false = ground (arith, h.1.counted) in
              simp (is_open, test) (refl, moved.0, moved.1),
        )

-- A new buffer holds the empty queue.
pub new-IsQueue : (T : Type 0) → IsQueue {T = T} new_chunked_task_buffer []
new-IsQueue T = (_, new-Holds)
