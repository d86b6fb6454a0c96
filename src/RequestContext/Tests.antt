-- ===== src/RequestContext/Tests.antt =====
-- The request context theorems at work. Times are numbers, 0 being the zero time.
use Prim.Native.String.{String, len, ◌++◌}
use text.Mathlib.TextPositions.{len-append}
use text.Mathlib.Text.{◌==◌ as str_eq}
use go_agile_pool.Prelude.{
  ℕ, ◌*◌, ◌∙◌, length, replicate, ◌≡◌, refl, true, false, ◌==◌, none, some, List, [], ◌∷◌,
  if◌then◌else◌, All, arith,
}
use go_agile_pool.Prelude.Int.{pos, ◌+ℤ◌, ◌-ℤ◌, ◌≤ℤ◌}
use go_agile_pool.RequestContext.{
  label_timing_submitted, label_timing_completed, text_value, time_value, empty, LabelMap, Times,
  label_trace_id, store, get, get_string, get_time, set_trace_id, enable_timing, is_timing_enabled,
  reset, queue_latency, handoff_latency, queue_wait_latency, total_latency, exec_latency, time_of,
  text_of,
}
use go_agile_pool.RequestContext.Labels.{store-get}
use go_agile_pool.RequestContext.Timing.{max_duration, saturated, Staged, latencies_add_up}
use go_agile_pool.RequestContext.Chain.{
  pool_context, other_key, Contexts, found, pointer, nothing, new_context, release, store_at,
  pool_context_from, get_from, inject, fresh,
}
use go_agile_pool.RequestContext.Found.{
  Wrapper, derive, add_value, wrap, LeavesKey, pool_context_from-wrap,
}
use go_agile_pool.RequestContext.Reuse.{
  no_contexts, takes, puts_back, stores, Reachable, start, later, new_context-none,
}
use go_agile_pool.RequestContext.Trace.{
  Caller, asking, returned, generating, generated, trace_of, Agrees, reachable-Agrees,
}
use go_agile_pool.RequestContext.Trace

abbrev clock : Times ℕ
clock = record { zero_time = 0; is_zero = λ t. t == 0; sub = λ a b. saturated (pos a -ℤ pos b) }

abbrev no_labels : LabelMap ℕ ℕ
no_labels = []

-- Submitted at 5, enqueued at 7, started at 20, completed at 21
abbrev stamped : LabelMap ℕ ℕ
stamped =
    ("_timing_submitted", time_value 5)
    ∷ ("_timing_enqueued", time_value 7)
    ∷ ("_timing_started", time_value 20)
    ∷ ("_timing_completed", time_value 21)
    ∷ []

store-get_example :
    (get (store "user" empty no_labels) "user"
      ≡ (if str_eq "user" "user" then some empty else none))
    × (get_string {T = ℕ} {O = ℕ} (store "user" (text_value "x1") no_labels) "user" ≡ "x1")
    × (get_time {O = ℕ} clock (store "user" (time_value 4) no_labels) "user" ≡ 4)
    × (get_string (set_trace_id "x1" no_labels) label_trace_id ≡ "x1")
    × (is_timing_enabled (enable_timing no_labels) ≡ true)
    × (get (reset no_labels) "user" ≡ none)
    × (is_timing_enabled (reset no_labels) ≡ false)
unfolding get store
store-get_example = store-get clock "user" "user" "x1" empty 4 no_labels

stamped-Staged : Staged clock (λ t. pos t) (λ a b. refl) stamped
unfolding get_time time_of get
stamped-Staged = record {
  submitted = refl;
  enqueued = refl;
  started = refl;
  completed = refl;
  enqueues = omega arith;
  starts = omega arith;
  completes = omega arith;
}

not_too_long :
    pos (get_time clock stamped label_timing_completed)
      -ℤ pos (get_time clock stamped label_timing_submitted)
    ≤ℤ max_duration
unfolding get_time time_of get ◌-ℤ◌
not_too_long = omega arith

latencies_add_up_example :
    (queue_latency clock stamped
      ≡ handoff_latency clock stamped +ℤ queue_wait_latency clock stamped)
    × (total_latency clock stamped ≡ queue_latency clock stamped +ℤ exec_latency clock stamped)
    × (pos 0 ≤ℤ handoff_latency clock stamped)
    × (pos 0 ≤ℤ queue_wait_latency clock stamped)
    × (pos 0 ≤ℤ exec_latency clock stamped)
latencies_add_up_example =
    latencies_add_up clock (λ t. pos t) (λ a b. refl) stamped stamped-Staged not_too_long

-- A value under another key, and a timeout
abbrev two_wrappers : List (Wrapper ℕ ℕ)
two_wrappers = add_value (other_key 3) nothing ∷ derive ∷ []

pool_context_from-wrap_example :
    let (c, s') = new_context {T = ℕ} {O = ℕ} false none no_contexts in
    pool_context_from 4 s' (wrap two_wrappers (pool_context c)) ≡ found (pointer c)
unfolding LeavesKey
pool_context_from-wrap_example =
    pool_context_from-wrap false none no_contexts two_wrappers 4 (refl, tt) (omega arith)

-- One context that was taken, labelled and put back
abbrev used_contexts : Contexts ℕ ℕ
used_contexts = release 0 (store_at 0 "user" empty (new_context false none no_contexts).1)

used-Reachable : Reachable used_contexts
unfolding new_context inject get_from fresh
used-Reachable =
    later (later (later start (takes false none)) (stores 0 "user" empty refl)) (puts_back 0)

new_context-none_example :
    let (c, s') = new_context true none used_contexts in get (s'.at c).labels "user" ≡ none
new_context-none_example = new_context-none used_contexts true none "user" used-Reachable

-- What `encode` makes of sixteen bytes
abbrev random_text : String
random_text = "abababababababababababababababab"

-- One caller has generated and stored an id while another was at the same place.
abbrev traced : LabelMap ℕ ℕ
traced = store label_trace_id (text_value random_text) no_labels

abbrev two_callers : List Caller
two_callers = returned random_text ∷ generating ∷ []

-- Two characters for each byte, whatever it is
encode : List ℕ → String
encode [] = ""
encode (b ∷ bs) = "ab" ++ encode bs

encode_len : (bytes : List ℕ) → len (encode bytes) ≡ 2 * length bytes
unfolding encode
encode_len [] = omega arith
encode_len (b ∷ bs) = len-append "ab" (encode bs) ∙ omega (arith, encode_len bs)

abbrev sixteen : List ℕ
sixteen = replicate 16 7

two_callers-Reachable : Trace.Reachable encode no_labels traced two_callers
unfolding Trace.trace_step get_string get store text_of Trace.trace_of Trace.new_trace_id
    Trace.IsRead encode
two_callers-Reachable =
    let first : Trace.Reachable encode no_labels no_labels (generating ∷ []) =
      Trace.later (Trace.later Trace.here (Trace.asks no_labels []))
        (Trace.goes_on none [] [] asking no_labels tt) in
    let both : Trace.Reachable encode no_labels no_labels (generating ∷ generating ∷ []) =
      Trace.later (Trace.later first (Trace.asks no_labels (generating ∷ [])))
        (Trace.goes_on none [] (generating ∷ []) asking no_labels tt) in
    let made : Trace.Reachable encode no_labels no_labels
        (generated random_text ∷ generating ∷ []) =
      Trace.later both
        (Trace.goes_on (some sixteen) [] (generating ∷ []) generating no_labels refl) in
    Trace.later made (Trace.goes_on none [] (generating ∷ []) (generated random_text) no_labels tt)

reachable-Agrees_example : All (Agrees (trace_of traced)) two_callers
reachable-Agrees_example =
    reachable-Agrees encode encode_len no_labels traced two_callers two_callers-Reachable
