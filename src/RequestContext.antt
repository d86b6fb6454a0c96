-- ===== src/RequestContext.antt =====
-- internal/context/context.go: the labels of a request context, their typed readers, and the
-- latencies. `T` is the type of times and `O` that of all other label values.
pub mod Labels
pub mod Timing
pub mod Chain
pub mod Found
pub mod Trace
pub mod Reuse
mod Tests
use Prim.Native.String.{String}
use text.Mathlib.Text.{◌==◌ as str_eq}
use go_agile_pool.Prelude.{
  Bool, true, false, ◌||◌, Option, none, some, List, [], ◌∷◌, if◌then◌else◌,
}
use go_agile_pool.Prelude.Int.{ℤ, pos}

abbrev pub label_trace_id : String
label_trace_id = "trace_id"

abbrev pub label_timing : String
label_timing = "_timing"

abbrev pub label_timing_submitted : String
label_timing_submitted = "_timing_submitted"

abbrev pub label_timing_enqueued : String
label_timing_enqueued = "_timing_enqueued"

abbrev pub label_timing_started : String
label_timing_started = "_timing_started"

abbrev pub label_timing_completed : String
label_timing_completed = "_timing_completed"

-- What a label of type `any` can hold; `empty` is `Empty{}`.
pub data Any (T O : Type 0) : Type 0 where
  text_value : String → Any T O
  time_value : T → Any T O
  empty : Any T O
  other : O → Any T O

-- `map[string]any`, as its entries
abbrev pub LabelMap : Type 0 → Type 0 → Type 0
LabelMap T O = List (String × Any T O)

-- What is used of `time.Time`
pub record Times (T : Type 0) : Type 0 where
  pub zero_time : T
  pub is_zero : T → Bool
  pub sub : T → T → ℤ

module _ {T : Type 0} (times : Times T) where
  -- The time from one stage to another, or 0 where one is missing
  pub between : T → T → ℤ
  between from to = if times.is_zero from || times.is_zero to then pos 0 else times.sub to from

module _ {T O : Type 0} where
  -- `delete(labels, key)`
  unfoldable pub delete : String → LabelMap T O → LabelMap T O
  delete key [] = []
  delete key ((k, v) ∷ labels) =
      let rest = delete key labels in if str_eq k key then rest else (k, v) ∷ rest

  unfoldable pub keys : LabelMap T O → List String
  keys [] = []
  keys ((k, v) ∷ labels) = k ∷ keys labels

  -- The loop of `Reset`, over the keys that are left
  unfoldable pub reset_loop : List String → LabelMap T O → LabelMap T O
  reset_loop [] labels = labels
  reset_loop (k ∷ ks) labels = reset_loop ks (delete k labels)

  -- `Reset`
  unfoldable pub reset : LabelMap T O → LabelMap T O
  unfolding reset_loop keys
  reset labels = reset_loop (keys labels) labels

  -- `Store`: `labels[key] = value`
  unfoldable pub store : String → Any T O → LabelMap T O → LabelMap T O
  store key value [] = (key, value) ∷ []
  store key value ((k, v) ∷ labels) =
      let rest = store key value labels in
      if str_eq k key then (key, value) ∷ labels else (k, v) ∷ rest

  -- `Get`: `v, ok := labels[key]`
  unfoldable pub get : LabelMap T O → String → Option (Any T O)
  get [] key = none
  get ((k, v) ∷ labels) key = let rest = get labels key in if str_eq k key then some v else rest

  unfoldable pub text_of : Option (Any T O) → String
  text_of (some (text_value s)) = s
  text_of _ = ""

  -- `GetString`
  unfoldable pub get_string : LabelMap T O → String → String
  unfolding text_of
  get_string labels key = text_of (get labels key)

  -- `SetTraceID`
  pub set_trace_id : String → LabelMap T O → LabelMap T O
  set_trace_id id labels = store label_trace_id (text_value id) labels

  -- `EnableTiming`
  pub enable_timing : LabelMap T O → LabelMap T O
  enable_timing labels = store label_timing empty labels

  unfoldable pub is_present : Option (Any T O) → Bool
  is_present none = false
  is_present (some v) = true

  -- `IsTimingEnabled`
  pub is_timing_enabled : LabelMap T O → Bool
  unfolding is_present
  is_timing_enabled labels = is_present (get labels label_timing)

  module _ (times : Times T) where
    open times use {zero_time, is_zero}

    time_of : Option (Any T O) → T
    time_of (some (time_value t)) = t
    time_of _ = zero_time

    -- `GetTime`
    unfoldable pub get_time : LabelMap T O → String → T
    unfolding time_of
    get_time labels key = time_of (get labels key)

    -- `Timing`
    pub timing : LabelMap T O → T × T × T × T
    timing labels = (
      get_time labels label_timing_submitted,
      get_time labels label_timing_enqueued,
      get_time labels label_timing_started,
      get_time labels label_timing_completed,
    )

    pub total_latency : LabelMap T O → ℤ
    unfolding timing between
    total_latency labels =
        let (submitted, _, _, completed) = timing labels in between times submitted completed

    pub queue_latency : LabelMap T O → ℤ
    unfolding timing between
    queue_latency labels =
        let (submitted, _, started, _) = timing labels in between times submitted started

    pub exec_latency : LabelMap T O → ℤ
    unfolding timing between
    exec_latency labels =
        let (_, _, started, completed) = timing labels in between times started completed

    pub handoff_latency : LabelMap T O → ℤ
    unfolding timing between
    handoff_latency labels =
        let (submitted, enqueued, _, _) = timing labels in between times submitted enqueued

    pub queue_wait_latency : LabelMap T O → ℤ
    unfolding timing between
    queue_wait_latency labels =
        let (_, enqueued, started, _) = timing labels in between times enqueued started

    -- `Duration`; `since` is `time.Since`.
    pub duration : (since : T → ℤ) → LabelMap T O → ℤ
    duration since labels =
        let start = get_time labels label_timing_started in
        if is_zero start then pos 0 else since start
