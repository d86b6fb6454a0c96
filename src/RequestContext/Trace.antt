-- ===== src/RequestContext/Trace.antt =====
-- internal/context/context.go, TraceID, and internal/context/utils.go: goroutines that ask one
-- context for its trace id, each a locked section at a time, with the generation of an id outside the
-- lock. The bytes that `rand.Read` fills, or its error, and `hex.EncodeToString` are parameters.
use Prim.Native.String.{String, len}
use text.Mathlib.Text.{◌==◌ as str_eq}
use text.Mathlib.TextEquality.{eq_iff}
use go_agile_pool.Prelude.{
  ℕ, ◌*◌, ◌≡◌, refl, ap, length, arith, Bool, true, false, Bool-cases, inl, inr, Option, none, some,
  List, [], ◌∷◌, ◌++◌, if◌then◌else◌, All, All-append, All-append_left, All-append_right, All-map,
}
use go_agile_pool.RequestContext.{text_value, LabelMap, label_trace_id, store, get_string, text_of}
use go_agile_pool.RequestContext.Labels.{get-store}

-- Where a caller of TraceID stands
pub data Caller : Type 0 where
  asking generating : Caller
  generated : String → Caller
  failed : Caller
  returned : String → Caller

random_id : Option String → Caller
random_id none = failed
random_id (some id) = generated id

-- `newTraceID`, with what `rand.Read` did to its array
unfoldable pub new_trace_id : (encode : List ℕ → String) → Option (List ℕ) → Option String
new_trace_id encode none = none
new_trace_id encode (some bytes) = some (encode bytes)

-- The array has 16 bytes.
unfoldable pub IsRead : Option (List ℕ) → Type 0
IsRead none = Unit
IsRead (some bytes) = length bytes ≡ 16

-- An id that is generated is not empty.
IsRandomId : Option String → Type 0
IsRandomId none = Unit
IsRandomId (some id) = str_eq id "" ≡ false

new_trace_id-IsRandomId :
    (encode : List ℕ → String) (read : Option (List ℕ))
    → ((bytes : List ℕ) → len (encode bytes) ≡ 2 * length bytes)
    → IsRead read
    → IsRandomId (new_trace_id encode read)
unfolding new_trace_id IsRead IsRandomId
new_trace_id-IsRandomId encode none law r = tt
new_trace_id-IsRandomId encode (some bytes) law r = elim (Bool-cases (str_eq (encode bytes) "")) [
  | inl e ↦
      let no_length : len (encode bytes) ≡ 0 = ap len ((eq_iff (encode bytes) "").0 e) in
      absurd (omega (arith, no_length, law bytes, r))
  | inr e ↦ e
]

-- A caller that has returned an id has returned the one that is set.
pub Agrees : String → Caller → Type 0
Agrees id (returned own) = (own ≡ id) × (str_eq id "" ≡ false)
Agrees id (generated new) = str_eq new "" ≡ false
Agrees id _ = Unit

Agrees-unset : (id new : String) (c : Caller) → str_eq id "" ≡ true → Agrees id c → Agrees new c
unfolding Agrees
Agrees-unset id new asking e h = tt
Agrees-unset id new generating e h = tt
Agrees-unset id new (generated x) e h = h
Agrees-unset id new failed e h = tt
Agrees-unset id new (returned x) e h = cc (h.1)

module _ {T O : Type 0} where
  -- The trace id that is set, "" where none is.
  unfoldable pub trace_of : LabelMap T O → String
  trace_of labels = get_string labels label_trace_id

  store_unless : Bool → String → LabelMap T O → LabelMap T O × Caller
  store_unless unset id labels =
      if unset
      then (store label_trace_id (text_value id) labels, returned id)
      else (labels, returned (trace_of labels))

  -- The next section of TraceID; `id` is what newTraceID returns, where it is called.
  unfoldable pub trace_step : (id : Option String) → Caller → LabelMap T O → LabelMap T O × Caller
  unfolding store_unless random_id trace_of
  trace_step id asking labels =
      (labels, if str_eq (trace_of labels) "" then generating else returned (trace_of labels))
  trace_step id generating labels = (labels, random_id id)
  trace_step id (generated new) labels = store_unless (str_eq (trace_of labels) "") new labels
  trace_step id failed labels = (labels, failed)
  trace_step id (returned old) labels = (labels, returned old)

  -- Where an id is stored, it is the one that is set.
  trace_of-store :
      (id : String) (labels : LabelMap T O)
      → trace_of (store label_trace_id (text_value id) labels) ≡ id
  unfolding trace_of get_string text_of
  trace_of-store id labels =
      rw (get-store label_trace_id label_trace_id (text_value id) labels) refl

  -- Another caller comes, or one of them goes on.
  pub data Step (encode : List ℕ → String)
      : LabelMap T O → List Caller → LabelMap T O → List Caller → Type 0 where
    asks : (labels : LabelMap T O) (cs : List Caller) → Step encode labels cs labels (asking ∷ cs)
    goes_on :
        (read : Option (List ℕ)) (before after : List Caller) (c : Caller) (labels : LabelMap T O)
        → IsRead read
        → Step encode labels
            (before ++ c ∷ after)
            (trace_step (new_trace_id encode read) c labels).0
            (before ++ (trace_step (new_trace_id encode read) c labels).1 ∷ after)

  pub data Reachable (encode : List ℕ → String) (start : LabelMap T O)
      : LabelMap T O → List Caller → Type 0 where
    here : Reachable encode start start []
    later :
        {l l' : LabelMap T O} {cs cs' : List Caller}
        → Reachable encode start l cs
        → Step encode l cs l' cs'
        → Reachable encode start l' cs'

  -- A caller's step keeps the others in agreement, and agrees.
  step-Agrees :
      (id : Option String) (c : Caller) (labels : LabelMap T O)
      → IsRandomId id
      → Agrees (trace_of labels) c
      → let (labels', c') = trace_step id c labels in
        Agrees (trace_of labels') c'
        × ((d : Caller) → Agrees (trace_of labels) d → Agrees (trace_of labels') d)
  unfolding trace_step random_id Agrees IsRandomId store_unless
  step-Agrees id asking labels r h = elim (Bool-cases (str_eq (trace_of labels) "")) [
    | inl e ↦ rw e (tt, λ d a. a)
    | inr e ↦ rw e ((refl, e), λ d a. a)
  ]
  step-Agrees none generating labels r h = (tt, λ d a. a)
  step-Agrees (some id) generating labels r h = (r, λ d a. a)
  step-Agrees id (generated new) labels r h = elim (Bool-cases (str_eq (trace_of labels) "")) [
    | inl e ↦
        rw (e, trace_of-store new labels)
          ((refl, h), λ d a. Agrees-unset (trace_of labels) new d e a)
    | inr e ↦ rw e ((refl, e), λ d a. a)
  ]
  step-Agrees id failed labels r h = (tt, λ d a. a)
  step-Agrees id (returned old) labels r h = (h, λ d a. a)

  module _ (encode : List ℕ → String)
      (encode_len : (bytes : List ℕ) → len (encode bytes) ≡ 2 * length bytes) where
    -- All callers' agreement goes through a step.
    Step-Agrees :
        (l l' : LabelMap T O) (cs cs' : List Caller)
        → Step encode l cs l' cs'
        → All (Agrees (trace_of l)) cs
        → All (Agrees (trace_of l')) cs'
    unfolding Agrees
    Step-Agrees l _ cs _ (asks _ _) h = (tt, h)
    Step-Agrees l _ _ _ (goes_on read before rest c _ r) h =
        let id = new_trace_id encode read in
        let P = Agrees (trace_of l) in
        let Q = Agrees (trace_of (trace_step id c l).0) in
        let left = All-append_left P before (c ∷ rest) h in
        let right = All-append_right P before (c ∷ rest) h in
        let random = new_trace_id-IsRandomId encode read encode_len r in
        let (own, others) = step-Agrees id c l random right.0 in
        All-append Q before ((trace_step id c l).1 ∷ rest) (All-map P Q before others left)
          (own, All-map P Q rest others right.1)

    -- However many callers ask for the trace id at once, and whatever bytes they read: in every
    -- reached state each caller that has returned an id has returned the one that is set, so all of
    -- them have the same, and it is not empty; where hex.EncodeToString writes two characters a
    -- byte.
    pub reachable-Agrees :
        (start l : LabelMap T O) (cs : List Caller)
        → Reachable encode start l cs
        → All (Agrees (trace_of l)) cs
    reachable-Agrees start _ _ here = tt
    reachable-Agrees start l cs (later {l = k} {cs = ds} r step) =
        Step-Agrees k l ds cs step (reachable-Agrees start k ds r)
