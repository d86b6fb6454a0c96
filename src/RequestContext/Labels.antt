-- ===== src/RequestContext/Labels.antt =====
-- The labels as a map: what is stored under a label is what is read from it, and Reset empties it.
use Prim.Native.String.{String}
use text.Mathlib.Text.{◌==◌ as str_eq}
use text.Mathlib.TextEquality.{eq_iff}
use text.Mathlib.TextPositions.{eq_refl}
use go_agile_pool.Prelude.{
  ◌≡◌, refl, sym, ◌∙◌, ap, Bool, true, false, ◌||◌, Bool-cases, inl, inr, Option, none, some, List,
  [], ◌∷◌, if◌then◌else◌,
}
use go_agile_pool.RequestContext.{
  Any, text_value, time_value, LabelMap, Times, empty, label_trace_id, label_timing, store, delete,
  keys, reset_loop, get, get_string, get_time, text_of, time_of, is_present, set_trace_id,
  enable_timing, is_timing_enabled, reset,
}

equal_keys : (k j : String) → str_eq k j ≡ true → k ≡ j
equal_keys k j e = (eq_iff k j).0 e

different_keys :
    (k key j : String) → str_eq k key ≡ false → str_eq k j ≡ true → str_eq key j ≡ false
different_keys k key j other e = elim (Bool-cases (str_eq key j)) [
  | inl f ↦
      let same = equal_keys k j e ∙ sym (equal_keys key j f) in
      cc (other, ap (str_eq k) same, eq_refl k)
  | inr f ↦ f
]

-- Whether a key is among some
abbrev listed : String → List String → Bool
listed j [] = false
listed j (k ∷ ks) = str_eq k j || listed j ks

module _ {T O : Type 0} where
  -- Two entries of different keys, in either order
  swap_tests :
      (k key j : String) (x y rest : Option (Any T O))
      → str_eq k key ≡ false
      → (if str_eq k j then x else (if str_eq key j then y else rest))
        ≡ (if str_eq key j then y else (if str_eq k j then x else rest))
  swap_tests k key j x y rest other = elim (Bool-cases (str_eq k j)) [
    | inl e ↦ rw (e, different_keys k key j other e) refl
    | inr e ↦ rw e refl
  ]

  pub get-store :
      (key j : String) (v : Any T O) (labels : LabelMap T O)
      → get (store key v labels) j ≡ (if str_eq key j then some v else get labels j)
  unfolding get store
  get-store key j v [] = refl
  get-store key j v ((k, u) ∷ labels) = elim (Bool-cases (str_eq k key)) [
    | inl e ↦
        let same = ap (λ x. str_eq x j) (equal_keys k key e) in
        rw (e, same) (elim (Bool-cases (str_eq key j)) [ inl f ↦ rw f refl | inr f ↦ rw f refl ])
    | inr e ↦
        rw (e, get-store key j v labels) (swap_tests k key j (some u) (some v) (get labels j) e)
  ]

  pub get-delete :
      (key j : String) (labels : LabelMap T O)
      → get (delete key labels) j ≡ (if str_eq key j then none else get labels j)
  unfolding get delete
  get-delete key j [] = elim (Bool-cases (str_eq key j)) [ inl f ↦ rw f refl | inr f ↦ rw f refl ]
  get-delete key j ((k, u) ∷ labels) = elim (Bool-cases (str_eq k key)) [
    | inl e ↦
        let same = ap (λ x. str_eq x j) (equal_keys k key e) in
        rw (e, same, get-delete key j labels)
          (elim (Bool-cases (str_eq key j)) [ inl f ↦ rw f refl | inr f ↦ rw f refl ])
    | inr e ↦ rw (e, get-delete key j labels) (swap_tests k key j (some u) none (get labels j) e)
  ]

  unlisted-none :
      (j : String) (labels : LabelMap T O) → listed j (keys labels) ≡ false → get labels j ≡ none
  unfolding get keys
  unlisted-none j [] h = refl
  unlisted-none j ((k, u) ∷ labels) h = elim (Bool-cases (str_eq k j)) [
    | inl e ↦ cc (rw e at h)
    | inr e ↦ rw e (unlisted-none j labels (rw e at h))
  ]

  -- A key that is still to be deleted, or has no entry, has none at the end.
  reset_loop-none :
      (ks : List String) (j : String) (labels : LabelMap T O)
      → (listed j ks ≡ false → get labels j ≡ none)
      → get (reset_loop ks labels) j ≡ none
  unfolding reset_loop
  reset_loop-none [] j labels h = h refl
  reset_loop-none (k ∷ ks) j labels h =
      reset_loop-none ks j (delete k labels) (λ out. rw (get-delete k j labels) (gone out))
    where
      gone : listed j ks ≡ false → (if str_eq k j then none else get labels j) ≡ none
      gone out = elim (Bool-cases (str_eq k j)) [
        | inl e ↦ rw e refl
        | inr e ↦ rw e (h (rw (e, out) refl))
      ]

  pub reset-none : (labels : LabelMap T O) (j : String) → get (reset labels) j ≡ none
  unfolding reset
  reset-none labels j = reset_loop-none (keys labels) j labels (unlisted-none j labels)

module _ {T O : Type 0} (times : Times T) where
  -- A label that is stored reads back: as it is by Get; by GetString as its text, and by GetTime as
  -- its time, where it has that type. Every other label reads as before. A stored trace id and
  -- enabled timing are seen, and after the loop of Reset no label is set.
  pub store-get :
      (key j id : String) (v : Any T O) (t : T) (labels : LabelMap T O)
      → (get (store key v labels) j ≡ (if str_eq key j then some v else get labels j))
        × (get_string {T = T} {O = O} (store key (text_value id) labels) key ≡ id)
        × (get_time {O = O} times (store key (time_value t) labels) key ≡ t)
        × (get_string (set_trace_id id labels) label_trace_id ≡ id)
        × (is_timing_enabled (enable_timing labels) ≡ true)
        × (get (reset labels) j ≡ none)
        × (is_timing_enabled (reset labels) ≡ false)
  unfolding get_string text_of get_time time_of set_trace_id enable_timing is_timing_enabled
      is_present
  store-get key j id v t labels = (
    get-store key j v labels,
    rw (get-store key key (text_value id) labels, eq_refl key) refl,
    rw (get-store key key (time_value t) labels, eq_refl key) refl,
    rw (get-store label_trace_id label_trace_id (text_value id) labels) refl,
    rw (get-store label_timing label_timing empty labels) refl,
    reset-none labels j,
    rw (reset-none labels label_timing) refl,
  )
