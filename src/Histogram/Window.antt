-- ===== src/Histogram/Window.antt =====
-- The ring of samples as a window: the last samples, oldest first, and how often each occurs.
use mathlib.Core.List.{append_assoc, append-nil}
use go_agile_pool.Prelude.{
  ℕ, zero, suc, ◌+◌, ◌-◌, ◌≤◌, ◌<◌, ◌≡◌, refl, sym, ◌∙◌, Bool, true, false, List, [], ◌∷◌, ◌++◌,
  leb, ◌==◌, if◌then◌else◌, length, get_or, set, take, drop, arith, length-set, length-append,
  length-replicate, length-take, get_or-set, get_or-replicate, take-set_at, drop-set_at, drop_at,
  take_all, drop_all,
}
use go_agile_pool.Histogram.{
  BucketDef, Histogram, new_histogram, bucket_index_from, bucket_index, evict, write_sample,
  advance, add,
}

-- The samples tracked, oldest first.
abbrev pub window_of : Bool → List ℕ → ℕ → List ℕ
window_of true xs p = drop p xs ++ take p xs
window_of false xs p = take p xs

abbrev pub window : Histogram → List ℕ
window h = window_of h.filled h.samples h.pos

-- How often `i` occurs.
abbrev pub occurrences : ℕ → List ℕ → ℕ
occurrences i [] = 0
occurrences i (x ∷ xs) = (if x == i then 1 else 0) + occurrences i xs

pub occurrences-append :
    (i : ℕ) (xs ys : List ℕ) → occurrences i (xs ++ ys) ≡ occurrences i xs + occurrences i ys
occurrences-append i [] ys = omega arith
occurrences-append i (x ∷ xs) ys = omega (arith, occurrences-append i xs ys)

-- A window of at most `n` samples: a new one at the end, and the oldest one out when it is full.
abbrev pub slide : ℕ → List ℕ → ℕ → List ℕ
slide n xs v = if leb n (length xs) then drop 1 xs ++ v ∷ [] else xs ++ v ∷ []

abbrev pub AllBelow : ℕ → List ℕ → Type 0
AllBelow n [] = Unit {0}
AllBelow n (x ∷ xs) = (x < n) × AllBelow n xs

pub AllBelow-append :
    (n : ℕ) (xs ys : List ℕ) → AllBelow n xs → AllBelow n ys → AllBelow n (xs ++ ys)
AllBelow-append n [] ys h k = k
AllBelow-append n (x ∷ xs) ys h k = (h.0, AllBelow-append n xs ys h.1 k)

-- The counters agree with the window.
pub record IsValid (h : Histogram) : Type 0 where
  pub some_bucket : 0 < length h.buckets
  pub same_length : length h.counts ≡ length h.buckets
  pub in_ring : h.pos < length h.samples
  pub counted : h.total ≡ length (window h)
  pub indices : AllBelow (length h.buckets) (window h)
  pub tally : (i : ℕ) → get_or h.counts i 0 ≡ occurrences i (window h)

pub new_histogram-IsValid :
    (bs : List BucketDef) (n : ℕ) → 0 < length bs → 0 < n → IsValid (new_histogram bs n)
unfolding new_histogram
new_histogram-IsValid bs n hb hn = record {
  some_bucket = hb;
  same_length = length-replicate (length bs) 0;
  in_ring = omega (arith, length-replicate n (zero));
  counted = refl;
  indices = tt;
  tally = λ i. get_or-replicate (length bs) i 0;
}

pub bucket_index_from-lt :
    (bs : List BucketDef) (i v : ℕ) → 0 < length bs + i → bucket_index_from bs i v < length bs + i
unfolding bucket_index_from
bucket_index_from-lt [] i v h = omega arith
bucket_index_from-lt (b ∷ bs) i v h = ground (arith, bucket_index_from-lt bs (suc i) v)

pub bucket_index-lt :
    (h : Histogram) (v : ℕ) → 0 < length h.buckets → bucket_index h v < length h.buckets
unfolding bucket_index
bucket_index-lt h v p = omega (arith, bucket_index_from-lt h.buckets 0 v)

length-drop-take : (xs : List ℕ) (p : ℕ) → length (drop p xs ++ take p xs) ≡ length xs
length-drop-take [] zero = refl
length-drop-take [] (suc p) = refl
length-drop-take (x ∷ xs) zero = omega (arith, length-append {0} xs [])
length-drop-take (x ∷ xs) (suc p) = omega (
  arith,
  length-append {0} (drop p xs) (x ∷ take p xs),
  length-append {0} (drop p xs) (take p xs),
  length-drop-take xs p,
)

pub length-window_of :
    (f : Bool) (xs : List ℕ) (p : ℕ)
    → p < length xs
    → length (window_of f xs p) ≡ (if f then length xs else p)
length-window_of true xs p h = length-drop-take xs p
length-window_of false xs p h = omega (arith, length-take {0} p xs)

slide_full : (n : ℕ) (xs : List ℕ) (v : ℕ) → n ≤ length xs → slide n xs v ≡ drop 1 xs ++ v ∷ []
slide_full n xs v h = ground arith

slide_room : (n : ℕ) (xs : List ℕ) (v : ℕ) → length xs < n → slide n xs v ≡ xs ++ v ∷ []
slide_room n xs v h = ground arith

whole_after_write : (xs : List ℕ) (p v : ℕ) → suc p ≡ length xs → set xs p v ≡ take p xs ++ v ∷ []
whole_after_write xs p v e =
    sym (take_all (set xs p v) (suc p) (omega (arith, length-set {0} xs p v)))
    ∙ take-set_at xs p v (omega arith)

-- Where the write fills the last slot, the ring is read from its start.
window_of-wrap :
    (f : Bool) (xs : List ℕ) (p v : ℕ)
    → suc p ≡ length xs
    → set xs p v ++ [] ≡ slide (length xs) (window_of f xs p) v
window_of-wrap true xs p v e =
    rw
      (
        append-nil,
        slide_full (length xs) (drop p xs ++ take p xs) v (omega (arith, length-drop-take xs p)),
        drop_at xs p 0 (omega arith),
        drop_all xs (suc p) (omega arith),
      )
      (whole_after_write xs p v e)
window_of-wrap false xs p v e =
    rw (append-nil, slide_room (length xs) (take p xs) v (omega (arith, length-take {0} p xs)))
      (whole_after_write xs p v e)

window_of-step :
    (f : Bool) (xs : List ℕ) (p v : ℕ)
    → suc p < length xs
    → window_of f (set xs p v) (suc p) ≡ slide (length xs) (window_of f xs p) v
window_of-step true xs p v h =
    rw
      (
        slide_full (length xs) (drop p xs ++ take p xs) v (omega (arith, length-drop-take xs p)),
        drop_at xs p 0 (omega arith),
        drop-set_at xs p v,
        take-set_at xs p v (omega arith),
      )
      (sym (append_assoc (drop (suc p) xs) (take p xs) (v ∷ [])))
window_of-step false xs p v h =
    rw (slide_room (length xs) (take p xs) v (omega (arith, length-take {0} p xs)))
      (take-set_at xs p v (omega arith))

-- Adding a sample slides the window: the new index at its end, the oldest one out if it was full.
pub window-add :
    (h : Histogram) (v : ℕ)
    → h.pos < length h.samples
    → window (add h v) ≡ slide (length h.samples) (window h) (bucket_index h v)
unfolding add evict write_sample advance
window-add h v p = ground (
  arith,
  length-set h.samples h.pos (bucket_index h v),
  window_of-wrap h.filled h.samples h.pos (bucket_index h v),
  window_of-step h.filled h.samples h.pos (bucket_index h v),
)

-- A full ring is about to overwrite its oldest sample.
window_of-head :
    (xs : List ℕ) (p : ℕ)
    → p < length xs
    → window_of true xs p ≡ get_or xs p 0 ∷ drop 1 (window_of true xs p)
window_of-head xs p h = rw (drop_at xs p 0 h)

AllBelow-slide : (n k : ℕ) (xs : List ℕ) (v : ℕ) → AllBelow n xs → v < n → AllBelow n (slide k xs v)
AllBelow-slide n k [] v h p = ground arith
AllBelow-slide n k (x ∷ xs) v h p =
    ground (arith, AllBelow-append n xs (v ∷ []), AllBelow-append n (x ∷ xs) (v ∷ []))

pub samples-add : (h : Histogram) (v : ℕ) → length (add h v).samples ≡ length h.samples
unfolding add evict write_sample advance
samples-add h v = ground (arith, length-set h.samples h.pos (bucket_index h v))

pos-add : (h : Histogram) (v : ℕ) → h.pos < length h.samples → (add h v).pos < length h.samples
unfolding add evict write_sample advance
pos-add h v p = ground (arith, length-set h.samples h.pos (bucket_index h v))

-- What is left of the window once a full ring has given up its oldest sample.
abbrev kept : Histogram → List ℕ
kept h = if h.filled then drop 1 (window h) else window h

module _ (h : Histogram) (ok : IsValid h) where
  slide-kept : (v : ℕ) → slide (length h.samples) (window h) v ≡ kept h ++ v ∷ []
  slide-kept v = ground (arith, length-window_of h.filled h.samples h.pos, ok.in_ring)

  AllBelow-kept : AllBelow (length h.buckets) (kept h)
  AllBelow-kept = ground (arith, ok.indices, window_of-head h.samples h.pos ok.in_ring)

  total-evict : (evict h).total ≡ length (kept h)
  unfolding evict
  total-evict = ground (arith, ok.counted, window_of-head h.samples h.pos ok.in_ring)

  length_counts-evict : length (evict h).counts ≡ length h.buckets
  unfolding evict
  length_counts-evict = ground (
    arith,
    ok.same_length,
    length-set h.counts (get_or h.samples h.pos 0)
        (get_or h.counts (get_or h.samples h.pos 0) 0 - 1),
  )

  counts-evict : (i : ℕ) → get_or (evict h).counts i 0 ≡ occurrences i (kept h)
  unfolding evict
  counts-evict i =
      let old = get_or h.samples h.pos 0 in
      ground (
        arith,
        ok.tally i,
        ok.tally old,
        ok.same_length,
        ok.indices,
        window_of-head h.samples h.pos ok.in_ring,
        get_or-set h.counts old i (get_or h.counts old 0 - 1) 0,
      )

  module _ (v : ℕ) where
    idx_in : bucket_index h v < length h.buckets
    idx_in = bucket_index-lt h v ok.some_bucket

    pub buckets-add : (add h v).buckets ≡ h.buckets
    unfolding add evict write_sample advance
    buckets-add = ground arith

    total-add : (add h v).total ≡ length (kept h ++ bucket_index h v ∷ [])
    unfolding add write_sample advance
    total-add = ground (arith, total-evict, length-append (kept h) (bucket_index h v ∷ []))

    length_counts-add : length (add h v).counts ≡ length h.buckets
    unfolding add write_sample advance
    length_counts-add =
        let idx = bucket_index h v in
        ground (
          arith,
          length_counts-evict,
          length-set (evict h).counts idx (get_or (evict h).counts idx 0 + 1),
        )

    counts-add :
        (i : ℕ) → get_or (add h v).counts i 0 ≡ occurrences i (kept h ++ bucket_index h v ∷ [])
    unfolding add write_sample advance
    counts-add i =
        let idx = bucket_index h v in
        ground (
          arith,
          idx_in,
          length_counts-evict,
          counts-evict i,
          counts-evict idx,
          occurrences-append i (kept h) (idx ∷ []),
          get_or-set (evict h).counts idx i (get_or (evict h).counts idx 0 + 1) 0,
        )

    -- `add` keeps the counters in agreement with the window.
    pub add-IsValid : IsValid (add h v)
    add-IsValid =
        let moved = window-add h v ok.in_ring ∙ slide-kept (bucket_index h v) in
        record {
          some_bucket = rw buckets-add ok.some_bucket;
          same_length = rw (buckets-add, length_counts-add);
          in_ring = rw samples-add (pos-add h v ok.in_ring);
          counted = rw moved total-add;
          indices =
              rw (moved, buckets-add)
                (AllBelow-append _ (kept h) (bucket_index h v ∷ []) AllBelow-kept (idx_in, tt));
          tally = λ i. rw moved (counts-add i);
        }
