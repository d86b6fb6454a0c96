-- ===== src/Histogram.antt =====
-- histogram.go: the sliding-window histogram behind the scaler's rates.
-- A counter sample is never negative, so values are numbers; `high: -1` is `none`.
pub mod Window
pub mod Median
pub mod History
pub mod Quiet
mod Tests
use go_agile_pool.Prelude.{
  ℕ, suc, ◌+◌, ◌-◌, ◌*◌, ◌/◌, Bool, true, false, ◌&&◌, List, [], ◌∷◌, Option, none, some, leb, ltb,
  ◌==◌, if◌then◌else◌, length, get_or, set, replicate,
}

-- `bucketDef`
pub record BucketDef : Type 0 where
  pub low : ℕ
  pub high : Option ℕ

-- `histogram`
pub record Histogram : Type 0 where
  pub buckets : List BucketDef
  pub counts : List ℕ
  pub total : ℕ
  pub samples : List ℕ
  pub pos : ℕ
  pub filled : Bool

unfoldable pub new_histogram : List BucketDef → ℕ → Histogram
new_histogram bs window_size = record {
  buckets = bs;
  counts = replicate (length bs) 0;
  total = 0;
  samples = replicate window_size 0;
  pos = 0;
  filled = false;
}

-- `b.high == -1 || value <= b.high`
unfoldable pub below_high : Option ℕ → ℕ → Bool
below_high none value = true
below_high (some high) value = leb value high

unfoldable pub fits : BucketDef → ℕ → Bool
fits b value = leb b.low value && below_high b.high value

-- The loop of `bucketIndex` from index `i` on, with its fallback to the last bucket.
unfoldable pub bucket_index_from : List BucketDef → ℕ → ℕ → ℕ
bucket_index_from [] i value = i - 1
bucket_index_from (b ∷ bs) i value = if fits b value then i else bucket_index_from bs (suc i) value

unfoldable pub bucket_index : Histogram → ℕ → ℕ
bucket_index h value = bucket_index_from h.buckets 0 value

-- `if h.filled`: the sample about to be overwritten leaves its bucket.
unfoldable pub evict : Histogram → Histogram
evict h =
    let old_idx = get_or h.samples h.pos 0 in
    if h.filled
    then record h {
      counts = set h.counts old_idx (get_or h.counts old_idx 0 - 1);
      total = h.total - 1;
    }
    else h

-- The new sample is written and counted.
unfoldable pub write_sample : ℕ → Histogram → Histogram
write_sample idx h = record h {
  samples = set h.samples h.pos idx;
  counts = set h.counts idx (get_or h.counts idx 0 + 1);
  total = h.total + 1;
}

-- `h.pos++`, going back to 0 at the end of the ring.
unfoldable pub advance : Histogram → Histogram
advance h =
    if leb (length h.samples) (suc h.pos)
    then record h { pos = 0; filled = true }
    else record h { pos = suc h.pos }

unfoldable pub add : Histogram → ℕ → Histogram
add h value = advance (write_sample (bucket_index h value) (evict h))

-- Twice the midpoint of a bucket: the float64 values that `median` returns are multiples of one half.
unfoldable pub midpoint : BucketDef → Option ℕ → ℕ
midpoint b none = 2 * b.low
midpoint b (some high) = b.low + high

-- The loop of `median`, with the counts and the buckets that remain.
unfoldable pub median_from : List ℕ → List BucketDef → ℕ → ℕ → ℕ
median_from [] bs cum mid = 0
median_from (cnt ∷ cnts) [] cum mid = 0
median_from (cnt ∷ cnts) (b ∷ bs) cum mid =
    let rest = median_from cnts bs (cum + cnt) mid in
    if ltb mid (cum + cnt) then midpoint b b.high else rest

-- Twice what `median` returns.
unfoldable pub median : Histogram → ℕ
median h = if h.total == 0 then 0 else median_from h.counts h.buckets 0 (h.total / 2)

abbrev pub bucket : ℕ → Option ℕ → BucketDef
bucket l h = record { low = l; high = h }

unfoldable pub submit_buckets : List BucketDef
submit_buckets =
    bucket 0 (some 0)
    ∷ bucket 1 (some 5)
    ∷ bucket 6 (some 20)
    ∷ bucket 21 (some 100)
    ∷ bucket 101 (some 500)
    ∷ bucket 501 (some 2000)
    ∷ bucket 2001 (some 10000)
    ∷ bucket 10001 none
    ∷ []

unfoldable pub consume_buckets : List BucketDef
consume_buckets =
    bucket 0 (some 0)
    ∷ bucket 1 (some 5)
    ∷ bucket 6 (some 20)
    ∷ bucket 21 (some 100)
    ∷ bucket 101 (some 500)
    ∷ bucket 501 (some 2000)
    ∷ bucket 2001 (some 10000)
    ∷ bucket 10001 none
    ∷ []

unfoldable pub exit_buckets : List BucketDef
exit_buckets =
    bucket 0 (some 0)
    ∷ bucket 1 (some 2)
    ∷ bucket 3 (some 5)
    ∷ bucket 6 (some 10)
    ∷ bucket 11 (some 20)
    ∷ bucket 21 (some 50)
    ∷ bucket 51 (some 100)
    ∷ bucket 101 none
    ∷ []
