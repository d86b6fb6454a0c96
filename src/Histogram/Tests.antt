-- ===== src/Histogram/Tests.antt =====
-- Witnesses and tests of the histogram.
use go_agile_pool.Prelude.{
  ℕ, suc, ◌≤◌, ◌<◌, ◌/◌, ◌≡◌, refl, List, [], ◌∷◌, some, map, get_elem?, arith,
}
use go_agile_pool.Histogram.{
  BucketDef, Histogram, new_histogram, bucket_index_from, bucket_index, evict, write_sample,
  advance, add, below_high, fits, midpoint, median_from, median, submit_buckets,
}
use go_agile_pool.Histogram.Window.{IsValid, window, add-IsValid, new_histogram-IsValid}
use go_agile_pool.Histogram.Median.{below, median_is_middle}
use go_agile_pool.Histogram.History.{add_all, last, index_in, window-add_all_new}

abbrev rates : List ℕ
rates = 0 ∷ 7 ∷ 30 ∷ 700 ∷ []

abbrev sampled : Histogram
sampled = add_all (new_histogram submit_buckets 3) rates

median-sampled : median sampled ≡ 121
unfolding median median_from midpoint add_all new_histogram submit_buckets add advance write_sample
    evict bucket_index bucket_index_from fits below_high
median-sampled = refl

sampled-IsValid : IsValid sampled
unfolding submit_buckets
sampled-IsValid = (window-add_all_new submit_buckets 3 rates (omega arith) (omega arith)).0

window-add_all_new_example :
    IsValid sampled × (window sampled ≡ last 3 (map (index_in submit_buckets) rates))
unfolding submit_buckets
window-add_all_new_example = window-add_all_new submit_buckets 3 rates (omega arith) (omega arith)

abbrev fresh : Histogram
fresh = new_histogram submit_buckets 3

fresh-IsValid : IsValid fresh
unfolding submit_buckets
fresh-IsValid = new_histogram-IsValid submit_buckets 3 (omega arith) (omega arith)

add-IsValid_example : IsValid (add fresh 7)
add-IsValid_example = add-IsValid fresh fresh-IsValid 7

median_is_middle_example :
    (i : ℕ) × (b : BucketDef) × (get_elem? sampled.buckets i ≡ some b)
    × (median sampled ≡ midpoint b b.high)
    × (below i (window sampled) ≤ sampled.total / 2)
    × (sampled.total / 2 < below (suc i) (window sampled))
unfolding add_all new_histogram add advance write_sample evict
median_is_middle_example = median_is_middle sampled sampled-IsValid (omega arith)
