-- ===== src/Histogram/Quiet.antt =====
-- The consumption histogram behind a window in which nothing was consumed.
use mathlib.Core.List.{map-append}
use go_agile_pool.Prelude.{
  ℕ, zero, suc, ◌+◌, ◌-◌, ◌/◌, ◌≤◌, ◌<◌, ◌≡◌, refl, sym, ap, ◌∙◌, subst, some, List, [], ◌∷◌, ◌++◌,
  map, length, drop, get_elem?, length-append, length-map, All, arith,
}
use go_agile_pool.Histogram.{
  Histogram, BucketDef, bucket, new_histogram, bucket_index_from, fits, below_high, median,
  midpoint, consume_buckets,
}
use go_agile_pool.Histogram.Window.{window, IsValid}
use go_agile_pool.Histogram.Median.{below, median_is_middle}
use go_agile_pool.Histogram.History.{
  add_all, length-drop, buckets-add_all_new, last, index_in, window-add_all_new,
}

abbrev pub AllZero : List ℕ → Type 0
AllZero = All (λ x. x ≡ 0)

drop-AllZero : (k : ℕ) (xs ys : List ℕ) → length xs ≤ k → AllZero ys → AllZero (drop k (xs ++ ys))
drop-AllZero zero [] ys h z = z
drop-AllZero (suc k) [] [] h z = tt
drop-AllZero (suc k) [] (y ∷ ys) h z = drop-AllZero k [] ys (omega arith) z.1
drop-AllZero zero (x ∷ xs) ys h z = elim h [ ]
drop-AllZero (suc k) (x ∷ xs) ys h z = drop-AllZero k xs ys (omega arith) z

below-AllZero : (i : ℕ) (xs : List ℕ) → AllZero xs → below (suc i) xs ≡ length xs
below-AllZero i [] z = refl
below-AllZero i (x ∷ xs) z = ground (arith, below-AllZero i xs z.1)

length-last : (n : ℕ) (xs : List ℕ) → n ≤ length xs → length (last n xs) ≡ n
length-last n xs h = omega (arith, length-drop (length xs - n) xs)

index-AllZero : (xs : List ℕ) → AllZero xs → AllZero (map (index_in consume_buckets) xs)
unfolding consume_buckets bucket_index_from fits below_high
index-AllZero [] z = tt
index-AllZero (x ∷ xs) z = (ground arith, index-AllZero xs z.1)

some_bucket : 0 < length consume_buckets
unfolding consume_buckets
some_bucket = omega arith

zero_bucket :
    (w : List ℕ) (i : ℕ) (b : BucketDef)
    → get_elem? consume_buckets i ≡ some b
    → AllZero w
    → 0 < length w
    → below i w ≤ length w / 2
    → midpoint b b.high ≡ 0
unfolding consume_buckets midpoint
zero_bucket w zero b at z p lo = let e : bucket 0 (some 0) ≡ b = cc at in rw (← e) (omega arith)
zero_bucket w (suc i) b at z p lo = absurd (omega (arith, below-AllZero i w z))

-- A window of zeros has the median 0.
median-AllZero :
    (h : Histogram)
    → IsValid h
    → h.buckets ≡ consume_buckets
    → 0 < length (window h)
    → AllZero (window h)
    → median h ≡ 0
median-AllZero h ok e p z =
    let (i, b, at, m, lo, hi) = median_is_middle h ok (omega (arith, ok.counted)) in
    m
    ∙ zero_bucket (window h) i b (subst (λ bs. get_elem? bs i ≡ some b) e at) z p
        (omega (arith, ok.counted, lo))

-- After as many samples of 0 as the window holds the median is 0, whatever came before.
pub median-quiet :
    (n : ℕ) (seen quiet : List ℕ)
    → 0 < n
    → n ≤ length quiet
    → AllZero quiet
    → median (add_all (new_histogram consume_buckets n) (seen ++ quiet)) ≡ 0
median-quiet n seen quiet some_window enough z =
    let f = index_in consume_buckets in
    let h = add_all (new_histogram consume_buckets n) (seen ++ quiet) in
    let (ok, w) = window-add_all_new consume_buckets n (seen ++ quiet) some_bucket some_window in
    let two = map f seen ++ map f quiet in
    let w' : window h ≡ last n two = w ∙ ap (last n) (map-append f seen quiet) in
    let size : length two ≡ length seen + length quiet =
      omega
        (arith, length-append (map f seen) (map f quiet), length-map f seen, length-map f quiet) in
    let zeros =
      drop-AllZero (length two - n) (map f seen) (map f quiet) (omega (arith, length-map f seen))
        (index-AllZero quiet z) in
    median-AllZero h ok
      (buckets-add_all_new consume_buckets n (seen ++ quiet) some_bucket some_window)
      (omega (arith, ap length w', length-last n two (omega arith))) (subst AllZero (sym w') zeros)
