-- ===== src/Histogram/Median.antt =====
-- `median` against the samples of the window.
use go_agile_pool.Prelude.{
  ℕ, zero, suc, ◌+◌, ◌/◌, ◌≤◌, ◌<◌, ◌≡◌, refl, ap, sym, ◌∙◌, List, [], ◌∷◌, some, ltb,
  if◌then◌else◌, length, get_elem?, get_or, take, arith, take_all, Bool-cases, inl, inr,
}
use go_agile_pool.Histogram.{BucketDef, Histogram, midpoint, median_from, median}
use go_agile_pool.Histogram.Window.{window, occurrences, AllBelow, IsValid}

abbrev sum : List ℕ → ℕ
sum [] = 0
sum (x ∷ xs) = x + sum xs

-- How many samples lie in a bucket before `i`.
abbrev pub below : ℕ → List ℕ → ℕ
below i [] = 0
below i (x ∷ xs) = (if ltb x i then 1 else 0) + below i xs

below-suc : (i : ℕ) (xs : List ℕ) → below (suc i) xs ≡ below i xs + occurrences i xs
below-suc i [] = omega arith
below-suc i (x ∷ xs) = ground (arith, below-suc i xs)

below-zero : (xs : List ℕ) → below 0 xs ≡ 0
below-zero [] = refl
below-zero (x ∷ xs) = ground (arith, below-zero xs)

below_all : (n : ℕ) (xs : List ℕ) → AllBelow n xs → below n xs ≡ length xs
below_all n [] h = refl
below_all n (x ∷ xs) h = ground (arith, below_all n xs)

sum-take-suc : (cs : List ℕ) (i : ℕ) → sum (take (suc i) cs) ≡ sum (take i cs) + get_or cs i 0
sum-take-suc [] zero = refl
sum-take-suc [] (suc i) = refl
sum-take-suc (c ∷ cs) zero = omega arith
sum-take-suc (c ∷ cs) (suc i) = omega (arith, sum-take-suc cs i)

-- The loop stops at the first bucket where the running count passes `mid`.
median_from_lem :
    (cs : List ℕ) (bs : List BucketDef) (cum mid : ℕ)
    → length cs ≡ length bs
    → cum ≤ mid
    → mid < cum + sum cs
    → (i : ℕ) × (b : BucketDef) × (get_elem? bs i ≡ some b)
      × (median_from cs bs cum mid ≡ midpoint b b.high)
      × (cum + sum (take i cs) ≤ mid)
      × (mid < cum + sum (take (suc i) cs))
unfolding median_from
median_from_lem [] bs cum mid e h k = absurd (omega arith)
median_from_lem (c ∷ cs) [] cum mid e h k = absurd (omega arith)
median_from_lem (c ∷ cs) (b ∷ bs) cum mid e h k = elim (Bool-cases (ltb mid (cum + c))) [
  | inl hit ↦ (zero, b, refl, rw hit, omega arith, ground arith)
  | inr miss ↦
      let (i, b', at, eq, lo, hi) =
        median_from_lem cs bs (cum + c) mid (omega arith) (ground arith) (omega arith) in
      (suc i, b', at, rw miss eq, omega arith, omega arith)
]

module _ (h : Histogram) (ok : IsValid h) where
  sum-counts : (i : ℕ) → sum (take i h.counts) ≡ below i (window h)
  sum-counts zero = omega (arith, below-zero (window h))
  sum-counts (suc i) =
      omega (arith, sum-take-suc h.counts i, below-suc i (window h), ok.tally i, sum-counts i)

  sum_all : sum h.counts ≡ h.total
  sum_all =
      ap sum (sym (take_all h.counts (length h.buckets) (omega (arith, ok.same_length))))
      ∙ sum-counts (length h.buckets)
      ∙ below_all (length h.buckets) (window h) ok.indices
      ∙ sym ok.counted

  -- In a valid histogram that tracks samples, `median` is the midpoint of the bucket that holds
  -- the middle sample of the window: at most half of them lie in earlier buckets, and more than
  -- half lie in it or before it.
  pub median_is_middle :
      0 < h.total
      → (i : ℕ) × (b : BucketDef) × (get_elem? h.buckets i ≡ some b)
        × (median h ≡ midpoint b b.high)
        × (below i (window h) ≤ h.total / 2)
        × (h.total / 2 < below (suc i) (window h))
  unfolding median
  median_is_middle p =
      let (i, b, at, eq, lo, hi) =
        median_from_lem h.counts h.buckets 0 (h.total / 2) ok.same_length (omega arith)
          (omega (arith, sum_all)) in
      (i, b, at, ground arith, omega (arith, sum-counts i), omega (arith, sum-counts (suc i)))
