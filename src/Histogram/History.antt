-- ===== src/Histogram/History.antt =====
-- A histogram after any run of samples.
use mathlib.Core.List.{append_assoc, append-nil}
use go_agile_pool.Prelude.{
  ℕ, zero, suc, ◌-◌, ◌≤◌, ◌<◌, ◌≡◌, refl, ◌∙◌, true, List, [], ◌∷◌, ◌++◌, map, none, length, drop,
  arith, dec_lt, length-append, length-replicate, get_or,
}
use go_agile_pool.Histogram.{
  BucketDef, Histogram, new_histogram, fits, bucket_index, bucket_index_from, add, below_high,
  bucket, submit_buckets, consume_buckets, exit_buckets,
}
use go_agile_pool.Histogram.Window.{
  window, slide, IsValid, new_histogram-IsValid, add-IsValid, window-add, samples-add, buckets-add,
}

-- `add` for each sample in turn.
unfoldable pub add_all : Histogram → List ℕ → Histogram
add_all h [] = h
add_all h (v ∷ vs) = add_all (add h v) vs

add_all-IsValid : (h : Histogram) (vs : List ℕ) → IsValid h → IsValid (add_all h vs)
unfolding add_all
add_all-IsValid h [] ok = ok
add_all-IsValid h (v ∷ vs) ok = add_all-IsValid (add h v) vs (add-IsValid h ok v)

buckets-add_all : (h : Histogram) (vs : List ℕ) → IsValid h → (add_all h vs).buckets ≡ h.buckets
unfolding add_all
buckets-add_all h [] ok = refl
buckets-add_all h (v ∷ vs) ok =
    buckets-add_all (add h v) vs (add-IsValid h ok v) ∙ buckets-add h ok v

pub buckets-add_all_new :
    (bs : List BucketDef) (n : ℕ) (vs : List ℕ)
    → 0 < length bs
    → 0 < n
    → (add_all (new_histogram bs n) vs).buckets ≡ bs
unfolding new_histogram
buckets-add_all_new bs n vs hb hn =
    buckets-add_all (new_histogram bs n) vs (new_histogram-IsValid bs n hb hn)

-- The last `n` of a list.
abbrev pub last : ℕ → List ℕ → List ℕ
last n xs = drop (length xs - n) xs

drop-append : (k : ℕ) (xs ys : List ℕ) → k ≤ length xs → drop k (xs ++ ys) ≡ drop k xs ++ ys
drop-append zero xs ys h = refl
drop-append (suc k) [] ys h = elim h [ ]
drop-append (suc k) (x ∷ xs) ys h = drop-append k xs ys (omega arith)

drop_one_more : (k : ℕ) (xs : List ℕ) → drop 1 (drop k xs) ≡ drop (suc k) xs
drop_one_more zero xs = refl
drop_one_more (suc k) [] = refl
drop_one_more (suc k) (x ∷ xs) = drop_one_more k xs

pub length-drop : (k : ℕ) (xs : List ℕ) → length (drop k xs) ≡ length xs - k
length-drop zero xs = omega arith
length-drop (suc k) [] = omega arith
length-drop (suc k) (x ∷ xs) = omega (arith, length-drop k xs)

slide-last_room :
    (n : ℕ) (xs : List ℕ) (v : ℕ) → length xs < n → slide n (last n xs) v ≡ last n (xs ++ v ∷ [])
slide-last_room n xs v h =
    let e : length xs - n ≡ 0 = omega arith in
    let e' : length (xs ++ v ∷ []) - n ≡ 0 = omega (arith, length-append xs (v ∷ [])) in
    rw (e, e') (ground arith)

slide-last_full :
    (n : ℕ) (xs : List ℕ) (v : ℕ)
    → 0 < n
    → n ≤ length xs
    → slide n (last n xs) v ≡ last n (xs ++ v ∷ [])
slide-last_full n xs v p h =
    let e' : length (xs ++ v ∷ []) - n ≡ suc (length xs - n) =
      omega (arith, length-append xs (v ∷ [])) in
    rw e' (
      ground (
        arith,
        length-drop (length xs - n) xs,
        drop_one_more (length xs - n) xs,
        drop-append (suc (length xs - n)) xs (v ∷ []),
      ))

slide-last : (n : ℕ) (xs : List ℕ) (v : ℕ) → 0 < n → slide n (last n xs) v ≡ last n (xs ++ v ∷ [])
slide-last n xs v h = elim (dec_lt (length xs) n) [
  | yes p ↦ slide-last_room n xs v p
  | no p ↦ slide-last_full n xs v h (omega arith)
]

-- The index that a sample takes among the buckets `bs`.
abbrev pub index_in : List BucketDef → ℕ → ℕ
index_in bs v = bucket_index_from bs 0 v

window-add_all :
    (bs : List BucketDef) (n : ℕ) (h : Histogram) (seen vs : List ℕ)
    → IsValid h
    → h.buckets ≡ bs
    → length h.samples ≡ n
    → window h ≡ last n seen
    → window (add_all h vs) ≡ last n (seen ++ map (index_in bs) vs)
unfolding add_all
window-add_all bs n h seen [] ok eb en e = rw append-nil e
window-add_all bs n h seen (v ∷ vs) ok eb en e =
    let i = index_in bs v in
    rw (← append_assoc seen (i ∷ []) (map (index_in bs) vs)) (
      window-add_all bs n (add h v) (seen ++ i ∷ []) vs (add-IsValid h ok v)
        (buckets-add h ok v ∙ eb) (samples-add h v ∙ en) stepped)
  where
    same : bucket_index h v ≡ index_in bs v
    same = unfold bucket_index in rw eb

    stepped : window (add h v) ≡ last n (seen ++ index_in bs v ∷ [])
    stepped =
        window-add h v ok.in_ring
        ∙ rw (en, e, same) (slide-last n seen (index_in bs v) (omega (arith, ok.in_ring)))

-- After any samples, a new histogram of `n` windows is valid and its window holds the bucket
-- indices of the last `n` of them, in their order.
pub window-add_all_new :
    (bs : List BucketDef) (n : ℕ) (vs : List ℕ)
    → 0 < length bs
    → 0 < n
    → IsValid (add_all (new_histogram bs n) vs)
      × (window (add_all (new_histogram bs n) vs) ≡ last n (map (index_in bs) vs))
unfolding new_histogram
window-add_all_new bs n vs hb hn =
    let e : 0 - n ≡ 0 = omega arith in
    let ok = new_histogram-IsValid bs n hb hn in
    (
      add_all-IsValid (new_histogram bs n) vs ok,
      window-add_all bs n (new_histogram bs n) [] vs ok refl (length-replicate n (zero)) (rw e),
    )

pub record Covers (bs : List BucketDef) : Type 0 where
  pub some_bucket : 0 < length bs
  pub hit : (v : ℕ) → fits (get_or bs (index_in bs v) (bucket 0 none)) v ≡ true

-- Each of the three default bucket lists covers every count: the bucket that a value is put in
-- really contains it, so the fallback to the last bucket is never taken.
pub default_buckets_cover : Covers submit_buckets × Covers consume_buckets × Covers exit_buckets
unfolding bucket_index_from fits below_high submit_buckets consume_buckets exit_buckets
default_buckets_cover = (
  record { some_bucket = omega arith; hit = λ v. ground arith },
  record { some_bucket = omega arith; hit = λ v. ground arith },
  record { some_bucket = omega arith; hit = λ v. ground arith },
)
