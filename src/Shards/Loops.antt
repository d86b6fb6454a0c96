-- ===== src/Shards/Loops.antt =====
-- What the two loops of resolveTaskQueueShards compute, and when the first one ends.
use go_agile_pool.Prelude.{
  ℕ, zero, suc, ◌+◌, ◌*◌, ◌^◌, ◌≤◌, ◌<◌, ◌≡◌, refl, ◌⊎◌, inl, inr, true, false, Bool-cases, dec_lt,
  sym, subst, ◌∙◌, none, some, arith,
}
use go_agile_pool.Prelude.Int.{ℤ, pos, ◌≤ℤ◌, ltb_ℤ}
use go_agile_pool.Shards.{double_loop, halve_loop}

-- 2 to the power n
abbrev pub pow2 : ℕ → ℕ
pow2 zero = 1
pow2 (suc n) = 2 * pow2 n

pub pow2_positive : (n : ℕ) → 1 ≤ pow2 n
pow2_positive zero = omega arith
pow2_positive (suc n) = let ih = pow2_positive n in omega arith

pub pow2_mono : (m n : ℕ) → m ≤ n → pow2 m ≤ pow2 n
pow2_mono zero n h = pow2_positive n
pow2_mono (suc m) zero h = omega arith
pow2_mono (suc m) (suc n) h = let ih = pow2_mono m n (omega arith) in omega arith

double_loop-doubles :
    (fuel want s : ℕ)
    → s < want
    → s < 2 ^ 63
    → double_loop (suc fuel) (pos want) s ≡ double_loop fuel (pos want) (2 * s)
unfolding double_loop
double_loop-doubles fuel want s h small = ground (arith)

double_loop-stops :
    (fuel want s : ℕ) → want ≤ s → s < 2 ^ 63 → double_loop (suc fuel) (pos want) s ≡ some s
unfolding double_loop
double_loop-stops fuel want s h small = ground (arith)

rewrite_less : (k want j : ℕ) → j ≡ suc k → pow2 k < want → pow2 j < 2 * want
rewrite_less k want j same less = rw same (omega arith)

-- The doubling loop, from 2^k and with at most n doublings to 2^62.
pub double_loop-power :
    (n k fuel want : ℕ)
    → k + n ≡ 62
    → n ≤ fuel
    → want ≤ 2 ^ 62
    → (j : ℕ) × (double_loop (suc fuel) (pos want) (pow2 k) ≡ some (pow2 j))
      × (j ≤ 62)
      × (want ≤ pow2 j)
      × ((j ≡ k) ⊎ (pow2 j < 2 * want))
double_loop-power zero k fuel want e f h =
    let small = pow2_mono k 62 (omega arith) in
    let large = pow2_mono 62 k (omega arith) in
    (
      k,
      double_loop-stops fuel want (pow2 k) (omega arith) (omega arith),
      omega arith,
      omega arith,
      inl refl,
    )
double_loop-power (suc n) k zero want e f h = ground arith
double_loop-power (suc n) k (suc fuel) want e f h =
    let small = pow2_mono (suc k) 62 (omega arith) in
    elim (dec_lt (pow2 k) want) [
      | no enough ↦ (
        k,
        double_loop-stops (suc fuel) want (pow2 k) (omega arith) (omega arith),
        omega arith,
        omega arith,
        inl refl,
      )
      | yes less ↦
          let (j, e', bound, enough, last) =
            double_loop-power n (suc k) fuel want (omega arith) (omega arith) h in
          (
            j,
            double_loop-doubles (suc fuel) want (pow2 k) less (omega arith) ∙ e',
            bound,
            enough,
            inr (elim last [ inl same ↦ rewrite_less k want j same less | inr less' ↦ less' ]),
          )
    ]

halve_loop-halves :
    (fuel s : ℕ) (size : ℤ)
    → ltb_ℤ size (pos (2 * s)) ≡ true
    → 1 ≤ s
    → 2 * s < 2 ^ 63
    → halve_loop (suc fuel) size (2 * s) ≡ halve_loop fuel size s
unfolding halve_loop
halve_loop-halves fuel s size h positive small = ground (arith)

halve_loop-stops :
    (fuel s : ℕ) (size : ℤ)
    → ltb_ℤ size (pos s) ≡ false
    → s < 2 ^ 63
    → halve_loop (suc fuel) size s ≡ some s
unfolding halve_loop
halve_loop-stops fuel s size h small = ground (arith)

halve_loop-one : (fuel : ℕ) (size : ℤ) → halve_loop (suc fuel) size 1 ≡ some 1
unfolding halve_loop
halve_loop-one fuel size = ground arith

-- The halving loop, from 2^k.
pub halve_loop-power :
    (k fuel : ℕ) (size : ℤ)
    → k ≤ 62
    → k ≤ fuel
    → (j : ℕ) × (halve_loop (suc fuel) size (pow2 k) ≡ some (pow2 j))
      × (j ≤ k)
      × ((j ≡ 0) ⊎ (pos (pow2 j) ≤ℤ size))
      × ((j ≡ k) ⊎ (ltb_ℤ size (pos (2 * pow2 j)) ≡ true))
halve_loop-power zero fuel size h f = (0, halve_loop-one fuel size, omega arith, inl refl, inl refl)
halve_loop-power (suc k) zero size h f = ground arith
halve_loop-power (suc k) (suc fuel) size h f =
    let small = pow2_mono (suc k) 62 h in
    let positive = pow2_positive k in
    elim (Bool-cases (ltb_ℤ size (pos (pow2 (suc k))))) [
      | inl less ↦
          let (j, e, bound, fits, last) =
            halve_loop-power k fuel size (omega arith) (omega arith) in
          (
            j,
            halve_loop-halves (suc fuel) (pow2 k) size less positive (omega arith) ∙ e,
            omega arith,
            fits,
            inr (elim last [
              | inl same ↦ subst (λ i. ltb_ℤ size (pos (2 * pow2 i)) ≡ true) (sym same) less
              | inr less' ↦ less'
            ]),
          )
      | inr fits ↦ (
        suc k,
        halve_loop-stops (suc fuel) (2 * pow2 k) size fits (omega arith),
        omega arith,
        inr (ground arith),
        inl refl,
      )
    ]

-- Once every bit is shifted out, doubling never reaches `want`.
pub double_loop-zero : (fuel want : ℕ) → double_loop fuel (pos (suc want)) 0 ≡ none
unfolding double_loop
double_loop-zero zero want = refl
double_loop-zero (suc fuel) want = rw (double_loop-zero fuel want) (ground arith)
