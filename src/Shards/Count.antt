-- ===== src/Shards/Count.antt =====
-- Which number of shards the pool gets, and how much their channels hold together.
use go_agile_pool.Prelude.{
  ℕ, zero, suc, ◌+◌, ◌-◌, ◌*◌, ◌/◌, ◌^◌, ◌≤◌, ◌<◌, ◌≡◌, refl, sym, subst, ◌⊎◌, inl, inr, true,
  false, Bool-cases, none, some, if◌then◌else◌, arith,
}
use go_agile_pool.Prelude.Int.{ℤ, pos, negsuc, ◌+ℤ◌, ◌-ℤ◌, ◌≤ℤ◌, ltb_ℤ, leb_ℤ}
use go_agile_pool.Config.{Config}
use go_agile_pool.Shards.{
  double_loop, shards_for, halve_after, resolve_task_queue_shards, per_shard_cap, wrap,
}
use go_agile_pool.Shards.Loops.{
  pow2, pow2_positive, pow2_mono, double_loop-power, double_loop-zero, halve_loop-power,
}

-- A right number of shards where `want` are asked for and the queue holds `size`: a power of two
-- that the queue's size allows, that covers `want` unless the size forbids it, and no larger than
-- needed.
pub record IsShardCount (want size : ℤ) (n : ℕ) : Type 0 where
  pub power : (k : ℕ) × (n ≡ pow2 k)
  pub fits : (n ≡ 1) ⊎ (pos n ≤ℤ size)
  pub enough : (want ≤ℤ pos n) ⊎ (ltb_ℤ size (pos (2 * n)) ≡ true)
  pub least : (n ≡ 1) ⊎ (ltb_ℤ (pos n) (want +ℤ want) ≡ true)

-- What is asked for: the configured number where one is, or one that follows the processors.
pub wanted : {F H : Type 0} → ℤ → Config F H → ℤ
wanted procs c =
    if leb_ℤ c.task_queue_shards (pos 0)
    then (if ltb_ℤ c.task_queue_size (pos 1024)
        then pos 1
        else (if ltb_ℤ (pos 32) procs then pos 32 else procs))
    else c.task_queue_shards

clamp_lem :
    (want : ℕ)
    → (d : ℕ) × ((if ltb_ℤ (pos want) (pos 1) then pos 1 else pos want) ≡ pos (suc d))
      × (want ≤ suc d)
      × (suc d ≤ want + 1)
      × ((d ≡ 0) ⊎ (suc d ≡ want))
clamp_lem zero = (0, refl, omega arith, omega arith, inl refl)
clamp_lem (suc d) = (d, ground arith, omega arith, omega arith, inr refl)

ltb-double : (n m : ℕ) → n < 2 * m → ltb_ℤ (pos n) (pos m +ℤ pos m) ≡ true
unfolding ◌+ℤ◌
ltb-double n m h = ground arith

-- From what the two loops end with.
powers-IsShardCount :
    (want d i j : ℕ) (size : ℤ)
    → want ≤ suc d
    → (d ≡ 0) ⊎ (suc d ≡ want)
    → suc d ≤ pow2 j
    → (j ≡ 0) ⊎ (pow2 j < 2 * suc d)
    → i ≤ j
    → (i ≡ 0) ⊎ (pos (pow2 i) ≤ℤ size)
    → (i ≡ j) ⊎ (ltb_ℤ size (pos (2 * pow2 i)) ≡ true)
    → IsShardCount (pos want) size (pow2 i)
powers-IsShardCount want d i j size covers exact reached last below fits stopped = record {
  power = (i, refl);
  fits = fits_size fits;
  enough = covered stopped;
  least = smallest last;
}
  where
    below_power : pow2 i ≤ pow2 j
    below_power = pow2_mono i j below

    positive : 1 ≤ pow2 i
    positive = pow2_positive i

    one : i ≡ 0 → pow2 i ≡ 1
    one e = subst (λ k. pow2 k ≡ 1) (sym e) refl

    fits_size : (i ≡ 0) ⊎ (pos (pow2 i) ≤ℤ size) → (pow2 i ≡ 1) ⊎ (pos (pow2 i) ≤ℤ size)
    fits_size (inl e) = inl (one e)
    fits_size (inr h) = inr h

    covered :
        (i ≡ j) ⊎ (ltb_ℤ size (pos (2 * pow2 i)) ≡ true)
        → (pos want ≤ℤ pos (pow2 i)) ⊎ (ltb_ℤ size (pos (2 * pow2 i)) ≡ true)
    covered (inl e) = inl (subst (λ k. pos want ≤ℤ pos (pow2 k)) (sym e) (omega arith))
    covered (inr h) = inr h

    smallest :
        (j ≡ 0) ⊎ (pow2 j < 2 * suc d)
        → (pow2 i ≡ 1) ⊎ (ltb_ℤ (pos (pow2 i)) (pos want +ℤ pos want) ≡ true)
    smallest (inl e) = inl (one (omega arith))
    smallest (inr h) =
        let b = below_power in
        let p = positive in
        elim exact [
          | inl e ↦ inl (omega arith)
          | inr e ↦ inr (ltb-double (pow2 i) want (omega arith))
        ]

-- The halving loop after the doubling loop.
loops-IsShardCount :
    (fuel want : ℕ) (size : ℤ)
    → 63 ≤ fuel
    → want ≤ 2 ^ 62
    → (n : ℕ) × (shards_for fuel (pos want) size ≡ some n) × IsShardCount (pos want) size n
unfolding shards_for halve_after
loops-IsShardCount zero want size f h = absurd (omega arith)
loops-IsShardCount (suc fuel) want size f h =
    let (d, clamped, covers, near, exact) = clamp_lem want in
    let (j, doubled, bound, reached, last) =
      double_loop-power 62 0 fuel (suc d) (omega arith) (omega arith) (omega arith) in
    let (i, halved, below, fits, stopped) = halve_loop-power j fuel size bound (omega arith) in
    (
      pow2 i,
      rw (clamped, doubled) halved,
      powers-IsShardCount want d i j size covers exact reached last below fits stopped,
    )

-- A number of shards above 2^62 is never reached: the doubling loop shifts its bit out and goes on.
double_loop-never :
    (fuel n k want : ℕ)
    → k + n ≡ 63
    → 2 ^ 62 < want
    → want < 2 ^ 63
    → double_loop fuel (pos want) (pow2 k) ≡ none
unfolding double_loop
double_loop-never zero n k want e h below = refl
double_loop-never (suc fuel) zero k want e h below =
    let at_63 = pow2_mono 63 k (omega arith) in
    let below_63 = pow2_mono k 63 (omega arith) in
    let rest = double_loop-zero fuel (want - 1) in ground (arith)
double_loop-never (suc fuel) (suc n) k want e h below =
    let small = pow2_mono (suc k) 63 (omega arith) in
    let less = pow2_mono k 62 (omega arith) in
    let rest = double_loop-never fuel n (suc k) want (omega arith) h below in ground (arith)

one-IsShardCount : (size : ℤ) → IsShardCount (pos 1) size 1
one-IsShardCount size = record {
  power = (0, refl);
  fits = inl refl;
  enough = inl (omega arith);
  least = inl refl;
}

positive-IsShardCount :
    (fuel : ℕ) (want size : ℤ)
    → 63 ≤ fuel
    → pos 0 ≤ℤ want
    → want ≤ℤ pos (2 ^ 62)
    → (n : ℕ) × (shards_for fuel want size ≡ some n) × IsShardCount want size n
positive-IsShardCount fuel (pos want) size f l h = loops-IsShardCount fuel want size f (omega arith)
positive-IsShardCount fuel (negsuc m) size f l h = absurd (omega arith)

-- resolveTaskQueueShards returns, whatever the configured size, where there is at least one
-- processor and at most 2^62 shards are asked for; 63 rounds of each loop are enough. The number
-- is right for what is asked for: the configured number, or else the number of processors up to
-- 32, or 1 where the queue is small.
pub resolve-IsShardCount :
    {F H : Type 0} (fuel : ℕ) (procs : ℤ) (c : Config F H)
    → 63 ≤ fuel
    → pos 1 ≤ℤ procs
    → c.task_queue_shards ≤ℤ pos (2 ^ 62)
    → (n : ℕ) × (resolve_task_queue_shards fuel procs c ≡ some n)
      × IsShardCount (wanted procs c) c.task_queue_size n
unfolding resolve_task_queue_shards wanted
resolve-IsShardCount fuel procs c f l h = elim (Bool-cases (leb_ℤ c.task_queue_shards (pos 0))) [
  | inl auto ↦ elim (Bool-cases (ltb_ℤ c.task_queue_size (pos 1024))) [
    | inl small ↦ (1, rw (auto, small) refl, rw (auto, small) (one-IsShardCount c.task_queue_size))
    | inr big ↦
        rw (auto, big)
          (positive-IsShardCount fuel (if ltb_ℤ (pos 32) procs then pos 32 else procs)
            c.task_queue_size f (ground arith) (ground arith))
  ]
  | inr explicit ↦
      rw explicit
        (positive-IsShardCount fuel c.task_queue_shards c.task_queue_size f (ground arith) h)
]

positive_factor : (q s n : ℕ) → suc n ≤ q * s → 1 ≤ q
positive_factor zero s n h = omega arith
positive_factor (suc q) s n h = omega arith

wrap-small : (n : ℕ) → n < 2 ^ 63 → wrap (pos n) ≡ pos n
wrap-small n h = ground arith

sum_less_one :
    (a shards : ℕ)
    → suc a + shards < 2 ^ 63
    → wrap (wrap (pos (suc a) +ℤ pos shards) -ℤ pos 1) ≡ pos (a + shards)
unfolding ◌+ℤ◌ ◌-ℤ◌
sum_less_one a shards bound =
    let first = wrap-small (suc a + shards) bound in
    let second = wrap-small (a + shards) (omega arith) in ground arith

cap_lem : (q : ℕ) → 1 ≤ q → (if ltb_ℤ (pos q) (pos 1) then pos 1 else pos q) ≡ pos q
cap_lem q h = ground arith

-- The channels together hold at least the configured number of tasks, where that number and the
-- number of shards are positive and their sum is an int; and less than one round more.
pub per_shard_cap-enough :
    (size shards : ℕ)
    → 1 ≤ size
    → 1 ≤ shards
    → size + shards < 2 ^ 63
    → (cap : ℕ) × (per_shard_cap (pos size) shards ≡ pos cap)
      × (1 ≤ cap)
      × (size ≤ cap * shards)
      × (cap * shards < size + shards)
unfolding per_shard_cap
per_shard_cap-enough zero shards h k bound = absurd (omega arith)
per_shard_cap-enough (suc a) shards h k bound =
    let q = (a + shards) / shards in
    let covers : suc a ≤ q * shards = omega arith in
    let positive = positive_factor q shards a covers in
    (q, rw (sum_less_one a shards bound) (cap_lem q positive), positive, covers, omega arith)

-- With more than 2^62 shards asked for, resolveTaskQueueShards does not return, whatever the fuel.
pub resolve-never :
    {F H : Type 0} (fuel : ℕ) (procs : ℤ) (want : ℕ) (c : Config F H)
    → c.task_queue_shards ≡ pos want
    → 2 ^ 62 < want
    → want < 2 ^ 63
    → resolve_task_queue_shards fuel procs c ≡ none
unfolding resolve_task_queue_shards shards_for halve_after
resolve-never fuel procs want c e h below =
    let endless = double_loop-never fuel 63 0 want (omega arith) h below in
    let explicit : leb_ℤ (pos want) (pos 0) ≡ false = ground arith in
    let unclamped : ltb_ℤ (pos want) (pos 1) ≡ false = ground arith in
    rw (e, explicit, unclamped, endless) refl
