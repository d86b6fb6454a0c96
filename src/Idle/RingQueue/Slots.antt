-- ===== src/Idle/RingQueue/Slots.antt =====
-- The slots of a ring buffer, counted from its head.
use go_agile_pool.Prelude.{
  ℕ, zero, suc, ◌+◌, ◌-◌, ◌%◌, ◌<◌, ◌≤◌, ◌≡◌, refl, List, [], ◌∷◌, ◌++◌, Option, none, some, ltb,
  ◌==◌, if◌then◌else◌, length, get_or, set, get_elem?, length-set, get_or-set, arith, dec_lt,
}
use native.Mathlib.Nat.{mod-eq_of_lt, mod-eq-sub-mod}

-- Position `h + i` in a ring of `c` slots.
pub ring_index :
    (c h i : ℕ) → h < c → i < c → (h + i) % c ≡ (if ltb (h + i) c then h + i else h + i - c)
ring_index c h i hh hi = elim (dec_lt (h + i) c) [
  | yes p ↦ rw (mod-eq_of_lt p) (ground arith)
  | no p ↦
      rw
        (
          mod-eq-sub-mod {n = h + i} {m = c} (omega arith),
          mod-eq_of_lt {n = h + i - c} {m = c} (omega arith),
        )
        (ground arith)
]

pub ring_index-lt : (c h i : ℕ) → h < c → i < c → (h + i) % c < c
ring_index-lt c h i hh hi = ground (arith, ring_index c h i)

pub ring_index-eq : (c h i j : ℕ) → h < c → i < c → j < c → ((h + i) % c == (h + j) % c) ≡ (i == j)
ring_index-eq c h i j hh hi hj = ground (arith, ring_index c h i, ring_index c h j)

module _ {A : Type 0} where
  -- The slot `i` places from `h`.
  abbrev pub slot : List (Option A) → ℕ → ℕ → Option A
  slot buf h i = get_or buf ((h + i) % length buf) none

  pub slot-set :
      (buf : List (Option A)) (h i j : ℕ) (v : Option A)
      → h < length buf
      → i < length buf
      → j < length buf
      → slot (set buf ((h + i) % length buf) v) h j ≡ (if i == j then v else slot buf h j)
  slot-set buf h i j v hh hi hj =
      let c = length buf in
      rw (
        length-set buf ((h + i) % c) v,
        get_or-set buf ((h + i) % c) ((h + j) % c) v none (ring_index-lt c h i hh hi),
        ring_index-eq c h i j hh hi hj,
      )

  -- The elements of a list, and `none` past its end: `get_elem?` of an append.
  pub get_elem?-concat :
      (xs : List A) (w : A) (i : ℕ)
      → get_elem? (xs ++ w ∷ []) i ≡ (if i == length xs then some w else get_elem? xs i)
  get_elem?-concat [] w zero = refl
  get_elem?-concat [] w (suc i) = ground arith
  get_elem?-concat (x ∷ xs) w zero = ground arith
  get_elem?-concat (x ∷ xs) w (suc i) = ground (arith, get_elem?-concat xs w i)

  pub get_elem?_end : (xs : List A) (i : ℕ) → length xs ≤ i → get_elem? xs i ≡ none
  get_elem?_end [] i h = refl
  get_elem?_end (x ∷ xs) zero h = elim h [ ]
  get_elem?_end (x ∷ xs) (suc i) h = get_elem?_end xs i (omega arith)
