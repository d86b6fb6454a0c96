-- ===== src/TaskBuffer/Repr.antt =====
-- The queue that the chunks of a buffer hold.
use go_agile_pool.Prelude.{
  ℕ, suc, ◌+◌, ◌-◌, ◌*◌, ◌≤◌, ◌<◌, ◌≡◌, ◌≢◌, refl, sym, ap, ◌∙◌, Bool-cases, inl, inr, false, List,
  [], ◌∷◌, Option, none, some, ltb, ◌==◌, if◌then◌else◌, length, get_elem?, arith,
}
use go_agile_pool.TaskBuffer.{Buffer, new_chunked_task_buffer, task_chunk_size}

-- What an address is used for: the chunk of number `k` in the chain, the `j`-th of the pool, one
-- just taken from there, or nothing yet.
pub data Owner : Type 0 where
  chained : ℕ → Owner
  pooled : ℕ → Owner
  taken unused : Owner

-- The chain has `size` chunks, numbered from `base` on through the life of the buffer.
pub record Chain : Type 0 where
  pub base : ℕ
  pub size : ℕ
  pub address : ℕ → ℕ
  pub owner : ℕ → Owner

abbrev pub place : ℕ → ℕ → ℕ
place k s = k * task_chunk_size + s

pub pooled-injective : {k j : ℕ} → pooled k ≡ pooled j → k ≡ j
pooled-injective e = cc

pub chained-injective : {k j : ℕ} → chained k ≡ chained j → k ≡ j
chained-injective e = cc

module _ {T : Type 0} where
  -- Slot `s` of chunk `k` is place `k * task_chunk_size + s`; the queue begins at place `start`.
  abbrev pub item : ℕ → List T → ℕ → Option T
  item start xs q = if ltb q start then none else get_elem? xs (q - start)

  -- The chunks in the pool are clean and distinct.
  abbrev pub IsPool : Buffer T → Chain → List ℕ → Type 0
  IsPool b g [] = Unit {0}
  IsPool b g (p ∷ ps) =
      (g.owner p ≡ pooled (length ps))
      × ((b.store p).next ≡ none)
      × ((s : ℕ) → s < task_chunk_size → (b.store p).tasks s ≡ none)
      × IsPool b g ps

  -- The buffer holds the queue `xs`, in the chunks of `g`.
  pub record Holds (b : Buffer T) (xs : List T) (g : Chain) : Type 0 where
    pub head_at : b.head_chunk ≡ (if g.size == 0 then none else some (g.address g.base))
    pub tail_at :
        b.tail_chunk ≡ (if g.size == 0 then none else some (g.address (g.base + g.size - 1)))
    pub no_chunk : g.size ≡ 0 → length xs ≡ 0
    pub ends :
        g.size ≢ 0 → place (g.base + g.size - 1) b.tail_idx ≡ place g.base b.head_idx + length xs
    pub head_le : b.head_idx ≤ task_chunk_size
    pub tail_le : b.tail_idx ≤ task_chunk_size
    pub counted : b.chunk_len ≡ length xs
    pub owned : (k : ℕ) → g.base ≤ k → k < g.base + g.size → g.owner (g.address k) ≡ chained k
    pub links :
        (k : ℕ)
        → g.base ≤ k
        → suc k < g.base + g.size
        → (b.store (g.address k)).next ≡ some (g.address (suc k))
    pub last : (k : ℕ) → g.base ≤ k → suc k ≡ g.base + g.size → (b.store (g.address k)).next ≡ none
    pub slots :
        (k s : ℕ)
        → g.base ≤ k
        → k < g.base + g.size
        → s < task_chunk_size
        → (b.store (g.address k)).tasks s ≡ item (place g.base b.head_idx) xs (place k s)
    pub pool_clean : IsPool b g b.pool
    pub never_used : (a : ℕ) → b.fresh ≤ a → g.owner a ≡ unused

  pub new-Holds :
      Holds new_chunked_task_buffer []
        (record { base = 0; size = 0; address = λ k. 0; owner = λ a. unused })
  unfolding new_chunked_task_buffer
  new-Holds = record {
    head_at = refl;
    tail_at = refl;
    no_chunk = λ e. refl;
    ends = λ e. absurd (e refl);
    head_le = omega arith;
    tail_le = omega arith;
    counted = refl;
    owned = λ k p q. absurd (omega arith);
    links = λ k p q. absurd (omega arith);
    last = λ k p q. absurd (omega arith);
    slots = λ k s p q r. absurd (omega arith);
    pool_clean = tt;
    never_used = λ a h. refl;
  }

  module _ {b : Buffer T} {xs : List T} {g : Chain} (h : Holds b xs g) where
    -- Two chunks of the chain have two addresses.
    pub address-ne :
        (k j : ℕ)
        → g.base ≤ k
        → k < g.base + g.size
        → g.base ≤ j
        → j < g.base + g.size
        → k ≢ j
        → (g.address k == g.address j) ≡ false
    address-ne k j p q r s ne = elim (Bool-cases (g.address k == g.address j)) [
      | inl e ↦
          let same : g.address k ≡ g.address j = ground arith in
          absurd (ne (chained-injective (sym (h.owned k p q) ∙ ap g.owner same ∙ h.owned j r s)))
      | inr e ↦ e
    ]

  -- A pool stays clean when only chunks of no pool change.
  pub IsPool-same :
      (b b' : Buffer T) (g g' : Chain) (ps : List ℕ)
      → ((p j : ℕ)
          → j < length ps
          → g.owner p ≡ pooled j
          → (g'.owner p ≡ pooled j) × (b'.store p ≡ b.store p))
      → IsPool b g ps
      → IsPool b' g' ps
  IsPool-same b b' g g' [] same h = tt
  IsPool-same b b' g g' (p ∷ ps) same h =
      let (o, e) = same p (length ps) (omega arith) h.0 in
      let below = λ (q j : ℕ) (lt : j < length ps). same q j (omega arith) in
      (o, rw e h.1, λ s r. rw e (h.2 s r), IsPool-same b b' g g' ps below h.3)

-- An address of the chain is none of the pool.
pub not_pooled :
    (g : Chain) (a p k j : ℕ) → g.owner a ≡ chained k → g.owner p ≡ pooled j → (a == p) ≡ false
not_pooled g a p k j ea ep = elim (Bool-cases (a == p)) [
  | inl e ↦ let same : a ≡ p = ground arith in cc (sym ea ∙ ap g.owner same ∙ ep)
  | inr e ↦ e
]

-- Addresses of different use are different.
pub owner_ne : (g : Chain) (a p : ℕ) → g.owner a ≢ g.owner p → (a == p) ≡ false
owner_ne g a p ne = elim (Bool-cases (a == p)) [
  | inl e ↦ let same : a ≡ p = ground arith in absurd (ne (ap g.owner same))
  | inr e ↦ e
]
