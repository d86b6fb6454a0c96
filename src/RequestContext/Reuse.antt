-- ===== src/RequestContext/Reuse.antt =====
-- Request contexts go through the pool without their labels.
use Prim.Native.String.{String}
use go_agile_pool.Prelude.{
  ℕ, ◌≡◌, refl, subst, Bool, true, false, ◌||◌, ◌==◌, Option, none, List, [], ◌∷◌, if◌then◌else◌,
  Bool-cases, inl, inr, arith,
}
use go_agile_pool.RequestContext.{Any, get}
use go_agile_pool.RequestContext.Labels.{reset-none}
use go_agile_pool.RequestContext.Chain.{
  Ctx, RequestContext, Contexts, get_from, new_context, release, store_at, inject, fresh,
}

abbrev pub has : ℕ → List ℕ → Bool
has a [] = false
has a (c ∷ cs) = (c == a) || has a cs

has_head : (c : ℕ) (rest : List ℕ) → has c (c ∷ rest) ≡ true
has_head c rest = ground arith

has_tail : (a c : ℕ) (rest : List ℕ) → has a rest ≡ true → has a (c ∷ rest) ≡ true
has_tail a c rest h = ground arith

address-eq : (a c : ℕ) → (c == a) ≡ true → c ≡ a
address-eq a c h = ground arith

module _ {T O : Type 0} where
  abbrev pub no_contexts : Contexts T O
  no_contexts = record { at = λ a. record { parent = none; labels = [] }; pool = []; next = 0 }

  -- What users of request contexts do. A label is stored only on a context that is not in the
  -- pool: a released context must not be used again.
  pub data Step (s : Contexts T O) : Contexts T O → Type 0 where
    takes : (reuse : Bool) (parent : Option (Ctx T O)) → Step s (new_context reuse parent s).1
    puts_back : (c : ℕ) → Step s (release c s)
    stores :
        (c : ℕ) (key : String) (v : Any T O) → has c s.pool ≡ false → Step s (store_at c key v s)

  pub data Reachable : Contexts T O → Type 0 where
    start : Reachable no_contexts
    later : {s s' : Contexts T O} → Reachable s → Step s s' → Reachable s'

  -- Pooled contexts have no labels.
  IsClean : Contexts T O → Type 0
  IsClean s = (a : ℕ) (k : String) → has a s.pool ≡ true → get (s.at a).labels k ≡ none

  -- A context without labels at an address
  put-none :
      (c a : ℕ) (k : String) (r s : RequestContext T O)
      → get r.labels k ≡ none
      → ((c == a) ≡ false → get s.labels k ≡ none)
      → get (if c == a then r else s).labels k ≡ none
  put-none c a k r s h g = elim (Bool-cases (c == a)) [ inl e ↦ rw e h | inr e ↦ rw e (g e) ]

  get_from-none :
      (reuse : Bool) (pool : List ℕ) (s : Contexts T O) (k : String)
      → pool ≡ s.pool
      → IsClean s
      → let (c, s') = get_from reuse pool s in get (s'.at c).labels k ≡ none
  unfolding get_from fresh IsClean get
  get_from-none false pool s k e h = ground arith
  get_from-none true [] s k e h = ground arith
  get_from-none true (c ∷ rest) s k e h =
      h c k (subst (λ (p : List ℕ). has c p ≡ true) e (has_head c rest))

  get_from-IsClean :
      (reuse : Bool) (pool : List ℕ) (s : Contexts T O)
      → pool ≡ s.pool
      → IsClean s
      → IsClean (get_from reuse pool s).1
  unfolding get_from fresh IsClean get
  get_from-IsClean false pool s e h a k m =
      put-none s.next a k _ (s.at a) refl (λ (d : (s.next == a) ≡ false). h a k m)
  get_from-IsClean true [] s e h a k m =
      put-none s.next a k _ (s.at a) refl (λ (d : (s.next == a) ≡ false). h a k m)
  get_from-IsClean true (c ∷ rest) s e h a k m =
      h a k (subst (λ (p : List ℕ). has a p ≡ true) e (has_tail a c rest m))

  Step-IsClean : (s s' : Contexts T O) → Step s s' → IsClean s → IsClean s'
  unfolding IsClean new_context inject release store_at get
  Step-IsClean s _ (takes reuse parent) h a k m =
      let got = get_from reuse s.pool s in
      put-none got.0 a k _ (got.1.at a) (get_from-none reuse s.pool s k refl h)
        (λ (d : (got.0 == a) ≡ false). get_from-IsClean reuse s.pool s refl h a k m)
  Step-IsClean s _ (puts_back c) h a k m =
      put-none c a k _ (s.at a) (reset-none (s.at c).labels k)
        (λ (d : (c == a) ≡ false). h a k (ground arith))
  Step-IsClean s _ (stores c key v out) h a k m = elim (Bool-cases (c == a)) [
    | inl e ↦ let same = address-eq a c e in cc (subst (λ (b : ℕ). has b s.pool ≡ false) same out)
    | inr e ↦ rw e (h a k m)
  ]

  reachable-IsClean : (s : Contexts T O) → Reachable s → IsClean s
  unfolding IsClean get
  reachable-IsClean _ start a k m = refl
  reachable-IsClean s (later {s = before} r step) a k m =
      Step-IsClean before s step (λ (b : ℕ) (j : String). reachable-IsClean before r b j) a k m

  -- However contexts were taken, labelled and put back before, as long as no label was stored on a
  -- context while it was in the pool: the context that NewContext returns has no label, whether it
  -- is a new one or one that was put back.
  pub new_context-none :
      (s : Contexts T O) (reuse : Bool) (parent : Option (Ctx T O)) (k : String)
      → Reachable s
      → let (c, s') = new_context reuse parent s in get (s'.at c).labels k ≡ none
  unfolding new_context inject
  new_context-none s reuse parent k r =
      let got = get_from reuse s.pool s in
      put-none got.0 got.0 k _ (got.1.at got.0)
        (get_from-none reuse s.pool s k refl (reachable-IsClean s r))
        (λ (d : (got.0 == got.0) ≡ false).
          get_from-none reuse s.pool s k refl (reachable-IsClean s r))
