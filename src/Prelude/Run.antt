-- ===== src/Prelude/Run.antt =====
-- A Go call that may panic: an index out of range, or a method call through a nil pointer.
use mathlib.Core.Path.{◌≡◌, subst}

pub data Run {ℓ} (A : Type ℓ) : Type ℓ where
  ok : A → Run A
  panic : Run A

-- The rest of the function runs only where the first part returned.
infixl 5 ◌>>=◌
abbrev pub ◌>>=◌ {ℓ κ} : {A : Type ℓ} {B : Type κ} → Run A → (A → Run B) → Run B
panic >>= rest = panic
ok a >>= rest = rest a

-- No panic, and `P` holds of what is returned.
abbrev pub Returns {ℓ κ} : {A : Type ℓ} → (A → Type κ) → Run A → Type (ℓ ⊔ κ)
Returns {A = A} P run = (a : A) × (run ≡ ok a) × P a

module _ {ℓ κ ℓ' κ'} {A : Type ℓ} {B : Type κ} (P : A → Type ℓ') (Q : B → Type κ') where
  -- A sequence returns when its first part does and the second does on all such results.
  pub Returns->>= :
      (run : Run A) (rest : A → Run B)
      → Returns P run
      → ((a : A) → P a → Returns Q (rest a))
      → Returns Q (run >>= rest)
  Returns->>= panic rest (a, e, p) next = cc e
  Returns->>= (ok b) rest (a, e, p) next =
      let same : a ≡ b = cc e in subst (λ c. Returns Q (rest c)) same (next a p)
