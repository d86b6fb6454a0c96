-- ===== src/Prelude/Effects.antt =====
-- Go code that acts on a world and may panic, with what its deferred calls make of a panic. `V` is
-- the type of panic values.
use mathlib.Core.Path.{◌≡◌}
use mathlib.Core.Option.{Option, none, some}

-- What is left of the world, and the value of the panic that goes on, where one does.
abbrev pub Action : Type 0 → Type 0 → Type 0
Action V W = W → W × Option V

-- A panic in a deferred call replaces the one before it.
abbrev pub either_panic : {V : Type 0} → Option V → Option V → Option V
either_panic before none = before
either_panic before (some v) = some v

module _ {V W : Type 0} where
  abbrev pub skip : Action V W
  skip w = (w, none)

  -- Code that cannot panic
  abbrev pub pure : (W → W) → Action V W
  pure f w = (f w, none)

  abbrev pub continue : W × Option V → Action V W → W × Option V
  continue (w, none) next = next w
  continue (w, some v) next = (w, some v)

  -- One statement after another
  infixr 5 ◌>>◌
  abbrev pub ◌>>◌ : Action V W → Action V W → Action V W
  (first >> next) w = continue (first w) next

  abbrev pub after_body : W × Option V → Action V W → W × Option V
  after_body (w, before) later = let (w', v) = later w in (w', either_panic before v)

  -- `defer later()`, and then the body
  abbrev pub deferring : Action V W → Action V W → Action V W
  deferring later body w = after_body (body w) later

  abbrev pub handed : W × Option V → (Option V → Action V W) → W × Option V
  handed (w, v) handler = handler v w

  -- `defer func() { v := recover(); handler }()`, and then the body
  abbrev pub recovering : (Option V → Action V W) → Action V W → Action V W
  recovering handler body w = handed (body w) handler

  -- No panic leaves the action.
  abbrev pub Quiet : Action V W → Type 0
  Quiet act = (w : W) → (act w).1 ≡ none
