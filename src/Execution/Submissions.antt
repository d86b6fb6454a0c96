-- ===== src/Execution/Submissions.antt =====
-- pool.go: Submit, TrySubmit, SubmitCtx, SubmitBefore and UpdateTask, over the common `submit`.
use go_agile_pool.Prelude.{
  ◌≡◌, refl, ap, Bool, true, false, Bool-cases, inl, inr, Option, none, some, if◌then◌else◌,
}
use go_agile_pool.Prelude.Int.{ℤ}
use go_agile_pool.Execution.{Task, context_task, start_before, Environment, is_nil_task}

module _ {V W G R Ctx : Type 0} (env : Environment V W G R Ctx) where
  open env use {cancel, background}

  -- A nil context stands for the background.
  pub or_background : Option Ctx → Ctx
  or_background none = background
  or_background (some ctx) = ctx

  -- `UpdateTask`
  pub update_task : Option Ctx → Task G R Ctx → Task G R Ctx
  unfolding or_background
  update_task ctx t = context_task (or_background ctx) t

  -- `if !accepted { cancel() }`
  pub unless_accepted : Ctx → W × Bool → W
  unless_accepted ctx (w, true) = w
  unless_accepted ctx (w, false) = cancel ctx w

module _ {V W G R Ctx : Type 0} (env : Environment V W G R Ctx) (with_timeout : ℤ → W → W × Ctx)
    (submit : Ctx → Task G R Ctx → W → W × Bool) where
  open env use {ctx_err, background}

  -- `Submit`
  pub submit_task : Task G R Ctx → W → W
  submit_task t w = if is_nil_task t then w else (submit background t w).0

  -- `TrySubmit`
  pub try_submit : Task G R Ctx → W → W × Bool
  try_submit t w = if is_nil_task t then (w, false) else submit background t w

  -- `SubmitCtx`
  pub submit_ctx : Option Ctx → Task G R Ctx → W → W
  unfolding or_background
  submit_ctx ctx t w =
      if is_nil_task t
      then w
      else if ctx_err (or_background env ctx) w
      then w
      else (submit (or_background env ctx) (context_task (or_background env ctx) t) w).0

  pub submit_with : Task G R Ctx → W × Ctx → W
  unfolding unless_accepted
  submit_with t (w, ctx) = unless_accepted env ctx (submit ctx (start_before ctx t) w)

  -- `SubmitBefore`
  pub submit_before : Task G R Ctx → ℤ → W → W
  unfolding submit_with
  submit_before t timeout w = if is_nil_task t then w else submit_with t (with_timeout timeout w)

module _ {V W G R Ctx : Type 0} (env : Environment V W G R Ctx)
    (with_timeout : ℤ → W → W × Ctx) where
  -- Two ways to submit that agree on tasks that are not nil
  unfoldable pub AgreeOnTasks : (f g : Ctx → Task G R Ctx → W → W × Bool) → Type 0
  AgreeOnTasks f g =
      (ctx : Ctx) (t : Task G R Ctx) (w : W) → is_nil_task t ≡ false → f ctx t w ≡ g ctx t w

  -- `submit` is never called with a nil task, nor with a context task around one: what it would do
  -- with such a task makes no difference to any of the four public functions. A task wrapped by
  -- `UpdateTask` is nil exactly where the task is.
  pub submissions-AgreeOnTasks :
      (f g : Ctx → Task G R Ctx → W → W × Bool)
      → AgreeOnTasks f g
      → (t : Task G R Ctx) (ctx : Option Ctx) (timeout : ℤ) (w : W)
      → (submit_task env with_timeout f t w ≡ submit_task env with_timeout g t w)
        × (try_submit env with_timeout f t w ≡ try_submit env with_timeout g t w)
        × (submit_ctx env with_timeout f ctx t w ≡ submit_ctx env with_timeout g ctx t w)
        × (submit_before env with_timeout f t timeout w
            ≡ submit_before env with_timeout g t timeout w)
        × (is_nil_task (update_task env ctx t) ≡ is_nil_task t)
  unfolding submit_task try_submit submit_ctx submit_before submit_with update_task is_nil_task
      AgreeOnTasks
  submissions-AgreeOnTasks f g h t ctx timeout w = elim (Bool-cases (is_nil_task t)) [
    | inl e ↦ rw e (refl, refl, refl, refl, refl)
    | inr e ↦
        let a = h env.background t w e in
        let c = or_background env ctx in
        let b = h c (context_task c t) w e in
        let (w', d) = with_timeout timeout w in
        let before = h d (start_before d t) w' refl in
        rw e (ap (λ (r : W × Bool). r.0) a, a, rw b refl, ap (unless_accepted env d) before, refl)
  ]
