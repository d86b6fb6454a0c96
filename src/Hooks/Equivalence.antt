-- ===== src/Hooks/Equivalence.antt =====
-- The dynamic dispatcher does what the plain one does, with its snapshots.
use go_agile_pool.Prelude.{
  suc, ◌+◌, ◌≡◌, refl, ap, ◌∙◌, Option, none, some, List, [], ◌∷◌, ◌++◌, length, set, replicate,
  arith,
}
use go_agile_pool.Hooks.{
  Event, on_task, on_complete, on_pool, HookName, on_task_submitted, on_task_enqueued,
  on_task_started, on_task_completed, on_pool_closed, Callbacks, Registration, add_task_submitted,
  add_task_enqueued, add_task_started, add_task_completed, add_pool_closed, World, HookCalls,
  add_all, invoke_all,
}
use go_agile_pool.Hooks.Isolation.{logged, each, invoke_all-each}
use go_agile_pool.Hooks.Registry
use go_agile_pool.Hooks.Dynamic
use go_agile_pool.Hooks.Dynamic.{copy, append_callback, snapshot}

module _ {C : Type 0} (nil_callback : C) where
  copy-set :
      (cs : List C) (c : C)
      → set (copy (replicate (suc (length cs)) nil_callback) cs) (length cs) c ≡ cs ++ c ∷ []
  unfolding copy
  copy-set [] c = refl
  copy-set (x ∷ cs) c = ap (◌∷◌ x) (copy-set cs c)

  -- The new slice is the old one and the new callback.
  append_callback-append : (cs : List C) (c : C) → append_callback nil_callback cs c ≡ cs ++ c ∷ []
  unfolding append_callback
  append_callback-append cs c =
      let n : length cs + 1 ≡ suc (length cs) = omega arith in rw n (copy-set cs c)

  add-snapshot :
      (a : Registration C) (d : Option (Callbacks C))
      → snapshot nil_callback (Dynamic.add nil_callback a d)
        ≡ Registry.add a (snapshot nil_callback d)
  unfolding Dynamic.add Dynamic.add_to Registry.add snapshot
  add-snapshot (add_task_submitted c) d = rw append_callback-append refl
  add-snapshot (add_task_enqueued c) d = rw append_callback-append refl
  add-snapshot (add_task_started c) d = rw append_callback-append refl
  add-snapshot (add_task_completed c) d = rw append_callback-append refl
  add-snapshot (add_pool_closed c) d = rw append_callback-append refl

  module _ {V Ctx P S : Type 0} (calls : HookCalls V Ctx P C S) where
    open calls use {callback, log}

    -- The world of the plain dispatcher that stands for one of the dynamic dispatcher
    pub plain : World (Option (Callbacks C)) S → World (Callbacks C) S
    plain w = record { registered = snapshot nil_callback w.registered; rest = w.rest }

    pub plain_result : World (Option (Callbacks C)) S × Option V → World (Callbacks C) S × Option V
    plain_result (w, v) = (plain w, v)

    add_all-snapshot :
        (adds : List (Registration C)) (d : Option (Callbacks C))
        → snapshot nil_callback (add_all calls (Dynamic.add nil_callback) adds d)
          ≡ add_all calls Registry.add adds (snapshot nil_callback d)
    unfolding add_all
    add_all-snapshot [] d = refl
    add_all-snapshot (a ∷ adds) d =
        rw⁻¹ (add-snapshot a d) (add_all-snapshot adds (Dynamic.add nil_callback a d))

    each-plain :
        (name : HookName) (e : Event V Ctx P) (cs : List C) (w : World (Option (Callbacks C)) S)
        → plain (each calls (Dynamic.add nil_callback) name e cs w)
          ≡ each calls Registry.add name e cs (plain w)
    unfolding each plain
    each-plain name e [] w = refl
    each-plain name e (c ∷ cs) w =
        let (s, v, adds) = callback c e w.rest in
        each-plain name e cs _
        ∙ ap
            (λ (r : Callbacks C).
              each calls Registry.add name e cs
                (record { registered = r; rest = logged (log name) v s }))
            (add_all-snapshot adds w.registered)

    related :
        (name : HookName) (e : Event V Ctx P) (cs : List C) (w : World (Option (Callbacks C)) S)
        → plain_result (invoke_all calls (Dynamic.add nil_callback) name e cs w)
          ≡ invoke_all calls Registry.add name e cs (plain w)
    unfolding plain_result
    related name e cs w =
        rw
          (
            invoke_all-each calls (Dynamic.add nil_callback) name e cs w,
            invoke_all-each calls Registry.add name e cs (plain w),
          )
          (ap (λ (u : World (Callbacks C) S). (u, none)) (each-plain name e cs w))

    closed_related :
        (pool : Option P) (println : S → S) (w : World (Option (Callbacks C)) S)
        → plain_result (Dynamic.dispatch_pool_closed nil_callback calls println pool w)
          ≡ Registry.dispatch_pool_closed calls println pool (plain w)
    unfolding Dynamic.dispatch_pool_closed Registry.dispatch_pool_closed plain plain_result
    closed_related none println w = refl
    closed_related (some pool) println w = related on_pool_closed (on_pool pool) _ w

    -- Whatever the callbacks do, registrations included, each method of `dynamic.Hooks` does what
    -- the same method of `hook.Hooks` does where the published snapshot holds the same callbacks:
    -- a registration, and the five dispatches, with the same outcome, the same effect on the rest
    -- of the program and the same callbacks registered afterwards.
    pub dynamic-plain :
        (a : Registration C) (ctx : Ctx) (recovered : Option V) (pool : Option P) (println : S → S)
        (w : World (Option (Callbacks C)) S)
        → (snapshot nil_callback (Dynamic.add nil_callback a w.registered)
            ≡ Registry.add a (snapshot nil_callback w.registered))
          × (plain_result (Dynamic.dispatch_task_submitted nil_callback calls ctx w)
              ≡ Registry.dispatch_task_submitted calls ctx (plain w))
          × (plain_result (Dynamic.dispatch_task_enqueued nil_callback calls ctx w)
              ≡ Registry.dispatch_task_enqueued calls ctx (plain w))
          × (plain_result (Dynamic.dispatch_task_started nil_callback calls ctx w)
              ≡ Registry.dispatch_task_started calls ctx (plain w))
          × (plain_result (Dynamic.dispatch_task_completed nil_callback calls ctx recovered w)
              ≡ Registry.dispatch_task_completed calls ctx recovered (plain w))
          × (plain_result (Dynamic.dispatch_pool_closed nil_callback calls println pool w)
              ≡ Registry.dispatch_pool_closed calls println pool (plain w))
    unfolding Dynamic.dispatch_task_submitted Dynamic.dispatch_task_enqueued
        Dynamic.dispatch_task_started Dynamic.dispatch_task_completed Dynamic.dispatch_pool_closed
        Registry.dispatch_task_submitted Registry.dispatch_task_enqueued
        Registry.dispatch_task_started Registry.dispatch_task_completed
        Registry.dispatch_pool_closed plain plain_result
    dynamic-plain a ctx recovered pool println w = (
      add-snapshot a w.registered,
      related on_task_submitted (on_task ctx) _ w,
      related on_task_enqueued (on_task ctx) _ w,
      related on_task_started (on_task ctx) _ w,
      related on_task_completed (on_complete ctx recovered) _ w,
      closed_related pool println w,
    )
