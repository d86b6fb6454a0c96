-- ===== src/Pool/Step.antt =====
-- A pool as a transition system: submitters, workers and closers that interleave, and the scaler
-- of pool.go, from the point where it knows how many workers it wants.
use go_agile_pool.Prelude.{ℕ, zero, suc, ◌-◌, ◌≡◌, some, List, [], ◌∷◌, ◌++◌, if◌then◌else◌}
use go_agile_pool.Prelude.Int.{ℤ, pos, ◌+ℤ◌, ◌-ℤ◌, ltb_ℤ, pos_part}
use go_agile_pool.Config.{WorkMode}
use go_agile_pool.Pool.{
  Shared, Phase, submit_start, close_start, Ready, advance, started, start_worker,
}

-- Where the scaler stands in `scaleIfNeeded`: waiting for a tick, at the lock with `toSpawn`, with
-- the loaded number of workers, or starting those that it has counted.
pub data ScalerPhase : Type 0 where
  waiting : ScalerPhase
  at_lock : (to_spawn : ℕ) → ScalerPhase
  loaded : (to_spawn : ℕ) (current_running : ℤ) → ScalerPhase
  spawning : ℕ → ScalerPhase

pub record System (T : Type 0) : Type 0 where
  pub shared : Shared T
  pub scaler : ScalerPhase
  pub threads : List (Phase T)

-- `actualSpawn`
abbrev pub actual_spawn : (capacity : ℤ) (to_spawn : ℕ) (current_running : ℤ) → ℤ
actual_spawn capacity to_spawn current_running =
    let room = capacity -ℤ current_running in
    if ltb_ℤ (pos to_spawn) room then pos to_spawn else room

module _ {T : Type 0} (mode : WorkMode) (per_shard_cap : ℕ) (capacity : ℤ) where
  -- An idle worker is used again where there is one.
  unfoldable pub popped_idle : Shared T → Shared T
  popped_idle s = record s { idle_works = s.idle_works - 1 }

  -- The goroutine that the scaler runs, one atomic step.
  unfoldable pub scale : ScalerPhase → Shared T → Shared T × ScalerPhase × List (Phase T)
  scale waiting s = (s, waiting, [])
  scale (at_lock n) s = (s, loaded n s.running_workers_num, [])
  scale (loaded n current) s =
      let actual = actual_spawn capacity n current in
      if ltb_ℤ (pos 0) actual
      then (
        record s { running_workers_num = s.running_workers_num +ℤ actual },
        spawning (pos_part actual),
        [],
      )
      else (s, waiting, [])
  scale (spawning zero) s = (s, waiting, [])
  scale (spawning (suc n)) s = (
    started mode per_shard_cap (popped_idle s),
    spawning n,
    start_worker mode per_shard_cap s ∷ [],
  )

  -- Someone submits or closes, the scaler decides to spawn, or a goroutine takes its next step.
  pub data Step : System T → System T → Type 0 where
    submits :
        (t : T) (s : Shared T) (z : ScalerPhase) (phs : List (Phase T))
        → Step
            (record { shared = s; scaler = z; threads = phs })
            (record { shared = s; scaler = z; threads = submit_start t ∷ phs })
    closes :
        (s : Shared T) (z : ScalerPhase) (phs : List (Phase T))
        → Step
            (record { shared = s; scaler = z; threads = phs })
            (record { shared = s; scaler = z; threads = close_start ∷ phs })
    ticks :
        (n : ℕ) (s : Shared T) (phs : List (Phase T))
        → Step
            (record { shared = s; scaler = waiting; threads = phs })
            (record { shared = s; scaler = at_lock n; threads = phs })
    scales :
        (s : Shared T) (z : ScalerPhase) (phs : List (Phase T))
        → Step
            (record { shared = s; scaler = z; threads = phs })
            (record {
              shared = (scale z s).0;
              scaler = (scale z s).1;
              threads = (scale z s).2 ++ phs;
            })
    runs :
        (rd : Ready) (before after phs : List (Phase T)) (ph : Phase T) (s s' : Shared T)
        (z : ScalerPhase)
        → advance mode per_shard_cap rd ph s ≡ some (s', phs)
        → Step
            (record { shared = s; scaler = z; threads = before ++ ph ∷ after })
            (record { shared = s'; scaler = z; threads = before ++ phs ++ after })

  -- The states that a pool goes through from a given one.
  pub data Reachable (start : System T) : System T → Type 0 where
    here : Reachable start start
    after : {m n : System T} → Reachable start m → Step m n → Reachable start n
