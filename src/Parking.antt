-- ===== src/Parking.antt =====
-- pool.go: what the pool does with its idle container, over the contract of internal/idle. Each use
-- stands under muIdle, so the uses are atomic and come in some order: workers that park (addToIdle),
-- ticks of the cleaner (expiredWorkerCleaner), and starts of workers by the loop of scaleIfNeeded;
-- between them the cold start of submit takes a worker from `workerPool`. Nothing is ever put into
-- `workerPool`, so its Get always allocates.
pub mod Conserved
mod Tests
use go_agile_pool.Prelude.{ℕ, ◌+◌, Option, none, some, List, [], ◌∷◌}
use go_agile_pool.Prelude.Run.{Run, ok, ◌>>=◌}
use go_agile_pool.Idle.Contract.{IdleContainer}

-- `1*time.Second`
abbrev pub idle_expiry : ℕ
idle_expiry = 1_000_000_000

-- The container with what the starts have led to: the workers started from it, and the number of
-- those allocated (`workerCreateCount`)
pub record Parking {W : Type 0} (ic : IdleContainer W) : Type 0 where
  pub idle_works : ic.Container
  pub reused : List W
  pub worker_create_count : ℕ

-- One critical section of muIdle, or a cold start
pub data Use (W : Type 0) : Type 0 where
  parks : W → Use W
  cleans : (now : ℕ) → Use W
  starts : Use W
  cold_starts : Use W

module _ {W : Type 0} {ic : IdleContainer W} where
  pub add_to_idle : W → Parking ic → Run (Parking ic)
  add_to_idle w p = ic.add p.idle_works w >>= λ c. ok (record p { idle_works = c })

  pub clean_tick : (now : ℕ) → Parking ic → Run (Parking ic)
  clean_tick now p =
      ic.remove_expired p.idle_works now idle_expiry >>= λ (n, c). ok (record p { idle_works = c })

  -- `w := p.workerPool.Get().(*worker)`, with `workerPool.New`
  pub allocate : Parking ic → Parking ic
  allocate p = record p { worker_create_count = p.worker_create_count + 1 }

  -- `if w == nil { w = p.workerPool.Get().(*worker) }`, and the start
  pub started_with : Option W → ic.Container → Parking ic → Parking ic
  unfolding allocate
  started_with none c p = allocate (record p { idle_works = c })
  started_with (some w) c p = record p { idle_works = c; reused = w ∷ p.reused }

  pub start_one : Parking ic → Run (Parking ic)
  start_one p = ic.pop p.idle_works >>= λ (w, c). ok (started_with w c p)

  pub use_idle : Use W → Parking ic → Run (Parking ic)
  use_idle (parks w) p = add_to_idle w p
  use_idle (cleans now) p = clean_tick now p
  use_idle starts p = start_one p
  use_idle cold_starts p = ok (allocate p)

  pub use_all : List (Use W) → Parking ic → Run (Parking ic)
  use_all [] p = ok p
  use_all (u ∷ us) p = use_idle u p >>= λ p'. use_all us p'

  -- `GetIdleWorkerCount`
  pub get_idle_worker_count : Parking ic → ℕ
  get_idle_worker_count p = ic.len p.idle_works
