-- ===== src/Parking/Tests.antt =====
-- A new pool with a cold start, whose default container sees a parked worker that is used again, one
-- that is dropped, and a start that finds none.
use go_agile_pool.Prelude.{ℕ, ◌+◌, ◌≡◌, refl, [], ◌∷◌, List, length, arith}
use go_agile_pool.Prelude.Run.{Returns}
use go_agile_pool.Idle.{Dated}
use go_agile_pool.Idle.LinkedList.{new_linked_list}
use go_agile_pool.Idle.Containers.{list_container, list-Fulfils}
use go_agile_pool.Parking.{Parking, Use, parks, cleans, starts, cold_starts, use_all}
use go_agile_pool.Parking.Conserved.{Accounts, new_pool-Accounts}

-- A worker known by the time when it was last active.
instance abbrev stamp : Dated ℕ
stamp = record { dated_time = λ t. t }

abbrev new_parking : Parking (list_container {A = ℕ})
new_parking = record { idle_works = new_linked_list; reused = []; worker_create_count = 0 }

abbrev uses : List (Use ℕ)
uses =
    cold_starts
    ∷ parks 1_000_000_000
    ∷ parks 3_000_000_000
    ∷ cleans 3_500_000_000
    ∷ starts
    ∷ starts
    ∷ []

new_pool-Accounts_example :
    Returns
      (λ p'.
        Accounts list-Fulfils 3_500_000_000 p' (3_000_000_000 ∷ 1_000_000_000 ∷ [])
        × (length p'.reused + p'.worker_create_count ≡ 3))
      (use_all uses new_parking)
new_pool-Accounts_example =
    new_pool-Accounts list-Fulfils 3_500_000_000 uses new_linked_list refl (omega arith)
