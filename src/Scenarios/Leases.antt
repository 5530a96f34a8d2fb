-- ===== src/Scenarios/Leases.antt =====
-- Runs of one domain with capacity 1.
use bruiser_gateway.Prelude.{
  ℕ, ◌≤◌, ◌≡◌, refl, List, [], ◌∷◌, Text, text, map, arith, count_where, ltb, ◌==◌, ◌&&◌,
}
use bruiser_gateway.Lease.{State, active, released}
use bruiser_gateway.Store.{in_domain, has_id}
use bruiser_gateway.Store.Promote.{count_live, at_least_one}
use bruiser_gateway.Ledger.{fence_of}
use bruiser_gateway.System.{Call, acquires, releases, run, empty_db}
use bruiser_gateway.System.Safety.{run-count_live-le, run-fences}
use bruiser_gateway.Scenarios.{running, club, key, agent, request}

abbrev queue_history : List (ℕ × Call)
queue_history =
    (1, acquires (text "e1") (request (agent (text "a"))))
    ∷ (2, acquires (text "w2") (request (agent (text "b"))))
    ∷ (3, acquires (text "w3") (request (agent (text "c"))))
    ∷ (4, releases club (text "e1") (text "a") [])
    ∷ []

-- The first agent is granted, the second waits, the third finds the queue full, and the release
-- promotes the second under the next fence.
queue_run :
    map {B = Text × State × ℕ}
      (λ e. (e.id, e.state, e.fence))
      (run queue_history empty_db).executions
    ≡ (text "e1", released, 1) ∷ (text "w2", active, 2) ∷ []
unfolding running
queue_run = refl

abbrev one_each : Text → Text → ℕ
one_each m k = 1

run-count_live-le_example : count_live 5 club key (run queue_history empty_db) ≤ 1
unfolding at_least_one
run-count_live-le_example =
    run-count_live-le one_each 0 queue_history 5 club key (omega arith) (omega arith) (omega arith)

run-fences_example :
    let db = run queue_history empty_db in
    (count_where (λ r. in_domain club key r && r.fence == 2) db.executions ≤ 1)
    × (count_where (λ r. in_domain club key r && ltb (fence_of club key db) r.fence) db.executions
        ≡ 0)
    × (count_where (has_id (text "w2")) db.executions ≤ 1)
unfolding at_least_one
run-fences_example =
    run-fences one_each 0 queue_history club key (text "w2") 2 (omega arith) (omega arith)
