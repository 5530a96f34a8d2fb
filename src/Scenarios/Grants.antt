-- ===== src/Scenarios/Grants.antt =====
-- Acquire, renew, revoke and hand off at concrete states.
use bruiser_gateway.Prelude.{
  suc, ◌<◌, ◌≡◌, ◌&&◌, refl, true, some, [], ◌∷◌, ◌++◌, text, arith, count_where,
}
use bruiser_gateway.Lease.{
  ok, err, granted, unavailable, Execution, AcquireRequest, AcquireResult, is_live,
}
use bruiser_gateway.Store.{Db, in_domain}
use bruiser_gateway.Store.Promote.{count_live}
use bruiser_gateway.Store.Acquire.{acquire, new_execution, with_defaults}
use bruiser_gateway.Store.Waiters.{queued_result, new_waiter}
use bruiser_gateway.Ledger.{fence_of}
use bruiser_gateway.Refinement.Capacities.{slots}
use bruiser_gateway.Outcomes.Acquire.{held_by, acquire-granted}
use bruiser_gateway.Outcomes.Total.{acquire-room}
use bruiser_gateway.Outcomes.Full.{acquire-full, acquire-lapsed, named_holder}
use bruiser_gateway.System.{acquires, step, empty_db}
use bruiser_gateway.Scenarios.{running, club, key, agent, request}

abbrev from_ann : AcquireRequest
from_ann = request (agent (text "a"))

abbrev from_bob : AcquireRequest
from_bob = request (agent (text "b"))

-- The agent a holds the domain from time 1.
abbrev held : Db
held = step 1 (acquires (text "e1") from_ann) empty_db

abbrev first_lease : Execution
first_lease = new_execution 1 (text "e1") (with_defaults from_ann) 1

acquire-granted_example :
    (count_where (held_by 1 from_ann) empty_db.executions ≡ 0)
    × (count_live 1 club key empty_db < slots from_ann.max_active)
    × (held.executions ≡ [] ++ first_lease ∷ [])
    × (first_lease
        ≡ new_execution 1 (text "e1") (with_defaults from_ann) (suc (fence_of club key empty_db)))
    × (fence_of club key held ≡ first_lease.fence)
unfolding running
acquire-granted_example = acquire-granted 1 (text "e1") from_ann empty_db held first_lease refl

acquire-room_example :
    (t : Db) × (acquire 1 (text "e1") from_ann empty_db
      ≡ ok (
        t,
        granted (
            new_execution 1
              (text "e1")
              (with_defaults from_ann)
              (suc (fence_of club key empty_db))),
      ))
unfolding running
acquire-room_example = acquire-room 1 (text "e1") from_ann empty_db refl refl (omega arith) refl

abbrev waiting : Db
waiting = step 2 (acquires (text "w2") from_bob) held

abbrev bob_waits : AcquireResult
bob_waits = queued_result 1 (new_waiter 2 (text "w2") (with_defaults from_bob)) first_lease

acquire-full_example :
    (waiting.executions ≡ held.executions)
    × (fence_of club key waiting ≡ fence_of club key held)
    × (a : Execution) × ((in_domain club key a && is_live 2 a) ≡ true)
    × (named_holder bob_waits ≡ some a.id)
unfolding running
acquire-full_example =
    acquire-full 2 (text "w2") from_bob held waiting bob_waits refl (omega arith) refl

-- The first lease has run out, a third agent holds the domain, and the place of b has lapsed.
abbrev third : Db
third = step 900000000001 (acquires (text "e3") (request (agent (text "c")))) waiting

acquire-lapsed_example : acquire 900000000002 (text "w4") from_bob third ≡ err unavailable
unfolding running
acquire-lapsed_example =
    acquire-lapsed 900000000002 (text "w4") from_bob third refl refl (omega arith) (omega arith)
      refl refl
