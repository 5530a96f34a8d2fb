-- ===== src/Scenarios/Changes.antt =====
-- Renewal, release, revocation, promotion and handoff at concrete states.
use bruiser_gateway.Prelude.{
  ℕ, suc, ◌≤◌, ◌<◌, ◌≡◌, ◌⊎◌, inl, ◌&&◌, refl, true, false, some, List, [], ◌∷◌, ◌++◌, Text, text,
  arith, count_where, pos, text_eq, any_where,
}
use bruiser_gateway.Lease.{
  ok, Execution, HandoffRequest, HandoffResult, preempt, released, revoked, is_live, active,
  handed_off,
}
use bruiser_gateway.Lease.Precedence.{same_principal, can_preempt, can_preempt_ranked}
use bruiser_gateway.Store.{Db, Session, Waiter, has_id, session, holder_matches}
use bruiser_gateway.Store.Waiters.{new_waiter}
use bruiser_gateway.Store.Promote.{count_live, at_least_one, promoted, oldest}
use bruiser_gateway.Store.Acquire.{new_execution, with_defaults, extend, get}
use bruiser_gateway.Store.Mutate.{renew, caller_of, close}
use bruiser_gateway.Store.Handoff.{succ_execution, hand_off}
use bruiser_gateway.Ledger.{fence_of}
use bruiser_gateway.Refinement.Capacities.{slots, Refines}
use bruiser_gateway.Outcomes.Authority.{renew-answers, revoke-authority}
use bruiser_gateway.Outcomes.Handoff.{Passed, handoff-successor}
use bruiser_gateway.Outcomes.Stored.{stored, Extends, Replaced, Holder}
use bruiser_gateway.Outcomes.Promote.{promote_locked-fifo, in_line, IsFirst}
use bruiser_gateway.Outcomes.Ended.{release-final}
use bruiser_gateway.System.{
  Call, acquires, inserts_session, releases, renews, revokes, hands_off, promotes_due, step, run,
  empty_db,
}
use bruiser_gateway.System.Safety.{
  Ready, Ready-later, step-Ready, run-Ready, empty_db-Ready, run-ended-le,
}
use bruiser_gateway.System.Steps.{step-Refines}
use bruiser_gateway.Ledger.Ended.{ended_with}
use bruiser_gateway.Scenarios.{running, club, key, agent, browser, request, session_of}

-- The agent a and the browser b of one customer have sessions, and a holds the domain.
abbrev opening : List (ℕ × Call)
opening =
    (1, inserts_session (session_of (agent (text "a"))))
    ∷ (1, inserts_session (session_of (browser (text "b"))))
    ∷ (1, acquires (text "e1") (request (agent (text "a"))))
    ∷ []

abbrev opened : Db
opened = run opening empty_db

abbrev lease : Execution
lease = new_execution 1 (text "e1") (with_defaults (request (agent (text "a")))) 1

abbrev one_each : Text → Text → ℕ
one_each m k = 1

opened-Ready : Ready one_each 2 opened
unfolding at_least_one
opened-Ready =
    Ready-later one_each 1 2 opened (omega arith) (
      run-Ready one_each 1 opening empty_db (omega arith) (omega arith) (empty_db-Ready one_each 1))

renew-answers_example :
    (t : Db) × (r : Execution) × (renew 2 club (text "e1") (text "a") [] (pos 60000000000) opened
      ≡ ok (t, r))
    × Extends 2 (pos 60000000000) (text "a") lease r
    × Replaced r opened t
unfolding running
renew-answers_example =
    renew-answers 2 club (text "e1") (text "a") [] (pos 60000000000) opened lease refl refl refl
      (inl refl)

abbrev renewed : Execution
renewed = extend 2 (pos 60000000000) (text "a") lease

-- Renewal writes the row and its audit event.
abbrev renewed_db : Db
renewed_db = step 2 (renews club (text "e1") (text "a") [] (pos 60000000000)) opened

abbrev revoked_lease : Execution
revoked_lease = close 2 revoked (text "stop") lease

abbrev revoked_db : Db
revoked_db = step 2 (revokes club (text "e1") (text "b") [] (text "stop")) opened

revoke-authority_example :
    (c : Session) × (e : Execution) × (session (text "b") opened ≡ some c)
    × (get 2 club (text "e1") opened ≡ ok e)
    × (text_eq c.customer_id e.customer_id ≡ true)
    × ((holder_matches e (text "b") opened ≡ ok tt)
        ⊎ (can_preempt (caller_of c) e.principal ≡ true))
unfolding running
revoke-authority_example =
    revoke-authority 2 club (text "e1") (text "b") [] (text "stop") opened revoked_db revoked_lease
      refl refl

-- What follows: the browser b acquires the domain.
abbrev later_calls : List (ℕ × Call)
later_calls = (3, acquires (text "e2") (request (browser (text "b")))) ∷ []

abbrev released_db : Db
released_db = step 2 (releases club (text "e1") (text "a") []) opened

release-final_example :
    count_where (λ q. has_id (text "e1") q && is_live 4 q) (run later_calls released_db).executions
    ≡ 0
unfolding running
release-final_example =
    release-final one_each 2 club (text "e1") (text "a") [] opened released_db lease
      (close 2 released (text "RELEASED") lease) later_calls 4 opened-Ready refl refl
      (omega arith, tt) (omega arith, tt)

revoked_db-Ready : Ready one_each 2 revoked_db
revoked_db-Ready =
    step-Ready one_each 2 (revokes club (text "e1") (text "b") [] (text "stop")) opened tt
      opened-Ready

run-ended-le_example :
    count_where (ended_with (has_id (text "e1"))) revoked_db.executions
    ≤ count_where (ended_with (has_id (text "e1"))) (run later_calls revoked_db).executions
unfolding running
run-ended-le_example =
    run-ended-le one_each 2 later_calls revoked_db (has_id (text "e1")) (omega arith, tt)
      (omega arith, tt) revoked_db-Ready

-- The browser b takes the lease from the agent a.
abbrev takeover : HandoffRequest
takeover = record {
  merchant_id = club;
  execution_id = text "e1";
  session_id = text "b";
  to = record { type = []; id = [] };
  mode = preempt;
  ttl = pos 60000000000;
  precedence = [];
  request_id = [];
}

abbrev taken_db : Db
taken_db = step 2 (hands_off (text "e2") [] takeover) opened

abbrev taken : HandoffResult
taken = record {
  predecessor = hand_off 2 (text "e2") lease;
  successor =
      succ_execution 2 (text "e2") (text "b") (browser (text "b")) (pos 60000000000) 2 lease;
  mode = preempt;
}

handoff-successor_example :
    (c : Session) × (old : Execution) × (session takeover.session_id opened ≡ some c)
    × (stored takeover.merchant_id takeover.execution_id opened ≡ some old)
    × (is_live 2 old ≡ true)
    × (text_eq old.customer_id c.customer_id ≡ true)
    × (taken.predecessor ≡ hand_off 2 (text "e2") old)
    × (taken.predecessor.state ≡ handed_off)
    × (taken.successor.id ≡ text "e2")
    × (taken.successor.state ≡ active)
    × (taken.successor.fence ≡ suc (fence_of old.merchant_id old.domain_key opened))
    × (taken.successor.domain_key ≡ old.domain_key)
    × (taken.successor.customer_id ≡ old.customer_id)
    × (taken.successor.max_lifetime_at ≡ old.max_lifetime_at)
    × (taken.successor.expires_at ≤ old.max_lifetime_at)
    × (same_principal taken.successor.principal old.principal ≡ false)
    × ((Holder old takeover.session_id opened × (taken.successor.principal ≡ takeover.to))
        ⊎ ((can_preempt_ranked (caller_of c) old.principal takeover.precedence ≡ true)
            × (same_principal taken.successor.principal (caller_of c) ≡ true)))
    × Passed old taken.predecessor taken.successor opened taken_db
    × (fence_of old.merchant_id old.domain_key taken_db ≡ taken.successor.fence)
unfolding running
handoff-successor_example = handoff-successor 2 (text "e2") [] takeover opened taken_db taken refl

-- The agent c waits while a holds the domain, and a's lease runs out.
abbrev queue : Db
queue = step 2 (acquires (text "w3") (request (agent (text "c")))) opened

abbrev place : Waiter
place = new_waiter 2 (text "w3") (with_defaults (request (agent (text "c"))))

abbrev moved_up : Db
moved_up = step 60000000001 (promotes_due club key) queue

queue-Ready : Ready one_each 2 queue
unfolding at_least_one
queue-Ready =
    step-Ready one_each 2 (acquires (text "w3") (request (agent (text "c")))) opened (omega arith)
      opened-Ready

promote_locked-fifo_example :
    ((moved_up.executions ≡ queue.executions)
      × ((in_line 60000000001 club key queue ≡ [])
          ⊎ ((w : Waiter) × (oldest (in_line 60000000001 club key queue) ≡ some w)
              × IsFirst w (in_line 60000000001 club key queue)
              × (slots w.max_active ≤ count_live 60000000001 club key queue))))
    ⊎ ((w : Waiter) × (oldest (in_line 60000000001 club key queue) ≡ some w)
        × IsFirst w (in_line 60000000001 club key queue)
        × (count_live 60000000001 club key queue < slots w.max_active)
        × (moved_up.executions
            ≡ queue.executions ++ promoted 60000000001 w (suc (fence_of club key queue)) ∷ [])
        × (any_where (λ v. text_eq v.id w.id) moved_up.waiters ≡ false))
unfolding running
promote_locked-fifo_example = promote_locked-fifo 60000000001 [] club key queue moved_up refl

step-Refines_example : Refines one_each 60000000001 queue moved_up
unfolding at_least_one
step-Refines_example =
    step-Refines one_each 60000000001 (promotes_due club key) queue tt queue-Ready.inv.unique
      queue-Ready.waiters
