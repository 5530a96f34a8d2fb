-- ===== src/Store/Mutate.antt =====
-- internal/store/postgres/mutate.go: renewal, release, revocation and expiry.
use bruiser_gateway.Prelude.{
  ℕ, suc, ◌+◌, Option, none, some, Bool, true, false, ◌&&◌, List, [], ◌∷◌, if◌then◌else◌, length,
  leb, take, Text, text, text_eq, is_empty, ℤ, select_where, update_where, any_where,
}
use bruiser_gateway.Lease.{
  State, released, expired, revoked, queued, Execution, is_active, Principal, Error, not_found,
  not_holder, precedence_denied, Result, ok, err, ◌>>=◌, or_fail, guard,
}
use bruiser_gateway.Lease.Precedence.{can_preempt}
use bruiser_gateway.Store.{
  Db, Session, AuditType, execution_renewed, execution_released, execution_revoked,
  execution_expired, in_domain, has_id, lock_domain, insert_audit, audit_of, load_active_for_update,
  holder_matches, lookup_domain_key, session,
}
use bruiser_gateway.Store.Promote.{promote_locked, dequeue, or_limit}
use bruiser_gateway.Store.Acquire.{extend, get}

unfoldable pub renew : ℕ → Text → Text → Text → Text → ℤ → Db → Result (Db × Execution)
renew now m x session_id request_id ttl db = do
  k ← lookup_domain_key m x db
  _ ← lock_domain m k db
  e ← load_active_for_update now m x db
  _ ← holder_matches e session_id db
  let e' = extend now ttl session_id e
  let db' = record db {
    executions = update_where (has_id e.id) (extend now ttl session_id) db.executions;
  }
  ok (insert_audit (audit_of execution_renewed (text "heartbeat") request_id e') db', e')

-- set state, ended_at = now(), end_reason.
unfoldable pub close : ℕ → State → Text → Execution → Execution
close now state reason e = record e { state = state; ended_at = some now; end_reason = reason }

abbrev audit_type : State → AuditType
audit_type revoked = execution_revoked
audit_type _ = execution_released

-- update executions set state, ended_at, end_reason where execution_id, and its audit event.
unfoldable pub close_row : ℕ → Text → State → Text → Execution → Db → Db
close_row now request_id state reason e db =
    insert_audit (audit_of (audit_type state) reason request_id (close now state reason e))
      (record db { executions = update_where (has_id e.id) (close now state reason) db.executions })

-- Store.end.
unfoldable pub end_execution :
    ℕ → Text → Text → Text → Text → State → Text → Bool → Db → Result (Db × Execution)
end_execution now m x session_id request_id new_state reason must_holder db = do
  k ← lookup_domain_key m x db
  _ ← lock_domain m k db
  e ← load_active_for_update now m x db
  _ ← if must_holder then holder_matches e session_id db else ok tt
  db' ← promote_locked now request_id m k (close_row now request_id new_state reason e db)
  ok (db', close now new_state reason e)

abbrev pub is_queued : State → Bool
is_queued queued = true
is_queued _ = false

unfoldable pub release : ℕ → Text → Text → Text → Text → Db → Result (Db × Execution)
release now m x session_id request_id db = do
  e ← get now m x db
  if is_queued e.state
      then dequeue now m x session_id request_id db
      else end_execution now m x session_id request_id released (text "RELEASED") true db

abbrev denied_by : Error → Error
denied_by not_holder = precedence_denied
denied_by e = e

-- `err != nil && !CanPreempt`: the holder may revoke, and so may a caller that outranks it.
unfoldable pub may_revoke : Principal → Execution → Result (Unit {0}) → Result (Unit {0})
may_revoke caller e (ok _) = ok tt
may_revoke caller e (err reason) =
    if can_preempt caller e.principal then ok tt else err (denied_by reason)

abbrev pub caller_of : Session → Principal
caller_of sess = record { type = sess.principal_type; id = sess.principal_id }

unfoldable pub revoke : ℕ → Text → Text → Text → Text → Text → Db → Result (Db × Execution)
revoke now m x session_id request_id reason₀ db =
    let reason = if is_empty reason₀ then text "REVOKED" else reason₀ in
    if is_empty session_id then end_execution now m x [] request_id revoked reason false db else (do
      e ← get now m x db
      sess ← or_fail (session session_id db) not_holder
      _ ← guard (text_eq sess.customer_id e.customer_id) not_found
      _ ← may_revoke (caller_of sess) e (holder_matches e session_id db)
      end_execution now m x [] request_id revoked reason false db)

-- state = 'ACTIVE' and expires_at <= now().
unfoldable pub is_due : ℕ → Execution → Bool
is_due now e = is_active e.state && leb e.expires_at now

-- The loop over the due executions of a domain.
unfoldable pub expire_each : ℕ → List Execution → Db → Db
expire_each now [] db = db
expire_each now (d ∷ ds) db =
    let db' = record db {
      executions =
          update_where (λ r. has_id d.id r && is_active r.state)
            (close now expired (text "EXPIRED")) db.executions;
    } in
    expire_each now ds (insert_audit (audit_of execution_expired (text "expired") [] d) db')

unfoldable pub expire_and_promote_domain : ℕ → Text → Text → Db → Result (Db × ℕ)
expire_and_promote_domain now m k db = do
  _ ← lock_domain m k db
  let dues = select_where (λ e. in_domain m k e && is_due now e) db.executions
  db' ← promote_locked now [] m k (expire_each now dues db)
  ok (db', length dues)

-- select distinct merchant_id, domain_key.
unfoldable pub distinct_domains : List Execution → List (Text × Text)
distinct_domains [] = []
distinct_domains (e ∷ es) =
    let rest = distinct_domains es in
    if any_where (in_domain e.merchant_id e.domain_key) es
    then rest
    else (e.merchant_id, e.domain_key) ∷ rest

-- One transaction for each domain, the i-th at `clock i`. The first error stops the loop; what is
-- committed stays, and is counted.
unfoldable pub expire_domains : (ℕ → ℕ) → ℕ → List (Text × Text) → ℕ → Db → Db × ℕ × Option Error
expire_domains clock i [] n db = (db, n, none)
expire_domains clock i ((m, k) ∷ ps) n db = elim (expire_and_promote_domain (clock i) m k db) [
  | err e ↦ (db, n, some e)
  | ok (db', j) ↦ expire_domains clock (suc i) ps (n + j) db'
]

unfoldable pub expire_due : (ℕ → ℕ) → ℤ → Db → Db × ℕ × Option Error
expire_due clock limit db =
    expire_domains clock 1
      (take (or_limit limit 100) (distinct_domains (select_where (is_due (clock 0)) db.executions)))
      0 db
