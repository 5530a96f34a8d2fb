-- ===== src/Store/Acquire.antt =====
-- internal/store/postgres/acquire.go: the grant of a lease, its resumption, and the read of one.
use bruiser_gateway.Prelude.{
  ℕ, suc, ◌+◌, none, some, Bool, ◌&&◌, ◌||◌, List, [], ◌∷◌, if◌then◌else◌, length, min, Text, text,
  text_eq, is_empty, ℤ, pos, ltbℤ, lebℤ, select_where, select_row, update_where,
}
use bruiser_gateway.Lease.{
  active, Execution, is_active, is_live, AcquireRequest, AcquireResult, granted, already_held,
  invalid_input, not_found, Result, ok, err, ◌>>=◌, or_fail,
}
use bruiser_gateway.Lease.Precedence.{same_principal}
use bruiser_gateway.Store.{
  Db, AuditRow, execution_requested, execution_granted, execution_renewed, milliseconds, plus_ms,
  in_domain, has_id, ensure_domain, lock_domain, bump_fence, insert_execution, insert_audit,
  audit_of,
}
use bruiser_gateway.Store.Waiters.{
  enqueue_waiter, busy_result, waiter_as_execution, waiter_position, still_waits,
}
use bruiser_gateway.Store.Promote.{or_default, sixty_seconds, fifteen_minutes, at_least_one}

-- The defaults of MaxActive, TTL and MaxLifetime.
unfoldable pub with_defaults : AcquireRequest → AcquireRequest
with_defaults req = record req {
  max_active = at_least_one req.max_active;
  ttl = or_default req.ttl sixty_seconds;
  max_lifetime = or_default req.max_lifetime fifteen_minutes;
}

unfoldable pub is_incomplete : AcquireRequest → Bool
is_incomplete req =
    is_empty req.merchant_id
    || is_empty req.domain_key
    || is_empty req.customer_id
    || is_empty req.principal.id

-- set expires_at = least(now() + ttl, max_lifetime_at), renew_count = renew_count + 1, session_id.
unfoldable pub extend : ℕ → ℤ → Text → Execution → Execution
extend now ttl session_id e = record e {
  expires_at = min (plus_ms now (milliseconds ttl)) e.max_lifetime_at;
  session_id = session_id;
  renew_count = e.renew_count + 1;
}

-- What the audit of a resumption takes from the request.
unfoldable pub of_request : AcquireRequest → AuditRow → AuditRow
of_request req row = record row {
  merchant_id = req.merchant_id;
  customer_id = req.customer_id;
  principal = req.principal;
  domain_key = req.domain_key;
  rule_name = req.rule_name;
}

-- resumeHeld.
unfoldable pub resume_held : ℕ → AcquireRequest → Execution → Db → Db × AcquireResult
resume_held now req existing db =
    let e = extend now req.ttl req.session_id existing in
    let db' = record db {
      executions =
          update_where (λ r. has_id existing.id r && is_active r.state)
            (extend now req.ttl req.session_id) db.executions;
    } in
    (
      insert_audit (of_request req (audit_of execution_renewed (text "resume") req.request_id e)) (
          insert_audit
            (of_request req (audit_of execution_requested (text "already_held") req.request_id e))
            db'),
      already_held e,
    )

-- The execution that a grant inserts.
unfoldable pub new_execution : ℕ → Text → AcquireRequest → ℕ → Execution
new_execution now fresh req fence = record {
  id = fresh;
  merchant_id = req.merchant_id;
  domain_key = req.domain_key;
  customer_id = req.customer_id;
  principal = req.principal;
  session_id = req.session_id;
  resource = req.resource;
  action = req.action;
  rule_name = req.rule_name;
  fence = fence;
  state = active;
  granted_at = now;
  expires_at = plus_ms now (milliseconds req.ttl);
  max_lifetime_at = plus_ms now (milliseconds req.max_lifetime);
  renew_count = 0;
  ended_at = none;
  end_reason = [];
  successor_id = [];
  queue_position = 0;
  ops_used = 0;
  max_ops = pos 0;
}

unfoldable pub grant : ℕ → Text → AcquireRequest → Db → Result (Db × AcquireResult)
grant now fresh req db = do
  (fence, db₁) ← bump_fence now req.merchant_id req.domain_key db
  let e = new_execution now fresh req fence
  db₂ ← insert_execution e db₁
  ok (insert_audit (audit_of execution_granted (text "granted") req.request_id e) db₂, granted e)

-- The rows of the query for the domain's live executions.
unfoldable pub live_executions : ℕ → Text → Text → Db → List Execution
live_executions now m k db = select_where (λ e. in_domain m k e && is_live now e) db.executions

-- `actives[0]` is read only where the list is not empty, since MaxActive is at least 1 by then.
unfoldable pub admit_or_wait :
    ℕ → Text → AcquireRequest → List Execution → Db → Result (Db × AcquireResult)
admit_or_wait now fresh req [] db = grant now fresh req db
admit_or_wait now fresh req (holder ∷ rest) db =
    if lebℤ req.max_active (pos (suc (length rest)))
    then (if ltbℤ (pos 0) req.max_waiters
        then enqueue_waiter now fresh req holder db
        else ok (busy_result req holder db))
    else grant now fresh req db

unfoldable pub acquire_locked : ℕ → Text → AcquireRequest → Db → Result (Db × AcquireResult)
acquire_locked now fresh req db =
    let actives = live_executions now req.merchant_id req.domain_key db in
    elim (select_row (λ a. same_principal a.principal req.principal) actives) [
      | some a ↦ ok (resume_held now req a db)
      | none ↦ admit_or_wait now fresh req actives db
    ]

-- Store.Acquire; `fresh` is the result of id.Execution().
unfoldable pub acquire : ℕ → Text → AcquireRequest → Db → Result (Db × AcquireResult)
acquire now fresh req₀ db₀ = if is_incomplete req₀ then err invalid_input else (do
  let req = with_defaults req₀
  let db = ensure_domain now req.merchant_id req.domain_key db₀
  _ ← lock_domain req.merchant_id req.domain_key db
  acquire_locked now fresh req db)

-- Store.Get: an execution, else a waiter that has not expired.
unfoldable pub get : ℕ → Text → Text → Db → Result Execution
get now m x db = elim (select_row (λ e. text_eq e.merchant_id m && has_id x e) db.executions) [
  | some e ↦ ok e
  | none ↦ do
    w ←
        or_fail
          (select_row (λ w. text_eq w.merchant_id m && text_eq w.id x && still_waits now w)
            db.waiters)
          not_found
    ok (waiter_as_execution (waiter_position now m w.domain_key w.created_at db) w)
]
