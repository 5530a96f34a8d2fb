-- ===== src/Store/Waiters.antt =====
-- internal/store/postgres/waiters.go: the queue of one customer's agents for one domain.
use bruiser_gateway.Prelude.{
  ℕ, Option, none, some, Bool, true, false, ◌&&◌, [], ◌∷◌, ◌++◌, if◌then◌else◌, ltb, leb, Text,
  text, text_eq, pos, lebℤ, select_row, count_where, any_where,
}
use bruiser_gateway.Lease.{
  queued, Principal, Execution, AcquireRequest, AcquireResult, busy, queued_at, unavailable, Result,
  ok, err, ◌>>=◌,
}
use bruiser_gateway.Lease.Precedence.{can_preempt_ranked, same_principal}
use bruiser_gateway.Store.{
  Waiter, Db, execution_busy, execution_queued, milliseconds, plus_ms, waits_in, insert_audit,
  audit_of,
}

-- expires_at > now().
unfoldable pub still_waits : ℕ → Waiter → Bool
still_waits now w = ltb now w.expires_at

-- waiterAsExecution, at a position in the queue.
unfoldable pub waiter_as_execution : ℕ → Waiter → Execution
waiter_as_execution position w = record {
  id = w.id;
  merchant_id = w.merchant_id;
  domain_key = w.domain_key;
  customer_id = w.customer_id;
  principal = w.principal;
  session_id = w.session_id;
  resource = w.resource;
  action = w.action;
  rule_name = w.rule_name;
  fence = 0;
  state = queued;
  granted_at = w.created_at;
  expires_at = w.expires_at;
  max_lifetime_at = w.expires_at;
  renew_count = 0;
  ended_at = none;
  end_reason = [];
  successor_id = [];
  queue_position = position;
  ops_used = 0;
  max_ops = pos 0;
}

unfoldable pub waiter_position : ℕ → Text → Text → ℕ → Db → ℕ
waiter_position now m k created_at db =
    count_where (λ w. waits_in m k w && still_waits now w && leb w.created_at created_at) db.waiters

unfoldable pub load_waiter_by_principal : ℕ → Text → Text → Principal → Db → Option Waiter
load_waiter_by_principal now m k p db =
    select_row (λ w. waits_in m k w && same_principal w.principal p && still_waits now w) db.waiters

unfoldable pub queued_result : ℕ → Waiter → Execution → AcquireResult
queued_result position w holder =
    queued_at (waiter_as_execution position w)
      (record {
        active_execution_id = holder.id;
        holder = holder.principal;
        expires_at = holder.expires_at;
        can_preempt = false;
      })
      (record {
        waiter_id = w.id;
        position = position;
        active_execution_id = holder.id;
        expires_at = w.expires_at;
      })

unfoldable pub busy_result : AcquireRequest → Execution → Db → Db × AcquireResult
busy_result req holder db = (
  insert_audit
      (record {
        typ = execution_busy;
        merchant_id = req.merchant_id;
        customer_id = req.customer_id;
        principal = req.principal;
        domain_key = req.domain_key;
        execution_id = holder.id;
        rule_name = req.rule_name;
        reason = text "max_active";
        request_id = req.request_id;
        fence = some holder.fence;
      })
      db,
  busy (record {
    active_execution_id = holder.id;
    holder = holder.principal;
    expires_at = holder.expires_at;
    can_preempt = can_preempt_ranked req.principal holder.principal req.precedence;
  }),
)

-- The row that enqueueWaiter inserts, under the fresh id of `id.Execution()`.
unfoldable pub new_waiter : ℕ → Text → AcquireRequest → Waiter
new_waiter now fresh req = record {
  id = fresh;
  merchant_id = req.merchant_id;
  domain_key = req.domain_key;
  customer_id = req.customer_id;
  principal = req.principal;
  session_id = req.session_id;
  resource = req.resource;
  action = req.action;
  rule_name = req.rule_name;
  max_active = req.max_active;
  lease_ttl_ms = milliseconds req.ttl;
  max_lifetime_ms = milliseconds req.max_lifetime;
  created_at = now;
  expires_at = plus_ms now (milliseconds req.max_lifetime);
}

-- The indexes of migration 00003: waiter_id is the primary key, and a domain has one row for each
-- principal, whether or not that row has expired.
unfoldable pub waiter_conflicts : Waiter → Waiter → Bool
waiter_conflicts w r =
    if text_eq r.id w.id
    then true
    else waits_in w.merchant_id w.domain_key r && same_principal r.principal w.principal

unfoldable pub insert_waiter : Waiter → Db → Result Db
insert_waiter w db =
    if any_where (waiter_conflicts w) db.waiters
    then err unavailable
    else ok (record db { waiters = db.waiters ++ w ∷ [] })

unfoldable pub queue_up : ℕ → Text → AcquireRequest → Execution → Db → Result (Db × AcquireResult)
queue_up now fresh req holder db = do
  let w = new_waiter now fresh req
  db' ← insert_waiter w db
  let position = waiter_position now req.merchant_id req.domain_key w.created_at db'
  let row = audit_of execution_queued (text "queued") req.request_id (waiter_as_execution 0 w)
  ok (insert_audit (record row { fence = some holder.fence }) db', queued_result position w holder)

unfoldable pub enqueue_waiter :
    ℕ → Text → AcquireRequest → Execution → Db → Result (Db × AcquireResult)
enqueue_waiter now fresh req holder db =
    elim (load_waiter_by_principal now req.merchant_id req.domain_key req.principal db) [
      | some w ↦ ok (
        db,
        queued_result (waiter_position now req.merchant_id req.domain_key w.created_at db) w holder,
      )
      | none ↦
          let n =
            count_where (λ w. waits_in req.merchant_id req.domain_key w && still_waits now w)
              db.waiters in
          if lebℤ req.max_waiters (pos n)
          then ok (busy_result req holder db)
          else queue_up now fresh req holder db
    ]
