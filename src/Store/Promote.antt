-- ===== src/Store/Promote.antt =====
-- internal/store/postgres/waiters.go: what takes a waiter out of the queue.
use bruiser_gateway.Prelude.{
  ℕ, Option, none, some, ◌&&◌, List, [], ◌∷◌, if◌then◌else◌, leb, take, length, zero, suc, Text,
  text, text_eq, ℤ, pos, negsuc, ltbℤ, lebℤ, select_where, select_row, count_where, delete_where,
}
use bruiser_gateway.Lease.{
  active, released, Execution, is_live, not_found, Result, ok, ◌>>=◌, or_fail,
}
use bruiser_gateway.Store.{
  Waiter, Db, execution_granted, execution_dequeued, execution_queue_expired, milliseconds,
  of_milliseconds, plus_ms, in_domain, waits_in, lock_domain, bump_fence, insert_execution,
  insert_audit, audit_of, holder_matches, lookup_domain_key,
}
use bruiser_gateway.Store.Waiters.{waiter_as_execution, still_waits}

-- order by created_at limit 1.
unfoldable pub oldest : List Waiter → Option Waiter
oldest [] = none
oldest (w ∷ ws) = elim (oldest ws) [
  | none ↦ some w
  | some v ↦ if leb w.created_at v.created_at then some w else some v
]

-- The default of a duration that is not positive.
unfoldable pub or_default : ℤ → ℕ → ℤ
or_default d default = if lebℤ d (pos 0) then pos default else d

abbrev pub sixty_seconds : ℕ
sixty_seconds = 60000000000

abbrev pub fifteen_minutes : ℕ
fifteen_minutes = 900000000000

-- `if MaxActive < 1 { MaxActive = 1 }`.
unfoldable pub at_least_one : ℤ → ℤ
at_least_one n = if ltbℤ n (pos 1) then pos 1 else n

-- The execution that a promoted waiter becomes.
unfoldable pub promoted : ℕ → Waiter → ℕ → Execution
promoted now w fence = record {
  id = w.id;
  merchant_id = w.merchant_id;
  domain_key = w.domain_key;
  customer_id = w.customer_id;
  principal = w.principal;
  session_id = w.session_id;
  resource = w.resource;
  action = w.action;
  rule_name = w.rule_name;
  fence = fence;
  state = active;
  granted_at = now;
  expires_at =
      plus_ms now (milliseconds (or_default (of_milliseconds w.lease_ttl_ms) sixty_seconds));
  max_lifetime_at =
      plus_ms now (milliseconds (or_default (of_milliseconds w.max_lifetime_ms) fifteen_minutes));
  renew_count = 0;
  ended_at = none;
  end_reason = [];
  successor_id = [];
  queue_position = 0;
  ops_used = 0;
  max_ops = pos 0;
}

unfoldable pub delete_waiter : Text → Db → Db
delete_waiter x db = record db { waiters = delete_where (λ w. text_eq w.id x) db.waiters }

-- delete from waiters where … and expires_at <= now().
unfoldable pub drop_expired : ℕ → Text → Text → Db → Db
drop_expired now m k db = record db {
  waiters = delete_where (λ w. waits_in m k w && leb w.expires_at now) db.waiters;
}

-- select count(*) from executions where … and state = 'ACTIVE' and expires_at > now().
unfoldable pub count_live : ℕ → Text → Text → Db → ℕ
count_live now m k db = count_where (λ e. in_domain m k e && is_live now e) db.executions

unfoldable pub promote_waiter : ℕ → Text → Text → Text → Waiter → Db → Result Db
promote_waiter now request_id m k w db = do
  (fence, db₁) ← bump_fence now m k db
  let e = promoted now w fence
  db₂ ← insert_execution e db₁
  ok (
      insert_audit (audit_of execution_granted (text "promoted") request_id e)
        (delete_waiter w.id db₂))

unfoldable pub promote_locked : ℕ → Text → Text → Text → Db → Result Db
promote_locked now request_id m k db₀ =
    let db = drop_expired now m k db₀ in
    elim (oldest (select_where (λ w. waits_in m k w && still_waits now w) db.waiters)) [
      | none ↦ ok db
      | some w ↦
          if lebℤ (at_least_one w.max_active) (pos (count_live now m k db))
          then ok db
          else promote_waiter now request_id m k w db
    ]

unfoldable pub promote_due : ℕ → Text → Text → Db → Result Db
promote_due now m k db = do _ ← lock_domain m k db; promote_locked now [] m k db

unfoldable pub dequeue : ℕ → Text → Text → Text → Text → Db → Result (Db × Execution)
dequeue now m x session_id request_id db = do
  k ← lookup_domain_key m x db
  _ ← lock_domain m k db
  w ← or_fail (select_row (λ w. text_eq w.merchant_id m && text_eq w.id x) db.waiters) not_found
  let e = waiter_as_execution 0 w
  _ ← holder_matches e session_id db
  let row = audit_of execution_dequeued (text "left_queue") request_id e
  ok (
    insert_audit (record row { domain_key = k; fence = none }) (delete_waiter x db),
    record e { state = released; end_reason = text "RELEASED"; ended_at = some now },
  )

-- The loop over the rows that ExpireWaiters selected.
unfoldable pub expire_each : List Waiter → Db → Db
expire_each [] db = db
expire_each (w ∷ ws) db =
    let row = audit_of execution_queue_expired (text "expired") [] (waiter_as_execution 0 w) in
    expire_each ws (insert_audit (record row { fence = none }) (delete_waiter w.id db))

-- A limit below 1 stands for 100.
unfoldable pub or_limit : ℤ → ℕ → ℕ
or_limit (pos (suc n)) default = suc n
or_limit (pos zero) default = default
or_limit (negsuc n) default = default

unfoldable pub expire_waiters : ℕ → ℤ → Db → Db × ℕ
expire_waiters now limit db =
    let list = take (or_limit limit 100) (select_where (λ w. leb w.expires_at now) db.waiters) in
    (expire_each list db, length list)
