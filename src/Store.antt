-- ===== src/Store.antt =====
-- internal/store/postgres: the tables of the lease store, and the statements that its operations
-- share. A transaction is a function from the tables to a result with the new tables; an error
-- rolls back, so it carries no tables. Each takes the transaction's `now()`.
pub mod Waiters
pub mod Promote
pub mod Acquire
pub mod Mutate
pub mod Handoff
pub mod Sessions
pub mod Emergency
use bruiser_gateway.Prelude.{
  ℕ, suc, ◌+◌, ◌-◌, ◌*◌, ◌/◌, Option, none, some, Bool, true, false, ◌&&◌, not, List, [], ◌∷◌, ◌++◌,
  if◌then◌else◌, ltb, min, Text, text, text_eq, is_empty, ℤ, pos, negsuc, neg, select_row,
  count_where, update_where, any_where,
}
use bruiser_gateway.Lease.{
  State, Principal, Execution, is_live, is_active, Error, gone, not_found, not_holder, unavailable,
  expired, Result, ok, err, ◌>>=◌, or_fail,
}

pub record Domain : Type 0 where
  pub merchant_id : Text
  pub domain_key : Text
  pub fence : ℕ
  pub updated_at : ℕ

pub record Waiter : Type 0 where
  pub id : Text
  pub merchant_id : Text
  pub domain_key : Text
  pub customer_id : Text
  pub principal : Principal
  pub session_id : Text
  pub resource : Text
  pub action : Text
  pub rule_name : Text
  pub max_active : ℤ
  pub lease_ttl_ms : ℤ
  pub max_lifetime_ms : ℤ
  pub created_at : ℕ
  pub expires_at : ℕ

pub record Session : Type 0 where
  pub id : Text
  pub merchant_id : Text
  pub customer_id : Text
  pub anchors : List (Text × Text)
  pub principal_type : Text
  pub principal_id : Text
  pub expires_at : ℕ
  pub revoked_at : Option ℕ
  pub version : ℕ

pub data AuditType : Type 0 where
  execution_requested execution_granted execution_renewed execution_busy : AuditType
  execution_queued execution_dequeued execution_queue_expired : AuditType
  execution_released execution_revoked execution_expired execution_handed_off : AuditType
  emergency_drain emergency_revoke : AuditType

pub record AuditRow : Type 0 where
  pub typ : AuditType
  pub merchant_id : Text
  pub customer_id : Text
  pub principal : Principal
  pub domain_key : Text
  pub execution_id : Text
  pub rule_name : Text
  pub reason : Text
  pub request_id : Text
  pub fence : Option ℕ

pub record Db : Type 0 where
  pub domains : List Domain
  pub executions : List Execution
  pub waiters : List Waiter
  pub sessions : List Session
  pub audit_events : List AuditRow

-- d.Milliseconds(): int64(d) / 1000000, towards zero.
unfoldable pub milliseconds : ℤ → ℤ
milliseconds (pos d) = pos (d / 1000000)
milliseconds (negsuc d) = neg (suc d / 1000000)

-- time.Duration(ms) * time.Millisecond.
unfoldable pub of_milliseconds : ℤ → ℤ
of_milliseconds (pos k) = pos (k * 1000000)
of_milliseconds (negsuc k) = neg (suc k * 1000000)

-- now() + interval, the interval in whole milliseconds; no time lies before 0.
unfoldable pub plus_ms : ℕ → ℤ → ℕ
plus_ms now (pos k) = now + k * 1000000
plus_ms now (negsuc k) = now - suc k * 1000000

unfoldable pub is_domain : Text → Text → Domain → Bool
is_domain m k d = text_eq d.merchant_id m && text_eq d.domain_key k

-- where merchant_id = $1 and domain_key = $2, over each table.
unfoldable pub in_domain : Text → Text → Execution → Bool
in_domain m k e = text_eq e.merchant_id m && text_eq e.domain_key k

unfoldable pub waits_in : Text → Text → Waiter → Bool
waits_in m k w = text_eq w.merchant_id m && text_eq w.domain_key k

unfoldable pub has_id : Text → Execution → Bool
has_id x e = text_eq e.id x

-- insert into domains … on conflict do nothing.
unfoldable pub ensure_domain : ℕ → Text → Text → Db → Db
ensure_domain now m k db = if any_where (is_domain m k) db.domains then db else record db {
  domains =
      db.domains ++ record { merchant_id = m; domain_key = k; fence = 0; updated_at = now } ∷ [];
}

-- lockDomain: select fence … for update. No row is an error of the driver, which wrapStore maps.
unfoldable pub lock_domain : Text → Text → Db → Result ℕ
lock_domain m k db = do d ← or_fail (select_row (is_domain m k) db.domains) unavailable; ok d.fence

-- update domains set fence = fence + 1 … returning fence.
unfoldable pub bump_fence : ℕ → Text → Text → Db → Result (ℕ × Db)
bump_fence now m k db = do
  d ← or_fail (select_row (is_domain m k) db.domains) unavailable
  ok (
    suc d.fence,
    record db {
      domains =
          update_where (is_domain m k) (λ r. record r { fence = suc r.fence; updated_at = now })
            db.domains;
    },
  )

-- insert into executions: the primary key is execution_id.
unfoldable pub insert_execution : Execution → Db → Result Db
insert_execution e db =
    if any_where (has_id e.id) db.executions
    then err unavailable
    else ok (record db { executions = db.executions ++ e ∷ [] })

unfoldable pub insert_audit : AuditRow → Db → Db
insert_audit a db = record db { audit_events = db.audit_events ++ a ∷ [] }

-- The audit row of an execution, as most operations write it.
unfoldable pub audit_of : AuditType → Text → Text → Execution → AuditRow
audit_of typ reason request_id e = record {
  typ = typ;
  merchant_id = e.merchant_id;
  customer_id = e.customer_id;
  principal = e.principal;
  domain_key = e.domain_key;
  execution_id = e.id;
  rule_name = e.rule_name;
  reason = reason;
  request_id = request_id;
  fence = some e.fence;
}

-- loadActiveForUpdate.
unfoldable pub load_active_for_update : ℕ → Text → Text → Db → Result Execution
load_active_for_update now m x db = do
  e ← or_fail (select_row (λ e. text_eq e.merchant_id m && has_id x e) db.executions) not_found
  if not (is_active e.state)
      then err (gone e.state e.successor_id e.id)
      else if ltb now e.expires_at
      then ok e
      else err (gone expired [] e.id)

unfoldable pub session : Text → Db → Option Session
session x db = select_row (λ s. text_eq s.id x) db.sessions

-- holderMatches: the session that holds the execution, or another of the same customer and principal.
unfoldable pub holder_matches : Execution → Text → Db → Result (Unit {0})
holder_matches e session_id db = if text_eq e.session_id session_id then ok tt else do
  caller ← or_fail (session session_id db) not_holder
  if not (text_eq caller.merchant_id e.merchant_id && text_eq caller.customer_id e.customer_id)
      then err not_holder
      else if not (
          text_eq caller.principal_type e.principal.type
          && text_eq caller.principal_id e.principal.id)
      then err not_holder
      else ok tt

-- lookupDomainKey: an execution's, else a waiter's.
unfoldable pub lookup_domain_key : Text → Text → Db → Result Text
lookup_domain_key m x db =
    elim (select_row (λ e. text_eq e.merchant_id m && has_id x e) db.executions) [
      | some e ↦ ok e.domain_key
      | none ↦ do
        w ←
            or_fail (select_row (λ w. text_eq w.merchant_id m && text_eq w.id x) db.waiters)
              not_found
        ok w.domain_key
    ]
