-- ===== src/Gateway/Backend.antt =====
-- What stands behind the handlers in a running gateway: internal/store/postgres, its leases through the
-- cache of internal/lease/cache.go.
use bruiser_gateway.Prelude.{List, [], ◌∷◌, ◌++◌, Text, pos}
use bruiser_gateway.Lease.{Result, ok, err}
use bruiser_gateway.Store.{Db}
use bruiser_gateway.Store.Acquire
use bruiser_gateway.Store.Mutate
use bruiser_gateway.Store.Handoff
use bruiser_gateway.Store.Sessions
use bruiser_gateway.Cache
use bruiser_gateway.Cache.{Inner, Cache}
use bruiser_gateway.Budget
use bruiser_gateway.Budget.{BudgetTable, ReplayRow}
use bruiser_gateway.Shadow
use bruiser_gateway.Shadow.{ShadowDb}
use bruiser_gateway.Gateway.{DecisionRow, Services}

pub record AuditEvent : Type 0 where
  pub merchant_id : Text
  pub typ : Text
  pub reason : Text
  pub request_id : Text
  pub execution_id : Text

pub record Tables : Type 0 where
  pub db : Db
  pub cache : Cache
  pub budgets : BudgetTable
  pub replays : List ReplayRow
  pub shadow : ShadowDb
  pub decisions : List DecisionRow
  pub authorized : List AuditEvent

-- The ids that the store draws in one request.
pub record FreshIds : Type 0 where
  pub execution : Text
  pub session : Text
  pub hold : Text

-- The lease store, for the cache.
abbrev pub postgres : FreshIds → Inner Db
postgres fresh = record {
  acquire = λ now req db. Acquire.acquire now fresh.execution req db;
  renew = λ now m x session_id rid ttl db. Mutate.renew now m x session_id rid ttl db;
  release = λ now m x session_id rid db. Mutate.release now m x session_id rid db;
  revoke = λ now m x session_id rid reason db. Mutate.revoke now m x session_id rid reason db;
  handoff = λ now req db. Handoff.handoff now fresh.execution fresh.session req db;
}

abbrev pub leases {ℓ} : {A : Type ℓ} → Tables → Cache × Db × Result A → Tables × Result A
leases t (c, db, r) = (record t { cache = c; db = db }, r)

abbrev pub stored : Tables → Result Db → Tables × Result (Unit {0})
stored t (ok db) = (record t { db = db }, ok tt)
stored t (err e) = (t, err e)

abbrev pub shadowed {ℓ} : {A : Type ℓ} → Tables → Result (ShadowDb × A) → Tables × Result A
shadowed t (ok (db, a)) = (record t { shadow = db }, ok a)
shadowed t (err e) = (t, err e)

unfoldable pub services : FreshIds → Services Tables
services fresh = record {
  acquire = λ now req t. leases t (Cache.acquire (postgres fresh) now req t.cache t.db);
  renew = λ now m x session_id rid ttl t.
      leases t (Cache.renew (postgres fresh) now m x session_id rid ttl t.cache t.db);
  release = λ now m x session_id rid t.
      leases t (Cache.release (postgres fresh) now m x session_id rid t.cache t.db);
  revoke = λ now m x session_id rid reason t.
      leases t (Cache.revoke (postgres fresh) now m x session_id rid reason t.cache t.db);
  handoff = λ now req t. leases t (Cache.handoff (postgres fresh) now req t.cache t.db);
  get = λ now m x t. Acquire.get now m x t.db;
  insert_session = λ now sess t. stored t (Sessions.insert_session sess t.db);
  revoke_session = λ now m x t. stored t (Sessions.revoke_session now m x t.db);
  live_session = λ now m x t. ok (Sessions.live_session now m x t.db);
  consume_op = λ m x t.
      let (budgets, r) = Budget.consume_op m x t.budgets in (record t { budgets = budgets }, ok r);
  claim_replay = λ now m key kind t.
      let (replays, r) = Budget.claim_replay now m key kind (pos Budget.ten_minutes) t.replays in
      (record t { replays = replays }, ok r);
  shadow_decide = λ now req t. shadowed t (Shadow.shadow_decide now fresh.hold req t.shadow);
  ensure_budget =
      λ m x max_ops t. record t { budgets = Budget.ensure_budget m x max_ops t.budgets };
  record_decision = λ row t. record t { decisions = t.decisions ++ row ∷ [] };
  write_audit = λ m typ reason rid e t. record t {
    authorized =
        t.authorized
        ++ record {
          merchant_id = m;
          typ = typ;
          reason = reason;
          request_id = rid;
          execution_id = e.id;
        }
          ∷ [];
  };
}
