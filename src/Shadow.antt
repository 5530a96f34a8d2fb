-- ===== src/Shadow.antt =====
-- internal/store/postgres/ops.go: ShadowDecide, which says what enforcement would answer and keeps its
-- own record of holds. The tables are those of migration 00004.
pub mod Capacity
pub mod Sweep
pub mod Verdict
use bruiser_gateway.Prelude.{
  ℕ, Bool, true, false, not, ◌&&◌, List, [], ◌∷◌, ◌++◌, map, if◌then◌else◌, ltb, leb, Text, text,
  text_eq, ℤ, pos, ltbℤ, count_where, select_where, delete_where, any_where,
}
use bruiser_gateway.Lease.{unavailable, Result, ok, err}
use bruiser_gateway.Store.{milliseconds, plus_ms}
use bruiser_gateway.Store.Promote.{at_least_one, or_default, sixty_seconds}

pub data HoldKind : Type 0 where
  holds waits : HoldKind

abbrev pub is_holding : HoldKind → Bool
is_holding holds = true
is_holding waits = false

-- dry_run_holds; hold_id is the primary key.
pub record Hold : Type 0 where
  pub hold_id : Text
  pub merchant_id : Text
  pub domain_key : Text
  pub customer_id : Text
  pub principal_id : Text
  pub resource : Text
  pub action : Text
  pub rule_name : Text
  pub kind : HoldKind
  pub expires_at : ℕ

-- 'ALLOW', 'QUEUE', 'REJECT' and 'EXPIRE'.
pub data Would : Type 0 where
  allow queue reject expire : Would

pub record DryRunEvent : Type 0 where
  pub would : Would
  pub reason : Text
  pub customer_id : Text
  pub principal_id : Text
  pub resource : Text
  pub action : Text
  pub rule_name : Text
  pub request_id : Text
  pub enforced : Bool
  pub error : Text

pub record ShadowDb : Type 0 where
  pub dry_run_holds : List Hold
  pub dry_run_events : List (Text × DryRunEvent)

-- The arguments of ShadowDecide.
pub record ShadowRequest : Type 0 where
  pub merchant_id : Text
  pub domain_key : Text
  pub customer_id : Text
  pub principal_id : Text
  pub resource : Text
  pub action : Text
  pub rule_name : Text
  pub max_active : ℤ
  pub max_waiters : ℤ
  pub ttl : ℤ
  pub request_id : Text

unfoldable pub is_unexpired : ℕ → Hold → Bool
is_unexpired now h = ltb now h.expires_at

unfoldable pub held_in : ℕ → Text → Text → Hold → Bool
held_in now m k h = text_eq h.merchant_id m && text_eq h.domain_key k && is_unexpired now h

-- count(*) filter (where kind = 'ACTIVE'), and the same for 'QUEUED'.
unfoldable pub count_active : ℕ → Text → Text → List Hold → ℕ
count_active now m k = count_where (λ h. held_in now m k h && is_holding h.kind)

unfoldable pub count_queued : ℕ → Text → Text → List Hold → ℕ
count_queued now m k = count_where (λ h. held_in now m k h && not (is_holding h.kind))

-- The event of a place in the queue that has run out.
unfoldable pub stale : Text → Hold → Text × DryRunEvent
stale request_id h = (
  h.merchant_id,
  record {
    would = expire;
    reason = text "stale_queued_execution";
    customer_id = h.customer_id;
    principal_id = h.principal_id;
    resource = h.resource;
    action = h.action;
    rule_name = h.rule_name;
    request_id = request_id;
    enforced = false;
    error = [];
  },
)

-- The two statements that clear a merchant's holds that have run out.
unfoldable pub sweep : ℕ → Text → Text → ShadowDb → ShadowDb
sweep now m request_id db =
    let over = λ (h : Hold). text_eq h.merchant_id m && leb h.expires_at now in
    record {
      dry_run_holds = delete_where over db.dry_run_holds;
      dry_run_events =
          db.dry_run_events
          ++ map (stale request_id)
              (select_where (λ h. over h && not (is_holding h.kind)) db.dry_run_holds);
    }

unfoldable pub event : ShadowRequest → Would → Text → DryRunEvent
event req would reason = record {
  would = would;
  reason = reason;
  customer_id = req.customer_id;
  principal_id = req.principal_id;
  resource = req.resource;
  action = req.action;
  rule_name = req.rule_name;
  request_id = req.request_id;
  enforced = false;
  error = [];
}

unfoldable pub commit_dry : Text → DryRunEvent → ShadowDb → ShadowDb × DryRunEvent
commit_dry m ev db = (record db { dry_run_events = db.dry_run_events ++ (m, ev) ∷ [] }, ev)

unfoldable pub new_hold : ℕ → Text → ShadowRequest → HoldKind → Hold
new_hold now fresh req kind = record {
  hold_id = fresh;
  merchant_id = req.merchant_id;
  domain_key = req.domain_key;
  customer_id = req.customer_id;
  principal_id = req.principal_id;
  resource = req.resource;
  action = req.action;
  rule_name = req.rule_name;
  kind = kind;
  expires_at = plus_ms now (milliseconds (or_default req.ttl sixty_seconds));
}

unfoldable pub place_hold : ℕ → Text → ShadowRequest → HoldKind → ShadowDb → Result ShadowDb
place_hold now fresh req kind db =
    if any_where (λ h. text_eq h.hold_id fresh) db.dry_run_holds
    then err unavailable
    else ok (record db { dry_run_holds = db.dry_run_holds ++ new_hold now fresh req kind ∷ [] })

abbrev pub placed : ShadowRequest → DryRunEvent → Result ShadowDb → Result (ShadowDb × DryRunEvent)
placed req ev (ok db) = ok (commit_dry req.merchant_id ev db)
placed req ev (err e) = err e

-- The switch on the counts.
unfoldable pub decide : ℕ → Text → ShadowRequest → ShadowDb → Result (ShadowDb × DryRunEvent)
decide now fresh req db =
    let active = count_active now req.merchant_id req.domain_key db.dry_run_holds in
    let queued = count_queued now req.merchant_id req.domain_key db.dry_run_holds in
    if ltbℤ (pos active) (at_least_one req.max_active)
    then placed req (event req allow (text "would_acquire")) (place_hold now fresh req holds db)
    else if ltbℤ (pos 0) req.max_waiters && ltbℤ (pos queued) req.max_waiters
    then placed req (event req queue (text "active_execution_already_exists"))
        (place_hold now fresh req waits db)
    else ok (commit_dry req.merchant_id (event req reject (text "queue_capacity_exceeded")) db)

unfoldable pub has_hold : ℕ → ShadowRequest → Hold → Bool
has_hold now req h =
    held_in now req.merchant_id req.domain_key h && text_eq h.principal_id req.principal_id

-- Store.ShadowDecide; `fresh` is the result of id.Execution().
unfoldable pub shadow_decide : ℕ → Text → ShadowRequest → ShadowDb → Result (ShadowDb × DryRunEvent)
shadow_decide now fresh req db₀ =
    let db = sweep now req.merchant_id req.request_id db₀ in
    if any_where (has_hold now req) db.dry_run_holds
    then ok (commit_dry req.merchant_id (event req allow (text "already_held")) db)
    else decide now fresh req db
