-- ===== src/System.antt =====
-- The lease store as a whole: its transactions, in the order in which they take effect. The callers
-- are the handlers of internal/api/public and the sweeps of cmd/bruiser.
pub mod Steps
pub mod Safety
use bruiser_gateway.Prelude.{ℕ, ◌≤◌, List, [], ◌∷◌, Text, ℤ, Bool}
use bruiser_gateway.Lease.{AcquireRequest, HandoffRequest, Execution, Result, ok, err}
use bruiser_gateway.Store.{Db, Session}
use bruiser_gateway.Store.Acquire.{acquire}
use bruiser_gateway.Store.Promote.{expire_waiters, promote_due}
use bruiser_gateway.Store.Mutate.{renew, release, revoke, expire_and_promote_domain}
use bruiser_gateway.Store.Handoff.{handoff}
use bruiser_gateway.Store.Sessions.{insert_session, revoke_session}
use bruiser_gateway.Store.Emergency.{drain_waiters, revoke_active}
use bruiser_gateway.Refinement.Capacities.{slots}

pub data Call : Type 0 where
  acquires : Text → AcquireRequest → Call
  renews : (merchant_id execution_id session_id request_id : Text) → ℤ → Call
  releases : (merchant_id execution_id session_id request_id : Text) → Call
  revokes : (merchant_id execution_id session_id request_id reason : Text) → Call
  hands_off : (fresh fresh_session : Text) → HandoffRequest → Call
  expires_domain : (merchant_id domain_key : Text) → Call
  promotes_due : (merchant_id domain_key : Text) → Call
  expires_waiters : ℤ → Call
  inserts_session : Session → Call
  revokes_session : (merchant_id session_id : Text) → Call
  drains_waiters : (merchant_id role actor request_id : Text) → Call
  revokes_active : (merchant_id request_id reason role actor : Text) → Call

-- A transaction that fails is rolled back.
abbrev pub committed {ℓ} : {A : Type ℓ} → Db → Result (Db × A) → Db
committed db (ok (db', _)) = db'
committed db (err _) = db

abbrev pub committed_db : Db → Result Db → Db
committed_db db (ok db') = db'
committed_db db (err _) = db

unfoldable pub step : ℕ → Call → Db → Db
step now (acquires fresh req) db = committed db (acquire now fresh req db)
step now (renews m x session_id rid ttl) db = committed db (renew now m x session_id rid ttl db)
step now (releases m x session_id rid) db = committed db (release now m x session_id rid db)
step now (revokes m x session_id rid reason) db =
    committed db (revoke now m x session_id rid reason db)
step now (hands_off fresh fresh_session req) db =
    committed db (handoff now fresh fresh_session req db)
step now (expires_domain m k) db = committed db (expire_and_promote_domain now m k db)
step now (promotes_due m k) db = committed_db db (promote_due now m k db)
step now (expires_waiters limit) db = (expire_waiters now limit db).0
step now (inserts_session sess) db = committed_db db (insert_session sess db)
step now (revokes_session m x) db = committed_db db (revoke_session now m x db)
step now (drains_waiters m role actor rid) db = (drain_waiters m role actor rid db).0
step now (revokes_active m rid reason role actor) db =
    (revoke_active now m rid reason role actor db).0

unfoldable pub run : List (ℕ × Call) → Db → Db
run [] db = db
run ((now, c) ∷ cs) db = run cs (step now c db)

abbrev pub empty_db : Db
empty_db = record { domains = []; executions = []; waiters = []; sessions = []; audit_events = [] }

-- The transactions start in the order in which they take effect.
abbrev pub InOrder : ℕ → List (ℕ × Call) → Type 0
InOrder since [] = Unit
InOrder since ((now, c) ∷ cs) = (since ≤ now) × InOrder now cs

-- A request asks for no more than the capacity of its domain.
abbrev pub CallFits : (Text → Text → ℕ) → Call → Type 0
CallFits cap (acquires fresh req) = slots req.max_active ≤ cap req.merchant_id req.domain_key
CallFits cap _ = Unit

abbrev pub CallsFit : (Text → Text → ℕ) → List (ℕ × Call) → Type 0
CallsFit cap [] = Unit
CallsFit cap ((now, c) ∷ cs) = CallFits cap c × CallsFit cap cs

-- The time of the last transaction.
abbrev pub last_time : ℕ → List (ℕ × Call) → ℕ
last_time since [] = since
last_time since ((now, c) ∷ cs) = last_time now cs
