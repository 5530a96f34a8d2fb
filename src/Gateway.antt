-- ===== src/Gateway.antt =====
-- internal/api/public: what the HTTP handlers keep and what they call. A handler here is a function of
-- its time, the ids that it draws, its request and the world; headers, JSON, logs and metrics are left
-- out, and an answer is a constructor with its status.
pub mod Attempts
pub mod Errors
pub mod Settled
pub mod Admission
pub mod Enforce
pub mod Admit
pub mod Sessions
pub mod Calls
pub mod Backend
pub mod Branches
pub mod Allowed
pub mod Safe
pub mod Kept
pub mod Called
pub mod History
pub mod Fitting
pub mod Statuses
pub mod Authorised
pub mod Introspect
pub mod Introspected
pub mod Roles
pub mod Minted
pub mod Proxy
pub mod Stripped
pub mod Hops
pub mod Forwarded
use bruiser_gateway.Prelude.{ℕ, ◌+◌, ◌-◌, Option, Bool, List, Text, ℤ, pos_part, neg_part}
use bruiser_gateway.Lease.{
  Execution, AcquireRequest, AcquireResult, HandoffRequest, HandoffResult, Result,
}
use bruiser_gateway.Store.{Session}
use bruiser_gateway.Store.Sessions.{SessionResult}
use bruiser_gateway.Budget.{BudgetResult, ReplayResult}
use bruiser_gateway.Shadow.{DryRunEvent, ShadowRequest}
use bruiser_gateway.Policy.{Compiled}
use bruiser_gateway.Controls.{Controls}
use bruiser_gateway.Merchant.{Profile}
use bruiser_gateway.Gateway.Attempts.{EafAcc}

-- The arguments of RecordDecision.
pub record DecisionRow : Type 0 where
  pub merchant_id : Text
  pub would : Text
  pub reason : Text
  pub customer_id : Text
  pub principal_id : Text
  pub resource : Text
  pub action : Text
  pub rule_name : Text
  pub request_id : Text
  pub enforced : Bool
  pub error : Text

-- What the handlers call of lease.Store, through its cache, and of the rest of the store. A call gives
-- the state that it leaves and its answer or error; errors of the last four are ignored by the code.
pub record Services {ℓ} (S : Type ℓ) : Type ℓ where
  pub acquire : ℕ → AcquireRequest → S → S × Result AcquireResult
  pub renew :
      ℕ → (merchant_id execution_id session_id request_id : Text) → ℤ → S → S × Result Execution
  pub release :
      ℕ → (merchant_id execution_id session_id request_id : Text) → S → S × Result Execution
  pub revoke :
      ℕ → (merchant_id execution_id session_id request_id reason : Text) → S → S × Result Execution
  pub handoff : ℕ → HandoffRequest → S → S × Result HandoffResult
  pub get : ℕ → (merchant_id execution_id : Text) → S → Result Execution
  pub insert_session : ℕ → Session → S → S × Result (Unit {0})
  pub revoke_session : ℕ → (merchant_id session_id : Text) → S → S × Result (Unit {0})
  pub live_session : ℕ → (merchant_id session_id : Text) → S → Result SessionResult
  pub consume_op : (merchant_id execution_id : Text) → S → S × Result BudgetResult
  pub claim_replay : ℕ → (merchant_id replay_key kind : Text) → S → S × Result ReplayResult
  pub shadow_decide : ℕ → ShadowRequest → S → S × Result DryRunEvent
  pub ensure_budget : (merchant_id execution_id : Text) → ℤ → S → S
  pub record_decision : DecisionRow → S → S
  pub write_audit : (merchant_id typ reason request_id : Text) → Execution → S → S

-- The process: the state behind the services, and its counters of attempts.
pub record World {ℓ} (S : Type ℓ) : Type ℓ where
  pub store : S
  pub attempts : EafAcc

-- The fields of Server, and of its configuration, that the handlers read.
pub record Setting : Type 0 where
  pub merchant_id : Text
  pub environment : Text
  pub session_ttl : ℤ
  pub lease_ttl : ℤ
  pub profile : Profile
  pub compiled : Compiled
  pub controls : Controls

-- What identity.ExtractInput finds.
pub record Customer : Type 0 where
  pub customer_id : Text
  pub principal_id : Text
  pub anchors : List (Text × Text)

-- now.Add(d).
abbrev pub after : ℕ → ℤ → ℕ
after now d = now + pos_part d - neg_part d
