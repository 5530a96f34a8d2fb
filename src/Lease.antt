-- ===== src/Lease.antt =====
-- internal/lease/types.go: the lease, its states, requests, results and errors.
-- A time is a number of nanoseconds, a duration (int64) an integer of them.
pub mod Precedence
use bruiser_gateway.Prelude.{
  ◌≡◌, refl, ℕ, Option, none, some, Bool, ◌&&◌, List, Text, text, ltb, ℤ, ◌+◌, ◌-◌, ◌*◌, ◌/◌, suc,
  pos, negsuc, neg,
}

-- StateActive … StateQueued.
pub data State : Type 0 where
  active released expired revoked handed_off queued : State

abbrev pub is_active : State → Bool
is_active State.active = Bool.true
is_active _ = Bool.false

pub record Principal : Type 0 where
  pub type : Text
  pub id : Text

pub record Execution : Type 0 where
  pub id : Text
  pub merchant_id : Text
  pub domain_key : Text
  pub customer_id : Text
  pub principal : Principal
  pub session_id : Text
  pub resource : Text
  pub action : Text
  pub rule_name : Text
  pub fence : ℕ
  pub state : State
  pub granted_at : ℕ
  pub expires_at : ℕ
  pub max_lifetime_at : ℕ
  pub renew_count : ℕ
  pub ended_at : Option ℕ
  pub end_reason : Text
  pub successor_id : Text
  pub queue_position : ℕ
  pub ops_used : ℕ
  pub max_ops : ℤ

-- Execution.IsActive, and the clause `state = 'ACTIVE' and expires_at > now()` of the queries.
unfoldable pub is_live : ℕ → Execution → Bool
is_live now e = is_active e.state && ltb now e.expires_at

pub record AcquireRequest : Type 0 where
  pub merchant_id : Text
  pub domain_key : Text
  pub customer_id : Text
  pub principal : Principal
  pub session_id : Text
  pub resource : Text
  pub action : Text
  pub rule_name : Text
  pub max_active : ℤ
  pub ttl : ℤ
  pub max_lifetime : ℤ
  pub precedence : List Text
  pub max_waiters : ℤ
  pub max_ops : ℤ
  pub request_id : Text

pub record QueueInfo : Type 0 where
  pub waiter_id : Text
  pub position : ℕ
  pub active_execution_id : Text
  pub expires_at : ℕ

pub record BusyInfo : Type 0 where
  pub active_execution_id : Text
  pub holder : Principal
  pub expires_at : ℕ
  pub can_preempt : Bool

-- Each status with the pointers that are set under it.
pub data AcquireResult : Type 0 where
  granted : Execution → AcquireResult
  already_held : Execution → AcquireResult
  busy : BusyInfo → AcquireResult
  queued_at : Execution → BusyInfo → QueueInfo → AcquireResult
  denied : (reason : Text) → AcquireResult

-- The mode of a handoff: "preempt", "cooperative", "" (inferred), or another text.
pub data Mode : Type 0 where
  preempt cooperative inferred other_mode : Mode

pub record HandoffRequest : Type 0 where
  pub merchant_id : Text
  pub execution_id : Text
  pub session_id : Text
  pub to : Principal
  pub mode : Mode
  pub ttl : ℤ
  pub precedence : List Text
  pub request_id : Text

pub record HandoffResult : Type 0 where
  pub predecessor : Execution
  pub successor : Execution
  pub mode : Mode

-- ErrNotFound … ErrForbidden, and GoneError with its reason, successor and execution.
pub data Error : Type 0 where
  not_found not_holder unavailable invalid_input precedence_denied forbidden : Error
  gone : State → Text → Text → Error

pub data Result {ℓ} (A : Type ℓ) : Type ℓ where
  ok : A → Result A
  err : Error → Result A

infixl 5 ◌>>=◌
abbrev pub ◌>>=◌ {ℓ κ} : {A : Type ℓ} {B : Type κ} → Result A → (A → Result B) → Result B
ok a >>= f = f a
err e >>= f = err e

abbrev pub or_fail {ℓ} : {A : Type ℓ} → Option A → Error → Result A
or_fail none e = err e
or_fail (some a) e = ok a

-- An early return of an error where a test fails.
abbrev pub guard : Bool → Error → Result (Unit {0})
guard Bool.true e = ok tt
guard Bool.false e = err e

-- Where a chain succeeds, its first step did, and so did what follows it.
pub >>=-eq-ok {ℓ κ} :
    {A : Type ℓ} {B : Type κ} {end : B} (first : Result A) (rest : A → Result B)
    → first >>= rest ≡ ok end
    → (mid : A) × (first ≡ ok mid) × (rest mid ≡ ok end)
>>=-eq-ok (err why) rest chain = cc
>>=-eq-ok (ok mid) rest chain = (mid, refl, chain)

pub or_fail-eq-ok {ℓ} :
    {A : Type ℓ} (o : Option A) (e : Error) {a : A} → or_fail o e ≡ ok a → o ≡ some a
or_fail-eq-ok none e h = cc
or_fail-eq-ok (some b) e h = cc
