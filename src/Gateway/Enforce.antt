-- ===== src/Gateway/Enforce.antt =====
-- internal/api/public/authorize.go: admit under enforcement, with the lease store, and admitDryRun.
use bruiser_gateway.Prelude.{ℕ, Option, none, some, ◌++◌, Text, text}
use bruiser_gateway.Lease.{
  Execution, AcquireRequest, AcquireResult, granted, already_held, busy, queued_at, denied, Result,
  ok, err,
}
use bruiser_gateway.Store.{Session}
use bruiser_gateway.Budget
use bruiser_gateway.Resource.{TextOps}
use bruiser_gateway.Policy.{Terms}
use bruiser_gateway.Shadow.{DryRunEvent, ShadowRequest}
use bruiser_gateway.Gateway.{Services, World, Setting, Customer, after}
use bruiser_gateway.Gateway.Admission.{
  Admission, observed, unsigned, over_budget, admitted, in_queue, held_by, not_granted, AdmitInput,
  noted, admit_store_error, would_text, unaware, decision_row,
}

module _ {ℓ} {S : Type ℓ} (o : TextOps) (v : Services S) (s : Setting)
    (sign_execution : Execution → Option Text) (now : ℕ) where
  -- The branch of a lease that the caller holds now; `outcome` tells a new one from one held before.
  unfoldable pub conclude :
      (status_text outcome resource customer request_id : Text)
      → Terms
      → Execution
      → World S
      → World S × Admission
  conclude status_text outcome resource customer rid t e w₀ =
      let w = noted resource customer outcome w₀ in
      elim (sign_execution e) [
        | none ↦ (w, unsigned)
        | some token ↦
            let (spent, used) =
              v.consume_op s.merchant_id e.id
                (v.ensure_budget s.merchant_id e.id t.max_ops w.store) in
            elim used [
              | err x ↦ (record w { store = spent }, over_budget)
              | ok budget ↦ elim budget [
                | Budget.over_budget ↦ (record w { store = spent }, over_budget)
                | Budget.used n max_ops ↦ (
                  record w {
                    store = v.write_audit s.merchant_id (text "AUTHORIZE") status_text rid e spent;
                  },
                  admitted e token,
                )
              ]
            ]
      ]

  -- The switch on the answer of the store.
  unfoldable pub answer_acquire :
      (resource customer request_id : Text) → Terms → AcquireResult → World S → World S × Admission
  answer_acquire resource customer rid t (granted e) w =
      conclude (text "GRANTED") (text "allow") resource customer rid t e w
  answer_acquire resource customer rid t (already_held e) w =
      conclude (text "ALREADY_HELD") (text "resume") resource customer rid t e w
  answer_acquire resource customer rid t (queued_at e b q) w =
      (noted resource customer (text "queued") w, in_queue b q)
  answer_acquire resource customer rid t (busy b) w =
      (noted resource customer (text "busy") w, held_by b)
  answer_acquire resource customer rid t (denied reason) w =
      (noted resource customer (text "denied") w, not_granted reason)

  unfoldable pub acquire_request :
      AdmitInput → Customer → (resource action rule : Text) → Terms → AcquireRequest
  acquire_request i c resource action rule t = record {
    merchant_id = s.merchant_id;
    domain_key = t.domain_key;
    customer_id = c.customer_id;
    principal = record { type = text "agent"; id = unaware i c };
    session_id = i.fresh_session;
    resource = resource;
    action = action;
    rule_name = rule;
    max_active = t.max_active;
    ttl = t.ttl;
    max_lifetime = t.max_lifetime;
    precedence = t.precedence;
    max_waiters = t.max_waiters;
    max_ops = t.max_ops;
    request_id = i.request_id;
  }

  unfoldable pub session_of : AdmitInput → Customer → Session
  session_of i c = record {
    id = i.fresh_session;
    merchant_id = s.merchant_id;
    customer_id = c.customer_id;
    anchors = c.anchors;
    principal_type = text "agent";
    principal_id = unaware i c;
    expires_at = after now s.session_ttl;
    revoked_at = none;
    version = 1;
  }

  -- What follows the store's answer: the record of the decision, and the answer to the caller.
  unfoldable pub after_acquire :
      AdmitInput
      → Customer
      → (resource action rule : Text) → Terms
      → Result AcquireResult
      → World S
      → World S × Admission
  after_acquire i c resource action rule t (err e) w = (w, admit_store_error s.controls e)
  after_acquire i c resource action rule t (ok a) w =
      let row =
        decision_row s.merchant_id c.customer_id (unaware i c) resource action rule i.request_id
          a in
      answer_acquire resource c.customer_id i.request_id t a
        (record w { store = v.record_decision row w.store })

  -- What follows the insertion of the session.
  unfoldable pub after_session :
      AdmitInput
      → Customer
      → (resource action rule : Text) → Terms
      → Result (Unit {0})
      → World S
      → World S × Admission
  after_session i c resource action rule t (err e) w = (w, admit_store_error s.controls e)
  after_session i c resource action rule t (ok done) w =
      let (held, r) = v.acquire now (acquire_request i c resource action rule t) w.store in
      after_acquire i c resource action rule t r (record w { store = held })

  -- The enforced part of admit, from the session on.
  unfoldable pub admit_enforced :
      AdmitInput → Customer → (resource action rule : Text) → Terms → World S → World S × Admission
  admit_enforced i c resource action rule t w =
      let (stored, r) = v.insert_session now (session_of i c) w.store in
      after_session i c resource action rule t r (record w { store = stored })

  unfoldable pub shadow_request :
      AdmitInput → Customer → (resource action rule : Text) → Terms → ShadowRequest
  shadow_request i c resource action rule t = record {
    merchant_id = s.merchant_id;
    domain_key = t.domain_key;
    customer_id = c.customer_id;
    principal_id = unaware i c;
    resource = resource;
    action = action;
    rule_name = rule;
    max_active = t.max_active;
    max_waiters = t.max_waiters;
    ttl = t.ttl;
    request_id = i.request_id;
  }

  unfoldable pub after_shadow :
      (resource customer : Text) → Result DryRunEvent → World S → World S × Admission
  after_shadow resource customer (err e) w = (
    noted resource customer (text "would_unknown") w,
    observed (text "WOULD_UNKNOWN") (text "store_unavailable"),
  )
  after_shadow resource customer (ok ev) w = (
    noted resource customer (text "would_" ++ o.to_lower (would_text ev.would)) w,
    observed (text "WOULD_" ++ would_text ev.would) ev.reason,
  )

  -- Server.admitDryRun.
  unfoldable pub admit_dry_run :
      AdmitInput → Customer → (resource action rule : Text) → Terms → World S → World S × Admission
  admit_dry_run i c resource action rule t w =
      let (decided, r) = v.shadow_decide now (shadow_request i c resource action rule t) w.store in
      after_shadow resource c.customer_id r (record w { store = decided })
