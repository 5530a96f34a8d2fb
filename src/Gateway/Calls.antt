-- ===== src/Gateway/Calls.antt =====
-- internal/api/public/server.go and rc1.go: the handlers of executions, under a session's claims.
use bruiser_gateway.Prelude.{
  ℕ, Option, none, some, not, List, [], ◌++◌, if◌then◌else◌, Text, text, text_eq, is_empty, ℤ,
}
use bruiser_gateway.Lease.{
  Principal, Execution, AcquireRequest, AcquireResult, granted, already_held, busy, queued_at,
  denied, BusyInfo, QueueInfo, Mode, HandoffResult, Error, Result, ok, err,
}
use bruiser_gateway.Shadow.{DryRunEvent, ShadowRequest}
use bruiser_gateway.Budget.{ReplayResult, claimed, replayed}
use bruiser_gateway.Resource.{
  TextOps, canonical_id, malformed, unknown_resource, new_catalogue, catalogue_canonical,
}
use bruiser_gateway.Policy
use bruiser_gateway.Policy.{Decision, uncontrolled, leased, Terms}
use bruiser_gateway.Policy.Evaluate.{evaluate}
use bruiser_gateway.Policy.Safety.{precedence}
use bruiser_gateway.Controls.{should_enforce}
use bruiser_gateway.Merchant.{first_nonempty}
use bruiser_gateway.Gateway.{Services, World, Setting}
use bruiser_gateway.Gateway.Errors.{store_error, mutation_error}
use bruiser_gateway.Gateway.Settled.{Applied, apply_controls, fail_open, ramp_input}
use bruiser_gateway.Gateway.Admission.{rule_of, noted, would_text, decision_row}
use bruiser_gateway.Gateway.Sessions.{Claims}

-- The request's headers that name it, and its body.
pub record AcquireInput : Type 0 where
  pub idempotency_key : Text
  pub nonce : Text
  pub request_header : Text
  pub request_id : Text
  pub body : Option (Text × Text)

pub data Reply : Type 0 where
  replayed_request bad_json resource_required bad_resource : Reply
  failed : (status : ℕ) → Error → Reply
  refused : (reason rule_name : Text) → Reply
  observed : (would reason : Text) → Reply
  failed_open : (rule_name : Text) → Reply
  created held : Execution → Reply
  in_queue : BusyInfo → QueueInfo → Reply
  held_by : BusyInfo → Reply
  not_granted : (reason : Text) → Reply
  handed_off : HandoffResult → Reply
  ended : Execution → Reply
  not_found : Reply

unfoldable pub reply_status : Reply → ℕ
reply_status replayed_request = 409
reply_status bad_json = 400
reply_status resource_required = 400
reply_status bad_resource = 400
reply_status (failed n e) = n
reply_status (refused reason rule_name) = 403
reply_status (observed would reason) = 200
reply_status (failed_open rule_name) = 200
reply_status (created e) = 201
reply_status (held e) = 200
reply_status (in_queue b q) = 202
reply_status (held_by b) = 409
reply_status (not_granted reason) = 403
reply_status (handed_off r) = 201
reply_status (ended e) = 200
reply_status not_found = 404

-- Server.replayKey.
unfoldable pub replay_key : AcquireInput → Text
replay_key i =
    if not (is_empty i.idempotency_key)
    then text "idem:" ++ i.idempotency_key
    else if not (is_empty i.nonce)
    then text "nonce:" ++ i.nonce
    else if not (is_empty i.request_header)
    then text "rid:" ++ i.request_header
    else []

abbrev reason_of : Decision → Text
reason_of (uncontrolled name) = []
reason_of (Policy.denied name reason) = reason
reason_of (leased name t) = []

module _ {ℓ} {S : Type ℓ} (o : TextOps) (v : Services S) (s : Setting) (now : ℕ)
    (sess : Claims) where
  -- The switch on the answer of the store.
  unfoldable pub reply_acquire : Text → AcquireResult → World S → World S × Reply
  reply_acquire resource (granted e) w =
      (noted resource sess.customer_id (text "allow") w, created e)
  reply_acquire resource (already_held e) w =
      (noted resource sess.customer_id (text "resume") w, held e)
  reply_acquire resource (queued_at e b q) w =
      (noted resource sess.customer_id (text "queued") w, in_queue b q)
  reply_acquire resource (busy b) w = (noted resource sess.customer_id (text "busy") w, held_by b)
  reply_acquire resource (denied reason) w = (w, not_granted reason)

  -- EnsureBudget, where the answer has an execution.
  unfoldable pub with_budget : ℤ → AcquireResult → S → S
  with_budget max_ops (granted e) w = v.ensure_budget s.merchant_id e.id max_ops w
  with_budget max_ops (already_held e) w = v.ensure_budget s.merchant_id e.id max_ops w
  with_budget max_ops (queued_at e b q) w = v.ensure_budget s.merchant_id e.id max_ops w
  with_budget max_ops (busy b) w = w
  with_budget max_ops (denied reason) w = w

  unfoldable pub request_of : (request_id resource action rule : Text) → Terms → AcquireRequest
  request_of rid resource action rule t = record {
    merchant_id = sess.merchant_id;
    domain_key = t.domain_key;
    customer_id = sess.customer_id;
    principal = record { type = sess.principal_type; id = sess.principal_id };
    session_id = sess.session_id;
    resource = resource;
    action = action;
    rule_name = rule;
    max_active = t.max_active;
    ttl = t.ttl;
    max_lifetime = t.max_lifetime;
    precedence = t.precedence;
    max_waiters = t.max_waiters;
    max_ops = t.max_ops;
    request_id = rid;
  }

  -- What follows the store's answer.
  unfoldable pub after_acquire :
      (request_id resource action rule : Text)
      → Terms
      → Result AcquireResult
      → World S
      → World S × Reply
  after_acquire rid resource action rule t (err e) w =
      (w, if fail_open s.controls then failed_open rule else failed (store_error e) e)
  after_acquire rid resource action rule t (ok a) w =
      let row =
        decision_row s.merchant_id sess.customer_id sess.principal_id resource action rule rid a in
      reply_acquire resource a
        (record w { store = v.record_decision row (with_budget t.max_ops a w.store) })

  unfoldable pub acquire_enforced :
      (request_id resource action rule : Text) → Terms → World S → World S × Reply
  acquire_enforced rid resource action rule t w =
      let (leased_store, r) = v.acquire now (request_of rid resource action rule t) w.store in
      after_acquire rid resource action rule t r (record w { store = leased_store })

  unfoldable pub shadow_request : (request_id resource action rule : Text) → Terms → ShadowRequest
  shadow_request rid resource action rule t = record {
    merchant_id = sess.merchant_id;
    domain_key = t.domain_key;
    customer_id = sess.customer_id;
    principal_id = sess.principal_id;
    resource = resource;
    action = action;
    rule_name = rule;
    max_active = t.max_active;
    max_waiters = t.max_waiters;
    ttl = t.ttl;
    request_id = rid;
  }

  unfoldable pub after_shadow : (resource : Text) → Result DryRunEvent → World S → World S × Reply
  after_shadow resource (err e) w = (
    noted resource sess.customer_id (text "would_unknown") w,
    observed (text "WOULD_UNKNOWN") (text "store_unavailable"),
  )
  after_shadow resource (ok ev) w = (
    noted resource sess.customer_id (text "would_" ++ o.to_lower (would_text ev.would)) w,
    observed (text "WOULD_" ++ would_text ev.would) ev.reason,
  )

  -- Server.writeAcquireDryRun.
  unfoldable pub acquire_dry_run :
      (request_id resource action rule : Text) → Terms → World S → World S × Reply
  acquire_dry_run rid resource action rule t w =
      let (decided, r) = v.shadow_decide now (shadow_request rid resource action rule t) w.store in
      after_shadow resource r (record w { store = decided })

  unfoldable pub acquire_decided :
      (request_id resource action : Text) → Applied → World S → World S × Reply
  acquire_decided rid resource action d w =
      let refusal =
        refused (first_nonempty (reason_of d.decision) (text "denied")) (rule_of d.decision) in
      if d.control_none then (w, refusal) else elim d.decision [
        | uncontrolled rule ↦ (w, refusal)
        | Policy.denied rule why ↦ (w, refusal)
        | leased rule t ↦
            if should_enforce o s.controls
              (ramp_input s sess.customer_id resource action rule [] [] sess.anchors)
            then acquire_enforced rid resource action rule t w
            else acquire_dry_run rid resource action rule t w
      ]

  -- From the resource and the action of the body on.
  unfoldable pub acquire_body : Text → Text × Text → World S → World S × Reply
  acquire_body rid (raw, action₀) w =
      if is_empty raw
      then (w, resource_required)
      else elim (catalogue_canonical o (new_catalogue o s.profile.resources) raw) [
        | malformed ↦ (w, bad_resource)
        | unknown_resource ↦ (w, bad_resource)
        | canonical_id resource ↦
            let action = first_nonempty action₀ (text "purchase") in
            let d = evaluate o s.compiled (record {
              merchant_id = sess.merchant_id;
              customer_id = sess.customer_id;
              principal_type = sess.principal_type;
              resource = resource;
              action = action;
              anchors = sess.anchors;
            }) in
            acquire_decided rid resource action (apply_controls s.controls d action) w
      ]

  unfoldable pub after_replay : AcquireInput → Result ReplayResult → World S → World S × Reply
  after_replay i (err e) w = (w, failed (store_error e) e)
  after_replay i (ok replayed) w = (w, replayed_request)
  after_replay i (ok claimed) w = elim i.body [
    | none ↦ (w, bad_json)
    | some b ↦ acquire_body i.request_id b w
  ]

  -- Server.acquire, past its rate limits.
  unfoldable pub handle_acquire : AcquireInput → World S → World S × Reply
  handle_acquire i w =
      if is_empty (replay_key i)
      then after_replay i (ok claimed) w
      else (let (kept, r) =
            v.claim_replay now s.merchant_id (replay_key i) (text "acquire") w.store in
          after_replay i r (record w { store = kept }))

  abbrev replied : (Execution → Reply) → Result Execution → Reply
  replied f (ok e) = f e
  replied f (err e) = failed (mutation_error e) e

  unfoldable pub handle_renew : (execution_id request_id : Text) → World S → World S × Reply
  handle_renew x rid w =
      let (w', r) = v.renew now sess.merchant_id x sess.session_id rid s.lease_ttl w.store in
      (record w { store = w' }, replied held r)

  unfoldable pub handle_release : (execution_id request_id : Text) → World S → World S × Reply
  handle_release x rid w =
      let (w', r) = v.release now sess.merchant_id x sess.session_id rid w.store in
      (record w { store = w' }, replied ended r)

  unfoldable pub handle_revoke : (execution_id request_id reason : Text) → World S → World S × Reply
  handle_revoke x rid reason w =
      let (w', r) = v.revoke now sess.merchant_id x sess.session_id rid reason w.store in
      (record w { store = w' }, replied ended r)

  abbrev order_for : Result Execution → List Text
  order_for (ok e) = precedence s.compiled e.rule_name
  order_for (err e) = []

  abbrev handed : Result HandoffResult → Reply
  handed (ok r) = handed_off r
  handed (err e) = failed (mutation_error e) e

  unfoldable pub handle_handoff :
      (execution_id request_id : Text) → Principal → Mode → World S → World S × Reply
  handle_handoff x rid to mode w =
      let (w', r) =
        v.handoff now
          (record {
            merchant_id = sess.merchant_id;
            execution_id = x;
            session_id = sess.session_id;
            to = to;
            mode = mode;
            ttl = s.lease_ttl;
            precedence = order_for (v.get now sess.merchant_id x w.store);
            request_id = rid;
          })
          w.store in
      (record w { store = w' }, handed r)

  abbrev own : Execution → Reply
  own e = if text_eq e.customer_id sess.customer_id then held e else not_found

  abbrev found : Result Execution → Reply
  found (ok e) = own e
  found (err e) = failed (store_error e) e

  -- Server.get.
  unfoldable pub handle_get : (execution_id : Text) → World S → Reply
  handle_get x w = found (v.get now sess.merchant_id x w.store)
