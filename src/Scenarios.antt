-- ===== src/Scenarios.antt =====
-- Concrete runs of the lease store, and the theorems at them.
mod Leases
mod Grants
mod Changes
mod Guards
mod Shadows
mod Resources
mod Policies
mod Ramp
mod Profiles
mod Gateways
mod Shown
use bruiser_gateway.Prelude.{
  ℕ, Bool, Option, none, some, List, [], ◌∷◌, Text, text, text_eq, is_empty, pos, select_where,
  select_row, count_where, update_where, delete_where, any_where,
}
use bruiser_gateway.Lease.{Principal, AcquireRequest, is_live}
use bruiser_gateway.Lease.Precedence.{
  default_order, rank_from, effective_order, rank, can_preempt_ranked, can_preempt, same_principal,
}
use bruiser_gateway.Store
use bruiser_gateway.Store.{Session}
use bruiser_gateway.Store.Waiters
use bruiser_gateway.Store.Promote
use bruiser_gateway.Store.Acquire
use bruiser_gateway.Store.Mutate
use bruiser_gateway.Store.Handoff
use bruiser_gateway.Store.Sessions
use bruiser_gateway.Store.Emergency
use bruiser_gateway.System
use bruiser_gateway.Ledger

-- Names every definition of the store, so that a test computes under this one name.
running : Bool
unfolding text text_eq is_empty select_where select_row count_where update_where delete_where
    any_where is_live default_order rank_from effective_order rank can_preempt_ranked can_preempt
    same_principal Store.milliseconds Store.of_milliseconds Store.plus_ms Store.is_domain
    Store.in_domain Store.waits_in Store.has_id Store.ensure_domain Store.lock_domain
    Store.bump_fence Store.insert_execution Store.insert_audit Store.audit_of
    Store.load_active_for_update Store.session Store.holder_matches Store.lookup_domain_key
    Waiters.still_waits Waiters.waiter_as_execution Waiters.waiter_position
    Waiters.load_waiter_by_principal Waiters.queued_result Waiters.busy_result Waiters.new_waiter
    Waiters.waiter_conflicts Waiters.insert_waiter Waiters.queue_up Waiters.enqueue_waiter
    Promote.oldest Promote.or_default Promote.at_least_one Promote.promoted Promote.delete_waiter
    Promote.drop_expired Promote.count_live Promote.promote_waiter Promote.promote_locked
    Promote.promote_due Promote.dequeue Promote.expire_each Promote.or_limit Promote.expire_waiters
    Acquire.with_defaults Acquire.is_incomplete Acquire.extend Acquire.of_request
    Acquire.resume_held Acquire.new_execution Acquire.grant Acquire.live_executions
    Acquire.admit_or_wait Acquire.acquire_locked Acquire.acquire Acquire.get Mutate.renew
    Mutate.close Mutate.close_row Mutate.end_execution Mutate.release Mutate.may_revoke
    Mutate.revoke Mutate.is_due Mutate.expire_each Mutate.expire_and_promote_domain
    Mutate.distinct_domains Mutate.expire_domains Mutate.expire_due Handoff.is_ok
    Handoff.cooperative_to Handoff.preempt_to Handoff.resolve_mode Handoff.succ_execution
    Handoff.hand_off Handoff.mode_text Handoff.transfer Handoff.hand_over Handoff.handoff
    Sessions.insert_session Sessions.is_revocable Sessions.revoke_session Sessions.live_session
    Emergency.admin_action Emergency.drain_waiters Emergency.insert_newest Emergency.newest_first
    Emergency.list_active Emergency.revoke_each Emergency.revoke_active System.step System.run
    Ledger.fence_of
running = Bool.true

abbrev club : Text
club = text "club"

abbrev key : Text
key = text "club/purchase-per-event/customer=ann/resource=ticket:final"

abbrev agent : Text → Principal
agent x = record { type = text "agent"; id = x }

abbrev browser : Text → Principal
browser x = record { type = text "browser"; id = x }

-- A request of one principal of the customer ann, with the session of the same name.
abbrev request : Principal → AcquireRequest
request p = record {
  merchant_id = club;
  domain_key = key;
  customer_id = text "ann";
  principal = p;
  session_id = p.id;
  resource = text "ticket:final";
  action = text "purchase";
  rule_name = text "purchase-per-event";
  max_active = pos 1;
  ttl = pos 60000000000;
  max_lifetime = pos 900000000000;
  precedence = [];
  max_waiters = pos 1;
  max_ops = pos 0;
  request_id = [];
}

abbrev session_of : Principal → Session
session_of p = record {
  id = p.id;
  merchant_id = club;
  customer_id = text "ann";
  anchors = [];
  principal_type = p.type;
  principal_id = p.id;
  expires_at = 3600000000000;
  revoked_at = none;
  version = 1;
}
