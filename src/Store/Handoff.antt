-- ===== src/Store/Handoff.antt =====
-- internal/store/postgres/handoff.go: a lease passes to another principal of the same customer.
use bruiser_gateway.Prelude.{
  ℕ, none, some, Bool, true, false, ◌||◌, List, [], if◌then◌else◌, min, Text, text, text_eq,
  is_empty, ℤ, pos, update_where,
}
use bruiser_gateway.Lease.{
  active, handed_off, Execution, Principal, Mode, preempt, cooperative, other_mode, HandoffRequest,
  HandoffResult, not_found, not_holder, invalid_input, precedence_denied, Result, ok, err, ◌>>=◌,
  or_fail,
}
use bruiser_gateway.Lease.Precedence.{can_preempt_ranked, same_principal}
use bruiser_gateway.Store.{
  Db, execution_granted, execution_handed_off, milliseconds, plus_ms, has_id, lock_domain,
  bump_fence, insert_execution, insert_audit, audit_of, load_active_for_update, holder_matches,
  lookup_domain_key, session,
}
use bruiser_gateway.Store.Promote.{or_default, sixty_seconds}
use bruiser_gateway.Store.Mutate.{caller_of}

unfoldable pub is_ok : Result (Unit {0}) → Bool
is_ok (ok _) = true
is_ok (err _) = false

unfoldable pub cooperative_to : Principal → Result (Mode × Principal)
cooperative_to to =
    if is_empty to.type || is_empty to.id then err invalid_input else ok (cooperative, to)

unfoldable pub preempt_to : Principal → Principal → Result (Mode × Principal)
preempt_to to₀ caller =
    let to = if is_empty to₀.type then caller else to₀ in
    if same_principal to caller then ok (preempt, to) else err precedence_denied

-- The switch on the mode: the mode in force and the successor's principal.
unfoldable pub resolve_mode :
    Mode → Bool → Principal → Principal → Principal → List Text → Result (Mode × Principal)
resolve_mode cooperative is_holder to caller holder order =
    if is_holder then cooperative_to to else err not_holder
resolve_mode other_mode is_holder to caller holder order = err invalid_input
resolve_mode mode is_holder to caller holder order =
    if is_holder
    then cooperative_to to
    else if can_preempt_ranked caller holder order
    then preempt_to to caller
    else err precedence_denied

abbrev pub succ_session : Mode → Text → Text → Text
succ_session cooperative given fresh = fresh
succ_session _ given fresh = given

unfoldable pub succ_execution : ℕ → Text → Text → Principal → ℤ → ℕ → Execution → Execution
succ_execution now fresh session_id to ttl fence old = record {
  id = fresh;
  merchant_id = old.merchant_id;
  domain_key = old.domain_key;
  customer_id = old.customer_id;
  principal = to;
  session_id = session_id;
  resource = old.resource;
  action = old.action;
  rule_name = old.rule_name;
  fence = fence;
  state = active;
  granted_at = now;
  expires_at = min (plus_ms now (milliseconds ttl)) old.max_lifetime_at;
  max_lifetime_at = old.max_lifetime_at;
  renew_count = 0;
  ended_at = none;
  end_reason = [];
  successor_id = [];
  queue_position = 0;
  ops_used = 0;
  max_ops = pos 0;
}

unfoldable pub hand_off : ℕ → Text → Execution → Execution
hand_off now succ_id e = record e {
  state = handed_off;
  ended_at = some now;
  end_reason = text "HANDED_OFF";
  successor_id = succ_id;
}

-- The text of a mode, as the audit gives it.
unfoldable pub mode_text : Mode → Text
mode_text cooperative = text "cooperative"
mode_text _ = text "preempt"

-- The statements from the new fence on.
unfoldable pub transfer :
    ℕ
    → Text
    → Text
    → HandoffRequest
    → Mode
    → Principal
    → Execution
    → Db
    → Result (Db × HandoffResult)
transfer now fresh fresh_session req mode to old db = do
  (fence, db₁) ← bump_fence now old.merchant_id old.domain_key db
  let succ =
      succ_execution now fresh (succ_session mode req.session_id fresh_session) to req.ttl fence old
  db₂ ← insert_execution succ db₁
  let old' = hand_off now succ.id old
  let db₃ = record db₂ {
    executions = update_where (has_id old.id) (hand_off now succ.id) db₂.executions;
  }
  ok (
    insert_audit (audit_of execution_granted (text "handoff") req.request_id succ)
        (insert_audit (audit_of execution_handed_off (mode_text mode) req.request_id old') db₃),
    record { predecessor = old'; successor = succ; mode = mode },
  )

unfoldable pub hand_over :
    ℕ → Text → Text → HandoffRequest → Principal → Execution → Db → Result (Db × HandoffResult)
hand_over now fresh fresh_session req caller old db = do
  let is_holder = is_ok (holder_matches old req.session_id db)
  (mode, to) ← resolve_mode req.mode is_holder req.to caller old.principal req.precedence
  if same_principal to old.principal
      then err invalid_input
      else transfer now fresh fresh_session req mode to old db

-- Store.Handoff; `fresh` and `fresh_session` are the results of id.Execution() and id.Session().
unfoldable pub handoff : ℕ → Text → Text → HandoffRequest → Db → Result (Db × HandoffResult)
handoff now fresh fresh_session req₀ db =
    if is_empty req₀.merchant_id || is_empty req₀.execution_id || is_empty req₀.session_id
    then err invalid_input
    else (do
      let req = record req₀ { ttl = or_default req₀.ttl sixty_seconds }
      caller ← or_fail (session req.session_id db) not_holder
      k ← lookup_domain_key req.merchant_id req.execution_id db
      _ ← lock_domain req.merchant_id k db
      old ← load_active_for_update now req.merchant_id req.execution_id db
      if text_eq old.customer_id caller.customer_id
          then hand_over now fresh fresh_session req (caller_of caller) old db
          else err not_found)
