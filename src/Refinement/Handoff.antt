-- ===== src/Refinement/Handoff.antt =====
-- Handoff replaces one live lease by another.
use bruiser_gateway.Prelude.{
  ℕ, ◌≤◌, ◌≡◌, true, false, ◌&&◌, ◌||◌, some, arith, Text, text_eq, All, inl, inr, Bool-cases, refl,
  sym, ◌∙◌, ap, subst, is_empty, count_where, update_where, count_where_mono,
}
use bruiser_gateway.Lease.{
  Mode, Principal, HandoffRequest, HandoffResult, ok, Execution, >>=-eq-ok, is_live, or_fail,
  or_fail-eq-ok, not_holder,
}
use bruiser_gateway.Lease.Precedence.{same_principal}
use bruiser_gateway.Store.{
  Db, Session, in_domain, insert_audit, has_id, lock_domain, bump_fence, insert_execution,
  lookup_domain_key, load_active_for_update, holder_matches, session,
}
use bruiser_gateway.Store.Promote.{or_default, sixty_seconds}
use bruiser_gateway.Store.Mutate.{caller_of}
use bruiser_gateway.Store.Handoff.{
  is_ok, resolve_mode, succ_session, succ_execution, hand_off, transfer, hand_over, handoff,
}
use bruiser_gateway.Ledger.{Move, done, next, Ends}
use bruiser_gateway.Ledger.Fences.{in_domain_self}
use bruiser_gateway.Refinement.Capacities.{Fits, WaitersFit, Refines}
use bruiser_gateway.Refinement.Grants.{replace-Move, bump_fence_ok, insert_execution_ok}
use bruiser_gateway.Refinement.Acquire.{has_id_self}
use bruiser_gateway.Refinement.Mutate.{loaded_row}

hand_off-Ends : (now : ℕ) (x : Text) (e : Execution) → Ends e (hand_off now x e)
unfolding hand_off
hand_off-Ends now x e = record {
  same = record {
    id = refl;
    merchant_id = refl;
    domain_key = refl;
    customer_id = refl;
    fence = refl;
    max_lifetime_at = refl;
  };
  closed = refl;
}

-- The statements of `transfer`, one after the other.
pub transfer_steps :
    (now : ℕ) (fresh fresh_session : Text) (req : HandoffRequest) (mode : Mode) (to : Principal)
    (old : Execution) (s t : Db) (r : HandoffResult)
    → transfer now fresh fresh_session req mode to old s ≡ ok (t, r)
    → let succ = λ (f : ℕ).
      succ_execution now fresh (succ_session mode req.session_id fresh_session) to req.ttl f old in
      (f : ℕ) × (u : Db) × (v : Db) × (bump_fence now old.merchant_id old.domain_key s ≡ ok (f, u))
      × (insert_execution (succ f) u ≡ ok v)
      × (t.executions ≡ update_where (has_id old.id) (hand_off now (succ f).id) v.executions)
      × (t.domains ≡ v.domains)
      × (t.waiters ≡ v.waiters)
      × (r.successor ≡ succ f)
      × (r.predecessor ≡ hand_off now (succ f).id old)
unfolding transfer insert_audit
transfer_steps now fresh fresh_session req mode to old s t r h =
    let ((f, u), b, h₁) = >>=-eq-ok (bump_fence now old.merchant_id old.domain_key s) _ h in
    let succ =
      succ_execution now fresh (succ_session mode req.session_id fresh_session) to req.ttl f old in
    let (v, ins, h₂) = >>=-eq-ok (insert_execution succ u) _ h₁ in
    (f, u, v, b, ins, ground arith, ground arith, ground arith, ground arith, ground arith)

pub hand_over_steps :
    (now : ℕ) (fresh fresh_session : Text) (req : HandoffRequest) (caller : Principal)
    (old : Execution) (s t : Db) (r : HandoffResult)
    → hand_over now fresh fresh_session req caller old s ≡ ok (t, r)
    → (mode : Mode) × (to : Principal) × (resolve_mode req.mode
          (is_ok (holder_matches old req.session_id s))
          req.to
          caller
          old.principal
          req.precedence
        ≡ ok (mode, to))
      × (same_principal to old.principal ≡ false)
      × (transfer now fresh fresh_session req mode to old s ≡ ok (t, r))
unfolding hand_over
hand_over_steps now fresh fresh_session req caller old s t r h =
    let ((mode, to), resolved, h₁) =
      >>=-eq-ok
        (resolve_mode req.mode (is_ok (holder_matches old req.session_id s)) req.to caller
          old.principal req.precedence)
        _ h in
    elim (Bool-cases (same_principal to old.principal)) [
      | inl same ↦ absurd (ground arith)
      | inr differs ↦ (mode, to, resolved, differs, rw differs at h₁)
    ]

-- The request with its default term.
abbrev pub with_ttl : HandoffRequest → HandoffRequest
with_ttl req = record req { ttl = or_default req.ttl sixty_seconds }

-- The reads of Handoff: the caller's session, and a live lease of the same customer.
pub handoff_steps :
    (now : ℕ) (fresh fresh_session : Text) (req : HandoffRequest) (s t : Db) (r : HandoffResult)
    → handoff now fresh fresh_session req s ≡ ok (t, r)
    → (c : Session) × (old : Execution) × (session req.session_id s ≡ some c)
      × (load_active_for_update now req.merchant_id req.execution_id s ≡ ok old)
      × (text_eq old.customer_id c.customer_id ≡ true)
      × (hand_over now fresh fresh_session (with_ttl req) (caller_of c) old s ≡ ok (t, r))
unfolding handoff
handoff_steps now fresh fresh_session req s t r h =
    elim (Bool-cases
      (is_empty req.merchant_id || is_empty req.execution_id || is_empty req.session_id)) [
        | inl bad ↦ absurd (ground arith)
        | inr complete ↦
            let (c, found, h₁) =
              >>=-eq-ok (or_fail (session req.session_id s) not_holder) _ (rw complete at h) in
            let (k, _, h₂) =
              >>=-eq-ok (lookup_domain_key req.merchant_id req.execution_id s) _ h₁ in
            let (_, _, h₃) = >>=-eq-ok (lock_domain req.merchant_id k s) _ h₂ in
            let (old, loaded, h₄) =
              >>=-eq-ok (load_active_for_update now req.merchant_id req.execution_id s) _ h₃ in
            elim (Bool-cases (text_eq old.customer_id c.customer_id)) [
              | inl same ↦ (c, old, or_fail-eq-ok _ _ found, loaded, same, rw same at h₄)
              | inr differs ↦ absurd (ground arith)
            ]
      ]

module _ (cap : Text → Text → ℕ) (now : ℕ) (fresh fresh_session : Text) where
  old_live :
      (m x : Text) (old : Execution) (s : Db)
      → load_active_for_update now m x s ≡ ok old
      → 1
        ≤ count_where
            (λ r. has_id old.id r && (in_domain old.merchant_id old.domain_key r && is_live now r))
            s.executions
  old_live m x old s loaded = omega (
    arith,
    loaded_row now m x s old (λ r. has_id old.id r && in_domain old.merchant_id old.domain_key r)
        loaded (rw (has_id_self old, in_domain_self old)),
    count_where_mono
        (λ r. has_id old.id r && in_domain old.merchant_id old.domain_key r && is_live now r)
        (λ r. has_id old.id r && (in_domain old.merchant_id old.domain_key r && is_live now r))
        s.executions (λ r e. ground arith),
  )

  transfer-Refines :
      (m x : Text) (req : HandoffRequest) (mode : Mode) (to : Principal) (old : Execution)
      (s t : Db) (r : HandoffResult)
      → WaitersFit cap s
      → load_active_for_update now m x s ≡ ok old
      → transfer now fresh fresh_session req mode to old s ≡ ok (t, r)
      → Refines cap now s t
  transfer-Refines m x req mode to old s t r fit loaded h =
      let (f, u, v, b, ins, ex, dom, ws, _, _) =
        transfer_steps now fresh fresh_session req mode to old s t r h in
      let succ =
        succ_execution now fresh (succ_session mode req.session_id fresh_session) to req.ttl f
          old in
      let (_, ve) = insert_execution_ok succ u ins in
      let (_, same_waiters) = bump_fence_ok now old.merchant_id old.domain_key s b in
      let move : Move cap now s t =
        unfold succ_execution in
        replace-Move cap now old.merchant_id old.domain_key old.id (hand_off now succ.id) succ s u v
          t refl refl refl (old_live m x old s loaded) (hand_off-Ends now succ.id) b ins ex dom in
      record {
        moves = next done move;
        waiters =
            subst (All (Fits cap)) (sym (ws ∙ ap (λ (d : Db). d.waiters) ve ∙ same_waiters)) fit;
      }

  pub handoff-Refines :
      (req : HandoffRequest) (s t : Db) (r : HandoffResult)
      → WaitersFit cap s
      → handoff now fresh fresh_session req s ≡ ok (t, r)
      → Refines cap now s t
  handoff-Refines req s t r fit h =
      let (c, old, _, loaded, _, h₁) = handoff_steps now fresh fresh_session req s t r h in
      let (mode, to, _, _, h₂) =
        hand_over_steps now fresh fresh_session (with_ttl req) (caller_of c) old s t r h₁ in
      transfer-Refines req.merchant_id req.execution_id (with_ttl req) mode to old s t r fit loaded
        h₂
