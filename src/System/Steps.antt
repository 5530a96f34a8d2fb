-- ===== src/System/Steps.antt =====
-- Every transaction of the store makes moves of the ledger.
use bruiser_gateway.Prelude.{
  ℕ, ◌+◌, ◌≡◌, arith, List, [], ◌∷◌, Text, text_eq, All, refl, subst, inl, inr, Bool-cases,
  is_empty,
}
use bruiser_gateway.Lease.{Execution, Result, ok, err, >>=-eq-ok}
use bruiser_gateway.Store.{Db, AuditType, Session, lock_domain, insert_audit}
use bruiser_gateway.Store.Acquire.{acquire}
use bruiser_gateway.Store.Promote.{promote_due}
use bruiser_gateway.Store.Mutate.{revoke}
use bruiser_gateway.Store.Sessions.{insert_session, revoke_session}
use bruiser_gateway.Store.Emergency.{drain_waiters, revoke_active, revoke_each, admin_action}
use bruiser_gateway.Ledger.{keep, done, next}
use bruiser_gateway.Ledger.Unique.{IsUnique}
use bruiser_gateway.Refinement.Capacities.{
  Fits, WaitersFit, Refines, Result-cases, All-delete_where,
}
use bruiser_gateway.Refinement.Promote.{promote_locked-Moves, promote_locked-waiters}
use bruiser_gateway.Refinement.Acquire.{acquire-Moves, acquire-WaitersFit}
use bruiser_gateway.Refinement.Mutate.{renew-Refines, release-Refines, revoke-Refines, Moves-trans}
use bruiser_gateway.Refinement.Expire.{expire_and_promote_domain-Refines, expire_waiters-Refines}
use bruiser_gateway.Refinement.Handoff.{handoff-Refines}
use bruiser_gateway.System.{
  Call, acquires, renews, releases, revokes, hands_off, expires_domain, promotes_due,
  expires_waiters, inserts_session, revokes_session, drains_waiters, revokes_active, committed,
  committed_db, step, CallFits,
}

module _ (cap : Text → Text → ℕ) (now : ℕ) where
  abbrev stays : (s : Db) → WaitersFit cap s → Refines cap now s s
  stays s fit = record { moves = done; waiters = fit }

  committed-Refines {ℓ} :
      {A : Type ℓ} (s : Db) (r : Result (Db × A))
      → WaitersFit cap s
      → ((t : Db) (a : A) → r ≡ ok (t, a) → Refines cap now s t)
      → Refines cap now s (committed s r)
  committed-Refines s (ok (t, a)) fit h = h t a refl
  committed-Refines s (err e) fit h = stays s fit

  committed_db-Refines :
      (s : Db) (r : Result Db)
      → WaitersFit cap s
      → ((t : Db) → r ≡ ok t → Refines cap now s t)
      → Refines cap now s (committed_db s r)
  committed_db-Refines s (ok t) fit h = h t refl
  committed_db-Refines s (err e) fit h = stays s fit

  -- The sessions are no part of the ledger.
  insert_session-Refines :
      (sess : Session) (s t : Db)
      → WaitersFit cap s
      → insert_session sess s ≡ ok t
      → Refines cap now s t
  unfolding insert_session
  insert_session-Refines sess s t fit h = record {
    moves = next done (keep (ground arith) (ground arith));
    waiters = subst (All (Fits cap)) (ground arith) fit;
  }

  revoke_session-Refines :
      (m x : Text) (s t : Db)
      → WaitersFit cap s
      → revoke_session now m x s ≡ ok t
      → Refines cap now s t
  unfolding revoke_session
  revoke_session-Refines m x s t fit h = record {
    moves = next done (keep (ground arith) (ground arith));
    waiters = subst (All (Fits cap)) (ground arith) fit;
  }

  promote_due-Refines :
      (m k : Text) (s t : Db)
      → WaitersFit cap s
      → promote_due now m k s ≡ ok t
      → Refines cap now s t
  unfolding promote_due
  promote_due-Refines m k s t fit h =
      let (_, _, h₁) = >>=-eq-ok (lock_domain m k s) _ h in
      record {
        moves = promote_locked-Moves cap now [] m k s t fit h₁;
        waiters = promote_locked-waiters now [] m k (Fits cap) s t fit h₁;
      }

  -- The audit of an operator's action is no part of the ledger.
  admin_action-Refines :
      (m : Text) (typ : AuditType) (reason role actor rid : Text) (s t : Db)
      → Refines cap now s t
      → Refines cap now s (admin_action m typ reason role actor rid t)
  unfolding admin_action insert_audit
  admin_action-Refines m typ reason role actor rid s t r = elim (Bool-cases (is_empty m)) [
    | inl nobody ↦ subst (Refines cap now s) (ground arith) r
    | inr merchant ↦ record {
      moves = next r.moves (keep (ground arith) (ground arith));
      waiters = subst (All (Fits cap)) (ground arith) r.waiters;
    }
  ]

  drain_waiters-Refines :
      (m role actor rid : Text) (s : Db)
      → WaitersFit cap s
      → Refines cap now s (drain_waiters m role actor rid s).0
  unfolding drain_waiters
  drain_waiters-Refines m role actor rid s fit =
      admin_action-Refines m _ _ role actor rid s _ (record {
        moves = next done (keep refl refl);
        waiters = All-delete_where (Fits cap) (λ w. text_eq w.merchant_id m) s.waiters fit;
      })

  revoke_each-Refines :
      (m rid reason : Text) (es : List Execution) (n : ℕ) (s : Db)
      → WaitersFit cap s
      → Refines cap now s (revoke_each now m rid reason es n s).0
  unfolding revoke_each
  revoke_each-Refines m rid reason [] n s fit = stays s fit
  revoke_each-Refines m rid reason (e ∷ es) n s fit =
      elim (Result-cases (revoke now m e.id [] rid reason s)) [
        | inl ((t, r), h) ↦
            let first = revoke-Refines cap now m e.id [] rid reason s t r fit h in
            let rest = revoke_each-Refines m rid reason es (n + 1) t first.waiters in
            rw (h, revoke_each)
              (record { moves = Moves-trans first.moves rest.moves; waiters = rest.waiters })
        | inr (x, h) ↦ rw (h, revoke_each) (revoke_each-Refines m rid reason es n s fit)
      ]

  revoke_active-Refines :
      (m rid reason role actor : Text) (s : Db)
      → WaitersFit cap s
      → Refines cap now s (revoke_active now m rid reason role actor s).0
  unfolding revoke_active
  revoke_active-Refines m rid reason role actor s fit =
      admin_action-Refines m _ _ role actor rid s _ (revoke_each-Refines m rid _ _ 0 s fit)

  -- Refinement. Every transaction of the store, committed or rolled back, is a series of the ledger's moves at the time at which it starts, and leaves every waiter within its domain's capacity, where the tables have each id once and every waiter so, and the request asks for no more than the capacity.
  pub step-Refines :
      (c : Call) (s : Db)
      → CallFits cap c
      → IsUnique s.executions
      → WaitersFit cap s
      → Refines cap now s (step now c s)
  unfolding step
  step-Refines (acquires fresh req) s f v fit =
      committed-Refines s (acquire now fresh req s) fit λ t r h. record {
        moves = acquire-Moves cap now fresh req s t r f h;
        waiters = acquire-WaitersFit now fresh cap req s t r f fit h;
      }
  step-Refines (renews m x session_id rid ttl) s f v fit =
      committed-Refines s _ fit λ t r h. renew-Refines cap now m x session_id rid ttl s t r fit h
  step-Refines (releases m x session_id rid) s f v fit =
      committed-Refines s _ fit λ t r h. release-Refines cap now m x session_id rid s t r fit h
  step-Refines (revokes m x session_id rid reason) s f v fit =
      committed-Refines s _ fit
        λ t r h. revoke-Refines cap now m x session_id rid reason s t r fit h
  step-Refines (hands_off fresh fresh_session req) s f v fit =
      committed-Refines s _ fit λ t r h. handoff-Refines cap now fresh fresh_session req s t r fit h
  step-Refines (expires_domain m k) s f v fit =
      committed-Refines s _ fit λ t n h. expire_and_promote_domain-Refines cap now m k s t n v fit h
  step-Refines (promotes_due m k) s f v fit =
      committed_db-Refines s _ fit λ t h. promote_due-Refines m k s t fit h
  step-Refines (expires_waiters limit) s f v fit = expire_waiters-Refines cap now limit s fit
  step-Refines (inserts_session sess) s f v fit =
      committed_db-Refines s _ fit λ t h. insert_session-Refines sess s t fit h
  step-Refines (revokes_session m x) s f v fit =
      committed_db-Refines s _ fit λ t h. revoke_session-Refines m x s t fit h
  step-Refines (drains_waiters m role actor rid) s f v fit =
      drain_waiters-Refines m role actor rid s fit
  step-Refines (revokes_active m rid reason role actor) s f v fit =
      revoke_active-Refines m rid reason role actor s fit
