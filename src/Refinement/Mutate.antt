-- ===== src/Refinement/Mutate.antt =====
-- Renewal, release, revocation and expiry make moves of the ledger.
use bruiser_gateway.Prelude.{
  ℕ, ◌≤◌, ◌≡◌, Bool, true, false, ◌&&◌, some, [], arith, Text, text_eq, is_empty, ℤ, All,
  if◌then◌else◌, inl, inr, Bool-cases, refl, ◌∙◌, ap, subst, select_row, count_where,
  count_where_found,
}
use bruiser_gateway.Lease.{
  State, released, revoked, ok, Execution, >>=-eq-ok, is_live, is_active, or_fail, not_found,
  not_holder, guard,
}
use bruiser_gateway.Store.{
  Db, session, insert_audit, has_id, lock_domain, lookup_domain_key, load_active_for_update,
  holder_matches,
}
use bruiser_gateway.Store.Promote.{promote_locked, dequeue, delete_waiter}
use bruiser_gateway.Store.Acquire.{extend, get}
use bruiser_gateway.Store.Mutate.{
  renew, may_revoke, caller_of, is_queued, close, close_row, end_execution, release, revoke,
}
use bruiser_gateway.Store.Waiters.{waiter_as_execution}
use bruiser_gateway.Ledger.{Move, keep, Moves, done, next, SameLease, Extends, Ends}
use bruiser_gateway.Ledger
use bruiser_gateway.Refinement.Capacities.{All-delete_where, Fits, WaitersFit, Refines}
use bruiser_gateway.Refinement.Promote.{promote_locked-Moves, promote_locked-waiters}
use bruiser_gateway.Refinement.Acquire.{has_id_self, extend-Extends}

-- What loadActiveForUpdate returns is a live row of the table.
pub load_active_for_update_ok :
    (now : ℕ) (m x : Text) (s : Db) (e : Execution)
    → load_active_for_update now m x s ≡ ok e
    → (select_row (λ r. text_eq r.merchant_id m && has_id x r) s.executions ≡ some e)
      × (is_live now e ≡ true)
unfolding load_active_for_update is_live
load_active_for_update_ok now m x s e h = ground arith

pub loaded_row :
    (now : ℕ) (m x : Text) (s : Db) (e : Execution) (q : Execution → Bool)
    → load_active_for_update now m x s ≡ ok e
    → q e ≡ true
    → 1 ≤ count_where (λ r. q r && is_live now r) s.executions
loaded_row now m x s e q h k =
    let (found, live) = load_active_for_update_ok now m x s e h in
    count_where_found _ (λ r. q r && is_live now r) s.executions found (rw (k, live))

pub close-Ends :
    (now : ℕ) (state : State) (reason : Text) (e : Execution)
    → is_active state ≡ false
    → Ends e (close now state reason e)
unfolding close
close-Ends now state reason e c = record {
  same = record {
    id = refl;
    merchant_id = refl;
    domain_key = refl;
    customer_id = refl;
    fence = refl;
    max_lifetime_at = refl;
  };
  closed = c;
}

pub Moves-trans :
    {cap : Text → Text → ℕ} {now : ℕ} {s t u : Db}
    → Moves cap now s t
    → Moves cap now t u
    → Moves cap now s u
Moves-trans f done = f
Moves-trans f (next g m) = next (Moves-trans f g) m

module _ (cap : Text → Text → ℕ) (now : ℕ) where
  pub renew-Refines :
      (m x session_id rid : Text) (ttl : ℤ) (s t : Db) (r : Execution)
      → WaitersFit cap s
      → renew now m x session_id rid ttl s ≡ ok (t, r)
      → Refines cap now s t
  unfolding renew insert_audit
  renew-Refines m x session_id rid ttl s t r fit h =
      let (k, _, h₁) = >>=-eq-ok (lookup_domain_key m x s) _ h in
      let (_, _, h₂) = >>=-eq-ok (lock_domain m k s) _ h₁ in
      let (e, loaded, h₃) = >>=-eq-ok (load_active_for_update now m x s) _ h₂ in
      let (_, _, h₄) = >>=-eq-ok (holder_matches e session_id s) _ h₃ in
      record {
        moves = next done (
            Ledger.extend e.id (has_id e.id) (extend now ttl session_id) (λ q p. p)
              (loaded_row now m x s e (has_id e.id) loaded (has_id_self e))
              (extend-Extends now ttl session_id) (ground arith) (ground arith));
        waiters = subst (All (Fits cap)) (ground arith) fit;
      }

  pub close_row-Move :
      (m x rid : Text) (state : State) (reason : Text) (e : Execution) (s : Db)
      → is_active state ≡ false
      → load_active_for_update now m x s ≡ ok e
      → Move cap now s (close_row now rid state reason e s)
  unfolding close_row insert_audit
  close_row-Move m x rid state reason e s c loaded =
      Ledger.finish e.id (has_id e.id) (close now state reason) (λ q p. p)
        (loaded_row now m x s e (has_id e.id) loaded (has_id_self e))
        (λ q. close-Ends now state reason q c) refl refl

-- The steps of Store.end, one after the other.
pub end_execution_steps :
    (now : ℕ) (m x session_id rid : Text) (state : State) (reason : Text) (must_holder : Bool)
    (s t : Db) (r : Execution)
    → end_execution now m x session_id rid state reason must_holder s ≡ ok (t, r)
    → (k : Text) × (e : Execution) × (load_active_for_update now m x s ≡ ok e)
      × (promote_locked now rid m k (close_row now rid state reason e s) ≡ ok t)
unfolding end_execution
end_execution_steps now m x session_id rid state reason must_holder s t r h =
    let (k, _, h₁) = >>=-eq-ok (lookup_domain_key m x s) _ h in
    let (_, _, h₂) = >>=-eq-ok (lock_domain m k s) _ h₁ in
    let (e, loaded, h₃) = >>=-eq-ok (load_active_for_update now m x s) _ h₂ in
    let (_, _, h₄) =
      >>=-eq-ok (if must_holder then holder_matches e session_id s else ok tt) _ h₃ in
    let (v, p, h₅) =
      >>=-eq-ok (promote_locked now rid m k (close_row now rid state reason e s)) _ h₄ in
    (k, e, loaded, p ∙ ap ok (ground arith))

module _ (cap : Text → Text → ℕ) (now : ℕ) where
  -- A lease ends, and the queue of its domain moves up.
  pub end_execution-Refines :
      (m x session_id rid : Text) (state : State) (reason : Text) (must_holder : Bool) (s t : Db)
      (r : Execution)
      → is_active state ≡ false
      → WaitersFit cap s
      → end_execution now m x session_id rid state reason must_holder s ≡ ok (t, r)
      → Refines cap now s t
  unfolding close_row insert_audit
  end_execution-Refines m x session_id rid state reason must_holder s t r c fit h =
      let (k, e, loaded, p) =
        end_execution_steps now m x session_id rid state reason must_holder s t r h in
      let closed = close_row now rid state reason e s in
      record {
        moves =
            Moves-trans (next done (close_row-Move cap now m x rid state reason e s c loaded))
              (promote_locked-Moves cap now rid m k closed t fit p);
        waiters = promote_locked-waiters now rid m k (Fits cap) closed t fit p;
      }

  dequeue-Refines :
      (m x session_id rid : Text) (s t : Db) (r : Execution)
      → WaitersFit cap s
      → dequeue now m x session_id rid s ≡ ok (t, r)
      → Refines cap now s t
  unfolding dequeue insert_audit delete_waiter
  dequeue-Refines m x session_id rid s t r fit h =
      let (k, _, h₁) = >>=-eq-ok (lookup_domain_key m x s) _ h in
      let (_, _, h₂) = >>=-eq-ok (lock_domain m k s) _ h₁ in
      let (w, _, h₃) =
        >>=-eq-ok
          (or_fail (select_row (λ w. text_eq w.merchant_id m && text_eq w.id x) s.waiters)
            not_found)
          _ h₂ in
      let (_, _, h₄) = >>=-eq-ok (holder_matches (waiter_as_execution 0 w) session_id s) _ h₃ in
      record {
        moves = next done (keep (ground arith) (ground arith));
        waiters =
            subst (All (Fits cap)) (ground arith)
              (All-delete_where (Fits cap) (λ w. text_eq w.id x) s.waiters fit);
      }

  -- Release: a waiter leaves the queue, a lease ends.
  pub release-Refines :
      (m x session_id rid : Text) (s t : Db) (r : Execution)
      → WaitersFit cap s
      → release now m x session_id rid s ≡ ok (t, r)
      → Refines cap now s t
  unfolding release
  release-Refines m x session_id rid s t r fit h =
      let (e, _, h₁) = >>=-eq-ok (get now m x s) _ h in
      elim (Bool-cases (is_queued e.state)) [
        | inl waits ↦ dequeue-Refines m x session_id rid s t r fit (ground arith)
        | inr holds ↦
            end_execution-Refines m x session_id rid released _ true s t r refl fit (rw holds at h₁)
      ]

  pub revoke-Refines :
      (m x session_id rid reason : Text) (s t : Db) (r : Execution)
      → WaitersFit cap s
      → revoke now m x session_id rid reason s ≡ ok (t, r)
      → Refines cap now s t
  unfolding revoke
  revoke-Refines m x session_id rid reason s t r fit h = elim (Bool-cases (is_empty session_id)) [
    | inl admin ↦ end_execution-Refines m x [] rid revoked _ false s t r refl fit (rw admin at h)
    | inr caller ↦
        let (e, _, h₁) = >>=-eq-ok (get now m x s) _ (rw caller at h) in
        let (c, _, h₂) = >>=-eq-ok (or_fail (session session_id s) not_holder) _ h₁ in
        let (_, _, h₃) = >>=-eq-ok (guard (text_eq c.customer_id e.customer_id) not_found) _ h₂ in
        let (_, _, h₄) =
          >>=-eq-ok (may_revoke (caller_of c) e (holder_matches e session_id s)) _ h₃ in
        end_execution-Refines m x [] rid revoked _ false s t r refl fit h₄
  ]
