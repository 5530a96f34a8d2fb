-- ===== src/Outcomes/Authority.antt =====
-- Who may renew and who may revoke: internal/store/postgres/mutate.go.
use bruiser_gateway.Prelude.{
  ℕ, ◌≡◌, ◌⊎◌, Bool, true, false, some, arith, Text, text_eq, is_empty, ℤ, any_where, update_where,
  refl, sym, subst, inl, inr, Bool-cases,
}
use bruiser_gateway.Lease.{
  ok, err, Result, Execution, >>=-eq-ok, or_fail, or_fail-eq-ok, is_live, not_found, not_holder,
  guard,
}
use bruiser_gateway.Lease.Precedence.{can_preempt}
use bruiser_gateway.Store.{
  Db, Session, has_id, is_domain, insert_audit, session, lock_domain, lookup_domain_key,
  load_active_for_update, holder_matches,
}
use bruiser_gateway.Store.Acquire.{get, extend}
use bruiser_gateway.Store.Mutate.{renew, may_revoke, caller_of, revoke}
use bruiser_gateway.Refinement.Capacities.{Result-cases}
use bruiser_gateway.Refinement.Mutate.{load_active_for_update_ok}
use bruiser_gateway.Refinement.Acquire.{has_id_self}
use bruiser_gateway.Outcomes.Total.{select_row-any}
use bruiser_gateway.Outcomes.Stored.{
  stored, stored-keys, Extends, extend-Extends, Replaced, update-Replaced, Holder,
  holder_matches-Holder, Holder-holder_matches, load_active_for_update-stored,
}

guard-eq-ok : (b : Bool) → guard b not_found ≡ ok tt → b ≡ true
guard-eq-ok true h = refl
guard-eq-ok false h = absurd (ground arith)

may_revoke-eq-ok :
    (now : ℕ) (c : Session) (e : Execution) (r : Result (Unit {0}))
    → may_revoke (caller_of c) e r ≡ ok tt
    → (r ≡ ok tt) ⊎ (can_preempt (caller_of c) e.principal ≡ true)
unfolding may_revoke
may_revoke-eq-ok now c e (ok tt) h = inl refl
may_revoke-eq-ok now c e (err reason) h =
    elim (Bool-cases (can_preempt (caller_of c) e.principal)) [
      | inl higher ↦ inr higher
      | inr no_higher ↦ absurd (ground arith)
    ]

-- Who may revoke under a session. A revocation that succeeds under a session is of a lease or a waiting place of the session's own customer, whose holder the caller is or whose holder the caller's principal outranks by the default order.
pub revoke-authority :
    (now : ℕ) (m x session_id rid reason : Text) (s t : Db) (r : Execution)
    → is_empty session_id ≡ false
    → revoke now m x session_id rid reason s ≡ ok (t, r)
    → (c : Session) × (e : Execution) × (session session_id s ≡ some c)
      × (get now m x s ≡ ok e)
      × (text_eq c.customer_id e.customer_id ≡ true)
      × ((holder_matches e session_id s ≡ ok tt) ⊎ (can_preempt (caller_of c) e.principal ≡ true))
unfolding revoke
revoke-authority now m x session_id rid reason s t r caller h =
    let (e, got, h₁) = >>=-eq-ok (get now m x s) _ (rw caller at h) in
    let (c, found, h₂) = >>=-eq-ok (or_fail (session session_id s) not_holder) _ h₁ in
    let (_, same, h₃) = >>=-eq-ok (guard (text_eq c.customer_id e.customer_id) not_found) _ h₂ in
    let (_, may, h₄) =
      >>=-eq-ok (may_revoke (caller_of c) e (holder_matches e session_id s)) _ h₃ in
    (c, e, or_fail-eq-ok _ _ found, got, guard-eq-ok _ same, may_revoke-eq-ok now c e _ may)

-- The row that a renewal updates, and what it writes.
renew_steps :
    (now : ℕ) (m x session_id rid : Text) (ttl : ℤ) (s t : Db) (r : Execution)
    → renew now m x session_id rid ttl s ≡ ok (t, r)
    → (e : Execution) × (load_active_for_update now m x s ≡ ok e)
      × (holder_matches e session_id s ≡ ok tt)
      × (r ≡ extend now ttl session_id e)
      × (t.executions ≡ update_where (has_id e.id) (extend now ttl session_id) s.executions)
      × (t.domains ≡ s.domains)
unfolding renew insert_audit
renew_steps now m x session_id rid ttl s t r h =
    let (k, _, h₁) = >>=-eq-ok (lookup_domain_key m x s) _ h in
    let (_, _, h₂) = >>=-eq-ok (lock_domain m k s) _ h₁ in
    let (e, loaded, h₃) = >>=-eq-ok (load_active_for_update now m x s) _ h₂ in
    let (_, holds, h₄) = >>=-eq-ok (holder_matches e session_id s) _ h₃ in
    (e, loaded, holds, ground arith, ground arith, ground arith)

extend-Replaced :
    (now : ℕ) (ttl : ℤ) (m x session_id : Text) (e : Execution) (s t : Db)
    → stored m x s ≡ some e
    → t.executions ≡ update_where (has_id e.id) (extend now ttl session_id) s.executions
    → Replaced (extend now ttl session_id e) s t
extend-Replaced now ttl m x session_id e s t found after =
    let (merchant, id) = stored-keys m x s e found in
    unfold extend in
    update-Replaced (has_id e.id) (extend now ttl session_id) e s t (λ r. refl) (λ r. refl)
      (λ r h. h) (has_id_self e)
      (subst (λ y. stored e.merchant_id y s ≡ some e) (sym id)
        (subst (λ y. stored y x s ≡ some e) (sym merchant) found))
      after

pub renew-authority :
    (now : ℕ) (m x session_id rid : Text) (ttl : ℤ) (s t : Db) (r : Execution)
    → renew now m x session_id rid ttl s ≡ ok (t, r)
    → (e : Execution) × (stored m x s ≡ some e)
      × (is_live now e ≡ true)
      × Holder e session_id s
      × Extends now ttl session_id e r
      × Replaced r s t
      × (t.domains ≡ s.domains)
renew-authority now m x session_id rid ttl s t r h =
    let (e, loaded, holds, new, after, domains) = renew_steps now m x session_id rid ttl s t r h in
    let (found, live) = load_active_for_update_ok now m x s e loaded in
    (
      e,
      found,
      live,
      holder_matches-Holder e session_id s holds,
      subst (Extends now ttl session_id e) (sym new) (extend-Extends now ttl session_id e),
      subst (λ q. Replaced q s t) (sym new)
          (extend-Replaced now ttl m x session_id e s t found after),
      domains,
    )

-- The holder of a live lease can renew it: where a lease is on record under the merchant and id, is live and has a row for its domain, a renewal under its own session, or under one of its own customer and principal, succeeds, and puts the lease with its new end on record, whatever its request id.
pub renew-answers :
    (now : ℕ) (m x session_id rid : Text) (ttl : ℤ) (s : Db) (e : Execution)
    → stored m x s ≡ some e
    → is_live now e ≡ true
    → any_where (is_domain m e.domain_key) s.domains ≡ true
    → Holder e session_id s
    → (t : Db) × (r : Execution) × (renew now m x session_id rid ttl s ≡ ok (t, r))
      × Extends now ttl session_id e r
      × Replaced r s t
unfolding renew lookup_domain_key lock_domain
renew-answers now m x session_id rid ttl s e found live opened holds =
    let loaded = load_active_for_update-stored now m x s e found live in
    let matches = Holder-holder_matches e session_id s holds in
    let (d, row) = select_row-any (is_domain m e.domain_key) s.domains opened in
    elim (Result-cases (renew now m x session_id rid ttl s)) [
      | inl ((t, r), h) ↦
          let (f, again, _, _, extends, replaced, _) =
            renew-authority now m x session_id rid ttl s t r h in
          let same : f ≡ e = ground (arith, found, again) in
          (t, r, h, subst (λ z. Extends now ttl session_id z r) same extends, replaced)
      | inr (reason, h) ↦ absurd (ground arith)
    ]
