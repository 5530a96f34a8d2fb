-- ===== src/Refinement/Acquire.antt =====
-- Acquire opens the domain, and then extends a live lease, grants within the capacity, queues the
-- caller, or changes neither leases nor fences.
use bruiser_gateway.Prelude.{
  ℕ, suc, ◌≤◌, ◌<◌, ◌≡◌, Bool, true, ◌&&◌, some, List, [], ◌∷◌, ◌++◌, arith, Text, text_eq_refl, ℤ,
  pos, pos_part, lebℤ, ltbℤ, All, All-append, Option-cases, inl, inr, Bool-cases, refl, sym, ◌∙◌,
  ap, subst, ◌⊎◌, any_where, and-eq-true, length, length-select_where, select_row, count_where,
  count_where-select_where, count_where_mono, select_row_pos,
}
use bruiser_gateway.Lease.{
  ok, Execution, AcquireRequest, AcquireResult, >>=-eq-ok, is_live, is_active,
}
use bruiser_gateway.Lease.Precedence.{same_principal}
use bruiser_gateway.Store.{
  Db, is_domain, in_domain, bump_fence, insert_execution, insert_audit, has_id, ensure_domain,
}
use bruiser_gateway.Store.Waiters.{enqueue_waiter, queue_up, busy_result, insert_waiter, new_waiter}
use bruiser_gateway.Store.Promote.{count_live}
use bruiser_gateway.Store.Acquire.{
  extend, resume_held, with_defaults, is_incomplete, new_execution, live_executions, grant,
  admit_or_wait, acquire_locked, acquire,
}
use bruiser_gateway.Ledger.{Move, keep, open_domain, Moves, done, next, SameLease, Extends}
use bruiser_gateway.Ledger
use bruiser_gateway.Refinement.Capacities.{slots, slots-at_least_one, slots_pos, Fits, WaitersFit}
use bruiser_gateway.Refinement.Grants.{grant-Move, bump_fence_ok, insert_execution_ok}

pub has_id_self : (e : Execution) → has_id e.id e ≡ true
unfolding has_id
has_id_self e = text_eq_refl e.id

pub extend-Extends :
    (now : ℕ) (ttl : ℤ) (session_id : Text) (e : Execution)
    → Extends e (extend now ttl session_id e)
unfolding extend
extend-Extends now ttl session_id e = record {
  same = record {
    id = refl;
    merchant_id = refl;
    domain_key = refl;
    customer_id = refl;
    fence = refl;
    max_lifetime_at = refl;
  };
  state = refl;
  in_lifetime = omega arith;
}

module _ (cap : Text → Text → ℕ) (now : ℕ) where
  ensure_domain-Move : (m k : Text) (s : Db) → Move cap now s (ensure_domain now m k s)
  unfolding ensure_domain
  ensure_domain-Move m k s = elim (Bool-cases (any_where (is_domain m k) s.domains)) [
    | inl there ↦ keep (ground arith) (ground arith)
    | inr new ↦
        open_domain (record { merchant_id = m; domain_key = k; fence = 0; updated_at = now }) refl
          new (ground arith) (ground arith)
  ]

  -- A row that the query for live executions returns is one row of the table at least.
  live_row :
      (m k : Text) (p : Execution → Bool) (s : Db) (a : Execution)
      → select_row p (live_executions now m k s) ≡ some a
      → 1 ≤ count_where (λ r. has_id a.id r && is_active r.state && is_live now r) s.executions
  unfolding live_executions is_live
  live_row m k p s a h = omega (
    arith,
    select_row_pos p (has_id a.id) (live_executions now m k s) h (has_id_self a),
    count_where_mono (λ r. p r && has_id a.id r) (has_id a.id) (live_executions now m k s)
        (λ r e. ground arith),
    count_where-select_where (λ e. in_domain m k e && is_live now e) (has_id a.id) s.executions,
    count_where_mono (λ r. in_domain m k r && is_live now r && has_id a.id r)
        (λ r. has_id a.id r && is_active r.state && is_live now r) s.executions
        (λ r e. ground arith),
  )

  resume_held-Move :
      (req : AcquireRequest) (p : Execution → Bool) (s : Db) (a : Execution)
      → select_row p (live_executions now req.merchant_id req.domain_key s) ≡ some a
      → Move cap now s (resume_held now req a s).0
  unfolding resume_held insert_audit
  resume_held-Move req p s a h =
      Ledger.extend a.id (λ r. has_id a.id r && is_active r.state)
        (extend now req.ttl req.session_id) (λ r e. (and-eq-true _ _ e).0)
        (live_row req.merchant_id req.domain_key p s a h)
        (extend-Extends now req.ttl req.session_id) refl refl

  grant-Acquire :
      (fresh : Text) (req : AcquireRequest) (s t : Db) (r : AcquireResult)
      → count_live now req.merchant_id req.domain_key s < cap req.merchant_id req.domain_key
      → grant now fresh req s ≡ ok (t, r)
      → Move cap now s t
  unfolding grant insert_audit
  grant-Acquire fresh req s t r room h =
      let ((f, u), b, h₁) = >>=-eq-ok (bump_fence now req.merchant_id req.domain_key s) _ h in
      let (v, ins, h₂) = >>=-eq-ok (insert_execution (new_execution now fresh req f) u) _ h₁ in
      unfold new_execution in
      grant-Move cap now req.merchant_id req.domain_key (new_execution now fresh req f) s u v t refl
        refl refl room b ins (ground arith) (ground arith)

  -- The queue and the audit are no part of the ledger.
  enqueue_waiter-Move :
      (fresh : Text) (req : AcquireRequest) (holder : Execution) (s t : Db) (r : AcquireResult)
      → enqueue_waiter now fresh req holder s ≡ ok (t, r)
      → Move cap now s t
  unfolding enqueue_waiter queue_up busy_result insert_waiter insert_audit
  enqueue_waiter-Move fresh req holder s t r h = keep (ground arith) (ground arith)

  pub count_live-length :
      (m k : Text) (s : Db) → length (live_executions now m k s) ≡ count_live now m k s
  unfolding live_executions count_live
  count_live-length m k s = length-select_where (λ e. in_domain m k e && is_live now e) s.executions

  admit_or_wait-Move :
      (fresh : Text) (req : AcquireRequest) (actives : List Execution) (s t : Db)
      (r : AcquireResult)
      → 1 ≤ pos_part req.max_active
      → pos_part req.max_active ≤ cap req.merchant_id req.domain_key
      → length actives ≡ count_live now req.merchant_id req.domain_key s
      → admit_or_wait now fresh req actives s ≡ ok (t, r)
      → Move cap now s t
  unfolding admit_or_wait busy_result insert_audit
  admit_or_wait-Move fresh req [] s t r one fits n h = grant-Acquire fresh req s t r (omega arith) h
  admit_or_wait-Move fresh req (holder ∷ rest) s t r one fits n h =
      elim (Bool-cases (lebℤ req.max_active (pos (suc (length rest))))) [
        | inl full ↦ elim (Bool-cases (ltbℤ (pos 0) req.max_waiters)) [
          | inl queue ↦ enqueue_waiter-Move fresh req holder s t r (ground arith)
          | inr no_queue ↦ keep (ground arith) (ground arith)
        ]
        | inr room ↦ grant-Acquire fresh req s t r (ground arith) (ground arith)
      ]

  acquire_locked-Move :
      (fresh : Text) (req : AcquireRequest) (s t : Db) (r : AcquireResult)
      → 1 ≤ pos_part req.max_active
      → pos_part req.max_active ≤ cap req.merchant_id req.domain_key
      → acquire_locked now fresh req s ≡ ok (t, r)
      → Move cap now s t
  unfolding acquire_locked
  acquire_locked-Move fresh req s t r one fits h =
      let actives = live_executions now req.merchant_id req.domain_key s in
      let mine = λ (a : Execution). same_principal a.principal req.principal in
      elim (Option-cases (select_row mine actives)) [
        | inl other ↦
            admit_or_wait-Move fresh req actives s t r one fits
              (count_live-length req.merchant_id req.domain_key s) (ground arith)
        | inr (a, held) ↦ subst (Move cap now s) (ground arith) (resume_held-Move req mine s a held)
      ]

  -- A request that its domain has the capacity for makes moves of the ledger.
  pub acquire-Moves :
      (fresh : Text) (req : AcquireRequest) (s t : Db) (r : AcquireResult)
      → slots req.max_active ≤ cap req.merchant_id req.domain_key
      → acquire now fresh req s ≡ ok (t, r)
      → Moves cap now s t
  unfolding acquire with_defaults
  acquire-Moves fresh req s t r fits h = elim (Bool-cases (is_incomplete req)) [
    | inl bad ↦ absurd (ground arith)
    | inr complete ↦ next (next done (ensure_domain-Move req.merchant_id req.domain_key s)) (
        acquire_locked-Move fresh (with_defaults req) _ t r (slots_pos req.max_active) fits
          (ground arith))
  ]

-- The only waiter that a request adds is its own.
abbrev Queues : ℕ → Text → AcquireRequest → Db → Db → Type 0
Queues now fresh req s t =
    (t.waiters ≡ s.waiters) ⊎ (t.waiters ≡ s.waiters ++ new_waiter now fresh req ∷ [])

module _ (now : ℕ) (fresh : Text) where
  enqueue_waiter-Queues :
      (req : AcquireRequest) (holder : Execution) (s t : Db) (r : AcquireResult)
      → enqueue_waiter now fresh req holder s ≡ ok (t, r)
      → Queues now fresh req s t
  unfolding enqueue_waiter queue_up busy_result insert_waiter insert_audit
  enqueue_waiter-Queues req holder s t r h = ground arith

  grant-waiters :
      (req : AcquireRequest) (s t : Db) (r : AcquireResult)
      → grant now fresh req s ≡ ok (t, r)
      → t.waiters ≡ s.waiters
  unfolding grant insert_audit
  grant-waiters req s t r h =
      let ((f, u), b, h₁) = >>=-eq-ok (bump_fence now req.merchant_id req.domain_key s) _ h in
      let (v, ins, h₂) = >>=-eq-ok (insert_execution (new_execution now fresh req f) u) _ h₁ in
      ground (
        arith,
        bump_fence_ok now req.merchant_id req.domain_key s b,
        insert_execution_ok (new_execution now fresh req f) u ins,
      )

  admit_or_wait-Queues :
      (req : AcquireRequest) (actives : List Execution) (s t : Db) (r : AcquireResult)
      → admit_or_wait now fresh req actives s ≡ ok (t, r)
      → Queues now fresh req s t
  unfolding admit_or_wait busy_result insert_audit
  admit_or_wait-Queues req [] s t r h = inl (grant-waiters req s t r h)
  admit_or_wait-Queues req (holder ∷ rest) s t r h =
      elim (Bool-cases (lebℤ req.max_active (pos (suc (length rest))))) [
        | inl full ↦ elim (Bool-cases (ltbℤ (pos 0) req.max_waiters)) [
          | inl queue ↦ enqueue_waiter-Queues req holder s t r (ground arith)
          | inr no_queue ↦ inl (ground arith)
        ]
        | inr room ↦ inl (grant-waiters req s t r (ground arith))
      ]

  acquire_locked-Queues :
      (req : AcquireRequest) (s t : Db) (r : AcquireResult)
      → acquire_locked now fresh req s ≡ ok (t, r)
      → Queues now fresh req s t
  unfolding acquire_locked resume_held insert_audit
  acquire_locked-Queues req s t r h =
      let actives = live_executions now req.merchant_id req.domain_key s in
      elim (Option-cases (select_row (λ a. same_principal a.principal req.principal) actives)) [
        | inl other ↦ admit_or_wait-Queues req actives s t r (ground arith)
        | inr (a, held) ↦ inl (ground arith)
      ]

  pub acquire-WaitersFit :
      (cap : Text → Text → ℕ) (req : AcquireRequest) (s t : Db) (r : AcquireResult)
      → slots req.max_active ≤ cap req.merchant_id req.domain_key
      → WaitersFit cap s
      → acquire now fresh req s ≡ ok (t, r)
      → WaitersFit cap t
  unfolding acquire ensure_domain with_defaults
  acquire-WaitersFit cap req s t r fits v h =
      let opened = ensure_domain now req.merchant_id req.domain_key s in
      let locked : acquire_locked now fresh (with_defaults req) opened ≡ ok (t, r) = ground arith in
      let same : opened.waiters ≡ s.waiters = ground arith in
      let new_fits : Fits cap (new_waiter now fresh (with_defaults req)) =
        unfold new_waiter in omega (arith, slots-at_least_one req.max_active) in
      elim (acquire_locked-Queues (with_defaults req) opened t r locked) [
        | inl e ↦ subst (All (Fits cap)) (sym (e ∙ same)) v
        | inr e ↦
            subst (All (Fits cap))
              (sym (e ∙ ap (λ ws. ws ++ new_waiter now fresh (with_defaults req) ∷ []) same))
              (All-append (Fits cap) s.waiters _ v (new_fits, tt))
      ]
