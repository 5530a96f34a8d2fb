-- ===== src/Outcomes/Full.antt =====
-- Acquire on a domain that is full: busy, or a place in the queue (internal/store/postgres/waiters.go).
use bruiser_gateway.Prelude.{
  ℕ, ◌≤◌, ◌<◌, ◌≡◌, Bool, true, false, ◌&&◌, Option, none, some, List, [], ◌∷◌, arith, Text, pos,
  pos_part, ltbℤ, inl, inr, Bool-cases, refl, sym, ◌∙◌, ap, subst, any_where, length, select_row,
  count_where,
}
use bruiser_gateway.Lease.{
  Principal, ok, err, unavailable, Execution, AcquireRequest, AcquireResult, busy, queued_at,
  is_live,
}
use bruiser_gateway.Lease.Precedence.{same_principal}
use bruiser_gateway.Store.{Db, Waiter, in_domain, insert_audit, ensure_domain, waits_in}
use bruiser_gateway.Store.Waiters.{
  still_waits, load_waiter_by_principal, new_waiter, waiter_conflicts, enqueue_waiter, queue_up,
  busy_result, insert_waiter, queued_result,
}
use bruiser_gateway.Store.Promote.{count_live}
use bruiser_gateway.Store.Acquire.{
  with_defaults, is_incomplete, live_executions, admit_or_wait, acquire,
}
use bruiser_gateway.Ledger.{fence_of}
use bruiser_gateway.Ledger.Order.{fence_of_domains}
use bruiser_gateway.Refinement.Capacities.{slots, slots_pos}
use bruiser_gateway.Outcomes.Acquire.{
  ensure_domain-executions, fence_of-ensure_domain, held_by, own, count_live-actives, held_actives,
  acquire_steps,
}
use bruiser_gateway.Outcomes.Total.{
  acquire-acquire_locked, acquire_locked-other, count_none, selected,
}

-- The lease that an answer without one names as the holder's.
abbrev pub named_holder : AcquireResult → Option Text
named_holder (busy b) = some b.active_execution_id
named_holder (queued_at w b q) = some b.active_execution_id
named_holder _ = none

enqueue_waiter-keeps :
    (now : ℕ) (fresh : Text) (req : AcquireRequest) (holder : Execution) (s t : Db)
    (r : AcquireResult)
    → enqueue_waiter now fresh req holder s ≡ ok (t, r)
    → (t.executions ≡ s.executions) × (t.domains ≡ s.domains) × (named_holder r ≡ some holder.id)
unfolding enqueue_waiter queue_up busy_result insert_waiter insert_audit queued_result
enqueue_waiter-keeps now fresh req holder s t r h = (ground arith, ground arith, ground arith)

admit_or_wait-full :
    (now : ℕ) (fresh : Text) (req : AcquireRequest) (actives : List Execution) (s t : Db)
    (r : AcquireResult)
    → pos_part req.max_active ≤ length actives
    → 1 ≤ pos_part req.max_active
    → admit_or_wait now fresh req actives s ≡ ok (t, r)
    → (a : Execution) × (select_row (λ (x : Execution). true) actives ≡ some a)
      × (t.executions ≡ s.executions)
      × (t.domains ≡ s.domains)
      × (named_holder r ≡ some a.id)
unfolding admit_or_wait busy_result insert_audit select_row
admit_or_wait-full now fresh req [] s t r full one h = absurd (omega arith)
admit_or_wait-full now fresh req (holder ∷ rest) s t r full one h =
    elim (Bool-cases (ltbℤ (pos 0) req.max_waiters)) [
      | inl queues ↦
          let (ex, dom, who) = enqueue_waiter-keeps now fresh req holder s t r (ground arith) in
          (holder, refl, ex, dom, who)
      | inr none_waits ↦ (holder, refl, ground arith, ground arith, ground arith)
    ]

any_where_mono :
    (p q : Waiter → Bool) (ws : List Waiter)
    → ((w : Waiter) → p w ≡ true → q w ≡ true)
    → any_where p ws ≡ true
    → any_where q ws ≡ true
unfolding any_where
any_where_mono p q [] h k = absurd (ground arith)
any_where_mono p q (w ∷ ws) h k = ground (arith, h w, any_where_mono p q ws h)

-- The rows of a principal's own places in a domain's queue, lapsed or not.
abbrev pub own_place : AcquireRequest → Waiter → Bool
own_place req w =
    waits_in req.merchant_id req.domain_key w && same_principal w.principal req.principal

load_same :
    (now : ℕ) (m k : Text) (p : Principal) (s t : Db)
    → s.waiters ≡ t.waiters
    → load_waiter_by_principal now m k p t ≡ load_waiter_by_principal now m k p s
unfolding load_waiter_by_principal
load_same now m k p s t h = sym (ap (select_row _) h)

enqueue_waiter-lapsed :
    (now : ℕ) (fresh : Text) (req : AcquireRequest) (holder : Execution) (s : Db)
    → count_where (λ w. waits_in req.merchant_id req.domain_key w && still_waits now w) s.waiters
      < pos_part req.max_waiters
    → load_waiter_by_principal now req.merchant_id req.domain_key req.principal s ≡ none
    → any_where (own_place req) s.waiters ≡ true
    → enqueue_waiter now fresh req holder s ≡ err unavailable
unfolding enqueue_waiter queue_up insert_waiter waiter_conflicts new_waiter
enqueue_waiter-lapsed now fresh req holder s place gone lapsed =
    let clash =
      any_where_mono (own_place req) (waiter_conflicts (new_waiter now fresh req)) s.waiters
        (λ w h. ground arith) lapsed in
    ground arith

admit_or_wait-queues :
    (now : ℕ) (fresh : Text) (req : AcquireRequest) (actives : List Execution) (s : Db)
    → pos_part req.max_active ≤ length actives
    → 1 ≤ pos_part req.max_active
    → 1 ≤ pos_part req.max_waiters
    → (a : Execution) × (admit_or_wait now fresh req actives s ≡ enqueue_waiter now fresh req a s)
unfolding admit_or_wait
admit_or_wait-queues now fresh req [] s full one queue = absurd (omega arith)
admit_or_wait-queues now fresh req (holder ∷ rest) s full one queue = (holder, ground arith)

module _ (now : ℕ) (fresh : Text) (req : AcquireRequest) (s : Db) where
  pub other_request :
      (complete : is_incomplete req ≡ false)
      → count_where (held_by now req) s.executions ≡ 0
      → let db = ensure_domain now req.merchant_id req.domain_key s in
        acquire now fresh req s
        ≡ admit_or_wait now fresh
            (with_defaults req)
            (live_executions now req.merchant_id req.domain_key db)
            db
  unfolding with_defaults
  other_request complete free =
      let m = req.merchant_id in
      let k = req.domain_key in
      let db = ensure_domain now m k s in
      let (same, _) = ensure_domain-executions now m k s in
      acquire-acquire_locked now fresh req s complete
      ∙ acquire_locked-other now fresh (with_defaults req) db (
          count_none (own req) (live_executions now m k db)
            (held_actives now req db ∙ ap (count_where (held_by now req)) same ∙ free))

  -- A full domain grants nothing. A request of a principal that holds no live lease of the domain, which has as many live leases as the request's capacity, changes no lease and no fence; its answer is no grant and names a live lease of the domain.
  pub acquire-full :
      (t : Db) (r : AcquireResult)
      → count_where (held_by now req) s.executions ≡ 0
      → slots req.max_active ≤ count_live now req.merchant_id req.domain_key s
      → acquire now fresh req s ≡ ok (t, r)
      → (t.executions ≡ s.executions)
        × (fence_of req.merchant_id req.domain_key t ≡ fence_of req.merchant_id req.domain_key s)
        × (a : Execution) × ((in_domain req.merchant_id req.domain_key a && is_live now a) ≡ true)
        × (named_holder r ≡ some a.id)
  unfolding with_defaults live_executions
  acquire-full t r free full h =
      let m = req.merchant_id in
      let k = req.domain_key in
      let db = ensure_domain now m k s in
      let asked = with_defaults req in
      let actives = live_executions now m k db in
      let (complete, _) = acquire_steps now fresh req s t r h in
      let (same, _) = ensure_domain-executions now m k s in
      let big : slots req.max_active ≤ length actives =
        subst (λ n. slots req.max_active ≤ n) (sym (count_live-actives now m k db s same)) full in
      let (a, first, ex, dom, who) =
        admit_or_wait-full now fresh asked actives db t r big (slots_pos req.max_active)
          (sym (other_request complete free) ∙ h) in
      let (live, _) =
        selected (λ e. in_domain m k e && is_live now e) (λ x. true) db.executions a first in
      (ex ∙ same, fence_of_domains m k db t dom ∙ fence_of-ensure_domain now m k s, a, live, who)

  -- A place in the queue that has lapsed but is not yet swept blocks its principal: while its row is there, a request of that principal on a full domain with a free place fails as unavailable.
  pub acquire-lapsed :
      is_incomplete req ≡ false
      → count_where (held_by now req) s.executions ≡ 0
      → slots req.max_active ≤ count_live now req.merchant_id req.domain_key s
      → count_where (λ w. waits_in req.merchant_id req.domain_key w && still_waits now w) s.waiters
        < pos_part req.max_waiters
      → load_waiter_by_principal now req.merchant_id req.domain_key req.principal s ≡ none
      → any_where (own_place req) s.waiters ≡ true
      → acquire now fresh req s ≡ err unavailable
  unfolding with_defaults
  acquire-lapsed complete free full place gone lapsed =
      let m = req.merchant_id in
      let k = req.domain_key in
      let db = ensure_domain now m k s in
      let asked = with_defaults req in
      let actives = live_executions now m k db in
      let (same, queue) = ensure_domain-executions now m k s in
      let big : slots req.max_active ≤ length actives =
        subst (λ n. slots req.max_active ≤ n) (sym (count_live-actives now m k db s same)) full in
      let (a, step) =
        admit_or_wait-queues now fresh asked actives db big (slots_pos req.max_active)
          (omega arith) in
      other_request complete free
      ∙ step
      ∙ enqueue_waiter-lapsed now fresh asked a db
          (subst
            (λ ws.
              count_where (λ w. waits_in m k w && still_waits now w) ws < pos_part req.max_waiters)
            (sym queue) place)
          (load_same now m k req.principal s db (sym queue) ∙ gone)
          (subst (λ ws. any_where (own_place req) ws ≡ true) (sym queue) lapsed)
