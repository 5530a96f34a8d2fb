-- ===== src/Shadow/Verdict.antt =====
-- The shadow against the store: ShadowDecide of internal/store/postgres/ops.go and Acquire of acquire.go.
use bruiser_gateway.Prelude.{
  ℕ, ◌≤◌, ◌≡◌, refl, ap, sym, subst, ◌∙◌, arith, false, ◌&&◌, none, List, [], ◌∷◌, Text, text_eq, ℤ,
  pos, pos_part, ltb, ltbℤ, length, count_where, any_where, select_row, inl, inr, Bool-cases,
  if◌then◌else◌,
}
use bruiser_gateway.Lease.{
  ok, Execution, AcquireRequest, AcquireResult, granted, already_held, busy, queued_at, denied,
}
use bruiser_gateway.Lease.Precedence.{same_principal}
use bruiser_gateway.Store.{Db, Waiter, waits_in, has_id, ensure_domain}
use bruiser_gateway.Store.Waiters.{
  still_waits, load_waiter_by_principal, new_waiter, insert_waiter, waiter_conflicts, queue_up,
  queued_result, busy_result, enqueue_waiter,
}
use bruiser_gateway.Store.Promote.{at_least_one, count_live}
use bruiser_gateway.Store.Acquire.{
  acquire, is_incomplete, with_defaults, live_executions, admit_or_wait,
}
use bruiser_gateway.Refinement.Capacities.{slots, slots_pos, Result-cases}
use bruiser_gateway.Outcomes.Acquire.{held_by, ensure_domain-executions, count_live-actives}
use bruiser_gateway.Outcomes.Total.{acquire-room}
use bruiser_gateway.Outcomes.Full.{other_request, own_place}
use bruiser_gateway.Shadow.{
  Would, allow, queue, reject, ShadowDb, ShadowRequest, DryRunEvent, has_hold, count_active,
  count_queued, sweep, event, commit_dry, place_hold, decide, shadow_decide,
}
use bruiser_gateway.Shadow.Sweep.{swept_counts, swept_none}

-- What an answer of the store is called in a dry run.
abbrev pub called : AcquireResult → Would
called (granted e) = allow
called (already_held e) = allow
called (queued_at w b q) = queue
called (busy b) = reject
called (denied reason) = reject

-- What the counts alone say: active leases, waiters, and the request's bounds.
abbrev pub by_counts : ℕ → ℕ → ℤ → ℤ → Would
by_counts active queued max_active max_waiters =
    if ltbℤ (pos active) (at_least_one max_active)
    then allow
    else if ltbℤ (pos 0) max_waiters && ltbℤ (pos queued) max_waiters
    then queue
    else reject

-- The shadow's verdict on a principal without a hold is that of its counts.
decide-verdict :
    (now : ℕ) (fresh : Text) (req : ShadowRequest) (db : ShadowDb)
    → any_where (λ h. text_eq h.hold_id fresh) db.dry_run_holds ≡ false
    → (t : ShadowDb) × (ev : DryRunEvent) × (decide now fresh req db ≡ ok (t, ev))
      × (ev.would
          ≡ by_counts
              (count_active now req.merchant_id req.domain_key db.dry_run_holds)
              (count_queued now req.merchant_id req.domain_key db.dry_run_holds)
              req.max_active
              req.max_waiters)
unfolding decide commit_dry place_hold event
decide-verdict now fresh req db new = elim (Result-cases (decide now fresh req db)) [
  | inl ((t, ev), h) ↦ (t, ev, h, ground arith)
  | inr (e, h) ↦ absurd (ground arith)
]

-- How many wait for a domain.
abbrev pub count_waiting : ℕ → Text → Text → Db → ℕ
count_waiting now m k db = count_where (λ w. waits_in m k w && still_waits now w) db.waiters

no_place :
    (now : ℕ) (fresh : Text) (req : AcquireRequest) (ws : List Waiter)
    → any_where (own_place req) ws ≡ false
    → any_where (λ w. text_eq w.id fresh) ws ≡ false
    → (any_where (waiter_conflicts (new_waiter now fresh req)) ws ≡ false)
      × (select_row
            (λ w.
              waits_in req.merchant_id req.domain_key w
              && same_principal w.principal req.principal
              && still_waits now w)
            ws
          ≡ none)
unfolding any_where select_row waiter_conflicts new_waiter
no_place now fresh req [] h n = (refl, refl)
no_place now fresh req (w ∷ ws) h n = ground (arith, no_place now fresh req ws)

enqueue_waiter-verdict :
    (now : ℕ) (fresh : Text) (req : AcquireRequest) (holder : Execution) (s : Db)
    → any_where (own_place req) s.waiters ≡ false
    → any_where (λ w. text_eq w.id fresh) s.waiters ≡ false
    → (t : Db) × (r : AcquireResult) × (enqueue_waiter now fresh req holder s ≡ ok (t, r))
      × (called r ≡ (
          if ltbℤ (pos (count_waiting now req.merchant_id req.domain_key s)) req.max_waiters
          then queue
          else reject))
unfolding enqueue_waiter queue_up insert_waiter queued_result busy_result load_waiter_by_principal
enqueue_waiter-verdict now fresh req holder s h n =
    let (free, absent) = no_place now fresh req s.waiters h n in
    elim (Result-cases (enqueue_waiter now fresh req holder s)) [
      | inl ((t, r), e) ↦ (t, r, e, ground arith)
      | inr (x, e) ↦ absurd (ground arith)
    ]

admit_or_wait-verdict :
    (now : ℕ) (fresh : Text) (req : AcquireRequest) (actives : List Execution) (s : Db)
    → 1 ≤ pos_part req.max_active
    → pos_part req.max_active ≤ length actives
    → any_where (own_place req) s.waiters ≡ false
    → any_where (λ w. text_eq w.id fresh) s.waiters ≡ false
    → (t : Db) × (r : AcquireResult) × (admit_or_wait now fresh req actives s ≡ ok (t, r))
      × (called r ≡ (
          if ltbℤ (pos 0) req.max_waiters
            && ltbℤ (pos (count_waiting now req.merchant_id req.domain_key s)) req.max_waiters
          then queue
          else reject))
unfolding admit_or_wait busy_result
admit_or_wait-verdict now fresh req [] s one full h n = absurd (omega arith)
admit_or_wait-verdict now fresh req (holder ∷ rest) s one full h n =
    let (t, r, e, same) = enqueue_waiter-verdict now fresh req holder s h n in
    elim (Bool-cases (ltbℤ (pos 0) req.max_waiters)) [
      | inl queues ↦ (t, r, ground arith, ground arith)
      | inr none_waits ↦
          ((busy_result req holder s).0, (busy_result req holder s).1, ground arith, ground arith)
    ]

abbrev queue_or_reject : ℕ → ℤ → Would
queue_or_reject queued max_waiters =
    if ltbℤ (pos 0) max_waiters && ltbℤ (pos queued) max_waiters then queue else reject

by_counts_full :
    (active queued : ℕ) (max_active max_waiters : ℤ)
    → slots max_active ≤ active
    → by_counts active queued max_active max_waiters ≡ queue_or_reject queued max_waiters
unfolding at_least_one
by_counts_full active queued max_active max_waiters h = ground arith

not_below : (a b : ℕ) → ltb a b ≡ false → b ≤ a
not_below a b h = ground arith

acquire-verdict :
    (now : ℕ) (fresh : Text) (req : AcquireRequest) (s : Db)
    → is_incomplete req ≡ false
    → count_where (held_by now req) s.executions ≡ 0
    → any_where (has_id fresh) s.executions ≡ false
    → any_where (own_place req) s.waiters ≡ false
    → any_where (λ w. text_eq w.id fresh) s.waiters ≡ false
    → (t : Db) × (r : AcquireResult) × (acquire now fresh req s ≡ ok (t, r))
      × (called r
          ≡ by_counts
              (count_live now req.merchant_id req.domain_key s)
              (count_waiting now req.merchant_id req.domain_key s)
              req.max_active
              req.max_waiters)
unfolding with_defaults at_least_one
acquire-verdict now fresh req s complete free new no_own no_id =
    let m = req.merchant_id in
    let k = req.domain_key in
    let db = ensure_domain now m k s in
    let actives = live_executions now m k db in
    let (same, line) = ensure_domain-executions now m k s in
    let live = count_live-actives now m k db s same in
    elim (Bool-cases (ltb (count_live now m k s) (slots req.max_active))) [
      | inl room ↦
          let (t, h) = acquire-room now fresh req s complete free (ground arith) new in
          (t, granted _, h, ground arith)
      | inr full ↦
          let big : slots req.max_active ≤ length actives =
            omega (arith, live, not_below _ _ full) in
          let (t, r, h, same_call) =
            admit_or_wait-verdict now fresh (with_defaults req) actives db
              (slots_pos req.max_active) big
              (subst (λ ws. any_where (own_place req) ws ≡ false) (sym line) no_own)
              (subst (λ ws. any_where (λ w. text_eq w.id fresh) ws ≡ false) (sym line) no_id) in
          (
            t,
            r,
            other_request now fresh req s complete free ∙ h,
            same_call
                ∙ ap
                    (λ ws.
                      queue_or_reject (count_where (λ w. waits_in m k w && still_waits now w) ws)
                        req.max_waiters)
                    line
                ∙ sym (
                    by_counts_full (count_live now m k s) _ req.max_active req.max_waiters
                      (not_below _ _ full)),
          )
    ]

-- A dry run says what enforcement would do. Where the shadow counts as many active leases and waiters of the domain as the store, and the principal has no hold, no live lease and no place in the queue, the shadow and the store both answer a complete request with the same bounds, under ids not yet used, and the shadow's verdict names the store's answer: ALLOW a grant, QUEUE a place in the queue, REJECT a BUSY.
pub shadow_decide-acquire :
    (now : ℕ) (fresh hold_id : Text) (req : AcquireRequest) (s : Db) (dry : ShadowRequest)
    (d : ShadowDb)
    → is_incomplete req ≡ false
    → count_where (held_by now req) s.executions ≡ 0
    → any_where (has_id fresh) s.executions ≡ false
    → any_where (own_place req) s.waiters ≡ false
    → any_where (λ w. text_eq w.id fresh) s.waiters ≡ false
    → any_where (has_hold now dry) d.dry_run_holds ≡ false
    → any_where (λ h. text_eq h.hold_id hold_id) d.dry_run_holds ≡ false
    → dry.max_active ≡ req.max_active
    → dry.max_waiters ≡ req.max_waiters
    → count_active now dry.merchant_id dry.domain_key d.dry_run_holds
      ≡ count_live now req.merchant_id req.domain_key s
    → count_queued now dry.merchant_id dry.domain_key d.dry_run_holds
      ≡ count_waiting now req.merchant_id req.domain_key s
    → (t : Db) × (r : AcquireResult) × (u : ShadowDb) × (ev : DryRunEvent) × (acquire now fresh req
          s
        ≡ ok (t, r))
      × (shadow_decide now hold_id dry d ≡ ok (u, ev))
      × (ev.would ≡ called r)
unfolding shadow_decide
shadow_decide-acquire now fresh hold_id req s dry d complete free new no_own no_id no_hold
      no_hold_id same_active same_waiters active queued =
    let (t, r, h, verdict) = acquire-verdict now fresh req s complete free new no_own no_id in
    let db = sweep now dry.merchant_id dry.request_id d in
    let (swept_active, swept_queued) =
      swept_counts now dry.merchant_id dry.domain_key dry.request_id d in
    let (u, ev, k, says) =
      decide-verdict now hold_id dry db
        (swept_none (λ h. text_eq h.hold_id hold_id) now dry d no_hold_id) in
    let gone = swept_none (has_hold now dry) now dry d no_hold in
    (
      t,
      r,
      u,
      ev,
      h,
      ground (arith, gone, k),
      ground (
        arith, says, verdict, swept_active, swept_queued, same_active, same_waiters, active, queued,
      ),
    )
