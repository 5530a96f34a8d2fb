-- ===== src/Outcomes/Acquire.antt =====
-- Acquire, answer by answer.
use bruiser_gateway.Prelude.{
  ℕ, suc, ◌≤◌, ◌<◌, ◌≡◌, Bool, true, false, ◌&&◌, none, some, List, [], ◌∷◌, ◌++◌, arith, Text,
  text_eq_refl, pos_part, Option-cases, inl, inr, Bool-cases, refl, sym, ◌∙◌, ap, subst, any_where,
  length, select_row, count_where, count_where-select_where, count_where-congr,
}
use bruiser_gateway.Lease.{
  ok, Execution, AcquireRequest, AcquireResult, granted, >>=-eq-ok, is_live,
}
use bruiser_gateway.Lease.Precedence.{same_principal}
use bruiser_gateway.Store.{
  Db, Domain, is_domain, in_domain, bump_fence, insert_execution, insert_audit, ensure_domain,
}
use bruiser_gateway.Store.Waiters.{
  enqueue_waiter, queue_up, busy_result, insert_waiter, queued_result,
}
use bruiser_gateway.Store.Promote.{count_live}
use bruiser_gateway.Store.Acquire.{
  resume_held, with_defaults, is_incomplete, new_execution, live_executions, grant, admit_or_wait,
  acquire_locked, acquire,
}
use bruiser_gateway.Ledger.{fence_of}
use bruiser_gateway.Ledger.Fences.{bump_fence-fence_of}
use bruiser_gateway.Ledger.Order.{fence_of_domains}
use bruiser_gateway.Refinement.Capacities.{slots, slots_pos}
use bruiser_gateway.Refinement.Grants.{bump_fence_ok, insert_execution_ok}
use bruiser_gateway.Refinement.Acquire.{count_live-length}

pub select_row-append :
    (p : Domain → Bool) (ds : List Domain) (d : Domain)
    → any_where p ds ≡ false
    → p d ≡ true
    → (select_row p ds ≡ none) × (select_row p (ds ++ d ∷ []) ≡ some d)
unfolding select_row any_where
select_row-append p [] d h k = ground arith
select_row-append p (c ∷ ds) d h k = ground (arith, select_row-append p ds d)

abbrev pub new_domain : ℕ → Text → Text → Domain
new_domain now m k = record { merchant_id = m; domain_key = k; fence = 0; updated_at = now }

pub is_domain_self : (now : ℕ) (m k : Text) → is_domain m k (new_domain now m k) ≡ true
unfolding is_domain
is_domain_self now m k = simp text_eq_refl

-- Opening a domain gives out no fence.
pub fence_of-ensure_domain :
    (now : ℕ) (m k : Text) (s : Db) → fence_of m k (ensure_domain now m k s) ≡ fence_of m k s
unfolding fence_of ensure_domain
fence_of-ensure_domain now m k s = elim (Bool-cases (any_where (is_domain m k) s.domains)) [
  | inl there ↦ ground arith
  | inr new ↦
      let d = new_domain now m k in
      ground (arith, select_row-append (is_domain m k) s.domains d new (is_domain_self now m k))
]

-- Opening a domain touches no lease and no waiter.
pub ensure_domain-executions :
    (now : ℕ) (m k : Text) (s : Db)
    → ((ensure_domain now m k s).executions ≡ s.executions)
      × ((ensure_domain now m k s).waiters ≡ s.waiters)
unfolding ensure_domain
ensure_domain-executions now m k s = ground arith

-- A complete request runs under the lock of its domain, with its defaults.
pub acquire_steps :
    (now : ℕ) (fresh : Text) (req : AcquireRequest) (s t : Db) (r : AcquireResult)
    → acquire now fresh req s ≡ ok (t, r)
    → (is_incomplete req ≡ false)
      × (acquire_locked now fresh
            (with_defaults req)
            (ensure_domain now req.merchant_id req.domain_key s)
          ≡ ok (t, r))
unfolding acquire with_defaults
acquire_steps now fresh req s t r h = ground arith

-- The live leases of a principal in a domain.
abbrev pub held_by : ℕ → AcquireRequest → Execution → Bool
held_by now req r =
    in_domain req.merchant_id req.domain_key r
    && is_live now r
    && same_principal r.principal req.principal

abbrev pub own : AcquireRequest → Execution → Bool
own req a = same_principal a.principal req.principal

pub select_row-none :
    (p : Execution → Bool) (xs : List Execution) → select_row p xs ≡ none → count_where p xs ≡ 0
unfolding select_row count_where
select_row-none p [] h = refl
select_row-none p (x ∷ xs) h = ground (arith, select_row-none p xs)

pub held_actives :
    (now : ℕ) (req : AcquireRequest) (s : Db)
    → count_where (own req) (live_executions now req.merchant_id req.domain_key s)
      ≡ count_where (held_by now req) s.executions
unfolding live_executions
held_actives now req s =
    count_where-select_where (λ e. in_domain req.merchant_id req.domain_key e && is_live now e)
      (own req) s.executions
    ∙ count_where-congr _ (held_by now req) s.executions (λ r. ground arith)

not_held :
    (now : ℕ) (req : AcquireRequest) (s : Db)
    → select_row (own req) (live_executions now req.merchant_id req.domain_key s) ≡ none
    → count_where (held_by now req) s.executions ≡ 0
not_held now req s h = sym (held_actives now req s) ∙ select_row-none (own req) _ h

module _ (now : ℕ) (fresh : Text) (req : AcquireRequest) where
  admit_or_wait-granted :
      (actives : List Execution) (s t : Db) (e : Execution)
      → 1 ≤ pos_part req.max_active
      → admit_or_wait now fresh req actives s ≡ ok (t, granted e)
      → (length actives < pos_part req.max_active) × (grant now fresh req s ≡ ok (t, granted e))
  unfolding admit_or_wait busy_result enqueue_waiter queue_up queued_result insert_waiter
  admit_or_wait-granted [] s t e one h = (omega arith, h)
  admit_or_wait-granted (holder ∷ rest) s t e one h = ground arith

  grant_steps :
      (s t : Db) (e : Execution)
      → grant now fresh req s ≡ ok (t, granted e)
      → (e ≡ new_execution now fresh req (suc (fence_of req.merchant_id req.domain_key s)))
        × (t.executions ≡ s.executions ++ e ∷ [])
        × (fence_of req.merchant_id req.domain_key t ≡ e.fence)
  unfolding grant insert_audit new_execution
  grant_steps s t e h =
      let m = req.merchant_id in
      let k = req.domain_key in
      let ((f, u), b, h₁) = >>=-eq-ok (bump_fence now m k s) _ h in
      let (v, ins, h₂) = >>=-eq-ok (insert_execution (new_execution now fresh req f) u) _ h₁ in
      let (at_f, grown) = bump_fence-fence_of now m k s b in
      let (_, ve) = insert_execution_ok (new_execution now fresh req f) u ins in
      let (same, _) = bump_fence_ok now m k s b in
      let new : e ≡ new_execution now fresh req f = ground arith in
      let dom : t.domains ≡ u.domains = ground (arith, ve) in
      (
        new ∙ ap (new_execution now fresh req) grown,
        ground (arith, ve, same),
        fence_of_domains m k u t dom ∙ at_f ∙ sym (ap (λ (r : Execution). r.fence) new),
      )

pub count_live_rows :
    (now : ℕ) (m k : Text) (s t : Db)
    → s.executions ≡ t.executions
    → count_live now m k s ≡ count_live now m k t
unfolding count_live
count_live_rows now m k s t h = ap (count_where _) h

pub count_live-actives :
    (now : ℕ) (m k : Text) (s t : Db)
    → s.executions ≡ t.executions
    → length (live_executions now m k s) ≡ count_live now m k t
count_live-actives now m k s t h =
    count_live-length (λ _ _. 0) now m k s ∙ count_live_rows now m k s t h

module _ (now : ℕ) (fresh : Text) (req : AcquireRequest) (s t : Db) (e : Execution) where
  abbrev opened : Db
  opened = ensure_domain now req.merchant_id req.domain_key s

  acquire_locked-granted :
      acquire_locked now fresh (with_defaults req) opened ≡ ok (t, granted e)
      → (count_where (held_by now req) s.executions ≡ 0)
        × (count_live now req.merchant_id req.domain_key s < slots req.max_active)
        × (t.executions ≡ s.executions ++ e ∷ [])
        × (e
            ≡ new_execution now fresh
                (with_defaults req)
                (suc (fence_of req.merchant_id req.domain_key s)))
        × (fence_of req.merchant_id req.domain_key t ≡ e.fence)
  unfolding acquire_locked with_defaults resume_held
  acquire_locked-granted h =
      let actives = live_executions now req.merchant_id req.domain_key opened in
      let (same, _) = ensure_domain-executions now req.merchant_id req.domain_key s in
      elim (Option-cases (select_row (own req) actives)) [
        | inr (a, held) ↦ absurd (ground arith)
        | inl other ↦
            let (room, g) =
              admit_or_wait-granted now fresh (with_defaults req) actives opened t e
                (slots_pos req.max_active) (ground arith) in
            let (new, row, fence) = grant_steps now fresh (with_defaults req) opened t e g in
            let live : length actives ≡ count_live now req.merchant_id req.domain_key s =
              count_live-actives now req.merchant_id req.domain_key opened s same in
            (
              subst (λ rows. count_where (held_by now req) rows ≡ 0) same
                  (not_held now req opened other),
              subst (λ n. n < slots req.max_active) live room,
              row ∙ ap (λ rows. rows ++ e ∷ []) same,
              new
                  ∙ ap (λ f. new_execution now fresh (with_defaults req) (suc f))
                      (fence_of-ensure_domain now req.merchant_id req.domain_key s),
              fence,
            )
      ]

-- A grant. The caller held no live lease of the domain, which had room; the new lease is the last row, active from now, under the fence after the domain's last one, and the domain's fence is then that of the lease.
pub acquire-granted :
    (now : ℕ) (fresh : Text) (req : AcquireRequest) (s t : Db) (e : Execution)
    → acquire now fresh req s ≡ ok (t, granted e)
    → (count_where (held_by now req) s.executions ≡ 0)
      × (count_live now req.merchant_id req.domain_key s < slots req.max_active)
      × (t.executions ≡ s.executions ++ e ∷ [])
      × (e
          ≡ new_execution now fresh
              (with_defaults req)
              (suc (fence_of req.merchant_id req.domain_key s)))
      × (fence_of req.merchant_id req.domain_key t ≡ e.fence)
unfolding with_defaults
acquire-granted now fresh req s t e h =
    let (_, locked) = acquire_steps now fresh req s t (granted e) h in
    acquire_locked-granted now fresh req s t e locked
