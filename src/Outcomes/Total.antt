-- ===== src/Outcomes/Total.antt =====
-- Acquire answers every complete request: internal/store/postgres/acquire.go, from its first line on.
use bruiser_gateway.Prelude.{
  ℕ, suc, ◌<◌, ◌≡◌, Bool, true, false, none, some, List, [], ◌∷◌, arith, Text, pos_part, inl, inr,
  Bool-cases, refl, sym, ◌∙◌, ap, subst, any_where, length, select_row, select_where, count_where,
}
use bruiser_gateway.Lease.{ok, Execution, AcquireRequest, granted}
use bruiser_gateway.Store.{
  Db, Domain, is_domain, has_id, bump_fence, insert_execution, ensure_domain, lock_domain,
}
use bruiser_gateway.Store.Promote.{count_live}
use bruiser_gateway.Store.Acquire.{
  with_defaults, is_incomplete, new_execution, live_executions, grant, admit_or_wait,
  acquire_locked, acquire,
}
use bruiser_gateway.Ledger.{fence_of}
use bruiser_gateway.Refinement.Capacities.{Result-cases, slots}
use bruiser_gateway.Outcomes.Acquire.{
  ensure_domain-executions, fence_of-ensure_domain, held_by, own, select_row-append, new_domain,
  is_domain_self, count_live-actives, held_actives,
}

pub select_row-any :
    (p : Domain → Bool) (ds : List Domain)
    → any_where p ds ≡ true
    → (d : Domain) × (select_row p ds ≡ some d)
unfolding select_row any_where
select_row-any p [] h = absurd (ground arith)
select_row-any p (c ∷ ds) h = elim (Bool-cases (p c)) [
  | inl here ↦ (c, ground arith)
  | inr later ↦ let (d, found) = select_row-any p ds (ground arith) in (d, ground arith)
]

ensure_domain-found :
    (now : ℕ) (m k : Text) (s : Db)
    → (d : Domain) × (select_row (is_domain m k) (ensure_domain now m k s).domains ≡ some d)
unfolding ensure_domain
ensure_domain-found now m k s = elim (Bool-cases (any_where (is_domain m k) s.domains)) [
  | inl there ↦ let (d, found) = select_row-any _ s.domains there in (d, ground arith)
  | inr new ↦
      let d = new_domain now m k in
      let (_, found) = select_row-append (is_domain m k) s.domains d new (is_domain_self now m k) in
      (d, ground arith)
]

-- A complete request always takes the lock.
pub acquire-acquire_locked :
    (now : ℕ) (fresh : Text) (req : AcquireRequest) (s : Db)
    → is_incomplete req ≡ false
    → acquire now fresh req s
      ≡ acquire_locked now fresh
          (with_defaults req)
          (ensure_domain now req.merchant_id req.domain_key s)
unfolding acquire lock_domain with_defaults
acquire-acquire_locked now fresh req s h =
    let (d, found) = ensure_domain-found now req.merchant_id req.domain_key s in rw (h, found)

-- A grant fails on a used id alone.
grant-fresh :
    (now : ℕ) (fresh : Text) (req : AcquireRequest) (s : Db) (d : Domain)
    → select_row (is_domain req.merchant_id req.domain_key) s.domains ≡ some d
    → any_where (has_id fresh) s.executions ≡ false
    → (t : Db) × (grant now fresh req s
        ≡ ok (
          t,
          granted (new_execution now fresh req (suc (fence_of req.merchant_id req.domain_key s))),
        ))
unfolding grant bump_fence insert_execution new_execution fence_of
grant-fresh now fresh req s d found free = elim (Result-cases (grant now fresh req s)) [
  | inl ((t, r), h) ↦ (t, ground arith)
  | inr (e, h) ↦ absurd (ground arith)
]

pub count_none :
    (p : Execution → Bool) (xs : List Execution) → count_where p xs ≡ 0 → select_row p xs ≡ none
unfolding select_row count_where
count_none p [] h = refl
count_none p (x ∷ xs) h = ground (arith, count_none p xs)

pub selected :
    (q p : Execution → Bool) (xs : List Execution) (a : Execution)
    → select_row p (select_where q xs) ≡ some a
    → (q a ≡ true) × (p a ≡ true)
unfolding select_row select_where
selected q p [] a h = absurd (ground arith)
selected q p (x ∷ xs) a h = ground (arith, selected q p xs a)

admit_or_wait-room :
    (now : ℕ) (fresh : Text) (req : AcquireRequest) (actives : List Execution) (s : Db)
    → length actives < pos_part req.max_active
    → admit_or_wait now fresh req actives s ≡ grant now fresh req s
unfolding admit_or_wait
admit_or_wait-room now fresh req [] s h = refl
admit_or_wait-room now fresh req (x ∷ xs) s h = ground arith

pub acquire_locked-other :
    (now : ℕ) (fresh : Text) (req : AcquireRequest) (s : Db)
    → select_row (own req) (live_executions now req.merchant_id req.domain_key s) ≡ none
    → acquire_locked now fresh req s
      ≡ admit_or_wait now fresh req (live_executions now req.merchant_id req.domain_key s) s
unfolding acquire_locked
acquire_locked-other now fresh req s h = ground arith

module _ (now : ℕ) (fresh : Text) (req : AcquireRequest) (s : Db) where
  abbrev asked : AcquireRequest
  asked = with_defaults req

  abbrev opened : Db
  opened = ensure_domain now req.merchant_id req.domain_key s

  -- A domain with room grants. A complete request of a principal that holds no live lease of the domain, which has fewer live leases than the request's capacity, is granted under any id not yet used.
  pub acquire-room :
      is_incomplete req ≡ false
      → count_where (held_by now req) s.executions ≡ 0
      → count_live now req.merchant_id req.domain_key s < slots req.max_active
      → any_where (has_id fresh) s.executions ≡ false
      → (t : Db) × (acquire now fresh req s
          ≡ ok (
            t,
            granted
                (new_execution now fresh asked (suc (fence_of req.merchant_id req.domain_key s))),
          ))
  unfolding with_defaults
  acquire-room complete free room unused =
      let m = req.merchant_id in
      let k = req.domain_key in
      let (same, _) = ensure_domain-executions now m k s in
      let actives = live_executions now m k opened in
      let (d, found) = ensure_domain-found now m k s in
      let (t, g) =
        grant-fresh now fresh asked opened d found
          (subst (λ rows. any_where (has_id fresh) rows ≡ false) (sym same) unused) in
      let none_own : select_row (own req) actives ≡ none =
        count_none (own req) actives
          (held_actives now req opened ∙ ap (count_where (held_by now req)) same ∙ free) in
      let live = count_live-actives now m k opened s same in
      let small : length actives < pos_part asked.max_active =
        subst (λ n. n < slots req.max_active) (sym live) room in
      (
        t,
        acquire-acquire_locked now fresh req s complete
            ∙ acquire_locked-other now fresh asked opened none_own
            ∙ admit_or_wait-room now fresh asked actives opened small
            ∙ g
            ∙ ap (λ f. ok (t, granted (new_execution now fresh asked (suc f))))
                (fence_of-ensure_domain now m k s),
      )
