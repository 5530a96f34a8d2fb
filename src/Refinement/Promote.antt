-- ===== src/Refinement/Promote.antt =====
-- promoteLocked grants to the oldest waiter, within the capacity of the domain, or does nothing.
use bruiser_gateway.Prelude.{
  ℕ, ◌≤◌, ◌<◌, ◌≡◌, true, false, ◌&&◌, arith, Text, text_eq, text_eq_iff, pos, lebℤ, All,
  delete_where, select_where, leb, Option-cases, inl, inr, Bool-cases, refl, sym, subst,
  and-eq-true,
}
use bruiser_gateway.Lease.{ok, >>=-eq-ok}
use bruiser_gateway.Store.{Db, Waiter, waits_in, bump_fence, insert_execution, insert_audit}
use bruiser_gateway.Store.Waiters.{still_waits}
use bruiser_gateway.Store.Promote.{
  at_least_one, oldest, promoted, delete_waiter, drop_expired, count_live, promote_waiter,
  promote_locked,
}
use bruiser_gateway.Ledger.{Move, keep, Moves, done, next}
use bruiser_gateway.Refinement.Capacities.{
  slots, slots_lt, Fits, WaitersFit, All-delete_where, All-select_where,
}
use bruiser_gateway.Refinement.Grants.{grant-Move, bump_fence_ok, insert_execution_ok}
use bruiser_gateway.Refinement.Oldest.{oldest_among}

waits_in_eq :
    (m k : Text) (w : Waiter) → waits_in m k w ≡ true → (w.merchant_id ≡ m) × (w.domain_key ≡ k)
unfolding waits_in
waits_in_eq m k w h = ground (arith, text_eq_iff w.merchant_id m, text_eq_iff w.domain_key k)

module _ (cap : Text → Text → ℕ) (now : ℕ) (rid m k : Text) where
  promote_waiter-Move :
      (w : Waiter) (s t : Db)
      → waits_in m k w ≡ true
      → count_live now m k s < cap m k
      → promote_waiter now rid m k w s ≡ ok t
      → Move cap now s t
  unfolding promote_waiter insert_audit delete_waiter
  promote_waiter-Move w s t here room h =
      let ((f, u), b, h₁) = >>=-eq-ok (bump_fence now m k s) _ h in
      let (v, ins, h₂) = >>=-eq-ok (insert_execution (promoted now w f) u) _ h₁ in
      let (em, ek) = waits_in_eq m k w here in
      unfold promoted in
      grant-Move cap now m k (promoted now w f) s u v t refl em ek room b ins (ground arith)
        (ground arith)

  fit_of_domain :
      (w : Waiter) (c : ℕ)
      → Fits cap w
      → waits_in m k w ≡ true
      → lebℤ (at_least_one w.max_active) (pos c) ≡ false
      → c < cap m k
  fit_of_domain w c fits here room =
      let (em, ek) = waits_in_eq m k w here in
      omega (
        arith,
        slots_lt w.max_active c room,
        subst (λ m'. slots w.max_active ≤ cap m' k) em
            (subst (λ k'. slots w.max_active ≤ cap w.merchant_id k') ek fits),
      )

  -- A promotion drops the expired waiters and then grants once, or not at all.
  pub promote_locked-Moves :
      (s t : Db) → WaitersFit cap s → promote_locked now rid m k s ≡ ok t → Moves cap now s t
  unfolding promote_locked drop_expired
  promote_locked-Moves s t fit h =
      let line =
        select_where (λ w. waits_in m k w && still_waits now w) (drop_expired now m k s).waiters in
      elim (Option-cases (oldest line)) [
        | inl empty ↦ next done (keep (ground arith) (ground arith))
        | inr (w, chosen) ↦
            let (fits, here) =
              oldest_among _ line w
                (All-select_where (Fits cap) _ _ (All-delete_where (Fits cap) _ _ fit)) chosen in
            elim (Bool-cases (
              lebℤ (at_least_one w.max_active)
                (pos (count_live now m k (drop_expired now m k s))))) [
                  | inl full ↦ next done (keep (ground arith) (ground arith))
                  | inr room ↦ next (next done (keep refl refl)) (
                      promote_waiter-Move w (drop_expired now m k s) t (and-eq-true _ _ here).0
                        (fit_of_domain w _ fits (and-eq-true _ _ here).0 room) (ground arith))
                ]
      ]

module _ (now : ℕ) (rid m k : Text) where
  promote_waiter-waiters :
      (w : Waiter) (s t : Db)
      → promote_waiter now rid m k w s ≡ ok t
      → t.waiters ≡ delete_where (λ v. text_eq v.id w.id) s.waiters
  unfolding promote_waiter insert_audit delete_waiter
  promote_waiter-waiters w s t h =
      let ((f, u), b, h₁) = >>=-eq-ok (bump_fence now m k s) _ h in
      let (v, ins, h₂) = >>=-eq-ok (insert_execution (promoted now w f) u) _ h₁ in
      ground (arith, bump_fence_ok now m k s b, insert_execution_ok (promoted now w f) u ins)

  -- A promotion adds no waiter.
  pub promote_locked-waiters :
      (P : Waiter → Type 0) (s t : Db)
      → All P s.waiters
      → promote_locked now rid m k s ≡ ok t
      → All P t.waiters
  unfolding promote_locked drop_expired
  promote_locked-waiters P s t fit h =
      let line =
        select_where (λ w. waits_in m k w && still_waits now w) (drop_expired now m k s).waiters in
      let kept = All-delete_where P (λ w. waits_in m k w && leb w.expires_at now) s.waiters fit in
      elim (Option-cases (oldest line)) [
        | inl empty ↦ subst (All P) (ground arith) kept
        | inr (w, chosen) ↦
            elim (Bool-cases (
              lebℤ (at_least_one w.max_active)
                (pos (count_live now m k (drop_expired now m k s))))) [
                  | inl full ↦ subst (All P) (ground arith) kept
                  | inr room ↦
                      subst (All P)
                        (sym (promote_waiter-waiters w (drop_expired now m k s) t (ground arith)))
                        (All-delete_where P _ _ kept)
                ]
      ]
