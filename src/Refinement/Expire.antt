-- ===== src/Refinement/Expire.antt =====
-- The sweeps: expiry of leases and of waiters.
use bruiser_gateway.Prelude.{
  ℕ, ◌≤◌, ◌≡◌, Bool, true, ◌&&◌, List, [], ◌∷◌, arith, Text, text_eq, ℤ, All, All-mono, All-counted,
  refl, sym, ◌∙◌, ap, subst, and-eq-true, select_where, count_where, update_where, count_where_only,
  count_where-update_off,
}
use bruiser_gateway.Lease.{expired, ok, Execution, >>=-eq-ok, is_live}
use bruiser_gateway.Store.{Db, Waiter, in_domain, insert_audit, has_id, lock_domain}
use bruiser_gateway.Store.Promote.{promote_locked, delete_waiter, expire_waiters}
use bruiser_gateway.Store.Promote
use bruiser_gateway.Store.Mutate.{close, is_due, expire_each, expire_and_promote_domain}
use bruiser_gateway.Ledger.{keep, expire, Moves, done, next}
use bruiser_gateway.Ledger.Unique.{IsUnique}
use bruiser_gateway.Refinement.Capacities.{
  Fits, WaitersFit, Refines, All-delete_where, All-select_where,
}
use bruiser_gateway.Refinement.Promote.{promote_locked-Moves, promote_locked-waiters}
use bruiser_gateway.Refinement.Acquire.{has_id_self}
use bruiser_gateway.Refinement.Mutate.{close-Ends, Moves-trans}

-- No row of the lease is live.
abbrev NotLive : ℕ → List Execution → Execution → Type 0
NotLive now es d = count_where (λ r. has_id d.id r && is_live now r) es ≡ 0

due_is_over :
    (now : ℕ) (es : List Execution) (d : Execution)
    → IsUnique es
    → ((q : Execution → Bool) → q d ≡ true → 1 ≤ count_where q es)
    → is_due now d ≡ true
    → NotLive now es d
due_is_over now es d v counted due =
    count_where_only (is_due now) (has_id d.id) (λ r. has_id d.id r && is_live now r) es (v d.id)
      (counted (λ r. has_id d.id r && is_due now r) (rw (has_id_self d, due)))
      (unfold is_due is_live in λ r h. ground arith)

module _ (cap : Text → Text → ℕ) (now : ℕ) where
  -- Closing rows makes none live.
  still_over :
      (q : Execution → Bool) (reason : Text) (es : List Execution) (d : Execution)
      → NotLive now es d
      → NotLive now (update_where q (close now expired reason) es) d
  unfolding close is_live
  still_over q reason es d h = omega (
    arith,
    h,
    count_where-update_off (λ r. has_id d.id r && is_live now r) q (close now expired reason) es
        (λ r. ground arith),
  )

  expire_each-Moves :
      (ds : List Execution) (s : Db)
      → All (NotLive now s.executions) ds
      → Moves cap now s (expire_each now ds s)
  unfolding expire_each insert_audit
  expire_each-Moves [] s h = done
  expire_each-Moves (d ∷ ds) s h =
      Moves-trans
        (next done
          (expire d.id (close now expired _) h.0 (λ r. close-Ends now expired _ r refl) refl refl))
        (expire_each-Moves ds _ (All-mono _ _ ds (λ y z. still_over _ _ s.executions y z) h.1))

  expire_each-waiters : (ds : List Execution) (s : Db) → (expire_each now ds s).waiters ≡ s.waiters
  unfolding expire_each insert_audit
  expire_each-waiters [] s = refl
  expire_each-waiters (d ∷ ds) s = expire_each-waiters ds _

  -- One domain: its due leases expire, and its queue moves up.
  pub expire_and_promote_domain-Refines :
      (m k : Text) (s t : Db) (n : ℕ)
      → IsUnique s.executions
      → WaitersFit cap s
      → expire_and_promote_domain now m k s ≡ ok (t, n)
      → Refines cap now s t
  unfolding expire_and_promote_domain
  expire_and_promote_domain-Refines m k s t n v fit h =
      let (_, _, h₁) = >>=-eq-ok (lock_domain m k s) _ h in
      let dues = select_where (λ e. in_domain m k e && is_due now e) s.executions in
      let (u, p, h₂) = >>=-eq-ok (promote_locked now [] m k (expire_each now dues s)) _ h₁ in
      let p' : promote_locked now [] m k (expire_each now dues s) ≡ ok t =
        p ∙ ap ok (ground arith) in
      let fit' = subst (All (Fits cap)) (sym (expire_each-waiters dues s)) fit in
      record {
        moves =
            Moves-trans
              (expire_each-Moves dues s (
                All-mono _ _ dues
                  (λ d c. due_is_over now s.executions d v c.0 (and-eq-true _ _ c.1).1)
                  (All-select_where _ _ s.executions (All-counted s.executions))))
              (promote_locked-Moves cap now [] m k _ t fit' p');
        waiters = promote_locked-waiters now [] m k (Fits cap) _ t fit' p';
      }

  expire_waiters-each :
      (ws : List Waiter) (s : Db) → WaitersFit cap s → Refines cap now s (Promote.expire_each ws s)
  unfolding Promote.expire_each insert_audit delete_waiter
  expire_waiters-each [] s fit = record { moves = done; waiters = fit }
  expire_waiters-each (w ∷ ws) s fit =
      let rest =
        expire_waiters-each ws _
          (All-delete_where (Fits cap) (λ v. text_eq v.id w.id) s.waiters fit) in
      record { moves = Moves-trans (next done (keep refl refl)) rest.moves; waiters = rest.waiters }

  pub expire_waiters-Refines :
      (limit : ℤ) (s : Db) → WaitersFit cap s → Refines cap now s (expire_waiters now limit s).0
  unfolding expire_waiters
  expire_waiters-Refines limit s fit = expire_waiters-each _ s fit
