-- ===== src/Outcomes/Ended.antt =====
-- Release and revocation: internal/store/postgres/mutate.go, and what follows them.
use bruiser_gateway.Prelude.{
  ℕ, ◌≤◌, ◌≡◌, Bool, true, false, ◌&&◌, not, List, [], ◌∷◌, arith, Text, text, text_eq, text_eq_iff,
  is_empty, refl, subst, inl, inr, Bool-cases, select_row_holds, count_where, update_where,
  count_where_only, count_where_mono, count_where_found,
}
use bruiser_gateway.Lease.{
  State, released, revoked, ok, Execution, >>=-eq-ok, is_live, is_active, or_fail, not_found,
  not_holder, guard,
}
use bruiser_gateway.Store.{
  Db, session, insert_audit, has_id, load_active_for_update, holder_matches,
}
use bruiser_gateway.Store.Acquire.{get}
use bruiser_gateway.Store.Mutate.{
  may_revoke, caller_of, close, close_row, end_execution, release, revoke,
}
use bruiser_gateway.Ledger.{done, next}
use bruiser_gateway.Ledger.Ended.{ended_with}
use bruiser_gateway.Ledger.Promises.{Moves-Inv, Moves-ended-le}
use bruiser_gateway.Refinement.Promote.{promote_locked-Moves}
use bruiser_gateway.Refinement.Mutate.{
  load_active_for_update_ok, end_execution_steps, release-Refines, revoke-Refines, close_row-Move,
}
use bruiser_gateway.Refinement.Acquire.{has_id_self}
use bruiser_gateway.System.{Call, run, InOrder, CallsFit}
use bruiser_gateway.System.Safety.{Ready, run-Ready, run-ended-le}

count_where-update_all :
    (p q : Execution → Bool) (g : Execution → Execution) (xs : List Execution)
    → ((r : Execution) → p r ≡ true → q (g r) ≡ true)
    → count_where p xs ≤ count_where q (update_where p g xs)
unfolding count_where update_where
count_where-update_all p q g [] h = omega arith
count_where-update_all p q g (r ∷ rs) h = ground (arith, h r, count_where-update_all p q g rs h)

close-ended :
    (now : ℕ) (state : State) (reason x : Text) (r : Execution)
    → is_active state ≡ false
    → has_id x r ≡ true
    → ended_with (has_id x) (close now state reason r) ≡ true
unfolding close has_id
close-ended now state reason x r c h = ground arith

-- The row that was loaded has the id that was asked for.
loaded_id :
    (now : ℕ) (m x : Text) (s : Db) (e : Execution)
    → load_active_for_update now m x s ≡ ok e
    → e.id ≡ x
unfolding has_id
loaded_id now m x s e h =
    let (found, _) = load_active_for_update_ok now m x s e h in
    (text_eq_iff e.id x).0 (
      ground
        (arith, select_row_holds (λ r. text_eq r.merchant_id m && has_id x r) s.executions found))

revoke_steps :
    (now : ℕ) (m x session_id rid reason : Text) (s t : Db) (r : Execution)
    → revoke now m x session_id rid reason s ≡ ok (t, r)
    → (why : Text) × (end_execution now m x [] rid revoked why false s ≡ ok (t, r))
unfolding revoke
revoke_steps now m x session_id rid reason s t r h = elim (Bool-cases (is_empty session_id)) [
  | inl admin ↦ (_, rw admin at h)
  | inr caller ↦
      let (e, _, h₁) = >>=-eq-ok (get now m x s) _ (rw caller at h) in
      let (c, _, h₂) = >>=-eq-ok (or_fail (session session_id s) not_holder) _ h₁ in
      let (_, _, h₃) = >>=-eq-ok (guard (text_eq c.customer_id e.customer_id) not_found) _ h₂ in
      let (_, _, h₄) =
        >>=-eq-ok (may_revoke (caller_of c) e (holder_matches e session_id s)) _ h₃ in
      (_, h₄)
]

module _ (cap : Text → Text → ℕ) (now : ℕ) where
  end_execution-ended :
      (m x session_id rid : Text) (state : State) (reason : Text) (must_holder : Bool) (s t : Db)
      (r : Execution)
      → is_active state ≡ false
      → Ready cap now s
      → end_execution now m x session_id rid state reason must_holder s ≡ ok (t, r)
      → 1 ≤ count_where (ended_with (has_id x)) t.executions
  unfolding close_row insert_audit
  end_execution-ended m x session_id rid state reason must_holder s t r c v h =
      let (k, e, loaded, p) =
        end_execution_steps now m x session_id rid state reason must_holder s t r h in
      let closed = close_row now rid state reason e s in
      let id = loaded_id now m x s e loaded in
      let move = next done (close_row-Move cap now m x rid state reason e s c loaded) in
      omega (
        arith,
        Moves-ended-le (Moves-Inv v.inv move)
            (promote_locked-Moves cap now rid m k closed t v.waiters p) (has_id x),
        count_where-update_all (has_id e.id) (ended_with (has_id x)) (close now state reason)
            s.executions
            (λ q k. close-ended now state reason x q c (subst (λ y. has_id y q ≡ true) id k)),
        count_where_found _ (has_id e.id) s.executions
            (load_active_for_update_ok now m x s e loaded).0 (has_id_self e),
      )

  -- What an ended row makes of every later history.
  ended-final :
      (x : Text) (t : Db) (cs : List (ℕ × Call)) (later : ℕ)
      → Ready cap now t
      → InOrder now cs
      → CallsFit cap cs
      → 1 ≤ count_where (ended_with (has_id x)) t.executions
      → count_where (λ r. has_id x r && is_live later r) (run cs t).executions ≡ 0
  unfolding is_live
  ended-final x t cs later v o f h =
      let final = run-Ready cap now cs t o f v in
      count_where_only (λ r. not (is_active r.state)) (has_id x)
        (λ r. has_id x r && is_live later r) (run cs t).executions (final.inv.unique x)
        (omega (
          arith,
          h,
          run-ended-le cap now cs t (has_id x) o f v,
          count_where_mono (ended_with (has_id x)) (λ r. has_id x r && not (is_active r.state))
              (run cs t).executions (λ r k. ground arith),
        ))
        (λ r k. ground arith)

  release_live :
      (m x session_id rid : Text) (s t : Db) (e r : Execution)
      → load_active_for_update now m x s ≡ ok e
      → release now m x session_id rid s ≡ ok (t, r)
      → end_execution now m x session_id rid released (text "RELEASED") true s ≡ ok (t, r)
  unfolding release get is_live
  release_live m x session_id rid s t e r loaded h =
      let (found, live) = load_active_for_update_ok now m x s e loaded in ground arith

  -- A released lease is over. Once a live lease has been released, from tables in which the promises hold, no history that follows in order and within capacity leaves a live lease of its id, at any time.
  pub release-final :
      (m x session_id rid : Text) (s t : Db) (e r : Execution) (cs : List (ℕ × Call)) (later : ℕ)
      → Ready cap now s
      → load_active_for_update now m x s ≡ ok e
      → release now m x session_id rid s ≡ ok (t, r)
      → InOrder now cs
      → CallsFit cap cs
      → count_where (λ q. has_id x q && is_live later q) (run cs t).executions ≡ 0
  release-final m x session_id rid s t e r cs later v loaded h o f =
      let made = release-Refines cap now m x session_id rid s t r v.waiters h in
      let after : Ready cap now t = record {
        inv = Moves-Inv v.inv made.moves;
        waiters = made.waiters;
      } in
      ended-final x t cs later after o f (
        end_execution-ended m x session_id rid released _ true s t r refl v
          (release_live m x session_id rid s t e r loaded h))

  -- A revoked lease is over. Once a lease has been revoked, from tables in which the promises hold, no history that follows in order and within capacity leaves a live lease of its id, at any time.
  pub revoke-final :
      (m x session_id rid reason : Text) (s t : Db) (r : Execution) (cs : List (ℕ × Call))
      (later : ℕ)
      → Ready cap now s
      → revoke now m x session_id rid reason s ≡ ok (t, r)
      → InOrder now cs
      → CallsFit cap cs
      → count_where (λ q. has_id x q && is_live later q) (run cs t).executions ≡ 0
  revoke-final m x session_id rid reason s t r cs later v h o f =
      let made = revoke-Refines cap now m x session_id rid reason s t r v.waiters h in
      let after : Ready cap now t = record {
        inv = Moves-Inv v.inv made.moves;
        waiters = made.waiters;
      } in
      let (why, ended) = revoke_steps now m x session_id rid reason s t r h in
      ended-final x t cs later after o f
        (end_execution-ended m x [] rid revoked why false s t r refl v ended)
