-- ===== src/Refinement/Grants.antt =====
-- A new fence and a new row are a grant of the ledger.
use bruiser_gateway.Prelude.{
  ℕ, ◌<◌, ◌≡◌, false, ◌&&◌, count_where, update_where, ◌≤◌, ◌∷◌, [], ◌++◌, arith, Text, ◌∙◌, ap,
  subst, any_where,
}
use bruiser_gateway.Lease.{active, is_live, ok, Execution}
use bruiser_gateway.Store.{Db, bump_fence, insert_execution, has_id, in_domain}
use bruiser_gateway.Store.Promote.{count_live}
use bruiser_gateway.Ledger.{Move, grant, replace, Ends}

-- The tables that no insertion but its own touches.
pub insert_execution_ok :
    (e : Execution) (s : Db) {t : Db}
    → insert_execution e s ≡ ok t
    → (any_where (has_id e.id) s.executions ≡ false)
      × (t ≡ record s { executions = s.executions ++ e ∷ [] })
unfolding insert_execution
insert_execution_ok e s h = ground arith

pub bump_fence_ok :
    (now : ℕ) (m k : Text) (s : Db) {f : ℕ} {u : Db}
    → bump_fence now m k s ≡ ok (f, u)
    → (u.executions ≡ s.executions) × (u.waiters ≡ s.waiters)
unfolding bump_fence
bump_fence_ok now m k s h = ground arith

-- A new fence, a new row of the domain and an audit event are a grant.
pub grant-Move :
    (cap : Text → Text → ℕ) (now : ℕ) (m k : Text) (e : Execution) (s u v t : Db)
    → e.state ≡ active
    → e.merchant_id ≡ m
    → e.domain_key ≡ k
    → count_live now m k s < cap m k
    → bump_fence now m k s ≡ ok (e.fence, u)
    → insert_execution e u ≡ ok v
    → t.executions ≡ v.executions
    → t.domains ≡ v.domains
    → Move cap now s t
grant-Move cap now m k e s u v t live em ek room b ins ex dom =
    let (new, ve) = insert_execution_ok e u ins in
    let (same, _) = bump_fence_ok now m k s b in
    grant e u live (ground arith) (subst (λ rows. any_where (has_id e.id) rows ≡ false) same new)
      (rw (em, ek) b) (ex ∙ ap (λ (d : Db). d.executions) ve ∙ ap (λ rows. rows ++ e ∷ []) same)
      (dom ∙ ap (λ (d : Db). d.domains) ve)

-- A new fence, a new row and the end of a live row of the same domain are a replacement.
pub replace-Move :
    (cap : Text → Text → ℕ) (now : ℕ) (m k x : Text) (g : Execution → Execution) (e : Execution)
    (s u v t : Db)
    → e.state ≡ active
    → e.merchant_id ≡ m
    → e.domain_key ≡ k
    → 1 ≤ count_where (λ r. has_id x r && (in_domain m k r && is_live now r)) s.executions
    → ((r : Execution) → Ends r (g r))
    → bump_fence now m k s ≡ ok (e.fence, u)
    → insert_execution e u ≡ ok v
    → t.executions ≡ update_where (has_id x) g v.executions
    → t.domains ≡ v.domains
    → Move cap now s t
replace-Move cap now m k x g e s u v t act em ek live ends b ins ex dom =
    let (new, ve) = insert_execution_ok e u ins in
    let (same, _) = bump_fence_ok now m k s b in
    replace e u x g act (subst (λ rows. any_where (has_id e.id) rows ≡ false) same new)
      (rw (em, ek) b) (rw (em, ek) live) ends
      (ex
        ∙ ap (λ (d : Db). update_where (has_id x) g d.executions) ve
        ∙ ap (λ rows. update_where (has_id x) g (rows ++ e ∷ [])) same)
      (dom ∙ ap (λ (d : Db). d.domains) ve)
