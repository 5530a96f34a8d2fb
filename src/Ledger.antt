-- ===== src/Ledger.antt =====
-- What internal/store/postgres promises of the tables `executions` and `domains`, with the queue,
-- the sessions and the audit left out: the moves that one transaction makes, at its `now()`.
-- `cap` gives the capacity of each domain, the `max_active` of its rule.
pub mod Fences
pub mod Unique
pub mod Order
pub mod Capacity
pub mod Ended
pub mod Promises
use bruiser_gateway.Prelude.{
  ℕ, suc, ◌≤◌, ◌<◌, ◌≡◌, refl, Option, none, some, Bool, true, false, ◌&&◌, List, [], ◌∷◌, ◌++◌,
  Text, select_row, count_where, update_where, any_where, ltb, ◌==◌,
}
use bruiser_gateway.Lease.{State, active, Execution, is_live, is_active, ok}
use bruiser_gateway.Store.{Db, Domain, is_domain, in_domain, has_id, bump_fence}
use bruiser_gateway.Store.Promote.{count_live}

unfoldable pub fence_of : Text → Text → Db → ℕ
fence_of m k db = elim (select_row (is_domain m k) db.domains) [ none ↦ 0 | some d ↦ d.fence ]

-- A row after an update is the row of the same lease.
pub record SameLease (r r' : Execution) : Type 0 where
  pub id : r'.id ≡ r.id
  pub merchant_id : r'.merchant_id ≡ r.merchant_id
  pub domain_key : r'.domain_key ≡ r.domain_key
  pub customer_id : r'.customer_id ≡ r.customer_id
  pub fence : r'.fence ≡ r.fence
  pub max_lifetime_at : r'.max_lifetime_at ≡ r.max_lifetime_at

pub record Extends (r r' : Execution) : Type 0 where
  pub same : SameLease r r'
  pub state : r'.state ≡ r.state
  pub in_lifetime : r'.expires_at ≤ r'.max_lifetime_at

pub record Ends (r r' : Execution) : Type 0 where
  pub same : SameLease r r'
  pub closed : is_active r'.state ≡ false

-- The test `q` reaches rows of the lease `x` only.
abbrev pub Within : Text → (Execution → Bool) → Type 0
Within x q = (r : Execution) → q r ≡ true → has_id x r ≡ true

module _ (cap : Text → Text → ℕ) (now : ℕ) where
  pub data Move (s t : Db) : Type 0 where
    keep : t.executions ≡ s.executions → t.domains ≡ s.domains → Move s t
    open_domain :
        (d : Domain)
        → d.fence ≡ 0
        → any_where (is_domain d.merchant_id d.domain_key) s.domains ≡ false
        → t.executions ≡ s.executions
        → t.domains ≡ s.domains ++ d ∷ []
        → Move s t
    grant :
        (e : Execution) (u : Db)
        → e.state ≡ active
        → count_live now e.merchant_id e.domain_key s < cap e.merchant_id e.domain_key
        → any_where (has_id e.id) s.executions ≡ false
        → bump_fence now e.merchant_id e.domain_key s ≡ ok (e.fence, u)
        → t.executions ≡ s.executions ++ e ∷ []
        → t.domains ≡ u.domains
        → Move s t
    extend :
        (x : Text) (q : Execution → Bool) (g : Execution → Execution)
        → Within x q
        → 1 ≤ count_where (λ r. q r && is_live now r) s.executions
        → ((r : Execution) → Extends r (g r))
        → t.executions ≡ update_where q g s.executions
        → t.domains ≡ s.domains
        → Move s t
    finish :
        (x : Text) (q : Execution → Bool) (g : Execution → Execution)
        → Within x q
        → 1 ≤ count_where (λ r. q r && is_live now r) s.executions
        → ((r : Execution) → Ends r (g r))
        → t.executions ≡ update_where q g s.executions
        → t.domains ≡ s.domains
        → Move s t
    expire :
        (x : Text) (g : Execution → Execution)
        → count_where (λ r. has_id x r && is_live now r) s.executions ≡ 0
        → ((r : Execution) → Ends r (g r))
        → t.executions ≡ update_where (λ r. has_id x r && is_active r.state) g s.executions
        → t.domains ≡ s.domains
        → Move s t
    replace :
        (e : Execution) (u : Db) (x : Text) (g : Execution → Execution)
        → e.state ≡ active
        → any_where (has_id e.id) s.executions ≡ false
        → bump_fence now e.merchant_id e.domain_key s ≡ ok (e.fence, u)
        → 1
          ≤ count_where
              (λ r. has_id x r && (in_domain e.merchant_id e.domain_key r && is_live now r))
              s.executions
        → ((r : Execution) → Ends r (g r))
        → t.executions ≡ update_where (has_id x) g (s.executions ++ e ∷ [])
        → t.domains ≡ u.domains
        → Move s t

  pub data Moves (s : Db) : Db → Type 0 where
    done : Moves s s
    next : {t u : Db} → Moves s t → Move t u → Moves s u

-- The promises.
pub record Inv (cap : Text → Text → ℕ) (now : ℕ) (db : Db) : Type 0 where
  pub unique : (x : Text) → count_where (has_id x) db.executions ≤ 1
  pub below_fence :
      (m k : Text)
      → count_where (λ r. in_domain m k r && ltb (fence_of m k db) r.fence) db.executions ≡ 0
  pub distinct_fences :
      (m k : Text) (f : ℕ) → count_where (λ r. in_domain m k r && r.fence == f) db.executions ≤ 1
  pub within_capacity : (m k : Text) → count_live now m k db ≤ cap m k
