-- ===== src/Ledger/Unique.antt =====
-- The primary key of `executions` keeps the ids distinct.
use bruiser_gateway.Prelude.{
  ℕ, ◌≤◌, ◌≡◌, sym, ap, subst, Bool, false, List, [], ◌∷◌, ◌++◌, arith, Text, text_eq_iff,
  count_where, update_where, any_where, count_where-append, count_where-none,
  count_where-update_keep,
}
use bruiser_gateway.Lease.{Execution}
use bruiser_gateway.Store.{Db, has_id}
use bruiser_gateway.Ledger.{
  SameLease, Move, keep, open_domain, grant, extend, finish, expire, replace,
}
use bruiser_gateway.Ledger.Fences.{SameLease-has_id}

abbrev pub IsUnique : List Execution → Type 0
IsUnique es = (x : Text) → count_where (has_id x) es ≤ 1

pub append-IsUnique :
    (es : List Execution) (e : Execution)
    → any_where (has_id e.id) es ≡ false
    → IsUnique es
    → IsUnique (es ++ e ∷ [])
unfolding has_id
append-IsUnique es e new v x = ground (
  arith,
  count_where-append (has_id x) es e,
  count_where-none (has_id e.id) es new,
  text_eq_iff e.id x,
  v x,
  λ (p : e.id ≡ x). ap (λ (y : Text). count_where (has_id y) es) p,
)

update-IsUnique :
    (q : Execution → Bool) (g : Execution → Execution) (es : List Execution)
    → ((r : Execution) → SameLease r (g r))
    → IsUnique es
    → IsUnique (update_where q g es)
update-IsUnique q g es same v x =
    rw (count_where-update_keep (has_id x) q g es (λ r. SameLease-has_id x (same r))) (v x)

pub Move-IsUnique :
    {cap : Text → Text → ℕ} {now : ℕ} {s t : Db}
    → Move cap now s t
    → IsUnique s.executions
    → IsUnique t.executions
Move-IsUnique (keep e _) v = subst IsUnique (sym e) v
Move-IsUnique (open_domain d _ _ e _) v = subst IsUnique (sym e) v
Move-IsUnique {s = s} (grant e _ _ _ new _ eq _) v =
    subst IsUnique (sym eq) (append-IsUnique s.executions e new v)
Move-IsUnique {s = s} (extend x q g _ _ same eq _) v =
    subst IsUnique (sym eq) (update-IsUnique q g s.executions (λ r. (same r).same) v)
Move-IsUnique {s = s} (finish x q g _ _ same eq _) v =
    subst IsUnique (sym eq) (update-IsUnique q g s.executions (λ r. (same r).same) v)
Move-IsUnique {s = s} (expire x g _ same eq _) v =
    subst IsUnique (sym eq) (update-IsUnique _ g s.executions (λ r. (same r).same) v)
Move-IsUnique {s = s} (replace e _ x g _ new _ _ same eq _) v =
    subst IsUnique (sym eq)
      (update-IsUnique (has_id x) g _ (λ r. (same r).same) (append-IsUnique s.executions e new v))
