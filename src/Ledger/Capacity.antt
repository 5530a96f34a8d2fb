-- ===== src/Ledger/Capacity.antt =====
-- Each move keeps the number of live leases of a domain within its capacity.
use bruiser_gateway.Prelude.{
  ℕ, suc, ◌+◌, ◌≤◌, ◌≡◌, subst, Bool, false, ◌&&◌, not, List, [], ◌∷◌, ◌++◌, arith, Text,
  count_where, update_where, count_where_mono, count_where-append, count_where_split,
  count_where_only, count_where-update_le, count_where-update_off, inl, inr, ◌⊎◌,
}
use bruiser_gateway.Lease.{Execution, is_live}
use bruiser_gateway.Store.{Db, in_domain, has_id}
use bruiser_gateway.Store.Promote.{count_live}
use bruiser_gateway.Ledger.{
  SameLease, Ends, Within, Move, keep, open_domain, grant, extend, finish, expire, replace,
}
use bruiser_gateway.Ledger.Fences.{SameLease-in_domain, in_domain_eq}
use bruiser_gateway.Ledger.Unique.{IsUnique}

abbrev pub live_in : ℕ → Text → Text → Execution → Bool
live_in now m k r = in_domain m k r && is_live now r

-- A row that ends is live in no domain.
pub Ends-live_in :
    (now : ℕ) (m k : Text) {r r' : Execution} → Ends r r' → live_in now m k r' ≡ false
unfolding is_live
Ends-live_in now m k {r' = r'} e = ground (arith, e.closed)

-- An extension of a live lease keeps the count of live leases from growing.
extend-live-le :
    (now : ℕ) (m k x : Text) (q : Execution → Bool) (g : Execution → Execution)
    (es : List Execution)
    → IsUnique es
    → Within x q
    → 1 ≤ count_where (λ r. q r && is_live now r) es
    → ((r : Execution) → SameLease r (g r))
    → count_where (live_in now m k) (update_where q g es) ≤ count_where (live_in now m k) es
extend-live-le now m k x q g es v w live same = omega (
  arith,
  count_where-update_le (in_domain m k) (is_live now) q g es
      (λ r. SameLease-in_domain m k (same r)),
  count_where_split (λ r. q r && in_domain m k r) (is_live now) es,
  count_where_mono (λ r. q r && in_domain m k r && is_live now r)
      (λ r. q r && (in_domain m k r && is_live now r)) es (λ r h. ground arith),
  count_where_only (is_live now) q (λ r. q r && in_domain m k r && not (is_live now r)) es one live
      (λ r h. ground arith),
)
  where
    one : count_where q es ≤ 1
    one = omega (arith, v x, count_where_mono q (has_id x) es w)

finish-live-le :
    (now : ℕ) (m k : Text) (q : Execution → Bool) (g : Execution → Execution) (es : List Execution)
    → ((r : Execution) → Ends r (g r))
    → count_where (live_in now m k) (update_where q g es)
        + count_where (λ r. q r && live_in now m k r) es
      ≡ count_where (live_in now m k) es
finish-live-le now m k q g es ends =
    count_where-update_off (live_in now m k) q g es (λ r. Ends-live_in now m k (ends r))

-- The new row of a grant counts in its own domain only.
new_row-live :
    (now : ℕ) (m k : Text) (e : Execution) (es : List Execution)
    → (count_where (live_in now m k) (es ++ e ∷ []) ≡ count_where (live_in now m k) es)
      ⊎ ((e.merchant_id ≡ m)
          × (e.domain_key ≡ k)
          × (count_where (live_in now m k) (es ++ e ∷ []) ≤ suc (count_where (live_in now m k) es)))
new_row-live now m k e es =
    ground (arith, count_where-append (live_in now m k) es e, in_domain_eq m k e)

-- A successor takes the place of the lease that it ends.
replace-live-le :
    (now : ℕ) (m k x : Text) (g : Execution → Execution) (e : Execution) (es : List Execution)
    → 1 ≤ count_where (λ r. has_id x r && live_in now e.merchant_id e.domain_key r) es
    → ((r : Execution) → Ends r (g r))
    → count_where (live_in now m k) (update_where (has_id x) g (es ++ e ∷ []))
      ≤ count_where (live_in now m k) es
replace-live-le now m k x g e es live ends = elim (new_row-live now m k e es) [
  | inl same ↦ omega (arith, same, finish-live-le now m k (has_id x) g (es ++ e ∷ []) ends)
  | inr (a, b, grown) ↦ omega (
    arith,
    grown,
    finish-live-le now m k (has_id x) g (es ++ e ∷ []) ends,
    count_where-append (λ r. has_id x r && live_in now m k r) es e,
    subst (λ m'. 1 ≤ count_where (λ r. has_id x r && live_in now m' k r) es) a
        (subst (λ k'. 1 ≤ count_where (λ r. has_id x r && live_in now e.merchant_id k' r) es) b
          live),
  )
]

module _ {cap : Text → Text → ℕ} {now : ℕ} where
  pub Move-capacity :
      {s t : Db}
      → Move cap now s t
      → IsUnique s.executions
      → (m k : Text) → count_live now m k s ≤ cap m k
      → count_live now m k t ≤ cap m k
  unfolding count_live
  Move-capacity (keep e _) v m k h = rw e h
  Move-capacity (open_domain _ _ _ e _) v m k h = rw e h
  Move-capacity {s = s} (grant e u _ room _ _ eq _) v m k h =
      rw eq (ground (arith, new_row-live now m k e s.executions))
  Move-capacity {s = s} (extend x q g w live same eq _) v m k h =
      rw eq (omega (arith, extend-live-le now m k x q g s.executions v w live (λ r. (same r).same)))
  Move-capacity {s = s} (finish x q g _ _ ends eq _) v m k h =
      rw eq (omega (arith, finish-live-le now m k q g s.executions ends))
  Move-capacity {s = s} (expire x g _ ends eq _) v m k h =
      rw eq (omega (arith, finish-live-le now m k _ g s.executions ends))
  Move-capacity {s = s} (replace e u x g _ _ _ live ends eq _) v m k h =
      rw eq (omega (arith, replace-live-le now m k x g e s.executions live ends))
