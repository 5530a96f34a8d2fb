-- ===== src/Ledger/Ended.antt =====
-- A lease that has ended is never touched again.
use bruiser_gateway.Prelude.{
  ℕ, ◌≤◌, Bool, ◌&&◌, not, List, [], ◌∷◌, ◌++◌, arith, Text, count_where, update_where,
  count_where_mono, count_where-append, count_where_only, count_where-never,
  count_where-update_miss,
}
use bruiser_gateway.Lease.{Execution, is_live, is_active}
use bruiser_gateway.Store.{Db, in_domain, has_id}
use bruiser_gateway.Ledger.{Within, Move, keep, open_domain, grant, extend, finish, expire, replace}
use bruiser_gateway.Ledger.Unique.{IsUnique, append-IsUnique}

-- The ended rows that a further test picks out.
abbrev pub ended_with : (Execution → Bool) → Execution → Bool
ended_with p r = not (is_active r.state) && p r

module _ (now : ℕ) (x : Text) (q : Execution → Bool) (es : List Execution)
    (p : Execution → Bool) where
  -- An update within one live lease reaches no ended row.
  live_update-ended-le :
      (g : Execution → Execution)
      → IsUnique es
      → Within x q
      → 1 ≤ count_where (λ r. q r && is_live now r) es
      → count_where (ended_with p) es ≤ count_where (ended_with p) (update_where q g es)
  live_update-ended-le g v w live = count_where-update_miss (ended_with p) q g es (
      count_where_only (is_live now) q (λ r. q r && ended_with p r) es
        (omega (arith, v x, count_where_mono q (has_id x) es w)) live
        (unfold is_live in λ r h. ground arith))

module _ {cap : Text → Text → ℕ} {now : ℕ} where
  pub Move-ended-le :
      {s t : Db}
      → Move cap now s t
      → IsUnique s.executions
      → (p : Execution → Bool)
      → count_where (ended_with p) s.executions ≤ count_where (ended_with p) t.executions
  Move-ended-le (keep e _) v p = rw e (omega arith)
  Move-ended-le (open_domain _ _ _ e _) v p = rw e (omega arith)
  Move-ended-le {s = s} (grant e u _ _ _ _ eq _) v p =
      rw eq (omega (arith, count_where-append (ended_with p) s.executions e))
  Move-ended-le {s = s} (extend x q g w live _ eq _) v p =
      rw eq (live_update-ended-le now x q s.executions p g v w live)
  Move-ended-le {s = s} (finish x q g w live _ eq _) v p =
      rw eq (live_update-ended-le now x q s.executions p g v w live)
  Move-ended-le {s = s} (expire x g _ _ eq _) v p = rw eq (
      count_where-update_miss (ended_with p) _ g s.executions
        (count_where-never _ s.executions (λ r. ground arith)))
  Move-ended-le {s = s} (replace e u x g _ new _ live _ eq _) v p = rw eq (
      omega (
        arith,
        count_where-append (ended_with p) s.executions e,
        live_update-ended-le now x (has_id x) (s.executions ++ e ∷ []) p g
            (append-IsUnique s.executions e new v) (λ r h. h)
            (omega (
              arith,
              count_where-append (λ r. has_id x r && is_live now r) s.executions e,
              count_where_mono
                  (λ r. has_id x r && (in_domain e.merchant_id e.domain_key r && is_live now r))
                  (λ r. has_id x r && is_live now r) s.executions (λ r h. ground arith),
            )),
      ))
