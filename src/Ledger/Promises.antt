-- ===== src/Ledger/Promises.antt =====
-- The promises hold after every move, and at every later time.
use bruiser_gateway.Prelude.{ℕ, ◌≤◌, Bool, ◌&&◌, arith, Text, count_where, count_where_mono}
use bruiser_gateway.Lease.{Execution, is_live}
use bruiser_gateway.Store.{Db, in_domain}
use bruiser_gateway.Store.Promote.{count_live}
use bruiser_gateway.Ledger.{Move, Moves, done, next, Inv, fence_of}
use bruiser_gateway.Ledger.Unique.{Move-IsUnique}
use bruiser_gateway.Ledger.Order.{Move-IsOrdered, Move-fence_of-le}
use bruiser_gateway.Ledger.Capacity.{Move-capacity}
use bruiser_gateway.Ledger.Ended.{ended_with, Move-ended-le}

-- Fewer leases are live later.
pub count_live-later :
    (now later : ℕ) (m k : Text) (db : Db)
    → now ≤ later
    → count_live later m k db ≤ count_live now m k db
unfolding count_live is_live
count_live-later now later m k db h =
    count_where_mono (λ e. in_domain m k e && is_live later e)
      (λ e. in_domain m k e && is_live now e) db.executions (λ e p. ground arith)

pub Inv-later :
    {cap : Text → Text → ℕ} {now : ℕ} {db : Db} (later : ℕ)
    → now ≤ later
    → Inv cap now db
    → Inv cap later db
Inv-later {cap} {now} {db} later h v = record {
  unique = v.unique;
  below_fence = v.below_fence;
  distinct_fences = v.distinct_fences;
  within_capacity =
      λ m k. omega (arith, count_live-later now later m k db h, v.within_capacity m k);
}

Move-Inv :
    {cap : Text → Text → ℕ} {now : ℕ} {s t : Db} → Move cap now s t → Inv cap now s → Inv cap now t
Move-Inv {s = s} m v =
    let o =
      Move-IsOrdered m
        (record { below_fence = v.below_fence; distinct_fences = v.distinct_fences }) in
    record {
      unique = Move-IsUnique m v.unique;
      below_fence = o.below_fence;
      distinct_fences = o.distinct_fences;
      within_capacity = λ n k. Move-capacity m v.unique n k (v.within_capacity n k);
    }

pub Moves-Inv :
    {cap : Text → Text → ℕ} {now : ℕ} {s t : Db} → Inv cap now s → Moves cap now s t → Inv cap now t
Moves-Inv v done = v
Moves-Inv v (next ms m) = Move-Inv m (Moves-Inv v ms)

pub Moves-fence_of-le :
    {cap : Text → Text → ℕ} {now : ℕ} {s t : Db}
    → Moves cap now s t
    → (m k : Text) → fence_of m k s ≤ fence_of m k t
Moves-fence_of-le done m k = omega arith
Moves-fence_of-le (next ms mv) m k =
    omega (arith, Moves-fence_of-le ms m k, Move-fence_of-le mv m k)

pub Moves-ended-le :
    {cap : Text → Text → ℕ} {now : ℕ} {s t : Db}
    → Inv cap now s
    → Moves cap now s t
    → (p : Execution → Bool)
    → count_where (ended_with p) s.executions ≤ count_where (ended_with p) t.executions
Moves-ended-le v done p = omega arith
Moves-ended-le v (next ms m) p =
    omega (arith, Moves-ended-le v ms p, Move-ended-le m (Moves-Inv v ms).unique p)
