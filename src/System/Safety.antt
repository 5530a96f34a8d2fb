-- ===== src/System/Safety.antt =====
-- What holds of the lease store after any history of transactions.
use bruiser_gateway.Prelude.{
  ℕ, ◌≤◌, ◌≡◌, Bool, ◌&&◌, arith, List, [], ◌∷◌, Text, refl, count_where, ltb, ◌==◌,
}
use bruiser_gateway.Lease.{Execution}
use bruiser_gateway.Store.{Db, in_domain, has_id}
use bruiser_gateway.Store.Promote.{count_live}
use bruiser_gateway.Ledger.{Inv, fence_of}
use bruiser_gateway.Ledger.Ended.{ended_with}
use bruiser_gateway.Ledger.Promises.{Inv-later, Moves-Inv, Moves-fence_of-le, Moves-ended-le}
use bruiser_gateway.Refinement.Capacities.{WaitersFit}
use bruiser_gateway.System.{Call, step, run, empty_db, InOrder, CallFits, CallsFit, last_time}
use bruiser_gateway.System.Steps.{step-Refines}

-- What a history needs of the tables that it starts from, at a time.
pub record Ready (cap : Text → Text → ℕ) (now : ℕ) (db : Db) : Type 0 where
  pub inv : Inv cap now db
  pub waiters : WaitersFit cap db

module _ (cap : Text → Text → ℕ) where
  pub empty_db-Ready : (now : ℕ) → Ready cap now empty_db
  unfolding count_where count_live
  empty_db-Ready now = record {
    inv = record {
      unique = λ x. omega arith;
      below_fence = λ m k. refl;
      distinct_fences = λ m k f. omega arith;
      within_capacity = λ m k. omega arith;
    };
    waiters = tt;
  }

  pub step-Ready :
      (now : ℕ) (c : Call) (db : Db)
      → CallFits cap c
      → Ready cap now db
      → Ready cap now (step now c db)
  step-Ready now c db f v =
      let r = step-Refines cap now c db f v.inv.unique v.waiters in
      record { inv = Moves-Inv v.inv r.moves; waiters = r.waiters }

  pub Ready-later : (now later : ℕ) (db : Db) → now ≤ later → Ready cap now db → Ready cap later db
  Ready-later now later db h v = record { inv = Inv-later later h v.inv; waiters = v.waiters }

  pub run-Ready :
      (since : ℕ) (cs : List (ℕ × Call)) (db : Db)
      → InOrder since cs
      → CallsFit cap cs
      → Ready cap since db
      → Ready cap (last_time since cs) (run cs db)
  unfolding run
  run-Ready since [] db o f v = v
  run-Ready since ((now, c) ∷ cs) db o f v =
      run-Ready now cs (step now c db) o.1 f.1
        (step-Ready now c db f.0 (Ready-later since now db o.0 v))

  -- Mutual exclusion. From empty tables, after any transactions that start in the order in which they take effect and ask for no more than the capacity of their domains, and at every time from the last of them on, no domain has more live leases than its capacity.
  pub run-count_live-le :
      (since : ℕ) (cs : List (ℕ × Call)) (later : ℕ) (m k : Text)
      → InOrder since cs
      → CallsFit cap cs
      → last_time since cs ≤ later
      → count_live later m k (run cs empty_db) ≤ cap m k
  run-count_live-le since cs later m k o f h =
      let v = Inv-later later h (run-Ready since cs empty_db o f (empty_db-Ready since)).inv in
      v.within_capacity m k

  -- Fencing. From empty tables, after any transactions that start in the order in which they take effect and ask for no more than the capacity of their domains, a domain has given each fence to one execution at most, and none above its own current fence; and no two executions have one id.
  pub run-fences :
      (since : ℕ) (cs : List (ℕ × Call)) (m k x : Text) (f : ℕ)
      → InOrder since cs
      → CallsFit cap cs
      → let db = run cs empty_db in
        (count_where (λ r. in_domain m k r && r.fence == f) db.executions ≤ 1)
        × (count_where (λ r. in_domain m k r && ltb (fence_of m k db) r.fence) db.executions ≡ 0)
        × (count_where (has_id x) db.executions ≤ 1)
  run-fences since cs m k x f o fit =
      let v = (run-Ready since cs empty_db o fit (empty_db-Ready since)).inv in
      (v.distinct_fences m k f, v.below_fence m k, v.unique x)

  -- The fence of a domain never falls. From tables in which the promises hold, whatever transactions follow in the order in which they start, within the capacity of their domains, the fence of each domain is no lower after them.
  pub run-fence_of-le :
      (since : ℕ) (cs : List (ℕ × Call)) (db : Db) (m k : Text)
      → InOrder since cs
      → CallsFit cap cs
      → Ready cap since db
      → fence_of m k db ≤ fence_of m k (run cs db)
  unfolding run
  run-fence_of-le since [] db m k o f v = omega arith
  run-fence_of-le since ((now, c) ∷ cs) db m k o f v =
      let w = Ready-later since now db o.0 v in
      let r = step-Refines cap now c db f.0 w.inv.unique w.waiters in
      omega (
        arith,
        Moves-fence_of-le r.moves m k,
        run-fence_of-le now cs (step now c db) m k o.1 f.1 (step-Ready now c db f.0 w),
      )

  -- An ended lease is final. From tables in which the promises hold, whatever transactions follow in the order in which they start, within the capacity of their domains, the ended rows that pass any given test are as many or more after them.
  pub run-ended-le :
      (since : ℕ) (cs : List (ℕ × Call)) (db : Db) (p : Execution → Bool)
      → InOrder since cs
      → CallsFit cap cs
      → Ready cap since db
      → count_where (ended_with p) db.executions ≤ count_where (ended_with p) (run cs db).executions
  unfolding run
  run-ended-le since [] db p o f v = omega arith
  run-ended-le since ((now, c) ∷ cs) db p o f v =
      let w = Ready-later since now db o.0 v in
      let r = step-Refines cap now c db f.0 w.inv.unique w.waiters in
      omega (
        arith,
        Moves-ended-le w.inv r.moves p,
        run-ended-le now cs (step now c db) p o.1 f.1 (step-Ready now c db f.0 w),
      )
