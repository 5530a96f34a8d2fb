-- ===== src/Budget/Spending.antt =====
-- How much an execution can spend.
use bruiser_gateway.Prelude.{
  ℕ, suc, ◌≤◌, ◌≡◌, arith, some, List, [], ◌∷◌, Text, pos, select_row, update_where, min, length,
  ◌-◌, Bool-cases, inl, inr,
}
use bruiser_gateway.Budget.{
  BudgetRow, BudgetTable, is_of, use_one, has_budget, BudgetResult, over_budget, used, consume_op,
}

abbrev let_through : BudgetResult → ℕ → ℕ
let_through over_budget n = n
let_through (used _ _) n = suc n

-- Operations, one after the other: the table, and how many of them were let through.
unfoldable pub consume_all : Text → List Text → BudgetTable → BudgetTable × ℕ
consume_all x [] t = (t, 0)
consume_all x (m ∷ ms) t =
    let (t', r) = consume_op m x t in let (t'', n) = consume_all x ms t' in (t'', let_through r n)

select_row-use_one :
    (x : Text) (t : BudgetTable) (r : BudgetRow)
    → select_row (is_of x) t ≡ some r
    → select_row (is_of x) (update_where (is_of x) use_one t) ≡ some (use_one r)
unfolding select_row update_where is_of use_one
select_row-use_one x [] r h = absurd (ground arith)
select_row-use_one x (q ∷ qs) r h = ground (arith, select_row-use_one x qs r)

-- A budget is spent and never overspent. Of any run of operations of one execution with a maximum of M > 0 of which U are used, exactly the lesser of the run's length and M - U are let through.
pub consume_all-budget :
    (x : Text) (ms : List Text) (t : BudgetTable) (r : BudgetRow) (max : ℕ)
    → select_row (is_of x) t ≡ some r
    → r.max_ops ≡ pos (suc max)
    → r.ops_used ≤ suc max
    → (consume_all x ms t).1 ≡ min (length ms) (suc max - r.ops_used)
unfolding consume_all consume_op has_budget use_one
consume_all-budget x [] t r max h m u = ground arith
consume_all-budget x (c ∷ cs) t r max h m u = elim (Bool-cases (has_budget r)) [
  | inl more ↦ ground (
    arith,
    consume_all-budget x cs (update_where (is_of x) use_one t) (use_one r) max
        (select_row-use_one x t r h) m (ground arith),
  )
  | inr spent ↦ ground (arith, consume_all-budget x cs t r max h m u)
]
