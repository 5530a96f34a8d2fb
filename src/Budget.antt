-- ===== src/Budget.antt =====
-- internal/store/postgres/rc1.go: the budget of an execution's protected operations, and the keys that
-- may be used once. The tables are those of migration 00006.
pub mod Spending
pub mod Replays
use bruiser_gateway.Prelude.{
  ℕ, suc, ◌+◌, Option, none, some, Bool, true, false, ◌&&◌, ◌||◌, List, [], ◌∷◌, ◌++◌,
  if◌then◌else◌, ltb, Text, text_eq, is_empty, ℤ, pos, negsuc, ltbℤ, lebℤ, select_row, update_where,
  delete_where, any_where,
}
use bruiser_gateway.Store.{milliseconds, plus_ms}

-- execution_budget; execution_id is the primary key.
pub record BudgetRow : Type 0 where
  pub execution_id : Text
  pub merchant_id : Text
  pub max_ops : ℤ
  pub ops_used : ℕ

abbrev pub BudgetTable : Type 0
BudgetTable = List BudgetRow

unfoldable pub is_of : Text → BudgetRow → Bool
is_of x r = text_eq r.execution_id x

unfoldable pub raise : ℤ → BudgetRow → BudgetRow
raise max_ops r = record r { max_ops = if ltbℤ r.max_ops max_ops then max_ops else r.max_ops }

unfoldable pub ensure_budget : Text → Text → ℤ → BudgetTable → BudgetTable
ensure_budget m x max_ops t =
    if any_where (is_of x) t
    then update_where (is_of x) (raise max_ops) t
    else t ++ record { execution_id = x; merchant_id = m; max_ops = max_ops; ops_used = 0 } ∷ []

-- max_ops = 0 or ops_used < max_ops.
unfoldable pub has_budget : BudgetRow → Bool
has_budget r = (lebℤ r.max_ops (pos 0) && lebℤ (pos 0) r.max_ops) || ltbℤ (pos r.ops_used) r.max_ops

unfoldable pub use_one : BudgetRow → BudgetRow
use_one r = record r { ops_used = r.ops_used + 1 }

-- The used and the maximal number of operations, or ErrBudget.
pub data BudgetResult : Type 0 where
  over_budget : BudgetResult
  used : ℕ → ℤ → BudgetResult

unfoldable pub consume_op : Text → Text → BudgetTable → BudgetTable × BudgetResult
consume_op m x t = elim (select_row (is_of x) t) [
  | none ↦ (
    t ++ record { execution_id = x; merchant_id = m; max_ops = pos 0; ops_used = 1 } ∷ [],
    used 1 (pos 0),
  )
  | some r ↦
      if has_budget r
      then (update_where (is_of x) use_one t, used (r.ops_used + 1) r.max_ops)
      else (t, over_budget)
]

-- replay_keys; merchant_id and replay_key together are the primary key.
pub record ReplayRow : Type 0 where
  pub merchant_id : Text
  pub replay_key : Text
  pub kind : Text
  pub expires_at : ℕ

unfoldable pub same_key : Text → Text → ReplayRow → Bool
same_key m key r = text_eq r.merchant_id m && text_eq r.replay_key key

-- ErrReplay, or no error.
pub data ReplayResult : Type 0 where
  claimed replayed : ReplayResult

abbrev pub ten_minutes : ℕ
ten_minutes = 600000000000

-- The two statements of ClaimReplay run at one time `now`.
unfoldable pub claim_replay :
    ℕ → Text → Text → Text → ℤ → List ReplayRow → List ReplayRow × ReplayResult
claim_replay now m key kind window₀ t₀ =
    if is_empty key
    then (t₀, claimed)
    else (let window = if lebℤ window₀ (pos 0) then pos ten_minutes else window₀ in
        let t = delete_where (λ r. ltb r.expires_at now) t₀ in
        if any_where (same_key m key) t then (t, replayed) else (
          t
              ++ record {
                merchant_id = m;
                replay_key = key;
                kind = kind;
                expires_at = plus_ms now (milliseconds window);
              }
                ∷ [],
          claimed,
        ))
