-- ===== src/Scenarios/Guards.antt =====
-- The cache before the store, budgets and one-shot keys at concrete states.
use bruiser_gateway.Prelude.{
  suc, ◌≡◌, ◌⊎◌, ◌-◌, min, length, refl, Bool, true, List, [], ◌∷◌, Text, text, arith, pos, ltb,
  delete_where,
}
use bruiser_gateway.Lease.{Result, AcquireRequest, AcquireResult, Execution, released}
use bruiser_gateway.Store.{Db}
use bruiser_gateway.Store.Acquire.{new_execution, with_defaults}
use bruiser_gateway.Store.Acquire
use bruiser_gateway.Store.Mutate.{close}
use bruiser_gateway.Store.Mutate
use bruiser_gateway.Store.Handoff
use bruiser_gateway.System.{empty_db}
use bruiser_gateway.Cache
use bruiser_gateway.Cache.{Inner, Cache, new_busy_cache, local_busy, CacheItem}
use bruiser_gateway.Cache.Answers.{FromStore, FromItem, acquire-source}
use bruiser_gateway.Budget.{
  BudgetTable, BudgetRow, ensure_budget, ReplayRow, replayed, claim_replay,
}
use bruiser_gateway.Budget
use bruiser_gateway.Budget.Spending.{consume_all, consume_all-budget}
use bruiser_gateway.Budget.Replays.{claim_replay-once}
use bruiser_gateway.Scenarios.{running, club, agent, request}

-- The store behind the cache, at fresh ids that tell of the time.
abbrev postgres : Inner Db
postgres = record {
  acquire = λ now req db. Acquire.acquire now (now ∷ []) req db;
  renew = λ now m x sid rid ttl db. Mutate.renew now m x sid rid ttl db;
  release = λ now m x sid rid db. Mutate.release now m x sid rid db;
  revoke = λ now m x sid rid reason db. Mutate.revoke now m x sid rid reason db;
  handoff = λ now req db. Handoff.handoff now (now ∷ []) (now ∷ now ∷ []) req db;
}

cached : Bool
unfolding running Cache.new_busy_cache Cache.cache_key Cache.at_least_one Cache.put Cache.remember
    Cache.remember_busy Cache.forget Cache.lookup Cache.learn Cache.local_busy Cache.answers
    Cache.refreshes Cache.ask Cache.consult Cache.acquire Cache.settle Cache.renew Cache.release
    Cache.revoke Cache.handoff
cached = true

abbrev asks : Text → AcquireRequest
asks x = record (request (agent x)) { max_waiters = pos 0 }

-- The cache after a's grant, and the store.
abbrev warm : Cache × Db × Result AcquireResult
warm = Cache.acquire postgres 1 (asks (text "a")) (new_busy_cache 0) empty_db

abbrev turned_away : Cache × Db × Result AcquireResult
turned_away = Cache.acquire postgres 2 (asks (text "b")) warm.0 warm.1

acquire-source_example :
    FromStore postgres 2 (asks (text "b")) warm.1 turned_away.1 turned_away.2
    ⊎ FromItem postgres 2 (asks (text "b")) warm.0 warm.1 turned_away.1 turned_away.2
acquire-source_example =
    acquire-source postgres 2 (asks (text "b")) warm.0 turned_away.0 warm.1 turned_away.1
      turned_away.2 refl

-- The second agent is turned away by the cache.
turned_away_hits : turned_away.0.hits ≡ 1
unfolding cached
turned_away_hits = refl

abbrev freed : Cache × Db × Result Execution
freed = Cache.release postgres 3 club (1 ∷ []) (text "a") [] turned_away.0 turned_away.1

abbrev over : Execution
over =
    close 3 released (text "RELEASED")
      (new_execution 1 (1 ∷ []) (with_defaults (asks (text "a"))) 1)

abbrev admitted : Cache × Db × Result AcquireResult
admitted = Cache.acquire postgres 4 (asks (text "b")) freed.0 freed.1

abbrev budgets : BudgetTable
budgets = ensure_budget club (text "e1") (pos 2) []

abbrev budget_row : BudgetRow
budget_row = record { execution_id = text "e1"; merchant_id = club; max_ops = pos 2; ops_used = 0 }

consume_all-budget_example :
    (consume_all (text "e1") (club ∷ club ∷ club ∷ []) budgets).1
    ≡ min (length {A = Text} (club ∷ club ∷ club ∷ [])) (suc 1 - budget_row.ops_used)
unfolding running Budget.is_of Budget.ensure_budget
consume_all-budget_example =
    consume_all-budget (text "e1") (club ∷ club ∷ club ∷ []) budgets budget_row 1 refl refl
      (omega arith)

abbrev seen : List ReplayRow
seen = (claim_replay 1 club (text "k") (text "assertion") (pos 0) []).0

claim_replay-once_example :
    claim_replay 600000000001 club (text "k") (text "assertion") (pos 5) seen
    ≡ (delete_where (λ r. ltb r.expires_at 600000000001) seen, replayed)
unfolding running Budget.claim_replay
claim_replay-once_example =
    claim_replay-once 1 600000000001 club (text "k") (text "assertion") (text "assertion") (pos 0)
      (pos 5) [] seen refl refl (omega arith)
