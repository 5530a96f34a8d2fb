-- ===== src/Cache.antt =====
-- internal/lease/cache.go: the cache that answers BUSY before the store is asked.
pub mod Answers
use bruiser_gateway.Prelude.{
  ℕ, suc, ◌+◌, ◌%◌, Option, none, some, Bool, true, false, ◌&&◌, ◌||◌, not, List, [], ◌∷◌, ◌++◌,
  if◌then◌else◌, ltb, leb, ◌==◌, Text, text_eq, ℤ, pos, ltbℤ, pos_part, select_row, delete_where,
}
use bruiser_gateway.Lease.{
  Principal, Execution, AcquireRequest, AcquireResult, granted, already_held, busy, queued_at,
  denied, BusyInfo, HandoffRequest, HandoffResult, Result, ok, err,
}
use bruiser_gateway.Lease.Precedence.{same_principal, can_preempt_ranked}

-- The operations of lease.Store that the cache passes on, each at its time; an error changes nothing.
pub record Inner {ℓ} (S : Type ℓ) : Type ℓ where
  pub acquire : ℕ → AcquireRequest → S → Result (S × AcquireResult)
  pub renew :
      ℕ → (merchant_id execution_id session_id request_id : Text) → ℤ → S → Result (S × Execution)
  pub release :
      ℕ → (merchant_id execution_id session_id request_id : Text) → S → Result (S × Execution)
  pub revoke :
      ℕ
      → (merchant_id execution_id session_id request_id reason : Text) → S
      → Result (S × Execution)
  pub handoff : ℕ → HandoffRequest → S → Result (S × HandoffResult)

-- cacheItem; `maxActive` and `occupied` are at least 1.
pub record CacheItem : Type 0 where
  pub holder : Principal
  pub exe_id : Text
  pub expires_at : ℕ
  pub max_active : ℕ
  pub occupied : ℕ

-- BusyCache without its lock; `items` has the newest entry of a key first.
pub record Cache : Type 0 where
  pub hedge : ℕ
  pub items : List (Text × CacheItem)
  pub n : ℕ
  pub hits : ℕ
  pub miss : ℕ

abbrev pub uint64_size : ℕ
uint64_size = 18446744073709551616

abbrev pub increment : ℕ → ℕ
increment n = suc n % uint64_size

unfoldable pub new_busy_cache : ℕ → Cache
new_busy_cache hedge = record {
  hedge = if hedge == 0 then 50 else hedge;
  items = [];
  n = 0;
  hits = 0;
  miss = 0;
}

unfoldable pub cache_key : Text → Text → Text
cache_key m k = m ++ 0 ∷ k

unfoldable pub reset : Cache → Cache
reset c = record c { items = [] }

-- `if maxActive < 1 { maxActive = 1 }`.
unfoldable pub at_least_one : ℤ → ℕ
at_least_one n = if ltbℤ n (pos 1) then 1 else pos_part n

-- items[key] = it
unfoldable pub put : Text → CacheItem → Cache → Cache
put key it c = record c { items = (key, it) ∷ delete_where (λ p. text_eq p.0 key) c.items }

unfoldable pub remember : Text → Text → Execution → ℕ → ℕ → Cache → Cache
remember m k e max_active occupied = put (cache_key m k) (record {
  holder = e.principal;
  exe_id = e.id;
  expires_at = e.expires_at;
  max_active = if ltb max_active 1 then 1 else max_active;
  occupied = if ltb occupied 1 then 1 else occupied;
})

unfoldable pub remember_busy : Text → Text → BusyInfo → ℕ → Cache → Cache
remember_busy m k b max_active₀ =
    let max_active = if ltb max_active₀ 1 then 1 else max_active₀ in
    put (cache_key m k) (record {
      holder = b.holder;
      exe_id = b.active_execution_id;
      expires_at = b.expires_at;
      max_active = max_active;
      occupied = max_active;
    })

unfoldable pub forget : Text → Text → Cache → Cache
forget m k c = record c { items = delete_where (λ p. text_eq p.0 (cache_key m k)) c.items }

unfoldable pub lookup : ℕ → Text → Text → Cache → Cache × Option CacheItem
lookup now m k c = elim (select_row (λ p. text_eq p.0 (cache_key m k)) c.items) [
  | none ↦ (c, none)
  | some (_, it) ↦ if not (ltb now it.expires_at) then (forget m k c, none) else (c, some it)
]

abbrev pub occupied_or : ℕ → Option CacheItem → ℕ → ℕ
occupied_or n none more = n
occupied_or n (some it) more = it.occupied + more

-- The switch on the store's answer.
unfoldable pub learn : ℕ → AcquireRequest → AcquireResult → Cache → Cache
learn now req (granted e) c =
    let (c', it) = lookup now req.merchant_id req.domain_key c in
    remember req.merchant_id req.domain_key e (at_least_one req.max_active) (occupied_or 1 it 1) c'
learn now req (already_held e) c =
    let (c', it) = lookup now req.merchant_id req.domain_key c in
    remember req.merchant_id req.domain_key e (at_least_one req.max_active) (occupied_or 1 it 0) c'
learn now req (busy b) c =
    remember_busy req.merchant_id req.domain_key b (at_least_one req.max_active) c
learn now req (queued_at w b q) c = c
learn now req (denied reason) c = c

-- A local BUSY.
unfoldable pub local_busy : AcquireRequest → CacheItem → AcquireResult
local_busy req it = busy (record {
  active_execution_id = it.exe_id;
  holder = it.holder;
  expires_at = it.expires_at;
  can_preempt = can_preempt_ranked req.principal it.holder req.precedence;
})

-- Whether an item answers a request.
unfoldable pub answers : AcquireRequest → CacheItem → Bool
answers req it = not (same_principal it.holder req.principal) && leb it.max_active it.occupied

-- Whether the n-th request goes to the store whatever the cache says.
unfoldable pub refreshes : AcquireRequest → Cache → Bool
refreshes req c = (ltb 0 c.hedge && c.n % c.hedge == 0) || ltbℤ (pos 0) req.max_waiters

module _ {ℓ} {S : Type ℓ} (inner : Inner S) where
  unfoldable pub ask : ℕ → AcquireRequest → Cache → S → Cache × S × Result AcquireResult
  ask now req c s = elim (inner.acquire now req s) [
    | err e ↦ (c, s, err e)
    | ok (s', r) ↦ (learn now req r c, s', ok r)
  ]

  -- The branch that reads the cache first.
  unfoldable pub consult : ℕ → AcquireRequest → Cache → S → Cache × S × Result AcquireResult
  consult now req c s =
      let (c', found) = lookup now req.merchant_id req.domain_key c in
      elim found [
        | none ↦ ask now req (record c' { miss = increment c'.miss }) s
        | some it ↦
            if answers req it
            then (record c' { hits = increment c'.hits }, s, ok (local_busy req it))
            else ask now req c' s
      ]

  -- BusyCache.Acquire.
  unfoldable pub acquire : ℕ → AcquireRequest → Cache → S → Cache × S × Result AcquireResult
  acquire now req c₀ s =
      let c = record c₀ { n = increment c₀.n } in
      if refreshes req c then ask now req c s else consult now req c s

  -- After a successful call of the store, the cache takes in what it says.
  unfoldable pub settle {κ} :
      {A : Type κ} → Result (S × A) → (A → Cache → Cache) → Cache → S → Cache × S × Result A
  settle (ok (s', a)) f c s = (f a c, s', ok a)
  settle (err e) f c s = (c, s, err e)

  unfoldable pub renew :
      ℕ
      → (merchant_id execution_id session_id request_id : Text) → ℤ
      → Cache
      → S
      → Cache × S × Result Execution
  renew now m x session_id rid ttl c s =
      settle (inner.renew now m x session_id rid ttl s) (λ e. remember m e.domain_key e 1 1) c s

  unfoldable pub release :
      ℕ
      → (merchant_id execution_id session_id request_id : Text) → Cache
      → S
      → Cache × S × Result Execution
  release now m x session_id rid c s =
      settle (inner.release now m x session_id rid s) (λ e. forget m e.domain_key) c s

  unfoldable pub revoke :
      ℕ
      → (merchant_id execution_id session_id request_id reason : Text) → Cache
      → S
      → Cache × S × Result Execution
  revoke now m x session_id rid reason c s =
      settle (inner.revoke now m x session_id rid reason s) (λ e. forget m e.domain_key) c s

  unfoldable pub handoff : ℕ → HandoffRequest → Cache → S → Cache × S × Result HandoffResult
  handoff now req c s =
      settle (inner.handoff now req s)
        (λ r. remember req.merchant_id r.successor.domain_key r.successor 1 1) c s
