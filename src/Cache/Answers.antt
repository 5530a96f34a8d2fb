-- ===== src/Cache/Answers.antt =====
-- What the cache may answer by itself: internal/lease/cache.go, Acquire and the calls that forget.
use bruiser_gateway.Prelude.{
  ℕ, ◌≤◌, ◌<◌, ◌≡◌, ◌⊎◌, refl, arith, none, some, false, List, [], ◌∷◌, Text, text_eq, select_row,
  delete_where, inl, inr, Bool-cases, Option-cases,
}
use bruiser_gateway.Lease.{Execution, AcquireRequest, AcquireResult, Error, Result, ok, err}
use bruiser_gateway.Lease.Precedence.{same_principal}
use bruiser_gateway.Refinement.Capacities.{Result-cases}
use bruiser_gateway.Cache.{
  Inner, Cache, CacheItem, increment, cache_key, lookup, forget, local_busy, answers, refreshes,
  ask, consult, acquire, settle, release,
}

-- The request as the cache counts it.
abbrev pub counted : Cache → Cache
counted c = record c { n = increment c.n }

module _ {ℓ} {S : Type ℓ} (inner : Inner S) (now : ℕ) (req : AcquireRequest) where
  abbrev pub FromStore : S → S → Result AcquireResult → Type ℓ
  FromStore s t r =
      ((x : AcquireResult) × (r ≡ ok x) × (inner.acquire now req s ≡ ok (t, x)))
      ⊎ ((e : Error) × (r ≡ err e) × (t ≡ s) × (inner.acquire now req s ≡ err e))

  unexpired :
      (c : Cache) (it : CacheItem)
      → (lookup now req.merchant_id req.domain_key c).1 ≡ some it
      → now < it.expires_at
  unfolding lookup
  unexpired c it h = ground arith

  ask-FromStore :
      (c c' : Cache) (s t : S) (r : Result AcquireResult)
      → ask inner now req c s ≡ (c', t, r)
      → FromStore s t r
  unfolding ask
  ask-FromStore c c' s t r h = elim (Result-cases (inner.acquire now req s)) [
    | inl ((u, x), e) ↦ inl (x, ground arith, ground arith)
    | inr (e, k) ↦ inr (e, ground arith, ground arith, k)
  ]

  -- An answer of the cache itself.
  abbrev pub FromItem : Cache → S → S → Result AcquireResult → Type ℓ
  FromItem c s t r =
      (it : CacheItem) × ((lookup now req.merchant_id req.domain_key (counted c)).1 ≡ some it)
      × (now < it.expires_at)
      × (same_principal it.holder req.principal ≡ false)
      × (it.max_active ≤ it.occupied)
      × (refreshes req (counted c) ≡ false)
      × (r ≡ ok (local_busy req it))
      × (t ≡ s)

  consult-cases :
      (c c' : Cache) (s t : S) (r : Result AcquireResult)
      → refreshes req (counted c) ≡ false
      → consult inner now req (counted c) s ≡ (c', t, r)
      → FromStore s t r ⊎ FromItem c s t r
  unfolding consult answers
  consult-cases c c' s t r keeps h =
      let (c₁, found) = lookup now req.merchant_id req.domain_key (counted c) in
      elim (Option-cases (lookup now req.merchant_id req.domain_key (counted c)).1) [
        | inl absent ↦
            inl (ask-FromStore (record c₁ { miss = increment c₁.miss }) c' s t r (ground arith))
        | inr (it, found) ↦ elim (Bool-cases (answers req it)) [
          | inl full ↦ inr (
            it,
            found,
            unexpired (counted c) it found,
            ground arith,
            ground arith,
            keeps,
            ground arith,
            ground arith,
          )
          | inr room ↦ inl (ask-FromStore c₁ c' s t r (ground arith))
        ]
      ]

  -- The cache never grants. Each answer is the store's own, error or not, with the store as it left it; or it is a BUSY of the cache, which leaves the store alone and comes from an item of the domain that has not run out, names another principal, and counts as many leases as it has room for.
  pub acquire-source :
      (c c' : Cache) (s t : S) (r : Result AcquireResult)
      → acquire inner now req c s ≡ (c', t, r)
      → FromStore s t r ⊎ FromItem c s t r
  unfolding acquire
  acquire-source c c' s t r h = elim (Bool-cases (refreshes req (counted c))) [
    | inl refresh ↦ inl (ask-FromStore (counted c) c' s t r (ground arith))
    | inr keeps ↦ consult-cases c c' s t r keeps (ground arith)
  ]

select_row-deleted :
    (key : Text) (items : List (Text × CacheItem))
    → select_row (λ p. text_eq p.0 key) (delete_where (λ p. text_eq p.0 key) items) ≡ none
unfolding select_row delete_where
select_row-deleted key [] = refl
select_row-deleted key (p ∷ ps) = ground (arith, select_row-deleted key ps)

module _ {ℓ} {S : Type ℓ} (inner : Inner S) (now : ℕ) where
  released_cache :
      (m x session_id rid : Text) (c c' : Cache) (s t : S) (e : Execution)
      → release inner now m x session_id rid c s ≡ (c', t, ok e)
      → c' ≡ forget m e.domain_key c
  unfolding release settle
  released_cache m x session_id rid c c' s t e h = ground arith

  -- A released domain is asked for again. After a release of the cache that succeeds, the next request for the lease's domain is answered by the store.
  pub release-acquire :
      (m x session_id rid : Text) (c c' c'' : Cache) (s t u : S) (e : Execution) (later : ℕ)
      (req : AcquireRequest) (r : Result AcquireResult)
      → release inner now m x session_id rid c s ≡ (c', t, ok e)
      → req.merchant_id ≡ m
      → req.domain_key ≡ e.domain_key
      → acquire inner later req c' t ≡ (c'', u, r)
      → FromStore inner later req t u r
  unfolding lookup forget
  release-acquire m x session_id rid c c' c'' s t u e later req r h same_m same_k k =
      let c_eq = released_cache m x session_id rid c c' s t e h in
      elim (acquire-source inner later req c' c'' t u r k) [
        | inl store ↦ store
        | inr (it, found, _, _, _, _, _, _) ↦
            let gone = select_row-deleted (cache_key m e.domain_key) c.items in
            absurd (ground arith)
      ]
