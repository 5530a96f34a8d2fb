-- ===== src/Sdk.antt =====
-- sdk/go/protect.go: the check that a merchant's own service makes of an execution token. A FenceCache
-- stands for the map behind the pointer, and `none` for the nil pointer.
pub mod Fences
pub mod Passed
use bruiser_gateway.Prelude.{
  ℕ, Option, none, some, not, Bool, true, false, ◌&&◌, List, [], ◌∷◌, if◌then◌else◌, Text, text,
  text_eq, is_empty, ℤ, pos, ltbℤ,
}
use bruiser_gateway.Resource.{
  TextOps, Canonised, canonical_id, malformed, unknown_resource, canonical,
}
use bruiser_gateway.Tokens.{ExecutionClaims, parse_execution}

-- FenceCache.last, the newest entry of a key first.
abbrev pub FenceCache : Type 0
FenceCache = List (Text × ℤ)

-- c.last[domain]
unfoldable pub last : Text → FenceCache → Option ℤ
last domain [] = none
last domain ((d, fence) ∷ c) =
    let rest = last domain c in if text_eq domain d then some fence else rest

abbrev pub or_zero : Option ℤ → ℤ
or_zero none = pos 0
or_zero (some fence) = fence

abbrev pub is_stale : ℤ → Option ℤ → Bool
is_stale fence none = false
is_stale fence (some previous) = ltbℤ fence previous

-- FenceCache.Accept, on a cache: ErrStaleFence, or the cache that it leaves.
unfoldable pub accept : Text → ℤ → FenceCache → Option FenceCache
accept domain fence c =
    if is_stale fence (last domain c)
    then none
    else if ltbℤ (or_zero (last domain c)) fence
    then some ((domain, fence) ∷ c)
    else some c

-- ProtectConfig, less the key, the header, the cache and the callback.
pub record ProtectConfig : Type 0 where
  pub merchant_id : Text
  pub resource : Text

-- Whether the request reaches the merchant's handler, or why not.
pub data Verdict : Type 0 where
  no_token bad_token wrong_merchant wrong_resource stale_fence revoked : Verdict
  passed : ExecutionClaims → Verdict

unfoldable pub verdict_status : Verdict → Option ℕ
verdict_status no_token = some 401
verdict_status bad_token = some 403
verdict_status wrong_merchant = some 401
verdict_status wrong_resource = some 403
verdict_status stale_fence = some 403
verdict_status revoked = some 403
verdict_status (passed k) = none

-- A request: its time, its token, and what the callback Active answers, an error being none.
pub record Visit : Type 0 where
  pub now : ℕ
  pub token : Text
  pub active : Text → ℤ → Option Bool

abbrev pub same_id : Canonised → Canonised → Bool
same_id (canonical_id want) (canonical_id got) = text_eq want got
same_id malformed got = false
same_id unknown_resource got = false
same_id (canonical_id want) malformed = false
same_id (canonical_id want) unknown_resource = false

module _ (o : TextOps) (verify : ℕ → Text → Option ExecutionClaims) (cfg : ProtectConfig) where
  unfoldable pub for_resource : ExecutionClaims → Bool
  for_resource k =
      if is_empty cfg.resource
      then true
      else same_id (canonical o cfg.resource) (canonical o k.resource)

  -- The last check: only a known end denies, an error does not.
  unfoldable pub ask_active : Visit → ExecutionClaims → Verdict
  ask_active x k = elim (x.active k.execution_id k.fence) [
    | none ↦ passed k
    | some b ↦ if b then passed k else revoked
  ]

  -- cfg.Fences.Accept, and what follows it.
  unfoldable pub ask_fences :
      Visit → ExecutionClaims → Option FenceCache → Option FenceCache × Verdict
  ask_fences x k none = (none, ask_active x k)
  ask_fences x k (some c) = elim (accept k.domain k.fence c) [
    | none ↦ (some c, stale_fence)
    | some c' ↦ (some c', ask_active x k)
  ]

  unfoldable pub ask_claims :
      Visit → ExecutionClaims → Option FenceCache → Option FenceCache × Verdict
  ask_claims x k c =
      if not (is_empty cfg.merchant_id) && not (text_eq k.merchant_id cfg.merchant_id)
      then (c, wrong_merchant)
      else if not (for_resource k)
      then (c, wrong_resource)
      else ask_fences x k c

  -- Protect.
  unfoldable pub protect : Visit → Option FenceCache → Option FenceCache × Verdict
  protect x c =
      if is_empty x.token then (c, no_token) else elim (parse_execution verify x.now x.token) [
        | none ↦ (c, bad_token)
        | some k ↦ ask_claims x k c
      ]

  -- The cache after requests, one after the other.
  unfoldable pub visits : List Visit → Option FenceCache → Option FenceCache
  visits [] c = c
  visits (x ∷ xs) c = visits xs (protect x c).0
