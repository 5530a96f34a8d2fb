-- ===== src/Sdk/Passed.antt =====
-- The token of internal/auth/tokens.go, shown to sdk/go/protect.go.
use bruiser_gateway.Prelude.{
  ℕ, ◌+◌, ◌<◌, ◌≡◌, ◌≢◌, sym, arith, Option, some, true, false, Text, text_eq, text_eq_iff,
  text_eq_refl, is_empty, ℤ, pos, ltbℤ, ◌∷◌, Bool-cases, Option-cases, inl, inr,
}
use bruiser_gateway.Lease.{Execution, is_live}
use bruiser_gateway.Resource.{TextOps, canonical, canonical_id}
use bruiser_gateway.Tokens.{
  ExecutionClaims, execution_claims, sign_execution, parse_execution, skew,
}
use bruiser_gateway.Tokens.Signed.{parse_execution-sign_execution}
use bruiser_gateway.Sdk.{
  FenceCache, last, or_zero, is_stale, accept, ProtectConfig, passed, Visit, for_resource,
  ask_active, ask_fences, ask_claims, protect,
}

accept-fresh :
    (domain : Text) (fence : ℤ) (c : FenceCache)
    → is_stale fence (last domain c) ≡ false
    → (d : FenceCache) × (accept domain fence c ≡ some d)
unfolding accept
accept-fresh domain fence c h = elim (Bool-cases (ltbℤ (or_zero (last domain c)) fence)) [
  | inl higher ↦ ((domain, fence) ∷ c, ground arith)
  | inr same ↦ (c, ground arith)
]

module _ (o : TextOps) (verify : ℕ → Text → Option ExecutionClaims) (cfg : ProtectConfig) where
  for_resource-same :
      (k : ExecutionClaims) (r : Text)
      → canonical o cfg.resource ≡ canonical_id r
      → canonical o k.resource ≡ canonical_id r
      → for_resource o verify cfg k ≡ true
  unfolding for_resource
  for_resource-same k r want got = ground (arith, want, got, text_eq_refl r)

  ask_active-answer :
      (x : Visit) (k : ExecutionClaims)
      → x.active k.execution_id k.fence ≢ some false
      → ask_active o verify cfg x k ≡ passed k
  unfolding ask_active
  ask_active-answer x k unended = elim (Option-cases (x.active k.execution_id k.fence)) [
    | inl failed ↦ ground arith
    | inr (true, answer) ↦ ground arith
    | inr (false, answer) ↦ absurd (unended answer)
  ]

  -- The holder of a live lease, with its ids, gets through: where the token is not empty, and the service is the lease's merchant's and asks for the lease's resource, well formed and in any spelling, the token that the gateway signed for the lease reaches the handler, unless a higher fence of its domain is in the cache or the gateway says that the execution is over. The library is taken to verify what it signed and to round the expiry down by less than the tolerance.
  pub protect-sign_execution :
      (numeric_date : ℕ → ℕ) (sign : ExecutionClaims → Option Text) (x : Visit) (e : Execution)
      (c : FenceCache) (r : Text)
      → is_live x.now e ≡ true
      → is_empty e.id ≡ false
      → is_empty e.customer_id ≡ false
      → is_empty e.merchant_id ≡ false
      → sign_execution numeric_date sign e ≡ some x.token
      → is_empty x.token ≡ false
      → verify x.now x.token ≡ some (execution_claims numeric_date e)
      → e.expires_at < numeric_date e.expires_at + skew
      → cfg.merchant_id ≡ e.merchant_id
      → canonical o cfg.resource ≡ canonical_id r
      → canonical o e.resource ≡ canonical_id r
      → is_stale (pos e.fence) (last e.domain_key c) ≡ false
      → x.active e.id (pos e.fence) ≢ some false
      → (protect o verify cfg x (some c)).1 ≡ passed (execution_claims numeric_date e)
  unfolding protect ask_claims ask_fences execution_claims
  protect-sign_execution numeric_date sign x e c r live i u m signed sent verified near own want got
        fresh unended =
      let k = execution_claims numeric_date e in
      let read : parse_execution verify x.now x.token ≡ some k =
        parse_execution-sign_execution numeric_date sign verify x.now e x.token live i u m signed
          verified near in
      let (d, taken) = accept-fresh e.domain_key (pos e.fence) c fresh in
      let fits = for_resource-same k r want got in
      let active = ask_active-answer x k unended in
      let same : text_eq e.merchant_id cfg.merchant_id ≡ true =
        (text_eq_iff e.merchant_id cfg.merchant_id).1 (sym own) in
      ground arith
