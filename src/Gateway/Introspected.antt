-- ===== src/Gateway/Introspected.antt =====
-- What an answer of internal/api/public/introspect.go stands for.
use bruiser_gateway.Prelude.{
  ℕ, ◌≡◌, ◌⊎◌, arith, Option, some, Bool, true, false, not, ◌&&◌, Text, if◌then◌else◌, text_eq,
  text_eq_iff, is_empty, pos, ltbℤ, lebℤ, inl, inr, Bool-cases, Option-cases,
}
use bruiser_gateway.Lease.{Execution, is_live, ok}
use bruiser_gateway.Refinement.Capacities.{Result-cases}
use bruiser_gateway.Resource.{TextOps}
use bruiser_gateway.Gateway.{Services, Setting}
use bruiser_gateway.Tokens.{ExecutionClaims}
use bruiser_gateway.Gateway.Introspect.{
  IntrospectBody, is_over, same_resource, introspect_lease, introspect_claims, introspect_token,
  introspect, is_active_answer, unread,
}

module _ {ℓ} {S : Type ℓ} (o : TextOps) (v : Services S) (s : Setting) (now : ℕ) where
  -- The token was read, and its lease is live, under a fence that the token has or exceeds.
  pub record Stands (k : ExecutionClaims) (w : S) : Type ℓ where
    pub lease : Execution
    pub found : v.get now s.merchant_id k.execution_id w ≡ ok lease
    pub fence : lebℤ (pos lease.fence) k.fence ≡ true
    pub live : is_live now lease ≡ true

  introspect_lease-active :
      (consume : Bool) (k : ExecutionClaims) (e : Execution) (w : S)
      → is_active_answer (introspect_lease o v s now consume k e w).1 ≡ true
      → (lebℤ (pos e.fence) k.fence ≡ true) × (is_live now e ≡ true)
  unfolding introspect_lease is_active_answer
  introspect_lease-active consume k e w h = elim (Bool-cases (ltbℤ k.fence (pos e.fence))) [
    | inl stale ↦ absurd (ground arith)
    | inr fresh ↦ elim (Bool-cases (is_over e.state)) [
      | inl over ↦ absurd (ground arith)
      | inr kept ↦ elim (Bool-cases (is_live now e)) [
        | inl live ↦ (ground arith, live)
        | inr dead ↦ absurd (ground arith)
      ]
    ]
  ]

  introspect_claims-active :
      (body : IntrospectBody) (k : ExecutionClaims) (w : S)
      → is_active_answer (introspect_claims o v s now body k w).1 ≡ true
      → (k.merchant_id ≡ s.merchant_id)
        × ((is_empty body.resource ≡ true)
            ⊎ (same_resource o v s now body.resource k.resource ≡ true))
        × Stands k w
  unfolding introspect_claims is_active_answer
  introspect_claims-active body k w h = elim (Bool-cases (text_eq k.merchant_id s.merchant_id)) [
    | inr other ↦ absurd (ground arith)
    | inl own ↦
        elim (Bool-cases (
          not (is_empty body.resource) && not (same_resource o v s now body.resource k.resource))) [
            | inl apart ↦ absurd (ground arith)
            | inr fits ↦ elim (Result-cases (v.get now s.merchant_id k.execution_id w)) [
              | inr (x, missing) ↦ absurd (ground arith)
              | inl (e, found) ↦
                  let (fence, live) = introspect_lease-active body.consume k e w (ground arith) in
                  (
                    (text_eq_iff k.merchant_id s.merchant_id).0 own,
                    ground arith,
                    record { lease = e; found = found; fence = fence; live = live },
                  )
            ]
          ]
  ]

  introspect_token-active :
      (parse_execution : Text → Option ExecutionClaims) (raw : Text) (body : IntrospectBody) (w : S)
      → is_active_answer (introspect_token o v s now parse_execution raw body w).1 ≡ true
      → (k : ExecutionClaims) × (parse_execution raw ≡ some k)
        × (k.merchant_id ≡ s.merchant_id)
        × ((is_empty body.resource ≡ true)
            ⊎ (same_resource o v s now body.resource k.resource ≡ true))
        × Stands k w
  unfolding introspect_token is_active_answer
  introspect_token-active parse_execution raw body w h = elim (Bool-cases (is_empty raw)) [
    | inl blank ↦ absurd (ground arith)
    | inr token ↦ elim (Option-cases (parse_execution raw)) [
      | inl bad ↦ absurd (ground arith)
      | inr (k, parsed) ↦
          let (merchant, resource, stands) = introspect_claims-active body k w (ground arith) in
          (k, parsed, merchant, resource, stands)
    ]
  ]

  -- The token that the answer is about: the header's, or the body's for want of one.
  abbrev pub shown : Text → IntrospectBody → Text
  shown bearer body = if is_empty bearer then body.token else bearer

  -- A token is called active only where it is a token of this merchant whose lease the store has and is live, under a fence that is not above the token's, and where the resource, if the token came in the body and one was named, is the token's.
  pub introspect-active :
      (parse_execution : Text → Option ExecutionClaims) (bearer : Text) (body : IntrospectBody)
      (w : S)
      → is_active_answer (introspect o v s now parse_execution bearer body w).1 ≡ true
      → (k : ExecutionClaims) × (parse_execution (shown bearer body) ≡ some k)
        × (k.merchant_id ≡ s.merchant_id)
        × ((is_empty bearer ≡ false)
            ⊎ (is_empty body.resource ≡ true)
            ⊎ (same_resource o v s now body.resource k.resource ≡ true))
        × Stands k w
  unfolding introspect is_active_answer
  introspect-active parse_execution bearer body w h = elim (Bool-cases (is_empty bearer)) [
    | inl blank ↦
        let (k, parsed, merchant, resource, stands) =
          introspect_token-active parse_execution body.token body w (ground arith) in
        (k, ground arith, merchant, inr resource, stands)
    | inr header ↦
        let (k, parsed, merchant, resource, stands) =
          introspect_token-active parse_execution bearer (unread o v s now) w (ground arith) in
        (k, ground arith, merchant, inl header, stands)
  ]
