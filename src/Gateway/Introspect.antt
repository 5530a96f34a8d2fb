-- ===== src/Gateway/Introspect.antt =====
-- internal/api/public/introspect.go: whether an execution token still stands. The parsing of tokens is
-- an argument.
use bruiser_gateway.Prelude.{
  ℕ, Option, none, some, not, [], Bool, true, false, ◌&&◌, if◌then◌else◌, Text, text_eq, is_empty,
  pos, ltbℤ,
}
use bruiser_gateway.Lease.{
  State, revoked, handed_off, active, released, expired, queued, Execution, is_live, Result, ok,
  err,
}
use bruiser_gateway.Budget
use bruiser_gateway.Budget.{BudgetResult, used}
use bruiser_gateway.Resource.{
  TextOps, canonical_id, malformed, unknown_resource, new_catalogue, catalogue_canonical,
}
use bruiser_gateway.Gateway.{Services, Setting}
use bruiser_gateway.Tokens.{ExecutionClaims}

-- The body of the request, with zero values where it gives none.
pub record IntrospectBody : Type 0 where
  pub token : Text
  pub resource : Text
  pub consume : Bool

pub data Introspection : Type 0 where
  no_token bad_token wrong_merchant wrong_resource not_found over_budget : Introspection
  stale_fence : (fence : ℕ) → Introspection
  ended : State → (execution_id : Text) → Introspection
  answered : (stands : Bool) → ExecutionClaims → State → Introspection

unfoldable pub introspect_status : Introspection → ℕ
introspect_status no_token = 401
introspect_status bad_token = 401
introspect_status wrong_merchant = 401
introspect_status wrong_resource = 403
introspect_status not_found = 200
introspect_status over_budget = 200
introspect_status (stale_fence fence) = 200
introspect_status (ended state execution_id) = 200
introspect_status (answered stands k state) = 200

-- The field "active" of the answer, which an error's body has not.
unfoldable pub is_active_answer : Introspection → Bool
is_active_answer (answered stands k state) = stands
is_active_answer _ = false

abbrev pub is_over : State → Bool
is_over revoked = true
is_over handed_off = true
is_over active = false
is_over released = false
is_over expired = false
is_over queued = false

-- A spent budget is the one outcome of ConsumeOp that counts.
unfoldable pub after_consume : ExecutionClaims → Execution → Result BudgetResult → Introspection
after_consume k e (ok Budget.over_budget) = over_budget
after_consume k e (ok (used n max_ops)) = answered true k e.state
after_consume k e (err x) = answered true k e.state

module _ {ℓ} {S : Type ℓ} (o : TextOps) (v : Services S) (s : Setting) (now : ℕ) where
  -- canonicalizeResource of both, and their comparison.
  unfoldable pub same_resource : Text → Text → Bool
  same_resource want got =
      let ids = new_catalogue o s.profile.resources in
      elim (catalogue_canonical o ids want) [
        | malformed ↦ false
        | unknown_resource ↦ false
        | canonical_id x ↦ elim (catalogue_canonical o ids got) [
          | malformed ↦ false
          | unknown_resource ↦ false
          | canonical_id y ↦ text_eq x y
        ]
      ]

  -- From the lease that Get finds on.
  unfoldable pub introspect_lease : Bool → ExecutionClaims → Execution → S → S × Introspection
  introspect_lease consume k e w =
      if ltbℤ k.fence (pos e.fence)
      then (w, stale_fence e.fence)
      else if is_over e.state
      then (w, ended e.state e.id)
      else if is_live now e && consume
      then (let (w', r) = v.consume_op s.merchant_id e.id w in (w', after_consume k e r))
      else (w, answered (is_live now e) k e.state)

  unfoldable pub introspect_claims : IntrospectBody → ExecutionClaims → S → S × Introspection
  introspect_claims body k w =
      if not (text_eq k.merchant_id s.merchant_id)
      then (w, wrong_merchant)
      else if not (is_empty body.resource) && not (same_resource body.resource k.resource)
      then (w, wrong_resource)
      else elim (v.get now s.merchant_id k.execution_id w) [
        | err x ↦ (w, not_found)
        | ok e ↦ introspect_lease body.consume k e w
      ]

  unfoldable pub introspect_token :
      (Text → Option ExecutionClaims) → Text → IntrospectBody → S → S × Introspection
  introspect_token parse_execution raw body w =
      if is_empty raw then (w, no_token) else elim (parse_execution raw) [
        | none ↦ (w, bad_token)
        | some k ↦ introspect_claims body k w
      ]

  abbrev pub unread : IntrospectBody
  unread = record { token = []; resource = []; consume = false }

  -- Server.introspect: the body is read only where the header has no bearer token.
  unfoldable pub introspect :
      (Text → Option ExecutionClaims) → (bearer : Text) → IntrospectBody → S → S × Introspection
  introspect parse_execution bearer body w =
      if is_empty bearer
      then introspect_token parse_execution body.token body w
      else introspect_token parse_execution bearer unread w
