-- ===== src/Tokens.antt =====
-- internal/auth/tokens.go: the claims of execution and admin tokens, and what a parser asks of them. The
-- JWT library is an argument: `verify now token` gives the claims of a token whose signature and times
-- pass, and `numeric_date` is the time that a token carries for a time.
pub mod Signed
use bruiser_gateway.Prelude.{
  ℕ, ◌+◌, not, ◌&&◌, ◌||◌, Option, none, some, Bool, false, ◌++◌, if◌then◌else◌, ltb, Text, text,
  text_eq, is_empty, ℤ, pos, ltbℤ, lebℤ,
}
use bruiser_gateway.Lease.{Execution}
use bruiser_gateway.Gateway.{after}

-- Skew.
abbrev pub skew : ℕ
skew = 5000000000

-- ExecutionClaims, less the registered ones but the expiry.
pub record ExecutionClaims : Type 0 where
  pub merchant_id : Text
  pub customer_id : Text
  pub execution_id : Text
  pub domain : Text
  pub resource : Text
  pub action : Text
  pub principal : Text
  pub fence : ℤ
  pub expires_at : Option ℕ

-- The claims that SignExecution signs.
unfoldable pub execution_claims : (ℕ → ℕ) → Execution → ExecutionClaims
execution_claims numeric_date e = record {
  merchant_id = e.merchant_id;
  customer_id = e.customer_id;
  execution_id = e.id;
  domain = e.domain_key;
  resource = e.resource;
  action = e.action;
  principal = e.principal.type ++ text ":" ++ e.principal.id;
  fence = pos e.fence;
  expires_at = some (numeric_date e.expires_at);
}

-- Signer.SignExecution.
abbrev pub sign_execution : (ℕ → ℕ) → (ExecutionClaims → Option Text) → Execution → Option Text
sign_execution numeric_date sign e = sign (execution_claims numeric_date e)

-- now.After(claims.ExpiresAt.Add(Skew)), for an expiry that is present.
unfoldable pub is_past : ℕ → Option ℕ → Bool
is_past now none = false
is_past now (some t) = ltb (t + skew) now

-- ParseExecution.
unfoldable pub parse_execution :
    (ℕ → Text → Option ExecutionClaims) → ℕ → Text → Option ExecutionClaims
parse_execution verify now token = elim (verify now token) [
  | none ↦ none
  | some c ↦
      if is_past now c.expires_at
      then none
      else if is_empty c.execution_id || is_empty c.customer_id || is_empty c.merchant_id
      then none
      else some c
]

-- AccessClaims, less the registered ones but the expiry and the id.
pub record AccessClaims : Type 0 where
  pub merchant_id : Text
  pub role : Text
  pub actor : Text
  pub token_type : Text
  pub id : Text
  pub expires_at : Option ℕ

abbrev pub role_admin : Text
role_admin = text "admin"

abbrev pub role_operator : Text
role_operator = text "operator"

abbrev pub access_token_type : Text
access_token_type = text "bruiser_admin"

unfoldable pub is_role : Text → Bool
is_role r = text_eq r role_admin || text_eq r role_operator

-- Five minutes for want of a term, and an hour at most.
unfoldable pub access_ttl : ℤ → ℤ
access_ttl ttl =
    if lebℤ ttl (pos 0)
    then pos 300000000000
    else if ltbℤ (pos 3600000000000) ttl
    then pos 3600000000000
    else ttl

-- The claims that SignAccess signs, or none for an unknown role.
unfoldable pub access_claims :
    (ℕ → ℕ) → ℕ → (merchant_id fresh_id role actor : Text) → ℤ → Option AccessClaims
access_claims numeric_date now m fresh_id role actor ttl =
    if not (is_role role)
    then none
    else some record {
      merchant_id = m;
      role = role;
      actor = actor;
      token_type = access_token_type;
      id = fresh_id;
      expires_at = some (numeric_date (after now (access_ttl ttl)));
    }

-- ParseAccess.
unfoldable pub parse_access : (ℕ → Text → Option AccessClaims) → ℕ → Text → Option AccessClaims
parse_access verify now token = elim (verify now token) [
  | none ↦ none
  | some c ↦
      if not (text_eq c.token_type access_token_type)
      then none
      else if not (is_role c.role)
      then none
      else if is_past now c.expires_at
      then none
      else some c
]
