-- ===== src/Tokens/Signed.antt =====
-- What internal/auth/tokens.go parses of what it signs.
use bruiser_gateway.Prelude.{
  ℕ, ◌+◌, ◌<◌, ◌≡◌, arith, Option, some, Bool, false, Text, is_empty, ltb, ltb→lt, and-eq-true,
}
use bruiser_gateway.Lease.{Execution, is_active, is_live}
use bruiser_gateway.Tokens.{
  ExecutionClaims, execution_claims, sign_execution, is_past, parse_execution, skew,
}

-- The token of a live lease with ids is accepted, with the lease's claims. The library is taken to verify what it signed and to round the expiry down by less than the tolerance.
pub parse_execution-sign_execution :
    (numeric_date : ℕ → ℕ) (sign : ExecutionClaims → Option Text)
    (verify : ℕ → Text → Option ExecutionClaims) (now : ℕ) (e : Execution) (token : Text)
    → is_live now e ≡ Bool.true
    → is_empty e.id ≡ false
    → is_empty e.customer_id ≡ false
    → is_empty e.merchant_id ≡ false
    → sign_execution numeric_date sign e ≡ some token
    → verify now token ≡ some (execution_claims numeric_date e)
    → e.expires_at < numeric_date e.expires_at + skew
    → parse_execution verify now token ≡ some (execution_claims numeric_date e)
unfolding parse_execution execution_claims is_past is_live
parse_execution-sign_execution numeric_date sign verify now e token live i c m signed verified
      near =
    let (state, later) = and-eq-true (is_active e.state) (ltb now e.expires_at) live in
    let soon : now < e.expires_at = ltb→lt now e.expires_at later in ground arith
