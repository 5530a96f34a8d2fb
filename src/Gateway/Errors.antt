-- ===== src/Gateway/Errors.antt =====
-- internal/api/public/server.go: the statuses of the store's errors.
use bruiser_gateway.Prelude.{ℕ}
use bruiser_gateway.Lease.{
  Error, not_found, not_holder, unavailable, invalid_input, precedence_denied, forbidden, gone,
}

unfoldable pub store_error : Error → ℕ
store_error not_found = 404
store_error invalid_input = 400
store_error unavailable = 503
store_error not_holder = 500
store_error precedence_denied = 500
store_error forbidden = 500
store_error (gone reason successor_id execution_id) = 500

unfoldable pub mutation_error : Error → ℕ
mutation_error (gone reason successor_id execution_id) = 410
mutation_error not_holder = 403
mutation_error precedence_denied = 403
mutation_error not_found = store_error not_found
mutation_error invalid_input = store_error invalid_input
mutation_error unavailable = store_error unavailable
mutation_error forbidden = store_error forbidden
