-- ===== src/Gateway/Statuses.antt =====
-- The statuses of internal/api/public: what a caller that reads the status alone takes an answer for.
use bruiser_gateway.Prelude.{◌≡◌, ◌⊎◌, refl, arith, true, ◌==◌, leb, inl, inr}
use bruiser_gateway.Lease.{
  Error, not_found, not_holder, unavailable, invalid_input, precedence_denied, forbidden, gone,
}
use bruiser_gateway.Gateway.Errors.{store_error, mutation_error}
use bruiser_gateway.Gateway.Admission.{
  Admission, unmatched_route, unrouted, no_session, no_resource, bad_resource, uncontrolled_route,
  uncontrolled_rule, refused, observed, failed_open, unsigned, over_budget, store_failed, admitted,
  in_queue, held_by, not_granted, status, allows,
}

-- No error of the store has a status of success.
store_error-refuses : (e : Error) → leb 400 (store_error e) ≡ true
unfolding store_error
store_error-refuses not_found = refl
store_error-refuses invalid_input = refl
store_error-refuses unavailable = refl
store_error-refuses not_holder = refl
store_error-refuses precedence_denied = refl
store_error-refuses forbidden = refl
store_error-refuses (gone reason successor_id execution_id) = refl

pub mutation_error-refuses : (e : Error) → leb 400 (mutation_error e) ≡ true
unfolding mutation_error
mutation_error-refuses not_found = store_error-refuses not_found
mutation_error-refuses invalid_input = store_error-refuses invalid_input
mutation_error-refuses unavailable = store_error-refuses unavailable
mutation_error-refuses not_holder = refl
mutation_error-refuses precedence_denied = refl
mutation_error-refuses forbidden = store_error-refuses forbidden
mutation_error-refuses (gone reason successor_id execution_id) = refl

-- Status and flag agree. An answer of admit has status 200 exactly where its flag lets the request through, whatever error of the store is behind it; every other answer has a status of 202, for a place in the queue, or of 400 and more.
pub status-allows :
    (a : Admission)
    → ((status a == 200) ≡ allows a)
      × ((allows a ≡ true) ⊎ ((status a ≡ 202) ⊎ (leb 400 (status a) ≡ true)))
unfolding status allows
status-allows unmatched_route = (refl, inl refl)
status-allows unrouted = (refl, inr (inr refl))
status-allows no_session = (refl, inr (inr refl))
status-allows no_resource = (refl, inr (inr refl))
status-allows bad_resource = (refl, inr (inr refl))
status-allows (uncontrolled_route action) = (refl, inl refl)
status-allows (uncontrolled_rule rule_name) = (refl, inl refl)
status-allows (refused reason rule_name) = (refl, inr (inr refl))
status-allows (observed would reason) = (refl, inl refl)
status-allows failed_open = (refl, inl refl)
status-allows unsigned = (refl, inr (inr refl))
status-allows over_budget = (refl, inr (inr refl))
status-allows (store_failed e) =
    let refuses = store_error-refuses e in (ground (arith, refuses), inr (inr refuses))
status-allows (admitted e token) = (refl, inl refl)
status-allows (in_queue b q) = (refl, inr (inl refl))
status-allows (held_by b) = (refl, inr (inr refl))
status-allows (not_granted reason) = (refl, inr (inr refl))
