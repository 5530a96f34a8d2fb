-- ===== src/Controls/Enforced.antt =====
-- Who is enforced: internal/ops/controls.go ShouldEnforce and ramp.go.
use bruiser_gateway.Prelude.{
  ℕ, ◌≡◌, ◌↔◌, ◌<◌, arith, Bool, true, false, not, ◌&&◌, ◌||◌, List, [], ◌∷◌, ◌==◌, length, Text, ℤ,
  pos, negsuc, ltbℤ, lebℤ,
}
use bruiser_gateway.Resource.{TextOps}
use bruiser_gateway.Controls.{
  RampScope, RampInput, Controls, mode_dry_run, strings_equal, clamp_percent, effective_percent,
  is_empty_scope, match_any, excludes, scope_match, bucket, in_ramp, should_enforce,
}

module _ (o : TextOps) where
  -- One dimension of a scope: without entries it takes every request, else those that one of its entries matches.
  abbrev pub takes : List Text → List Text → Bool
  takes list vals = length list == 0 || match_any o list vals

  -- Every dimension takes the request.
  abbrev pub in_scope : RampScope → RampInput → Bool
  in_scope s i =
      takes s.events (i.event_id ∷ i.resource ∷ [])
      && takes s.routes (i.action ∷ i.path ∷ [])
      && takes s.pools (i.pool ∷ i.resource ∷ [])
      && takes s.cohorts (i.cohort ∷ i.customer_id ∷ [])
      && takes s.environments (i.env ∷ [])
      && takes s.policies (i.rule_name ∷ [])

  pub scope_match-in_scope : (s : RampScope) (i : RampInput) → scope_match o s i ≡ in_scope s i
  unfolding scope_match is_empty_scope excludes
  scope_match-in_scope s i = ground arith

pub bucket_bound : (customer_id salt : Text) → bucket customer_id salt < 100
unfolding bucket
bucket_bound customer_id salt = omega arith

pub in_ramp-clamp :
    (customer_id salt : Text) (n : ℤ)
    → in_ramp customer_id (clamp_percent n) salt ≡ ltbℤ (pos (bucket customer_id salt)) n
unfolding in_ramp clamp_percent
in_ramp-clamp customer_id salt (pos n) = ground (arith, bucket_bound customer_id salt)
in_ramp-clamp customer_id salt (negsuc n) = ground (arith, bucket_bound customer_id salt)

pub clamp_percent-idempotent : (n : ℤ) → clamp_percent (clamp_percent n) ≡ clamp_percent n
unfolding clamp_percent
clamp_percent-idempotent (pos n) = ground arith
clamp_percent-idempotent (negsuc n) = ground arith

clamp-none : (b : ℕ) (n : ℤ) → lebℤ (clamp_percent n) (pos 0) ≡ true → ltbℤ (pos b) n ≡ false
unfolding clamp_percent
clamp-none b (pos n) h = ground arith
clamp-none b (negsuc n) h = ground arith

pub should_enforce-eq :
    (o : TextOps) (c : Controls) (i : RampInput)
    → should_enforce o c i ≡ (
        c.enforcement
        && not (strings_equal c.mode mode_dry_run)
        && in_scope o c.scope i
        && ltbℤ (pos (bucket i.customer_id c.ramp_salt)) c.enforce_percent)
unfolding should_enforce effective_percent
should_enforce-eq o c i =
    let ramp = in_ramp-clamp i.customer_id c.ramp_salt c.enforce_percent in
    let none_left = clamp-none (bucket i.customer_id c.ramp_salt) c.enforce_percent in
    ground (arith, ramp, none_left, scope_match-in_scope o c.scope i)

-- The ramp's arithmetic. A request is enforced exactly when the kill switch is not pulled, the mode is not dry-run, every dimension of the scope takes the request, and the customer's bucket, one of 0 to 99, is less than the percentage as the operator wrote it.
pub should_enforce_iff :
    (o : TextOps) (c : Controls) (i : RampInput)
    → (bucket i.customer_id c.ramp_salt < 100)
      × ((should_enforce o c i ≡ true) ↔ (
          (c.enforcement ≡ true)
          × (strings_equal c.mode mode_dry_run ≡ false)
          × (in_scope o c.scope i ≡ true)
          × (ltbℤ (pos (bucket i.customer_id c.ramp_salt)) c.enforce_percent ≡ true)))
unfolding should_enforce effective_percent
should_enforce_iff o c i =
    (bucket_bound i.customer_id c.ramp_salt, ground (arith, should_enforce-eq o c i))
