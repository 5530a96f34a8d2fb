-- ===== src/Controls/Raised.antt =====
-- Raising the ramp: internal/ops/ramp.go InRamp under a growing percentage.
use bruiser_gateway.Prelude.{◌≡◌, arith, true, ℤ, pos, lebℤ, ltbℤ, ℕ}
use bruiser_gateway.Resource.{TextOps}
use bruiser_gateway.Controls.{RampInput, Controls, bucket, should_enforce}
use bruiser_gateway.Controls.Enforced.{should_enforce-eq}

lt_le_trans : (b : ℕ) (p q : ℤ) → ltbℤ (pos b) p ≡ true → lebℤ p q ≡ true → ltbℤ (pos b) q ≡ true
lt_le_trans b p q h l = ground arith

-- No customer flips back. A request that is enforced is still enforced, whatever the strings of the request, after the percentage alone is raised.
pub should_enforce-raised :
    (o : TextOps) (c : Controls) (q : ℤ) (i : RampInput)
    → lebℤ c.enforce_percent q ≡ true
    → should_enforce o c i ≡ true
    → should_enforce o (record c { enforce_percent = q }) i ≡ true
should_enforce-raised o c q i le h =
    let before = should_enforce-eq o c i in
    let after = should_enforce-eq o (record c { enforce_percent = q }) i in
    ground
      (arith, before, after, lt_le_trans (bucket i.customer_id c.ramp_salt) c.enforce_percent q)
