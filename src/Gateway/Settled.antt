-- ===== src/Gateway/Settled.antt =====
-- internal/api/public/server.go: a request's decision once the operator's controls are applied to it.
use bruiser_gateway.Prelude.{
  ◌*◌, ◌%◌, ◌-◌, ◌^◌, Option, none, some, Bool, true, false, not, ◌||◌, List, [], ◌∷◌,
  if◌then◌else◌, ltb, ◌==◌, Text, text, text_eq, is_empty, ℤ, pos, neg, ltbℤ, pos_part, select_row,
}
use bruiser_gateway.Policy.{Terms, Decision, uncontrolled, denied, leased}
use bruiser_gateway.Controls.{Controls, RampInput, pass_through, effective_waiters, action_disabled}
use bruiser_gateway.Gateway.{Setting}

-- int64(n) * int64(time.Second), for n > 0: the product wraps around at 64 bits.
unfoldable pub seconds : ℤ → ℤ
seconds n =
    let v = pos_part n * 1000000000 % 2 ^ 64 in if ltb v (2 ^ 63) then pos v else neg (2 ^ 64 - v)

unfoldable pub with_controls : Controls → Terms → Terms
with_controls c t = record t {
  max_waiters = effective_waiters c t.max_waiters;
  ttl = if ltbℤ (pos 0) c.lease_ttl_seconds then seconds c.lease_ttl_seconds else t.ttl;
}

-- A decision and its flag ControlNone, which a disabled action sets whatever the decision is.
pub record Applied : Type 0 where
  pub decision : Decision
  pub control_none : Bool

abbrev is_free : Decision → Bool
is_free (uncontrolled name) = true
is_free (denied name reason) = false
is_free (leased name t) = false

abbrev settle_terms : Controls → Decision → Decision
settle_terms c (uncontrolled name) = uncontrolled name
settle_terms c (denied name reason) = denied name reason
settle_terms c (leased name t) = leased name (with_controls c t)

unfoldable pub apply_controls : Controls → Decision → Text → Applied
apply_controls c d action = record {
  decision = settle_terms c d;
  control_none = is_free d || action_disabled c action;
}

-- Server.failOpen.
unfoldable pub fail_open : Controls → Bool
fail_open c = not c.fail_closed || pass_through c

-- What follows the last colon, where there is one.
unfoldable pub after_last_colon : Text → Option Text
after_last_colon [] = none
after_last_colon (c ∷ s) = elim (after_last_colon s) [
  | some t ↦ some t
  | none ↦ if c == 58 then some s else none
]

abbrev or_blank : Option Text → Text
or_blank none = []
or_blank (some t) = t

abbrev anchor : Text → List (Text × Text) → Text
anchor name anchors = elim (select_row (λ p. text_eq p.0 name) anchors) [ some p ↦ p.1 | none ↦ [] ]

unfoldable pub ramp_input :
    Setting → (customer resource action rule event path : Text) → List (Text × Text) → RampInput
ramp_input s customer resource action rule event path anchors = record {
  customer_id = customer;
  resource = resource;
  action = action;
  rule_name = rule;
  event_id = if is_empty event then or_blank (after_last_colon resource) else event;
  path = path;
  pool = anchor (text "pool") anchors;
  cohort = anchor (text "cohort") anchors;
  env = s.environment;
}
