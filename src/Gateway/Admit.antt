-- ===== src/Gateway/Admit.antt =====
-- internal/api/public/authorize.go: admit, which decides a request that the edge or the proxy passes on.
use bruiser_gateway.Prelude.{
  ℕ, Option, none, some, false, not, [], if◌then◌else◌, Text, text, is_empty,
}
use bruiser_gateway.Lease.{Execution}
use bruiser_gateway.Resource.{
  TextOps, canonical_id, malformed, unknown_resource, new_catalogue, catalogue_canonical,
}
use bruiser_gateway.Policy
use bruiser_gateway.Policy.{Decision, uncontrolled, leased, Terms}
use bruiser_gateway.Policy.Evaluate.{evaluate}
use bruiser_gateway.Controls.{should_enforce}
use bruiser_gateway.Merchant.{
  Route, Params, unmatched_allow, match_route, resource_for, controlled, first_nonempty,
}
use bruiser_gateway.Gateway.{Services, World, Setting, Customer}
use bruiser_gateway.Gateway.Settled.{Applied, apply_controls, ramp_input}
use bruiser_gateway.Gateway.Admission.{
  Admission, unmatched_route, unrouted, no_session, no_resource, bad_resource, uncontrolled_route,
  uncontrolled_rule, refused, AdmitInput, rule_of, noted,
}
use bruiser_gateway.Gateway.Enforce.{admit_enforced, admit_dry_run}

module _ {ℓ} {S : Type ℓ} (o : TextOps) (v : Services S) (s : Setting)
    (sign_execution : Execution → Option Text) (now : ℕ) where
  -- What follows the decision of the policy under the controls.
  unfoldable pub admit_decided :
      AdmitInput → Customer → (resource action : Text) → Applied → World S → World S × Admission
  admit_decided i c resource action d w =
      if d.control_none then (w, uncontrolled_rule (rule_of d.decision)) else elim d.decision [
        | uncontrolled rule ↦ (w, uncontrolled_rule rule)
        | Policy.denied rule why ↦
            let reason = first_nonempty why (text "denied") in
            let w' = noted resource c.customer_id (text "denied") w in
            (
              record w' {
                store =
                    v.record_decision
                      (record {
                        merchant_id = s.merchant_id;
                        would = text "DENIED";
                        reason = reason;
                        customer_id = c.customer_id;
                        principal_id = [];
                        resource = resource;
                        action = action;
                        rule_name = rule;
                        request_id = i.request_id;
                        enforced = false;
                        error = [];
                      })
                      w'.store;
              },
              refused reason rule,
            )
        | leased rule t ↦
            if should_enforce o s.controls
              (ramp_input s c.customer_id resource action rule i.event_id i.path c.anchors)
            then admit_enforced o v s sign_execution now i c resource action rule t w
            else admit_dry_run o v s sign_execution now i c resource action rule t w
      ]

  -- From the resource on.
  unfoldable pub admit_resource :
      AdmitInput → Customer → Route → (resource : Text) → World S → World S × Admission
  admit_resource i c route resource w =
      elim (catalogue_canonical o (new_catalogue o s.profile.resources) resource) [
        | malformed ↦ (w, bad_resource)
        | unknown_resource ↦ (w, bad_resource)
        | canonical_id canon ↦
            let res = first_nonempty canon resource in
            let d = evaluate o s.compiled (record {
              merchant_id = s.merchant_id;
              customer_id = c.customer_id;
              principal_type = text "agent";
              resource = res;
              action = route.action;
              anchors = c.anchors;
            }) in
            admit_decided i c res route.action (apply_controls s.controls d route.action) w
      ]

  -- Of a controlled route, from the customer's identity on.
  unfoldable pub admit_route : AdmitInput → Route → Params → World S → World S × Admission
  admit_route i route params w =
      let resource = resource_for o route params i.event_id in
      elim i.customer [
        | none ↦ (
          noted (first_nonempty resource route.match_on.path) [] (text "unauthorized") w,
          no_session,
        )
        | some c ↦
            if is_empty resource then (w, no_resource) else admit_resource i c route resource w
      ]

  -- Server.admit.
  unfoldable pub admit : AdmitInput → World S → World S × Admission
  admit i w = elim (match_route o i.method i.path s.profile.routes) [
    | none ↦ if unmatched_allow o s.profile then (w, unmatched_route) else (w, unrouted)
    | some (route, params) ↦
        if not (controlled route)
        then (w, uncontrolled_route route.action)
        else admit_route i route params w
  ]
