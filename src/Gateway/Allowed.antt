-- ===== src/Gateway/Allowed.antt =====
-- Why a request is let through: internal/api/public/authorize.go, over any store.
use bruiser_gateway.Prelude.{
  ℕ, ◌≡◌, refl, sym, ap, ◌∙◌, subst, arith, Option, none, some, true, false, Text, text, is_empty,
  ℤ, inl, inr, Bool-cases, Option-cases,
}
use bruiser_gateway.Lease.{Execution, AcquireRequest, AcquireResult, Error, Result, ok, err}
use bruiser_gateway.Store.{Session}
use bruiser_gateway.Resource.{TextOps, catalogue_canonical, new_catalogue, canonical_id}
use bruiser_gateway.Budget.{used}
use bruiser_gateway.Resource.Grammar.{Canonised-cases}
use bruiser_gateway.Shadow.{DryRunEvent}
use bruiser_gateway.Policy.{Request, leased, Terms}
use bruiser_gateway.Policy.Evaluate.{evaluate}
use bruiser_gateway.Controls.{should_enforce}
use bruiser_gateway.Merchant.{
  Route, Params, unmatched_allow, match_route, controlled, resource_for, first_nonempty,
}
use bruiser_gateway.Gateway.{Services, World, Setting, Customer}
use bruiser_gateway.Gateway.Settled.{Applied, apply_controls, fail_open, ramp_input}
use bruiser_gateway.Gateway.Admission.{
  Admission, unmatched_route, uncontrolled_route, uncontrolled_rule, observed, failed_open,
  admitted, allows, AdmitInput, rule_of, admit_store_error,
}
use bruiser_gateway.Gateway.Enforce.{
  acquire_request, session_of, after_acquire, after_session, admit_enforced, after_shadow,
  admit_dry_run,
}
use bruiser_gateway.Gateway.Admit.{admit_decided, admit_resource, admit_route, admit}
use bruiser_gateway.Gateway.Branches.{
  Holds, Decision-cases, free-control_none, answer_acquire-allowed, admit_store_error-allowed,
}

module _ {ℓ} {S : Type ℓ} (o : TextOps) (v : Services S) (s : Setting)
    (sign_execution : Execution → Option Text) (now : ℕ) where
  -- A lease of the terms, for the customer, signed and with an operation of its budget used.
  pub record Leased (c : Customer) (t : Terms) (e : Execution) (token : Text) : Type ℓ where
    pub request : AcquireRequest
    pub of_customer : request.customer_id ≡ c.customer_id
    pub of_domain : request.domain_key ≡ t.domain_key
    pub of_capacity : request.max_active ≡ t.max_active
    pub before : S
    pub answer : AcquireResult
    pub from_store : (v.acquire now request before).1 ≡ ok answer
    pub holds : Holds answer e
    pub signed : sign_execution e ≡ some token
    pub spending : S
    pub count : ℕ
    pub limit : ℤ
    pub spent : (v.consume_op s.merchant_id e.id spending).1 ≡ ok (used count limit)

  -- The store, as the request finds it, answered an error to a call for the customer's lease: to the insertion of its session, or to the acquisition in the domain of the terms that follows it.
  pub data Failed (c : Customer) (t : Terms) (w : World S) (e : Error) : Type ℓ where
    on_session :
        (row : Session)
        → row.customer_id ≡ c.customer_id
        → (v.insert_session now row w.store).1 ≡ err e
        → Failed c t w e
    on_acquire :
        (row : Session) (request : AcquireRequest)
        → (v.insert_session now row w.store).1 ≡ ok tt
        → request.customer_id ≡ c.customer_id
        → request.domain_key ≡ t.domain_key
        → (v.acquire now request (v.insert_session now row w.store).0).1 ≡ err e
        → Failed c t w e

  -- What the policy is asked for a request: its own customer, the action of the route that it takes, and the resource that the route gives, in canonical form.
  pub record Asked (i : AdmitInput) (c : Customer) (req : Request) : Type 0 where
    pub who : i.customer ≡ some c
    pub route : Route
    pub params : Params
    pub found : match_route o i.method i.path s.profile.routes ≡ some (route, params)
    pub canon : Text
    pub canonised :
        catalogue_canonical o
          (new_catalogue o s.profile.resources)
          (resource_for o route params i.event_id)
        ≡ canonical_id canon
    pub asks : req ≡ record {
      merchant_id = s.merchant_id;
      customer_id = c.customer_id;
      principal_type = text "agent";
      resource = first_nonempty canon (resource_for o route params i.event_id);
      action = route.action;
      anchors = c.anchors;
    }

  -- The decision on a request, under the operator's controls.
  abbrev pub decision_on : Request → Applied
  decision_on req = apply_controls s.controls (evaluate o s.compiled req) req.action

  -- The ways to be let through.
  pub data Leave (i : AdmitInput) (w : World S) : Admission → Type ℓ where
    by_profile :
        match_route o i.method i.path s.profile.routes ≡ none
        → unmatched_allow o s.profile ≡ true
        → Leave i w unmatched_route
    by_route :
        (route : Route) (params : Params)
        → match_route o i.method i.path s.profile.routes ≡ some (route, params)
        → controlled route ≡ false
        → Leave i w (uncontrolled_route route.action)
    by_rule :
        (c : Customer) (req : Request)
        → Asked i c req
        → (decision_on req).control_none ≡ true
        → Leave i w (uncontrolled_rule (rule_of (decision_on req).decision))
    by_ramp :
        (c : Customer) (req : Request) (rule would reason : Text) (t : Terms)
        → Asked i c req
        → (decision_on req).decision ≡ leased rule t
        → should_enforce o s.controls
            (ramp_input s c.customer_id req.resource req.action rule i.event_id i.path c.anchors)
          ≡ false
        → Leave i w (observed would reason)
    by_failure :
        (c : Customer) (req : Request) (rule : Text) (t : Terms) (e : Error)
        → Asked i c req
        → (decision_on req).decision ≡ leased rule t
        → Failed c t w e
        → fail_open s.controls ≡ true
        → Leave i w failed_open
    by_lease :
        (c : Customer) (req : Request) (rule : Text) (t : Terms) (e : Execution) (token : Text)
        → Asked i c req
        → (decision_on req).decision ≡ leased rule t
        → Leased c t e token
        → Leave i w (admitted e token)

  module _ (i : AdmitInput) (c : Customer) (req : Request) (asked : Asked i c req) (rule : Text)
      (t : Terms) (decided : (decision_on req).decision ≡ leased rule t) (w₀ w' : World S)
      (a : Admission) where
    failure :
        (e : Error)
        → Failed c t w₀ e
        → admit_store_error s.controls e ≡ a
        → allows a ≡ true
        → Leave i w₀ a
    failure e failed h k =
        let (same, open_ended) = admit_store_error-allowed o v s sign_execution now e a h k in
        subst (Leave i w₀) (sym same) (by_failure c req rule t e asked decided failed open_ended)

    after_acquire-allowed :
        (before : S) (r : Result AcquireResult) (w : World S)
        → (v.insert_session now (session_of o v s sign_execution now i c) w₀.store
            ≡ (before, ok tt))
        → (v.acquire now
            (acquire_request o v s sign_execution now i c req.resource req.action rule t)
            before).1
          ≡ r
        → after_acquire o v s sign_execution now i c req.resource req.action rule t r w ≡ (w', a)
        → allows a ≡ true
        → Leave i w₀ a
    unfolding after_acquire acquire_request
    after_acquire-allowed before (err e) w inserted answered h k =
        let request = acquire_request o v s sign_execution now i c req.resource req.action rule t in
        failure e
          (on_acquire (session_of o v s sign_execution now i c) request (ap (λ p. p.1) inserted)
            refl refl (ap (λ p. (v.acquire now request p.0).1) inserted ∙ answered))
          (ap (λ p. p.1) h) k
    after_acquire-allowed before (ok r) w inserted answered h k =
        let (e, token, n, m, x, holds, signed, same, spent) =
          answer_acquire-allowed o v s sign_execution now req.resource c.customer_id i.request_id t
            r _ w' a h k in
        subst (Leave i w₀) (sym same) (
          by_lease c req rule t e token asked decided (record {
            request = acquire_request o v s sign_execution now i c req.resource req.action rule t;
            of_customer = refl;
            of_domain = refl;
            of_capacity = refl;
            before = before;
            answer = r;
            from_store = answered;
            holds = holds;
            signed = signed;
            spending = x;
            count = n;
            limit = m;
            spent = spent;
          }))

    after_session-allowed :
        (before : S) (r : Result (Unit {0})) (w : World S)
        → v.insert_session now (session_of o v s sign_execution now i c) w₀.store ≡ (before, r)
        → w.store ≡ before
        → after_session o v s sign_execution now i c req.resource req.action rule t r w ≡ (w', a)
        → allows a ≡ true
        → Leave i w₀ a
    unfolding after_session session_of
    after_session-allowed before (err e) w answered left h k =
        failure e
          (on_session (session_of o v s sign_execution now i c) refl (ap (λ p. p.1) answered))
          (ap (λ p. p.1) h) k
    after_session-allowed before (ok tt) w answered left h k =
        after_acquire-allowed w.store _ _ (answered ∙ ap (λ x. (x, ok tt)) (sym left)) refl h k

    admit_enforced-allowed :
        admit_enforced o v s sign_execution now i c req.resource req.action rule t w₀ ≡ (w', a)
        → allows a ≡ true
        → Leave i w₀ a
    unfolding admit_enforced
    admit_enforced-allowed h k = after_session-allowed _ _ _ refl refl h k

    after_shadow-allowed :
        (r : Result DryRunEvent) (w : World S)
        → should_enforce o s.controls
            (ramp_input s c.customer_id req.resource req.action rule i.event_id i.path c.anchors)
          ≡ false
        → after_shadow o v s sign_execution now req.resource c.customer_id r w ≡ (w', a)
        → Leave i w₀ a
    unfolding after_shadow
    after_shadow-allowed (err e) w off h =
        subst (Leave i w₀) (ap (λ p. p.1) h) (by_ramp c req rule _ _ t asked decided off)
    after_shadow-allowed (ok ev) w off h =
        subst (Leave i w₀) (ap (λ p. p.1) h) (by_ramp c req rule _ _ t asked decided off)

    admit_dry_run-allowed :
        (w : World S)
        → should_enforce o s.controls
            (ramp_input s c.customer_id req.resource req.action rule i.event_id i.path c.anchors)
          ≡ false
        → admit_dry_run o v s sign_execution now i c req.resource req.action rule t w ≡ (w', a)
        → Leave i w₀ a
    unfolding admit_dry_run
    admit_dry_run-allowed w off h = after_shadow-allowed _ _ off h

  admit_decided-allowed :
      (i : AdmitInput) (c : Customer) (req : Request) (w w' : World S) (a : Admission)
      → Asked i c req
      → admit_decided o v s sign_execution now i c req.resource req.action (decision_on req) w
        ≡ (w', a)
      → allows a ≡ true
      → Leave i w a
  unfolding admit_decided allows
  admit_decided-allowed i c req w w' a asked h k =
      let d = decision_on req in
      elim (Bool-cases d.control_none) [
        | inl free ↦ subst (Leave i w) (ground arith) (by_rule c req asked free)
        | inr controlled_so ↦ elim (Decision-cases d.decision) [
          | inl (rule, e) ↦ absurd (
              ground
                (arith, free-control_none s.controls (evaluate o s.compiled req) req.action rule))
          | inr (inl (rule, why, e)) ↦ absurd (ground arith)
          | inr (inr (rule, t, e)) ↦
              let x =
                ramp_input s c.customer_id req.resource req.action rule i.event_id i.path
                  c.anchors in
              elim (Bool-cases (should_enforce o s.controls x)) [
                | inl on ↦ admit_enforced-allowed i c req asked rule t e w w' a (ground arith) k
                | inr off ↦ admit_dry_run-allowed i c req asked rule t e w w' a w off (ground arith)
              ]
        ]
      ]

  admit_route-allowed :
      (i : AdmitInput) (route : Route) (params : Params) (w w' : World S) (a : Admission)
      → match_route o i.method i.path s.profile.routes ≡ some (route, params)
      → admit_route o v s sign_execution now i route params w ≡ (w', a)
      → allows a ≡ true
      → Leave i w a
  unfolding admit_route admit_resource allows
  admit_route-allowed i route params w w' a found h k =
      let resource = resource_for o route params i.event_id in
      elim (Option-cases i.customer) [
        | inl nobody ↦ absurd (ground arith)
        | inr (c, who) ↦ elim (Bool-cases (is_empty resource)) [
          | inl blank ↦ absurd (ground arith)
          | inr named ↦
              elim (Canonised-cases
                (catalogue_canonical o (new_catalogue o s.profile.resources) resource)) [
                  | inl (canon, e) ↦
                      admit_decided-allowed i c
                        (record {
                          merchant_id = s.merchant_id;
                          customer_id = c.customer_id;
                          principal_type = text "agent";
                          resource = first_nonempty canon resource;
                          action = route.action;
                          anchors = c.anchors;
                        })
                        w w' a
                        (record {
                          who = who;
                          route = route;
                          params = params;
                          found = found;
                          canon = canon;
                          canonised = e;
                          asks = refl;
                        })
                        (rw (who, named, e, admit_route, admit_resource) at h) k
                  | inr (inl e) ↦ absurd (ground arith)
                  | inr (inr e) ↦ absurd (ground arith)
                ]
        ]
      ]

  -- Why a request is let through, whatever the store answers. The profile allows unmatched routes and the request has none; or its route is not controlled; or the policy's rule or the operator's list of disabled actions leaves the action uncontrolled; or the ramp does not enforce it; or the store, as the request found it, answered an error to the insertion of the session or to the acquisition that follows it, and the controls fail open; or the store has answered that the request's own customer holds a lease, new or kept, of the domain and the capacity that the policy decides, its token is signed, and an operation of its budget was used.
  pub admit_allowed :
      (i : AdmitInput) (w w' : World S) (a : Admission)
      → admit o v s sign_execution now i w ≡ (w', a)
      → allows a ≡ true
      → Leave i w a
  unfolding admit allows
  admit_allowed i w w' a h k =
      elim (Option-cases (match_route o i.method i.path s.profile.routes)) [
        | inl unrouted ↦ elim (Bool-cases (unmatched_allow o s.profile)) [
          | inl allow ↦ subst (Leave i w) (ground arith) (by_profile unrouted allow)
          | inr deny ↦ absurd (ground arith)
        ]
        | inr ((route, params), found) ↦ elim (Bool-cases (controlled route)) [
          | inl on ↦ admit_route-allowed i route params w w' a found (ground arith) k
          | inr off ↦ subst (Leave i w) (ground arith) (by_route route params found off)
        ]
      ]
