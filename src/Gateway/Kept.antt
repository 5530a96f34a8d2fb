-- ===== src/Gateway/Kept.antt =====
-- What the handlers of internal/api/public keep of the lease tables in a running gateway.
use bruiser_gateway.Prelude.{
  ℕ, ◌≤◌, ◌≡◌, refl, subst, sym, arith, Option, Text, text, is_empty, inl, inr, Bool-cases,
  Option-cases,
}
use bruiser_gateway.Lease.{
  Execution, AcquireResult, granted, already_held, busy, queued_at, denied, Result, ok, err,
}
use bruiser_gateway.Shadow.{DryRunEvent}
use bruiser_gateway.Budget.{ensure_budget, consume_op}
use bruiser_gateway.System.Safety.{Ready}
use bruiser_gateway.Resource.{TextOps, catalogue_canonical, new_catalogue}
use bruiser_gateway.Resource.Grammar.{Canonised-cases}
use bruiser_gateway.Policy.{Request, leased, Terms}
use bruiser_gateway.Policy.Evaluate.{evaluate}
use bruiser_gateway.Refinement.Capacities.{slots}
use bruiser_gateway.Controls.{should_enforce}
use bruiser_gateway.Merchant.{
  Route, Params, unmatched_allow, match_route, controlled, resource_for, first_nonempty,
}
use bruiser_gateway.Gateway.{World, Setting, Customer}
use bruiser_gateway.Gateway.Settled.{apply_controls, ramp_input}
use bruiser_gateway.Gateway.Admission.{AdmitInput}
use bruiser_gateway.Gateway.Enforce.{
  conclude, answer_acquire, acquire_request, after_acquire, after_session, admit_enforced,
  after_shadow, admit_dry_run,
}
use bruiser_gateway.Gateway.Admit.{admit_decided, admit_resource, admit_route, admit}
use bruiser_gateway.Gateway.Backend.{Tables, FreshIds, services}
use bruiser_gateway.Gateway.Safe.{Good, Good-acquire, Good-insert_session, Good-shadow_decide}
use bruiser_gateway.Gateway.Branches.{Decision-cases, BudgetResult-cases, settled_terms}

-- Every lease that the policy decides on asks for no more than the capacity of its domain.
abbrev pub PolicyFits : TextOps → (Text → Text → ℕ) → Setting → Type 0
PolicyFits o cap s =
    (req : Request) (rule : Text) (t : Terms)
    → evaluate o s.compiled req ≡ leased rule t
    → slots t.max_active ≤ cap req.merchant_id t.domain_key

-- The controls change neither a domain nor its capacity.
pub controlled_terms :
    (o : TextOps) (cap : Text → Text → ℕ) (s : Setting) (req : Request) (action rule : Text)
    (t : Terms)
    → PolicyFits o cap s
    → (apply_controls s.controls (evaluate o s.compiled req) action).decision ≡ leased rule t
    → slots t.max_active ≤ cap req.merchant_id t.domain_key
controlled_terms o cap s req action rule t fits h =
    let (t₀, e, same_capacity, same_domain) =
      settled_terms s.controls (evaluate o s.compiled req) action rule t h in
    let fit = fits req rule t₀ e in rw (same_capacity, same_domain) fit

module _ (o : TextOps) (cap : Text → Text → ℕ) (s : Setting) (fits : PolicyFits o cap s)
    (sign_execution : Execution → Option Text) (fresh : FreshIds) (now : ℕ) where
  abbrev Kept : World Tables → Type 0
  Kept w = Good cap now w.store

  conclude-db :
      (status_text outcome resource customer rid : Text) (t : Terms) (e : Execution)
      (w : World Tables)
      → (conclude o
          (services fresh)
          s
          sign_execution
          now
          status_text
          outcome
          resource
          customer
          rid
          t
          e
          w).0.store.db
        ≡ w.store.db
  unfolding conclude services
  conclude-db status_text outcome resource customer rid t e w =
      elim (Option-cases (sign_execution e)) [
        | inl refused ↦ ground arith
        | inr (token, signed) ↦
            let budgets = ensure_budget s.merchant_id e.id t.max_ops w.store.budgets in
            elim (BudgetResult-cases (consume_op s.merchant_id e.id budgets).1) [
              | inl over ↦ ground arith
              | inr (n, m, within) ↦ ground arith
            ]
      ]

  answer_acquire-db :
      (resource customer rid : Text) (t : Terms) (r : AcquireResult) (w : World Tables)
      → (answer_acquire o
          (services fresh)
          s
          sign_execution
          now
          resource
          customer
          rid
          t
          r
          w).0.store.db
        ≡ w.store.db
  unfolding answer_acquire
  answer_acquire-db resource customer rid t (granted e) w =
      conclude-db (text "GRANTED") (text "allow") resource customer rid t e w
  answer_acquire-db resource customer rid t (already_held e) w =
      conclude-db (text "ALREADY_HELD") (text "resume") resource customer rid t e w
  answer_acquire-db resource customer rid t (queued_at e b q) w = refl
  answer_acquire-db resource customer rid t (busy b) w = refl
  answer_acquire-db resource customer rid t (denied reason) w = refl

  module _ (i : AdmitInput) (c : Customer) (resource action rule : Text) (t : Terms)
      (fit : slots t.max_active ≤ cap s.merchant_id t.domain_key) where
    after_acquire-db :
        (r : Result AcquireResult) (w : World Tables)
        → (after_acquire o
            (services fresh)
            s
            sign_execution
            now
            i
            c
            resource
            action
            rule
            t
            r
            w).0.store.db
          ≡ w.store.db
    unfolding after_acquire services
    after_acquire-db (err e) w = refl
    after_acquire-db (ok a) w = answer_acquire-db resource c.customer_id i.request_id t a _

    after_session-Good :
        (r : Result (Unit {0})) (w : World Tables)
        → Kept w
        → Kept
            (after_session o (services fresh) s sign_execution now i c resource action rule t r w).0
    unfolding after_session acquire_request
    after_session-Good (err e) w h = h
    after_session-Good (ok done) w h =
        subst (Ready cap now) (sym (after_acquire-db _ _))
          (Good-acquire cap now fresh w.store h _ fit)

    admit_enforced-Good :
        (w : World Tables)
        → Kept w
        → Kept
            (admit_enforced o (services fresh) s sign_execution now i c resource action rule t w).0
    unfolding admit_enforced
    admit_enforced-Good w h = after_session-Good _ _ (Good-insert_session cap now fresh w.store h _)

    after_shadow-db :
        (r : Result DryRunEvent) (w : World Tables)
        → (after_shadow o
            (services fresh)
            s
            sign_execution
            now
            resource
            c.customer_id
            r
            w).0.store.db
          ≡ w.store.db
    unfolding after_shadow
    after_shadow-db (err e) w = refl
    after_shadow-db (ok ev) w = refl

    admit_dry_run-Good :
        (w : World Tables)
        → Kept w
        → Kept
            (admit_dry_run o (services fresh) s sign_execution now i c resource action rule t w).0
    unfolding admit_dry_run
    admit_dry_run-Good w h =
        subst (Ready cap now) (sym (after_shadow-db _ _))
          (Good-shadow_decide cap now fresh w.store h _)

  admit_decided-Good :
      (i : AdmitInput) (c : Customer) (req : Request) (w : World Tables)
      → req.merchant_id ≡ s.merchant_id
      → Kept w
      → Kept
          (admit_decided o
            (services fresh)
            s
            sign_execution
            now
            i
            c
            req.resource
            req.action
            (apply_controls s.controls (evaluate o s.compiled req) req.action)
            w).0
  unfolding admit_decided services
  admit_decided-Good i c req w own h =
      let d = apply_controls s.controls (evaluate o s.compiled req) req.action in
      elim (Bool-cases d.control_none) [
        | inl free ↦ rw (free, admit_decided) h
        | inr other ↦ elim (Decision-cases d.decision) [
          | inl (rule, e) ↦ rw (other, e, admit_decided) h
          | inr (inl (rule, why, e)) ↦ rw (other, e, admit_decided) h
          | inr (inr (rule, t, e)) ↦
              let fit = rw own at (controlled_terms o cap s req req.action rule t fits e) in
              elim (Bool-cases (
                should_enforce o s.controls (
                  ramp_input s c.customer_id req.resource req.action rule i.event_id i.path
                    c.anchors))) [
                      | inl on ↦
                          rw (other, e, on, admit_decided)
                            (admit_enforced-Good i c req.resource req.action rule t fit w h)
                      | inr off ↦
                          rw (other, e, off, admit_decided)
                            (admit_dry_run-Good i c req.resource req.action rule t fit w h)
                    ]
        ]
      ]

  admit_route-Good :
      (i : AdmitInput) (route : Route) (params : Params) (w : World Tables)
      → Kept w
      → Kept (admit_route o (services fresh) s sign_execution now i route params w).0
  unfolding admit_route admit_resource
  admit_route-Good i route params w h =
      let resource = resource_for o route params i.event_id in
      elim (Option-cases i.customer) [
        | inl nobody ↦ rw (nobody, admit_route) h
        | inr (c, who) ↦ elim (Bool-cases (is_empty resource)) [
          | inl blank ↦ rw (who, blank, admit_route) h
          | inr named ↦
              elim (Canonised-cases
                (catalogue_canonical o (new_catalogue o s.profile.resources) resource)) [
                  | inl (canon, e) ↦
                      rw (who, named, e, admit_route, admit_resource)
                        (admit_decided-Good i c
                          (record {
                            merchant_id = s.merchant_id;
                            customer_id = c.customer_id;
                            principal_type = text "agent";
                            resource = first_nonempty canon resource;
                            action = route.action;
                            anchors = c.anchors;
                          })
                          w refl h)
                  | inr (inl e) ↦ rw (who, named, e, admit_route, admit_resource) h
                  | inr (inr e) ↦ rw (who, named, e, admit_route, admit_resource) h
                ]
        ]
      ]

  pub admit-Good :
      (i : AdmitInput) (w : World Tables)
      → Kept w
      → Kept (admit o (services fresh) s sign_execution now i w).0
  unfolding admit
  admit-Good i w h = elim (Option-cases (match_route o i.method i.path s.profile.routes)) [
    | inl unrouted ↦ elim (Bool-cases (unmatched_allow o s.profile)) [
      | inl allow ↦ rw (unrouted, allow, admit) h
      | inr deny ↦ rw (unrouted, deny, admit) h
    ]
    | inr ((route, params), found) ↦ elim (Bool-cases (controlled route)) [
      | inl on ↦ rw (found, on, admit) (admit_route-Good i route params w h)
      | inr off ↦ rw (found, off, admit) h
    ]
  ]
