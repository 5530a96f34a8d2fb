-- ===== src/Gateway/Called.antt =====
-- What the handlers of executions and sessions keep of the lease tables in a running gateway:
-- internal/api/public/server.go.
use bruiser_gateway.Prelude.{
  ℕ, ◌≤◌, ◌≡◌, refl, subst, sym, ◌∙◌, [], Text, text, is_empty, inl, inr, Bool-cases, Option-cases,
}
use bruiser_gateway.Lease.{
  Principal, AcquireResult, granted, already_held, busy, queued_at, denied, Mode, Result, ok, err,
}
use bruiser_gateway.Shadow.{DryRunEvent}
use bruiser_gateway.Budget.{ReplayResult, claimed, replayed}
use bruiser_gateway.Resource.{TextOps, catalogue_canonical, new_catalogue}
use bruiser_gateway.Resource.Grammar.{Canonised-cases}
use bruiser_gateway.Policy.{Request, Terms}
use bruiser_gateway.Policy.Evaluate.{evaluate}
use bruiser_gateway.Refinement.Capacities.{slots}
use bruiser_gateway.System.Safety.{Ready}
use bruiser_gateway.Controls.{should_enforce}
use bruiser_gateway.Merchant.{first_nonempty}
use bruiser_gateway.Gateway.{World, Setting}
use bruiser_gateway.Gateway.Settled.{apply_controls, ramp_input}
use bruiser_gateway.Gateway.Sessions.{Claims}
use bruiser_gateway.Gateway.Calls.{
  AcquireInput, reply_acquire, with_budget, request_of, after_acquire, acquire_enforced,
  after_shadow, acquire_dry_run, acquire_decided, acquire_body, after_replay, replay_key,
  handle_acquire, handle_renew, handle_release, handle_revoke, handle_handoff,
}
use bruiser_gateway.Gateway.Backend.{Tables, FreshIds, services}
use bruiser_gateway.Gateway.Safe.{
  Good, Good-acquire, Good-renew, Good-release, Good-revoke, Good-handoff, Good-shadow_decide,
}
use bruiser_gateway.Gateway.Branches.{Decision-cases}
use bruiser_gateway.Gateway.Kept.{PolicyFits, controlled_terms}

module _ (o : TextOps) (cap : Text → Text → ℕ) (s : Setting) (fits : PolicyFits o cap s)
    (fresh : FreshIds) (now : ℕ) (sess : Claims) where
  abbrev Kept : World Tables → Type 0
  Kept w = Good cap now w.store

  reply_acquire-db :
      (resource : Text) (r : AcquireResult) (w : World Tables)
      → (reply_acquire o (services fresh) s now sess resource r w).0.store.db ≡ w.store.db
  unfolding reply_acquire
  reply_acquire-db resource (granted e) w = refl
  reply_acquire-db resource (already_held e) w = refl
  reply_acquire-db resource (queued_at e b q) w = refl
  reply_acquire-db resource (busy b) w = refl
  reply_acquire-db resource (denied reason) w = refl

  with_budget-db :
      (r : AcquireResult) (t : Terms) (w : Tables)
      → (with_budget o (services fresh) s now sess t.max_ops r w).db ≡ w.db
  unfolding with_budget services
  with_budget-db (granted e) t w = refl
  with_budget-db (already_held e) t w = refl
  with_budget-db (queued_at e b q) t w = refl
  with_budget-db (busy b) t w = refl
  with_budget-db (denied reason) t w = refl

  module _ (rid resource action rule : Text) (t : Terms)
      (fit : slots t.max_active ≤ cap sess.merchant_id t.domain_key) where
    after_acquire-db :
        (r : Result AcquireResult) (w : World Tables)
        → (after_acquire o (services fresh) s now sess rid resource action rule t r w).0.store.db
          ≡ w.store.db
    unfolding after_acquire services
    after_acquire-db (err e) w = refl
    after_acquire-db (ok a) w = reply_acquire-db resource a _ ∙ with_budget-db a t w.store

    acquire_enforced-Good :
        (w : World Tables)
        → Kept w
        → Kept (acquire_enforced o (services fresh) s now sess rid resource action rule t w).0
    unfolding acquire_enforced request_of
    acquire_enforced-Good w h =
        subst (Ready cap now) (sym (after_acquire-db _ _))
          (Good-acquire cap now fresh w.store h _ fit)

    after_shadow-db :
        (r : Result DryRunEvent) (w : World Tables)
        → (after_shadow o (services fresh) s now sess resource r w).0.store.db ≡ w.store.db
    unfolding after_shadow
    after_shadow-db (err e) w = refl
    after_shadow-db (ok ev) w = refl

    acquire_dry_run-Good :
        (w : World Tables)
        → Kept w
        → Kept (acquire_dry_run o (services fresh) s now sess rid resource action rule t w).0
    unfolding acquire_dry_run
    acquire_dry_run-Good w h =
        subst (Ready cap now) (sym (after_shadow-db _ _))
          (Good-shadow_decide cap now fresh w.store h _)

  acquire_decided-Good :
      (rid : Text) (req : Request) (w : World Tables)
      → req.merchant_id ≡ sess.merchant_id
      → Kept w
      → Kept
          (acquire_decided o
            (services fresh)
            s
            now
            sess
            rid
            req.resource
            req.action
            (apply_controls s.controls (evaluate o s.compiled req) req.action)
            w).0
  unfolding acquire_decided
  acquire_decided-Good rid req w own h =
      let d = apply_controls s.controls (evaluate o s.compiled req) req.action in
      elim (Bool-cases d.control_none) [
        | inl free ↦ rw (free, acquire_decided) h
        | inr other ↦ elim (Decision-cases d.decision) [
          | inl (rule, e) ↦ rw (other, e, acquire_decided) h
          | inr (inl (rule, why, e)) ↦ rw (other, e, acquire_decided) h
          | inr (inr (rule, t, e)) ↦
              let fit = rw own at (controlled_terms o cap s req req.action rule t fits e) in
              elim (Bool-cases (
                should_enforce o s.controls (
                  ramp_input s sess.customer_id req.resource req.action rule [] [] sess.anchors))) [
                    | inl on ↦
                        rw (other, e, on, acquire_decided)
                          (acquire_enforced-Good rid req.resource req.action rule t fit w h)
                    | inr off ↦
                        rw (other, e, off, acquire_decided)
                          (acquire_dry_run-Good rid req.resource req.action rule t fit w h)
                  ]
        ]
      ]

  acquire_body-Good :
      (rid raw action₀ : Text) (w : World Tables)
      → Kept w
      → Kept (acquire_body o (services fresh) s now sess rid (raw, action₀) w).0
  unfolding acquire_body
  acquire_body-Good rid raw action₀ w h = elim (Bool-cases (is_empty raw)) [
    | inl blank ↦ rw (blank, acquire_body) h
    | inr named ↦
        elim (Canonised-cases (catalogue_canonical o (new_catalogue o s.profile.resources) raw)) [
          | inl (resource, e) ↦
              rw (named, e, acquire_body)
                (acquire_decided-Good rid
                  (record {
                    merchant_id = sess.merchant_id;
                    customer_id = sess.customer_id;
                    principal_type = sess.principal_type;
                    resource = resource;
                    action = first_nonempty action₀ (text "purchase");
                    anchors = sess.anchors;
                  })
                  w refl h)
          | inr (inl e) ↦ rw (named, e, acquire_body) h
          | inr (inr e) ↦ rw (named, e, acquire_body) h
        ]
  ]

  after_replay-Good :
      (i : AcquireInput) (r : Result ReplayResult) (w : World Tables)
      → Kept w
      → Kept (after_replay o (services fresh) s now sess i r w).0
  unfolding after_replay
  after_replay-Good i (err e) w h = h
  after_replay-Good i (ok replayed) w h = h
  after_replay-Good i (ok claimed) w h = elim (Option-cases i.body) [
    | inl nothing ↦ rw (nothing, after_replay) h
    | inr ((raw, action), given) ↦
        rw (given, after_replay) (acquire_body-Good i.request_id raw action w h)
  ]

  pub handle_acquire-Good :
      (i : AcquireInput) (w : World Tables)
      → Kept w
      → Kept (handle_acquire o (services fresh) s now sess i w).0
  unfolding handle_acquire services
  handle_acquire-Good i w h = elim (Bool-cases (is_empty (replay_key i))) [
    | inl keyless ↦ rw (keyless, handle_acquire) (after_replay-Good i (ok claimed) w h)
    | inr keyed ↦ rw (keyed, handle_acquire) (after_replay-Good i _ _ h)
  ]

  module _ (x rid : Text) (w : World Tables) (h : Kept w) where
    pub handle_renew-Good : Kept (handle_renew o (services fresh) s now sess x rid w).0
    unfolding handle_renew
    handle_renew-Good = Good-renew cap now fresh w.store h _ _ _ _ _

    pub handle_release-Good : Kept (handle_release o (services fresh) s now sess x rid w).0
    unfolding handle_release
    handle_release-Good = Good-release cap now fresh w.store h _ _ _ _

    pub handle_revoke-Good :
        (reason : Text) → Kept (handle_revoke o (services fresh) s now sess x rid reason w).0
    unfolding handle_revoke
    handle_revoke-Good reason = Good-revoke cap now fresh w.store h _ _ _ _ _

    pub handle_handoff-Good :
        (to : Principal) (mode : Mode)
        → Kept (handle_handoff o (services fresh) s now sess x rid to mode w).0
    unfolding handle_handoff
    handle_handoff-Good to mode = Good-handoff cap now fresh w.store h _
