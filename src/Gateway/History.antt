-- ===== src/Gateway/History.antt =====
-- A running gateway: requests to the handlers of internal/api/public, and the sweeps and the operator's
-- calls of cmd/bruiser and internal/api/public/admin.go, one after the other.
use bruiser_gateway.Prelude.{
  ℕ, ◌≤◌, ◌≡◌, subst, sym, Option, none, some, not, ◌&&◌, ◌==◌, List, [], ◌∷◌, Text, text, text_eq,
  is_empty, inl, inr, Bool-cases, Option-cases, count_where,
}
use bruiser_gateway.Lease.{Principal, Execution, Mode}
use bruiser_gateway.Store.{in_domain}
use bruiser_gateway.Store.Promote.{count_live}
use bruiser_gateway.Ledger.Promises.{Inv-later}
use bruiser_gateway.Resource.{TextOps}
use bruiser_gateway.System.{Call, step, empty_db, CallFits}
use bruiser_gateway.System.Safety.{Ready, empty_db-Ready, step-Ready, Ready-later}
use bruiser_gateway.Merchant.{first_nonempty}
use bruiser_gateway.Gateway.{World, Setting, Customer}
use bruiser_gateway.Gateway.Admission.{AdmitInput}
use bruiser_gateway.Gateway.Admit.{admit}
use bruiser_gateway.Gateway.Sessions.{
  Claims, SessionReq, Authorised, authorised, unauthorised, create_session_for, create_session,
  logout_session, own_claims, session_auth, session_row,
}
use bruiser_gateway.Gateway.Calls.{
  AcquireInput, handle_acquire, handle_renew, handle_release, handle_revoke, handle_handoff,
}
use bruiser_gateway.Gateway.Backend.{Tables, FreshIds, services}
use bruiser_gateway.Gateway.Safe.{Good, Good-insert_session, Good-revoke_session}
use bruiser_gateway.Gateway.Kept.{PolicyFits, admit-Good}
use bruiser_gateway.Gateway.Called.{
  handle_acquire-Good, handle_renew-Good, handle_release-Good, handle_revoke-Good,
  handle_handoff-Good,
}

-- The calls that need a session's token.
pub data SessionCall : Type 0 where
  acquires : AcquireInput → SessionCall
  renews releases : (execution_id request_id : Text) → SessionCall
  revokes : (execution_id request_id reason : Text) → SessionCall
  hands_off : (execution_id request_id : Text) → Principal → Mode → SessionCall

pub data Event : Type 0 where
  admits : AdmitInput → Event
  under_session : (bearer : Text) → SessionCall → Event
  creates_session : Option Customer → Option SessionReq → (fresh_session : Text) → Event
  logs_out : (bearer : Text) → Event
  background : Call → Event

-- An event, its time, the ids that are drawn for it, and the setting that it sees: policy and controls may change between events.
pub record Moment : Type 0 where
  pub now : ℕ
  pub fresh : FreshIds
  pub setting : Setting
  pub event : Event

-- The signing and the parsing of tokens.
pub record Signer : Type 0 where
  pub sign_execution : Execution → Option Text
  pub sign_session : Claims → Option Text
  pub parse_session : Text → Option Claims

module _ (o : TextOps) (g : Signer) where
  unfoldable pub call : ℕ → FreshIds → Setting → Claims → SessionCall → World Tables → World Tables
  call now fresh s c (acquires i) w = (handle_acquire o (services fresh) s now c i w).0
  call now fresh s c (renews x rid) w = (handle_renew o (services fresh) s now c x rid w).0
  call now fresh s c (releases x rid) w = (handle_release o (services fresh) s now c x rid w).0
  call now fresh s c (revokes x rid reason) w =
      (handle_revoke o (services fresh) s now c x rid reason w).0
  call now fresh s c (hands_off x rid to mode) w =
      (handle_handoff o (services fresh) s now c x rid to mode w).0

  -- The claims of the token, or none where it is refused.
  abbrev with_claims :
      ℕ → FreshIds → Setting → Authorised → SessionCall → World Tables → World Tables
  with_claims now fresh s (authorised c) k w = call now fresh s c k w
  with_claims now fresh s (unauthorised status) k w = w

  unfoldable pub handle : ℕ → FreshIds → Setting → Event → World Tables → World Tables
  handle now fresh s (admits i) w = (admit o (services fresh) s g.sign_execution now i w).0
  handle now fresh s (under_session raw k) w =
      with_claims now fresh s (session_auth (services fresh) s now g.parse_session raw w.store) k w
  handle now fresh s (creates_session c body fresh_session) w = record w {
    store = (create_session (services fresh) s now g.sign_session c body fresh_session w.store).0;
  }
  handle now fresh s (logs_out raw) w = record w {
    store = (logout_session (services fresh) s now g.parse_session raw w.store).0;
  }
  handle now fresh s (background c) w = record w {
    store = record w.store { db = step now c w.store.db };
  }

  unfoldable pub serve : List Moment → World Tables → World Tables
  serve [] w = w
  serve (x ∷ xs) w = serve xs (handle x.now x.fresh x.setting x.event w)

-- The events take effect in the order of their times.
abbrev pub Timely : ℕ → List Moment → Type 0
Timely since [] = Unit
Timely since (x ∷ xs) = (since ≤ x.now) × Timely x.now xs

abbrev pub latest : ℕ → List Moment → ℕ
latest since [] = since
latest since (x ∷ xs) = latest x.now xs

abbrev pub EventFits : (Text → Text → ℕ) → Event → Type 0
EventFits cap (background c) = CallFits cap c
EventFits cap _ = Unit

-- Every policy and every call of the background asks for no more than the capacities.
abbrev pub AllFit : TextOps → (Text → Text → ℕ) → List Moment → Type 0
AllFit o cap [] = Unit
AllFit o cap (x ∷ xs) = (PolicyFits o cap x.setting × EventFits cap x.event) × AllFit o cap xs

module _ (o : TextOps) (g : Signer) (cap : Text → Text → ℕ) where
  module _ (s : Setting) (fits : PolicyFits o cap s) (fresh : FreshIds) (now : ℕ) where
    call-Good :
        (c : Claims) (k : SessionCall) (w : World Tables)
        → Good cap now w.store
        → Good cap now (call o g now fresh s c k w).store
    unfolding call
    call-Good c (acquires i) w h = handle_acquire-Good o cap s fits fresh now c i w h
    call-Good c (renews x rid) w h = handle_renew-Good o cap s fits fresh now c x rid w h
    call-Good c (releases x rid) w h = handle_release-Good o cap s fits fresh now c x rid w h
    call-Good c (revokes x rid reason) w h =
        handle_revoke-Good o cap s fits fresh now c x rid w h reason
    call-Good c (hands_off x rid to mode) w h =
        handle_handoff-Good o cap s fits fresh now c x rid w h to mode

    with_claims-Good :
        (a : Authorised) (k : SessionCall) (w : World Tables)
        → Good cap now w.store
        → Good cap now (with_claims o g now fresh s a k w).store
    with_claims-Good (authorised c) k w h = call-Good c k w h
    with_claims-Good (unauthorised status) k w h = h

    create_session_for-Good :
        (c : Customer) (body : SessionReq) (fresh_session : Text) (t : Tables)
        → Good cap now t
        → Good cap now
            (create_session_for (services fresh) s now g.sign_session c body fresh_session t).0
    unfolding create_session_for
    create_session_for-Good c body fresh_session t h =
        let type = first_nonempty body.type (text "agent") in
        let stored =
          Good-insert_session cap now fresh t h
            (session_row (services fresh) s now c type body.id fresh_session) in
        elim (Bool-cases
          (not (text_eq type (text "agent")) && not (text_eq type (text "browser")))) [
            | inl wrong ↦ rw (wrong, create_session_for) h
            | inr fine ↦ elim (Bool-cases (is_empty body.id)) [
              | inl blank ↦ rw (fine, blank, create_session_for) h
              | inr named ↦ rw (fine, named, create_session_for) stored
            ]
          ]

    create_session-Good :
        (c : Option Customer) (body : Option SessionReq) (fresh_session : Text) (t : Tables)
        → Good cap now t
        → Good cap now
            (create_session (services fresh) s now g.sign_session c body fresh_session t).0
    unfolding create_session create_session_for
    create_session-Good none body fresh_session t h = h
    create_session-Good (some c) body fresh_session t h =
        elim (Bool-cases (is_empty c.customer_id)) [
          | inl nobody ↦ rw (nobody, create_session) h
          | inr somebody ↦ elim (Option-cases body) [
            | inl nothing ↦ rw (somebody, nothing, create_session) h
            | inr (b, given) ↦
                rw (somebody, given, create_session) (create_session_for-Good c b fresh_session t h)
          ]
        ]

    logout_session-Good :
        (raw : Text) (t : Tables)
        → Good cap now t
        → Good cap now (logout_session (services fresh) s now g.parse_session raw t).0
    unfolding logout_session
    logout_session-Good raw t h = elim (Bool-cases (is_empty raw)) [
      | inl blank ↦ rw (blank, logout_session) h
      | inr token ↦ elim (Option-cases (own_claims (services fresh) s now g.parse_session raw)) [
        | inl bad ↦ rw (token, bad, logout_session) h
        | inr (c, good) ↦
            rw (token, good, logout_session)
              (Good-revoke_session cap now fresh t h s.merchant_id c.session_id)
      ]
    ]

    handle-Good :
        (e : Event) (w : World Tables)
        → EventFits cap e
        → Good cap now w.store
        → Good cap now (handle o g now fresh s e w).store
    unfolding handle
    handle-Good (admits i) w fit h = admit-Good o cap s fits g.sign_execution fresh now i w h
    handle-Good (under_session raw k) w fit h = with_claims-Good _ k w h
    handle-Good (creates_session c body fresh_session) w fit h =
        create_session-Good c body fresh_session w.store h
    handle-Good (logs_out raw) w fit h = logout_session-Good raw w.store h
    handle-Good (background c) w fit h = step-Ready cap now c w.store.db fit h

  serve-Good :
      (since : ℕ) (xs : List Moment) (w : World Tables)
      → Timely since xs
      → AllFit o cap xs
      → Good cap since w.store
      → Good cap (latest since xs) (serve o g xs w).store
  unfolding serve
  serve-Good since [] w timely fit h = h
  serve-Good since (x ∷ xs) w timely fit h = serve-Good x.now xs _ timely.1 fit.1 (
      handle-Good x.setting fit.0.0 x.fresh x.now x.event w fit.0.1
        (Ready-later cap since x.now w.store.db timely.0 h))

  -- The gateway as a whole. From empty lease tables, after any events of requests, sweeps and operator's calls that take effect in the order of their times, under policies and controls that may change between them and ask for no more than the capacities, and at every time from the last event on, a domain has no more live leases than its capacity, and has given each fence to one execution at most.
  pub serve-count_live-le :
      (since : ℕ) (xs : List Moment) (w : World Tables) (later : ℕ) (m k : Text) (f : ℕ)
      → w.store.db ≡ empty_db
      → Timely since xs
      → AllFit o cap xs
      → latest since xs ≤ later
      → (count_live later m k (serve o g xs w).store.db ≤ cap m k)
        × (count_where (λ r. in_domain m k r && r.fence == f) (serve o g xs w).store.db.executions
            ≤ 1)
  serve-count_live-le since xs w later m k f empty timely fit late =
      let start = subst (Ready cap since) (sym empty) (empty_db-Ready cap since) in
      let v = Inv-later later late (serve-Good since xs w timely fit start).inv in
      (v.within_capacity m k, v.distinct_fences m k f)
