-- ===== src/Gateway/Sessions.antt =====
-- internal/api/public/server.go: createSession, logoutSession, refreshSession and the check of a
-- session's token. The signing and the parsing of tokens are arguments.
use bruiser_gateway.Prelude.{
  ℕ, Option, none, some, not, ◌&&◌, List, if◌then◌else◌, Text, text, text_eq, is_empty,
}
use bruiser_gateway.Lease.{Error, unavailable, Result, ok, err}
use bruiser_gateway.Store.{Session}
use bruiser_gateway.Store.Sessions.{SessionResult, live, no_rows, wrong_merchant, session_revoked}
use bruiser_gateway.Merchant.{first_nonempty}
use bruiser_gateway.Gateway.{Services, Setting, Customer, after}
use bruiser_gateway.Gateway.Errors.{store_error}
use bruiser_gateway.Gateway.Settled.{fail_open}

-- auth.SessionClaims, less the registered ones but the expiry.
pub record Claims : Type 0 where
  pub merchant_id : Text
  pub customer_id : Text
  pub principal_type : Text
  pub principal_id : Text
  pub session_id : Text
  pub version : ℕ
  pub anchors : List (Text × Text)
  pub expires_at : ℕ

pub record SessionReq : Type 0 where
  pub type : Text
  pub id : Text

pub data SessionReply : Type 0 where
  no_customer bad_json wrong_type no_principal sign_failed no_token bad_token : SessionReply
  session_over : SessionReply
  session_failed : Error → SessionReply
  created : Claims → (token : Text) → SessionReply
  refreshed : Claims → (token : Text) → SessionReply
  logged_out : (session_id : Text) → SessionReply

unfoldable pub session_status : SessionReply → ℕ
session_status no_customer = 401
session_status bad_json = 400
session_status wrong_type = 403
session_status no_principal = 400
session_status sign_failed = 500
session_status no_token = 401
session_status bad_token = 401
session_status session_over = 401
session_status (session_failed e) = store_error e
session_status (created c token) = 201
session_status (refreshed c token) = 200
session_status (logged_out session_id) = 200

-- Claims in order, or the answer of sessionAuth.
pub data Authorised : Type 0 where
  authorised : Claims → Authorised
  unauthorised : (status : ℕ) → Authorised

module _ {ℓ} {S : Type ℓ} (v : Services S) (s : Setting) (now : ℕ) where
  unfoldable pub session_row : Customer → Text → Text → Text → Session
  session_row c type id session_id = record {
    id = session_id;
    merchant_id = s.merchant_id;
    customer_id = c.customer_id;
    anchors = c.anchors;
    principal_type = type;
    principal_id = id;
    expires_at = after now s.session_ttl;
    revoked_at = none;
    version = 1;
  }

  unfoldable pub claims_of : Session → Claims
  claims_of x = record {
    merchant_id = x.merchant_id;
    customer_id = x.customer_id;
    principal_type = x.principal_type;
    principal_id = x.principal_id;
    session_id = x.id;
    version = x.version;
    anchors = x.anchors;
    expires_at = after now s.session_ttl;
  }

  abbrev signed : (Claims → Text → SessionReply) → Claims → Option Text → SessionReply
  signed reply c none = sign_failed
  signed reply c (some token) = reply c token

  abbrev inserted : (Claims → Option Text) → Session → Result (Unit {0}) → SessionReply
  inserted sign_session row (err e) = session_failed e
  inserted sign_session row (ok done) =
      signed created (claims_of row) (sign_session (claims_of row))

  -- From the request's body on.
  unfoldable pub create_session_for :
      (Claims → Option Text) → Customer → SessionReq → Text → S → S × SessionReply
  create_session_for sign_session c body fresh_session w =
      let type = first_nonempty body.type (text "agent") in
      if not (text_eq type (text "agent")) && not (text_eq type (text "browser"))
      then (w, wrong_type)
      else if is_empty body.id
      then (w, no_principal)
      else (let row = session_row c type body.id fresh_session in
          let (w', r) = v.insert_session now row w in (w', inserted sign_session row r))

  -- Server.createSession, past its rate limits: the customer that the credentials give, and the body.
  unfoldable pub create_session :
      (Claims → Option Text) → Option Customer → Option SessionReq → Text → S → S × SessionReply
  create_session sign_session none body fresh_session w = (w, no_customer)
  create_session sign_session (some c) body fresh_session w =
      if is_empty c.customer_id then (w, no_customer) else elim body [
        | none ↦ (w, bad_json)
        | some b ↦ create_session_for sign_session c b fresh_session w
      ]

  -- The claims of a token of this merchant.
  unfoldable pub own_claims : (Text → Option Claims) → Text → Option Claims
  own_claims parse_session raw = elim (parse_session raw) [
    | none ↦ none
    | some c ↦ if text_eq c.merchant_id s.merchant_id then some c else none
  ]

  abbrev revoked : Text → Result (Unit {0}) → SessionReply
  revoked session_id (err e) = session_failed e
  revoked session_id (ok done) = logged_out session_id

  -- Server.logoutSession.
  unfoldable pub logout_session : (Text → Option Claims) → Text → S → S × SessionReply
  logout_session parse_session raw w =
      if is_empty raw then (w, no_token) else elim (own_claims parse_session raw) [
        | none ↦ (w, bad_token)
        | some c ↦
            let (w', r) = v.revoke_session now s.merchant_id c.session_id w in
            (w', revoked c.session_id r)
      ]

  abbrev live_row : Result SessionResult → Option Session
  live_row (err e) = none
  live_row (ok no_rows) = none
  live_row (ok wrong_merchant) = none
  live_row (ok session_revoked) = none
  live_row (ok (live x)) = some x

  -- Server.refreshSession.
  unfoldable pub refresh_session :
      (Claims → Option Text) → (Text → Option Claims) → Text → S → SessionReply
  refresh_session sign_session parse_session raw w =
      if is_empty raw then no_token else elim (own_claims parse_session raw) [
        | none ↦ bad_token
        | some c ↦ elim (live_row (v.live_session now s.merchant_id c.session_id w)) [
          | none ↦ session_over
          | some x ↦ signed refreshed (claims_of x) (sign_session (claims_of x))
        ]
      ]

  -- The answer of LiveSession: an outage passes only where the controls fail open.
  unfoldable pub check_live : Claims → Result SessionResult → Authorised
  check_live c (ok no_rows) = unauthorised 401
  check_live c (ok wrong_merchant) = unauthorised 401
  check_live c (ok session_revoked) = unauthorised 401
  check_live c (ok (live x)) = authorised c
  check_live c (err unavailable) =
      if fail_open s.controls then authorised c else unauthorised (store_error unavailable)
  check_live c (err e) = unauthorised 401

  -- Server.sessionAuth.
  unfoldable pub session_auth : (Text → Option Claims) → Text → S → Authorised
  session_auth parse_session raw w =
      if is_empty raw then unauthorised 401 else elim (own_claims parse_session raw) [
        | none ↦ unauthorised 401
        | some c ↦
            if is_empty c.session_id
            then authorised c
            else check_live c (v.live_session now s.merchant_id c.session_id w)
      ]
