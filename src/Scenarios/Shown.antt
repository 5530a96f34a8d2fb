-- ===== src/Scenarios/Shown.antt =====
-- Tokens at a merchant's service, at the gateway's introspection and at its operators' routes.
use bruiser_gateway.Prelude.{
  ℕ, ◌≡◌, ◌*◌, ◌/◌, refl, arith, Option, none, some, Bool, true, false, [], ◌∷◌, if◌then◌else◌,
  Text, text, text_eq, pos, lebℤ, is_empty, ◌⊎◌,
}
use bruiser_gateway.Lease.{Execution, active}
use bruiser_gateway.Tokens
use bruiser_gateway.Tokens.{ExecutionClaims, execution_claims, AccessClaims, role_admin}
use bruiser_gateway.Sdk
use bruiser_gateway.Sdk.{FenceCache, ProtectConfig, Visit, protect, passed, revoked, stale_fence}
use bruiser_gateway.Sdk.Fences.{protect-fences}
use bruiser_gateway.Sdk.Passed.{protect-sign_execution}
use bruiser_gateway.Gateway.Introspect
use bruiser_gateway.Gateway.Introspect.{IntrospectBody, introspect, same_resource}
use bruiser_gateway.Gateway.Introspected.{Stands, introspect-active}
use bruiser_gateway.Gateway.Backend.{services}
use bruiser_gateway.Gateway.Roles
use bruiser_gateway.Gateway.Roles.{AdminSetting, Credentials, MintReq, admin_mint_token, minted}
use bruiser_gateway.Gateway.Minted.{Shows, Bounded, admin_mint_token-Shows}
use bruiser_gateway.Scenarios.Resources.{ascii}
use bruiser_gateway.Gateway.Admission.{allows}
use bruiser_gateway.Gateway.Proxy
use bruiser_gateway.Gateway.Proxy.{Headers, exe_id, connections, delete_keys, named_in}
use bruiser_gateway.Gateway.Stripped.{reserved}
use bruiser_gateway.Gateway.Forwarded.{own_headers, proxy-reserved}
use bruiser_gateway.Scenarios.Gateways.{
  front, ids, world_after, serving, first_answer, holds, token_of, start,
}

checking : Bool
unfolding serving Tokens.execution_claims Tokens.is_past Tokens.parse_execution Tokens.is_role
    Tokens.access_ttl Tokens.access_claims Sdk.last Sdk.accept Sdk.for_resource Sdk.ask_active
    Sdk.ask_fences Sdk.ask_claims Sdk.protect Sdk.visits Introspect.is_active_answer
    Introspect.after_consume Introspect.same_resource Introspect.introspect_lease
    Introspect.introspect_claims Introspect.introspect_token Introspect.introspect Roles.is_known
    Roles.role_at_least Roles.secret_match Roles.own_access Roles.identify_admin Roles.require_role
    Roles.duration_of_seconds Roles.sign_access Roles.mint_for Roles.admin_mint_token
    Proxy.trim_start Proxy.trim_end Proxy.named_keys Proxy.named_in Proxy.delete_keys
    Proxy.reverse_proxy Proxy.is_reserved Proxy.set Proxy.set_unless_empty Proxy.strip_each
    Proxy.copied Proxy.exe_id Proxy.after_admit Proxy.proxy
checking = true

-- To the second.
abbrev whole_seconds : ℕ → ℕ
whole_seconds t = t / 1000000000 * 1000000000

abbrev lease_of : ℕ → Execution
lease_of fence = record {
  id = text "a";
  merchant_id = text "club";
  domain_key = text "d";
  customer_id = text "ann";
  principal = record { type = text "agent"; id = text "p" };
  session_id = [];
  resource = text "ticket:cup-final";
  action = text "hold";
  rule_name = [];
  fence = fence;
  state = active;
  granted_at = 10;
  expires_at = 60000000010;
  max_lifetime_at = 60000000010;
  renew_count = 0;
  ended_at = none;
  end_reason = [];
  successor_id = [];
  queue_position = 0;
  ops_used = 0;
  max_ops = pos 0;
}

abbrev claims_of : ℕ → ExecutionClaims
claims_of fence = execution_claims whole_seconds (lease_of fence)

-- A library whose tokens are the names of the two leases.
abbrev reads : ℕ → Text → Option ExecutionClaims
reads now token =
    if text_eq token (text "one")
    then some (claims_of 1)
    else if text_eq token (text "two")
    then some (claims_of 2)
    else none

abbrev writes : ExecutionClaims → Option Text
writes k = some (if lebℤ k.fence (pos 1) then text "one" else text "two")

abbrev box_office : ProtectConfig
box_office = record { merchant_id = text "club"; resource = text "Ticket / Cup-Final!" }

abbrev shows : Text → Visit
shows token = record { now = 20; token = token; active = λ x fence. some true }

abbrev first_cache : FenceCache
first_cache = (text "d", pos 1) ∷ []

abbrev second_cache : FenceCache
second_cache = (text "d", pos 2) ∷ first_cache

-- The older token is refused once the newer one was seen.
older_refused :
    (protect ascii reads box_office (shows (text "one")) (some second_cache)).1 ≡ stale_fence
unfolding checking
older_refused = refl

protect-fences_example : lebℤ (pos 1) (pos 2) ≡ true
unfolding checking
protect-fences_example =
    protect-fences ascii reads box_office (shows (text "one")) (shows (text "two"))
      (shows (text "none") ∷ []) [] first_cache (claims_of 1) (claims_of 2) refl refl refl refl refl

protect-sign_execution_example :
    (protect ascii reads box_office (shows (text "two")) (some first_cache)).1
    ≡ passed (execution_claims whole_seconds (lease_of 2))
unfolding checking
protect-sign_execution_example =
    protect-sign_execution ascii reads box_office whole_seconds writes (shows (text "two"))
      (lease_of 2) first_cache (text "ticket:cup-final") refl refl refl refl refl refl refl
      (ground arith) refl refl refl refl (ground arith)

abbrev asks : IntrospectBody
asks = record { token = text "one"; resource = text "ticket:cup-final"; consume = true }

introspect-active_example :
    (k : ExecutionClaims) × (reads 20 (text "one") ≡ some k)
    × (k.merchant_id ≡ text "club")
    × ((is_empty [] ≡ false)
        ⊎ (is_empty (text "ticket:cup-final") ≡ true)
        ⊎ (same_resource ascii
              (services (ids (text "b")))
              front
              20
              (text "ticket:cup-final")
              k.resource
            ≡ true))
    × Stands ascii (services (ids (text "b"))) front 20 k world_after.store
unfolding checking
introspect-active_example =
    introspect-active ascii (services (ids (text "b"))) front 20 (reads 20) [] asks
      world_after.store refl

abbrev club_admin : AdminSetting
club_admin = record {
  merchant_id = text "club";
  admin_secret = text "s";
  operator_secret = text "t";
}

abbrev root : Credentials
root = record { bearer = []; admin_secret = text "s"; operator_secret = []; cookie = [] }

abbrev day : MintReq
day = record { role = text "operator"; ttl_seconds = pos 86400 }

-- The answer names a day; the token is for an hour.
admin_mint_token-Shows_example :
    Shows club_admin (λ raw. none) root role_admin
    × Bounded ascii club_admin
        (λ raw. none)
        whole_seconds
        (λ c. some c.role)
        20
        (text "j")
        (text "operator")
        (text "operator")
unfolding checking
admin_mint_token-Shows_example =
    admin_mint_token-Shows ascii club_admin (λ raw. none) whole_seconds (λ c. some c.role) 20
      (text "j") root day (text "operator") (text "operator") (pos 86400000000000) refl

-- A client that forges the headers of a lease, and has ReverseProxy delete the fence.
abbrev forged : Headers
forged =
    (text "X-Bruiser-Execution", text "mine")
    ∷ (text "Cookie", text "c")
    ∷ (text "Connection", text "close, X-Bruiser-Fence")
    ∷ (text "X-Bruiser-Origin-Secret", text "guess")
    ∷ []

abbrev one : ℕ → Text
one n = text "1"

abbrev sent_on : Headers
sent_on =
    (text "Cookie", text "c")
    ∷ (text "X-Bruiser-Execution", text "a")
    ∷ (text "X-Bruiser-Customer", text "ann")
    ∷ (text "X-Bruiser-Origin-Secret", text "os")
    ∷ []

proxy-reserved_example :
    (allows first_answer ≡ true)
    × ((is_empty (exe_id first_answer) ≡ true) ⊎ (true ≡ true))
    × (reserved sent_on
        ≡ delete_keys (named_in (λ key. key) (connections forged)) (
            own_headers ascii
              (services (ids (text "a")))
              front
              token_of
              (λ key. key)
              (λ x. true)
              one
              (text "os")
              10
              (holds (text "a"))
              start))
unfolding checking
proxy-reserved_example =
    proxy-reserved ascii (services (ids (text "a"))) front token_of (λ key. key) (λ x. true) one
      (text "os") 10 (holds (text "a")) forged sent_on start refl refl
