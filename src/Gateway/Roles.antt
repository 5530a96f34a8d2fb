-- ===== src/Gateway/Roles.antt =====
-- internal/api/public/admin_auth.go: who an operator's request is from, and what its role lets it do.
-- The parsing and the signing of tokens are arguments.
use bruiser_gateway.Prelude.{
  ℕ, Option, none, some, not, Bool, true, false, ◌||◌, ◌++◌, if◌then◌else◌, Text, text, text_eq,
  is_empty, ℤ, pos, negsuc, neg, lebℤ, leb, ◌*◌, ◌%◌, ◌^◌, ◌-◌, suc,
}
use bruiser_gateway.Resource.{TextOps}
use bruiser_gateway.Gateway.Settled.{seconds}
use bruiser_gateway.Tokens.{AccessClaims, role_admin, role_operator, is_role, access_claims}

pub record AdminActor : Type 0 where
  pub role : Text
  pub actor : Text
  pub source : Text

-- adminActor.ok.
unfoldable pub is_known : AdminActor → Bool
is_known a = is_role a.role

unfoldable pub role_at_least : Text → Text → Bool
role_at_least have need = if text_eq have role_admin then true else text_eq have need

unfoldable pub secret_match : Text → Text → Bool
secret_match got want = if is_empty want || is_empty got then false else text_eq got want

-- The fields of the configuration that the handlers read.
pub record AdminSetting : Type 0 where
  pub merchant_id : Text
  pub admin_secret : Text
  pub operator_secret : Text

-- The bearer token, the headers and the cookie of a request, the empty text for what it has not.
pub record Credentials : Type 0 where
  pub bearer : Text
  pub admin_secret : Text
  pub operator_secret : Text
  pub cookie : Text

abbrev pub nobody : AdminActor
nobody = record { role = text ""; actor = text ""; source = text "" }

pub data Required : Type 0 where
  let_in : AdminActor → Required
  unauthorised insufficient : Required

module _ (s : AdminSetting) (parse_access : Text → Option AccessClaims) where
  -- The claims of a token of this merchant.
  unfoldable pub own_access : Text → Option AccessClaims
  own_access raw = if is_empty raw then none else elim (parse_access raw) [
    | none ↦ none
    | some c ↦ if text_eq c.merchant_id s.merchant_id then some c else none
  ]

  abbrev named : AccessClaims → Text → Text → AdminActor
  named c nameless source = record {
    role = c.role;
    actor = if is_empty c.actor then nameless else c.actor;
    source = source;
  }

  unfoldable pub identify_admin : Credentials → AdminActor
  identify_admin r = elim (own_access r.bearer) [
    | some c ↦ named c (text "token:" ++ c.id) (text "token")
    | none ↦
        if secret_match r.admin_secret s.admin_secret
        then record { role = role_admin; actor = text "admin-secret"; source = text "secret" }
        else if secret_match r.operator_secret s.operator_secret
        then record { role = role_operator; actor = text "operator-secret"; source = text "secret" }
        else elim (own_access r.cookie) [
          | some c ↦ named c (text "cookie") (text "cookie")
          | none ↦ nobody
        ]
  ]

  unfoldable pub require_role : Text → Credentials → Required
  require_role need r =
      let a = identify_admin r in
      if not (is_known a)
      then unauthorised
      else if not (role_at_least a.role need)
      then insufficient
      else let_in a

-- time.Duration(n) * time.Second: the product wraps around at 64 bits.
unfoldable pub duration_of_seconds : ℤ → ℤ
duration_of_seconds (pos n) = seconds (pos n)
duration_of_seconds (negsuc n) =
    let v = suc n * 1000000000 % 2 ^ 64 in if leb v (2 ^ 63) then neg v else pos (2 ^ 64 - v)

pub record MintReq : Type 0 where
  pub role : Text
  pub ttl_seconds : ℤ

abbrev pub role_of : TextOps → Text → Text
role_of o raw =
    let role = o.to_lower (o.trim_space raw) in if is_empty role then role_operator else role

abbrev pub ttl_of : ℤ → ℤ
ttl_of n = let ttl = duration_of_seconds n in if lebℤ ttl (pos 0) then pos 300000000000 else ttl

-- What adminMintToken answers; a token comes with its role and the term that the answer names.
pub data Mint : Type 0 where
  not_admin : Required → Mint
  bad_role sign_failed : Mint
  minted : (token role : Text) → ℤ → Mint

unfoldable pub required_status : Required → ℕ
required_status (let_in a) = 200
required_status unauthorised = 401
required_status insufficient = 403

unfoldable pub mint_status : Mint → ℕ
mint_status (not_admin r) = required_status r
mint_status bad_role = 400
mint_status sign_failed = 500
mint_status (minted token role ttl) = 200

module _ (o : TextOps) (s : AdminSetting) (parse_access : Text → Option AccessClaims)
    (numeric_date : ℕ → ℕ) (sign : AccessClaims → Option Text) (now : ℕ) (fresh_id : Text) where
  -- SignAccess, by the merchant's signer.
  unfoldable pub sign_access : Text → Text → ℤ → Option Text
  sign_access role actor ttl =
      elim (access_claims numeric_date now s.merchant_id fresh_id role actor ttl) [
        | none ↦ none
        | some c ↦ sign c
      ]

  unfoldable pub mint_for : AdminActor → MintReq → Mint
  mint_for a body =
      let role = role_of o body.role in
      let ttl = ttl_of body.ttl_seconds in
      if not (is_role role) then bad_role else elim (sign_access role a.actor ttl) [
        | none ↦ sign_failed
        | some token ↦ minted token role ttl
      ]

  -- Server.adminMintToken, less its audit row.
  unfoldable pub admin_mint_token : Credentials → MintReq → Mint
  admin_mint_token r body = elim (require_role s parse_access role_admin r) [
    | let_in a ↦ mint_for a body
    | unauthorised ↦ not_admin unauthorised
    | insufficient ↦ not_admin insufficient
  ]
