-- ===== src/Gateway/Minted.antt =====
-- Who mints the admin tokens of internal/api/public/admin_auth.go, and what they allow.
use bruiser_gateway.Prelude.{
  ℕ, ◌+◌, ◌≤◌, ◌≡◌, ◌⊎◌, refl, ap, subst, arith, Option, some, true, false, Text, text, text_eq,
  text_eq_iff, is_empty, ℤ, inl, inr, Bool-cases, Option-cases,
}
use bruiser_gateway.Resource.{TextOps}
use bruiser_gateway.Gateway.{after}
use bruiser_gateway.Tokens.{
  AccessClaims, role_admin, role_operator, is_role, access_token_type, access_ttl, access_claims,
}
use bruiser_gateway.Gateway.Roles.{
  AdminActor, nobody, is_known, role_at_least, secret_match, AdminSetting, Credentials, own_access,
  identify_admin, Required, let_in, unauthorised, insufficient, require_role, MintReq, minted,
  sign_access, mint_for, admin_mint_token, role_of, ttl_of,
}

-- The secret is set, and the request has it.
abbrev pub Knows : Text → Text → Type 0
Knows got want = (is_empty want ≡ false) × (got ≡ want)

secret_match-Knows : (got want : Text) → secret_match got want ≡ true → Knows got want
unfolding secret_match
secret_match-Knows got want h = ground (arith, text_eq_iff got want)

nobody-unknown : is_known nobody ≡ false
unfolding is_known is_role text text_eq
nobody-unknown = refl

module _ (s : AdminSetting) (parse_access : Text → Option AccessClaims) where
  -- The claims of a token are this merchant's and have the role.
  abbrev pub Carries : Text → Text → Type 0
  Carries raw role =
      (c : AccessClaims) × (parse_access raw ≡ some c)
      × (c.merchant_id ≡ s.merchant_id)
      × (c.role ≡ role)

  -- What gives a request its role: a token, in the header or the cookie, or one of the two secrets.
  pub data Shows (r : Credentials) (role : Text) : Type 0 where
    by_bearer : Carries r.bearer role → Shows r role
    by_cookie : Carries r.cookie role → Shows r role
    by_admin_secret : Knows r.admin_secret s.admin_secret → role ≡ role_admin → Shows r role
    by_operator_secret :
        Knows r.operator_secret s.operator_secret → role ≡ role_operator → Shows r role

  own_access-Carries :
      (raw : Text) (c : AccessClaims) → own_access s parse_access raw ≡ some c → Carries raw c.role
  unfolding own_access
  own_access-Carries raw c h = elim (Option-cases (parse_access raw)) [
    | inl bad ↦ absurd (ground arith)
    | inr (d, parsed) ↦ elim (Bool-cases (text_eq d.merchant_id s.merchant_id)) [
      | inr other ↦ absurd (ground arith)
      | inl own ↦
          let same : d ≡ c = ground arith in
          subst (λ x. Carries raw x.role) same
            (d, parsed, (text_eq_iff d.merchant_id s.merchant_id).0 own, refl)
    ]
  ]

  identify_admin-Shows :
      (r : Credentials)
      → is_known (identify_admin s parse_access r) ≡ true
      → Shows r (identify_admin s parse_access r).role
  unfolding identify_admin
  identify_admin-Shows r h = elim (Option-cases (own_access s parse_access r.bearer)) [
    | inr (c, own) ↦ subst (Shows r) (ground arith) (by_bearer (own_access-Carries r.bearer c own))
    | inl none_here ↦ elim (Bool-cases (secret_match r.admin_secret s.admin_secret)) [
      | inl known ↦
          by_admin_secret (secret_match-Knows r.admin_secret s.admin_secret known) (ground arith)
      | inr unknown ↦ elim (Bool-cases (secret_match r.operator_secret s.operator_secret)) [
        | inl known ↦
            by_operator_secret (secret_match-Knows r.operator_secret s.operator_secret known)
              (ground arith)
        | inr strange ↦ elim (Option-cases (own_access s parse_access r.cookie)) [
          | inr (c, own) ↦
              subst (Shows r) (ground arith) (by_cookie (own_access-Carries r.cookie c own))
          | inl nothing ↦
              let alone : identify_admin s parse_access r ≡ nobody = ground arith in
              absurd (ground (arith, nobody-unknown, ap is_known alone))
        ]
      ]
    ]
  ]

  require_role-Shows :
      (need : Text) (r : Credentials) (a : AdminActor)
      → require_role s parse_access need r ≡ let_in a
      → Shows r a.role × (role_at_least a.role need ≡ true)
  unfolding require_role
  require_role-Shows need r a h = elim (Bool-cases (is_known (identify_admin s parse_access r))) [
    | inr strange ↦ absurd (ground arith)
    | inl known ↦ elim (Bool-cases (role_at_least (identify_admin s parse_access r).role need)) [
      | inr low ↦ absurd (ground arith)
      | inl enough ↦
          let same : identify_admin s parse_access r ≡ a = ground arith in
          subst (λ x. Shows r x.role × (role_at_least x.role need ≡ true)) same
            (identify_admin-Shows r known, enough)
    ]
  ]

Required-cases :
    (q : Required) → ((a : AdminActor) × (q ≡ let_in a)) ⊎ ((q ≡ unauthorised) ⊎ (q ≡ insufficient))
Required-cases (let_in a) = inl (a, refl)
Required-cases unauthorised = inr (inl refl)
Required-cases insufficient = inr (inr refl)

-- A role that reaches the admin's is the admin's.
role_at_least-admin : (role : Text) → role_at_least role role_admin ≡ true → role ≡ role_admin
unfolding role_at_least
role_at_least-admin role h = ground (arith, text_eq_iff role role_admin)

-- The term of an admin's token is an hour at most.
access_ttl-le : (now : ℕ) (ttl : ℤ) → after now (access_ttl ttl) ≤ now + 3600000000000
unfolding access_ttl
access_ttl-le now ttl = ground arith

module _ (o : TextOps) (s : AdminSetting) (parse_access : Text → Option AccessClaims)
    (numeric_date : ℕ → ℕ) (sign : AccessClaims → Option Text) (now : ℕ) (fresh_id : Text) where
  -- The token is signed for this merchant and the role, an admin's or an operator's, for an hour at most.
  pub record Bounded (token role : Text) : Type 0 where
    pub claims : AccessClaims
    pub signed : sign claims ≡ some token
    pub merchant : claims.merchant_id ≡ s.merchant_id
    pub role_is : claims.role ≡ role
    pub known : is_role role ≡ true
    pub until : ℕ
    pub expiry : claims.expires_at ≡ some (numeric_date until)
    pub hour : until ≤ now + 3600000000000

  mint_for-Bounded :
      (a : AdminActor) (body : MintReq) (token role : Text) (ttl : ℤ)
      → mint_for o s parse_access numeric_date sign now fresh_id a body ≡ minted token role ttl
      → Bounded token role
  unfolding mint_for sign_access access_claims
  mint_for-Bounded a body token role ttl h = elim (Bool-cases (is_role (role_of o body.role))) [
    | inr strange ↦ absurd (ground arith)
    | inl known ↦
        let until = after now (access_ttl (ttl_of body.ttl_seconds)) in
        let c : AccessClaims = record {
          merchant_id = s.merchant_id;
          role = role_of o body.role;
          actor = a.actor;
          token_type = access_token_type;
          id = fresh_id;
          expires_at = some (numeric_date until);
        } in
        elim (Option-cases (sign c)) [
          | inl failed ↦ absurd (ground arith)
          | inr (t, signed) ↦
              let same : role_of o body.role ≡ role = ground arith in
              record {
                claims = c;
                signed = ground arith;
                merchant = refl;
                role_is = same;
                known = subst (λ x. is_role x ≡ true) same known;
                until = until;
                expiry = refl;
                hour = access_ttl-le now (ttl_of body.ttl_seconds);
              }
        ]
  ]

  -- No escalation: a token is minted only for a request that shows the admin's role, by a token of this merchant or by the secret; and it is for this merchant, an admin's or an operator's, and runs out within the hour.
  pub admin_mint_token-Shows :
      (r : Credentials) (body : MintReq) (token role : Text) (ttl : ℤ)
      → admin_mint_token o s parse_access numeric_date sign now fresh_id r body
        ≡ minted token role ttl
      → Shows s parse_access r role_admin × Bounded token role
  unfolding admin_mint_token
  admin_mint_token-Shows r body token role ttl h =
      elim (Required-cases (require_role s parse_access role_admin r)) [
        | inr refused ↦ absurd (ground arith)
        | inl (a, inside) ↦
            let (shows, enough) = require_role-Shows s parse_access role_admin r a inside in
            (
              subst (Shows s parse_access r) (role_at_least-admin a.role enough) shows,
              mint_for-Bounded a body token role ttl (ground arith),
            )
      ]
