-- ===== src/Merchant/Issues.antt =====
-- internal/merchant/safety.go and validate.go: what is wrong with a profile. An issue is its level and
-- its field; the text that explains it is left out.
use bruiser_gateway.Prelude.{
  Option, none, some, Bool, true, false, not, ◌&&◌, ◌||◌, List, [], ◌∷◌, ◌++◌, if◌then◌else◌, ◌==◌,
  length, Text, text, text_eq, is_empty, ℤ, pos, ltbℤ, any_where, select_where,
}
use bruiser_gateway.Resource.{TextOps, canonical_id, malformed, unknown_resource, canonical}
use bruiser_gateway.Policy.Compile.{compile}
use bruiser_gateway.Controls.{contains}
use bruiser_gateway.Merchant.{
  Route, MerchantPolicy, Profile, unmatched_allow, match_route, controlled,
}
use bruiser_gateway.Merchant.Document.{policy_document}

pub data Level : Type 0 where
  fail warn : Level

pub record Issue : Type 0 where
  pub level : Level
  pub field : Text

abbrev pub is_fail : Issue → Bool
is_fail i = elim i.level [ fail ↦ true | warn ↦ false ]

-- One issue where the test holds.
abbrev pub issue_if : Bool → Level → Text → List Issue
issue_if true l f = record { level = l; field = f } ∷ []
issue_if false l f = []

abbrev pub is_one_of : Text → List Text → Bool
is_one_of s ts = any_where (λ t. text_eq s t) ts

pub record SafetyOpts : Type 0 where
  pub origin_secret : Text
  pub origin_url : Text
  pub proxy : Bool
  pub production : Bool
  pub jwks_url : Text
  pub issuer : Text
  pub audience : Text

abbrev pub common_allocation_paths : List Text
common_allocation_paths =
    text "/api/tickets/hold"
    ∷ text "/api/tickets/holds"
    ∷ text "/api/ticket/hold"
    ∷ text "/api/holds"
    ∷ text "/api/hold"
    ∷ text "/boxoffice/holds"
    ∷ text "/v1/holds"
    ∷ text "/api/orders"
    ∷ text "/api/checkout"
    ∷ []

abbrev pub is_some {ℓ} : {A : Type ℓ} → Option A → Bool
is_some none = false
is_some (some a) = true

unfoldable pub has_method_path : TextOps → Profile → Text → Text → Bool
has_method_path o p method path = is_some (match_route o method path p.routes)

unfoldable pub unlisted_common_allocation : TextOps → Profile → List Text
unlisted_common_allocation o p =
    select_where (λ path. not (has_method_path o p (text "POST") path)) common_allocation_paths

unfoldable pub extractor_of : TextOps → Profile → Text
extractor_of o p = o.to_lower (o.trim_space p.identity.extractor)

abbrev pub token_extractors : List Text
token_extractors =
    text "oidc"
    ∷ text "jwks"
    ∷ text "auto"
    ∷ text "cookie-jwt"
    ∷ text "cookie"
    ∷ text "bearer-jwt"
    ∷ text "bearer"
    ∷ text "jwt"
    ∷ []

-- The switch on the extractor, in production.
unfoldable pub identity_safety : TextOps → SafetyOpts → Profile → List Issue
identity_safety o opts p =
    let ext = extractor_of o p in
    let i = p.identity in
    if is_one_of ext token_extractors
    then issue_if (is_empty i.jwks_url && is_empty opts.jwks_url) fail (text "identity.jwks_url")
      ++ issue_if (is_empty i.issuer && is_empty opts.issuer) fail (text "identity.issuer")
      ++ issue_if (is_empty i.audience && is_empty opts.audience) fail (text "identity.audience")
      ++ issue_if
          (text_eq ext (text "auto")
            && not (is_empty (o.trim_space i.header))
            && not i.allow_unsigned_header)
          fail (text "identity.header")
    else issue_if (text_eq ext (text "header") && not i.allow_unsigned_header) fail
        (text "identity.extractor")

-- What follows where the profile allows unmatched routes.
unfoldable pub unmatched_safety : TextOps → SafetyOpts → Profile → List Issue
unmatched_safety o opts p =
    issue_if true (if is_empty (o.trim_space opts.origin_secret) then fail else warn)
      (text "unmatched")
    ++ issue_if (opts.production && opts.proxy && is_empty (o.trim_space opts.origin_url)) fail
        (text "origin_url")
    ++ issue_if (not (length (unlisted_common_allocation o p) == 0)) warn (text "routes")

-- Profile.SafetyIssues.
unfoldable pub safety_issues : TextOps → SafetyOpts → Profile → List Issue
safety_issues o opts p =
    (if opts.production then identity_safety o opts p else [])
    ++ (if unmatched_allow o p then unmatched_safety o opts p else [])

abbrev pub allocation_words : List Text
allocation_words =
    text "hold"
    ∷ text "purchase"
    ∷ text "allocate"
    ∷ text "checkout"
    ∷ text "order"
    ∷ text "ticket"
    ∷ text "reserve"
    ∷ []

unfoldable pub looks_like_allocation : TextOps → Route → Bool
looks_like_allocation o r =
    if controlled r
    then false
    else any_where (contains (o.to_lower (r.action ++ 32 ∷ r.match_on.path))) allocation_words

abbrev pub known_extractors : List Text
known_extractors =
    token_extractors
    ++ text "header"
      ∷ text "introspect"
      ∷ text "introspection"
      ∷ text "edge-signed"
      ∷ text "signed-header"
      ∷ []

-- The issues of the identity; `getenv` reads the environment.
unfoldable pub identity_issues : TextOps → (Text → Text) → Profile → List Issue
identity_issues o getenv p =
    let ext = extractor_of o p in
    let i = p.identity in
    issue_if (is_empty ext) fail (text "identity.extractor")
    ++ issue_if (not (is_empty ext) && not (is_one_of ext known_extractors)) fail
        (text "identity.extractor")
    ++ issue_if (is_one_of ext (text "oidc" ∷ text "jwks" ∷ []) && is_empty i.jwks_url) fail
        (text "identity.jwks_url")
    ++ issue_if
        (is_one_of ext (text "introspect" ∷ text "introspection" ∷ []) && is_empty i.introspect_url)
        fail (text "identity.introspect_url")
    ++ issue_if (is_one_of ext (text "cookie-jwt" ∷ text "cookie" ∷ []) && is_empty i.cookie) fail
        (text "identity.cookie")
    ++ issue_if
        (is_empty i.subject_claim
          && is_one_of ext (text "cookie-jwt" ∷ text "bearer-jwt" ∷ text "auto" ∷ text "oidc" ∷ []))
        warn (text "identity.subject_claim")
    ++ issue_if (not (is_empty i.hmac_secret_env) && is_empty (getenv i.hmac_secret_env)) warn
        (text "identity.hmac_secret_env")
    ++ issue_if (o.equal_fold ext (text "header")) warn (text "identity.extractor")

-- The loop over the routes.
unfoldable pub route_issues : TextOps → List Route → List Issue
route_issues o [] = []
route_issues o (r ∷ routes) =
    issue_if (is_empty r.match_on.method || is_empty r.match_on.path) fail (text "routes")
    ++ issue_if (looks_like_allocation o r && not (controlled r)) fail (text "routes")
    ++ route_issues o routes

abbrev parses_shorter : (Text → Option ℤ) → Text → Text → Bool
parses_shorter parse_duration a b = elim (parse_duration a) [
  | none ↦ false
  | some life ↦ elim (parse_duration b) [ none ↦ false | some ttl ↦ ltbℤ life ttl ]
]

abbrev lease_ttl_issues : Option ℤ → List Issue
lease_ttl_issues none = issue_if true fail (text "policy.lease_ttl")
lease_ttl_issues (some d) = issue_if (ltbℤ d (pos 1000000000)) warn (text "policy.lease_ttl")

unfoldable pub policy_issues : TextOps → (Text → Option ℤ) → MerchantPolicy → List Issue
policy_issues o parse_duration p =
    let mode = p.waiting.mode in
    issue_if
      (not (is_empty mode)
        && not (o.equal_fold mode (text "bounded"))
        && not (o.equal_fold mode (text "off")))
      fail (text "policy.waiting.mode")
    ++ issue_if (o.equal_fold mode (text "bounded") && ltbℤ p.waiting.max_waiters (pos 1)) fail
        (text "policy.waiting.max_waiters")
    ++ (if is_empty p.lease_ttl then [] else lease_ttl_issues (parse_duration p.lease_ttl))
    ++ issue_if
        (not (is_empty p.max_lifetime)
          && not (is_empty p.lease_ttl)
          && parses_shorter parse_duration p.max_lifetime p.lease_ttl)
        fail (text "policy.max_lifetime")

unfoldable pub is_canonical : TextOps → Text → Bool
is_canonical o id = elim (canonical o id) [
  | canonical_id y ↦ true
  | malformed ↦ false
  | unknown_resource ↦ false
]

unfoldable pub resource_issues : TextOps → List Text → List Issue
resource_issues o [] = []
resource_issues o (id ∷ ids) =
    issue_if (not (is_canonical o id)) fail (text "resources") ++ resource_issues o ids

-- Profile.ValidateIssues.
unfoldable pub validate_issues : TextOps → (Text → Text) → (Text → Option ℤ) → Profile → List Issue
validate_issues o getenv parse_duration p =
    issue_if (is_empty p.merchant_id) fail (text "merchant_id")
    ++ identity_issues o getenv p
    ++ issue_if
        (not (is_empty p.mode)
          && not (o.equal_fold p.mode (text "enforce"))
          && not (o.equal_fold p.mode (text "dry-run")))
        fail (text "mode")
    ++ route_issues o p.routes
    ++ issue_if (not (any_where controlled p.routes)) fail (text "routes")
    ++ issue_if (o.equal_fold p.unmatched (text "allow")) warn (text "unmatched")
    ++ policy_issues o parse_duration p.policy
    ++ issue_if (not (is_some (compile o parse_duration (policy_document p)))) fail (text "policy")
    ++ resource_issues o p.resources
    ++ issue_if (length p.resources == 0) warn (text "resources")

-- Profile.Validate: whether it gives no error.
unfoldable pub validate : TextOps → (Text → Text) → (Text → Option ℤ) → Profile → Bool
validate o getenv parse_duration p =
    not (any_where is_fail (validate_issues o getenv parse_duration p))
