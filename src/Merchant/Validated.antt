-- ===== src/Merchant/Validated.antt =====
-- What a valid profile is: internal/merchant/validate.go and safety.go.
use bruiser_gateway.Prelude.{
  ◌≡◌, ◌⊎◌, refl, arith, Option, Bool, true, false, not, ◌&&◌, ◌||◌, List, [], ◌∷◌, ◌++◌, Text,
  text, text_eq, text_eq_iff, is_empty, subst, sym, if◌then◌else◌, length, ℤ, any_where, inl, inr,
  Bool-cases,
}
use bruiser_gateway.Resource.{TextOps, new_catalogue}
use bruiser_gateway.Policy.Compile.{compile}
use bruiser_gateway.Merchant.{Route, Profile, unmatched_allow, controlled}
use bruiser_gateway.Merchant.Document.{policy_document}
use bruiser_gateway.Merchant.Issues.{
  Level, fail, warn, Issue, is_fail, issue_if, is_one_of, is_some, SafetyOpts, extractor_of,
  token_extractors, known_extractors, identity_safety, unmatched_safety, safety_issues,
  looks_like_allocation, identity_issues, route_issues, policy_issues, is_canonical,
  resource_issues, validate_issues, validate,
}

abbrev pub fails : List Issue → Bool
fails is = any_where is_fail is

fails-append : (is js : List Issue) → fails (is ++ js) ≡ (fails is || fails js)
unfolding any_where
fails-append [] js = refl
fails-append (i ∷ is) js = ground (arith, fails-append is js)

fails-issue_if :
    (b : Bool) (l : Level) (f : Text)
    → fails (issue_if b l f) ≡ (b && is_fail (record { level = l; field = f }))
unfolding any_where
fails-issue_if true fail f = refl
fails-issue_if true warn f = refl
fails-issue_if false fail f = refl
fails-issue_if false warn f = refl

fails-if : (b : Bool) (is : List Issue) → fails (if b then is else []) ≡ (b && fails is)
unfolding any_where
fails-if true is = refl
fails-if false is = refl

-- A route that is written badly.
abbrev pub is_bad_route : TextOps → Route → Bool
is_bad_route o r =
    is_empty r.match_on.method || is_empty r.match_on.path || looks_like_allocation o r

looks-uncontrolled :
    (o : TextOps) (r : Route) → controlled r ≡ true → looks_like_allocation o r ≡ false
unfolding looks_like_allocation
looks-uncontrolled o r h = ground arith

fails-route_issues :
    (o : TextOps) (routes : List Route)
    → fails (route_issues o routes) ≡ any_where (is_bad_route o) routes
unfolding route_issues any_where
fails-route_issues o [] = refl
fails-route_issues o (r ∷ routes) =
    simp (fails-append, fails-issue_if, fails-route_issues o routes)
      (ground (arith, looks-uncontrolled o r))

fails-resource_issues :
    (o : TextOps) (ids : List Text)
    → fails (resource_issues o ids) ≡ any_where (λ id. not (is_canonical o id)) ids
unfolding resource_issues any_where
fails-resource_issues o [] = refl
fails-resource_issues o (id ∷ ids) =
    simp (fails-append, fails-issue_if, fails-resource_issues o ids) (ground arith)

validate-eq :
    (o : TextOps) (getenv : Text → Text) (parse_duration : Text → Option ℤ) (p : Profile)
    → validate o getenv parse_duration p
      ≡ not (
          is_empty p.merchant_id
          || fails (identity_issues o getenv p)
          || (not (is_empty p.mode)
              && not (o.equal_fold p.mode (text "enforce"))
              && not (o.equal_fold p.mode (text "dry-run")))
          || any_where (is_bad_route o) p.routes
          || not (any_where controlled p.routes)
          || fails (policy_issues o parse_duration p.policy)
          || not (is_some (compile o parse_duration (policy_document p)))
          || any_where (λ id. not (is_canonical o id)) p.resources)
unfolding validate validate_issues
validate-eq o getenv parse_duration p =
    simp
      (
        fails-append,
        fails-issue_if,
        fails-route_issues o p.routes,
        fails-resource_issues o p.resources,
      )
      (ground arith)

identity-known :
    (o : TextOps) (getenv : Text → Text) (p : Profile)
    → fails (identity_issues o getenv p) ≡ false
    → is_one_of (extractor_of o p) known_extractors ≡ true
unfolding identity_issues
identity-known o getenv p h =
    let each = simp (fails-append, fails-issue_if) at h in ground (arith, each)

canonical-kept :
    (o : TextOps) (ids : List Text)
    → any_where (λ id. not (is_canonical o id)) ids ≡ false
    → length (new_catalogue o ids) ≡ length ids
unfolding any_where is_canonical new_catalogue
canonical-kept o [] h = refl
canonical-kept o (id ∷ ids) h = ground (arith, canonical-kept o ids)

-- What validation promises. A profile that validates has a merchant, an extractor that is known, a policy that compiles and at least one controlled route; each of its routes has a method and a path and none looks like an allocation that nothing controls; and its catalogue keeps every resource that the profile lists.
pub validate_sound :
    (o : TextOps) (getenv : Text → Text) (parse_duration : Text → Option ℤ) (p : Profile)
    → validate o getenv parse_duration p ≡ true
    → (is_empty p.merchant_id ≡ false)
      × (is_one_of (extractor_of o p) known_extractors ≡ true)
      × (is_some (compile o parse_duration (policy_document p)) ≡ true)
      × (any_where controlled p.routes ≡ true)
      × (any_where (is_bad_route o) p.routes ≡ false)
      × (length (new_catalogue o p.resources) ≡ length p.resources)
validate_sound o getenv parse_duration p h =
    let sums = validate-eq o getenv parse_duration p in
    (
      ground (arith, sums),
      identity-known o getenv p (ground (arith, sums)),
      ground (arith, sums),
      ground (arith, sums),
      ground (arith, sums),
      canonical-kept o p.resources (ground (arith, sums)),
    )

fails-unmatched_safety :
    (o : TextOps) (opts : SafetyOpts) (p : Profile)
    → fails (unmatched_safety o opts p) ≡ (
        is_empty (o.trim_space opts.origin_secret)
        || (opts.production && opts.proxy && is_empty (o.trim_space opts.origin_url)))
unfolding unmatched_safety
fails-unmatched_safety o opts p = simp (fails-append, fails-issue_if) (ground arith)

fails-safety_issues :
    (o : TextOps) (opts : SafetyOpts) (p : Profile)
    → fails (safety_issues o opts p) ≡ (
        (opts.production && fails (identity_safety o opts p))
        || (unmatched_allow o p && fails (unmatched_safety o opts p)))
unfolding safety_issues
fails-safety_issues o opts p = simp (fails-append, fails-if)

-- The verified token that an extractor of tokens reads has all that verifying it takes.
abbrev pub is_verifiable : SafetyOpts → Profile → Bool
is_verifiable opts p =
    not (is_empty p.identity.jwks_url && is_empty opts.jwks_url)
    && not (is_empty p.identity.issuer && is_empty opts.issuer)
    && not (is_empty p.identity.audience && is_empty opts.audience)

fails-identity_safety :
    (o : TextOps) (opts : SafetyOpts) (p : Profile)
    → fails (identity_safety o opts p) ≡ false
    → (is_one_of (extractor_of o p) token_extractors ≡ false) ⊎ (is_verifiable opts p ≡ true)
unfolding identity_safety
fails-identity_safety o opts p h =
    elim (Bool-cases (is_one_of (extractor_of o p) token_extractors)) [
      | inl token ↦
          let each = simp (token, fails-append, fails-issue_if) at h in inr (ground (arith, each))
      | inr other ↦ inl other
    ]

-- The customer is read from a plain header: by the extractor header, or by auto where one is named.
abbrev pub reads_header : TextOps → Profile → Bool
reads_header o p =
    text_eq (extractor_of o p) (text "header")
    || (text_eq (extractor_of o p) (text "auto") && not (is_empty (o.trim_space p.identity.header)))

auto-token : is_one_of (text "auto") token_extractors ≡ true
unfolding any_where text text_eq
auto-token = refl

auto-refused :
    (o : TextOps) (opts : SafetyOpts) (p : Profile)
    → fails (identity_safety o opts p) ≡ false
    → text_eq (extractor_of o p) (text "auto") ≡ true
    → is_empty (o.trim_space p.identity.header) ≡ false
    → p.identity.allow_unsigned_header ≡ true
unfolding identity_safety
auto-refused o opts p h auto named =
    let token : is_one_of (extractor_of o p) token_extractors ≡ true =
      subst (λ x. is_one_of x token_extractors ≡ true)
        (sym ((text_eq_iff (extractor_of o p) (text "auto")).0 auto)) auto-token in
    let each = simp (token, fails-append, fails-issue_if) at h in ground (arith, each)

header-no_token : is_one_of (text "header") token_extractors ≡ false
unfolding any_where text text_eq
header-no_token = refl

header-refused :
    (o : TextOps) (opts : SafetyOpts) (p : Profile)
    → fails (identity_safety o opts p) ≡ false
    → text_eq (extractor_of o p) (text "header") ≡ true
    → p.identity.allow_unsigned_header ≡ true
unfolding identity_safety
header-refused o opts p h header =
    let other : is_one_of (extractor_of o p) token_extractors ≡ false =
      subst (λ x. is_one_of x token_extractors ≡ false)
        (sym ((text_eq_iff (extractor_of o p) (text "header")).0 header)) header-no_token in
    let each = simp (other, fails-issue_if) at h in ground (arith, each)

-- No failing issue, in production. The keys, the issuer and the audience are set where the extractor reads tokens, an unsigned header is taken for the customer, by the extractor header or by auto with a header named, only with express leave, and unmatched routes are denied or the origin's secret is set and, for the proxy, its address.
pub safety_issues_sound :
    (o : TextOps) (opts : SafetyOpts) (p : Profile)
    → opts.production ≡ true
    → fails (safety_issues o opts p) ≡ false
    → ((is_one_of (extractor_of o p) token_extractors ≡ false) ⊎ (is_verifiable opts p ≡ true))
      × ((reads_header o p ≡ false) ⊎ (p.identity.allow_unsigned_header ≡ true))
      × ((unmatched_allow o p ≡ false)
          ⊎ ((is_empty (o.trim_space opts.origin_secret) ≡ false)
              × ((opts.proxy && is_empty (o.trim_space opts.origin_url)) ≡ false)))
safety_issues_sound o opts p production none_fails =
    let sums = fails-safety_issues o opts p in
    let of_unmatched = fails-unmatched_safety o opts p in
    let identity : fails (identity_safety o opts p) ≡ false = ground (arith, sums) in
    (
      fails-identity_safety o opts p identity,
      elim (Bool-cases (text_eq (extractor_of o p) (text "header"))) [
        | inl header ↦ inr (header-refused o opts p identity header)
        | inr other ↦ elim (Bool-cases (text_eq (extractor_of o p) (text "auto"))) [
          | inr neither ↦ inl (ground arith)
          | inl auto ↦ elim (Bool-cases (is_empty (o.trim_space p.identity.header))) [
            | inl unnamed ↦ inl (ground arith)
            | inr named ↦ inr (auto-refused o opts p identity auto named)
          ]
        ]
      ],
      elim (Bool-cases (unmatched_allow o p)) [
        | inl allow ↦ inr (ground (arith, sums, of_unmatched), ground (arith, sums, of_unmatched))
        | inr deny ↦ inl deny
      ],
    )
