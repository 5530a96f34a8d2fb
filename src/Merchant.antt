-- ===== src/Merchant.antt =====
-- internal/merchant/profile.go: a merchant's profile, its routes, and the resource of a request. YAML is
-- a library's work; the two readings of the document are where Parse starts here.
pub mod Document
pub mod Issues
pub mod Routing
pub mod Filled
pub mod Production
pub mod Validated
use bruiser_gateway.Prelude.{
  ℕ, ◌+◌, ◌-◌, Option, none, some, Bool, true, false, not, ◌&&◌, ◌||◌, List, [], ◌∷◌, ◌++◌,
  if◌then◌else◌, ◌==◌, length, Text, text, text_eq, is_empty, split_on, ℤ, pos, ltbℤ,
}
use bruiser_gateway.Resource.{TextOps, canonical_id, malformed, unknown_resource, canonical}
use bruiser_gateway.Policy.{Waiting, Rule, Defaults, has_prefix}
use bruiser_gateway.Controls.{ends_in, without_last}

pub record Identity : Type 0 where
  pub extractor : Text
  pub source : Text
  pub cookie : Text
  pub header : Text
  pub principal_header : Text
  pub subject_claim : Text
  pub claim : Text
  pub hmac_secret_env : Text
  pub introspect_url : Text
  pub jwks_url : Text
  pub issuer : Text
  pub audience : Text
  pub allow_unsigned_header : Bool

pub record RouteMatch : Type 0 where
  pub method : Text
  pub path : Text

pub record Route : Type 0 where
  pub match_on : RouteMatch
  pub action : Text
  pub resource : Text
  pub resource_from : Text
  pub resource_prefix : Text

pub record MerchantPolicy : Type 0 where
  pub version : ℤ
  pub defaults : Defaults
  pub domains : List Rule
  pub fallback : Text
  pub rule_name : Text
  pub max_active : ℤ
  pub lease_ttl : Text
  pub max_lifetime : Text
  pub waiting : Waiting

pub record Profile : Type 0 where
  pub merchant_id : Text
  pub name : Text
  pub profile_name : Text
  pub assumptions : Text
  pub unmatched : Text
  pub mode : Text
  pub identity : Identity
  pub routes : List Route
  pub policy : MerchantPolicy
  pub resources : List Text

-- compactRoot, with what Parse reads of it.
pub record CompactRoot : Type 0 where
  pub merchant : Text
  pub max_active : ℤ
  pub lease_ttl : Text
  pub waiting : Waiting

-- The params of a path: a map, as a list of its entries in the order of an iteration.
abbrev pub Params : Type 0
Params = List (Text × Text)

unfoldable pub map_source : TextOps → Text → Text
map_source o src =
    let s = o.to_lower (o.trim_space src) in
    if text_eq s (text "jwt") || text_eq s (text "bearer")
    then text "bearer-jwt"
    else if text_eq s (text "cookie") || text_eq s (text "cookie-jwt")
    then text "cookie-jwt"
    else if text_eq s (text "header")
    then text "header"
    else if text_eq s (text "introspect") || text_eq s (text "introspection")
    then text "introspect"
    else if text_eq s (text "edge-signed") || text_eq s (text "signed-header")
    then text "edge-signed"
    else if text_eq s (text "oidc") || text_eq s (text "jwks")
    then text "oidc"
    else src

-- s, or t where s is empty.
abbrev pub first_nonempty : Text → Text → Text
first_nonempty s t = if is_empty s then t else s

-- The identity by its compact aliases, and then by its defaults.
unfoldable pub settle_identity : TextOps → Identity → Identity
settle_identity o i =
    let extractor =
      if is_empty i.extractor && not (is_empty i.source)
      then map_source o i.source
      else i.extractor in
    record i {
      subject_claim = first_nonempty (first_nonempty i.subject_claim i.claim) (text "sub");
      extractor = first_nonempty extractor (text "auto");
      header = first_nonempty i.header (text "X-Customer-Id");
    }

abbrev has_waiting : Waiting → Bool
has_waiting w = not (is_empty w.mode) || ltbℤ (pos 0) w.max_waiters

unfoldable pub settle_policy : CompactRoot → MerchantPolicy → MerchantPolicy
settle_policy k p =
    let max_active =
      if ltbℤ (pos 0) k.max_active && ltbℤ p.max_active (pos 1)
      then k.max_active
      else p.max_active in
    record p {
      max_active = if ltbℤ max_active (pos 1) then pos 1 else max_active;
      lease_ttl = first_nonempty p.lease_ttl k.lease_ttl;
      waiting = if has_waiting k.waiting then k.waiting else p.waiting;
      rule_name = first_nonempty p.rule_name (text "purchase-per-event");
    }

-- Parse, from what YAML read; nothing is its error.
unfoldable pub parse_profile : TextOps → Profile → CompactRoot → Option Profile
parse_profile o p k =
    let merchant_id = first_nonempty p.merchant_id k.merchant in
    if is_empty merchant_id
    then none
    else some (record p {
      merchant_id = merchant_id;
      identity = settle_identity o p.identity;
      policy = settle_policy k p.policy;
      unmatched = first_nonempty p.unmatched (text "deny");
    })

unfoldable pub unmatched_allow : TextOps → Profile → Bool
unmatched_allow o p = not (o.equal_fold p.unmatched (text "deny"))

-- strings.TrimSuffix s "/".
unfoldable pub trim_slash : Text → Text
trim_slash s = if ends_in 47 s then without_last s else s

unfoldable pub is_param : Text → Bool
is_param seg = has_prefix (text "{") seg && ends_in 125 seg

unfoldable pub param_name : Text → Text
param_name [] = []
param_name (c ∷ seg) = if ends_in 125 seg then without_last seg else seg

-- params[name] = v.
unfoldable pub put_param : Text → Text → Params → Params
put_param name v [] = (name, v) ∷ []
put_param name v ((n, w) ∷ params) =
    let rest = put_param name v params in
    if text_eq n name then (name, v) ∷ params else (n, w) ∷ rest

-- The loop of matchPath over two lists of segments.
unfoldable pub match_segments : List Text → List Text → Params → Option Params
match_segments [] [] params = some params
match_segments [] (s ∷ sp) params = none
match_segments (p ∷ pp) [] params = none
match_segments (p ∷ pp) (s ∷ sp) params =
    let next = if is_param p then put_param (param_name p) s params else params in
    let rest = match_segments pp sp next in if is_param p || text_eq p s then rest else none

unfoldable pub match_path : Text → Text → Option Params
match_path pattern path =
    let pp = split_on 47 (trim_slash pattern) in
    let sp = split_on 47 (trim_slash path) in
    if length pp == length sp then match_segments pp sp [] else none

-- What one route makes of a request: its method and its path have to match.
unfoldable pub try_route : TextOps → Text → Text → Route → Option (Route × Params)
try_route o method path r =
    if text_eq (o.to_upper r.match_on.method) (o.to_upper method)
    then elim (match_path r.match_on.path path) [ some params ↦ some (r, params) | none ↦ none ]
    else none

-- Profile.MatchRoute.
unfoldable pub match_route : TextOps → Text → Text → List Route → Option (Route × Params)
match_route o method path [] = none
match_route o method path (r ∷ routes) =
    let rest = match_route o method path routes in
    elim (try_route o method path r) [ some found ↦ some found | none ↦ rest ]

-- strings.ReplaceAll: the first argument counts the runes of a match that are still to be left out.
unfoldable pub replace_from : ℕ → Text → Text → Text → Text
replace_from skip old new [] = []
replace_from skip old new (c ∷ s) =
    let hit = skip == 0 && has_prefix old (c ∷ s) in
    let rest = replace_from (if hit then length old - 1 else skip - 1) old new s in
    if hit then new ++ rest else if skip == 0 then c ∷ rest else rest

unfoldable pub fill_params : Params → Text → Text
fill_params [] res = res
fill_params ((k, v) ∷ params) res = fill_params params (replace_from 0 (123 ∷ k ++ 125 ∷ []) v res)

-- resource.MustCanonical.
unfoldable pub must_canonical : TextOps → Text → Text
must_canonical o raw = elim (canonical o raw) [
  | canonical_id y ↦ y
  | malformed ↦ []
  | unknown_resource ↦ []
]

-- Route.ResourceFor.
unfoldable pub resource_for : TextOps → Route → Params → Text → Text
resource_for o r params event_id =
    if text_eq r.resource_from (text "event_id") && not (is_empty event_id)
    then must_canonical o (r.resource_prefix ++ event_id)
    else must_canonical o (fill_params params r.resource)

unfoldable pub controlled : Route → Bool
controlled r = not (is_empty r.resource) || not (is_empty r.resource_from)
