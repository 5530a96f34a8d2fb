-- ===== src/Scenarios/Profiles.antt =====
-- A club's profile at concrete requests.
use bruiser_gateway.Prelude.{
  ◌≡◌, ◌⊎◌, ◌&&◌, refl, none, some, Bool, true, false, List, [], ◌∷◌, map, length, text, is_empty,
  split_on, pos, select_row, any_where,
}
use bruiser_gateway.Resource.{new_catalogue}
use bruiser_gateway.Policy.{Compiled, is_uncontrolled}
use bruiser_gateway.Policy.Compile.{compile}
use bruiser_gateway.Policy.Evaluate.{match_rule}
use bruiser_gateway.Policy.Decisions.{seen}
use bruiser_gateway.Policy.Safety.{no_waiting}
use bruiser_gateway.Policy.Safety
use bruiser_gateway.Merchant
use bruiser_gateway.Merchant.{
  Identity, Route, MerchantPolicy, Profile, CompactRoot, Params, parse_profile, trim_slash,
  match_path, match_route, resource_for, unmatched_allow, controlled,
}
use bruiser_gateway.Merchant.Document
use bruiser_gateway.Merchant.Document.{policy_document}
use bruiser_gateway.Merchant.Issues
use bruiser_gateway.Merchant.Issues.{
  SafetyOpts, is_some, is_one_of, extractor_of, known_extractors, token_extractors, safety_issues,
}
use bruiser_gateway.Merchant.Routing.{serves, with_params, match_route-first}
use bruiser_gateway.Merchant.Filled.{filled, filled-match_path}
use bruiser_gateway.Merchant.Production.{validate_production_policy-closed}
use bruiser_gateway.Merchant.Validated.{
  is_bad_route, is_verifiable, reads_header, validate_sound, safety_issues_sound,
}
use bruiser_gateway.Scenarios.Resources.{ascii}
use bruiser_gateway.Scenarios.Ramp.{ramping}
use bruiser_gateway.Scenarios.Policies.{deciding, duration, compiled_or_none, asks_for}

unfoldable pub routing : Bool
unfolding ramping deciding Merchant.map_source Merchant.settle_identity Merchant.settle_policy
    Merchant.parse_profile Merchant.unmatched_allow Merchant.trim_slash Merchant.is_param
    Merchant.param_name Merchant.put_param Merchant.match_segments Merchant.match_path
    Merchant.try_route Merchant.match_route Merchant.replace_from Merchant.fill_params
    Merchant.must_canonical Merchant.resource_for Merchant.controlled Safety.default_document
    Safety.document_reasons Document.adapt_rule Document.policy_document Document.fail_open_reasons
    Document.validate_production_policy Issues.has_method_path Issues.unlisted_common_allocation
    Issues.extractor_of Issues.identity_safety Issues.unmatched_safety Issues.safety_issues
    Issues.looks_like_allocation Issues.identity_issues Issues.route_issues Issues.policy_issues
    Issues.is_canonical Issues.resource_issues Issues.validate_issues Issues.validate
routing = true

abbrev hold_of_event : Route
hold_of_event = record {
  match_on = record { method = text "post"; path = text "/api/{event_id}/hold/" };
  action = text "hold";
  resource = text "ticket:{event_id}";
  resource_from = [];
  resource_prefix = [];
}

abbrev hold_by_body : Route
hold_by_body = record {
  match_on = record { method = text "POST"; path = text "/api/holds" };
  action = text "hold";
  resource = [];
  resource_from = text "event_id";
  resource_prefix = text "ticket:";
}

abbrev pub search_route : Route
search_route = record {
  match_on = record { method = text "GET"; path = text "/api/events" };
  action = text "search";
  resource = [];
  resource_from = [];
  resource_prefix = [];
}

abbrev pub club_routes : List Route
club_routes = search_route ∷ hold_of_event ∷ hold_by_body ∷ []

abbrev written : Profile
written = record {
  merchant_id = [];
  name = [];
  profile_name = [];
  assumptions = [];
  unmatched = [];
  mode = [];
  identity = record {
    extractor = [];
    source = text "JWKS";
    cookie = [];
    header = [];
    principal_header = [];
    subject_claim = [];
    claim = [];
    hmac_secret_env = [];
    introspect_url = [];
    jwks_url = text "https";
    issuer = text "club";
    audience = text "gate";
    allow_unsigned_header = false;
  };
  routes = club_routes;
  policy = record {
    version = pos 0;
    defaults = record { lease_ttl = []; max_lifetime = []; session_ttl = []; principal_types = [] };
    domains = [];
    fallback = [];
    rule_name = [];
    max_active = pos 0;
    lease_ttl = [];
    max_lifetime = [];
    waiting = no_waiting;
  };
  resources = text "ticket:cup-final" ∷ [];
}

abbrev compact : CompactRoot
compact = record {
  merchant = text "club";
  max_active = pos 1;
  lease_ttl = text "60s";
  waiting = no_waiting;
}

-- What Parse makes of it.
abbrev pub club : Profile
club = record written {
  merchant_id = text "club";
  unmatched = text "deny";
  identity = record written.identity {
    extractor = text "oidc";
    subject_claim = text "sub";
    header = text "X-Customer-Id";
  };
  policy = record written.policy {
    max_active = pos 1;
    lease_ttl = text "60s";
    rule_name = text "purchase-per-event";
  };
}

parsed : parse_profile ascii written compact ≡ some club
unfolding routing
parsed = refl

abbrev cup : Params
cup = (text "event_id", text "cup-final") ∷ []

-- From the request's line to the resource.
routed :
    (match_route ascii (text "POST") (text "/api/cup-final/hold") club_routes
      ≡ some (hold_of_event, cup))
    × (resource_for ascii hold_of_event cup [] ≡ text "ticket:cup-final")
    × (resource_for ascii hold_by_body [] (text "Cup-Final") ≡ text "ticket:cup-final")
    × (match_route ascii (text "PUT") (text "/api/holds") club_routes ≡ none)
unfolding routing
routed = (refl, refl, refl, refl)

-- The order in which a map's entries are replaced decides, where a value has braces.
order_matters :
    (Merchant.fill_params ((text "a", text "{b}") ∷ (text "b", text "x") ∷ []) (text "t:{a}")
      ≡ text "t:x")
    × (Merchant.fill_params ((text "b", text "x") ∷ (text "a", text "{b}") ∷ []) (text "t:{a}")
        ≡ text "t:{b}")
unfolding routing
order_matters = (refl, refl)

match_route-first_example :
    match_route ascii (text "POST") (text "/api/cup-final/hold") club_routes
    ≡ with_params
        (text "/api/cup-final/hold")
        (select_row (serves ascii (text "POST") (text "/api/cup-final/hold")) club_routes)
match_route-first_example =
    match_route-first ascii (text "POST") (text "/api/cup-final/hold") club_routes

filled-match_path_example :
    map (filled cup) (split_on 47 (trim_slash (text "/api/{event_id}/hold/")))
    ≡ split_on 47 (trim_slash (text "/api/cup-final/hold"))
unfolding routing
filled-match_path_example =
    filled-match_path (text "/api/{event_id}/hold/") (text "/api/cup-final/hold") cup refl refl

abbrev compiled : Compiled
compiled = compiled_or_none (compile ascii duration (policy_document club))

validate_production_policy-closed_example :
    (unmatched_allow ascii club ≡ false)
    × (any_where
          (λ r. match_rule r.rule (seen ascii (asks_for (text "search"))) && is_uncontrolled r.rule)
          compiled.rules
        ≡ true)
unfolding routing
validate_production_policy-closed_example =
    validate_production_policy-closed ascii duration club compiled (asks_for (text "search"))
      (text "discovery") refl refl refl refl

validate_sound_example :
    (is_empty club.merchant_id ≡ false)
    × (is_one_of (extractor_of ascii club) known_extractors ≡ true)
    × (is_some (compile ascii duration (policy_document club)) ≡ true)
    × (any_where controlled club.routes ≡ true)
    × (any_where (is_bad_route ascii) club.routes ≡ false)
    × (length (new_catalogue ascii club.resources) ≡ length club.resources)
unfolding routing
validate_sound_example = validate_sound ascii (λ name. []) duration club refl

abbrev behind_proxy : SafetyOpts
behind_proxy = record {
  origin_secret = text "s3cret";
  origin_url = text "http";
  proxy = true;
  production = true;
  jwks_url = [];
  issuer = [];
  audience = [];
}

abbrev open_club : Profile
open_club = record club { unmatched = text "allow" }

safety_issues_sound_example :
    ((is_one_of (extractor_of ascii open_club) token_extractors ≡ false)
      ⊎ (is_verifiable behind_proxy open_club ≡ true))
    × ((reads_header ascii open_club ≡ false) ⊎ (open_club.identity.allow_unsigned_header ≡ true))
    × ((unmatched_allow ascii open_club ≡ false)
        ⊎ ((is_empty (ascii.trim_space behind_proxy.origin_secret) ≡ false)
            × ((behind_proxy.proxy && is_empty (ascii.trim_space behind_proxy.origin_url))
                ≡ false)))
unfolding routing
safety_issues_sound_example = safety_issues_sound ascii behind_proxy open_club refl refl
