-- ===== src/Merchant/Routing.antt =====
-- Which route a request takes: internal/merchant/profile.go MatchRoute.
use bruiser_gateway.Prelude.{
  ◌≡◌, refl, arith, Option, none, some, Bool, ◌&&◌, List, [], ◌∷◌, Text, text_eq, select_row,
}
use bruiser_gateway.Resource.{TextOps}
use bruiser_gateway.Merchant.{Route, Params, match_path, try_route, match_route}
use bruiser_gateway.Merchant.Issues.{is_some}

-- Whether a route serves a request: the method is its own in any case, and the path fits its pattern.
abbrev pub serves : TextOps → Text → Text → Route → Bool
serves o method path r =
    text_eq (o.to_upper r.match_on.method) (o.to_upper method)
    && is_some (match_path r.match_on.path path)

abbrev pub with_params : Text → Option Route → Option (Route × Params)
with_params path none = none
with_params path (some r) = elim (match_path r.match_on.path path) [
  | some params ↦ some (r, params)
  | none ↦ none
]

-- First match. The route of a request is the first of the profile that serves it, with the parameters of its own pattern, and there is none exactly where no route serves it.
pub match_route-first :
    (o : TextOps) (method path : Text) (routes : List Route)
    → match_route o method path routes ≡ with_params path (select_row (serves o method path) routes)
unfolding match_route select_row try_route
match_route-first o method path [] = refl
match_route-first o method path (r ∷ routes) =
    ground (arith, match_route-first o method path routes)
