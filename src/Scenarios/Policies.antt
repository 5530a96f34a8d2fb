-- ===== src/Scenarios/Policies.antt =====
-- The default policy at concrete requests.
use bruiser_gateway.Prelude.{
  ◌≡◌, refl, Option, none, some, Bool, true, [], ◌∷◌, Text, text, text_eq, ℤ, pos, select_row,
  if◌then◌else◌,
}
use bruiser_gateway.Policy
use bruiser_gateway.Policy.Compile
use bruiser_gateway.Policy.Evaluate
use bruiser_gateway.Policy.{
  Budget, Waiting, Match, Rule, Document, Request, Compiled, Terms, Decision, uncontrolled, denied,
  leased, is_uncontrolled,
}
use bruiser_gateway.Policy.Compile.{compile}
use bruiser_gateway.Policy.Evaluate.{evaluate, match_rule}
use bruiser_gateway.Policy.Bounds.{in_bounds, evaluate-in_bounds}
use bruiser_gateway.Policy.Decisions.{applies, decision_of, seen, is_malformed, evaluate-first}
use bruiser_gateway.Scenarios.Resources.{ascii, folding}

-- The durations of the default document.
unfoldable pub duration : Text → Option ℤ
duration s =
    if text_eq s (text "60s")
    then some (pos 60000000000)
    else if text_eq s (text "15m")
    then some (pos 900000000000)
    else none

abbrev zero_budget : Budget
zero_budget = record {
  max_ops = pos 0;
  max_protected = pos 0;
  max_basket = pos 0;
  max_alloc = pos 0;
  max_checkout = pos 0;
}

abbrev purchase : Rule
purchase = record {
  name = text "purchase-per-event";
  match_on = record { action = text "purchase" ∷ text "hold" ∷ []; resource_prefix = [] };
  scope = text "customer" ∷ text "resource" ∷ [];
  max_active = pos 1;
  lease_ttl = text "60s";
  max_lifetime = text "15m";
  precedence = text "browser" ∷ text "agent" ∷ [];
  control = [];
  on_missing_anchor = [];
  waiting = record { mode = []; max_waiters = pos 0 };
  budget = zero_budget;
}

abbrev discovery : Rule
discovery = record purchase {
  name = text "discovery";
  match_on = record { action = text "search" ∷ []; resource_prefix = [] };
  scope = [];
  control = text "none";
}

abbrev club_document : Document
club_document = record {
  version = pos 1;
  merchant = text "club";
  defaults = record {
    lease_ttl = text "60s";
    max_lifetime = text "15m";
    session_ttl = [];
    principal_types = [];
  };
  domains = purchase ∷ discovery ∷ [];
  fallback = text "deny";
}

abbrev pub asks_for : Text → Request
asks_for action = record {
  merchant_id = text "club";
  customer_id = text "ann";
  principal_type = text "agent";
  resource = text "Ticket / Cup-Final";
  action = action;
  anchors = [];
}

unfoldable pub deciding : Bool
unfolding folding duration Policy.max_of Policy.has_prefix Policy.drop_prefix Compile.is_valid_dim
    Compile.normalize_waiting Compile.parse_dur Policy.is_uncontrolled Policy.falls_through
    Compile.or_default_precedence Compile.settle_rule Compile.is_malformed_rule Compile.compile_rule
    Compile.compile_rules Compile.is_unsupported Compile.compile Evaluate.match_rule
    Evaluate.before_last_colon Evaluate.dim_value Evaluate.scope_key Evaluate.domain_key
    Evaluate.terms Evaluate.decide Evaluate.fallback_decision Evaluate.decide_all Evaluate.evaluate
deciding = true

abbrev pub compiled_or_none : Option Compiled → Compiled
compiled_or_none none = record { rules = []; allows_uncontrolled = true }
compiled_or_none (some c) = c

abbrev pub club_policy : Compiled
club_policy = compiled_or_none (compile ascii duration club_document)

abbrev purchase_terms : Terms
purchase_terms = record {
  domain_key = text "club/purchase-per-event/customer=ann/resource=ticket:cup-final";
  max_active = pos 1;
  ttl = pos 60000000000;
  max_lifetime = pos 900000000000;
  precedence = text "browser" ∷ text "agent" ∷ [];
  max_waiters = pos 0;
  max_ops = pos 0;
}

-- A search is free, and what no rule matches is denied.
decisions :
    (evaluate ascii club_policy (asks_for (text "search")) ≡ uncontrolled (text "discovery"))
    × (evaluate ascii club_policy (asks_for (text "refund"))
        ≡ denied (text "fallback") (text "no_matching_rule"))
unfolding deciding
decisions = (refl, refl)

evaluate-in_bounds_example : in_bounds purchase_terms ≡ true
unfolding deciding
evaluate-in_bounds_example =
    evaluate-in_bounds ascii duration club_document club_policy (asks_for (text "purchase"))
      (text "purchase-per-event") purchase_terms refl refl

evaluate-first_example : evaluate ascii club_policy (asks_for (text "purchase")) ≡ (
    if is_malformed ascii (asks_for (text "purchase"))
    then denied (text "resource") (text "malformed_resource")
    else decision_of
        (seen ascii (asks_for (text "purchase")))
        club_policy.allows_uncontrolled
        (select_row (applies (seen ascii (asks_for (text "purchase")))) club_policy.rules))
evaluate-first_example = evaluate-first ascii club_policy (asks_for (text "purchase"))
