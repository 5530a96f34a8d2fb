-- ===== src/Policy/Safety.antt =====
-- internal/policy/policy.go and safety.go: the default document, the order of precedence of a rule, and
-- what makes a document unsafe in production.
use bruiser_gateway.Prelude.{
  Bool, not, ◌&&◌, ◌||◌, some, none, List, [], ◌∷◌, if◌then◌else◌, ◌==◌, length, Text, text,
  text_eq, pos, select_row,
}
use bruiser_gateway.Resource.{TextOps}
use bruiser_gateway.Policy.{Budget, Waiting, Rule, Document, Compiled}
use bruiser_gateway.Policy.Compile.{default_precedence}

abbrev pub no_budget : Budget
no_budget = record {
  max_ops = pos 0;
  max_protected = pos 0;
  max_basket = pos 0;
  max_alloc = pos 0;
  max_checkout = pos 0;
}

abbrev pub no_waiting : Waiting
no_waiting = record { mode = []; max_waiters = pos 0 }

abbrev pub default_rule : Rule
default_rule = record {
  name = text "purchase-per-event";
  match_on = record { action = text "purchase" ∷ text "hold" ∷ []; resource_prefix = [] };
  scope = text "customer" ∷ text "resource" ∷ [];
  max_active = pos 1;
  lease_ttl = text "60s";
  max_lifetime = text "15m";
  precedence = text "browser" ∷ text "agent" ∷ [];
  control = [];
  on_missing_anchor = [];
  waiting = no_waiting;
  budget = no_budget;
}

abbrev pub discovery_rule : Rule
discovery_rule = record {
  name = text "discovery";
  match_on = record { action = text "search" ∷ []; resource_prefix = [] };
  scope = [];
  max_active = pos 0;
  lease_ttl = [];
  max_lifetime = [];
  precedence = [];
  control = text "none";
  on_missing_anchor = [];
  waiting = no_waiting;
  budget = no_budget;
}

unfoldable pub default_document : Text → Document
default_document merchant_id = record {
  version = pos 1;
  merchant = merchant_id;
  defaults = record {
    lease_ttl = text "60s";
    max_lifetime = text "15m";
    session_ttl = [];
    principal_types = [];
  };
  domains = default_rule ∷ discovery_rule ∷ [];
  fallback = text "deny";
}

-- Compiled.Precedence: of the first rule of the name that has one, or the order that Compile sets.
unfoldable pub precedence : Compiled → Text → List Text
precedence c rule_name =
    elim (select_row (λ r. text_eq r.rule.name rule_name && not (length r.rule.precedence == 0))
      c.rules) [ some r ↦ r.rule.precedence | none ↦ default_precedence ]

-- FailOpenReasons, of the document.
unfoldable pub document_reasons : TextOps → Document → List Text
document_reasons o d =
    if o.equal_fold (o.trim_space d.fallback) (text "allow-uncontrolled")
    then text "fallback: allow-uncontrolled" ∷ []
    else []

-- CheckProductionSafety: whether it gives no error.
unfoldable pub check_production_safety : TextOps → Document → Bool → Bool
check_production_safety o d allow_unsafe = length (document_reasons o d) == 0 || allow_unsafe
