-- ===== src/Merchant/Document.antt =====
-- internal/merchant/policy.go and safety.go: the policy document of a profile, and whether it fails
-- open.
use bruiser_gateway.Prelude.{
  Bool, not, ◌&&◌, ◌||◌, List, [], ◌∷◌, ◌++◌, if◌then◌else◌, ◌==◌, length, Text, text, is_empty, ℤ,
  pos, ltbℤ, lebℤ,
}
use bruiser_gateway.Resource.{TextOps}
use bruiser_gateway.Policy.{Waiting, Rule}
use bruiser_gateway.Policy
use bruiser_gateway.Policy.Safety.{default_rule, discovery_rule, default_document, document_reasons}
use bruiser_gateway.Merchant.{MerchantPolicy, Profile, first_nonempty, unmatched_allow}

abbrev sets_waiting : Waiting → Bool
sets_waiting w = not (is_empty w.mode) || ltbℤ (pos 0) w.max_waiters

-- doc.Domains[0] of the default document, with what the profile sets.
unfoldable pub adapt_rule : MerchantPolicy → Rule → Rule
adapt_rule p r = record r {
  name = first_nonempty p.rule_name r.name;
  max_active = if ltbℤ (pos 0) p.max_active then p.max_active else r.max_active;
  lease_ttl = first_nonempty p.lease_ttl r.lease_ttl;
  max_lifetime = first_nonempty p.max_lifetime r.max_lifetime;
  waiting = if sets_waiting p.waiting then p.waiting else r.waiting;
}

abbrev is_zero : ℤ → Bool
is_zero n = lebℤ n (pos 0) && lebℤ (pos 0) n

-- Without domains of its own, the default document with the profile's settings.
abbrev pub adapted_document : Profile → Policy.Document
adapted_document p =
    let d = default_document p.merchant_id in
    record d {
      domains = adapt_rule p.policy default_rule ∷ discovery_rule ∷ [];
      defaults = record d.defaults {
        lease_ttl = first_nonempty p.policy.lease_ttl d.defaults.lease_ttl;
        max_lifetime = first_nonempty p.policy.max_lifetime d.defaults.max_lifetime;
      };
    }

-- Profile.PolicyDocument.
unfoldable pub policy_document : Profile → Policy.Document
policy_document p = if length p.policy.domains == 0 then adapted_document p else record {
  version = if is_zero p.policy.version then pos 1 else p.policy.version;
  merchant = p.merchant_id;
  defaults = p.policy.defaults;
  domains = p.policy.domains;
  fallback = p.policy.fallback;
}

-- Profile.FailOpenReasons.
unfoldable pub fail_open_reasons : TextOps → Profile → List Text
fail_open_reasons o p =
    (if unmatched_allow o p then text "unmatched: allow" ∷ [] else [])
    ++ document_reasons o (policy_document p)

-- ValidateProductionPolicy: whether it gives no error.
unfoldable pub validate_production_policy : TextOps → Profile → Bool → Bool
validate_production_policy o p allow_unsafe = length (fail_open_reasons o p) == 0 || allow_unsafe
