-- ===== src/Policy/Evaluate.antt =====
-- internal/policy/policy.go: Evaluate, which decides a request by the compiled rules.
use bruiser_gateway.Prelude.{
  Option, none, some, Bool, true, false, ◌&&◌, ◌||◌, List, [], ◌∷◌, ◌++◌, if◌then◌else◌, ◌==◌, Text,
  text, text_eq, is_empty, any_where, select_row, length,
}
use bruiser_gateway.Resource.{TextOps, canonical_id, malformed, unknown_resource, canonical}
use bruiser_gateway.Policy.{
  Rule, Request, CompiledRule, Compiled, Terms, Decision, uncontrolled, denied, leased, max_of,
  has_prefix, drop_prefix, is_uncontrolled, falls_through, ◌>>=◌,
}

unfoldable pub match_rule : Rule → Request → Bool
match_rule r req =
    (length r.match_on.action == 0 || any_where (λ a. text_eq a req.action) r.match_on.action)
    && (is_empty r.match_on.resource_prefix || has_prefix r.match_on.resource_prefix req.resource)

-- Up to the last colon, where there is one.
unfoldable pub before_last_colon : Text → Option Text
before_last_colon [] = none
before_last_colon (c ∷ s) = elim (before_last_colon s) [
  | some p ↦ some (c ∷ p)
  | none ↦ if c == 58 then some [] else none
]

abbrev pool_of : Text → Option Text → Text
pool_of res none = res
pool_of res (some []) = res
pool_of res (some (c ∷ p)) = c ∷ p

-- An anchor that is missing or empty is an error.
abbrev anchor_of : Option (Text × Text) → Option Text
anchor_of none = none
anchor_of (some (name, v)) = if is_empty v then none else some v

unfoldable pub dim_value : Request → Text → Option Text
dim_value req dim =
    if text_eq dim (text "customer")
    then some req.customer_id
    else if text_eq dim (text "resource")
    then some req.resource
    else if text_eq dim (text "resource_pool")
    then some (pool_of req.resource (before_last_colon req.resource))
    else if text_eq dim (text "principal_type")
    then some req.principal_type
    else if has_prefix (text "anchor:") dim
    then anchor_of (select_row (λ p. text_eq p.0 (drop_prefix (text "anchor:") dim)) req.anchors)
    else none

-- The parts of the key from the scope on, each after a slash.
unfoldable pub scope_key : Request → List Text → Option Text
scope_key req [] = some []
scope_key req (dim ∷ dims) =
    dim_value req dim >>= λ v. scope_key req dims >>= λ rest. some (47 ∷ dim ++ 61 ∷ v ++ rest)

unfoldable pub domain_key : Request → Text → List Text → Option Text
domain_key req rule_name scope =
    scope_key req scope >>= λ rest. some (req.merchant_id ++ 47 ∷ rule_name ++ rest)

unfoldable pub terms : CompiledRule → Text → Terms
terms c key = record {
  domain_key = key;
  max_active = c.rule.max_active;
  ttl = c.ttl;
  max_lifetime = c.lifetime;
  precedence = c.rule.precedence;
  max_waiters = c.rule.waiting.max_waiters;
  max_ops = max_of c.rule.budget;
}

-- What a rule that matches decides; nothing where it falls through.
unfoldable pub decide : CompiledRule → Request → Option Decision
decide c req =
    if is_uncontrolled c.rule
    then some (uncontrolled c.rule.name)
    else elim (domain_key req c.rule.name c.rule.scope) [
      | some key ↦ some (leased c.rule.name (terms c key))
      | none ↦
          if falls_through c.rule then none else some (denied c.rule.name (text "missing_anchor"))
    ]

unfoldable pub fallback_decision : Bool → Decision
fallback_decision true = uncontrolled (text "fallback")
fallback_decision false = denied (text "fallback") (text "no_matching_rule")

-- The loop over the rules.
unfoldable pub decide_all : List CompiledRule → Bool → Request → Decision
decide_all [] allows req = fallback_decision allows
decide_all (c ∷ cs) allows req =
    let rest = decide_all cs allows req in
    if match_rule c.rule req then elim (decide c req) [ some d ↦ d | none ↦ rest ] else rest

-- Compiled.Evaluate.
unfoldable pub evaluate : TextOps → Compiled → Request → Decision
evaluate o c req = elim (canonical o req.resource) [
  | canonical_id y ↦ decide_all c.rules c.allows_uncontrolled (record req { resource = y })
  | malformed ↦
      if is_empty req.resource
      then decide_all c.rules c.allows_uncontrolled req
      else denied (text "resource") (text "malformed_resource")
  | unknown_resource ↦
      if is_empty req.resource
      then decide_all c.rules c.allows_uncontrolled req
      else denied (text "resource") (text "malformed_resource")
]
