-- ===== src/Policy/Compile.antt =====
-- internal/policy/policy.go: Compile, which settles the rules of a document or refuses it.
use bruiser_gateway.Prelude.{
  Option, none, some, Bool, not, ◌&&◌, ◌||◌, List, [], ◌∷◌, if◌then◌else◌, ◌==◌, Text, text,
  text_eq, is_empty, ℤ, pos, lebℤ, any_where, length,
}
use bruiser_gateway.Resource.{TextOps}
use bruiser_gateway.Store.Promote.{at_least_one}
use bruiser_gateway.Policy.{
  Waiting, Rule, Document, CompiledRule, Compiled, has_prefix, drop_prefix, is_uncontrolled, ◌>>=◌,
}

unfoldable pub is_valid_dim : Text → Bool
is_valid_dim dim =
    text_eq dim (text "customer")
    || text_eq dim (text "resource")
    || text_eq dim (text "resource_pool")
    || text_eq dim (text "principal_type")
    || (has_prefix (text "anchor:") dim && not (is_empty (drop_prefix (text "anchor:") dim)))

unfoldable pub normalize_waiting : TextOps → Waiting → Waiting
normalize_waiting o w =
    let mode = o.to_lower (o.trim_space w.mode) in
    if text_eq mode (text "bounded")
      || text_eq mode (text "queue")
      || text_eq mode (text "intra-customer")
    then record { mode = text "bounded"; max_waiters = at_least_one w.max_waiters }
    else record { mode = text "none"; max_waiters = pos 0 }

-- parseDur, over time.ParseDuration.
unfoldable pub parse_dur : (Text → Option ℤ) → Text → ℤ → Option ℤ
parse_dur parse_duration s default =
    if is_empty s
    then some default
    else elim (parse_duration s) [ none ↦ none | some d ↦ if lebℤ d (pos 0) then none else some d ]

abbrev pub default_precedence : List Text
default_precedence = text "browser" ∷ text "agent" ∷ []

unfoldable pub or_default_precedence : List Text → List Text
or_default_precedence [] = default_precedence
or_default_precedence (p ∷ ps) = p ∷ ps

-- The settings of a controlled rule.
unfoldable pub settle_rule : TextOps → Rule → Rule
settle_rule o r = record r {
  max_active = at_least_one r.max_active;
  on_missing_anchor = if is_empty r.on_missing_anchor then text "deny" else r.on_missing_anchor;
  precedence = or_default_precedence r.precedence;
  waiting = normalize_waiting o r.waiting;
}

unfoldable pub is_malformed_rule : Rule → Bool
is_malformed_rule r =
    length r.scope == 0
    || any_where (λ dim. not (is_valid_dim dim)) r.scope
    || not (
        is_empty r.on_missing_anchor
        || text_eq r.on_missing_anchor (text "deny")
        || text_eq r.on_missing_anchor (text "fallthrough"))

-- The loop's body, for one rule.
unfoldable pub compile_rule : TextOps → (Text → Option ℤ) → ℤ → ℤ → Rule → Option CompiledRule
compile_rule o parse_duration def_ttl def_life r =
    if is_empty r.name
    then none
    else if is_uncontrolled r
    then some (record { rule = r; ttl = pos 0; lifetime = pos 0 })
    else if is_malformed_rule r
    then none
    else (do
      ttl ← parse_dur parse_duration r.lease_ttl def_ttl
      life ← parse_dur parse_duration r.max_lifetime def_life
      some (record { rule = settle_rule o r; ttl = ttl; lifetime = life }))

unfoldable pub compile_rules :
    TextOps → (Text → Option ℤ) → ℤ → ℤ → List Rule → Option (List CompiledRule)
compile_rules o parse_duration def_ttl def_life [] = some []
compile_rules o parse_duration def_ttl def_life (r ∷ rs) =
    compile_rule o parse_duration def_ttl def_life r >>= λ c.
    compile_rules o parse_duration def_ttl def_life rs >>= λ cs. some (c ∷ cs)

abbrev pub sixty_seconds : ℤ
sixty_seconds = pos 60000000000

abbrev pub fifteen_minutes : ℤ
fifteen_minutes = pos 900000000000

unfoldable pub is_unsupported : Document → Bool
is_unsupported d =
    not (
      (lebℤ d.version (pos 0) && lebℤ (pos 0) d.version)
      || (lebℤ d.version (pos 1) && lebℤ (pos 1) d.version))
    || not (
        is_empty d.fallback
        || text_eq d.fallback (text "deny")
        || text_eq d.fallback (text "allow-uncontrolled"))

unfoldable pub compile : TextOps → (Text → Option ℤ) → Document → Option Compiled
compile o parse_duration d = if is_unsupported d then none else (do
  def_ttl ← parse_dur parse_duration d.defaults.lease_ttl sixty_seconds
  def_life ← parse_dur parse_duration d.defaults.max_lifetime fifteen_minutes
  if length d.domains == 0 then none else (do
    rules ← compile_rules o parse_duration def_ttl def_life d.domains
    some (record {
      rules = rules;
      allows_uncontrolled = text_eq d.fallback (text "allow-uncontrolled");
    })))
