-- ===== src/Policy/Bounds.antt =====
-- The bounds of the leases that a compiled policy hands out.
use bruiser_gateway.Prelude.{
  ◌≡◌, refl, subst, arith, Option, none, some, Bool, true, false, not, ◌&&◌, List, [], ◌∷◌, Text,
  is_empty, ℤ, pos, ltbℤ, lebℤ, All, inl, inr, Bool-cases, Option-cases, length, ◌==◌,
}
use bruiser_gateway.Resource.{TextOps, canonical}
use bruiser_gateway.Resource.Grammar.{Canonised-cases}
use bruiser_gateway.Store.Promote.{at_least_one}
use bruiser_gateway.Policy.{
  Budget, Waiting, Rule, Document, Request, CompiledRule, Compiled, Terms, leased, max_of,
  is_uncontrolled, ◌>>=◌,
}
use bruiser_gateway.Policy.Compile.{
  is_malformed_rule, is_unsupported, sixty_seconds, fifteen_minutes, or_default_precedence,
  normalize_waiting, parse_dur, settle_rule, compile_rule, compile_rules, compile,
}
use bruiser_gateway.Policy.Evaluate.{
  domain_key, match_rule, terms, decide, decide_all, fallback_decision, evaluate,
}

-- A lease's terms in bounds.
abbrev pub in_bounds : Terms → Bool
in_bounds t =
    ltbℤ (pos 0) t.max_active
    && ltbℤ (pos 0) t.ttl
    && ltbℤ (pos 0) t.max_lifetime
    && lebℤ (pos 0) t.max_waiters
    && lebℤ (pos 0) t.max_ops
    && not (length t.precedence == 0)

-- What compilation makes sure of: a rule is uncontrolled, or its terms are in bounds under any key.
abbrev IsSettled : CompiledRule → Type 0
IsSettled c = is_uncontrolled c.rule ≡ false → (key : Text) → in_bounds (terms c key) ≡ true

bind-some {ℓ κ} :
    {A : Type ℓ} {B : Type κ} {b : B} (m : Option A) (f : A → Option B)
    → m >>= f ≡ some b
    → (a : A) × (m ≡ some a) × (f a ≡ some b)
bind-some none f h = cc
bind-some (some a) f h = (a, refl, h)

parse_dur-positive :
    (pd : Text → Option ℤ) (s : Text) (default d : ℤ)
    → ltbℤ (pos 0) default ≡ true
    → parse_dur pd s default ≡ some d
    → ltbℤ (pos 0) d ≡ true
unfolding parse_dur
parse_dur-positive pd s default d p h = ground arith

max_of-nonneg : (b : Budget) → lebℤ (pos 0) (max_of b) ≡ true
unfolding max_of
max_of-nonneg b = ground arith

at_least_one-positive : (n : ℤ) → ltbℤ (pos 0) (at_least_one n) ≡ true
unfolding at_least_one
at_least_one-positive n = ground arith

normalize_waiting-nonneg :
    (o : TextOps) (w : Waiting) → lebℤ (pos 0) (normalize_waiting o w).max_waiters ≡ true
unfolding normalize_waiting at_least_one
normalize_waiting-nonneg o w = ground arith

or_default_precedence-nonempty : (ps : List Text) → (length (or_default_precedence ps) == 0) ≡ false
unfolding or_default_precedence
or_default_precedence-nonempty [] = refl
or_default_precedence-nonempty (p ∷ ps) = ground arith

settle_rule-in_bounds :
    (o : TextOps) (r : Rule) (ttl life : ℤ) (key : Text)
    → ltbℤ (pos 0) ttl ≡ true
    → ltbℤ (pos 0) life ≡ true
    → in_bounds (terms (record { rule = settle_rule o r; ttl = ttl; lifetime = life }) key) ≡ true
unfolding settle_rule terms
settle_rule-in_bounds o r ttl life key h k = rw (
  at_least_one-positive r.max_active,
  h,
  k,
  normalize_waiting-nonneg o r.waiting,
  max_of-nonneg r.budget,
  or_default_precedence-nonempty r.precedence,
)

compile_rule-IsSettled :
    (o : TextOps) (pd : Text → Option ℤ) (def_ttl def_life : ℤ) (r : Rule) (c : CompiledRule)
    → ltbℤ (pos 0) def_ttl ≡ true
    → ltbℤ (pos 0) def_life ≡ true
    → compile_rule o pd def_ttl def_life r ≡ some c
    → IsSettled c
unfolding compile_rule
compile_rule-IsSettled o pd def_ttl def_life r c h k e controlled key =
    elim (Bool-cases (is_uncontrolled r)) [
      | inl free ↦ absurd (ground arith)
      | inr held ↦ elim (Bool-cases (is_empty r.name)) [
        | inl nameless ↦ absurd (ground arith)
        | inr named ↦ elim (Bool-cases (is_malformed_rule r)) [
          | inl bad ↦ absurd (ground arith)
          | inr good ↦
              let (ttl, t, e₁) =
                bind-some (parse_dur pd r.lease_ttl def_ttl) _ (rw (named, held, good) at e) in
              let (life, l, e₂) = bind-some (parse_dur pd r.max_lifetime def_life) _ e₁ in
              let same : record { rule = settle_rule o r; ttl = ttl; lifetime = life } ≡ c =
                ground arith in
              subst (λ x. in_bounds (terms x key) ≡ true) same
                (settle_rule-in_bounds o r ttl life key
                  (parse_dur-positive pd r.lease_ttl def_ttl ttl h t)
                  (parse_dur-positive pd r.max_lifetime def_life life k l))
        ]
      ]
    ]

compile_rules-IsSettled :
    (o : TextOps) (pd : Text → Option ℤ) (def_ttl def_life : ℤ) (rs : List Rule)
    (cs : List CompiledRule)
    → ltbℤ (pos 0) def_ttl ≡ true
    → ltbℤ (pos 0) def_life ≡ true
    → compile_rules o pd def_ttl def_life rs ≡ some cs
    → All IsSettled cs
unfolding compile_rules
compile_rules-IsSettled o pd def_ttl def_life [] cs h k e =
    let same : [] ≡ cs = ground arith in subst (All IsSettled) same tt
compile_rules-IsSettled o pd def_ttl def_life (r ∷ rs) cs h k e =
    let (c, e₁, f₁) = bind-some (compile_rule o pd def_ttl def_life r) _ e in
    let (ds, e₂, f₂) = bind-some (compile_rules o pd def_ttl def_life rs) _ f₁ in
    let same : c ∷ ds ≡ cs = ground arith in
    subst (All IsSettled) same (
      compile_rule-IsSettled o pd def_ttl def_life r c h k e₁,
      compile_rules-IsSettled o pd def_ttl def_life rs ds h k e₂,
    )

compile-IsSettled :
    (o : TextOps) (pd : Text → Option ℤ) (d : Document) (c : Compiled)
    → compile o pd d ≡ some c
    → All IsSettled c.rules
unfolding compile
compile-IsSettled o pd d c e = elim (Bool-cases (is_unsupported d)) [
  | inl bad ↦ absurd (ground arith)
  | inr good ↦
      let (ttl, t, e₁) =
        bind-some (parse_dur pd d.defaults.lease_ttl sixty_seconds) _ (rw good at e) in
      let (life, l, e₂) = bind-some (parse_dur pd d.defaults.max_lifetime fifteen_minutes) _ e₁ in
      elim (Bool-cases (length d.domains == 0)) [
        | inl none_left ↦ absurd (ground arith)
        | inr some_left ↦
            let (rules, r, e₃) =
              bind-some (compile_rules o pd ttl life d.domains) _ (rw some_left at e₂) in
            let same : rules ≡ c.rules = ground arith in
            subst (All IsSettled) same (
              compile_rules-IsSettled o pd ttl life d.domains rules
                (parse_dur-positive pd d.defaults.lease_ttl _ ttl refl t)
                (parse_dur-positive pd d.defaults.max_lifetime _ life refl l) r)
      ]
]

decide-in_bounds :
    (c : CompiledRule) (req : Request) (name : Text) (t : Terms)
    → IsSettled c
    → decide c req ≡ some (leased name t)
    → in_bounds t ≡ true
unfolding decide
decide-in_bounds c req name t settled h =
    elim (Option-cases (domain_key req c.rule.name c.rule.scope)) [
      | inl missing ↦ absurd (ground arith)
      | inr (key, found) ↦ elim (Bool-cases (is_uncontrolled c.rule)) [
        | inl free ↦ absurd (ground arith)
        | inr held ↦
            let same : terms c key ≡ t = ground arith in
            subst (λ x. in_bounds x ≡ true) same (settled held key)
      ]
    ]

decide_all-in_bounds :
    (cs : List CompiledRule) (allows : Bool) (req : Request) (name : Text) (t : Terms)
    → All IsSettled cs
    → decide_all cs allows req ≡ leased name t
    → in_bounds t ≡ true
unfolding decide_all fallback_decision
decide_all-in_bounds [] allows req name t settled h = absurd (ground arith)
decide_all-in_bounds (c ∷ cs) allows req name t settled h =
    elim (Bool-cases (match_rule c.rule req)) [
      | inr other ↦ decide_all-in_bounds cs allows req name t settled.1 (rw other at h)
      | inl fits ↦ elim (Option-cases (decide c req)) [
        | inl through ↦ decide_all-in_bounds cs allows req name t settled.1 (ground arith)
        | inr (d, found) ↦ decide-in_bounds c req name t settled.0 (ground arith)
      ]
    ]

-- The leases that a policy hands out are in bounds. Where a document compiles, each lease that the compiled policy decides on has a capacity of at least 1, a term and a maximal lifetime above zero, a queue and a budget that are not negative, and an order of precedence that is not empty.
pub evaluate-in_bounds :
    (o : TextOps) (pd : Text → Option ℤ) (d : Document) (c : Compiled) (req : Request) (name : Text)
    (t : Terms)
    → compile o pd d ≡ some c
    → evaluate o c req ≡ leased name t
    → in_bounds t ≡ true
unfolding evaluate
evaluate-in_bounds o pd d c req name t compiled h =
    let settled = compile-IsSettled o pd d c compiled in
    elim (Canonised-cases (canonical o req.resource)) [
      | inl (y, e) ↦
          decide_all-in_bounds c.rules c.allows_uncontrolled (record req { resource = y }) name t
            settled (ground arith)
      | inr (inl e) ↦
          decide_all-in_bounds c.rules c.allows_uncontrolled req name t settled (ground arith)
      | inr (inr e) ↦
          decide_all-in_bounds c.rules c.allows_uncontrolled req name t settled (ground arith)
    ]
