-- ===== src/Gateway/Fitting.antt =====
-- A bound on the capacities of a policy's rules bounds every lease that it decides on.
use bruiser_gateway.Prelude.{
  ℕ, ◌≤◌, ◌≡◌, subst, sym, arith, some, Bool, false, List, [], ◌∷◌, Text, any_where, ltb, inl, inr,
  Option-cases,
}
use bruiser_gateway.Resource.{TextOps, canonical}
use bruiser_gateway.Resource.Grammar.{Canonised-cases}
use bruiser_gateway.Policy.{Request, CompiledRule, leased, Terms}
use bruiser_gateway.Policy.Evaluate.{
  domain_key, terms, decide, decide_all, fallback_decision, evaluate,
}
use bruiser_gateway.Refinement.Capacities.{slots}
use bruiser_gateway.Gateway.{Setting}
use bruiser_gateway.Gateway.Kept.{PolicyFits}

abbrev pub is_larger : ℕ → CompiledRule → Bool
is_larger n c = ltb n (slots c.rule.max_active)

decide-slots :
    (n : ℕ) (c : CompiledRule) (req : Request) (rule : Text) (t : Terms)
    → is_larger n c ≡ false
    → decide c req ≡ some (leased rule t)
    → slots t.max_active ≤ n
unfolding decide terms
decide-slots n c req rule t small h =
    elim (Option-cases (domain_key req c.rule.name c.rule.scope)) [
      | inl missing ↦ absurd (ground arith)
      | inr (key, found) ↦
          let same : t ≡ terms c key = ground arith in
          subst (λ x. slots x.max_active ≤ n) (sym same) (ground arith)
    ]

decide_all-slots :
    (n : ℕ) (cs : List CompiledRule) (allows : Bool) (req : Request) (rule : Text) (t : Terms)
    → any_where (is_larger n) cs ≡ false
    → decide_all cs allows req ≡ leased rule t
    → slots t.max_active ≤ n
unfolding decide_all any_where fallback_decision
decide_all-slots n [] allows req rule t small h = absurd (ground arith)
decide_all-slots n (c ∷ cs) allows req rule t small h = elim (Option-cases (decide c req)) [
  | inl through ↦ ground (arith, decide_all-slots n cs allows req rule t)
  | inr (d, found) ↦
      ground (arith, decide_all-slots n cs allows req rule t, decide-slots n c req rule t)
]

pub policy_fits :
    (o : TextOps) (s : Setting) (n : ℕ)
    → any_where (is_larger n) s.compiled.rules ≡ false
    → PolicyFits o (λ m k. n) s
unfolding evaluate
policy_fits o s n small req rule t h = elim (Canonised-cases (canonical o req.resource)) [
  | inl (y, e) ↦
      decide_all-slots n s.compiled.rules s.compiled.allows_uncontrolled
        (record req { resource = y }) rule t small (ground arith)
  | inr (inl e) ↦
      ground (arith, decide_all-slots n s.compiled.rules s.compiled.allows_uncontrolled req rule t)
  | inr (inr e) ↦
      ground (arith, decide_all-slots n s.compiled.rules s.compiled.allows_uncontrolled req rule t)
]
