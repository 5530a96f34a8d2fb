-- ===== src/Policy/Decisions.antt =====
-- Which rule decides, and when nothing controls a request.
use bruiser_gateway.Prelude.{
  ◌≡◌, ◌⊎◌, refl, arith, Option, none, some, Bool, true, false, not, ◌&&◌, List, [], ◌∷◌,
  if◌then◌else◌, Text, text, is_empty, inl, inr, Option-cases, any_where, select_row,
}
use bruiser_gateway.Resource.{TextOps, canonical_id, malformed, unknown_resource, canonical}
use bruiser_gateway.Resource.Grammar.{Canonised-cases}
use bruiser_gateway.Policy.{
  Request, CompiledRule, Compiled, Decision, uncontrolled, denied, is_uncontrolled,
}
use bruiser_gateway.Policy.Evaluate.{match_rule, decide, decide_all, fallback_decision, evaluate}

abbrev pub is_some {ℓ} : {A : Type ℓ} → Option A → Bool
is_some none = false
is_some (some a) = true

-- Whether a rule has the say: it matches, and does not fall through.
abbrev pub applies : Request → CompiledRule → Bool
applies req c = match_rule c.rule req && is_some (decide c req)

-- The decision of a rule that has the say, or the fallback's.
abbrev pub decision_of : Request → Bool → Option CompiledRule → Decision
decision_of req allows none = fallback_decision allows
decision_of req allows (some c) = elim (decide c req) [
  | some d ↦ d
  | none ↦ fallback_decision allows
]

-- The request that the rules see.
abbrev pub seen : TextOps → Request → Request
seen o req = elim (canonical o req.resource) [
  | canonical_id y ↦ record req { resource = y }
  | malformed ↦ req
  | unknown_resource ↦ req
]

abbrev pub is_malformed : TextOps → Request → Bool
is_malformed o req = elim (canonical o req.resource) [
  | canonical_id y ↦ false
  | malformed ↦ not (is_empty req.resource)
  | unknown_resource ↦ not (is_empty req.resource)
]

decide_all-first :
    (cs : List CompiledRule) (allows : Bool) (req : Request)
    → decide_all cs allows req ≡ decision_of req allows (select_row (applies req) cs)
unfolding decide_all select_row
decide_all-first [] allows req = refl
decide_all-first (c ∷ cs) allows req = elim (Option-cases (decide c req)) [
  | inl through ↦ ground (arith, decide_all-first cs allows req)
  | inr (d, found) ↦ ground (arith, decide_all-first cs allows req)
]

-- The first rule decides. A request whose resource is malformed and not empty is denied; any other is decided, with its resource in canonical form, by the first rule that matches it and does not fall through, and by the fallback where there is none.
pub evaluate-first :
    (o : TextOps) (c : Compiled) (req : Request)
    → evaluate o c req ≡ (
        if is_malformed o req
        then denied (text "resource") (text "malformed_resource")
        else decision_of
            (seen o req)
            c.allows_uncontrolled
            (select_row (applies (seen o req)) c.rules))
unfolding evaluate
evaluate-first o c req = elim (Canonised-cases (canonical o req.resource)) [
  | inl (y, e) ↦
      ground (arith, decide_all-first c.rules c.allows_uncontrolled (record req { resource = y }))
  | inr (inl e) ↦ ground (arith, decide_all-first c.rules c.allows_uncontrolled req)
  | inr (inr e) ↦ ground (arith, decide_all-first c.rules c.allows_uncontrolled req)
]

decide_all-uncontrolled :
    (cs : List CompiledRule) (allows : Bool) (req : Request) (name : Text)
    → decide_all cs allows req ≡ uncontrolled name
    → (allows ≡ true) ⊎ (any_where (λ c. match_rule c.rule req && is_uncontrolled c.rule) cs ≡ true)
unfolding decide_all any_where decide fallback_decision
decide_all-uncontrolled [] allows req name h = ground arith
decide_all-uncontrolled (c ∷ cs) allows req name h =
    ground (arith, decide_all-uncontrolled cs allows req name)

-- Fail closed. A request goes uncontrolled only where the policy's fallback allows that, or where a rule without control matches it.
pub evaluate-uncontrolled :
    (o : TextOps) (c : Compiled) (req : Request) (name : Text)
    → evaluate o c req ≡ uncontrolled name
    → (c.allows_uncontrolled ≡ true)
      ⊎ (any_where (λ r. match_rule r.rule (seen o req) && is_uncontrolled r.rule) c.rules ≡ true)
unfolding evaluate
evaluate-uncontrolled o c req name h = elim (Canonised-cases (canonical o req.resource)) [
  | inl (y, e) ↦ ground (
    arith,
    decide_all-uncontrolled c.rules c.allows_uncontrolled (record req { resource = y }) name,
  )
  | inr (inl e) ↦ ground (arith, decide_all-uncontrolled c.rules c.allows_uncontrolled req name)
  | inr (inr e) ↦ ground (arith, decide_all-uncontrolled c.rules c.allows_uncontrolled req name)
]
