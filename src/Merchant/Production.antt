-- ===== src/Merchant/Production.antt =====
-- Fail closed in production: internal/merchant/safety.go together with the compiled policy.
use bruiser_gateway.Prelude.{
  ◌≡◌, arith, refl, Option, some, true, false, ◌&&◌, List, [], ◌∷◌, Text, text, text_eq,
  text_eq_iff, sym, subst, ℤ, any_where, length, ◌==◌, inl, inr, Bool-cases, Option-cases,
}
use bruiser_gateway.Resource.{TextOps}
use bruiser_gateway.Policy
use bruiser_gateway.Policy.{Request, Compiled, uncontrolled, is_uncontrolled, ◌>>=◌}
use bruiser_gateway.Policy.Compile.{
  parse_dur, compile_rules, compile, sixty_seconds, fifteen_minutes,
}
use bruiser_gateway.Policy.Evaluate.{match_rule, evaluate}
use bruiser_gateway.Policy.Decisions.{seen, evaluate-uncontrolled}
use bruiser_gateway.Policy.Safety.{document_reasons}
use bruiser_gateway.Merchant.{Profile, unmatched_allow}
use bruiser_gateway.Merchant.Document.{
  policy_document, fail_open_reasons, validate_production_policy,
}

-- What is compiled goes uncontrolled by default only where the document says so.
compile-allows :
    (o : TextOps) (parse_duration : Text → Option ℤ) (d : Policy.Document) (c : Compiled)
    → compile o parse_duration d ≡ some c
    → c.allows_uncontrolled ≡ text_eq d.fallback (text "allow-uncontrolled")
unfolding compile
compile-allows o parse_duration d c h =
    elim (Option-cases (parse_dur parse_duration d.defaults.lease_ttl sixty_seconds)) [
      | inl bad_ttl ↦ absurd (ground arith)
      | inr (def_ttl, ttl) ↦
          elim (Option-cases (parse_dur parse_duration d.defaults.max_lifetime fifteen_minutes)) [
            | inl bad_life ↦ absurd (ground arith)
            | inr (def_life, life) ↦
                elim (Option-cases (compile_rules o parse_duration def_ttl def_life d.domains)) [
                  | inl bad_rules ↦ absurd (ground arith)
                  | inr (rules, settled) ↦ ground arith
                ]
          ]
    ]

nothing-listed : (ts : List Text) → (length ts == 0) ≡ true → ts ≡ []
nothing-listed [] h = refl
nothing-listed (t ∷ ts) h = absurd (ground arith)

reasons-none :
    (o : TextOps) (p : Profile)
    → validate_production_policy o p false ≡ true
    → (unmatched_allow o p ≡ false) × (document_reasons o (policy_document p) ≡ [])
unfolding validate_production_policy fail_open_reasons
reasons-none o p h = elim (Bool-cases (unmatched_allow o p)) [
  | inl allow ↦ absurd (ground arith)
  | inr deny ↦ (deny, nothing-listed (document_reasons o (policy_document p)) (ground arith))
]

literal-only :
    (o : TextOps) (d : Policy.Document)
    → o.equal_fold (o.trim_space (text "allow-uncontrolled")) (text "allow-uncontrolled") ≡ true
    → document_reasons o d ≡ []
    → text_eq d.fallback (text "allow-uncontrolled") ≡ false
unfolding document_reasons
literal-only o d folds h = elim (Bool-cases (text_eq d.fallback (text "allow-uncontrolled"))) [
  | inl hit ↦
      let same : d.fallback ≡ text "allow-uncontrolled" =
        (text_eq_iff d.fallback (text "allow-uncontrolled")).0 hit in
      let open_ended : o.equal_fold (o.trim_space d.fallback) (text "allow-uncontrolled") ≡ true =
        subst (λ x. o.equal_fold (o.trim_space x) (text "allow-uncontrolled") ≡ true) (sym same)
          folds in
      absurd (ground (arith, open_ended))
  | inr miss ↦ miss
]

-- Production is fail-closed. Where the profile passes the production check without leave for unsafe modes, it does not allow unmatched routes, and a request goes uncontrolled under the policy compiled from it only by a rule without control that matches the request, where the equality of strings up to case, after trimming, holds of the word allow-uncontrolled and itself.
pub validate_production_policy-closed :
    (o : TextOps) (parse_duration : Text → Option ℤ) (p : Profile) (c : Compiled) (req : Request)
    (name : Text)
    → o.equal_fold (o.trim_space (text "allow-uncontrolled")) (text "allow-uncontrolled") ≡ true
    → validate_production_policy o p false ≡ true
    → compile o parse_duration (policy_document p) ≡ some c
    → evaluate o c req ≡ uncontrolled name
    → (unmatched_allow o p ≡ false)
      × (any_where (λ r. match_rule r.rule (seen o req) && is_uncontrolled r.rule) c.rules ≡ true)
validate_production_policy-closed o parse_duration p c req name folds safe compiled free =
    let (closed, no_reasons) = reasons-none o p safe in
    let allows = compile-allows o parse_duration (policy_document p) c compiled in
    let literal = literal-only o (policy_document p) folds no_reasons in
    (
      closed,
      elim (evaluate-uncontrolled o c req name free) [
        | inl by_fallback ↦ absurd (ground (arith, allows, literal))
        | inr by_rule ↦ by_rule
      ],
    )
