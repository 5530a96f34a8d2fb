-- ===== src/Sdk/Fences.antt =====
-- The fences that sdk/go/protect.go lets through.
use bruiser_gateway.Prelude.{
  ℕ, ◌≡◌, refl, sym, ap, ◌∙◌, subst, arith, Option, some, not, ◌&&◌, true, false, List, [], ◌∷◌,
  Text, text_eq, text_eq_iff, text_eq_refl, is_empty, ℤ, pos, ltbℤ, lebℤ, Bool-cases, Option-cases,
  inl, inr, ◌⊎◌,
}
use bruiser_gateway.Resource.{TextOps}
use bruiser_gateway.Tokens.{ExecutionClaims, parse_execution}
use bruiser_gateway.Sdk.{
  FenceCache, last, accept, ProtectConfig, passed, Visit, for_resource, ask_active, ask_fences,
  ask_claims, protect, visits,
}

-- The cache remembers a fence of the domain that is this one at least.
abbrev pub Marked : Text → ℤ → FenceCache → Type 0
Marked domain fence c = (p : ℤ) × (last domain c ≡ some p) × (lebℤ fence p ≡ true)

last-first :
    (domain : Text) (fence : ℤ) (c : FenceCache) → last domain ((domain, fence) ∷ c) ≡ some fence
unfolding last
last-first domain fence c = ground (arith, text_eq_refl domain)

last-other :
    (domain other : Text) (fence : ℤ) (c : FenceCache)
    → text_eq domain other ≡ false
    → last domain ((other, fence) ∷ c) ≡ last domain c
unfolding last
last-other domain other fence c h = ground arith

accept-marks :
    (domain : Text) (fence : ℤ) (c d : FenceCache)
    → ltbℤ (pos 0) fence ≡ true
    → accept domain fence c ≡ some d
    → Marked domain fence d
unfolding accept
accept-marks domain fence c d positive h = elim (Option-cases (last domain c)) [
  | inl fresh ↦
      let same : ((domain, fence) ∷ c) ≡ d = ground arith in
      subst (Marked domain fence) same (fence, last-first domain fence c, ground arith)
  | inr (p, known) ↦ elim (Bool-cases (ltbℤ p fence)) [
    | inl above ↦
        let same : ((domain, fence) ∷ c) ≡ d = ground arith in
        subst (Marked domain fence) same (fence, last-first domain fence c, ground arith)
    | inr below ↦
        let same : c ≡ d = ground arith in subst (Marked domain fence) same (p, known, ground arith)
  ]
]

accept-order :
    (domain : Text) (fence later : ℤ) (c d : FenceCache)
    → Marked domain fence c
    → accept domain later c ≡ some d
    → lebℤ fence later ≡ true
unfolding accept
accept-order domain fence later c d (p, known, le) h = ground arith

accept-cases :
    (domain : Text) (fence : ℤ) (c d : FenceCache)
    → accept domain fence c ≡ some d
    → (c ≡ d) ⊎ (((domain, fence) ∷ c) ≡ d)
unfolding accept
accept-cases domain fence c d h = ground arith

accept-keeps :
    (domain other : Text) (fence later : ℤ) (c d : FenceCache)
    → Marked domain fence c
    → accept other later c ≡ some d
    → Marked domain fence d
accept-keeps domain other fence later c d m h = elim (accept-cases other later c d h) [
  | inl same ↦ subst (Marked domain fence) same m
  | inr put ↦ elim (Bool-cases (text_eq domain other)) [
    | inl equal ↦
        let name : other ≡ domain = sym ((text_eq_iff domain other).0 equal) in
        subst (Marked domain fence) put (
          later,
          subst (λ x. last domain ((x, later) ∷ c) ≡ some later) (sym name)
              (last-first domain later c),
          accept-order domain fence later c d m (subst (λ x. accept x later c ≡ some d) name h),
        )
    | inr apart ↦
        let (p, known, le) = m in
        subst (Marked domain fence) put (p, last-other domain other later c apart ∙ known, le)
  ]
]

module _ (o : TextOps) (verify : ℕ → Text → Option ExecutionClaims) (cfg : ProtectConfig) where
  -- Whatever the verdict, the cache is kept or has accepted some claims.
  protect-cases :
      (x : Visit) (c : FenceCache)
      → ((protect o verify cfg x (some c)).0 ≡ some c)
        ⊎ ((k : ExecutionClaims) × (d : FenceCache) × (accept k.domain k.fence c ≡ some d)
            × ((protect o verify cfg x (some c)).0 ≡ some d))
  unfolding protect ask_claims ask_fences
  protect-cases x c = elim (Bool-cases (is_empty x.token)) [
    | inl blank ↦ ground arith
    | inr token ↦ elim (Option-cases (parse_execution verify x.now x.token)) [
      | inl bad ↦ ground arith
      | inr (k, parsed) ↦
          elim (Bool-cases
            (not (is_empty cfg.merchant_id) && not (text_eq k.merchant_id cfg.merchant_id))) [
              | inl other ↦ ground arith
              | inr own ↦ elim (Bool-cases (for_resource o verify cfg k)) [
                | inr apart ↦ ground arith
                | inl fits ↦ elim (Option-cases (accept k.domain k.fence c)) [
                  | inl stale ↦ ground arith
                  | inr (d, taken) ↦ inr (k, d, taken, ground arith)
                ]
              ]
            ]
    ]
  ]

  protect-keeps :
      (domain : Text) (fence : ℤ) (x : Visit) (c : FenceCache)
      → Marked domain fence c
      → (d : FenceCache) × ((protect o verify cfg x (some c)).0 ≡ some d) × Marked domain fence d
  protect-keeps domain fence x c m = elim (protect-cases x c) [
    | inl same ↦ (c, same, m)
    | inr (k, d, taken, left) ↦ (d, left, accept-keeps domain k.domain fence k.fence c d m taken)
  ]

  visits-keep :
      (domain : Text) (fence : ℤ) (xs : List Visit) (c : FenceCache)
      → Marked domain fence c
      → (d : FenceCache) × (visits o verify cfg xs (some c) ≡ some d) × Marked domain fence d
  unfolding visits
  visits-keep domain fence [] c m = (c, refl, m)
  visits-keep domain fence (x ∷ xs) c m =
      let (d, left, n) = protect-keeps domain fence x c m in
      let (e, rest, final) = visits-keep domain fence xs d n in
      (e, ap (visits o verify cfg xs) left ∙ rest, final)

  ask_active-passed :
      (x : Visit) (k l : ExecutionClaims) → ask_active o verify cfg x k ≡ passed l → k ≡ l
  unfolding ask_active
  ask_active-passed x k l h = elim (Option-cases (x.active k.execution_id k.fence)) [
    | inl failed ↦ ground arith
    | inr (b, answer) ↦ ground arith
  ]

  -- The claims of the visit's token are for the configured merchant and resource, the cache takes their fence, and no end of the execution is known.
  pub record Checked (x : Visit) (c : FenceCache) (k : ExecutionClaims) : Type 0 where
    pub left : FenceCache
    pub taken : accept k.domain k.fence c ≡ some left
    pub after : (protect o verify cfg x (some c)).0 ≡ some left
    pub parsed : parse_execution verify x.now x.token ≡ some k
    pub merchant : (is_empty cfg.merchant_id ≡ true) ⊎ (k.merchant_id ≡ cfg.merchant_id)
    pub resource : for_resource o verify cfg k ≡ true
    pub live : ask_active o verify cfg x k ≡ passed k

  pub protect-passed :
      (x : Visit) (c : FenceCache) (k : ExecutionClaims)
      → (protect o verify cfg x (some c)).1 ≡ passed k
      → Checked x c k
  unfolding protect ask_claims ask_fences
  protect-passed x c k h = elim (Bool-cases (is_empty x.token)) [
    | inl blank ↦ absurd (ground arith)
    | inr token ↦ elim (Option-cases (parse_execution verify x.now x.token)) [
      | inl bad ↦ absurd (ground arith)
      | inr (l, read) ↦
          elim (Bool-cases
            (not (is_empty cfg.merchant_id) && not (text_eq l.merchant_id cfg.merchant_id))) [
              | inl other ↦ absurd (ground arith)
              | inr own ↦ elim (Bool-cases (for_resource o verify cfg l)) [
                | inr apart ↦ absurd (ground arith)
                | inl fits ↦ elim (Option-cases (accept l.domain l.fence c)) [
                  | inl stale ↦ absurd (ground arith)
                  | inr (d, taken) ↦
                      let active : ask_active o verify cfg x l ≡ passed k = ground arith in
                      let same = ask_active-passed x l k active in
                      subst (Checked x c) same record {
                        left = d;
                        taken = taken;
                        after = ground arith;
                        parsed = read;
                        merchant = ground (arith, text_eq_iff l.merchant_id cfg.merchant_id);
                        resource = fits;
                        live = active ∙ ap passed (sym same);
                      }
                ]
              ]
            ]
    ]
  ]

  -- Of two requests of one domain that are let through, with any requests between them, the later carries no smaller fence, where the first one's fence is positive, as the gateway's are.
  pub protect-fences :
      (x y : Visit) (between : List Visit) (c d : FenceCache) (k l : ExecutionClaims)
      → ltbℤ (pos 0) k.fence ≡ true
      → (protect o verify cfg x (some c)).1 ≡ passed k
      → visits o verify cfg between (protect o verify cfg x (some c)).0 ≡ some d
      → (protect o verify cfg y (some d)).1 ≡ passed l
      → l.domain ≡ k.domain
      → lebℤ k.fence l.fence ≡ true
  protect-fences x y between c d k l positive first later second same =
      let a = protect-passed x c k first in
      let b = protect-passed y d l second in
      let (e, left, marked) =
        visits-keep k.domain k.fence between a.left
          (accept-marks k.domain k.fence c a.left positive a.taken) in
      let met : some e ≡ some d =
        sym left ∙ sym (ap (visits o verify cfg between) a.after) ∙ later in
      accept-order k.domain k.fence l.fence d b.left
        (subst (Marked k.domain k.fence) (ground arith) marked)
        (subst (λ m. accept m l.fence d ≡ some b.left) same b.taken)
