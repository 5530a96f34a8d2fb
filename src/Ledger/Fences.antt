-- ===== src/Ledger/Fences.antt =====
-- The fence of a domain only grows, and stays at or above the fences that it has given out.
use bruiser_gateway.Prelude.{
  ℕ, suc, ◌≤◌, ◌≡◌, ap, none, some, Bool, true, ◌&&◌, List, [], ◌∷◌, ◌++◌, arith, Text, text_eq,
  text_eq_iff, text_eq_refl, ltb, ◌==◌, select_row, count_where, update_where, count_where-append,
  count_where_mono, Option-cases, inl, inr,
}
use bruiser_gateway.Lease.{Execution, ok}
use bruiser_gateway.Store.{Db, Domain, is_domain, in_domain, has_id, bump_fence}
use bruiser_gateway.Ledger.{fence_of, SameLease}

abbrev bumped : ℕ → Domain → Domain
bumped now r = record r { fence = suc r.fence; updated_at = now }

first_fence : (Domain → Bool) → List Domain → ℕ
first_fence p ds = elim (select_row p ds) [ none ↦ 0 | some d ↦ d.fence ]

first_fence-bump-le :
    (m k m' k' : Text) (now : ℕ) (ds : List Domain)
    → first_fence (is_domain m' k') ds
      ≤ first_fence (is_domain m' k') (update_where (is_domain m k) (bumped now) ds)
unfolding first_fence select_row update_where is_domain
first_fence-bump-le m k m' k' now [] = omega arith
first_fence-bump-le m k m' k' now (d ∷ ds) = ground (arith, first_fence-bump-le m k m' k' now ds)

first_fence-bump_self :
    (m k : Text) (now : ℕ) (ds : List Domain) (d : Domain)
    → select_row (is_domain m k) ds ≡ some d
    → first_fence (is_domain m k) (update_where (is_domain m k) (bumped now) ds) ≡ suc d.fence
unfolding first_fence select_row update_where is_domain
first_fence-bump_self m k now [] d h = cc
first_fence-bump_self m k now (c ∷ ds) d h = ground (arith, first_fence-bump_self m k now ds d)

first_fence-append-le :
    (p : Domain → Bool) (ds : List Domain) (d : Domain)
    → first_fence p ds ≤ first_fence p (ds ++ d ∷ [])
unfolding first_fence select_row
first_fence-append-le p [] d = omega arith
first_fence-append-le p (c ∷ ds) d = ground (arith, first_fence-append-le p ds d)

pub fence_of-append-le :
    (m k : Text) (s t : Db) (d : Domain)
    → t.domains ≡ s.domains ++ d ∷ []
    → fence_of m k s ≤ fence_of m k t
unfolding fence_of first_fence
fence_of-append-le m k s t d eq = rw eq (first_fence-append-le (is_domain m k) s.domains d)

module _ (now : ℕ) (m k : Text) (s : Db) {f : ℕ} {u : Db}
    (h : bump_fence now m k s ≡ ok (f, u)) where
  pub bump_fence-fence_of : (fence_of m k u ≡ f) × (f ≡ suc (fence_of m k s))
  unfolding bump_fence fence_of first_fence
  bump_fence-fence_of = elim (Option-cases (select_row (is_domain m k) s.domains)) [
    | inl e ↦ ground arith
    | inr (d, e) ↦ ground (arith, first_fence-bump_self m k now s.domains d)
  ]

  pub bump_fence_mono : (m' k' : Text) → fence_of m' k' s ≤ fence_of m' k' u
  unfolding bump_fence fence_of first_fence
  bump_fence_mono m' k' = ground (arith, first_fence-bump-le m k m' k' now s.domains)

-- A row of the same lease answers the same tests.
pub SameLease-has_id : (x : Text) {r r' : Execution} → SameLease r r' → has_id x r' ≡ has_id x r
unfolding has_id
SameLease-has_id x l = ap (λ (t : Text). text_eq t x) l.id

pub SameLease-in_domain :
    (m k : Text) {r r' : Execution} → SameLease r r' → in_domain m k r' ≡ in_domain m k r
unfolding in_domain
SameLease-in_domain m k l = rw (l.merchant_id, l.domain_key)

pub in_domain_eq :
    (m k : Text) (r : Execution) → in_domain m k r ≡ true → (r.merchant_id ≡ m) × (r.domain_key ≡ k)
unfolding in_domain
in_domain_eq m k r h = ground (arith, text_eq_iff r.merchant_id m, text_eq_iff r.domain_key k)

pub in_domain_self : (r : Execution) → in_domain r.merchant_id r.domain_key r ≡ true
unfolding in_domain
in_domain_self r = simp text_eq_refl

-- The tests of the two promises about fences.
abbrev pub above : Text → Text → ℕ → Execution → Bool
above m k f r = in_domain m k r && ltb f r.fence

abbrev pub carries : Text → Text → ℕ → Execution → Bool
carries m k f r = in_domain m k r && r.fence == f

pub SameLease-above :
    (m k : Text) (f : ℕ) {r r' : Execution} → SameLease r r' → above m k f r' ≡ above m k f r
SameLease-above m k f l = rw (SameLease-in_domain m k l, l.fence)

pub SameLease-carries :
    (m k : Text) (f : ℕ) {r r' : Execution} → SameLease r r' → carries m k f r' ≡ carries m k f r
SameLease-carries m k f l = rw (SameLease-in_domain m k l, l.fence)

-- What a new row under a bumped fence does to the two tests.
module _ (now : ℕ) (e : Execution) (s u : Db)
    (h : bump_fence now e.merchant_id e.domain_key s ≡ ok (e.fence, u)) where
  fence_of_new_row :
      (m k : Text)
      → in_domain m k e ≡ true
      → (fence_of m k u ≡ e.fence) × (e.fence ≡ suc (fence_of m k s))
  fence_of_new_row m k d =
      ground (arith, in_domain_eq m k e d, bump_fence-fence_of now e.merchant_id e.domain_key s h)

  pub new_row_above :
      (m k : Text)
      → count_where (above m k (fence_of m k s)) s.executions ≡ 0
      → count_where (above m k (fence_of m k u)) (s.executions ++ e ∷ []) ≡ 0
  new_row_above m k z = ground (
    arith,
    count_where-append (above m k (fence_of m k u)) s.executions e,
    fence_of_new_row m k,
    bump_fence_mono now e.merchant_id e.domain_key s h m k,
    count_where_mono (above m k (fence_of m k u)) (above m k (fence_of m k s)) s.executions
        (λ r p. ground (arith, bump_fence_mono now e.merchant_id e.domain_key s h m k)),
  )

  pub new_row_carries :
      (m k : Text) (f : ℕ)
      → count_where (above m k (fence_of m k s)) s.executions ≡ 0
      → count_where (carries m k f) s.executions ≤ 1
      → count_where (carries m k f) (s.executions ++ e ∷ []) ≤ 1
  new_row_carries m k f z o = ground (
    arith,
    count_where-append (carries m k f) s.executions e,
    fence_of_new_row m k,
    λ (p : f ≡ suc (fence_of m k s)).
        count_where_mono (carries m k f) (above m k (fence_of m k s)) s.executions
          (λ r q. ground arith),
  )
