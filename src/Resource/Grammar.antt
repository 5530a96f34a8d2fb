-- ===== src/Resource/Grammar.antt =====
-- Identifiers of resources: internal/resource/canonical.go, what Canonical gives out, and catalogues.
use bruiser_gateway.Prelude.{
  ℕ, ◌≡◌, ◌⊎◌, refl, ap, sym, ◌∙◌, subst, arith, some, Bool, true, false, List, [], ◌∷◌, Text,
  text_eq, is_empty, any_where, inl, inr, Bool-cases,
}
use bruiser_gateway.Resource.{
  TextOps, Canonised, malformed, unknown_resource, canonical_id, is_allowed, strict_id, fold,
  accept, unescaped, canonical, new_catalogue, registered, catalogue_canonical,
}
use bruiser_gateway.Resource.Fold.{
  is_plain, plain-fold_lookalikes, plain-safe, strict-plain, strict-trim_non_alnum, strict-collapse,
}

-- What the functions from elsewhere do to a string of lower-case letters, digits, colons and dashes:
-- nothing, and none of its characters is a space or a control character.
pub record Documented (o : TextOps) : Type 0 where
  pub trims : (s : Text) → is_plain s ≡ true → o.trim_space s ≡ s
  pub unescapes : (s : Text) → is_plain s ≡ true → o.path_unescape s ≡ some s
  pub normal : (s : Text) → is_plain s ≡ true → o.nfkc s ≡ s
  pub lower : (s : Text) → is_plain s ≡ true → o.to_lower s ≡ s
  pub no_control : (r : ℕ) → is_allowed r ≡ true → o.is_control r ≡ false
  pub no_space : (r : ℕ) → is_allowed r ≡ true → o.is_space r ≡ false

accept-strict : (s t : Text) → accept s ≡ canonical_id t → (s ≡ t) × (strict_id t ≡ true)
unfolding accept
accept-strict s t h = elim (Bool-cases (strict_id s)) [
  | inl strict ↦ let same : s ≡ t = ground arith in (same, ap strict_id (sym same) ∙ strict)
  | inr loose ↦ absurd (ground arith)
]

canonical-strict :
    (o : TextOps) (raw s : Text) → canonical o raw ≡ canonical_id s → strict_id s ≡ true
unfolding canonical
canonical-strict o raw s h =
    (accept-strict (fold o (unescaped (o.path_unescape (o.trim_space raw)) (o.trim_space raw))) s
      (ground arith)).1

strict-nonempty : (s : Text) → strict_id s ≡ true → is_empty s ≡ false
unfolding strict_id is_empty
strict-nonempty [] h = absurd (ground arith)
strict-nonempty (r ∷ s) h = refl

module _ (o : TextOps) (d : Documented o) (s : Text) (strict : strict_id s ≡ true) where
  strict-fold : fold o s ≡ s
  unfolding fold
  strict-fold =
      let plain = strict-plain s strict in
      rw
        (
          d.normal s plain,
          plain-fold_lookalikes o s d.no_space plain,
          d.lower s plain,
          strict-trim_non_alnum s strict,
          strict-collapse s strict,
        )
        (strict-trim_non_alnum s strict)

  strict-accept : accept s ≡ canonical_id s
  unfolding accept
  strict-accept =
      let plain = strict-plain s strict in
      let (_, dots) = plain-safe o s d.no_control plain in
      ground (arith, plain, dots, strict-nonempty s strict)

  strict-canonical : canonical o s ≡ canonical_id s
  unfolding canonical
  strict-canonical =
      let plain = strict-plain s strict in
      let (safe, dots) = plain-safe o s d.no_control plain in
      ground (
        arith,
        d.trims s plain,
        d.unescapes s plain,
        safe,
        dots,
        strict-nonempty s strict,
        strict-fold,
        strict-accept,
      )

-- One identifier for one resource. Whatever a raw string is, the identifier that Canonical gives for it keeps the grammar, and Canonical leaves it as it is, where the functions from elsewhere leave such strings as they are.
pub canonical-idempotent :
    (o : TextOps) (raw s : Text)
    → Documented o
    → canonical o raw ≡ canonical_id s
    → (strict_id s ≡ true) × (canonical o s ≡ canonical_id s)
canonical-idempotent o raw s d h =
    let strict = canonical-strict o raw s h in (strict, strict-canonical o d s strict)

-- Whether an entry stands for an identifier.
abbrev pub stands_for : TextOps → Text → Text → Bool
stands_for o s x = elim (canonical o x) [
  | canonical_id y ↦ text_eq s y
  | malformed ↦ false
  | unknown_resource ↦ false
]

new_catalogue-stands :
    (o : TextOps) (xs : List Text) (s : Text)
    → any_where (text_eq s) (new_catalogue o xs) ≡ any_where (stands_for o s) xs
unfolding new_catalogue any_where
new_catalogue-stands o [] s = refl
new_catalogue-stands o (x ∷ xs) s = ground (arith, new_catalogue-stands o xs s)

registered-eq :
    (ids : List Text) (y s : Text)
    → registered ids y ≡ canonical_id s
    → (y ≡ s) × ((ids ≡ []) ⊎ (any_where (text_eq s) ids ≡ true))
registered-eq [] y s h = (ground arith, inl refl)
registered-eq (x ∷ xs) y s h = elim (Bool-cases (any_where (text_eq y) (x ∷ xs))) [
  | inl there ↦
      let same : y ≡ s = ground arith in
      (same, inr (subst (λ z. any_where (text_eq z) (x ∷ xs) ≡ true) same there))
  | inr missing ↦ absurd (ground arith)
]

pub Canonised-cases :
    (c : Canonised)
    → ((y : Text) × (c ≡ canonical_id y)) ⊎ ((c ≡ malformed) ⊎ (c ≡ unknown_resource))
Canonised-cases (canonical_id y) = inl (y, refl)
Canonised-cases malformed = inr (inl refl)
Canonised-cases unknown_resource = inr (inr refl)

catalogue_steps :
    (o : TextOps) (ids : List Text) (raw s : Text)
    → catalogue_canonical o ids raw ≡ canonical_id s
    → (y : Text) × (canonical o raw ≡ canonical_id y) × (registered ids y ≡ canonical_id s)
unfolding catalogue_canonical
catalogue_steps o ids raw s h = elim (Canonised-cases (canonical o raw)) [
  | inl (y, e) ↦ (y, e, ground arith)
  | inr (inl e) ↦ absurd (ground arith)
  | inr (inr e) ↦ absurd (ground arith)
]

-- A catalogue admits its own. An identifier that a merchant's catalogue gives for a raw string is the one that the fold alone gives, and either no entry of the catalogue is well formed or one of them stands for it.
pub catalogue_canonical-registered :
    (o : TextOps) (xs : List Text) (raw s : Text)
    → catalogue_canonical o (new_catalogue o xs) raw ≡ canonical_id s
    → (canonical o raw ≡ canonical_id s)
      × ((new_catalogue o xs ≡ []) ⊎ (any_where (stands_for o s) xs ≡ true))
catalogue_canonical-registered o xs raw s h =
    let (y, folded, found) = catalogue_steps o (new_catalogue o xs) raw s h in
    let (same, listed) = registered-eq (new_catalogue o xs) y s found in
    (
      folded ∙ ap canonical_id same,
      elim listed [
        | inl none_listed ↦ inl none_listed
        | inr there ↦ inr (sym (new_catalogue-stands o xs s) ∙ there)
      ],
    )
