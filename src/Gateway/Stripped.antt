-- ===== src/Gateway/Stripped.antt =====
-- The reserved headers that internal/api/public/proxy.go deletes and sets.
use bruiser_gateway.Prelude.{
  ◌≡◌, refl, sym, ap, subst, ◌∙◌, arith, not, ◌&&◌, Bool, true, false, List, [], ◌∷◌, ◌++◌,
  if◌then◌else◌, Text, text, text_eq, text_eq_refl, text_eq_iff, is_empty, select_where,
  delete_where, any_where, Bool-cases, inl, inr,
}
use bruiser_gateway.Policy.{has_prefix}
use bruiser_gateway.Gateway.Proxy.{Headers, has_key, is_reserved, set, set_unless_empty, strip_each}

module _ {ℓ} {A : Type ℓ} where
  pub select_where-delete_where :
      (p q : A → Bool) (xs : List A)
      → select_where p (delete_where q xs) ≡ delete_where q (select_where p xs)
  unfolding select_where delete_where
  select_where-delete_where p q [] = refl
  select_where-delete_where p q (x ∷ xs) = ground (arith, select_where-delete_where p q xs)

  pub select_where-++ :
      (p : A → Bool) (xs ys : List A)
      → select_where p (xs ++ ys) ≡ select_where p xs ++ select_where p ys
  unfolding select_where
  select_where-++ p [] ys = refl
  select_where-++ p (x ∷ xs) ys = ground (arith, select_where-++ p xs ys)

  pub ++-nil : (xs : List A) → (xs ++ []) ≡ xs
  ++-nil [] = refl
  ++-nil (x ∷ xs) = ap (λ ys. x ∷ ys) (++-nil xs)

-- The reserved headers alone.
abbrev pub reserved : Headers → Headers
reserved hs = select_where is_reserved hs

reserved-set :
    (key value : Text) (hs : Headers)
    → is_reserved (key, value) ≡ true
    → reserved (set key value hs) ≡ set key value (reserved hs)
unfolding set select_where
reserved-set key value hs h =
    select_where-++ is_reserved (delete_where (has_key key) hs) ((key, value) ∷ [])
    ∙ ground (arith, select_where-delete_where is_reserved (has_key key) hs)

module _ (canonical_key : Text → Text) where
  -- The key of the first header, when it is reserved, deletes the second header.
  abbrev hits : Text × Text → Text × Text → Bool
  hits k h = is_reserved (canonical_key k.0, k.1) && has_key (canonical_key k.0) h

  strip_each-reserved :
      (keys hs : Headers)
      → reserved (strip_each canonical_key keys hs) ≡ strip_each canonical_key keys (reserved hs)
  unfolding strip_each
  strip_each-reserved [] hs = refl
  strip_each-reserved (k ∷ keys) hs = elim (Bool-cases (is_reserved (canonical_key k.0, k.1))) [
    | inl hit ↦ ground (
      arith,
      strip_each-reserved keys (delete_where (has_key (canonical_key k.0)) hs),
      select_where-delete_where is_reserved (has_key (canonical_key k.0)) hs,
    )
    | inr miss ↦ ground (arith, strip_each-reserved keys hs)
  ]

  strip_each-cons :
      (keys : Headers) (h : Text × Text) (hs : Headers)
      → strip_each canonical_key keys (h ∷ hs) ≡ (
          if any_where (λ k. hits k h) keys
          then strip_each canonical_key keys hs
          else h ∷ strip_each canonical_key keys hs)
  unfolding strip_each any_where delete_where
  strip_each-cons [] h hs = refl
  strip_each-cons (k ∷ keys) h hs = ground (
    arith,
    strip_each-cons keys h hs,
    strip_each-cons keys h (delete_where (has_key (canonical_key k.0)) hs),
  )

  -- Each header is deleted by some key.
  abbrev Covered : Headers → Headers → Type 0
  Covered keys hs = any_where (λ h. not (any_where (λ k. hits k h) keys)) hs ≡ false

  strip_each-nil : (keys : Headers) → strip_each canonical_key keys [] ≡ []
  unfolding strip_each delete_where
  strip_each-nil [] = refl
  strip_each-nil (k ∷ keys) = ground (arith, strip_each-nil keys)

  strip_each-Covered : (keys hs : Headers) → Covered keys hs → strip_each canonical_key keys hs ≡ []
  unfolding any_where
  strip_each-Covered keys [] c = strip_each-nil keys
  strip_each-Covered keys (h ∷ hs) c =
      ground (arith, strip_each-cons keys h hs, strip_each-Covered keys hs)

  Covered-more : (k : Text × Text) (keys hs : Headers) → Covered keys hs → Covered (k ∷ keys) hs
  unfolding any_where
  Covered-more k keys [] c = refl
  Covered-more k keys (h ∷ hs) c = ground (arith, Covered-more k keys hs)

  -- The keys are in canonical form, as net/http reads them.
  abbrev pub AreCanonical : Headers → Type 0
  AreCanonical hs = any_where (λ h. not (text_eq (canonical_key h.0) h.0)) hs ≡ false

  hits-own :
      (h : Text × Text)
      → text_eq (canonical_key h.0) h.0 ≡ true
      → is_reserved h ≡ true
      → hits h h ≡ true
  hits-own h own kept =
      let same : h.0 ≡ canonical_key h.0 = sym ((text_eq_iff (canonical_key h.0) h.0).0 own) in
      subst (λ k. (is_reserved (k, h.1) && text_eq h.0 k) ≡ true) same
        (ground (arith, text_eq_refl h.0))

  Covered-reserved : (hs : Headers) → AreCanonical hs → Covered hs (reserved hs)
  unfolding any_where select_where
  Covered-reserved [] c = refl
  Covered-reserved (h ∷ hs) c = elim (Bool-cases (is_reserved h)) [
    | inl kept ↦ ground (arith, hits-own h, Covered-more h hs (reserved hs), Covered-reserved hs)
    | inr free ↦ ground (arith, Covered-more h hs (reserved hs), Covered-reserved hs)
  ]

  -- No reserved header of the client is left.
  pub strip_each-none :
      (hs : Headers) → AreCanonical hs → reserved (strip_each canonical_key hs hs) ≡ []
  strip_each-none hs c =
      strip_each-reserved hs hs ∙ strip_each-Covered hs (reserved hs) (Covered-reserved hs c)

pub reserved-set_unless_empty :
    (key value : Text) (hs : Headers)
    → is_reserved (key, value) ≡ true
    → reserved (set_unless_empty key value hs) ≡ set_unless_empty key value (reserved hs)
unfolding set_unless_empty
reserved-set_unless_empty key value hs h = elim (Bool-cases (is_empty value)) [
  | inl blank ↦ ground arith
  | inr given ↦ ground (arith, reserved-set key value hs)
]

-- The prefix of the four keys that the gateway sets.
pub own_keys :
    (value : Text)
    → (is_reserved (text "X-Bruiser-Customer", value) ≡ true)
      × (is_reserved (text "X-Bruiser-Fence", value) ≡ true)
      × (is_reserved (text "X-Bruiser-Execution", value) ≡ true)
      × (is_reserved (text "X-Bruiser-Origin-Secret", value) ≡ true)
unfolding is_reserved has_prefix text
own_keys value = (refl, refl, refl, refl)
