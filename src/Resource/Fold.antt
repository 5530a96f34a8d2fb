-- ===== src/Resource/Fold.antt =====
-- The fold leaves an identifier as it is.
use bruiser_gateway.Prelude.{
  ℕ, ◌≡◌, refl, arith, Bool, true, false, not, [], ◌∷◌, ◌==◌, Text, is_empty, any_where, inl, inr,
  Bool-cases,
}
use bruiser_gateway.Resource.{
  TextOps, is_lower_or_digit, is_alnum, is_allowed, is_dash, is_quote, is_separator,
  fold_lookalikes, trim_left, trim_right, trim_non_alnum, collapse_from, collapse_separators,
  has_dots, is_unsafe, is_ident, is_type_and_ident, strict_id,
}

-- A string of the characters of an identifier alone.
abbrev pub is_plain : Text → Bool
is_plain s = not (any_where (λ r. not (is_allowed r)) s)

ident-plain : (b : Bool) (s : Text) → is_ident b s ≡ true → is_plain s ≡ true
unfolding is_ident any_where is_allowed
ident-plain b [] h = refl
ident-plain b (r ∷ s) h = ground (arith, ident-plain (is_lower_or_digit r) s)

ident-collapse : (b in_run : Bool) (s : Text) → is_ident b s ≡ true → collapse_from in_run s ≡ s
unfolding is_ident collapse_from is_separator is_lower_or_digit
ident-collapse b in_run [] h = refl
ident-collapse b in_run (r ∷ s) h =
    ground (arith, ident-collapse (is_lower_or_digit r) (is_separator r) s)

ident-trim_right : (b : Bool) (s : Text) → is_ident b s ≡ true → trim_right s ≡ s
unfolding is_ident trim_right is_alnum is_empty
ident-trim_right b [] h = refl
ident-trim_right b (r ∷ []) h = ground arith
ident-trim_right b (r ∷ q ∷ s) h = ground (arith, ident-trim_right (is_lower_or_digit r) (q ∷ s))

type-plain : (s : Text) → is_type_and_ident s ≡ true → is_plain s ≡ true
unfolding is_type_and_ident any_where is_allowed
type-plain [] h = absurd (ground arith)
type-plain (r ∷ s) h = ground (arith, type-plain s, ident-plain false s)

type-collapse : (s : Text) → is_type_and_ident s ≡ true → collapse_from false s ≡ s
unfolding is_type_and_ident collapse_from is_separator is_lower_or_digit
type-collapse [] h = absurd (ground arith)
type-collapse (r ∷ s) h = elim (Bool-cases (r == 58)) [
  | inl colon ↦ ground (arith, ident-collapse false true s)
  | inr other ↦ ground (arith, type-collapse s)
]

type-trim_right :
    (s : Text) → is_type_and_ident s ≡ true → (trim_right s ≡ s) × (is_empty s ≡ false)
unfolding is_type_and_ident trim_right is_alnum is_empty is_ident
type-trim_right [] h = absurd (ground arith)
type-trim_right (r ∷ []) h = absurd (ground arith)
type-trim_right (r ∷ q ∷ s) h = elim (Bool-cases (r == 58)) [
  | inl colon ↦ (ground (arith, ident-trim_right false (q ∷ s)), refl)
  | inr other ↦ (ground (arith, type-trim_right (q ∷ s)), refl)
]

-- Space, controls and capital letters are no characters of an identifier.
pub plain-fold_lookalikes :
    (o : TextOps) (s : Text)
    → ((r : ℕ) → is_allowed r ≡ true → o.is_space r ≡ false)
    → is_plain s ≡ true
    → fold_lookalikes o s ≡ s
unfolding fold_lookalikes any_where is_allowed is_lower_or_digit is_dash is_quote
plain-fold_lookalikes o [] d h = refl
plain-fold_lookalikes o (r ∷ s) d h = ground (arith, d r, plain-fold_lookalikes o s d)

pub plain-safe :
    (o : TextOps) (s : Text)
    → ((r : ℕ) → is_allowed r ≡ true → o.is_control r ≡ false)
    → is_plain s ≡ true
    → (any_where (is_unsafe o) s ≡ false) × (has_dots s ≡ false)
unfolding any_where is_unsafe is_allowed is_lower_or_digit has_dots
plain-safe o [] d h = (refl, refl)
plain-safe o (r ∷ []) d h = ground (arith, d r)
plain-safe o (r ∷ q ∷ s) d h = ground (arith, d r, plain-safe o (q ∷ s) d)

pub strict-plain : (s : Text) → strict_id s ≡ true → is_plain s ≡ true
unfolding strict_id any_where is_allowed is_lower_or_digit
strict-plain [] h = refl
strict-plain (r ∷ s) h = ground (arith, type-plain s)

pub strict-trim_non_alnum : (s : Text) → strict_id s ≡ true → trim_non_alnum s ≡ s
unfolding strict_id trim_non_alnum trim_left trim_right is_alnum is_lower_or_digit
strict-trim_non_alnum [] h = refl
strict-trim_non_alnum (r ∷ s) h = ground (arith, type-trim_right s)

pub strict-collapse : (s : Text) → strict_id s ≡ true → collapse_separators s ≡ s
unfolding strict_id collapse_separators collapse_from is_separator
strict-collapse [] h = refl
strict-collapse (r ∷ s) h = ground (arith, type-collapse s)
