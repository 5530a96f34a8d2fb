-- ===== src/Resource.antt =====
-- internal/resource/canonical.go: the one identifier of a resource, whatever its spelling. Strings are
-- lists of runes.
pub mod Grammar
pub mod Fold
use bruiser_gateway.Prelude.{
  ℕ, Option, none, some, Bool, true, false, not, ◌&&◌, ◌||◌, List, [], ◌∷◌, if◌then◌else◌, ltb, leb,
  ◌==◌, Text, text_eq, is_empty, any_where,
}

-- What the fold takes from elsewhere: the normal form of golang.org/x/text, and the functions of
-- strings, unicode and net/url that stand on Unicode's tables or on bytes.
pub record TextOps : Type 0 where
  pub trim_space : Text → Text
  pub path_unescape : Text → Option Text
  pub nfkc : Text → Text
  pub to_lower : Text → Text
  pub to_upper : Text → Text
  pub equal_fold : Text → Text → Bool
  pub is_control : ℕ → Bool
  pub is_space : ℕ → Bool

-- ErrMalformed and ErrUnknownResource, or the identifier.
pub data Canonised : Type 0 where
  malformed unknown_resource : Canonised
  canonical_id : Text → Canonised

abbrev pub between : ℕ → ℕ → ℕ → Bool
between a z r = leb a r && leb r z

unfoldable pub is_lower_or_digit : ℕ → Bool
is_lower_or_digit r = between 97 122 r || between 48 57 r

unfoldable pub is_alnum : ℕ → Bool
is_alnum r = is_lower_or_digit r || between 65 90 r

unfoldable pub is_allowed : ℕ → Bool
is_allowed r = is_lower_or_digit r || r == 58 || r == 45

unfoldable pub is_dash : ℕ → Bool
is_dash r =
    r == 45
    || between 8208 8213 r
    || r == 8722
    || r == 8259
    || r == 65112
    || r == 65123
    || r == 65293

unfoldable pub is_quote : ℕ → Bool
is_quote r =
    r == 39
    || r == 34
    || r == 96
    || between 8216 8222 r
    || r == 171
    || r == 187
    || r == 8249
    || r == 8250

-- The separators "/:;, \t".
unfoldable pub is_separator : ℕ → Bool
is_separator r = r == 47 || r == 58 || r == 59 || r == 44 || r == 32 || r == 9

unfoldable pub fold_lookalikes : TextOps → Text → Text
fold_lookalikes o [] = []
fold_lookalikes o (r ∷ s) =
    let rest = fold_lookalikes o s in
    if is_dash r
    then 45 ∷ rest
    else if o.is_space r
    then 32 ∷ rest
    else if is_quote r
    then rest
    else r ∷ rest

unfoldable pub trim_left : Text → Text
trim_left [] = []
trim_left (r ∷ s) = let rest = trim_left s in if is_alnum r then r ∷ s else rest

unfoldable pub trim_right : Text → Text
trim_right [] = []
trim_right (r ∷ s) =
    let rest = trim_right s in if is_empty rest && not (is_alnum r) then [] else r ∷ rest

unfoldable pub trim_non_alnum : Text → Text
trim_non_alnum s = trim_right (trim_left s)

-- The loop of collapseSeparators, with its flag inRun.
unfoldable pub collapse_from : Bool → Text → Text
collapse_from in_run [] = []
collapse_from in_run (r ∷ s) =
    let rest = collapse_from (is_separator r) s in
    if is_separator r then (if in_run then rest else 58 ∷ rest) else r ∷ rest

unfoldable pub collapse_separators : Text → Text
collapse_separators s = collapse_from false s

unfoldable pub has_dots : Text → Bool
has_dots [] = false
has_dots (r ∷ []) = false
has_dots (r ∷ q ∷ s) = (r == 46 && q == 46) || has_dots (q ∷ s)

-- The characters ?, # and \, and the control characters.
unfoldable pub is_unsafe : TextOps → ℕ → Bool
is_unsafe o r = r == 63 || r == 35 || r == 92 || ltb r 32 || r == 127 || o.is_control r

-- The rest of strictID, after its first letter: its type up to the colon, then its ident, which may
-- not begin or end with a dash, nor have two in a row.
unfoldable pub is_ident : Bool → Text → Bool
is_ident after_alnum [] = after_alnum
is_ident after_alnum (r ∷ s) =
    (is_lower_or_digit r || (r == 45 && after_alnum)) && is_ident (is_lower_or_digit r) s

unfoldable pub is_type_and_ident : Text → Bool
is_type_and_ident [] = false
is_type_and_ident (r ∷ s) =
    let rest = is_type_and_ident s in
    if r == 58 then is_ident false s else is_lower_or_digit r && rest

unfoldable pub strict_id : Text → Bool
strict_id [] = false
strict_id (r ∷ s) = between 97 122 r && is_type_and_ident s

abbrev pub unescaped : Option Text → Text → Text
unescaped none s = s
unescaped (some u) s = if is_empty u then s else u

-- The passes from the normal form on.
unfoldable pub fold : TextOps → Text → Text
fold o s =
    trim_non_alnum
      (collapse_separators (trim_non_alnum (o.to_lower (fold_lookalikes o (o.nfkc s)))))

unfoldable pub accept : Text → Canonised
accept s =
    if is_empty s || has_dots s
    then malformed
    else if any_where (λ r. not (is_allowed r)) s
    then malformed
    else if strict_id s
    then canonical_id s
    else malformed

unfoldable pub canonical : TextOps → Text → Canonised
canonical o raw =
    let s₀ = o.trim_space raw in
    if is_empty s₀
    then malformed
    else (let s = unescaped (o.path_unescape s₀) s₀ in
        if any_where (is_unsafe o) s || has_dots s then malformed else accept (fold o s))

-- NewCatalogue: the identifiers of the entries that are well formed.
unfoldable pub new_catalogue : TextOps → List Text → List Text
new_catalogue o [] = []
new_catalogue o (x ∷ xs) =
    let rest = new_catalogue o xs in
    elim (canonical o x) [ canonical_id y ↦ y ∷ rest | malformed ↦ rest | unknown_resource ↦ rest ]

abbrev pub registered : List Text → Text → Canonised
registered [] y = canonical_id y
registered (x ∷ xs) y = if any_where (text_eq y) (x ∷ xs) then canonical_id y else unknown_resource

-- Catalogue.Canonical.
unfoldable pub catalogue_canonical : TextOps → List Text → Text → Canonised
catalogue_canonical o ids raw = elim (canonical o raw) [
  | canonical_id y ↦ registered ids y
  | malformed ↦ malformed
  | unknown_resource ↦ unknown_resource
]
