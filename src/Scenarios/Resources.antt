-- ===== src/Scenarios/Resources.antt =====
-- Identifiers of resources at concrete strings.
use bruiser_gateway.Prelude.{
  ℕ, ◌+◌, ◌-◌, text_eq, ◌≡◌, refl, some, Bool, true, List, [], ◌∷◌, Text, text, arith, ltb, ◌==◌,
  if◌then◌else◌, any_where,
}
use bruiser_gateway.Resource
use bruiser_gateway.Resource.{
  TextOps, Canonised, canonical_id, malformed, is_allowed, is_lower_or_digit, between, strict_id,
  canonical, new_catalogue, catalogue_canonical,
}
use bruiser_gateway.Resource.Fold.{is_plain}
use bruiser_gateway.Resource.Grammar.{Documented, canonical-idempotent}
use bruiser_gateway.Scenarios.{running}

abbrev lower_ascii : ℕ → ℕ
lower_ascii r = if between 65 90 r then r + 32 else r

abbrev lower_all : Text → Text
lower_all [] = []
lower_all (r ∷ s) = lower_ascii r ∷ lower_all s

abbrev upper_all : Text → Text
upper_all [] = []
upper_all (r ∷ s) = (if between 97 122 r then r - 32 else r) ∷ upper_all s

-- Plain ASCII, without escapes.
abbrev pub ascii : TextOps
ascii = record {
  trim_space = λ s. s;
  path_unescape = λ s. some s;
  nfkc = λ s. s;
  to_lower = lower_all;
  to_upper = upper_all;
  equal_fold = λ s t. text_eq (lower_all s) (lower_all t);
  is_control = λ r. ltb r 32;
  is_space = λ r. r == 32;
}

lower_all-plain : (s : Text) → is_plain s ≡ true → lower_all s ≡ s
unfolding any_where is_allowed is_lower_or_digit
lower_all-plain [] h = refl
lower_all-plain (r ∷ s) h = ground (arith, lower_all-plain s)

ascii-Documented : Documented ascii
unfolding is_allowed is_lower_or_digit
ascii-Documented = record {
  trims = λ s h. refl;
  unescapes = λ s h. refl;
  normal = λ s h. refl;
  lower = lower_all-plain;
  no_control = λ r h. ground arith;
  no_space = λ r h. ground arith;
}

unfoldable pub folding : Bool
unfolding running Resource.is_lower_or_digit Resource.is_alnum Resource.is_allowed Resource.is_dash
    Resource.is_quote Resource.is_separator Resource.fold_lookalikes Resource.trim_left
    Resource.trim_right Resource.trim_non_alnum Resource.collapse_from Resource.collapse_separators
    Resource.has_dots Resource.is_unsafe Resource.is_ident Resource.is_type_and_ident
    Resource.strict_id Resource.fold Resource.accept Resource.canonical Resource.new_catalogue
    Resource.catalogue_canonical
folding = true

-- Spelling variants of one resource, and strings that are none.
variants :
    (canonical ascii (text " Ticket / Cup-Final!") ≡ canonical_id (text "ticket:cup-final"))
    × (canonical ascii (text "ticket:'cup-final'") ≡ canonical_id (text "ticket:cup-final"))
    × (canonical ascii (text "ticket:../x") ≡ malformed)
    × (canonical ascii (text "ticket") ≡ malformed)
unfolding folding
variants = (refl, refl, refl, refl)

canonical-idempotent_example :
    (strict_id (text "ticket:cup-final") ≡ true)
    × (canonical ascii (text "ticket:cup-final") ≡ canonical_id (text "ticket:cup-final"))
unfolding folding
canonical-idempotent_example =
    canonical-idempotent ascii (text "Ticket,'Cup-Final'") (text "ticket:cup-final")
      ascii-Documented refl

abbrev entries : List Text
entries = text "ticket:Cup-Final" ∷ text "?" ∷ []
