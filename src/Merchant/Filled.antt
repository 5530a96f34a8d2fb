-- ===== src/Merchant/Filled.antt =====
-- The parameters of a path: internal/merchant/profile.go matchPath.
use bruiser_gateway.Prelude.{
  ◌≡◌, refl, ap, arith, none, some, Bool, true, false, not, ◌&&◌, List, [], ◌∷◌, map, if◌then◌else◌,
  Text, text_eq, text_eq_iff, text_eq_refl, split_on, inl, inr, Bool-cases, any_where, select_row,
}
use bruiser_gateway.Merchant.{
  Params, trim_slash, is_param, param_name, put_param, match_segments, match_path,
}

abbrev pub names : List Text → List Text
names [] = []
names (p ∷ pp) = if is_param p then param_name p ∷ names pp else names pp

abbrev pub are_distinct : List Text → Bool
are_distinct [] = true
are_distinct (n ∷ ns) = not (any_where (text_eq n) ns) && are_distinct ns

-- The value of a parameter, or nothing.
abbrev pub value_of : Text → Params → Text
value_of n params = elim (select_row (λ p. text_eq p.0 n) params) [ some p ↦ p.1 | none ↦ [] ]

-- A segment of the pattern with its parameter filled in.
abbrev pub filled : Params → Text → Text
filled params p = if is_param p then value_of (param_name p) params else p

value-put_param : (n v : Text) (params : Params) → value_of n (put_param n v params) ≡ v
unfolding put_param select_row
value-put_param n v [] = ground (arith, text_eq_refl n)
value-put_param n v ((m, w) ∷ params) = ground (arith, text_eq_refl n, value-put_param n v params)

value-put_param_other :
    (n m v : Text) (params : Params)
    → text_eq n m ≡ false
    → value_of m (put_param n v params) ≡ value_of m params
unfolding put_param select_row
value-put_param_other n m v [] h = ground arith
value-put_param_other n m v ((k, w) ∷ params) h = elim (Bool-cases (text_eq k n)) [
  | inl hit ↦ ground (arith, ap (λ x. text_eq x m) ((text_eq_iff k n).0 hit))
  | inr miss ↦ ground (arith, value-put_param_other n m v params)
]

text_eq-false : (n m : Text) → text_eq n m ≡ false → text_eq m n ≡ false
text_eq-false n m h = elim (Bool-cases (text_eq m n)) [
  | inl hit ↦
      absurd (ground (arith, ap (λ x. text_eq n x) ((text_eq_iff m n).0 hit), text_eq_refl n))
  | inr miss ↦ miss
]

-- A parameter that the rest of a pattern does not name keeps its value.
kept :
    (n : Text) (pp sp : List Text) (params r : Params)
    → match_segments pp sp params ≡ some r
    → any_where (text_eq n) (names pp) ≡ false
    → value_of n r ≡ value_of n params
unfolding match_segments any_where
kept n [] [] params r h apart = ground arith
kept n [] (s ∷ sp) params r h apart = absurd (ground arith)
kept n (p ∷ pp) [] params r h apart = absurd (ground arith)
kept n (p ∷ pp) (s ∷ sp) params r h apart = elim (Bool-cases (is_param p)) [
  | inl param ↦ ground (
    arith,
    kept n pp sp (put_param (param_name p) s params) r,
    value-put_param_other (param_name p) n s params,
    text_eq-false n (param_name p),
  )
  | inr literal ↦ ground (arith, kept n pp sp params r)
]

filled-match_segments :
    (pp sp : List Text) (params r : Params)
    → match_segments pp sp params ≡ some r
    → are_distinct (names pp) ≡ true
    → map (filled r) pp ≡ sp
unfolding match_segments
filled-match_segments [] [] params r h apart = refl
filled-match_segments [] (s ∷ sp) params r h apart = absurd (ground arith)
filled-match_segments (p ∷ pp) [] params r h apart = absurd (ground arith)
filled-match_segments (p ∷ pp) (s ∷ sp) params r h apart = elim (Bool-cases (is_param p)) [
  | inl param ↦ ground (
    arith,
    filled-match_segments pp sp (put_param (param_name p) s params) r,
    kept (param_name p) pp sp (put_param (param_name p) s params) r,
    value-put_param (param_name p) s params,
  )
  | inr literal ↦ ground (arith, (text_eq_iff p s), filled-match_segments pp sp params r)
]

-- What matches is what was written. Where a path matches a pattern whose parameters have different names, filling the pattern's segments with the parameters found gives back the path's segments, but for one slash at the end of either.
pub filled-match_path :
    (pattern path : Text) (params : Params)
    → match_path pattern path ≡ some params
    → are_distinct (names (split_on 47 (trim_slash pattern))) ≡ true
    → map (filled params) (split_on 47 (trim_slash pattern)) ≡ split_on 47 (trim_slash path)
unfolding match_path
filled-match_path pattern path params h apart =
    filled-match_segments (split_on 47 (trim_slash pattern)) (split_on 47 (trim_slash path)) []
      params (ground arith) apart
