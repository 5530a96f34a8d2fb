-- ===== src/Prelude/Counts.antt =====
-- How the statements on a table change the number of rows that satisfy a test.
use Prim.Native.Nat.{◌+◌, ◌≤◌}
use mathlib.Core.Path.{◌≡◌, refl}
use mathlib.Core.Bool.{Bool, true, false, not, ◌&&◌}
use mathlib.Core.Option.{some}
use mathlib.Core.List.{List, [], ◌∷◌}
use native.Mathlib.Omega.{arith}
use bruiser_gateway.Prelude.Lists.{All, All-mono}
use bruiser_gateway.Prelude.Tables.{
  select_where, select_row, count_where, update_where, any_where, count_where_mono,
  count_where_split,
}

module _ {ℓ} {A : Type ℓ} where
  pub count_where-none :
      (p : A → Bool) (xs : List A) → any_where p xs ≡ false → count_where p xs ≡ 0
  unfolding any_where count_where
  count_where-none p [] h = refl
  count_where-none p (x ∷ xs) h = ground (arith, count_where-none p xs)

  pub count_where-never :
      (p : A → Bool) (xs : List A) → ((x : A) → p x ≡ false) → count_where p xs ≡ 0
  unfolding count_where
  count_where-never p [] h = refl
  count_where-never p (x ∷ xs) h = ground (arith, h x, count_where-never p xs h)

  pub count_where-congr :
      (p q : A → Bool) (xs : List A) → ((x : A) → p x ≡ q x) → count_where p xs ≡ count_where q xs
  unfolding count_where
  count_where-congr p q [] h = refl
  count_where-congr p q (x ∷ xs) h = ground (arith, h x, count_where-congr p q xs h)

  pub count_where-select_where :
      (p q : A → Bool) (xs : List A)
      → count_where q (select_where p xs) ≡ count_where (λ x. p x && q x) xs
  unfolding select_where count_where
  count_where-select_where p q [] = refl
  count_where-select_where p q (x ∷ xs) = ground (arith, count_where-select_where p q xs)

  -- An update that keeps a test keeps its count.
  pub count_where-update_keep :
      (p q : A → Bool) (g : A → A) (xs : List A)
      → ((x : A) → p (g x) ≡ p x)
      → count_where p (update_where q g xs) ≡ count_where p xs
  unfolding count_where update_where
  count_where-update_keep p q g [] h = refl
  count_where-update_keep p q g (x ∷ xs) h = ground (arith, h x, count_where-update_keep p q g xs h)

  -- At most the updated rows come to satisfy a test.
  pub count_where-update_le :
      (d p q : A → Bool) (g : A → A) (xs : List A)
      → ((x : A) → d (g x) ≡ d x)
      → count_where (λ x. d x && p x) (update_where q g xs)
          + count_where (λ x. q x && (d x && p x)) xs
        ≤ count_where (λ x. d x && p x) xs + count_where (λ x. q x && d x) xs
  unfolding count_where update_where
  count_where-update_le d p q g [] h = omega arith
  count_where-update_le d p q g (x ∷ xs) h = ground (arith, h x, count_where-update_le d p q g xs h)

  -- An update after which the rows fail a test takes them off its count.
  pub count_where-update_off :
      (p q : A → Bool) (g : A → A) (xs : List A)
      → ((x : A) → p (g x) ≡ false)
      → count_where p (update_where q g xs) + count_where (λ x. q x && p x) xs ≡ count_where p xs
  unfolding count_where update_where
  count_where-update_off p q g [] h = refl
  count_where-update_off p q g (x ∷ xs) h = ground (arith, h x, count_where-update_off p q g xs h)

  -- Rows that an update does not reach stay.
  pub count_where-update_miss :
      (p q : A → Bool) (g : A → A) (xs : List A)
      → count_where (λ x. q x && p x) xs ≡ 0
      → count_where p xs ≤ count_where p (update_where q g xs)
  unfolding count_where update_where
  count_where-update_miss p q g [] h = omega arith
  count_where-update_miss p q g (x ∷ xs) h = ground (arith, count_where-update_miss p q g xs)

  -- Where one row satisfies q at most, and one satisfies q and p, none satisfies q and not p.
  pub count_where_only :
      (p q r : A → Bool) (xs : List A)
      → count_where q xs ≤ 1
      → 1 ≤ count_where (λ x. q x && p x) xs
      → ((x : A) → r x ≡ true → (q x ≡ true) × (p x ≡ false))
      → count_where r xs ≡ 0
  count_where_only p q r xs u h k = omega (
    arith,
    count_where_split q p xs,
    count_where_mono r (λ x. q x && not (p x)) xs (λ x e. ground (arith, k x e)),
  )

  pub count_where_pos :
      (p : A → Bool) (xs : List A) {x : A} → select_row p xs ≡ some x → 1 ≤ count_where p xs
  unfolding select_row count_where
  count_where_pos p [] h = absurd (cc)
  count_where_pos p (y ∷ ys) {x = x} h =
      ground (arith, λ (e : select_row p ys ≡ some x). count_where_pos p ys e)

  pub select_row_holds :
      (p : A → Bool) (xs : List A) {x : A} → select_row p xs ≡ some x → p x ≡ true
  unfolding select_row
  select_row_holds p [] h = cc
  select_row_holds p (y ∷ ys) {x = x} h =
      ground (arith, λ (e : select_row p ys ≡ some x). select_row_holds p ys e)

  pub count_where_found :
      (p q : A → Bool) (xs : List A) {x : A}
      → select_row p xs ≡ some x
      → q x ≡ true
      → 1 ≤ count_where q xs
  unfolding select_row count_where
  count_where_found p q [] h k = absurd (cc)
  count_where_found p q (y ∷ ys) {x = x} h k =
      ground (arith, λ (e : select_row p ys ≡ some x). count_where_found p q ys e k)

  -- Each entry of a list is counted by every test that it passes.
  pub All-counted : (xs : List A) → All (λ x. (q : A → Bool) → q x ≡ true → 1 ≤ count_where q xs) xs
  unfolding count_where
  All-counted [] = tt
  All-counted (x ∷ xs) = (
    λ q h. rw h (omega arith),
    All-mono _ _ xs (λ y f q h. omega (arith, f q h)) (All-counted xs),
  )
