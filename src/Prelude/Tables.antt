-- ===== src/Prelude/Tables.antt =====
-- SQL tables as lists of rows, and the statements that the store runs on them.
use Prim.Native.Nat.{ℕ, ◌+◌, ◌≤◌}
use mathlib.Core.Path.{◌≡◌, refl}
use mathlib.Core.Bool.{Bool, true, false, not, ◌&&◌}
use mathlib.Core.Option.{Option, none, some}
use mathlib.Core.List.{List, [], ◌∷◌, ◌++◌}
use native.Mathlib.Omega.{arith}
use bruiser_gateway.Prelude.Tests.{if◌then◌else◌, bit}
use bruiser_gateway.Prelude.Lists.{length}

module _ {ℓ} {A : Type ℓ} where
  -- select … where p
  unfoldable pub select_where : (A → Bool) → List A → List A
  select_where p [] = []
  select_where p (x ∷ xs) = let rest = select_where p xs in if p x then x ∷ rest else rest

  -- The one row of a QueryRow; `none` is pgx.ErrNoRows.
  unfoldable pub select_row : (A → Bool) → List A → Option A
  select_row p [] = none
  select_row p (x ∷ xs) = let rest = select_row p xs in if p x then some x else rest

  -- select count(*) … where p
  unfoldable pub count_where : (A → Bool) → List A → ℕ
  count_where p [] = 0
  count_where p (x ∷ xs) = bit (p x) + count_where p xs

  -- update … set f where p
  unfoldable pub update_where : (A → Bool) → (A → A) → List A → List A
  update_where p f [] = []
  update_where p f (x ∷ xs) = (if p x then f x else x) ∷ update_where p f xs

  -- delete … where p
  unfoldable pub delete_where : (A → Bool) → List A → List A
  delete_where p [] = []
  delete_where p (x ∷ xs) = let rest = delete_where p xs in if p x then rest else x ∷ rest

  -- The first value of a loop that returns on a match.
  unfoldable pub any_where : (A → Bool) → List A → Bool
  any_where p [] = false
  any_where p (x ∷ xs) = if p x then true else any_where p xs

  pub length-select_where :
      (p : A → Bool) (xs : List A) → length (select_where p xs) ≡ count_where p xs
  unfolding select_where count_where
  length-select_where p [] = refl
  length-select_where p (x ∷ xs) = ground (arith, length-select_where p xs)

  pub count_where-append :
      (p : A → Bool) (xs : List A) (x : A)
      → count_where p (xs ++ x ∷ []) ≡ count_where p xs + bit (p x)
  unfolding count_where
  count_where-append p [] x = omega arith
  count_where-append p (y ∷ xs) x = omega (arith, count_where-append p xs x)

  pub count_where_mono :
      (p q : A → Bool) (xs : List A)
      → ((x : A) → p x ≡ true → q x ≡ true)
      → count_where p xs ≤ count_where q xs
  unfolding count_where
  count_where_mono p q [] h = omega arith
  count_where_mono p q (x ∷ xs) h = ground (arith, h x, count_where_mono p q xs h)

  pub count_where_split :
      (p q : A → Bool) (xs : List A)
      → count_where p xs ≡ count_where (λ x. p x && q x) xs + count_where (λ x. p x && not (q x)) xs
  unfolding count_where
  count_where_split p q [] = omega arith
  count_where_split p q (x ∷ xs) = ground (arith, count_where_split p q xs)

  pub select_row_pos :
      (p q : A → Bool) (xs : List A) {x : A}
      → select_row p xs ≡ some x
      → q x ≡ true
      → 1 ≤ count_where (λ y. p y && q y) xs
  unfolding select_row count_where
  select_row_pos p q [] h k = cc
  select_row_pos p q (y ∷ ys) {x = x} h k =
      ground (arith, λ (e : select_row p ys ≡ some x). select_row_pos p q ys e k)
