-- ===== src/Shadow/Sweep.antt =====
-- What the sweep of the shadow's holds leaves as it was.
use bruiser_gateway.Prelude.{
  ℕ, ◌≡◌, refl, arith, Bool, true, false, List, [], ◌∷◌, Text, count_where, delete_where, any_where,
}
use bruiser_gateway.Shadow.{
  Hold, held_in, is_unexpired, ShadowDb, ShadowRequest, count_active, count_queued, sweep,
}

module _ {ℓ} {A : Type ℓ} where
  any_where-delete_where :
      (p q : A → Bool) (xs : List A)
      → any_where p xs ≡ false
      → any_where p (delete_where q xs) ≡ false
  unfolding any_where delete_where
  any_where-delete_where p q [] h = refl
  any_where-delete_where p q (x ∷ xs) h = ground (arith, any_where-delete_where p q xs)

  count_where-delete_where :
      (p q : A → Bool) (xs : List A)
      → ((x : A) → p x ≡ true → q x ≡ false)
      → count_where p (delete_where q xs) ≡ count_where p xs
  unfolding count_where delete_where
  count_where-delete_where p q [] h = refl
  count_where-delete_where p q (x ∷ xs) h = ground (arith, h x, count_where-delete_where p q xs h)

pub swept_counts :
    (now : ℕ) (m k rid : Text) (db : ShadowDb)
    → (count_active now m k (sweep now m rid db).dry_run_holds
        ≡ count_active now m k db.dry_run_holds)
      × (count_queued now m k (sweep now m rid db).dry_run_holds
          ≡ count_queued now m k db.dry_run_holds)
unfolding sweep count_active count_queued held_in is_unexpired
swept_counts now m k rid db = (
  count_where-delete_where _ _ db.dry_run_holds (λ h e. ground arith),
  count_where-delete_where _ _ db.dry_run_holds (λ h e. ground arith),
)

pub swept_none :
    (p : Hold → Bool) (now : ℕ) (dry : ShadowRequest) (d : ShadowDb)
    → any_where p d.dry_run_holds ≡ false
    → any_where p (sweep now dry.merchant_id dry.request_id d).dry_run_holds ≡ false
unfolding sweep
swept_none p now dry d h = any_where-delete_where p _ d.dry_run_holds h
