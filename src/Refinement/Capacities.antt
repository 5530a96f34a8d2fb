-- ===== src/Refinement/Capacities.antt =====
-- The capacity that a request or a waiter brings along, held against the capacity of its domain.
use bruiser_gateway.Prelude.{
  ℕ, ◌≤◌, ◌<◌, ◌≡◌, Bool, true, false, List, [], ◌∷◌, arith, Text, ℤ, pos, pos_part, lebℤ, All,
  delete_where, select_where, inl, inr, Bool-cases, refl, ◌⊎◌,
}
use bruiser_gateway.Lease.{Result, ok, err, Error}
use bruiser_gateway.Store.{Db, Waiter}
use bruiser_gateway.Ledger.{Moves}
use bruiser_gateway.Store.Promote.{at_least_one}

abbrev pub slots : ℤ → ℕ
slots n = pos_part (at_least_one n)

pub slots_pos : (n : ℤ) → 1 ≤ slots n
unfolding at_least_one
slots_pos n = ground arith

pub slots-at_least_one : (n : ℤ) → slots (at_least_one n) ≡ slots n
unfolding at_least_one
slots-at_least_one n = ground arith

-- The test of MaxActive against a count that is not reached.
pub slots_lt : (n : ℤ) (c : ℕ) → lebℤ (at_least_one n) (pos c) ≡ false → c < slots n
unfolding at_least_one
slots_lt n c h = ground arith

abbrev pub Fits : (Text → Text → ℕ) → Waiter → Type 0
Fits cap w = slots w.max_active ≤ cap w.merchant_id w.domain_key

abbrev pub WaitersFit : (Text → Text → ℕ) → Db → Type 0
WaitersFit cap db = All (Fits cap) db.waiters

module _ {ℓ κ} {A : Type ℓ} (P : A → Type κ) where
  pub All-delete_where : (q : A → Bool) (xs : List A) → All P xs → All P (delete_where q xs)
  unfolding delete_where
  All-delete_where q [] h = tt
  All-delete_where q (x ∷ xs) h = elim (Bool-cases (q x)) [
    | inl e ↦ rw e (All-delete_where q xs h.1)
    | inr e ↦ rw e (h.0, All-delete_where q xs h.1)
  ]

module _ {ℓ κ} {A : Type ℓ} (P : A → Type κ) where
  pub All-select_where :
      (q : A → Bool) (xs : List A) → All P xs → All (λ x. P x × (q x ≡ true)) (select_where q xs)
  unfolding select_where
  All-select_where q [] h = tt
  All-select_where q (x ∷ xs) h = elim (Bool-cases (q x)) [
    | inl e ↦ rw e ((h.0, e), All-select_where q xs h.1)
    | inr e ↦ rw e (All-select_where q xs h.1)
  ]

pub Result-cases {ℓ} :
    {A : Type ℓ} (r : Result A) → ((a : A) × (r ≡ ok a)) ⊎ ((e : Error) × (r ≡ err e))
Result-cases (ok a) = inl (a, refl)
Result-cases (err e) = inr (e, refl)

-- What a transaction does: moves of the ledger, and no waiter beyond its domain's capacity.
pub record Refines (cap : Text → Text → ℕ) (now : ℕ) (s t : Db) : Type 0 where
  pub moves : Moves cap now s t
  pub waiters : WaitersFit cap t
