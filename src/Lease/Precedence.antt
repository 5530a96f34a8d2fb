-- ===== src/Lease/Precedence.antt =====
-- internal/lease/precedence.go: which principal may take a lease from which.
use bruiser_gateway.Prelude.{
  ℕ, suc, ◌+◌, ◌-◌, ◌≤◌, ◌≡◌, refl, Bool, true, false, ◌&&◌, List, [], ◌∷◌, arith, ltb,
  if◌then◌else◌, length, Text, text, text_eq,
}
use bruiser_gateway.Lease.{Principal}

unfoldable pub default_order : List Text
unfolding text
default_order = text "browser" ∷ text "agent" ∷ []

-- `for i, t := range order`, with n = len(order).
unfoldable pub rank_from : Text → ℕ → ℕ → List Text → ℕ
rank_from t n i [] = 0
rank_from t n i (o ∷ os) =
    let rest = rank_from t n (suc i) os in if text_eq o t then n - i else rest

unfoldable pub effective_order : List Text → List Text
effective_order [] = default_order
effective_order (o ∷ os) = o ∷ os

unfoldable pub rank : Text → List Text → ℕ
unfolding rank_from effective_order
rank t order = rank_from t (length (effective_order order)) 0 (effective_order order)

unfoldable pub can_preempt_ranked : Principal → Principal → List Text → Bool
can_preempt_ranked caller holder order = ltb (rank holder.type order) (rank caller.type order)

unfoldable pub can_preempt : Principal → Principal → Bool
can_preempt caller holder = can_preempt_ranked caller holder []

unfoldable pub same_principal : Principal → Principal → Bool
same_principal a b = text_eq a.type b.type && text_eq a.id b.id

-- An independent reading: going through the order, `a` is met before `b`.
unfoldable pub precedes : Text → Text → List Text → Bool
precedes a b [] = false
precedes a b (o ∷ os) =
    let rest = precedes a b os in if text_eq o b then false else if text_eq o a then true else rest

rank_from-le :
    (t : Text) (n i : ℕ) (os : List Text) → i + length os ≡ n → rank_from t n i os ≤ length os
unfolding rank_from
rank_from-le t n i [] h = omega arith
rank_from-le t n i (o ∷ os) h = ground (arith, rank_from-le t n (suc i) os)

rank_from-precedes :
    (a b : Text) (n i : ℕ) (os : List Text)
    → i + length os ≡ n
    → ltb (rank_from b n i os) (rank_from a n i os) ≡ precedes a b os
unfolding rank_from precedes
rank_from-precedes a b n i [] h = refl
rank_from-precedes a b n i (o ∷ os) h = ground (
  arith,
  rank_from-precedes a b n (suc i) os,
  rank_from-le a n (suc i) os,
  rank_from-le b n (suc i) os,
)

-- A caller outranks a holder exactly when its type comes first in the order in force.
pub can_preempt_ranked-precedes :
    (caller holder : Principal) (order : List Text)
    → can_preempt_ranked caller holder order
      ≡ precedes caller.type holder.type (effective_order order)
unfolding can_preempt_ranked rank
can_preempt_ranked-precedes caller holder order =
    rank_from-precedes caller.type holder.type _ 0 (effective_order order) (omega arith)
