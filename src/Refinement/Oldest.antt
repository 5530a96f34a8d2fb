-- ===== src/Refinement/Oldest.antt =====
-- The waiter that `order by created_at limit 1` chooses.
use bruiser_gateway.Prelude.{
  ◌≤◌, ◌≡◌, none, some, List, [], ◌∷◌, arith, All, All-mono, leb, Option-cases, inl, inr,
  Bool-cases, subst,
}
use bruiser_gateway.Store.{Waiter}
use bruiser_gateway.Store.Promote.{oldest}

-- What holds of every waiter holds of the oldest.
pub oldest_among {κ} :
    (P : Waiter → Type κ) (ws : List Waiter) (w : Waiter) → All P ws → oldest ws ≡ some w → P w
unfolding oldest
oldest_among P [] w h e = absurd (cc)
oldest_among P (v ∷ ws) w h e = elim (Option-cases (oldest ws)) [
  | inl none_left ↦ subst P (ground arith) h.0
  | inr (u, eu) ↦ elim (Bool-cases (leb v.created_at u.created_at)) [
    | inl first ↦ subst P (ground arith) h.0
    | inr later ↦ subst P (ground arith) (oldest_among P ws u h.1 eu)
  ]
]

oldest-none {κ} : (P : Waiter → Type κ) (ws : List Waiter) → oldest ws ≡ none → All P ws
unfolding oldest
oldest-none P [] e = tt
oldest-none P (v ∷ ws) e = elim (Option-cases (oldest ws)) [
  | inl none_left ↦ absurd (ground arith)
  | inr (u, eu) ↦ absurd (ground arith)
]

-- No waiter in line is older than the one that is chosen.
pub oldest-first :
    (ws : List Waiter) (w : Waiter) → oldest ws ≡ some w → All (λ v. w.created_at ≤ v.created_at) ws
unfolding oldest
oldest-first [] w e = tt
oldest-first (v ∷ ws) w e = elim (Option-cases (oldest ws)) [
  | inl none_left ↦ (ground arith, oldest-none _ ws none_left)
  | inr (u, eu) ↦ elim (Bool-cases (leb v.created_at u.created_at)) [
    | inl first ↦ (ground arith, All-mono _ _ ws (λ x h. ground arith) (oldest-first ws u eu))
    | inr later ↦ (ground arith, All-mono _ _ ws (λ x h. ground arith) (oldest-first ws u eu))
  ]
]
