-- ===== src/Gateway/Branches.antt =====
-- internal/api/public/authorize.go: the branches that let a request through at the end of admit.
use bruiser_gateway.Prelude.{
  ℕ, ◌≡◌, ◌⊎◌, refl, ap, ◌∙◌, arith, Option, some, true, Text, text, ℤ, inl, inr, Bool-cases,
  Option-cases,
}
use bruiser_gateway.Lease.{
  Execution, AcquireResult, granted, already_held, busy, queued_at, denied, Error, ok,
}
use bruiser_gateway.Resource.{TextOps}
use bruiser_gateway.Budget.{BudgetResult, used, over_budget}
use bruiser_gateway.Refinement.Capacities.{Result-cases}
use bruiser_gateway.Policy
use bruiser_gateway.Policy.{Request, Decision, uncontrolled, leased, Terms}
use bruiser_gateway.Controls.{Controls}
use bruiser_gateway.Gateway.{Services, World, Setting}
use bruiser_gateway.Gateway.Settled.{apply_controls, with_controls, fail_open}
use bruiser_gateway.Gateway.Admission.{Admission, failed_open, admitted, allows, admit_store_error}
use bruiser_gateway.Gateway.Enforce.{conclude, answer_acquire}

-- The answers under which the caller has a lease.
abbrev pub Holds : AcquireResult → Execution → Type 0
Holds r e = (r ≡ granted e) ⊎ (r ≡ already_held e)

pub BudgetResult-cases :
    (b : BudgetResult) → (b ≡ over_budget) ⊎ ((n : ℕ) × (m : ℤ) × (b ≡ used n m))
BudgetResult-cases over_budget = inl refl
BudgetResult-cases (used n m) = inr (n, m, refl)

pub Decision-cases :
    (d : Decision)
    → ((n : Text) × (d ≡ uncontrolled n))
      ⊎ (((n why : Text) × (d ≡ Policy.denied n why))
          ⊎ ((n : Text) × (t : Terms) × (d ≡ leased n t)))
Decision-cases (uncontrolled n) = inl (n, refl)
Decision-cases (Policy.denied n why) = inr (inl (n, why, refl))
Decision-cases (leased n t) = inr (inr (n, t, refl))

pub free-control_none :
    (c : Controls) (d : Decision) (action rule : Text)
    → (apply_controls c d action).decision ≡ uncontrolled rule
    → (apply_controls c d action).control_none ≡ true
unfolding apply_controls
free-control_none c (uncontrolled n) action rule h = refl
free-control_none c (Policy.denied n why) action rule h = absurd (ground arith)
free-control_none c (leased n t) action rule h = absurd (ground arith)

-- The controls change neither the domain of a lease nor its capacity.
pub settled_terms :
    (c : Controls) (d : Decision) (action rule : Text) (t : Terms)
    → (apply_controls c d action).decision ≡ leased rule t
    → (t₀ : Terms) × (d ≡ leased rule t₀)
      × (t.max_active ≡ t₀.max_active)
      × (t.domain_key ≡ t₀.domain_key)
unfolding apply_controls with_controls
settled_terms c (uncontrolled n) action rule t h = absurd (ground arith)
settled_terms c (Policy.denied n why) action rule t h = absurd (ground arith)
settled_terms c (leased n t₀) action rule t h = (t₀, ground arith, ground arith, ground arith)

module _ {ℓ} {S : Type ℓ} (o : TextOps) (v : Services S) (s : Setting)
    (sign_execution : Execution → Option Text) (now : ℕ) where
  conclude-allowed :
      (status_text outcome resource customer rid : Text) (t : Terms) (e : Execution)
      (w w' : World S) (a : Admission)
      → conclude o v s sign_execution now status_text outcome resource customer rid t e w ≡ (w', a)
      → allows a ≡ true
      → (token : Text) × (n : ℕ) × (m : ℤ) × (x : S) × (sign_execution e ≡ some token)
        × (a ≡ admitted e token)
        × ((v.consume_op s.merchant_id e.id x).1 ≡ ok (used n m))
  unfolding conclude allows
  conclude-allowed status_text outcome resource customer rid t e w w' a h let_through =
      let x = v.ensure_budget s.merchant_id e.id t.max_ops w.store in
      elim (Option-cases (sign_execution e)) [
        | inl refused ↦ absurd (ground arith)
        | inr (token, signed) ↦ elim (Result-cases (v.consume_op s.merchant_id e.id x).1) [
          | inr (x₁, failed) ↦ absurd (ground arith)
          | inl (b, done) ↦ elim (BudgetResult-cases b) [
            | inl over ↦ absurd (ground arith)
            | inr (n, m, within) ↦ (token, n, m, x, signed, ground arith, done ∙ ap ok within)
          ]
        ]
      ]

  pub answer_acquire-allowed :
      (resource customer rid : Text) (t : Terms) (r : AcquireResult) (w w' : World S)
      (a : Admission)
      → answer_acquire o v s sign_execution now resource customer rid t r w ≡ (w', a)
      → allows a ≡ true
      → (e : Execution) × (token : Text) × (n : ℕ) × (m : ℤ) × (x : S) × Holds r e
        × (sign_execution e ≡ some token)
        × (a ≡ admitted e token)
        × ((v.consume_op s.merchant_id e.id x).1 ≡ ok (used n m))
  unfolding answer_acquire allows
  answer_acquire-allowed resource customer rid t (granted e) w w' a h k =
      let (token, n, m, x, signed, same, spent) =
        conclude-allowed (text "GRANTED") (text "allow") resource customer rid t e w w' a h k in
      (e, token, n, m, x, inl refl, signed, same, spent)
  answer_acquire-allowed resource customer rid t (already_held e) w w' a h k =
      let (token, n, m, x, signed, same, spent) =
        conclude-allowed (text "ALREADY_HELD") (text "resume") resource customer rid t e w w' a h
          k in
      (e, token, n, m, x, inr refl, signed, same, spent)
  answer_acquire-allowed resource customer rid t (queued_at e b q) w w' a h k =
      absurd (ground arith)
  answer_acquire-allowed resource customer rid t (busy b) w w' a h k = absurd (ground arith)
  answer_acquire-allowed resource customer rid t (denied reason) w w' a h k = absurd (ground arith)

  pub admit_store_error-allowed :
      (e : Error) (a : Admission)
      → admit_store_error s.controls e ≡ a
      → allows a ≡ true
      → (a ≡ failed_open) × (fail_open s.controls ≡ true)
  unfolding admit_store_error allows
  admit_store_error-allowed e a h k = elim (Bool-cases (fail_open s.controls)) [
    | inl open_ended ↦ (ground arith, open_ended)
    | inr closed ↦ absurd (ground arith)
  ]
