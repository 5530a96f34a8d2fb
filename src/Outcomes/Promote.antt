-- ===== src/Outcomes/Promote.antt =====
-- Who is promoted: promoteLocked of internal/store/postgres/waiters.go.
use bruiser_gateway.Prelude.{
  ℕ, suc, ◌≤◌, ◌<◌, ◌≡◌, Bool, true, false, ◌&&◌, none, some, List, [], ◌∷◌, ◌++◌, arith, Text,
  text_eq, refl, sym, ◌∙◌, ap, subst, All, Option-cases, inl, inr, Bool-cases, select_where,
  delete_where, ◌⊎◌, any_where, ℤ, lebℤ, pos,
}
use bruiser_gateway.Lease.{ok, >>=-eq-ok}
use bruiser_gateway.Store.{Db, Waiter, waits_in, bump_fence, insert_execution, insert_audit}
use bruiser_gateway.Store.Waiters.{still_waits}
use bruiser_gateway.Store.Promote.{
  oldest, at_least_one, promoted, drop_expired, delete_waiter, count_live, promote_waiter,
  promote_locked,
}
use bruiser_gateway.Ledger.{fence_of}
use bruiser_gateway.Ledger.Fences.{bump_fence-fence_of}
use bruiser_gateway.Refinement.Capacities.{slots, slots_lt}
use bruiser_gateway.Refinement.Grants.{bump_fence_ok, insert_execution_ok}
use bruiser_gateway.Refinement.Oldest.{oldest-first}

promote_waiter_steps :
    (now : ℕ) (rid m k : Text) (w : Waiter) (s t : Db)
    → promote_waiter now rid m k w s ≡ ok t
    → (t.executions ≡ s.executions ++ promoted now w (suc (fence_of m k s)) ∷ [])
      × (t.waiters ≡ (delete_waiter w.id s).waiters)
unfolding promote_waiter insert_audit delete_waiter
promote_waiter_steps now rid m k w s t h =
    let ((f, u), b, h₁) = >>=-eq-ok (bump_fence now m k s) _ h in
    let (v, ins, h₂) = >>=-eq-ok (insert_execution (promoted now w f) u) _ h₁ in
    let (_, grown) = bump_fence-fence_of now m k s b in
    let (same, queue) = bump_fence_ok now m k s b in
    let (_, ve) = insert_execution_ok (promoted now w f) u ins in
    (ground (arith, ve, same, grown), ground (arith, ve, queue))

oldest_empty : (ws : List Waiter) → oldest ws ≡ none → ws ≡ []
unfolding oldest
oldest_empty [] h = refl
oldest_empty (w ∷ ws) h = elim (Option-cases (oldest ws)) [
  | inl none_left ↦ absurd (ground arith)
  | inr (v, found) ↦ absurd (ground arith)
]

-- The waiters that are in line for a domain.
abbrev pub in_line : ℕ → Text → Text → Db → List Waiter
in_line now m k db = select_where (λ w. waits_in m k w && still_waits now w) db.waiters

select_where-delete_where :
    (p q : Waiter → Bool) (ws : List Waiter)
    → ((w : Waiter) → p w ≡ true → q w ≡ false)
    → select_where p (delete_where q ws) ≡ select_where p ws
unfolding select_where delete_where
select_where-delete_where p q [] h = refl
select_where-delete_where p q (w ∷ ws) h = ground (arith, h w, select_where-delete_where p q ws h)

-- Those whose time is up are not in line.
drop_expired-in_line :
    (now : ℕ) (m k : Text) (s : Db) → in_line now m k (drop_expired now m k s) ≡ in_line now m k s
unfolding drop_expired still_waits
drop_expired-in_line now m k s =
    select_where-delete_where (λ w. waits_in m k w && still_waits now w) _ s.waiters
      (λ w h. ground arith)

drop_expired-same :
    (now : ℕ) (m k : Text) (s : Db)
    → ((drop_expired now m k s).executions ≡ s.executions)
      × (count_live now m k (drop_expired now m k s) ≡ count_live now m k s)
      × (fence_of m k (drop_expired now m k s) ≡ fence_of m k s)
unfolding drop_expired count_live fence_of
drop_expired-same now m k s = (refl, refl, refl)

any_where-delete_where :
    (p : Waiter → Bool) (ws : List Waiter) → any_where p (delete_where p ws) ≡ false
unfolding any_where delete_where
any_where-delete_where p [] = refl
any_where-delete_where p (w ∷ ws) = ground (arith, any_where-delete_where p ws)

deleted :
    (x : Text) (db : Db) → any_where (λ v. text_eq v.id x) (delete_waiter x db).waiters ≡ false
unfolding delete_waiter
deleted x db = any_where-delete_where (λ v. text_eq v.id x) db.waiters

slots_le : (n : ℤ) (c : ℕ) → lebℤ (at_least_one n) (pos c) ≡ true → slots n ≤ c
unfolding at_least_one
slots_le n c h = ground arith

-- The first in line comes before all others, by the time at which it queued.
abbrev pub IsFirst : Waiter → List Waiter → Type 0
IsFirst w ws = All (λ v. w.created_at ≤ v.created_at) ws

module _ (now : ℕ) (rid m k : Text) (s t : Db) where
  -- Promotion is first come, first served. A promotion that succeeds on a domain either grants nothing, because no one is in line or because the leases fill the capacity of the first in line; or it grants the first in line, under the domain's next fence, and nothing else, the domain having had room.
  pub promote_locked-fifo :
      promote_locked now rid m k s ≡ ok t
      → ((t.executions ≡ s.executions)
          × ((in_line now m k s ≡ [])
              ⊎ ((w : Waiter) × (oldest (in_line now m k s) ≡ some w)
                  × IsFirst w (in_line now m k s)
                  × (slots w.max_active ≤ count_live now m k s))))
        ⊎ ((w : Waiter) × (oldest (in_line now m k s) ≡ some w)
            × IsFirst w (in_line now m k s)
            × (count_live now m k s < slots w.max_active)
            × (t.executions ≡ s.executions ++ promoted now w (suc (fence_of m k s)) ∷ [])
            × (any_where (λ v. text_eq v.id w.id) t.waiters ≡ false))
  unfolding promote_locked
  promote_locked-fifo h =
      let db = drop_expired now m k s in
      let line = drop_expired-in_line now m k s in
      let (same, live, fence) = drop_expired-same now m k s in
      elim (Option-cases (oldest (in_line now m k db))) [
        | inl empty ↦
            inl (ground (arith, same), inl (oldest_empty _ (ap oldest (sym line) ∙ empty)))
        | inr (w, found) ↦
            let first : oldest (in_line now m k s) ≡ some w = ap oldest (sym line) ∙ found in
            let before = oldest-first (in_line now m k s) w first in
            elim (Bool-cases (lebℤ (at_least_one w.max_active) (pos (count_live now m k db)))) [
              | inl full ↦ inl (
                ground (arith, same),
                inr (
                  w,
                  first,
                  before,
                  subst (λ n. slots w.max_active ≤ n) live (slots_le w.max_active _ full),
                ),
              )
              | inr room ↦
                  let (ex, queue) = promote_waiter_steps now rid m k w db t (ground arith) in
                  inr (
                    w,
                    first,
                    before,
                    subst (λ n. n < slots w.max_active) live (slots_lt w.max_active _ room),
                    ground (arith, ex, same, fence),
                    subst (λ ws. any_where (λ v. text_eq v.id w.id) ws ≡ false) (sym queue)
                        (deleted w.id db),
                  )
            ]
      ]
