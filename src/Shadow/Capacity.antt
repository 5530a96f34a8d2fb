-- ===== src/Shadow/Capacity.antt =====
-- The shadow's holds stay within the capacity.
use bruiser_gateway.Prelude.{
  ℕ, ◌≤◌, ◌<◌, ◌≡◌, refl, ap, arith, Bool, true, ◌&&◌, List, [], ◌∷◌, ◌++◌, Text, text, pos, ltbℤ,
  count_where, delete_where, any_where, bit, count_where-append, count_where_mono, text_eq_iff, inl,
  inr, Bool-cases, subst,
}
use bruiser_gateway.Lease.{Result, ok, err}
use bruiser_gateway.Store.Promote.{at_least_one}
use bruiser_gateway.Refinement.Capacities.{slots, Result-cases}
use bruiser_gateway.Shadow.{
  Hold, HoldKind, holds, waits, is_holding, held_in, is_unexpired, count_active, has_hold, sweep,
  new_hold, placed, event, allow, queue, count_queued, ShadowDb, ShadowRequest, DryRunEvent,
  commit_dry, place_hold, decide, shadow_decide,
}

count_where-delete_le :
    (p q : Hold → Bool) (hs : List Hold) → count_where p (delete_where q hs) ≤ count_where p hs
unfolding count_where delete_where
count_where-delete_le p q [] = omega arith
count_where-delete_le p q (h ∷ hs) = ground (arith, count_where-delete_le p q hs)

-- Decisions that take effect one after the other; one that fails changes nothing.
abbrev outcome : ShadowDb → Result (ShadowDb × DryRunEvent) → ShadowDb
outcome db (ok (t, ev)) = t
outcome db (err e) = db

unfoldable pub shadow_run : List (ℕ × Text × ShadowRequest) → ShadowDb → ShadowDb
shadow_run [] db = db
shadow_run ((now, fresh, req) ∷ rs) db = shadow_run rs (outcome db (shadow_decide now fresh req db))

abbrev pub empty_shadow : ShadowDb
empty_shadow = record { dry_run_holds = []; dry_run_events = [] }

-- The decisions start in the order in which they take effect, within the capacity of each domain.
abbrev pub ShadowsFit : (Text → Text → ℕ) → ℕ → List (ℕ × Text × ShadowRequest) → Type 0
ShadowsFit cap since [] = Unit
ShadowsFit cap since ((now, fresh, req) ∷ rs) =
    (since ≤ now)
    × (slots req.max_active ≤ cap req.merchant_id req.domain_key)
    × ShadowsFit cap now rs

abbrev pub last_decision : ℕ → List (ℕ × Text × ShadowRequest) → ℕ
last_decision since [] = since
last_decision since ((now, fresh, req) ∷ rs) = last_decision now rs

abbrev Within : (Text → Text → ℕ) → ℕ → ShadowDb → Type 0
Within cap now db = (m k : Text) → count_active now m k db.dry_run_holds ≤ cap m k

Within-later :
    (cap : Text → Text → ℕ) (now later : ℕ) (db : ShadowDb)
    → now ≤ later
    → Within cap now db
    → Within cap later db
unfolding count_active held_in is_unexpired
Within-later cap now later db h v m k = omega (
  arith,
  v m k,
  count_where_mono (λ h. held_in later m k h && is_holding h.kind)
      (λ h. held_in now m k h && is_holding h.kind) db.dry_run_holds (λ r e. ground arith),
)

-- A placement that is committed leaves the holds as it placed them.
placed_holds :
    (req : ShadowRequest) (e ev : DryRunEvent) (r : Result ShadowDb) (t : ShadowDb)
    → placed req e r ≡ ok (t, ev)
    → (u : ShadowDb) × (r ≡ ok u) × (t.dry_run_holds ≡ u.dry_run_holds)
unfolding commit_dry
placed_holds req e ev (ok u) t h = (u, refl, ground arith)
placed_holds req e ev (err x) t h = absurd (ground arith)

module _ (cap : Text → Text → ℕ) (now : ℕ) (fresh : Text) (req : ShadowRequest) where
  sweep-Within :
      (rid : Text) (db : ShadowDb)
      → Within cap now db
      → Within cap now (sweep now req.merchant_id rid db)
  unfolding sweep count_active
  sweep-Within rid db v m k = omega (arith, v m k, count_where-delete_le _ _ db.dry_run_holds)

  place_hold_rows :
      (kind : HoldKind) (s t : ShadowDb)
      → place_hold now fresh req kind s ≡ ok t
      → t.dry_run_holds ≡ s.dry_run_holds ++ new_hold now fresh req kind ∷ []
  unfolding place_hold
  place_hold_rows kind s t h = ground arith

  new_hold_counted :
      (kind : HoldKind) (m k : Text)
      → (held_in now m k (new_hold now fresh req kind) && is_holding kind) ≡ true
      → (req.merchant_id ≡ m) × (req.domain_key ≡ k) × (is_holding kind ≡ true)
  unfolding held_in new_hold
  new_hold_counted kind m k h =
      ((text_eq_iff _ _).0 (ground arith), (text_eq_iff _ _).0 (ground arith), ground arith)

  -- A hold that is placed counts in the request's own domain, and as a lease only where it is one.
  place_hold-Within :
      (kind : HoldKind) (s t : ShadowDb)
      → place_hold now fresh req kind s ≡ ok t
      → (is_holding kind ≡ true
          → count_active now req.merchant_id req.domain_key s.dry_run_holds
            < cap req.merchant_id req.domain_key)
      → Within cap now s
      → Within cap now t
  unfolding count_active new_hold
  place_hold-Within kind s t h room v m k =
      let new = new_hold now fresh req kind in
      let grown = place_hold_rows kind s t h in
      let counted = λ (r : Hold). held_in now m k r && is_holding r.kind in
      elim (Bool-cases (counted new)) [
        | inr off ↦
            rw grown
              (omega (arith, v m k, count_where-append counted s.dry_run_holds new, ap bit off))
        | inl on ↦
            let (own_m, own_k, lease) = new_hold_counted kind m k on in
            let free : count_where counted s.dry_run_holds < cap m k =
              subst
                (λ x.
                  count_where (λ r. held_in now x k r && is_holding r.kind) s.dry_run_holds
                  < cap x k)
                own_m
                (subst
                  (λ y.
                    count_where (λ r. held_in now req.merchant_id y r && is_holding r.kind)
                      s.dry_run_holds
                    < cap req.merchant_id y)
                  own_k (room lease)) in
            rw grown
              (omega (arith, free, count_where-append counted s.dry_run_holds new, ap bit on))
      ]

  decide-Within :
      (s t : ShadowDb) (ev : DryRunEvent)
      → slots req.max_active ≤ cap req.merchant_id req.domain_key
      → decide now fresh req s ≡ ok (t, ev)
      → Within cap now s
      → Within cap now t
  unfolding decide commit_dry
  decide-Within s t ev fit h v =
      let active = count_active now req.merchant_id req.domain_key s.dry_run_holds in
      elim (Bool-cases (ltbℤ (pos active) (at_least_one req.max_active))) [
        | inl room ↦
            let (u, put, same) =
              placed_holds req (event req allow (text "would_acquire")) ev
                (place_hold now fresh req holds s) t (ground arith) in
            let w = place_hold-Within holds s u put (λ lease. ground (arith, fit)) v in
            λ m k. rw same (w m k)
        | inr full ↦
            let queued = count_queued now req.merchant_id req.domain_key s.dry_run_holds in
            elim (Bool-cases (ltbℤ (pos 0) req.max_waiters && ltbℤ (pos queued) req.max_waiters)) [
              | inl place ↦
                  let (u, put, same) =
                    placed_holds req (event req queue (text "active_execution_already_exists")) ev
                      (place_hold now fresh req waits s) t (ground arith) in
                  let w = place_hold-Within waits s u put (λ lease. absurd (ground arith)) v in
                  λ m k. rw same (w m k)
              | inr none_left ↦
                  let same : t.dry_run_holds ≡ s.dry_run_holds = ground arith in
                  λ m k. rw same (v m k)
            ]
      ]

  shadow_decide-Within :
      (s t : ShadowDb) (ev : DryRunEvent)
      → slots req.max_active ≤ cap req.merchant_id req.domain_key
      → shadow_decide now fresh req s ≡ ok (t, ev)
      → Within cap now s
      → Within cap now t
  unfolding shadow_decide commit_dry
  shadow_decide-Within s t ev fit h v =
      let db = sweep now req.merchant_id req.request_id s in
      let swept = sweep-Within req.request_id s v in
      elim (Bool-cases (any_where (has_hold now req) db.dry_run_holds)) [
        | inl held ↦
            let same : t.dry_run_holds ≡ db.dry_run_holds = ground arith in
            λ m k. rw same (swept m k)
        | inr other ↦ decide-Within db t ev fit (rw other at h) swept
      ]

module _ (cap : Text → Text → ℕ) where
  run-Within :
      (since : ℕ) (rs : List (ℕ × Text × ShadowRequest)) (db : ShadowDb)
      → ShadowsFit cap since rs
      → Within cap since db
      → Within cap (last_decision since rs) (shadow_run rs db)
  unfolding shadow_run
  run-Within since [] db f v = v
  run-Within since ((now, fresh, req) ∷ rs) db f v =
      let later = Within-later cap since now db f.0 v in
      elim (Result-cases (shadow_decide now fresh req db)) [
        | inr (e, h) ↦ rw (h, shadow_run) (run-Within now rs db f.2 later)
        | inl ((t, ev), h) ↦
            rw (h, shadow_run)
              (run-Within now rs t f.2 (shadow_decide-Within cap now fresh req db t ev f.1 h later))
      ]

  -- The shadow is within capacity too. From no holds, after any decisions that take effect one after the other in the order in which they start and ask for no more than the capacity of their domains, and at every time from the last of them on, no domain has more unexpired leases in the shadow's record than its capacity.
  pub shadow_run-count_active-le :
      (since : ℕ) (rs : List (ℕ × Text × ShadowRequest)) (later : ℕ) (m k : Text)
      → ShadowsFit cap since rs
      → last_decision since rs ≤ later
      → count_active later m k (shadow_run rs empty_shadow).dry_run_holds ≤ cap m k
  unfolding count_active count_where
  shadow_run-count_active-le since rs later m k f h =
      Within-later cap (last_decision since rs) later (shadow_run rs empty_shadow) h
        (run-Within since rs empty_shadow f (λ m k. omega arith)) m k
