-- ===== src/Gateway/Authorised.antt =====
-- Whose calls are let in: internal/api/public/server.go, sessionAuth and get.
use bruiser_gateway.Prelude.{
  ℕ, ◌≡◌, ◌⊎◌, refl, subst, arith, Option, some, true, Text, text_eq, text_eq_iff, is_empty, inl,
  inr, Bool-cases, Option-cases,
}
use bruiser_gateway.Lease.{
  unavailable, not_found, not_holder, invalid_input, precedence_denied, forbidden, gone, Execution,
  Result, ok, err,
}
use bruiser_gateway.Store.{Session}
use bruiser_gateway.Store.Sessions.{SessionResult, live, no_rows, wrong_merchant, session_revoked}
use bruiser_gateway.Refinement.Capacities.{Result-cases}
use bruiser_gateway.Resource.{TextOps}
use bruiser_gateway.Gateway.{Services, World, Setting}
use bruiser_gateway.Gateway.Settled.{fail_open}
use bruiser_gateway.Gateway.Sessions.{Claims, authorised, own_claims, check_live, session_auth}
use bruiser_gateway.Gateway.Calls.{held, handle_get}

module _ {ℓ} {S : Type ℓ} (v : Services S) (s : Setting) (now : ℕ) where
  -- What stands behind the claims: a live session, none named by the token, or an outage under controls that fail open.
  abbrev pub Backed : Claims → S → Type 0
  Backed c w =
      (is_empty c.session_id ≡ true)
      ⊎ (((x : Session) × (v.live_session now s.merchant_id c.session_id w ≡ ok (live x)))
          ⊎ ((v.live_session now s.merchant_id c.session_id w ≡ err unavailable)
              × (fail_open s.controls ≡ true)))

  check_live-authorised :
      (c d : Claims) (r : Result SessionResult)
      → check_live v s now c r ≡ authorised d
      → (c ≡ d)
        × (((x : Session) × (r ≡ ok (live x)))
            ⊎ ((r ≡ err unavailable) × (fail_open s.controls ≡ true)))
  unfolding check_live
  check_live-authorised c d (ok no_rows) h = absurd (ground arith)
  check_live-authorised c d (ok wrong_merchant) h = absurd (ground arith)
  check_live-authorised c d (ok session_revoked) h = absurd (ground arith)
  check_live-authorised c d (ok (live x)) h = (ground arith, inl (x, refl))
  check_live-authorised c d (err unavailable) h = elim (Bool-cases (fail_open s.controls)) [
    | inl open_ended ↦ (ground arith, inr (refl, open_ended))
    | inr closed ↦ absurd (ground arith)
  ]
  check_live-authorised c d (err not_found) h = absurd (ground arith)
  check_live-authorised c d (err not_holder) h = absurd (ground arith)
  check_live-authorised c d (err invalid_input) h = absurd (ground arith)
  check_live-authorised c d (err precedence_denied) h = absurd (ground arith)
  check_live-authorised c d (err forbidden) h = absurd (ground arith)
  check_live-authorised c d (err (gone reason successor_id x)) h = absurd (ground arith)

  -- Who may call. Where sessionAuth lets a token in, its claims are the token's own and name this merchant; and either they name no session, or that session is live in the store, or the store was unavailable and the controls fail open.
  pub session_auth-authorised :
      (parse_session : Text → Option Claims) (raw : Text) (w : S) (c : Claims)
      → session_auth v s now parse_session raw w ≡ authorised c
      → (parse_session raw ≡ some c) × (c.merchant_id ≡ s.merchant_id) × Backed c w
  unfolding session_auth own_claims
  session_auth-authorised parse_session raw w c h = elim (Bool-cases (is_empty raw)) [
    | inl blank ↦ absurd (ground arith)
    | inr token ↦ elim (Option-cases (parse_session raw)) [
      | inl bad ↦ absurd (ground arith)
      | inr (d, parsed) ↦ elim (Bool-cases (text_eq d.merchant_id s.merchant_id)) [
        | inr other ↦ absurd (ground arith)
        | inl own ↦
            let merchant = (text_eq_iff d.merchant_id s.merchant_id).0 own in
            elim (Bool-cases (is_empty d.session_id)) [
              | inl nameless ↦
                  let same : d ≡ c = ground arith in
                  subst
                    (λ x.
                      (parse_session raw ≡ some x) × (x.merchant_id ≡ s.merchant_id) × Backed x w)
                    same (parsed, merchant, inl nameless)
              | inr named ↦
                  let (same, backed) =
                    check_live-authorised d c (v.live_session now s.merchant_id d.session_id w)
                      (ground arith) in
                  subst
                    (λ x.
                      (parse_session raw ≡ some x) × (x.merchant_id ≡ s.merchant_id) × Backed x w)
                    same (parsed, merchant, inr backed)
            ]
      ]
    ]
  ]

module _ {ℓ} {S : Type ℓ} (o : TextOps) (v : Services S) (s : Setting) (now : ℕ)
    (sess : Claims) where
  -- An execution is shown to its customer alone.
  pub handle_get-own :
      (x : Text) (w : World S) (e : Execution)
      → handle_get o v s now sess x w ≡ held e
      → e.customer_id ≡ sess.customer_id
  unfolding handle_get
  handle_get-own x w e h = elim (Result-cases (v.get now sess.merchant_id x w.store)) [
    | inr (no_answer, failed) ↦ absurd (ground arith)
    | inl (f, found) ↦ elim (Bool-cases (text_eq f.customer_id sess.customer_id)) [
      | inr other ↦ absurd (ground arith)
      | inl own ↦
          let same : f ≡ e = ground arith in
          subst (λ y. y.customer_id ≡ sess.customer_id) same
            ((text_eq_iff f.customer_id sess.customer_id).0 own)
    ]
  ]
