-- ===== src/Gateway/Forwarded.antt =====
-- The reserved headers of the request that internal/api/public/proxy.go sends to the origin.
use bruiser_gateway.Prelude.{
  ℕ, ◌≡◌, sym, ap, ◌∙◌, arith, not, ◌&&◌, Bool, true, [], Text, text, is_empty, Bool-cases, inl,
  inr, Option, ◌⊎◌,
}
use bruiser_gateway.Lease.{Execution}
use bruiser_gateway.Resource.{TextOps}
use bruiser_gateway.Gateway.{Services, World, Setting}
use bruiser_gateway.Gateway.Admission.{Admission, AdmitInput, allows}
use bruiser_gateway.Gateway.Admit.{admit}
use bruiser_gateway.Gateway.Proxy.{
  exe_id, Headers, set_unless_empty, strip_each, copied, forwarded, customer_of, after_admit, proxy,
  connections, delete_keys, named_in, reverse_proxy,
}
use bruiser_gateway.Gateway.Stripped.{
  reserved, AreCanonical, strip_each-none, reserved-set_unless_empty, own_keys,
}
use bruiser_gateway.Gateway.Hops.{
  reserved-copied, connections-set_unless_empty, connections-copied, connections-strip_each,
  reserved-reverse_proxy,
}

module _ {ℓ} {S : Type ℓ} (o : TextOps) (v : Services S) (s : Setting)
    (sign_execution : Execution → Option Text) (canonical_key : Text → Text) (take : Text → Bool)
    (decimal : ℕ → Text) (origin_secret : Text) (now : ℕ) where
  -- What admit answers in the proxy.
  abbrev pub answer : AdmitInput → World S → Admission
  answer i w = (admit o v s sign_execution now i w).1

  -- What the gateway sets, for the answer of admit.
  abbrev pub own_headers : AdmitInput → World S → Headers
  own_headers i w =
      set_unless_empty (text "X-Bruiser-Origin-Secret") origin_secret
        (copied decimal (customer_of i) (answer i w) [])

  reserved-sent :
      (i : AdmitInput) (hs : Headers) (w : World S)
      → AreCanonical canonical_key hs
      → reserved (
          reverse_proxy canonical_key (
            set_unless_empty
              (text "X-Bruiser-Origin-Secret")
              origin_secret
              (copied decimal (customer_of i) (answer i w) (strip_each canonical_key hs hs))))
        ≡ delete_keys (named_in canonical_key (connections hs)) (own_headers i w)
  reserved-sent i hs w c =
      let left = strip_each canonical_key hs hs in
      let lease = copied decimal (customer_of i) (answer i w) in
      let secret = set_unless_empty (text "X-Bruiser-Origin-Secret") origin_secret in
      let kept : reserved (secret (lease left)) ≡ secret (lease []) =
        reserved-set_unless_empty (text "X-Bruiser-Origin-Secret") origin_secret (lease left)
          (own_keys origin_secret).3
        ∙ ap secret (
            reserved-copied decimal (customer_of i) (answer i w) left
            ∙ ap lease (strip_each-none canonical_key hs c)) in
      let named : connections (secret (lease left)) ≡ connections hs =
        connections-set_unless_empty (text "X-Bruiser-Origin-Secret") origin_secret (lease left)
          (own_keys origin_secret).3
        ∙ connections-copied decimal (customer_of i) (answer i w) left
        ∙ connections-strip_each canonical_key hs hs in
      reserved-reverse_proxy canonical_key (secret (lease left))
      ∙ ap (λ x. delete_keys (named_in canonical_key x) (reserved (secret (lease left)))) named
      ∙ ap (delete_keys (named_in canonical_key (connections hs))) kept

  -- A request reaches the origin only where admit lets it through and, under a lease, the limiter takes it. Its headers with the gateway's prefix are then those that the gateway set, the lease's token, fence and customer and the origin's secret where not empty, less those that the client's own header Connection names, which ReverseProxy deletes; none is the client's. The client's keys are taken to be in canonical form, as net/http reads them.
  pub proxy-reserved :
      (i : AdmitInput) (hs out : Headers) (w : World S)
      → AreCanonical canonical_key hs
      → (proxy o v s sign_execution canonical_key take decimal origin_secret now i hs w).1
        ≡ forwarded out
      → (allows (answer i w) ≡ true)
        × ((is_empty (exe_id (answer i w)) ≡ true) ⊎ (take (exe_id (answer i w)) ≡ true))
        × (reserved out ≡ delete_keys (named_in canonical_key (connections hs)) (own_headers i w))
  unfolding proxy after_admit
  proxy-reserved i hs out w c h = elim (Bool-cases (allows (answer i w))) [
    | inr barred ↦ absurd (ground arith)
    | inl free ↦
        elim (Bool-cases
          (not (is_empty (exe_id (answer i w))) && not (take (exe_id (answer i w))))) [
            | inl slow ↦ absurd (ground arith)
            | inr taken ↦
                let sent : reverse_proxy canonical_key (
                      set_unless_empty (text "X-Bruiser-Origin-Secret") origin_secret (
                        copied decimal (customer_of i) (answer i w)
                          (strip_each canonical_key hs hs)))
                    ≡ out =
                  ground arith in
                (free, ground arith, ap reserved (sym sent) ∙ reserved-sent i hs w c)
          ]
  ]
