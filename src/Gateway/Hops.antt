-- ===== src/Gateway/Hops.antt =====
-- The headers that net/http/httputil deletes of the request that internal/api/public/proxy.go gives it.
use bruiser_gateway.Prelude.{
  ℕ, ◌≡◌, refl, sym, ap, subst, ◌∙◌, arith, Bool, true, false, List, [], ◌∷◌, Text, text,
  text_eq_refl, text_eq_iff, is_empty, select_where, delete_where, any_where, Bool-cases, inl, inr,
  ◌⊎◌,
}
use bruiser_gateway.Policy.{has_prefix}
use bruiser_gateway.Lease.{Execution}
use bruiser_gateway.Gateway.Admission.{
  Admission, admitted, unmatched_route, unrouted, no_session, no_resource, bad_resource,
  uncontrolled_route, uncontrolled_rule, refused, observed, failed_open, unsigned, over_budget,
  store_failed, in_queue, held_by, not_granted,
}
use bruiser_gateway.Gateway.Proxy.{
  Headers, has_key, is_reserved, set, set_unless_empty, strip_each, copied, connections,
  delete_keys, named_in, hop_headers, reverse_proxy,
}
use bruiser_gateway.Gateway.Stripped.{
  select_where-delete_where, select_where-++, ++-nil, reserved, reserved-set_unless_empty, own_keys,
}

-- What is copied is the headers of a lease, or nothing.
copied-cases :
    (decimal : ℕ → Text) (customer_id : Text) (a : Admission)
    → ((e : Execution) × (token : Text) × (a ≡ admitted e token))
      ⊎ ((hs : Headers) → copied decimal customer_id a hs ≡ hs)
unfolding copied
copied-cases decimal customer_id (admitted e token) = inl (e, token, refl)
copied-cases decimal customer_id unmatched_route = inr (λ hs. refl)
copied-cases decimal customer_id unrouted = inr (λ hs. refl)
copied-cases decimal customer_id no_session = inr (λ hs. refl)
copied-cases decimal customer_id no_resource = inr (λ hs. refl)
copied-cases decimal customer_id bad_resource = inr (λ hs. refl)
copied-cases decimal customer_id (uncontrolled_route action) = inr (λ hs. refl)
copied-cases decimal customer_id (uncontrolled_rule rule_name) = inr (λ hs. refl)
copied-cases decimal customer_id (refused reason rule_name) = inr (λ hs. refl)
copied-cases decimal customer_id (observed would reason) = inr (λ hs. refl)
copied-cases decimal customer_id failed_open = inr (λ hs. refl)
copied-cases decimal customer_id unsigned = inr (λ hs. refl)
copied-cases decimal customer_id over_budget = inr (λ hs. refl)
copied-cases decimal customer_id (store_failed e) = inr (λ hs. refl)
copied-cases decimal customer_id (in_queue b q) = inr (λ hs. refl)
copied-cases decimal customer_id (held_by b) = inr (λ hs. refl)
copied-cases decimal customer_id (not_granted reason) = inr (λ hs. refl)

-- The headers with a lease's token, fence and customer.
abbrev with_lease : Text → Text → Text → Headers → Headers
with_lease customer_id fence token hs = set_unless_empty (text "X-Bruiser-Customer") customer_id (
    set_unless_empty (text "X-Bruiser-Fence") fence
      (set_unless_empty (text "X-Bruiser-Execution") token hs))

reserved-with_lease :
    (customer_id fence token : Text) (hs : Headers)
    → reserved (with_lease customer_id fence token hs)
      ≡ with_lease customer_id fence token (reserved hs)
reserved-with_lease customer_id fence token hs = ground (
  arith,
  own_keys customer_id,
  own_keys fence,
  own_keys token,
  reserved-set_unless_empty (text "X-Bruiser-Customer") customer_id (
      set_unless_empty (text "X-Bruiser-Fence") fence
        (set_unless_empty (text "X-Bruiser-Execution") token hs)),
  reserved-set_unless_empty (text "X-Bruiser-Fence") fence
      (set_unless_empty (text "X-Bruiser-Execution") token hs),
  reserved-set_unless_empty (text "X-Bruiser-Execution") token hs,
)

pub reserved-copied :
    (decimal : ℕ → Text) (customer_id : Text) (a : Admission) (hs : Headers)
    → reserved (copied decimal customer_id a hs) ≡ copied decimal customer_id a (reserved hs)
unfolding copied
reserved-copied decimal customer_id a hs = elim (copied-cases decimal customer_id a) [
  | inr none_set ↦ ap reserved (none_set hs) ∙ sym (none_set (reserved hs))
  | inl (e, token, lease) ↦
      subst
        (λ b.
          reserved (copied decimal customer_id b hs) ≡ copied decimal customer_id b (reserved hs))
        (sym lease) (reserved-with_lease customer_id (decimal e.fence) token hs)
]

-- A header of the one kind is of no other, so its deletion leaves the others.
delete_where-apart :
    (p q : Text × Text → Bool) (hs : Headers)
    → ((h : Text × Text) → q h ≡ true → p h ≡ false)
    → delete_where p (select_where q hs) ≡ select_where q hs
unfolding delete_where select_where
delete_where-apart p q [] apart = refl
delete_where-apart p q (h ∷ hs) apart = ground (arith, apart h, delete_where-apart p q hs apart)

connection-free : (value : Text) → is_reserved (text "Connection", value) ≡ false
unfolding is_reserved has_prefix text
connection-free value = refl

is_reserved-key :
    (k : Text) (h : Text × Text) → has_key k h ≡ true → is_reserved h ≡ is_reserved (k, h.1)
is_reserved-key k h hit = ap (λ x. is_reserved (x, h.1)) ((text_eq_iff h.0 k).0 hit)

is_reserved-value : (k v w : Text) → is_reserved (k, v) ≡ is_reserved (k, w)
unfolding is_reserved
is_reserved-value k v w = refl

-- Connection is no reserved key.
connection-apart :
    (k v : Text) (h : Text × Text)
    → is_reserved (k, v) ≡ true
    → has_key (text "Connection") h ≡ true
    → has_key k h ≡ false
connection-apart k v h kept hit = elim (Bool-cases (has_key k h)) [
  | inr other ↦ other
  | inl same ↦ absurd (
      ground (
        arith,
        is_reserved-key k h same,
        is_reserved-key (text "Connection") h hit,
        is_reserved-value k v h.1,
        connection-free h.1,
      ))
]

connections-delete :
    (k v : Text) (hs : Headers)
    → is_reserved (k, v) ≡ true
    → connections (delete_where (has_key k) hs) ≡ connections hs
connections-delete k v hs kept =
    select_where-delete_where (has_key (text "Connection")) (has_key k) hs
    ∙ delete_where-apart (has_key k) (has_key (text "Connection")) hs
        (λ h. connection-apart k v h kept)

pub connections-set_unless_empty :
    (k v : Text) (hs : Headers)
    → is_reserved (k, v) ≡ true
    → connections (set_unless_empty k v hs) ≡ connections hs
unfolding set_unless_empty set select_where
connections-set_unless_empty k v hs kept = elim (Bool-cases (is_empty v)) [
  | inl blank ↦ ground arith
  | inr given ↦
      let other : has_key (text "Connection") (k, v) ≡ false =
        elim (Bool-cases (has_key (text "Connection") (k, v))) [
          | inr apart ↦ apart
          | inl hit ↦ absurd (ground (arith, connection-apart k v (k, v) kept hit, text_eq_refl k))
        ] in
      ground (
        arith,
        select_where-++ (has_key (text "Connection")) (delete_where (has_key k) hs) ((k, v) ∷ []),
        connections-delete k v hs kept,
        ++-nil (connections (delete_where (has_key k) hs)),
      )
]

pub connections-copied :
    (decimal : ℕ → Text) (customer_id : Text) (a : Admission) (hs : Headers)
    → connections (copied decimal customer_id a hs) ≡ connections hs
unfolding copied
connections-copied decimal customer_id a hs = elim (copied-cases decimal customer_id a) [
  | inr none_set ↦ ap connections (none_set hs)
  | inl (e, token, lease) ↦
      let x = set_unless_empty (text "X-Bruiser-Execution") token hs in
      let f = set_unless_empty (text "X-Bruiser-Fence") (decimal e.fence) x in
      ap (λ b. connections (copied decimal customer_id b hs)) lease
      ∙ connections-set_unless_empty (text "X-Bruiser-Customer") customer_id f
          (own_keys customer_id).0
      ∙ connections-set_unless_empty (text "X-Bruiser-Fence") (decimal e.fence) x
          (own_keys (decimal e.fence)).1
      ∙ connections-set_unless_empty (text "X-Bruiser-Execution") token hs (own_keys token).2
]

pub connections-strip_each :
    (canonical_key : Text → Text) (keys hs : Headers)
    → connections (strip_each canonical_key keys hs) ≡ connections hs
unfolding strip_each
connections-strip_each canonical_key [] hs = refl
connections-strip_each canonical_key (k ∷ keys) hs = ground (
  arith,
  connections-strip_each canonical_key keys hs,
  connections-strip_each canonical_key keys (delete_where (has_key (canonical_key k.0)) hs),
  connections-delete (canonical_key k.0) k.1 hs,
)

reserved-delete_keys :
    (keys : List Text) (hs : Headers)
    → reserved (delete_keys keys hs) ≡ delete_keys keys (reserved hs)
unfolding delete_keys
reserved-delete_keys [] hs = refl
reserved-delete_keys (k ∷ keys) hs =
    reserved-delete_keys keys (delete_where (has_key k) hs)
    ∙ ap (delete_keys keys) (select_where-delete_where is_reserved (has_key k) hs)

key-apart :
    (k : Text) (h : Text × Text)
    → is_reserved (k, []) ≡ false
    → is_reserved h ≡ true
    → has_key k h ≡ false
key-apart k h free kept = elim (Bool-cases (has_key k h)) [
  | inr other ↦ other
  | inl same ↦ absurd (ground (arith, is_reserved-key k h same, is_reserved-value k [] h.1))
]

-- Keys of which none is reserved delete no reserved header.
delete_keys-reserved :
    (keys : List Text) (hs : Headers)
    → any_where (λ k. is_reserved (k, [])) keys ≡ false
    → delete_keys keys (reserved hs) ≡ reserved hs
unfolding delete_keys any_where
delete_keys-reserved [] hs none_kept = refl
delete_keys-reserved (k ∷ keys) hs none_kept =
    let kept : delete_where (has_key k) (reserved hs) ≡ reserved hs =
      delete_where-apart (has_key k) is_reserved hs (λ h. key-apart k h (ground arith)) in
    ap (delete_keys keys) kept ∙ delete_keys-reserved keys hs (ground arith)

hop_headers-free : any_where (λ k. is_reserved (k, [])) hop_headers ≡ false
unfolding is_reserved has_prefix text any_where
hop_headers-free = refl

-- ReverseProxy deletes the reserved headers that Connection names, and no other.
pub reserved-reverse_proxy :
    (canonical_key : Text → Text) (hs : Headers)
    → reserved (reverse_proxy canonical_key hs)
      ≡ delete_keys (named_in canonical_key (connections hs)) (reserved hs)
unfolding reverse_proxy
reserved-reverse_proxy canonical_key hs =
    let named = delete_keys (named_in canonical_key (connections hs)) hs in
    reserved-delete_keys hop_headers named
    ∙ delete_keys-reserved hop_headers named hop_headers-free
    ∙ reserved-delete_keys (named_in canonical_key (connections hs)) hs
