-- ===== src/Gateway/Proxy.antt =====
-- internal/api/public/proxy.go: the request that the origin gets. A header is a list of keys with their
-- values; a key that has several values stands in it several times.
use bruiser_gateway.Prelude.{
  ℕ, Option, none, some, not, ◌&&◌, Bool, List, [], ◌∷◌, ◌++◌, if◌then◌else◌, Text, text, text_eq,
  is_empty, delete_where, select_where, split_on, ◌==◌, ◌||◌,
}
use bruiser_gateway.Lease.{Execution}
use bruiser_gateway.Resource.{TextOps}
use bruiser_gateway.Policy.{has_prefix}
use bruiser_gateway.Gateway.{Services, World, Setting}
use bruiser_gateway.Gateway.Admission.{Admission, admitted, AdmitInput, allows}
use bruiser_gateway.Gateway.Admit.{admit}

abbrev pub Headers : Type 0
Headers = List (Text × Text)

abbrev pub has_key : Text → Text × Text → Bool
has_key key h = text_eq h.0 key

unfoldable pub is_reserved : Text × Text → Bool
is_reserved h = has_prefix (text "X-Bruiser-") h.0

-- Header.Set, of a key in canonical form.
unfoldable pub set : Text → Text → Headers → Headers
set key value hs = delete_where (has_key key) hs ++ (key, value) ∷ []

unfoldable pub set_unless_empty : Text → Text → Headers → Headers
set_unless_empty key value hs = if is_empty value then hs else set key value hs

-- The loop that deletes the reserved headers of the keys, each key in canonical form being deleted.
unfoldable pub strip_each : (Text → Text) → Headers → Headers → Headers
strip_each canonical_key [] hs = hs
strip_each canonical_key (h ∷ keys) hs =
    let key = canonical_key h.0 in
    strip_each canonical_key keys
      (if is_reserved (key, h.1) then delete_where (has_key key) hs else hs)

-- The headers of admit that ProxyHandler copies.
unfoldable pub copied : (ℕ → Text) → (customer_id : Text) → Admission → Headers → Headers
copied decimal customer_id (admitted e token) hs =
    set_unless_empty (text "X-Bruiser-Customer") customer_id (
      set_unless_empty (text "X-Bruiser-Fence") (decimal e.fence)
        (set_unless_empty (text "X-Bruiser-Execution") token hs))
copied decimal customer_id _ hs = hs

-- Text of the lease whose rate is taken, or the empty one.
unfoldable pub exe_id : Admission → Text
exe_id (admitted e token) = e.id
exe_id _ = []

pub data Proxied : Type 0 where
  answered : Admission → Proxied
  throttled : Proxied
  forwarded : Headers → Proxied

abbrev pub customer_of : AdmitInput → Text
customer_of i = elim i.customer [ none ↦ [] | some c ↦ c.customer_id ]

-- textproto.TrimString.
abbrev is_blank : ℕ → Bool
is_blank r = r == 32 || r == 9 || r == 10 || r == 13

unfoldable pub trim_start : Text → Text
trim_start [] = []
trim_start (r ∷ s) = let rest = trim_start s in if is_blank r then rest else r ∷ s

unfoldable pub trim_end : Text → Text
trim_end [] = []
trim_end (r ∷ s) = let rest = trim_end s in if is_empty rest && is_blank r then [] else r ∷ rest

-- The keys that parts of a value of Connection name, in canonical form.
unfoldable pub named_keys : (Text → Text) → List Text → List Text
named_keys canonical_key [] = []
named_keys canonical_key (p ∷ ps) =
    let rest = named_keys canonical_key ps in
    let key = trim_end (trim_start p) in if is_empty key then rest else canonical_key key ∷ rest

unfoldable pub named_in : (Text → Text) → Headers → List Text
named_in canonical_key [] = []
named_in canonical_key (h ∷ hs) =
    named_keys canonical_key (split_on 44 h.1) ++ named_in canonical_key hs

abbrev pub connections : Headers → Headers
connections hs = select_where (has_key (text "Connection")) hs

unfoldable pub delete_keys : List Text → Headers → Headers
delete_keys [] hs = hs
delete_keys (k ∷ ks) hs = delete_keys ks (delete_where (has_key k) hs)

-- hopHeaders of net/http/httputil.
abbrev pub hop_headers : List Text
hop_headers =
    text "Connection"
    ∷ text "Proxy-Connection"
    ∷ text "Keep-Alive"
    ∷ text "Proxy-Authenticate"
    ∷ text "Proxy-Authorization"
    ∷ text "Te"
    ∷ text "Trailer"
    ∷ text "Transfer-Encoding"
    ∷ text "Upgrade"
    ∷ []

-- What ReverseProxy deletes after its Director: the headers that Connection names, then those that
-- hold for one hop. What it adds (X-Forwarded-For, User-Agent, and Te and Upgrade again) is left out.
unfoldable pub reverse_proxy : (Text → Text) → Headers → Headers
reverse_proxy canonical_key hs =
    delete_keys hop_headers (delete_keys (named_in canonical_key (connections hs)) hs)

-- From the answer of admit on: `take` is the answer of the limiter, and `decimal` writes a fence.
unfoldable pub after_admit :
    (canonical_key : Text → Text) (take : Text → Bool) (decimal : ℕ → Text)
    (origin_secret customer_id : Text)
    → Headers
    → Admission
    → Proxied
after_admit canonical_key take decimal origin_secret customer_id hs a =
    if not (allows a)
    then answered a
    else if not (is_empty (exe_id a)) && not (take (exe_id a))
    then throttled
    else forwarded (
        reverse_proxy canonical_key (
          set_unless_empty (text "X-Bruiser-Origin-Secret") origin_secret
            (copied decimal customer_id a hs)))

module _ {ℓ} {S : Type ℓ} (o : TextOps) (v : Services S) (s : Setting)
    (sign_execution : Execution → Option Text) (canonical_key : Text → Text) (take : Text → Bool)
    (decimal : ℕ → Text) (origin_secret : Text) where
  -- ProxyHandler; the limiter is asked in the state that it is in.
  unfoldable pub proxy : ℕ → AdmitInput → Headers → World S → World S × Proxied
  proxy now i hs w =
      let (w', a) = admit o v s sign_execution now i w in
      (
        w',
        after_admit canonical_key take decimal origin_secret (customer_of i)
            (strip_each canonical_key hs hs) a,
      )
