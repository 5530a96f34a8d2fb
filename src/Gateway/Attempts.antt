-- ===== src/Gateway/Attempts.antt =====
-- internal/api/public/server.go, eafAcc: how many requests for a resource came in, and how many were
-- forwarded. The counts are whole numbers, and the maps lists with one entry for a key.
use bruiser_gateway.Prelude.{
  ℕ, ◌+◌, ◌||◌, List, [], ◌∷◌, if◌then◌else◌, Text, text, text_eq, is_empty, any_where, select_row,
  Option, none, some,
}

-- The counters of one resource.
pub record Counts : Type 0 where
  pub attempts : ℕ
  pub forwarded : ℕ
  pub customers : List Text

abbrev pub no_counts : Counts
no_counts = record { attempts = 0; forwarded = 0; customers = [] }

abbrev pub EafAcc : Type 0
EafAcc = List (Text × Counts)

-- The keys of the inner map, with one more.
unfoldable pub add_customer : Text → List Text → List Text
add_customer customer customers =
    if is_empty customer || any_where (text_eq customer) customers
    then customers
    else customer ∷ customers

unfoldable pub count_attempt : Text → Text → Counts → Counts
count_attempt customer outcome c = record {
  attempts = c.attempts + 1;
  forwarded = if text_eq outcome (text "allow") then c.forwarded + 1 else c.forwarded;
  customers = add_customer customer c.customers;
}

unfoldable pub update_counts : Text → (Counts → Counts) → EafAcc → EafAcc
update_counts resource f [] = (resource, f no_counts) ∷ []
update_counts resource f ((r, c) ∷ rest) =
    let others = update_counts resource f rest in
    if text_eq r resource then (r, f c) ∷ rest else (r, c) ∷ others

-- eafAcc.record.
unfoldable pub record_attempt : Text → Text → Text → EafAcc → EafAcc
record_attempt resource customer outcome a =
    if is_empty resource then a else update_counts resource (count_attempt customer outcome) a

abbrev counts_of : Option (Text × Counts) → Counts
counts_of none = no_counts
counts_of (some (r, c)) = c

-- eafAcc.snapshot, whose last count is the number of customers.
unfoldable pub snapshot : Text → EafAcc → Counts
snapshot resource a = counts_of (select_row (λ p. text_eq p.0 resource) a)
