-- ===== src/Outcomes/Stored.antt =====
-- What the statements of internal/store/postgres leave in the table of executions: the row that an
-- operation writes, and the others as they were.
use bruiser_gateway.Prelude.{
  ℕ, suc, min, ◌≤◌, ◌≡◌, ◌⊎◌, refl, sym, ap, subst, arith, Option, some, Bool, true, false, ◌&&◌,
  List, [], ◌∷◌, ◌++◌, Text, text_eq, text_eq_iff, text_eq_refl, ℤ, inl, inr, Bool-cases,
  Option-cases, select_row, select_where, select_row_pos, count_where, count_where_mono,
  update_where, delete_where, any_where,
}
use bruiser_gateway.Lease.{Execution, is_live, ok}
use bruiser_gateway.Store.{
  Db, Session, session, has_id, holder_matches, milliseconds, plus_ms, load_active_for_update,
}
use bruiser_gateway.Store.Acquire.{extend}
use bruiser_gateway.Ledger.Unique.{IsUnique}

-- The row of an execution, as the queries by merchant and id find it.
abbrev pub stored : Text → Text → Db → Option Execution
stored m x db = select_row (λ r. text_eq r.merchant_id m && has_id x r) db.executions

-- The second lease is the first one with a new end: under the same id, domain, customer, holder, fence and state, within the same maximal lifetime, for the given session, and counted.
pub record Extends (now : ℕ) (ttl : ℤ) (session_id : Text) (a e : Execution) : Type 0 where
  pub id : e.id ≡ a.id
  pub merchant_id : e.merchant_id ≡ a.merchant_id
  pub domain_key : e.domain_key ≡ a.domain_key
  pub customer_id : e.customer_id ≡ a.customer_id
  pub principal : e.principal ≡ a.principal
  pub fence : e.fence ≡ a.fence
  pub state : e.state ≡ a.state
  pub max_lifetime_at : e.max_lifetime_at ≡ a.max_lifetime_at
  pub for_session : e.session_id ≡ session_id
  pub counted : e.renew_count ≡ suc a.renew_count
  pub until : e.expires_at ≡ min (plus_ms now (milliseconds ttl)) a.max_lifetime_at

pub extend-Extends :
    (now : ℕ) (ttl : ℤ) (session_id : Text) (a : Execution)
    → Extends now ttl session_id a (extend now ttl session_id a)
unfolding extend
extend-Extends now ttl session_id a = record {
  id = refl;
  merchant_id = refl;
  domain_key = refl;
  customer_id = refl;
  principal = refl;
  fence = refl;
  state = refl;
  max_lifetime_at = refl;
  for_session = refl;
  counted = omega arith;
  until = refl;
}

-- The lease is on record in the second tables, and the rows of other ids are those of the first.
pub record Replaced (e : Execution) (s t : Db) : Type 0 where
  pub found : stored e.merchant_id e.id t ≡ some e
  pub others : delete_where (has_id e.id) t.executions ≡ delete_where (has_id e.id) s.executions

module _ {ℓ} {A : Type ℓ} where
  pub select_row-update_where :
      (q p : A → Bool) (f : A → A) (xs : List A) (x : A)
      → ((r : A) → q (f r) ≡ q r)
      → select_row q xs ≡ some x
      → p x ≡ true
      → select_row q (update_where p f xs) ≡ some (f x)
  unfolding select_row update_where
  select_row-update_where q p f [] x same h k = absurd (ground arith)
  select_row-update_where q p f (y ∷ ys) x same h k = elim (Bool-cases (q y)) [
    | inl here ↦ let e : y ≡ x = ground arith in ground (arith, same y, ap p e, ap f e)
    | inr later ↦ ground (arith, same y, select_row-update_where q p f ys x same)
  ]

  pub select_row-kept :
      (q p : A → Bool) (f : A → A) (xs : List A) (x : A)
      → ((r : A) → q (f r) ≡ q r)
      → select_row q xs ≡ some x
      → p x ≡ false
      → select_row q (update_where p f xs) ≡ some x
  unfolding select_row update_where
  select_row-kept q p f [] x same h k = absurd (ground arith)
  select_row-kept q p f (y ∷ ys) x same h k = elim (Bool-cases (q y)) [
    | inl here ↦ let e : y ≡ x = ground arith in ground (arith, same y, ap p e)
    | inr later ↦ ground (arith, same y, select_row-kept q p f ys x same)
  ]

  pub delete_where-update_where :
      (q p : A → Bool) (f : A → A) (xs : List A)
      → ((r : A) → p r ≡ true → q r ≡ true)
      → ((r : A) → q (f r) ≡ q r)
      → delete_where q (update_where p f xs) ≡ delete_where q xs
  unfolding delete_where update_where
  delete_where-update_where q p f [] sub same = refl
  delete_where-update_where q p f (x ∷ xs) sub same =
      ground (arith, sub x, same x, delete_where-update_where q p f xs sub same)

  pub delete_where-append :
      (q : A → Bool) (xs : List A) (x : A)
      → q x ≡ true
      → delete_where q (xs ++ x ∷ []) ≡ delete_where q xs
  unfolding delete_where
  delete_where-append q [] x h = ground arith
  delete_where-append q (y ∷ ys) x h = ground (arith, delete_where-append q ys x)

  pub delete_where-none :
      (q : A → Bool) (xs : List A) → any_where q xs ≡ false → delete_where q xs ≡ xs
  unfolding delete_where any_where
  delete_where-none q [] h = refl
  delete_where-none q (x ∷ xs) h = ground (arith, delete_where-none q xs)

  pub delete_where-swap :
      (p q : A → Bool) (xs : List A)
      → delete_where p (delete_where q xs) ≡ delete_where q (delete_where p xs)
  unfolding delete_where
  delete_where-swap p q [] = refl
  delete_where-swap p q (x ∷ xs) = ground (arith, delete_where-swap p q xs)

  pub select_row-new :
      (p q : A → Bool) (xs : List A) (x : A)
      → ((r : A) → p r ≡ true → q r ≡ true)
      → any_where q xs ≡ false
      → p x ≡ true
      → select_row p (xs ++ x ∷ []) ≡ some x
  unfolding select_row any_where
  select_row-new p q [] x sub new h = ground arith
  select_row-new p q (y ∷ ys) x sub new h = ground (arith, sub y, select_row-new p q ys x sub)

  -- Where one row at most has q, a row that has p and q is the one that q finds.
  pub select_row-only :
      (p q : A → Bool) (xs : List A) (x : A)
      → count_where q xs ≤ 1
      → select_row p xs ≡ some x
      → q x ≡ true
      → select_row q xs ≡ some x
  unfolding select_row count_where
  select_row-only p q [] x one h k = absurd (ground arith)
  select_row-only p q (y ∷ ys) x one h k = elim (Bool-cases (p y)) [
    | inl here ↦ let e : y ≡ x = ground arith in ground (arith, ap q e)
    | inr later ↦
        let found : select_row p ys ≡ some x = ground arith in
        let more : 1 ≤ count_where (λ z. p z && q z) ys = select_row_pos p q ys found k in
        let most : count_where (λ z. p z && q z) ys ≤ count_where q ys =
          count_where_mono (λ z. p z && q z) q ys (λ z e. ground arith) in
        ground (arith, select_row-only p q ys x)
  ]

  pub select_row-select_where :
      (p q : A → Bool) (xs : List A)
      → select_row p (select_where q xs) ≡ select_row (λ x. q x && p x) xs
  unfolding select_row select_where
  select_row-select_where p q [] = refl
  select_row-select_where p q (x ∷ xs) = ground (arith, select_row-select_where p q xs)

  pub select_row-prefix :
      (p : A → Bool) (xs : List A) (x y : A)
      → select_row p xs ≡ some x
      → select_row p (xs ++ y ∷ []) ≡ some x
  unfolding select_row
  select_row-prefix p [] x y h = absurd (ground arith)
  select_row-prefix p (z ∷ zs) x y h = ground (arith, select_row-prefix p zs x y)

  pub any_where-found :
      (p q : A → Bool) (xs : List A) (x : A)
      → select_row p xs ≡ some x
      → q x ≡ true
      → any_where q xs ≡ true
  unfolding select_row any_where
  any_where-found p q [] x h k = absurd (ground arith)
  any_where-found p q (y ∷ ys) x h k = elim (Bool-cases (p y)) [
    | inl here ↦ let e : y ≡ x = ground arith in ground (arith, ap q e)
    | inr later ↦ ground (arith, any_where-found p q ys x)
  ]

  pub select_row-true : (p : A → Bool) (xs : List A) (x : A) → select_row p xs ≡ some x → p x ≡ true
  unfolding select_row
  select_row-true p [] x h = absurd (ground arith)
  select_row-true p (y ∷ ys) x h = elim (Bool-cases (p y)) [
    | inl here ↦ let e : y ≡ x = ground arith in subst (λ z. p z ≡ true) e here
    | inr later ↦ select_row-true p ys x (ground arith)
  ]

-- The id and the merchant of a row that a query has found.
pub stored-keys :
    (m x : Text) (s : Db) (e : Execution) → stored m x s ≡ some e → (e.merchant_id ≡ m) × (e.id ≡ x)
unfolding has_id
stored-keys m x s e h =
    let both = select_row-true (λ r. text_eq r.merchant_id m && text_eq r.id x) s.executions e h in
    ground (arith, both, text_eq_iff e.merchant_id m, text_eq_iff e.id x)

pub stored-own :
    (p : Execution → Bool) (s : Db) (a : Execution)
    → IsUnique s.executions
    → select_row p s.executions ≡ some a
    → stored a.merchant_id a.id s ≡ some a
unfolding has_id
stored-own p s a unique h =
    let q = λ (r : Execution). text_eq r.merchant_id a.merchant_id && text_eq r.id a.id in
    let few : count_where q s.executions ≤ count_where (has_id a.id) s.executions =
      count_where_mono q (has_id a.id) s.executions (λ r e. ground arith) in
    select_row-only p q s.executions a (omega (arith, few, unique a.id)) h
      (ground (arith, text_eq_refl a.merchant_id, text_eq_refl a.id))

-- An update that keeps ids and merchants, of the row of `a` and no row of another id.
pub update-Replaced :
    (p : Execution → Bool) (f : Execution → Execution) (a : Execution) (s t : Db)
    → ((r : Execution) → (f r).id ≡ r.id)
    → ((r : Execution) → (f r).merchant_id ≡ r.merchant_id)
    → ((r : Execution) → p r ≡ true → has_id a.id r ≡ true)
    → p a ≡ true
    → stored a.merchant_id a.id s ≡ some a
    → t.executions ≡ update_where p f s.executions
    → Replaced (f a) s t
unfolding has_id
update-Replaced p f a s t id merchant sub hit found after =
    let q = λ (r : Execution). text_eq r.merchant_id a.merchant_id && text_eq r.id a.id in
    let row : select_row q (update_where p f s.executions) ≡ some (f a) =
      select_row-update_where q p f s.executions a (λ r. rw (id r, merchant r) refl) found hit in
    let rest =
      delete_where-update_where (λ (r : Execution). text_eq r.id a.id) p f s.executions sub
        (λ r. rw (id r) refl) in
    let with_id : select_row (λ r. text_eq r.merchant_id a.merchant_id && text_eq r.id (f a).id)
          t.executions
        ≡ some (f a) =
      subst
        (λ x.
          select_row (λ r. text_eq r.merchant_id a.merchant_id && text_eq r.id x) t.executions
          ≡ some (f a))
        (sym (id a)) (subst (λ rows. select_row q rows ≡ some (f a)) (sym after) row) in
    record {
      found =
          subst
            (λ m.
              select_row (λ r. text_eq r.merchant_id m && text_eq r.id (f a).id) t.executions
              ≡ some (f a))
            (sym (merchant a)) with_id;
      others = rw (id a, after) rest;
    }

-- A live row is the one that loadActiveForUpdate loads.
pub load_active_for_update-stored :
    (now : ℕ) (m x : Text) (s : Db) (e : Execution)
    → stored m x s ≡ some e
    → is_live now e ≡ true
    → load_active_for_update now m x s ≡ ok e
unfolding load_active_for_update is_live
load_active_for_update-stored now m x s e found live = ground arith

-- The session is the lease's own, or one of the same merchant, customer and principal.
abbrev pub Holder : Execution → Text → Db → Type 0
Holder e session_id s =
    (e.session_id ≡ session_id)
    ⊎ ((c : Session) × (session session_id s ≡ some c)
        × (c.merchant_id ≡ e.merchant_id)
        × (c.customer_id ≡ e.customer_id)
        × (c.principal_type ≡ e.principal.type)
        × (c.principal_id ≡ e.principal.id))

pub holder_matches-Holder :
    (e : Execution) (session_id : Text) (s : Db)
    → holder_matches e session_id s ≡ ok tt
    → Holder e session_id s
unfolding holder_matches
holder_matches-Holder e session_id s h = elim (Bool-cases (text_eq e.session_id session_id)) [
  | inl own ↦ inl ((text_eq_iff e.session_id session_id).0 own)
  | inr other ↦ elim (Option-cases (session session_id s)) [
    | inl none_such ↦ absurd (ground arith)
    | inr (c, found) ↦ inr (
      c,
      found,
      ground (arith, text_eq_iff c.merchant_id e.merchant_id),
      ground (arith, text_eq_iff c.customer_id e.customer_id),
      ground (arith, text_eq_iff c.principal_type e.principal.type),
      ground (arith, text_eq_iff c.principal_id e.principal.id),
    )
  ]
]

pub Holder-holder_matches :
    (e : Execution) (session_id : Text) (s : Db)
    → Holder e session_id s
    → holder_matches e session_id s ≡ ok tt
unfolding holder_matches
Holder-holder_matches e session_id s (inl own) = ground (arith, text_eq_iff e.session_id session_id)
Holder-holder_matches e session_id s (inr (c, found, m, k, t, i)) = ground (
  arith,
  text_eq_iff c.merchant_id e.merchant_id,
  text_eq_iff c.customer_id e.customer_id,
  text_eq_iff c.principal_type e.principal.type,
  text_eq_iff c.principal_id e.principal.id,
)
