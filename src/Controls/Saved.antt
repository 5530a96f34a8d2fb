-- ===== src/Controls/Saved.antt =====
-- internal/store/postgres/ops.go: the table runtime_controls, one row for each merchant, and what
-- comes back from it. A database error and the audit row of a change are not here.
use bruiser_gateway.Prelude.{
  ◌≡◌, refl, ap, sym, ◌∙◌, arith, Option, none, some, Bool, true, false, not, ◌&&◌, List, [], ◌∷◌,
  ◌++◌, if◌then◌else◌, ◌==◌, Text, text, text_eq, text_eq_iff, text_eq_refl, is_empty, split_on, ℤ,
  any_where, select_row, inl, inr, Bool-cases,
}
use bruiser_gateway.Resource.{TextOps}
use bruiser_gateway.Controls.{
  RampScope, Controls, empty_scope, mode_dry_run, trim_each, normalize, join_actions, split_actions,
  default_controls,
}
use bruiser_gateway.Controls.Enforced.{clamp_percent-idempotent}

-- encoding/json on a scope. `unmarshal text scope` is what json.Unmarshal leaves in the scope that it is
-- given, an error included.
pub record ScopeJson : Type 0 where
  pub marshal : RampScope → Text
  pub unmarshal : Text → RampScope → RampScope

pub record ControlsRow : Type 0 where
  pub merchant_id : Text
  pub mode : Text
  pub enforcement : Bool
  pub queue_enabled : Bool
  pub max_waiters : ℤ
  pub lease_ttl_seconds : ℤ
  pub fail_closed : Bool
  pub disabled_actions : Text
  pub updated_by : Text
  pub enforce_percent : ℤ
  pub ramp_salt : Text
  pub ramp_scope : Text

unfoldable pub row_of : ScopeJson → Text → Controls → ControlsRow
row_of j merchant_id c = record {
  merchant_id = merchant_id;
  mode = c.mode;
  enforcement = c.enforcement;
  queue_enabled = c.queue_enabled;
  max_waiters = c.max_waiters;
  lease_ttl_seconds = c.lease_ttl_seconds;
  fail_closed = c.fail_closed;
  disabled_actions = join_actions c.disabled_actions;
  updated_by = c.updated_by;
  enforce_percent = c.enforce_percent;
  ramp_salt = c.ramp_salt;
  ramp_scope = j.marshal c.scope;
}

-- insert ... on conflict (merchant_id) do update.
unfoldable pub upsert : ControlsRow → List ControlsRow → List ControlsRow
upsert row [] = row ∷ []
upsert row (r ∷ rows) =
    let rest = upsert row rows in
    if text_eq r.merchant_id row.merchant_id then row ∷ rows else r ∷ rest

-- PutControls: the table after, and the controls that it returns.
unfoldable pub put_controls :
    TextOps → ScopeJson → Text → Controls → List ControlsRow → List ControlsRow × Controls
put_controls o j merchant_id c rows =
    (upsert (row_of j merchant_id (normalize o c)) rows, normalize o c)

-- The error of json.Unmarshal is ignored.
unfoldable pub read_scope : ScopeJson → Text → RampScope
read_scope j s =
    if not (is_empty s) && not (text_eq s (text "{}"))
    then j.unmarshal s empty_scope
    else empty_scope

unfoldable pub of_row : TextOps → ScopeJson → ControlsRow → Controls
of_row o j r = normalize o (record {
  mode = r.mode;
  enforcement = r.enforcement;
  enforce_percent = r.enforce_percent;
  ramp_salt = r.ramp_salt;
  scope = read_scope j r.ramp_scope;
  queue_enabled = r.queue_enabled;
  max_waiters = r.max_waiters;
  lease_ttl_seconds = r.lease_ttl_seconds;
  fail_closed = r.fail_closed;
  disabled_actions = split_actions o r.disabled_actions;
  updated_by = r.updated_by;
})

abbrev answer : TextOps → ScopeJson → Option ControlsRow → Controls × Bool
answer o j none = (default_controls, false)
answer o j (some r) = (of_row o j r, true)

-- GetControls: the controls, or the default ones, and whether a row was found.
unfoldable pub get_controls : TextOps → ScopeJson → Text → List ControlsRow → Controls × Bool
get_controls o j merchant_id rows =
    answer o j (select_row (λ r. text_eq r.merchant_id merchant_id) rows)

-- An action without a comma.
abbrev pub is_one_action : Text → Bool
is_one_action a = not (any_where (λ r. r == 44) a)

split-one : (a : Text) → is_one_action a ≡ true → split_on 44 a ≡ a ∷ []
unfolding split_on any_where
split-one [] h = refl
split-one (c ∷ a) h = ground (arith, split-one a)

split-comma : (a s : Text) → is_one_action a ≡ true → split_on 44 (a ++ 44 ∷ s) ≡ a ∷ split_on 44 s
unfolding split_on any_where
split-comma [] s h = refl
split-comma (c ∷ a) s h = ground (arith, split-comma a s)

split-join :
    (a : Text) (acts : List Text)
    → any_where (λ x. not (is_one_action x)) (a ∷ acts) ≡ false
    → split_on 44 (join_actions (a ∷ acts)) ≡ a ∷ acts
unfolding join_actions any_where
split-join a [] h = split-one a (ground arith)
split-join a (b ∷ acts) h =
    ground (arith, split-comma a (join_actions (b ∷ acts)), split-join b acts)

-- What the functions from elsewhere do: trimming twice is trimming once, and JSON gives back a scope.
pub record Documented (o : TextOps) (j : ScopeJson) : Type 0 where
  pub trims : (s : Text) → o.trim_space (o.trim_space s) ≡ o.trim_space s
  pub scopes : (s : RampScope) → j.unmarshal (j.marshal s) empty_scope ≡ s
  pub braces : j.unmarshal (text "{}") empty_scope ≡ empty_scope
  pub not_blank : (s : RampScope) → is_empty (j.marshal s) ≡ false

module _ (o : TextOps) (trims : (s : Text) → o.trim_space (o.trim_space s) ≡ o.trim_space s) where
  pub trim_each-idempotent : (acts : List Text) → trim_each o (trim_each o acts) ≡ trim_each o acts
  unfolding trim_each
  trim_each-idempotent [] = refl
  trim_each-idempotent (a ∷ acts) = elim (Bool-cases (is_empty (o.trim_space a))) [
    | inl blank ↦ ground (arith, trim_each-idempotent acts)
    | inr full ↦ ground (arith, trims a, trim_each-idempotent acts)
  ]

  pub normalize-idempotent : (c : Controls) → normalize o (normalize o c) ≡ normalize o c
  unfolding normalize text text_eq
  normalize-idempotent c = elim (Bool-cases (text_eq c.mode mode_dry_run)) [
    | inl dry ↦ ground (arith, trim_each-idempotent c.disabled_actions)
    | inr enforced ↦
        ground (
          arith,
          trim_each-idempotent c.disabled_actions,
          clamp_percent-idempotent c.enforce_percent,
        )
  ]

trim_each-first :
    (o : TextOps) (acts : List Text) (a : Text) (rest : List Text)
    → trim_each o acts ≡ a ∷ rest
    → is_empty a ≡ false
unfolding trim_each
trim_each-first o [] a rest h = absurd (ground arith)
trim_each-first o (b ∷ acts) a rest h = elim (Bool-cases (is_empty (o.trim_space b))) [
  | inl blank ↦ trim_each-first o acts a rest (ground arith)
  | inr full ↦ let same : o.trim_space b ≡ a = ground arith in ground arith
]

join-nonempty :
    (a : Text) (acts : List Text) → is_empty a ≡ false → is_empty (join_actions (a ∷ acts)) ≡ false
unfolding join_actions is_empty
join-nonempty [] acts h = absurd (ground arith)
join-nonempty (c ∷ a) [] h = refl
join-nonempty (c ∷ a) (b ∷ acts) h = refl

-- Whether every action of a list is without a comma.
abbrev pub are_actions : List Text → Bool
are_actions acts = not (any_where (λ x. not (is_one_action x)) acts)

split-join_actions :
    (o : TextOps) (acts : List Text)
    → ((a : Text) (rest : List Text) → acts ≡ a ∷ rest → is_empty a ≡ false)
    → are_actions acts ≡ true
    → split_actions o (join_actions acts) ≡ trim_each o acts
unfolding split_actions join_actions trim_each is_empty
split-join_actions o [] first h = refl
split-join_actions o (a ∷ acts) first h =
    ground (arith, join-nonempty a acts (first a acts refl), split-join a acts)

module _ (o : TextOps) (j : ScopeJson) (d : Documented o j) where
  read_scope-marshal : (s : RampScope) → read_scope j (j.marshal s) ≡ s
  unfolding read_scope
  read_scope-marshal s = elim (Bool-cases (text_eq (j.marshal s) (text "{}"))) [
    | inl braces ↦
        let same : j.marshal s ≡ text "{}" = (text_eq_iff (j.marshal s) (text "{}")).0 braces in
        let empty : empty_scope ≡ s =
          sym d.braces ∙ ap (λ x. j.unmarshal x empty_scope) (sym same) ∙ d.scopes s in
        ground (arith, empty)
    | inr other ↦ ground (arith, d.not_blank s, d.scopes s)
  ]

  reread :
      (merchant_id : Text) (e : Controls)
      → split_actions o (join_actions e.disabled_actions) ≡ e.disabled_actions
      → of_row o j (row_of j merchant_id e) ≡ normalize o e
  unfolding of_row row_of
  reread merchant_id e acts = rw (read_scope-marshal e.scope, acts) refl

  normalized-actions :
      (c : Controls)
      → are_actions (trim_each o c.disabled_actions) ≡ true
      → split_actions o (join_actions (normalize o c).disabled_actions)
        ≡ (normalize o c).disabled_actions
  unfolding normalize
  normalized-actions c h =
      split-join_actions o (trim_each o c.disabled_actions) (trim_each-first o c.disabled_actions) h
      ∙ trim_each-idempotent o d.trims c.disabled_actions

  pub of_row-row_of :
      (merchant_id : Text) (c : Controls)
      → are_actions (trim_each o c.disabled_actions) ≡ true
      → of_row o j (row_of j merchant_id (normalize o c)) ≡ normalize o c
  of_row-row_of merchant_id c h =
      reread merchant_id (normalize o c) (normalized-actions c h) ∙ normalize-idempotent o d.trims c

module _ (row : ControlsRow) where
  select-upsert :
      (rows : List ControlsRow)
      → select_row (λ r. text_eq r.merchant_id row.merchant_id) (upsert row rows) ≡ some row
  unfolding upsert select_row
  select-upsert [] = ground (arith, text_eq_refl row.merchant_id)
  select-upsert (r ∷ rows) = ground (arith, text_eq_refl row.merchant_id, select-upsert rows)

  select-upsert_other :
      (m : Text) (rows : List ControlsRow)
      → text_eq row.merchant_id m ≡ false
      → select_row (λ r. text_eq r.merchant_id m) (upsert row rows)
        ≡ select_row (λ r. text_eq r.merchant_id m) rows
  unfolding upsert select_row
  select-upsert_other m [] h = ground arith
  select-upsert_other m (r ∷ rows) h = elim (Bool-cases (text_eq r.merchant_id row.merchant_id)) [
    | inl hit ↦
        let same : r.merchant_id ≡ row.merchant_id =
          (text_eq_iff r.merchant_id row.merchant_id).0 hit in
        ground (arith, ap (λ x. text_eq x m) same)
    | inr miss ↦ ground (arith, select-upsert_other m rows)
  ]

module _ (j : ScopeJson) (merchant_id : Text) (c : Controls) (rows : List ControlsRow) where
  select-own :
      select_row (λ r. text_eq r.merchant_id merchant_id) (upsert (row_of j merchant_id c) rows)
      ≡ some (row_of j merchant_id c)
  unfolding row_of
  select-own = select-upsert (row_of j merchant_id c) rows

  select-other :
      (other : Text)
      → text_eq merchant_id other ≡ false
      → select_row (λ r. text_eq r.merchant_id other) (upsert (row_of j merchant_id c) rows)
        ≡ select_row (λ r. text_eq r.merchant_id other) rows
  unfolding row_of
  select-other other apart = select-upsert_other (row_of j merchant_id c) other rows apart

-- What an operator saves is what the gateways load. After PutControls, GetControls finds for that merchant exactly the controls that PutControls returned, which normalising again leaves as they are, and for any other merchant what it found before, where no disabled action has a comma in it and the functions from elsewhere trim and read JSON as documented.
pub get_controls-put_controls :
    (o : TextOps) (j : ScopeJson) (merchant_id other : Text) (c : Controls)
    (rows : List ControlsRow)
    → Documented o j
    → are_actions (trim_each o c.disabled_actions) ≡ true
    → text_eq merchant_id other ≡ false
    → (get_controls o j merchant_id (put_controls o j merchant_id c rows).0
        ≡ ((put_controls o j merchant_id c rows).1, true))
      × (normalize o (put_controls o j merchant_id c rows).1
          ≡ (put_controls o j merchant_id c rows).1)
      × (get_controls o j other (put_controls o j merchant_id c rows).0
          ≡ get_controls o j other rows)
unfolding get_controls put_controls
get_controls-put_controls o j merchant_id other c rows d acts apart =
    let back = of_row-row_of o j d merchant_id c acts in
    (
      ap (answer o j) (select-own j merchant_id (normalize o c) rows) ∙ ap (λ x. (x, true)) back,
      normalize-idempotent o d.trims c,
      ap (answer o j) (select-other j merchant_id (normalize o c) rows other apart),
    )
