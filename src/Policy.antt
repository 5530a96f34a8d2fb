-- ===== src/Policy.antt =====
-- internal/policy/policy.go: a merchant's policy, compiled, and what it decides of a request. Reading
-- YAML is a library's work; a document is where it starts. A failed compilation has no text here.
pub mod Compile
pub mod Evaluate
pub mod Bounds
pub mod Decisions
pub mod Safety
use bruiser_gateway.Prelude.{
  ℕ, Option, none, some, Bool, true, false, not, ◌&&◌, ◌||◌, List, [], ◌∷◌, ◌++◌, if◌then◌else◌,
  ltb, ◌==◌, Text, text, text_eq, is_empty, ℤ, pos, ltbℤ, lebℤ, any_where, select_row, length,
}
use bruiser_gateway.Resource.{
  TextOps, Canonised, canonical_id, malformed, unknown_resource, canonical,
}
use bruiser_gateway.Store.Promote.{at_least_one}

pub record Budget : Type 0 where
  pub max_ops : ℤ
  pub max_protected : ℤ
  pub max_basket : ℤ
  pub max_alloc : ℤ
  pub max_checkout : ℤ

pub record Waiting : Type 0 where
  pub mode : Text
  pub max_waiters : ℤ

pub record Match : Type 0 where
  pub action : List Text
  pub resource_prefix : Text

pub record Rule : Type 0 where
  pub name : Text
  pub match_on : Match
  pub scope : List Text
  pub max_active : ℤ
  pub lease_ttl : Text
  pub max_lifetime : Text
  pub precedence : List Text
  pub control : Text
  pub on_missing_anchor : Text
  pub waiting : Waiting
  pub budget : Budget

pub record Defaults : Type 0 where
  pub lease_ttl : Text
  pub max_lifetime : Text
  pub session_ttl : Text
  pub principal_types : List Text

pub record Document : Type 0 where
  pub version : ℤ
  pub merchant : Text
  pub defaults : Defaults
  pub domains : List Rule
  pub fallback : Text

pub record Request : Type 0 where
  pub merchant_id : Text
  pub customer_id : Text
  pub principal_type : Text
  pub resource : Text
  pub action : Text
  pub anchors : List (Text × Text)

pub record CompiledRule : Type 0 where
  pub rule : Rule
  pub ttl : ℤ
  pub lifetime : ℤ

-- Compiled, with what Evaluate reads.
pub record Compiled : Type 0 where
  pub rules : List CompiledRule
  pub allows_uncontrolled : Bool

pub record Terms : Type 0 where
  pub domain_key : Text
  pub max_active : ℤ
  pub ttl : ℤ
  pub max_lifetime : ℤ
  pub precedence : List Text
  pub max_waiters : ℤ
  pub max_ops : ℤ

-- Decision: its flags ControlNone and Denied as constructors.
pub data Decision : Type 0 where
  uncontrolled : (rule_name : Text) → Decision
  denied : (rule_name reason : Text) → Decision
  leased : (rule_name : Text) → Terms → Decision

abbrev larger : ℤ → ℤ → ℤ
larger v n = if ltbℤ n v then v else n

unfoldable pub max_of : Budget → ℤ
max_of b =
    let n =
      larger b.max_checkout
        (larger b.max_alloc (larger b.max_basket (larger b.max_protected b.max_ops))) in
    if ltbℤ n (pos 0) then pos 0 else n

unfoldable pub has_prefix : Text → Text → Bool
has_prefix [] s = true
has_prefix (c ∷ p) [] = false
has_prefix (c ∷ p) (d ∷ s) = c == d && has_prefix p s

unfoldable pub drop_prefix : Text → Text → Text
drop_prefix [] s = s
drop_prefix (c ∷ p) [] = []
drop_prefix (c ∷ p) (d ∷ s) = drop_prefix p s

unfoldable pub is_uncontrolled : Rule → Bool
is_uncontrolled r = text_eq r.control (text "none")

unfoldable pub falls_through : Rule → Bool
falls_through r = text_eq r.on_missing_anchor (text "fallthrough")

infixl 5 ◌>>=◌
abbrev pub ◌>>=◌ {ℓ κ} : {A : Type ℓ} {B : Type κ} → Option A → (A → Option B) → Option B
none >>= f = none
some a >>= f = f a
