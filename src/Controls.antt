-- ===== src/Controls.antt =====
-- internal/ops/controls.go and ramp.go: the operator's runtime controls, and which customers the ramp
-- enforces. Strings are lists of runes; the ramp's hash reads their UTF-8 bytes.
pub mod Hash
pub mod Enforced
pub mod Raised
pub mod Saved
pub mod Changed
use bruiser_gateway.Prelude.{
  ℕ, ◌+◌, ◌%◌, Bool, true, false, not, ◌&&◌, ◌||◌, List, [], ◌∷◌, ◌++◌, if◌then◌else◌, ◌==◌, length,
  Text, text, text_eq, is_empty, split_on, ℤ, pos, ltbℤ, lebℤ, any_where,
}
use bruiser_gateway.Resource.{TextOps, between}
use bruiser_gateway.Policy.{has_prefix}
use bruiser_gateway.Controls.Hash.{fnv_1a, utf8_of, bytes}

pub record RampScope : Type 0 where
  pub events : List Text
  pub routes : List Text
  pub pools : List Text
  pub cohorts : List Text
  pub environments : List Text
  pub policies : List Text

pub record RampInput : Type 0 where
  pub customer_id : Text
  pub resource : Text
  pub action : Text
  pub rule_name : Text
  pub event_id : Text
  pub path : Text
  pub pool : Text
  pub cohort : Text
  pub env : Text

pub record Controls : Type 0 where
  pub mode : Text
  pub enforcement : Bool
  pub enforce_percent : ℤ
  pub ramp_salt : Text
  pub scope : RampScope
  pub queue_enabled : Bool
  pub max_waiters : ℤ
  pub lease_ttl_seconds : ℤ
  pub fail_closed : Bool
  pub disabled_actions : List Text
  pub updated_by : Text

abbrev pub mode_enforce : Text
mode_enforce = text "enforce"

abbrev pub mode_dry_run : Text
mode_dry_run = text "dry-run"

abbrev pub empty_scope : RampScope
empty_scope = record {
  events = [];
  routes = [];
  pools = [];
  cohorts = [];
  environments = [];
  policies = [];
}

unfoldable pub default_controls : Controls
default_controls = record {
  mode = mode_enforce;
  enforcement = true;
  enforce_percent = pos 100;
  ramp_salt = [];
  scope = empty_scope;
  queue_enabled = true;
  max_waiters = pos 0;
  lease_ttl_seconds = pos 0;
  fail_closed = true;
  disabled_actions = [];
  updated_by = [];
}

unfoldable pub lower : ℕ → ℕ
lower b = if between 65 90 b then b + 32 else b

abbrev byte_at_start : List ℕ → ℕ
byte_at_start [] = 0
byte_at_start (b ∷ bs) = b

abbrev drop_bytes : List ℕ → List ℕ → List ℕ
drop_bytes [] bs = bs
drop_bytes (a ∷ s) [] = []
drop_bytes (a ∷ s) (b ∷ bs) = drop_bytes s bs

-- The loop of stringsEqual, on what is left of both: `range a` stops at the first byte of each rune.
unfoldable pub runes_equal : Text → List ℕ → Bool
runes_equal [] bs = true
runes_equal (c ∷ a) bs =
    lower (byte_at_start (utf8_of c)) == lower (byte_at_start bs)
    && runes_equal a (drop_bytes (utf8_of c) bs)

-- stringsEqual, whose lengths are in bytes.
unfoldable pub strings_equal : Text → Text → Bool
strings_equal a b = length (bytes a) == length (bytes b) && runes_equal a (bytes b)

unfoldable pub clamp_percent : ℤ → ℤ
clamp_percent n = if ltbℤ n (pos 0) then pos 0 else if ltbℤ (pos 100) n then pos 100 else n

abbrev in_dry_run : Text → Controls → Controls
in_dry_run mode c =
    if strings_equal mode mode_dry_run
    then record c { mode = mode_dry_run; enforce_percent = pos 0 }
    else c

unfoldable pub from_env : Text → Bool → Bool → ℤ → Controls
from_env mode enforcement queue percent =
    let c = in_dry_run mode default_controls in
    record c {
      enforce_percent = if lebℤ (pos 0) percent then clamp_percent percent else c.enforce_percent;
      enforcement = enforcement;
      queue_enabled = queue;
    }

unfoldable pub effective_percent : Controls → ℤ
effective_percent c =
    if not c.enforcement || strings_equal c.mode mode_dry_run
    then pos 0
    else clamp_percent c.enforce_percent

unfoldable pub dry_run : Controls → Bool
dry_run c =
    strings_equal c.mode mode_dry_run
    || (lebℤ (effective_percent c) (pos 0) && lebℤ (pos 0) (effective_percent c))

unfoldable pub pass_through : Controls → Bool
pass_through c = not c.enforcement

-- RampScope.Empty: the sum of the lengths is 0.
unfoldable pub is_empty_scope : RampScope → Bool
is_empty_scope s =
    length s.events
      + length s.routes
      + length s.pools
      + length s.cohorts
      + length s.environments
      + length s.policies
    == 0

-- A list's last rune.
unfoldable pub ends_in : ℕ → Text → Bool
ends_in c [] = false
ends_in c (d ∷ []) = d == c
ends_in c (d ∷ e ∷ s) = ends_in c (e ∷ s)

-- A string less its last rune.
unfoldable pub without_last : Text → Text
without_last [] = []
without_last (d ∷ []) = []
without_last (d ∷ e ∷ s) = d ∷ without_last (e ∷ s)

-- strings.Contains s p.
unfoldable pub contains : Text → Text → Bool
contains [] p = is_empty p
contains (c ∷ s) p = has_prefix p (c ∷ s) || contains s p

module _ (o : TextOps) where
  unfoldable pub match_one : Text → Text → Bool
  match_one want got =
      if is_empty got
      then false
      else if o.equal_fold want got
      then true
      else if ends_in 42 want
      then has_prefix (o.to_lower (without_last want)) (o.to_lower got)
      else contains (o.to_lower got) (o.to_lower want)

  unfoldable pub match_any : List Text → List Text → Bool
  match_any [] vals = false
  match_any (w ∷ list) vals =
      let want = o.trim_space w in
      let rest = match_any list vals in
      if is_empty want then rest else if any_where (match_one want) vals then true else rest

  -- One dimension of the scope: it has entries, and none of them matches.
  unfoldable pub excludes : List Text → List Text → Bool
  excludes list vals = not (length list == 0) && not (match_any list vals)

  -- RampScope.Match.
  unfoldable pub scope_match : RampScope → RampInput → Bool
  scope_match s i =
      if is_empty_scope s
      then true
      else if excludes s.events (i.event_id ∷ i.resource ∷ [])
      then false
      else if excludes s.routes (i.action ∷ i.path ∷ [])
      then false
      else if excludes s.pools (i.pool ∷ i.resource ∷ [])
      then false
      else if excludes s.cohorts (i.cohort ∷ i.customer_id ∷ [])
      then false
      else if excludes s.environments (i.env ∷ [])
      then false
      else not (excludes s.policies (i.rule_name ∷ []))

-- Bucket.
unfoldable pub bucket : Text → Text → ℕ
bucket customer_id salt = fnv_1a salt customer_id % 100

unfoldable pub in_ramp : Text → ℤ → Text → Bool
in_ramp customer_id percent salt =
    if lebℤ percent (pos 0)
    then false
    else if lebℤ (pos 100) percent
    then true
    else ltbℤ (pos (bucket customer_id salt)) percent

unfoldable pub should_enforce : TextOps → Controls → RampInput → Bool
should_enforce o c i =
    let p = effective_percent c in
    if lebℤ p (pos 0)
    then false
    else if not (scope_match o c.scope i)
    then false
    else in_ramp i.customer_id p c.ramp_salt

unfoldable pub effective_waiters : Controls → ℤ → ℤ
effective_waiters c policy_waiters =
    if not c.queue_enabled
    then pos 0
    else if ltbℤ (pos 0) c.max_waiters
    then c.max_waiters
    else policy_waiters

unfoldable pub action_disabled : Controls → Text → Bool
action_disabled c action = any_where (λ a. strings_equal a action) c.disabled_actions

-- The loops of Normalize and SplitActions: the entries that are not blank, trimmed.
unfoldable pub trim_each : TextOps → List Text → List Text
trim_each o [] = []
trim_each o (a ∷ acts) =
    let rest = trim_each o acts in if is_empty (o.trim_space a) then rest else o.trim_space a ∷ rest

unfoldable pub normalize : TextOps → Controls → Controls
normalize o c =
    let dry = text_eq c.mode mode_dry_run in
    record c {
      mode = if dry then c.mode else mode_enforce;
      enforce_percent = if dry then pos 0 else clamp_percent c.enforce_percent;
      disabled_actions = trim_each o c.disabled_actions;
    }

-- strings.Join acts ",".
unfoldable pub join_actions : List Text → Text
join_actions [] = []
join_actions (a ∷ []) = a
join_actions (a ∷ b ∷ acts) = a ++ 44 ∷ join_actions (b ∷ acts)

unfoldable pub split_actions : TextOps → Text → List Text
split_actions o raw = if is_empty raw then [] else trim_each o (split_on 44 raw)
