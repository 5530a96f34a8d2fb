-- ===== src/Controls/Changed.antt =====
-- internal/api/public/admin.go, adminPutControls: an operator's patch of the controls.
use bruiser_gateway.Prelude.{
  ◌≡◌, refl, arith, Option, none, some, Bool, true, false, not, ◌&&◌, ◌||◌, List, if◌then◌else◌,
  Text, text, text_eq, is_empty, ℤ, pos, lebℤ, inl, inr, Bool-cases, sym, subst, ◌∙◌, text_eq_iff,
  text_eq_refl,
}
use bruiser_gateway.Resource.{TextOps}
use bruiser_gateway.Controls.Hash.{utf8_of, bytes}
use bruiser_gateway.Controls.{
  RampScope, Controls, mode_enforce, mode_dry_run, lower, runes_equal, strings_equal, clamp_percent,
  effective_percent, normalize,
}
use bruiser_gateway.Controls.Enforced.{clamp_percent-idempotent}

-- A field that the request's JSON leaves out is nothing.
pub record ControlsPatch : Type 0 where
  pub mode : Option Text
  pub enforcement : Option Bool
  pub enforce_percent : Option ℤ
  pub ramp_salt : Option Text
  pub scope : Option RampScope
  pub queue_enabled : Option Bool
  pub max_waiters : Option ℤ
  pub lease_ttl_seconds : Option ℤ
  pub fail_closed : Option Bool
  pub disabled_actions : Option (List Text)
  pub updated_by : Text

abbrev or_else {ℓ} : {A : Type ℓ} → Option A → A → A
or_else none a = a
or_else (some b) a = b

abbrev is_zero : ℤ → Bool
is_zero n = lebℤ n (pos 0) && lebℤ (pos 0) n

-- The branch for enforce_percent, which also moves the mode and the kill switch.
unfoldable pub with_percent : Option ℤ → Controls → Controls
with_percent none c = c
with_percent (some n) c =
    if is_zero n
    then record c { enforce_percent = n; mode = mode_dry_run }
    else if text_eq c.mode mode_dry_run
    then record c { enforce_percent = n; mode = mode_enforce; enforcement = true }
    else record c { enforce_percent = n }

-- The controls that the handler saves.
unfoldable pub patch_controls : TextOps → ControlsPatch → Text → Controls → Controls
patch_controls o p actor c =
    let switched = record c {
      mode = or_else p.mode c.mode;
      enforcement = or_else p.enforcement c.enforcement;
    } in
    let ramped = with_percent p.enforce_percent switched in
    normalize o (record ramped {
      ramp_salt = or_else p.ramp_salt ramped.ramp_salt;
      scope = or_else p.scope ramped.scope;
      queue_enabled = or_else p.queue_enabled ramped.queue_enabled;
      max_waiters = or_else p.max_waiters ramped.max_waiters;
      lease_ttl_seconds = or_else p.lease_ttl_seconds ramped.lease_ttl_seconds;
      fail_closed = or_else p.fail_closed ramped.fail_closed;
      disabled_actions = or_else p.disabled_actions ramped.disabled_actions;
      updated_by = if is_empty p.updated_by then actor else p.updated_by;
    })

enforce-not_dry : strings_equal mode_enforce mode_dry_run ≡ false
unfolding bytes utf8_of runes_equal strings_equal lower text
enforce-not_dry = refl

enforce-other : text_eq mode_enforce mode_dry_run ≡ false
unfolding text_eq text
enforce-other = refl

dry-dry : strings_equal mode_dry_run mode_dry_run ≡ true
unfolding bytes utf8_of runes_equal strings_equal lower text
dry-dry = refl

dry-equal : (m : Text) → text_eq m mode_dry_run ≡ true → strings_equal m mode_dry_run ≡ true
dry-equal m h =
    subst (λ x. strings_equal x mode_dry_run ≡ true) (sym ((text_eq_iff m mode_dry_run).0 h))
      dry-dry

-- Normalising takes a mode that is not spelled as dry-run exactly for enforcement.
pub effective_percent-normalize :
    (o : TextOps) (c : Controls)
    → effective_percent (normalize o c) ≡ (
        if not c.enforcement || text_eq c.mode mode_dry_run
        then pos 0
        else clamp_percent c.enforce_percent)
unfolding effective_percent normalize
effective_percent-normalize o c = elim (Bool-cases (text_eq c.mode mode_dry_run)) [
  | inl dry ↦ ground (arith, dry-equal c.mode)
  | inr enforced ↦ ground (arith, clamp_percent-idempotent c.enforce_percent, enforce-not_dry)
]

-- The mode that the patch leaves to its percentage.
abbrev pub asked_mode : ControlsPatch → Controls → Text
asked_mode p c = or_else p.mode c.mode

abbrev pub asked_switch : ControlsPatch → Controls → Bool
asked_switch p c = or_else p.enforcement c.enforcement

-- The share by a patch's percentage, the mode and the switch, and the percentage before it.
abbrev pub share_asked : Option ℤ → Text → Bool → ℤ → ℤ
share_asked none mode switch before =
    if not switch || text_eq mode mode_dry_run then pos 0 else clamp_percent before
share_asked (some n) mode switch before =
    if is_zero n || (not switch && not (text_eq mode mode_dry_run)) then pos 0 else clamp_percent n

share-with_percent :
    (m : Option ℤ) (s : Controls)
    → (if not (with_percent m s).enforcement || text_eq (with_percent m s).mode mode_dry_run
        then pos 0
        else clamp_percent (with_percent m s).enforce_percent)
      ≡ share_asked m s.mode s.enforcement s.enforce_percent
unfolding with_percent
share-with_percent none s = refl
share-with_percent (some n) s = ground (arith, (text_eq_refl mode_dry_run), enforce-other)

-- Effective percentage after a patch, on each branch. A percentage of zero leaves nothing enforced. A percentage other than zero is in force after the patch, clamped to 0 to 100, unless the kill switch stays pulled, which it does only where the mode was not dry-run. Without a percentage the mode decides: dry-run, spelled exactly so, enforces nothing, and any other mode enforces the percentage from before, unless the kill switch is pulled.
pub patch_controls-percent :
    (o : TextOps) (p : ControlsPatch) (actor : Text) (c : Controls)
    → effective_percent (patch_controls o p actor c)
      ≡ share_asked p.enforce_percent (asked_mode p c) (asked_switch p c) c.enforce_percent
unfolding patch_controls
patch_controls-percent o p actor c =
    effective_percent-normalize o _
    ∙ share-with_percent p.enforce_percent
        (record c { mode = asked_mode p c; enforcement = asked_switch p c })
