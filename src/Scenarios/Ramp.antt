-- ===== src/Scenarios/Ramp.antt =====
-- Runtime controls at concrete settings.
use bruiser_gateway.Prelude.{
  ℕ, ◌≡◌, ◌<◌, ◌↔◌, refl, some, none, Bool, true, false, List, [], ◌∷◌, Text, text, pos, negsuc,
  ltbℤ, zero, suc, ap, ◌∙◌, split_on, is_empty,
}
use bruiser_gateway.Controls
use bruiser_gateway.Controls.{
  RampScope, RampInput, Controls, mode_enforce, mode_dry_run, empty_scope, strings_equal,
  default_controls, effective_percent, bucket, should_enforce, normalize, trim_each, join_actions,
  split_actions, from_env, scope_match,
}
use bruiser_gateway.Controls.Hash
use bruiser_gateway.Controls.Enforced.{in_scope, should_enforce_iff}
use bruiser_gateway.Controls.Raised.{should_enforce-raised}
use bruiser_gateway.Controls.Saved
use bruiser_gateway.Controls.Saved.{
  ScopeJson, ControlsRow, Documented, put_controls, get_controls, get_controls-put_controls,
}
use bruiser_gateway.Controls.Changed
use bruiser_gateway.Controls.Changed.{
  ControlsPatch, patch_controls, asked_mode, asked_switch, share_asked, patch_controls-percent,
}
use bruiser_gateway.Policy
use bruiser_gateway.Scenarios.{running}
use bruiser_gateway.Scenarios.Resources.{ascii}

unfoldable pub ramping : Bool
unfolding running Controls.lower Controls.runes_equal Controls.strings_equal Controls.clamp_percent
    Controls.effective_percent Controls.is_empty_scope Controls.ends_in Controls.without_last
    Controls.contains Controls.match_one Controls.match_any Controls.excludes Controls.scope_match
    Controls.bucket Controls.in_ramp Controls.should_enforce Controls.trim_each Controls.normalize
    Controls.join_actions split_on Controls.split_actions Controls.default_controls
    Controls.from_env Hash.utf8_of Hash.bytes Hash.write Hash.fnv_1a Policy.has_prefix Saved.row_of
    Saved.upsert Saved.put_controls Saved.read_scope Saved.of_row Saved.get_controls
    Changed.with_percent Changed.patch_controls
ramping = true

abbrev cup_scope : RampScope
cup_scope = record empty_scope { events = text "cup*" ∷ [] }

abbrev quarter : Controls
quarter = record default_controls { enforce_percent = pos 25; scope = cup_scope }

abbrev request_of : Text → RampInput
request_of customer = record {
  customer_id = customer;
  resource = text "ticket:cup-final";
  action = text "purchase";
  rule_name = text "one";
  event_id = text "cup-final";
  path = [];
  pool = [];
  cohort = [];
  env = text "production";
}

-- The published vectors of FNV-1a: of the empty string, the offset; of "a".
vectors :
    (Hash.write 14695981039346656037 [] ≡ 14695981039346656037)
    × (Hash.write 14695981039346656037 (97 ∷ []) ≡ 12638187200555641996)
unfolding ramping
vectors = (refl, refl)

-- At a quarter, customer c3 is in and alice is out.
buckets :
    (bucket (text "c3") [] ≡ 9)
    × (bucket (text "alice") [] ≡ 73)
    × (should_enforce ascii quarter (request_of (text "c3")) ≡ true)
    × (should_enforce ascii quarter (request_of (text "alice")) ≡ false)
unfolding ramping
buckets = (refl, refl, refl, refl)

-- The mode of the environment is read in any case, the operator's as it is spelled.
spellings :
    (effective_percent (from_env (text "Dry-Run") true true (negsuc 0)) ≡ pos 0)
    × (effective_percent (normalize ascii (record quarter { mode = text "Dry-Run" })) ≡ pos 25)
unfolding ramping
spellings = (refl, refl)

should_enforce_iff_example :
    (bucket (text "c3") [] < 100)
    × ((should_enforce ascii quarter (request_of (text "c3")) ≡ true) ↔ (
        (true ≡ true)
        × (strings_equal mode_enforce mode_dry_run ≡ false)
        × (in_scope ascii cup_scope (request_of (text "c3")) ≡ true)
        × (ltbℤ (pos (bucket (text "c3") [])) (pos 25) ≡ true)))
unfolding ramping
should_enforce_iff_example = should_enforce_iff ascii quarter (request_of (text "c3"))

should_enforce-raised_example :
    should_enforce ascii (record quarter { enforce_percent = pos 80 }) (request_of (text "c3"))
    ≡ true
unfolding ramping
should_enforce-raised_example =
    should_enforce-raised ascii quarter (pos 80) (request_of (text "c3")) refl refl

abbrev switched_off : Controls
switched_off = record quarter {
  scope = empty_scope;
  disabled_actions = text "purchase" ∷ text "hold" ∷ [];
}

-- A text for a scope: the runes raised by two, a one after each entry, a zero after each dimension.
abbrev put_text : Text → Text → Text
put_text [] rest = 1 ∷ rest
put_text (c ∷ t) rest = suc (suc c) ∷ put_text t rest

abbrev put_list : List Text → Text → Text
put_list [] rest = 0 ∷ rest
put_list (t ∷ ts) rest = put_text t (put_list ts rest)

abbrev push_entry : List (List Text) → List (List Text)
push_entry [] = []
push_entry (l ∷ ls) = ([] ∷ l) ∷ ls

abbrev push_rune : ℕ → List (List Text) → List (List Text)
push_rune c [] = []
push_rune c ([] ∷ ls) = [] ∷ ls
push_rune c ((t ∷ l) ∷ ls) = ((c ∷ t) ∷ l) ∷ ls

abbrev take_lists : Text → List (List Text)
take_lists [] = []
take_lists (zero ∷ s) = [] ∷ take_lists s
take_lists (suc zero ∷ s) = push_entry (take_lists s)
take_lists (suc (suc c) ∷ s) = push_rune c (take_lists s)

abbrev scope_of : List (List Text) → RampScope
scope_of (a ∷ b ∷ c ∷ d ∷ e ∷ f ∷ []) = record {
  events = a;
  routes = b;
  pools = c;
  cohorts = d;
  environments = e;
  policies = f;
}
scope_of ls = empty_scope

abbrev marked : ScopeJson
marked = record {
  marshal = λ s. put_list s.events (
      put_list s.routes
        (put_list s.pools (put_list s.cohorts (put_list s.environments (put_list s.policies [])))));
  unmarshal = λ s scope. scope_of (take_lists s);
}

take-put_text :
    (t : Text) (rest : Text) (l : List Text) (ls : List (List Text))
    → take_lists rest ≡ l ∷ ls
    → take_lists (put_text t rest) ≡ (t ∷ l) ∷ ls
take-put_text [] rest l ls h = ap push_entry h
take-put_text (c ∷ t) rest l ls h = ap (push_rune c) (take-put_text t rest l ls h)

take-put_list :
    (ts : List Text) (rest : Text) → take_lists (put_list ts rest) ≡ ts ∷ take_lists rest
take-put_list [] rest = refl
take-put_list (t ∷ ts) rest =
    take-put_text t (put_list ts rest) ts (take_lists rest) (take-put_list ts rest)

put_text-nonempty : (t rest : Text) → is_empty (put_text t rest) ≡ false
unfolding is_empty
put_text-nonempty [] rest = refl
put_text-nonempty (c ∷ t) rest = refl

put_list-nonempty : (ts : List Text) (rest : Text) → is_empty (put_list ts rest) ≡ false
unfolding is_empty
put_list-nonempty [] rest = refl
put_list-nonempty (t ∷ ts) rest = put_text-nonempty t (put_list ts rest)

marked-scopes : (s : RampScope) → marked.unmarshal (marked.marshal s) empty_scope ≡ s
marked-scopes s = ap scope_of (
    take-put_list s.events _
    ∙ ap (λ ls. s.events ∷ ls)
        (take-put_list s.routes _
          ∙ ap (λ ls. s.routes ∷ ls)
              (take-put_list s.pools _
                ∙ ap (λ ls. s.pools ∷ ls)
                    (take-put_list s.cohorts _
                      ∙ ap (λ ls. s.cohorts ∷ ls)
                          (take-put_list s.environments _
                            ∙ ap (λ ls. s.environments ∷ ls)
                                (take-put_list s.policies _
                                  ∙ ap (λ ls. s.policies ∷ ls) (refl)))))))

marked-Documented : Documented ascii marked
unfolding text
marked-Documented = record {
  trims = λ s. refl;
  scopes = marked-scopes;
  braces = refl;
  not_blank = λ s. put_list-nonempty s.events _;
}

get_controls-put_controls_example :
    (get_controls ascii marked
        (text "shop")
        (put_controls ascii marked (text "shop") switched_off []).0
      ≡ ((put_controls ascii marked (text "shop") switched_off []).1, true))
    × (normalize ascii (put_controls ascii marked (text "shop") switched_off []).1
        ≡ (put_controls ascii marked (text "shop") switched_off []).1)
    × (get_controls ascii marked
          (text "other")
          (put_controls ascii marked (text "shop") switched_off []).0
        ≡ get_controls ascii marked (text "other") [])
unfolding ramping
get_controls-put_controls_example =
    get_controls-put_controls ascii marked (text "shop") (text "other") switched_off []
      marked-Documented refl refl

-- A patch that pulls the kill switch and, in dry-run mode, also sets a percentage enforces it.
abbrev stopping : ControlsPatch
stopping = record {
  mode = none;
  enforcement = some false;
  enforce_percent = some (pos 50);
  ramp_salt = none;
  scope = none;
  queue_enabled = none;
  max_waiters = none;
  lease_ttl_seconds = none;
  fail_closed = none;
  disabled_actions = none;
  updated_by = [];
}

abbrev observing : Controls
observing = record quarter { mode = mode_dry_run; enforce_percent = pos 0 }

patch_controls-percent_example :
    effective_percent (patch_controls ascii stopping (text "ops") observing) ≡ pos 50
unfolding ramping
patch_controls-percent_example = patch_controls-percent ascii stopping (text "ops") observing

-- Two letters with one first byte are taken for equal.
accents :
    (strings_equal (text "é") (text "è") ≡ true) × (strings_equal (text "é") (text "e") ≡ false)
unfolding ramping
accents = (refl, refl)
