-- ===== src/Scenarios/Shadows.antt =====
-- Dry runs at concrete states.
use bruiser_gateway.Prelude.{ℕ, ◌≤◌, ◌≡◌, refl, List, [], ◌∷◌, Text, text, pos, arith}
use bruiser_gateway.Lease.{ok, AcquireResult}
use bruiser_gateway.Store.{Db}
use bruiser_gateway.Store.Promote.{at_least_one}
use bruiser_gateway.Store.Acquire.{acquire}
use bruiser_gateway.System.{acquires, step, empty_db}
use bruiser_gateway.Shadow
use bruiser_gateway.Shadow.{ShadowDb, ShadowRequest, DryRunEvent, count_active, shadow_decide}
use bruiser_gateway.Shadow.Capacity.{shadow_run, empty_shadow, shadow_run-count_active-le}
use bruiser_gateway.Shadow.Verdict.{called, shadow_decide-acquire}
use bruiser_gateway.Scenarios.{running, club, key, agent, request}

abbrev dry : Text → ShadowRequest
dry x = record {
  merchant_id = club;
  domain_key = key;
  customer_id = text "ann";
  principal_id = x;
  resource = text "ticket:final";
  action = text "purchase";
  rule_name = text "purchase-per-event";
  max_active = pos 1;
  max_waiters = pos 1;
  ttl = pos 60000000000;
  request_id = [];
}

abbrev decisions : List (ℕ × Text × ShadowRequest)
decisions =
    (1, text "h1", dry (text "a"))
    ∷ (2, text "h2", dry (text "b"))
    ∷ (3, text "h3", dry (text "c"))
    ∷ []

abbrev one_each : Text → Text → ℕ
one_each m k = 1

shadow_run-count_active-le_example :
    count_active 3 club key (shadow_run decisions empty_shadow).dry_run_holds ≤ 1
unfolding at_least_one
shadow_run-count_active-le_example =
    shadow_run-count_active-le one_each 0 decisions 3 club key (omega arith) (omega arith)

-- One agent holds the domain, in the store and in the shadow.
abbrev held : Db
held = step 1 (acquires (text "e1") (request (agent (text "a")))) empty_db

abbrev shadowed : ShadowDb
shadowed = shadow_run ((1, text "h1", dry (text "a")) ∷ []) empty_shadow

shadow_decide-acquire_example :
    (t : Db) × (r : AcquireResult) × (u : ShadowDb) × (ev : DryRunEvent) × (acquire 2
        (text "w2")
        (request (agent (text "b")))
        held
      ≡ ok (t, r))
    × (shadow_decide 2 (text "h2") (dry (text "b")) shadowed ≡ ok (u, ev))
    × (ev.would ≡ called r)
unfolding running Shadow.is_unexpired Shadow.held_in Shadow.count_active Shadow.count_queued
    Shadow.stale Shadow.sweep Shadow.event Shadow.commit_dry Shadow.new_hold Shadow.place_hold
    Shadow.decide Shadow.has_hold Shadow.shadow_decide shadow_run
shadow_decide-acquire_example =
    shadow_decide-acquire 2 (text "w2") (text "h2") (request (agent (text "b"))) held
      (dry (text "b")) shadowed refl refl refl refl refl refl refl refl refl refl refl
