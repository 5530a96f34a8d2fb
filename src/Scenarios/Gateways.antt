-- ===== src/Scenarios/Gateways.antt =====
-- A running gateway at concrete requests.
use bruiser_gateway.Prelude.{
  ℕ, ◌≤◌, ◌≡◌, ◌&&◌, ◌==◌, refl, arith, Option, none, some, Bool, true, List, [], ◌∷◌, Text, text,
  pos, count_where,
}
use bruiser_gateway.Lease.{Execution}
use bruiser_gateway.Store.{in_domain}
use bruiser_gateway.Store.Promote.{count_live}
use bruiser_gateway.System.{expires_waiters, empty_db}
use bruiser_gateway.Cache
use bruiser_gateway.Budget
use bruiser_gateway.Controls
use bruiser_gateway.Controls.{default_controls}
use bruiser_gateway.Gateway.{World, Setting, Customer}
use bruiser_gateway.Gateway.Attempts
use bruiser_gateway.Gateway.Errors
use bruiser_gateway.Gateway.Settled
use bruiser_gateway.Gateway.Admission
use bruiser_gateway.Gateway.Admission.{AdmitInput, Admission, admitted, held_by, allows, status}
use bruiser_gateway.Gateway.Enforce
use bruiser_gateway.Gateway.Admit
use bruiser_gateway.Gateway.Admit.{admit}
use bruiser_gateway.Gateway.Sessions
use bruiser_gateway.Gateway.Sessions.{Claims}
use bruiser_gateway.Gateway.Calls
use bruiser_gateway.Gateway.Backend
use bruiser_gateway.Gateway.Backend.{Tables, FreshIds, services}
use bruiser_gateway.Gateway.Allowed.{Leave, admit_allowed}
use bruiser_gateway.Gateway.History
use bruiser_gateway.Gateway.History.{
  Moment, Signer, Event, admits, background, under_session, serve, serve-count_live-le,
}
use bruiser_gateway.Gateway.Kept.{PolicyFits}
use bruiser_gateway.Gateway.Authorised.{Backed, session_auth-authorised}
use bruiser_gateway.Gateway.Fitting.{policy_fits}
use bruiser_gateway.Scenarios.Resources.{ascii}
use bruiser_gateway.Scenarios.Policies.{club_policy}
use bruiser_gateway.Scenarios.Profiles.{club, routing}

unfoldable pub serving : Bool
unfolding routing Controls.action_disabled Controls.effective_waiters Controls.dry_run
    Controls.pass_through Attempts.add_customer Attempts.count_attempt Attempts.update_counts
    Attempts.record_attempt Attempts.snapshot Errors.store_error Errors.mutation_error
    Settled.seconds Settled.with_controls Settled.apply_controls Settled.fail_open
    Settled.after_last_colon Settled.ramp_input Admission.status Admission.allows
    Admission.admit_store_error Admission.would_text Admission.unaware Admission.recorded
    Admission.decision_row Enforce.conclude Enforce.answer_acquire Enforce.acquire_request
    Enforce.session_of Enforce.after_acquire Enforce.after_session Enforce.admit_enforced
    Enforce.shadow_request Enforce.after_shadow Enforce.admit_dry_run Admit.admit_decided
    Admit.admit_resource Admit.admit_route Admit.admit Sessions.session_status Sessions.session_row
    Sessions.claims_of Sessions.create_session_for Sessions.create_session Sessions.own_claims
    Sessions.logout_session Sessions.refresh_session Sessions.check_live Sessions.session_auth
    Calls.reply_status Calls.replay_key Calls.reply_acquire Calls.with_budget Calls.request_of
    Calls.after_acquire Calls.acquire_enforced Calls.shadow_request Calls.after_shadow
    Calls.acquire_dry_run Calls.acquire_decided Calls.acquire_body Calls.after_replay
    Calls.handle_acquire Calls.handle_renew Calls.handle_release Calls.handle_revoke
    Calls.handle_handoff Calls.handle_get Backend.services Cache.new_busy_cache Cache.cache_key
    Cache.reset Cache.at_least_one Cache.put Cache.remember Cache.remember_busy Cache.forget
    Cache.lookup Cache.learn Cache.local_busy Cache.answers Cache.refreshes Cache.ask Cache.consult
    Cache.acquire Cache.settle Cache.renew Cache.release Cache.revoke Cache.handoff Budget.is_of
    Budget.raise Budget.ensure_budget Budget.has_budget Budget.use_one Budget.consume_op
    Budget.same_key Budget.claim_replay History.call History.handle History.serve
serving = true

abbrev pub front : Setting
front = record {
  merchant_id = text "club";
  environment = text "production";
  session_ttl = pos 3600000000000;
  lease_ttl = pos 60000000000;
  profile = club;
  compiled = club_policy;
  controls = default_controls;
}

abbrev ann : Customer
ann = record { customer_id = text "ann"; principal_id = []; anchors = [] }

-- A request of ann's to hold a ticket; each draws ids of its own.
abbrev pub holds : Text → AdmitInput
holds tag = record {
  method = text "POST";
  path = text "/api/cup-final/hold";
  event_id = [];
  customer = some ann;
  request_id = tag;
  fresh_principal = tag;
  fresh_session = tag;
}

abbrev pub ids : Text → FreshIds
ids tag = record { execution = tag; session = tag; hold = tag }

abbrev pub start : World Tables
start = record {
  store = record {
    db = empty_db;
    cache = record { hedge = 50; items = []; n = 0; hits = 0; miss = 0 };
    budgets = [];
    replays = [];
    shadow = record { dry_run_holds = []; dry_run_events = [] };
    decisions = [];
    authorized = [];
  };
  attempts = [];
}

abbrev pub token_of : Execution → Option Text
token_of e = some e.id

abbrev pub first_answer : Admission
first_answer =
    (admit ascii (services (ids (text "a"))) front token_of 10 (holds (text "a")) start).1

abbrev pub world_after : World Tables
world_after = (admit ascii (services (ids (text "a"))) front token_of 10 (holds (text "a")) start).0

-- The first request is let through, and another principal of ann's is told BUSY.
held :
    (allows first_answer ≡ true)
    × (status first_answer ≡ 200)
    × (status
          (admit ascii
            (services (ids (text "b")))
            front
            token_of
            20
            (holds (text "b"))
            world_after).1
        ≡ 409)
unfolding serving
held = (refl, refl, refl)

admit_allowed_example :
    Leave ascii (services (ids (text "a"))) front token_of 10 (holds (text "a")) start first_answer
unfolding serving
admit_allowed_example =
    admit_allowed ascii (services (ids (text "a"))) front token_of 10 (holds (text "a")) start
      world_after first_answer refl refl

abbrev one_session : Claims
one_session = record {
  merchant_id = text "club";
  customer_id = text "ann";
  principal_type = text "browser";
  principal_id = text "tab";
  session_id = text "s";
  version = 1;
  anchors = [];
  expires_at = 1000;
}

abbrev tokens : Signer
tokens = record {
  sign_execution = token_of;
  sign_session = λ c. some c.session_id;
  parse_session = λ raw. some one_session;
}

abbrev moment : ℕ → Text → Event → Moment
moment now tag e = record { now = now; fresh = ids tag; setting = front; event = e }

front-fits : PolicyFits ascii (λ m k. 1) front
unfolding serving
front-fits = policy_fits ascii front 1 refl

abbrev day : List Moment
day =
    moment 10 (text "a") (admits (holds (text "a")))
    ∷ moment 20 (text "b") (admits (holds (text "b")))
    ∷ moment 30 (text "c") (under_session (text "t") (History.releases (text "a") (text "r")))
    ∷ moment 40 (text "d") (background (expires_waiters (pos 100)))
    ∷ []

abbrev cup_domain : Text
cup_domain = text "club/purchase-per-event/customer=ann/resource=ticket:cup-final"

-- The first of the two holds the only lease.
counts :
    (count_live 40 (text "club") cup_domain (serve ascii tokens day start).store.db ≡ 1)
    × (count_live 40 (text "club") (text "elsewhere") (serve ascii tokens day start).store.db ≡ 0)
unfolding serving count_live count_where
counts = (refl, refl)

serve-count_live-le_example :
    (count_live 40 (text "club") cup_domain (serve ascii tokens day start).store.db ≤ 1)
    × (count_where
          (λ r. in_domain (text "club") cup_domain r && r.fence == 1)
          (serve ascii tokens day start).store.db.executions
        ≤ 1)
serve-count_live-le_example =
    serve-count_live-le ascii tokens (λ m k. 1) 0 day start 40 (text "club") cup_domain 1 refl
      (omega arith)
      ((front-fits, tt), ((front-fits, tt), ((front-fits, tt), ((front-fits, tt), tt))))
      (omega arith)

-- The tables with the session that the token names.
abbrev signed_in : Tables
signed_in = record start.store {
  db = record empty_db {
    sessions =
        record {
          id = text "s";
          merchant_id = text "club";
          customer_id = text "ann";
          anchors = [];
          principal_type = text "browser";
          principal_id = text "tab";
          expires_at = 1000;
          revoked_at = none;
          version = 1;
        }
        ∷ [];
  };
}

session_auth-authorised_example :
    (tokens.parse_session (text "t") ≡ some one_session)
    × (one_session.merchant_id ≡ front.merchant_id)
    × Backed (services (ids (text "e"))) front 50 one_session signed_in
unfolding serving
session_auth-authorised_example =
    session_auth-authorised (services (ids (text "e"))) front 50 tokens.parse_session (text "t")
      signed_in one_session refl
