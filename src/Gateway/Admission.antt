-- ===== src/Gateway/Admission.antt =====
-- internal/api/public/authorize.go: a request to admit, and what is answered.
use bruiser_gateway.Prelude.{ℕ, Option, Bool, true, false, [], ◌++◌, if◌then◌else◌, Text, text}
use bruiser_gateway.Lease.{
  Execution, AcquireResult, granted, already_held, busy, queued_at, denied, BusyInfo, QueueInfo,
  Error,
}
use bruiser_gateway.Policy
use bruiser_gateway.Policy.{Decision, uncontrolled, leased, Terms}
use bruiser_gateway.Shadow.{Would, allow, queue, reject, expire}
use bruiser_gateway.Controls.{Controls}
use bruiser_gateway.Merchant.{first_nonempty}
use bruiser_gateway.Gateway.{DecisionRow, World, Customer}
use bruiser_gateway.Gateway.Attempts.{record_attempt}
use bruiser_gateway.Gateway.Errors.{store_error}
use bruiser_gateway.Gateway.Settled.{fail_open}

-- What admit returns, by what its body says.
pub data Admission : Type 0 where
  unmatched_route unrouted no_session no_resource bad_resource : Admission
  uncontrolled_route : (action : Text) → Admission
  uncontrolled_rule : (rule_name : Text) → Admission
  refused : (reason rule_name : Text) → Admission
  observed : (would reason : Text) → Admission
  failed_open unsigned over_budget : Admission
  store_failed : Error → Admission
  admitted : Execution → (token : Text) → Admission
  in_queue : BusyInfo → QueueInfo → Admission
  held_by : BusyInfo → Admission
  not_granted : (reason : Text) → Admission

unfoldable pub status : Admission → ℕ
status unmatched_route = 200
status unrouted = 403
status no_session = 401
status no_resource = 400
status bad_resource = 400
status (uncontrolled_route action) = 200
status (uncontrolled_rule rule_name) = 200
status (refused reason rule_name) = 403
status (observed would reason) = 200
status failed_open = 200
status unsigned = 500
status over_budget = 409
status (store_failed e) = store_error e
status (admitted e token) = 200
status (in_queue b q) = 202
status (held_by b) = 409
status (not_granted reason) = 403

-- admitResult.allow.
unfoldable pub allows : Admission → Bool
allows unmatched_route = true
allows unrouted = false
allows no_session = false
allows no_resource = false
allows bad_resource = false
allows (uncontrolled_route action) = true
allows (uncontrolled_rule rule_name) = true
allows (refused reason rule_name) = false
allows (observed would reason) = true
allows failed_open = true
allows unsigned = false
allows over_budget = false
allows (store_failed e) = false
allows (admitted e token) = true
allows (in_queue b q) = false
allows (held_by b) = false
allows (not_granted reason) = false

-- A request, with the customer that its credentials give and the ids that the handler draws.
pub record AdmitInput : Type 0 where
  pub method : Text
  pub path : Text
  pub event_id : Text
  pub customer : Option Customer
  pub request_id : Text
  pub fresh_principal : Text
  pub fresh_session : Text

abbrev pub rule_of : Decision → Text
rule_of (uncontrolled name) = name
rule_of (Policy.denied name reason) = name
rule_of (leased name t) = name

abbrev pub noted {ℓ} : {S : Type ℓ} → Text → Text → Text → World S → World S
noted resource customer outcome w = record w {
  attempts = record_attempt resource customer outcome w.attempts;
}

-- Server.admitStoreError.
unfoldable pub admit_store_error : Controls → Error → Admission
admit_store_error c e = if fail_open c then failed_open else store_failed e

unfoldable pub would_text : Would → Text
would_text allow = text "ALLOW"
would_text queue = text "QUEUE"
would_text reject = text "REJECT"
would_text expire = text "EXPIRE"

unfoldable pub unaware : AdmitInput → Customer → Text
unaware i c = text "unaware:" ++ first_nonempty c.principal_id i.fresh_principal

-- What recordAcquire writes of an answer, and why.
unfoldable pub recorded : AcquireResult → Text × Text
recorded (granted e) = (text "ALLOW", text "GRANTED")
recorded (already_held e) = (text "ALLOW", text "ALREADY_HELD")
recorded (queued_at e b q) = (text "QUEUE", text "queued")
recorded (busy b) = (text "REJECT", text "busy")
recorded (denied why) = (text "REJECT", why)

-- recordAcquire, of an answer of the store.
unfoldable pub decision_row :
    (merchant_id customer principal resource action rule request_id : Text)
    → AcquireResult
    → DecisionRow
decision_row m customer principal resource action rule rid r =
    let (would, reason) = recorded r in
    record {
      merchant_id = m;
      would = would;
      reason = reason;
      customer_id = customer;
      principal_id = principal;
      resource = resource;
      action = action;
      rule_name = rule;
      request_id = rid;
      enforced = true;
      error = [];
    }
