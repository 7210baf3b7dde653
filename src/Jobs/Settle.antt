-- ===== src/Jobs/Settle.antt =====
-- `settle_job` of domains/jobs/service.py, up to the cap status of its response and without the
-- telemetry of a refused settlement.
pub mod Money
pub mod Evidence
pub mod Once
use livepeer_open_clearingho.Base.{
  ℕ, String, Option, none, some, List, [], ◌∷◌, Bool, true, false, not, ◌&&◌, ◌||◌, ◌==◌, str_eq,
  is_some, or_else, if◌then◌else◌,
}
use livepeer_open_clearingho.Base.Int.{ℤ, pos, ◌-ℤ◌}
use livepeer_open_clearingho.Base.Json.{Fields, string, object, field, end, get, is_present}
use livepeer_open_clearingho.Base.Time.{Datetime}
use livepeer_open_clearingho.Base.Result.{Result, ok, err}
use livepeer_open_clearingho.Base.Action.{pure, raise, gets, lift, modify, raise_if, ◌>>=◌, ◌>>◌}
use livepeer_open_clearingho.Settlement.Records
use livepeer_open_clearingho.Settlement.Records.{
  JobSettlementExpectation, VerifiedJobSettlement, Outcome, unrecognized, unspecified, exact,
  underfunded, overfunded, stopped_at_budget, topped_up, debit_failed,
}
use livepeer_open_clearingho.Settlement.Keys.{Delegation}
use livepeer_open_clearingho.Settlement.Envelope.{Codec, verify_envelope}
use livepeer_open_clearingho.Settlement.Job.{verify_job_settlement}
use livepeer_open_clearingho.Sessions.Rows
use livepeer_open_clearingho.Sessions.Rows.{
  Snapshot, PaymentSession, SpendAuthorizationGrant, Db, Error, Sessions, find_session, find_grant,
  or_raise,
}
use livepeer_open_clearingho.Sessions.States.{
  is_closed, transition_state, put_session, settlement_event, record_settlement,
}
use livepeer_open_clearingho.Sessions.Grants.{mark_spend_authorization_settled}
use livepeer_open_clearingho.Sessions.Charge.{customer_charge, release_unused, store_close}

-- The names of the protobuf enumeration. A verified outcome has one.
abbrev pub outcome_name : Outcome → String
outcome_name unspecified = "SETTLEMENT_OUTCOME_UNSPECIFIED"
outcome_name exact = "EXACT"
outcome_name underfunded = "UNDERFUNDED"
outcome_name overfunded = "OVERFUNDED"
outcome_name stopped_at_budget = "STOPPED_AT_BUDGET"
outcome_name topped_up = "TOPPED_UP"
outcome_name debit_failed = "DEBIT_FAILED"
outcome_name (unrecognized n) = ""

-- The reason of a `SettlementVerificationError`, or of the `TypeError` or `ValueError` that is caught
-- with it.
abbrev pub failure : Records.Error → Error
failure (Records.rejected code) = Rows.settlement_failed code
failure Records.type_error = Rows.settlement_failed "invalid_snapshot"
failure Records.value_error = Rows.settlement_failed "invalid_snapshot"

abbrev pub checked : {A : Type 0} → Records.Checked A → Result Error A
checked (ok a) = ok a
checked (err e) = err (failure e)

-- `job_row is None or job_row.user_id != user_id`
abbrev pub owned_by : ℕ → Option PaymentSession → Option PaymentSession
owned_by user_id none = none
owned_by user_id (some row) = if row.user_id == user_id then some row else none

-- `if not request_id`
abbrev pub nonempty_request : Option String → Result Error String
nonempty_request none = err (Rows.settlement_failed "missing_request_id")
nonempty_request (some request) =
    if str_eq request "" then err (Rows.settlement_failed "missing_request_id") else ok request

-- `snapshot["settlement_keys"]`; the empty snapshot has no such key.
abbrev pub pinned : Option Snapshot → Result Error Snapshot
pinned none = err (Rows.settlement_failed "invalid_snapshot")
pinned (some snapshot) = with_keys snapshot.settlement_keys
  where
    with_keys : List Delegation → Result Error Snapshot
    with_keys [] = err (Rows.settlement_failed "missing_delegation")
    with_keys (k ∷ ks) = ok snapshot

-- `str(snapshot.get("work_unit", ""))`
abbrev pub expected_work_unit : Option Snapshot → String
expected_work_unit none = ""
expected_work_unit (some snapshot) = snapshot.work_unit

-- The arguments of the request.
pub record SettleJob : Type 0 where
  pub job_id : ℕ
  pub user_id : ℕ
  pub actual_units : ℕ
  pub broker_job_id : String
  pub work_unit : String
  pub outcome : Option String
  pub settlement : Fields

abbrev pub expectation :
    SettleJob
    → PaymentSession
    → Snapshot
    → SpendAuthorizationGrant
    → String
    → JobSettlementExpectation
expectation request row snapshot grant request_id = record {
  wholesale_account_id = grant.wholesale_account_id;
  settlement_domain_id = grant.settlement_domain_id;
  request_id = request_id;
  job_id = request.broker_job_id;
  work_id = row.work_id;
  work_unit = snapshot.work_unit;
  actual_units = request.actual_units;
  max_total_units = row.max_total_units;
  funded_value_wei = row.funded_value_wei;
  amount_wei = snapshot.price_per_work_unit_wei;
  per_units = snapshot.units_per_price;
  quote = snapshot.quote;
  authorization_id = some grant.authorization_id;
  authorized_value_wei = some grant.max_debit_wei;
}

-- The job to settle, with its grant.
unfoldable pub open_job_row : SettleJob → Sessions (PaymentSession × SpendAuthorizationGrant)
open_job_row request = do
  found ← gets (λ db. owned_by request.user_id (find_session request.job_id db.sessions))
  row ← or_raise found Rows.job_not_found
  raise_if (is_closed row.state) (Rows.job_already_settled row.state)
  raise_if (not (str_eq row.accounting_mode "wholesale_account"))
      (Rows.settlement_failed "legacy_accounting_disabled")
  granted ← gets (λ db. find_grant request.job_id (or_else row.authorization_id "") db.grants)
  grant ←
      or_raise (if is_some row.authorization_id then granted else none)
        (Rows.settlement_failed "missing_authorization")
  pure (row, grant)

-- The verification of the evidence against the row and the grant.
unfoldable pub verified_usage :
    Codec → SettleJob → PaymentSession → SpendAuthorizationGrant → Sessions VerifiedJobSettlement
verified_usage codec request row grant = do
  raise_if (not (str_eq request.work_unit (expected_work_unit row.route_snapshot)))
      Rows.work_unit_mismatch
  request_id ← lift (nonempty_request row.broker_request_id)
  raise_if (not (is_present (get "signature" request.settlement)))
      (Rows.settlement_failed "missing_signature")
  snapshot ← lift (pinned row.route_snapshot)
  verified ← lift (
      checked (
        verify_job_settlement (verify_envelope codec request.settlement snapshot.settlement_keys)
          (expectation request row snapshot grant request_id)))
  raise_if
      (is_some request.outcome
        && not (str_eq (or_else request.outcome "") (outcome_name verified.outcome)))
      (Rows.settlement_failed "outcome_mismatch")
  pure verified

-- The fields that the settlement sets.
abbrev pub settled_row : PaymentSession → ℕ → ℕ → Outcome → PaymentSession
settled_row row actual_units billed_value_wei outcome = record row {
  actual_units = some actual_units;
  billed_value_wei = some (pos billed_value_wei);
  outcome = some (outcome_name outcome);
}

-- The record of the close event.
abbrev pub raw_record : SettleJob → Fields
raw_record request = field "broker_job_id" (string request.broker_job_id) (
    field "work_unit" (string request.work_unit)
      (field "settlement" (object request.settlement) end))

-- The writes of a settlement whose charge is known; the breakdown of the row is no column here.
unfoldable pub finish_job :
    SettleJob → PaymentSession → ℤ → ℕ → Outcome → Datetime → Sessions PaymentSession
finish_job request row hold billed outcome now = do
  closed ← transition_state request.job_id row.state "closed" now
  release_unused row (hold -ℤ pos billed)
  store_close (settled_row closed request.actual_units billed outcome)
      (or_else row.authorization_id "")
      (settlement_event request.job_id "close" now (some request.actual_units) (some (pos billed))
        (some (outcome_name outcome)) (some (raw_record request)))
      now

unfoldable pub settle_job : Codec → SettleJob → Datetime → Sessions PaymentSession
settle_job codec request now = do
  opened ← open_job_row request
  let row = opened.0
  let grant = opened.1
  verified ← verified_usage codec request row grant
  charge ← customer_charge row verified.actual_units verified.billed_value_wei
  finish_job request row charge.0 charge.1 verified.outcome now
