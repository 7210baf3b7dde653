-- ===== src/Sessions/Close.antt =====
-- `close_session` of domains/sessions/service.py, without the diagnostics of the breakdown column and
-- the telemetry of a refused settlement.
pub mod Evidence
pub mod Settled
pub mod Once
use livepeer_open_clearingho.Base.{
  ℕ, ◌+◌, ◌<◌, String, Option, none, some, List, [], ◌∷◌, Bool, true, false, not, ◌&&◌, ◌||◌, ◌==◌,
  str_eq, ltb, is_some, or_else, if◌then◌else◌,
}
use livepeer_open_clearingho.Base.Int.{ℤ, pos, ◌-ℤ◌}
use livepeer_open_clearingho.Base.Json.{Fields, get, as_text, as_object, is_present}
use livepeer_open_clearingho.Base.Time.{Datetime}
use livepeer_open_clearingho.Base.Result.{Result, ok, err}
use livepeer_open_clearingho.Base.Action.{pure, raise, gets, lift, modify, raise_if, ◌>>=◌, ◌>>◌}
use livepeer_open_clearingho.Settlement.Records.{SessionSettlementExpectation, Outcome, unspecified}
use livepeer_open_clearingho.Settlement.Envelope.{Codec, verify_envelope}
use livepeer_open_clearingho.Settlement.Evidence.{
  VerifiedSessionSettlement, verify_session_settlement,
}
use livepeer_open_clearingho.Sessions.Rows
use livepeer_open_clearingho.Sessions.Rows.{
  Snapshot, PaymentSession, PaymentSettlement, SpendAuthorizationGrant, Db, Error, Sessions,
  find_session, find_grant, or_raise,
}
use livepeer_open_clearingho.Sessions.States.{
  is_closed, transition_state, put_session, settlement_event, record_settlement,
}
use livepeer_open_clearingho.Sessions.Grants.{mark_spend_authorization_settled}
use livepeer_open_clearingho.Sessions.Charge.{customer_charge, release_unused, store_close}
use livepeer_open_clearingho.Jobs.Settle.{owned_by, pinned, checked, outcome_name}

-- The arguments of the request; `session_name` is `str(session_id)`. A replay compares the
-- settlement with the recorded one as JSON: `same` is that comparison.
pub record CloseSession : Type 0 where
  pub session_id : ℕ
  pub session_name : String
  pub user_id : ℕ
  pub actual_units : ℕ
  pub outcome : Option String
  pub settlement : Option Fields

abbrev pub nonempty_text : Option String → Option String
nonempty_text none = none
nonempty_text (some s) = if str_eq s "" then none else some s

-- The predecessor that the expectation names.
abbrev pub predecessor : PaymentSession → Result Error String
predecessor row =
    if row.rotation_generation == 0 then ok "" else rotated (nonempty_text row.predecessor_work_id)
  where
    rotated : Option String → Result Error String
    rotated none = err (Rows.settlement_failed "missing_rotation_predecessor")
    rotated (some work_id) = ok work_id

-- `payload.get("authorization_id")` of a payload that is an object.
abbrev pub authorization_hint : Fields → Option String
authorization_hint settlement = of_payload (as_object (get "payload" settlement))
  where
    of_payload : Option Fields → Option String
    of_payload none = none
    of_payload (some payload) = nonempty_text (as_text (get "authorization_id" payload))

abbrev pub expectation :
    CloseSession
    → PaymentSession
    → Snapshot
    → SpendAuthorizationGrant
    → String
    → Bool
    → SessionSettlementExpectation
expectation request row snapshot grant predecessor_work_id require_terminal = record {
  wholesale_account_id = grant.wholesale_account_id;
  settlement_domain_id = grant.settlement_domain_id;
  gateway_session_id = request.session_name;
  broker_session_id = row.broker_session_id;
  work_id = grant.authorization_id;
  predecessor_work_id = predecessor_work_id;
  rotation_generation = row.rotation_generation;
  work_unit = snapshot.work_unit;
  amount_wei = snapshot.price_per_work_unit_wei;
  per_units = snapshot.units_per_price;
  quote = snapshot.quote;
  funded_value_wei = row.funded_value_wei;
  last_settlement_seq = row.last_settlement_seq;
  authorization_id = some grant.authorization_id;
  authorized_value_wei = some grant.max_debit_wei;
  require_terminal = require_terminal;
}

-- `snapshot.get("settlement_keys")`, which an empty snapshot does not have.
abbrev pub delegating : Option Snapshot → Result Error Snapshot
delegating none = err (Rows.settlement_failed "missing_delegation")
delegating (some snapshot) = pinned (some snapshot)

-- `_verify_close_settlement`: the verified evidence and the settlement itself.
unfoldable pub verify_close_settlement :
    Codec → CloseSession → PaymentSession → Bool → Sessions (VerifiedSessionSettlement × Fields)
verify_close_settlement codec request row require_terminal = do
  settlement ← or_raise request.settlement (Rows.settlement_failed "missing_settlement")
  raise_if (not (is_present (get "signature" settlement)))
      (Rows.settlement_failed "missing_signature")
  snapshot ← lift (delegating row.route_snapshot)
  predecessor_work_id ← lift (predecessor row)
  hint ← or_raise (authorization_hint settlement) (Rows.settlement_failed "missing_authorization")
  granted ← gets (λ db. find_grant row.id hint db.grants)
  grant ← or_raise granted (Rows.settlement_failed "missing_authorization")
  verified ← lift (
      checked (
        verify_session_settlement codec.fromisoformat
          (verify_envelope codec settlement snapshot.settlement_keys)
          (expectation request row snapshot grant predecessor_work_id require_terminal)))
  pure (verified, settlement)

-- A successor that may still be spent.
abbrev pub is_unresolved : ℕ → ℕ → SpendAuthorizationGrant → Bool
is_unresolved session_id revision g =
    g.session_id == session_id
    && ltb revision g.revision
    && (not (str_eq g.state "canceled_unused" || str_eq g.state "expired_unused")
        || not (is_some g.retired_at))

abbrev pub first_unresolved : ℕ → ℕ → List SpendAuthorizationGrant → Option SpendAuthorizationGrant
first_unresolved session_id revision [] = none
first_unresolved session_id revision (g ∷ rest) =
    if is_unresolved session_id revision g
    then some g
    else first_unresolved session_id revision rest

abbrev pub raise_unresolved : Option SpendAuthorizationGrant → Sessions (Unit {0})
raise_unresolved none = pure tt
raise_unresolved (some g) = raise (Rows.successor_unresolved g.authorization_id)

-- `_require_retired_successors`; the settled grant is there, since the evidence was verified with it.
unfoldable pub require_retired_successors : PaymentSession → String → Sessions (Unit {0})
require_retired_successors row authorization_id = do
  granted ← gets (λ db. find_grant row.id authorization_id db.grants)
  settled ← or_raise granted (Rows.settlement_failed "missing_authorization")
  unresolved ← gets (λ db. first_unresolved row.id settled.revision db.grants)
  raise_unresolved unresolved

-- `_infer_close_outcome`
abbrev pub infer_close_outcome : ℕ → ℕ → String
infer_close_outcome funded billed =
    if ltb funded billed then "UNDERFUNDED" else if ltb billed funded then "OVERFUNDED" else "EXACT"

abbrev pub signed_outcome : Outcome → ℕ → ℕ → String
signed_outcome unspecified funded billed = infer_close_outcome funded billed
signed_outcome o funded billed = outcome_name o

-- The fields that the close sets.
abbrev pub closed_row :
    PaymentSession → VerifiedSessionSettlement → ℕ → String → String → PaymentSession
closed_row row verified billed outcome authorization_id = record row {
  actual_units = some verified.debited_units;
  billed_value_wei = some (pos billed);
  outcome = some outcome;
  broker_session_id = some verified.broker_session_id;
  last_settlement_seq = verified.settlement_seq;
  authorization_id = some authorization_id;
  work_id = authorization_id;
}

-- The writes of a close whose charge is known.
unfoldable pub finish_session :
    CloseSession
    → PaymentSession
    → VerifiedSessionSettlement
    → Fields
    → ℤ
    → ℕ
    → String
    → Datetime
    → Sessions PaymentSession
finish_session request row verified settlement hold billed outcome now = do
  closed ← transition_state request.session_id row.state "closed" now
  release_unused row (hold -ℤ pos billed)
  authorization_id ←
      or_raise (authorization_hint settlement) (Rows.settlement_failed "missing_authorization")
  store_close (closed_row closed verified billed outcome authorization_id) authorization_id
      (settlement_event request.session_id "close" now (some verified.debited_units)
        (some (pos billed)) (some outcome) (some settlement))
      now

-- The close of a session that is not closed.
unfoldable pub close_open_session :
    Codec → CloseSession → PaymentSession → Datetime → Sessions PaymentSession
close_open_session codec request row now = do
  raise_if (not (str_eq row.accounting_mode "wholesale_account"))
      (Rows.settlement_failed "legacy_accounting_disabled")
  evidence ← verify_close_settlement codec request row true
  let verified = evidence.0
  let settlement = evidence.1
  raise_if (not (request.actual_units == verified.debited_units))
      (Rows.settlement_failed "work_units_mismatch")
  require_retired_successors row verified.work_id
  charge ← customer_charge row verified.debited_units verified.billed_value_wei
  let outcome = signed_outcome verified.outcome row.funded_value_wei charge.1
  raise_if (is_some request.outcome && not (str_eq (or_else request.outcome "") outcome))
      (Rows.settlement_failed "outcome_mismatch")
  finish_session request row verified settlement charge.0 charge.1 outcome now

abbrev pub find_close : ℕ → List PaymentSettlement → Option PaymentSettlement
find_close i [] = none
find_close i (s ∷ rest) =
    if i == s.session_id && str_eq s.event_type "close" then some s else find_close i rest

-- The JSON comparison is a parameter.
module _ (same : Fields → Fields → Bool) where
  abbrev pub is_recorded : Option PaymentSettlement → Option Fields → Bool
  is_recorded none settlement = false
  is_recorded (some previous) none = false
  is_recorded (some previous) (some settlement) = matches previous.raw_record
    where
      matches : Option Fields → Bool
      matches none = false
      matches (some raw) = same raw settlement

  abbrev pub units_match : ℕ → Option ℕ → Bool
  units_match n none = false
  units_match n (some m) = n == m

  abbrev pub outcome_match : Option String → Option String → Bool
  outcome_match none recorded = true
  outcome_match (some o) none = false
  outcome_match (some o) (some r) = str_eq o r

  -- `_replay_closed_session`
  unfoldable pub replay_closed_session : CloseSession → PaymentSession → Sessions PaymentSession
  replay_closed_session request row = do
    previous ← gets (λ db. find_close row.id db.settlements)
    raise_if
        (not (is_recorded previous request.settlement)
          || not (units_match request.actual_units row.actual_units)
          || not (outcome_match request.outcome row.outcome))
        (Rows.session_not_open row.state)
    pure row

  unfoldable pub close_session : Codec → CloseSession → Datetime → Sessions PaymentSession
  close_session codec request now = do
    found ← gets (λ db. owned_by request.user_id (find_session request.session_id db.sessions))
    row ← or_raise found Rows.session_not_found
    if is_closed row.state
        then replay_closed_session request row
        else close_open_session codec request row now
