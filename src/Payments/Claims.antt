-- ===== src/Payments/Claims.antt =====
-- `claim_create_request`, `complete_create_request` and `fail_create_request` of
-- domains/payments/service.py. A claim reads its row and then tries to take it: another request may
-- commit in between, so that `claim_from` takes the row that was read beside the tables.
pub mod Leases
pub mod Exclusive
pub mod Replays
use livepeer_open_clearingho.Base.{
  ℕ, ◌+◌, ◌≤◌, String, Option, none, some, List, [], ◌∷◌, ◌++◌, Bool, true, false, not, ◌&&◌, ◌||◌,
  ◌==◌, str_eq, leb, ltb, is_some, if◌then◌else◌,
}
use livepeer_open_clearingho.Base.Json.{Fields, end}
use livepeer_open_clearingho.Base.Time.{Datetime, add_seconds}
use livepeer_open_clearingho.Base.Result.{Result, ok, err}
use livepeer_open_clearingho.Base.Action.{pure, raise, gets, lift, modify, ◌>>=◌, ◌>>◌}
use livepeer_open_clearingho.Payments.Rows
use livepeer_open_clearingho.Payments.Rows.{
  Key, PaymentIdempotencyKey, Db, Error, Payments, find_key, put_key,
}

pub record CreateRequestClaim : Type 0 where
  pub broker_request_id : String
  pub replay_status : Option ℕ
  pub replay_payload : Option Fields
  pub lease_expires_at : Option Datetime

abbrev pub is_settled : String → Bool
is_settled s = str_eq s "completed" || str_eq s "failed" || str_eq s "outcome_unknown"

-- `row.response_payload or {}`
abbrev pub payload_of : Option Fields → Fields
payload_of none = end
payload_of (some payload) = payload

abbrev pub recorded : PaymentIdempotencyKey → Option ℕ → Result Error CreateRequestClaim
recorded row none = err Rows.idempotency_outcome_unknown
recorded row (some http_status) = ok (record {
  broker_request_id = row.broker_request_id;
  replay_status = some http_status;
  replay_payload = some (payload_of row.response_payload);
  lease_expires_at = none;
})

-- `_claim_from_existing`
unfoldable pub claim_from_existing :
    PaymentIdempotencyKey → String → Result Error CreateRequestClaim
claim_from_existing row request_fingerprint =
    if not (str_eq row.request_fingerprint request_fingerprint)
    then err Rows.idempotency_key_reuse
    else if str_eq row.status "in_flight"
    then err Rows.idempotency_in_progress
    else if str_eq row.status "expired"
    then err Rows.idempotency_outcome_unknown
    else if not (is_settled row.status)
    then err Rows.idempotency_outcome_unknown
    else recorded row row.http_status

-- The arguments of a claim. `broker_request_id` is the `uuid4` that an insert draws.
pub record ClaimRequest : Type 0 where
  pub key : Key
  pub api_key_id : ℕ
  pub request_fingerprint : String
  pub inflight_timeout_seconds : ℕ
  pub broker_request_id : String

abbrev pub later_of : Datetime → Datetime → Datetime
later_of s t = if ltb s.micros t.micros then t else s

abbrev pub after_expiry : Datetime → Datetime
after_expiry t = record { micros = t.micros + 1; aware = true }

-- The expiry of a claim of a row that was read: for a preparation it is a fence, which increases.
abbrev pub fenced : String → Datetime → Datetime → Datetime
fenced operation previous claim_expires_at =
    if str_eq operation "sessions.prepare"
    then later_of claim_expires_at (after_expiry previous)
    else claim_expires_at

abbrev pub is_reclaimable_status : String → Bool
is_reclaimable_status s = str_eq s "in_flight" || str_eq s "expired"

-- The conditions of the UPDATE besides the primary key; `now` is the second reading of the clock.
abbrev pub may_reclaim : PaymentIdempotencyKey → Datetime → Datetime → Bool
may_reclaim row expires_at now =
    is_reclaimable_status row.status
    && row.expires_at.micros == expires_at.micros
    && (leb row.expires_at.micros now.micros
        || str_eq row.key.operation "sessions.prepare" && str_eq row.status "expired")

abbrev pub leased : String → Datetime → CreateRequestClaim
leased broker_request_id expires_at = record {
  broker_request_id = broker_request_id;
  replay_status = none;
  replay_payload = none;
  lease_expires_at = some expires_at;
}

abbrev pub taken : PaymentIdempotencyKey → Datetime → PaymentIdempotencyKey
taken row expires_at = record row { status = "in_flight"; expires_at = expires_at }

-- The UPDATE, on the row that is in the table now, and what follows on its count of rows.
unfoldable pub reclaim :
    Option PaymentIdempotencyKey
    → PaymentIdempotencyKey
    → ClaimRequest
    → Datetime
    → Datetime
    → Payments CreateRequestClaim
reclaim none row request expires_at now = raise Rows.claim_disappeared
reclaim (some current) row request expires_at now =
    if may_reclaim current row.expires_at now
    then (do
      modify (put_key (taken current expires_at))
      pure (leased row.broker_request_id expires_at))
    else lift (claim_from_existing current request.request_fingerprint)

abbrev pub new_key : ClaimRequest → Datetime → PaymentIdempotencyKey
new_key request expires_at = record {
  key = request.key;
  api_key_id = request.api_key_id;
  request_fingerprint = request.request_fingerprint;
  broker_request_id = request.broker_request_id;
  status = "in_flight";
  http_status = none;
  response_payload = none;
  payment_id = none;
  expires_at = expires_at;
}

-- The INSERT, which the primary key refuses where another request won.
unfoldable pub insert_claim :
    Option PaymentIdempotencyKey → ClaimRequest → Datetime → Payments CreateRequestClaim
insert_claim (some winner) request expires_at =
    lift (claim_from_existing winner request.request_fingerprint)
insert_claim none request expires_at = do
  modify (λ db. record db { keys = db.keys ++ new_key request expires_at ∷ [] })
  pure (leased request.broker_request_id expires_at)

-- A claim whose row was read. `first` and `second` are what the clock returns.
unfoldable pub claim_from :
    Option PaymentIdempotencyKey → ClaimRequest → Datetime → Datetime → Payments CreateRequestClaim
claim_from none request first second = do
  current ← gets (λ db. find_key request.key db.keys)
  insert_claim current request (add_seconds first request.inflight_timeout_seconds)
claim_from (some row) request first second =
    if not (str_eq row.request_fingerprint request.request_fingerprint)
    then lift (claim_from_existing row request.request_fingerprint)
    else if is_reclaimable_status row.status
    then (do
      current ← gets (λ db. find_key request.key db.keys)
      reclaim current row request
          (fenced request.key.operation row.expires_at
            (add_seconds first request.inflight_timeout_seconds))
          second)
    else lift (claim_from_existing row request.request_fingerprint)

-- A claim with no other request in between.
unfoldable pub claim_create_request :
    ClaimRequest → Datetime → Datetime → Payments CreateRequestClaim
claim_create_request request first second = do
  row ← gets (λ db. find_key request.key db.keys)
  claim_from row request first second

abbrev pub or_disappeared : Option PaymentIdempotencyKey → Payments PaymentIdempotencyKey
or_disappeared none = raise Rows.claim_disappeared
or_disappeared (some row) = pure row

abbrev pub finished :
    PaymentIdempotencyKey → String → ℕ → Fields → Option ℕ → Datetime → PaymentIdempotencyKey
finished row status http_status response_payload payment_id expires_at = record row {
  status = status;
  http_status = some http_status;
  response_payload = some response_payload;
  payment_id = payment_id;
  expires_at = expires_at;
}

unfoldable pub complete_create_request :
    Key → ℕ → Fields → Datetime → ℕ → Option ℕ → Payments (Unit {0})
complete_create_request key http_status response_payload now retention_seconds payment_id = do
  found ← gets (λ db. find_key key db.keys)
  row ← or_disappeared found
  modify (
      put_key (
        finished row "completed" http_status response_payload payment_id
          (add_seconds now retention_seconds)))

unfoldable pub fail_create_request : Key → ℕ → Fields → Datetime → ℕ → Bool → Payments (Unit {0})
fail_create_request key http_status response_payload now retention_seconds retain_tombstone = do
  found ← gets (λ db. find_key key db.keys)
  row ← or_disappeared found
  modify (
      put_key (
        finished row (if retain_tombstone then "outcome_unknown" else "failed") http_status
          response_payload row.payment_id (add_seconds now retention_seconds)))
