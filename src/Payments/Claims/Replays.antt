-- ===== src/Payments/Claims/Replays.antt =====
-- What a create request answers after its end, and after a crash (domains/payments/service.py).
use livepeer_open_clearingho.Base.{
  ℕ, ◌≤◌, ◌<◌, ◌≡◌, ◌≢◌, ◌⊎◌, inl, inr, refl, sym, ap, subst, ◌∙◌, String, Option, none, some, true,
  false, not, str_eq, eq_iff, arith, Bool-cases,
}
use livepeer_open_clearingho.Base.Json.{Fields}
use livepeer_open_clearingho.Base.Time.{Datetime, add_seconds}
use livepeer_open_clearingho.Base.Result.{ok}
use livepeer_open_clearingho.Payments.Rows.{PaymentIdempotencyKey, Db, find_key, write_key, put_key}
use livepeer_open_clearingho.Payments.Claims.{
  CreateRequestClaim, ClaimRequest, claim_from_existing, fenced, is_reclaimable_status, may_reclaim,
  leased, taken, reclaim, claim_from, claim_create_request, finished, complete_create_request,
}
use livepeer_open_clearingho.Payments.Claims.Exclusive.{find_key-key, find_key-write}

-- The answer of a completed request.
abbrev pub answer : String → ℕ → Fields → CreateRequestClaim
answer broker_request_id http_status response_payload = record {
  broker_request_id = broker_request_id;
  replay_status = some http_status;
  replay_payload = some response_payload;
  lease_expires_at = none;
}

same_fingerprint : (s t : String) → s ≡ t → not (str_eq s t) ≡ false
same_fingerprint s t h = ground (arith, eq_iff s t)

completed_answers :
    (request : ClaimRequest) (http_status : ℕ) (payload : Fields) (first second : Datetime)
    (db : Db) (row : PaymentIdempotencyKey)
    → find_key request.key db.keys ≡ some row
    → not (str_eq row.request_fingerprint request.request_fingerprint) ≡ false
    → row.status ≡ "completed"
    → row.http_status ≡ some http_status
    → row.response_payload ≡ some payload
    → claim_create_request request first second db
      ≡ (ok (answer row.broker_request_id http_status payload), db)
unfolding claim_create_request claim_from claim_from_existing
completed_answers request http_status payload first second db row found same status http recorded =
    rw (found, same, status, http, recorded)

-- A request that was completed is answered again, to the same request, by the recorded status and
-- payload under the same broker request id, and the claim changes nothing.
pub complete_then_claim :
    (request : ClaimRequest) (http_status : ℕ) (payload : Fields) (now : Datetime)
    (retention_seconds : ℕ) (payment_id : Option ℕ) (first second : Datetime) (db db' : Db)
    (row : PaymentIdempotencyKey)
    → find_key request.key db.keys ≡ some row
    → row.request_fingerprint ≡ request.request_fingerprint
    → complete_create_request request.key http_status payload now retention_seconds payment_id db
      ≡ (ok tt, db')
    → claim_create_request request first second db'
      ≡ (ok (answer row.broker_request_id http_status payload), db')
unfolding complete_create_request
complete_then_claim request http_status payload now retention_seconds payment_id first second db db'
      row found same done =
    let row' =
      finished row "completed" http_status payload payment_id (add_seconds now retention_seconds) in
    let own = find_key-key request.key db.keys row found in
    let db'_is : put_key row' db ≡ db' = ap (λ r. r.1) (rw found at done) in
    completed_answers request http_status payload first second db' row'
      (ap (λ d. find_key request.key d.keys) (sym db'_is)
        ∙ subst (λ k. find_key k (write_key row' db.keys) ≡ some row') own
            (find_key-write row' db.keys row (ap (λ k. find_key k db.keys) own ∙ found)))
      (same_fingerprint row.request_fingerprint request.request_fingerprint same) refl refl refl

-- A request whose claimant crashed can be claimed again: once its lease has expired, the same
-- request leases the row under the same broker request id. The new lease ends no earlier than the
-- timeout of the request after the first reading of the clock, and exactly then unless the request is
-- a preparation; the lease of a preparation ends after the one before.
pub expired_claim_is_leased :
    (request : ClaimRequest) (first second : Datetime) (db : Db) (row : PaymentIdempotencyKey)
    → find_key request.key db.keys ≡ some row
    → row.request_fingerprint ≡ request.request_fingerprint
    → is_reclaimable_status row.status ≡ true
    → row.expires_at.micros ≤ second.micros
    → (expires_at : Datetime) × (claim_create_request request first second db
        ≡ (ok (leased row.broker_request_id expires_at), put_key (taken row expires_at) db))
      × ((add_seconds first request.inflight_timeout_seconds).micros ≤ expires_at.micros)
      × ((request.key.operation ≡ "sessions.prepare" × row.expires_at.micros < expires_at.micros)
          ⊎ (request.key.operation ≢ "sessions.prepare"
              × (expires_at ≡ add_seconds first request.inflight_timeout_seconds)))
unfolding claim_create_request claim_from reclaim
expired_claim_is_leased request first second db row found same waiting over =
    let e =
      fenced request.key.operation row.expires_at
        (add_seconds first request.inflight_timeout_seconds) in
    (
      e,
      rw (
        found,
        same_fingerprint row.request_fingerprint request.request_fingerprint same,
        waiting,
        found,
        may,
      ),
      (fence request.key.operation row.expires_at
          (add_seconds first request.inflight_timeout_seconds)).0,
      (fence request.key.operation row.expires_at
          (add_seconds first request.inflight_timeout_seconds)).1,
    )
  where
    may : may_reclaim row row.expires_at second ≡ true
    may = ground (arith, waiting, over)

    different :
        (operation : String)
        → str_eq operation "sessions.prepare" ≡ false
        → operation ≢ "sessions.prepare"
    different operation other same = cc ((eq_iff operation "sessions.prepare").1 same)

    fence :
        (operation : String) (previous claim_expires_at : Datetime)
        → (claim_expires_at.micros ≤ (fenced operation previous claim_expires_at).micros)
          × ((operation ≡ "sessions.prepare"
                × previous.micros < (fenced operation previous claim_expires_at).micros)
              ⊎ (operation ≢ "sessions.prepare"
                  × (fenced operation previous claim_expires_at ≡ claim_expires_at)))
    fence operation previous claim_expires_at =
        elim (Bool-cases (str_eq operation "sessions.prepare")) [
          | inl prepare ↦ (
            rw prepare (ground arith),
            inl ((eq_iff operation "sessions.prepare").0 prepare, rw prepare (ground arith)),
          )
          | inr other ↦ (rw other (ground arith), inr (different operation other, rw other refl))
        ]
