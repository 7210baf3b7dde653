-- ===== src/Payments/Upkeep.antt =====
-- The release of a failed preparation and the scheduled expiry of claims (domains/payments/service.py
-- and domains/payments/repo.py).
use livepeer_open_clearingho.Base.{
  ℕ, ◌+◌, String, Option, none, some, List, [], ◌∷◌, Bool, not, ◌&&◌, ◌||◌, ◌==◌, str_eq, ltb,
  is_some, if◌then◌else◌,
}
use livepeer_open_clearingho.Base.Time.{Datetime}
use livepeer_open_clearingho.Base.Action.{pure, gets, modify, ◌>>=◌, ◌>>◌}
use livepeer_open_clearingho.Payments.Rows.{Key, PaymentIdempotencyKey, Payments, is_key}
use livepeer_open_clearingho.Payments.Claims.{CreateRequestClaim}

abbrev pub expired : PaymentIdempotencyKey → PaymentIdempotencyKey
expired row = record row { status = "expired" }

-- The condition of the UPDATE.
abbrev pub is_unpaid_lease : Key → String → Datetime → PaymentIdempotencyKey → Bool
is_unpaid_lease key broker_request_id lease_expires_at row =
    is_key key row.key
    && str_eq row.broker_request_id broker_request_id
    && str_eq row.status "in_flight"
    && row.expires_at.micros == lease_expires_at.micros
    && not (is_some row.payment_id)

abbrev pub release_keys :
    Key → String → Datetime → List PaymentIdempotencyKey → List PaymentIdempotencyKey
release_keys key broker lease [] = []
release_keys key broker lease (row ∷ rest) =
    (if is_unpaid_lease key broker lease row then expired row else row)
    ∷ release_keys key broker lease rest

-- The primary key of a preparation.
abbrev pub prepare_key : ℕ → String → Key
prepare_key user_id idempotency_key = record {
  user_id = user_id;
  operation = "sessions.prepare";
  idempotency_key = idempotency_key;
}

unfoldable pub release_session_preparation_claim :
    ℕ → String → String → Datetime → Payments (Unit {0})
release_session_preparation_claim user_id idempotency_key broker_request_id lease_expires_at =
    modify (λ db. record db {
      keys =
          release_keys (prepare_key user_id idempotency_key) broker_request_id lease_expires_at
            db.keys;
    })

abbrev pub release_lease : ℕ → String → String → Option Datetime → Payments (Unit {0})
release_lease user_id idempotency_key broker_request_id none = pure tt
release_lease user_id idempotency_key broker_request_id (some lease) =
    release_session_preparation_claim user_id idempotency_key broker_request_id lease

unfoldable pub release_failed_session_preparation :
    ℕ → String → CreateRequestClaim → Payments (Unit {0})
release_failed_session_preparation user_id idempotency_key claim =
    release_lease user_id idempotency_key claim.broker_request_id claim.lease_expires_at

abbrev pub is_stale : Datetime → PaymentIdempotencyKey → Bool
is_stale now row = str_eq row.status "in_flight" && ltb row.expires_at.micros now.micros

abbrev pub is_over : Datetime → PaymentIdempotencyKey → Bool
is_over now row =
    (str_eq row.status "completed" || str_eq row.status "failed")
    && ltb row.expires_at.micros now.micros

-- The count of the rows that change, and the rows that are left.
abbrev pub expire_keys : Datetime → List PaymentIdempotencyKey → ℕ × List PaymentIdempotencyKey
expire_keys now [] = (0, [])
expire_keys now (row ∷ rest) =
    let (count, left) = expire_keys now rest in
    if is_stale now row
    then (count + 1, expired row ∷ left)
    else if is_over now row
    then (count + 1, left)
    else (count, row ∷ left)

unfoldable pub expire_stale_idempotency_keys : Datetime → Payments ℕ
expire_stale_idempotency_keys now = do
  kept ← gets (λ db. expire_keys now db.keys)
  modify (λ db. record db { keys = kept.1 })
  pure kept.0
