-- ===== src/Payments/Rows.antt =====
-- The idempotency table of domains/payments/repo.py.
use livepeer_open_clearingho.Base.{
  ℕ, String, Option, none, some, List, [], ◌∷◌, Bool, ◌&&◌, ◌==◌, str_eq, if◌then◌else◌,
}
use livepeer_open_clearingho.Base.Json.{Fields}
use livepeer_open_clearingho.Base.Time.{Datetime}
use livepeer_open_clearingho.Base.Action.{Action}

-- The primary key: the account, the operation and the customer's key.
pub record Key : Type 0 where
  pub user_id : ℕ
  pub operation : String
  pub idempotency_key : String

pub record PaymentIdempotencyKey : Type 0 where
  pub key : Key
  pub api_key_id : ℕ
  pub request_fingerprint : String
  pub broker_request_id : String
  pub status : String
  pub http_status : Option ℕ
  pub response_payload : Option Fields
  pub payment_id : Option ℕ
  pub expires_at : Datetime

pub record Db : Type 0 where
  pub keys : List PaymentIdempotencyKey

-- The exceptions of errors.py, and the `RuntimeError` of a claim that disappeared.
pub data Error : Type 0 where
  idempotency_key_reuse idempotency_in_progress idempotency_outcome_unknown : Error
  claim_disappeared : Error

abbrev pub Payments : Type 0 → Type 0
Payments A = Action Error Db A

abbrev pub is_key : Key → Key → Bool
is_key k l =
    k.user_id == l.user_id
    && str_eq k.operation l.operation
    && str_eq k.idempotency_key l.idempotency_key

-- `_get_create_request`
abbrev pub find_key : Key → List PaymentIdempotencyKey → Option PaymentIdempotencyKey
find_key k [] = none
find_key k (row ∷ rest) = if is_key k row.key then some row else find_key k rest

abbrev pub write_key :
    PaymentIdempotencyKey → List PaymentIdempotencyKey → List PaymentIdempotencyKey
write_key row [] = []
write_key row (r ∷ rest) = if is_key row.key r.key then row ∷ rest else r ∷ write_key row rest

abbrev pub put_key : PaymentIdempotencyKey → Db → Db
put_key row db = record db { keys = write_key row db.keys }
