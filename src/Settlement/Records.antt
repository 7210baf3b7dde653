-- ===== src/Settlement/Records.antt =====
-- The signed records (the protobuf messages that settlement_verification.py reads), what LOC expects
-- of them, and the errors. Wei values travel as big-endian bytes; counters are unsigned.
use livepeer_open_clearingho.Base.{
  ℕ, ◌+◌, ◌*◌, String, Option, none, some, List, [], ◌∷◌, Bool, true, false, ◌&&◌, ◌==◌, str_eq,
  bytes_eq, if◌then◌else◌,
}
use livepeer_open_clearingho.Base.Time.{Datetime}
use livepeer_open_clearingho.Base.Result.{Result}

-- `SettlementVerificationError` with its code, the `TypeError` that Python raises where a naive and an
-- aware `datetime` are compared, and the `ValueError` of `SettlementOutcome.Name`.
pub data Error : Type 0 where
  rejected : String → Error
  type_error value_error : Error

abbrev pub Checked : Type 0 → Type 0
Checked A = Result Error A

-- The enumeration is open: a record can carry a number that has no name.
pub data Outcome : Type 0 where
  unspecified exact underfunded overfunded stopped_at_budget topped_up debit_failed : Outcome
  unrecognized : ℕ → Outcome

-- `record.SettlementOutcome.Name(record.outcome)` has no name to return.
abbrev pub is_unrecognized : Outcome → Bool
is_unrecognized (unrecognized n) = true
is_unrecognized o = false

abbrev pub is_debit_failed : Outcome → Bool
is_debit_failed debit_failed = true
is_debit_failed o = false

pub record QuoteRef : Type 0 where
  pub quote_id : String
  pub quote_version : ℕ
  pub constraint_fingerprint : List ℕ
  pub route_fingerprint : List ℕ

-- The fields of `SettlementRecord` that the checks read.
pub record SettlementRecord : Type 0 where
  pub wholesale_account_id : String
  pub settlement_domain_id : String
  pub accepted_quote_ref : QuoteRef
  pub request_id : String
  pub job_id : String
  pub work_id : String
  pub predecessor_work_id : String
  pub work_unit_name : String
  pub gateway_session_id : String
  pub session_id : String
  pub authorization_id : String
  pub rotation_generation : ℕ
  pub settlement_seq : ℕ
  pub state : String
  pub actual_units : ℕ
  pub billed_units : ℕ
  pub claimed_units : ℕ
  pub debited_units : ℕ
  pub generation_debited_units : ℕ
  pub payment_cumulative_units : ℕ
  pub per_units : ℕ
  pub amount_wei : List ℕ
  pub billed_value_wei : List ℕ
  pub funded_value_wei : List ℕ
  pub generation_billed_value_wei : List ℕ
  pub authorized_value_wei : List ℕ
  pub reserved_value_wei : List ℕ
  pub released_value_wei : List ℕ
  pub outcome : Outcome
  pub breakdown : List (String × String)

-- `int.from_bytes(value, "big")`
abbrev pub from_bytes : ℕ → List ℕ → ℕ
from_bytes acc [] = acc
from_bytes acc (b ∷ bs) = from_bytes (acc * 256 + b) bs

abbrev pub wei : List ℕ → ℕ
wei = from_bytes 0

-- `record.breakdown.get(key)`
abbrev pub breakdown_get : String → List (String × String) → Option String
breakdown_get key [] = none
breakdown_get key ((k, v) ∷ rest) = if str_eq k key then some v else breakdown_get key rest

abbrev pub quote_matches : QuoteRef → QuoteRef → Bool
quote_matches q e =
    str_eq q.quote_id e.quote_id
    && q.quote_version == e.quote_version
    && bytes_eq q.constraint_fingerprint e.constraint_fingerprint
    && bytes_eq q.route_fingerprint e.route_fingerprint

-- `JobSettlementExpectation`; the four quote fields are one record.
pub record JobSettlementExpectation : Type 0 where
  pub wholesale_account_id : String
  pub settlement_domain_id : String
  pub request_id : String
  pub job_id : String
  pub work_id : String
  pub work_unit : String
  pub actual_units : ℕ
  pub max_total_units : ℕ
  pub funded_value_wei : ℕ
  pub amount_wei : ℕ
  pub per_units : ℕ
  pub quote : QuoteRef
  pub authorization_id : Option String
  pub authorized_value_wei : Option ℕ

pub record VerifiedJobSettlement : Type 0 where
  pub actual_units : ℕ
  pub billed_value_wei : ℕ
  pub outcome : Outcome
  pub issued_at : Datetime
  pub signing_public_key : String

pub record SessionSettlementExpectation : Type 0 where
  pub wholesale_account_id : String
  pub settlement_domain_id : String
  pub gateway_session_id : String
  pub broker_session_id : Option String
  pub work_id : String
  pub predecessor_work_id : String
  pub rotation_generation : ℕ
  pub work_unit : String
  pub amount_wei : ℕ
  pub per_units : ℕ
  pub quote : QuoteRef
  pub funded_value_wei : ℕ
  pub last_settlement_seq : ℕ
  pub authorization_id : Option String
  pub authorized_value_wei : Option ℕ
  pub require_terminal : Bool
