-- ===== src/Settlement/NonAdmission.antt =====
-- `verify_non_admission` of settlement_verification.py: the signed statement of a broker that it
-- did not admit a job.
pub mod Sound
use livepeer_open_clearingho.Base.{
  ℕ, String, Option, none, some, List, Bool, true, false, not, ◌||◌, str_eq, bytes_eq, ltb,
}
use livepeer_open_clearingho.Base.Json.{Fields, get, as_text}
use livepeer_open_clearingho.Base.Time.{Datetime}
use livepeer_open_clearingho.Base.Result.{Result, ok, err, refuse, ◌>>=◌, ◌>>◌}
use livepeer_open_clearingho.Settlement.Records.{Checked, rejected, QuoteRef, quote_matches}
use livepeer_open_clearingho.Settlement.Keys.{Delegation, authorize_key}
use livepeer_open_clearingho.Settlement.Diagnostics.{parse_timestamp}
use livepeer_open_clearingho.Settlement.Envelope.{Codec, or_reject, signed_payload}

-- The values of the protobuf enumeration, which is open.
pub data NonAdmissionOutcome : Type 0 where
  outcome_unspecified not_admitted : NonAdmissionOutcome
  unrecognized : ℕ → NonAdmissionOutcome

abbrev pub is_not_admitted : NonAdmissionOutcome → Bool
is_not_admitted not_admitted = true
is_not_admitted o = false

pub record NonAdmissionRecord : Type 0 where
  pub wholesale_account_id : String
  pub settlement_domain_id : String
  pub protocol : String
  pub request_id : String
  pub work_id : String
  pub sender : List ℕ
  pub recipient : List ℕ
  pub accepted_quote_ref : QuoteRef
  pub broker_eth_address : String
  pub observed_at : String
  pub coverage_started_at : String
  pub outcome : NonAdmissionOutcome

-- `NonAdmissionExpectation`; the four quote fields are one record.
pub record NonAdmissionExpectation : Type 0 where
  pub wholesale_account_id : String
  pub settlement_domain_id : String
  pub protocol : String
  pub request_id : String
  pub work_id : String
  pub sender : List ℕ
  pub recipient : List ℕ
  pub quote : QuoteRef
  pub broker_eth_address : String
  pub job_issued_at : Datetime

pub record VerifiedNonAdmission : Type 0 where
  pub observed_at : Datetime
  pub coverage_started_at : Datetime
  pub signing_public_key : String

-- The signed scope. `lower` is `str.lower`.
unfoldable pub verify_non_admission_scope :
    (String → String) → NonAdmissionRecord → NonAdmissionExpectation → Checked (Unit {0})
verify_non_admission_scope lower record' expected = do
  refuse
      (str_eq expected.settlement_domain_id ""
        || not (str_eq record'.settlement_domain_id expected.settlement_domain_id))
      (rejected "settlement_domain_mismatch")
  refuse
      (str_eq expected.wholesale_account_id ""
        || not (str_eq record'.wholesale_account_id expected.wholesale_account_id))
      (rejected "wholesale_account_mismatch")
  refuse (not (is_not_admitted record'.outcome)) (rejected "non_admission_outcome_mismatch")
  refuse (not (str_eq record'.protocol expected.protocol)) (rejected "protocol_mismatch")
  refuse (not (str_eq record'.request_id expected.request_id)) (rejected "request_id_mismatch")
  refuse (not (str_eq record'.work_id expected.work_id)) (rejected "work_id_mismatch")
  refuse (not (bytes_eq record'.sender expected.sender)) (rejected "sender_mismatch")
  refuse (not (bytes_eq record'.recipient expected.recipient)) (rejected "recipient_mismatch")
  refuse (not (quote_matches record'.accepted_quote_ref expected.quote)) (rejected "quote_mismatch")
  refuse (not (str_eq (lower record'.broker_eth_address) (lower expected.broker_eth_address)))
      (rejected "broker_identity_mismatch")

-- The order of the coverage, the issuance of the job and the observation.
unfoldable pub verify_coverage : Datetime → Datetime → Datetime → Checked (Unit {0})
verify_coverage coverage_started_at issued_at observed_at = do
  refuse (not issued_at.aware) (rejected "invalid_job_issued_at")
  refuse (ltb issued_at.micros coverage_started_at.micros) (rejected "coverage_gap")
  refuse (ltb observed_at.micros issued_at.micros) (rejected "observation_precedes_job")
  refuse (ltb observed_at.micros coverage_started_at.micros) (rejected "invalid_coverage")

-- `parse` is `json_format.ParseDict` into a `NonAdmissionRecord`.
unfoldable pub verify_non_admission :
    Codec
    → (Fields → Option NonAdmissionRecord)
    → (String → String)
    → Fields
    → List Delegation
    → NonAdmissionExpectation
    → Checked VerifiedNonAdmission
verify_non_admission codec parse lower envelope settlement_keys expected = do
  signed ← signed_payload codec envelope
  let public_key = signed.1
  record' ← or_reject (parse signed.0) "malformed_payload"
  observed_at ← parse_timestamp codec.fromisoformat (some record'.observed_at) "observed_at"
  coverage_started_at ←
      parse_timestamp codec.fromisoformat (some record'.coverage_started_at) "coverage_started_at"
  authorize_key codec.fromisoformat public_key observed_at settlement_keys
  verify_non_admission_scope lower record' expected
  verify_coverage coverage_started_at expected.job_issued_at observed_at
  ok (record {
    observed_at = observed_at;
    coverage_started_at = coverage_started_at;
    signing_public_key = public_key;
  })
