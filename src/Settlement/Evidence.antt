-- ===== src/Settlement/Evidence.antt =====
-- `verify_session_settlement` of settlement_verification.py, on what `_verify_envelope` returned.
pub mod Sound
use livepeer_open_clearingho.Base.{ℕ, String, Option}
use livepeer_open_clearingho.Base.Time.{Datetime}
use livepeer_open_clearingho.Base.Result.{Result, ok, refuse, ◌>>=◌, ◌>>◌}
use livepeer_open_clearingho.Settlement.Records.{
  Checked, value_error, is_unrecognized, SettlementRecord, SessionSettlementExpectation, Outcome,
}
use livepeer_open_clearingho.Settlement.Accounting.{
  reject_failed_debit, verify_wholesale_account, verify_settlement_domain,
}
use livepeer_open_clearingho.Settlement.Session.{verify_session_identity, verify_session_accounting}
use livepeer_open_clearingho.Settlement.Diagnostics.{Diagnostics, verify_session_diagnostics}

-- The four fields of the diagnostics are one record.
pub record VerifiedSessionSettlement : Type 0 where
  pub broker_session_id : String
  pub work_id : String
  pub predecessor_work_id : String
  pub rotation_generation : ℕ
  pub settlement_seq : ℕ
  pub state : String
  pub claimed_units : ℕ
  pub debited_units : ℕ
  pub billed_value_wei : ℕ
  pub outcome : Outcome
  pub issued_at : Datetime
  pub signing_public_key : String
  pub diagnostics : Diagnostics

-- `iso` parses a timestamp.
unfoldable pub verify_session_settlement :
    (String → Option Datetime)
    → Checked (SettlementRecord × Datetime × String)
    → SessionSettlementExpectation
    → Checked VerifiedSessionSettlement
verify_session_settlement iso envelope expected = do
  verified ← envelope
  let record' = verified.0
  reject_failed_debit record'
  verify_wholesale_account record' expected.wholesale_account_id
  verify_settlement_domain record' expected.settlement_domain_id
  verify_session_identity record' expected
  billed_value ← verify_session_accounting record' expected
  diagnostics ← verify_session_diagnostics iso record'
  refuse (is_unrecognized record'.outcome) value_error
  ok (record {
    broker_session_id = record'.session_id;
    work_id = record'.work_id;
    predecessor_work_id = record'.predecessor_work_id;
    rotation_generation = record'.rotation_generation;
    settlement_seq = record'.settlement_seq;
    state = record'.state;
    claimed_units = record'.claimed_units;
    debited_units = record'.debited_units;
    billed_value_wei = billed_value;
    outcome = record'.outcome;
    issued_at = verified.1;
    signing_public_key = verified.2;
    diagnostics = diagnostics;
  })
