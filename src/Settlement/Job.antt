-- ===== src/Settlement/Job.antt =====
-- `verify_job_settlement` of settlement_verification.py, on what `_verify_envelope` returned.
pub mod Sound
use livepeer_open_clearingho.Base.{
  ℕ, String, Option, none, some, Bool, not, ◌||◌, ◌&&◌, str_eq, ltb, ◌==◌, is_some,
}
use livepeer_open_clearingho.Base.Time.{Datetime}
use livepeer_open_clearingho.Base.Result.{Result, ok, refuse, ◌>>=◌, ◌>>◌}
use livepeer_open_clearingho.Settlement.Records.{
  Checked, value_error, is_unrecognized, rejected, SettlementRecord, JobSettlementExpectation,
  VerifiedJobSettlement, wei, quote_matches,
}
use livepeer_open_clearingho.Settlement.Bill.{job_normative_bill}
use livepeer_open_clearingho.Settlement.Accounting.{
  reject_failed_debit, verify_wholesale_account, verify_settlement_domain,
  verify_authorization_accounting,
}

-- The checks from the signed account to the quote reference.
unfoldable pub verify_job_identity :
    SettlementRecord → JobSettlementExpectation → Checked (Unit {0})
verify_job_identity record' expected = do
  refuse (not (str_eq record'.request_id expected.request_id)) (rejected "request_id_mismatch")
  refuse (not (str_eq record'.job_id expected.job_id)) (rejected "job_id_mismatch")
  refuse (not (str_eq record'.work_id expected.work_id)) (rejected "work_id_mismatch")
  refuse (not (str_eq record'.work_unit_name expected.work_unit)) (rejected "work_unit_mismatch")
  refuse
      (not (record'.actual_units == expected.actual_units)
        || not (record'.billed_units == expected.actual_units)
        || not (record'.debited_units == expected.actual_units))
      (rejected "work_units_mismatch")
  refuse (ltb expected.max_total_units record'.actual_units) (rejected "usage_ceiling_exceeded")
  refuse (not (quote_matches record'.accepted_quote_ref expected.quote)) (rejected "quote_mismatch")

-- The checks of the billed value.
unfoldable pub verify_job_value : SettlementRecord → JobSettlementExpectation → Checked (Unit {0})
verify_job_value record' expected = do
  let billed_value = wei record'.billed_value_wei
  normative_bill ← job_normative_bill record' expected
  refuse (not (billed_value == normative_bill)) (rejected "billed_value_mismatch")
  refuse (not (is_some expected.authorization_id) && ltb expected.funded_value_wei billed_value)
      (rejected "funding_ceiling_exceeded")
  verify_authorization_accounting record' expected.authorization_id expected.authorized_value_wei
      billed_value

unfoldable pub verify_job_settlement :
    Checked (SettlementRecord × Datetime × String)
    → JobSettlementExpectation
    → Checked VerifiedJobSettlement
verify_job_settlement envelope expected = do
  verified ← envelope
  let record' = verified.0
  reject_failed_debit record'
  verify_wholesale_account record' expected.wholesale_account_id
  verify_settlement_domain record' expected.settlement_domain_id
  verify_job_identity record' expected
  verify_job_value record' expected
  refuse (is_unrecognized record'.outcome) value_error
  ok (record {
    actual_units = record'.actual_units;
    billed_value_wei = wei record'.billed_value_wei;
    outcome = record'.outcome;
    issued_at = verified.1;
    signing_public_key = verified.2;
  })
