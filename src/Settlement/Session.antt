-- ===== src/Settlement/Session.antt =====
-- `_verify_session_identity` and `_verify_session_accounting` of settlement_verification.py.
pub mod Sound
use livepeer_open_clearingho.Base.{
  ℕ, String, Option, none, some, Bool, true, false, not, ◌||◌, ◌&&◌, str_eq, ltb, leb, ◌==◌,
  is_some, if◌then◌else◌,
}
use livepeer_open_clearingho.Base.Result.{Result, ok, refuse, ◌>>=◌, ◌>>◌}
use livepeer_open_clearingho.Settlement.Records.{
  Checked, rejected, SettlementRecord, SessionSettlementExpectation, wei, quote_matches,
  breakdown_get, Error,
}
use livepeer_open_clearingho.Settlement.Bill.{bill}
use livepeer_open_clearingho.Settlement.Accounting.{
  reject_failed_debit, verify_wholesale_account, verify_settlement_domain,
  verify_authorization_accounting,
}

-- `expected is not None and value != expected`
abbrev pub forked : Option String → String → Bool
forked none value = false
forked (some expected) value = not (str_eq value expected)

unfoldable pub verify_session_identity :
    SettlementRecord → SessionSettlementExpectation → Checked (Unit {0})
verify_session_identity record' expected = do
  refuse (not (str_eq record'.gateway_session_id expected.gateway_session_id))
      (rejected "gateway_session_id_mismatch")
  refuse (str_eq record'.session_id "") (rejected "missing_session_id")
  refuse (forked expected.broker_session_id record'.session_id) (rejected "session_id_mismatch")
  refuse (not (str_eq record'.job_id "")) (rejected "job_id_present")
  refuse (not (str_eq record'.work_id expected.work_id)) (rejected "work_id_mismatch")
  refuse (not (str_eq record'.predecessor_work_id expected.predecessor_work_id))
      (rejected "predecessor_mismatch")
  refuse (not (record'.rotation_generation == expected.rotation_generation))
      (rejected "rotation_generation_mismatch")
  refuse (not (str_eq record'.work_unit_name expected.work_unit)) (rejected "work_unit_mismatch")
  refuse (not (quote_matches record'.accepted_quote_ref expected.quote)) (rejected "quote_mismatch")

-- `record.breakdown.get("termination_reason") == "authorization_exhausted"`
abbrev pub is_exhausted_reason : Option String → Bool
is_exhausted_reason none = false
is_exhausted_reason (some reason) = str_eq reason "authorization_exhausted"

-- The local variable `exhausted`.
unfoldable pub exhausted : SettlementRecord → SessionSettlementExpectation → Bool
exhausted record' expected =
    is_some expected.authorization_id
    && str_eq record'.state "closed"
    && is_exhausted_reason (breakdown_get "termination_reason" record'.breakdown)
    && ltb record'.debited_units record'.claimed_units

-- The check of an exhausted session; `bill` raises before the reservation is looked at.
unfoldable pub verify_exhausted :
    SettlementRecord → SessionSettlementExpectation → Bool → Checked (Unit {0})
verify_exhausted record' expected false = ok tt
verify_exhausted record' expected true = do
  due ← bill record'.debited_units expected.amount_wei expected.per_units
  refuse (not (wei record'.billed_value_wei == due) || not (wei record'.reserved_value_wei == 0))
      (rejected "authorization_accounting_invalid")

unfoldable pub verify_session_units :
    SettlementRecord → SessionSettlementExpectation → Checked (Unit {0})
verify_session_units record' expected = do
  refuse
      (not (wei record'.amount_wei == expected.amount_wei)
        || not (record'.per_units == expected.per_units))
      (rejected "pricing_mismatch")
  refuse (leb record'.settlement_seq expected.last_settlement_seq) (rejected "settlement_replay")
  refuse (expected.require_terminal && not (str_eq record'.state "closed"))
      (rejected "session_not_terminal")
  refuse (not (record'.claimed_units == record'.debited_units) && not (exhausted record' expected))
      (rejected "claim_debit_gap")
  refuse
      (not (record'.actual_units == record'.debited_units)
        || not (record'.billed_units == record'.debited_units))
      (rejected "work_units_mismatch")
  refuse (ltb record'.debited_units record'.generation_debited_units)
      (rejected "generation_units_invalid")

unfoldable pub verify_session_accounting :
    SettlementRecord → SessionSettlementExpectation → Checked ℕ
verify_session_accounting record' expected = do
  verify_session_units record' expected
  let billed_value = wei record'.billed_value_wei
  verify_exhausted record' expected (exhausted record' expected)
  let signed_funded = wei record'.funded_value_wei
  let generation_billed = wei record'.generation_billed_value_wei
  refuse (ltb expected.funded_value_wei billed_value || ltb expected.funded_value_wei signed_funded)
      (rejected "session_cap_exceeded")
  refuse (ltb billed_value generation_billed) (rejected "generation_value_invalid")
  verify_authorization_accounting record' expected.authorization_id expected.authorized_value_wei
      billed_value
  ok billed_value
