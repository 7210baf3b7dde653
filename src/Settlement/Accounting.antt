-- ===== src/Settlement/Accounting.antt =====
-- `_verify_authorization_accounting`, `_reject_failed_debit` and `_verify_settlement_domain` of
-- settlement_verification.py: the checks that job and session settlements share.
pub mod Limits
use livepeer_open_clearingho.Base.{ℕ, ◌+◌, String, Option, none, some, not, ◌||◌, str_eq, ltb, ◌==◌}
use livepeer_open_clearingho.Base.Result.{Result, ok, err, refuse, ◌>>=◌, ◌>>◌}
use livepeer_open_clearingho.Settlement.Records.{
  Checked, rejected, SettlementRecord, is_debit_failed, wei,
}

unfoldable pub reject_failed_debit : SettlementRecord → Checked (Unit {0})
reject_failed_debit record' = refuse (is_debit_failed record'.outcome) (rejected "debit_failed")

unfoldable pub verify_wholesale_account : SettlementRecord → String → Checked (Unit {0})
verify_wholesale_account record' expected =
    refuse (str_eq expected "" || not (str_eq record'.wholesale_account_id expected))
      (rejected "wholesale_account_mismatch")

unfoldable pub verify_settlement_domain : SettlementRecord → String → Checked (Unit {0})
verify_settlement_domain record' expected =
    refuse (str_eq expected "" || not (str_eq record'.settlement_domain_id expected))
      (rejected "settlement_domain_mismatch")

-- `if authorized_value_wei is None`
abbrev pub authorization_ceiling : Option ℕ → Checked ℕ
authorization_ceiling none = err (rejected "missing_authorization_ceiling")
authorization_ceiling (some authorized_value_wei) = ok authorized_value_wei

unfoldable pub verify_authorization_accounting :
    SettlementRecord → Option String → Option ℕ → ℕ → Checked (Unit {0})
verify_authorization_accounting record' none authorized_value_wei billed_value_wei =
    refuse (not (str_eq record'.authorization_id "")) (rejected "unexpected_authorization")
verify_authorization_accounting record' (some authorization_id) authorized_value_wei
      billed_value_wei =
    do
      refuse
          (not (str_eq record'.authorization_id authorization_id)
            || not (str_eq record'.work_id authorization_id))
          (rejected "authorization_id_mismatch")
      ceiling ← authorization_ceiling authorized_value_wei
      let signed_authorized = wei record'.authorized_value_wei
      let reserved = wei record'.reserved_value_wei
      let released = wei record'.released_value_wei
      refuse (not (signed_authorized == ceiling)) (rejected "authorization_ceiling_mismatch")
      refuse
          (ltb signed_authorized billed_value_wei
            || ltb signed_authorized reserved
            || ltb signed_authorized released
            || ltb signed_authorized (billed_value_wei + released))
          (rejected "authorization_accounting_invalid")
