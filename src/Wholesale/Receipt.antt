-- ===== src/Wholesale/Receipt.antt =====
-- domains/wholesale/service.py: `_acknowledged_credit`. The digest of
-- `hashlib.sha256(...).hexdigest()` is a parameter.
use livepeer_open_clearingho.Base.{
  ℕ, String, Option, none, some, List, Bool, false, not, ◌==◌, ◌&&◌, ◌||◌, str_eq,
}
use livepeer_open_clearingho.Base.Int.{ℤ, ltb_ℤ}
use livepeer_open_clearingho.Base.Result.{Result, ok, refuse, ◌>>◌}
use livepeer_open_clearingho.Wholesale.Rows
use livepeer_open_clearingho.Wholesale.Rows.{
  WholesaleAccountObservation, WholesaleFundingResult, WholesaleFunding, Error, is_acknowledged,
  ℤ_eq,
}

abbrev pub option_ℤ_eq : Option ℤ → ℤ → Bool
option_ℤ_eq none x = false
option_ℤ_eq (some y) x = ℤ_eq y x

abbrev pub option_ℕ_eq : Option ℕ → ℕ → Bool
option_ℕ_eq none x = false
option_ℕ_eq (some y) x = y == x

abbrev pub is_receipt_of : (List ℕ → String) → Option (List ℕ) → String → Bool
is_receipt_of sha256_hex none funding_id = false
is_receipt_of sha256_hex (some payment_bytes) funding_id =
    str_eq funding_id (sha256_hex payment_bytes)

unfoldable pub acknowledged_credit :
    (List ℕ → String)
    → WholesaleFundingResult
    → WholesaleAccountObservation
    → WholesaleFunding
    → Result Error ℤ
acknowledged_credit sha256_hex result o funding = do
  refuse (not (is_receipt_of sha256_hex funding.payment_bytes result.funding_id))
      Rows.receipt_of_another_payment
  refuse (not (ℤ_eq result.credited_value_wei funding.minted_expected_value_wei))
      Rows.credit_differs_from_minted
  refuse (ltb_ℤ result.credited_value_wei funding.requested_shortfall_wei)
      Rows.broker_under_credited
  refuse (ltb_ℤ o.credited_value_wei result.credited_value_wei) Rows.credit_exceeds_account
  refuse
      (is_acknowledged funding.status
        && (not (option_ℤ_eq funding.credited_value_wei result.credited_value_wei)
            || not (option_ℕ_eq funding.account_version result.account_version)))
      Rows.broker_changed_receipt
  ok result.credited_value_wei
