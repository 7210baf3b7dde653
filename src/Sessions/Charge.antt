-- ===== src/Sessions/Charge.antt =====
-- The last part of `close_session` (domains/sessions/service.py), which `settle_job`
-- (domains/jobs/service.py) repeats: the customer's charge, the release of the unused hold and the
-- rows that are stored.
pub mod Refund
pub mod Stored
use livepeer_open_clearingho.Base.{ℕ, String, Option, none, some, Bool, not, if◌then◌else◌}
use livepeer_open_clearingho.Base.Int.{ℤ, pos, ◌-ℤ◌, ltb_ℤ, leb_ℤ}
use livepeer_open_clearingho.Base.Result.{Result, ok, err}
use livepeer_open_clearingho.Base.Result
use livepeer_open_clearingho.Base.Action.{pure, raise, modify, lift, raise_if, ◌>>=◌, ◌>>◌}
use livepeer_open_clearingho.Billing.Engagements
use livepeer_open_clearingho.Billing.Pricing.{
  CustomerPricingSnapshot, validate, calculate_customer_charge, PricingError,
}
use livepeer_open_clearingho.Sessions.Rows
use livepeer_open_clearingho.Sessions.Rows.{
  PaymentSession, PaymentSettlement, Error, Sessions, billing, or_raise,
}
use livepeer_open_clearingho.Base.Time.{Datetime}
use livepeer_open_clearingho.Sessions.States.{put_session, record_settlement}
use livepeer_open_clearingho.Sessions.Grants.{mark_spend_authorization_settled}

abbrev pub pricing_result : {A : Type 0} → Result PricingError A → Result Error A
pricing_result (ok a) = ok a
pricing_result (err e) = err (Rows.pricing_error e)

-- What the customer owes for verified usage, at most the hold: the hold and the charge.
unfoldable pub customer_charge : PaymentSession → ℕ → ℕ → Sessions (ℤ × ℕ)
customer_charge row actual_units wholesale_billed_value_wei = do
  pricing ← or_raise row.customer_pricing (Rows.settlement_failed "missing_customer_pricing")
  hold ← or_raise row.customer_max_debit_wei (Rows.settlement_failed "missing_customer_pricing")
  lift (pricing_result (validate pricing))
  billed_value_wei ← lift (
      pricing_result
        (calculate_customer_charge pricing (pos actual_units) (pos wholesale_billed_value_wei)))
  raise_if (ltb_ℤ hold (pos billed_value_wei)) (Rows.settlement_failed "customer_cap_exceeded")
  pure (hold, billed_value_wei)

-- `if refund_wei > 0`
unfoldable pub release_unused : PaymentSession → ℤ → Sessions (Unit {0})
release_unused row refund_wei = if leb_ℤ refund_wei (pos 0) then pure tt else (do
  billing (Engagements.release_customer_engagement row.user_id row.id refund_wei)
  pure tt)

-- The row with its last fields, the grant that is retired, and the event.
unfoldable pub store_close :
    PaymentSession → String → PaymentSettlement → Datetime → Sessions PaymentSession
store_close final authorization_id event now = do
  modify (put_session final)
  mark_spend_authorization_settled final.id authorization_id now
  record_settlement event
  pure final
