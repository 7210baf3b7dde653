-- ===== src/Billing/Charges.antt =====
-- domains/billing/service.py: charges and refunds of payments, and the encumbrance of a session.
use livepeer_open_clearingho.Base.{ℕ, some}
use livepeer_open_clearingho.Base.Int.{ℤ, neg}
use livepeer_open_clearingho.Base.Time.{Datetime}
use livepeer_open_clearingho.Base.Action.{◌>>◌}
use livepeer_open_clearingho.Billing.Rows
use livepeer_open_clearingho.Billing.Rows.{CreditBalance, Related, unrelated, Billing}
use livepeer_open_clearingho.Billing.Ledger.{apply_delta}
use livepeer_open_clearingho.Billing.Spend.{enforce_and_record_spend}

abbrev pub for_payment : ℕ → Related
for_payment payment_id = record unrelated { payment = some payment_id }

unfoldable pub charge_payment : ℕ → ℤ → ℕ → Datetime → ℕ → ℤ → Billing CreditBalance
charge_payment u amount_wei payment_id now period_seconds cap_wei = do
  enforce_and_record_spend u amount_wei now period_seconds cap_wei
  apply_delta u (neg amount_wei) Rows.payment_charge (for_payment payment_id)

unfoldable pub refund_payment : ℕ → ℤ → ℕ → Billing CreditBalance
refund_payment u amount_wei payment_id =
    apply_delta u amount_wei Rows.payment_refund (for_payment payment_id)

unfoldable pub encumber_for_session : ℕ → ℕ → ℤ → Datetime → ℕ → ℤ → Billing CreditBalance
encumber_for_session u payment_id amount_wei now period_seconds cap_wei = do
  enforce_and_record_spend u amount_wei now period_seconds cap_wei
  apply_delta u (neg amount_wei) Rows.session_encumbrance (for_payment payment_id)

unfoldable pub release_session_encumbrance : ℕ → ℕ → ℤ → Billing CreditBalance
release_session_encumbrance u payment_id amount_wei =
    apply_delta u amount_wei Rows.session_release (for_payment payment_id)
