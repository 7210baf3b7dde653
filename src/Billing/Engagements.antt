-- ===== src/Billing/Engagements.antt =====
-- domains/billing/service.py: the idempotent holds and the release of a customer engagement.
use livepeer_open_clearingho.Base.{
  ℕ, Option, none, some, Bool, not, ◌||◌, ◌&&◌, ◌==◌, if◌then◌else◌,
}
use livepeer_open_clearingho.Base.Int.{ℤ, pos, neg, leb_ℤ}
use livepeer_open_clearingho.Base.Time.{Datetime}
use livepeer_open_clearingho.Base.Action.{pure, raise, gets, raise_if, ◌>>=◌, ◌>>◌}
use livepeer_open_clearingho.Billing.Rows
use livepeer_open_clearingho.Billing.Rows.{
  CreditBalance, CreditLedger, Related, unrelated, Reason, Error, Db, Billing, find_engagement_row,
}
use livepeer_open_clearingho.Billing.Ledger.{ensure_balance_row, apply_delta}
use livepeer_open_clearingho.Billing.Spend.{enforce_and_record_spend}

abbrev pub for_engagement : ℕ → Related
for_engagement engagement_id = record unrelated { engagement = some engagement_id }

abbrev pub ℤ_eq : ℤ → ℤ → Bool
ℤ_eq a b = leb_ℤ a b && leb_ℤ b a

-- A replay returns the balance if its amount is the recorded one; otherwise the rest runs.
abbrev pub replay_or :
    Option CreditLedger → ℤ → Error → CreditBalance → Billing CreditBalance → Billing CreditBalance
replay_or none delta_wei e balance rest = rest
replay_or (some existing) delta_wei e balance rest =
    if not (ℤ_eq existing.delta_wei delta_wei) then raise e else pure balance

unfoldable pub encumber_customer_engagement : ℕ → ℕ → ℤ → Datetime → ℕ → ℤ → Billing CreditBalance
encumber_customer_engagement u engagement_id amount_wei now period_seconds cap_wei = do
  balance ← ensure_balance_row u
  existing ← gets (λ db. find_engagement_row engagement_id Rows.engagement_encumbrance db.ledger)
  replay_or existing (neg amount_wei) Rows.engagement_replay_changed_amount balance (do
    enforce_and_record_spend u amount_wei now period_seconds cap_wei
    apply_delta u (neg amount_wei) Rows.engagement_encumbrance (for_engagement engagement_id))

-- A revision is a natural number here: a negative one would be refused exactly as 0 is.
unfoldable pub increase_customer_engagement_cap :
    ℕ → ℕ → ℕ → ℤ → Datetime → ℕ → ℤ → Billing CreditBalance
increase_customer_engagement_cap u engagement_id revision amount_wei now period_seconds cap_wei = do
  raise_if (revision == 0 || leb_ℤ amount_wei (pos 0)) Rows.cap_revision_not_positive
  balance ← ensure_balance_row u
  existing ←
      gets
        (λ db. find_engagement_row engagement_id (Rows.engagement_cap_revision revision) db.ledger)
  replay_or existing (neg amount_wei) Rows.cap_revision_replay_changed_amount balance (do
    enforce_and_record_spend u amount_wei now period_seconds cap_wei
    apply_delta u (neg amount_wei) (Rows.engagement_cap_revision revision)
        (for_engagement engagement_id))

unfoldable pub release_customer_engagement : ℕ → ℕ → ℤ → Billing CreditBalance
release_customer_engagement u engagement_id amount_wei = do
  balance ← ensure_balance_row u
  existing ← gets (λ db. find_engagement_row engagement_id Rows.engagement_release db.ledger)
  replay_or existing amount_wei Rows.release_replay_changed_amount balance
      (apply_delta u amount_wei Rows.engagement_release (for_engagement engagement_id))
