-- ===== src/Billing.antt =====
-- The billing domain: src/livepeer_open_clearinghouse/domains/billing.
pub mod Rows
pub mod Ledger
pub mod Spend
pub mod Charges
pub mod Engagements
pub mod Config
pub mod Pricing
pub mod SpendCaps
pub mod Replays
pub mod Transfers
pub mod Releases
pub mod Replenish
pub mod Requests
pub mod SpendTotals
pub mod SpendRoom
pub mod Consistency
mod Tests
