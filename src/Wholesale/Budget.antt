-- ===== src/Wholesale/Budget.antt =====
-- The exposure budget of domains/wholesale/service.py, compared with what the accounts hold and what
-- is claimed for them.
pub mod Sums
pub mod Claims
pub mod Outcome
pub mod Receipts
