-- ===== src/Billing/Consistency.antt =====
-- The balance table and the ledger of domains/billing/service.py, compared.
pub mod Views
pub mod Delta
pub mod Operations
