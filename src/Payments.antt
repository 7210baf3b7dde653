-- ===== src/Payments.antt =====
-- The idempotency claims of create requests: src/livepeer_open_clearinghouse/domains/payments.
pub mod Rows
pub mod Claims
pub mod Upkeep
pub mod Tombstones
mod Tests
