-- ===== src/Wholesale.antt =====
-- The wholesale domain: src/livepeer_open_clearinghouse/domains/wholesale.
pub mod Rows
pub mod Plan
pub mod Exposure
pub mod Claim
pub mod Receipt
pub mod Acknowledge
pub mod Budget
mod Tests
