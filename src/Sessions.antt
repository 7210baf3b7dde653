-- ===== src/Sessions.antt =====
-- The engagements of customers: src/livepeer_open_clearinghouse/domains/sessions.
pub mod Rows
pub mod States
pub mod Grants
pub mod Engagement
pub mod Charge
pub mod Close
pub mod Example
mod Tests
