-- ===== src/Settlement.antt =====
-- The verification of broker-signed settlements:
-- src/livepeer_open_clearinghouse/providers/settlement_verification.py.
pub mod Records
pub mod Bill
pub mod Accounting
pub mod Keys
pub mod Hex
pub mod Envelope
pub mod Job
pub mod Session
pub mod Diagnostics
pub mod Evidence
pub mod NonAdmission
pub mod Example
mod Tests
