-- ===== src/Jobs.antt =====
-- domains/jobs/service.py.
pub mod Settle
pub mod Whole
mod Tests
