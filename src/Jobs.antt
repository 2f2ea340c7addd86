-- ===== src/Jobs.antt =====
-- Block scaling and block failures: environment/parsl/jobs.
pub mod Strategy
pub mod Failures
pub mod Blocks
pub mod Poller
