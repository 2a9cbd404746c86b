-- ===== src/ScanRetry.antt =====
-- apps/worker/src/scan-retry.ts: which errors of a scan are retried, and the rows of its attempts.
pub mod Errors
pub mod Attempts
pub mod Superseded
pub mod History
mod Tests
