-- ===== src/DeepLease.antt =====
-- The lease of a deep scan: which worker may run it, and what it may write.
-- apps/worker/src/scan-engine/deep-lease.ts, check-persistence.ts, and of
-- apps/worker/src/internal-deep-worker.ts the record of a failure; and what changes the attempts
-- from outside.
pub mod Rows
pub mod Claims
pub mod Checks
pub mod Endings
pub mod Attempts
pub mod Newest
pub mod Outside
pub mod Steps
pub mod Writes
pub mod Sound
pub mod Safety
pub mod Fence
pub mod Exclusion
pub mod Reclaim
mod Tests
