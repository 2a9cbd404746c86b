-- ===== src/ScanEngine.antt =====
-- apps/worker/src/scan-engine: the engine of the deep audit.
pub mod Types
pub mod Budget
pub mod Authorization
pub mod Profiles
pub mod Scope
pub mod Registry
pub mod Evidence
pub mod Engine
