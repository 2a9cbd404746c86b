-- ===== src/Contracts.antt =====
-- packages/contracts/src: what the web application and the worker share.
pub mod Completeness
pub mod Products
pub mod Versions
pub mod Matching
