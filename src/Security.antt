-- ===== src/Security.antt =====
-- packages/security/src/index.ts: which targets may be fetched, report tokens, and ownership proofs.
pub mod Urls
pub mod Targets
pub mod Ownership
pub mod Tokens
