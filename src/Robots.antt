-- ===== src/Robots.antt =====
-- apps/worker/src/scanner-v2/robots.ts: the policy that a robots.txt sets for the crawler.
pub mod Glob
pub mod Escapes
pub mod Allowed
pub mod Parse
