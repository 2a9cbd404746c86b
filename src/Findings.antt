-- ===== src/Findings.antt =====
-- What becomes of the findings of two scans of a site: their comparison, the alerts, the follow-up.
pub mod Comparison
pub mod Alerts
pub mod Followup
pub mod Changes
pub mod Counts
pub mod Regressions
mod Tests
