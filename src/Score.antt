-- ===== src/Score.antt =====
-- apps/web/src/lib/report-score: the score of a report.
pub mod Types
pub mod Coverage
pub mod Category
pub mod Report
