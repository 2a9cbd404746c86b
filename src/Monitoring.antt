-- ===== src/Monitoring.antt =====
-- What the web application says of the supervision of a site.
pub mod State
pub mod Fleet
pub mod Urgency
mod Tests
