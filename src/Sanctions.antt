-- ===== src/Sanctions.antt =====
-- src/kry/kry_sanctions.py: reputations from reconciled claims, and the audit rate each has earned.
pub mod Store
pub mod Reputation
pub mod Economics
pub mod Bounds
pub mod Within
pub mod Direction
pub mod Audit
pub mod Closed
mod Tests
