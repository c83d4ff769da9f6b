-- ===== src/Referee.antt =====
-- src/kry/kry_referee.py: the review of gate decisions, and the rules that an operator sanctions.
pub mod Rules
pub mod Keys
pub mod Review
pub mod Calls
pub mod Passes
pub mod Verdicts
mod Tests
