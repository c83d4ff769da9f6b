-- ===== src/Displacement.antt =====
-- src/kry/kry_pending.py: displacements that are minted only once their output is confirmed as used.
pub mod Store
pub mod Confirm
pub mod Calls
pub mod Once
pub mod Minted
pub mod Sweep
pub mod Quarantine
mod Tests
