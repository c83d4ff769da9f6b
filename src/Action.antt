-- ===== src/Action.antt =====
-- src/kry/kry_action.py and scripts/kry_action_verify.py: receipts of agent actions, chained by hash, and
-- the verifier that a stranger runs on their attestation.
pub mod Receipt
pub mod Log
pub mod Chain
pub mod Attest
pub mod Stranger
pub mod Anchor
pub mod Walked
pub mod Remint
pub mod Surveyed
pub mod Fresh
pub mod Declared
pub mod Accepted
mod Tests
