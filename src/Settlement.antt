-- ===== src/Settlement.antt =====
-- src/kry/kry_settlement.py: the settlement protocol, its hash-chained registry and the lease authority.
pub mod Host
pub mod Grants
pub mod Entries
pub mod Chain
pub mod Record
pub mod Appended
pub mod Recorded
pub mod Committed
pub mod Unsynced
pub mod Settle
pub mod Settled
pub mod Ceiling
pub mod Conservation
pub mod Shortfall
pub mod Once
pub mod Separable
pub mod Tamper
pub mod Lease
pub mod Leases
pub mod Accept
pub mod Accepted
pub mod DoubleSpend
mod Tests
