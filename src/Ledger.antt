-- ===== src/Ledger.antt =====
-- src/kry/kry_token.py: what an efficiency event earns and what a routing decision costs.
pub mod Prices
pub mod Cost
pub mod Longest
pub mod Shares
pub mod Earned
pub mod Book
pub mod World
pub mod Reading
pub mod Merge
pub mod Saving
pub mod Calls
pub mod Debits
pub mod Read
pub mod Keeps
pub mod Written
pub mod Committed
pub mod Merged
pub mod Intact
pub mod Refreshed
pub mod Commit
pub mod Recorded
pub mod Retained
pub mod Once
pub mod Recovery
pub mod Account
pub mod Refines
pub mod Earns
pub mod Spends
pub mod Blocked
pub mod Unblocked
mod Trials
mod Tests
