-- ===== src/Elimination.antt =====
-- Intercompany eliminations (internal/elimination): rules, and runs that post to the ledger.
pub mod Model
pub mod Service
pub mod Amounts
pub mod Runs
pub mod Refused
mod Tests
