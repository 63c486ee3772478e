-- ===== src/Journals.antt =====
-- The general ledger's journals (internal/accounting/journals): posting, voiding and reversal of
-- entries in the ledger periods that the period close keeps.
pub mod Model
pub mod Validation
pub mod Repository
pub mod Service
pub mod Writes
pub mod Posting
pub mod Sources
pub mod Voids
pub mod Reversals
pub mod Atomic
pub mod Closed
pub mod Again
mod Tests
