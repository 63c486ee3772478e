-- ===== src/Integration.antt =====
-- The hooks that post operational events to the general ledger (internal/integration), with the account
-- mappings and the lookup of the open period (internal/accounting/mappings, internal/accounting/periods).
pub mod Model
pub mod Hooks
pub mod Promises
pub mod Plans
pub mod Events
pub mod LastDay
pub mod Adjustments
pub mod Tests
