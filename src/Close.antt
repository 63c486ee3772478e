-- ===== src/Close.antt =====
-- The period close: the lifecycle of accounting periods and of close runs
-- (internal/close). `Model` has the rows and inputs, `Periods` and `Runs` the statements, `Service` the
-- calls; the other modules prove what the calls keep.
pub mod Model
pub mod Periods
pub mod Runs
pub mod Service
pub mod Invariant
pub mod StatusChange
pub mod Inserts
pub mod Steps
pub mod Calls
pub mod Reachable
pub mod Tests
pub mod Promises
pub mod Atomic
pub mod Reopening
