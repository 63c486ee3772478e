-- ===== src/Inventory.antt =====
-- The stock of the warehouses (internal/inventory): movements with moving average costs, balances and
-- stock cards; and the keys of requests already processed (internal/shared/idempotency.go).
pub mod Model
pub mod Idempotency
pub mod Repository
pub mod Service
pub mod Movements
pub mod Balances
pub mod Runs
pub mod Stock
pub mod Recorded
pub mod Invariants
pub mod Transfers
pub mod Tests
