-- ===== src/Receivables.antt =====
-- Accounts receivable (internal/ar): invoices, payments and their allocations, and the aging report.
pub mod Model
pub mod Repository
pub mod Service
pub mod Closed
pub mod Aging
pub mod Payments
pub mod Tests
