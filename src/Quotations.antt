-- ===== src/Quotations.antt =====
-- Sales quotations (internal/sales/quotations): drafting, submission, approval and rejection, and the
-- totals of a quotation.
pub mod Model
pub mod Repository
pub mod Service
pub mod States
pub mod Amounts
pub mod Totals
pub mod Revisions
mod Tests
