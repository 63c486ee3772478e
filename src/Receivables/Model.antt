-- ===== src/Receivables/Model.antt =====
-- internal/ar/domain.go, and the tables of migrations/000019 and 000022.
use odyssey_erp.Common.{ℕ, String, Option, List}

pub data ArInvoiceStatus : Type 0 where
  draft posted paid void : ArInvoiceStatus

pub data Error : Type 0 where
  invoice_not_found invalid_status insufficient_amount already_invoiced : Error
  not_found customer_required total_not_positive delivery_not_configured : Error
  void_reason_required amount_not_positive allocation_required : Error
  allocation_not_positive allocation_exceeds_payment : Error
  number_taken constraint_violated not_in_draft cannot_be_voided : Error

-- A row of `ar_invoices`. An id 0 of an order, a delivery or a user is NULL.
pub record ArInvoice (F : Type 0) : Type 0 where
  pub id : ℕ
  pub number : String
  pub customer_id : ℕ
  pub so_id : ℕ
  pub delivery_order_id : ℕ
  pub currency : String
  pub subtotal : F
  pub tax_amount : F
  pub total : F
  pub status : ArInvoiceStatus
  pub due_at : ℕ
  pub posted_at : Option ℕ
  pub posted_by : Option ℕ
  pub voided_at : Option ℕ
  pub voided_by : Option ℕ
  pub void_reason : String
  pub created_by : ℕ
  pub created_at : ℕ
  pub updated_at : ℕ

pub record ArInvoiceLine (F : Type 0) : Type 0 where
  pub id : ℕ
  pub ar_invoice_id : ℕ
  pub delivery_order_line_id : ℕ
  pub product_id : ℕ
  pub description : String
  pub quantity : F
  pub unit_price : F
  pub discount_pct : F
  pub tax_pct : F
  pub subtotal : F
  pub tax_amount : F
  pub total : F
  pub created_at : ℕ

pub record ArPayment (F : Type 0) : Type 0 where
  pub id : ℕ
  pub number : String
  pub ar_invoice_id : ℕ
  pub amount : F
  pub paid_at : ℕ
  pub method : String
  pub note : String
  pub created_by : ℕ
  pub created_at : ℕ
  pub updated_at : ℕ

pub record ArPaymentAllocation (F : Type 0) : Type 0 where
  pub id : ℕ
  pub ar_payment_id : ℕ
  pub ar_invoice_id : ℕ
  pub amount : F
  pub created_at : ℕ

pub record ArAgingBucket (F : Type 0) : Type 0 where
  pub current : F
  pub bucket30 : F
  pub bucket60 : F
  pub bucket90 : F
  pub bucket120 : F

pub record CreateArInvoiceLineInput (F : Type 0) : Type 0 where
  pub delivery_order_line_id : ℕ
  pub product_id : ℕ
  pub description : String
  pub quantity : F
  pub unit_price : F
  pub discount_pct : F
  pub tax_pct : F

pub record CreateArInvoiceInput (F : Type 0) : Type 0 where
  pub customer_id : ℕ
  pub so_id : ℕ
  pub delivery_order_id : ℕ
  pub number : String
  pub currency : String
  pub subtotal : F
  pub tax_amount : F
  pub total : F
  pub due_date : ℕ
  pub created_by : ℕ
  pub lines : List (CreateArInvoiceLineInput F)

pub record PostArInvoiceInput : Type 0 where
  pub invoice_id : ℕ
  pub posted_by : ℕ

pub record VoidArInvoiceInput : Type 0 where
  pub invoice_id : ℕ
  pub voided_by : ℕ
  pub void_reason : String

pub record PaymentAllocationInput (F : Type 0) : Type 0 where
  pub ar_invoice_id : ℕ
  pub amount : F

pub record CreateArPaymentInput (F : Type 0) : Type 0 where
  pub number : String
  pub amount : F
  pub paid_at : ℕ
  pub method : String
  pub note : String
  pub created_by : ℕ
  pub allocations : List (PaymentAllocationInput F)

pub record Db (F : Type 0) : Type 0 where
  pub invoices : List (ArInvoice F)
  pub invoice_lines : List (ArInvoiceLine F)
  pub payments : List (ArPayment F)
  pub allocations : List (ArPaymentAllocation F)
  pub next_invoice : ℕ
  pub next_line : ℕ
  pub next_payment : ℕ
  pub next_allocation : ℕ
  pub clock : ℕ
