-- ===== src/Receivables/Tests.antt =====
-- Invoices are made, posted and paid; the theorems at that run.
use odyssey_erp.Common.{if◌then◌else◌, ◌*◌, Bool, true, false, ◌≡◌, refl, none, some, [], ◌∷◌, ok}
use odyssey_erp.Common.Fixed.{fixed, Fixed, plus}
use odyssey_erp.Journals.Model.{day}
use odyssey_erp.Receivables.Model.{
  paid, ArInvoice, ArPayment, CreateArInvoiceInput, CreateArPaymentInput, Db,
}
use odyssey_erp.Receivables.Repository.{
  get_ar_invoice, create_ar_invoice_row, create_ar_invoice_line, post_ar_invoice_row,
  get_invoice_balance, create_ar_payment_row, create_payment_allocation, sum_allocated,
  invoice_with_id,
}
use odyssey_erp.Receivables.Service.{
  Ports, create_ar_invoice, post_ar_invoice, check_allocations, register_ar_payment,
  calculate_ar_aging, aging_loop, newest_first, outstanding, empty_bucket,
}
use odyssey_erp.Receivables.Closed.{voiding, after, closed_lem}
use odyssey_erp.Receivables.Aging.{aged, calculate_ar_aging_lem}
use odyssey_erp.Receivables.Payments.{Registered, register_ar_payment_lem}

abbrev ports : Ports Fixed
ports = record {
  invoice_number = λ db. "INV-2603-00001";
  payment_number = λ db. "PAY-2603-00001";
  delivery = none;
}

empty : Db Fixed
empty = record {
  invoices = [];
  invoice_lines = [];
  payments = [];
  allocations = [];
  next_invoice = 1;
  next_line = 1;
  next_payment = 1;
  next_allocation = 1;
  clock = 100 * day;
}

abbrev sale : CreateArInvoiceInput Fixed
sale = record {
  customer_id = 3;
  so_id = 0;
  delivery_order_id = 0;
  number = "";
  currency = "IDR";
  subtotal = plus 1000000;
  tax_amount = plus 0;
  total = plus 1000000;
  due_date = 60 * day;
  created_by = 7;
  lines = [];
}

billed : Db Fixed
unfolding empty create_ar_invoice create_ar_invoice_row create_ar_invoice_line post_ar_invoice
    get_ar_invoice post_ar_invoice_row
billed =
    (post_ar_invoice fixed (record { invoice_id = 1; posted_by = 7 })
      (create_ar_invoice fixed ports sale empty).1).1

-- An amount for the invoice, once or twice.
abbrev payment : Fixed → Bool → CreateArPaymentInput Fixed
payment amount twice = record {
  number = "";
  amount = plus 2000000;
  paid_at = 100 * day;
  method = "TRANSFER";
  note = "";
  created_by = 7;
  allocations =
      record { ar_invoice_id = 1; amount = amount }
      ∷ (if twice then record { ar_invoice_id = 1; amount = amount } ∷ [] else []);
}

settled : Db Fixed
unfolding billed register_ar_payment check_allocations get_invoice_balance sum_allocated
    create_ar_payment_row create_payment_allocation
settled = (register_ar_payment fixed ports (payment (plus 1000000) false) billed).1

abbrev settled_payment : ArPayment Fixed
settled_payment = record {
  id = 1;
  number = "PAY-2603-00001";
  ar_invoice_id = 1;
  amount = plus 2000000;
  paid_at = 100 * day;
  method = "TRANSFER";
  note = "";
  created_by = 7;
  created_at = 100 * day;
  updated_at = 100 * day;
}

register_ar_payment_lem_example :
    Registered fixed ports (payment (plus 1000000) false) billed settled
unfolding settled
register_ar_payment_lem_example =
    register_ar_payment_lem fixed ports (payment (plus 1000000) false) billed {p = settled_payment}
      refl

abbrev paid_invoice : ArInvoice Fixed
paid_invoice = record {
  id = 1;
  number = "INV-2603-00001";
  customer_id = 3;
  so_id = 0;
  delivery_order_id = 0;
  currency = "IDR";
  subtotal = plus 1000000;
  tax_amount = plus 0;
  total = plus 1000000;
  status = paid;
  due_at = 60 * day;
  posted_at = some (100 * day);
  posted_by = some 7;
  voided_at = none;
  voided_by = none;
  void_reason = "";
  created_by = 7;
  created_at = 100 * day;
  updated_at = 100 * day;
}

closed_lem_example :
    invoice_with_id fixed 1 (
      after fixed ports
        (voiding (record { invoice_id = 1; voided_by = 7; void_reason = "wrong" }))
        settled)
    ≡ some paid_invoice
unfolding settled
closed_lem_example =
    closed_lem fixed ports 1 paid_invoice settled
      (voiding (record { invoice_id = 1; voided_by = 7; void_reason = "wrong" })) refl refl

calculate_ar_aging_lem_example :
    calculate_ar_aging fixed (100 * day) billed
    ≡ (ok (aged fixed (100 * day) billed (empty_bucket fixed) (outstanding fixed billed)), billed)
unfolding billed
calculate_ar_aging_lem_example = calculate_ar_aging_lem fixed (100 * day) billed refl

billed_aging :
    (calculate_ar_aging fixed (100 * day) billed).0
    ≡ ok (record (empty_bucket fixed) { bucket60 = plus 1000000 })
unfolding billed calculate_ar_aging aging_loop newest_first sum_allocated
billed_aging = refl

-- Two allocations to one invoice, each within its balance, together more than it.
overpaid : Db Fixed
unfolding settled
overpaid = (register_ar_payment fixed ports (payment (plus 900000) true) billed).1

overpaid_sum : sum_allocated fixed (plus 0) 1 overpaid.allocations ≡ plus 1800000
unfolding overpaid
overpaid_sum = refl
