-- ===== src/Receivables/Service.antt =====
-- internal/ar/service.go. The SQL functions that number invoices and payments are parameters, and so is
-- the delivery service, which may be absent. The answer of the accounting service is ignored by
-- PostARInvoice, and its tables are other ones, so it is left out. No call runs in a transaction.
use odyssey_erp.Common.{
  take, ℕ, ◌-◌, ◌/◌, true, false, ◌&&◌, not, Option, List, [], ◌∷◌, ◌++◌, String, str_eq, ◌==◌, leb,
  if◌then◌else◌, select, map, Result, Action, pure, gets, or_raise, raise_if, for_each, ◌>>=◌, ◌>>◌,
}
use odyssey_erp.Common.Float.{FloatOps}
use odyssey_erp.Receivables.Model.{
  Error, invalid_status, insufficient_amount, already_invoiced, customer_required,
  total_not_positive, delivery_not_configured, void_reason_required, amount_not_positive,
  allocation_required, allocation_not_positive, allocation_exceeds_payment, ArInvoice, ArPayment,
  ArAgingBucket, CreateArInvoiceLineInput, CreateArInvoiceInput, PostArInvoiceInput,
  VoidArInvoiceInput, PaymentAllocationInput, CreateArPaymentInput, Db,
}
use odyssey_erp.Receivables.Repository.{
  is_draft, is_posted, get_ar_invoice, create_ar_invoice_row, create_ar_invoice_line,
  post_ar_invoice_row, void_ar_invoice_row, get_invoice_balance, balance_of,
  count_invoices_by_delivery, create_ar_payment_row, create_payment_allocation, line_subtotal,
  line_tax,
}
use odyssey_erp.Journals.Model.{day}

pub record DeliveryLineInfo (F : Type 0) : Type 0 where
  pub id : ℕ
  pub product_id : ℕ
  pub product_name : String
  pub quantity : F
  pub unit_price : F
  pub discount_pct : F
  pub tax_pct : F

pub record DeliveryOrderInfo (F : Type 0) : Type 0 where
  pub id : ℕ
  pub customer_id : ℕ
  pub sales_order_id : ℕ
  pub currency : String
  pub lines : List (DeliveryLineInfo F)

pub record CreateArInvoiceFromDeliveryInput : Type 0 where
  pub delivery_order_id : ℕ
  pub due_date : ℕ
  pub created_by : ℕ

-- What the service is built with.
pub record Ports (F : Type 0) : Type 0 where
  pub invoice_number : Db F → String
  pub payment_number : Db F → String
  pub delivery : Option (ℕ → Result Error (DeliveryOrderInfo F))

module _ (fl : FloatOps) where
  open fl use {Float, zero as zero_float, add, lt, le}

  -- The loop over the lines of a delivery: the subtotal, the tax and the total.
  unfoldable pub delivery_totals :
      Float → Float → Float → List (DeliveryLineInfo Float) → Float × Float × Float
  delivery_totals subtotal tax total [] = (subtotal, tax, total)
  delivery_totals subtotal tax total (l ∷ ls) =
      let s = line_subtotal fl l.quantity l.unit_price l.discount_pct in
      let t = line_tax fl s l.tax_pct in
      delivery_totals (add subtotal s) (add tax t) (add total (add s t)) ls

  abbrev pub invoice_line_of : DeliveryLineInfo Float → CreateArInvoiceLineInput Float
  invoice_line_of l = record {
    delivery_order_line_id = l.id;
    product_id = l.product_id;
    description = l.product_name;
    quantity = l.quantity;
    unit_price = l.unit_price;
    discount_pct = l.discount_pct;
    tax_pct = l.tax_pct;
  }

  abbrev pub empty_bucket : ArAgingBucket Float
  empty_bucket = record {
    current = zero_float;
    bucket30 = zero_float;
    bucket60 = zero_float;
    bucket90 = zero_float;
    bucket120 = zero_float;
  }

  -- int(asOf.Sub(DueAt).Hours() / 24), where it is at least 0.
  abbrev pub days_late : ℕ → ArInvoice Float → ℕ
  days_late as_of x = (as_of - x.due_at) / day

  abbrev pub into_bucket : ℕ → Float → ArAgingBucket Float → ArAgingBucket Float
  into_bucket days balance b =
      if days == 0
      then record b { current = add b.current balance }
      else if leb days 30
      then record b { bucket30 = add b.bucket30 balance }
      else if leb days 60
      then record b { bucket60 = add b.bucket60 balance }
      else if leb days 90
      then record b { bucket90 = add b.bucket90 balance }
      else record b { bucket120 = add b.bucket120 balance }

  unfoldable pub aging_loop :
      ℕ → Db Float → ArAgingBucket Float → List (ArInvoice Float) → ArAgingBucket Float
  aging_loop as_of db b [] = b
  aging_loop as_of db b (x ∷ xs) =
      let skipped = aging_loop as_of db b xs in
      let counted =
        aging_loop as_of db (into_bucket (days_late as_of x) (balance_of fl x db) b) xs in
      if le (balance_of fl x db) zero_float then skipped else counted

  -- ListAROutstanding: the newest first, at most 1000.
  unfoldable pub newest_first : List (ArInvoice Float) → List (ArInvoice Float)
  newest_first [] = []
  newest_first (x ∷ xs) = newest_first xs ++ x ∷ []

  abbrev pub outstanding : Db Float → List (ArInvoice Float)
  outstanding db = take 1000 (newest_first (select (λ x. is_posted x.status) db.invoices))

  unfoldable pub calculate_ar_aging : ℕ → Action (Db Float) Error (ArAgingBucket Float)
  calculate_ar_aging as_of =
      gets
        (λ db. aging_loop (if as_of == 0 then db.clock else as_of) db empty_bucket (outstanding db))

  unfoldable pub post_ar_invoice : PostArInvoiceInput → Action (Db Float) Error (Unit {0})
  post_ar_invoice i = do
    x ← get_ar_invoice fl i.invoice_id
    raise_if (not (is_draft x.status)) invalid_status
    post_ar_invoice_row fl i.invoice_id i.posted_by

  unfoldable pub void_ar_invoice : VoidArInvoiceInput → Action (Db Float) Error (Unit {0})
  void_ar_invoice i = do
    x ← get_ar_invoice fl i.invoice_id
    raise_if (not (is_draft x.status) && not (is_posted x.status)) invalid_status
    raise_if (str_eq i.void_reason "") void_reason_required
    void_ar_invoice_row fl i.invoice_id i.voided_by i.void_reason

  -- The loop that checks the allocations, with the sum so far.
  unfoldable pub check_allocations :
      Float → List (PaymentAllocationInput Float) → Action (Db Float) Error Float
  check_allocations total [] = pure total
  check_allocations total (a ∷ as') = do
    raise_if (le a.amount zero_float) allocation_not_positive
    x ← get_ar_invoice fl a.ar_invoice_id
    raise_if (not (is_posted x.status)) invalid_status
    balance ← get_invoice_balance fl a.ar_invoice_id
    raise_if (lt balance a.amount) insufficient_amount
    check_allocations (add total a.amount) as'

  module _ (ports : Ports Float) where
    abbrev pub number_of : String → (Db Float → String) → Db Float → String
    number_of given generate db = if str_eq given "" then generate db else given

    unfoldable pub create_ar_invoice :
        CreateArInvoiceInput Float → Action (Db Float) Error (ArInvoice Float)
    create_ar_invoice i = do
      raise_if (i.customer_id == 0) customer_required
      raise_if (le i.total zero_float) total_not_positive
      number ← gets (number_of i.number ports.invoice_number)
      x ← create_ar_invoice_row fl (record i { number = number })
      for_each i.lines (create_ar_invoice_line fl x.id)
      pure x

    abbrev pub delivery_invoice :
        CreateArInvoiceFromDeliveryInput → DeliveryOrderInfo Float → CreateArInvoiceInput Float
    unfolding delivery_totals
    delivery_invoice i d =
        let totals = delivery_totals zero_float zero_float zero_float d.lines in
        record {
          customer_id = d.customer_id;
          so_id = d.sales_order_id;
          delivery_order_id = d.id;
          number = "";
          currency = d.currency;
          subtotal = totals.0;
          tax_amount = totals.1;
          total = totals.2;
          due_date = i.due_date;
          created_by = i.created_by;
          lines = map invoice_line_of d.lines;
        }

    abbrev pub answer : {A : Type 0} → Result Error A → Action (Db Float) Error A
    answer r db = (r, db)

    unfoldable pub create_ar_invoice_from_delivery :
        CreateArInvoiceFromDeliveryInput → Action (Db Float) Error (ArInvoice Float)
    create_ar_invoice_from_delivery i = do
      fetch ← or_raise ports.delivery delivery_not_configured
      n ← count_invoices_by_delivery fl i.delivery_order_id
      raise_if (not (n == 0)) already_invoiced
      d ← answer (fetch i.delivery_order_id)
      create_ar_invoice (delivery_invoice i d)

    unfoldable pub register_ar_payment :
        CreateArPaymentInput Float → Action (Db Float) Error (ArPayment Float)
    register_ar_payment i = do
      raise_if (le i.amount zero_float) amount_not_positive
      raise_if (elim i.allocations [ [] ↦ true | a ∷ as' ↦ false ]) allocation_required
      total ← check_allocations zero_float i.allocations
      raise_if (lt i.amount total) allocation_exceeds_payment
      number ← gets (number_of i.number ports.payment_number)
      payment ← create_ar_payment_row fl (record i { number = number })
      for_each i.allocations (λ a. create_payment_allocation fl payment.id a.ar_invoice_id a.amount)
      pure payment
