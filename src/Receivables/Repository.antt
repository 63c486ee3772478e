-- ===== src/Receivables/Repository.antt =====
-- internal/ar/repository.go, with the columns, constraints and the trigger of migrations/000022. A sum
-- that the database makes is made with the operations of float64.
use odyssey_erp.Common.{
  ℕ, ◌+◌, Bool, true, false, ◌&&◌, ◌||◌, not, Option, none, some, List, [], ◌∷◌, ◌++◌, String,
  str_eq, ◌==◌, if◌then◌else◌, find, update, exists, count, Action, pure, gets, or_raise, raise_if,
  modify, ◌>>=◌, ◌>>◌,
}
use odyssey_erp.Common.Float.{FloatOps}
use odyssey_erp.Receivables.Model.{
  ArInvoiceStatus, draft, posted, paid, void, Error, not_in_draft, cannot_be_voided, not_found,
  number_taken, constraint_violated, ArInvoice, ArInvoiceLine, ArPayment, ArPaymentAllocation,
  CreateArInvoiceLineInput, CreateArInvoiceInput, CreateArPaymentInput, Db,
}

abbrev pub is_draft : ArInvoiceStatus → Bool
is_draft draft = true
is_draft posted = false
is_draft paid = false
is_draft void = false

abbrev pub is_posted : ArInvoiceStatus → Bool
is_posted draft = false
is_posted posted = true
is_posted paid = false
is_posted void = false

module _ (fl : FloatOps) where
  open fl use {Float, zero as zero_float, one, hundred, add, sub, mul, div, lt, le, store}

  abbrev pub has_id : ℕ → ArInvoice Float → Bool
  has_id k x = x.id == k

  abbrev pub invoice_with_id : ℕ → Db Float → Option (ArInvoice Float)
  invoice_with_id k db = find (has_id k) db.invoices

  unfoldable pub get_ar_invoice : ℕ → Action (Db Float) Error (ArInvoice Float)
  get_ar_invoice k = do db ← gets (λ db. db); or_raise (invoice_with_id k db) not_found

  -- The row of a new invoice.
  abbrev pub new_invoice : CreateArInvoiceInput Float → Db Float → ArInvoice Float
  new_invoice i db = record {
    id = db.next_invoice;
    number = i.number;
    customer_id = i.customer_id;
    so_id = i.so_id;
    delivery_order_id = i.delivery_order_id;
    currency = i.currency;
    subtotal = store 4 i.subtotal;
    tax_amount = store 4 i.tax_amount;
    total = store 2 i.total;
    status = draft;
    due_at = i.due_date;
    posted_at = none;
    posted_by = none;
    voided_at = none;
    voided_by = none;
    void_reason = "";
    created_by = i.created_by;
    created_at = db.clock;
    updated_at = db.clock;
  }

  -- The invoice that comes back has the amounts of the input.
  unfoldable pub create_ar_invoice_row :
      CreateArInvoiceInput Float → Action (Db Float) Error (ArInvoice Float)
  create_ar_invoice_row i = do
    db ← gets (λ db. db)
    raise_if (lt (store 2 i.total) zero_float) constraint_violated
    raise_if (exists (λ x. str_eq x.number i.number) db.invoices) number_taken
    modify (λ db. record db {
      invoices = db.invoices ++ new_invoice i db ∷ [];
      next_invoice = db.next_invoice + 1;
    })
    pure (record (new_invoice i db) {
      subtotal = i.subtotal;
      tax_amount = i.tax_amount;
      total = i.total;
    })

  abbrev pub line_subtotal : Float → Float → Float → Float
  line_subtotal quantity unit_price discount_pct =
      mul (mul quantity unit_price) (sub one (div discount_pct hundred))

  abbrev pub line_tax : Float → Float → Float
  line_tax subtotal tax_pct = mul subtotal (div tax_pct hundred)

  abbrev pub invoice_line : ℕ → CreateArInvoiceLineInput Float → Db Float → ArInvoiceLine Float
  invoice_line invoice l db =
      let subtotal = line_subtotal l.quantity l.unit_price l.discount_pct in
      let tax = line_tax subtotal l.tax_pct in
      record {
        id = db.next_line;
        ar_invoice_id = invoice;
        delivery_order_line_id = l.delivery_order_line_id;
        product_id = l.product_id;
        description = l.description;
        quantity = store 4 l.quantity;
        unit_price = store 4 l.unit_price;
        discount_pct = store 2 l.discount_pct;
        tax_pct = store 2 l.tax_pct;
        subtotal = store 4 subtotal;
        tax_amount = store 4 tax;
        total = store 4 (add subtotal tax);
        created_at = db.clock;
      }

  unfoldable pub create_ar_invoice_line :
      ℕ → CreateArInvoiceLineInput Float → Action (Db Float) Error (Unit {0})
  create_ar_invoice_line invoice l = modify (λ db. record db {
    invoice_lines = db.invoice_lines ++ invoice_line invoice l db ∷ [];
    next_line = db.next_line + 1;
  })

  abbrev pub posted_row : ℕ → ℕ → ArInvoice Float → ArInvoice Float
  posted_row by now x = record x {
    status = posted;
    posted_at = some now;
    posted_by = some by;
    updated_at = now;
  }

  -- UPDATE ... WHERE id = $1 AND status = 'DRAFT'
  unfoldable pub post_ar_invoice_row : ℕ → ℕ → Action (Db Float) Error (Unit {0})
  post_ar_invoice_row k by = do
    db ← gets (λ db. db)
    raise_if (not (exists (λ x. x.id == k && is_draft x.status) db.invoices)) not_in_draft
    modify (λ db. record db {
      invoices = update (λ x. x.id == k && is_draft x.status) (posted_row by db.clock) db.invoices;
    })

  abbrev pub voided_row : ℕ → String → ℕ → ArInvoice Float → ArInvoice Float
  voided_row by reason now x = record x {
    status = void;
    voided_at = some now;
    voided_by = some by;
    void_reason = reason;
    updated_at = now;
  }

  abbrev pub can_be_voided : ArInvoiceStatus → Bool
  can_be_voided s = is_draft s || is_posted s

  unfoldable pub void_ar_invoice_row : ℕ → ℕ → String → Action (Db Float) Error (Unit {0})
  void_ar_invoice_row k by reason = do
    db ← gets (λ db. db)
    raise_if (not (exists (λ x. x.id == k && can_be_voided x.status) db.invoices)) cannot_be_voided
    modify (λ db. record db {
      invoices =
          update (λ x. x.id == k && can_be_voided x.status) (voided_row by reason db.clock)
            db.invoices;
    })

  -- SUM(amount) of the allocations to an invoice.
  unfoldable pub sum_allocated : Float → ℕ → List (ArPaymentAllocation Float) → Float
  sum_allocated acc k [] = acc
  sum_allocated acc k (a ∷ rows) =
      let rest = sum_allocated (add acc a.amount) k rows in
      if a.ar_invoice_id == k then rest else sum_allocated acc k rows

  abbrev pub balance_of : ArInvoice Float → Db Float → Float
  balance_of x db = sub x.total (sum_allocated zero_float x.id db.allocations)

  unfoldable pub get_invoice_balance : ℕ → Action (Db Float) Error Float
  get_invoice_balance k = do
    db ← gets (λ db. db)
    x ← or_raise (invoice_with_id k db) not_found
    pure (balance_of x db)

  abbrev pub count_invoices_by_delivery : ℕ → Action (Db Float) Error ℕ
  count_invoices_by_delivery k =
      gets (λ db. count (λ x. x.delivery_order_id == k && not (k == 0)) db.invoices)

  abbrev pub first_invoice : CreateArPaymentInput Float → ℕ
  first_invoice i = elim i.allocations [ [] ↦ 0 | a ∷ rows ↦ a.ar_invoice_id ]

  abbrev pub new_payment : CreateArPaymentInput Float → Db Float → ArPayment Float
  new_payment i db = record {
    id = db.next_payment;
    number = i.number;
    ar_invoice_id = first_invoice i;
    amount = store 2 i.amount;
    paid_at = i.paid_at;
    method = i.method;
    note = i.note;
    created_by = i.created_by;
    created_at = db.clock;
    updated_at = db.clock;
  }

  unfoldable pub create_ar_payment_row :
      CreateArPaymentInput Float → Action (Db Float) Error (ArPayment Float)
  create_ar_payment_row i = do
    db ← gets (λ db. db)
    raise_if (not (lt zero_float (store 2 i.amount))) constraint_violated
    raise_if (exists (λ x. str_eq x.number i.number) db.payments) number_taken
    modify (λ db. record db {
      payments = db.payments ++ new_payment i db ∷ [];
      next_payment = db.next_payment + 1;
    })
    pure (record (new_payment i db) { amount = i.amount })

  abbrev pub new_allocation : ℕ → ℕ → Float → Db Float → ArPaymentAllocation Float
  new_allocation payment invoice amount db = record {
    id = db.next_allocation;
    ar_payment_id = payment;
    ar_invoice_id = invoice;
    amount = store 4 amount;
    created_at = db.clock;
  }

  abbrev pub paid_row : ℕ → ArInvoice Float → ArInvoice Float
  paid_row now x = record x { status = paid; updated_at = now }

  -- The trigger trg_update_invoice_status: a posted invoice whose allocations reach its total is paid.
  abbrev pub settle_invoice : ℕ → Db Float → Db Float
  settle_invoice k db = record db {
    invoices =
        update
          (λ x.
            x.id == k
            && is_posted x.status
            && le x.total (sum_allocated zero_float k db.allocations))
          (paid_row db.clock) db.invoices;
  }

  unfoldable pub create_payment_allocation : ℕ → ℕ → Float → Action (Db Float) Error (Unit {0})
  create_payment_allocation payment invoice amount = do
    raise_if (not (lt zero_float (store 4 amount))) constraint_violated
    modify (λ db. settle_invoice invoice (record db {
      allocations = db.allocations ++ new_allocation payment invoice amount db ∷ [];
      next_allocation = db.next_allocation + 1;
    }))
