-- ===== src/Quotations/Service.antt =====
-- internal/sales/quotations/service.go. The wrapped errors of the code are the errors themselves.
use odyssey_erp.Common.{
  ℕ, ◌+◌, Bool, true, false, not, Option, none, some, List, [], ◌∷◌, String, ◌==◌, ltb,
  if◌then◌else◌, exists, Action, pure, gets, raise_if, with_tx, for_each, ◌>>=◌, ◌>>◌,
}
use odyssey_erp.Common.Float.{FloatOps}
use odyssey_erp.Quotations.Model.{
  QuotationStatus, draft, submitted, approved, rejected, converted, Error, dates_reversed,
  customer_not_found, invalid_status, QuotationRow, QuotationLine, Quotation,
  CreateQuotationLineReq, CreateQuotationRequest, UpdateQuotationRequest, Db, calculate_line_totals,
}
use odyssey_erp.Quotations.Repository.{
  get, create, insert_line, update_status, Updates, update_quotation, delete_lines, generate_number,
}

abbrev pub is_draft : QuotationStatus → Bool
is_draft draft = true
is_draft submitted = false
is_draft approved = false
is_draft rejected = false
is_draft converted = false

abbrev pub is_submitted : QuotationStatus → Bool
is_submitted submitted = true
is_submitted draft = false
is_submitted approved = false
is_submitted rejected = false
is_submitted converted = false

abbrev pub is_some : {A : Type 0} → Option A → Bool
is_some none = false
is_some (some a) = true

module _ (fl : FloatOps) where
  open fl use {Float, zero as zero_float, add, sub, mul}

  -- The loop over the lines: the subtotal, the tax and the total so far.
  unfoldable pub sum_lines :
      Float → Float → Float → List (CreateQuotationLineReq Float) → Float × Float × Float
  sum_lines subtotal tax total [] = (subtotal, tax, total)
  sum_lines subtotal tax total (l ∷ ls) =
      let (discount, line_tax, line_total) =
        calculate_line_totals fl l.quantity l.unit_price l.discount_percent l.tax_percent in
      sum_lines (add subtotal (sub (mul l.quantity l.unit_price) discount)) (add tax line_tax)
        (add total line_total) ls

  -- A line without an order gets its place in the request, from 1. Its id and times are the table's.
  abbrev pub request_line : ℕ → ℕ → CreateQuotationLineReq Float → QuotationLine Float
  request_line quotation i l =
      let (discount, tax, total) =
        calculate_line_totals fl l.quantity l.unit_price l.discount_percent l.tax_percent in
      record {
        id = 0;
        quotation_id = quotation;
        product_id = l.product_id;
        description = l.description;
        quantity = l.quantity;
        uom = l.uom;
        unit_price = l.unit_price;
        discount_percent = l.discount_percent;
        discount_amount = discount;
        tax_percent = l.tax_percent;
        tax_amount = tax;
        line_total = total;
        notes = l.notes;
        line_order = if l.line_order == 0 then i + 1 else l.line_order;
        created_at = 0;
        updated_at = 0;
      }

  unfoldable pub request_lines :
      ℕ → ℕ → List (CreateQuotationLineReq Float) → List (QuotationLine Float)
  request_lines quotation i [] = []
  request_lines quotation i (l ∷ ls) =
      request_line quotation i l ∷ request_lines quotation (i + 1) ls

  abbrev pub new_quotation :
      CreateQuotationRequest Float → ℕ → String → Float × Float × Float → QuotationRow Float
  new_quotation req created_by number (subtotal, tax, total) = record {
    id = 0;
    doc_number = number;
    company_id = req.company_id;
    customer_id = req.customer_id;
    quote_date = req.quote_date;
    valid_until = req.valid_until;
    status = draft;
    currency = req.currency;
    subtotal = subtotal;
    tax_amount = tax;
    total_amount = total;
    notes = req.notes;
    created_by = created_by;
    approved_by = none;
    approved_at = none;
    rejected_by = none;
    rejected_at = none;
    rejection_reason = none;
    created_at = 0;
    updated_at = 0;
  }

  unfoldable pub create_body :
      CreateQuotationRequest Float → QuotationRow Float → Action (Db Float) Error ℕ
  create_body req q = do
    id ← create fl q
    for_each (request_lines id 0 req.lines) (insert_line fl)
    pure id

  unfoldable pub create_quotation :
      CreateQuotationRequest Float → ℕ → Action (Db Float) Error (Quotation Float)
  create_quotation req created_by = do
    raise_if (ltb req.valid_until req.quote_date) dates_reversed
    db ← gets (λ db. db)
    raise_if (not (exists (λ c. c == req.customer_id) db.customers)) customer_not_found
    number ← generate_number fl req.company_id req.quote_date
    id ← with_tx (
        create_body req (
          new_quotation req created_by number
            (sum_lines zero_float zero_float zero_float req.lines)))
    get fl id

  -- The new totals: those of the lines if there are any, the old ones if the list is empty, and
  -- none to write if the request has no list.
  abbrev pub new_totals :
      Option (List (CreateQuotationLineReq Float))
      → QuotationRow Float
      → Option (Float × Float × Float)
  new_totals none q = none
  new_totals (some []) q = some (q.subtotal, q.tax_amount, q.total_amount)
  new_totals (some (l ∷ ls)) q = some (sum_lines zero_float zero_float zero_float (l ∷ ls))

  abbrev pub updates_of : UpdateQuotationRequest Float → QuotationRow Float → Updates fl
  updates_of req q = record {
    quote_date = req.quote_date;
    valid_until = req.valid_until;
    notes = req.notes;
    totals = new_totals req.lines q;
  }

  -- The map of updates has a key exactly if one of the fields is there.
  abbrev pub has_updates : UpdateQuotationRequest Float → Bool
  has_updates req =
      if is_some req.quote_date
      then true
      else if is_some req.valid_until
      then true
      else if is_some req.notes
      then true
      else is_some req.lines

  unfoldable pub replace_lines :
      ℕ → Option (List (CreateQuotationLineReq Float)) → Action (Db Float) Error (Unit {0})
  replace_lines id none = pure tt
  replace_lines id (some ls) = do
    delete_lines fl id
    for_each (request_lines id 0 ls) (insert_line fl)

  unfoldable pub update_body :
      ℕ → UpdateQuotationRequest Float → QuotationRow Float → Action (Db Float) Error (Unit {0})
  update_body id req q = do
    (λ db. if has_updates req then update_quotation fl id (updates_of req q) db else pure tt db)
    replace_lines id req.lines

  unfoldable pub update_draft :
      ℕ → UpdateQuotationRequest Float → Action (Db Float) Error (Quotation Float)
  update_draft id req = do
    existing ← get fl id
    raise_if (not (is_draft existing.row.status)) invalid_status
    with_tx (update_body id req existing.row)
    get fl id

  unfoldable pub submit : ℕ → ℕ → Action (Db Float) Error (Quotation Float)
  submit id user = do
    existing ← get fl id
    raise_if (not (is_draft existing.row.status)) invalid_status
    update_status fl id submitted user none
    get fl id

  unfoldable pub approve : ℕ → ℕ → Action (Db Float) Error (Quotation Float)
  approve id user = do
    existing ← get fl id
    raise_if (not (is_submitted existing.row.status)) invalid_status
    update_status fl id approved user none
    get fl id

  unfoldable pub reject : ℕ → ℕ → String → Action (Db Float) Error (Quotation Float)
  reject id user reason = do
    existing ← get fl id
    raise_if (not (is_submitted existing.row.status)) invalid_status
    update_status fl id rejected user (some reason)
    get fl id
