-- ===== src/Quotations/Amounts.antt =====
-- The amounts of a quotation, said apart from the loops of the service (internal/sales/quotations/service.go;
-- internal/sales/shared/calculations.go): each total is a sum over the lines, each row is spelled out.
use odyssey_erp.Common.{
  ℕ, ◌+◌, ◌≡◌, refl, ap, ◌∙◌, Option, none, some, List, [], ◌∷◌, String, ◌==◌, if◌then◌else◌,
}
use odyssey_erp.Common.Float.{FloatOps}
use odyssey_erp.Quotations.Model.{
  draft, QuotationRow, QuotationLine, CreateQuotationLineReq, CreateQuotationRequest,
  UpdateQuotationRequest, Db,
}
use odyssey_erp.Quotations.Repository.{stored_line, stored_quotation, with_updates, updated}
use odyssey_erp.Quotations.Service.{sum_lines, request_lines, new_quotation, new_totals, updates_of}

module _ (fl : FloatOps) where
  open fl use {Float, zero as zero_float, hundred, add, sub, mul, div, store, store_text}

  abbrev gross_of : CreateQuotationLineReq Float → Float
  gross_of l = mul l.quantity l.unit_price

  abbrev discount_of : CreateQuotationLineReq Float → Float
  discount_of l = mul (gross_of l) (div l.discount_percent hundred)

  abbrev net_of : CreateQuotationLineReq Float → Float
  net_of l = sub (gross_of l) (discount_of l)

  abbrev tax_of : CreateQuotationLineReq Float → Float
  tax_of l = mul (net_of l) (div l.tax_percent hundred)

  abbrev total_of : CreateQuotationLineReq Float → Float
  total_of l = add (net_of l) (tax_of l)

  unfoldable pub sum_by :
      (CreateQuotationLineReq Float → Float) → Float → List (CreateQuotationLineReq Float) → Float
  sum_by f acc [] = acc
  sum_by f acc (l ∷ ls) = sum_by f (add acc (f l)) ls

  -- The net amounts, the taxes and the line totals, each summed up.
  abbrev pub totals_of : List (CreateQuotationLineReq Float) → Float × Float × Float
  totals_of ls =
      (sum_by net_of zero_float ls, sum_by tax_of zero_float ls, sum_by total_of zero_float ls)

  sum_lines_parts :
      (ls : List (CreateQuotationLineReq Float)) (a b c : Float)
      → sum_lines fl a b c ls ≡ (sum_by net_of a ls, sum_by tax_of b ls, sum_by total_of c ls)
  unfolding sum_lines sum_by
  sum_lines_parts [] a b c = refl
  sum_lines_parts (l ∷ ls) a b c =
      sum_lines_parts ls (add a (net_of l)) (add b (tax_of l)) (add c (total_of l))

  pub sum_lines-totals :
      (ls : List (CreateQuotationLineReq Float))
      → sum_lines fl zero_float zero_float zero_float ls ≡ totals_of ls
  sum_lines-totals ls = sum_lines_parts ls zero_float zero_float zero_float

  -- The row of a line: the amounts that the request asks for, and those that follow from them.
  abbrev pub line_row : ℕ → ℕ → ℕ → ℕ → CreateQuotationLineReq Float → QuotationLine Float
  line_row k quotation place now l = record {
    id = k;
    quotation_id = quotation;
    product_id = l.product_id;
    description = l.description;
    quantity = store_text 4 l.quantity;
    uom = l.uom;
    unit_price = store_text 2 l.unit_price;
    discount_percent = store_text 2 l.discount_percent;
    discount_amount = store_text 2 (discount_of l);
    tax_percent = store_text 2 l.tax_percent;
    tax_amount = store_text 2 (tax_of l);
    line_total = store_text 2 (total_of l);
    notes = l.notes;
    line_order = if l.line_order == 0 then place else l.line_order;
    created_at = now;
    updated_at = now;
  }

  -- One row for each line, in their order: the first has the place 1.
  unfoldable pub line_rows :
      ℕ → ℕ → ℕ → ℕ → List (CreateQuotationLineReq Float) → List (QuotationLine Float)
  line_rows k quotation place now [] = []
  line_rows k quotation place now (l ∷ ls) =
      line_row k quotation place now l ∷ line_rows (k + 1) quotation (place + 1) now ls

  -- The rows of the lines, with consecutive ids.
  unfoldable pub stored_lines : ℕ → ℕ → List (QuotationLine Float) → List (QuotationLine Float)
  stored_lines k now [] = []
  stored_lines k now (l ∷ ls) = stored_line fl l k now ∷ stored_lines (k + 1) now ls

  pub stored_lines-rows :
      (ls : List (CreateQuotationLineReq Float)) (k quotation i now : ℕ)
      → stored_lines k now (request_lines fl quotation i ls) ≡ line_rows k quotation (i + 1) now ls
  unfolding stored_lines request_lines line_rows
  stored_lines-rows [] k quotation i now = refl
  stored_lines-rows (l ∷ ls) k quotation i now =
      ap (λ r. line_row k quotation (i + 1) now l ∷ r)
        (stored_lines-rows ls (k + 1) quotation (i + 1) now)

  -- The row of a new quotation.
  abbrev pub draft_row :
      CreateQuotationRequest Float
      → ℕ
      → String
      → Float × Float × Float
      → Db Float
      → QuotationRow Float
  draft_row req by number x db = record {
    id = db.next_quotation;
    doc_number = number;
    company_id = req.company_id;
    customer_id = req.customer_id;
    quote_date = req.quote_date;
    valid_until = req.valid_until;
    status = draft;
    currency = req.currency;
    subtotal = store_text 2 x.0;
    tax_amount = store_text 2 x.1;
    total_amount = store_text 2 x.2;
    notes = req.notes;
    created_by = by;
    approved_by = none;
    approved_at = none;
    rejected_by = none;
    rejected_at = none;
    rejection_reason = none;
    created_at = db.clock;
    updated_at = db.clock;
  }

  pub draft_row_lem :
      (req : CreateQuotationRequest Float) (by : ℕ) (number : String) (db : Db Float)
      → stored_quotation fl
          (new_quotation fl req by number (sum_lines fl zero_float zero_float zero_float req.lines))
          db
        ≡ draft_row req by number (totals_of req.lines) db
  draft_row_lem req by number db =
      ap (λ x. stored_quotation fl (new_quotation fl req by number x) db)
        (sum_lines-totals req.lines)

  -- A field that a request may give.
  abbrev pub given : {A : Type 0} → Option A → A → A
  given none old = old
  given (some new) old = new

  abbrev pub given_notes : Option String → Option String → Option String
  given_notes none old = old
  given_notes (some new) old = some new

  -- A row with what a revision says.
  abbrev pub revised_row :
      UpdateQuotationRequest Float
      → Float × Float × Float
      → ℕ
      → QuotationRow Float
      → QuotationRow Float
  revised_row req x now q = record q {
    quote_date = given req.quote_date q.quote_date;
    valid_until = given req.valid_until q.valid_until;
    notes = given_notes req.notes q.notes;
    subtotal = store 2 x.0;
    tax_amount = store 2 x.1;
    total_amount = store 2 x.2;
    updated_at = now;
  }

  updated-given : {A : Type 0} (old : A) (o : Option A) → updated fl old o ≡ given o old
  updated-given old none = refl
  updated-given old (some new) = refl

  with_updates_row :
      (d v : Option ℕ) (n : Option String) (x : Float × Float × Float) (now : ℕ)
      (q : QuotationRow Float)
      → with_updates fl
          (record { quote_date = d; valid_until = v; notes = n; totals = some x })
          now
          q
        ≡ record q {
          quote_date = given d q.quote_date;
          valid_until = given v q.valid_until;
          notes = given_notes n q.notes;
          subtotal = store 2 x.0;
          tax_amount = store 2 x.1;
          total_amount = store 2 x.2;
          updated_at = now;
        }
  with_updates_row d v none x now q =
      rw (updated-given q.quote_date d, updated-given q.valid_until v) refl
  with_updates_row d v (some n) x now q =
      rw (updated-given q.quote_date d, updated-given q.valid_until v) refl

  pub with_updates-revised :
      (req : UpdateQuotationRequest Float) (q : QuotationRow Float)
      (l : CreateQuotationLineReq Float) (ls : List (CreateQuotationLineReq Float)) (now : ℕ)
      (row : QuotationRow Float)
      → req.lines ≡ some (l ∷ ls)
      → with_updates fl (updates_of fl req q) now row ≡ revised_row req (totals_of (l ∷ ls)) now row
  with_updates-revised req q l ls now row lined =
      ap
        (λ (x : Option (Float × Float × Float)).
          with_updates fl
            (record {
              quote_date = req.quote_date;
              valid_until = req.valid_until;
              notes = req.notes;
              totals = x;
            })
            now row)
        (ap (λ r. new_totals fl r q) lined ∙ ap some (sum_lines-totals (l ∷ ls)))
      ∙ with_updates_row req.quote_date req.valid_until req.notes (totals_of (l ∷ ls)) now row
