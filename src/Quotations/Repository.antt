-- ===== src/Quotations/Repository.antt =====
-- internal/sales/quotations/repository.go: the statements on quotations, their lines and their
-- number sequences. The checks are those of the columns of migrations/000011.
use odyssey_erp.Common.{
  map, ℕ, ◌+◌, ◌/◌, ◌%◌, Bool, ◌&&◌, ◌||◌, not, Option, none, some, List, [], ◌∷◌, ◌++◌, ◌+str◌,
  String, ◌==◌, str_eq, ltb, if◌then◌else◌, find, select, update, exists, sprint, Action, pure,
  gets, or_raise, modify, raise_if, ◌>>=◌, ◌>>◌,
}
use odyssey_erp.Common.Float.{FloatOps}
use odyssey_erp.Quotations.Model.{
  QuotationStatus, submitted, approved, rejected, draft, converted, Error, not_found,
  constraint_violated, doc_number_taken, QuotationRow, QuotationLine, Quotation, SequenceRow, Db,
}

-- `%02d` and `%04d`, and time.Format("200601") and ("0601").
abbrev pad2 : ℕ → String
pad2 n = if ltb n 10 then "0" +str sprint n else sprint n

abbrev pad4 : ℕ → String
pad4 n = if ltb n 100 then "00" +str pad2 n else if ltb n 1000 then "0" +str sprint n else sprint n

abbrev pub long_month : ℕ → String
long_month date = pad4 (date / 10000) +str pad2 (date / 100 % 100)

abbrev pub short_month : ℕ → String
short_month date = pad2 (date / 10000 % 100) +str pad2 (date / 100 % 100)

-- The columns that a status sets; every other one of them becomes null.
abbrev pub approver : QuotationStatus → ℕ → Option ℕ
approver approved v = some v
approver draft v = none
approver submitted v = none
approver rejected v = none
approver converted v = none

abbrev pub rejecter : {A : Type 0} → QuotationStatus → Option A → Option A
rejecter rejected v = v
rejecter draft v = none
rejecter submitted v = none
rejecter approved v = none
rejecter converted v = none

module _ (fl : FloatOps) where
  open fl use {Float, zero as zero_float, hundred, lt, store_text, store}

  abbrev pub quotation_with_id : ℕ → Db Float → Option (QuotationRow Float)
  quotation_with_id k db = find (λ q. q.id == k) db.quotations

  -- ORDER BY line_order, id: the table holds the ids in order.
  abbrev insert_ordered :
      QuotationLine Float → List (QuotationLine Float) → List (QuotationLine Float)
  insert_ordered l [] = l ∷ []
  insert_ordered l (m ∷ ms) =
      let rest = insert_ordered l ms in
      if ltb m.line_order l.line_order || m.line_order == l.line_order && ltb m.id l.id
      then m ∷ rest
      else l ∷ m ∷ ms

  unfoldable pub order_lines : List (QuotationLine Float) → List (QuotationLine Float)
  order_lines [] = []
  order_lines (l ∷ ls) = insert_ordered l (order_lines ls)

  abbrev pub lines_of : ℕ → Db Float → List (QuotationLine Float)
  lines_of k db = select (λ l. l.quotation_id == k) db.lines

  -- func mapLinesFromSqlc: the times of a line are not copied.
  abbrev map_line : QuotationLine Float → QuotationLine Float
  map_line l = record l { created_at = 0; updated_at = 0 }

  abbrev pub map_lines : List (QuotationLine Float) → List (QuotationLine Float)
  map_lines ls = map map_line ls

  -- func mapQuotationFromSqlc, and the lines.
  abbrev pub map_quotation : QuotationRow Float → List (QuotationLine Float) → Quotation Float
  map_quotation row ls = record { row = row; lines = ls }

  unfoldable pub get : ℕ → Action (Db Float) Error (Quotation Float)
  unfolding order_lines
  get k = do
    db ← gets (λ db. db)
    row ← or_raise (quotation_with_id k db) not_found
    pure (map_quotation row (map_lines (order_lines (lines_of k db))))

  -- The checks of `quotations`.
  abbrev pub breaks_quotation_checks : QuotationRow Float → Bool
  breaks_quotation_checks q =
      ltb q.valid_until q.quote_date
      || lt q.subtotal zero_float
      || lt q.tax_amount zero_float
      || lt q.total_amount zero_float

  abbrev pub stored_quotation : QuotationRow Float → Db Float → QuotationRow Float
  stored_quotation q db = record q {
    id = db.next_quotation;
    subtotal = store_text 2 q.subtotal;
    tax_amount = store_text 2 q.tax_amount;
    total_amount = store_text 2 q.total_amount;
    created_at = db.clock;
    updated_at = db.clock;
  }

  unfoldable pub create : QuotationRow Float → Action (Db Float) Error ℕ
  create q = do
    db ← gets (λ db. db)
    raise_if (breaks_quotation_checks (stored_quotation q db)) constraint_violated
    raise_if (exists (λ r. str_eq r.doc_number q.doc_number) db.quotations) doc_number_taken
    modify (λ db. record db {
      quotations = db.quotations ++ stored_quotation q db ∷ [];
      next_quotation = db.next_quotation + 1;
    })
    pure db.next_quotation

  -- The checks of `quotation_lines`.
  abbrev pub breaks_line_checks : QuotationLine Float → Bool
  breaks_line_checks l =
      not (lt zero_float l.quantity)
      || lt l.unit_price zero_float
      || lt l.discount_percent zero_float
      || lt hundred l.discount_percent
      || lt l.discount_amount zero_float
      || lt l.tax_percent zero_float
      || lt l.tax_amount zero_float

  abbrev pub stored_line : QuotationLine Float → ℕ → ℕ → QuotationLine Float
  stored_line l k now = record l {
    id = k;
    quantity = store_text 4 l.quantity;
    unit_price = store_text 2 l.unit_price;
    discount_percent = store_text 2 l.discount_percent;
    discount_amount = store_text 2 l.discount_amount;
    tax_percent = store_text 2 l.tax_percent;
    tax_amount = store_text 2 l.tax_amount;
    line_total = store_text 2 l.line_total;
    created_at = now;
    updated_at = now;
  }

  unfoldable pub insert_line : QuotationLine Float → Action (Db Float) Error (Unit {0})
  insert_line l = do
    db ← gets (λ db. db)
    raise_if (breaks_line_checks (stored_line l db.next_line db.clock)) constraint_violated
    modify (λ db. record db {
      lines = db.lines ++ stored_line l db.next_line db.clock ∷ [];
      next_line = db.next_line + 1;
    })

  abbrev pub with_status :
      QuotationStatus → ℕ → Option String → ℕ → QuotationRow Float → QuotationRow Float
  with_status status user reason now q = record q {
    status = status;
    approved_by = approver status user;
    approved_at = approver status now;
    rejected_by = rejecter status (some user);
    rejected_at = rejecter status (some now);
    rejection_reason = rejecter status reason;
    updated_at = now;
  }

  unfoldable pub update_status :
      ℕ → QuotationStatus → ℕ → Option String → Action (Db Float) Error (Unit {0})
  update_status k status user reason = modify (λ db. record db {
    quotations = update (λ q. q.id == k) (with_status status user reason db.clock) db.quotations;
  })

  -- The columns that `Update` may set, each with its new value if it does.
  pub record Updates : Type 0 where
    pub quote_date : Option ℕ
    pub valid_until : Option ℕ
    pub notes : Option String
    pub totals : Option (Float × Float × Float)

  abbrev pub updated : {A : Type 0} → A → Option A → A
  updated old none = old
  updated old (some new) = new

  abbrev pub with_totals : Option (Float × Float × Float) → QuotationRow Float → QuotationRow Float
  with_totals none q = q
  with_totals (some (subtotal, tax, total)) q = record q {
    subtotal = store 2 subtotal;
    tax_amount = store 2 tax;
    total_amount = store 2 total;
  }

  abbrev pub with_notes : Option String → QuotationRow Float → QuotationRow Float
  with_notes none q = q
  with_notes (some text) q = record q { notes = some text }

  abbrev pub with_updates : Updates → ℕ → QuotationRow Float → QuotationRow Float
  with_updates u now q = with_totals u.totals (
      with_notes u.notes (record q {
        quote_date = updated q.quote_date u.quote_date;
        valid_until = updated q.valid_until u.valid_until;
        updated_at = now;
      }))

  unfoldable pub update_quotation : ℕ → Updates → Action (Db Float) Error (Unit {0})
  update_quotation k u = do
    db ← gets (λ db. db)
    raise_if
        (exists (λ q. q.id == k && breaks_quotation_checks (with_updates u db.clock q))
          db.quotations)
        constraint_violated
    modify (λ db. record db {
      quotations = update (λ q. q.id == k) (with_updates u db.clock) db.quotations;
    })

  unfoldable pub delete_lines : ℕ → Action (Db Float) Error (Unit {0})
  delete_lines k =
      modify (λ db. record db { lines = select (λ l. not (l.quotation_id == k)) db.lines })

  abbrev is_sequence : ℕ → String → SequenceRow → Bool
  is_sequence company period s = s.company_id == company && str_eq s.period period

  abbrev next_seq : Option SequenceRow → ℕ
  next_seq none = 1
  next_seq (some s) = s.seq + 1

  abbrev bumped : ℕ → String → ℕ → Option SequenceRow → List SequenceRow → List SequenceRow
  bumped company period n none ss =
      ss ++ record { company_id = company; period = period; seq = n } ∷ []
  bumped company period n (some s) ss =
      update (is_sequence company period) (λ r. record r { seq = n }) ss

  unfoldable pub generate_number : ℕ → ℕ → Action (Db Float) Error String
  generate_number company date = do
    db ← gets (λ db. db)
    modify (λ db. record db {
      sequences =
          bumped company (long_month date)
            (next_seq (find (is_sequence company (long_month date)) db.sequences))
            (find (is_sequence company (long_month date)) db.sequences) db.sequences;
    })
    pure (
        "QT-"
        +str (short_month date
            +str ("-"
                +str pad4 (next_seq (find (is_sequence company (long_month date)) db.sequences)))))
