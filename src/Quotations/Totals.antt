-- ===== src/Quotations/Totals.antt =====
-- The totals and lines of a new quotation (internal/sales/quotations/service.go: Create;
-- internal/sales/shared/calculations.go).
use odyssey_erp.Common.{
  ℕ, ◌+◌, true, false, ◌≡◌, sym, ap, ◌∙◌, List, [], ◌∷◌, ◌++◌, String, ◌==◌, str_eq, ltb, exists,
  inl, inr, Bool-cases, Option-cases, ok, >>=-elim, pure-ok, for_each, ++_assoc, ++_nil,
}
use odyssey_erp.Common.Float.{FloatOps}
use odyssey_erp.Quotations.Model.{
  QuotationRow, QuotationLine, Quotation, CreateQuotationRequest, Db,
}
use odyssey_erp.Quotations.Repository.{
  get, insert_line, quotation_with_id, stored_quotation, stored_line, breaks_line_checks,
}
use odyssey_erp.Quotations.Amounts.{stored_lines, line_rows, draft_row, totals_of}

module _ (fl : FloatOps) where
  open fl use {Float, zero as zero_float}

  abbrev with_line : QuotationLine Float → Db Float → Db Float
  with_line l db = record db {
    lines = db.lines ++ stored_line fl l db.next_line db.clock ∷ [];
    next_line = db.next_line + 1;
  }

  insert_line-ok :
      (l : QuotationLine Float) (db : Db Float) {u : Unit {0}} {t : Db Float}
      → insert_line fl l db ≡ (ok u, t)
      → t ≡ with_line l db
  unfolding insert_line
  insert_line-ok l db h =
      elim (Bool-cases (breaks_line_checks fl (stored_line fl l db.next_line db.clock))) [
        | inl bad ↦ absurd (cc (rw bad at h))
        | inr good ↦ cc (rw good at h)
      ]

  -- What the insertion of lines leaves.
  abbrev pub Lined : List (QuotationLine Float) → Db Float → Db Float → Type 0
  Lined ls db t =
      (t.quotations ≡ db.quotations)
      × (t.lines ≡ db.lines ++ stored_lines fl db.next_line db.clock ls)

  pub insert_lines-ok :
      (ls : List (QuotationLine Float)) (db : Db Float) {u : Unit {0}} {t : Db Float}
      → for_each ls (insert_line fl) db ≡ (ok u, t)
      → Lined ls db t
  unfolding stored_lines
  insert_lines-ok [] db {u} {t} h =
      let (e, et) = pure-ok h in
      (ap (λ d. d.quotations) et, ap (λ d. d.lines) et ∙ sym (++_nil db.lines))
  insert_lines-ok (l ∷ ls) db h =
      >>=-elim (insert_line fl l) (λ u. for_each ls (insert_line fl)) db h
        λ u s first rest.
          let (eq, el) =
            insert_lines-ok ls (with_line l db) (rw (insert_line-ok l db first) at rest) in
          (eq, el ∙ ++_assoc db.lines (stored_line fl l db.next_line db.clock ∷ []) _)

  abbrev with_quotation : QuotationRow Float → Db Float → Db Float
  with_quotation q db = record db {
    quotations = db.quotations ++ stored_quotation fl q db ∷ [];
    next_quotation = db.next_quotation + 1;
  }

  -- What the creation of a quotation does, as the next theorem states it.
  abbrev pub Created : CreateQuotationRequest Float → ℕ → Db Float → Db Float → Type 0
  Created req by db t =
      (number : String) × (ltb req.valid_until req.quote_date ≡ false)
      × (exists (λ c. c == req.customer_id) db.customers ≡ true)
      × (exists (λ r. str_eq r.doc_number number) db.quotations ≡ false)
      × (t.quotations
          ≡ db.quotations ++ draft_row fl req by number (totals_of fl req.lines) db ∷ [])
      × (t.lines ≡ db.lines ++ line_rows fl db.next_line db.next_quotation 1 db.clock req.lines)

  pub get_same :
      (k : ℕ) (db : Db Float) {x : Quotation Float} {t : Db Float}
      → get fl k db ≡ (ok x, t)
      → t ≡ db
  unfolding get
  get_same k db h = elim (Option-cases (quotation_with_id fl k db)) [
    | inl missing ↦ absurd (cc (rw missing at h))
    | inr (q, found) ↦ let (e, et) = pure-ok (rw found at h) in et
  ]
