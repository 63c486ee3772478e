-- ===== src/Quotations/Revisions.antt =====
-- The revision of a draft with new lines (internal/sales/quotations/service.go: Update).
use odyssey_erp.Common.{ℕ, not, ◌≡◌, some, List, ◌++◌, ◌==◌, select, update}
use odyssey_erp.Common.Float.{FloatOps}
use odyssey_erp.Quotations.Model.{
  draft, QuotationRow, CreateQuotationLineReq, UpdateQuotationRequest, Db,
}
use odyssey_erp.Quotations.Repository.{quotation_with_id, Updates, with_updates}
use odyssey_erp.Quotations.Amounts.{line_rows, revised_row, totals_of}

module _ (fl : FloatOps) where
  open fl use {Float, zero as zero_float, store}

  abbrev with_revision : ℕ → Updates fl → Db Float → Db Float
  with_revision k u db = record db {
    quotations = update (λ q. q.id == k) (with_updates fl u db.clock) db.quotations;
  }

  abbrev without_lines : ℕ → Db Float → Db Float
  without_lines k db = record db { lines = select (λ l. not (l.quotation_id == k)) db.lines }

  -- What a revision does, as the next theorem states it.
  abbrev pub Revised :
      ℕ
      → UpdateQuotationRequest Float
      → List (CreateQuotationLineReq Float)
      → Db Float
      → Db Float
      → Type 0
  Revised k req ls db t =
      (q : QuotationRow Float) × (quotation_with_id fl k db ≡ some q)
      × (q.status ≡ draft)
      × (t.quotations
          ≡ update (λ x. x.id == k) (revised_row fl req (totals_of fl ls) db.clock) db.quotations)
      × (t.lines
          ≡ select (λ l. not (l.quotation_id == k)) db.lines
            ++ line_rows fl db.next_line k 1 db.clock ls)
