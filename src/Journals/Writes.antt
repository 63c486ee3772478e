-- ===== src/Journals/Writes.antt =====
-- What the writes of a posting leave in the tables: the rows of insert_posting
-- (internal/accounting/journals/service.go), described without its steps.
use odyssey_erp.Common.{
  ++_assoc, ++_nil, ℕ, ◌+◌, Bool, ◌≡◌, sym, ap, ◌∙◌, Option, none, some, List, [], ◌∷◌, ◌++◌,
  length, ok, err, Result, arith,
}
use odyssey_erp.Common.Float.{FloatOps}
use odyssey_erp.Close.Model as Close
use odyssey_erp.Journals.Model.{Error, PostingLineInput, JournalLine, Db}
use odyssey_erp.Journals.Repository.{insert_journal_lines, new_line}
use odyssey_erp.Journals.Service.{Guard, check_guard, map_err, guard_error}

abbrev with_close :
    {F : Type 0} → Db F → Result Error (Unit {0}) × Close.Db → Result Error (Unit {0}) × Db F
with_close db (x, c) = (x, record db { close = c })

-- A guard reads and writes the tables of the period close only.
guarded-ok :
    {F : Type 0} (db : Db F) (r : Result Close.Error (Unit {0}) × Close.Db) {u : Unit {0}}
    {t : Db F}
    → with_close db (map_err guard_error r) ≡ (ok u, t)
    → (c : Close.Db) × (t ≡ record db { close = c })
guarded-ok db (ok a, c) h = (c, sym (ap (λ x. x.1) h))
guarded-ok db (err e, c) h = absurd (cc h)

pub check_guard-ok :
    (fl : FloatOps) (guard : Option Guard) (audited : Bool) (k : ℕ) (db : Db (fl.Float))
    {u : Unit {0}} {t : Db (fl.Float)}
    → check_guard fl guard audited k db ≡ (ok u, t)
    → (c : Close.Db) × (t ≡ record db { close = c })
unfolding check_guard
check_guard-ok fl none audited k db h = (db.close, cc)
check_guard-ok fl (some g) audited k db h = guarded-ok db (g k db.close) h

module _ (fl : FloatOps) where
  open fl use {Float}

  -- The rows of the lines, with consecutive ids.
  unfoldable pub stored_lines : ℕ → ℕ → ℕ → List (PostingLineInput Float) → List (JournalLine Float)
  stored_lines k entry now [] = []
  stored_lines k entry now (l ∷ ls) = new_line fl k entry now l ∷ stored_lines (k + 1) entry now ls

  abbrev line_table : List (JournalLine Float) → ℕ → Db Float → Db Float
  line_table rows next db = record db { lines = rows; next_line = next }

  abbrev pub with_lines : ℕ → List (PostingLineInput Float) → Db Float → Db Float
  with_lines entry ls db =
      line_table (db.lines ++ stored_lines db.next_line entry db.clock ls)
        (db.next_line + length ls) db

  line_table-eq :
      {rows rows' : List (JournalLine Float)} {n n' : ℕ} (db : Db Float)
      → rows ≡ rows'
      → n ≡ n'
      → line_table rows n db ≡ line_table rows' n' db
  line_table-eq db e e' = cc

  pub insert_journal_lines_result :
      (entry : ℕ) (ls : List (PostingLineInput Float)) (db : Db Float)
      → insert_journal_lines fl entry ls db ≡ (ok tt, with_lines entry ls db)
  unfolding insert_journal_lines stored_lines
  insert_journal_lines_result entry [] db =
      ap (λ d. (ok tt, d)) (line_table-eq db (sym (++_nil db.lines)) (omega arith))
  insert_journal_lines_result entry (l ∷ ls) db =
      insert_journal_lines_result entry ls (
        line_table (db.lines ++ new_line fl db.next_line entry db.clock l ∷ []) (db.next_line + 1)
          db)
      ∙ ap (λ d. (ok tt, d))
          (line_table-eq db (++_assoc db.lines (new_line fl db.next_line entry db.clock l ∷ []) _)
            (omega arith))
