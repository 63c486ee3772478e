-- ===== src/Journals/Repository.antt =====
-- internal/accounting/journals/repository.go: the statements on entries, lines, source links and
-- the ledger's periods. A text "%.2f" goes into the amount columns, and what the column gives back
-- is read.
use odyssey_erp.Common.{
  ℕ, ◌+◌, Bool, true, false, ◌&&◌, not, Option, none, some, List, [], ◌∷◌, ◌++◌, String, ◌==◌,
  str_eq, leb, ltb, if◌then◌else◌, find, select, update, exists, Action, pure, gets, or_raise,
  modify, raise_if, ◌>>=◌, ◌>>◌,
}
use odyssey_erp.Common.Float.{FloatOps}
use odyssey_erp.Close.Model.{LedgerPeriodRow, LedgerStatus, opened, closed, locked}
use odyssey_erp.Journals.Model.{
  JournalStatus, posted, void, Error, invalid_period, journal_not_found, scan_failed,
  unique_violation, PostingLineInput, PostingInput, JournalLine, EntryRow, Db, midnight,
}

abbrev pub is_open : LedgerStatus → Bool
is_open opened = true
is_open closed = false
is_open locked = false

abbrev pub is_locked : LedgerStatus → Bool
is_locked locked = true
is_locked opened = false
is_locked closed = false

abbrev pub is_posted : JournalStatus → Bool
is_posted posted = true
is_posted void = false

-- func nullIntPtr: a pointer to 0 is stored as NULL.
abbrev pub null_int_ptr : Option ℕ → Option ℕ
null_int_ptr none = none
null_int_ptr (some v) = if v == 0 then none else some v

-- GetNextOpenPeriodAfter: the open period with the least start date from the date on.
abbrev pub earlier : Option LedgerPeriodRow → LedgerPeriodRow → Option LedgerPeriodRow
earlier none l = some l
earlier (some b) l = if ltb l.start_date b.start_date then some l else some b

unfoldable pub next_open_from :
    ℕ → Option LedgerPeriodRow → List LedgerPeriodRow → Option LedgerPeriodRow
next_open_from date best [] = best
next_open_from date best (l ∷ ls) =
    next_open_from date (if is_open l.status && leb date l.start_date then earlier best l else best)
      ls

module _ (fl : FloatOps) where
  open fl use {Float, zero as zero_float, format2, parse}

  abbrev pub entry_with_id : ℕ → Db Float → Option EntryRow
  entry_with_id k db = find (λ e. e.id == k) db.entries

  abbrev pub ledger_period : ℕ → Db Float → Option LedgerPeriodRow
  ledger_period k db = find (λ l. l.id == k) db.close.periods

  -- func toNumeric, and the column.
  abbrev pub to_numeric : Float → Float
  to_numeric v = parse (format2 v)

  abbrev pub new_entry : PostingInput Float → Db Float → EntryRow
  new_entry i db = record {
    id = db.next_entry;
    number = db.next_number;
    period_id = i.period_id;
    date = i.date;
    source_module = i.source_module;
    source_id = i.source_id;
    memo = i.memo;
    posted_by = i.posted_by;
    posted_at = db.clock;
    status = posted;
    created_at = db.clock;
    updated_at = db.clock;
  }

  -- The row of an entry: its date is without the time of day.
  abbrev pub stored_entry : EntryRow → EntryRow
  stored_entry e = record e { date = midnight e.date }

  unfoldable pub insert_journal_entry : PostingInput Float → Action (Db Float) Error EntryRow
  insert_journal_entry i db = pure (new_entry i db) (record db {
    entries = db.entries ++ stored_entry (new_entry i db) ∷ [];
    next_entry = db.next_entry + 1;
    next_number = db.next_number + 1;
  })

  abbrev pub new_line : ℕ → ℕ → ℕ → PostingLineInput Float → JournalLine Float
  new_line k entry now l = record {
    id = k;
    journal_id = entry;
    account_id = l.account_id;
    debit = to_numeric l.debit;
    credit = to_numeric l.credit;
    dim_company_id = null_int_ptr l.company_id;
    dim_branch_id = null_int_ptr l.branch_id;
    dim_warehouse_id = null_int_ptr l.warehouse;
    created_at = now;
    updated_at = now;
  }

  unfoldable pub insert_journal_lines :
      ℕ → List (PostingLineInput Float) → Action (Db Float) Error (Unit {0})
  insert_journal_lines entry [] = pure tt
  insert_journal_lines entry (l ∷ ls) = do
    modify (λ db. record db {
      lines = db.lines ++ new_line db.next_line entry db.clock l ∷ [];
      next_line = db.next_line + 1;
    })
    insert_journal_lines entry ls

  abbrev pub is_linked : String → ℕ → Db Float → Bool
  is_linked m ref db = exists (λ k. str_eq k.module_name m && k.ref_id == ref) db.links

  -- The driver is pgx v5 and the error type that is looked for is that of pgconn v1, so the violated
  -- constraint is passed on as the driver has it, and never becomes ErrSourceConflict.
  unfoldable pub link_source : String → ℕ → ℕ → Action (Db Float) Error (Unit {0})
  link_source m ref entry = do
    db ← gets (λ db. db)
    raise_if (is_linked m ref db) unique_violation
    modify (λ db. record db {
      links = db.links ++ record { module_name = m; ref_id = ref; je_id = entry } ∷ [];
    })

  -- The poster is read into an int64, which takes no NULL.
  unfoldable pub get_journal_with_lines :
      ℕ → Action (Db Float) Error (EntryRow × List (JournalLine Float))
  get_journal_with_lines k = do
    db ← gets (λ db. db)
    row ← or_raise (entry_with_id k db) journal_not_found
    raise_if (row.posted_by == 0) scan_failed
    pure (row, select (λ l. l.journal_id == k) db.lines)

  unfoldable pub update_journal_status : ℕ → JournalStatus → Action (Db Float) Error (Unit {0})
  update_journal_status k status = do
    db ← gets (λ db. db)
    raise_if (not (exists (λ e. e.id == k) db.entries)) journal_not_found
    modify (λ db. record db {
      entries =
          update (λ e. e.id == k) (λ e. record e { status = status; updated_at = db.clock })
            db.entries;
    })

  unfoldable pub get_period_for_update : ℕ → Action (Db Float) Error LedgerPeriodRow
  get_period_for_update k = do db ← gets (λ db. db); or_raise (ledger_period k db) invalid_period

  unfoldable pub get_next_open_period_after : ℕ → Action (Db Float) Error LedgerPeriodRow
  unfolding next_open_from
  get_next_open_period_after date = do
    db ← gets (λ db. db)
    or_raise (next_open_from date none db.close.periods) invalid_period
