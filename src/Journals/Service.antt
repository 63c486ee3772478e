-- ===== src/Journals/Service.antt =====
-- internal/accounting/journals/service.go. The period guard is the close service in the program and
-- nil in some tests, so it is a parameter that may be absent; so is the audit port, whose errors the
-- service ignores. uuid.New() is an argument of the reversal.
use odyssey_erp.Common.{
  ℕ, ◌+◌, ◌*◌, Bool, ◌&&◌, ◌||◌, not, Option, none, some, List, [], ◌∷◌, ◌++◌, ◌+str◌, String, ◌==◌,
  str_eq, ltb, if◌then◌else◌, map, sprint, Result, ok, err, Action, pure, gets, modify, raise_if,
  with_tx, ◌>>=◌, ◌>>◌,
}
use odyssey_erp.Common.Float.{FloatOps}
use odyssey_erp.Close.Model as Close
use odyssey_erp.Close.Model.{LedgerPeriodRow}
use odyssey_erp.Journals.Model.{
  void, Error, source_already_linked, period_locked, invalid_period, invalid_status,
  date_out_of_range, source_conflict, entry_required, close_error, PostingLineInput, PostingInput,
  VoidInput, ReverseInput, JournalLine, EntryRow, JournalEntry, Db, validate, day,
}
use odyssey_erp.Journals.Repository.{
  is_open, is_locked, is_posted, insert_journal_entry, insert_journal_lines, link_source,
  get_journal_with_lines, update_journal_status, get_period_for_update, get_next_open_period_after,
}

-- EnsurePeriodOpenForPosting, as the interface `PeriodGuard` has it.
abbrev pub Guard : Type 0
Guard = ℕ → Action Close.Db Close.Error (Unit {0})

-- An error of the guard: a hard closed period is a locked one.
abbrev pub guard_error : Close.Error → Error
guard_error Close.period_hard_closed = period_locked
guard_error e = close_error e

abbrev pub link_error : Error → Error
link_error source_conflict = source_already_linked
link_error e = e

-- The range test of a posting.
abbrev pub out_of_range : ℕ → LedgerPeriodRow → Bool
out_of_range date l = ltb date (l.start_date * day) || ltb (l.end_date * day) date

abbrev pub default_reversal_memo : String → ℕ → String
default_reversal_memo memo number =
    if str_eq memo "" then "Reversal of JE " +str sprint number else memo

-- An error as the caller passes it on.
abbrev pub map_err : {S E D A : Type 0} → (E → D) → Result E A × S → Result D A × S
map_err f (ok a, s) = (ok a, s)
map_err f (err e, s) = (err (f e), s)

module _ (fl : FloatOps) (guard : Option Guard) (audited : Bool) where
  open fl use {Float, zero as zero_float}

  unfoldable pub check_guard : ℕ → Action (Db Float) Error (Unit {0})
  check_guard k db = elim guard [
    | none ↦ (ok tt, db)
    | some g ↦ let (r, c) = map_err guard_error (g k db.close) in (r, record db { close = c })
  ]

  abbrev pub reverse_line : JournalLine Float → PostingLineInput Float
  reverse_line l = record {
    account_id = l.account_id;
    debit = l.credit;
    credit = l.debit;
    company_id = l.dim_company_id;
    branch_id = l.dim_branch_id;
    warehouse = l.dim_warehouse_id;
  }

  abbrev pub reverse_lines : List (JournalLine Float) → List (PostingLineInput Float)
  reverse_lines ls = map reverse_line ls

  -- func toJournalLines: the lines that a call answers with have no id yet.
  abbrev to_journal_line : ℕ → ℕ → PostingLineInput Float → JournalLine Float
  to_journal_line entry now l = record {
    id = 0;
    journal_id = entry;
    account_id = l.account_id;
    debit = l.debit;
    credit = l.credit;
    dim_company_id = l.company_id;
    dim_branch_id = l.branch_id;
    dim_warehouse_id = l.warehouse;
    created_at = now;
    updated_at = now;
  }

  abbrev pub to_journal_lines : ℕ → List (PostingLineInput Float) → ℕ → List (JournalLine Float)
  to_journal_lines entry ls now = map (to_journal_line entry now) ls

  -- s.audit.Record, its answer ignored.
  unfoldable pub record_audit : ℕ → String → ℕ → Action (Db Float) Error (Unit {0})
  record_audit actor action entity = modify (λ db. record db {
    audits =
        if audited
        then db.audits
          ++ record {
            actor_id = actor;
            action = action;
            entity = "journal_entry";
            entity_id = sprint entity;
            at = db.clock;
          }
            ∷ []
        else db.audits;
  })

  -- The last part of both postings: the entry, its lines, its link, and the answer.
  unfoldable pub insert_posting :
      (Error → Error) → PostingInput Float → Action (Db Float) Error (JournalEntry Float)
  insert_posting on_link i = do
    inserted ← insert_journal_entry fl i
    insert_journal_lines fl inserted.id i.lines
    (λ db. map_err on_link (link_source fl i.source_module i.source_id inserted.id db))
    now ← gets (λ db. db.clock)
    pure (record { entry = inserted; lines = to_journal_lines inserted.id i.lines now })

  -- The body of the transaction of `PostJournal`. A status is one of the three that the column
  -- allows, so the test for an invalid one never fails.
  unfoldable pub post_body : PostingInput Float → Action (Db Float) Error (JournalEntry Float)
  post_body i = do
    check_guard i.period_id
    period ← get_period_for_update fl i.period_id
    raise_if (is_locked period.status) period_locked
    raise_if (out_of_range i.date period) date_out_of_range
    insert_posting link_error i

  unfoldable pub post_journal : PostingInput Float → Action (Db Float) Error (JournalEntry Float)
  post_journal i = do
    (λ db. (validate fl i, db))
    entry ← with_tx (post_body i)
    record_audit i.posted_by "journal.post" entry.id
    pure entry

  unfoldable pub void_body :
      VoidInput → Action (Db Float) Error (EntryRow × List (JournalLine Float))
  void_body i = do
    current ← get_journal_with_lines fl i.entry_id
    period ← get_period_for_update fl current.0.period_id
    raise_if (is_locked period.status) period_locked
    raise_if (not (is_open period.status)) invalid_period
    raise_if (not (is_posted current.0.status)) invalid_status
    update_journal_status fl current.0.id void
    pure (record current.0 { status = void }, current.1)

  unfoldable pub void_journal : VoidInput → Action (Db Float) Error (JournalEntry Float)
  void_journal i = do
    raise_if (i.entry_id == 0) entry_required
    voided ← with_tx (void_body i)
    record_audit i.actor_id "journal.void" voided.0.id
    pure (record { entry = voided.0; lines = voided.1 })

  -- The period and the date of a reversal: those of the entry, or the ones asked for, in an open
  -- period; otherwise the start of the next open period.
  unfoldable pub reversal_target :
      ReverseInput → EntryRow → LedgerPeriodRow → Action (Db Float) Error (LedgerPeriodRow × ℕ)
  reversal_target i original period =
      if is_open period.status
      then pure (period, elim i.target_date [ none ↦ original.date | some d ↦ d ])
      else do
        raise_if (is_locked period.status && not i.override) period_locked
        following ← get_next_open_period_after fl (period.end_date + 1)
        pure (following, following.start_date * day)

  abbrev pub reversal_posting :
      ReverseInput
      → ℕ
      → EntryRow
      → List (JournalLine Float)
      → LedgerPeriodRow
      → ℕ
      → PostingInput Float
  reversal_posting i uuid original lines period date = record {
    period_id = period.id;
    date = date;
    source_module = original.source_module +str ":REVERSAL";
    source_id = uuid;
    memo = default_reversal_memo i.memo original.number;
    posted_by = i.actor_id;
    lines = reverse_lines lines;
  }

  unfoldable pub reverse_body : ReverseInput → ℕ → Action (Db Float) Error (JournalEntry Float)
  reverse_body i uuid = do
    found ← get_journal_with_lines fl i.entry_id
    raise_if (not (is_posted found.0.status)) invalid_status
    period ← get_period_for_update fl found.0.period_id
    target ← reversal_target i found.0 period
    raise_if (out_of_range target.1 target.0) date_out_of_range
    insert_posting (λ e. e) (reversal_posting i uuid found.0 found.1 target.0 target.1)

  unfoldable pub reverse_journal : ReverseInput → ℕ → Action (Db Float) Error (JournalEntry Float)
  reverse_journal i uuid = do
    raise_if (i.entry_id == 0) entry_required
    reversal ← with_tx (reverse_body i uuid)
    record_audit i.actor_id "journal.reverse" i.entry_id
    pure reversal
