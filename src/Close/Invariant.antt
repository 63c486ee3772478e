-- ===== src/Close/Invariant.antt =====
-- What holds of the period close's tables between two calls.
use odyssey_erp.Common.{ℕ, ◌<◌, ◌≡◌, true, ◌==◌, update}
use mathlib.Core.List.{Memᴰ}
use odyssey_erp.Close.Model.{PeriodStatus, AccountingPeriodRow, LedgerPeriodRow, RunRow, Db}
use odyssey_erp.Close.Periods.{
  legacy_status, int8_from_int64, set_period_status, set_legacy, period_with_id, of_company,
  overlaps,
}
use odyssey_erp.Close.Runs.{is_active}

pub record IsValid (db : Db) : Type 0 where
  -- A row of `periods` has the status that belongs to its accounting period.
  pub in_sync :
      (a : AccountingPeriodRow) (l : LedgerPeriodRow)
      → Memᴰ a db.accounting_periods
      → Memᴰ l db.periods
      → l.id ≡ a.period_id
      → l.status ≡ legacy_status a.status
  pub one_row :
      (a b : AccountingPeriodRow)
      → Memᴰ a db.accounting_periods
      → Memᴰ b db.accounting_periods
      → a.id ≡ b.id
      → a ≡ b
  pub one_owner :
      (a b : AccountingPeriodRow)
      → Memᴰ a db.accounting_periods
      → Memᴰ b db.accounting_periods
      → a.period_id ≡ b.period_id
      → a.id ≡ b.id
  -- No two periods of a company share a day.
  pub disjoint :
      (c : ℕ) (a b : AccountingPeriodRow)
      → Memᴰ a db.accounting_periods
      → Memᴰ b db.accounting_periods
      → of_company c a ≡ true
      → of_company c b ≡ true
      → overlaps a.start_date a.end_date b ≡ true
      → a.id ≡ b.id
  -- A period has one run in progress at most.
  pub one_active :
      (r s : RunRow)
      → Memᴰ r db.runs
      → Memᴰ s db.runs
      → is_active r.status ≡ true
      → is_active s.status ≡ true
      → r.period_id ≡ s.period_id
      → r.id ≡ s.id
  -- The foreign key of a run.
  pub owned_run :
      (r : RunRow)
      → Memᴰ r db.runs
      → (a : AccountingPeriodRow) × Memᴰ a db.accounting_periods × (a.id ≡ r.period_id)
  pub fresh_period :
      (a : AccountingPeriodRow) → Memᴰ a db.accounting_periods → a.id < db.next_accounting_period
  pub fresh_owner :
      (a : AccountingPeriodRow) → Memᴰ a db.accounting_periods → a.period_id < db.next_period
  pub fresh_ledger : (l : LedgerPeriodRow) → Memᴰ l db.periods → l.id < db.next_period
  pub fresh_run : (r : RunRow) → Memᴰ r db.runs → r.id < db.next_run

-- The database after `update_period_status`.
abbrev pub with_period_status : ℕ → PeriodStatus → ℕ → Db → Db
with_period_status i status actor db = record db {
  accounting_periods =
      update (λ a. a.id == i) (set_period_status status (int8_from_int64 actor) db.clock)
        db.accounting_periods;
  periods = set_legacy (period_with_id i db) status db.clock db.periods;
}
