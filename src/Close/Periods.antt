-- ===== src/Close/Periods.antt =====
-- internal/close/repository.go, the statements on periods, with the text of sql/queries/close.sql
-- that they run. A statement on no row and one that breaks a unique constraint are errors; the loss
-- of the connection and foreign keys into tables of other packages are not modelled.
use odyssey_erp.Common.{
  ℕ, ◌+◌, Bool, false, ◌&&◌, ◌||◌, Option, none, some, List, [], ◌∷◌, ◌++◌, ◌==◌, str_eq, ltb, leb,
  if◌then◌else◌, find, update, exists, Action, pure, gets, or_raise, modify, raise_if, ◌>>=◌, ◌>>◌,
}
use odyssey_erp.Close.Model.{
  PeriodStatus, open_status, soft_closed, hard_closed, LedgerStatus, opened, closed, locked,
  AccountingPeriodRow, LedgerPeriodRow, Period, RunRow, CreatePeriodInput, Error, no_rows,
  period_not_found, constraint_violated, Db,
}

abbrev pub legacy_status : PeriodStatus → LedgerStatus
legacy_status soft_closed = closed
legacy_status hard_closed = locked
legacy_status open_status = opened

-- func int8FromInt64: 0 is stored as NULL.
abbrev pub int8_from_int64 : ℕ → Option ℕ
int8_from_int64 i = if i == 0 then none else some i

-- COALESCE(company_id, 0)
abbrev pub coalesce_zero : Option ℕ → ℕ
coalesce_zero none = 0
coalesce_zero (some i) = i

-- The lateral join: the id of the latest run of the period, 0 if it has none.
latest_from : ℕ → ℕ → ℕ → List RunRow → ℕ
latest_from p best at [] = best
latest_from p best at (r ∷ rs) =
    let newer = r.period_id == p && (best == 0 || ltb at r.created_at) in
    latest_from p (if newer then r.id else best) (if newer then r.created_at else at) rs

unfoldable pub latest_run_id : ℕ → List RunRow → ℕ
unfolding latest_from
latest_run_id p rs = latest_from p 0 0 rs

-- func mapPeriod, mapPeriodByLedger, mapPeriodForUpdate
unfoldable pub map_period : Db → AccountingPeriodRow → Period
map_period db row = record {
  id = row.id;
  period_id = row.period_id;
  company_id = coalesce_zero row.company_id;
  name = row.name;
  start_date = row.start_date;
  end_date = row.end_date;
  status = row.status;
  soft_closed_by = row.soft_closed_by;
  soft_closed_at = row.soft_closed_at;
  closed_by = row.closed_by;
  closed_at = row.closed_at;
  metadata = row.metadata;
  latest_run_id = latest_run_id row.id db.runs;
  created_at = row.created_at;
  updated_at = row.updated_at;
}

abbrev pub period_with_id : ℕ → Db → Option AccountingPeriodRow
period_with_id i db = find (λ a. a.id == i) db.accounting_periods

unfoldable pub load_period : ℕ → Action Db Error Period
unfolding map_period
load_period i = do
  db ← gets (λ db. db)
  row ← or_raise (period_with_id i db) period_not_found
  pure (map_period db row)

unfoldable pub load_period_by_ledger_id : ℕ → Action Db Error Period
unfolding map_period
load_period_by_ledger_id p = do
  db ← gets (λ db. db)
  row ← or_raise (find (λ a. a.period_id == p) db.accounting_periods) no_rows
  pure (map_period db row)

-- PostgreSQL refuses FOR UPDATE on the nullable side of the query's outer join; here the row is found as
-- the query means it.
unfoldable pub load_period_for_update : ℕ → Action Db Error Period
unfolding map_period
load_period_for_update i = do
  db ← gets (λ db. db)
  row ← or_raise (period_with_id i db) no_rows
  pure (map_period db row)

-- The unique constraints: the code and the range of `periods`, the name of a company's periods.
abbrev pub breaks_constraint : CreatePeriodInput → Db → Bool
breaks_constraint i db =
    exists (λ l. str_eq l.code i.name) db.periods
    || exists (λ l. l.start_date == i.start_date && l.end_date == i.end_date) db.periods
    || exists (λ a. coalesce_zero a.company_id == i.company_id && str_eq a.name i.name)
        db.accounting_periods

abbrev pub new_period : CreatePeriodInput → PeriodStatus → Db → AccountingPeriodRow
new_period i status db = record {
  id = db.next_accounting_period;
  period_id = db.next_period;
  company_id = int8_from_int64 i.company_id;
  name = i.name;
  start_date = i.start_date;
  end_date = i.end_date;
  status = status;
  soft_closed_by = none;
  soft_closed_at = none;
  closed_by = none;
  closed_at = none;
  metadata = i.metadata;
  created_at = db.clock;
  updated_at = db.clock;
}

abbrev pub new_ledger_period : CreatePeriodInput → PeriodStatus → Db → LedgerPeriodRow
new_ledger_period i status db = record {
  id = db.next_period;
  code = i.name;
  start_date = i.start_date;
  end_date = i.end_date;
  status = legacy_status status;
  created_at = db.clock;
  updated_at = db.clock;
}

-- Both rows of a new period. The period that comes back has no run yet.
unfoldable pub insert_period : CreatePeriodInput → PeriodStatus → Action Db Error Period
unfolding map_period
insert_period i status = do
  db ← gets (λ db. db)
  raise_if (breaks_constraint i db) constraint_violated
  modify (λ db. record db {
    accounting_periods = db.accounting_periods ++ new_period i status db ∷ [];
    periods = db.periods ++ new_ledger_period i status db ∷ [];
    next_accounting_period = db.next_accounting_period + 1;
    next_period = db.next_period + 1;
  })
  pure (record (map_period db (new_period i status db)) {
    company_id = i.company_id;
    latest_run_id = 0;
  })

-- UpdateAccountingPeriodStatus: the columns by the new status.
abbrev pub set_period_status :
    PeriodStatus → Option ℕ → ℕ → AccountingPeriodRow → AccountingPeriodRow
set_period_status open_status actor now a = record a {
  status = open_status;
  soft_closed_by = none;
  soft_closed_at = none;
  closed_by = none;
  closed_at = none;
  updated_at = now;
}
set_period_status soft_closed actor now a = record a {
  status = soft_closed;
  soft_closed_by = actor;
  soft_closed_at = some now;
  closed_by = none;
  closed_at = none;
  updated_at = now;
}
set_period_status hard_closed actor now a = record a {
  status = hard_closed;
  closed_by = actor;
  closed_at = some now;
  updated_at = now;
}

-- UpdateLegacyPeriodStatus: the row that the accounting period refers to.
abbrev pub set_legacy :
    Option AccountingPeriodRow → PeriodStatus → ℕ → List LedgerPeriodRow → List LedgerPeriodRow
set_legacy none status now ls = ls
set_legacy (some a) status now ls =
    update (λ l. l.id == a.period_id)
      (λ l. record l { status = legacy_status status; updated_at = now }) ls

unfoldable pub update_period_status : ℕ → PeriodStatus → ℕ → Action Db Error (Unit {0})
update_period_status i status actor = modify (λ db. record db {
  accounting_periods =
      update (λ a. a.id == i) (set_period_status status (int8_from_int64 actor) db.clock)
        db.accounting_periods;
  periods = set_legacy (period_with_id i db) status db.clock db.periods;
})

-- daterange(start_date, end_date, '[]') && daterange($2, $3, '[]')
abbrev pub overlaps : ℕ → ℕ → AccountingPeriodRow → Bool
overlaps start_date end_date a = leb a.start_date end_date && leb start_date a.end_date

abbrev pub of_company : ℕ → AccountingPeriodRow → Bool
of_company c a = elim a.company_id [ none ↦ false | some d ↦ d == c ]

unfoldable pub period_range_conflict : ℕ → ℕ → ℕ → Action Db Error Bool
period_range_conflict c start_date end_date =
    gets
      (λ db. exists (λ a. of_company c a && overlaps start_date end_date a) db.accounting_periods)
