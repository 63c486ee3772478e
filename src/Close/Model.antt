-- ===== src/Close/Model.antt =====
-- internal/close/domain.go, and the tables of migrations/000008_phase8_period_close.up.sql that
-- internal/close/repository.go reads and writes. Ids are numbers, dates are day numbers with 0 for
-- the zero time, and a metadata document is its text.
use odyssey_erp.Common.{
  ℕ, Bool, true, ◌&&◌, ◌||◌, Option, List, String, ◌==◌, leb, ltb, if◌then◌else◌, Result, ok, err,
}
use Prim.Native.Char.{code}

pub data PeriodStatus : Type 0 where
  open_status soft_closed hard_closed : PeriodStatus

pub data RunStatus : Type 0 where
  draft in_progress completed cancelled : RunStatus

-- `other` is a text that is none of the four constants.
pub data ChecklistStatus : Type 0 where
  pending in_progress done skipped : ChecklistStatus
  other : String → ChecklistStatus

-- The status of the `periods` table, as `legacyStatusFromAccounting` spells it.
pub data LedgerStatus : Type 0 where
  opened closed locked : LedgerStatus

-- A row of `accounting_periods`; a NULL is `none`.
pub record AccountingPeriodRow : Type 0 where
  pub id : ℕ
  pub period_id : ℕ
  pub company_id : Option ℕ
  pub name : String
  pub start_date : ℕ
  pub end_date : ℕ
  pub status : PeriodStatus
  pub soft_closed_by : Option ℕ
  pub soft_closed_at : Option ℕ
  pub closed_by : Option ℕ
  pub closed_at : Option ℕ
  pub metadata : String
  pub created_at : ℕ
  pub updated_at : ℕ

-- A row of `periods`, the columns that this package touches.
pub record LedgerPeriodRow : Type 0 where
  pub id : ℕ
  pub code : String
  pub start_date : ℕ
  pub end_date : ℕ
  pub status : LedgerStatus
  pub created_at : ℕ
  pub updated_at : ℕ

-- type Period struct
pub record Period : Type 0 where
  pub id : ℕ
  pub period_id : ℕ
  pub company_id : ℕ
  pub name : String
  pub start_date : ℕ
  pub end_date : ℕ
  pub status : PeriodStatus
  pub soft_closed_by : Option ℕ
  pub soft_closed_at : Option ℕ
  pub closed_by : Option ℕ
  pub closed_at : Option ℕ
  pub metadata : String
  pub latest_run_id : ℕ
  pub created_at : ℕ
  pub updated_at : ℕ

-- A row of `period_close_checklist_items`; `type ChecklistItem struct` has the same fields.
pub record ChecklistItem : Type 0 where
  pub id : ℕ
  pub run_id : ℕ
  pub item_code : String
  pub label : String
  pub status : ChecklistStatus
  pub assigned_to : Option ℕ
  pub completed_at : Option ℕ
  pub comment : String
  pub created_at : ℕ
  pub updated_at : ℕ

-- A row of `period_close_runs`.
pub record RunRow : Type 0 where
  pub id : ℕ
  pub company_id : ℕ
  pub period_id : ℕ
  pub status : RunStatus
  pub created_by : ℕ
  pub created_at : ℕ
  pub completed_at : Option ℕ
  pub notes : String
  pub updated_at : ℕ

-- type CloseRun struct
pub record CloseRun : Type 0 where
  pub id : ℕ
  pub company_id : ℕ
  pub period_id : ℕ
  pub status : RunStatus
  pub created_by : ℕ
  pub created_at : ℕ
  pub completed_at : Option ℕ
  pub notes : String
  pub checklist : List ChecklistItem

pub record ChecklistDefinition : Type 0 where
  pub item_code : String
  pub label : String

pub record CreatePeriodInput : Type 0 where
  pub company_id : ℕ
  pub name : String
  pub start_date : ℕ
  pub end_date : ℕ
  pub actor_id : ℕ
  pub metadata : String

pub record StartCloseRunInput : Type 0 where
  pub company_id : ℕ
  pub period_id : ℕ
  pub actor_id : ℕ
  pub notes : String

pub record ChecklistUpdateInput : Type 0 where
  pub item_id : ℕ
  pub status : ChecklistStatus
  pub actor_id : ℕ
  pub comment : String

-- The errors, those of the statements included: no row, and a unique or check constraint.
pub data Error : Type 0 where
  company_required name_required dates_required start_after_end : Error
  run_fields_required item_and_actor_required actor_required : Error
  wrong_company period_not_found no_rows constraint_violated : Error
  period_hard_closed checklist_locked period_overlap : Error
  invalid_checklist_status checklist_incomplete active_run_exists : Error

-- The tables, the next id of each, and the time that NOW() and time.Now() give in a call.
pub record Db : Type 0 where
  pub accounting_periods : List AccountingPeriodRow
  pub periods : List LedgerPeriodRow
  pub runs : List RunRow
  pub items : List ChecklistItem
  pub next_accounting_period : ℕ
  pub next_period : ℕ
  pub next_run : ℕ
  pub next_item : ℕ
  pub clock : ℕ

-- unicode.IsSpace
abbrev is_space : ℕ → Bool
is_space c =
    leb 9 c && leb c 13
    || c == 32
    || c == 0x85
    || c == 0xA0
    || c == 0x1680
    || leb 0x2000 c && leb c 0x200A
    || c == 0x2028
    || c == 0x2029
    || c == 0x202F
    || c == 0x205F
    || c == 0x3000

-- strings.TrimSpace(s) == ""
unfoldable pub is_blank : String → Bool
is_blank String.[] = true
is_blank (String.◌∷◌ c s) = is_space (code c) && is_blank s

-- func (in CreatePeriodInput) Validate
unfoldable pub validate : CreatePeriodInput → Result Error (Unit {0})
unfolding is_blank
validate i =
    if i.company_id == 0
    then err company_required
    else if is_blank i.name
    then err name_required
    else if i.start_date == 0 || i.end_date == 0
    then err dates_required
    else if ltb i.end_date i.start_date
    then err start_after_end
    else ok tt
