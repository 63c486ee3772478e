-- ===== src/Journals/Model.antt =====
-- internal/accounting/journals/model.go and dto.go, internal/accounting/shared/errors.go, and the
-- tables of migrations/000004_phase4_2.up.sql. A uuid is a number, uuid.Nil is 0. The tables of the
-- period close are part of the database, since the ledger's periods are there.
use odyssey_erp.Common.{
  ℕ, suc, ◌*◌, ◌/◌, Bool, ◌&&◌, ◌||◌, not, Option, List, [], ◌∷◌, String, ◌==◌, str_eq, ltb, length,
  if◌then◌else◌, Result, ok, err,
}
use odyssey_erp.Common.Float.{FloatOps}
use odyssey_erp.Close.Model as Close

-- A time counts nanoseconds, and a date column counts days.
abbrev pub day : ℕ
day = 86400000000000

abbrev pub midnight : ℕ → ℕ
midnight t = t / day * day

pub data JournalStatus : Type 0 where
  posted void : JournalStatus

pub data Error : Type 0 where
  unbalanced too_few_lines invalid_period source_already_linked : Error
  journal_not_found period_locked invalid_status date_out_of_range : Error
  source_conflict period_required source_module_required source_id_required : Error
  entry_required scan_failed unique_violation : Error
  missing_account negative_amount both_sides : ℕ → Error
  close_error : Close.Error → Error

pub record PostingLineInput (F : Type 0) : Type 0 where
  pub account_id : ℕ
  pub debit : F
  pub credit : F
  pub company_id : Option ℕ
  pub branch_id : Option ℕ
  pub warehouse : Option ℕ

pub record PostingInput (F : Type 0) : Type 0 where
  pub period_id : ℕ
  pub date : ℕ
  pub source_module : String
  pub source_id : ℕ
  pub memo : String
  pub posted_by : ℕ
  pub lines : List (PostingLineInput F)

pub record VoidInput : Type 0 where
  pub entry_id : ℕ
  pub actor_id : ℕ
  pub reason : String

pub record ReverseInput : Type 0 where
  pub entry_id : ℕ
  pub actor_id : ℕ
  pub memo : String
  pub override : Bool
  pub target_date : Option ℕ

pub record JournalLine (F : Type 0) : Type 0 where
  pub id : ℕ
  pub journal_id : ℕ
  pub account_id : ℕ
  pub debit : F
  pub credit : F
  pub dim_company_id : Option ℕ
  pub dim_branch_id : Option ℕ
  pub dim_warehouse_id : Option ℕ
  pub created_at : ℕ
  pub updated_at : ℕ

-- A row of `journal_entries`. A poster 0 is the NULL that nullInt makes of it.
pub record EntryRow : Type 0 where
  pub id : ℕ
  pub number : ℕ
  pub period_id : ℕ
  pub date : ℕ
  pub source_module : String
  pub source_id : ℕ
  pub memo : String
  pub posted_by : ℕ
  pub posted_at : ℕ
  pub status : JournalStatus
  pub created_at : ℕ
  pub updated_at : ℕ

-- type JournalEntry struct
pub record JournalEntry (F : Type 0) : Type 0 where
  pub entry : EntryRow
  pub open entry use *
  pub lines : List (JournalLine F)

-- A row of `source_links`.
pub record SourceLink : Type 0 where
  pub module_name : String
  pub ref_id : ℕ
  pub je_id : ℕ

-- What an audit record says, its metadata left out.
pub record AuditLog : Type 0 where
  pub actor_id : ℕ
  pub action : String
  pub entity : String
  pub entity_id : String
  pub at : ℕ

pub record Db (F : Type 0) : Type 0 where
  pub close : Close.Db
  pub entries : List EntryRow
  pub lines : List (JournalLine F)
  pub links : List SourceLink
  pub audits : List AuditLog
  pub next_entry : ℕ
  pub next_number : ℕ
  pub next_line : ℕ
  pub clock : ℕ

module _ (fl : FloatOps) where
  open fl use {Float, zero as zero_float, add, lt, format2}

  -- The loop of `Validate`: the line's index, and the sums so far.
  unfoldable pub check_lines :
      ℕ → Float → Float → List (PostingLineInput Float) → Result Error (Float × Float)
  check_lines idx debit credit [] = ok (debit, credit)
  check_lines idx debit credit (l ∷ ls) =
      let rest = check_lines (suc idx) (add debit l.debit) (add credit l.credit) ls in
      if l.account_id == 0
      then err (missing_account idx)
      else if lt l.debit zero_float || lt l.credit zero_float
      then err (negative_amount idx)
      else if lt zero_float l.debit && lt zero_float l.credit
      then err (both_sides idx)
      else rest

  -- What `Validate` tests after the loop.
  unfoldable pub check_sums : PostingInput Float → Float × Float → Result Error (Unit {0})
  check_sums i (debit, credit) =
      if not (str_eq (format2 debit) (format2 credit))
      then err unbalanced
      else if str_eq i.source_module ""
      then err source_module_required
      else if i.source_id == 0
      then err source_id_required
      else ok tt

  -- func (in PostingInput) Validate
  unfoldable pub validate : PostingInput Float → Result Error (Unit {0})
  unfolding check_lines check_sums
  validate i =
      if i.period_id == 0
      then err period_required
      else if ltb (length i.lines) 2
      then err too_few_lines
      else elim (check_lines 0 zero_float zero_float i.lines) [
        | ok sums ↦ check_sums i sums
        | err e ↦ err e
      ]
