-- ===== src/Elimination/Model.antt =====
-- internal/elimination/domain.go, engine.go and repository.go, and the tables of migrations/000009.
use odyssey_erp.Common.{
  ℕ, ◌+◌, Bool, true, false, ◌&&◌, not, Option, none, some, List, [], ◌∷◌, ◌++◌, String, ◌==◌,
  str_eq, if◌then◌else◌, find, update, Action, pure, gets, or_raise, raise_if, modify, ◌>>=◌, ◌>>◌,
}
use odyssey_erp.Common.Float.{FloatOps}
use odyssey_erp.Close.Model.{AccountingPeriodRow}
use odyssey_erp.Journals.Model as Journals
use odyssey_erp.Journals.Model.{JournalLine}
use odyssey_erp.Journals.Repository.{is_posted}

pub data RunStatus : Type 0 where
  draft simulated posted failed : RunStatus

pub data Error : Type 0 where
  name_required company_pair_required companies_must_differ account_codes_required actor_required :
      Error
  period_and_rule_required rule_not_found run_not_found no_elimination invalid_status : Error
  account_not_found period_not_found unsupported_value write_failed : Error
  ledger_error : Journals.Error → Error

-- How the database takes the two writes that PostRun makes after the entry, outside of any transaction.
pub record Faults : Type 0 where
  pub saving : Bool
  pub marking : Bool

pub record SimulationSummary (F : Type 0) : Type 0 where
  pub source_balance : F
  pub target_balance : F
  pub eliminated : F

-- The group and the match criteria, which nothing reads, are left out.
pub record Rule : Type 0 where
  pub id : ℕ
  pub name : String
  pub source_company_id : ℕ
  pub target_company_id : ℕ
  pub account_source : String
  pub account_target : String
  pub active : Bool
  pub created_by : ℕ

pub record Run (F : Type 0) : Type 0 where
  pub id : ℕ
  pub period_id : ℕ
  pub rule_id : ℕ
  pub status : RunStatus
  pub created_by : ℕ
  pub created_at : ℕ
  pub simulated_at : Option ℕ
  pub posted_at : Option ℕ
  pub journal_entry : Option ℕ
  pub summary : Option (SimulationSummary F)

pub record CreateRuleInput : Type 0 where
  pub name : String
  pub source_company_id : ℕ
  pub target_company_id : ℕ
  pub account_source : String
  pub account_target : String
  pub actor_id : ℕ

pub record CreateRunInput : Type 0 where
  pub period_id : ℕ
  pub rule_id : ℕ
  pub actor_id : ℕ

-- A row of `accounts`.
pub record Account : Type 0 where
  pub id : ℕ
  pub code : String

pub record Db (F : Type 0) : Type 0 where
  pub ledger : Journals.Db F
  pub rules : List Rule
  pub runs : List (Run F)
  pub accounts : List Account
  pub next_rule : ℕ
  pub next_run : ℕ
  pub clock : ℕ

module _ (fl : FloatOps) where
  open fl use {Float, zero as zero_float, hundred, add, sub, mul, div, min, abs, round, is_finite}

  -- func round2
  abbrev pub rounded : Float → Float
  rounded v = div (round (mul v hundred)) hundred

  abbrev pub compute_elimination : Float → Float → SimulationSummary Float
  compute_elimination s t =
      let amount = min (abs s) (abs t) in
      record {
        source_balance = rounded s;
        target_balance = rounded t;
        eliminated = rounded (if is_finite amount then amount else zero_float);
      }

  abbrev pub run_with_id : ℕ → Db Float → Option (Run Float)
  run_with_id k db = find (λ r. r.id == k) db.runs

  abbrev pub rule_with_id : ℕ → Db Float → Option Rule
  rule_with_id k db = find (λ r. r.id == k) db.rules

  abbrev pub period_with_id : ℕ → Db Float → Option AccountingPeriodRow
  period_with_id k db = find (λ p. p.id == k) db.ledger.close.accounting_periods

  unfoldable pub get_rule : ℕ → Action (Db Float) Error Rule
  get_rule k = do db ← gets (λ db. db); or_raise (rule_with_id k db) rule_not_found

  -- The run and its rule, which the query joins.
  unfoldable pub get_run : ℕ → Action (Db Float) Error (Run Float × Rule)
  get_run k = do
    db ← gets (λ db. db)
    run ← or_raise (run_with_id k db) run_not_found
    rule ← or_raise (rule_with_id run.rule_id db) run_not_found
    pure (run, rule)

  unfoldable pub load_accounting_period : ℕ → Action (Db Float) Error AccountingPeriodRow
  load_accounting_period k = do
    db ← gets (λ db. db)
    or_raise (period_with_id k db) period_not_found

  unfoldable pub lookup_account_id : String → Action (Db Float) Error ℕ
  lookup_account_id code = do
    db ← gets (λ db. db)
    account ← or_raise (find (λ a. str_eq a.code code) db.accounts) account_not_found
    pure account.id

  unfoldable pub insert_rule : CreateRuleInput → Action (Db Float) Error Rule
  insert_rule i = do
    db ← gets (λ db. db)
    let rule : Rule = record {
      id = db.next_rule;
      name = i.name;
      source_company_id = i.source_company_id;
      target_company_id = i.target_company_id;
      account_source = i.account_source;
      account_target = i.account_target;
      active = true;
      created_by = i.actor_id;
    }
    modify (λ db. record db { rules = db.rules ++ rule ∷ []; next_rule = db.next_rule + 1 })
    pure rule

  unfoldable pub insert_run : CreateRunInput → Action (Db Float) Error (Run Float)
  insert_run i = do
    db ← gets (λ db. db)
    let run : Run Float = record {
      id = db.next_run;
      period_id = i.period_id;
      rule_id = i.rule_id;
      status = draft;
      created_by = i.actor_id;
      created_at = db.clock;
      simulated_at = none;
      posted_at = none;
      journal_entry = none;
      summary = none;
    }
    modify (λ db. record db { runs = db.runs ++ run ∷ []; next_run = db.next_run + 1 })
    pure run

  abbrev pub simulated_row : SimulationSummary Float → RunStatus → ℕ → Run Float → Run Float
  simulated_row s status now r = record r {
    status = status;
    simulated_at = some now;
    summary = some s;
  }

  -- json.Marshal takes no infinity and no NaN.
  abbrev pub is_marshalled : SimulationSummary Float → Bool
  is_marshalled s =
      is_finite s.source_balance && is_finite s.target_balance && is_finite s.eliminated

  unfoldable pub save_run_simulation :
      Faults → ℕ → SimulationSummary Float → RunStatus → Action (Db Float) Error (Unit {0})
  save_run_simulation faults k s status = do
    raise_if (not (is_marshalled s)) unsupported_value
    raise_if faults.saving write_failed
    modify (λ db. record db {
      runs = update (λ r. r.id == k) (simulated_row s status db.clock) db.runs;
    })

  abbrev pub posted_run_row : ℕ → ℕ → Run Float → Run Float
  posted_run_row entry now r = record r {
    status = posted;
    posted_at = some now;
    journal_entry = some entry;
  }

  unfoldable pub mark_run_posted : Faults → ℕ → ℕ → Action (Db Float) Error (Unit {0})
  mark_run_posted faults k entry = do
    raise_if faults.marking write_failed
    modify
        (λ db. record db { runs = update (λ r. r.id == k) (posted_run_row entry db.clock) db.runs })

  -- The sum over the lines of posted entries of a period, on an account, for a company. The query adds
  -- numerics and makes a float of the sum; here the floats are added.
  abbrev pub entry_is_posted : ℕ → ℕ → Db Float → Bool
  entry_is_posted entry period db = elim (find (λ e. e.id == entry) db.ledger.entries) [
    | none ↦ false
    | some e ↦ is_posted e.status && e.period_id == period
  ]

  abbrev pub code_is : String → ℕ → Db Float → Bool
  code_is code k db = elim (find (λ a. a.id == k) db.accounts) [
    | none ↦ false
    | some a ↦ str_eq a.code code
  ]

  abbrev pub of_company : ℕ → JournalLine Float → Bool
  of_company c l = elim l.dim_company_id [ none ↦ false | some k ↦ k == c && not (c == 0) ]

  unfoldable pub sum_lines_of : ℕ → ℕ → String → Db Float → Float → List (JournalLine Float) → Float
  sum_lines_of period company code db acc [] = acc
  sum_lines_of period company code db acc (l ∷ ls) =
      let counted = sum_lines_of period company code db (add acc (sub l.debit l.credit)) ls in
      let skipped = sum_lines_of period company code db acc ls in
      if entry_is_posted l.journal_id period db
        && code_is code l.account_id db
        && of_company company l
      then counted
      else skipped

  abbrev pub sum_account_balance : ℕ → ℕ → String → Db Float → Float
  sum_account_balance period company code db = elim (period_with_id period db) [
    | none ↦ zero_float
    | some p ↦ sum_lines_of p.period_id company code db zero_float db.ledger.lines
  ]
