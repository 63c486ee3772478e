-- ===== src/Elimination/Service.antt =====
-- internal/elimination/service.go: rules, runs, their simulation and the posting of a run. The ledger is
-- the journals service; the fresh uuid that PostRun makes is an argument. No call runs in a
-- transaction of its own.
use odyssey_erp.Common.{
  ℕ, ◌*◌, Bool, true, false, ◌||◌, Option, none, some, List, [], ◌∷◌, ◌+str◌, String, ◌==◌,
  if◌then◌else◌, Result, ok, err, Action, pure, gets, raise_if, ◌>>=◌, ◌>>◌,
}
use odyssey_erp.Common.Float.{FloatOps}
use odyssey_erp.Close.Model.{AccountingPeriodRow, is_blank}
use odyssey_erp.Journals.Model as Journals
use odyssey_erp.Journals.Model.{PostingInput, PostingLineInput, JournalEntry, day}
use odyssey_erp.Journals.Service.{Guard, post_journal}
use odyssey_erp.Elimination.Model.{
  Faults, RunStatus, simulated, posted, failed, draft, Error, name_required, company_pair_required,
  companies_must_differ, account_codes_required, actor_required, period_and_rule_required,
  no_elimination, invalid_status, ledger_error, SimulationSummary, Rule, Run, CreateRunInput,
  CreateRuleInput, Db, compute_elimination, sum_account_balance, get_rule, get_run, insert_rule,
  load_accounting_period, lookup_account_id, insert_run, simulated_row, posted_run_row,
  save_run_simulation, mark_run_posted,
}

abbrev pub is_posted_run : RunStatus → Bool
is_posted_run posted = true
is_posted_run draft = false
is_posted_run simulated = false
is_posted_run failed = false

abbrev pub format_memo : Rule → AccountingPeriodRow → String
format_memo rule p = "Elimination " +str rule.name +str " - " +str p.name

module _ (fl : FloatOps) where
  open fl use {Float, zero as zero_float, le}

  unfoldable pub create_rule : CreateRuleInput → Action (Db Float) Error Rule
  create_rule i = do
    raise_if (is_blank i.name) name_required
    raise_if (i.source_company_id == 0 || i.target_company_id == 0) company_pair_required
    raise_if (i.source_company_id == i.target_company_id) companies_must_differ
    raise_if (is_blank i.account_source || is_blank i.account_target) account_codes_required
    raise_if (i.actor_id == 0) actor_required
    insert_rule fl i

  unfoldable pub create_run : CreateRunInput → Action (Db Float) Error (Run Float)
  create_run i = do
    raise_if (i.period_id == 0 || i.rule_id == 0) period_and_rule_required
    raise_if (i.actor_id == 0) actor_required
    get_rule fl i.rule_id
    load_accounting_period fl i.period_id
    insert_run fl i

  abbrev pub summary_of : Run Float → Rule → Db Float → SimulationSummary Float
  summary_of run rule db =
      compute_elimination fl
        (sum_account_balance fl run.period_id rule.source_company_id rule.account_source db)
        (sum_account_balance fl run.period_id rule.target_company_id rule.account_target db)

  abbrev pub calculate_summary :
      Run Float → Rule → Action (Db Float) Error (SimulationSummary Float)
  calculate_summary run rule = gets (summary_of run rule)

  -- The status of a simulation: a run that eliminates nothing has failed.
  abbrev pub simulation_status : SimulationSummary Float → RunStatus
  simulation_status s = if le s.eliminated zero_float then failed else simulated

  unfoldable pub simulate_run :
      Faults → ℕ → Action (Db Float) Error (Run Float × SimulationSummary Float)
  simulate_run faults k = do
    found ← get_run fl k
    summary ← calculate_summary found.0 found.1
    now ← gets (λ db. db.clock)
    save_run_simulation fl faults found.0.id summary (simulation_status summary)
    pure (simulated_row fl summary (simulation_status summary) now found.0, summary)

  abbrev pub line_of : ℕ → ℕ → Float → Float → PostingLineInput Float
  line_of account company debit credit = record {
    account_id = account;
    debit = debit;
    credit = credit;
    company_id = some company;
    branch_id = none;
    warehouse = none;
  }

  abbrev pub build_lines : SimulationSummary Float → ℕ → ℕ → ℕ → ℕ → List (PostingLineInput Float)
  build_lines s src tgt src_company tgt_company =
      if le zero_float s.source_balance
      then line_of src src_company zero_float s.eliminated
        ∷ line_of tgt tgt_company s.eliminated zero_float
        ∷ []
      else line_of src src_company s.eliminated zero_float
        ∷ line_of tgt tgt_company zero_float s.eliminated
        ∷ []

  abbrev pub elimination_posting :
      SimulationSummary Float → Rule → AccountingPeriodRow → ℕ → ℕ → ℕ → ℕ → PostingInput Float
  elimination_posting s rule p src tgt key actor = record {
    period_id = p.period_id;
    date = p.end_date * day;
    source_module = "ELIMINATIONS";
    source_id = key;
    memo = format_memo rule p;
    posted_by = actor;
    lines = build_lines s src tgt rule.source_company_id rule.target_company_id;
  }

  module _ (guard : Option Guard) (audited : Bool) where
    -- An answer of the ledger.
    abbrev pub ledger_answer :
        Db Float
        → Result Journals.Error (JournalEntry Float) × Journals.Db Float
        → Result Error (JournalEntry Float) × Db Float
    ledger_answer db (ok entry, ledger) = (ok entry, record db { ledger = ledger })
    ledger_answer db (err e, ledger) = (err (ledger_error e), record db { ledger = ledger })

    unfoldable pub ledger_post : PostingInput Float → Action (Db Float) Error (JournalEntry Float)
    ledger_post i db = ledger_answer db (post_journal fl guard audited i db.ledger)

    -- The last part of PostRun: the entry, and the run that names it.
    unfoldable pub enter_run :
        Faults
        → Run Float
        → SimulationSummary Float
        → PostingInput Float
        → Action (Db Float) Error (Run Float)
    enter_run faults run summary posting = do
      entry ← ledger_post posting
      now ← gets (λ db. db.clock)
      save_run_simulation fl faults run.id summary simulated
      mark_run_posted fl faults run.id entry.entry.id
      pure (posted_run_row fl entry.entry.id now (record run { summary = some summary }))

    -- `key` is the uuid that the call makes.
    unfoldable pub post_run : Faults → ℕ → ℕ → ℕ → Action (Db Float) Error (Run Float)
    post_run faults k actor key = do
      found ← get_run fl k
      raise_if (is_posted_run found.0.status) invalid_status
      summary ← calculate_summary found.0 found.1
      raise_if (le summary.eliminated zero_float) no_elimination
      period ← load_accounting_period fl found.0.period_id
      src ← lookup_account_id fl found.1.account_source
      tgt ← lookup_account_id fl found.1.account_target
      enter_run faults found.0 summary
          (elimination_posting summary found.1 period src tgt key actor)
