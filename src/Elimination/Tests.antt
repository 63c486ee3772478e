-- ===== src/Elimination/Tests.antt =====
-- A receivable and a payable between two companies are eliminated; the theorems at that run.
use odyssey_erp.Common.{◌⊎◌, ℕ, ◌*◌, true, false, ◌≡◌, refl, none, some, [], ◌∷◌, Option}
use odyssey_erp.Common.Fixed.{fixed, Fixed, plus, print_fixed, parse_fixed}
use odyssey_erp.Close.Model.{AccountingPeriodRow}
use odyssey_erp.Close.Periods.{load_period_by_ledger_id, map_period}
use odyssey_erp.Close.Service.{ensure_period_open_for_posting}
use odyssey_erp.Close.Tests.{created}
use odyssey_erp.Journals.Model as Journals
use odyssey_erp.Journals.Model.{JournalLine, JournalEntry, day, validate, check_lines, check_sums}
use odyssey_erp.Journals.Repository.{
  insert_journal_entry, insert_journal_lines, link_source, get_period_for_update,
}
use odyssey_erp.Journals.Service.{
  check_guard, record_audit, insert_posting, post_body, post_journal,
}
use odyssey_erp.Journals.Closed.{service_guard}
use odyssey_erp.Elimination.Model.{
  Faults, simulated, write_failed, RunStatus, posted, failed, SimulationSummary, Rule, Run, Account,
  Db, run_with_id, get_run, load_accounting_period, lookup_account_id, get_rule, insert_rule,
  insert_run, save_run_simulation, mark_run_posted, sum_lines_of,
}
use odyssey_erp.Elimination.Service.{
  create_rule, create_run, simulate_run, ledger_post, enter_run, post_run,
}
use odyssey_erp.Elimination.Amounts.{expected}
use odyssey_erp.Elimination.Runs.{Entered, Simulated, post_run_lem, simulate_run_lem}
use odyssey_erp.Elimination.Refused.{Half, post_run-Half}

abbrev line : ℕ → ℕ → ℕ → Fixed → Fixed → JournalLine Fixed
line k account company debit credit = record {
  id = k;
  journal_id = 1;
  account_id = account;
  debit = debit;
  credit = credit;
  dim_company_id = some company;
  dim_branch_id = none;
  dim_warehouse_id = none;
  created_at = 90;
  updated_at = 90;
}

-- Company 1 has a receivable of 100, company 2 a payable of 80.
unfoldable open_books : Db Fixed
unfolding created
open_books = record {
  ledger = record {
    close = created;
    entries =
        record {
          id = 1;
          number = 1;
          period_id = 1;
          date = 70 * day;
          source_module = "MANUAL";
          source_id = 4;
          memo = "";
          posted_by = 7;
          posted_at = 90;
          status = Journals.posted;
          created_at = 90;
          updated_at = 90;
        }
        ∷ [];
    lines = line 1 10 1 (plus 1000000) (plus 0) ∷ line 2 20 2 (plus 0) (plus 800000) ∷ [];
    links = [];
    audits = [];
    next_entry = 2;
    next_number = 2;
    next_line = 3;
    clock = 100;
  };
  rules = [];
  runs = [];
  accounts = record { id = 10; code = "1190" } ∷ record { id = 20; code = "2190" } ∷ [];
  next_rule = 1;
  next_run = 1;
  clock = 100;
}

unfoldable with_run : Db Fixed
unfolding open_books create_rule insert_rule create_run get_rule load_accounting_period insert_run
with_run =
    (create_run fixed (record { period_id = 1; rule_id = 1; actor_id = 7 })
      (create_rule fixed
        (record {
          name = "A/B";
          source_company_id = 1;
          target_company_id = 2;
          account_source = "1190";
          account_target = "2190";
          actor_id = 7;
        })
        open_books).1).1

abbrev no_faults : Faults
no_faults = record { saving = false; marking = false }

abbrev unmarked : Faults
unmarked = record { saving = false; marking = true }

posted_db : Db Fixed
unfolding with_run post_run get_run load_accounting_period lookup_account_id sum_lines_of enter_run
    ledger_post save_run_simulation mark_run_posted post_journal validate check_lines check_sums
    post_body check_guard get_period_for_update insert_posting insert_journal_entry
    insert_journal_lines link_source record_audit ensure_period_open_for_posting
    load_period_by_ledger_id map_period print_fixed parse_fixed
posted_db = (post_run fixed (service_guard true) true no_faults 1 7 55 with_run).1

-- A simulation of the run that is posted.
reopened : Db Fixed
unfolding posted_db simulate_run get_run save_run_simulation
reopened = (simulate_run fixed no_faults 1 posted_db).1

again : Run Fixed × SimulationSummary Fixed
unfolding posted_db
again = (
  record {
    id = 1;
    period_id = 1;
    rule_id = 1;
    status = failed;
    created_by = 7;
    created_at = 100;
    simulated_at = some 100;
    posted_at = some 100;
    journal_entry = some 2;
    summary =
        some
          (record { source_balance = plus 200000; target_balance = plus 0; eliminated = plus 0 });
  },
  record { source_balance = plus 200000; target_balance = plus 0; eliminated = plus 0 },
)

abbrev status_of : Option (Run Fixed) → Option RunStatus
status_of none = none
status_of (some r) = some r.status

posted_status : status_of (run_with_id fixed 1 posted_db) ≡ some posted
unfolding posted_db
posted_status = refl

reopened_status : status_of (run_with_id fixed 1 reopened) ≡ some failed
unfolding reopened
reopened_status = refl

post_run_lem_example :
    (run : Run Fixed) × (rule : Rule) × (p : AccountingPeriodRow) × (src tgt : Account)
    × (e : JournalEntry Fixed) × Entered fixed
        (service_guard true)
        true
        1
        7
        55
        with_run
        posted_db
        run
        rule
        p
        src
        tgt
        e
        (expected fixed run rule with_run)
unfolding posted_db
post_run_lem_example = post_run_lem fixed (service_guard true) true no_faults 1 7 55 with_run refl

-- The entry is committed, and the run is not marked.
half_posted : Db Fixed
unfolding posted_db
half_posted = (post_run fixed (service_guard true) true unmarked 1 7 55 with_run).1

half_status : status_of (run_with_id fixed 1 half_posted) ≡ some simulated
unfolding half_posted
half_status = refl

post_run-Half_example :
    (half_posted ≡ with_run) ⊎ Half fixed (service_guard true) true 1 55 with_run half_posted
unfolding half_posted
post_run-Half_example =
    post_run-Half fixed (service_guard true) true unmarked 1 7 55 with_run {x = write_failed} refl

simulate_run_lem_example :
    (run : Run Fixed) × (rule : Rule) × Simulated fixed 1 posted_db again reopened run rule
      (expected fixed run rule posted_db)
unfolding reopened again
simulate_run_lem_example = simulate_run_lem fixed no_faults 1 posted_db refl
