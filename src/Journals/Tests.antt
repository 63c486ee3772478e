-- ===== src/Journals/Tests.antt =====
-- A rent entry is posted, posted again, reversed and voided; the theorems at that run.
use odyssey_erp.Common.{ℕ, ◌*◌, true, false, ◌≡◌, ◌↔◌, refl, none, some, [], ◌∷◌, ok, err, sprint}
use odyssey_erp.Common.Cents.{cents, print_cents, parse_from}
use odyssey_erp.Close.Tests.{created, ready, closed_ready, empty-IsValid, to_ready, closed_march}
use odyssey_erp.Close.Model as Close
use odyssey_erp.Close.Model.{hard_closed}
use odyssey_erp.Close.Reachable.{Reach-IsValid}
use odyssey_erp.Journals.Model.{
  day, Error, JournalStatus, posted, void, EntryRow, JournalLine, PostingInput, PostingLineInput,
  VoidInput, ReverseInput, JournalEntry, Db, validate, invalid_status, scan_failed, both_sides,
  unique_violation, check_lines, check_sums,
}
use odyssey_erp.Journals.Repository.{
  insert_journal_entry, insert_journal_lines, link_source, get_journal_with_lines,
  update_journal_status, get_period_for_update,
}
use odyssey_erp.Journals.Service.{
  check_guard, record_audit, insert_posting, post_body, post_journal, void_body, void_journal,
  reversal_target, reverse_body, reverse_journal,
}
use odyssey_erp.Journals.Validation.{GoodInput, validate_lem}
use odyssey_erp.Journals.Sources.{Posted, post_journal_lem, post_journal_once}
use odyssey_erp.Journals.Voids.{Voided, void_journal_lem, void_journal_final, unknown_poster_lem}
use odyssey_erp.Journals.Reversals.{Reversed, reverse_journal_lem}
use odyssey_erp.Journals.Atomic.{posting, answer_atomic}
use odyssey_erp.Journals.Closed.{hard_close_stops_posting, service_guard}

tables : Close.Db → Db ℕ
tables c = record {
  close = c;
  entries = [];
  lines = [];
  links = [];
  audits = [];
  next_entry = 1;
  next_number = 1;
  next_line = 1;
  clock = 100;
}

abbrev side : ℕ → ℕ → ℕ → PostingLineInput ℕ
side account debit credit = record {
  account_id = account;
  debit = debit;
  credit = credit;
  company_id = some 5;
  branch_id = none;
  warehouse = none;
}

abbrev rent : PostingInput ℕ
rent = record {
  period_id = 1;
  date = 70 * day;
  source_module = "AP";
  source_id = 9;
  memo = "Rent";
  posted_by = 7;
  lines = side 600 12550 0 ∷ side 200 0 12550 ∷ [];
}

abbrev void_rent : VoidInput
void_rent = record { entry_id = 1; actor_id = 7; reason = "wrong" }

abbrev reverse_rent : ReverseInput
reverse_rent = record {
  entry_id = 1;
  actor_id = 7;
  memo = "";
  override = false;
  target_date = none;
}

open_books : Db ℕ
unfolding tables created
open_books = tables created

posted_books : Db ℕ
unfolding open_books print_cents parse_from post_journal validate check_lines check_sums post_body
    check_guard get_period_for_update insert_posting insert_journal_entry insert_journal_lines
    link_source record_audit sprint
posted_books = (post_journal cents none true rent open_books).1

abbrev rent_row : JournalStatus → EntryRow
rent_row status = record {
  id = 1;
  number = 1;
  period_id = 1;
  date = 70 * day;
  source_module = "AP";
  source_id = 9;
  memo = "Rent";
  posted_by = 7;
  posted_at = 100;
  status = status;
  created_at = 100;
  updated_at = 100;
}

abbrev rent_line : ℕ → ℕ → ℕ → ℕ → ℕ → JournalLine ℕ
rent_line id entry account debit credit = record {
  id = id;
  journal_id = entry;
  account_id = account;
  debit = debit;
  credit = credit;
  dim_company_id = some 5;
  dim_branch_id = none;
  dim_warehouse_id = none;
  created_at = 100;
  updated_at = 100;
}

abbrev rent_entry : JournalEntry ℕ
rent_entry = record {
  entry = rent_row posted;
  lines = rent_line 0 1 600 12550 0 ∷ rent_line 0 1 200 0 12550 ∷ [];
}

validate_lem_example : (validate cents rent ≡ ok tt) ↔ GoodInput cents rent
validate_lem_example = validate_lem cents rent

one_sided :
    validate cents (record rent { lines = side 600 5 5 ∷ side 200 0 0 ∷ [] }) ≡ err (both_sides 0)
unfolding validate check_lines
one_sided = refl

post_journal_lem_example : Posted cents none true rent open_books rent_entry posted_books
unfolding posted_books
post_journal_lem_example = post_journal_lem cents none true rent open_books refl

post_journal_once_example :
    (x : Error) × (post_journal cents none true (record rent { memo = "Again" }) posted_books
      ≡ (err x, posted_books))
unfolding posted_books
post_journal_once_example =
    post_journal_once cents none true rent (record rent { memo = "Again" }) open_books
      {e = rent_entry} refl refl refl

void_books : Db ℕ
unfolding posted_books void_journal void_body get_journal_with_lines update_journal_status
void_books = (void_journal cents none true void_rent posted_books).1

abbrev void_entry : JournalEntry ℕ
void_entry = record {
  entry = rent_row void;
  lines = rent_line 1 1 600 12550 0 ∷ rent_line 2 1 200 0 12550 ∷ [];
}

void_journal_lem_example : Voided cents void_rent posted_books void_entry void_books
unfolding void_books
void_journal_lem_example = void_journal_lem cents none true void_rent posted_books refl

void_journal_final_example :
    (void_journal cents none true void_rent void_books ≡ (err invalid_status, void_books))
    × (reverse_journal cents none true reverse_rent 77 void_books
        ≡ (err invalid_status, void_books))
unfolding void_books
void_journal_final_example =
    void_journal_final cents none true void_rent void_rent reverse_rent 77 posted_books
      {e = void_entry} refl refl refl

reversed_books : Db ℕ
unfolding posted_books reverse_journal reverse_body reversal_target get_journal_with_lines
reversed_books = (reverse_journal cents none true reverse_rent 77 posted_books).1

abbrev reversal : JournalEntry ℕ
reversal = record {
  entry = record (rent_row posted) {
    id = 2;
    number = 2;
    source_module = "AP:REVERSAL";
    source_id = 77;
    memo = "Reversal of JE 1";
  };
  lines = rent_line 0 2 600 0 12550 ∷ rent_line 0 2 200 12550 0 ∷ [];
}

reverse_journal_lem_example :
    Reversed cents none true reverse_rent posted_books reversal reversed_books
unfolding reversed_books
reverse_journal_lem_example =
    reverse_journal_lem cents none true reverse_rent 77 posted_books refl
      ((refl, refl), ((refl, refl), tt))

answer_atomic_example : (post_journal cents none true rent posted_books).1 ≡ posted_books
unfolding posted_books
answer_atomic_example =
    answer_atomic cents none true (posting rent) posted_books unique_violation
      (post_journal cents none true rent posted_books).1 refl

hard_close_stops_posting_example :
    (x : Error) × (post_journal cents
        (service_guard true)
        true
        rent
        (record (tables ready) { close = closed_ready })
      ≡ (err x, record (tables ready) { close = closed_ready }))
unfolding tables closed_ready
hard_close_stops_posting_example =
    hard_close_stops_posting cents true true 1 7 (tables ready)
      {p = closed_march hard_closed none none (some 7) (some 100)} rent
      (Reach-IsValid empty-IsValid to_ready) refl refl

-- The receipts' postings name no actor.
automatic_books : Db ℕ
unfolding posted_books
automatic_books = (post_journal cents none true (record rent { posted_by = 0 }) open_books).1

unknown_poster_lem_example :
    (void_journal cents none true void_rent automatic_books ≡ (err scan_failed, automatic_books))
    × (reverse_journal cents none true reverse_rent 77 automatic_books
        ≡ (err scan_failed, automatic_books))
unfolding automatic_books
unknown_poster_lem_example =
    unknown_poster_lem cents none true void_rent reverse_rent 77 automatic_books
      (record (rent_row posted) { posted_by = 0 }) refl refl refl refl
