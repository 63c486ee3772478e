-- ===== src/Integration/Tests.antt =====
-- A goods receipt and stock adjustments reach the ledger; the theorems at that run.
use odyssey_erp.Common.{
  ℕ, ◌+◌, ◌*◌, true, false, ◌≡◌, ◌⊎◌, refl, none, some, List, [], ◌∷◌, ok, err, String, sprint,
}
use odyssey_erp.Common.Fixed.{fixed, Fixed, plus, print_fixed, parse_fixed}
use odyssey_erp.Close.Model.{LedgerPeriodRow, opened}
use odyssey_erp.Close.Periods.{load_period_by_ledger_id, map_period}
use odyssey_erp.Close.Service.{ensure_period_open_for_posting}
use odyssey_erp.Close.Tests.{created}
use odyssey_erp.Journals.Model as Journals
use odyssey_erp.Journals.Model.{PostingInput, day, validate, check_lines, check_sums}
use odyssey_erp.Journals.Repository.{
  insert_journal_entry, insert_journal_lines, link_source, get_period_for_update,
}
use odyssey_erp.Journals.Service.{
  check_guard, record_audit, insert_posting, post_body, post_journal,
}
use odyssey_erp.Journals.Closed.{service_guard}
use odyssey_erp.Inventory.Model as Inventory
use odyssey_erp.Inventory.Model.{StockCardEntry, AdjustmentInput}
use odyssey_erp.Inventory.Service as Stock
use odyssey_erp.Inventory.Service.{
  Config, post_adjustment, post_movement, keyed_transaction, claim_key, movement_body,
  write_movement, notify,
}
use odyssey_erp.Inventory.Repository.{
  get_balance_for_update, insert_transaction, insert_transaction_lines, upsert_balance,
  insert_card_entry,
}
use odyssey_erp.Inventory.Idempotency.{check_and_insert, delete}
use odyssey_erp.Inventory.Stock.{stock_of}
use odyssey_erp.Integration.Model.{
  ledger_error, mapping_not_found, AccountMapping, Books, GrnPostedEvent,
}
use odyssey_erp.Integration.Hooks.{
  first_covering, find_open_period_by_date, grn_total, resolve_account, post, handle_grn_posted,
  handle_inventory_adjustment_posted,
}
use odyssey_erp.Integration.Plans.{Fits}
use odyssey_erp.Integration.Events.{
  grn_posted, handle, IsIdle, promise_of, Entered, handle_lem, handle_atomic, handle_again,
}
use odyssey_erp.Integration.LastDay.{handle_late}
use odyssey_erp.Integration.Adjustments.{
  with_hooks, Adjusted, post_adjustment_lem, late_adjustment_lem,
}

abbrev mapping : String → String → ℕ → AccountMapping
mapping m key account = record { module_name = m; key = key; account_id = account }

-- One number for every text: each of these books gets one entry.
sha1 : String → ℕ
sha1 s = 77

abbrev same_text : String → String
same_text s = s

empty_books : List AccountMapping → Books Fixed
unfolding created
empty_books ms = record {
  ledger = record {
    close = created;
    entries = [];
    lines = [];
    links = [];
    audits = [];
    next_entry = 1;
    next_number = 1;
    next_line = 1;
    clock = 100;
  };
  mappings = ms;
}

abbrev grn_mappings : List AccountMapping
grn_mappings = mapping "GRN" "grn.inventory" 120 ∷ mapping "GRN" "grn.grir" 215 ∷ []

abbrev receipt_event : ℕ → GrnPostedEvent Fixed
receipt_event t = record {
  id = 3;
  number = "GRN-3";
  supplier_id = 8;
  warehouse_id = 1;
  received_at = t;
  lines = record { product_id = 5; qty = plus 100000; unit_cost = plus 20000 } ∷ [];
}

abbrev afternoon : ℕ → ℕ
afternoon d = d * day + 54000000000000

booked : Books Fixed
unfolding empty_books handle_grn_posted find_open_period_by_date first_covering resolve_account
    grn_total post sha1 post_journal validate check_lines check_sums post_body check_guard
    get_period_for_update insert_posting insert_journal_entry insert_journal_lines link_source
    record_audit sprint print_fixed parse_fixed ensure_period_open_for_posting
    load_period_by_ledger_id map_period
booked =
    (handle fixed true true sha1 same_text (grn_posted (receipt_event (afternoon 70)))
      (empty_books grn_mappings)).1

booked_entries :
    (handle fixed true true sha1 same_text
      (grn_posted (receipt_event (afternoon 70)))
      (empty_books grn_mappings)).0
    ≡ ok tt
unfolding booked
booked_entries = refl

abbrev march_row : LedgerPeriodRow
march_row = record {
  id = 1;
  code = "2025-03";
  start_date = 60;
  end_date = 90;
  status = opened;
  created_at = 100;
  updated_at = 100;
}

handle_lem_example :
    ((booked ≡ empty_books grn_mappings)
      × IsIdle fixed true true sha1 same_text (grn_posted (receipt_event (afternoon 70))))
    ⊎ ((i : PostingInput Fixed) × Fits fixed
          (service_guard true)
          true
          sha1
          same_text
          (afternoon 70)
          (promise_of fixed true true sha1 same_text (grn_posted (receipt_event (afternoon 70))))
          (empty_books grn_mappings).ledger.close
          (empty_books grn_mappings).mappings
          i
        × Entered fixed true true sha1 same_text i (empty_books grn_mappings) booked
        × (booked.ledger.close ≡ (empty_books grn_mappings).ledger.close))
unfolding booked
handle_lem_example =
    handle_lem fixed true true sha1 same_text (grn_posted (receipt_event (afternoon 70)))
      (empty_books grn_mappings) refl

handle_again_example :
    (booked ≡ empty_books grn_mappings)
    ⊎ (handle fixed true true sha1 same_text (grn_posted (receipt_event (afternoon 70))) booked
        ≡ (err (ledger_error Journals.unique_violation), booked))
unfolding booked
handle_again_example =
    handle_again fixed true true sha1 same_text (grn_posted (receipt_event (afternoon 70)))
      (empty_books grn_mappings) refl

handle_atomic_example :
    (handle fixed true true sha1 same_text
      (grn_posted (receipt_event (afternoon 70)))
      (empty_books [])).1
    ≡ empty_books []
unfolding booked
handle_atomic_example =
    handle_atomic fixed true true sha1 same_text (grn_posted (receipt_event (afternoon 70)))
      (empty_books []) {x = mapping_not_found} refl

handle_late_example :
    (handle fixed true true sha1 same_text
      (grn_posted (receipt_event (afternoon 90)))
      (empty_books grn_mappings)).1
    ≡ empty_books grn_mappings
unfolding booked
handle_late_example =
    handle_late fixed true true sha1 same_text (grn_posted (receipt_event (afternoon 90)))
      (empty_books grn_mappings) march_row refl refl refl

late_receipt :
    (handle fixed true true sha1 same_text
      (grn_posted (receipt_event (afternoon 90)))
      (empty_books grn_mappings)).0
    ≡ err (ledger_error Journals.date_out_of_range)
unfolding booked
late_receipt = refl

abbrev adjustment_mappings : List AccountMapping
adjustment_mappings =
    mapping "INVENTORY" "inventory.adjustment.inventory" 120
    ∷ mapping "INVENTORY" "inventory.adjustment.gain" 490
    ∷ mapping "INVENTORY" "inventory.adjustment.loss" 690
    ∷ []

abbrev stock_config : Config Fixed (Books Fixed)
stock_config = record {
  parse_uuid = λ s. none;
  audited = true;
  keyed = true;
  allow_neg = false;
  integration = none;
}

abbrev no_stock : ℕ → Inventory.Db Fixed (Books Fixed)
no_stock now = record {
  balances = [];
  transactions = [];
  tx_lines = [];
  cards = [];
  keys = [];
  audits = [];
  ledger = empty_books adjustment_mappings;
  next_tx = 1;
  next_line = 1;
  next_card = 1;
  clock = now;
}

abbrev counted : AdjustmentInput Fixed
counted = record {
  code = "ADJ-1";
  warehouse_id = 1;
  product_id = 5;
  qty = plus 10000;
  unit_cost = plus 20000;
  note = "";
  actor_id = 7;
  ref_module = "";
  ref_id = "";
}

counted_stock : Inventory.Db Fixed (Books Fixed)
unfolding booked post_adjustment post_movement keyed_transaction claim_key movement_body
    write_movement Stock.record_audit check_and_insert delete get_balance_for_update
    insert_transaction insert_transaction_lines upsert_balance insert_card_entry notify
    handle_inventory_adjustment_posted
counted_stock =
    (post_adjustment fixed (with_hooks fixed true true sha1 same_text stock_config) counted
      (no_stock (afternoon 70))).1

abbrev counted_card : StockCardEntry Fixed
counted_card = record {
  tx_code = "ADJ-1";
  tx_type = Inventory.adjust;
  posted_at = afternoon 70;
  qty_in = plus 10000;
  qty_out = plus 0;
  balance_qty = plus 10000;
  unit_cost = plus 20000;
  balance_cost = plus 20000;
  note = "";
}

post_adjustment_lem_example :
    Adjusted fixed true true sha1 same_text stock_config counted
      (no_stock (afternoon 70))
      counted_card
      counted_stock
unfolding counted_stock
post_adjustment_lem_example =
    post_adjustment_lem fixed true true sha1 same_text stock_config counted
      (no_stock (afternoon 70)) refl

late_adjustment_lem_example :
    (post_adjustment fixed
      (with_hooks fixed true true sha1 same_text stock_config)
      counted
      (no_stock (afternoon 90))).1.ledger
    ≡ empty_books adjustment_mappings
unfolding counted_stock
late_adjustment_lem_example =
    late_adjustment_lem fixed true true sha1 same_text stock_config counted
      (no_stock (afternoon 90)) march_row refl refl refl

-- The movement of that adjustment is posted, and the answer is an error.
late_adjustment_stock :
    ((post_adjustment fixed
        (with_hooks fixed true true sha1 same_text stock_config)
        counted
        (no_stock (afternoon 90))).0
      ≡ err Inventory.integration_failed)
    × (stock_of fixed
          (post_adjustment fixed
            (with_hooks fixed true true sha1 same_text stock_config)
            counted
            (no_stock (afternoon 90))).1
          1
          5
        ≡ some (plus 10000, plus 20000))
unfolding counted_stock
late_adjustment_stock = (refl, refl)
