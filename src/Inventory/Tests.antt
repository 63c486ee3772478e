-- ===== src/Inventory/Tests.antt =====
-- Goods are received, adjusted and transferred between two warehouses; the theorems at that run.
use odyssey_erp.Common.{
  ℕ, Bool, true, false, ◌≡◌, ◌⊎◌, refl, none, some, List, [], ◌∷◌, ok, err, String, sprint,
  if◌then◌else◌,
}
use odyssey_erp.Common.Fixed.{fixed, Fixed, plus, minus}
use odyssey_erp.Inventory.Model.{
  InboundInput, AdjustmentInput, TransferInput, MovementParams, StockCardEntry, Db, Error, inbound,
  transfer, integration_failed, code_taken, negative_stock,
}
use odyssey_erp.Inventory.Service.{
  Config, post_movement, post_inbound, inbound_params, post_adjustment, adjustment_params,
  adjustment_event, post_transfer, out_params, movement_body, write_movement, claim_key,
  keyed_transaction, record_audit, notify,
}
use odyssey_erp.Inventory.Repository.{
  get_balance_for_update, insert_transaction, insert_transaction_lines, upsert_balance,
  insert_card_entry,
}
use odyssey_erp.Inventory.Idempotency.{check_and_insert, delete}
use odyssey_erp.Inventory.Recorded.{Tested, Recorded, post_movement-Recorded}
use odyssey_erp.Inventory.Movements.{Posted, post_movement_atomic, post_movement_once}
use odyssey_erp.Inventory.Runs.{Call, inbound_call, adjustment_call, transfer_call, run}
use odyssey_erp.Inventory.Balances.{carded}
use odyssey_erp.Inventory.Stock.{stock_of, placed}
use odyssey_erp.Inventory.Invariants.{
  NonNegative, Accounts, run-Agrees, run-NonNegative, run-Accounts,
}
use odyssey_erp.Inventory.Transfers.{post_transfer_lem, post_transfer_half, post_adjustment_half}

-- An integration that fails, and one that there is not.
abbrev config : Bool → Bool → Config Fixed ℕ
config keyed failing = record {
  parse_uuid = λ s. none;
  audited = true;
  keyed = keyed;
  allow_neg = false;
  integration = if failing then some (λ e db. (err integration_failed, db)) else none;
}

empty : Db Fixed ℕ
empty = record {
  balances = [];
  transactions = [];
  tx_lines = [];
  cards = [];
  keys = [];
  audits = [];
  ledger = 0;
  next_tx = 1;
  next_line = 1;
  next_card = 1;
  clock = 1000;
}

abbrev receipt : InboundInput Fixed
receipt = record {
  code = "GRN-1";
  warehouse_id = 1;
  product_id = 5;
  qty = plus 100000;
  unit_cost = plus 20000;
  note = "";
  actor_id = 7;
  ref_module = "PROCUREMENT";
  ref_id = "";
}

received : Db Fixed ℕ
unfolding empty post_inbound post_movement keyed_transaction claim_key movement_body write_movement
    record_audit check_and_insert delete get_balance_for_update insert_transaction
    insert_transaction_lines upsert_balance insert_card_entry sprint
received = (post_inbound fixed (config true false) receipt empty).1

abbrev receipt_card : StockCardEntry Fixed
receipt_card = record {
  tx_code = "GRN-1";
  tx_type = inbound;
  posted_at = 1000;
  qty_in = plus 100000;
  qty_out = plus 0;
  balance_qty = plus 100000;
  unit_cost = plus 20000;
  balance_cost = plus 20000;
  note = "";
}

received_result : post_inbound fixed (config true false) receipt empty ≡ (ok receipt_card, received)
unfolding received
received_result = refl

abbrev receipt_params : MovementParams Fixed
receipt_params = inbound_params fixed (config true false) receipt

post_movement-Recorded_example :
    Tested fixed (config true false) receipt_params empty
    × Recorded fixed (config true false) receipt_params empty receipt_card received
unfolding received
post_movement-Recorded_example =
    post_movement-Recorded fixed (config true false) receipt_params empty refl

abbrev too_much : MovementParams Fixed
too_much = record receipt_params { code = "OUT-1"; qty_change = minus 110000 }

post_movement_atomic_example :
    (post_movement fixed (config true false) too_much received).1 ≡ received
unfolding received
post_movement_atomic_example =
    post_movement_atomic fixed (config true false) too_much received {e = negative_stock} refl

post_movement_once_example :
    (e : Error) × (post_movement fixed
        (config true false)
        (record receipt_params { product_id = 6 })
        received
      ≡ (err e, received))
unfolding received
post_movement_once_example =
    post_movement_once fixed (config true false) receipt_params
      (record receipt_params { product_id = 6 }) empty {card = receipt_card} refl refl refl

abbrev to_second : TransferInput Fixed
to_second = record {
  code = "T-1";
  product_id = 5;
  qty = plus 30000;
  src_warehouse = 1;
  dst_warehouse = 2;
  unit_cost = plus 20000;
  note = "";
  actor_id = 7;
  ref_module = "";
  ref_id = "";
}

transferred : Db Fixed ℕ
unfolding received post_transfer
transferred = (post_transfer fixed (config true false) to_second received).1

abbrev leg_card : String → String → Fixed → Fixed → Fixed → StockCardEntry Fixed
leg_card code note qty_in qty_out rest = record {
  tx_code = code;
  tx_type = transfer;
  posted_at = 1000;
  qty_in = qty_in;
  qty_out = qty_out;
  balance_qty = rest;
  unit_cost = plus 20000;
  balance_cost = plus 20000;
  note = note;
}

post_transfer_lem_example :
    stock_of fixed transferred 2 5
    ≡ placed fixed 2 5
        (plus 30000)
        (to_second.unit_cost)
        (placed fixed 1 5 (minus 30000) (to_second.unit_cost) (stock_of fixed received))
        2
        5
unfolding transferred
post_transfer_lem_example =
    post_transfer_lem fixed (config true false) to_second received
      {o = leg_card "T-1-OUT" "Transfer to 2: " (plus 0) (plus 30000) (plus 70000)}
      {n = leg_card "T-1-IN" "Transfer from 1: " (plus 30000) (plus 0) (plus 30000)} refl 2 5

transferred_stock :
    (stock_of fixed transferred 1 5 ≡ some (plus 70000, plus 20000))
    × (stock_of fixed transferred 2 5 ≡ some (plus 30000, plus 20000))
unfolding transferred
transferred_stock = (refl, refl)

-- The code of the second leg is taken: the goods have left the first warehouse and are nowhere.
clashing : Db Fixed ℕ
unfolding received
clashing =
    (post_inbound fixed (config true false) (record receipt { code = "T-1-IN"; product_id = 6 })
      received).1

half_moved : Db Fixed ℕ
unfolding clashing post_transfer
half_moved = (post_transfer fixed (config true false) to_second clashing).1

half_moved_stock :
    ((post_transfer fixed (config true false) to_second clashing).0 ≡ err code_taken)
    × (stock_of fixed half_moved 1 5 ≡ some (plus 70000, plus 20000))
    × (stock_of fixed half_moved 2 5 ≡ none)
unfolding half_moved
half_moved_stock = (refl, refl, refl)

post_transfer_half_example :
    (half_moved ≡ clashing)
    ⊎ ((o : StockCardEntry Fixed) × Posted fixed
          (config true false)
          (out_params fixed (config true false) to_second 1000)
          clashing
          o
          half_moved
        × ((w q : ℕ)
            → stock_of fixed half_moved w q
              ≡ placed fixed 1 5 (minus 30000) (to_second.unit_cost) (stock_of fixed clashing) w q))
unfolding half_moved
post_transfer_half_example =
    post_transfer_half fixed (config true false) to_second clashing {e = code_taken} refl

abbrev found_more : AdjustmentInput Fixed
found_more = record {
  code = "ADJ-1";
  warehouse_id = 1;
  product_id = 5;
  qty = plus 10000;
  unit_cost = plus 20000;
  note = "";
  actor_id = 7;
  ref_module = "";
  ref_id = "";
}

adjusted : Db Fixed ℕ
unfolding received post_adjustment notify
adjusted = (post_adjustment fixed (config true true) found_more received).1

adjusted_stock :
    ((post_adjustment fixed (config true true) found_more received).0 ≡ err integration_failed)
    × (stock_of fixed adjusted 1 5 ≡ some (plus 110000, plus 20000))
unfolding adjusted
adjusted_stock = (refl, refl)

post_adjustment_half_example :
    (adjusted ≡ received)
    ⊎ ((card : StockCardEntry Fixed) × (s : Db Fixed ℕ) × Posted fixed
          (config true true)
          (adjustment_params fixed (config true true) found_more)
          received
          card
          s
        × (notify fixed
              (config true true)
              (adjustment_event fixed (config true true) found_more card)
              s
            ≡ (err integration_failed, adjusted)))
unfolding adjusted
post_adjustment_half_example =
    post_adjustment_half fixed (config true true) found_more received {e = integration_failed} refl

abbrev day_calls : List (Call Fixed)
day_calls = inbound_call receipt ∷ transfer_call to_second ∷ adjustment_call found_more ∷ []

run-Agrees_example :
    stock_of fixed (run fixed (config true false) day_calls empty) 1 5
    ≡ carded fixed 1 5 (run fixed (config true false) day_calls empty).cards
unfolding empty
run-Agrees_example =
    run-Agrees fixed (config true false) (λ handle e db h. absurd (cc h)) day_calls empty
      (λ w q. refl) 1 5

run-NonNegative_example :
    NonNegative fixed (config true false) (run fixed (config true false) day_calls empty)
unfolding empty
run-NonNegative_example =
    run-NonNegative fixed (config true false) refl (λ x h. h) (λ handle e db h. absurd (cc h))
      day_calls empty tt

run-Accounts_example :
    Accounts fixed (config true false) empty (run fixed (config true false) day_calls empty)
run-Accounts_example =
    run-Accounts fixed (config true false) (λ handle e db h. absurd (cc h)) day_calls empty
