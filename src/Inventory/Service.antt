-- ===== src/Inventory/Service.antt =====
-- internal/inventory/service.go. What the service is built with is a parameter: the audit log and the
-- key store may be absent, `allow_neg` is the setting, and the ledger's integration may be absent.
-- uuid.Parse is a parameter too. The clock counts nanoseconds.
use odyssey_erp.Common.{
  ℕ, Bool, true, false, ◌&&◌, ◌||◌, not, Option, none, some, List, [], ◌∷◌, ◌++◌, ◌+str◌, String,
  ◌==◌, str_eq, if◌then◌else◌, sprint, Result, ok, err, Action, pure, gets, modify, raise_if,
  with_tx, ◌>>=◌, ◌>>◌,
}
use odyssey_erp.Common.Float.{FloatOps}
use odyssey_erp.Inventory.Model.{
  TransactionType, inbound, outbound, transfer, adjust, Error, warehouse_and_product_required,
  warehouses_must_differ, negative_stock, invalid_quantity, invalid_unit_cost, invalid_ref_id,
  Transaction, TransactionLine, Balance, StockCardEntry, AdjustmentInput, TransferInput,
  InboundInput, StockCardFilter, MovementParams, AdjustmentPostedEvent, Db,
}
use odyssey_erp.Inventory.Idempotency.{check_and_insert, delete}
use odyssey_erp.Inventory.Repository.{
  get_balance_for_update, insert_transaction, insert_transaction_lines, upsert_balance,
  insert_card_entry, get_stock_card,
}

-- The text of a transaction type.
abbrev pub type_text : TransactionType → String
type_text inbound = "IN"
type_text outbound = "OUT"
type_text transfer = "TRANSFER"
type_text adjust = "ADJUST"

-- func baseCode
abbrev pub base_code : ℕ → String → String
base_code now code = if str_eq code "" then "TRF-" +str sprint now else code

-- What the service is built with.
pub record Config (F L : Type 0) : Type 0 where
  pub parse_uuid : String → Option ℕ
  pub audited : Bool
  pub keyed : Bool
  pub allow_neg : Bool
  pub integration : Option (AdjustmentPostedEvent F → Action (Db F L) Error (Unit {0}))

module _ (fl : FloatOps) where
  open fl use {Float, zero as zero_float, add, mul, div, neg, abs, max, lt, le, eq, tenth_mil, nano}

  -- The code of a movement: the one given, or one made of the time.
  abbrev pub movement_code : MovementParams Float → ℕ → String
  movement_code p now = if str_eq p.code "" then "INV-" +str sprint now else p.code

  abbrev pub movement_key : MovementParams Float → ℕ → String
  movement_key p now =
      type_text p.tx_type
      +str (":"
          +str (movement_code p now
              +str (":" +str (sprint p.warehouse_id +str (":" +str sprint p.product_id)))))

  -- The quantity, the unit cost and the average cost after a movement of a balance.
  abbrev pub settled_qty : MovementParams Float → Balance Float → Float
  settled_qty p b =
      let new_qty = add b.qty p.qty_change in
      if lt zero_float p.qty_change
      then new_qty
      else if lt (abs new_qty) tenth_mil
      then zero_float
      else new_qty

  abbrev pub unit_cost_of : MovementParams Float → Balance Float → Float
  unit_cost_of p b = if lt zero_float p.qty_change then p.unit_cost else b.avg_cost

  abbrev pub average_cost : MovementParams Float → Balance Float → Float
  average_cost p b =
      let new_qty = add b.qty p.qty_change in
      if lt zero_float p.qty_change
      then (if eq new_qty zero_float
          then zero_float
          else div (add (mul b.qty b.avg_cost) (mul p.qty_change p.unit_cost)) new_qty)
      else if le (settled_qty p b) zero_float
      then zero_float
      else b.avg_cost

  abbrev pub is_negative : Float → Bool
  is_negative q = lt q (neg tenth_mil)

  abbrev pub card_of : MovementParams Float → ℕ → Balance Float → StockCardEntry Float
  card_of p now b = record {
    tx_code = movement_code p now;
    tx_type = p.tx_type;
    posted_at = now;
    qty_in = max p.qty_change zero_float;
    qty_out = max (neg p.qty_change) zero_float;
    balance_qty = settled_qty p b;
    unit_cost = unit_cost_of p b;
    balance_cost = average_cost p b;
    note = p.note;
  }

  abbrev pub movement_line : MovementParams Float → Balance Float → ℕ → TransactionLine Float
  movement_line p b tx = record {
    id = 0;
    transaction_id = tx;
    product_id = p.product_id;
    qty = p.qty_change;
    unit_cost = unit_cost_of p b;
    src_warehouse_id = if lt p.qty_change zero_float then p.warehouse_id else 0;
    dst_warehouse_id = if lt p.qty_change zero_float then 0 else p.warehouse_id;
  }

  -- A missing balance row stands for an empty balance.
  abbrev pub balance_or_empty : ℕ → ℕ → Option (Balance Float) → Balance Float
  balance_or_empty w p none = record {
    warehouse_id = w;
    product_id = p;
    qty = zero_float;
    avg_cost = zero_float;
    updated_at = 0;
  }
  balance_or_empty w p (some b) = b

  module _ {L : Type 0} (cfg : Config Float L) where
    abbrev pub header_of : MovementParams Float → ℕ → Transaction
    header_of p now = record {
      id = 0;
      code = movement_code p now;
      tx_type = p.tx_type;
      warehouse_id = p.warehouse_id;
      ref_module = p.ref_module;
      ref_id = if str_eq p.ref_id "" then none else cfg.parse_uuid p.ref_id;
      note = p.note;
      posted_at = now;
      created_by = p.actor_id;
      created_at = 0;
    }

    -- The writes of a movement of the balance `b`.
    unfoldable pub write_movement :
        MovementParams Float → ℕ → Balance Float → Action (Db Float L) Error (StockCardEntry Float)
    write_movement p now b = do
      tx ← insert_transaction fl (header_of p now)
      insert_transaction_lines fl tx (movement_line p b tx ∷ [])
      upsert_balance fl (record b { qty = settled_qty p b; avg_cost = average_cost p b })
      insert_card_entry fl (card_of p now b) p.warehouse_id p.product_id tx
      pure (card_of p now b)

    -- The body of the transaction.
    unfoldable pub movement_body :
        MovementParams Float → ℕ → Action (Db Float L) Error (StockCardEntry Float)
    movement_body p now = do
      row ← get_balance_for_update fl p.warehouse_id p.product_id
      raise_if
          (not cfg.allow_neg
            && is_negative
                (add (balance_or_empty p.warehouse_id p.product_id row).qty p.qty_change))
          negative_stock
      raise_if
          (not cfg.allow_neg
            && is_negative (settled_qty p (balance_or_empty p.warehouse_id p.product_id row)))
          negative_stock
      write_movement p now (balance_or_empty p.warehouse_id p.product_id row)

    unfoldable pub record_audit : MovementParams Float → Action (Db Float L) Error (Unit {0})
    record_audit p = modify (λ db. record db {
      audits =
          if cfg.audited
          then db.audits
            ++ record {
              actor_id = p.actor_id;
              action = "inventory:" +str type_text p.tx_type;
              entity = "inventory_tx";
              entity_id = type_text p.tx_type +str (":" +str sprint p.product_id);
            }
              ∷ []
          else db.audits;
    })

    -- The key is inserted before the transaction and outside of it.
    unfoldable pub claim_key : String → Action (Db Float L) Error (Unit {0})
    claim_key key = if cfg.keyed then check_and_insert key "inventory" else pure tt

    -- On an error the key is deleted again, whatever the deletion answers.
    abbrev pub release_key :
        String
        → Result Error (StockCardEntry Float) × Db Float L
        → Result Error (StockCardEntry Float) × Db Float L
    release_key key (ok card, db) = (ok card, db)
    release_key key (err e, db) = (err e, if cfg.keyed then (delete key db).1 else db)

    unfoldable pub keyed_transaction :
        MovementParams Float → ℕ → Action (Db Float L) Error (StockCardEntry Float)
    unfolding delete
    keyed_transaction p now = do
      claim_key (movement_key p now)
      (λ db. release_key (movement_key p now) (with_tx (movement_body p now) db))

    abbrev pub bad_ref : String → Bool
    bad_ref ref =
        if str_eq ref "" then false else elim (cfg.parse_uuid ref) [ none ↦ true | some u ↦ false ]

    unfoldable pub post_movement :
        MovementParams Float → Action (Db Float L) Error (StockCardEntry Float)
    post_movement p = do
      raise_if (eq p.qty_change zero_float) invalid_quantity
      raise_if (p.warehouse_id == 0 || p.product_id == 0) warehouse_and_product_required
      now ← gets (λ db. db.clock)
      raise_if (bad_ref p.ref_id) invalid_ref_id
      card ← keyed_transaction p now
      record_audit p
      pure card

    abbrev pub inbound_params : InboundInput Float → MovementParams Float
    inbound_params i = record {
      code = i.code;
      warehouse_id = i.warehouse_id;
      product_id = i.product_id;
      qty_change = i.qty;
      unit_cost = i.unit_cost;
      tx_type = inbound;
      note = i.note;
      actor_id = i.actor_id;
      ref_module = i.ref_module;
      ref_id = i.ref_id;
    }

    unfoldable pub post_inbound :
        InboundInput Float → Action (Db Float L) Error (StockCardEntry Float)
    post_inbound i = do
      raise_if (i.warehouse_id == 0 || i.product_id == 0) warehouse_and_product_required
      raise_if (le i.qty zero_float) invalid_quantity
      raise_if (lt i.unit_cost zero_float) invalid_unit_cost
      post_movement (inbound_params i)

    abbrev pub adjustment_params : AdjustmentInput Float → MovementParams Float
    adjustment_params i = record {
      code = i.code;
      warehouse_id = i.warehouse_id;
      product_id = i.product_id;
      qty_change = i.qty;
      unit_cost = i.unit_cost;
      tx_type = adjust;
      note = i.note;
      actor_id = i.actor_id;
      ref_module = i.ref_module;
      ref_id = i.ref_id;
    }

    abbrev pub adjustment_event :
        AdjustmentInput Float → StockCardEntry Float → AdjustmentPostedEvent Float
    adjustment_event i card = record {
      code = card.tx_code;
      warehouse_id = i.warehouse_id;
      product_id = i.product_id;
      qty = i.qty;
      unit_cost = card.unit_cost;
      posted_at = card.posted_at;
    }

    unfoldable pub notify : AdjustmentPostedEvent Float → Action (Db Float L) Error (Unit {0})
    notify e db = elim cfg.integration [ none ↦ (ok tt, db) | some handle ↦ handle e db ]

    unfoldable pub post_adjustment :
        AdjustmentInput Float → Action (Db Float L) Error (StockCardEntry Float)
    post_adjustment i = do
      raise_if (i.warehouse_id == 0 || i.product_id == 0) warehouse_and_product_required
      raise_if (lt (abs i.qty) nano) invalid_quantity
      raise_if (lt zero_float i.qty && lt i.unit_cost zero_float) invalid_unit_cost
      card ← post_movement (adjustment_params i)
      notify (adjustment_event i card)
      pure card

    abbrev pub out_params : TransferInput Float → ℕ → MovementParams Float
    out_params i now = record {
      code = base_code now i.code +str "-OUT";
      warehouse_id = i.src_warehouse;
      product_id = i.product_id;
      qty_change = neg i.qty;
      unit_cost = i.unit_cost;
      tx_type = transfer;
      note = "Transfer to " +str (sprint i.dst_warehouse +str (": " +str i.note));
      actor_id = i.actor_id;
      ref_module = i.ref_module;
      ref_id = i.ref_id;
    }

    abbrev pub in_params : TransferInput Float → ℕ → MovementParams Float
    in_params i now = record {
      code = base_code now i.code +str "-IN";
      warehouse_id = i.dst_warehouse;
      product_id = i.product_id;
      qty_change = i.qty;
      unit_cost = i.unit_cost;
      tx_type = transfer;
      note = "Transfer from " +str (sprint i.src_warehouse +str (": " +str i.note));
      actor_id = i.actor_id;
      ref_module = i.ref_module;
      ref_id = i.ref_id;
    }

    unfoldable pub post_transfer :
        TransferInput Float
        → Action (Db Float L) Error (StockCardEntry Float × StockCardEntry Float)
    post_transfer i = do
      raise_if (i.src_warehouse == 0 || i.dst_warehouse == 0 || i.product_id == 0)
          warehouse_and_product_required
      raise_if (i.src_warehouse == i.dst_warehouse) warehouses_must_differ
      raise_if (le i.qty zero_float) invalid_quantity
      raise_if (lt i.unit_cost zero_float) invalid_unit_cost
      now ← gets (λ db. db.clock)
      out_card ← post_movement (out_params i now)
      in_card ← post_movement (in_params i now)
      pure (out_card, in_card)

    unfoldable pub stock_card :
        StockCardFilter → Action (Db Float L) Error (List (StockCardEntry Float))
    stock_card f = do
      raise_if (f.warehouse_id == 0 || f.product_id == 0) warehouse_and_product_required
      get_stock_card fl f
