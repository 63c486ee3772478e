-- ===== src/Inventory/Recorded.antt =====
-- What a movement of stock leaves in the tables (internal/inventory/service.go: postMovement), described
-- by the plain account of Stock.
use odyssey_erp.Common.{
  ℕ, false, ◌&&◌, ◌||◌, not, ◌≡◌, refl, sym, ap, ◌∙◌, ◌⊎◌, inl, inr, Bool, none, some, [], ◌∷◌,
  ◌++◌, ok, str_eq, exists, ◌==◌, if◌then◌else◌, Bool-cases,
}
use odyssey_erp.Common.Float.{FloatOps}
use odyssey_erp.Inventory.Model.{
  Balance, Transaction, TransactionLine, StockCardEntry, CardRow, MovementParams, Db,
}
use odyssey_erp.Inventory.Idempotency.{has_key}
use odyssey_erp.Inventory.Repository.{float_to_numeric}
use odyssey_erp.Inventory.Service.{
  Config, movement_code, movement_key, card_of, record_audit, settled_qty, post_movement,
}
use odyssey_erp.Inventory.Movements.{balance_before, post_movement-Posted, post_movement_ref}
use odyssey_erp.Inventory.Stock.{
  held_or_nothing, after, placed, stock_of, stock_of-Posted, balance_before-held,
}

module _ (fl : FloatOps) {L : Type 0} (cfg : Config (fl.Float) L) where
  open fl use {Float, zero as zero_float, add, neg, lt, eq, max, tenth_mil}

  -- What is held before the movement.
  abbrev pub before : MovementParams Float → Db Float L → Float × Float
  before p db = held_or_nothing fl (stock_of fl db p.warehouse_id p.product_id)

  -- The card: what comes in or goes out, at its cost, and what is held then.
  abbrev pub described : MovementParams Float → ℕ → Float × Float → StockCardEntry Float
  described p now x = record {
    tx_code = movement_code fl p now;
    tx_type = p.tx_type;
    posted_at = now;
    qty_in = max p.qty_change zero_float;
    qty_out = max (neg p.qty_change) zero_float;
    balance_qty = (after fl p.qty_change p.unit_cost x).0;
    unit_cost = if lt zero_float p.qty_change then p.unit_cost else x.1;
    balance_cost = (after fl p.qty_change p.unit_cost x).1;
    note = p.note;
  }

  -- A column of an amount.
  abbrev column : Float → Float
  column v = float_to_numeric fl v

  abbrev pub card_row : MovementParams Float → Db Float L → StockCardEntry Float → CardRow Float
  card_row p db c = record {
    id = db.next_card;
    warehouse_id = p.warehouse_id;
    product_id = p.product_id;
    tx_id = db.next_tx;
    card = record c {
      qty_in = column c.qty_in;
      qty_out = column c.qty_out;
      balance_qty = column c.balance_qty;
      unit_cost = column c.unit_cost;
      balance_cost = column c.balance_cost;
    };
  }

  -- A line has the one warehouse as its source or as its destination.
  abbrev pub line_row : MovementParams Float → Db Float L → Float → TransactionLine Float
  line_row p db held_cost = record {
    id = db.next_line;
    transaction_id = db.next_tx;
    product_id = p.product_id;
    qty = column p.qty_change;
    unit_cost = column (if lt zero_float p.qty_change then p.unit_cost else held_cost);
    src_warehouse_id = if lt p.qty_change zero_float then p.warehouse_id else 0;
    dst_warehouse_id = if lt p.qty_change zero_float then 0 else p.warehouse_id;
  }

  abbrev pub transaction_row : MovementParams Float → Db Float L → Transaction
  transaction_row p db = record {
    id = db.next_tx;
    code = movement_code fl p db.clock;
    tx_type = p.tx_type;
    warehouse_id = p.warehouse_id;
    ref_module = p.ref_module;
    ref_id = if str_eq p.ref_id "" then none else cfg.parse_uuid p.ref_id;
    note = p.note;
    posted_at = db.clock;
    created_by = p.actor_id;
    created_at = db.clock;
  }

  abbrev pub Recorded :
      MovementParams Float → Db Float L → StockCardEntry Float → Db Float L → Type 0
  Recorded p db card t =
      (card ≡ described p db.clock (before p db))
      × ((w q : ℕ)
          → stock_of fl t w q
            ≡ placed fl p.warehouse_id p.product_id p.qty_change p.unit_cost (stock_of fl db) w q)
      × (t.transactions ≡ db.transactions ++ transaction_row p db ∷ [])
      × (t.tx_lines ≡ db.tx_lines ++ line_row p db (before p db).1 ∷ [])
      × (t.cards ≡ db.cards ++ card_row p db (described p db.clock (before p db)) ∷ [])

  -- The tests: a short stock is less than a tolerance below nothing.
  abbrev pub is_short : Float → Bool
  is_short q = lt q (neg tenth_mil)

  abbrev pub Tested : MovementParams Float → Db Float L → Type 0
  Tested p db =
      (eq p.qty_change zero_float ≡ false)
      × ((p.warehouse_id == 0 || p.product_id == 0) ≡ false)
      × ((p.ref_id ≡ "") ⊎ ((u : ℕ) × (cfg.parse_uuid p.ref_id ≡ some u)))
      × (exists (λ x. str_eq x.code (movement_code fl p db.clock)) db.transactions ≡ false)
      × ((cfg.keyed && has_key (movement_key fl p db.clock) db.keys) ≡ false)
      × ((not cfg.allow_neg && is_short (add (before p db).0 p.qty_change)) ≡ false)
      × ((not cfg.allow_neg && is_short (after fl p.qty_change p.unit_cost (before p db)).0)
          ≡ false)

  card_of-described :
      (p : MovementParams Float) (now : ℕ) (b : Balance Float)
      → card_of fl p now b ≡ described p now (b.qty, b.avg_cost)
  card_of-described p now b = elim (Bool-cases (lt zero_float p.qty_change)) [
    | inl e ↦ rw e refl
    | inr e ↦ rw e refl
  ]

  settled-after :
      (p : MovementParams Float) (b : Balance Float)
      → settled_qty fl p b ≡ (after fl p.qty_change p.unit_cost (b.qty, b.avg_cost)).0
  settled-after p b = elim (Bool-cases (lt zero_float p.qty_change)) [
    | inl e ↦ rw e refl
    | inr e ↦ rw e refl
  ]

  -- A movement that ends well had a quantity, a warehouse and a product, an empty reference or an id, a
  -- code and a key that were not used, and, without the permission for negative stock, enough stock. It
  -- adds one transaction with one line and one card to the tables, and answers with the card. What the
  -- warehouse holds of the product changes by the quantity, and its average cost by the weighted average
  -- where goods come in; nothing else that is held changes.
  pub post_movement-Recorded :
      (p : MovementParams Float) (db : Db Float L) {card : StockCardEntry Float} {t : Db Float L}
      → post_movement fl cfg p db ≡ (ok card, t)
      → Tested p db × Recorded p db card t
  unfolding record_audit
  post_movement-Recorded p db {card} {t} h =
      let posted = post_movement-Posted fl cfg p db h in
      let (c1, c2, body) = posted in
      let (covered, fresh, free, ec, et) = body in
      let b = balance_before fl cfg p db in
      let held = balance_before-held fl cfg p db in
      let same = card_of-described p db.clock b ∙ ap (described p db.clock) held in
      (
        (
          c1,
          c2,
          post_movement_ref fl cfg p db h,
          fresh,
          free,
          rw (ap (λ (x : Float × Float). x.0) held) at covered.0,
          ap (λ v. not cfg.allow_neg && is_short v)
                (sym (
                  settled-after p b
                  ∙ ap (λ (x : Float × Float). (after fl p.qty_change p.unit_cost x).0) held))
              ∙ covered.1,
        ),
        (
          ec ∙ same,
          λ w q. stock_of-Posted fl cfg p db card t w q posted,
          ap (λ (x : Db Float L). x.transactions) et,
          ap (λ (x : Db Float L). x.tx_lines) et
              ∙ ap (λ (x : Float × Float). db.tx_lines ++ line_row p db x.1 ∷ []) held,
          ap (λ (x : Db Float L). x.cards) et ∙ ap (λ c. db.cards ++ card_row p db c ∷ []) same,
        ),
      )
