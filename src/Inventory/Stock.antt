-- ===== src/Inventory/Stock.antt =====
-- What the stock service promises (internal/inventory/service.go), as a plain account of what each
-- warehouse holds of each product; and the invariants of its tables.
use odyssey_erp.Common.{
  ℕ, true, ◌&&◌, ◌≡◌, refl, ap, ◌∙◌, Option, none, some, ◌==◌, if◌then◌else◌, find, find-holds,
  Bool-cases, Option-cases, inl, inr, arith,
}
use odyssey_erp.Common.Float.{FloatOps}
use odyssey_erp.Inventory.Model.{Balance, StockCardEntry, MovementParams, Db}
use odyssey_erp.Inventory.Repository.{is_balance_of, float_to_numeric}
use odyssey_erp.Inventory.Service.{Config, settled_qty, average_cost, record_audit}
use odyssey_erp.Inventory.Movements.{Posted, balance_before}
use odyssey_erp.Inventory.Balances.{held, held-upserted}

module _ (fl : FloatOps) where
  open fl use {Float, zero as zero_float, add, mul, div, neg, abs, lt, le, eq, tenth_mil}

  -- What is held: for a warehouse and a product a quantity and an average cost, if there ever was any.
  abbrev pub Stock : Type 0
  Stock = ℕ → ℕ → Option (Float × Float)

  abbrev pub held_or_nothing : Option (Float × Float) → Float × Float
  held_or_nothing none = (zero_float, zero_float)
  held_or_nothing (some x) = x

  -- Goods that come in at a cost: the average is weighted by the quantities.
  abbrev pub receive : Float → Float → Float × Float → Float × Float
  receive d cost (q, a) = (
    add q d,
    if eq (add q d) zero_float then zero_float else div (add (mul q a) (mul d cost)) (add q d),
  )

  -- Goods that go out: a rest that is next to nothing is nothing, and nothing has no cost.
  abbrev pub issue : Float → Float × Float → Float × Float
  issue d (q, a) =
      let rest = if lt (abs (add q d)) tenth_mil then zero_float else add q d in
      (rest, if le rest zero_float then zero_float else a)

  abbrev pub stored : Float × Float → Float × Float
  stored (q, a) = (float_to_numeric fl q, float_to_numeric fl a)

  -- A movement of a stock.
  abbrev pub moved : MovementParams Float → Stock → Stock
  moved p s w q =
      if p.warehouse_id == w && p.product_id == q
      then some (
          stored (
            if lt zero_float p.qty_change
            then receive p.qty_change p.unit_cost (held_or_nothing (s p.warehouse_id p.product_id))
            else issue p.qty_change (held_or_nothing (s p.warehouse_id p.product_id))))
      else s w q

  -- A quantity that comes to a warehouse, or with a sign leaves it.
  abbrev pub after : Float → Float → Float × Float → Float × Float
  after d cost x = if lt zero_float d then receive d cost x else issue d x

  abbrev pub placed : ℕ → ℕ → Float → Float → Stock → Stock
  placed w0 q0 d cost s w q =
      if w0 == w && q0 == q then some (stored (after d cost (held_or_nothing (s w0 q0)))) else s w q

  abbrev pub stock_of : {L : Type 0} → Db Float L → Stock
  stock_of db w q = held fl (find (is_balance_of fl w q) db.balances)

  module _ {L : Type 0} (cfg : Config Float L) where
    pub balance_before-held :
        (p : MovementParams Float) (db : Db Float L)
        → ((balance_before fl cfg p db).qty, (balance_before fl cfg p db).avg_cost)
          ≡ held_or_nothing (stock_of db p.warehouse_id p.product_id)
    balance_before-held p db =
        elim (Option-cases (find (is_balance_of fl p.warehouse_id p.product_id) db.balances)) [
          | inl e ↦ rw e refl
          | inr (b, e) ↦ rw e refl
        ]

    same_key :
        (p : MovementParams Float) (b : Balance Float) (w q : ℕ)
        → is_balance_of fl p.warehouse_id p.product_id b ≡ true
        → is_balance_of fl w q b ≡ (p.warehouse_id == w && p.product_id == q)
    same_key p b w q h = ground arith

    -- The balance is the one of the movement's warehouse and product.
    pub balance_before-key :
        (p : MovementParams Float) (db : Db Float L) (w q : ℕ)
        → is_balance_of fl w q (balance_before fl cfg p db)
          ≡ (p.warehouse_id == w && p.product_id == q)
    balance_before-key p db w q =
        elim (Option-cases (find (is_balance_of fl p.warehouse_id p.product_id) db.balances)) [
          | inl e ↦ rw e refl
          | inr (b, e) ↦ rw e (
              same_key p b w q
                (find-holds (is_balance_of fl p.warehouse_id p.product_id) db.balances e))
        ]

    settled_lem :
        (p : MovementParams Float) (b : Balance Float)
        → (settled_qty fl p b, average_cost fl p b) ≡ (
            if lt zero_float p.qty_change
            then receive p.qty_change p.unit_cost (b.qty, b.avg_cost)
            else issue p.qty_change (b.qty, b.avg_cost))
    settled_lem p b = elim (Bool-cases (lt zero_float p.qty_change)) [
      | inl e ↦ rw e refl
      | inr e ↦ rw e refl
    ]

    moved_pair :
        (p : MovementParams Float) (db : Db Float L) (b : Balance Float)
        → (b.qty, b.avg_cost) ≡ held_or_nothing (stock_of db p.warehouse_id p.product_id)
        → stored (settled_qty fl p b, average_cost fl p b)
          ≡ stored (
              if lt zero_float p.qty_change
              then receive p.qty_change p.unit_cost
                  (held_or_nothing (stock_of db p.warehouse_id p.product_id))
              else issue p.qty_change (held_or_nothing (stock_of db p.warehouse_id p.product_id)))
    moved_pair p db b h = ap stored (
        settled_lem p b
        ∙ ap
            (λ x.
              if lt zero_float p.qty_change
              then receive p.qty_change p.unit_cost x
              else issue p.qty_change x)
            h)

    pub stock_of-Posted :
        (p : MovementParams Float) (db : Db Float L) (card : StockCardEntry Float) (t : Db Float L)
        (w q : ℕ)
        → Posted fl cfg p db card t
        → stock_of t w q ≡ moved p (stock_of db) w q
    unfolding record_audit
    stock_of-Posted p db card t w q (c1, c2, body) =
        let (covered, fresh, free, ec, et) = body in
        let b = balance_before fl cfg p db in
        let updated = record b { qty = settled_qty fl p b; avg_cost = average_cost fl p b } in
        let bal =
          ap (λ (x : Db Float L). stock_of x w q) et
          ∙ held-upserted fl w q updated db.clock db.balances in
        let key = balance_before-key p db w q in
        bal ∙ (elim (Bool-cases (p.warehouse_id == w && p.product_id == q)) [
          | inl e ↦ rw (key, e) (ap some (moved_pair p db b (balance_before-held p db)))
          | inr e ↦ rw (key, e) refl
        ])
