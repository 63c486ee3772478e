-- ===== src/Inventory/Repository.antt =====
-- internal/inventory/repository.go: the statements on transactions, balances and cards. An amount
-- goes into its column, with four decimals, as the text "%f".
use odyssey_erp.Common.{
  take, ℕ, ◌+◌, Bool, ◌&&◌, ◌||◌, Option, List, [], ◌∷◌, ◌++◌, ◌==◌, str_eq, ltb, leb,
  if◌then◌else◌, find, select, exists, map, Action, pure, gets, modify, raise_if, ◌>>=◌, ◌>>◌,
}
use odyssey_erp.Common.Float.{FloatOps}
use odyssey_erp.Inventory.Model.{
  Error, code_taken, Transaction, TransactionLine, Balance, StockCardEntry, CardRow,
  StockCardFilter, Db,
}

module _ (fl : FloatOps) where
  open fl use {Float, store_text}

  -- func floatToNumeric, and the column.
  abbrev pub float_to_numeric : Float → Float
  float_to_numeric f = store_text 4 f

  abbrev pub is_balance_of : ℕ → ℕ → Balance Float → Bool
  is_balance_of w p b = b.warehouse_id == w && b.product_id == p

  abbrev pub is_card_of : ℕ → ℕ → CardRow Float → Bool
  is_card_of w p c = c.warehouse_id == w && c.product_id == p

  -- The absence of the row is an answer, which the caller tests for.
  unfoldable pub get_balance_for_update :
      {L : Type 0} → ℕ → ℕ → Action (Db Float L) Error (Option (Balance Float))
  get_balance_for_update w p = gets (λ db. find (is_balance_of w p) db.balances)

  unfoldable pub insert_transaction : {L : Type 0} → Transaction → Action (Db Float L) Error ℕ
  insert_transaction tx = do
    db ← gets (λ db. db)
    raise_if (exists (λ t. str_eq t.code tx.code) db.transactions) code_taken
    modify (λ db. record db {
      transactions = db.transactions ++ record tx { id = db.next_tx; created_at = db.clock } ∷ [];
      next_tx = db.next_tx + 1;
    })
    pure db.next_tx

  abbrev pub stored_line : ℕ → ℕ → TransactionLine Float → TransactionLine Float
  stored_line id tx l = record l {
    id = id;
    transaction_id = tx;
    qty = float_to_numeric l.qty;
    unit_cost = float_to_numeric l.unit_cost;
  }

  unfoldable pub insert_transaction_lines :
      {L : Type 0} → ℕ → List (TransactionLine Float) → Action (Db Float L) Error (Unit {0})
  insert_transaction_lines tx [] = pure tt
  insert_transaction_lines tx (l ∷ ls) = do
    modify (λ db. record db {
      tx_lines = db.tx_lines ++ stored_line db.next_line tx l ∷ [];
      next_line = db.next_line + 1;
    })
    insert_transaction_lines tx ls

  abbrev pub stored_balance : Balance Float → ℕ → Balance Float
  stored_balance b now = record b {
    qty = float_to_numeric b.qty;
    avg_cost = float_to_numeric b.avg_cost;
    updated_at = now;
  }

  -- INSERT ... ON CONFLICT (warehouse_id, product_id) DO UPDATE
  abbrev pub upserted : Balance Float → ℕ → List (Balance Float) → List (Balance Float)
  upserted b now [] = stored_balance b now ∷ []
  upserted b now (x ∷ xs) =
      let rest = upserted b now xs in
      if is_balance_of b.warehouse_id b.product_id x
      then record x {
        qty = float_to_numeric b.qty;
        avg_cost = float_to_numeric b.avg_cost;
        updated_at = now;
      }
        ∷ xs
      else x ∷ rest

  unfoldable pub upsert_balance :
      {L : Type 0} → Balance Float → Action (Db Float L) Error (Unit {0})
  upsert_balance b = modify (λ db. record db { balances = upserted b db.clock db.balances })

  abbrev pub stored_card : StockCardEntry Float → StockCardEntry Float
  stored_card c = record c {
    qty_in = float_to_numeric c.qty_in;
    qty_out = float_to_numeric c.qty_out;
    balance_qty = float_to_numeric c.balance_qty;
    unit_cost = float_to_numeric c.unit_cost;
    balance_cost = float_to_numeric c.balance_cost;
  }

  unfoldable pub insert_card_entry :
      {L : Type 0} → StockCardEntry Float → ℕ → ℕ → ℕ → Action (Db Float L) Error (Unit {0})
  insert_card_entry card w p tx = modify (λ db. record db {
    cards =
        db.cards
        ++ record {
          id = db.next_card;
          warehouse_id = w;
          product_id = p;
          tx_id = tx;
          card = stored_card card;
        }
          ∷ [];
    next_card = db.next_card + 1;
  })

  -- The rows of a stock card: those in the range of times.
  abbrev in_filter : StockCardFilter → CardRow Float → Bool
  in_filter f c =
      is_card_of f.warehouse_id f.product_id c
      && (f.from_date == 0 || leb f.from_date c.card.posted_at)
      && (f.to_date == 0 || leb c.card.posted_at f.to_date)

  -- ORDER BY posted_at, id: the table holds the ids in order.
  abbrev insert_ordered : CardRow Float → List (CardRow Float) → List (CardRow Float)
  insert_ordered c [] = c ∷ []
  insert_ordered c (d ∷ ds) =
      let rest = insert_ordered c ds in
      if ltb d.card.posted_at c.card.posted_at then d ∷ rest else c ∷ d ∷ ds

  unfoldable pub order_cards : List (CardRow Float) → List (CardRow Float)
  order_cards [] = []
  order_cards (c ∷ cs) = insert_ordered c (order_cards cs)

  unfoldable pub get_stock_card :
      {L : Type 0} → StockCardFilter → Action (Db Float L) Error (List (StockCardEntry Float))
  unfolding order_cards
  get_stock_card f = gets (λ db.
      map (λ (c : CardRow Float). c.card)
        (take (if f.limit == 0 then 200 else f.limit)
          (order_cards (select (in_filter f) db.cards))))
