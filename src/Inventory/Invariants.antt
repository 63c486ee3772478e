-- ===== src/Inventory/Invariants.antt =====
-- What holds of the stock tables after any calls of the service (internal/inventory/service.go).
use odyssey_erp.Common.{
  ℕ, ◌+◌, false, ◌&&◌, ◌≡◌, refl, sym, subst, ap, ◌∙◌, List, [], ◌∷◌, ◌++◌, ◌==◌, length,
  length-append, All, Bool-cases, inl, inr, arith,
}
use odyssey_erp.Common.Float.{FloatOps}
use odyssey_erp.Inventory.Model.{Transaction, Balance, StockCardEntry, MovementParams, Db}
use odyssey_erp.Inventory.Repository.{is_balance_of, float_to_numeric, upserted}
use odyssey_erp.Inventory.Service.{
  Config, header_of, settled_qty, average_cost, is_negative, record_audit,
}
use odyssey_erp.Inventory.Movements.{Posted, balance_before}
use odyssey_erp.Inventory.Balances.{carded, carded-append, held-upserted}
use odyssey_erp.Inventory.Runs.{Call, run, run-Keeps, LedgerOnly}
use odyssey_erp.Inventory.Stock.{Stock, moved, stock_of, stock_of-Posted, balance_before-key}

module _ (fl : FloatOps) {L : Type 0} (cfg : Config (fl.Float) L) where
  open fl use {Float, lt, neg, tenth_mil}

  -- Every balance is the one that the last card of its warehouse and product writes down.
  abbrev pub Agrees : Db Float L → Type 0
  Agrees db = (w q : ℕ) → stock_of fl db w q ≡ carded fl w q db.cards

  Agrees-Posted :
      (p : MovementParams Float) (db : Db Float L) (card : StockCardEntry Float) (t : Db Float L)
      → Agrees db
      → Posted fl cfg p db card t
      → Agrees t
  unfolding record_audit
  Agrees-Posted p db card t h (c1, c2, body) w q =
      let (covered, fresh, free, ec, et) = body in
      let b = balance_before fl cfg p db in
      let updated = record b { qty = settled_qty fl p b; avg_cost = average_cost fl p b } in
      let bal =
        ap (λ (x : Db Float L). stock_of fl x w q) et
        ∙ held-upserted fl w q updated db.clock db.balances in
      let cards =
        ap (λ (x : Db Float L). carded fl w q x.cards) et ∙ carded-append fl w q db.cards _ in
      bal
      ∙ (elim (Bool-cases (p.warehouse_id == w && p.product_id == q)) [
        | inl e ↦ rw (balance_before-key fl cfg p db w q, e) refl
        | inr e ↦ rw (balance_before-key fl cfg p db w q, e) (h w q)
      ])
      ∙ sym cards

  -- Stock is never short by more than the tolerance.
  abbrev pub NonNegative : Db Float L → Type 0
  NonNegative db = All (λ b. is_negative fl b.qty ≡ false) db.balances

  NonNegative-upserted :
      (b : Balance Float) (now : ℕ) (bs : List (Balance Float))
      → is_negative fl (float_to_numeric fl b.qty) ≡ false
      → All (λ x. is_negative fl x.qty ≡ false) bs
      → All (λ x. is_negative fl x.qty ≡ false) (upserted fl b now bs)
  NonNegative-upserted b now [] h hs = (h, tt)
  NonNegative-upserted b now (x ∷ xs) h (h1, hs) =
      elim (Bool-cases (is_balance_of fl b.warehouse_id b.product_id x)) [
        | inl e ↦ rw e (h, hs)
        | inr e ↦ rw e (h1, NonNegative-upserted b now xs h hs)
      ]

  -- Storing an amount does not make it negative.
  abbrev pub StoringKeepsSign : Type 0
  StoringKeepsSign =
      (x : Float) → is_negative fl x ≡ false → is_negative fl (float_to_numeric fl x) ≡ false

  NonNegative-Posted :
      cfg.allow_neg ≡ false
      → StoringKeepsSign
      → (p : MovementParams Float) (db : Db Float L) (card : StockCardEntry Float) (t : Db Float L)
      → NonNegative db
      → Posted fl cfg p db card t
      → NonNegative t
  unfolding record_audit
  NonNegative-Posted strict law p db card t h (c1, c2, body) =
      let (covered, fresh, free, ec, et) = body in
      let b = balance_before fl cfg p db in
      let updated = record b { qty = settled_qty fl p b; avg_cost = average_cost fl p b } in
      subst NonNegative (sym et) (
        NonNegative-upserted updated db.clock db.balances
          (law (settled_qty fl p b) (rw strict at (covered.1))) h)

  -- After any calls the balance table and the stock cards agree: what a balance says is what the last
  -- card of its warehouse and product says. The integration may write to the ledger only.
  pub run-Agrees :
      LedgerOnly fl cfg
      → (cs : List (Call Float)) (db : Db Float L) → Agrees db
      → Agrees (run fl cfg cs db)
  run-Agrees only cs db h =
      run-Keeps fl cfg Agrees (λ p d card t. Agrees-Posted p d card t) (λ d ks l now keep. keep)
        only cs db h

  -- Without the permission for negative stock no calls make a balance fall below the tolerance, if
  -- storing an amount does not do so.
  pub run-NonNegative :
      cfg.allow_neg ≡ false
      → StoringKeepsSign
      → LedgerOnly fl cfg
      → (cs : List (Call Float)) (db : Db Float L) → NonNegative db
      → NonNegative (run fl cfg cs db)
  run-NonNegative strict law only cs db h =
      run-Keeps fl cfg NonNegative
        (λ p d card t hd e. NonNegative-Posted strict law p d card t hd e) (λ d ks l now keep. keep)
        only cs db h

  -- The stock after some movements, one after the other.
  abbrev pub moved_all : List (MovementParams Float) → Stock fl → Stock fl
  moved_all [] s = s
  moved_all (p ∷ ps) s = moved_all ps (moved fl p s)

  -- What the stock is after some movements, each of which has a transaction of its own.
  abbrev pub Accounts : Db Float L → Db Float L → Type 0
  Accounts db t =
      (ps : List (MovementParams Float)) × ((w q : ℕ)
        → stock_of fl t w q ≡ moved_all ps (stock_of fl db) w q)
      × (length t.transactions ≡ length db.transactions + length ps)

  moved_all-append :
      (ps : List (MovementParams Float)) (p : MovementParams Float) (s : Stock fl)
      → moved_all (ps ++ p ∷ []) s ≡ moved fl p (moved_all ps s)
  moved_all-append [] p s = refl
  moved_all-append (q ∷ ps) p s = moved_all-append ps p (moved fl q s)

  -- A movement looks at the stock only.
  pub moved-same :
      (p : MovementParams Float) (s s' : Stock fl)
      → ((w q : ℕ) → s w q ≡ s' w q)
      → (w q : ℕ) → moved fl p s w q ≡ moved fl p s' w q
  moved-same p s s' h w q = rw (h p.warehouse_id p.product_id, h w q) refl

  abbrev last_transaction : MovementParams Float → Db Float L → List Transaction
  last_transaction p d =
      record (header_of fl cfg p d.clock) { id = d.next_tx; created_at = d.clock } ∷ []

  Accounts-Posted :
      (db : Db Float L) (p : MovementParams Float) (d : Db Float L) (card : StockCardEntry Float)
      (t : Db Float L)
      → Accounts db d
      → Posted fl cfg p d card t
      → Accounts db t
  unfolding record_audit
  Accounts-Posted db p d card t (ps, same, count) posted =
      let (c1, c2, body) = posted in
      let (covered, fresh, free, ec, et) = body in
      (
        ps ++ p ∷ [],
        (λ w q.
            stock_of-Posted fl cfg p d card t w q posted
            ∙ moved-same p (stock_of fl d) (moved_all ps (stock_of fl db)) same w q
            ∙ ap (λ s. s w q) (sym (moved_all-append ps p (stock_of fl db)))),
        ap (λ (x : Db Float L). length x.transactions) et
            ∙ rw
                (
                  length-append d.transactions (last_transaction p d),
                  length-append ps (p ∷ []),
                  count,
                )
                (omega arith),
      )

  -- After any calls the stock is what some movements make of it, by the weighted average: one movement
  -- for each transaction that was added.
  pub run-Accounts :
      LedgerOnly fl cfg
      → (cs : List (Call Float)) (db : Db Float L) → Accounts db (run fl cfg cs db)
  run-Accounts only cs db =
      run-Keeps fl cfg (Accounts db) (λ p d card t. Accounts-Posted db p d card t)
        (λ d ks l now keep. keep) only cs db ([], (λ w q. refl), omega arith)
