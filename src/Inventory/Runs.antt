-- ===== src/Inventory/Runs.antt =====
-- Sequences of calls of the inventory service (internal/inventory/service.go), and the predicates of
-- the database that no call breaks.
use odyssey_erp.Common.{
  ℕ, ◌+◌, ◌&&◌, ◌||◌, not, ◌≡◌, sym, subst, ap, ◌∙◌, some, List, [], ◌∷◌, Action, pure, raise_if,
  ◌>>=◌, Keeps, >>=-Keeps, raise_if-Keeps, select, ltb, ◌-◌, Option-cases, Answer-cases, inl, inr,
  ◌==◌,
}
use odyssey_erp.Common.Float.{FloatOps}
use odyssey_erp.Inventory.Model.{
  Error, warehouse_and_product_required, warehouses_must_differ, invalid_quantity,
  invalid_unit_cost, StockCardEntry, InboundInput, AdjustmentInput, TransferInput, MovementParams,
  AdjustmentPostedEvent, KeyRow, Db,
}
use odyssey_erp.Inventory.Idempotency.{cleanup}
use odyssey_erp.Inventory.Service.{
  Config, post_movement, post_inbound, inbound_params, post_adjustment, adjustment_params,
  adjustment_event, notify, post_transfer, out_params, in_params,
}
use odyssey_erp.Inventory.Movements.{Posted, post_movement-Posted, post_movement_atomic}

-- What the other parts of the program do with the inventory: the calls, the sweep of old keys, and time.
pub data Call (F : Type 0) : Type 0 where
  inbound_call : InboundInput F → Call F
  adjustment_call : AdjustmentInput F → Call F
  transfer_call : TransferInput F → Call F
  cleanup_call : ℕ → Call F
  wait : ℕ → Call F

module _ (fl : FloatOps) {L : Type 0} (cfg : Config (fl.Float) L) where
  open fl use {Float, zero as zero_float, lt, le, abs, nano}

  unfoldable pub run_call : Call Float → Db Float L → Db Float L
  run_call (inbound_call i) db = (post_inbound fl cfg i db).1
  run_call (adjustment_call i) db = (post_adjustment fl cfg i db).1
  run_call (transfer_call i) db = (post_transfer fl cfg i db).1
  run_call (cleanup_call age) db = (cleanup age db).1
  run_call (wait n) db = record db { clock = db.clock + n }

  unfoldable pub run : List (Call Float) → Db Float L → Db Float L
  run [] db = db
  run (c ∷ cs) db = run cs (run_call c db)

  -- The integration keeps to the ledger.
  abbrev pub LedgerOnly : Type 0
  LedgerOnly =
      (handle : AdjustmentPostedEvent Float → Action (Db Float L) Error (Unit {0}))
      (e : AdjustmentPostedEvent Float) (db : Db Float L)
      → cfg.integration ≡ some handle
      → (handle e db).1 ≡ record db { ledger = (handle e db).1.ledger }

  abbrev transfer_legs :
      TransferInput Float
      → ℕ
      → Action (Db Float L) Error (StockCardEntry Float × StockCardEntry Float)
  transfer_legs i now = do
    out_card ← post_movement fl cfg (out_params fl cfg i now)
    in_card ← post_movement fl cfg (in_params fl cfg i now)
    pure (out_card, in_card)

  module _ (P : Db Float L → Type 0)
      (moved : (p : MovementParams Float) (db : Db Float L) (card : StockCardEntry Float)
          (t : Db Float L)
        → P db
        → Posted fl cfg p db card t
        → P t)
      (aside : (db : Db Float L) (ks : List KeyRow) (l : L) (now : ℕ)
        → P db
        → P (record db { keys = ks; ledger = l; clock = now }))
      (ledger_only : LedgerOnly) where
    post_movement-Keeps : (p : MovementParams Float) → Keeps P (post_movement fl cfg p)
    post_movement-Keeps p db h = elim (Answer-cases (post_movement fl cfg p db)) [
      | inl (card, t, e) ↦
          subst P (sym (ap (λ r. r.1) e)) (moved p db card t h (post_movement-Posted fl cfg p db e))
      | inr (x, t, e) ↦ subst P (sym (ap (λ r. r.1) e ∙ post_movement_atomic fl cfg p db e)) h
    ]

    post_inbound-Keeps : (i : InboundInput Float) → Keeps P (post_inbound fl cfg i)
    unfolding post_inbound
    post_inbound-Keeps i =
        >>=-Keeps P
          (raise_if (i.warehouse_id == 0 || i.product_id == 0) warehouse_and_product_required) _
          (raise_if-Keeps P _ _)
          λ _.
            >>=-Keeps P (raise_if (le i.qty zero_float) invalid_quantity) _ (raise_if-Keeps P _ _)
              λ _.
                >>=-Keeps P (raise_if (lt i.unit_cost zero_float) invalid_unit_cost) _
                  (raise_if-Keeps P _ _) λ _. post_movement-Keeps (inbound_params fl cfg i)

    notify-Keeps : (e : AdjustmentPostedEvent Float) → Keeps P (notify fl cfg e)
    unfolding notify
    notify-Keeps e db h = elim (Option-cases cfg.integration) [
      | inl off ↦ rw off h
      | inr (handle, on) ↦ rw (on, ledger_only handle e db on) (aside db db.keys _ db.clock h)
    ]

    post_adjustment-Keeps : (i : AdjustmentInput Float) → Keeps P (post_adjustment fl cfg i)
    unfolding post_adjustment
    post_adjustment-Keeps i =
        >>=-Keeps P
          (raise_if (i.warehouse_id == 0 || i.product_id == 0) warehouse_and_product_required) _
          (raise_if-Keeps P _ _)
          λ _.
            >>=-Keeps P (raise_if (lt (abs i.qty) nano) invalid_quantity) _ (raise_if-Keeps P _ _)
              λ _.
                >>=-Keeps P
                  (raise_if (lt zero_float i.qty && lt i.unit_cost zero_float) invalid_unit_cost) _
                  (raise_if-Keeps P _ _)
                  λ _.
                    >>=-Keeps P (post_movement fl cfg (adjustment_params fl cfg i)) _
                      (post_movement-Keeps (adjustment_params fl cfg i))
                      λ card.
                        >>=-Keeps P (notify fl cfg (adjustment_event fl cfg i card)) _
                          (notify-Keeps (adjustment_event fl cfg i card)) λ _ db h. h

    transfer_legs-Keeps : (i : TransferInput Float) (now : ℕ) → Keeps P (transfer_legs i now)
    transfer_legs-Keeps i now =
        >>=-Keeps P (post_movement fl cfg (out_params fl cfg i now)) _
          (post_movement-Keeps (out_params fl cfg i now))
          λ _.
            >>=-Keeps P (post_movement fl cfg (in_params fl cfg i now)) _
              (post_movement-Keeps (in_params fl cfg i now)) λ _ s h. h

    post_transfer-Keeps : (i : TransferInput Float) → Keeps P (post_transfer fl cfg i)
    unfolding post_transfer
    post_transfer-Keeps i =
        >>=-Keeps P
          (raise_if (i.src_warehouse == 0 || i.dst_warehouse == 0 || i.product_id == 0)
            warehouse_and_product_required)
          _ (raise_if-Keeps P _ _)
          λ _.
            >>=-Keeps P (raise_if (i.src_warehouse == i.dst_warehouse) warehouses_must_differ) _
              (raise_if-Keeps P _ _)
              λ _.
                >>=-Keeps P (raise_if (le i.qty zero_float) invalid_quantity) _
                  (raise_if-Keeps P _ _)
                  λ _.
                    >>=-Keeps P (raise_if (lt i.unit_cost zero_float) invalid_unit_cost) _
                      (raise_if-Keeps P _ _) λ _. λ db. transfer_legs-Keeps i db.clock db

    run_call-Keeps : (c : Call Float) (db : Db Float L) → P db → P (run_call c db)
    unfolding run_call cleanup
    run_call-Keeps (inbound_call i) db h = post_inbound-Keeps i db h
    run_call-Keeps (adjustment_call i) db h = post_adjustment-Keeps i db h
    run_call-Keeps (transfer_call i) db h = post_transfer-Keeps i db h
    run_call-Keeps (cleanup_call age) db h =
        aside db (select (λ k. not (ltb k.created_at (db.clock - age))) db.keys) db.ledger db.clock
          h
    run_call-Keeps (wait n) db h = aside db db.keys db.ledger (db.clock + n) h

    pub run-Keeps : (cs : List (Call Float)) (db : Db Float L) → P db → P (run cs db)
    unfolding run
    run-Keeps [] db h = h
    run-Keeps (c ∷ cs) db h = run-Keeps cs (run_call c db) (run_call-Keeps c db h)
