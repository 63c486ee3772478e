-- ===== src/Inventory/Transfers.antt =====
-- Transfers and adjustments (internal/inventory/service.go: PostTransfer, PostAdjustment), which are
-- made of a movement and of something more outside of its transaction.
use odyssey_erp.Common.{
  ℕ, ◌&&◌, ◌||◌, ◌≡◌, refl, sym, ap, ◌∙◌, ◌⊎◌, inl, inr, Option, none, some, ok, err, Action, pure,
  pure-ok, ◌>>=◌, ◌>>◌, >>=-elim, >>=-err, Bool-cases, ◌==◌, if◌then◌else◌, Option-cases, subst,
}
use odyssey_erp.Common.Float.{FloatOps}
use odyssey_erp.Inventory.Model.{
  Error, warehouse_and_product_required, warehouses_must_differ, invalid_quantity,
  invalid_unit_cost, StockCardEntry, AdjustmentInput, TransferInput, Db,
}
use odyssey_erp.Inventory.Service.{
  Config, post_movement, post_adjustment, adjustment_params, adjustment_event, notify,
  post_transfer, out_params, in_params,
}
use odyssey_erp.Inventory.Movements.{Posted, post_movement-Posted, post_movement_atomic}
use odyssey_erp.Inventory.Stock.{stock_of, moved, placed, stock_of-Posted}
use odyssey_erp.Inventory.Invariants.{moved-same}

module _ (fl : FloatOps) {L : Type 0} (cfg : Config (fl.Float) L) where
  open fl use {Float, zero as zero_float, lt, le, abs, nano, neg}

  -- The guards of a transfer.
  abbrev refused : TransferInput Float → Option Error
  refused i =
      if i.src_warehouse == 0 || i.dst_warehouse == 0 || i.product_id == 0
      then some warehouse_and_product_required
      else if i.src_warehouse == i.dst_warehouse
      then some warehouses_must_differ
      else if le i.qty zero_float
      then some invalid_quantity
      else if lt i.unit_cost zero_float
      then some invalid_unit_cost
      else none

  abbrev legs :
      TransferInput Float
      → ℕ
      → Action (Db Float L) Error (StockCardEntry Float × StockCardEntry Float)
  legs i now = do
    out_card ← post_movement fl cfg (out_params fl cfg i now)
    in_card ← post_movement fl cfg (in_params fl cfg i now)
    pure (out_card, in_card)

  post_transfer_split :
      (i : TransferInput Float) (db : Db Float L)
      → post_transfer fl cfg i db
        ≡ elim (refused i) [ none ↦ legs i db.clock db | some e ↦ (err e, db) ]
  unfolding post_transfer
  post_transfer_split i db =
      elim (Bool-cases (i.src_warehouse == 0 || i.dst_warehouse == 0 || i.product_id == 0)) [
        | inl c1 ↦ rw c1 refl
        | inr c1 ↦ elim (Bool-cases (i.src_warehouse == i.dst_warehouse)) [
          | inl c2 ↦ rw (c1, c2) refl
          | inr c2 ↦ elim (Bool-cases (le i.qty zero_float)) [
            | inl c3 ↦ rw (c1, c2, c3) refl
            | inr c3 ↦ elim (Bool-cases (lt i.unit_cost zero_float)) [
              | inl c4 ↦ rw (c1, c2, c3, c4) refl
              | inr c4 ↦ rw (c1, c2, c3, c4) refl
            ]
          ]
        ]
      ]

  legs-ok :
      (i : TransferInput Float) (db : Db Float L) {o n : StockCardEntry Float} {t : Db Float L}
      → legs i db.clock db ≡ (ok (o, n), t)
      → (s : Db Float L) × Posted fl cfg (out_params fl cfg i db.clock) db o s
        × Posted fl cfg (in_params fl cfg i db.clock) s n t
  legs-ok i db h =
      >>=-elim (post_movement fl cfg (out_params fl cfg i db.clock)) _ db h λ o s first h1.
        >>=-elim (post_movement fl cfg (in_params fl cfg i db.clock)) _ s h1 λ n t second h2.
          let (same, end) = pure-ok h2 in
          let p = out_params fl cfg i db.clock in
          let q = in_params fl cfg i db.clock in
          (
            s,
            post_movement-Posted fl cfg p db
                (first ∙ ap (λ x. (ok x, s)) (sym (ap (λ r. r.0) same))),
            post_movement-Posted fl cfg q s (second ∙ cc (same, end)),
          )

  legs-err :
      (i : TransferInput Float) (db : Db Float L) {e : Error} {t : Db Float L}
      → legs i db.clock db ≡ (err e, t)
      → (t ≡ db)
        ⊎ ((o : StockCardEntry Float) × Posted fl cfg (out_params fl cfg i db.clock) db o t)
  legs-err i db h = elim (>>=-err (post_movement fl cfg (out_params fl cfg i db.clock)) _ db h) [
    | inl failed ↦ inl (post_movement_atomic fl cfg (out_params fl cfg i db.clock) db failed)
    | inr (o, s, first, rest) ↦
        elim (>>=-err (post_movement fl cfg (in_params fl cfg i db.clock)) _ s rest) [
          | inl failed ↦ inr (
            o,
            subst (Posted fl cfg (out_params fl cfg i db.clock) db o)
                (sym (post_movement_atomic fl cfg (in_params fl cfg i db.clock) s failed))
                (post_movement-Posted fl cfg (out_params fl cfg i db.clock) db first),
          )
          | inr (n, s2, second, end) ↦ absurd (cc end)
        ]
  ]

  adjusted-err :
      (i : AdjustmentInput Float) (db : Db Float L) {e : Error} {t : Db Float L}
      → (do
        card ← post_movement fl cfg (adjustment_params fl cfg i)
        notify fl cfg (adjustment_event fl cfg i card)
        pure card)
          db
        ≡ (err e, t)
      → (t ≡ db)
        ⊎ ((card : StockCardEntry Float) × (s : Db Float L) × Posted fl cfg
              (adjustment_params fl cfg i)
              db
              card
              s
            × (notify fl cfg (adjustment_event fl cfg i card) s ≡ (err e, t)))
  adjusted-err i db h =
      let p = adjustment_params fl cfg i in
      elim (>>=-err (post_movement fl cfg p) _ db h) [
        | inl failed ↦ inl (post_movement_atomic fl cfg p db failed)
        | inr (card, s, first, rest) ↦
            elim (>>=-err (notify fl cfg (adjustment_event fl cfg i card)) _ s rest) [
              | inl failed ↦ inr (card, s, post_movement-Posted fl cfg p db first, failed)
              | inr (u, s2, second, end) ↦ absurd (cc end)
            ]
      ]

  -- After a transfer that ends well the quantity has gone from the source warehouse, at the average cost
  -- that it had there, and has come to the other one at the cost of the transfer; no other stock has changed.
  pub post_transfer_lem :
      (i : TransferInput Float) (db : Db Float L) {o n : StockCardEntry Float} {t : Db Float L}
      → post_transfer fl cfg i db ≡ (ok (o, n), t)
      → (w q : ℕ)
      → stock_of fl t w q
        ≡ placed fl i.dst_warehouse i.product_id i.qty i.unit_cost
            (placed fl i.src_warehouse i.product_id (neg i.qty) i.unit_cost (stock_of fl db))
            w
            q
  post_transfer_lem i db {o} {n} {t} h w q = elim (Option-cases (refused i)) [
    | inr (e, bad) ↦ absurd (cc (rw (post_transfer_split i db, bad) at h))
    | inl fine ↦
        let (s, out, into) = legs-ok i db (rw (post_transfer_split i db, fine) at h) in
        let p = out_params fl cfg i db.clock in
        let r = in_params fl cfg i db.clock in
        stock_of-Posted fl cfg r s n t w q into
        ∙ moved-same fl cfg r (stock_of fl s) (moved fl p (stock_of fl db))
            (λ w1 q1. stock_of-Posted fl cfg p db o s w1 q1 out) w q
  ]

  -- A transfer that ends in an error has done nothing, or has moved the quantity out of the source
  -- warehouse: the two movements are two transactions.
  pub post_transfer_half :
      (i : TransferInput Float) (db : Db Float L) {e : Error} {t : Db Float L}
      → post_transfer fl cfg i db ≡ (err e, t)
      → (t ≡ db)
        ⊎ ((o : StockCardEntry Float) × Posted fl cfg (out_params fl cfg i db.clock) db o t
            × ((w q : ℕ)
                → stock_of fl t w q
                  ≡ placed fl i.src_warehouse i.product_id
                      (neg i.qty)
                      i.unit_cost
                      (stock_of fl db)
                      w
                      q))
  post_transfer_half i db {e} {t} h = elim (Option-cases (refused i)) [
    | inr (e, bad) ↦ inl (cc (rw (post_transfer_split i db, bad) at h))
    | inl fine ↦ elim (legs-err i db (rw (post_transfer_split i db, fine) at h)) [
      | inl same ↦ inl same
      | inr (o, out) ↦
          inr (o, out, λ w q. stock_of-Posted fl cfg (out_params fl cfg i db.clock) db o t w q out)
    ]
  ]

  -- An adjustment that ends in an error has done nothing, or it is posted and the ledger's integration
  -- has failed on it.
  pub post_adjustment_half :
      (i : AdjustmentInput Float) (db : Db Float L) {e : Error} {t : Db Float L}
      → post_adjustment fl cfg i db ≡ (err e, t)
      → (t ≡ db)
        ⊎ ((card : StockCardEntry Float) × (s : Db Float L) × Posted fl cfg
              (adjustment_params fl cfg i)
              db
              card
              s
            × (notify fl cfg (adjustment_event fl cfg i card) s ≡ (err e, t)))
  unfolding post_adjustment
  post_adjustment_half i db h = elim (Bool-cases (i.warehouse_id == 0 || i.product_id == 0)) [
    | inl c1 ↦ inl (cc (rw c1 at h))
    | inr c1 ↦ elim (Bool-cases (lt (abs i.qty) nano)) [
      | inl c2 ↦ inl (cc (rw (c1, c2) at h))
      | inr c2 ↦ elim (Bool-cases (lt zero_float i.qty && lt i.unit_cost zero_float)) [
        | inl c3 ↦ inl (cc (rw (c1, c2, c3) at h))
        | inr c3 ↦ adjusted-err i db (rw (c1, c2, c3) at h)
      ]
    ]
  ]
