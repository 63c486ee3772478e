-- ===== src/Inventory/Movements.antt =====
-- One movement of stock (internal/inventory/service.go: postMovement): what it has tested and written
-- when it ends well, and that it leaves nothing behind when it does not.
use odyssey_erp.Common.{
  ℕ, ◌+◌, true, false, ◌&&◌, ◌||◌, not, ◌≡◌, refl, sym, ap, ◌∙◌, [], ◌∷◌, ◌++◌, ◌+str◌, String,
  str_eq, str_eq_filled, str_eq_iff, exists-append_last, ◌==◌, if◌then◌else◌, find, exists, Result,
  ok, err, pure, pure-ok, raise_if, raise_if-ok, with_tx, with_tx-ok, with_tx-err, ◌>>=◌, ◌>>◌,
  >>=-elim, >>=-err, Bool-cases, Answer-cases, inl, inr, ◌⊎◌, some, Option-cases,
}
use odyssey_erp.Common.Float.{FloatOps}
use odyssey_erp.Inventory.Model.{
  TransactionType, inbound, outbound, transfer, adjust, Error, Balance, StockCardEntry,
  MovementParams, KeyRow, Db,
}
use odyssey_erp.Inventory.Idempotency.{check_and_insert, delete, has_key, without_key-insert}
use odyssey_erp.Inventory.Repository.{
  get_balance_for_update, insert_transaction, insert_transaction_lines, upsert_balance,
  insert_card_entry, is_balance_of, stored_line, stored_card, upserted,
}
use odyssey_erp.Inventory.Service.{
  Config, type_text, movement_code, movement_key, settled_qty, average_cost, is_negative, card_of,
  movement_line, balance_or_empty, header_of, write_movement, movement_body, record_audit,
  claim_key, release_key, keyed_transaction, bad_ref, post_movement,
}

module _ (fl : FloatOps) {L : Type 0} (cfg : Config (fl.Float) L) where
  open fl use {Float, zero as zero_float, add, eq}

  -- The balance that a movement starts from.
  abbrev pub balance_before : MovementParams Float → Db Float L → Balance Float
  balance_before p db =
      balance_or_empty fl p.warehouse_id p.product_id
        (find (is_balance_of fl p.warehouse_id p.product_id) db.balances)

  abbrev pub with_movement : MovementParams Float → ℕ → Balance Float → Db Float L → Db Float L
  with_movement p now b db = record db {
    transactions =
        db.transactions
        ++ record (header_of fl cfg p now) { id = db.next_tx; created_at = db.clock } ∷ [];
    tx_lines =
        db.tx_lines
        ++ stored_line fl db.next_line db.next_tx (movement_line fl p b db.next_tx) ∷ [];
    balances =
        upserted fl (record b { qty = settled_qty fl p b; avg_cost = average_cost fl p b }) db.clock
          db.balances;
    cards =
        db.cards
        ++ record {
          id = db.next_card;
          warehouse_id = p.warehouse_id;
          product_id = p.product_id;
          tx_id = db.next_tx;
          card = stored_card fl (card_of fl p now b);
        }
          ∷ [];
    next_tx = db.next_tx + 1;
    next_line = db.next_line + 1;
    next_card = db.next_card + 1;
  }

  write_movement-ok :
      (p : MovementParams Float) (now : ℕ) (b : Balance Float) (db : Db Float L)
      {card : StockCardEntry Float} {t : Db Float L}
      → write_movement fl cfg p now b db ≡ (ok card, t)
      → (exists (λ x. str_eq x.code (movement_code fl p now)) db.transactions ≡ false)
        × (t ≡ with_movement p now b db)
        × (card ≡ card_of fl p now b)
  unfolding write_movement insert_transaction insert_transaction_lines upsert_balance
      insert_card_entry
  write_movement-ok p now b db h =
      elim (Bool-cases (exists (λ x. str_eq x.code (movement_code fl p now)) db.transactions)) [
        | inl taken ↦ absurd (cc (rw taken at h))
        | inr free ↦ let (ec, et) = pure-ok (rw free at h) in (free, et, ec)
      ]

  -- What the guards of a movement have let pass.
  abbrev pub Covered : MovementParams Float → Balance Float → Type 0
  Covered p b =
      ((not cfg.allow_neg && is_negative fl (add b.qty p.qty_change)) ≡ false)
      × ((not cfg.allow_neg && is_negative fl (settled_qty fl p b)) ≡ false)

  movement_body-ok :
      (p : MovementParams Float) (now : ℕ) (db : Db Float L) {card : StockCardEntry Float}
      {t : Db Float L}
      → movement_body fl cfg p now db ≡ (ok card, t)
      → Covered p (balance_before p db)
        × (exists (λ x. str_eq x.code (movement_code fl p now)) db.transactions ≡ false)
        × (t ≡ with_movement p now (balance_before p db) db)
        × (card ≡ card_of fl p now (balance_before p db))
  unfolding movement_body get_balance_for_update
  movement_body-ok p now db h =
      >>=-elim
        (raise_if (not cfg.allow_neg && is_negative fl (add (balance_before p db).qty p.qty_change))
          _)
        _ db h
        λ u s first h1.
          let (c1, e1) =
            raise_if-ok
              (not cfg.allow_neg && is_negative fl (add (balance_before p db).qty p.qty_change)) _
              db first in
          >>=-elim
            (raise_if (not cfg.allow_neg && is_negative fl (settled_qty fl p (balance_before p db)))
              _)
            _ s h1
            λ u2 s2 second h2.
              let (c2, e2) =
                raise_if-ok
                  (not cfg.allow_neg && is_negative fl (settled_qty fl p (balance_before p db))) _ s
                  second in
              let (free, et, ec) =
                write_movement-ok p now (balance_before p db) db (rw (e2 ∙ e1) at h2) in
              ((c1, c2), free, et, ec)

  abbrev pub claim_row : String → Db Float L → KeyRow
  claim_row key db = record { key = key; module_name = "inventory"; created_at = db.clock }

  abbrev pub with_claim : String → Db Float L → Db Float L
  with_claim key db = record db {
    keys = if cfg.keyed then db.keys ++ claim_row key db ∷ [] else db.keys;
  }

  claim_key-ok :
      (key : String) (db : Db Float L) {u : Unit {0}} {t : Db Float L}
      → claim_key fl cfg key db ≡ (ok u, t)
      → ((cfg.keyed && has_key key db.keys) ≡ false) × (t ≡ with_claim key db)
  unfolding claim_key check_and_insert
  claim_key-ok key db h = elim (Bool-cases cfg.keyed) [
    | inr off ↦ (rw off refl, (pure-ok (rw off at h)).1 ∙ sym (rw off refl))
    | inl on ↦ elim (Bool-cases (str_eq key "")) [
      | inl bad ↦ absurd (cc (rw (on, bad) at h))
      | inr good ↦ elim (Bool-cases (has_key key db.keys)) [
        | inl taken ↦ absurd (cc (rw (on, good, taken) at h))
        | inr free ↦ (rw (on, free) refl, (pure-ok (rw (on, good, free) at h)).1 ∙ sym (rw on refl))
      ]
    ]
  ]

  -- A key that is not empty can always be claimed unless it is taken, and a failed claim writes nothing.
  claim_key-err :
      (key : String) (db : Db Float L) {e : Error} {t : Db Float L}
      → claim_key fl cfg key db ≡ (err e, t)
      → t ≡ db
  unfolding claim_key check_and_insert
  claim_key-err key db h = elim (Bool-cases cfg.keyed) [
    | inr off ↦ absurd (cc (rw off at h))
    | inl on ↦ elim (Bool-cases (str_eq key "")) [
      | inl bad ↦ cc (rw (on, bad) at h)
      | inr good ↦ elim (Bool-cases (has_key key db.keys)) [
        | inl taken ↦ cc (rw (on, good, taken) at h)
        | inr free ↦ absurd (cc (rw (on, good, free) at h))
      ]
    ]
  ]

  -- Releasing a key that was just claimed.
  release_key-claim :
      (key : String) (db : Db Float L) {e : Error}
      → (cfg.keyed ≡ true → str_eq key "" ≡ false)
      → (cfg.keyed && has_key key db.keys) ≡ false
      → release_key fl cfg key (err e, with_claim key db) ≡ (err e, db)
  unfolding delete
  release_key-claim key db filled free = elim (Bool-cases cfg.keyed) [
    | inr off ↦ rw off refl
    | inl on ↦
        rw (on, filled on, without_key-insert key db.keys (claim_row key db) refl (rw on at free))
          refl
  ]

  typed_text_filled :
      (ty : TransactionType) (rest : String) → str_eq (type_text ty +str rest) "" ≡ false
  typed_text_filled inbound rest = str_eq_filled "IN" rest refl
  typed_text_filled outbound rest = str_eq_filled "OUT" rest refl
  typed_text_filled transfer rest = str_eq_filled "TRANSFER" rest refl
  typed_text_filled adjust rest = str_eq_filled "ADJUST" rest refl

  movement_key_filled :
      (p : MovementParams Float) (now : ℕ) → str_eq (movement_key fl p now) "" ≡ false
  movement_key_filled p now = typed_text_filled p.tx_type _

  abbrev pub PostedBody :
      MovementParams Float → Db Float L → StockCardEntry Float → Db Float L → Type 0
  PostedBody p db card t =
      Covered p (balance_before p db)
      × (exists (λ x. str_eq x.code (movement_code fl p db.clock)) db.transactions ≡ false)
      × ((cfg.keyed && has_key (movement_key fl p db.clock) db.keys) ≡ false)
      × (card ≡ card_of fl p db.clock (balance_before p db))
      × (t
          ≡ (record_audit fl cfg p (
              with_movement p db.clock (balance_before p db)
                (with_claim (movement_key fl p db.clock) db))).1)

  -- A movement that was posted: its tests passed on the database as it was, and its writes.
  abbrev pub Posted : MovementParams Float → Db Float L → StockCardEntry Float → Db Float L → Type 0
  Posted p db card t =
      (eq p.qty_change zero_float ≡ false)
      × ((p.warehouse_id == 0 || p.product_id == 0) ≡ false)
      × PostedBody p db card t

  release_key-ok :
      (key : String) (r : Result Error (StockCardEntry Float) × Db Float L)
      {card : StockCardEntry Float} {t : Db Float L}
      → release_key fl cfg key r ≡ (ok card, t)
      → r ≡ (ok card, t)
  release_key-ok key (ok c, s) h = h
  release_key-ok key (err e, s) h = absurd (cc h)

  keyed_transaction-ok :
      (p : MovementParams Float) (now : ℕ) (db : Db Float L) {card : StockCardEntry Float}
      {t : Db Float L}
      → keyed_transaction fl cfg p now db ≡ (ok card, t)
      → ((cfg.keyed && has_key (movement_key fl p now) db.keys) ≡ false)
        × (movement_body fl cfg p now (with_claim (movement_key fl p now) db) ≡ (ok card, t))
  unfolding keyed_transaction
  keyed_transaction-ok p now db h =
      >>=-elim (claim_key fl cfg (movement_key fl p now)) _ db h λ u s first rest.
        let (free, e) = claim_key-ok (movement_key fl p now) db first in
        (
          free,
          with_tx-ok (movement_body fl cfg p now) _
              (release_key-ok (movement_key fl p now) _ (rw e at rest)),
        )

  release_key-tx :
      (p : MovementParams Float) (now : ℕ) (db : Db Float L) {e : Error} {t : Db Float L}
      → (cfg.keyed && has_key (movement_key fl p now) db.keys) ≡ false
      → release_key fl cfg
          (movement_key fl p now)
          (with_tx (movement_body fl cfg p now) (with_claim (movement_key fl p now) db))
        ≡ (err e, t)
      → t ≡ db
  release_key-tx p now db free h =
      let claimed = with_claim (movement_key fl p now) db in
      elim (Answer-cases (with_tx (movement_body fl cfg p now) claimed)) [
        | inl (card, s, e) ↦ absurd (cc (rw e at h))
        | inr (x, s, e) ↦
            let undone = with_tx-err (movement_body fl cfg p now) claimed e in
            let released =
              release_key-claim (movement_key fl p now) db {e = x} (λ on. movement_key_filled p now)
                free in
            cc (h, released, e, undone)
      ]

  keyed_transaction-err :
      (p : MovementParams Float) (now : ℕ) (db : Db Float L) {e : Error} {t : Db Float L}
      → keyed_transaction fl cfg p now db ≡ (err e, t)
      → t ≡ db
  unfolding keyed_transaction
  keyed_transaction-err p now db h =
      elim (>>=-err (claim_key fl cfg (movement_key fl p now)) _ db h) [
        | inl failed ↦ claim_key-err (movement_key fl p now) db failed
        | inr (u, s, first, rest) ↦
            let (free, e) = claim_key-ok (movement_key fl p now) db first in
            release_key-tx p now db free (rw e at rest)
      ]

  posted_body :
      (p : MovementParams Float) (db : Db Float L) {card : StockCardEntry Float} {t : Db Float L}
      → (do card ← keyed_transaction fl cfg p db.clock; record_audit fl cfg p; pure card) db
        ≡ (ok card, t)
      → PostedBody p db card t
  unfolding record_audit
  posted_body p db h = >>=-elim (keyed_transaction fl cfg p db.clock) _ db h λ c s first rest.
      let (free, e) = keyed_transaction-ok p db.clock db first in
      let (covered, fresh, et, ec) = movement_body-ok p db.clock _ e in
      let (same, end) = pure-ok rest in
      (covered, fresh, free, same ∙ ec, end ∙ ap (λ x. (record_audit fl cfg p x).1) et)

  -- The tests and the writes of a movement that ends well.
  pub post_movement-Posted :
      (p : MovementParams Float) (db : Db Float L) {card : StockCardEntry Float} {t : Db Float L}
      → post_movement fl cfg p db ≡ (ok card, t)
      → Posted p db card t
  unfolding post_movement
  post_movement-Posted p db h =
      >>=-elim (raise_if (eq p.qty_change zero_float) _) _ db h λ u1 s1 first h1.
        let (c1, e1) = raise_if-ok (eq p.qty_change zero_float) _ db first in
        >>=-elim (raise_if (p.warehouse_id == 0 || p.product_id == 0) _) _ s1 h1 λ u2 s2 second h2.
          let (c2, e2) = raise_if-ok (p.warehouse_id == 0 || p.product_id == 0) _ s1 second in
          >>=-elim (raise_if (bad_ref fl cfg p.ref_id) _) _ s2 h2 λ u3 s3 third h3.
            let (c3, e3) = raise_if-ok (bad_ref fl cfg p.ref_id) _ s2 third in
            (c1, c2, posted_body p db (rw (e3 ∙ (e2 ∙ e1), e2 ∙ e1) at h3))

  -- Its reference is empty, or an id.
  pub post_movement_ref :
      (p : MovementParams Float) (db : Db Float L) {card : StockCardEntry Float} {t : Db Float L}
      → post_movement fl cfg p db ≡ (ok card, t)
      → (p.ref_id ≡ "") ⊎ ((u : ℕ) × (cfg.parse_uuid p.ref_id ≡ some u))
  unfolding post_movement
  post_movement_ref p db h = elim (Bool-cases (eq p.qty_change zero_float)) [
    | inl c1 ↦ absurd (cc (rw c1 at h))
    | inr c1 ↦ elim (Bool-cases (p.warehouse_id == 0 || p.product_id == 0)) [
      | inl c2 ↦ absurd (cc (rw (c1, c2) at h))
      | inr c2 ↦ elim (Bool-cases (str_eq p.ref_id "")) [
        | inl given ↦ inl ((str_eq_iff p.ref_id "").0 given)
        | inr filled ↦ elim (Option-cases (cfg.parse_uuid p.ref_id)) [
          | inl bad ↦ absurd (cc (rw (c1, c2, filled, bad) at h))
          | inr (u, good) ↦ inr (u, good)
        ]
      ]
    ]
  ]

  -- A movement that ends in an error has written nothing: its transaction is rolled back, and the key
  -- that it had claimed is released.
  pub post_movement_atomic :
      (p : MovementParams Float) (db : Db Float L) {e : Error} {t : Db Float L}
      → post_movement fl cfg p db ≡ (err e, t)
      → t ≡ db
  unfolding post_movement record_audit
  post_movement_atomic p db h = elim (Bool-cases (eq p.qty_change zero_float)) [
    | inl c1 ↦ cc (rw c1 at h)
    | inr c1 ↦ elim (Bool-cases (p.warehouse_id == 0 || p.product_id == 0)) [
      | inl c2 ↦ cc (rw (c1, c2) at h)
      | inr c2 ↦ elim (Bool-cases (bad_ref fl cfg p.ref_id)) [
        | inl c3 ↦ cc (rw (c1, c2, c3) at h)
        | inr c3 ↦
            elim (>>=-err (keyed_transaction fl cfg p db.clock) _ db (rw (c1, c2, c3) at h)) [
              | inl failed ↦ keyed_transaction-err p db.clock db failed
              | inr (c, s, first, rest) ↦ absurd (cc rest)
            ]
      ]
    ]
  ]

  -- A movement whose code a transaction has already.
  post_movement_taken :
      (p : MovementParams Float) (db : Db Float L)
      → exists (λ x. str_eq x.code (movement_code fl p db.clock)) db.transactions ≡ true
      → (e : Error) × (post_movement fl cfg p db ≡ (err e, db))
  post_movement_taken p db h = elim (Answer-cases (post_movement fl cfg p db)) [
    | inl (card, t, e) ↦
        let (c1, c2, body) = post_movement-Posted p db e in
        let (covered, fresh, rest, r2, r3) = body in absurd (cc (h, fresh))
    | inr (x, t, e) ↦ (x, e ∙ ap (λ s. (err x, s)) (post_movement_atomic p db e))
  ]

  movement_code_given :
      (p : MovementParams Float) (now : ℕ)
      → str_eq p.code "" ≡ false
      → movement_code fl p now ≡ p.code
  movement_code_given p now h = rw h refl

  -- A code is posted once: after a movement with a code of its own, each movement with that code, of
  -- whatever product and warehouse, is an error that writes nothing.
  pub post_movement_once :
      (p q : MovementParams Float) (db : Db Float L) {card : StockCardEntry Float} {t : Db Float L}
      → str_eq p.code "" ≡ false
      → q.code ≡ p.code
      → post_movement fl cfg p db ≡ (ok card, t)
      → (e : Error) × (post_movement fl cfg q t ≡ (err e, t))
  unfolding record_audit
  post_movement_once p q db {card} {t} given same h =
      let (c1, c2, body) = post_movement-Posted p db h in
      let (covered, fresh, free, ec, et) = body in
      post_movement_taken q t (
        rw (movement_code_given q t.clock (rw same given), same, et)
          (exists-append_last (λ x. str_eq x.code p.code) db.transactions
            (record (header_of fl cfg p db.clock) { id = db.next_tx; created_at = db.clock })
            (rw (movement_code_given p db.clock given) ((str_eq_iff p.code p.code).1 refl))))
