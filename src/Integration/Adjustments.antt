-- ===== src/Integration/Adjustments.antt =====
-- Stock adjustments and the ledger together (internal/inventory/service.go: PostAdjustment, with the hooks
-- of internal/integration/hooks.go as its IntegrationHandler, as cmd/odyssey/main.go wires them).
use odyssey_erp.Common.{
  ℕ, ◌*◌, Bool, true, ◌&&◌, ◌||◌, ◌≡◌, refl, sym, subst, ap, ◌∙◌, inl, inr, none, some, String,
  Result, ok, err, Action, pure, pure-ok, raise_if, raise_if-ok, ◌>>=◌, ◌>>◌, >>=-elim, ltb, ◌==◌,
  Answer-cases,
}
use odyssey_erp.Common.Float.{FloatOps}
use odyssey_erp.Close.Model.{LedgerPeriodRow}
use odyssey_erp.Journals.Model.{day}
use odyssey_erp.Journals.Repository.{ledger_period}
use odyssey_erp.Inventory.Model as Inventory
use odyssey_erp.Inventory.Model.{
  AdjustmentPostedEvent, AdjustmentInput, StockCardEntry, MovementParams,
}
use odyssey_erp.Inventory.Service.{
  Config, post_movement, post_adjustment, adjustment_params, adjustment_event, notify, record_audit,
}
use odyssey_erp.Inventory.Movements.{Posted, post_movement-Posted}
use odyssey_erp.Inventory.Runs.{LedgerOnly}
use odyssey_erp.Inventory.Transfers.{post_adjustment_half}
use odyssey_erp.Integration.Model.{Error, Books}
use odyssey_erp.Integration.Hooks.{first_covering}
use odyssey_erp.Integration.Events.{Event, adjustment_posted, handle}
use odyssey_erp.Integration.LastDay.{handle_late}

module _ (fl : FloatOps) (guarded audited : Bool) (sha1 : String → ℕ)
    (to_upper : String → String) where
  open fl use {Float, zero as zero_float, lt, abs, nano}

  -- A hook's answer as the stock service sees it.
  abbrev pub hook_answer :
      Inventory.Db Float (Books Float)
      → Result Error (Unit {0}) × Books Float
      → Result Inventory.Error (Unit {0}) × Inventory.Db Float (Books Float)
  hook_answer db (ok u, books) = (ok tt, record db { ledger = books })
  hook_answer db (err e, books) = (err Inventory.integration_failed, record db { ledger = books })

  abbrev pub ledger_integration :
      AdjustmentPostedEvent Float
      → Action (Inventory.Db Float (Books Float)) Inventory.Error (Unit {0})
  ledger_integration e db =
      hook_answer db (handle fl guarded audited sha1 to_upper (adjustment_posted e) db.ledger)

  -- The stock service with the hooks.
  abbrev pub with_hooks : Config Float (Books Float) → Config Float (Books Float)
  with_hooks cfg = record cfg { integration = some ledger_integration }

  hook_answer-ledger :
      (db : Inventory.Db Float (Books Float)) (r : Result Error (Unit {0}) × Books Float)
      → (hook_answer db r).1 ≡ record db { ledger = r.1 }
  hook_answer-ledger db (ok u, books) = refl
  hook_answer-ledger db (err e, books) = refl

  hook_answer-ok :
      (db : Inventory.Db Float (Books Float)) (r : Result Error (Unit {0}) × Books Float)
      {u : Unit {0}} {t : Inventory.Db Float (Books Float)}
      → hook_answer db r ≡ (ok u, t)
      → (r ≡ (ok tt, t.ledger)) × (db ≡ record t { ledger = db.ledger })
  hook_answer-ok db (ok u, books) h = (
    ap (λ (x : Inventory.Db Float (Books Float)). (ok tt, x.ledger)) (ap (λ x. x.1) h),
    ap (λ (x : Inventory.Db Float (Books Float)). record x { ledger = db.ledger })
        (ap (λ x. x.1) h),
  )
  hook_answer-ok db (err e, books) h = absurd (cc h)

  pub with_hooks-LedgerOnly : (cfg : Config Float (Books Float)) → LedgerOnly fl (with_hooks cfg)
  with_hooks-LedgerOnly cfg h e db same =
      let hooks : ledger_integration ≡ h = cc in
      let answer = handle fl guarded audited sha1 to_upper (adjustment_posted e) db.ledger in
      let only = hook_answer-ledger db answer in
      subst
        (λ (k : AdjustmentPostedEvent Float
            → Action (Inventory.Db Float (Books Float)) Inventory.Error (Unit {0})).
          (k e db).1 ≡ record db { ledger = (k e db).1.ledger })
        hooks
        (only
          ∙ ap (λ (l : Books Float). record db { ledger = l })
              (sym (ap (λ (x : Inventory.Db Float (Books Float)). x.ledger) only)))

  Posted-ledger :
      (cfg : Config Float (Books Float)) (p : MovementParams Float)
      (db : Inventory.Db Float (Books Float)) (card : StockCardEntry Float)
      (s : Inventory.Db Float (Books Float))
      → Posted fl (with_hooks cfg) p db card s
      → (s.ledger ≡ db.ledger) × (card.posted_at ≡ db.clock)
  unfolding record_audit
  Posted-ledger cfg p db card s (c1, c2, body) =
      let (covered, fresh, free, ec, et) = body in
      (
        ap (λ (x : Inventory.Db Float (Books Float)). x.ledger) et,
        ap (λ (c : StockCardEntry Float). c.posted_at) ec,
      )

  abbrev event_of :
      Config Float (Books Float) → AdjustmentInput Float → StockCardEntry Float → Event Float
  event_of cfg i card = adjustment_posted (adjustment_event fl (with_hooks cfg) i card)

  -- The movement is posted, and its event is handled on the books as they were.
  abbrev pub Adjusted :
      Config Float (Books Float)
      → AdjustmentInput Float
      → Inventory.Db Float (Books Float)
      → StockCardEntry Float
      → Inventory.Db Float (Books Float)
      → Type 0
  Adjusted cfg i db card t =
      Posted fl (with_hooks cfg) (adjustment_params fl (with_hooks cfg) i) db card
        (record t { ledger = db.ledger })
      × (handle fl guarded audited sha1 to_upper (event_of cfg i card) db.ledger
          ≡ (ok tt, t.ledger))

  Adjusted-ok :
      (cfg : Config Float (Books Float)) (i : AdjustmentInput Float)
      (db : Inventory.Db Float (Books Float)) {card : StockCardEntry Float}
      {t : Inventory.Db Float (Books Float)}
      → (do
        c ← post_movement fl (with_hooks cfg) (adjustment_params fl (with_hooks cfg) i)
        notify fl (with_hooks cfg) (adjustment_event fl (with_hooks cfg) i c)
        pure c)
          db
        ≡ (ok card, t)
      → Adjusted cfg i db card t
  unfolding notify
  Adjusted-ok cfg i db {card} {t} h =
      let p = adjustment_params fl (with_hooks cfg) i in
      >>=-elim (post_movement fl (with_hooks cfg) p) _ db h λ c s moving h1.
        >>=-elim (notify fl (with_hooks cfg) (adjustment_event fl (with_hooks cfg) i c)) _ s h1
          λ u s2 told h2.
            let (ec, et) = pure-ok h2 in
            let (handled, back) =
              hook_answer-ok s (handle fl guarded audited sha1 to_upper (event_of cfg i c) s.ledger)
                told in
            let posted = post_movement-Posted fl (with_hooks cfg) p db moving in
            let ledger = (Posted-ledger cfg p db c s posted).0 in
            subst (λ x. Adjusted cfg i db x t) (sym ec)
              (subst (Adjusted cfg i db c) (sym et) (
                subst (Posted fl (with_hooks cfg) p db c)
                    (back ∙ ap (λ (l : Books Float). record s2 { ledger = l }) ledger) posted,
                subst
                    (λ (l : Books Float).
                      handle fl guarded audited sha1 to_upper (event_of cfg i c) l
                      ≡ (ok tt, s2.ledger))
                    ledger handled,
              ))

  -- An adjustment that ends well has posted its movement, and the hook of its event has ended well on the books.
  pub post_adjustment_lem :
      (cfg : Config Float (Books Float)) (i : AdjustmentInput Float)
      (db : Inventory.Db Float (Books Float)) {card : StockCardEntry Float}
      {t : Inventory.Db Float (Books Float)}
      → post_adjustment fl (with_hooks cfg) i db ≡ (ok card, t)
      → Adjusted cfg i db card t
  unfolding post_adjustment
  post_adjustment_lem cfg i db {card} {t} h =
      >>=-elim (raise_if (i.warehouse_id == 0 || i.product_id == 0) _) _ db h λ u1 s1 first h1.
        let (c1, e1) = raise_if-ok (i.warehouse_id == 0 || i.product_id == 0) _ db first in
        >>=-elim (raise_if (lt (abs i.qty) nano) _) _ s1 h1 λ u2 s2 second h2.
          let (c2, e2) = raise_if-ok (lt (abs i.qty) nano) _ s1 second in
          >>=-elim (raise_if (lt zero_float i.qty && lt i.unit_cost zero_float) _) _ s2 h2
            λ u3 s3 third h3.
              let (c3, e3) =
                raise_if-ok (lt zero_float i.qty && lt i.unit_cost zero_float) _ s2 third in
              let same : s3 ≡ db = e3 ∙ e2 ∙ e1 in Adjusted-ok cfg i db (rw same at h3)

  late_event :
      (cfg : Config Float (Books Float)) (i : AdjustmentInput Float)
      (db : Inventory.Db Float (Books Float)) (l : LedgerPeriodRow) (card : StockCardEntry Float)
      (s : Inventory.Db Float (Books Float))
      → Posted fl (with_hooks cfg) (adjustment_params fl (with_hooks cfg) i) db card s
      → first_covering db.clock none db.ledger.ledger.close.periods ≡ some l
      → ledger_period fl l.id db.ledger.ledger ≡ some l
      → ltb (l.end_date * day) db.clock ≡ true
      → (handle fl guarded audited sha1 to_upper (event_of cfg i card) db.ledger).1 ≡ db.ledger
  late_event cfg i db l card s posted found row late =
      let (ledger, time) =
        Posted-ledger cfg (adjustment_params fl (with_hooks cfg) i) db card s posted in
      handle_late fl guarded audited sha1 to_upper (event_of cfg i card) db.ledger l (rw time found)
        row (rw time late)

  -- An adjustment after the midnight that begins the last day of the period that holds its day never
  -- reaches the ledger, whether or not its movement is posted.
  pub late_adjustment_lem :
      (cfg : Config Float (Books Float)) (i : AdjustmentInput Float)
      (db : Inventory.Db Float (Books Float)) (l : LedgerPeriodRow)
      → first_covering db.clock none db.ledger.ledger.close.periods ≡ some l
      → ledger_period fl l.id db.ledger.ledger ≡ some l
      → ltb (l.end_date * day) db.clock ≡ true
      → (post_adjustment fl (with_hooks cfg) i db).1.ledger ≡ db.ledger
  unfolding notify
  late_adjustment_lem cfg i db l found row late =
      elim (Answer-cases (post_adjustment fl (with_hooks cfg) i db)) [
        | inl (card, t, h) ↦
            let (posted, handled) = post_adjustment_lem cfg i db h in
            ap (λ r. r.1.ledger) h
            ∙ (sym (ap (λ r. r.1) handled) ∙ late_event cfg i db l card _ posted found row late)
        | inr (e, t, h) ↦
            ap (λ r. r.1.ledger) h ∙ elim (post_adjustment_half fl (with_hooks cfg) i db h) [
              | inl same ↦ ap (λ (x : Inventory.Db Float (Books Float)). x.ledger) same
              | inr (card, s, posted, told) ↦
                  let answer =
                    handle fl guarded audited sha1 to_upper (event_of cfg i card) s.ledger in
                  let ledger =
                    (Posted-ledger cfg (adjustment_params fl (with_hooks cfg) i) db card s
                      posted).0 in
                  sym (ap (λ r. r.1.ledger) told)
                  ∙ ap (λ (x : Inventory.Db Float (Books Float)). x.ledger)
                      (hook_answer-ledger s answer)
                  ∙ ap (λ x. (handle fl guarded audited sha1 to_upper (event_of cfg i card) x).1)
                      ledger
                  ∙ late_event cfg i db l card s posted found row late
            ]
      ]
