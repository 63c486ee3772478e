-- ===== src/Integration/Events.antt =====
-- What the hooks promise of an event (internal/integration/hooks.go), through the ledger's PostJournal.
use odyssey_erp.Common.{
  ℕ, Bool, true, if◌then◌else◌, ◌≡◌, refl, sym, subst, ap, ◌∙◌, ◌⊎◌, inl, inr, none, some, String,
  ok, err, Action, ◌==◌, Bool-cases, Answer-cases,
}
use odyssey_erp.Common.Float.{FloatOps}
use odyssey_erp.Journals.Model as Journals
use odyssey_erp.Journals.Model.{PostingInput, JournalEntry, source_already_linked, unique_violation}
use odyssey_erp.Journals.Service.{post_journal}
use odyssey_erp.Journals.Sources.{Posted, post_journal_lem, post_journal_atomic}
use odyssey_erp.Journals.Closed.{service_guard}
use odyssey_erp.Journals.Again.{post_journal_again}
use odyssey_erp.Inventory.Model.{AdjustmentPostedEvent}
use odyssey_erp.Integration.Model.{
  Error, ledger_error, Books, GrnPostedEvent, ApInvoicePostedEvent, ApPaymentPostedEvent,
}
use odyssey_erp.Integration.Hooks.{
  post, is_source_linked, handle_grn_posted, handle_ap_invoice_posted, handle_ap_payment_posted,
  handle_inventory_adjustment_posted,
}
use odyssey_erp.Integration.Promises.{
  Promise, grn_promise, invoice_promise, payment_promise, adjustment_promise,
}
use odyssey_erp.Integration.Plans.{
  Decision, carry_out, Planned, Fits, grn-Planned, invoice-Planned, payment-Planned,
  adjustment-Planned,
}

pub data Event (F : Type 0) : Type 0 where
  grn_posted : GrnPostedEvent F → Event F
  invoice_posted : ApInvoicePostedEvent F → Event F
  payment_posted : ApPaymentPostedEvent F → Event F
  adjustment_posted : AdjustmentPostedEvent F → Event F

abbrev pub time_of : {F : Type 0} → Event F → ℕ
time_of (grn_posted e) = e.received_at
time_of (invoice_posted e) = e.posted_at
time_of (payment_posted e) = e.paid_at
time_of (adjustment_posted e) = e.posted_at

linked-source : (x : Journals.Error) → is_source_linked x ≡ true → x ≡ source_already_linked
linked-source Journals.source_already_linked h = refl
linked-source Journals.unbalanced h = absurd (cc h)
linked-source Journals.too_few_lines h = absurd (cc h)
linked-source Journals.invalid_period h = absurd (cc h)
linked-source Journals.journal_not_found h = absurd (cc h)
linked-source Journals.period_locked h = absurd (cc h)
linked-source Journals.invalid_status h = absurd (cc h)
linked-source Journals.date_out_of_range h = absurd (cc h)
linked-source Journals.source_conflict h = absurd (cc h)
linked-source Journals.period_required h = absurd (cc h)
linked-source Journals.source_module_required h = absurd (cc h)
linked-source Journals.source_id_required h = absurd (cc h)
linked-source Journals.entry_required h = absurd (cc h)
linked-source Journals.scan_failed h = absurd (cc h)
linked-source Journals.unique_violation h = absurd (cc h)
linked-source (Journals.missing_account k) h = absurd (cc h)
linked-source (Journals.negative_amount k) h = absurd (cc h)
linked-source (Journals.both_sides k) h = absurd (cc h)
linked-source (Journals.close_error k) h = absurd (cc h)

module _ (fl : FloatOps) (guarded audited : Bool) (sha1 : String → ℕ)
    (to_upper : String → String) where
  open fl use {Float, zero as zero_float, eq, le, lt, neg, nano}

  -- The hook of an event.
  abbrev pub handle : Event Float → Action (Books Float) Error (Unit {0})
  handle (grn_posted e) = handle_grn_posted fl (service_guard guarded) audited sha1 to_upper e
  handle (invoice_posted e) =
      handle_ap_invoice_posted fl (service_guard guarded) audited sha1 to_upper e
  handle (payment_posted e) =
      handle_ap_payment_posted fl (service_guard guarded) audited sha1 to_upper e
  handle (adjustment_posted e) =
      handle_inventory_adjustment_posted fl (service_guard guarded) audited sha1 to_upper e

  -- What an event stands for.
  abbrev pub promise_of : Event Float → Promise Float
  promise_of (grn_posted e) = grn_promise fl e
  promise_of (invoice_posted e) = invoice_promise fl e
  promise_of (payment_posted e) = payment_promise fl e
  promise_of (adjustment_posted e) = adjustment_promise fl e

  -- An event that has nothing to enter.
  abbrev pub IsIdle : Event Float → Type 0
  IsIdle (grn_posted e) = eq (grn_promise fl e).amount zero_float ≡ true
  IsIdle (invoice_posted e) = le e.total zero_float ≡ true
  IsIdle (payment_posted e) = le e.amount zero_float ≡ true
  IsIdle (adjustment_posted e) =
      (lt (if lt e.qty zero_float then neg e.qty else e.qty) nano ≡ true)
      ⊎ (eq (adjustment_promise fl e).amount zero_float ≡ true)

  handle-Planned :
      (e : Event Float)
      → Planned fl
          (service_guard guarded)
          audited
          sha1
          to_upper
          (Fits fl (service_guard guarded) audited sha1 to_upper (time_of e) (promise_of e))
          (IsIdle e)
          (handle e)
  handle-Planned (grn_posted e) = grn-Planned fl (service_guard guarded) audited sha1 to_upper e
  handle-Planned (invoice_posted e) =
      invoice-Planned fl (service_guard guarded) audited sha1 to_upper e
  handle-Planned (payment_posted e) =
      payment-Planned fl (service_guard guarded) audited sha1 to_upper e
  handle-Planned (adjustment_posted e) =
      adjustment-Planned fl (service_guard guarded) audited sha1 to_upper e

  -- What a posting of the hooks leaves: one new journal, or the books as they were where the ledger has
  -- answered that the source is linked already.
  abbrev pub IsNew : PostingInput Float → Books Float → Books Float → Type 0
  IsNew i b t =
      (e : JournalEntry Float) × Posted fl (service_guard guarded) audited i b.ledger e t.ledger
      × (t.mappings ≡ b.mappings)

  abbrev pub Entered : PostingInput Float → Books Float → Books Float → Type 0
  Entered i b t =
      ((t ≡ b)
        × (post_journal fl (service_guard guarded) audited i b.ledger
            ≡ (err source_already_linked, b.ledger)))
      ⊎ IsNew i b t

  -- Where a posting that ended well came from, and what a second one answers.
  abbrev Carried : PostingInput Float → Books Float → Books Float → Type 0
  Carried i b t =
      (((t ≡ b)
          × (post_journal fl (service_guard guarded) audited i b.ledger
              ≡ (err source_already_linked, b.ledger)))
        ⊎ (IsNew i b t
            × (post fl (service_guard guarded) audited sha1 to_upper i t
                ≡ (err (ledger_error unique_violation), t))))
      × (t.ledger.close ≡ b.ledger.close)
      × (t.mappings ≡ b.mappings)

  Carried-Entered : (i : PostingInput Float) (b t : Books Float) → Carried i b t → Entered i b t
  Carried-Entered i b t (inl same, close, mappings) = inl same
  Carried-Entered i b t (inr (new, again), close, mappings) = inr new

  post-ok :
      (i : PostingInput Float) (b : Books Float) {u : Unit {0}} {t : Books Float}
      → post fl (service_guard guarded) audited sha1 to_upper i b ≡ (ok u, t)
      → Carried i b t
  unfolding post
  post-ok i b {u} {t} h = elim (Bool-cases (i.source_id == 0)) [
    | inl bad ↦ absurd (cc (rw bad at h))
    | inr good ↦ elim (Answer-cases (post_journal fl (service_guard guarded) audited i b.ledger)) [
      | inl (e, ledger, posting) ↦
          let (close, again) = post_journal_again fl guarded audited i b.ledger posting in
          subst (Carried i b) (ap (λ r. r.1) (rw (good, posting) at h)) (
            inr (
              (e, post_journal_lem fl (service_guard guarded) audited i b.ledger posting, refl),
              rw (good, again) refl,
            ),
            close,
            refl,
          )
      | inr (x, ledger, failed) ↦ elim (Bool-cases (is_source_linked x)) [
        | inr other ↦ absurd (cc (rw (good, failed, other) at h))
        | inl linked ↦
            let undone = post_journal_atomic fl (service_guard guarded) audited i b.ledger failed in
            let same : t ≡ b = sym (ap (λ r. r.1) (rw (good, failed, linked, undone) at h)) in
            (
              inl (
                same,
                failed
                    ∙ ap (λ (y : Journals.Error). (err y, ledger)) (linked-source x linked)
                    ∙ ap (λ (l : Journals.Db Float). (err source_already_linked, l)) undone,
              ),
              ap (λ (x : Books Float). x.ledger.close) same,
              ap (λ (x : Books Float). x.mappings) same,
            )
      ]
    ]
  ]

  post-err :
      (i : PostingInput Float) (b : Books Float) {x : Error} {t : Books Float}
      → post fl (service_guard guarded) audited sha1 to_upper i b ≡ (err x, t)
      → t ≡ b
  unfolding post
  post-err i b {x} {t} h = elim (Bool-cases (i.source_id == 0)) [
    | inl bad ↦ cc (rw bad at h)
    | inr good ↦ elim (Answer-cases (post_journal fl (service_guard guarded) audited i b.ledger)) [
      | inl (e, ledger, posting) ↦ absurd (cc (rw (good, posting) at h))
      | inr (y, ledger, failed) ↦ elim (Bool-cases (is_source_linked y)) [
        | inl linked ↦ absurd (cc (rw (good, failed, linked) at h))
        | inr other ↦
            let undone = post_journal_atomic fl (service_guard guarded) audited i b.ledger failed in
            sym (ap (λ r. r.1) (rw (good, failed, other, undone) at h))
      ]
    ]
  ]

  -- The decision of a hook, and what it leads to.
  abbrev plan_of :
      Event Float → Books Float → Decision fl (service_guard guarded) audited sha1 to_upper
  plan_of e b = (handle-Planned e).plan b.ledger.close b.mappings

  Decision-cases :
      (d : Decision fl (service_guard guarded) audited sha1 to_upper)
      → ((x : Error) × (d ≡ err x))
        ⊎ ((d ≡ ok none) ⊎ ((i : PostingInput Float) × (d ≡ ok (some i))))
  Decision-cases (err x) = inl (x, refl)
  Decision-cases (ok none) = inr (inl refl)
  Decision-cases (ok (some i)) = inr (inr (i, refl))

  -- An event that was handled well had nothing to enter, and the books are as they were, or it has been
  -- entered: dated at its time, in the first open period whose days hold that time, under its own source,
  -- with its amount on a debit line and on a credit line of the accounts that the mappings name, and
  -- without a poster; only where the ledger answers that the source is linked already is nothing new
  -- written.
  pub handle_lem :
      (e : Event Float) (b : Books Float) {u : Unit {0}} {t : Books Float}
      → handle e b ≡ (ok u, t)
      → ((t ≡ b) × IsIdle e)
        ⊎ ((i : PostingInput Float) × Fits fl
              (service_guard guarded)
              audited
              sha1
              to_upper
              (time_of e)
              (promise_of e)
              b.ledger.close
              b.mappings
              i
            × Entered i b t
            × (t.ledger.close ≡ b.ledger.close))
  handle_lem e b {u} {t} h = elim (Decision-cases (plan_of e b)) [
    | inl (x, d) ↦ absurd (cc (rw ((handle-Planned e).carried_out b, d) at h))
    | inr done ↦ elim done [
      | inl d ↦ inl (
        sym (ap (λ r. r.1) (rw ((handle-Planned e).carried_out b, d) at h)),
        (handle-Planned e).idle b.ledger.close b.mappings d,
      )
      | inr (i, d) ↦
          let carried = post-ok i b (rw ((handle-Planned e).carried_out b, d) at h) in
          let (kind, close, mappings) = carried in
          inr (
            i,
            (handle-Planned e).facts b.ledger.close b.mappings i d,
            Carried-Entered i b t carried,
            close,
          )
    ]
  ]

  -- A hook that ends in an error has written nothing.
  pub handle_atomic :
      (e : Event Float) (b : Books Float) {x : Error} {t : Books Float}
      → handle e b ≡ (err x, t)
      → t ≡ b
  handle_atomic e b {x} {t} h = elim (Decision-cases (plan_of e b)) [
    | inl (y, d) ↦ sym (ap (λ r. r.1) (rw ((handle-Planned e).carried_out b, d) at h))
    | inr done ↦ elim done [
      | inl d ↦ absurd (cc (rw ((handle-Planned e).carried_out b, d) at h))
      | inr (i, d) ↦ post-err i b (rw ((handle-Planned e).carried_out b, d) at h)
    ]
  ]

  -- An event that was handled well and comes again: where it was entered, the hook ends in the error
  -- of the database's unique constraint and writes nothing.
  pub handle_again :
      (e : Event Float) (b : Books Float) {u : Unit {0}} {t : Books Float}
      → handle e b ≡ (ok u, t)
      → (t ≡ b) ⊎ (handle e t ≡ (err (ledger_error unique_violation), t))
  handle_again e b {u} {t} h = elim (Decision-cases (plan_of e b)) [
    | inl (x, d) ↦ absurd (cc (rw ((handle-Planned e).carried_out b, d) at h))
    | inr done ↦ elim done [
      | inl d ↦ inl (sym (ap (λ r. r.1) (rw ((handle-Planned e).carried_out b, d) at h)))
      | inr (i, d) ↦
          let (kind, close, mappings) =
            post-ok i b (rw ((handle-Planned e).carried_out b, d) at h) in
          let same : plan_of e t ≡ ok (some i) = rw (close, mappings) d in
          elim kind [
            | inl (unchanged, linked) ↦ inl unchanged
            | inr (new, again) ↦ inr (
                (handle-Planned e).carried_out t
                ∙ (ap (λ x. carry_out fl (service_guard guarded) audited sha1 to_upper x t) same
                    ∙ again))
          ]
    ]
  ]
