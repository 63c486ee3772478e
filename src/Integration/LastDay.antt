-- ===== src/Integration/LastDay.antt =====
-- Events of the last day of a period (internal/integration/hooks.go; internal/accounting/journals/
-- service.go: PostJournal): the search for the period looks at the day, the ledger at the time.
use odyssey_erp.Common.{
  ℕ, ◌*◌, Bool, true, false, ◌≡◌, ap, ◌∙◌, inl, inr, none, some, String, ltb, Answer-cases,
  Bool-cases,
}
use odyssey_erp.Common.Float.{FloatOps}
use odyssey_erp.Close.Model.{LedgerPeriodRow}
use odyssey_erp.Journals.Model.{PostingInput, JournalEntry, day}
use odyssey_erp.Journals.Repository.{ledger_period}
use odyssey_erp.Journals.Service.{out_of_range}
use odyssey_erp.Journals.Sources.{Posted}
use odyssey_erp.Journals.Closed.{service_guard}
use odyssey_erp.Integration.Model.{Books}
use odyssey_erp.Integration.Hooks.{first_covering}
use odyssey_erp.Integration.Plans.{Fits}
use odyssey_erp.Integration.Events.{Event, time_of, promise_of, handle, handle_lem, handle_atomic}

module _ (fl : FloatOps) (guarded audited : Bool) (sha1 : String → ℕ)
    (to_upper : String → String) where
  open fl use {Float}

  late-apart :
      (t : ℕ) (l : LedgerPeriodRow)
      → ltb (l.end_date * day) t ≡ true
      → out_of_range t l ≡ false
      → (true ≡ false)
  late-apart t l late inside = elim (Bool-cases (ltb t (l.start_date * day))) [
    | inl e ↦ cc (rw e at inside)
    | inr e ↦ cc (rw (e, late) at inside)
  ]

  entered_late :
      (e : Event Float) (b t : Books Float) (i : PostingInput Float) (j : JournalEntry Float)
      (l : LedgerPeriodRow)
      → first_covering (time_of e) none b.ledger.close.periods ≡ some l
      → ledger_period fl l.id b.ledger ≡ some l
      → ltb (l.end_date * day) (time_of e) ≡ true
      → Fits fl
          (service_guard guarded)
          audited
          sha1
          to_upper
          (time_of e)
          (promise_of fl guarded audited sha1 to_upper e)
          b.ledger.close
          b.mappings
          i
      → Posted fl (service_guard guarded) audited i b.ledger j t.ledger
      → t.ledger.close ≡ b.ledger.close
      → ⊥
  entered_late e b t i j l first row late (l2, found, fits)
        (p0, p1, p2, p3, p4, p5, p6, l3, row3, unlocked, inside) close =
      let date = fits.0 in
      let period = fits.1 in
      let same2 : l2 ≡ l = cc in
      let same3 : l3 ≡ l = cc (row3, row, rw (period, same2, close) at row3) in
      absurd (cc (late-apart (time_of e) l late (rw (same3, date) at inside)))

  -- An event whose time is after the midnight that begins the last day of its period, which is the first
  -- open one that holds the day of the event, is never entered: the hook leaves the books as they were.
  pub handle_late :
      (e : Event Float) (b : Books Float) (l : LedgerPeriodRow)
      → first_covering (time_of e) none b.ledger.close.periods ≡ some l
      → ledger_period fl l.id b.ledger ≡ some l
      → ltb (l.end_date * day) (time_of e) ≡ true
      → (handle fl guarded audited sha1 to_upper e b).1 ≡ b
  handle_late e b l first row late =
      elim (Answer-cases (handle fl guarded audited sha1 to_upper e b)) [
        | inr (x, t, h) ↦ ap (λ r. r.1) h ∙ handle_atomic fl guarded audited sha1 to_upper e b h
        | inl (u, t, h) ↦
            ap (λ r. r.1) h ∙ elim (handle_lem fl guarded audited sha1 to_upper e b h) [
              | inl (same, idle) ↦ same
              | inr (i, fits, entered, close) ↦ elim entered [
                | inl (same, linked) ↦ same
                | inr (j, posted, mappings) ↦
                    absurd (entered_late e b t i j l first row late fits posted close)
              ]
            ]
      ]
