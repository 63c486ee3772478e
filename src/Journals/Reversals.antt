-- ===== src/Journals/Reversals.antt =====
-- Reversals (internal/accounting/journals/service.go: ReverseJournal, reverseLines).
use odyssey_erp.Common.{
  not-false, ℕ, ◌+◌, Bool, true, false, not, ◌≡◌, refl, sym, ap, ◌∙◌, Option, none, some, List, [],
  ◌∷◌, ◌++◌, ok, Bool-cases, Option-cases, >>=-elim, with_tx, with_tx-ok, pure-ok, raise_if,
  raise_if-ok, ◌==◌, inl, inr, select, All, ◌&&◌, ltb, leb, arith,
}
use odyssey_erp.Common.Float.{FloatOps}
use odyssey_erp.Close.Model.{LedgerPeriodRow}
use odyssey_erp.Journals.Model.{JournalEntry, JournalLine, EntryRow, ReverseInput, Db, posted}
use odyssey_erp.Journals.Repository.{
  entry_with_id, stored_entry, is_locked, is_open, is_posted, get_journal_with_lines, to_numeric,
  get_period_for_update, get_next_open_period_after, earlier, next_open_from,
}
use odyssey_erp.Journals.Service.{
  Guard, reverse_body, reverse_journal, record_audit, reverse_lines, reversal_target,
  reversal_posting, out_of_range,
}
use odyssey_erp.Journals.Writes.{stored_lines}
use odyssey_erp.Journals.Posting.{get_period_for_update-ok, insert_posting-ok}
use odyssey_erp.Journals.Voids.{get_journal_with_lines-ok, is_posted-posted}

module _ (fl : FloatOps) where
  open fl use {Float, zero as zero_float, add}

  -- The sums of the two sides, in the order of the lines.
  unfoldable pub total_debit : Float → List (JournalLine Float) → Float
  total_debit acc [] = acc
  total_debit acc (l ∷ ls) = total_debit (add acc l.debit) ls

  unfoldable pub total_credit : Float → List (JournalLine Float) → Float
  total_credit acc [] = acc
  total_credit acc (l ∷ ls) = total_credit (add acc l.credit) ls

  -- A line that the database gave back: its amounts are what their columns hold.
  abbrev pub Stored : JournalLine Float → Type 0
  Stored l = (to_numeric fl l.debit ≡ l.debit) × (to_numeric fl l.credit ≡ l.credit)

-- The period that a search for an open one has found is open.
abbrev OpenIfAny : Option LedgerPeriodRow → Type 0
OpenIfAny none = Unit
OpenIfAny (some l) = is_open l.status ≡ true

earlier-OpenIfAny :
    (best : Option LedgerPeriodRow) (l : LedgerPeriodRow)
    → OpenIfAny best
    → is_open l.status ≡ true
    → OpenIfAny (earlier best l)
earlier-OpenIfAny none l b h = h
earlier-OpenIfAny (some x) l b h = elim (Bool-cases (ltb l.start_date x.start_date)) [
  | inl e ↦ rw e h
  | inr e ↦ rw e b
]

next_open_from-OpenIfAny :
    (date : ℕ) (best : Option LedgerPeriodRow) (ls : List LedgerPeriodRow)
    → OpenIfAny best
    → OpenIfAny (next_open_from date best ls)
unfolding next_open_from
next_open_from-OpenIfAny date best [] b = b
next_open_from-OpenIfAny date best (l ∷ ls) b =
    elim (Bool-cases (is_open l.status && leb date l.start_date)) [
      | inl e ↦ rw e (
          next_open_from-OpenIfAny date (earlier best l) ls
            (earlier-OpenIfAny best l b (ground arith)))
      | inr e ↦ rw e (next_open_from-OpenIfAny date best ls b)
    ]

get_next_open_period_after-ok :
    (fl : FloatOps) (date : ℕ) (db : Db fl.Float) {l : LedgerPeriodRow} {t : Db fl.Float}
    → get_next_open_period_after fl date db ≡ (ok l, t)
    → (is_open l.status ≡ true) × (t ≡ db)
unfolding get_next_open_period_after
get_next_open_period_after-ok fl date db h =
    let found = next_open_from-OpenIfAny date none db.close.periods tt in
    elim (Option-cases (next_open_from date none db.close.periods)) [
      | inl missing ↦ absurd (cc (rw missing at h))
      | inr (l, e) ↦
          let (el, et) = pure-ok (rw e at h) in (ap (λ x. is_open x.status) el ∙ rw e at found, et)
    ]

module _ (fl : FloatOps) (guard : Option Guard) (audited : Bool) where
  open fl use {Float, zero as zero_float, add}

  -- The lines that a reversal stores, summed, are the original's with the sides exchanged.
  reversed_totals :
      (k entry now : ℕ) (d c : Float) (ls : List (JournalLine Float))
      → All (Stored fl) ls
      → (total_debit fl d (stored_lines fl k entry now (reverse_lines fl guard audited ls))
          ≡ total_credit fl d ls)
        × (total_credit fl c (stored_lines fl k entry now (reverse_lines fl guard audited ls))
            ≡ total_debit fl c ls)
  unfolding total_debit total_credit stored_lines
  reversed_totals k entry now d c [] all = (refl, refl)
  reversed_totals k entry now d c (l ∷ ls) all =
      let (here, there) = all in
      let rest = reversed_totals (k + 1) entry now (add d l.credit) (add c l.debit) ls there in
      rw (here.0, here.1) rest

  reversal_target-ok :
      (i : ReverseInput) (original : EntryRow) (period : LedgerPeriodRow) (db : Db Float)
      {p : LedgerPeriodRow × ℕ} {t : Db Float}
      → reversal_target fl guard audited i original period db ≡ (ok p, t)
      → (is_open p.0.status ≡ true) × (t ≡ db)
  unfolding reversal_target
  reversal_target-ok i original period db h = elim (Bool-cases (is_open period.status)) [
    | inl opening ↦
        let (e, et) = pure-ok (rw opening at h) in (ap (λ p. is_open p.0.status) e ∙ opening, et)
    | inr shut ↦
        >>=-elim (raise_if (is_locked period.status && not i.override) _) _ db (rw shut at h)
          λ u s may h1.
            let (em, es) = raise_if-ok (is_locked period.status && not i.override) _ db may in
            >>=-elim (get_next_open_period_after fl (period.end_date + 1)) _ s h1 λ l s2 next h2.
              let (opening, e2) = get_next_open_period_after-ok fl (period.end_date + 1) s next in
              let (e, et) = pure-ok h2 in (ap (λ p. is_open p.0.status) e ∙ opening, et ∙ e2 ∙ es)
  ]

  -- What a reversal reports and does, as the next theorem states it.
  abbrev pub Reversed : ReverseInput → Db Float → JournalEntry Float → Db Float → Type 0
  Reversed i db e t =
      (row : EntryRow) × (l : LedgerPeriodRow) × (new : List (JournalLine Float)) × (entry_with_id
          fl i.entry_id db
        ≡ some row)
      × (row.status ≡ posted)
      × (is_open l.status ≡ true)
      × (e.entry.period_id ≡ l.id)
      × (out_of_range e.entry.date l ≡ false)
      × (t.entries ≡ db.entries ++ stored_entry fl e.entry ∷ [])
      × (t.lines ≡ db.lines ++ new)
      × (total_debit fl zero_float new
          ≡ total_credit fl zero_float (select (λ x. x.journal_id == i.entry_id) db.lines))
      × (total_credit fl zero_float new
          ≡ total_debit fl zero_float (select (λ x. x.journal_id == i.entry_id) db.lines))

  reverse_body-ok :
      (i : ReverseInput) (uuid : ℕ) (db : Db Float) {e : JournalEntry Float} {t : Db Float}
      → reverse_body fl guard audited i uuid db ≡ (ok e, t)
      → All (Stored fl) (select (λ x. x.journal_id == i.entry_id) db.lines)
      → Reversed i db e t
  unfolding reverse_body
  reverse_body-ok i uuid db {e} {t} h stored =
      >>=-elim (get_journal_with_lines fl i.entry_id) _ db h λ found s1 reading h1.
        let (ef, el, e1, known) = get_journal_with_lines-ok fl i.entry_id db reading in
        >>=-elim (raise_if (not (is_posted found.0.status)) _) _ s1 h1 λ u s2 posting h2.
          let (ep, e2) = raise_if-ok (not (is_posted found.0.status)) _ s1 posting in
          >>=-elim (get_period_for_update fl found.0.period_id) _ s2 h2 λ l s3 period h3.
            let (eper, e3) = get_period_for_update-ok fl found.0.period_id s2 period in
            >>=-elim (reversal_target fl guard audited i found.0 l) _ s3 h3 λ target s4 aiming h4.
              let (opening, e4) = reversal_target-ok i found.0 l s3 aiming in
              >>=-elim (raise_if (out_of_range target.1 target.0) _) _ s4 h4 λ u5 s5 inside h5.
                let (ei, e5) = raise_if-ok (out_of_range target.1 target.0) _ s4 inside in
                let es : s5 ≡ db = e5 ∙ e4 ∙ e3 ∙ e2 ∙ e1 in
                let input =
                  reversal_posting fl guard audited i uuid found.0 found.1 target.0 target.1 in
                let (unused, et, ee) =
                  insert_posting-ok fl guard audited (λ x. x) input db (rw es at h5) in
                let original = select (λ x. x.journal_id == i.entry_id) db.lines in
                let rows : List (JournalLine Float) → List (JournalLine Float) = λ ls.
                  stored_lines fl db.next_line db.next_entry db.clock
                    (reverse_lines fl guard audited ls) in
                let sums =
                  reversed_totals db.next_line db.next_entry db.clock zero_float zero_float original
                    stored in
                (
                  found.0,
                  target.0,
                  rows original,
                  ef,
                  is_posted-posted found.0.status (not-false _ ep),
                  opening,
                  ap (λ x. x.period_id) ee,
                  ap (λ x. out_of_range x.date target.0) ee ∙ ei,
                  ap (λ d. d.entries) et ∙ ap (λ x. db.entries ++ stored_entry fl x ∷ []) (sym ee),
                  ap (λ d. d.lines) et ∙ ap (λ ls. db.lines ++ rows ls) el,
                  sums.0,
                  sums.1,
                )

  -- A reversal that ends well found the entry posted, and adds one entry, in a period that is open and
  -- holds its date. If the amounts of the original's lines are as their columns hold them, the lines
  -- it adds have the original's credit sum as their debit sum, and the debit sum as their credit sum.
  pub reverse_journal_lem :
      (i : ReverseInput) (uuid : ℕ) (db : Db Float) {e : JournalEntry Float} {t : Db Float}
      → reverse_journal fl guard audited i uuid db ≡ (ok e, t)
      → All (Stored fl) (select (λ x. x.journal_id == i.entry_id) db.lines)
      → Reversed i db e t
  unfolding reverse_journal record_audit
  reverse_journal_lem i uuid db {e} {t} h stored = elim (Bool-cases (i.entry_id == 0)) [
    | inl bad ↦ absurd (cc (rw bad at h))
    | inr good ↦
        >>=-elim (with_tx (reverse_body fl guard audited i uuid)) _ db (rw good at h)
          λ x s reversing h1.
            let (row, l, new, found, was, opening, ep, ed, ee, el, debits, credits) =
              reverse_body-ok i uuid db
                (with_tx-ok (reverse_body fl guard audited i uuid) db reversing) stored in
            let (ex, et) = pure-ok h1 in
            let same = ap (λ j. j.entry) ex in
            (
              row,
              l,
              new,
              found,
              was,
              opening,
              ap (λ r. r.period_id) same ∙ ep,
              ap (λ r. out_of_range r.date l) same ∙ ed,
              ap (λ d. d.entries) et
                  ∙ ee
                  ∙ ap (λ r. db.entries ++ stored_entry fl r ∷ []) (sym same),
              ap (λ d. d.lines) et ∙ el,
              debits,
              credits,
            )
  ]
