-- ===== src/Journals/Voids.antt =====
-- Voiding (internal/accounting/journals/service.go: VoidJournal): what a void tests and writes, and
-- that a void entry stays so.
use odyssey_erp.Common.{
  not-false, ℕ, Bool, true, false, not, ◌≡◌, refl, sym, subst, ap, ◌∙◌, Option, some, List, ok, err,
  Bool-cases, Option-cases, >>=-elim, with_tx, with_tx-ok, pure-ok, raise_if, raise_if-ok, ◌==◌,
  ==_iff, find-holds, inl, inr, update, find, select, exists, find-update,
}
use odyssey_erp.Common.Float.{FloatOps}
use odyssey_erp.Close.Model.{LedgerPeriodRow, LedgerStatus, opened, closed, locked}
use odyssey_erp.Journals.Model.{
  JournalEntry, JournalLine, EntryRow, VoidInput, ReverseInput, Db, AuditLog, JournalStatus, void,
  posted, invalid_status, scan_failed,
}
use odyssey_erp.Journals.Repository.{
  entry_with_id, ledger_period, is_locked, is_open, is_posted, get_journal_with_lines,
  update_journal_status, get_period_for_update,
}
use odyssey_erp.Journals.Service.{
  Guard, void_body, void_journal, reverse_body, reverse_journal, record_audit,
}
use odyssey_erp.Journals.Posting.{get_period_for_update-ok}

pub is_posted-posted : (s : JournalStatus) → is_posted s ≡ true → s ≡ posted
is_posted-posted posted h = refl
is_posted-posted void h = absurd (cc h)

is_open-opened : (s : LedgerStatus) → is_open s ≡ true → s ≡ opened
is_open-opened opened h = refl
is_open-opened closed h = absurd (cc h)
is_open-opened locked h = absurd (cc h)

-- A state that differs in its audit records only.
audits_apart :
    {F : Type 0} {s u t : Db F} {a : List AuditLog}
    → t ≡ record s { audits = a }
    → s ≡ u
    → t ≡ record u { audits = t.audits }
audits_apart et es = cc

module _ (fl : FloatOps) where
  open fl use {Float}

  pub get_journal_with_lines-ok :
      (k : ℕ) (db : Db Float) {p : EntryRow × List (JournalLine Float)} {t : Db Float}
      → get_journal_with_lines fl k db ≡ (ok p, t)
      → (entry_with_id fl k db ≡ some p.0)
        × (p.1 ≡ select (λ l. l.journal_id == k) db.lines)
        × (t ≡ db)
        × ((p.0.posted_by == 0) ≡ false)
  unfolding get_journal_with_lines
  get_journal_with_lines-ok k db h = elim (Option-cases (entry_with_id fl k db)) [
    | inl missing ↦ absurd (cc (rw missing at h))
    | inr (row, found) ↦ elim (Bool-cases (row.posted_by == 0)) [
      | inl unknown ↦ absurd (cc (rw (found, unknown) at h))
      | inr known ↦
          let (e, et) = pure-ok (rw (found, known) at h) in
          (
            found ∙ ap (λ p. some p.0) (sym e),
            ap (λ p. p.1) e,
            et,
            ap (λ p. p.0.posted_by == 0) e ∙ known,
          )
    ]
  ]

  pub get_journal_with_lines_found :
      (k : ℕ) (db : Db Float) (row : EntryRow)
      → entry_with_id fl k db ≡ some row
      → (row.posted_by == 0) ≡ false
      → get_journal_with_lines fl k db ≡ (ok (row, select (λ l. l.journal_id == k) db.lines), db)
  unfolding get_journal_with_lines
  get_journal_with_lines_found k db row e known = rw (e, known) refl

  get_period_for_update_found :
      (k : ℕ) (db : Db Float) (l : LedgerPeriodRow)
      → ledger_period fl k db ≡ some l
      → get_period_for_update fl k db ≡ (ok l, db)
  unfolding get_period_for_update
  get_period_for_update_found k db l e = rw e refl

  abbrev with_status_void : ℕ → Db Float → Db Float
  with_status_void k db = record db {
    entries =
        update (λ e. e.id == k) (λ e. record e { status = void; updated_at = db.clock }) db.entries;
  }

  void_row :
      (k : ℕ) (db : Db Float) (row : EntryRow)
      → entry_with_id fl k db ≡ some row
      → entry_with_id fl k (with_status_void row.id db)
        ≡ some (record row { status = void; updated_at = db.clock })
  void_row k db row found =
      let same : row.id ≡ k = (==_iff row.id k).0 (find-holds (λ e. e.id == k) db.entries found) in
      subst
        (λ n.
          entry_with_id fl k (with_status_void n db)
          ≡ some (record row { status = void; updated_at = db.clock }))
        (sym same) (find-update (λ e. e.id == k) _ db.entries (λ e. refl) found)

  update_journal_status-ok :
      (k : ℕ) (db : Db Float) {u : Unit {0}} {t : Db Float}
      → update_journal_status fl k void db ≡ (ok u, t)
      → t ≡ with_status_void k db
  unfolding update_journal_status
  update_journal_status-ok k db h = elim (Bool-cases (not (exists (λ e. e.id == k) db.entries))) [
    | inl missing ↦ absurd (cc (rw missing at h))
    | inr there ↦ cc (rw there at h)
  ]

  void_body-ok :
      (guard : Option Guard) (audited : Bool) (i : VoidInput) (db : Db Float)
      {p : EntryRow × List (JournalLine Float)} {t : Db Float}
      → void_body fl guard audited i db ≡ (ok p, t)
      → (row : EntryRow) × (l : LedgerPeriodRow) × (entry_with_id fl i.entry_id db ≡ some row)
        × (is_posted row.status ≡ true)
        × (ledger_period fl row.period_id db ≡ some l)
        × (is_open l.status ≡ true)
        × (t ≡ with_status_void row.id db)
        × (p.0 ≡ record row { status = void })
        × ((row.posted_by == 0) ≡ false)
  unfolding void_body
  void_body-ok guard audited i db h =
      >>=-elim (get_journal_with_lines fl i.entry_id) _ db h λ found s1 reading h1.
        let (ef, el, e1, known) = get_journal_with_lines-ok i.entry_id db reading in
        >>=-elim (get_period_for_update fl found.0.period_id) _ s1 h1 λ l s2 period h2.
          let (eper, e2) = get_period_for_update-ok fl found.0.period_id s1 period in
          >>=-elim (raise_if (is_locked l.status) _) _ s2 h2 λ u s3 unlocked h3.
            let (en, e3) = raise_if-ok (is_locked l.status) _ s2 unlocked in
            >>=-elim (raise_if (not (is_open l.status)) _) _ s3 h3 λ u4 s4 opening h4.
              let (eo, e4) = raise_if-ok (not (is_open l.status)) _ s3 opening in
              >>=-elim (raise_if (not (is_posted found.0.status)) _) _ s4 h4 λ u5 s5 posting h5.
                let (ep, e5) = raise_if-ok (not (is_posted found.0.status)) _ s4 posting in
                >>=-elim (update_journal_status fl found.0.id void) _ s5 h5 λ u6 s6 writing h6.
                  let (er, et) = pure-ok h6 in
                  let e0 : s5 ≡ db = e5 ∙ e4 ∙ e3 ∙ e2 ∙ e1 in
                  (
                    found.0,
                    l,
                    ef,
                    not-false _ ep,
                    rw e1 at eper,
                    not-false _ eo,
                    et
                        ∙ update_journal_status-ok found.0.id s5 writing
                        ∙ ap (with_status_void found.0.id) e0,
                    ap (λ x. x.0) er,
                    known,
                  )

-- What a void reports and does, as the next theorem states it.
abbrev pub Voided :
    (fl : FloatOps) → VoidInput → Db fl.Float → JournalEntry fl.Float → Db fl.Float → Type 0
Voided fl i db e t =
    (row : EntryRow) × (l : LedgerPeriodRow) × (entry_with_id fl i.entry_id db ≡ some row)
    × (row.status ≡ posted)
    × (ledger_period fl row.period_id db ≡ some l)
    × (l.status ≡ opened)
    × (e.entry ≡ record row { status = void })
    × (t.close ≡ db.close)
    × (entry_with_id fl i.entry_id t ≡ some (record row { status = void; updated_at = db.clock }))
    × (t.entries
        ≡ update (λ x. x.id == i.entry_id) (λ x. record x { status = void; updated_at = db.clock })
            db.entries)
    × (t.lines ≡ db.lines)
    × (t.links ≡ db.links)
    × ((row.posted_by == 0) ≡ false)

module _ (fl : FloatOps) (guard : Option Guard) (audited : Bool) where
  open fl use {Float}

  -- A void that ends well found the entry posted, by an actor, in a period that is open. Afterwards the entry has
  -- the status void and every other entry is as it was, and no line, no source link and no table of the period close has changed.
  pub void_journal_lem :
      (i : VoidInput) (db : Db Float) {e : JournalEntry Float} {t : Db Float}
      → void_journal fl guard audited i db ≡ (ok e, t)
      → Voided fl i db e t
  unfolding void_journal record_audit
  void_journal_lem i db {e} {t} h = elim (Bool-cases (i.entry_id == 0)) [
    | inl bad ↦ absurd (cc (rw bad at h))
    | inr good ↦
        >>=-elim (with_tx (void_body fl guard audited i)) _ db (rw good at h) λ p s voiding h1.
          let (row, l, found, was, period, open1, es, ep, known) =
            void_body-ok fl guard audited i db
              (with_tx-ok (void_body fl guard audited i) db voiding) in
          let (ej, et) = pure-ok h1 in
          let into : t ≡ record (with_status_void fl row.id db) { audits = t.audits } =
            audits_apart et es in
          (
            row,
            l,
            found,
            is_posted-posted row.status was,
            period,
            is_open-opened l.status open1,
            ap (λ j. j.entry) ej ∙ ep,
            ap (λ d. d.close) into,
            ap (λ d. entry_with_id fl i.entry_id d) into ∙ void_row fl i.entry_id db row found,
            ap (λ d. d.entries) into
                ∙ ap (λ k. (with_status_void fl k db).entries)
                    ((==_iff row.id i.entry_id).0
                      (find-holds (λ x. x.id == i.entry_id) db.entries found)),
            ap (λ d. d.lines) into,
            ap (λ d. d.links) into,
            known,
          )
  ]

  -- A void entry in an open period is not voided again.
  void_refused :
      (i : VoidInput) (db : Db Float) (row : EntryRow) (l : LedgerPeriodRow)
      → (i.entry_id == 0) ≡ false
      → entry_with_id fl i.entry_id db ≡ some row
      → (row.posted_by == 0) ≡ false
      → row.status ≡ void
      → ledger_period fl row.period_id db ≡ some l
      → l.status ≡ opened
      → void_journal fl guard audited i db ≡ (err invalid_status, db)
  unfolding void_journal void_body
  void_refused i db row l good found known was period opening =
      rw
        (
          good,
          get_journal_with_lines_found fl i.entry_id db row found known,
          get_period_for_update_found fl row.period_id db l period,
          opening,
          was,
        )
        refl

  -- Nor reversed, whatever its period.
  reverse_refused :
      (i : ReverseInput) (uuid : ℕ) (db : Db Float) (row : EntryRow)
      → (i.entry_id == 0) ≡ false
      → entry_with_id fl i.entry_id db ≡ some row
      → (row.posted_by == 0) ≡ false
      → row.status ≡ void
      → reverse_journal fl guard audited i uuid db ≡ (err invalid_status, db)
  unfolding reverse_journal reverse_body
  reverse_refused i uuid db row good found known was =
      rw (good, get_journal_with_lines_found fl i.entry_id db row found known, was) refl

  void_journal_id :
      (i : VoidInput) (db : Db Float) {e : JournalEntry Float} {t : Db Float}
      → void_journal fl guard audited i db ≡ (ok e, t)
      → (i.entry_id == 0) ≡ false
  unfolding void_journal
  void_journal_id i db h = elim (Bool-cases (i.entry_id == 0)) [
    | inl bad ↦ absurd (cc (rw bad at h))
    | inr good ↦ good
  ]

  -- After a void that ends well, to void the entry again or to reverse it is refused, by whomever and
  -- with whatever options, as an invalid status; nothing is written.
  pub void_journal_final :
      (i j : VoidInput) (r : ReverseInput) (uuid : ℕ) (db : Db Float) {e : JournalEntry Float}
      {t : Db Float}
      → void_journal fl guard audited i db ≡ (ok e, t)
      → j.entry_id ≡ i.entry_id
      → r.entry_id ≡ i.entry_id
      → (void_journal fl guard audited j t ≡ (err invalid_status, t))
        × (reverse_journal fl guard audited r uuid t ≡ (err invalid_status, t))
  void_journal_final i j r uuid db {e} {t} h ej er =
      let good = void_journal_id i db h in
      let (row, l, found, was, period, opening, ee, ec, after, en, el, ek, known) =
        void_journal_lem i db h in
      let row' : EntryRow = record row { status = void; updated_at = db.clock } in
      (
        void_refused j t row' l (rw ej good) (rw ej after) known refl
            (ap (λ c. find (λ x. x.id == row.period_id) c.periods) ec ∙ period) opening,
        reverse_refused r uuid t row' (rw er good) (rw er after) known refl,
      )

  unknown_poster :
      (k : ℕ) (db : Db Float) (row : EntryRow)
      → entry_with_id fl k db ≡ some row
      → row.posted_by ≡ 0
      → get_journal_with_lines fl k db ≡ (err scan_failed, db)
  unfolding get_journal_with_lines
  unknown_poster k db row found nobody = rw (found, nobody) refl

  -- An entry that was posted without an actor can be neither voided nor reversed: both calls fail on
  -- reading the poster, whatever the entry's status and period, and write nothing.
  pub unknown_poster_lem :
      (i : VoidInput) (r : ReverseInput) (uuid : ℕ) (db : Db Float) (row : EntryRow)
      → (i.entry_id == 0) ≡ false
      → r.entry_id ≡ i.entry_id
      → entry_with_id fl i.entry_id db ≡ some row
      → row.posted_by ≡ 0
      → (void_journal fl guard audited i db ≡ (err scan_failed, db))
        × (reverse_journal fl guard audited r uuid db ≡ (err scan_failed, db))
  unfolding void_journal void_body reverse_journal reverse_body
  unknown_poster_lem i r uuid db row good same found nobody =
      let unread = unknown_poster i.entry_id db row found nobody in
      (rw (good, unread) refl, rw (same, good, unread) refl)
