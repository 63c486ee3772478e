-- ===== src/Journals/Posting.antt =====
-- What a posting and a reversal that end well have tested and written
-- (internal/accounting/journals/service.go: PostJournal, ReverseJournal).
use odyssey_erp.Common.{
  ℕ, ◌+◌, Bool, false, ◌≡◌, ap, ◌∙◌, Option, some, [], ◌∷◌, ◌++◌, find, pure-ok, inl, inr, ok,
  Bool-cases, Option-cases, >>=-elim, raise_if, raise_if-ok, ◌==◌,
}
use odyssey_erp.Common.Float.{FloatOps}
use odyssey_erp.Close.Model as Close
use odyssey_erp.Close.Model.{LedgerPeriodRow}
use odyssey_erp.Journals.Model.{Error, PostingInput, JournalEntry, Db, SourceLink}
use odyssey_erp.Journals.Repository.{
  insert_journal_entry, link_source, new_entry, stored_entry, is_linked, ledger_period,
  get_period_for_update, is_locked,
}
use odyssey_erp.Journals.Service.{
  Guard, check_guard, insert_posting, map_err, post_body, out_of_range, link_error,
}
use odyssey_erp.Journals.Writes.{check_guard-ok, with_lines, insert_journal_lines_result}

module _ (fl : FloatOps) where
  open fl use {Float}

  abbrev pub source_link : PostingInput Float → ℕ → SourceLink
  source_link i entry = record {
    module_name = i.source_module;
    ref_id = i.source_id;
    je_id = entry;
  }

  -- The tables after the entry `i`, when the guard has left the tables `c`.
  abbrev pub with_posting : PostingInput Float → Close.Db → Db Float → Db Float
  with_posting i c db = record (with_lines fl db.next_entry i.lines db) {
    close = c;
    entries = db.entries ++ stored_entry fl (new_entry fl i db) ∷ [];
    next_entry = db.next_entry + 1;
    next_number = db.next_number + 1;
    links = db.links ++ source_link i db.next_entry ∷ [];
  }

  abbrev with_entry : PostingInput Float → Db Float → Db Float
  with_entry i db = record db {
    entries = db.entries ++ stored_entry fl (new_entry fl i db) ∷ [];
    next_entry = db.next_entry + 1;
    next_number = db.next_number + 1;
  }

  link_source-ok :
      (f : Error → Error) (m : PostingInput Float) (entry : ℕ) (db : Db Float) {u : Unit {0}}
      {t : Db Float}
      → map_err f (link_source fl m.source_module m.source_id entry db) ≡ (ok u, t)
      → (is_linked fl m.source_module m.source_id db ≡ false)
        × (t ≡ record db { links = db.links ++ source_link m entry ∷ [] })
  unfolding link_source
  link_source-ok f m entry db h = elim (Bool-cases (is_linked fl m.source_module m.source_id db)) [
    | inl linked ↦ absurd (cc (rw linked at h))
    | inr unused ↦ (unused, cc (rw unused at h))
  ]

  pub insert_posting-ok :
      (guard : Option Guard) (audited : Bool) (f : Error → Error) (i : PostingInput Float)
      (db : Db Float) {e : JournalEntry Float} {t : Db Float}
      → insert_posting fl guard audited f i db ≡ (ok e, t)
      → (is_linked fl i.source_module i.source_id db ≡ false)
        × (t ≡ with_posting i db.close db)
        × (e.entry ≡ new_entry fl i db)
  unfolding insert_posting insert_journal_entry
  insert_posting-ok guard audited f i db h =
      let db1 = with_entry i db in
      let db2 = with_lines fl db.next_entry i.lines db1 in
      >>=-elim (λ d. map_err f (link_source fl i.source_module i.source_id db.next_entry d)) _ db2
        (rw (insert_journal_lines_result fl db.next_entry i.lines db1) at h)
        λ u s linked rest.
          let (unused, es) = link_source-ok f i db.next_entry db2 linked in
          let (ee, et) = pure-ok rest in (unused, et ∙ es, ap (λ j. j.entry) ee)

  pub get_period_for_update-ok :
      (k : ℕ) (db : Db Float) {l : LedgerPeriodRow} {t : Db Float}
      → get_period_for_update fl k db ≡ (ok l, t)
      → (ledger_period fl k db ≡ some l) × (t ≡ db)
  unfolding get_period_for_update
  get_period_for_update-ok k db h = elim (Option-cases (ledger_period fl k db)) [
    | inl missing ↦ absurd (cc (rw missing at h))
    | inr (l, found) ↦ let (e, et) = pure-ok (rw found at h) in (cc, et)
  ]

  -- What the body of `PostJournal` has tested and written when it ends well.
  pub post_body-ok :
      (guard : Option Guard) (audited : Bool) (i : PostingInput Float) (db : Db Float)
      {e : JournalEntry Float} {t : Db Float}
      → post_body fl guard audited i db ≡ (ok e, t)
      → (c : Close.Db) × (l : LedgerPeriodRow) × (check_guard fl guard audited i.period_id db
          ≡ (ok tt, record db { close = c }))
        × (is_linked fl i.source_module i.source_id db ≡ false)
        × (t ≡ with_posting i c db)
        × (e.entry ≡ new_entry fl i db)
        × (ledger_period fl i.period_id t ≡ some l)
        × (is_locked l.status ≡ false)
        × (out_of_range i.date l ≡ false)
  unfolding post_body
  post_body-ok guard audited i db {e} {t} h =
      >>=-elim (check_guard fl guard audited i.period_id) _ db h λ u s guarded h1.
        let (c, es) = check_guard-ok fl guard audited i.period_id db guarded in
        >>=-elim (get_period_for_update fl i.period_id) _ s h1 λ l s2 found h2.
          >>=-elim (raise_if (is_locked l.status) _) _ s2 h2 λ u2 s3 unlocked h3.
            >>=-elim (raise_if (out_of_range i.date l) _) _ s3 h3 λ u3 s4 inside h4.
              let (fl1, e2) = get_period_for_update-ok i.period_id s found in
              let (open1, e3) = raise_if-ok (is_locked l.status) _ s2 unlocked in
              let (in1, e4) = raise_if-ok (out_of_range i.date l) _ s3 inside in
              let d : Db Float = record db { close = c } in
              let ed : s4 ≡ d = e4 ∙ e3 ∙ e2 ∙ es in
              let (unused, et, ee) = insert_posting-ok guard audited link_error i d (rw ed at h4) in
              let row : find (λ x. x.id == i.period_id) c.periods ≡ some l = rw es at fl1 in
              (c, l, guarded ∙ ap (λ d. (ok tt, d)) es, unused, et, ee, rw et row, open1, in1)
