-- ===== src/Journals/Sources.antt =====
-- One journal entry for each source document (internal/accounting/journals/service.go:
-- PostJournal): what a posting promises, and a second posting of the same source.
use odyssey_erp.Common.{
  ℕ, Bool, true, false, ◌&&◌, ◌≡◌, refl, sym, ap, ◌∙◌, Option, some, List, [], ◌∷◌, ◌++◌, ok, err,
  Bool-cases, Result-cases, >>=-elim, >>=-err, Action, with_tx, with_tx-ok, with_tx-err, pure-ok,
  ◌>>=◌, ◌>>◌, pure, Answer-cases, ◌==◌, ==_iff, str_eq, str_eq_iff, exists, inl, inr, String,
}
use odyssey_erp.Common.Float.{FloatOps}
use odyssey_erp.Close.Model.{LedgerPeriodRow}
use odyssey_erp.Journals.Model.{Error, PostingInput, JournalEntry, Db, validate}
use odyssey_erp.Journals.Repository.{new_entry, stored_entry, is_linked, ledger_period, is_locked}
use odyssey_erp.Journals.Service.{
  Guard, check_guard, post_body, out_of_range, post_journal, record_audit,
}
use odyssey_erp.Journals.Writes.{stored_lines}
use odyssey_erp.Journals.Posting.{post_body-ok, source_link}

exists-last :
    {A : Type 0} (p : A → Bool) (xs : List A) (x : A) → p x ≡ true → exists p (xs ++ x ∷ []) ≡ true
exists-last p [] x h = rw h refl
exists-last p (y ∷ ys) x h =
    let rest = exists-last p ys x h in
    elim (Bool-cases (p y)) [ inl h1 ↦ rw h1 refl | inr h1 ↦ rw (h1, rest) refl ]

same_source : (m : String) (k : ℕ) → (str_eq m m && k == k) ≡ true
same_source m k = rw ((str_eq_iff m m).1 refl, (==_iff k k).1 refl) refl

module _ (fl : FloatOps) (guard : Option Guard) (audited : Bool) where
  open fl use {Float}

  -- What a posting reports and does, as the next theorem states it.
  abbrev pub Posted : PostingInput Float → Db Float → JournalEntry Float → Db Float → Type 0
  Posted i db e t =
      (validate fl i ≡ ok tt)
      × (check_guard fl guard audited i.period_id db ≡ (ok tt, record db { close = t.close }))
      × (is_linked fl i.source_module i.source_id db ≡ false)
      × (is_linked fl i.source_module i.source_id t ≡ true)
      × (e.entry ≡ new_entry fl i db)
      × (t.entries ≡ db.entries ++ stored_entry fl (new_entry fl i db) ∷ [])
      × (t.lines ≡ db.lines ++ stored_lines fl db.next_line db.next_entry db.clock i.lines)
      × (l : LedgerPeriodRow) × (ledger_period fl i.period_id t ≡ some l)
      × (is_locked l.status ≡ false)
      × (out_of_range i.date l ≡ false)

  abbrev checked_input : PostingInput Float → Action (Db Float) Error (Unit {0})
  checked_input i db = (validate fl i, db)

  validated :
      (i : PostingInput Float) (db : Db Float) {u : Unit {0}} {s : Db Float}
      → checked_input i db ≡ (ok u, s)
      → (validate fl i ≡ ok tt) × (s ≡ db)
  validated i db h = (ap (λ x. x.0) h, sym (ap (λ x. x.1) h))

  -- A posting that ends well had a valid input whose source no entry was posted for, a guard that let
  -- it pass, and a period that is not locked and holds the date. It adds the entry, with its lines, to the tables, and the
  -- source is linked from then on.
  pub post_journal_lem :
      (i : PostingInput Float) (db : Db Float) {e : JournalEntry Float} {t : Db Float}
      → post_journal fl guard audited i db ≡ (ok e, t)
      → Posted i db e t
  unfolding post_journal record_audit
  post_journal_lem i db {e} {t} h = >>=-elim (checked_input i) _ db h λ u s checked h1.
      >>=-elim (with_tx (post_body fl guard audited i)) _ s h1 λ e2 s2 posting h2.
        let (valid, es) = validated i db checked in
        let (c, l, guarded, unused, et, ee, row, unlocked, inside) =
          post_body-ok fl guard audited i db
            (with_tx-ok (post_body fl guard audited i) db (rw es at posting)) in
        let (e3, et3) = pure-ok h2 in
        let linked : is_linked fl i.source_module i.source_id t ≡ true =
          rw (ap (λ d. d.links) et3 ∙ ap (λ d. d.links) et) (
            exists-last _ db.links (source_link fl i db.next_entry)
              (same_source i.source_module i.source_id)) in
        (
          valid,
          rw (ap (λ d. d.close) et3 ∙ ap (λ d. d.close) et) guarded,
          unused,
          linked,
          ap (λ j. j.entry) e3 ∙ ee,
          ap (λ d. d.entries) et3 ∙ ap (λ d. d.entries) et,
          ap (λ d. d.lines) et3 ∙ ap (λ d. d.lines) et,
          l,
          ap (λ d. ledger_period fl i.period_id d) et3 ∙ row,
          unlocked,
          inside,
        )

  audit-ok :
      (actor : ℕ) (action : String) (k : ℕ) (e : JournalEntry Float) (s : Db Float) (x : Error)
      (t : Db Float)
      → ¬ ((record_audit fl guard audited actor action k >> pure e) s ≡ (err x, t))
  unfolding record_audit
  audit-ok actor action k e s x t h = cc

  -- A transaction and the audit record of what it did.
  pub recorded_atomic :
      {A : Type 0} (m : Action (Db Float) Error A) (actor : ℕ) (action : String) (k : A → ℕ)
      (g : A → JournalEntry Float) (db : Db Float) {x : Error} {t : Db Float}
      → (with_tx m >>= λ a. record_audit fl guard audited actor action (k a) >> pure (g a)) db
        ≡ (err x, t)
      → t ≡ db
  recorded_atomic m actor action k g db h = elim (>>=-err (with_tx m) _ db h) [
    | inl refused ↦ with_tx-err m db refused
    | inr (a, s, h1, h2) ↦ absurd (audit-ok actor action (k a) (g a) s _ _ h2)
  ]

  pub post_journal_atomic :
      (i : PostingInput Float) (db : Db Float) {x : Error} {t : Db Float}
      → post_journal fl guard audited i db ≡ (err x, t)
      → t ≡ db
  unfolding post_journal
  post_journal_atomic i db h = elim (Result-cases (validate fl i)) [
    | inr (y, bad) ↦ cc (rw bad at h)
    | inl (u, good) ↦
        recorded_atomic (post_body fl guard audited i) i.posted_by "journal.post" (λ e. e.id)
          (λ e. e) db (rw good at h)
  ]

  -- A second posting of a source, whatever else it says, is refused and writes nothing.
  pub post_journal_once :
      (i j : PostingInput Float) (db : Db Float) {e : JournalEntry Float} {t : Db Float}
      → post_journal fl guard audited i db ≡ (ok e, t)
      → j.source_module ≡ i.source_module
      → j.source_id ≡ i.source_id
      → (x : Error) × (post_journal fl guard audited j t ≡ (err x, t))
  post_journal_once i j db {e} {t} h em ek =
      let first = post_journal_lem i db h in
      elim (Answer-cases (post_journal fl guard audited j t)) [
        | inl (e2, t2, again) ↦
            let second = post_journal_lem j t again in
            absurd (cc (first.3, rw (em, ek) at second.2))
        | inr (x, t2, refused) ↦
            (x, refused ∙ ap (λ d. (err x, d)) (post_journal_atomic j t refused))
      ]
