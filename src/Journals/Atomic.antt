-- ===== src/Journals/Atomic.antt =====
-- The calls of the journal service that end in an error (internal/accounting/journals/service.go).
use odyssey_erp.Common.{ℕ, Bool, ◌≡◌, Option, err, Bool-cases, Action, ◌==◌, inl, inr}
use odyssey_erp.Common.Float.{FloatOps}
use odyssey_erp.Journals.Model.{Error, JournalEntry, PostingInput, VoidInput, ReverseInput, Db}
use odyssey_erp.Journals.Service.{
  Guard, post_journal, void_body, void_journal, reverse_body, reverse_journal,
}
use odyssey_erp.Journals.Sources.{recorded_atomic, post_journal_atomic}

-- The calls of the journal service.
pub data Request (F : Type 0) : Type 0 where
  posting : PostingInput F → Request F
  voiding : VoidInput → Request F
  reversing : ReverseInput → ℕ → Request F

module _ (fl : FloatOps) (guard : Option Guard) (audited : Bool) where
  open fl use {Float}

  void_journal_atomic :
      (i : VoidInput) (db : Db Float) {x : Error} {t : Db Float}
      → void_journal fl guard audited i db ≡ (err x, t)
      → t ≡ db
  unfolding void_journal
  void_journal_atomic i db h = elim (Bool-cases (i.entry_id == 0)) [
    | inl bad ↦ cc (rw bad at h)
    | inr good ↦
        recorded_atomic fl guard audited (void_body fl guard audited i) i.actor_id "journal.void"
          (λ p. p.0.id) (λ p. record { entry = p.0; lines = p.1 }) db (rw good at h)
  ]

  reverse_journal_atomic :
      (i : ReverseInput) (uuid : ℕ) (db : Db Float) {x : Error} {t : Db Float}
      → reverse_journal fl guard audited i uuid db ≡ (err x, t)
      → t ≡ db
  unfolding reverse_journal
  reverse_journal_atomic i uuid db h = elim (Bool-cases (i.entry_id == 0)) [
    | inl bad ↦ cc (rw bad at h)
    | inr good ↦
        recorded_atomic fl guard audited (reverse_body fl guard audited i uuid) i.actor_id
          "journal.reverse" (λ e. i.entry_id) (λ e. e) db (rw good at h)
  ]

  abbrev pub answer : Request Float → Action (Db Float) Error (JournalEntry Float)
  answer (posting i) = post_journal fl guard audited i
  answer (voiding i) = void_journal fl guard audited i
  answer (reversing i uuid) = reverse_journal fl guard audited i uuid

  -- A call of the journal service that ends in an error, of whatever kind, leaves every table as it
  -- was: no entry, line, link or audit record is written, and no status changed.
  pub answer_atomic :
      (q : Request Float) (db : Db Float) (x : Error) (t : Db Float)
      → answer q db ≡ (err x, t)
      → t ≡ db
  answer_atomic (posting i) db x t h = post_journal_atomic fl guard audited i db h
  answer_atomic (voiding i) db x t h = void_journal_atomic i db h
  answer_atomic (reversing i uuid) db x t h = reverse_journal_atomic i uuid db h
