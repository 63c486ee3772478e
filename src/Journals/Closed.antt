-- ===== src/Journals/Closed.antt =====
-- The journals and the period close together (internal/accounting/journals/service.go: PostJournal;
-- internal/close/service.go: HardClose, EnsurePeriodOpenForPosting): a hard close stops postings.
use odyssey_erp.Common.{
  ℕ, Bool, true, false, ◌≡◌, refl, sym, subst, ap, ◌∙◌, Option, none, some, ok, err, Bool-cases,
  Option-cases, inl, inr, Result, find, find-mem, ◌==◌, ==_iff, find-holds, Answer-cases,
}
use mathlib.Core.List.{Memᴰ}
use odyssey_erp.Common.Float.{FloatOps}
use odyssey_erp.Close.Model as Close
use odyssey_erp.Close.Model.{Period, hard_closed, LedgerPeriodRow, AccountingPeriodRow, RunRow}
use odyssey_erp.Close.Periods.{
  load_period_by_ledger_id, map_period, set_period_status, int8_from_int64, legacy_status,
}
use odyssey_erp.Close.Service.{is_hard_closed, hard_close, ensure_period_open_for_posting}
use odyssey_erp.Close.Invariant.{IsValid}
use odyssey_erp.Close.Calls.{hard_close-IsValid}
use odyssey_erp.Close.Promises.{hard_close_lem}
use odyssey_erp.Journals.Model.{Error, PostingInput, Db}
use odyssey_erp.Journals.Repository.{is_locked}
use odyssey_erp.Journals.Service.{Guard, check_guard, map_err, guard_error, post_journal}
use odyssey_erp.Journals.Sources.{post_journal_lem, post_journal_atomic}

-- The guard of a service: the close service, or none.
abbrev pub service_guard : Bool → Option Guard
service_guard true = some ensure_period_open_for_posting
service_guard false = none

ensure_reads : (k : ℕ) (c : Close.Db) → (ensure_period_open_for_posting k c).1 ≡ c
unfolding ensure_period_open_for_posting load_period_by_ledger_id map_period
ensure_reads k c = elim (Option-cases (find (λ x. x.period_id == k) c.accounting_periods)) [
  | inl missing ↦ rw missing refl
  | inr (a, found) ↦ elim (Bool-cases (is_hard_closed a.status)) [
    | inl e ↦ rw (found, e) refl
    | inr e ↦ rw (found, e) refl
  ]
]

map_err_state : {S E D A : Type 0} (f : E → D) (r : Result E A × S) → (map_err f r).1 ≡ r.1
map_err_state f (ok a, s) = refl
map_err_state f (err e, s) = refl

-- A guard that let a posting pass has not changed the tables.
pub guard_keeps :
    (fl : FloatOps) (guarded audited : Bool) (k : ℕ) (db : Db fl.Float) {c : Close.Db}
    → check_guard fl (service_guard guarded) audited k db ≡ (ok tt, record db { close = c })
    → c ≡ db.close
unfolding check_guard
guard_keeps fl false audited k db h = sym (ap (λ x. x.1.close) h)
guard_keeps fl true audited k db h =
    ap (λ x. x.1.close) (sym h)
    ∙ (map_err_state guard_error (ensure_period_open_for_posting k db.close)
        ∙ ensure_reads k db.close)

-- No posting into the ledger period of an accounting period that is hard closed ends well.
closed_refuses :
    (fl : FloatOps) (guarded audited : Bool) (i : PostingInput fl.Float) (db : Db fl.Float)
    (a : AccountingPeriodRow)
    → IsValid db.close
    → Memᴰ a db.close.accounting_periods
    → a.status ≡ hard_closed
    → i.period_id ≡ a.period_id
    → (x : Error) × (post_journal fl (service_guard guarded) audited i db ≡ (err x, db))
closed_refuses fl guarded audited i db a valid m hard same =
    let guard = service_guard guarded in
    elim (Answer-cases (post_journal fl guard audited i db)) [
      | inr (x, t, refused) ↦
          (x, refused ∙ ap (λ d. (err x, d)) (post_journal_atomic fl guard audited i db refused))
      | inl (e, t, ends) ↦
          let p = post_journal_lem fl guard audited i db ends in
          let l = p.7 in
          let kept : t.close ≡ db.close = guard_keeps fl guarded audited i.period_id db p.1 in
          let there : find (λ x. x.id == i.period_id) db.close.periods ≡ some l = rw kept at p.8 in
          let owner : l.id ≡ a.period_id =
            (==_iff l.id i.period_id).0 (find-holds _ db.close.periods there) ∙ same in
          let status = valid.in_sync a l m (find-mem _ db.close.periods there) owner in
          let clash : false ≡ true =
            sym p.9 ∙ ap is_locked status ∙ ap (λ s. is_locked (legacy_status s)) hard in
          absurd (cc clash)
    ]

-- After a hard close of a period in consistent tables, a posting into that period's ledger row is
-- refused and writes nothing, whether or not the journal service has the close service as its guard.
pub hard_close_stops_posting :
    (fl : FloatOps) (guarded audited : Bool) (run_id actor : ℕ) (db : Db fl.Float) {p : Period}
    {c : Close.Db} (i : PostingInput fl.Float)
    → IsValid db.close
    → hard_close run_id actor db.close ≡ (ok p, c)
    → i.period_id ≡ p.period_id
    → (x : Error) × (post_journal fl (service_guard guarded) audited i (record db { close = c })
        ≡ (err x, record db { close = c }))
hard_close_stops_posting fl guarded audited run_id actor db {p} {c} i valid h same =
    let q = hard_close_lem run_id actor db.close h in
    closed_refuses fl guarded audited i (record db { close = c })
      (set_period_status hard_closed (int8_from_int64 actor) db.close.clock q.2)
      (subst IsValid (ap (λ x. x.1) h) (hard_close-IsValid run_id actor db.close valid))
      (find-mem _ c.accounting_periods q.7) refl (same ∙ q.10)
