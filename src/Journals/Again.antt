-- ===== src/Journals/Again.antt =====
-- A second posting of a source (internal/accounting/journals/service.go: PostJournal): the error it ends in.
use odyssey_erp.Common.{ℕ, Bool, true, false, ◌≡◌, refl, ap, ◌∙◌, ok, err, Result}
use odyssey_erp.Common.Float.{FloatOps}
use odyssey_erp.Close.Model as Close
use odyssey_erp.Close.Service.{ensure_period_open_for_posting}
use odyssey_erp.Journals.Model.{Error, unique_violation, PostingInput, JournalEntry, Db}
use odyssey_erp.Journals.Repository.{insert_journal_entry, link_source, get_period_for_update}
use odyssey_erp.Journals.Service.{
  check_guard, map_err, guard_error, insert_posting, post_body, post_journal,
}
use odyssey_erp.Journals.Writes.{insert_journal_lines_result}
use odyssey_erp.Journals.Sources.{post_journal_lem}
use odyssey_erp.Journals.Closed.{service_guard, guard_keeps}

abbrev answer_on :
    {F : Type 0} → Db F → Result Error (Unit {0}) × Close.Db → Result Error (Unit {0}) × Db F
answer_on db (r, c) = (r, record db { close = c })

-- The guard looks at the tables of the period close only.
check_guard-same :
    (fl : FloatOps) (guarded audited : Bool) (k : ℕ) (db t : Db fl.Float) {c : Close.Db}
    → t.close ≡ db.close
    → check_guard fl (service_guard guarded) audited k db ≡ (ok tt, record db { close = c })
    → check_guard fl (service_guard guarded) audited k t ≡ (ok tt, record t { close = c })
unfolding check_guard
check_guard-same fl false audited k db t same h =
    ap (λ (c : Close.Db). (ok tt, record t { close = c })) (same ∙ ap (λ x. x.1.close) h)
check_guard-same fl true audited k db t same h =
    ap (λ (x : Close.Db). answer_on t (map_err guard_error (ensure_period_open_for_posting k x)))
      same
    ∙ ap (λ (x : Result Error (Unit {0}) × Db fl.Float). answer_on t (x.0, x.1.close)) h

module _ (fl : FloatOps) (guarded audited : Bool) where
  open fl use {Float}

  pub post_journal_again :
      (i : PostingInput Float) (db : Db Float) {e : JournalEntry Float} {t : Db Float}
      → post_journal fl (service_guard guarded) audited i db ≡ (ok e, t)
      → (t.close ≡ db.close)
        × (post_journal fl (service_guard guarded) audited i t ≡ (err unique_violation, t))
  unfolding post_journal post_body get_period_for_update insert_posting insert_journal_entry
      link_source
  post_journal_again i db {e} {t} h =
      let (valid, guard_ok, unused, linked, ee, et, el, l, row, unlocked, inside) =
        post_journal_lem fl (service_guard guarded) audited i db h in
      let same = guard_keeps fl guarded audited i.period_id db guard_ok in
      let again = check_guard-same fl guarded audited i.period_id db t same guard_ok in
      (
        same,
        rw
            (
              valid,
              again,
              row,
              unlocked,
              inside,
              insert_journal_lines_result fl t.next_entry i.lines,
              linked,
            )
            refl,
      )
