-- ===== src/Close/Promises.antt =====
-- What the calls promise when they end well, and that an error leaves the tables alone.
use odyssey_erp.Common.{
  ℕ, ◌≡◌, ◌≢◌, refl, true, false, ◌&&◌, ◌==◌, ==_iff, some, none, arith, inl, inr, ok, with_tx,
  with_tx-ok, >>=-elim, find, update, count-zero, find-update, find-update-none, subst, find-holds,
  Bool-cases, Option-cases, ap, ◌∙◌, sym, if◌then◌else◌,
}
use mathlib.Core.List.{Memᴰ}
use odyssey_erp.Close.Model.{
  PeriodStatus, open_status, AccountingPeriodRow, RunRow, ChecklistItem, Period, Db, soft_closed,
  hard_closed, completed,
}
use odyssey_erp.Close.Periods.{
  load_period, period_with_id, int8_from_int64, set_period_status, map_period,
}
use odyssey_erp.Close.Runs.{run_with_id, pending_items, is_terminal, set_run_status}
use odyssey_erp.Close.Service.{
  is_cancelled, soft_close_body, soft_close, hard_close_body, hard_close,
}
use odyssey_erp.Close.Invariant.{with_period_status}
use odyssey_erp.Close.Inserts.{with_completed_run}
use odyssey_erp.Close.Steps.{soft_close_body-ok, hard_close_body-ok}

load_period-ok :
    (k : ℕ) (db : Db) {p : Period} {t : Db}
    → load_period k db ≡ (ok p, t)
    → (a : AccountingPeriodRow) × (period_with_id k db ≡ some a) × (p ≡ map_period db a) × (t ≡ db)
unfolding load_period
load_period-ok k db h = elim (Option-cases (period_with_id k db)) [
  | inl e ↦ absurd (cc (rw e at h))
  | inr (a, e) ↦ (a, e, ground arith, ground arith)
]

no_pending :
    (k : ℕ) (db : Db)
    → pending_items k db ≡ 0
    → (c : ChecklistItem) → Memᴰ c db.items
    → c.run_id ≡ k
    → is_terminal c.status ≡ true
no_pending k db none_left c m e =
    let no =
      count-zero (λ x. x.run_id == k && (if is_terminal x.status then false else true)) db.items
        none_left m in
    ground arith

module _ (i : ℕ) (actor : ℕ) (db : Db) where
  -- The period's row after a change of its status.
  pub status_found :
      (status : PeriodStatus) (a : AccountingPeriodRow)
      → period_with_id i db ≡ some a
      → period_with_id i (with_period_status i status actor db)
        ≡ some (set_period_status status (int8_from_int64 actor) db.clock a)
  status_found status a e =
      find-update (λ x. x.id == i) (set_period_status status (int8_from_int64 actor) db.clock)
        db.accounting_periods (keeps status) e
    where
      keeps :
          (s : PeriodStatus) (x : AccountingPeriodRow)
          → ((set_period_status s (int8_from_int64 actor) db.clock x).id == i) ≡ (x.id == i)
      keeps open_status x = refl
      keeps soft_closed x = refl
      keeps hard_closed x = refl

  status_missing :
      (status : PeriodStatus)
      → period_with_id i db ≡ none
      → period_with_id i (with_period_status i status actor db) ≡ none
  status_missing status e =
      find-update-none (λ x. x.id == i) (set_period_status status (int8_from_int64 actor) db.clock)
        db.accounting_periods (keeps status) e
    where
      keeps :
          (s : PeriodStatus) (x : AccountingPeriodRow)
          → ((set_period_status s (int8_from_int64 actor) db.clock x).id == i) ≡ (x.id == i)
      keeps open_status x = refl
      keeps soft_closed x = refl
      keeps hard_closed x = refl

pub run_completed :
    (run_id : ℕ) (db : Db) (row : RunRow)
    → run_with_id run_id db ≡ some row
    → run_with_id run_id (with_completed_run row.id db)
      ≡ some (set_run_status completed db.clock row)
run_completed run_id db row e =
    let same = (==_iff row.id run_id).0 (find-holds (λ r. r.id == run_id) db.runs e) in
    subst
      (λ k.
        find (λ r. r.id == run_id)
          (update (λ r. r.id == k) (set_run_status completed db.clock) db.runs)
        ≡ some (set_run_status completed db.clock row))
      (sym same)
      (find-update (λ r. r.id == run_id) (set_run_status completed db.clock) db.runs (λ x. refl) e)

-- The end of both closes, from what the transaction did to the periods.
closed_period :
    (status : PeriodStatus) (actor : ℕ) (db : Db) (row : RunRow) {k : ℕ} {s t u : Db} {p : Period}
    → k ≡ row.period_id
    → s ≡ u
    → u.accounting_periods ≡ (with_period_status row.period_id status actor db).accounting_periods
    → load_period k s ≡ (ok p, t)
    → (a : AccountingPeriodRow) × (period_with_id row.period_id db ≡ some a)
      × (period_with_id row.period_id t
          ≡ some (set_period_status status (int8_from_int64 actor) db.clock a))
      × (p ≡ map_period s (set_period_status status (int8_from_int64 actor) db.clock a))
      × (t ≡ s)
closed_period status actor db row {k} {s} {t} {u} {p} ek es eu loaded =
    let (b, fb, ep, et) = load_period-ok k s loaded in
    let rows = ap (λ (d : Db). d.accounting_periods) es ∙ eu in
    let fb' = subst (λ n. find (λ x. x.id == n) s.accounting_periods ≡ some b) ek fb in
    elim (Option-cases (period_with_id row.period_id db)) [
      | inl e ↦ absurd (cc (rw rows at fb', status_missing row.period_id actor db status e))
      | inr (a, e) ↦
          let there : period_with_id row.period_id s
              ≡ some (set_period_status status (int8_from_int64 actor) db.clock a) =
            rw rows (status_found row.period_id actor db status a e) in
          (a, e, rw et there, cc, et)
    ]

-- What a hard close reports and does, as the next theorem states it.
abbrev pub HardClosed : ℕ → ℕ → Db → Period → Db → Type 0
HardClosed run_id actor db p t =
    (actor ≢ 0)
    × (row : RunRow) × (a : AccountingPeriodRow) × (run_with_id run_id db ≡ some row)
    × (is_cancelled row.status ≡ false)
    × ((c : ChecklistItem) → Memᴰ c db.items → c.run_id ≡ row.id → is_terminal c.status ≡ true)
    × (period_with_id row.period_id db ≡ some a)
    × (period_with_id row.period_id t
        ≡ some (set_period_status hard_closed (int8_from_int64 actor) db.clock a))
    × (run_with_id run_id t ≡ some (set_run_status completed db.clock row))
    × (p.id ≡ row.period_id)
    × (p.period_id ≡ a.period_id)
    × (p.status ≡ hard_closed)
    × (p.closed_by ≡ some actor)

-- A hard close that ends well had an actor, and a run that is there and not cancelled, with every
-- item of its checklist done or skipped. It answers with the run's period, hard closed by the actor;
-- the period's row is now its old row with that status, and the run's row its old row completed.
pub hard_close_lem :
    (run_id actor : ℕ) (db : Db) {p : Period} {t : Db}
    → hard_close run_id actor db ≡ (ok p, t)
    → HardClosed run_id actor db p t
unfolding hard_close map_period
hard_close_lem run_id actor db {p} {t} h = elim (Bool-cases (actor == 0)) [
  | inl bad ↦ absurd (cc (rw bad at h))
  | inr good ↦
      >>=-elim (with_tx (hard_close_body run_id actor)) load_period db (rw good at h)
        λ k s closing loaded.
          let (row, found, live, pending, ek, es) =
            hard_close_body-ok run_id actor db
              (with_tx-ok (hard_close_body run_id actor) db closing) in
          let (a, fa, ft, ep, et) = closed_period hard_closed actor db row ek es refl loaded in
          (
            ground arith,
            row,
            a,
            found,
            live,
            no_pending row.id db pending,
            fa,
            ft,
            rw (et, es)
                (run_completed run_id (with_period_status row.period_id hard_closed actor db) row
                  found),
            ap (λ (x : Period). x.id) ep
                ∙ (==_iff _ _).0 (find-holds (λ x. x.id == row.period_id) db.accounting_periods fa),
            ap (λ (x : Period). x.period_id) ep,
            ap (λ (x : Period). x.status) ep,
            ap (λ (x : Period). x.closed_by) ep ∙ rw good,
          )
]

-- What a soft close reports and does, as the next theorem states it.
abbrev pub SoftClosed : ℕ → ℕ → Db → Period → Db → Type 0
SoftClosed run_id actor db p t =
    (actor ≢ 0)
    × (row : RunRow) × (a : AccountingPeriodRow) × (run_with_id run_id db ≡ some row)
    × (is_cancelled row.status ≡ false)
    × (period_with_id row.period_id db ≡ some a)
    × (period_with_id row.period_id t
        ≡ some (set_period_status soft_closed (int8_from_int64 actor) db.clock a))
    × (p.status ≡ soft_closed)
    × (p.closed_by ≡ none)
    × (t ≡ with_period_status row.period_id soft_closed actor db)

-- A soft close that ends well had an actor and a run that is there and not cancelled. It makes the
-- period of the run soft closed, whatever its status was, and
-- clears the record of who closed it; it changes that period, its ledger row, and nothing else.
pub soft_close_lem :
    (run_id actor : ℕ) (db : Db) {p : Period} {t : Db}
    → soft_close run_id actor db ≡ (ok p, t)
    → SoftClosed run_id actor db p t
unfolding soft_close map_period
soft_close_lem run_id actor db {p} {t} h = elim (Bool-cases (actor == 0)) [
  | inl bad ↦ absurd (cc (rw bad at h))
  | inr good ↦
      >>=-elim (with_tx (soft_close_body run_id actor)) load_period db (rw good at h)
        λ k s closing loaded.
          let (row, found, live, ek, es) =
            soft_close_body-ok run_id actor db
              (with_tx-ok (soft_close_body run_id actor) db closing) in
          let (a, fa, ft, ep, et) = closed_period soft_closed actor db row ek es refl loaded in
          (
            ground arith,
            row,
            a,
            found,
            live,
            fa,
            ft,
            ap (λ (x : Period). x.status) ep,
            ap (λ (x : Period). x.closed_by) ep,
            et ∙ es,
          )
]
