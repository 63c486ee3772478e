-- ===== src/Close/Atomic.antt =====
-- A call that ends in an error has written nothing.
use odyssey_erp.Common.{
  ℕ, ◌≡◌, refl, ◌||◌, not, ◌==◌, some, inl, inr, err, ok, >>=-err, List, ap, false, find-mem,
  with_tx, with_tx-err, with_tx-ok, Result-cases, Bool-cases, Option-cases, exists, ◌&&◌, find,
  find-none, ◌∙◌, arith,
}
use mathlib.Core.List.{Memᴰ}
use odyssey_erp.Close.Model.{
  CreatePeriodInput, StartCloseRunInput, ChecklistUpdateInput, AccountingPeriodRow, RunRow, Error,
  Db, PeriodStatus, open_status, soft_closed, hard_closed, validate,
}
use odyssey_erp.Close.Periods.{
  insert_period, period_range_conflict, of_company, overlaps, load_period, map_period,
  set_period_status, int8_from_int64, period_with_id,
}
use odyssey_erp.Close.Runs.{run_with_id}
use odyssey_erp.Close.Service.{
  create_period, start_run_body, start_close_run, update_checklist_body, update_checklist,
  soft_close_body, soft_close, hard_close_body, hard_close, is_allowed_checklist_status,
}
use odyssey_erp.Close.Invariant.{IsValid, with_period_status}
use odyssey_erp.Close.Steps.{soft_close_body-ok, hard_close_body-ok}
use odyssey_erp.Close.Promises.{status_found}

create_period_atomic :
    (i : CreatePeriodInput) (db : Db) {e : Error} {t : Db}
    → create_period i db ≡ (err e, t)
    → t ≡ db
unfolding create_period period_range_conflict
create_period_atomic i db h = elim (Result-cases (validate i)) [
  | inr (x, bad) ↦ cc (rw bad at h)
  | inl (u, good) ↦
      elim (Bool-cases (
        exists (λ a. of_company i.company_id a && overlaps i.start_date i.end_date a)
          db.accounting_periods)) [
            | inl conflict ↦ cc (rw (good, conflict) at h)
            | inr free ↦ with_tx-err (insert_period i open_status) db (rw (good, free) at h)
          ]
]

start_close_run_atomic :
    (i : StartCloseRunInput) (db : Db) {e : Error} {t : Db}
    → start_close_run i db ≡ (err e, t)
    → t ≡ db
unfolding start_close_run
start_close_run_atomic i db h =
    elim (Bool-cases (i.company_id == 0 || i.period_id == 0 || i.actor_id == 0)) [
      | inl bad ↦ cc (rw bad at h)
      | inr good ↦ with_tx-err (start_run_body i) db (rw good at h)
    ]

update_checklist_atomic :
    (i : ChecklistUpdateInput) (db : Db) {e : Error} {t : Db}
    → update_checklist i db ≡ (err e, t)
    → t ≡ db
unfolding update_checklist
update_checklist_atomic i db h = elim (Bool-cases (i.item_id == 0 || i.actor_id == 0)) [
  | inl bad ↦ cc (rw bad at h)
  | inr good ↦ elim (Bool-cases (not (is_allowed_checklist_status i.status))) [
    | inl wrong ↦ cc (rw (good, wrong) at h)
    | inr allowed ↦ with_tx-err (update_checklist_body i) db (rw (good, allowed) at h)
  ]
]

-- A row with a given id that is in the table is found.
pub find_of_mem :
    (k : ℕ) (xs : List AccountingPeriodRow) (a : AccountingPeriodRow)
    → Memᴰ a xs
    → a.id ≡ k
    → (b : AccountingPeriodRow) × (find (λ x. x.id == k) xs ≡ some b)
find_of_mem k xs a m e = elim (Option-cases (find (λ x. x.id == k) xs)) [
  | inl missing ↦ absurd (no (find-none (λ x. x.id == k) xs missing m))
  | inr (b, found) ↦ (b, found)
]
  where
    no : (a.id == k) ≡ false → ⊥
    no f = ground arith

-- A run's period is there, so the read after the transaction does not fail.
pub owner_found :
    (db : Db)
    → IsValid db
    → (run_id : ℕ) (row : RunRow) → run_with_id run_id db ≡ some row
    → (a : AccountingPeriodRow) × (period_with_id row.period_id db ≡ some a)
owner_found db h run_id row found =
    let (a, m, e) = h.owned_run row (find-mem _ db.runs found) in
    find_of_mem row.period_id db.accounting_periods a m e

pub load_period_found :
    (k : ℕ) (s : Db) (a : AccountingPeriodRow)
    → find (λ x. x.id == k) s.accounting_periods ≡ some a
    → load_period k s ≡ (ok (map_period s a), s)
unfolding load_period
load_period_found k s a e = ground arith

-- So a period that a close has changed is read back.
closed_read :
    (status : PeriodStatus) (actor : ℕ) (db : Db)
    → IsValid db
    → (run_id : ℕ) (row : RunRow) → run_with_id run_id db ≡ some row
    → {k : ℕ} {s t u : Db} {e : Error} → k ≡ row.period_id
    → s ≡ u
    → u.accounting_periods ≡ (with_period_status row.period_id status actor db).accounting_periods
    → ¬ (load_period k s ≡ (err e, t))
closed_read status actor db h run_id row found {k} {s} {t} {u} ek es eu bad =
    let (a, fa) = owner_found db h run_id row found in
    let rows = ap (λ (d : Db). d.accounting_periods) es ∙ eu in
    let b = set_period_status status (int8_from_int64 actor) db.clock a in
    let there : find (λ x. x.id == row.period_id) s.accounting_periods ≡ some b =
      rw rows (status_found row.period_id actor db status a fa) in
    cc (load_period_found k s b (rw ek there), bad)

soft_close_atomic :
    (run_id actor : ℕ) (db : Db) {e : Error} {t : Db}
    → IsValid db
    → soft_close run_id actor db ≡ (err e, t)
    → t ≡ db
unfolding soft_close
soft_close_atomic run_id actor db valid h = elim (Bool-cases (actor == 0)) [
  | inl bad ↦ cc (rw bad at h)
  | inr good ↦
      elim (>>=-err (with_tx (soft_close_body run_id actor)) load_period db (rw good at h)) [
        | inl refused ↦ with_tx-err (soft_close_body run_id actor) db refused
        | inr (k, s, closing, unread) ↦
            let (row, found, live, ek, es) =
              soft_close_body-ok run_id actor db
                (with_tx-ok (soft_close_body run_id actor) db closing) in
            absurd (closed_read soft_closed actor db valid run_id row found ek es refl unread)
      ]
]

hard_close_atomic :
    (run_id actor : ℕ) (db : Db) {e : Error} {t : Db}
    → IsValid db
    → hard_close run_id actor db ≡ (err e, t)
    → t ≡ db
unfolding hard_close
hard_close_atomic run_id actor db valid h = elim (Bool-cases (actor == 0)) [
  | inl bad ↦ cc (rw bad at h)
  | inr good ↦
      elim (>>=-err (with_tx (hard_close_body run_id actor)) load_period db (rw good at h)) [
        | inl refused ↦ with_tx-err (hard_close_body run_id actor) db refused
        | inr (k, s, closing, unread) ↦
            let (row, found, live, pending, ek, es) =
              hard_close_body-ok run_id actor db
                (with_tx-ok (hard_close_body run_id actor) db closing) in
            absurd (closed_read hard_closed actor db valid run_id row found ek es refl unread)
      ]
]

-- The calls of the close service, with their answers forgotten.
pub data Request : Type 0 where
  create : CreatePeriodInput → Request
  start : StartCloseRunInput → Request
  tick : ChecklistUpdateInput → Request
  soft hard : ℕ → ℕ → Request

abbrev pub Fails : Request → Db → Error → Db → Type 0
Fails (create i) db e t = create_period i db ≡ (err e, t)
Fails (start i) db e t = start_close_run i db ≡ (err e, t)
Fails (tick i) db e t = update_checklist i db ≡ (err e, t)
Fails (soft r a) db e t = soft_close r a db ≡ (err e, t)
Fails (hard r a) db e t = hard_close r a db ≡ (err e, t)

-- On consistent tables, a call of the close service that ends in an error, of whatever kind, leaves
-- every table as it was.
pub request_atomic :
    (q : Request) (db : Db) (e : Error) (t : Db) → IsValid db → Fails q db e t → t ≡ db
request_atomic (create i) db e t valid h = create_period_atomic i db h
request_atomic (start i) db e t valid h = start_close_run_atomic i db h
request_atomic (tick i) db e t valid h = update_checklist_atomic i db h
request_atomic (soft r a) db e t valid h = soft_close_atomic r a db valid h
request_atomic (hard r a) db e t valid h = hard_close_atomic r a db valid h
