-- ===== src/Close/Steps.antt =====
-- What each transaction has done to the tables when it ends without an error.
use odyssey_erp.Common.{
  ℕ, Bool, ◌≡◌, false, ◌&&◌, not, List, [], ◌∷◌, ◌==◌, some, arith, inl, inr, ok, err, none, exists,
  update, Option-cases, Bool-cases, >>=-elim,
}
use odyssey_erp.Close.Model.{
  AccountingPeriodRow, RunRow, ChecklistItem, ChecklistDefinition, CreatePeriodInput,
  StartCloseRunInput, ChecklistUpdateInput, Period, CloseRun, Db, open_status, soft_closed,
  hard_closed, no_rows,
}
use odyssey_erp.Close.Periods.{
  insert_period, load_period_for_update, period_with_id, update_period_status, map_period,
}
use odyssey_erp.Close.Runs.{
  is_active, period_has_active_run, insert_close_run, map_run, insert_checklist_item,
  insert_checklist_items, load_close_run_for_update, run_with_id, item_with_id, pending_items,
  checklist_completion_state, update_checklist_status, lock_checklist_item_run, update_run_status,
  set_item_status,
}
use odyssey_erp.Close.Service.{
  is_hard_closed, is_cancelled, default_checklist, start_run_body, complete_if_done,
  update_checklist_body, soft_close_body, hard_close_body,
}
use odyssey_erp.Close.Invariant.{with_period_status}
use odyssey_erp.Close.Inserts.{with_new_period, with_new_run, with_completed_run}

pub insert_period-ok :
    (i : CreatePeriodInput) (db : Db) {p : Period} {t : Db}
    → insert_period i open_status db ≡ (ok p, t)
    → t ≡ with_new_period i db
unfolding insert_period
insert_period-ok i db h = ground arith

insert_checklist_item-ok :
    (run : ℕ) (d : ChecklistDefinition) (db : Db) {c : ChecklistItem} {t : Db}
    → insert_checklist_item run d db ≡ (ok c, t)
    → t ≡ record db { items = t.items; next_item = t.next_item }
unfolding insert_checklist_item
insert_checklist_item-ok run d db h = ground arith

insert_checklist_items-ok :
    (run : ℕ) (ds : List ChecklistDefinition) (db : Db) {cs : List ChecklistItem} {t : Db}
    → insert_checklist_items run ds db ≡ (ok cs, t)
    → t ≡ record db { items = t.items; next_item = t.next_item }
unfolding insert_checklist_items
insert_checklist_items-ok run [] db h = ground arith
insert_checklist_items-ok run (d ∷ ds) db h =
    >>=-elim (insert_checklist_item run d) _ db h λ c s first h'.
      >>=-elim (insert_checklist_items run ds) _ s h' λ cs u rest h''.
        ground
          (arith, insert_checklist_item-ok run d db first, insert_checklist_items-ok run ds s rest)

load_period_for_update_found :
    (k : ℕ) (db : Db) (a : AccountingPeriodRow)
    → period_with_id k db ≡ some a
    → load_period_for_update k db ≡ (ok (map_period db a), db)
unfolding load_period_for_update
load_period_for_update_found k db a e = ground arith

load_close_run_for_update_found :
    (k : ℕ) (db : Db) (row : RunRow)
    → run_with_id k db ≡ some row
    → load_close_run_for_update k db ≡ (ok (map_run row), db)
unfolding load_close_run_for_update
load_close_run_for_update_found k db row e = ground arith

load_close_run_for_update-missing :
    (k : ℕ) (db : Db) → run_with_id k db ≡ none → load_close_run_for_update k db ≡ (err no_rows, db)
unfolding load_close_run_for_update
load_close_run_for_update-missing k db e = ground arith

abbrev pub with_item : ChecklistUpdateInput → Db → Db
with_item i db = record db {
  items = update (λ x. x.id == i.item_id) (set_item_status i db.clock) db.items;
}

update_checklist_status_found :
    (i : ChecklistUpdateInput) (db : Db) (old : ChecklistItem)
    → item_with_id i.item_id db ≡ some old
    → (lock_checklist_item_run i.item_id db ≡ (ok old.run_id, db))
      × (update_checklist_status i db ≡ (ok (set_item_status i db.clock old), with_item i db))
unfolding update_checklist_status lock_checklist_item_run
update_checklist_status_found i db old e = (ground arith, ground arith)

update_checklist_status-missing :
    (i : ChecklistUpdateInput) (db : Db)
    → item_with_id i.item_id db ≡ none
    → lock_checklist_item_run i.item_id db ≡ (err no_rows, db)
unfolding lock_checklist_item_run
update_checklist_status-missing i db e = ground arith

-- The company test of `StartCloseRun`.
abbrev foreign : StartCloseRunInput → Period → Bool
foreign i p = not (p.company_id == 0) && not (p.company_id == i.company_id)

-- A run is started on a period that is there, not hard closed, of the company, and without an
-- active run; only the runs and the items change.
pub start_run_body-ok :
    (i : StartCloseRunInput) (db : Db) {run : CloseRun} {t : Db}
    → start_run_body i db ≡ (ok run, t)
    → (a : AccountingPeriodRow) × (period_with_id i.period_id db ≡ some a)
      × (is_hard_closed a.status ≡ false)
      × (exists (λ r. r.period_id == a.id && is_active r.status) db.runs ≡ false)
      × (t ≡ record (with_new_run i db) { items = t.items; next_item = t.next_item })
unfolding start_run_body period_has_active_run insert_close_run load_period_for_update map_period
start_run_body-ok i db h = elim (Option-cases (period_with_id i.period_id db)) [
  | inl e ↦ absurd (cc (rw e at h))
  | inr (a, e) ↦
      let k = rw e at h in
      elim (Bool-cases (foreign i (map_period db a))) [
        | inl w ↦ absurd (cc (rw w at k))
        | inr own ↦ elim (Bool-cases (is_hard_closed a.status)) [
          | inl c ↦ absurd (cc (rw (own, c) at k))
          | inr not_closed ↦
              elim (Bool-cases (exists (λ r. r.period_id == a.id && is_active r.status) db.runs)) [
                | inl busy ↦ absurd (cc (rw (own, not_closed, busy) at k))
                | inr free ↦
                    >>=-elim (insert_checklist_items db.next_run default_checklist) _
                      (with_new_run i db) (rw (own, not_closed, free) at k)
                      λ cs s seeded last. (
                        a,
                        e,
                        not_closed,
                        free,
                        ground (
                          arith,
                          insert_checklist_items-ok db.next_run default_checklist
                              (with_new_run i db) seeded,
                        ),
                      )
              ]
        ]
      ]
]

pub update_checklist_body-ok :
    (i : ChecklistUpdateInput) (db : Db) {c : ChecklistItem} {t : Db}
    → update_checklist_body i db ≡ (ok c, t)
    → (old : ChecklistItem) × (row : RunRow) × (item_with_id i.item_id db ≡ some old)
      × (run_with_id old.run_id db ≡ some row)
      × (is_cancelled row.status ≡ false)
      × (c ≡ set_item_status i db.clock old)
      × (complete_if_done (map_run row) (with_item i db) ≡ (ok tt, t))
unfolding update_checklist_body
update_checklist_body-ok i db h = elim (Option-cases (item_with_id i.item_id db)) [
  | inl e ↦ absurd (cc (rw (update_checklist_status-missing i db e) at h))
  | inr (old, e) ↦
      let (lock, write) = update_checklist_status_found i db old e in
      elim (Option-cases (run_with_id old.run_id db)) [
        | inl f ↦ absurd (cc (rw (lock, load_close_run_for_update-missing old.run_id db f) at h))
        | inr (row, f) ↦
            let k = rw (lock, load_close_run_for_update_found old.run_id db row f) at h in
            elim (Bool-cases (is_cancelled row.status)) [
              | inl gone ↦ absurd (cc (rw gone at k))
              | inr live ↦
                  >>=-elim (complete_if_done (map_run row)) _ (with_item i db)
                    (rw (live, write) at k)
                    λ u s finished last. (old, row, e, f, live, ground arith, ground arith)
            ]
      ]
]

pub soft_close_body-ok :
    (run_id actor : ℕ) (db : Db) {p : ℕ} {t : Db}
    → soft_close_body run_id actor db ≡ (ok p, t)
    → (row : RunRow) × (run_with_id run_id db ≡ some row)
      × (is_cancelled row.status ≡ false)
      × (p ≡ row.period_id)
      × (t ≡ with_period_status row.period_id soft_closed actor db)
unfolding soft_close_body load_close_run_for_update update_period_status
soft_close_body-ok run_id actor db h = elim (Option-cases (run_with_id run_id db)) [
  | inl e ↦ absurd (ground arith)
  | inr (row, e) ↦ (row, e, ground arith, ground arith, ground arith)
]

pub hard_close_body-ok :
    (run_id actor : ℕ) (db : Db) {p : ℕ} {t : Db}
    → hard_close_body run_id actor db ≡ (ok p, t)
    → (row : RunRow) × (run_with_id run_id db ≡ some row)
      × (is_cancelled row.status ≡ false)
      × (pending_items row.id db ≡ 0)
      × (p ≡ row.period_id)
      × (t ≡ with_completed_run row.id (with_period_status row.period_id hard_closed actor db))
unfolding hard_close_body load_close_run_for_update checklist_completion_state update_period_status
    update_run_status
hard_close_body-ok run_id actor db h = elim (Option-cases (run_with_id run_id db)) [
  | inl e ↦ absurd (ground arith)
  | inr (row, e) ↦ (row, e, ground arith, ground arith, ground arith, ground arith)
]
