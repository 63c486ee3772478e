-- ===== src/Close/Calls.antt =====
-- Every call keeps the invariant, whether it ends well or in an error.
use odyssey_erp.Common.{
  ℕ, ◌≡◌, ◌≢◌, ◌&&◌, ◌||◌, not, ◌==◌, ==_iff, arith, inl, inr, ok, Result-cases, and_then-state,
  with_tx, with_tx-state, exists, find-mem, find-holds, Bool-cases, Option-cases, List, subst, sym,
}
use odyssey_erp.Close.Model.{
  CreatePeriodInput, StartCloseRunInput, ChecklistUpdateInput, ChecklistItem, CloseRun, Db,
  open_status, soft_closed, hard_closed, validate,
}
use odyssey_erp.Close.Periods.{
  insert_period, load_period, period_with_id, of_company, overlaps, period_range_conflict,
}
use odyssey_erp.Close.Runs.{map_run, checklist_completion_state, update_run_status}
use odyssey_erp.Close.Service.{
  create_period, start_run_body, start_close_run, complete_if_done, update_checklist_body,
  update_checklist, soft_close_body, soft_close, hard_close_body, hard_close,
  is_allowed_checklist_status,
}
use odyssey_erp.Close.Invariant.{IsValid}
use odyssey_erp.Close.StatusChange.{with_period_status-IsValid}
use odyssey_erp.Close.Inserts.{
  with_new_period-IsValid, with_new_run-IsValid, with_completed_run-IsValid,
}
use odyssey_erp.Close.Steps.{
  insert_period-ok, start_run_body-ok, update_checklist_body-ok, soft_close_body-ok,
  hard_close_body-ok, with_item,
}

-- The checklist items are in no part of the invariant.
pub items-IsValid :
    (db : Db) (cs : List ChecklistItem) (n : ℕ)
    → IsValid db
    → IsValid (record db { items = cs; next_item = n })
items-IsValid db cs n h = record {
  in_sync = h.in_sync;
  one_row = h.one_row;
  one_owner = h.one_owner;
  disjoint = h.disjoint;
  one_active = h.one_active;
  owned_run = h.owned_run;
  fresh_period = h.fresh_period;
  fresh_owner = h.fresh_owner;
  fresh_ledger = h.fresh_ledger;
  fresh_run = h.fresh_run;
}

validate-ok : (i : CreatePeriodInput) {u : Unit {0}} → validate i ≡ ok u → i.company_id ≢ 0
unfolding validate
validate-ok i h = ground arith

pub create_period-IsValid :
    (i : CreatePeriodInput) (db : Db) → IsValid db → IsValid (create_period i db).1
unfolding create_period period_range_conflict
create_period-IsValid i db h = elim (Result-cases (validate i)) [
  | inr (e, bad) ↦ rw bad h
  | inl (u, good) ↦
      rw good
        (elim (Bool-cases (
          exists (λ a. of_company i.company_id a && overlaps i.start_date i.end_date a)
            db.accounting_periods)) [
              | inl conflict ↦ rw conflict h
              | inr free ↦ rw free (
                  with_tx-state IsValid (insert_period i open_status) db h (λ p t done.
                    rw (insert_period-ok i db done)
                      (with_new_period-IsValid i db h (validate-ok i good) free)))
            ])
]

pub start_close_run-IsValid :
    (i : StartCloseRunInput) (db : Db) → IsValid db → IsValid (start_close_run i db).1
unfolding start_close_run
start_close_run-IsValid i db h =
    elim (Bool-cases (i.company_id == 0 || i.period_id == 0 || i.actor_id == 0)) [
      | inl bad ↦ rw bad h
      | inr good ↦ rw good (
          with_tx-state IsValid (start_run_body i) db h λ run t done.
            let (a, found, not_closed, free, e) = start_run_body-ok i db done in
            let same =
              (==_iff a.id i.period_id).0
                (find-holds (λ x. x.id == i.period_id) db.accounting_periods found) in
            subst IsValid (sym e) (
              items-IsValid _ t.items t.next_item (
                with_new_run-IsValid i db h a (find-mem _ db.accounting_periods found) same
                  (rw same at free))))
    ]

complete_if_done-IsValid :
    (run : CloseRun) (db : Db) → IsValid db → IsValid (complete_if_done run db).1
unfolding complete_if_done checklist_completion_state update_run_status
complete_if_done-IsValid run db h = ground (arith, with_completed_run-IsValid run.id db h, h)

pub update_checklist-IsValid :
    (i : ChecklistUpdateInput) (db : Db) → IsValid db → IsValid (update_checklist i db).1
unfolding update_checklist
update_checklist-IsValid i db h = elim (Bool-cases (i.item_id == 0 || i.actor_id == 0)) [
  | inl bad ↦ rw bad h
  | inr good ↦ rw good (elim (Bool-cases (not (is_allowed_checklist_status i.status))) [
    | inl wrong ↦ rw wrong h
    | inr allowed ↦ rw allowed (
        with_tx-state IsValid (update_checklist_body i) db h λ c t done.
          let (old, row, there, found, live, e, finished) = update_checklist_body-ok i db done in
          rw finished at (
            complete_if_done-IsValid (map_run row) (with_item i db)
              (items-IsValid db (with_item i db).items db.next_item h)))
  ])
]

load_period_keeps : (P : Db → Type 0) (k : ℕ) (db : Db) → P db → P (load_period k db).1
unfolding load_period
load_period_keeps P k db h = elim (Option-cases (period_with_id k db)) [
  | inl e ↦ rw e h
  | inr (a, e) ↦ rw e h
]

pub soft_close-IsValid :
    (run_id actor : ℕ) (db : Db) → IsValid db → IsValid (soft_close run_id actor db).1
unfolding soft_close
soft_close-IsValid run_id actor db h = elim (Bool-cases (actor == 0)) [
  | inl bad ↦ rw bad h
  | inr good ↦ rw good (
      and_then-state IsValid load_period (with_tx (soft_close_body run_id actor) db)
        (with_tx-state IsValid (soft_close_body run_id actor) db h λ p t done.
          let (row, found, live, e, after) = soft_close_body-ok run_id actor db done in
          rw after (with_period_status-IsValid row.period_id soft_closed actor db h))
        (load_period_keeps IsValid))
]

pub hard_close-IsValid :
    (run_id actor : ℕ) (db : Db) → IsValid db → IsValid (hard_close run_id actor db).1
unfolding hard_close
hard_close-IsValid run_id actor db h = elim (Bool-cases (actor == 0)) [
  | inl bad ↦ rw bad h
  | inr good ↦ rw good (
      and_then-state IsValid load_period (with_tx (hard_close_body run_id actor) db)
        (with_tx-state IsValid (hard_close_body run_id actor) db h λ p t done.
          let (row, found, live, finished, e, after) = hard_close_body-ok run_id actor db done in
          rw after (
            with_completed_run-IsValid row.id _
              (with_period_status-IsValid row.period_id hard_closed actor db h)))
        (load_period_keeps IsValid))
]
