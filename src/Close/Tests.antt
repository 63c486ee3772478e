-- ===== src/Close/Tests.antt =====
-- One company's March is created, closed, and opened again; the theorems at that run.
use odyssey_erp.Common.{ℕ, ◌≡◌, refl, none, some, [], arith, err, Option}
use odyssey_erp.Close.Model.{
  Db, CreatePeriodInput, StartCloseRunInput, ChecklistUpdateInput, PeriodStatus, soft_closed,
  hard_closed, completed, done, Period, RunRow, validate, checklist_incomplete, period_overlap,
}
use odyssey_erp.Close.Periods.{
  insert_period, period_range_conflict, load_period, load_period_for_update, map_period,
  update_period_status, latest_run_id,
}
use odyssey_erp.Close.Runs.{
  period_has_active_run, insert_close_run, insert_checklist_items, load_close_run_for_update,
  lock_checklist_item_run, update_checklist_status, checklist_completion_state, update_run_status,
}
use odyssey_erp.Close.Service.{
  create_period, start_close_run, start_run_body, update_checklist, update_checklist_body,
  complete_if_done, soft_close, soft_close_body, hard_close, hard_close_body,
}
use odyssey_erp.Close.Invariant.{IsValid}
use odyssey_erp.Close.Reachable.{
  creates_period, starts_run, updates_item, closes_hard, Reach, here, next, Reach-IsValid,
}
use odyssey_erp.Close.Promises.{HardClosed, SoftClosed, hard_close_lem, soft_close_lem}
use odyssey_erp.Close.Reopening.{Reopens, ItemUpdated, soft_close-Reopens, update_checklist_lem}
use odyssey_erp.Close.Atomic.{create, request_atomic}

abbrev pub empty : Db
empty = record {
  accounting_periods = [];
  periods = [];
  runs = [];
  items = [];
  next_accounting_period = 1;
  next_period = 1;
  next_run = 1;
  next_item = 1;
  clock = 100;
}

abbrev pub march : CreatePeriodInput
march = record {
  company_id = 5;
  name = "2025-03";
  start_date = 60;
  end_date = 90;
  actor_id = 7;
  metadata = "{}";
}

abbrev pub march_run : StartCloseRunInput
march_run = record { company_id = 5; period_id = 1; actor_id = 7; notes = "" }

abbrev pub finish : ℕ → ChecklistUpdateInput
finish k = record { item_id = k; status = done; actor_id = 7; comment = "" }

unfoldable pub created : Db
unfolding create_period validate period_range_conflict insert_period map_period latest_run_id
created = (create_period march empty).1

unfoldable pub started : Db
unfolding created start_close_run start_run_body load_period_for_update period_has_active_run
    insert_close_run insert_checklist_items
started = (start_close_run march_run created).1

-- The run with all its items done.
unfoldable pub ready : Db
unfolding started update_checklist update_checklist_body lock_checklist_item_run
    load_close_run_for_update update_checklist_status complete_if_done checklist_completion_state
    update_run_status
ready =
    (update_checklist (finish 3)
      (update_checklist (finish 2) (update_checklist (finish 1) started).1).1).1

unfoldable pub closed_ready : Db
unfolding ready hard_close hard_close_body update_period_status load_period
closed_ready = (hard_close 1 7 ready).1

pub empty-IsValid : IsValid empty
empty-IsValid = record {
  in_sync = λ a l m. elim m [ ];
  one_row = λ a b m. elim m [ ];
  one_owner = λ a b m. elim m [ ];
  disjoint = λ c a b m. elim m [ ];
  one_active = λ r s m. elim m [ ];
  owned_run = λ r m. elim m [ ];
  fresh_period = λ a m. elim m [ ];
  fresh_owner = λ a m. elim m [ ];
  fresh_ledger = λ l m. elim m [ ];
  fresh_run = λ r m. elim m [ ];
}

pub to_ready : Reach empty ready
unfolding ready
to_ready =
    next
      (next
        (next (next (next here (creates_period march)) (starts_run march_run))
          (updates_item (finish 1)))
        (updates_item (finish 2)))
      (updates_item (finish 3))

to_closed : Reach empty closed_ready
unfolding closed_ready
to_closed = next to_ready (closes_hard 1 7)

Reach-IsValid_example : IsValid closed_ready
unfolding closed_ready
Reach-IsValid_example = Reach-IsValid empty-IsValid to_closed

hard_close_early : (hard_close 1 7 started).0 ≡ err checklist_incomplete
unfolding closed_ready
hard_close_early = refl

create_twice : (create_period march created).0 ≡ err period_overlap
unfolding created
create_twice = refl

request_atomic_example : (create_period march created).1 ≡ created
unfolding created
request_atomic_example =
    request_atomic (create march) created period_overlap (create_period march created).1
      (Reach-IsValid empty-IsValid (next here (creates_period march))) refl

update_checklist_lem_example :
    ItemUpdated
      (finish 3)
      (update_checklist (finish 2) (update_checklist (finish 1) started).1).1
      (record {
        id = 3;
        run_id = 1;
        item_code = "AR_SUBLEDGER";
        label = "AR subledger reconciled";
        status = done;
        assigned_to = none;
        completed_at = some 100;
        comment = "";
        created_at = 100;
        updated_at = 100;
      })
      ready
unfolding ready
update_checklist_lem_example =
    update_checklist_lem (finish 3)
      (update_checklist (finish 2) (update_checklist (finish 1) started).1).1 refl

abbrev pub closed_march : PeriodStatus → Option ℕ → Option ℕ → Option ℕ → Option ℕ → Period
closed_march status soft_by soft_at by at = record {
  id = 1;
  period_id = 1;
  company_id = 5;
  name = "2025-03";
  start_date = 60;
  end_date = 90;
  status = status;
  soft_closed_by = soft_by;
  soft_closed_at = soft_at;
  closed_by = by;
  closed_at = at;
  metadata = "{}";
  latest_run_id = 1;
  created_at = 100;
  updated_at = 100;
}

hard_close_lem_example :
    HardClosed 1 7 ready (closed_march hard_closed none none (some 7) (some 100)) closed_ready
unfolding closed_ready
hard_close_lem_example = hard_close_lem 1 7 ready refl

soft_close_lem_example :
    SoftClosed 1 8 closed_ready
      (closed_march soft_closed (some 8) (some 100) none none)
      (soft_close 1 8 closed_ready).1
unfolding closed_ready soft_close soft_close_body
soft_close_lem_example = soft_close_lem 1 8 closed_ready refl

abbrev closed_run : RunRow
closed_run = record {
  id = 1;
  company_id = 5;
  period_id = 1;
  status = completed;
  created_by = 7;
  created_at = 100;
  completed_at = some 100;
  notes = "";
  updated_at = 100;
}

-- March is hard closed, and its own completed run opens it again.
soft_close-Reopens_example : Reopens 1 8 closed_run closed_ready
unfolding closed_ready
soft_close-Reopens_example =
    soft_close-Reopens 1 8 closed_ready closed_run (Reach-IsValid empty-IsValid to_closed)
      (omega arith) refl refl
