-- ===== src/Close/Reachable.antt =====
-- The calls as steps: in whatever order they are made, and whatever they answer, the tables stay
-- consistent.
use odyssey_erp.Common.{ℕ, ◌≤◌}
use odyssey_erp.Close.Model.{CreatePeriodInput, StartCloseRunInput, ChecklistUpdateInput, Db}
use odyssey_erp.Close.Service.{
  create_period, start_close_run, update_checklist, soft_close, hard_close,
}
use odyssey_erp.Close.Invariant.{IsValid}
use odyssey_erp.Close.Calls.{
  create_period-IsValid, start_close_run-IsValid, update_checklist-IsValid, soft_close-IsValid,
  hard_close-IsValid,
}

pub data Step (db : Db) : Db → Type 0 where
  creates_period : (i : CreatePeriodInput) → Step db (create_period i db).1
  starts_run : (i : StartCloseRunInput) → Step db (start_close_run i db).1
  updates_item : (i : ChecklistUpdateInput) → Step db (update_checklist i db).1
  closes_softly : (run_id actor : ℕ) → Step db (soft_close run_id actor db).1
  closes_hard : (run_id actor : ℕ) → Step db (hard_close run_id actor db).1
  -- Time passes between two calls.
  waits : (t : ℕ) → db.clock ≤ t → Step db (record db { clock = t })

pub data Reach (db : Db) : Db → Type 0 where
  here : Reach db db
  next : {t u : Db} → Reach db t → Step t u → Reach db u

clock-IsValid : (db : Db) (t : ℕ) → IsValid db → IsValid (record db { clock = t })
clock-IsValid db t h = record {
  in_sync = h.in_sync;
  one_row = h.one_row;
  one_owner = h.one_owner;
  disjoint = h.disjoint;
  one_active = h.one_active;
  owned_run = h.owned_run;
  fresh_period = h.fresh_period;
  fresh_owner = h.fresh_owner;
  fresh_ledger = h.fresh_ledger;
  fresh_run = h.fresh_run;
}

Step-IsValid : {db t : Db} → Step db t → IsValid db → IsValid t
Step-IsValid {db} (creates_period i) h = create_period-IsValid i db h
Step-IsValid {db} (starts_run i) h = start_close_run-IsValid i db h
Step-IsValid {db} (updates_item i) h = update_checklist-IsValid i db h
Step-IsValid {db} (closes_softly r a) h = soft_close-IsValid r a db h
Step-IsValid {db} (closes_hard r a) h = hard_close-IsValid r a db h
Step-IsValid {db} (waits t later) h = clock-IsValid db t h

-- From consistent tables, any sequence of calls of the close service, those that end in an error
-- included, leads to consistent tables: every ledger row has the status of its accounting period,
-- no two periods of a company share a day, and no period has two active runs.
pub Reach-IsValid : {db t : Db} → IsValid db → Reach db t → IsValid t
Reach-IsValid h here = h
Reach-IsValid h (next r s) = Step-IsValid s (Reach-IsValid h r)
