-- ===== src/Close/Runs.antt =====
-- internal/close/repository.go, the statements on close runs and their checklists, with the text of
-- sql/queries/close.sql that they run.
use odyssey_erp.Common.{
  ℕ, ◌+◌, Bool, true, false, ◌&&◌, Option, none, some, List, [], ◌∷◌, ◌++◌, ◌==◌, str_eq,
  if◌then◌else◌, find, select, update, exists, count, Action, pure, gets, or_raise, modify,
  raise_if, ◌>>=◌, ◌>>◌,
}
use odyssey_erp.Close.Model.{
  RunStatus, draft, in_progress, completed, cancelled, ChecklistStatus, pending, done, skipped,
  other, ChecklistItem, RunRow, CloseRun, ChecklistDefinition, StartCloseRunInput,
  ChecklistUpdateInput, Error, no_rows, constraint_violated, Db,
}

-- func mapRun, mapRunForUpdate
abbrev pub map_run : RunRow → CloseRun
map_run row = record {
  id = row.id;
  company_id = row.company_id;
  period_id = row.period_id;
  status = row.status;
  created_by = row.created_by;
  created_at = row.created_at;
  completed_at = row.completed_at;
  notes = row.notes;
  checklist = [];
}

abbrev pub run_with_id : ℕ → Db → Option RunRow
run_with_id i db = find (λ r. r.id == i) db.runs

abbrev pub item_with_id : ℕ → Db → Option ChecklistItem
item_with_id i db = find (λ c. c.id == i) db.items

abbrev pub is_active : RunStatus → Bool
is_active draft = true
is_active in_progress = true
is_active completed = false
is_active cancelled = false

unfoldable pub period_has_active_run : ℕ → Action Db Error Bool
period_has_active_run p = gets (λ db. exists (λ r. r.period_id == p && is_active r.status) db.runs)

abbrev pub new_run : StartCloseRunInput → Db → RunRow
new_run i db = record {
  id = db.next_run;
  company_id = i.company_id;
  period_id = i.period_id;
  status = in_progress;
  created_by = i.actor_id;
  created_at = db.clock;
  completed_at = none;
  notes = i.notes;
  updated_at = db.clock;
}

unfoldable pub insert_close_run : StartCloseRunInput → Action Db Error CloseRun
insert_close_run i db =
    pure (map_run (new_run i db))
      (record db { runs = db.runs ++ new_run i db ∷ []; next_run = db.next_run + 1 })

abbrev pub new_item : ℕ → ChecklistDefinition → Db → ChecklistItem
new_item run d db = record {
  id = db.next_item;
  run_id = run;
  item_code = d.item_code;
  label = d.label;
  status = pending;
  assigned_to = none;
  completed_at = none;
  comment = "";
  created_at = db.clock;
  updated_at = db.clock;
}

unfoldable pub insert_checklist_item : ℕ → ChecklistDefinition → Action Db Error ChecklistItem
insert_checklist_item run d = do
  db ← gets (λ db. db)
  raise_if (exists (λ c. c.run_id == run && str_eq c.item_code d.item_code) db.items)
      constraint_violated
  modify
      (λ db. record db { items = db.items ++ new_item run d db ∷ []; next_item = db.next_item + 1 })
  pure (new_item run d db)

unfoldable pub insert_checklist_items :
    ℕ → List ChecklistDefinition → Action Db Error (List ChecklistItem)
unfolding insert_checklist_item
insert_checklist_items run [] = pure []
insert_checklist_items run (d ∷ ds) = do
  item ← insert_checklist_item run d
  items ← insert_checklist_items run ds
  pure (item ∷ items)

unfoldable pub load_close_run_for_update : ℕ → Action Db Error CloseRun
load_close_run_for_update i = do
  db ← gets (λ db. db)
  row ← or_raise (run_with_id i db) no_rows
  pure (map_run row)

unfoldable pub load_close_run_with_checklist : ℕ → Action Db Error CloseRun
load_close_run_with_checklist i = do
  db ← gets (λ db. db)
  row ← or_raise (run_with_id i db) no_rows
  pure (record (map_run row) { checklist = select (λ c. c.run_id == i) db.items })

abbrev pub is_terminal : ChecklistStatus → Bool
is_terminal done = true
is_terminal skipped = true
is_terminal pending = false
is_terminal ChecklistStatus.in_progress = false
is_terminal (other s) = false

abbrev pub set_item_status : ChecklistUpdateInput → ℕ → ChecklistItem → ChecklistItem
set_item_status i now c = record c {
  status = i.status;
  comment = if str_eq i.comment "" then c.comment else i.comment;
  completed_at = if is_terminal i.status then some now else none;
  updated_at = now;
}

unfoldable pub update_checklist_status : ChecklistUpdateInput → Action Db Error ChecklistItem
update_checklist_status i = do
  db ← gets (λ db. db)
  old ← or_raise (item_with_id i.item_id db) no_rows
  modify (λ db. record db {
    items = update (λ c. c.id == i.item_id) (set_item_status i db.clock) db.items;
  })
  pure (set_item_status i db.clock old)

unfoldable pub lock_checklist_item_run : ℕ → Action Db Error ℕ
lock_checklist_item_run i = do
  db ← gets (λ db. db)
  row ← or_raise (item_with_id i db) no_rows
  pure row.run_id

abbrev pub pending_items : ℕ → Db → ℕ
pending_items run db =
    count (λ c. c.run_id == run && (if is_terminal c.status then false else true)) db.items

unfoldable pub checklist_completion_state : ℕ → Action Db Error Bool
checklist_completion_state run = gets (λ db. pending_items run db == 0)

abbrev pub completed_time : RunStatus → ℕ → Option ℕ → Option ℕ
completed_time completed now old = some now
completed_time draft now old = old
completed_time in_progress now old = old
completed_time cancelled now old = old

abbrev pub set_run_status : RunStatus → ℕ → RunRow → RunRow
set_run_status status now r = record r {
  status = status;
  completed_at = completed_time status now r.completed_at;
  updated_at = now;
}

unfoldable pub update_run_status : ℕ → RunStatus → Action Db Error (Unit {0})
update_run_status i status =
    modify
      (λ db. record db { runs = update (λ r. r.id == i) (set_run_status status db.clock) db.runs })
