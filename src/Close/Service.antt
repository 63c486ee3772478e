-- ===== src/Close/Service.antt =====
-- internal/close/service.go. `s.repo.WithTx` is `with_tx`; what a call reads after its transaction
-- it reads from the database that the transaction left.
use odyssey_erp.Common.{
  ℕ, Bool, true, false, ◌&&◌, ◌||◌, not, List, [], ◌∷◌, ◌==◌, if◌then◌else◌, Result, Action, pure,
  raise_if, with_tx, ◌>>=◌, ◌>>◌,
}
use odyssey_erp.Close.Model.{
  PeriodStatus, open_status, soft_closed, hard_closed, RunStatus, draft, in_progress, completed,
  cancelled, ChecklistStatus, other, Period, ChecklistItem, CloseRun, ChecklistDefinition,
  CreatePeriodInput, StartCloseRunInput, ChecklistUpdateInput, Error, run_fields_required,
  item_and_actor_required, actor_required, wrong_company, period_hard_closed, checklist_locked,
  period_overlap, invalid_checklist_status, checklist_incomplete, active_run_exists, Db, validate,
}
use odyssey_erp.Close.Periods.{
  load_period, load_period_by_ledger_id, load_period_for_update, insert_period,
  update_period_status, period_range_conflict,
}
use odyssey_erp.Close.Runs.{
  period_has_active_run, insert_close_run, insert_checklist_items, load_close_run_for_update,
  update_checklist_status, lock_checklist_item_run, checklist_completion_state, update_run_status,
}

abbrev pub is_hard_closed : PeriodStatus → Bool
is_hard_closed hard_closed = true
is_hard_closed soft_closed = false
is_hard_closed open_status = false

abbrev pub is_cancelled : RunStatus → Bool
is_cancelled cancelled = true
is_cancelled draft = false
is_cancelled in_progress = false
is_cancelled completed = false

abbrev pub is_completed : RunStatus → Bool
is_completed completed = true
is_completed draft = false
is_completed in_progress = false
is_completed cancelled = false

-- A result that needs no database.
abbrev lift : {A : Type 0} → Result Error A → Action Db Error A
lift r db = (r, db)

unfoldable pub create_period : CreatePeriodInput → Action Db Error Period
create_period i = do
  lift (validate i)
  conflict ← period_range_conflict i.company_id i.start_date i.end_date
  raise_if conflict period_overlap
  with_tx (insert_period i open_status)

abbrev pub default_checklist : List ChecklistDefinition
default_checklist =
    record { item_code = "BANK_RECON"; label = "Bank reconciliation completed" }
    ∷ record { item_code = "AP_SUBLEDGER"; label = "AP subledger reconciled" }
    ∷ record { item_code = "AR_SUBLEDGER"; label = "AR subledger reconciled" }
    ∷ []

-- The body of the transaction of `StartCloseRun`.
unfoldable pub start_run_body : StartCloseRunInput → Action Db Error CloseRun
start_run_body i = do
  period ← load_period_for_update i.period_id
  raise_if (not (period.company_id == 0) && not (period.company_id == i.company_id)) wrong_company
  raise_if (is_hard_closed period.status) period_hard_closed
  active ← period_has_active_run period.id
  raise_if active active_run_exists
  run ← insert_close_run i
  items ← insert_checklist_items run.id default_checklist
  pure (record run { checklist = items })

unfoldable pub start_close_run : StartCloseRunInput → Action Db Error CloseRun
start_close_run i = do
  raise_if (i.company_id == 0 || i.period_id == 0 || i.actor_id == 0) run_fields_required
  with_tx (start_run_body i)

abbrev pub is_allowed_checklist_status : ChecklistStatus → Bool
is_allowed_checklist_status (other s) = false
is_allowed_checklist_status ChecklistStatus.pending = true
is_allowed_checklist_status ChecklistStatus.in_progress = true
is_allowed_checklist_status ChecklistStatus.done = true
is_allowed_checklist_status ChecklistStatus.skipped = true

-- The last step of `UpdateChecklist`: a run that is not completed is, once its checklist is.
unfoldable pub complete_if_done : CloseRun → Action Db Error (Unit {0})
complete_if_done run = if is_completed run.status then pure tt else do
  finished ← checklist_completion_state run.id
  if finished then update_run_status run.id completed else pure tt

unfoldable pub update_checklist_body : ChecklistUpdateInput → Action Db Error ChecklistItem
update_checklist_body i = do
  run_id ← lock_checklist_item_run i.item_id
  run ← load_close_run_for_update run_id
  raise_if (is_cancelled run.status) checklist_locked
  item ← update_checklist_status i
  complete_if_done run
  pure item

unfoldable pub update_checklist : ChecklistUpdateInput → Action Db Error ChecklistItem
update_checklist i = do
  raise_if (i.item_id == 0 || i.actor_id == 0) item_and_actor_required
  raise_if (not (is_allowed_checklist_status i.status)) invalid_checklist_status
  with_tx (update_checklist_body i)

unfoldable pub soft_close_body : ℕ → ℕ → Action Db Error ℕ
soft_close_body run_id actor = do
  run ← load_close_run_for_update run_id
  raise_if (is_cancelled run.status) checklist_locked
  update_period_status run.period_id soft_closed actor
  pure run.period_id

unfoldable pub soft_close : ℕ → ℕ → Action Db Error Period
soft_close run_id actor = do
  raise_if (actor == 0) actor_required
  period_id ← with_tx (soft_close_body run_id actor)
  load_period period_id

unfoldable pub hard_close_body : ℕ → ℕ → Action Db Error ℕ
hard_close_body run_id actor = do
  run ← load_close_run_for_update run_id
  raise_if (is_cancelled run.status) checklist_locked
  finished ← checklist_completion_state run.id
  raise_if (not finished) checklist_incomplete
  update_period_status run.period_id hard_closed actor
  update_run_status run.id completed
  pure run.period_id

unfoldable pub hard_close : ℕ → ℕ → Action Db Error Period
hard_close run_id actor = do
  raise_if (actor == 0) actor_required
  period_id ← with_tx (hard_close_body run_id actor)
  load_period period_id

unfoldable pub ensure_period_open_for_posting : ℕ → Action Db Error (Unit {0})
ensure_period_open_for_posting ledger_period = do
  period ← load_period_by_ledger_id ledger_period
  raise_if (is_hard_closed period.status) period_hard_closed
