-- ===== src/Close/Reopening.antt =====
-- A soft close does not look at the period's status, and a checklist's last item completes its run.
use odyssey_erp.Common.{
  ℕ, ◌≡◌, ◌≢◌, refl, ap, sym, ◌∙◌, subst, true, false, ◌||◌, ◌==◌, ==_iff, some, arith, inl, inr,
  ok, with_tx, ◌>>=◌, with_tx-ok, Bool-cases, Option-cases, find, find-mem, find-holds, find-none,
  find-update, find-update_others, update, str_eq, if◌then◌else◌, none, ◌⊎◌, not,
}
use mathlib.Core.List.{Memᴰ}
use odyssey_erp.Close.Model.{
  AccountingPeriodRow, RunRow, ChecklistItem, ChecklistStatus, ChecklistUpdateInput, Period, Db,
  soft_closed, completed,
}
use odyssey_erp.Close.Periods.{
  load_period, period_with_id, map_period, set_period_status, int8_from_int64,
  load_period_by_ledger_id, update_period_status,
}
use odyssey_erp.Close.Runs.{
  load_close_run_for_update, map_run, run_with_id, item_with_id, pending_items, is_terminal,
  set_item_status, set_run_status, checklist_completion_state, update_run_status,
}
use odyssey_erp.Close.Service.{
  is_cancelled, is_completed, soft_close_body, soft_close, ensure_period_open_for_posting,
  complete_if_done, update_checklist_body, update_checklist, is_allowed_checklist_status,
}
use odyssey_erp.Close.Invariant.{IsValid, with_period_status}
use odyssey_erp.Close.Inserts.{with_completed_run}
use odyssey_erp.Close.StatusChange.{with_period_status-IsValid}
use odyssey_erp.Close.Steps.{with_item, update_checklist_body-ok}
use odyssey_erp.Close.Promises.{status_found, run_completed}
use odyssey_erp.Close.Atomic.{owner_found, load_period_found}

soft_close_body-live :
    (run_id actor : ℕ) (db : Db) (row : RunRow)
    → run_with_id run_id db ≡ some row
    → is_cancelled row.status ≡ false
    → soft_close_body run_id actor db
      ≡ (ok row.period_id, with_period_status row.period_id soft_closed actor db)
unfolding soft_close_body load_close_run_for_update update_period_status
soft_close_body-live run_id actor db row found live = rw (found, live)

soft_close-known :
    (run_id actor : ℕ) (db : Db)
    → (actor == 0) ≡ false
    → soft_close run_id actor db ≡ (with_tx (soft_close_body run_id actor) >>= load_period) db
unfolding soft_close
soft_close-known run_id actor db good = rw good

soft_close_runs :
    (run_id actor : ℕ) (db : Db) (row : RunRow) (b : AccountingPeriodRow)
    → actor ≢ 0
    → run_with_id run_id db ≡ some row
    → is_cancelled row.status ≡ false
    → let t = with_period_status row.period_id soft_closed actor db in
      period_with_id row.period_id t ≡ some b
      → soft_close run_id actor db ≡ (ok (map_period t b), t)
soft_close_runs run_id actor db row b known found live there =
    rw
      (
        soft_close-known run_id actor db (ground arith),
        soft_close_body-live run_id actor db row found live,
      )
      (load_period_found row.period_id _ b there)

-- In valid tables the first row that refers to a ledger period is the only one.
owner_of_ledger :
    (db : Db)
    → IsValid db
    → (a : AccountingPeriodRow) → Memᴰ a db.accounting_periods
    → find (λ x. x.period_id == a.period_id) db.accounting_periods ≡ some a
owner_of_ledger db h a m =
    elim (Option-cases (find (λ x. x.period_id == a.period_id) db.accounting_periods)) [
      | inl missing ↦
          absurd (no (find-none (λ x. x.period_id == a.period_id) db.accounting_periods missing m))
      | inr (b, found) ↦
          let mb = find-mem _ db.accounting_periods found in
          let e =
            (==_iff _ _).0
              (find-holds (λ x. x.period_id == a.period_id) db.accounting_periods found) in
          found ∙ ap some (h.one_row b a mb m (h.one_owner b a mb m e))
    ]
  where
    no : (a.period_id == a.period_id) ≡ false → ⊥
    no f = ground arith

posting_open :
    (db : Db) (a : AccountingPeriodRow)
    → find (λ x. x.period_id == a.period_id) db.accounting_periods ≡ some a
    → a.status ≡ soft_closed
    → ensure_period_open_for_posting a.period_id db ≡ (ok tt, db)
unfolding ensure_period_open_for_posting load_period_by_ledger_id map_period
posting_open db a found e = rw (found, e)

-- What the next theorem states of a soft close.
abbrev pub Reopens : ℕ → ℕ → RunRow → Db → Type 0
Reopens run_id actor row db =
    (p : Period) × (t : Db) × (soft_close run_id actor db ≡ (ok p, t))
    × (p.id ≡ row.period_id)
    × (p.status ≡ soft_closed)
    × (ensure_period_open_for_posting p.period_id t ≡ (ok tt, t))

-- On consistent tables an actor's soft close of any run that is not cancelled succeeds, whatever
-- the status of its period, and afterwards the period is open for posting.
pub soft_close-Reopens :
    (run_id actor : ℕ) (db : Db) (row : RunRow)
    → IsValid db
    → actor ≢ 0
    → run_with_id run_id db ≡ some row
    → is_cancelled row.status ≡ false
    → Reopens run_id actor row db
unfolding map_period
soft_close-Reopens run_id actor db row h known found live =
    let (a, fa) = owner_found db h run_id row found in
    let t = with_period_status row.period_id soft_closed actor db in
    let b = set_period_status soft_closed (int8_from_int64 actor) db.clock a in
    let there = status_found row.period_id actor db soft_closed a fa in
    let mb = find-mem (λ x. x.id == row.period_id) t.accounting_periods there in
    let one =
      owner_of_ledger t (with_period_status-IsValid row.period_id soft_closed actor db h) b mb in
    (
      map_period t b,
      t,
      soft_close_runs run_id actor db row b known found live there,
      (==_iff _ _).0 (find-holds (λ x. x.id == row.period_id) db.accounting_periods fa),
      refl,
      posting_open t b one refl,
    )

apart_ids : (x row k n : ℕ) → row ≡ k → n ≢ k → (x == row) ≡ true → (x == n) ≡ false
apart_ids x row k n same other e = ground arith

-- The runs other than the one that is completed.
completed_others :
    (k : ℕ) (row : RunRow) (s : Db)
    → run_with_id k s ≡ some row
    → (n : ℕ) → n ≢ k
    → run_with_id n (with_completed_run row.id s) ≡ run_with_id n s
completed_others k row s found n other =
    let same = (==_iff row.id k).0 (find-holds (λ r. r.id == k) s.runs found) in
    find-update_others (λ r. r.id == n) (λ r. r.id == row.id) (set_run_status completed s.clock)
      s.runs (λ r e. apart_ids r.id row.id k n same other e) (λ r. refl)

completes :
    (k : ℕ) (row : RunRow) (s : Db) {t : Db}
    → run_with_id k s ≡ some row
    → complete_if_done (map_run row) s ≡ (ok tt, t)
    → (new : RunRow) × (run_with_id k t ≡ some new)
      × (t.items ≡ s.items)
      × (t.accounting_periods ≡ s.accounting_periods)
      × ((n : ℕ) → n ≢ k → run_with_id n t ≡ run_with_id n s)
      × (is_completed new.status ≡ (is_completed row.status || (pending_items row.id t == 0)))
unfolding complete_if_done checklist_completion_state update_run_status
completes k row s {t} found h = elim (Bool-cases (is_completed row.status)) [
  | inl was ↦
      let e : s ≡ t = ground (arith, rw was at h) in
      (
        row,
        subst (λ d. run_with_id k d ≡ some row) e found,
        sym (ap (λ (d : Db). d.items) e),
        sym (ap (λ (d : Db). d.accounting_periods) e),
        λ n other. sym (ap (λ (d : Db). run_with_id n d) e),
        rw was (refl),
      )
  | inr open_run ↦ elim (Bool-cases (pending_items row.id s == 0)) [
    | inl all_done ↦
        let e : with_completed_run row.id s ≡ t = ground (arith, rw (open_run, all_done) at h) in
        (
          set_run_status completed s.clock row,
          subst (λ d. run_with_id k d ≡ some (set_run_status completed s.clock row)) e
              (run_completed k s row found),
          sym (ap (λ (d : Db). d.items) e),
          sym (ap (λ (d : Db). d.accounting_periods) e),
          λ n other.
              sym (ap (λ (d : Db). run_with_id n d) e) ∙ completed_others k row s found n other,
          rw open_run (sym (subst (λ d. (pending_items row.id d == 0) ≡ true) e all_done)),
        )
    | inr left ↦
        let e : s ≡ t = ground (arith, rw (open_run, left) at h) in
        (
          row,
          subst (λ d. run_with_id k d ≡ some row) e found,
          sym (ap (λ (d : Db). d.items) e),
          sym (ap (λ (d : Db). d.accounting_periods) e),
          λ n other. sym (ap (λ (d : Db). run_with_id n d) e),
          rw open_run (sym (subst (λ d. (pending_items row.id d == 0) ≡ false) e left)),
        )
  ]
]

-- What a checklist update reports and does, as the next theorem states it.
abbrev pub ItemUpdated : ChecklistUpdateInput → Db → ChecklistItem → Db → Type 0
ItemUpdated i db c t =
    (i.item_id ≢ 0)
    × (i.actor_id ≢ 0)
    × ((i.status ≡ ChecklistStatus.pending)
        ⊎ ((i.status ≡ ChecklistStatus.in_progress)
            ⊎ ((i.status ≡ ChecklistStatus.done) ⊎ (i.status ≡ ChecklistStatus.skipped))))
    × (old : ChecklistItem) × (row : RunRow) × (new : RunRow) × (item_with_id i.item_id db
        ≡ some old)
    × (item_with_id i.item_id t ≡ some c)
    × (c.status ≡ i.status)
    × (t.items
        ≡ update (λ x. x.id == i.item_id)
            (λ x. record x {
              status = i.status;
              comment = if str_eq i.comment "" then x.comment else i.comment;
              completed_at = if is_terminal i.status then some db.clock else none;
              updated_at = db.clock;
            })
            db.items)
    × (run_with_id old.run_id db ≡ some row)
    × (is_cancelled row.status ≡ false)
    × (run_with_id old.run_id t ≡ some new)
    × (is_completed new.status ≡ (is_completed row.status || (pending_items row.id t == 0)))
    × ((n : ℕ) → n ≢ old.run_id → run_with_id n t ≡ run_with_id n db)
    × (t.accounting_periods ≡ db.accounting_periods)

allowed_one :
    (s : ChecklistStatus)
    → not (is_allowed_checklist_status s) ≡ false
    → (s ≡ ChecklistStatus.pending)
      ⊎ ((s ≡ ChecklistStatus.in_progress)
          ⊎ ((s ≡ ChecklistStatus.done) ⊎ (s ≡ ChecklistStatus.skipped)))
allowed_one (ChecklistStatus.other x) h = absurd (cc h)
allowed_one ChecklistStatus.pending h = inl refl
allowed_one ChecklistStatus.in_progress h = inr (inl refl)
allowed_one ChecklistStatus.done h = inr (inr (inl refl))
allowed_one ChecklistStatus.skipped h = inr (inr (inr refl))

either_zero : (a b : ℕ) → (a == 0 || b == 0) ≡ false → (a ≢ 0) × (b ≢ 0)
either_zero a b h = (ground arith, ground arith)

-- A checklist update that ends well had an item, an actor and one of the four statuses of an item.
-- Afterwards the item has the new status and every other item is as it was; its run, which was not
-- cancelled, is completed exactly if it was so before or no item of its checklist is left that is
-- neither done nor skipped. The other runs and the periods are as they were.
pub update_checklist_lem :
    (i : ChecklistUpdateInput) (db : Db) {c : ChecklistItem} {t : Db}
    → update_checklist i db ≡ (ok c, t)
    → ItemUpdated i db c t
unfolding update_checklist
update_checklist_lem i db {c} {t} h = elim (Bool-cases (i.item_id == 0 || i.actor_id == 0)) [
  | inl bad ↦ absurd (cc (rw bad at h))
  | inr good ↦ elim (Bool-cases (not (is_allowed_checklist_status i.status))) [
    | inl wrong ↦ absurd (cc (rw (good, wrong) at h))
    | inr allowed ↦
        let (old, row, there, found, live, ec, finished) =
          update_checklist_body-ok i db
            (with_tx-ok (update_checklist_body i) db (rw (good, allowed) at h)) in
        let (new, fn, items, periods, others, state) =
          completes old.run_id row (with_item i db) found finished in
        let (item, actor) = either_zero i.item_id i.actor_id good in
        (
          item,
          actor,
          allowed_one i.status allowed,
          old,
          row,
          new,
          there,
          rw (items, ec)
              (find-update (λ x. x.id == i.item_id) (set_item_status i db.clock) db.items
                (λ x. refl) there),
          ap (λ (x : ChecklistItem). x.status) ec,
          items,
          found,
          live,
          fn,
          state,
          others,
          periods,
        )
  ]
]
