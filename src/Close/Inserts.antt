-- ===== src/Close/Inserts.antt =====
-- A new period, a new run, and a run's completion keep the invariant.
use odyssey_erp.Common.{
  ℕ, ◌+◌, ◌<◌, ◌≡◌, ◌≢◌, ◌∙◌, sym, ap, true, false, ◌&&◌, ◌==◌, arith, inl, inr, [], ◌∷◌, ◌++◌,
  update, exists, exists-false, Bool-cases, mem-update, mem-insert,
}
use mathlib.Core.List.{Memᴰ}
use mathlib.Core.List.Memᴰ
use odyssey_erp.Close.Model.{
  completed, AccountingPeriodRow, LedgerPeriodRow, RunRow, CreatePeriodInput, StartCloseRunInput,
  Db, open_status,
}
use odyssey_erp.Close.Periods.{legacy_status, of_company, overlaps, new_period, new_ledger_period}
use odyssey_erp.Close.Runs.{is_active, set_run_status, new_run}
use odyssey_erp.Close.Invariant.{IsValid}

abbrev pub with_new_period : CreatePeriodInput → Db → Db
with_new_period i db = record db {
  accounting_periods = db.accounting_periods ++ new_period i open_status db ∷ [];
  periods = db.periods ++ new_ledger_period i open_status db ∷ [];
  next_accounting_period = db.next_accounting_period + 1;
  next_period = db.next_period + 1;
}

module _ (i : CreatePeriodInput) (db : Db) (h : IsValid db) (company : i.company_id ≢ 0)
    (free : exists
        (λ a. of_company i.company_id a && overlaps i.start_date i.end_date a)
        db.accounting_periods
      ≡ false) where
  new_in_sync :
      (a : AccountingPeriodRow) (l : LedgerPeriodRow)
      → Memᴰ a (with_new_period i db).accounting_periods
      → Memᴰ l (with_new_period i db).periods
      → l.id ≡ a.period_id
      → l.status ≡ legacy_status a.status
  new_in_sync a l ma ml e = elim (mem-insert db.accounting_periods ma) [
    | inl old ↦ elim (mem-insert db.periods ml) [
      | inl old_l ↦ h.in_sync a l old old_l e
      | inr new_l ↦
          absurd (omega (arith, h.fresh_owner a old, e, ap (λ (r : LedgerPeriodRow). r.id) new_l))
    ]
    | inr new ↦ elim (mem-insert db.periods ml) [
      | inl old_l ↦ absurd (
          omega
            (arith, h.fresh_ledger l old_l, e, ap (λ (r : AccountingPeriodRow). r.period_id) new))
      | inr new_l ↦ rw (new, new_l)
    ]
  ]

  new_one_row :
      (a b : AccountingPeriodRow)
      → Memᴰ a (with_new_period i db).accounting_periods
      → Memᴰ b (with_new_period i db).accounting_periods
      → a.id ≡ b.id
      → a ≡ b
  new_one_row a b ma mb e = elim (mem-insert db.accounting_periods ma) [
    | inl old ↦ elim (mem-insert db.accounting_periods mb) [
      | inl old_b ↦ h.one_row a b old old_b e
      | inr new_b ↦
          absurd
            (omega (arith, h.fresh_period a old, e, ap (λ (r : AccountingPeriodRow). r.id) new_b))
    ]
    | inr new ↦ elim (mem-insert db.accounting_periods mb) [
      | inl old_b ↦
          absurd
            (omega (arith, h.fresh_period b old_b, e, ap (λ (r : AccountingPeriodRow). r.id) new))
      | inr new_b ↦ cc
    ]
  ]

  new_one_owner :
      (a b : AccountingPeriodRow)
      → Memᴰ a (with_new_period i db).accounting_periods
      → Memᴰ b (with_new_period i db).accounting_periods
      → a.period_id ≡ b.period_id
      → a.id ≡ b.id
  new_one_owner a b ma mb e = elim (mem-insert db.accounting_periods ma) [
    | inl old ↦ elim (mem-insert db.accounting_periods mb) [
      | inl old_b ↦ h.one_owner a b old old_b e
      | inr new_b ↦ absurd (
          omega
            (arith, h.fresh_owner a old, e, ap (λ (r : AccountingPeriodRow). r.period_id) new_b))
    ]
    | inr new ↦ elim (mem-insert db.accounting_periods mb) [
      | inl old_b ↦ absurd (
          omega
            (arith, h.fresh_owner b old_b, e, ap (λ (r : AccountingPeriodRow). r.period_id) new))
      | inr new_b ↦ cc
    ]
  ]

  -- An old period of the company that met the new one would have been a conflict.
  no_conflict :
      (c : ℕ) (a : AccountingPeriodRow)
      → Memᴰ a db.accounting_periods
      → of_company c a ≡ true
      → of_company c (new_period i open_status db) ≡ true
      → overlaps i.start_date i.end_date a ≡ false
  no_conflict c a m ca cn =
      let no =
        exists-false (λ x. of_company i.company_id x && overlaps i.start_date i.end_date x)
          db.accounting_periods free m in
      ground arith

  new_disjoint :
      (c : ℕ) (a b : AccountingPeriodRow)
      → Memᴰ a (with_new_period i db).accounting_periods
      → Memᴰ b (with_new_period i db).accounting_periods
      → of_company c a ≡ true
      → of_company c b ≡ true
      → overlaps a.start_date a.end_date b ≡ true
      → a.id ≡ b.id
  new_disjoint c a b ma mb ca cb o = elim (mem-insert db.accounting_periods ma) [
    | inl old ↦ elim (mem-insert db.accounting_periods mb) [
      | inl old_b ↦ h.disjoint c a b old old_b ca cb o
      | inr new_b ↦ absurd (apart a (no_conflict c a old ca (rw new_b at cb)) (rw new_b at o))
    ]
    | inr new ↦ elim (mem-insert db.accounting_periods mb) [
      | inl old_b ↦ absurd (apart' b (no_conflict c b old_b cb (rw new at ca)) (rw new at o))
      | inr new_b ↦ cc
    ]
  ]
    where
      apart :
          (x : AccountingPeriodRow)
          → overlaps i.start_date i.end_date x ≡ false
          → overlaps x.start_date x.end_date (new_period i open_status db) ≡ true
          → ⊥
      apart x p q = ground arith

      apart' :
          (x : AccountingPeriodRow)
          → overlaps i.start_date i.end_date x ≡ false
          → overlaps i.start_date i.end_date x ≡ true
          → ⊥
      apart' x p q = cc

  pub with_new_period-IsValid : IsValid (with_new_period i db)
  with_new_period-IsValid = record {
    in_sync = new_in_sync;
    one_row = new_one_row;
    one_owner = new_one_owner;
    disjoint = new_disjoint;
    one_active = h.one_active;
    owned_run = λ r m. let (a, ma, e) = h.owned_run r m in (a, Memᴰ.append_left _ ma, e);
    fresh_period = λ a m. elim (mem-insert db.accounting_periods m) [
      | inl old ↦ omega (arith, h.fresh_period a old)
      | inr new ↦ rw new (omega arith)
    ];
    fresh_owner = λ a m. elim (mem-insert db.accounting_periods m) [
      | inl old ↦ omega (arith, h.fresh_owner a old)
      | inr new ↦ rw new (omega arith)
    ];
    fresh_ledger = λ l m. elim (mem-insert db.periods m) [
      | inl old ↦ omega (arith, h.fresh_ledger l old)
      | inr new ↦ rw new (omega arith)
    ];
    fresh_run = h.fresh_run;
  }

abbrev pub with_new_run : StartCloseRunInput → Db → Db
with_new_run i db = record db { runs = db.runs ++ new_run i db ∷ []; next_run = db.next_run + 1 }

module _ (i : StartCloseRunInput) (db : Db) (h : IsValid db) (owner : AccountingPeriodRow)
    (there : Memᴰ owner db.accounting_periods) (his : owner.id ≡ i.period_id)
    (idle : exists (λ r. r.period_id == i.period_id && is_active r.status) db.runs ≡ false) where
  no_active : (r : RunRow) → Memᴰ r db.runs → is_active r.status ≡ true → r.period_id ≢ i.period_id
  no_active r m active e =
      let no =
        exists-false (λ x. x.period_id == i.period_id && is_active x.status) db.runs idle m in
      ground arith

  new_one_active :
      (r s : RunRow)
      → Memᴰ r (with_new_run i db).runs
      → Memᴰ s (with_new_run i db).runs
      → is_active r.status ≡ true
      → is_active s.status ≡ true
      → r.period_id ≡ s.period_id
      → r.id ≡ s.id
  new_one_active r s mr ms ar as_ e = elim (mem-insert db.runs mr) [
    | inl old ↦ elim (mem-insert db.runs ms) [
      | inl old_s ↦ h.one_active r s old old_s ar as_ e
      | inr new_s ↦ absurd (no_active r old ar (e ∙ ap (λ (x : RunRow). x.period_id) new_s))
    ]
    | inr new ↦ elim (mem-insert db.runs ms) [
      | inl old_s ↦ absurd (no_active s old_s as_ (sym e ∙ ap (λ (x : RunRow). x.period_id) new))
      | inr new_s ↦ cc
    ]
  ]

  pub with_new_run-IsValid : IsValid (with_new_run i db)
  with_new_run-IsValid = record {
    in_sync = h.in_sync;
    one_row = h.one_row;
    one_owner = h.one_owner;
    disjoint = h.disjoint;
    one_active = new_one_active;
    owned_run = λ r m. elim (mem-insert db.runs m) [
      | inl old ↦ h.owned_run r old
      | inr new ↦ (owner, there, his ∙ sym (ap (λ (x : RunRow). x.period_id) new))
    ];
    fresh_period = h.fresh_period;
    fresh_owner = h.fresh_owner;
    fresh_ledger = h.fresh_ledger;
    fresh_run = λ r m. elim (mem-insert db.runs m) [
      | inl old ↦ omega (arith, h.fresh_run r old)
      | inr new ↦ rw new (omega arith)
    ];
  }

abbrev pub with_completed_run : ℕ → Db → Db
with_completed_run k db = record db {
  runs = update (λ r. r.id == k) (set_run_status completed db.clock) db.runs;
}

module _ (k : ℕ) (db : Db) (h : IsValid db) where
  -- A run that is active afterwards was so before, unchanged.
  active_origin :
      (r : RunRow)
      → Memᴰ r (with_completed_run k db).runs
      → is_active r.status ≡ true
      → Memᴰ r db.runs
  active_origin r m active =
      let (x, mx, e) = mem-update (λ y. y.id == k) (set_run_status completed db.clock) db.runs m in
      elim (Bool-cases (x.id == k)) [
        | inl done ↦ absurd (still x (rw done at e) active)
        | inr not_done ↦ rw (rw not_done at e) mx
      ]
    where
      still :
          (x : RunRow) {r : RunRow}
          → r ≡ set_run_status completed db.clock x
          → is_active r.status ≡ true
          → ⊥
      still x e a = ground arith

  owned_origin :
      (r : RunRow)
      → Memᴰ r (with_completed_run k db).runs
      → (a : AccountingPeriodRow) × Memᴰ a db.accounting_periods × (a.id ≡ r.period_id)
  owned_origin r m =
      let (x, mx, e) = mem-update (λ y. y.id == k) (set_run_status completed db.clock) db.runs m in
      let (a, ma, ea) = h.owned_run x mx in
      elim (Bool-cases (x.id == k)) [
        | inl done ↦ (a, ma, ea ∙ sym (ap (λ (y : RunRow). y.period_id) (rw done at e)))
        | inr not_done ↦ (a, ma, ea ∙ sym (ap (λ (y : RunRow). y.period_id) (rw not_done at e)))
      ]

  id_origin : (r : RunRow) → Memᴰ r (with_completed_run k db).runs → r.id < db.next_run
  id_origin r m =
      let (x, mx, e) = mem-update (λ y. y.id == k) (set_run_status completed db.clock) db.runs m in
      elim (Bool-cases (x.id == k)) [
        | inl done ↦ rw (rw done at e) (h.fresh_run x mx)
        | inr not_done ↦ rw (rw not_done at e) (h.fresh_run x mx)
      ]

  pub with_completed_run-IsValid : IsValid (with_completed_run k db)
  with_completed_run-IsValid = record {
    in_sync = h.in_sync;
    one_row = h.one_row;
    one_owner = h.one_owner;
    disjoint = h.disjoint;
    one_active = λ r s mr ms ar as_ e.
        h.one_active r s (active_origin r mr ar) (active_origin s ms as_) ar as_ e;
    owned_run = owned_origin;
    fresh_period = h.fresh_period;
    fresh_owner = h.fresh_owner;
    fresh_ledger = h.fresh_ledger;
    fresh_run = id_origin;
  }
