-- ===== src/Close/StatusChange.antt =====
-- A change of a period's status keeps the invariant: the accounting period and its ledger row
-- change together, and no other row does.
use odyssey_erp.Common.{
  ℕ, ◌<◌, ◌≡◌, refl, ◌≢◌, ap, true, false, ◌==◌, ==_iff, some, arith, inl, inr, ◌⊎◌, if◌then◌else◌,
  Bool-cases, Option-cases, find-mem, find-holds, find-none, mem-update_of, ◌∙◌, mem-update,
}
use mathlib.Core.List.{Memᴰ}
use odyssey_erp.Close.Model.{
  PeriodStatus, open_status, soft_closed, hard_closed, AccountingPeriodRow, LedgerPeriodRow, RunRow,
  Db,
}
use odyssey_erp.Close.Periods.{
  legacy_status, int8_from_int64, set_period_status, set_legacy, period_with_id, of_company,
  overlaps,
}
use odyssey_erp.Close.Invariant.{IsValid, with_period_status}

module _ (i : ℕ) (status : PeriodStatus) (actor : ℕ) (db : Db) (h : IsValid db) where
  updated : AccountingPeriodRow → AccountingPeriodRow
  updated a = if a.id == i then set_period_status status (int8_from_int64 actor) db.clock a else a

  -- The columns that no change of the status touches.
  updated_keeps :
      (a : AccountingPeriodRow)
      → ((updated a).id ≡ a.id)
        × ((updated a).period_id ≡ a.period_id)
        × ((updated a).company_id ≡ a.company_id)
        × ((updated a).start_date ≡ a.start_date)
        × ((updated a).end_date ≡ a.end_date)
  unfolding updated
  updated_keeps a = elim (Bool-cases (a.id == i)) [
    | inl e ↦ rw e (keeps status)
    | inr e ↦ rw e (refl, refl, refl, refl, refl)
  ]
    where
      keeps :
          (s : PeriodStatus)
          → let b = set_period_status s (int8_from_int64 actor) db.clock a in
            (b.id ≡ a.id)
            × (b.period_id ≡ a.period_id)
            × (b.company_id ≡ a.company_id)
            × (b.start_date ≡ a.start_date)
            × (b.end_date ≡ a.end_date)
      keeps open_status = (refl, refl, refl, refl, refl)
      keeps soft_closed = (refl, refl, refl, refl, refl)
      keeps hard_closed = (refl, refl, refl, refl, refl)

  origin :
      {b : AccountingPeriodRow}
      → Memᴰ b (with_period_status i status actor db).accounting_periods
      → (a : AccountingPeriodRow) × Memᴰ a db.accounting_periods × (b ≡ updated a)
  unfolding updated
  origin m =
      mem-update (λ x. x.id == i) (set_period_status status (int8_from_int64 actor) db.clock)
        db.accounting_periods m

  status_one_row :
      (a b : AccountingPeriodRow)
      → Memᴰ a (with_period_status i status actor db).accounting_periods
      → Memᴰ b (with_period_status i status actor db).accounting_periods
      → a.id ≡ b.id
      → a ≡ b
  status_one_row a b ma mb e =
      let (x, mx, ex) = origin ma in
      let (y, my, ey) = origin mb in
      cc (h.one_row x y mx my (cc ((updated_keeps x).0, (updated_keeps y).0)))

  status_one_owner :
      (a b : AccountingPeriodRow)
      → Memᴰ a (with_period_status i status actor db).accounting_periods
      → Memᴰ b (with_period_status i status actor db).accounting_periods
      → a.period_id ≡ b.period_id
      → a.id ≡ b.id
  status_one_owner a b ma mb e =
      let (x, mx, ex) = origin ma in
      let (y, my, ey) = origin mb in
      cc (
        h.one_owner x y mx my (cc ((updated_keeps x).1, (updated_keeps y).1)),
        (updated_keeps x).0,
        (updated_keeps y).0,
      )

  status_disjoint :
      (c : ℕ) (a b : AccountingPeriodRow)
      → Memᴰ a (with_period_status i status actor db).accounting_periods
      → Memᴰ b (with_period_status i status actor db).accounting_periods
      → of_company c a ≡ true
      → of_company c b ≡ true
      → overlaps a.start_date a.end_date b ≡ true
      → a.id ≡ b.id
  status_disjoint c a b ma mb ca cb o =
      let (x, mx, ex) = origin ma in
      let (y, my, ey) = origin mb in
      let (x0, x1, x2, x3, x4) = updated_keeps x in
      let (y0, y1, y2, y3, y4) = updated_keeps y in
      let same : x.id ≡ y.id =
        h.disjoint c x y mx my (rw (ex, x2) at ca) (rw (ey, y2) at cb)
          (rw (ex, ey, x3, x4, y3, y4) at o) in
      cc

  status_fresh_period :
      (a : AccountingPeriodRow)
      → Memᴰ a (with_period_status i status actor db).accounting_periods
      → a.id < db.next_accounting_period
  status_fresh_period a m =
      let (x, mx, ex) = origin m in rw (ex, (updated_keeps x).0) (h.fresh_period x mx)

  status_fresh_owner :
      (a : AccountingPeriodRow)
      → Memᴰ a (with_period_status i status actor db).accounting_periods
      → a.period_id < db.next_period
  status_fresh_owner a m =
      let (x, mx, ex) = origin m in rw (ex, (updated_keeps x).1) (h.fresh_owner x mx)

  -- The ledger's rows come from old ones too; exactly those of the period's owner have changed.
  ledger_origin :
      (o : AccountingPeriodRow) {k : LedgerPeriodRow}
      → Memᴰ k (set_legacy (some o) status db.clock db.periods)
      → (l : LedgerPeriodRow) × Memᴰ l db.periods
        × (k.id ≡ l.id)
        × ((k ≡ l) × (l.id ≢ o.period_id)
            ⊎ (k.status ≡ legacy_status status) × (l.id ≡ o.period_id))
  ledger_origin o {k} m =
      let (l, ml, el) =
        mem-update (λ x. x.id == o.period_id)
          (λ x. record x { status = legacy_status status; updated_at = db.clock }) db.periods m in
      elim (Bool-cases (l.id == o.period_id)) [
        | inl e ↦
            let q = rw e at el in
            (
              l,
              ml,
              ap (λ (r : LedgerPeriodRow). r.id) q,
              inr (ap (λ (r : LedgerPeriodRow). r.status) q, (==_iff _ _).0 e),
            )
        | inr e ↦
            let q = rw e at el in
            (l, ml, ap (λ (r : LedgerPeriodRow). r.id) q, inl (q, ground (arith, e)))
      ]

  updated_status :
      (x : AccountingPeriodRow)
      → ((x.id ≡ i) × ((updated x).status ≡ status)) ⊎ ((x.id ≢ i) × (updated x ≡ x))
  unfolding updated
  updated_status x = elim (Bool-cases (x.id == i)) [
    | inl e ↦ inl ((==_iff _ _).0 e, rw e (set status))
    | inr e ↦ inr (ground (arith, e), rw e)
  ]
    where
      set : (s : PeriodStatus) → (set_period_status s (int8_from_int64 actor) db.clock x).status ≡ s
      set open_status = refl
      set soft_closed = refl
      set hard_closed = refl

  sync_with :
      (o : AccountingPeriodRow)
      → period_with_id i db ≡ some o
      → (x : AccountingPeriodRow) (k : LedgerPeriodRow) → Memᴰ x db.accounting_periods
      → Memᴰ k (set_legacy (some o) status db.clock db.periods)
      → k.id ≡ (updated x).period_id
      → k.status ≡ legacy_status (updated x).status
  sync_with o eo x k mx mk e =
      let mo = find-mem _ db.accounting_periods eo in
      let oi = (==_iff o.id i).0 (find-holds (λ a. a.id == i) db.accounting_periods eo) in
      let (l, ml, kl, cases) = ledger_origin o mk in
      let owner = (updated_keeps x).1 in
      elim (updated_status x) [
        | inl (xi, st) ↦ elim cases [
          | inl (_, other_row) ↦ absurd (other_row (cc (h.one_row x o mx mo (cc))))
          | inr (changed, _) ↦ cc
        ]
        | inr (xi, same) ↦ elim cases [
          | inl (kept, _) ↦ cc (h.in_sync x l mx ml (cc))
          | inr (_, his) ↦ absurd (xi (cc (h.one_owner x o mx mo (cc))))
        ]
      ]

  status_in_sync :
      (a : AccountingPeriodRow) (l : LedgerPeriodRow)
      → Memᴰ a (with_period_status i status actor db).accounting_periods
      → Memᴰ l (with_period_status i status actor db).periods
      → l.id ≡ a.period_id
      → l.status ≡ legacy_status a.status
  status_in_sync a l ma ml e =
      let (x, mx, ex) = origin ma in
      elim (Option-cases (period_with_id i db)) [
        | inl missing ↦ elim (updated_status x) [
          | inl (xi, _) ↦
              absurd (absent xi (find-none (λ a. a.id == i) db.accounting_periods missing mx))
          | inr (_, same) ↦ rw (ex, same) (h.in_sync x l mx (rw missing at ml) (rw (ex, same) at e))
        ]
        | inr (o, found) ↦ rw ex (sync_with o found x l mx (rw found at ml) (rw ex at e))
      ]
    where
      absent : {n : ℕ} → n ≡ i → (n == i) ≡ false → ⊥
      absent e f = ground arith

  status_fresh_ledger :
      (l : LedgerPeriodRow)
      → Memᴰ l (with_period_status i status actor db).periods
      → l.id < db.next_period
  status_fresh_ledger l ml = elim (Option-cases (period_with_id i db)) [
    | inl missing ↦ h.fresh_ledger l (rw missing at ml)
    | inr (o, found) ↦
        let (k, mk, e, _) = ledger_origin o (rw found at ml) in rw e (h.fresh_ledger k mk)
  ]

  status_owned_run :
      (r : RunRow)
      → Memᴰ r db.runs
      → (a : AccountingPeriodRow) × Memᴰ a (with_period_status i status actor db).accounting_periods
        × (a.id ≡ r.period_id)
  unfolding updated
  status_owned_run r m =
      let (a, ma, e) = h.owned_run r m in
      (
        updated a,
        mem-update_of (λ x. x.id == i) (set_period_status status (int8_from_int64 actor) db.clock)
            db.accounting_periods ma,
        (updated_keeps a).0 ∙ e,
      )

  pub with_period_status-IsValid : IsValid (with_period_status i status actor db)
  with_period_status-IsValid = record {
    in_sync = status_in_sync;
    one_row = status_one_row;
    one_owner = status_one_owner;
    disjoint = status_disjoint;
    one_active = h.one_active;
    owned_run = status_owned_run;
    fresh_period = status_fresh_period;
    fresh_owner = status_fresh_owner;
    fresh_ledger = status_fresh_ledger;
    fresh_run = h.fresh_run;
  }
