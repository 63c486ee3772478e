-- ===== src/Elimination/Amounts.antt =====
-- The sums of an elimination and its entry, said apart from the code (internal/elimination/engine.go and
-- service.go; internal/sqlc/elimination.sql.go: SumAccountBalance).
use odyssey_erp.Common.{
  ℕ, ◌*◌, Bool, false, ◌≡◌, refl, ap, ◌∙◌, Option, none, some, List, [], ◌∷◌, select, find, map,
  str_eq, ◌+str◌, ◌==◌, ◌&&◌, not, if◌then◌else◌, Bool-cases, inl, inr, String,
}
use odyssey_erp.Common.Float.{FloatOps}
use odyssey_erp.Close.Model.{AccountingPeriodRow}
use odyssey_erp.Journals.Model.{PostingInput, PostingLineInput, JournalLine, day}
use odyssey_erp.Journals.Repository.{is_posted}
use odyssey_erp.Elimination.Model.{
  SimulationSummary, Rule, Run, Db, sum_lines_of, sum_account_balance, compute_elimination,
}
use odyssey_erp.Elimination.Service.{summary_of}

module _ (fl : FloatOps) where
  open fl use {
    Float, zero as zero_float, hundred, add, sub, mul, div, min, abs, round, is_finite, le,
  }

  -- A line counts when its entry is posted in the period, its account has the code, and the company is
  -- its own.
  abbrev counts : ℕ → ℕ → String → Db Float → JournalLine Float → Bool
  counts period company code db l =
      (elim (find (λ e. e.id == l.journal_id) db.ledger.entries) [
        | none ↦ false
        | some e ↦ is_posted e.status && e.period_id == period
      ])
      && (elim (find (λ a. a.id == l.account_id) db.accounts) [
        | none ↦ false
        | some a ↦ str_eq a.code code
      ])
      && (elim l.dim_company_id [ none ↦ false | some k ↦ k == company && not (company == 0) ])

  unfoldable pub sum_up : Float → List Float → Float
  sum_up acc [] = acc
  sum_up acc (v ∷ vs) = sum_up (add acc v) vs

  abbrev net : JournalLine Float → Float
  net l = sub l.debit l.credit

  sum_lines_of_lem :
      (period company : ℕ) (code : String) (db : Db Float) (ls : List (JournalLine Float))
      (acc : Float)
      → sum_lines_of fl period company code db acc ls
        ≡ sum_up acc (map net (select (counts period company code db) ls))
  unfolding sum_lines_of sum_up
  sum_lines_of_lem period company code db [] acc = refl
  sum_lines_of_lem period company code db (l ∷ ls) acc =
      let counted = sum_lines_of_lem period company code db ls (add acc (net l)) in
      let skipped = sum_lines_of_lem period company code db ls acc in
      elim (Bool-cases (counts period company code db l)) [
        | inl e ↦ rw e counted
        | inr e ↦ rw e skipped
      ]

  -- The balance of an account of a company in a period: what its lines debit less what they credit.
  abbrev pub balance_in : ℕ → ℕ → String → Db Float → Float
  balance_in period company code db =
      elim (find (λ (p : AccountingPeriodRow). p.id == period) db.ledger.close.accounting_periods) [
        | none ↦ zero_float
        | some p ↦
            sum_up zero_float
              (map net (select (counts p.period_id company code db) db.ledger.lines))
      ]

  balance_cases :
      (o : Option AccountingPeriodRow) (company : ℕ) (code : String) (db : Db Float)
      → (elim o [
        | none ↦ zero_float
        | some p ↦ sum_lines_of fl p.period_id company code db zero_float db.ledger.lines
      ])
        ≡ (elim o [
          | none ↦ zero_float
          | some p ↦
              sum_up zero_float
                (map net (select (counts p.period_id company code db) db.ledger.lines))
        ])
  balance_cases none company code db = refl
  balance_cases (some p) company code db =
      sum_lines_of_lem p.period_id company code db db.ledger.lines zero_float

  balance_in_lem :
      (period company : ℕ) (code : String) (db : Db Float)
      → sum_account_balance fl period company code db ≡ balance_in period company code db
  balance_in_lem period company code db =
      balance_cases (find (λ p. p.id == period) db.ledger.close.accounting_periods) company code db

  abbrev in_cents : Float → Float
  in_cents v = div (round (mul v hundred)) hundred

  -- The smaller of the two sizes.
  abbrev shared : Float → Float → Float
  shared a b = if is_finite (min (abs a) (abs b)) then min (abs a) (abs b) else zero_float

  abbrev pub expected : Run Float → Rule → Db Float → SimulationSummary Float
  expected run rule db =
      let a = balance_in run.period_id rule.source_company_id rule.account_source db in
      let b = balance_in run.period_id rule.target_company_id rule.account_target db in
      record {
        source_balance = in_cents a;
        target_balance = in_cents b;
        eliminated = in_cents (shared a b);
      }

  pub summary_of-expected :
      (run : Run Float) (rule : Rule) (db : Db Float)
      → summary_of fl run rule db ≡ expected run rule db
  summary_of-expected run rule db =
      ap
        (λ a.
          compute_elimination fl a
            (sum_account_balance fl run.period_id rule.target_company_id rule.account_target db))
        (balance_in_lem run.period_id rule.source_company_id rule.account_source db)
      ∙ ap
          (compute_elimination fl
            (balance_in run.period_id rule.source_company_id rule.account_source db))
          (balance_in_lem run.period_id rule.target_company_id rule.account_target db)

  abbrev entry_line : ℕ → ℕ → Float → Float → PostingLineInput Float
  entry_line account company debit credit = record {
    account_id = account;
    debit = debit;
    credit = credit;
    company_id = some company;
    branch_id = none;
    warehouse = none;
  }

  -- The entry: a source balance that is not negative is credited, and the target debited.
  abbrev pub elimination_entry :
      SimulationSummary Float → Rule → AccountingPeriodRow → ℕ → ℕ → ℕ → ℕ → PostingInput Float
  elimination_entry s rule p src tgt key actor =
      let a = rule.source_company_id in
      let b = rule.target_company_id in
      record {
        period_id = p.period_id;
        date = p.end_date * day;
        source_module = "ELIMINATIONS";
        source_id = key;
        memo = "Elimination " +str rule.name +str " - " +str p.name;
        posted_by = actor;
        lines =
            if le zero_float s.source_balance
            then entry_line src a zero_float s.eliminated
              ∷ entry_line tgt b s.eliminated zero_float
              ∷ []
            else entry_line src a s.eliminated zero_float
              ∷ entry_line tgt b zero_float s.eliminated
              ∷ [];
      }
