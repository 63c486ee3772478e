-- ===== src/Elimination/Runs.antt =====
-- Runs of an elimination rule (internal/elimination/service.go: PostRun, SimulateRun): what a run that was
-- posted has entered, and what a simulation leaves.
use odyssey_erp.Common.{
  ℕ, Bool, true, false, not, List, ◌≡◌, refl, sym, ap, subst, ◌∙◌, Option, some, ok, raise_if,
  raise_if-ok, or_raise, or_raise-ok, pure-ok, >>=-elim, Answer-cases, inl, inr, find, find-update,
  find-holds, update, str_eq, ◌==◌, ==_iff, Bool-cases, String,
}
use odyssey_erp.Common.Float.{FloatOps}
use odyssey_erp.Close.Model.{AccountingPeriodRow}
use odyssey_erp.Journals.Model.{PostingInput, JournalEntry}
use odyssey_erp.Journals.Service.{Guard, post_journal}
use odyssey_erp.Journals.Sources.{Posted, post_journal_lem}
use odyssey_erp.Elimination.Model.{
  RunStatus, simulated, posted, failed, Faults, is_marshalled, run_not_found, account_not_found,
  invalid_status, no_elimination, SimulationSummary, Rule, Run, Account, Db, run_with_id,
  rule_with_id, period_with_id, get_run, load_accounting_period, lookup_account_id, simulated_row,
  posted_run_row, save_run_simulation, mark_run_posted,
}
use odyssey_erp.Elimination.Amounts.{expected, summary_of-expected, elimination_entry}
use odyssey_erp.Elimination.Service.{
  is_posted_run, summary_of, simulation_status, simulate_run, ledger_post, enter_run, post_run,
}

module _ (fl : FloatOps) where
  open fl use {Float, zero as zero_float, le}

  pub get_run-ok :
      (k : ℕ) (db : Db Float) {found : Run Float × Rule} {t : Db Float}
      → get_run fl k db ≡ (ok found, t)
      → (run_with_id fl k db ≡ some found.0)
        × (rule_with_id fl found.0.rule_id db ≡ some found.1)
        × (t ≡ db)
  unfolding get_run
  get_run-ok k db h =
      >>=-elim (or_raise (run_with_id fl k db) run_not_found) _ db h λ run s first h1.
        let (found, e1) = or_raise-ok (run_with_id fl k db) run_not_found db first in
        >>=-elim (or_raise (rule_with_id fl run.rule_id db) run_not_found) _ s h1
          λ rule s2 second h2.
            let (joined, e2) =
              or_raise-ok (rule_with_id fl run.rule_id db) run_not_found s second in
            let (ef, et) = pure-ok h2 in (rw ef found, rw ef joined, et ∙ e2 ∙ e1)

  abbrev account_with_code : String → Db Float → Option Account
  account_with_code code db = find (λ a. str_eq a.code code) db.accounts

  load_accounting_period-ok :
      (k : ℕ) (db : Db Float) {p : AccountingPeriodRow} {t : Db Float}
      → load_accounting_period fl k db ≡ (ok p, t)
      → (period_with_id fl k db ≡ some p) × (t ≡ db)
  unfolding load_accounting_period
  load_accounting_period-ok k db h = or_raise-ok (period_with_id fl k db) _ db h

  lookup_account_id-ok :
      (code : String) (db : Db Float) {k : ℕ} {t : Db Float}
      → lookup_account_id fl code db ≡ (ok k, t)
      → ((a : Account) × (account_with_code code db ≡ some a) × (a.id ≡ k)) × (t ≡ db)
  unfolding lookup_account_id
  lookup_account_id-ok code db h =
      >>=-elim (or_raise (account_with_code code db) account_not_found) _ db h λ a s first h1.
        let (found, e1) = or_raise-ok (account_with_code code db) account_not_found db first in
        let (ek, et) = pure-ok h1 in ((a, found, sym ek), et ∙ e1)

  pub same_run : (r : Run Float) (k : ℕ) (db : Db Float) → run_with_id fl k db ≡ some r → r.id ≡ k
  same_run r k db h = (==_iff r.id k).0 (find-holds (λ (x : Run Float). x.id == k) db.runs h)

  -- An update of the run that was found.
  updated_run :
      (k : ℕ) (r : Run Float) (g : Run Float → Run Float) (db : Db Float)
      → ((x : Run Float) → (g x).id ≡ x.id)
      → run_with_id fl k db ≡ some r
      → find (λ (x : Run Float). x.id == k) (update (λ (x : Run Float). x.id == r.id) g db.runs)
        ≡ some (g r)
  updated_run k r g db keeps found =
      subst
        (λ i.
          find (λ (x : Run Float). x.id == k) (update (λ (x : Run Float). x.id == i) g db.runs)
          ≡ some (g r))
        (sym (same_run r k db found))
        (find-update (λ (x : Run Float). x.id == k) g db.runs (λ x. ap (λ i. i == k) (keeps x))
          found)

  -- What a simulation leaves of the runs.
  abbrev pub simulated_runs : ℕ → SimulationSummary Float → RunStatus → Db Float → List (Run Float)
  simulated_runs k s status db =
      update (λ x. x.id == k)
        (λ x. record x { status = status; simulated_at = some db.clock; summary = some s }) db.runs

  abbrev pub Simulated :
      ℕ
      → Db Float
      → Run Float × SimulationSummary Float
      → Db Float
      → Run Float
      → Rule
      → SimulationSummary Float
      → Type 0
  Simulated k db r t run rule s =
      (run_with_id fl k db ≡ some run)
      × (rule_with_id fl run.rule_id db ≡ some rule)
      × (r.1 ≡ s)
      × (r.0 ≡ record run { status = r.0.status; simulated_at = some db.clock; summary = some s })
      × (le s.eliminated zero_float ≡ true → r.0.status ≡ failed)
      × (le s.eliminated zero_float ≡ false → r.0.status ≡ simulated)
      × (t ≡ record db { runs = simulated_runs k s r.0.status db })

  simulated_status :
      (s : SimulationSummary Float) (status : RunStatus)
      → status ≡ simulation_status fl s
      → (le s.eliminated zero_float ≡ true → status ≡ failed)
        × (le s.eliminated zero_float ≡ false → status ≡ simulated)
  simulated_status s status e = (λ h. e ∙ rw h refl, λ h. e ∙ rw h refl)

  pub save_run_simulation-ok :
      (faults : Faults) (k : ℕ) (s : SimulationSummary Float) (status : RunStatus) (db : Db Float)
      {u : Unit {0}} {t : Db Float}
      → save_run_simulation fl faults k s status db ≡ (ok u, t)
      → t ≡ record db { runs = simulated_runs k s status db }
  unfolding save_run_simulation
  save_run_simulation-ok faults k s status db h = elim (Bool-cases (not (is_marshalled fl s))) [
    | inl bad ↦ absurd (cc (rw bad at h))
    | inr good ↦ elim (Bool-cases faults.saving) [
      | inl bad ↦ absurd (cc (rw (good, bad) at h))
      | inr taken ↦ (pure-ok (rw (good, taken) at h)).1
    ]
  ]

  mark_run_posted-ok :
      (faults : Faults) (k entry : ℕ) (db : Db Float) {u : Unit {0}} {t : Db Float}
      → mark_run_posted fl faults k entry db ≡ (ok u, t)
      → t ≡ record db { runs = update (λ x. x.id == k) (posted_run_row fl entry db.clock) db.runs }
  unfolding mark_run_posted
  mark_run_posted-ok faults k entry db h = elim (Bool-cases faults.marking) [
    | inl bad ↦ absurd (cc (rw bad at h))
    | inr taken ↦ (pure-ok (rw taken at h)).1
  ]

  simulation_kept :
      (faults : Faults) (k : ℕ) (db : Db Float) {r : Run Float × SimulationSummary Float}
      {t : Db Float}
      → simulate_run fl faults k db ≡ (ok r, t)
      → (run : Run Float) × (rule : Rule) × Simulated k db r t run rule (summary_of fl run rule db)
  unfolding simulate_run
  simulation_kept faults k db {r} {t} h = >>=-elim (get_run fl k) _ db h λ f s first h1.
      let (found, joined, es) = get_run-ok k db first in
      let summary = summary_of fl f.0 f.1 db in
      let status = simulation_status fl summary in
      >>=-elim (save_run_simulation fl faults f.0.id summary status) _ db (rw es at h1)
        λ u s2 saving h2.
          let e2 = save_run_simulation-ok faults f.0.id summary status db saving in
          let (er, et) = pure-ok h2 in
          let is : r.0.status ≡ status =
            ap (λ (x : Run Float × SimulationSummary Float). x.0.status) er in
          let (down, up) = simulated_status summary r.0.status is in
          (
            f.0,
            f.1,
            (
              found,
              joined,
              ap (λ x. x.1) er,
              ap (λ x. x.0) er ∙ ap (λ v. simulated_row fl summary v db.clock f.0) (sym is),
              down,
              up,
              et
                  ∙ e2
                  ∙ ap (λ n. record db { runs = simulated_runs n summary status db })
                      (same_run f.0 k db found)
                  ∙ ap (λ v. record db { runs = simulated_runs k summary v db }) (sym is),
            ),
          )

  -- A run that is simulated, whatever its status was, answers with the two balances in cents and the
  -- smaller of their sizes, and keeps them. It is failed afterwards where that sum is not positive, and
  -- simulated otherwise. The other runs and the ledger are as they were.
  pub simulate_run_lem :
      (faults : Faults) (k : ℕ) (db : Db Float) {r : Run Float × SimulationSummary Float}
      {t : Db Float}
      → simulate_run fl faults k db ≡ (ok r, t)
      → (run : Run Float) × (rule : Rule) × Simulated k db r t run rule (expected fl run rule db)
  simulate_run_lem faults k db {r} {t} h =
      let (run, rule, made) = simulation_kept faults k db h in
      (run, rule, subst (Simulated k db r t run rule) (summary_of-expected fl run rule db) made)

  -- A run once it was posted, as the next theorem says.
  abbrev pub posted_row_of : ℕ → SimulationSummary Float → ℕ → Run Float → Run Float
  posted_row_of entry s now run = posted_run_row fl entry now (simulated_row fl s simulated now run)

  module _ (guard : Option Guard) (audited : Bool) where
    abbrev pub Entered :
        ℕ
        → ℕ
        → ℕ
        → Db Float
        → Db Float
        → Run Float
        → Rule
        → AccountingPeriodRow
        → Account
        → Account
        → JournalEntry Float
        → SimulationSummary Float
        → Type 0
    Entered k actor key db t run rule p src tgt e s =
        (run_with_id fl k db ≡ some run)
        × (rule_with_id fl run.rule_id db ≡ some rule)
        × (period_with_id fl run.period_id db ≡ some p)
        × (account_with_code rule.account_source db ≡ some src)
        × (account_with_code rule.account_target db ≡ some tgt)
        × (is_posted_run run.status ≡ false)
        × (le s.eliminated zero_float ≡ false)
        × Posted fl guard audited (elimination_entry fl s rule p src.id tgt.id key actor) db.ledger
            e t.ledger
        × (run_with_id fl k t
            ≡ some (record run {
              status = posted;
              simulated_at = some db.clock;
              summary = some s;
              posted_at = some db.clock;
              journal_entry = some e.entry.id;
            }))

    pub ledger_post-ok :
        (i : PostingInput Float) (db : Db Float) {e : JournalEntry Float} {t : Db Float}
        → ledger_post fl guard audited i db ≡ (ok e, t)
        → Posted fl guard audited i db.ledger e t.ledger × (t ≡ record db { ledger = t.ledger })
    unfolding ledger_post
    ledger_post-ok i db {e} {t} h =
        elim (Answer-cases (post_journal fl guard audited i db.ledger)) [
          | inr (x, ledger, undone) ↦ absurd (cc (rw undone at h))
          | inl (f, ledger, done) ↦
              let (ee, et) = pure-ok (rw done at h) in
              let el : t.ledger ≡ ledger = ap (λ (x : Db Float). x.ledger) et in
              (
                rw (ee, el) (post_journal_lem fl guard audited i db.ledger done),
                et ∙ ap (λ l. record db { ledger = l }) (sym el),
              )
        ]

    -- The rows after the entry.
    enter_run-ok :
        (faults : Faults) (k : ℕ) (run : Run Float) (summary : SimulationSummary Float)
        (i : PostingInput Float) (db : Db Float) {r : Run Float} {t : Db Float}
        → run_with_id fl k db ≡ some run
        → enter_run fl guard audited faults run summary i db ≡ (ok r, t)
        → (e : JournalEntry Float) × Posted fl guard audited i db.ledger e t.ledger
          × (run_with_id fl k t ≡ some (posted_row_of e.entry.id summary db.clock run))
    unfolding enter_run
    enter_run-ok faults k run summary i db {r} {t} found h =
        >>=-elim (ledger_post fl guard audited i) _ db h λ e s first h1.
          let (entered, es) = ledger_post-ok i db first in
          >>=-elim (save_run_simulation fl faults run.id summary simulated) _ s h1 λ u s2 saving h2.
            let e2 = save_run_simulation-ok faults run.id summary simulated s saving in
            >>=-elim (mark_run_posted fl faults run.id e.entry.id) _ s2 h2 λ v s3 marking h3.
              let e3 = mark_run_posted-ok faults run.id e.entry.id s2 marking in
              let et : t ≡ s3 = (pure-ok h3).1 in
              let here : run_with_id fl k s ≡ some run =
                ap (λ (x : Db Float). run_with_id fl k x) es ∙ found in
              let row = simulated_row fl summary simulated s.clock in
              let there : run_with_id fl k s2 ≡ some (row run) =
                ap (λ (x : Db Float). run_with_id fl k x) e2
                ∙ updated_run k run row s (λ x. refl) here in
              (
                e,
                rw
                    (ap (λ (x : Db Float). x.ledger)
                      (et
                        ∙ e3
                        ∙ ap
                            (λ (x : Db Float). record x {
                              runs =
                                  update (λ y. y.id == run.id)
                                    (posted_run_row fl e.entry.id x.clock) x.runs;
                            })
                            e2))
                    entered,
                ap (λ (x : Db Float). run_with_id fl k x) (et ∙ e3)
                    ∙ updated_run k (row run) (posted_run_row fl e.entry.id s2.clock) s2 (λ x. refl)
                        there
                    ∙ ap (λ n. some (posted_run_row fl e.entry.id n (row run)))
                        (ap (λ (x : Db Float). x.clock) e2)
                    ∙ ap (λ n. some (posted_row_of e.entry.id summary n run))
                        (ap (λ (x : Db Float). x.clock) es),
              )

    posted_same :
        (faults : Faults) (k actor key : ℕ) (db : Db Float) {r : Run Float} {t : Db Float}
        → post_run fl guard audited faults k actor key db ≡ (ok r, t)
        → (run : Run Float) × (rule : Rule) × (p : AccountingPeriodRow) × (src tgt : Account)
          × (e : JournalEntry Float) × Entered k actor key db t run rule p src tgt e
              (summary_of fl run rule db)
    unfolding post_run
    posted_same faults k actor key db {r} {t} h = >>=-elim (get_run fl k) _ db h λ f s1 first h1.
        let (found, joined, e1) = get_run-ok k db first in
        >>=-elim (raise_if (is_posted_run f.0.status) invalid_status) _ s1 h1 λ u2 s2 second h2.
          let (open_run, e2) = raise_if-ok (is_posted_run f.0.status) invalid_status s1 second in
          let summary = summary_of fl f.0 f.1 s2 in
          >>=-elim (raise_if (le summary.eliminated zero_float) no_elimination) _ s2 h2
            λ u3 s3 third h3.
              let (positive, e3) =
                raise_if-ok (le summary.eliminated zero_float) no_elimination s2 third in
              >>=-elim (load_accounting_period fl f.0.period_id) _ s3 h3 λ p s4 fourth h4.
                let (period, e4) = load_accounting_period-ok f.0.period_id s3 fourth in
                >>=-elim (lookup_account_id fl f.1.account_source) _ s4 h4 λ src s5 fifth h5.
                  let ((a, from, ea), e5) = lookup_account_id-ok f.1.account_source s4 fifth in
                  >>=-elim (lookup_account_id fl f.1.account_target) _ s5 h5 λ tgt s6 sixth h6.
                    let ((b, to, eb), e6) = lookup_account_id-ok f.1.account_target s5 sixth in
                    let same2 : s2 ≡ db = e2 ∙ e1 in
                    let same3 : s3 ≡ db = e3 ∙ same2 in
                    let same4 : s4 ≡ db = e4 ∙ same3 in
                    let same5 : s5 ≡ db = e5 ∙ same4 in
                    let (e, entered, row) =
                      enter_run-ok faults k f.0 _ _ db found
                        (rw (e6 ∙ same5, same2, sym ea, sym eb) at h6) in
                    (
                      f.0,
                      f.1,
                      p,
                      a,
                      b,
                      e,
                      (
                        found,
                        joined,
                        rw same3 at period,
                        rw same4 at from,
                        rw same5 at to,
                        open_run,
                        rw same2 at positive,
                        entered,
                        row,
                      ),
                    )

    -- A run that is posted was not posted before, and the smaller of its two balances, in cents, is
    -- positive. The ledger has one new entry: that sum on a line of the source company and on one of the
    -- target company, dated at the last day of the period; the source is credited unless its balance is
    -- negative. The run is posted, and names the entry.
    pub post_run_lem :
        (faults : Faults) (k actor key : ℕ) (db : Db Float) {r : Run Float} {t : Db Float}
        → post_run fl guard audited faults k actor key db ≡ (ok r, t)
        → (run : Run Float) × (rule : Rule) × (p : AccountingPeriodRow) × (src tgt : Account)
          × (e : JournalEntry Float) × Entered k actor key db t run rule p src tgt e
              (expected fl run rule db)
    post_run_lem faults k actor key db {r} {t} h =
        let (run, rule, p, src, tgt, e, made) = posted_same faults k actor key db h in
        (
          run,
          rule,
          p,
          src,
          tgt,
          e,
          subst (Entered k actor key db t run rule p src tgt e) (summary_of-expected fl run rule db)
              made,
        )
