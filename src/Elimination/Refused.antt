-- ===== src/Elimination/Refused.antt =====
-- Runs that are not posted (internal/elimination/service.go: PostRun): the error paths.
use odyssey_erp.Common.{
  ℕ, ◌≡◌, ◌⊎◌, refl, sym, subst, not, Bool-cases, ap, ◌∙◌, true, false, Bool, find, str_eq, Option,
  none, some, err, Action, or_raise, raise_if, ◌>>=◌, >>=-err, inl, inr, Answer-cases, String,
}
use odyssey_erp.Common.Float.{FloatOps}
use odyssey_erp.Journals.Model.{PostingInput, JournalEntry}
use odyssey_erp.Journals.Service.{Guard, post_journal}
use odyssey_erp.Journals.Sources.{Posted, post_journal_atomic}
use odyssey_erp.Elimination.Model.{
  Error, Faults, is_marshalled, simulated, run_not_found, account_not_found, invalid_status,
  no_elimination, SimulationSummary, Run, Db, run_with_id, rule_with_id, get_run,
  load_accounting_period, lookup_account_id, save_run_simulation, mark_run_posted,
}
use odyssey_erp.Elimination.Runs.{
  get_run-ok, same_run, simulated_runs, ledger_post-ok, save_run_simulation-ok,
}
use odyssey_erp.Elimination.Service.{is_posted_run, summary_of, ledger_post, enter_run, post_run}

-- A call that only reads.
abbrev Reads : {S E A : Type 0} → Action S E A → Type 0
Reads {S} m = (s : S) → (m s).1 ≡ s

-- A call whose error has written nothing, or else only what a relation allows.
abbrev Leaves : {S E A : Type 0} → (S → S → Type 0) → Action S E A → Type 0
Leaves {S} {E} R m = (s : S) (x : E) (t : S) → m s ≡ (err x, t) → (t ≡ s) ⊎ R s t

module _ {S E A B : Type 0} where
  >>=-Leaves :
      (R : S → S → Type 0) (m : Action S E A) (f : A → Action S E B)
      → Reads m
      → ((a : A) → Leaves R (f a))
      → Leaves R (m >>= f)
  >>=-Leaves R m f reads rest s x t h = elim (>>=-err m f s h) [
    | inl refused ↦ inl (sym (ap (λ r. r.1) refused) ∙ reads s)
    | inr (a, s', first, refused) ↦
        subst (λ z. (t ≡ z) ⊎ R z t) (sym (ap (λ r. r.1) first) ∙ reads s) (rest a s' x t refused)
  ]

  >>=-Reads :
      (m : Action S E A) (f : A → Action S E B)
      → Reads m
      → ((a : A) → Reads (f a))
      → Reads (m >>= f)
  >>=-Reads m f reads rest s = elim (Answer-cases (m s)) [
    | inl (a, t, e) ↦ rw e (rest a t) ∙ (sym (ap (λ r. r.1) e) ∙ reads s)
    | inr (x, t, e) ↦ rw e refl ∙ (sym (ap (λ r. r.1) e) ∙ reads s)
  ]

or_raise-Reads : {S E A : Type 0} (o : Option A) (e : E) → Reads (or_raise {S = S} o e)
or_raise-Reads none e s = refl
or_raise-Reads (some a) e s = refl

raise_if-Reads : {S E : Type 0} (c : Bool) (e : E) → Reads (raise_if {S = S} c e)
raise_if-Reads true e s = refl
raise_if-Reads false e s = refl

module _ (fl : FloatOps) where
  open fl use {Float, zero as zero_float, le}

  get_run-Reads : (k : ℕ) → Reads (get_run fl k)
  unfolding get_run
  get_run-Reads k db =
      >>=-Reads (or_raise (run_with_id fl k db) run_not_found) _ (or_raise-Reads _ _)
        (λ run.
          >>=-Reads (or_raise (rule_with_id fl run.rule_id db) run_not_found) _ (or_raise-Reads _ _)
            (λ rule s. refl))
        db

  load_accounting_period-Reads : (k : ℕ) → Reads (load_accounting_period fl k)
  unfolding load_accounting_period
  load_accounting_period-Reads k db = or_raise-Reads _ _ db

  lookup_account_id-Reads : (code : String) → Reads (lookup_account_id fl code)
  unfolding lookup_account_id
  lookup_account_id-Reads code db =
      >>=-Reads (or_raise (find (λ a. str_eq a.code code) db.accounts) account_not_found) _
        (or_raise-Reads _ _) (λ a s. refl) db

  module _ (guard : Option Guard) (audited : Bool) where
    -- What is left of a posting that failed after its entry: the entry, and no run that is posted by it.
    abbrev pub Half : ℕ → ℕ → Db Float → Db Float → Type 0
    Half k key db t =
        (i : PostingInput Float) × (e : JournalEntry Float) × (i.source_id ≡ key)
        × Posted fl guard audited i db.ledger e t.ledger
        × ((t.runs ≡ db.runs)
            ⊎ ((s : SimulationSummary Float) × (t.runs ≡ simulated_runs fl k s simulated db)))

    ledger_post-Leaves :
        (i : PostingInput Float) (db : Db Float) {x : Error} {t : Db Float}
        → ledger_post fl guard audited i db ≡ (err x, t)
        → t ≡ db
    unfolding ledger_post
    ledger_post-Leaves i db h = elim (Answer-cases (post_journal fl guard audited i db.ledger)) [
      | inl (e, ledger, done) ↦ absurd (cc (rw done at h))
      | inr (y, ledger, refused) ↦
          let same = post_journal_atomic fl guard audited i db.ledger refused in
          sym (ap (λ r. r.1) (rw (refused, same) at h))
    ]

    save_run_simulation-err :
        (faults : Faults) (k : ℕ) (s : SimulationSummary Float) (db : Db Float) {x : Error}
        {t : Db Float}
        → save_run_simulation fl faults k s simulated db ≡ (err x, t)
        → t ≡ db
    unfolding save_run_simulation
    save_run_simulation-err faults k s db h = elim (Bool-cases (not (is_marshalled fl s))) [
      | inl bad ↦ cc (rw bad at h)
      | inr good ↦ elim (Bool-cases faults.saving) [
        | inl bad ↦ cc (rw (good, bad) at h)
        | inr taken ↦ absurd (cc (rw (good, taken) at h))
      ]
    ]

    mark_run_posted-err :
        (faults : Faults) (k entry : ℕ) (db : Db Float) {x : Error} {t : Db Float}
        → mark_run_posted fl faults k entry db ≡ (err x, t)
        → t ≡ db
    unfolding mark_run_posted
    mark_run_posted-err faults k entry db h = elim (Bool-cases faults.marking) [
      | inl bad ↦ cc (rw bad at h)
      | inr taken ↦ absurd (cc (rw taken at h))
    ]

    entered-Half :
        (k key : ℕ) (i : PostingInput Float) (e : JournalEntry Float) (db d t : Db Float)
        → i.source_id ≡ key
        → Posted fl guard audited i db.ledger e d.ledger × (d ≡ record db { ledger = d.ledger })
        → (t.ledger ≡ d.ledger)
        → ((t.runs ≡ d.runs)
            ⊎ ((s : SimulationSummary Float) × (t.runs ≡ simulated_runs fl k s simulated d)))
        → Half k key db t
    entered-Half k key i e db d t own (entered, same) ledger (inl kept) =
        (i, e, own, rw ledger entered, inl (kept ∙ ap (λ (x : Db Float). x.runs) same))
    entered-Half k key i e db d t own (entered, same) ledger (inr (s, saved)) = (
      i,
      e,
      own,
      rw ledger entered,
      inr (s, saved ∙ ap (λ (x : Db Float). simulated_runs fl k s simulated x) same),
    )

    enter_run-Leaves :
        (faults : Faults) (run : Run Float) (s : SimulationSummary Float) (i : PostingInput Float)
        (k key : ℕ)
        → run.id ≡ k
        → i.source_id ≡ key
        → Leaves (Half k key) (enter_run fl guard audited faults run s i)
    unfolding enter_run
    enter_run-Leaves faults run s i k key ours own db x t h =
        elim (>>=-err (ledger_post fl guard audited i) _ db h) [
          | inl refused ↦ inl (ledger_post-Leaves i db refused)
          | inr (e, d, first, h1) ↦
              let entered = ledger_post-ok fl guard audited i db first in
              elim (>>=-err (save_run_simulation fl faults run.id s simulated) _ d h1) [
                | inl unsaved ↦
                    let same = save_run_simulation-err faults run.id s d unsaved in
                    inr (
                      entered-Half k key i e db d t own entered
                        (ap (λ (y : Db Float). y.ledger) same)
                        (inl (ap (λ (y : Db Float). y.runs) same)))
                | inr (u, d2, saving, h2) ↦
                    let e2 = save_run_simulation-ok fl faults run.id s simulated d saving in
                    elim (>>=-err (mark_run_posted fl faults run.id e.entry.id) _ d2 h2) [
                      | inl unmarked ↦
                          let same =
                            mark_run_posted-err faults run.id e.entry.id d2 unmarked ∙ e2 in
                          inr (
                            entered-Half k key i e db d t own entered
                              (ap (λ (y : Db Float). y.ledger) same)
                              (inr (
                                s,
                                ap (λ (y : Db Float). y.runs) same
                                    ∙ ap (λ n. simulated_runs fl n s simulated d) ours,
                              )))
                      | inr (v, d3, marking, h3) ↦ absurd (cc h3)
                    ]
              ]
        ]

    -- A run that could not be posted has changed nothing, or its entry is in the ledger, under the source
    -- of this call, and the run is at most simulated: PostRun writes the entry and the run in
    -- transactions of their own.
    pub post_run-Half :
        (faults : Faults) (k actor key : ℕ) (db : Db Float) {x : Error} {t : Db Float}
        → post_run fl guard audited faults k actor key db ≡ (err x, t)
        → (t ≡ db) ⊎ Half k key db t
    unfolding post_run
    post_run-Half faults k actor key db {x} {t} h = elim (>>=-err (get_run fl k) _ db h) [
      | inl refused ↦ inl (sym (ap (λ r. r.1) refused) ∙ get_run-Reads k db)
      | inr (f, d, first, rest) ↦
          let (found, joined, same) = get_run-ok fl k db first in
          subst (λ z. (t ≡ z) ⊎ Half k key z t) same
            (>>=-Leaves (Half k key) (raise_if (is_posted_run f.0.status) invalid_status) _
              (raise_if-Reads _ _)
              (λ u s.
                >>=-Leaves (Half k key)
                  (raise_if (le (summary_of fl f.0 f.1 s).eliminated zero_float) no_elimination) _
                  (raise_if-Reads _ _)
                  (λ u2.
                    >>=-Leaves (Half k key) (load_accounting_period fl f.0.period_id) _
                      (load_accounting_period-Reads f.0.period_id)
                      (λ p.
                        >>=-Leaves (Half k key) (lookup_account_id fl f.1.account_source) _
                          (lookup_account_id-Reads f.1.account_source)
                          (λ src.
                            >>=-Leaves (Half k key) (lookup_account_id fl f.1.account_target) _
                              (lookup_account_id-Reads f.1.account_target)
                              (λ tgt.
                                enter_run-Leaves faults f.0 (summary_of fl f.0 f.1 s) _ k key
                                  (same_run fl f.0 k db found) refl))))
                  s)
              d x t rest)
    ]
