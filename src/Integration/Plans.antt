-- ===== src/Integration/Plans.antt =====
-- Every hook (internal/integration/hooks.go) first decides, from the periods and the mappings, what to
-- post, and then posts it: the decisions, and where a posting comes from.
use odyssey_erp.Common.{
  ℕ, Bool, true, false, ◌||◌, ◌&&◌, ◌≡◌, refl, subst, sym, ap, ◌∙◌, ◌⊎◌, Option, none, some, List,
  [], ◌∷◌, String, str_eq, if◌then◌else◌, find, ◌==◌, Result, ok, err, Action, pure, raise_if,
  ◌>>=◌, ◌>>◌, Bool-cases, Option-cases, inl, inr,
}
use odyssey_erp.Common.Float.{FloatOps}
use odyssey_erp.Close.Model as Close
use odyssey_erp.Close.Model.{LedgerPeriodRow}
use odyssey_erp.Journals.Model as Journals
use odyssey_erp.Journals.Model.{PostingInput, PostingLineInput}
use odyssey_erp.Journals.Service.{Guard}
use odyssey_erp.Inventory.Model.{AdjustmentPostedEvent}
use odyssey_erp.Integration.Model.{
  Error, ledger_error, mapping_not_found, module_and_key_required, AccountMapping, Books,
  GrnPostedEvent, ApInvoicePostedEvent, ApPaymentPostedEvent, received_date_required,
  post_date_required, paid_date_required, adjustment_date_required,
}
use odyssey_erp.Integration.Promises.{
  Promise, grn_total-values, grn_promise, invoice_promise, payment_promise, adjustment_promise,
}
use odyssey_erp.Integration.Hooks.{
  adjustment_posting, first_covering, find_open_period_by_date, resolve_account, post, round2,
  grn_total, handle_grn_posted, handle_ap_invoice_posted, handle_ap_payment_posted,
  handle_inventory_adjustment_posted, debit_key, abs_value,
}

module _ (fl : FloatOps) (guard : Option Guard) (audited : Bool) (sha1 : String → ℕ)
    (to_upper : String → String) where
  open fl use {Float, zero as zero_float, eq, le, lt, nano, mul}

  abbrev pub Decision : Type 0
  Decision = Result Error (Option (PostingInput Float))

  abbrev pub carry_out : Decision → Action (Books Float) Error (Unit {0})
  carry_out (err e) books = (err e, books)
  carry_out (ok none) books = (ok tt, books)
  carry_out (ok (some i)) books = post fl guard audited sha1 to_upper i books

  -- A hook that carries out a decision, what its postings have in common, and when it posts nothing.
  pub record Planned (P : Close.Db → List AccountMapping → PostingInput Float → Type 0) (Q : Type 0)
      (m : Action (Books Float) Error (Unit {0})) : Type 0 where
    pub plan : Close.Db → List AccountMapping → Decision
    pub carried_out :
        (books : Books Float) → m books ≡ carry_out (plan books.ledger.close books.mappings) books
    pub facts :
        (c : Close.Db) (ms : List AccountMapping) (i : PostingInput Float)
        → plan c ms ≡ ok (some i)
        → P c ms i
    pub idle : (c : Close.Db) (ms : List AccountMapping) → plan c ms ≡ ok none → Q

  abbrev decided : PostingInput Float → Decision
  decided i = ok (some i)

  posting_of : {i j : PostingInput Float} → decided i ≡ decided j → i ≡ j
  posting_of h = cc

  abbrev pub account_of : String → String → List AccountMapping → Option AccountMapping
  account_of m key ms = find (λ x. str_eq x.module_name (to_upper m) && str_eq x.key key) ms

  abbrev resolve_plan :
      (ℕ → Close.Db → List AccountMapping → Decision)
      → Bool
      → Option AccountMapping
      → Close.Db
      → List AccountMapping
      → Decision
  resolve_plan f true o c ms = err module_and_key_required
  resolve_plan f false none c ms = err mapping_not_found
  resolve_plan f false (some a) c ms = f a.account_id c ms

  -- The account of a key.
  abbrev pub Account : String → String → ℕ → List AccountMapping → Type 0
  Account m key a ms = (x : AccountMapping) × (account_of m key ms ≡ some x) × (x.account_id ≡ a)

  module _ {P : Close.Db → List AccountMapping → PostingInput Float → Type 0} {Q : Type 0} where
    pure-Planned : Q → Planned P Q (pure tt)
    pure-Planned q = record {
      plan = λ c ms. ok none;
      carried_out = λ books. refl;
      facts = λ c ms i h. absurd (cc h);
      idle = λ c ms h. q;
    }

    raise_if-Planned :
        (c : Bool) (e : Error) (k : Action (Books Float) Error (Unit {0}))
        → Planned P Q k
        → Planned P Q (raise_if c e >> k)
    raise_if-Planned true e k p = record {
      plan = λ c ms. err e;
      carried_out = λ books. refl;
      facts = λ c ms i h. absurd (cc h);
      idle = λ c ms h. absurd (cc h);
    }
    raise_if-Planned false e k p = p

    if-Planned :
        (c : Bool) (k : Action (Books Float) Error (Unit {0}))
        → (c ≡ true → Q)
        → Planned P Q k
        → Planned P Q (if c then pure tt else k)
    if-Planned true k q p = pure-Planned (q refl)
    if-Planned false k q p = p

    resolve-Planned :
        (m key : String) (f : ℕ → Action (Books Float) Error (Unit {0}))
        → ((a : ℕ) → Planned (λ c ms i. Account m key a ms → P c ms i) Q (f a))
        → Planned P Q (resolve_account fl guard audited sha1 to_upper m key >>= f)
    unfolding resolve_account
    resolve-Planned m key f p = record {
      plan = λ c ms.
          resolve_plan (λ a. (p a).plan) (str_eq m "" || str_eq key "") (account_of m key ms) c ms;
      carried_out = λ books. elim (Bool-cases (str_eq m "" || str_eq key "")) [
        | inl bad ↦ rw bad refl
        | inr good ↦ elim (Option-cases (account_of m key books.mappings)) [
          | inl missing ↦ rw (good, missing) refl
          | inr (a, found) ↦ rw (good, found) ((p a.account_id).carried_out books)
        ]
      ];
      facts = λ c ms i h. elim (Bool-cases (str_eq m "" || str_eq key "")) [
        | inl bad ↦ absurd (cc (rw bad at h))
        | inr good ↦ elim (Option-cases (account_of m key ms)) [
          | inl missing ↦ absurd (cc (rw (good, missing) at h))
          | inr (a, found) ↦ (p a.account_id).facts c ms i (rw (good, found) at h) (a, found, refl)
        ]
      ];
      idle = λ c ms h. elim (Bool-cases (str_eq m "" || str_eq key "")) [
        | inl bad ↦ absurd (cc (rw bad at h))
        | inr good ↦ elim (Option-cases (account_of m key ms)) [
          | inl missing ↦ absurd (cc (rw (good, missing) at h))
          | inr (a, found) ↦ (p a.account_id).idle c ms (rw (good, found) at h)
        ]
      ];
    }

    post-Planned :
        (i : PostingInput Float)
        → ((c : Close.Db) (ms : List AccountMapping) → P c ms i)
        → Planned P Q (post fl guard audited sha1 to_upper i)
    post-Planned i h = record {
      plan = λ c ms. ok (some i);
      carried_out = λ books. refl;
      facts = λ c ms j e. subst (P c ms) (posting_of e) (h c ms);
      idle = λ c ms e. absurd (cc e);
    }

  -- The two lines of a posting.
  abbrev pub entry_line : ℕ → Float → Float → PostingLineInput Float
  entry_line account debit credit = record {
    account_id = account;
    debit = debit;
    credit = credit;
    company_id = none;
    branch_id = none;
    warehouse = none;
  }

  -- The posting that an event at the time `t` stands for, in the period `l`.
  abbrev pub FitsIn :
      ℕ → Promise Float → LedgerPeriodRow → List AccountMapping → PostingInput Float → Type 0
  FitsIn t x l ms i =
      (i.date ≡ t)
      × (i.period_id ≡ l.id)
      × (i.posted_by ≡ 0)
      × (i.source_module ≡ x.source_module)
      × (i.source_id ≡ sha1 x.source_ref)
      × (i.memo ≡ x.memo)
      × (debit : ℕ) × Account x.account_module x.debit_key debit ms
      × (credit : ℕ) × Account x.account_module x.credit_key credit ms
      × (i.lines
          ≡ entry_line debit x.amount zero_float ∷ entry_line credit zero_float x.amount ∷ [])

  abbrev pub Fits : ℕ → Promise Float → Close.Db → List AccountMapping → PostingInput Float → Type 0
  Fits t x c ms i =
      (l : LedgerPeriodRow) × (first_covering t none c.periods ≡ some l) × FitsIn t x l ms i

  abbrev period_plan :
      (LedgerPeriodRow → Close.Db → List AccountMapping → Decision)
      → Option LedgerPeriodRow
      → Close.Db
      → List AccountMapping
      → Decision
  period_plan f none c ms = err (ledger_error Journals.invalid_period)
  period_plan f (some l) c ms = f l c ms

  period-Planned :
      (t : ℕ) (x : Promise Float) {Q : Type 0}
      (f : LedgerPeriodRow → Action (Books Float) Error (Unit {0}))
      → ((l : LedgerPeriodRow) → Planned (λ c ms i. FitsIn t x l ms i) Q (f l))
      → Planned (Fits t x) Q (find_open_period_by_date fl t >>= f)
  unfolding find_open_period_by_date
  period-Planned t x f p = record {
    plan = λ c ms. period_plan (λ l. (p l).plan) (first_covering t none c.periods) c ms;
    carried_out = λ books. elim (Option-cases (first_covering t none books.ledger.close.periods)) [
      | inl missing ↦ rw missing refl
      | inr (l, found) ↦ rw found ((p l).carried_out books)
    ];
    facts = λ c ms i h. elim (Option-cases (first_covering t none c.periods)) [
      | inl missing ↦ absurd (cc (rw missing at h))
      | inr (l, found) ↦ (l, found, (p l).facts c ms i (rw found at h))
    ];
    idle = λ c ms h. elim (Option-cases (first_covering t none c.periods)) [
      | inl missing ↦ absurd (cc (rw missing at h))
      | inr (l, found) ↦ (p l).idle c ms (rw found at h)
    ];
  }

  pub grn-Planned :
      (e : GrnPostedEvent Float)
      → Planned
          (Fits e.received_at (grn_promise fl e))
          (eq (grn_promise fl e).amount zero_float ≡ true)
          (handle_grn_posted fl guard audited sha1 to_upper e)
  unfolding handle_grn_posted
  grn-Planned e =
      let value = ap (round2 fl) (grn_total-values fl zero_float e.lines) in
      raise_if-Planned (e.received_at == 0) received_date_required _ (
        period-Planned e.received_at (grn_promise fl e) _ λ l.
          resolve-Planned "GRN" "grn.inventory" _ λ a. resolve-Planned "GRN" "grn.grir" _ λ b.
            if-Planned (eq (round2 fl (grn_total fl zero_float e.lines)) zero_float) _
              (λ h. ap (λ v. eq v zero_float) (sym value) ∙ h)
              (post-Planned _ λ c ms to from. (
                refl,
                refl,
                refl,
                refl,
                refl,
                refl,
                a,
                from,
                b,
                to,
                ap (λ v. entry_line a v zero_float ∷ entry_line b zero_float v ∷ []) value,
              )))

  pub invoice-Planned :
      (e : ApInvoicePostedEvent Float)
      → Planned
          (Fits e.posted_at (invoice_promise fl e))
          (le e.total zero_float ≡ true)
          (handle_ap_invoice_posted fl guard audited sha1 to_upper e)
  unfolding handle_ap_invoice_posted
  invoice-Planned e = raise_if-Planned (e.posted_at == 0) post_date_required _ (
      if-Planned (le e.total zero_float) _ (λ h. h)
        (period-Planned e.posted_at (invoice_promise fl e) _ λ l.
          resolve-Planned "AP" (debit_key fl guard audited sha1 to_upper e) _ λ a.
            resolve-Planned "AP" "ap.invoice.ap" _ λ b.
              post-Planned _
                λ c ms to from. (refl, refl, refl, refl, refl, refl, a, from, b, to, refl)))

  pub payment-Planned :
      (e : ApPaymentPostedEvent Float)
      → Planned
          (Fits e.paid_at (payment_promise fl e))
          (le e.amount zero_float ≡ true)
          (handle_ap_payment_posted fl guard audited sha1 to_upper e)
  unfolding handle_ap_payment_posted
  payment-Planned e = raise_if-Planned (e.paid_at == 0) paid_date_required _ (
      if-Planned (le e.amount zero_float) _ (λ h. h)
        (period-Planned e.paid_at (payment_promise fl e) _ λ l.
          resolve-Planned "AP" "ap.payment.ap" _ λ a. resolve-Planned "AP" "ap.payment.cash" _ λ b.
            post-Planned _
              λ c ms to from. (refl, refl, refl, refl, refl, refl, a, from, b, to, refl)))

  adjustment-FitsIn :
      (e : AdjustmentPostedEvent Float) (l : LedgerPeriodRow) (ms : List AccountMapping)
      (inventory gain loss : ℕ)
      → Account "INVENTORY" "inventory.adjustment.loss" loss ms
      → Account "INVENTORY" "inventory.adjustment.gain" gain ms
      → Account "INVENTORY" "inventory.adjustment.inventory" inventory ms
      → FitsIn e.posted_at (adjustment_promise fl e) l ms (
          adjustment_posting fl guard audited sha1 to_upper e l.id inventory gain loss
            (round2 fl (mul (abs_value fl e.qty) e.unit_cost)))
  adjustment-FitsIn e l ms inventory gain loss down up held =
      elim (Bool-cases (lt zero_float e.qty)) [
        | inl more ↦ rw more (refl, refl, refl, refl, refl, refl, inventory, held, gain, up, refl)
        | inr less ↦ rw less (refl, refl, refl, refl, refl, refl, loss, down, inventory, held, refl)
      ]

  pub adjustment-Planned :
      (e : AdjustmentPostedEvent Float)
      → Planned
          (Fits e.posted_at (adjustment_promise fl e))
          ((lt (abs_value fl e.qty) nano ≡ true)
            ⊎ (eq (adjustment_promise fl e).amount zero_float ≡ true))
          (handle_inventory_adjustment_posted fl guard audited sha1 to_upper e)
  unfolding handle_inventory_adjustment_posted
  adjustment-Planned e = raise_if-Planned (e.posted_at == 0) adjustment_date_required _ (
      if-Planned (lt (abs_value fl e.qty) nano) _ (λ h. inl h)
        (period-Planned e.posted_at (adjustment_promise fl e) _ λ l.
          resolve-Planned "INVENTORY" "inventory.adjustment.inventory" _ λ inventory.
            resolve-Planned "INVENTORY" "inventory.adjustment.gain" _ λ gain.
              resolve-Planned "INVENTORY" "inventory.adjustment.loss" _ λ loss.
                if-Planned (eq (round2 fl (mul (abs_value fl e.qty) e.unit_cost)) zero_float) _
                  (λ h. inr h)
                  (post-Planned _ λ c ms down up held.
                    adjustment-FitsIn e l ms inventory gain loss down up held)))
