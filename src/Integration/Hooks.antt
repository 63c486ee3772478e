-- ===== src/Integration/Hooks.antt =====
-- internal/integration/hooks.go and mapper.go, with Get of internal/accounting/mappings/repository.go
-- and FindOpenPeriodByDate of internal/accounting/periods/repository.go. The hooks are built with all
-- of their parts. uuid.NewSHA1 with the nil space is a parameter, and so is strings.ToUpper.
use odyssey_erp.Common.{
  ℕ, ◌/◌, Bool, true, false, ◌&&◌, ◌||◌, Option, none, List, [], ◌∷◌, ◌+str◌, String, str_eq, ◌==◌,
  leb, if◌then◌else◌, find, sprint, Result, ok, err, Action, pure, gets, or_raise, raise_if, ◌>>=◌,
  ◌>>◌,
}
use odyssey_erp.Common.Float.{FloatOps}
use odyssey_erp.Close.Model.{LedgerPeriodRow}
use odyssey_erp.Journals.Model as Journals
use odyssey_erp.Journals.Model.{PostingInput, PostingLineInput, JournalEntry, day}
use odyssey_erp.Journals.Repository.{is_open, earlier}
use odyssey_erp.Journals.Service.{Guard, post_journal}
use odyssey_erp.Inventory.Model.{AdjustmentPostedEvent}
use odyssey_erp.Integration.Model.{
  Error, received_date_required, post_date_required, paid_date_required, adjustment_date_required,
  source_required, mapping_not_found, module_and_key_required, ledger_error, Books, GrnLineEvent,
  GrnPostedEvent, ApInvoicePostedEvent, ApPaymentPostedEvent,
}

-- WHERE status = 'OPEN' AND date BETWEEN start_date AND end_date ORDER BY start_date LIMIT 1: the
-- column's type makes a date of the time.
abbrev covers : ℕ → LedgerPeriodRow → Bool
covers t l = is_open l.status && leb l.start_date (t / day) && leb (t / day) l.end_date

unfoldable pub first_covering :
    ℕ → Option LedgerPeriodRow → List LedgerPeriodRow → Option LedgerPeriodRow
first_covering t best [] = best
first_covering t best (l ∷ ls) = first_covering t (if covers t l then earlier best l else best) ls

-- errors.Is(err, ErrSourceAlreadyLinked)
abbrev pub is_source_linked : Journals.Error → Bool
is_source_linked Journals.source_already_linked = true
is_source_linked e = false

module _ (fl : FloatOps) where
  open fl use {Float, zero as zero_float, hundred, add, mul, div, neg, round, lt, le, eq, nano}

  unfoldable pub find_open_period_by_date : ℕ → Action (Books Float) Error LedgerPeriodRow
  find_open_period_by_date t = do
    books ← gets (λ books. books)
    or_raise (first_covering t none books.ledger.close.periods)
        (ledger_error Journals.invalid_period)

  abbrev pub round2 : Float → Float
  round2 v = div (round (mul v hundred)) hundred

  abbrev pub monetary : Float → Float → Float
  monetary qty unit_cost = round2 (mul qty unit_cost)

  abbrev pub abs_value : Float → Float
  abs_value v = if lt v zero_float then neg v else v

  -- The sum over the lines of a goods receipt.
  unfoldable pub grn_total : Float → List (GrnLineEvent Float) → Float
  grn_total acc [] = acc
  grn_total acc (l ∷ ls) = grn_total (add acc (monetary l.qty l.unit_cost)) ls

  abbrev pub debit_line : ℕ → Float → PostingLineInput Float
  debit_line account amount = record {
    account_id = account;
    debit = amount;
    credit = zero_float;
    company_id = none;
    branch_id = none;
    warehouse = none;
  }

  abbrev pub credit_line : ℕ → Float → PostingLineInput Float
  credit_line account amount = record {
    account_id = account;
    debit = zero_float;
    credit = amount;
    company_id = none;
    branch_id = none;
    warehouse = none;
  }

  -- The posting of an event: one amount from an account to another. No hook says who posts.
  abbrev pub event_posting : ℕ → ℕ → String → ℕ → String → ℕ → ℕ → Float → PostingInput Float
  event_posting period date source_module source memo debit credit amount = record {
    period_id = period;
    date = date;
    source_module = source_module;
    source_id = source;
    memo = memo;
    posted_by = 0;
    lines = debit_line debit amount ∷ credit_line credit amount ∷ [];
  }

  module _ (guard : Option Guard) (audited : Bool) (sha1 : String → ℕ)
      (to_upper : String → String) where
    -- Get of the mappings, and its account.
    unfoldable pub resolve_account : String → String → Action (Books Float) Error ℕ
    resolve_account module_name key = do
      raise_if (str_eq module_name "" || str_eq key "") module_and_key_required
      books ← gets (λ books. books)
      mapping ←
          or_raise
            (find (λ m. str_eq m.module_name (to_upper module_name) && str_eq m.key key)
              books.mappings)
            mapping_not_found
      pure mapping.account_id

    -- An answer of the ledger: a source that is linked already is no error here, though the ledger has no
    -- such answer (Journals/Repository.antt: link_source).
    abbrev pub posted_answer :
        Books Float
        → Result Journals.Error (JournalEntry Float) × Journals.Db Float
        → Result Error (Unit {0}) × Books Float
    posted_answer books (ok entry, ledger) = (ok tt, record books { ledger = ledger })
    posted_answer books (err e, ledger) =
        if is_source_linked e
        then (ok tt, record books { ledger = ledger })
        else (err (ledger_error e), record books { ledger = ledger })

    unfoldable pub post : PostingInput Float → Action (Books Float) Error (Unit {0})
    post i = do
      raise_if (i.source_id == 0) source_required
      (λ books. posted_answer books (post_journal fl guard audited i books.ledger))

    unfoldable pub handle_grn_posted : GrnPostedEvent Float → Action (Books Float) Error (Unit {0})
    handle_grn_posted e = do
      raise_if (e.received_at == 0) received_date_required
      period ← find_open_period_by_date e.received_at
      inventory ← resolve_account "GRN" "grn.inventory"
      grir ← resolve_account "GRN" "grn.grir"
      (if eq (round2 (grn_total zero_float e.lines)) zero_float
          then pure tt
          else post (
              event_posting period.id e.received_at "PROCUREMENT.GRN"
                (sha1 ("GRN:" +str sprint e.id)) ("GRN " +str e.number) inventory grir
                (round2 (grn_total zero_float e.lines))))

    abbrev pub debit_key : ApInvoicePostedEvent Float → String
    debit_key e = if e.grn_id == 0 then "ap.invoice.expense" else "ap.invoice.inventory"

    unfoldable pub handle_ap_invoice_posted :
        ApInvoicePostedEvent Float → Action (Books Float) Error (Unit {0})
    handle_ap_invoice_posted e = do
      raise_if (e.posted_at == 0) post_date_required
      (if le e.total zero_float then pure tt else do
        period ← find_open_period_by_date e.posted_at
        debit ← resolve_account "AP" (debit_key e)
        ap_account ← resolve_account "AP" "ap.invoice.ap"
        post (
            event_posting period.id e.posted_at "PROCUREMENT.AP_INVOICE"
              (sha1 ("APINV:" +str sprint e.id)) ("AP Invoice " +str e.number) debit ap_account
              (round2 e.total)))

    unfoldable pub handle_ap_payment_posted :
        ApPaymentPostedEvent Float → Action (Books Float) Error (Unit {0})
    handle_ap_payment_posted e = do
      raise_if (e.paid_at == 0) paid_date_required
      (if le e.amount zero_float then pure tt else do
        period ← find_open_period_by_date e.paid_at
        ap_account ← resolve_account "AP" "ap.payment.ap"
        cash ← resolve_account "AP" "ap.payment.cash"
        post (
            event_posting period.id e.paid_at "PROCUREMENT.AP_PAYMENT"
              (sha1 ("APPAY:" +str sprint e.id)) ("AP Payment " +str e.number) ap_account cash
              (round2 e.amount)))

    -- The posting of an adjustment: a gain, or a loss.
    abbrev pub adjustment_posting :
        AdjustmentPostedEvent Float → ℕ → ℕ → ℕ → ℕ → Float → PostingInput Float
    adjustment_posting e period inventory gain loss amount =
        event_posting period e.posted_at "INVENTORY.ADJUSTMENT"
          (sha1 ("ADJ:" +str (e.code +str (":" +str sprint e.product_id))))
          ("Inventory Adjustment " +str e.code) (if lt zero_float e.qty then inventory else loss)
          (if lt zero_float e.qty then gain else inventory) amount

    unfoldable pub handle_inventory_adjustment_posted :
        AdjustmentPostedEvent Float → Action (Books Float) Error (Unit {0})
    handle_inventory_adjustment_posted e = do
      raise_if (e.posted_at == 0) adjustment_date_required
      (if lt (abs_value e.qty) nano then pure tt else do
        period ← find_open_period_by_date e.posted_at
        inventory ← resolve_account "INVENTORY" "inventory.adjustment.inventory"
        gain ← resolve_account "INVENTORY" "inventory.adjustment.gain"
        loss ← resolve_account "INVENTORY" "inventory.adjustment.loss"
        (if eq (round2 (mul (abs_value e.qty) e.unit_cost)) zero_float
            then pure tt
            else post (
                adjustment_posting e period.id inventory gain loss
                  (round2 (mul (abs_value e.qty) e.unit_cost)))))
