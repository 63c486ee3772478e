-- ===== src/Integration/Promises.antt =====
-- What each event stands for in the ledger, said apart from the hooks (internal/integration/hooks.go).
use odyssey_erp.Common.{◌≡◌, refl, List, [], ◌∷◌, map, ◌+str◌, String, sprint, ◌==◌, if◌then◌else◌}
use odyssey_erp.Common.Float.{FloatOps}
use odyssey_erp.Inventory.Model.{AdjustmentPostedEvent}
use odyssey_erp.Integration.Model.{
  GrnLineEvent, GrnPostedEvent, ApInvoicePostedEvent, ApPaymentPostedEvent,
}
use odyssey_erp.Integration.Hooks.{grn_total}

-- The source of an entry, the keys of its accounts, and the amount that goes from the credit to the
-- debit.
pub record Promise (F : Type 0) : Type 0 where
  pub source_module : String
  pub source_ref : String
  pub memo : String
  pub account_module : String
  pub debit_key : String
  pub credit_key : String
  pub amount : F

module _ (fl : FloatOps) where
  open fl use {Float, zero as zero_float, hundred, add, mul, div, neg, round, lt}

  abbrev to_cents : Float → Float
  to_cents v = div (round (mul v hundred)) hundred

  unfoldable pub sum_of : Float → List Float → Float
  sum_of acc [] = acc
  sum_of acc (v ∷ vs) = sum_of (add acc v) vs

  abbrev line_values : List (GrnLineEvent Float) → List Float
  line_values ls = map (λ l. to_cents (mul l.qty l.unit_cost)) ls

  pub grn_total-values :
      (acc : Float) (ls : List (GrnLineEvent Float))
      → grn_total fl acc ls ≡ sum_of acc (line_values ls)
  unfolding grn_total sum_of
  grn_total-values acc [] = refl
  grn_total-values acc (l ∷ ls) = grn_total-values (add acc (to_cents (mul l.qty l.unit_cost))) ls

  abbrev pub grn_promise : GrnPostedEvent Float → Promise Float
  grn_promise e = record {
    source_module = "PROCUREMENT.GRN";
    source_ref = "GRN:" +str sprint e.id;
    memo = "GRN " +str e.number;
    account_module = "GRN";
    debit_key = "grn.inventory";
    credit_key = "grn.grir";
    amount = to_cents (sum_of zero_float (line_values e.lines));
  }

  abbrev pub invoice_promise : ApInvoicePostedEvent Float → Promise Float
  invoice_promise e = record {
    source_module = "PROCUREMENT.AP_INVOICE";
    source_ref = "APINV:" +str sprint e.id;
    memo = "AP Invoice " +str e.number;
    account_module = "AP";
    debit_key = if e.grn_id == 0 then "ap.invoice.expense" else "ap.invoice.inventory";
    credit_key = "ap.invoice.ap";
    amount = to_cents e.total;
  }

  abbrev pub payment_promise : ApPaymentPostedEvent Float → Promise Float
  payment_promise e = record {
    source_module = "PROCUREMENT.AP_PAYMENT";
    source_ref = "APPAY:" +str sprint e.id;
    memo = "AP Payment " +str e.number;
    account_module = "AP";
    debit_key = "ap.payment.ap";
    credit_key = "ap.payment.cash";
    amount = to_cents e.amount;
  }

  -- A gain raises the stock, a loss lowers it.
  abbrev pub adjustment_promise : AdjustmentPostedEvent Float → Promise Float
  adjustment_promise e =
      let size = if lt e.qty zero_float then neg e.qty else e.qty in
      let gain = lt zero_float e.qty in
      record {
        source_module = "INVENTORY.ADJUSTMENT";
        source_ref = "ADJ:" +str (e.code +str (":" +str sprint e.product_id));
        memo = "Inventory Adjustment " +str e.code;
        account_module = "INVENTORY";
        debit_key = if gain then "inventory.adjustment.inventory" else "inventory.adjustment.loss";
        credit_key = if gain then "inventory.adjustment.gain" else "inventory.adjustment.inventory";
        amount = to_cents (mul size e.unit_cost);
      }
