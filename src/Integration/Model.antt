-- ===== src/Integration/Model.antt =====
-- internal/procurement/events.go, internal/accounting/mappings/model.go and the tables that the hooks
-- read and write. A time 0 is the zero time.
use odyssey_erp.Common.{ℕ, String, List}
use odyssey_erp.Journals.Model as Journals

pub data Error : Type 0 where
  received_date_required post_date_required paid_date_required adjustment_date_required : Error
  source_required mapping_not_found module_and_key_required : Error
  ledger_error : Journals.Error → Error

pub record AccountMapping : Type 0 where
  pub module_name : String
  pub key : String
  pub account_id : ℕ

-- The ledger, and the table `account_mappings`.
pub record Books (F : Type 0) : Type 0 where
  pub ledger : Journals.Db F
  pub mappings : List AccountMapping

pub record GrnLineEvent (F : Type 0) : Type 0 where
  pub product_id : ℕ
  pub qty : F
  pub unit_cost : F

pub record GrnPostedEvent (F : Type 0) : Type 0 where
  pub id : ℕ
  pub number : String
  pub supplier_id : ℕ
  pub warehouse_id : ℕ
  pub received_at : ℕ
  pub lines : List (GrnLineEvent F)

pub record ApInvoicePostedEvent (F : Type 0) : Type 0 where
  pub id : ℕ
  pub number : String
  pub supplier_id : ℕ
  pub grn_id : ℕ
  pub total : F
  pub posted_at : ℕ

pub record ApPaymentPostedEvent (F : Type 0) : Type 0 where
  pub id : ℕ
  pub number : String
  pub ap_invoice_id : ℕ
  pub amount : F
  pub paid_at : ℕ
