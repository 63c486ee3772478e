-- ===== src/Quotations/Model.antt =====
-- internal/sales/quotations/model.go and dto.go, internal/sales/shared/calculations.go, and the
-- tables of migrations/000011 and 000024. A date is the number yyyymmdd, so an earlier date is a
-- smaller number.
use odyssey_erp.Common.{ℕ, String, Option, List}
use odyssey_erp.Common.Float.{FloatOps}

pub data QuotationStatus : Type 0 where
  draft submitted approved rejected converted : QuotationStatus

pub data Error : Type 0 where
  dates_reversed customer_not_found not_found invalid_status : Error
  constraint_violated doc_number_taken : Error

-- A row of `quotations`.
pub record QuotationRow (F : Type 0) : Type 0 where
  pub id : ℕ
  pub doc_number : String
  pub company_id : ℕ
  pub customer_id : ℕ
  pub quote_date : ℕ
  pub valid_until : ℕ
  pub status : QuotationStatus
  pub currency : String
  pub subtotal : F
  pub tax_amount : F
  pub total_amount : F
  pub notes : Option String
  pub created_by : ℕ
  pub approved_by : Option ℕ
  pub approved_at : Option ℕ
  pub rejected_by : Option ℕ
  pub rejected_at : Option ℕ
  pub rejection_reason : Option String
  pub created_at : ℕ
  pub updated_at : ℕ

pub record QuotationLine (F : Type 0) : Type 0 where
  pub id : ℕ
  pub quotation_id : ℕ
  pub product_id : ℕ
  pub description : Option String
  pub quantity : F
  pub uom : String
  pub unit_price : F
  pub discount_percent : F
  pub discount_amount : F
  pub tax_percent : F
  pub tax_amount : F
  pub line_total : F
  pub notes : Option String
  pub line_order : ℕ
  pub created_at : ℕ
  pub updated_at : ℕ

-- type Quotation struct
pub record Quotation (F : Type 0) : Type 0 where
  pub row : QuotationRow F
  pub lines : List (QuotationLine F)

pub record CreateQuotationLineReq (F : Type 0) : Type 0 where
  pub product_id : ℕ
  pub description : Option String
  pub quantity : F
  pub uom : String
  pub unit_price : F
  pub discount_percent : F
  pub tax_percent : F
  pub notes : Option String
  pub line_order : ℕ

pub record CreateQuotationRequest (F : Type 0) : Type 0 where
  pub company_id : ℕ
  pub customer_id : ℕ
  pub quote_date : ℕ
  pub valid_until : ℕ
  pub currency : String
  pub notes : Option String
  pub lines : List (CreateQuotationLineReq F)

pub record UpdateQuotationRequest (F : Type 0) : Type 0 where
  pub quote_date : Option ℕ
  pub valid_until : Option ℕ
  pub notes : Option String
  pub lines : Option (List (CreateQuotationLineReq F))

-- A row of `document_sequences` of the type QT.
pub record SequenceRow : Type 0 where
  pub company_id : ℕ
  pub period : String
  pub seq : ℕ

-- `customers` holds the ids of the customers that are there.
pub record Db (F : Type 0) : Type 0 where
  pub quotations : List (QuotationRow F)
  pub lines : List (QuotationLine F)
  pub sequences : List SequenceRow
  pub customers : List ℕ
  pub next_quotation : ℕ
  pub next_line : ℕ
  pub clock : ℕ

module _ (fl : FloatOps) where
  open fl use {Float, hundred, add, sub, mul, div}

  -- func CalculateLineTotals: the discount, the tax and the line's total.
  abbrev pub calculate_line_totals : Float → Float → Float → Float → Float × Float × Float
  calculate_line_totals quantity unit_price discount_percent tax_percent =
      let gross = mul quantity unit_price in
      let discount = mul gross (div discount_percent hundred) in
      let net = sub gross discount in
      let tax = mul net (div tax_percent hundred) in (discount, tax, add net tax)
