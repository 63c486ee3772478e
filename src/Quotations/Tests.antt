-- ===== src/Quotations/Tests.antt =====
-- Two lines are quoted, submitted and rejected; the theorems at that run.
use odyssey_erp.Common.{ℕ, ◌≡◌, refl, none, some, [], ◌∷◌, err, sprint, String, Option}
use odyssey_erp.Common.Cents.{cents}
use odyssey_erp.Quotations.Model.{
  QuotationStatus, draft, doc_number_taken, invalid_status, QuotationRow, CreateQuotationLineReq,
  CreateQuotationRequest, UpdateQuotationRequest, Db,
}
use odyssey_erp.Quotations.Repository.{
  get, update_quotation, delete_lines, create, insert_line, update_status, generate_number,
  quotation_with_id, order_lines,
}
use odyssey_erp.Quotations.Service.{
  sum_lines, request_lines, create_body, create_quotation, update_draft, update_body, replace_lines,
  submit, reject, approve,
}

abbrev empty : Db ℕ
empty = record {
  quotations = [];
  lines = [];
  sequences = [];
  customers = 4 ∷ [];
  next_quotation = 1;
  next_line = 1;
  clock = 100;
}

abbrev ask : ℕ → ℕ → ℕ → ℕ → CreateQuotationLineReq ℕ
ask product price discount tax = record {
  product_id = product;
  description = none;
  quantity = 200;
  uom = "PCS";
  unit_price = price;
  discount_percent = discount;
  tax_percent = tax;
  notes = none;
  line_order = 0;
}

abbrev chairs : ℕ → CreateQuotationRequest ℕ
chairs company = record {
  company_id = company;
  customer_id = 4;
  quote_date = 20250310;
  valid_until = 20250410;
  currency = "IDR";
  notes = none;
  lines = ask 11 50000 1000 1100 ∷ ask 12 10000 0 1100 ∷ [];
}

quoted : Db ℕ
unfolding create_quotation generate_number sprint create_body create insert_line sum_lines
    request_lines get order_lines
quoted = (create_quotation cents (chairs 1) 7 empty).1

abbrev chairs_row : QuotationStatus → Option ℕ → Option ℕ → Option String → QuotationRow ℕ
chairs_row status by at reason = record {
  id = 1;
  doc_number = "QT-2503-0001";
  company_id = 1;
  customer_id = 4;
  quote_date = 20250310;
  valid_until = 20250410;
  status = status;
  currency = "IDR";
  subtotal = 110000;
  tax_amount = 12100;
  total_amount = 122100;
  notes = none;
  created_by = 7;
  approved_by = none;
  approved_at = none;
  rejected_by = by;
  rejected_at = at;
  rejection_reason = reason;
  created_at = 100;
  updated_at = 100;
}

drafted : quotation_with_id cents 1 quoted ≡ some (chairs_row draft none none none)
unfolding quoted
drafted = refl

-- The number counts for each company, and is unique for all of them: the second company's first
-- quotation of a month fails.
second_company : (create_quotation cents (chairs 2) 7 quoted).0 ≡ err doc_number_taken
unfolding quoted
second_company = refl

refused : Db ℕ
unfolding quoted submit reject update_status
refused = (reject cents 1 9 "too dear" (submit cents 1 7 quoted).1).1

late_approval : (approve cents 1 9 refused).0 ≡ err invalid_status
unfolding refused approve
late_approval = refl

abbrev fewer : UpdateQuotationRequest ℕ
fewer = record {
  quote_date = none;
  valid_until = none;
  notes = some "one kind only";
  lines = some (ask 11 50000 0 1100 ∷ []);
}

revised : Db ℕ
unfolding quoted update_draft update_body update_quotation replace_lines delete_lines
revised = (update_draft cents 1 fewer quoted).1
