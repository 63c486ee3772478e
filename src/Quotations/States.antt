-- ===== src/Quotations/States.antt =====
-- The life of a quotation (internal/sales/quotations/service.go): what is decided stays decided.
use odyssey_erp.Common.{ℕ, Bool, true, false, not, ◌≡◌, some, String, Action, raise_if, ◌>>=◌, ◌>>◌}
use odyssey_erp.Common.Float.{FloatOps}
use odyssey_erp.Quotations.Model.{
  QuotationStatus, draft, submitted, approved, rejected, converted, Error, QuotationRow, Quotation,
  CreateQuotationRequest, UpdateQuotationRequest, Db,
}
use odyssey_erp.Quotations.Repository.{get, quotation_with_id}
use odyssey_erp.Quotations.Service.{create_quotation, update_draft, submit, approve, reject}

-- A quotation on which the decision is made.
abbrev pub is_decided : QuotationStatus → Bool
is_decided draft = false
is_decided submitted = false
is_decided approved = true
is_decided rejected = true
is_decided converted = true

-- The calls of the service that may write.
pub data Request (F : Type 0) : Type 0 where
  creating : CreateQuotationRequest F → ℕ → Request F
  updating : ℕ → UpdateQuotationRequest F → Request F
  submitting approving : ℕ → ℕ → Request F
  rejecting : ℕ → ℕ → String → Request F

module _ (fl : FloatOps) where
  open fl use {Float}

  -- The tables after a call, whatever it answers.
  abbrev pub after : Request Float → Db Float → Db Float
  after (creating req by) db = (create_quotation fl req by db).1
  after (updating k req) db = (update_draft fl k req db).1
  after (submitting k user) db = (submit fl k user db).1
  after (approving k user) db = (approve fl k user db).1
  after (rejecting k user reason) db = (reject fl k user reason db).1

  abbrev guarded :
      ℕ
      → (QuotationStatus → Bool)
      → Error
      → (Quotation Float → Action (Db Float) Error (Unit {0}))
      → Action (Db Float) Error (Quotation Float)
  guarded j test e m = do
    existing ← get fl j
    raise_if (not (test existing.row.status)) e
    m existing
    get fl j

  module _ (k : ℕ) (q : QuotationRow Float) where
    abbrev Has : Db Float → Type 0
    Has db = quotation_with_id fl k db ≡ some q
