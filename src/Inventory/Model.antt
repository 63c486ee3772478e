-- ===== src/Inventory/Model.antt =====
-- internal/inventory/domain.go and events.go, and the tables of migrations/000003. `L` is what the
-- ledger's integration keeps of its own.
use odyssey_erp.Common.{ℕ, String, Option, List}

pub data TransactionType : Type 0 where
  inbound outbound transfer adjust : TransactionType

pub data Error : Type 0 where
  warehouse_and_product_required warehouses_must_differ negative_stock : Error
  invalid_quantity invalid_unit_cost invalid_ref_id code_taken : Error
  already_processed key_required module_required invalid_range : Error
  integration_failed : Error

-- A row of `inventory_tx`.
pub record Transaction : Type 0 where
  pub id : ℕ
  pub code : String
  pub tx_type : TransactionType
  pub warehouse_id : ℕ
  pub ref_module : String
  pub ref_id : Option ℕ
  pub note : String
  pub posted_at : ℕ
  pub created_by : ℕ
  pub created_at : ℕ

pub record TransactionLine (F : Type 0) : Type 0 where
  pub id : ℕ
  pub transaction_id : ℕ
  pub product_id : ℕ
  pub qty : F
  pub unit_cost : F
  pub src_warehouse_id : ℕ
  pub dst_warehouse_id : ℕ

pub record Balance (F : Type 0) : Type 0 where
  pub warehouse_id : ℕ
  pub product_id : ℕ
  pub qty : F
  pub avg_cost : F
  pub updated_at : ℕ

pub record StockCardEntry (F : Type 0) : Type 0 where
  pub tx_code : String
  pub tx_type : TransactionType
  pub posted_at : ℕ
  pub qty_in : F
  pub qty_out : F
  pub balance_qty : F
  pub unit_cost : F
  pub balance_cost : F
  pub note : String

-- A row of `inventory_cards`.
pub record CardRow (F : Type 0) : Type 0 where
  pub id : ℕ
  pub warehouse_id : ℕ
  pub product_id : ℕ
  pub tx_id : ℕ
  pub card : StockCardEntry F

pub record AdjustmentInput (F : Type 0) : Type 0 where
  pub code : String
  pub warehouse_id : ℕ
  pub product_id : ℕ
  pub qty : F
  pub unit_cost : F
  pub note : String
  pub actor_id : ℕ
  pub ref_module : String
  pub ref_id : String

pub record TransferInput (F : Type 0) : Type 0 where
  pub code : String
  pub product_id : ℕ
  pub qty : F
  pub src_warehouse : ℕ
  pub dst_warehouse : ℕ
  pub unit_cost : F
  pub note : String
  pub actor_id : ℕ
  pub ref_module : String
  pub ref_id : String

pub record InboundInput (F : Type 0) : Type 0 where
  pub code : String
  pub warehouse_id : ℕ
  pub product_id : ℕ
  pub qty : F
  pub unit_cost : F
  pub note : String
  pub actor_id : ℕ
  pub ref_module : String
  pub ref_id : String

-- A bound that is zero is absent.
pub record StockCardFilter : Type 0 where
  pub warehouse_id : ℕ
  pub product_id : ℕ
  pub from_date : ℕ
  pub to_date : ℕ
  pub limit : ℕ

pub record MovementParams (F : Type 0) : Type 0 where
  pub code : String
  pub warehouse_id : ℕ
  pub product_id : ℕ
  pub qty_change : F
  pub unit_cost : F
  pub tx_type : TransactionType
  pub note : String
  pub actor_id : ℕ
  pub ref_module : String
  pub ref_id : String

pub record AdjustmentPostedEvent (F : Type 0) : Type 0 where
  pub code : String
  pub warehouse_id : ℕ
  pub product_id : ℕ
  pub qty : F
  pub unit_cost : F
  pub posted_at : ℕ

-- A row of `idempotency_keys`.
pub record KeyRow : Type 0 where
  pub key : String
  pub module_name : String
  pub created_at : ℕ

-- What an audit record says, its metadata left out; its time is not set.
pub record AuditLog : Type 0 where
  pub actor_id : ℕ
  pub action : String
  pub entity : String
  pub entity_id : String

pub record Db (F L : Type 0) : Type 0 where
  pub balances : List (Balance F)
  pub transactions : List Transaction
  pub tx_lines : List (TransactionLine F)
  pub cards : List (CardRow F)
  pub keys : List KeyRow
  pub audits : List AuditLog
  pub ledger : L
  pub next_tx : ℕ
  pub next_line : ℕ
  pub next_card : ℕ
  pub clock : ℕ
