-- ===== src/Lib.antt =====
-- Odyssey ERP: the rules that its books rest on.
--
-- The program is a set of services over one PostgreSQL database. Modelled are:
--   * the period close (internal/close), which opens accounting periods, runs the checklist of a
--     close and locks periods;
--   * the journals of the general ledger (internal/accounting/journals), which post, void and
--     reverse entries in the periods that the close keeps; both meet in the table `periods` and in
--     the interface PeriodGuard, which the close service implements;
--   * the stock (internal/inventory), its balances and its card, with idempotency keys;
--   * the hooks (internal/integration) that carry receipts, supplier invoices and payments, and
--     stock adjustments to the journals;
--   * intercompany eliminations (internal/elimination), whose runs post to the journals;
--   * receivables (internal/ar) and quotations (internal/sales/quotations), on tables of their own.
--
-- A service call is a function from a database to a result or an error and a database
-- (Common/Calls.antt); WithTx rolls back on an error. A table is the list of its rows in the order
-- of insertion, a query a search in it; a day of a date column is a number, a time a
-- number of nanoseconds, an id a number as the column's sequence
-- deals it out, and uuid.Nil is 0.
--
--   Common        tests, list operations, calls, fmt.Sprintf("%d"); Float has float64 as a parameter,
--                 Cents and Fixed instances of it for the tests.
--   Close/Model   internal/close/domain.go, and the tables of migrations/000008 (rows as in
--                 internal/sqlc/close.sql.go). Periods, Runs: internal/close/repository.go.
--                 Service: internal/close/service.go, one function for each method, and one `_body`
--                 for the function that it runs in a transaction.
--                 Invariant, StatusChange, Inserts, Steps, Calls, Reachable: the invariant of the
--                 tables and that each call keeps it. Promises, Reopening, Atomic: what the calls do.
--   Journals/Model  dto.go and model.go of internal/accounting/journals, and internal/accounting/
--                 shared/errors.go. Repository: repository.go. Service: service.go.
--                 Validation, Writes, Posting, Sources, Again, Voids, Reversals, Atomic: what the
--                 calls do.
--                 Closed: both components together.
--   Quotations/Model  model.go and dto.go of internal/sales/quotations, and internal/sales/shared/
--                 calculations.go. Repository: repository.go. Service: service.go. States, Amounts,
--                 Totals, Revisions: the life of a quotation, and its totals.
--   Inventory/Model  internal/inventory/domain.go and events.go, and the tables of migrations/000003.
--                 Idempotency: internal/shared/idempotency.go. Repository: repository.go. Service:
--                 service.go; postMovement is post_movement, made of keyed_transaction (the key and
--                 the transaction), movement_body and write_movement.
--                 Movements, Recorded: one movement. Balances, Stock, Runs, Invariants: what is held,
--                 and sequences of calls. Transfers: PostTransfer and PostAdjustment.
--   Integration/Model  internal/procurement/events.go and internal/accounting/mappings/model.go. Hooks:
--                 internal/integration/hooks.go and mapper.go, with Get of mappings/repository.go and
--                 FindOpenPeriodByDate of periods/repository.go. Promises: what an event stands
--                 for. Plans: what each hook decides.
--                 Events, LastDay: the hooks over the journals. Adjustments: the stock service
--                 with the hooks, as cmd/odyssey/main.go puts them together.
--   Receivables/Model  internal/ar/domain.go, and the tables of migrations/000019 and 000022.
--                 Repository: internal/ar/repository.go and the trigger of migrations/000022.
--                 Service: internal/ar/service.go. Closed, Payments, Aging: what the calls do.
--   Elimination/Model  internal/elimination/domain.go, engine.go and repository.go, and the tables of
--                 migrations/000009. Service: internal/elimination/service.go over the journals.
--                 Amounts: its sums and its entry. Runs, Refused: what the simulation and
--                 the posting of a run do.
--
-- No function runs on fuel but the printing of a number, which has one round more than the number,
-- and so more than it has digits. Floats are a parameter: no law of them is assumed, save that the
-- theorem on reversals asks that the stored amounts are values of their columns, and the one on
-- negative stock that storing does not make an amount negative. The time stands still in a call.
--
-- Not modelled: HTTP handlers and templates, lists with paging, failures of the connection, numbers
-- that a sequence skips after a rollback, foreign keys to tables of other parts, audit metadata, and
-- two transactions at once (each call runs alone). The SQL functions that number invoices and
-- payments and the delivery service are parameters, and the uuid that a posted elimination makes is
-- an argument; so is how the database takes the two writes that PostRun makes after its entry.
-- Payables, procurement, deliveries, sales orders, consolidation, analytics, reports,
-- users and roles, master data and the plumbing around them are not modelled.
pub mod Common
pub mod Close
pub mod Journals
pub mod Quotations
pub mod Inventory
pub mod Integration
pub mod Receivables
pub mod Elimination
