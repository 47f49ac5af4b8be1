-- ===== src/Lib.antt =====
-- A verification library for the RemoteOrder server: the stock, document and price services, the
-- bulk reposting of documents, the maintenance lock and the allocation of payments; and the
-- handlers of realizations, orders, price documents, price types, counterparties, client
-- synchronisation, the collection schedule and authentication, and the reports on stock, sales and
-- money.
--
-- The server keeps its state in PostgreSQL. A service runs queries, inside a transaction, and
-- throws on an error. Here `Db` is the state of the tables, a query is a function on lists of rows,
-- and a service is a function `Tx A = Db → Result A × Db` that returns or throws; `transaction`
-- commits or rolls back.
--
-- Files, and what they model (paths from the repository's root):
--   Common        lists, queries on rows (Sql), groups of rows, sums, sorting, integers and texts
--   Db            the tables: src/seed.ts, src/migrate_v4.ts, v5, v7 and v8, src/migrations
--   Tx            queries that may throw, and transactions
--   Inventory     src/services/inventoryService.ts: addStock, deductStock, returnStock
--   Realization   src/services/realizationService.ts: post, unpost
--   Documents     what the services of receipts and returns share
--   DocNumber     src/utils/docNumberGenerator.ts: generateDocNumber
--   GoodsReceipt  src/services/goodsReceiptService.ts: create, update, post, unpost, delete
--   BuyerReturn   src/services/buyerReturnService.ts: the same five
--   SupplierReturn src/services/supplierReturnService.ts: the same five
--   Pricing       src/services/priceService.ts and priceDocumentService.ts: setPrice, apply;
--                 src/utils/productTransformer.ts: transformProductForUser
--   Reposting     src/services/documentRepostingService.ts: run
--   Lock          src/middleware/lockMiddleware.ts: lockMiddleware
--   Finance       src/routes/finance.ts: the handlers that change cash transactions
--   Caller        what handlers read of req.user, and the warehouse they force on it
--   Sales         src/routes/realization.ts: create, from-order, edit, delete, list
--   PriceDocs     src/controllers/priceDocumentController.ts: create, edit, copy, apply
--   Orders        src/routes/admin.ts: the handlers of orders
--   Sync          src/routes/sync.ts: push, full, pull, the prices of products, status
--   Schedule      src/routes/collection-schedule.ts
--   PriceTypes    src/routes/priceTypes.ts
--   Reports       src/routes/reports.ts: stock balances, movement, sales, reconciliation, cash flow
--   Counterparties src/routes/counterparties.ts, and the groups that a report goes through
--   Auth          src/middleware/auth.ts, src/routes/auth.ts and (Auth.Users) users.ts
--   Tests         a small shop, runs on it, and the theorems applied to it
-- A component's lemmas stand in its child modules: Inventory.Deduct, .Plan and .Return turn the
-- loops of queries into functions on the whole table, Inventory.Balance has the accounting of
-- batches, Inventory.Level the stock as one number, and Inventory.Owned the links of one document;
-- Realization.Body and the Steps modules take apart the loops of `post`, and Finance.Paid and
-- .Shares the allocation of a payment; Inventory.Rounded and Finance.Rounded read both loops over
-- the numbers of JavaScript. GoodsReceipt.Race has two calls of `post` whose steps interleave.
-- Reports has a module for each report and Handlers for what the routes do before the queries;
-- Counterparties.Below walks the groups.
--
-- How the parts interact: realizations and supplier returns take stock through `deduct_stock` and
-- remember what they took in link tables, from which `unpost` gives it back; receipts and buyer
-- returns add batches through `add_stock`; the reposting calls the services inside one transaction,
-- and the middleware reads the lock that it sets. The handlers of `Sales` make the documents that
-- `Realization` posts, from the orders that `Orders` and `Sync` write; the controller of price
-- documents applies them as the service does that the reposting calls. The reports read the tables
-- that the services and the handlers of cash transactions write.
--
-- Choices. Quantities are integers of thousandths (DECIMAL(10,3)), prices and amounts of hundredths
-- (DECIMAL(10,2)), so that a product is exact, in hundred-thousandths, and a profit compares with
-- `scaled` amounts. The code computes with floating-point numbers. In the two loops that compare a
-- remainder of subtractions with zero they are a parameter, the record `Numbers` of Common.Doubles:
-- `deduct_loop_by` and `deduct_stock_by`, `allocate_loop_by` and `allocate_payment_by`. There an
-- integer counts any unit in which the decimals and the doubles are whole, and `IsExact js P` says
-- that the doubles `js` are exact on the values of `P`, as those of IEEE 754 are on multiples of
-- 1/8, or of 1/4, below 2 ^ 50; on other decimals the remainder may be wrong, and nothing is
-- claimed. `deduct_stock` and `allocate_payment` are the same definitions with exact numbers, and
-- all other code is modelled on values on which the doubles are exact. The range of the columns is
-- not modelled. Storing an amount rounds it by `round_amount` of `Env`, any function. `Env` also
-- has the clock, the generated ids and the calendar. A query without ORDER BY gives rows in the
-- order of insertion. A primary key is a hypothesis where it is needed. Dates are given in the
-- requests that carry one; the days of a report are numbers, and midnight is the day times
-- 86400000. One call runs at a time, but in GoodsReceipt.Race. jsonwebtoken, bcryptjs,
-- toLocaleDateString and the calendar of the database are parameters, as is whether the log of a
-- pushed change can be stored. A field of a JSON body is there with a value or is missing. All
-- recursion is structural, but for the digits of a number, whose fuel is the number plus one, and
-- the recursive query of groups, whose fuel is the number of groups.
--
-- Not modelled: the controllers of receipts and returns, which map the messages of the services to
-- a status, and the reads of the services after a COMMIT; the picking list, whose query names a
-- column that no schema has; the products of admin.ts, and the directory of organizations; handlers
-- that only read for display, migrations, log lines and events, the scripts of the root directory
-- and the built client.
pub mod Common
pub mod Db
pub mod Tx
pub mod Inventory
pub mod Realization
pub mod DocNumber
pub mod Documents
pub mod GoodsReceipt
pub mod BuyerReturn
pub mod SupplierReturn
pub mod Pricing
pub mod Lock
pub mod Reposting
pub mod Finance
mod Tests
pub mod Auth
pub mod Caller
pub mod Sales
pub mod PriceDocs
pub mod Orders
pub mod Sync
pub mod Schedule
pub mod PriceTypes
pub mod Reports
pub mod Counterparties
