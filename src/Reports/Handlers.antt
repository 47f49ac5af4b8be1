-- ===== src/Reports/Handlers.antt =====
-- What the routes of reports.ts do before their queries: the warehouse of the user, and the
-- parameters that are missing. `none` is the answer 400.
pub mod Guarded
use remote_order_server.Common.{ℕ, Bool, Option, none, some, List, [], ◌∷◌, get_or, Text}
use remote_order_server.Db.{Db}
use remote_order_server.Caller.{Caller, own_warehouse, forced_warehouse}
use remote_order_server.Reports.Stock.{StockRow, stock_balances}
use remote_order_server.Reports.Movement.{Turnover, movement}
use remote_order_server.Reports.Sales.{
  Filter, ClientRow, ProductRow, DetailRow, by_client, by_product, client_details,
}
use remote_order_server.Reports.Reconciliation.{Account, reconcile, reconcile_group}

-- GET /stock-balances; without a date it is of today.
unfoldable pub get_stock_balances : Option Caller → Option ℕ → Option ℕ → ℕ → Db → List StockRow
unfolding stock_balances
get_stock_balances user warehouse date today db =
    stock_balances (forced_warehouse user warehouse) (get_or date today) db

-- GET /inventory-movement
unfoldable pub get_movement :
    Option Caller → Option ℕ → Option ℕ → Option ℕ → Db → Option (List Turnover)
unfolding movement
get_movement user none to warehouse db = none
get_movement user (some from) none warehouse db = none
get_movement user (some from) (some to) warehouse db = elim (forced_warehouse user warehouse) [
  | none ↦ none
  | some w ↦ some (movement from to w db)
]

-- The parameters of the reports on sales, of which `named` is the test of the client's name.
pub record SalesQuery : Type 0 where
  pub from : Option ℕ
  pub to : Option ℕ
  pub sales_type : Option Text
  pub named : Option (ℕ → Bool)
  pub grouping : Bool

unfoldable pub filter_of : Option Caller → SalesQuery → Filter
filter_of user q = record {
  warehouse = own_warehouse user;
  from = q.from;
  to = q.to;
  sales_type = q.sales_type;
  is_client = q.named;
}

-- GET /sales/by-client
unfoldable pub get_by_client : Option Caller → SalesQuery → Db → List ClientRow
unfolding filter_of by_client
get_by_client user q db = by_client q.grouping (filter_of user q) db

-- GET /sales/by-product
unfoldable pub get_by_product : Option Caller → SalesQuery → Db → List ProductRow
unfolding filter_of by_product
get_by_product user q db = by_product q.grouping (filter_of user q) db

-- GET /sales/by-client/details
unfoldable pub get_details : Option Caller → Option ℕ → SalesQuery → Db → Option (List DetailRow)
unfolding filter_of client_details
get_details user none q db = none
get_details user (some client) q db = some (client_details client (filter_of user q) db)

-- GET /reconciliation
unfoldable pub get_reconciliation :
    Option ℕ → Option ℕ → Option ℕ → Option ℕ → Db → Option (List Account)
unfolding reconcile reconcile_group
get_reconciliation none none from to db = none
get_reconciliation party (some group) from to db = some (reconcile_group group from to db)
get_reconciliation (some party) none from to db = some (reconcile (party ∷ []) from to db)
