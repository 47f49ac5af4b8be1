-- ===== src/Tests/Books.antt =====
-- Reports on a shop that sold a part of a batch, got money for it and paid a supplier.
use remote_order_server.Common.{
  text_eq, Option, ◌≡◌, refl, false, none, some, [], ◌∷◌, codes, sum_by, arith,
}
use remote_order_server.Common.Int.{pos, ◌+ℤ◌, ◌-ℤ◌}
use remote_order_server.Db.{Db, ProductBatch, ItemBatch, CashTransaction, income, outcome, posted}
use remote_order_server.Inventory.Balance.{IsBalanced}
use remote_order_server.Inventory.Level.{level}
use remote_order_server.Reports.{midnight}
use remote_order_server.Reports.Cashflow.{cashflow}
use remote_order_server.Reports.Cashflow.Totals.{cashflow-next, money_before}
use remote_order_server.Reports.Reconciliation.{reconcile}
use remote_order_server.Reports.Reconciliation.Closing.{closing_of}
use remote_order_server.Reports.Reconciliation.Owed.{owed}
use remote_order_server.Reports.Reconciliation.Balances.{reconcile-owed}
use remote_order_server.Reports.Stock.{stock_balances, batch_date, sale_of, return_of}
use remote_order_server.Reports.Stock.Rows.{named}
use remote_order_server.Reports.Stock.Now.{IsPast, stock_balances-level}
use remote_order_server.Caller.{Caller, own_warehouse}
use remote_order_server.Reports.Handlers.{get_stock_balances, get_movement}
use remote_order_server.Reports.Handlers.Guarded.{AllIn, get_stock_balances-AllIn}
use remote_order_server.Reports.Movement.{movement, turnover}
use remote_order_server.Reports.Movement.Agrees.{turnover-stock}
use remote_order_server.Tests.{shop, batch_of, sale_20, item_of}

abbrev batch : ProductBatch
batch = record (batch_of 12 5000 12 2) { quantity_left = pos 3000 }

abbrev link : ItemBatch
link = record {
  item_id = 21;
  deduction = record { batch_id = 12; quantity = pos 2000; enter_price = pos 12 };
}

abbrev paid : CashTransaction
paid = record {
  id = 80;
  number = codes "1902261";
  date = 7;
  cash_type = income;
  cashbox_id = 1;
  amount = pos 60;
  category_id = none;
  counterparty_id = some 41;
  comment = none;
  created_by = none;
  is_deleted = false;
}

abbrev spent : CashTransaction
spent = record paid { id = 81; cash_type = outcome; amount = pos 25; counterparty_id = some 40 }

abbrev books : Db
books = record shop {
  batches = batch ∷ [];
  realizations = record sale_20 { status = posted } ∷ [];
  realization_items = item_of 21 20 2000 ∷ [];
  realization_item_batches = link ∷ [];
  cashboxes = 1 ∷ [];
  cash_transactions = paid ∷ spent ∷ [];
}

cashflow-next_example :
    ((cashflow none (some 0) (some 0) books).1.running ≡ (cashflow none (some 1) none books).0)
    × ((cashflow none (some 1) none books).0 ≡ money_before none (midnight 1) books)
cashflow-next_example =
    cashflow-next none (some 0) none 0 books (omega arith) (refl, (refl, tt)) (refl, (refl, tt))

-- The sale of 90 is paid in part.
reconcile-owed_example :
    closing_of (some 41) (reconcile (41 ∷ []) none (some 0) books) ≡ owed books 41 (midnight 1)
reconcile-owed_example = reconcile-owed (41 ∷ []) 41 books refl none 0 tt (refl, (refl, tt))

still_owed : owed books 41 (midnight 1) ≡ pos 30
unfolding midnight ◌+ℤ◌ ◌-ℤ◌
still_owed = refl

books-IsPast : IsPast books 0
unfolding midnight batch_date sale_of return_of
books-IsPast = record { came = (refl, tt); sold = (refl, tt); sent_back = tt }

books-IsBalanced : IsBalanced books
unfolding ◌+ℤ◌
books-IsBalanced = (refl, tt)

stock_balances-level_example :
    sum_by (named 7 (some 1)) (stock_balances none 0 books) ≡ level books 7 1
stock_balances-level_example =
    stock_balances-level none 0 7 1 books refl books-IsBalanced books-IsPast

turnover-stock_example :
    (turnover 0 0 1 books 7).closing ≡ sum_by (named 7 (some 1)) (stock_balances (some 1) 0 books)
unfolding sale_of
turnover-stock_example = turnover-stock books 7 1 0 0 (omega arith) (tt, tt) (refl, tt) tt

abbrev keeper : Option Caller
keeper = some (record { id = some 2; role = codes "manager"; warehouse_id = some 1 })

keeper_own : own_warehouse keeper ≡ some 1
unfolding text_eq
keeper_own = refl

-- The manager of the first warehouse asks for the second.
get_stock_balances-AllIn_example :
    AllIn 1 (get_stock_balances keeper (some 2) none 0 books)
    × (get_movement keeper (some 0) (some 0) (some 2) books ≡ some (movement 0 0 1 books))
get_stock_balances-AllIn_example =
    get_stock_balances-AllIn keeper 1 0 0 0 (some 2) none books keeper_own
