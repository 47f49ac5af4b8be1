-- ===== src/Sync/Again.antt =====
-- What a pushed order is after an INSERT that is pushed twice.
use remote_order_server.Common.{ℕ, Option, none, some, ◌==◌, find}
use remote_order_server.Common.Int.{ℤ}
use remote_order_server.Db.{Db, Env, Order, OrderItem}
use remote_order_server.Sync.{ChangeData, pushed_order, set_pushed}

-- What a line of an order says, without its generated id.
abbrev pub content : OrderItem → ℕ × ℕ × ℤ × ℤ × Option ℕ
content i = (i.order_id, i.product_id, i.quantity, i.sell_price, i.sort_order)

module _ (env : Env) (user_id id : ℕ) (d : ChangeData) where
  abbrev new : Order
  new = pushed_order env user_id id d

  abbrev row_of : Db → Option Order
  row_of db = find (λ o. o.id == id) db.orders

  -- The row after an INSERT of it: the new one, or the one that was there with the new columns.
  abbrev pub upserted : Option Order → Order
  upserted none = new
  upserted (some o) = set_pushed new o
