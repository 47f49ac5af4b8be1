-- ===== src/Sync/Emptied.antt =====
-- What a realization takes from an order whose items a pushed UPDATE has emptied.
use remote_order_server.Common.{
  ℕ, ◌≡◌, refl, ◌∙◌, subst, some, List, [], map, ◌==◌, ==_iff, find-holds, find, select,
  update_where, find-update_where,
}
use remote_order_server.Db.{Db, Env, Order, OrderItem}
use remote_order_server.Tx.{ok}
use remote_order_server.Auth.{User}
use remote_order_server.Orders.{is_of_order}
use remote_order_server.Orders.Lines.{lines_of}
use remote_order_server.Sales.{order_lines, of_row}
use remote_order_server.Sync.{ChangeData, update_op, set_changed, perform}

order_lines-empty :
    (env : Env) (o : Order) (id : ℕ) (rows : List OrderItem)
    → o.items ≡ []
    → o.id ≡ id
    → order_lines env o rows ≡ map (of_row env) (select (is_of_order id) rows)
unfolding order_lines
order_lines-empty env o id rows e k =
    subst (λ n. order_lines env o rows ≡ map (of_row env) (select (is_of_order n) rows)) k
      (rw (order_lines, e))

-- After an UPDATE that is pushed empties the items of an order, a realization that is made from the
-- order still has the lines of the table "OrderItem" as they were.
emptied-lines :
    (env : Env) (users : List User) (user_id id : ℕ) (d : ChangeData) (db : Db) {order : Order}
    → find (λ o. o.id == id) db.orders ≡ some order
    → d.items ≡ some []
    → (order' : Order) × (db' : Db) × (perform env users user_id id (some d) update_op db
        ≡ (ok tt, db'))
      × (find (λ o. o.id == id) db'.orders ≡ some order')
      × (order_lines env order' db'.order_items ≡ map (of_row env) (lines_of id db))
unfolding perform set_changed
emptied-lines env users user_id id d db {order} f e = (
  set_changed d order,
  record db { orders = update_where (λ o. o.id == id) (set_changed d) db.orders },
  refl,
  find-update_where (λ o. o.id == id) (set_changed d) db.orders (λ o e. e) ∙ rw f,
  order_lines-empty env (set_changed d order) id db.order_items (rw e)
      ((==_iff order.id id).0 (find-holds (λ o. o.id == id) db.orders f)),
)
