-- ===== src/Orders.antt =====
-- routes/admin.ts: the orders. The router has passed `adminAuth`, so that there is a user.
pub mod Lines
pub mod Changes
use remote_order_server.Common.{
  ℕ, suc, Bool, true, false, not, ◌&&◌, ◌||◌, Option, none, some, List, [], ◌∷◌, ◌++◌, map, ◌==◌,
  ltb, if◌then◌else◌, find, delete_where, update_where, order_by, coalesce, get_or, text_or, Text,
  codes, text_eq, select,
}
use remote_order_server.Common.Int.{ℤ, pos}
use remote_order_server.Db.{Db, Env, JsonItem, Order, OrderItem, Warehouse}
use remote_order_server.Tx.{
  Tx, ok, pure, throw, throw_if, or_throw, gets, modify, transaction, ◌>>=◌, ◌>>◌, not_found,
  rejected, access_denied,
}
use remote_order_server.DocNumber.{generate_doc_number}
use remote_order_server.Caller.{Caller, forced_warehouse, may_see}

-- What the loops insert for an item: a field that is missing is NULL in the row.
pub record OrderLine : Type 0 where
  pub product_id : Option ℕ
  pub quantity : Option ℤ
  pub price : Option ℤ
  pub sort_order : Option ℕ

-- A row of "OrderItem"; product, quantity and price may not be NULL.
unfoldable pub order_row :
    (id order_id : ℕ) → Option ℕ → Option ℤ → Option ℤ → Option ℕ → Option OrderItem
order_row id order_id (some product_id) (some quantity) (some price) sort_order = some (record {
  id = id;
  order_id = order_id;
  product_id = product_id;
  quantity = quantity;
  sell_price = price;
  sort_order = sort_order;
})
order_row id order_id _ _ _ sort_order = none

-- One INSERT INTO "OrderItem".
unfoldable pub insert_line : Env → ℕ → OrderLine → Tx (Unit {0})
insert_line env order_id l db =
    elim (order_row (env.uuid db.generated) order_id l.product_id l.quantity l.price l.sort_order) [
      | none ↦ throw rejected db
      | some row ↦ (
        ok tt,
        record db { order_items = db.order_items ++ row ∷ []; generated = suc db.generated },
      )
    ]

unfoldable pub insert_lines : Env → ℕ → List OrderLine → Tx (Unit {0})
insert_lines env order_id [] = pure tt
insert_lines env order_id (l ∷ lines) = do
  insert_line env order_id l
  insert_lines env order_id lines

abbrev pub is_of_order : ℕ → OrderItem → Bool
is_of_order id i = i.order_id == id

unfoldable pub delete_lines : ℕ → Tx (Unit {0})
delete_lines id =
    modify (λ db. record db { order_items = delete_where (is_of_order id) db.order_items })

-- The body of POST /orders and of PUT /orders/:id.
pub record OrderData : Type 0 where
  pub date : Option ℕ
  pub counterparty_id : Option ℕ
  pub warehouse_id : Option ℕ
  pub status : Option Text
  pub amount : Option ℤ
  pub total : Option ℤ
  pub items : Option (List JsonItem)
  pub comment : Option Text
  pub is_deleted : Option Bool

-- The warehouse of the counterparty, where it has one.
abbrev pub party_warehouse : Option ℕ → Db → Option ℕ
party_warehouse none db = none
party_warehouse (some c) db = elim (find (λ p. p.id == c) db.counterparties) [
  | none ↦ none
  | some p ↦ p.warehouse_id
]

-- SELECT id FROM "Warehouse" ORDER BY "createdAt" ASC LIMIT 1
abbrev pub oldest_warehouse : Db → Option ℕ
oldest_warehouse db =
    elim (order_by (λ (a b : Warehouse). ltb a.created_at b.created_at) db.warehouses) [
      | [] ↦ none
      | w ∷ ws ↦ some w.id
    ]

unfoldable pub order_warehouse : Caller → OrderData → Db → Option ℕ
order_warehouse user d db =
    coalesce (forced_warehouse (some user) d.warehouse_id)
      (coalesce (party_warehouse d.counterparty_id db) (oldest_warehouse db))

-- The nil UUID, the user of an administrator or manager who has no id.
abbrev pub system_user : ℕ
system_user = 0

unfoldable pub order_user : Caller → Option ℕ
order_user user = elim user.id [
  | some id ↦ some id
  | none ↦
      if text_eq user.role (codes "admin") || text_eq user.role (codes "manager")
      then some system_user
      else none
]

-- The numbers that generateDocNumber finds; NULL is LIKE nothing.
abbrev pub doc_numbers : List Order → List Text
doc_numbers [] = []
doc_numbers (o ∷ os) = elim o.doc_number [ none ↦ doc_numbers os | some n ↦ n ∷ doc_numbers os ]

abbrev pub new_status : Text
new_status = codes "NEW"

abbrev pub created_line : JsonItem → OrderLine
created_line i = record {
  product_id = i.product_id;
  quantity = i.quantity;
  price = i.price;
  sort_order = none;
}

-- The row of POST /orders.
unfoldable pub new_order : Env → Caller → OrderData → ℕ → Db → Order
new_order env user d user_id db = record {
  id = env.uuid db.generated;
  user_id = some user_id;
  counterparty_id = d.counterparty_id;
  warehouse_id = order_warehouse user d db;
  status = text_or d.status new_status;
  total = get_or d.amount (pos 0);
  items = get_or d.items [];
  comment = d.comment;
  doc_number = some (generate_doc_number env (doc_numbers db.orders) (get_or d.date env.now));
  is_deleted = false;
  created_at = get_or d.date env.now;
}

unfoldable pub insert_order : Env → Order → List OrderLine → Tx ℕ
insert_order env order lines = do
  modify (λ db. record db { orders = db.orders ++ order ∷ []; generated = suc db.generated })
  insert_lines env order.id lines
  pure order.id

-- POST /orders
unfoldable pub create : Env → Caller → OrderData → Tx ℕ
create env user d = do
  user_id ← or_throw (order_user user) access_denied
  order ← gets (new_order env user d user_id)
  transaction (insert_order env order (map created_line (get_or d.items [])))

-- The columns that PUT /orders/:id sets.
unfoldable pub set_order : OrderData → Order → Order
set_order d o = record o {
  status = get_or d.status o.status;
  total = get_or (coalesce d.amount d.total) o.total;
  counterparty_id = coalesce d.counterparty_id o.counterparty_id;
  is_deleted = get_or d.is_deleted o.is_deleted;
  items = get_or d.items o.items;
  comment = coalesce d.comment o.comment;
  created_at = get_or d.date o.created_at;
}

abbrev pub updated_line : JsonItem → OrderLine
updated_line i = record {
  product_id = coalesce i.product_id i.id;
  quantity = i.quantity;
  price = i.price;
  sort_order = none;
}

unfoldable pub replace_lines : Env → ℕ → Option (List OrderLine) → Tx (Unit {0})
replace_lines env id none = pure tt
replace_lines env id (some lines) = do delete_lines id; insert_lines env id lines

abbrev pub update_orders : ℕ → (Order → Order) → Tx (Unit {0})
update_orders id f =
    modify (λ db. record db { orders = update_where (λ o. o.id == id) f db.orders })

abbrev pub updated_lines : Option (List JsonItem) → Option (List OrderLine)
updated_lines none = none
updated_lines (some items) = some (map updated_line items)

-- The UPDATE returns no row where there is no order of the id.
unfoldable pub update_body : Env → ℕ → OrderData → Tx (Unit {0})
update_body env id d = do
  order ← λ db. or_throw (find (λ o. o.id == id) db.orders) not_found db
  update_orders id (set_order d)
  replace_lines env id (updated_lines d.items)

-- PUT /orders/:id
unfoldable pub update : Env → ℕ → OrderData → Tx (Unit {0})
update env id d = transaction (update_body env id d)

-- DELETE /orders/:id
unfoldable pub delete : ℕ → Tx (Unit {0})
delete id = do
  order ← λ db. or_throw (find (λ o. o.id == id) db.orders) not_found db
  update_orders id (λ o. record o { is_deleted = true })

-- DELETE FROM "Order" WHERE id = $1; "OrderItem" refers to it with ON DELETE CASCADE
-- (init_orders_schema.mjs).
unfoldable pub remove_order : ℕ → Tx (Unit {0})
remove_order id = modify (λ db. record db {
  orders = delete_where (λ o. o.id == id) db.orders;
  order_items = delete_where (is_of_order id) db.order_items;
})

-- DELETE /orders/:id/hard
unfoldable pub hard_delete : Caller → ℕ → Tx (Unit {0})
hard_delete user id = do
  throw_if (not (text_eq user.role (codes "admin"))) access_denied
  order ← λ db. or_throw (find (λ o. o.id == id) db.orders) not_found db
  remove_order id

-- GET /orders, without the search by text; `end_date` is the last moment of the day asked for.
unfoldable pub list_orders : Caller → Bool → Option ℕ → Option ℕ → List Order → List Order
list_orders user include_deleted start_date end_date rows =
    order_by (λ a b. ltb b.created_at a.created_at)
      (select
        (λ o.
          may_see (some user) o.warehouse_id
          && (include_deleted || not o.is_deleted)
          && from start_date o.created_at
          && until end_date o.created_at)
        rows)
  where
    from : Option ℕ → ℕ → Bool
    from none t = true
    from (some d) t = not (ltb t d)

    until : Option ℕ → ℕ → Bool
    until none t = true
    until (some d) t = not (ltb d t)
