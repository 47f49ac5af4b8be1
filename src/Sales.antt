-- ===== src/Sales.antt =====
-- routes/realization.ts: realizations are created, also from an order, edited and deleted here, and
-- posted by services/realizationService.ts. Each handler is the transaction that it runs; its
-- answer is 201 or 200 for `ok` and an error status for `err`.
pub mod Steps
pub mod Posted
pub mod Made
use remote_order_server.Common.{
  ℕ, suc, Bool, true, false, not, ◌&&◌, ◌||◌, Option, none, some, List, [], ◌∷◌, ◌++◌, map, ◌==◌,
  ltb, find, select, delete_where, update_where, order_by, coalesce, get_or, text_or, Text, codes,
}
use remote_order_server.Common.Int.{ℤ, pos, negsuc, ◌*ℤ◌}
use remote_order_server.Db.{
  Db, Env, Item, JsonItem, Order, OrderItem, Counterparty, Realization, accepted, draft,
}
use remote_order_server.Tx.{
  Tx, ok, pure, throw, throw_if, gets, or_throw, modify, transaction, ◌>>=◌, ◌>>◌, not_found,
  cannot_edit_posted, cannot_delete_posted, rejected,
}
use remote_order_server.Realization.{is_posted, set_order_status}
use remote_order_server.DocNumber.{generate_doc_number}
use remote_order_server.Caller.{Caller, forced_warehouse, may_see, caller_id}

-- What the loops insert for an item: a field that is missing is NULL in the row.
pub record SaleItem : Type 0 where
  pub product_id : Option ℕ
  pub quantity : Option ℤ
  pub price : Option ℤ
  pub total : Option ℤ

-- a || b, on numbers: zero is falsy.
abbrev pub or_number : Option ℤ → Option ℤ → Option ℤ
or_number (some (pos (suc n))) b = some (pos (suc n))
or_number (some (negsuc n)) b = some (negsuc n)
or_number _ b = b

-- An item of a request.
pub record ItemRequest : Type 0 where
  pub product_id : Option ℕ
  pub quantity : Option ℤ
  pub sell_price : Option ℤ
  pub price : Option ℤ
  pub total : Option ℤ

unfoldable pub of_request : ItemRequest → SaleItem
of_request i = record {
  product_id = i.product_id;
  quantity = i.quantity;
  price = or_number i.sell_price i.price;
  total = i.total;
}

-- A row of "RealizationItem"; no column of it may be NULL.
unfoldable pub row_of :
    (id doc_id order : ℕ) → Option ℕ → Option ℤ → Option ℤ → Option ℤ → Option Item
row_of id doc_id order (some product_id) (some quantity) (some price) (some total) = some (record {
  id = id;
  doc_id = doc_id;
  product_id = product_id;
  quantity = quantity;
  price = price;
  total = total;
  sort_order = order;
})
row_of id doc_id order _ _ _ _ = none

-- One INSERT INTO "RealizationItem".
unfoldable pub insert_item : Env → ℕ → ℕ → SaleItem → Tx (Unit {0})
insert_item env doc_id order i db =
    elim (row_of (env.uuid db.generated) doc_id order i.product_id i.quantity i.price i.total) [
      | none ↦ throw rejected db
      | some row ↦ (
        ok tt,
        record db {
          realization_items = db.realization_items ++ row ∷ [];
          generated = suc db.generated;
        },
      )
    ]

-- The loop of INSERTs, with the index.
unfoldable pub insert_items : Env → ℕ → ℕ → List SaleItem → Tx (Unit {0})
insert_items env doc_id order [] = pure tt
insert_items env doc_id order (i ∷ items) = do
  insert_item env doc_id order i
  insert_items env doc_id (suc order) items

-- The header of the new document, and its id.
unfoldable pub insert_header : Env → Realization → Tx ℕ
insert_header env doc db = (
  ok (env.uuid db.generated),
  record db {
    realizations =
        db.realizations
        ++ record doc {
          id = env.uuid db.generated;
          number = generate_doc_number env (map (λ r. r.number) db.realizations) env.now;
        }
          ∷ [];
    generated = suc db.generated;
  },
)

-- 'Готівковий'
abbrev pub cash_sales : Text
cash_sales = codes "Готівковий"

-- The body of POST / and of PUT /:id.
pub record SaleData : Type 0 where
  pub date : Option ℕ
  pub counterparty_id : Option ℕ
  pub warehouse_id : Option ℕ
  pub amount : Option ℤ
  pub comment : Option Text
  pub items : Option (List ItemRequest)
  pub sales_type : Option Text

-- A document as the INSERTs of POST / and of POST /from-order/:orderId make it, before it has its
-- id and number.
unfoldable pub new_sale : Env → Option Caller → Realization
new_sale env user = record {
  id = 0;
  number = [];
  date = env.now;
  counterparty_id = none;
  warehouse_id = none;
  status = draft;
  amount = pos 0;
  paid_amount = pos 0;
  profit = pos 0;
  comment = none;
  order_id = none;
  sales_type = cash_sales;
  created_by = caller_id user;
  is_deleted = false;
  created_at = env.now;
}

-- The INSERTs of POST /.
unfoldable pub insert_sale : Env → Realization → List SaleItem → Tx ℕ
insert_sale env doc lines = do id ← insert_header env doc; insert_items env id 0 lines; pure id

unfoldable pub sale_of_request : Env → Option Caller → SaleData → ℤ → Realization
sale_of_request env user d amount = record (new_sale env user) {
  date = get_or d.date env.now;
  counterparty_id = d.counterparty_id;
  warehouse_id = forced_warehouse user d.warehouse_id;
  amount = amount;
  comment = d.comment;
  sales_type = get_or d.sales_type cash_sales;
}

unfoldable pub create_body : Env → Option Caller → SaleData → Tx ℕ
create_body env user d = do
  amount ← or_throw d.amount rejected
  insert_sale env (sale_of_request env user d amount) (map of_request (get_or d.items []))

-- POST /
unfoldable pub create : Env → Option Caller → SaleData → Tx ℕ
create env user d = transaction (create_body env user d)

-- i.productId || i.id, and the like; the total is rounded by its column.
unfoldable pub of_json : Env → JsonItem → SaleItem
of_json env i =
    let quantity : Option ℤ = coalesce i.quantity i.count in
    let price : Option ℤ = coalesce i.sell_price i.price in
    record {
      product_id = coalesce i.product_id i.id;
      quantity = quantity;
      price = price;
      total = total_of env quantity price;
    }
  where
    total_of : Env → Option ℤ → Option ℤ → Option ℤ
    total_of env (some q) (some p) = some (env.round_amount (q *ℤ p))
    total_of env _ _ = none

unfoldable pub of_row : Env → OrderItem → SaleItem
of_row env i = record {
  product_id = some i.product_id;
  quantity = some i.quantity;
  price = some i.sell_price;
  total = some (env.round_amount (i.quantity *ℤ i.sell_price));
}

-- Step 2: the items of the JSON column, or else those of the table.
unfoldable pub order_lines : Env → Order → List OrderItem → List SaleItem
order_lines env order rows = elim order.items [
  | [] ↦ map (of_row env) (select (λ i. i.order_id == order.id) rows)
  | i ∷ items ↦ map (of_json env) (i ∷ items)
]

abbrev pub first_warehouse : Db → Option ℕ
first_warehouse db = elim db.warehouses [ [] ↦ none | w ∷ ws ↦ some w.id ]

-- The row of the order's counterparty.
abbrev pub order_party : Order → Db → Option Counterparty
order_party order db = elim order.counterparty_id [
  | none ↦ none
  | some c ↦ find (λ p. p.id == c) db.counterparties
]

-- Step 3: the warehouse and the sales type.
unfoldable pub sale_warehouse : Order → Db → Option ℕ
sale_warehouse order db = elim (order_party order db) [
  | none ↦ first_warehouse db
  | some p ↦ coalesce p.warehouse_id (first_warehouse db)
]

unfoldable pub sale_type : Order → Db → Text
sale_type order db = elim (order_party order db) [
  | none ↦ cash_sales
  | some p ↦ text_or p.default_sales_type cash_sales
]

-- Steps 5 and 6: the INSERTs, and the status of the order.
unfoldable pub insert_ordered : Env → Realization → ℕ → List SaleItem → Tx ℕ
insert_ordered env doc order_id lines = do
  id ← insert_header env doc
  set_order_status (some order_id) accepted
  insert_items env id 0 lines
  pure id

unfoldable pub sale_of_order : Env → Option Caller → Order → Db → Realization
sale_of_order env user order db = record (new_sale env user) {
  counterparty_id = order.counterparty_id;
  warehouse_id = sale_warehouse order db;
  amount = order.total;
  order_id = some order.id;
  sales_type = sale_type order db;
}

unfoldable pub from_order_body : Env → Option Caller → ℕ → Tx ℕ
from_order_body env user order_id = do
  order ← λ db. or_throw (find (λ o. o.id == order_id) db.orders) not_found db
  doc ← gets (sale_of_order env user order)
  lines ← gets (λ db. order_lines env order db.order_items)
  insert_ordered env doc order_id lines

-- POST /from-order/:orderId
unfoldable pub from_order : Env → Option Caller → ℕ → Tx ℕ
from_order env user order_id = transaction (from_order_body env user order_id)

-- The UPDATE of PUT /:id.
unfoldable pub set_header : SaleData → Realization → Realization
set_header d r = record r {
  date = get_or d.date r.date;
  counterparty_id = coalesce d.counterparty_id r.counterparty_id;
  warehouse_id = coalesce d.warehouse_id r.warehouse_id;
  comment = coalesce d.comment r.comment;
  amount = get_or d.amount r.amount;
  sales_type = get_or d.sales_type r.sales_type;
}

abbrev pub update_sale : ℕ → (Realization → Realization) → Tx (Unit {0})
update_sale id f =
    modify (λ db. record db { realizations = update_where (λ r. r.id == id) f db.realizations })

-- The items are wiped and made again, if the request has some.
unfoldable pub replace_items : Env → ℕ → Option (List ItemRequest) → Tx (Unit {0})
replace_items env id none = pure tt
replace_items env id (some items) = do
  modify (λ db. record db {
    realization_items = delete_where (λ i. i.doc_id == id) db.realization_items;
  })
  insert_items env id 0 (map of_request items)

unfoldable pub edit_body : Env → ℕ → SaleData → Tx (Unit {0})
edit_body env id d = do
  doc ← λ db. or_throw (find (λ r. r.id == id) db.realizations) not_found db
  throw_if (is_posted doc.status) cannot_edit_posted
  update_sale id (set_header d)
  replace_items env id d.items

-- PUT /:id
unfoldable pub edit : Env → ℕ → SaleData → Tx (Unit {0})
edit env id d = transaction (edit_body env id d)

unfoldable pub delete_body : ℕ → Tx (Unit {0})
delete_body id = do
  doc ← λ db. or_throw (find (λ r. r.id == id) db.realizations) not_found db
  throw_if (is_posted doc.status) cannot_delete_posted
  update_sale id (λ r. record r { is_deleted = true })

-- DELETE /:id
unfoldable pub delete : ℕ → Tx (Unit {0})
delete id = transaction (delete_body id)

-- GET /
unfoldable pub list_sales : Option Caller → Bool → List Realization → List Realization
list_sales user include_deleted rows =
    order_by (λ a b. ltb b.date a.date)
      (select (λ r. may_see user r.warehouse_id && (include_deleted || not r.is_deleted)) rows)

-- GET /:id, the header
unfoldable pub get_sale : Option Caller → ℕ → List Realization → Option Realization
get_sale user id = find (λ r. r.id == id && may_see user r.warehouse_id)
