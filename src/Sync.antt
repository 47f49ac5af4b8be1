-- ===== src/Sync.antt =====
-- routes/sync.ts: the clients push their changes of orders, and pull orders and products. A request
-- names its user.
pub mod Push
pub mod Again
pub mod Emptied
pub mod Full
use remote_order_server.Common.{
  ℕ, zero, suc, Bool, true, false, not, ◌&&◌, ◌||◌, Option, none, some, List, [], ◌∷◌, ◌++◌, map,
  ◌==◌, ltb, order_by, opt_eq, if◌then◌else◌, find, select, update_where, exists_where, coalesce,
  get_or, text_or, Text, codes, text_eq,
}
use remote_order_server.Common.Int.{ℤ, pos}
use remote_order_server.Db.{Db, Env, JsonItem, Order, OrderItem, SyncEntry, Product}
use remote_order_server.Tx.{
  Tx, Result, ok, err, pure, throw, throw_if, or_throw, gets, modify, transaction, ◌>>=◌, ◌>>◌,
  access_denied, rejected,
}
use remote_order_server.Auth.{User, Claims, bearer}
use remote_order_server.Pricing.{PriceList, price_for_user}
use remote_order_server.Orders.{
  OrderLine, insert_lines, delete_lines, replace_lines, remove_order, update_orders,
}

-- `operation` of a change.
pub data Operation : Type 0 where
  insert_op update_op delete_op : Operation
  unknown : Text → Operation

-- `data` of a change.
pub record ChangeData : Type 0 where
  pub counterparty_id : Option ℕ
  pub status : Option Text
  pub total : Option ℤ
  pub items : Option (List JsonItem)
  pub is_deleted : Option Bool
  pub date : Option ℕ

pub record Change : Type 0 where
  pub id : ℕ
  pub operation : Operation
  pub data_of : Option ChangeData
  -- table === 'Order', in POST /sync/full
  pub is_order_table : Bool

-- An element of `results`.
pub record ChangeResult : Type 0 where
  pub id : ℕ
  pub success : Bool

abbrev pub pending : Text
pending = codes "pending"

-- The lines of INSERT, with their index.
unfoldable pub pushed_lines : ℕ → List JsonItem → List OrderLine
pushed_lines index [] = []
pushed_lines index (i ∷ items) =
    record { product_id = i.id; quantity = i.count; price = i.price; sort_order = some index }
    ∷ pushed_lines (suc index) items

abbrev pub lines_of_data : ChangeData → Option (List OrderLine)
lines_of_data d = elim d.items [ none ↦ none | some items ↦ some (pushed_lines 0 items) ]

-- The row of INSERT.
unfoldable pub pushed_order : Env → ℕ → ℕ → ChangeData → Order
pushed_order env user_id id d = record {
  id = id;
  user_id = some user_id;
  counterparty_id = d.counterparty_id;
  warehouse_id = none;
  status = text_or d.status pending;
  total = get_or d.total (pos 0);
  items = get_or d.items [];
  comment = none;
  doc_number = none;
  is_deleted = get_or d.is_deleted false;
  created_at = get_or d.date env.now;
}

-- ON CONFLICT (id) DO UPDATE
unfoldable pub set_pushed : Order → Order → Order
set_pushed new o = record o {
  counterparty_id = new.counterparty_id;
  status = new.status;
  total = new.total;
  items = new.items;
  is_deleted = new.is_deleted;
  created_at = new.created_at;
}

unfoldable pub upsert : Order → Tx (Unit {0})
upsert new db = elim (find (λ o. o.id == new.id) db.orders) [
  | none ↦ (ok tt, record db { orders = db.orders ++ new ∷ [] })
  | some o ↦ update_orders new.id (set_pushed new) db
]

unfoldable pub insert_body : Env → ℕ → ℕ → ChangeData → Tx (Unit {0})
insert_body env user_id id d = do
  upsert (pushed_order env user_id id d)
  replace_lines env id (lines_of_data d)

-- The UPDATE of POST /sync/push.
unfoldable pub set_changed : ChangeData → Order → Order
set_changed d o = record o {
  counterparty_id = coalesce d.counterparty_id o.counterparty_id;
  status = get_or d.status o.status;
  total = get_or d.total o.total;
  items = get_or d.items o.items;
  is_deleted = get_or d.is_deleted o.is_deleted;
  created_at = get_or d.date o.created_at;
}

-- rows[0]?.role !== 'admin' of the user that the request names.
unfoldable pub is_admin_user : List User → ℕ → Bool
is_admin_user users user_id = elim (find (λ u. u.id == user_id) users) [
  | none ↦ false
  | some u ↦ text_eq u.role (codes "admin")
]

-- Without data, reading a field of it is a TypeError.
unfoldable pub perform : Env → List User → ℕ → ℕ → Option ChangeData → Operation → Tx (Unit {0})
perform env users user_id id given insert_op =
    transaction (do d ← or_throw given rejected; insert_body env user_id id d)
perform env users user_id id given update_op = do
  d ← or_throw given rejected
  update_orders id (set_changed d)
perform env users user_id id given delete_op = do
  throw_if (not (is_admin_user users user_id)) access_denied
  remove_order id
perform env users user_id id given (unknown t) = pure tt

abbrev pub operation_name : Operation → Text
operation_name insert_op = codes "INSERT"
operation_name update_op = codes "UPDATE"
operation_name delete_op = codes "DELETE"
operation_name (unknown t) = t

-- INSERT INTO "SyncLog", where `logs` says whether the database takes the JSON of the change.
unfoldable pub log_change : (Change → Bool) → Env → ℕ → Change → Tx (Unit {0})
log_change logs env user_id c = do
  throw_if (not (logs c)) rejected
  modify (λ db. record db {
    sync_log =
        db.sync_log
        ++ record {
          user_id = user_id;
          action = operation_name c.operation;
          record_id = c.id;
          created_at = env.now;
        }
          ∷ [];
  })

-- The try block of one change. What it did stays when the log fails.
unfoldable pub push_change : (Change → Bool) → Env → List User → ℕ → Change → Tx (Unit {0})
push_change logs env users user_id c = do
  perform env users user_id c.id c.data_of c.operation
  log_change logs env user_id c

abbrev pub result_of : ℕ → Result (Unit {0}) → ChangeResult
result_of id (ok _) = record { id = id; success = true }
result_of id (err _) = record { id = id; success = false }

-- POST /sync/push: the results, and the tables.
unfoldable pub push :
    (Change → Bool) → Env → List User → ℕ → List Change → Db → List ChangeResult × Db
push logs env users user_id [] db = ([], db)
push logs env users user_id (c ∷ changes) db =
    let (r, db') = push_change logs env users user_id c db in
    let (results, last) = push logs env users user_id changes db' in
    (result_of c.id r ∷ results, last)

-- The UPDATE of POST /sync/full, for the table 'Order' and for any other.
unfoldable pub set_synced : Bool → ChangeData → Order → Order
set_synced is_order_table d o = record o {
  counterparty_id =
      if is_order_table then coalesce d.counterparty_id o.counterparty_id else o.counterparty_id;
  status = get_or d.status o.status;
  total = get_or d.total o.total;
  items = get_or d.items o.items;
}

-- The plain INSERT of POST /sync/full: the primary key refuses an id that is there.
unfoldable pub insert_plain : Env → ℕ → ℕ → ChangeData → Tx (Unit {0})
insert_plain env user_id id d = do
  db ← gets (λ db. db)
  throw_if (exists_where (λ o. o.id == id) db.orders) rejected
  modify (λ db. record db {
    orders =
        db.orders
        ++ record (pushed_order env user_id id d) {
          counterparty_id = none;
          is_deleted = false;
          created_at = env.now;
        }
          ∷ [];
  })

-- What one change comes to: no query, a TypeError before the query where the change has no data, or
-- a query.
pub data Query : Type 0 where
  no_query type_error : Query
  runs : Tx (Unit {0}) → Query

unfoldable pub with_data : Option ChangeData → (ChangeData → Tx (Unit {0})) → Query
with_data none q = type_error
with_data (some d) q = runs (q d)

unfoldable pub query_of : Env → ℕ → Change → Query
query_of env user_id c = elim c.operation [
  | insert_op ↦
      if c.is_order_table then no_query else with_data c.data_of (insert_plain env user_id c.id)
  | update_op ↦ with_data c.data_of (λ d. update_orders c.id (set_synced c.is_order_table d))
  | delete_op ↦ runs (remove_order c.id)
  | unknown t ↦ no_query
]

-- What is left of the transaction: after a query that failed, PostgreSQL refuses every other until
-- the end, and COMMIT rolls back.
pub data TxState : Type 0 where
  open_tx : Db → TxState
  aborted : TxState

unfoldable pub run_query : Query → TxState → Bool × TxState
run_query no_query s = (true, s)
run_query type_error s = (false, s)
run_query (runs q) aborted = (false, aborted)
run_query (runs q) (open_tx db) = after (q db)
  where
    after : Result (Unit {0}) × Db → Bool × TxState
    after (ok _, db') = (true, open_tx db')
    after (err _, db') = (false, aborted)

unfoldable pub full_changes : Env → ℕ → List Change → TxState → List ChangeResult × TxState
full_changes env user_id [] s = ([], s)
full_changes env user_id (c ∷ changes) s =
    let (success, s') = run_query (query_of env user_id c) s in
    let (results, last) = full_changes env user_id changes s' in
    (record { id = c.id; success = success } ∷ results, last)

-- COMMIT
abbrev pub commit : Db → TxState → Db
commit before (open_tx db) = db
commit before aborted = before

-- POST /sync/full: `changeResults`, and the tables.
unfoldable pub full : Env → ℕ → List Change → Db → List ChangeResult × Db
full env user_id changes db =
    let (results, s) = full_changes env user_id changes (open_tx db) in (results, commit db s)

-- POST /sync/pull, where `recent` is "updatedAt" >= $2.
unfoldable pub pull : (Order → Bool) → ℕ → Db → List Order
pull recent user_id db = select (λ o. opt_eq o.user_id (some user_id) && recent o) db.orders

-- adminSecret === process.env.ADMIN_SECRET, where `none` is undefined.
unfoldable pub same_secret : Option Text → Option Text → Bool
same_secret none none = true
same_secret (some s) (some t) = text_eq s t
same_secret _ _ = false

-- `isAdmin` of GET /products.
unfoldable pub sees_prices : (Text → Option Claims) → Option Text → Option Text → Option Text → Bool
sees_prices verify env_secret admin_secret authorization =
    same_secret admin_secret env_secret || holds (bearer authorization)
  where
    holds : Option Text → Bool
    holds (some (c ∷ t)) = elim (verify (c ∷ t)) [ none ↦ false | some d ↦ true ]
    holds _ = false

-- What GET /products shows of the prices of a product: the price for the user, and the price list.
unfoldable pub shown_prices : Bool → Option (Option Text) → PriceList → Option ℤ × Option PriceList
shown_prices is_admin price_type prices =
    (price_for_user price_type prices, if is_admin then some prices else none)

abbrev pub take {ℓ} : {A : Type ℓ} → ℕ → List A → List A
take zero xs = []
take (suc n) [] = []
take (suc n) (x ∷ xs) = x ∷ take n xs

-- GET /sync/status/:userId
unfoldable pub sync_status : ℕ → Db → List SyncEntry
sync_status user_id db = take 10 (
    order_by (λ a b. ltb b.created_at a.created_at)
      (select (λ e. e.user_id == user_id) db.sync_log))
