-- ===== src/Orders/Changes.antt =====
-- What PUT /orders/:id and DELETE /orders/:id/hard do.
use remote_order_server.Common.{
  ℕ, ◌≡◌, ◌≢◌, refl, ◌∙◌, true, false, none, some, List, [], map, arith, ◌==◌, find, update_where,
  delete_where, find-update_where, find-update_other, select-deleted, find-none,
  select-delete_other, Option-cases, Bool-cases, inl, inr, ◌⊎◌, text_eq, codes, All-false_of_select,
}
use remote_order_server.Db.{Db, Env, JsonItem, Order, OrderItem}
use remote_order_server.Tx.{Result, ok, err, not_found, access_denied}
use remote_order_server.Caller.{Caller}
use remote_order_server.Orders.{
  OrderLine, OrderData, is_of_order, set_order, updated_line, update_body, update, remove_order,
  hard_delete,
}
use remote_order_server.Orders.Lines.{
  lines_of, rows_of, replaced, replace_lines-replaced, replaced-lines, replaced_others,
}

module _ (env : Env) (id : ℕ) (d : OrderData) (db : Db) where
  abbrev set : Db
  set = record db { orders = update_where (λ o. o.id == id) (set_order d) db.orders }

  update-found :
      {order : Order} {items : List JsonItem} {rows : List OrderItem}
      → find (λ o. o.id == id) db.orders ≡ some order
      → d.items ≡ some items
      → (h : rows_of env id db.generated (map updated_line items) ≡ some rows)
      → update env id d db ≡ (ok tt, replaced env id (map updated_line items) set h)
  unfolding update update_body
  update-found {order} {items} f e h =
      ground (arith, replace_lines-replaced env id (map updated_line items) set h)

-- PUT /orders/:id of an order that is found, with items that all have a product, a quantity and a
-- price, sets the order's columns and makes these items its lines, in their order. Any other order
-- keeps its columns and its lines.
update_lem :
    (env : Env) (id j : ℕ) (d : OrderData) (db : Db) {order : Order} {items : List JsonItem}
    {rows : List OrderItem}
    → find (λ o. o.id == id) db.orders ≡ some order
    → d.items ≡ some items
    → rows_of env id db.generated (map updated_line items) ≡ some rows
    → j ≢ id
    → let (r, db') : Result (Unit {0}) × Db = update env id d db in
      (r ≡ ok tt)
      × (find (λ o. o.id == id) db'.orders ≡ some (set_order d order))
      × (lines_of id db' ≡ rows)
      × (find (λ o. o.id == j) db'.orders ≡ find (λ o. o.id == j) db.orders)
      × (lines_of j db' ≡ lines_of j db)
unfolding set_order
update_lem env id j d db {order} {items} f e h ne =
    let lines : List OrderLine = map updated_line items in
    rw (update-found env id d db f e h) (
      refl,
      find-update_where (λ o. o.id == id) (set_order d) db.orders (λ o e. e) ∙ rw f,
      replaced-lines env id lines (set env id d db) h,
      find-update_other (λ o. o.id == j) (λ o. o.id == id) (set_order d) db.orders
          (λ o k. (other o.id k, other o.id k)),
      replaced_others env id lines (set env id d db) h j ne,
    )
  where
    other : (k : ℕ) → (k == id) ≡ true → (k == j) ≡ false
    other k e = ground arith

abbrev removed : ℕ → Db → Db
removed id db = record db {
  orders = delete_where (λ o. o.id == id) db.orders;
  order_items = delete_where (is_of_order id) db.order_items;
}

hard_delete_ends :
    (user : Caller) (id : ℕ) (db : Db)
    → (text_eq user.role (codes "admin") ≡ false → hard_delete user id db ≡ (err access_denied, db))
      × (text_eq user.role (codes "admin") ≡ true
          → find (λ o. o.id == id) db.orders ≡ none
          → hard_delete user id db ≡ (err not_found, db))
      × ((order : Order)
          → text_eq user.role (codes "admin") ≡ true
          → find (λ o. o.id == id) db.orders ≡ some order
          → hard_delete user id db ≡ (ok tt, removed id db))
unfolding hard_delete remove_order
hard_delete_ends user id db = (λ a. ground arith, λ a f. ground arith, λ order a f. ground arith)

-- The three ways in which DELETE /orders/:id/hard ends: a user who is not an administrator is
-- refused and an order that is missing is not found, with the tables unchanged; otherwise the order
-- and its lines are gone. Any other order keeps its lines in every case.
pub hard_delete_cases :
    (user : Caller) (id j : ℕ) (db : Db)
    → j ≢ id
    → let (r, db') : Result (Unit {0}) × Db = hard_delete user id db in
      (((text_eq user.role (codes "admin") ≡ false) × (r ≡ err access_denied) × (db' ≡ db))
        ⊎ ((find (λ o. o.id == id) db.orders ≡ none) × (r ≡ err not_found) × (db' ≡ db))
        ⊎ ((text_eq user.role (codes "admin") ≡ true)
            × (r ≡ ok tt)
            × (find (λ o. o.id == id) db'.orders ≡ none)
            × (lines_of id db' ≡ [])))
      × (lines_of j db' ≡ lines_of j db)
hard_delete_cases user id j db ne = elim (Bool-cases (text_eq user.role (codes "admin"))) [
  | inr a ↦ rw ((hard_delete_ends user id db).0 a) (inl (a, refl, refl), refl)
  | inl a ↦ elim (Option-cases (find (λ o. o.id == id) db.orders)) [
    | inl f ↦ rw ((hard_delete_ends user id db).1 a f) (inr (inl (f, refl, refl)), refl)
    | inr (order, f) ↦ rw ((hard_delete_ends user id db).2 order a f) (
      inr (
          inr (
            a,
            refl,
            find-none (λ o. o.id == id) (delete_where (λ o. o.id == id) db.orders)
                (All-false_of_select _ _ (select-deleted (λ o. o.id == id) db.orders)),
            select-deleted (is_of_order id) db.order_items,
          )),
      select-delete_other (is_of_order j) (is_of_order id) db.order_items
          (λ i e. other i.order_id e),
    )
  ]
]
  where
    other : (k : ℕ) → (k == id) ≡ true → (k == j) ≡ false
    other k e = ground arith
