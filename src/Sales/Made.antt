-- ===== src/Sales/Made.antt =====
-- A realization that is made from an order.
use remote_order_server.Common.{
  ℕ, suc, ◌+◌, ◌≡◌, refl, subst, ap₂, ◌∙◌, false, Option, none, some, List, [], ◌∷◌, ◌++◌, map,
  arith, ◌==◌, ◌&&◌, ==_refl, find, select, Option-cases, inl, inr, select-append, All, All-append,
  All-imp, length, select_every, select-none, exists-none, All-false_of_select, find-last,
}
use remote_order_server.Common.Int.{ℤ}
use remote_order_server.Db.{Db, Env, Item, Order, Realization, ItemBatch, accepted, draft}
use remote_order_server.Tx.{ok}
use remote_order_server.Caller.{Caller}
use remote_order_server.Inventory.{is_of_doc}
use remote_order_server.Realization.{post_body, unpost_body, set_order_status}
use remote_order_server.Realization.Body.{items_of, orders_after}
use remote_order_server.Realization.Restore.{HasNoLinks, post-unpost}
use remote_order_server.DocNumber.{generate_doc_number}
use remote_order_server.Sales.{
  SaleItem, row_of, insert_header, insert_ordered, from_order_body, from_order, sale_of_order,
  order_lines, new_sale,
}
use remote_order_server.Sales.Steps.{rows_of, insert_items-rows}

-- A row that an INSERT adds belongs to the document and has a generated id.
abbrev IsNewRow : Env → ℕ → Item → Type 0
IsNewRow env doc_id i = (i.doc_id ≡ doc_id) × (n : ℕ) × (i.id ≡ env.uuid n)

row_of-IsNewRow :
    (env : Env) (doc_id n order : ℕ) (l : SaleItem) {row : Item}
    → row_of (env.uuid n) doc_id order l.product_id l.quantity l.price l.total ≡ some row
    → IsNewRow env doc_id row
unfolding row_of
row_of-IsNewRow env doc_id n order l e = (ground arith, n, ground arith)

rows_of-IsNewRow :
    (env : Env) (doc_id n order : ℕ) (lines : List SaleItem) {rows : List Item}
    → rows_of env doc_id n order lines ≡ some rows
    → All (IsNewRow env doc_id) rows
unfolding rows_of
rows_of-IsNewRow env doc_id n order [] {rows} h =
    let nil : [] ≡ rows = ground arith in subst (All (IsNewRow env doc_id)) nil tt
rows_of-IsNewRow env doc_id n order (l ∷ lines) {rows} h =
    elim (Option-cases (row_of (env.uuid n) doc_id order l.product_id l.quantity l.price l.total)) [
      | inl e ↦ absurd (ground arith)
      | inr (row, e) ↦ elim (Option-cases (rows_of env doc_id (suc n) (suc order) lines)) [
        | inl k ↦ absurd (ground arith)
        | inr (rest, k) ↦
            let cons : row ∷ rest ≡ rows = ground arith in
            subst (All (IsNewRow env doc_id)) cons (
              row_of-IsNewRow env doc_id n order l e,
              rows_of-IsNewRow env doc_id (suc n) (suc order) lines k,
            )
      ]
    ]

module _ (env : Env) (doc : Realization) (order_id : ℕ) (lines : List SaleItem) (db : Db)
    {rows : List Item}
    (h : rows_of env (env.uuid db.generated) (suc db.generated) 0 lines ≡ some rows) where
  abbrev numbered : Realization
  numbered = record doc {
    id = env.uuid db.generated;
    number = generate_doc_number env (map (λ r. r.number) db.realizations) env.now;
  }

  -- The tables after the INSERTs.
  abbrev made : Db
  made = record db {
    realizations = db.realizations ++ numbered ∷ [];
    orders = orders_after (some order_id) accepted db.orders;
    realization_items = db.realization_items ++ rows;
    generated = length rows + suc db.generated;
  }

  insert_ordered-made :
      insert_ordered env doc order_id lines db ≡ (ok (env.uuid db.generated), made)
  unfolding insert_ordered insert_header set_order_status
  insert_ordered-made = ground (
    arith,
    insert_items-rows env (env.uuid db.generated) 0 lines
        (record db {
          realizations = db.realizations ++ numbered ∷ [];
          orders = orders_after (some order_id) accepted db.orders;
          generated = suc db.generated;
        })
        h,
  )

  -- The ids that the database generates are new: no item is of the new document, and no link names
  -- a new item.
  module _
      (unused : select (λ i. i.doc_id == env.uuid db.generated) db.realization_items ≡ []) where
    made-items : items_of (env.uuid db.generated) made ≡ rows
    made-items =
        select-append (λ i. i.doc_id == env.uuid db.generated) db.realization_items rows
        ∙ ap₂ ◌++◌ unused (
            select_every (λ i. i.doc_id == env.uuid db.generated) rows
              (All-imp _ _ rows
                (λ i (k : IsNewRow env (env.uuid db.generated) i).
                  rw k.0 (==_refl (env.uuid db.generated)))
                (rows_of-IsNewRow env (env.uuid db.generated) (suc db.generated) 0 lines h)))

    not_linked :
        (l : ItemBatch)
        → ((n : ℕ) → (env.uuid n == l.item_id) ≡ false)
        → is_of_doc made.realization_items (env.uuid db.generated) l ≡ false
    unfolding is_of_doc
    not_linked l k =
        let p : Item → _ = λ i. i.id == l.item_id && i.doc_id == env.uuid db.generated in
        exists-none p (db.realization_items ++ rows) (
          All-append _ db.realization_items rows
            (All-imp _ _ db.realization_items
              (λ i (e : (i.doc_id == env.uuid db.generated) ≡ false). ground arith)
              (All-false_of_select _ db.realization_items unused))
            (All-imp _ _ rows
              (λ i (e : IsNewRow env (env.uuid db.generated) i). ground (arith, e.2, k e.1))
              (rows_of-IsNewRow env (env.uuid db.generated) (suc db.generated) 0 lines h)))

    made-HasNoLinks :
        All (λ l. (n : ℕ) → (env.uuid n == l.item_id) ≡ false) db.realization_item_batches
        → HasNoLinks (env.uuid db.generated) made
    made-HasNoLinks unlinked =
        select-none _ db.realization_item_batches
          (All-imp _ _ db.realization_item_batches not_linked unlinked)

-- The order that the rows are made of, and the new id.
module _ (env : Env) (user : Option Caller) (order : Order) (db : Db) {rows : List Item}
    (found : find (λ o. o.id == order.id) db.orders ≡ some order)
    (h : rows_of env
        (env.uuid db.generated)
        (suc db.generated)
        0
        (order_lines env order db.order_items)
      ≡ some rows) where
  from_order-made : from_order env user order.id db ≡ (
    ok (env.uuid db.generated),
    made env (sale_of_order env user order db) order.id (order_lines env order db.order_items) db h,
  )
  unfolding from_order from_order_body
  from_order-made = ground (
    arith,
    insert_ordered-made env (sale_of_order env user order db) order.id
        (order_lines env order db.order_items) db h,
  )

sale_of_order_fields :
    (env : Env) (user : Option Caller) (order : Order) (db : Db)
    → let doc : Realization = sale_of_order env user order db in
      (doc.status ≡ draft)
      × (doc.amount ≡ order.total)
      × (doc.counterparty_id ≡ order.counterparty_id)
      × (doc.order_id ≡ some order.id)
unfolding sale_of_order new_sale
sale_of_order_fields env user order db = (refl, refl, refl, refl)

-- An order that is found, and whose lines have a product, a quantity and a price, becomes a new
-- draft under the new id, with the order's total and counterparty, that names the order; its items
-- are the lines, in their order. No batch changes.
from_order_lem :
    (env : Env) (user : Option Caller) (order : Order) (db : Db) {rows : List Item}
    → find (λ o. o.id == order.id) db.orders ≡ some order
    → rows_of env
        (env.uuid db.generated)
        (suc db.generated)
        0
        (order_lines env order db.order_items)
      ≡ some rows
    → find (λ r. r.id == env.uuid db.generated) db.realizations ≡ none
    → select (λ i. i.doc_id == env.uuid db.generated) db.realization_items ≡ []
    → let id : ℕ = env.uuid db.generated in
      let db' : Db = (from_order env user order.id db).1 in
      ((from_order env user order.id db).0 ≡ ok id)
      × (items_of id db' ≡ rows)
      × (db'.batches ≡ db.batches)
      × ((doc : Realization) × (find (λ r. r.id == id) db'.realizations ≡ some doc)
          × (doc.status ≡ draft)
          × (doc.amount ≡ order.total)
          × (doc.counterparty_id ≡ order.counterparty_id)
          × (doc.order_id ≡ some order.id))
from_order_lem env user order db {rows} found h new unused =
    let lines : List SaleItem = order_lines env order db.order_items in
    let doc : Realization = sale_of_order env user order db in
    let fields = sale_of_order_fields env user order db in
    rw (from_order-made env user order db found h) (
      refl,
      made-items env doc order.id lines db h unused,
      refl,
      (
        numbered env doc order.id lines db h,
        find-last (λ r. r.id == env.uuid db.generated) db.realizations
            (numbered env doc order.id lines db h) new (==_refl (env.uuid db.generated)),
        fields.0,
        fields.1,
        fields.2,
        fields.3,
      ),
    )

-- A realization that is made from an order, and posted, can be unposted, and every batch is then as
-- it was before the realization was made, if the ids that the database generates are new.
pub from_order-post-unpost :
    (env : Env) (user : Option Caller) (order : Order) (db : Db) {rows : List Item} {profit : ℤ}
    {db' : Db}
    → find (λ o. o.id == order.id) db.orders ≡ some order
    → rows_of env
        (env.uuid db.generated)
        (suc db.generated)
        0
        (order_lines env order db.order_items)
      ≡ some rows
    → select (λ i. i.doc_id == env.uuid db.generated) db.realization_items ≡ []
    → All (λ l. (n : ℕ) → (env.uuid n == l.item_id) ≡ false) db.realization_item_batches
    → post_body env (env.uuid db.generated) (from_order env user order.id db).1 ≡ (ok profit, db')
    → ((unpost_body (env.uuid db.generated) db').0 ≡ ok tt)
      × ((unpost_body (env.uuid db.generated) db').1.batches ≡ db.batches)
from_order-post-unpost env user order db {rows} {profit} {db'} found h unused unlinked posts =
    let lines : List SaleItem = order_lines env order db.order_items in
    let doc : Realization = sale_of_order env user order db in
    let after : Db = made env doc order.id lines db h in
    let posts' : post_body env (env.uuid db.generated) after ≡ (ok profit, db') =
      subst (λ r. post_body env (env.uuid db.generated) r.1 ≡ (ok profit, db'))
        (from_order-made env user order db found h) posts in
    let back =
      post-unpost env (env.uuid db.generated) after
        (made-HasNoLinks env doc order.id lines db h unused unlinked) posts' in
    (back.0, back.1)
