-- ===== src/Inventory.antt =====
-- services/inventoryService.ts
pub mod Totals
pub mod Deduct
pub mod Return
pub mod Owned
pub mod Plan
pub mod Links
pub mod Balance
pub mod Stock
pub mod Spread
pub mod Level
pub mod Rounded
use remote_order_server.Common.{
  Numbers, exact, ℕ, suc, ◌+◌, Bool, ◌&&◌, Option, none, some, List, [], ◌∷◌, ◌++◌, ◌==◌, ltb,
  opt_eq, coalesce, get_or, if◌then◌else◌, find, select, update_where, exists_where, order_by,
}
use remote_order_server.Common.Int.{ℤ, pos, ◌-ℤ◌, ◌+ℤ◌, ltb_ℤ, leb_ℤ, min_ℤ}
use remote_order_server.Db.{
  Db, Env, ProductBatch, Deduction, ItemBatch, Item, Product, GoodsReceipt, ReturnDoc,
}
use remote_order_server.Tx.{
  Tx, Result, ok, err, ProductLabel, by_name, by_id, insufficient_stock, pure, throw, gets, modify,
  ◌>>=◌, ◌>>◌,
}

-- INSERT INTO "ProductBatch" … RETURNING *
unfoldable pub add_stock : Env → ℕ → ℤ → ℤ → Option ℕ → Option ℕ → Option ℕ → Tx ProductBatch
add_stock env product_id quantity enter_price goods_receipt_id target_date buyer_return_id db =
    let batch : ProductBatch = record {
      id = env.uuid db.generated;
      product_id = product_id;
      quantity_total = quantity;
      quantity_left = quantity;
      enter_price = enter_price;
      goods_receipt_id = goods_receipt_id;
      buyer_return_id = buyer_return_id;
      created_at = get_or target_date env.now;
    } in
    (ok batch, record db { batches = db.batches ++ batch ∷ []; generated = suc db.generated })

module _ (receipts : List GoodsReceipt) (returns : List ReturnDoc) where
  receipt_warehouse : Option ℕ → Option ℕ
  receipt_warehouse none = none
  receipt_warehouse (some i) = elim (find (λ r. r.id == i) receipts) [
    | none ↦ none
    | some r ↦ r.warehouse_id
  ]

  return_warehouse : Option ℕ → Option ℕ
  return_warehouse none = none
  return_warehouse (some i) = elim (find (λ r. r.id == i) returns) [
    | none ↦ none
    | some r ↦ r.warehouse_id
  ]

  -- COALESCE(gr."warehouseId", br."warehouseId") over the two LEFT JOINs
  pub batch_warehouse : ProductBatch → Option ℕ
  unfolding receipt_warehouse return_warehouse
  batch_warehouse b =
      coalesce (receipt_warehouse b.goods_receipt_id) (return_warehouse b.buyer_return_id)

-- The WHERE clause of the query in `deductStock`.
unfoldable pub is_available : Db → ℕ → Option ℕ → ProductBatch → Bool
unfolding batch_warehouse
is_available db product_id warehouse_id b =
    b.product_id == product_id
    && ltb_ℤ (pos 0) b.quantity_left
    && opt_eq (batch_warehouse db.goods_receipts db.buyer_returns b) warehouse_id

-- The rows of the query, oldest first.
unfoldable pub available_batches : Db → ℕ → Option ℕ → List ProductBatch
unfolding is_available
available_batches db product_id warehouse_id =
    order_by (λ a b. ltb a.created_at b.created_at)
      (select (is_available db product_id warehouse_id) db.batches)

-- UPDATE "ProductBatch" SET "quantityLeft" = "quantityLeft" - take WHERE id = batch_id
unfoldable pub take_from : ℕ → ℤ → List ProductBatch → List ProductBatch
take_from batch_id take =
    update_where (λ r. r.id == batch_id) (λ r. record r { quantity_left = r.quantity_left -ℤ take })

-- UPDATE "ProductBatch" SET "quantityLeft" = "quantityLeft" + quantity WHERE id = batch_id
unfoldable pub put_back : ℕ → ℤ → List ProductBatch → List ProductBatch
put_back batch_id quantity =
    update_where (λ r. r.id == batch_id)
      (λ r. record r { quantity_left = r.quantity_left +ℤ quantity })

-- The loop of `deductStock` over numbers of JavaScript: the deductions, what remains, and the table.
unfoldable pub deduct_loop_by :
    Numbers → List ProductBatch → ℤ → List ProductBatch → List Deduction × ℤ × List ProductBatch
deduct_loop_by js [] remaining table = ([], remaining, table)
deduct_loop_by js (b ∷ rows) remaining table =
    let take = min_ℤ remaining (js.number b.quantity_left) in
    let (ds, left, table') =
      deduct_loop_by js rows (js.minus remaining take) (take_from b.id (js.column take) table) in
    if leb_ℤ remaining (pos 0) then ([], remaining, table) else (
      record { batch_id = b.id; quantity = take; enter_price = b.enter_price } ∷ ds,
      left,
      table',
    )

-- The loop on quantities on which the numbers compute exactly.
abbrev pub deduct_loop :
    List ProductBatch → ℤ → List ProductBatch → List Deduction × ℤ × List ProductBatch
deduct_loop = deduct_loop_by exact

unfoldable pub product_label : List Product → ℕ → ProductLabel
product_label products product_id = elim (find (λ p. p.id == product_id) products) [
  | none ↦ by_id product_id
  | some p ↦ elim p.name [ [] ↦ by_id product_id | c ∷ t ↦ by_name (c ∷ t) ]
]

-- `deductStock` over numbers of JavaScript.
unfoldable pub deduct_stock_by : Numbers → ℕ → ℤ → Option ℕ → Tx (List Deduction)
deduct_stock_by js product_id needed warehouse_id db =
    let (ds, remaining, table) =
      deduct_loop_by js (available_batches db product_id warehouse_id) needed db.batches in
    let db' : Db = record db { batches = table } in
    if ltb_ℤ (pos 0) remaining
    then (err (insufficient_stock (product_label db.products product_id) needed remaining), db')
    else (ok ds, db')

-- `deductStock` on quantities on which the numbers compute exactly.
abbrev pub deduct_stock : ℕ → ℤ → Option ℕ → Tx (List Deduction)
deduct_stock = deduct_stock_by exact

-- `realizationItemId` belongs to an item of the document: the join with "RealizationItem", whose
-- ids are a primary key.
unfoldable pub is_of_doc : List Item → ℕ → ItemBatch → Bool
is_of_doc items doc_id l = exists_where (λ i. i.id == l.item_id && i.doc_id == doc_id) items

-- The loop that puts the quantities back into their batches.
unfoldable pub return_loop : List ItemBatch → List ProductBatch → List ProductBatch
return_loop [] table = table
return_loop (l ∷ links) table =
    return_loop links (put_back l.deduction.batch_id l.deduction.quantity table)

unfoldable pub return_stock : ℕ → Tx (List ItemBatch)
return_stock realization_id db =
    let links =
      select (is_of_doc db.realization_items realization_id) db.realization_item_batches in
    (ok links, record db { batches = return_loop links db.batches })
