-- ===== src/Reports/Stock.antt =====
-- GET /stock-balances, and what GET /inventory-movement has in common with it: the quantities that
-- came with each batch, and those that went from it with documents.
pub mod Rows
pub mod Now
use remote_order_server.Common.{
  ℕ, suc, Bool, true, false, ◌&&◌, Option, none, some, List, [], ◌∷◌, map, ◌==◌, if◌then◌else◌,
  find, select, coalesce, opt_eq, ltb, sum_by, same_opt, ◌||◌,
}
use remote_order_server.Common.Int.{ℤ, pos, ◌+ℤ◌, ◌-ℤ◌, ◌*ℤ◌, ltb_ℤ}
use remote_order_server.Db.{Db, ProductBatch, GoodsReceipt, ReturnDoc, Realization, Item, ItemBatch}
use remote_order_server.Realization.{is_posted}
use remote_order_server.Inventory.{batch_warehouse}
use remote_order_server.Reports.{midnight}

-- COALESCE(gr."date", br."date") over the two LEFT JOINs
abbrev pub receipt_date : List GoodsReceipt → Option ℕ → Option ℕ
receipt_date receipts none = none
receipt_date receipts (some i) = elim (find (λ r. r.id == i) receipts) [
  | none ↦ none
  | some r ↦ some r.date
]

abbrev pub return_date : List ReturnDoc → Option ℕ → Option ℕ
return_date returns none = none
return_date returns (some i) = elim (find (λ r. r.id == i) returns) [
  | none ↦ none
  | some r ↦ some r.date
]

unfoldable pub batch_date : Db → ProductBatch → Option ℕ
batch_date db b =
    coalesce (receipt_date db.goods_receipts b.goods_receipt_id)
      (return_date db.buyer_returns b.buyer_return_id)

-- A document that is joined to a link, of which the queries read the status and the date.
pub record LinkDoc : Type 0 where
  pub is_done : Bool
  pub date : ℕ

-- JOIN "RealizationItem" JOIN "Realization"
unfoldable pub sale_of : Db → ItemBatch → Option LinkDoc
sale_of db l = elim (find (λ i. i.id == l.item_id) db.realization_items) [
  | none ↦ none
  | some i ↦ elim (find (λ r. r.id == i.doc_id) db.realizations) [
    | none ↦ none
    | some r ↦ some (record { is_done = is_posted r.status; date = r.date })
  ]
]

-- JOIN "SupplierReturnItem" JOIN "SupplierReturn"
unfoldable pub return_of : Db → ItemBatch → Option LinkDoc
return_of db l = elim (find (λ i. i.id == l.item_id) db.supplier_return_items) [
  | none ↦ none
  | some i ↦ elim (find (λ r. r.id == i.doc_id) db.supplier_returns) [
    | none ↦ none
    | some r ↦ some (record { is_done = is_posted r.status; date = r.date })
  ]
]

-- WHERE "date" < ($1::date + interval '1 day') AND status = 'POSTED'
abbrev pub went_before : ℕ → Option LinkDoc → Bool
went_before moment none = false
went_before moment (some d) = ltb d.date moment && d.is_done

-- SUM(quantity) … GROUP BY "productBatchId", for one batch; zero by COALESCE
abbrev pub gone : (ItemBatch → Option LinkDoc) → ℕ → List ItemBatch → ℕ → ℤ
gone doc_of moment links i =
    sum_by (λ l. l.deduction.quantity)
      (select (λ l. went_before moment (doc_of l) && l.deduction.batch_id == i) links)

abbrev pub came_before : ℕ → Option ℕ → Bool
came_before moment none = false
came_before moment (some date) = ltb date moment

-- The columns of BatchBalances.
unfoldable pub incoming : Db → ℕ → ProductBatch → ℤ
unfolding batch_date
incoming db day b =
    if came_before (midnight (suc day)) (batch_date db b) then b.quantity_total else pos 0

unfoldable pub outgoing : Db → ℕ → ProductBatch → ℤ
unfolding sale_of return_of
outgoing db day b =
    gone (sale_of db) (midnight (suc day)) db.realization_item_batches b.id
    +ℤ gone (return_of db) (midnight (suc day)) db.supplier_return_item_batches b.id

-- A row of the report.
pub record StockRow : Type 0 where
  pub product_id : ℕ
  pub warehouse_id : Option ℕ
  pub balance : ℤ
  pub total_value : ℤ

abbrev pub is_row : ℕ → Option ℕ → StockRow → Bool
is_row p w r = r.product_id == p && same_opt r.warehouse_id w

-- GROUP BY "productId", "warehouseId"
unfoldable pub add_row : ℕ → Option ℕ → ℤ → ℤ → List StockRow → List StockRow
add_row p w n value [] =
    record { product_id = p; warehouse_id = w; balance = n; total_value = value } ∷ []
add_row p w n value (r ∷ rows) =
    if is_row p w r
    then record r { balance = r.balance +ℤ n; total_value = r.total_value +ℤ value } ∷ rows
    else r ∷ add_row p w n value rows

unfoldable pub group_rows : Db → ℕ → List ProductBatch → List StockRow
unfolding incoming outgoing
group_rows db day [] = []
group_rows db day (b ∷ bs) =
    let n : ℤ = incoming db day b -ℤ outgoing db day b in
    add_row b.product_id (batch_warehouse db.goods_receipts db.buyer_returns b) n
      (n *ℤ b.enter_price) (group_rows db day bs)

-- The filter on the warehouse, which users of one warehouse cannot choose.
abbrev pub is_in : Option ℕ → Option ℕ → Bool
is_in none w = true
is_in (some v) w = opt_eq w (some v)

-- GET /stock-balances, before ORDER BY; HAVING leaves out the products that are gone.
unfoldable pub stock_balances : Option ℕ → ℕ → Db → List StockRow
stock_balances warehouse day db =
    select (λ r. ltb_ℤ r.balance (pos 0) || ltb_ℤ (pos 0) r.balance)
      (group_rows db day (
        select (λ b. is_in warehouse (batch_warehouse db.goods_receipts db.buyer_returns b))
          db.batches))
