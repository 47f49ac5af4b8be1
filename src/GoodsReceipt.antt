-- ===== src/GoodsReceipt.antt =====
-- services/goodsReceiptService.ts
pub mod Steps
pub mod Restore
pub mod Race
use remote_order_server.Common.{
  ℕ, suc, ◌+◌, Bool, true, false, not, ◌&&◌, Option, none, some, List, [], ◌∷◌, ◌++◌, map, ◌==◌,
  ltb, if◌then◌else◌, find, select, delete_where, update_where, exists_where, order_by, opt_eq,
  length,
}
use remote_order_server.Common.Int.{ℤ, pos, ◌+ℤ◌, ◌-ℤ◌, ltb_ℤ, leb_ℤ}
use remote_order_server.Db.{Db, Env, Item, ProductBatch, GoodsReceipt, Status, saved, posted}
use remote_order_server.Tx.{
  Tx, ok, pure, throw, throw_if, gets, or_throw, modify, transaction, in_transaction, ◌>>=◌, ◌>>◌,
  not_found, already_posted, not_posted, already_sold, sold_more, cannot_delete_posted,
}
use remote_order_server.Inventory.{add_stock}
use remote_order_server.Realization.{is_posted}
use remote_order_server.DocNumber.{generate_doc_number}
use remote_order_server.Documents.{ItemData, DocData, item_rows, delete_batches}

abbrev pub find_doc : ℕ → Tx GoodsReceipt
find_doc id db = or_throw (find (λ r. r.id == id) db.goods_receipts) not_found db

-- The INSERT of the items, from `sortOrder` 0.
unfoldable pub insert_items : Env → ℕ → List ItemData → Tx (Unit {0})
insert_items env id items = modify (λ db. record db {
  goods_receipt_items =
      db.goods_receipt_items ++ item_rows (λ i. i.total) env id db.generated 0 items;
  generated = db.generated + length items;
})

unfoldable pub create_body : Env → DocData → Tx ℕ
create_body env d db =
    let id : ℕ = env.uuid db.generated in
    let receipt : GoodsReceipt = record {
      id = id;
      number = generate_doc_number env (map (λ r. r.number) db.goods_receipts) d.date;
      date = d.date;
      warehouse_id = d.warehouse_id;
      provider_id = d.party_id;
      comment = d.comment;
      status = saved;
      paid_amount = pos 0;
      is_deleted = false;
      created_at = env.now;
    } in
    (insert_items env id d.items >> pure id) (record db {
      goods_receipts = db.goods_receipts ++ receipt ∷ [];
      generated = suc db.generated;
    })

unfoldable pub create : Env → DocData → Tx ℕ
create env d = transaction (create_body env d)

-- An entry of `oldBatchesMap`: the batches of one product, consolidated.
pub record OldBatch : Type 0 where
  pub product_id : ℕ
  pub quantity_total : ℤ
  pub quantity_left : ℤ
  pub first_id : ℕ
  pub other_ids : List ℕ

unfoldable pub add_old : ProductBatch → List OldBatch → List OldBatch
add_old b [] =
    record {
      product_id = b.product_id;
      quantity_total = b.quantity_total;
      quantity_left = b.quantity_left;
      first_id = b.id;
      other_ids = [];
    }
    ∷ []
add_old b (o ∷ old) =
    if o.product_id == b.product_id
    then record o {
      quantity_total = o.quantity_total +ℤ b.quantity_total;
      quantity_left = o.quantity_left +ℤ b.quantity_left;
      other_ids = o.other_ids ++ b.id ∷ [];
    }
      ∷ old
    else o ∷ add_old b old

unfoldable pub old_batches : List OldBatch → List ProductBatch → List OldBatch
old_batches old [] = old
old_batches old (b ∷ rows) = old_batches (add_old b old) rows

-- An entry of `incomingItemMap`: the quantities of one product, at the price of its first item.
pub record Incoming : Type 0 where
  pub product_id : ℕ
  pub quantity : ℤ
  pub price : ℤ

unfoldable pub add_incoming : ItemData → List Incoming → List Incoming
add_incoming i [] =
    record { product_id = i.product_id; quantity = i.quantity; price = i.price } ∷ []
add_incoming i (e ∷ entries) =
    if e.product_id == i.product_id
    then record e { quantity = e.quantity +ℤ i.quantity } ∷ entries
    else e ∷ add_incoming i entries

unfoldable pub incoming_items : List Incoming → List ItemData → List Incoming
incoming_items entries [] = entries
incoming_items entries (i ∷ items) = incoming_items (add_incoming i entries) items

unfoldable pub set_batch : ℕ → ℤ → ℤ → ℤ → List ProductBatch → List ProductBatch
set_batch id total left price =
    update_where (λ b. b.id == id)
      (λ b. record b { quantity_total = total; quantity_left = left; enter_price = price })

unfoldable pub clear_batches : List ℕ → List ProductBatch → List ProductBatch
clear_batches [] table = table
clear_batches (i ∷ ids) table = clear_batches ids (
    update_where (λ b. b.id == i) (λ b. record b { quantity_total = pos 0; quantity_left = pos 0 })
      table)

-- The product is still in the document: its first batch holds the new quantity, the rest none.
unfoldable pub keep_old : OldBatch → Incoming → ℤ → Tx (Unit {0})
keep_old o e sold = modify (λ db. record db {
  batches =
      clear_batches o.other_ids
        (set_batch o.first_id e.quantity (e.quantity -ℤ sold) e.price db.batches);
})

-- One round of the loop over `oldBatchesMap`.
unfoldable pub update_old : ℕ → List Incoming → OldBatch → Tx (Unit {0})
update_old id entries o =
    let sold = o.quantity_total -ℤ o.quantity_left in
    elim (find (λ e. e.product_id == o.product_id) entries) [
      | none ↦
          if ltb_ℤ (pos 0) sold
          then throw (sold_more sold)
          else if ltb_ℤ sold (pos 0)
          then pure tt
          else modify (
              delete_batches
                (λ b. opt_eq b.goods_receipt_id (some id) && b.product_id == o.product_id))
      | some e ↦
          if ltb_ℤ e.quantity sold
          then throw (sold_more sold)
          else if leb_ℤ e.quantity (pos 0)
              && leb_ℤ (pos 0) e.quantity
              && leb_ℤ sold (pos 0)
              && leb_ℤ (pos 0) sold
          then modify (
              delete_batches
                (λ b. opt_eq b.goods_receipt_id (some id) && b.product_id == o.product_id))
          else if ltb_ℤ (pos 0) e.quantity
          then keep_old o e sold
          else pure tt
    ]

unfoldable pub update_all : ℕ → List Incoming → List OldBatch → Tx (Unit {0})
update_all id entries [] = pure tt
update_all id entries (o ∷ old) = do update_old id entries o; update_all id entries old

-- Products that the document did not have get a batch.
unfoldable pub add_new : Env → ℕ → ℕ → List OldBatch → List Incoming → Tx (Unit {0})
add_new env id date old [] = pure tt
add_new env id date old (e ∷ entries) = do
  if exists_where (λ o. o.product_id == e.product_id) old
      then pure tt
      else (add_stock env e.product_id e.quantity e.price (some id) (some date) none >> pure tt)
  add_new env id date old entries

unfoldable pub update_stock : Env → ℕ → DocData → Tx (Unit {0})
update_stock env id d = do
  rows ← gets (λ db. select (λ b. opt_eq b.goods_receipt_id (some id)) db.batches)
  let old = old_batches [] rows
  let entries = incoming_items [] d.items
  update_all id entries old
  add_new env id d.date old entries

unfoldable pub update_header : ℕ → DocData → Tx (Unit {0})
update_header id d = modify (λ db. record db {
  goods_receipts =
      update_where (λ r. r.id == id)
        (λ r. record r {
          number = d.number;
          date = d.date;
          warehouse_id = d.warehouse_id;
          provider_id = d.party_id;
          comment = d.comment;
        })
        db.goods_receipts;
})

unfoldable pub update_body : Env → ℕ → DocData → Tx (Unit {0})
update_body env id d = do
  current ← find_doc id
  update_header id d
  if is_posted current.status then update_stock env id d else pure tt
  modify (λ db. record db {
    goods_receipt_items = delete_where (λ i. i.doc_id == id) db.goods_receipt_items;
  })
  insert_items env id d.items

unfoldable pub update : Env → ℕ → DocData → Tx (Unit {0})
update env id d = transaction (update_body env id d)

abbrev pub set_status : ℕ → Status → Tx (Unit {0})
set_status id s = modify (λ db. record db {
  goods_receipts = update_where (λ r. r.id == id) (λ r. record r { status = s }) db.goods_receipts;
})

-- The items of the document, by `sortOrder` and then in the order of insertion.
abbrev pub items_of : ℕ → Db → List Item
items_of id db =
    order_by (λ a b. ltb a.sort_order b.sort_order)
      (select (λ i. i.doc_id == id) db.goods_receipt_items)

-- The loop of `post`: a batch for each item.
unfoldable pub stock_items : Env → ℕ → ℕ → List Item → Tx (Unit {0})
stock_items env id date [] = pure tt
stock_items env id date (item ∷ items) = do
  add_stock env item.product_id item.quantity item.price (some id) (some date) none
  stock_items env id date items

unfoldable pub post_doc : Env → ℕ → GoodsReceipt → Tx (Unit {0})
post_doc env id doc = do
  items ← gets (items_of id)
  stock_items env id doc.date items
  set_status id posted

unfoldable pub post_body : Env → ℕ → Tx (Unit {0})
post_body env id = do
  doc ← find_doc id
  throw_if (is_posted doc.status) already_posted
  post_doc env id doc

unfoldable pub post : Env → ℕ → Bool → Tx (Unit {0})
post env id tx_client = in_transaction tx_client (post_body env id)

abbrev pub is_of_receipt : ℕ → ProductBatch → Bool
is_of_receipt id b = opt_eq b.goods_receipt_id (some id)

abbrev pub is_sold : ℕ → ProductBatch → Bool
is_sold id b = is_of_receipt id b && ltb_ℤ b.quantity_left b.quantity_total

unfoldable pub unpost_body : ℕ → Tx (Unit {0})
unpost_body id = do
  doc ← find_doc id
  throw_if (not (is_posted doc.status)) not_posted
  sold ← gets (λ db. exists_where (is_sold id) db.batches)
  throw_if sold already_sold
  modify (delete_batches (is_of_receipt id))
  set_status id saved

unfoldable pub unpost : ℕ → Bool → Tx (Unit {0})
unpost id tx_client = in_transaction tx_client (unpost_body id)

-- "ProductBatch" refers to "GoodsReceipt" with ON DELETE SET NULL (migrate_v8.ts).
unfoldable pub delete_body : ℕ → Tx (Unit {0})
delete_body id = do
  doc ← find_doc id
  throw_if (is_posted doc.status) cannot_delete_posted
  modify (λ db. record db {
    goods_receipt_items = delete_where (λ i. i.doc_id == id) db.goods_receipt_items;
    goods_receipts = delete_where (λ r. r.id == id) db.goods_receipts;
    batches =
        update_where (is_of_receipt id) (λ b. record b { goods_receipt_id = none }) db.batches;
  })

unfoldable pub delete : ℕ → Tx (Unit {0})
delete id = transaction (delete_body id)
