-- ===== src/BuyerReturn.antt =====
-- services/buyerReturnService.ts
pub mod Steps
pub mod Restore
use remote_order_server.Common.{
  ℕ, suc, ◌+◌, Bool, not, ◌&&◌, none, some, List, [], ◌∷◌, ◌++◌, map, ◌==◌, ltb, find, select,
  delete_where, update_where, exists_where, order_by, opt_eq, length,
}
use remote_order_server.Common.Int.{ℤ, pos, ◌-ℤ◌, ◌*ℤ◌}
use remote_order_server.Db.{Db, Env, Item, ProductBatch, ReturnDoc, ReturnedBatch, draft, posted}
use remote_order_server.Tx.{
  Tx, pure, throw_if, gets, or_throw, modify, transaction, in_transaction, ◌>>=◌, ◌>>◌, not_found,
  already_posted, not_posted, cannot_edit_posted, cannot_delete_posted,
}
use remote_order_server.Inventory.{add_stock}
use remote_order_server.Realization.{is_posted}
use remote_order_server.DocNumber.{generate_doc_number}
use remote_order_server.Documents.{
  ItemData, DocData, item_rows, item_total, total_amount, delete_batches,
}

abbrev find_doc : ℕ → Tx ReturnDoc
find_doc id db = or_throw (find (λ r. r.id == id) db.buyer_returns) not_found db

abbrev set_doc : ℕ → (ReturnDoc → ReturnDoc) → Tx (Unit {0})
set_doc id f =
    modify (λ db. record db { buyer_returns = update_where (λ r. r.id == id) f db.buyer_returns })

-- The INSERT of the items, and the total amount on the header.
unfoldable pub insert_items : Env → ℕ → List ItemData → Tx (Unit {0})
insert_items env id items = do
  modify (λ db. record db {
    buyer_return_items =
        db.buyer_return_items
        ++ item_rows (λ i. env.round_amount (item_total i)) env id db.generated 0 items;
    generated = db.generated + length items;
  })
  set_doc id (λ r. record r { total_amount = env.round_amount (total_amount items) })

unfoldable pub create_body : Env → DocData → Tx ℕ
create_body env d db =
    let id : ℕ = env.uuid db.generated in
    let doc : ReturnDoc = record {
      id = id;
      number = generate_doc_number env (map (λ r. r.number) db.buyer_returns) d.date;
      date = d.date;
      party_id = d.party_id;
      warehouse_id = d.warehouse_id;
      comment = d.comment;
      status = draft;
      total_amount = pos 0;
      profit = pos 0;
      created_at = env.now;
    } in
    (insert_items env id d.items >> pure id)
      (record db { buyer_returns = db.buyer_returns ++ doc ∷ []; generated = suc db.generated })

unfoldable pub create : Env → DocData → Tx ℕ
create env d = transaction (create_body env d)

-- DELETE FROM "BuyerReturnItem" WHERE "buyerReturnId" = id; "BuyerReturnItemBatch" refers to the
-- items with ON DELETE CASCADE (migrations/add_buyer_returns.ts).
unfoldable pub delete_items : ℕ → Tx (Unit {0})
delete_items id = modify (λ db. record db {
  buyer_return_item_batches =
      delete_where
        (λ l. exists_where (λ i. i.id == l.item_id && i.doc_id == id) db.buyer_return_items)
        db.buyer_return_item_batches;
  buyer_return_items = delete_where (λ i. i.doc_id == id) db.buyer_return_items;
})

unfoldable pub update_body : Env → ℕ → DocData → Tx (Unit {0})
update_body env id d = do
  current ← find_doc id
  throw_if (is_posted current.status) cannot_edit_posted
  set_doc id (λ r. record r {
    date = d.date;
    party_id = d.party_id;
    warehouse_id = d.warehouse_id;
    comment = d.comment;
  })
  delete_items id
  insert_items env id d.items

unfoldable pub update : Env → ℕ → DocData → Tx (Unit {0})
update env id d = transaction (update_body env id d)

-- The price of the product's latest batch, or 0.
unfoldable pub cost_price : ℕ → Db → ℤ
cost_price product_id db =
    elim (order_by (λ a b. ltb b.created_at a.created_at)
      (select (λ b. b.product_id == product_id) db.batches)) [
        | [] ↦ pos 0
        | b ∷ rows ↦ b.enter_price
      ]

-- One round of the loop of `post`: a batch at the cost price, its link, and the profit so far.
unfoldable pub return_item : Env → ℕ → ReturnDoc → Item → ℤ → Tx ℤ
return_item env id doc item profit = do
  cost ← gets (cost_price item.product_id)
  batch ← add_stock env item.product_id item.quantity cost none (some doc.date) (some id)
  modify (λ db. record db {
    buyer_return_item_batches =
        db.buyer_return_item_batches
        ++ record { item_id = item.id; batch_id = batch.id; quantity = item.quantity } ∷ [];
  })
  pure (profit -ℤ (item.price -ℤ cost) *ℤ item.quantity)

unfoldable pub return_items : Env → ℕ → ReturnDoc → List Item → ℤ → Tx ℤ
return_items env id doc [] profit = pure profit
return_items env id doc (item ∷ items) profit = do
  profit' ← return_item env id doc item profit
  return_items env id doc items profit'

unfoldable pub post_doc : Env → ℕ → ReturnDoc → Tx (Unit {0})
post_doc env id doc = do
  items ← gets (λ db.
      order_by (λ a b. ltb a.sort_order b.sort_order)
        (select (λ i. i.doc_id == id) db.buyer_return_items))
  profit ← return_items env id doc items (pos 0)
  set_doc id (λ r. record r { status = posted; profit = env.round_amount profit })

unfoldable pub post_body : Env → ℕ → Tx (Unit {0})
post_body env id = do
  doc ← find_doc id
  throw_if (is_posted doc.status) already_posted
  post_doc env id doc

unfoldable pub post : Env → ℕ → Bool → Tx (Unit {0})
post env id tx_client = in_transaction tx_client (post_body env id)

abbrev pub is_of_return : ℕ → ProductBatch → Bool
is_of_return id b = opt_eq b.buyer_return_id (some id)

-- The links of the document's items, by the join with "BuyerReturnItem".
abbrev pub is_link_of : ℕ → Db → ReturnedBatch → Bool
is_link_of id db l = exists_where (λ i. i.id == l.item_id && i.doc_id == id) db.buyer_return_items

-- The fallback: the batches that the links name are deleted one by one.
unfoldable pub delete_linked : List ReturnedBatch → Tx (Unit {0})
delete_linked [] = pure tt
delete_linked (l ∷ links) = do
  modify (delete_batches (λ b. b.id == l.batch_id))
  delete_linked links

unfoldable pub unpost_doc : ℕ → Tx (Unit {0})
unpost_doc id = do
  modify (delete_batches (is_of_return id))
  links ← gets (λ db. select (is_link_of id db) db.buyer_return_item_batches)
  delete_linked links
  modify (λ db. record db {
    buyer_return_item_batches = delete_where (is_link_of id db) db.buyer_return_item_batches;
  })
  set_doc id (λ r. record r { status = draft; profit = pos 0 })

unfoldable pub unpost_body : ℕ → Tx (Unit {0})
unpost_body id = do
  doc ← find_doc id
  throw_if (not (is_posted doc.status)) not_posted
  unpost_doc id

unfoldable pub unpost : ℕ → Bool → Tx (Unit {0})
unpost id tx_client = in_transaction tx_client (unpost_body id)

-- "ProductBatch" refers to "BuyerReturn" with ON DELETE SET NULL
-- (migrations/13_add_buyer_return_to_batch.ts).
unfoldable pub delete_body : ℕ → Tx (Unit {0})
delete_body id = do
  doc ← find_doc id
  throw_if (is_posted doc.status) cannot_delete_posted
  delete_items id
  modify (λ db. record db {
    buyer_returns = delete_where (λ r. r.id == id) db.buyer_returns;
    batches = update_where (is_of_return id) (λ b. record b { buyer_return_id = none }) db.batches;
  })

unfoldable pub delete : ℕ → Tx (Unit {0})
delete id = transaction (delete_body id)
