-- ===== src/SupplierReturn.antt =====
-- services/supplierReturnService.ts
pub mod Steps
pub mod Restore
use remote_order_server.Common.{
  ℕ, suc, ◌+◌, Bool, not, Option, List, [], ◌∷◌, ◌++◌, map, ◌==◌, ltb, find, select, delete_where,
  update_where, order_by, length, coalesce,
}
use remote_order_server.Common.Int.{pos}
use remote_order_server.Db.{Env, Item, Deduction, ReturnDoc, draft, posted}
use remote_order_server.Tx.{
  Tx, pure, throw_if, gets, or_throw, modify, transaction, in_transaction, ◌>>=◌, ◌>>◌, not_found,
  already_posted, not_posted, cannot_edit_posted, cannot_delete_posted,
}
use remote_order_server.Inventory.{deduct_stock, return_loop, is_of_doc}
use remote_order_server.Realization.{is_posted}
use remote_order_server.DocNumber.{generate_doc_number}
use remote_order_server.Documents.{ItemData, DocData, item_rows, item_total, total_amount}

abbrev pub find_doc : ℕ → Tx ReturnDoc
find_doc id db = or_throw (find (λ r. r.id == id) db.supplier_returns) not_found db

abbrev pub set_doc : ℕ → (ReturnDoc → ReturnDoc) → Tx (Unit {0})
set_doc id f =
    modify
      (λ db. record db { supplier_returns = update_where (λ r. r.id == id) f db.supplier_returns })

-- The INSERT of the items, and the total amount on the header.
unfoldable pub insert_items : Env → ℕ → List ItemData → Tx (Unit {0})
insert_items env id items = do
  modify (λ db. record db {
    supplier_return_items =
        db.supplier_return_items
        ++ item_rows (λ i. env.round_amount (item_total i)) env id db.generated 0 items;
    generated = db.generated + length items;
  })
  set_doc id (λ r. record r { total_amount = env.round_amount (total_amount items) })

unfoldable pub create_body : Env → DocData → Tx ℕ
create_body env d db =
    let id : ℕ = env.uuid db.generated in
    let doc : ReturnDoc = record {
      id = id;
      number = generate_doc_number env (map (λ r. r.number) db.supplier_returns) d.date;
      date = d.date;
      party_id = d.party_id;
      warehouse_id = d.warehouse_id;
      comment = d.comment;
      status = draft;
      total_amount = pos 0;
      profit = pos 0;
      created_at = env.now;
    } in
    (insert_items env id d.items >> pure id) (record db {
      supplier_returns = db.supplier_returns ++ doc ∷ [];
      generated = suc db.generated;
    })

unfoldable pub create : Env → DocData → Tx ℕ
create env d = transaction (create_body env d)

-- DELETE FROM "SupplierReturnItem" WHERE "supplierReturnId" = id; "SupplierReturnItemBatch" refers
-- to the items with ON DELETE CASCADE (migrations/add_supplier_returns.ts).
unfoldable pub delete_items : ℕ → Tx (Unit {0})
delete_items id = modify (λ db. record db {
  supplier_return_item_batches =
      delete_where (is_of_doc db.supplier_return_items id) db.supplier_return_item_batches;
  supplier_return_items = delete_where (λ i. i.doc_id == id) db.supplier_return_items;
})

-- The date is given; a supplier or a warehouse that is not given stays as it was.
unfoldable pub update_body : Env → ℕ → DocData → Tx (Unit {0})
update_body env id d = do
  current ← find_doc id
  throw_if (is_posted current.status) cannot_edit_posted
  set_doc id (λ r. record r {
    date = d.date;
    party_id = coalesce d.party_id r.party_id;
    warehouse_id = coalesce d.warehouse_id r.warehouse_id;
    comment = d.comment;
  })
  delete_items id
  insert_items env id d.items

unfoldable pub update : Env → ℕ → DocData → Tx (Unit {0})
update env id d = transaction (update_body env id d)

-- The inner loop of `post`: a row of "SupplierReturnItemBatch" for each deduction.
unfoldable pub record_deductions : ℕ → List Deduction → Tx (Unit {0})
record_deductions item_id [] = pure tt
record_deductions item_id (d ∷ ds) = do
  modify (λ db. record db {
    supplier_return_item_batches =
        db.supplier_return_item_batches ++ record { item_id = item_id; deduction = d } ∷ [];
  })
  record_deductions item_id ds

unfoldable pub post_items : Option ℕ → List Item → Tx (Unit {0})
post_items warehouse_id [] = pure tt
post_items warehouse_id (item ∷ items) = do
  deductions ← deduct_stock item.product_id item.quantity warehouse_id
  record_deductions item.id deductions
  post_items warehouse_id items

unfoldable pub post_doc : ℕ → ReturnDoc → Tx (Unit {0})
post_doc id doc = do
  items ← gets (λ db.
      order_by (λ a b. ltb a.sort_order b.sort_order)
        (select (λ i. i.doc_id == id) db.supplier_return_items))
  post_items doc.warehouse_id items
  set_doc id (λ r. record r { status = posted })

unfoldable pub post_body : ℕ → Tx (Unit {0})
post_body id = do doc ← find_doc id; throw_if (is_posted doc.status) already_posted; post_doc id doc

-- Without `txClient`, as the controller calls it. (With one, the code still commits or rolls back
-- the caller's transaction and releases the caller's client.)
unfoldable pub post : ℕ → Tx (Unit {0})
post id = transaction (post_body id)

unfoldable pub unpost_doc : ℕ → Tx (Unit {0})
unpost_doc id = do
  links ←
      gets (λ db. select (is_of_doc db.supplier_return_items id) db.supplier_return_item_batches)
  modify (λ db. record db { batches = return_loop links db.batches })
  modify (λ db. record db {
    supplier_return_item_batches =
        delete_where (is_of_doc db.supplier_return_items id) db.supplier_return_item_batches;
  })
  set_doc id (λ r. record r { status = draft })

unfoldable pub unpost_body : ℕ → Tx (Unit {0})
unpost_body id = do
  doc ← find_doc id
  throw_if (not (is_posted doc.status)) not_posted
  unpost_doc id

unfoldable pub unpost : ℕ → Bool → Tx (Unit {0})
unpost id tx_client = in_transaction tx_client (unpost_body id)

unfoldable pub delete_body : ℕ → Tx (Unit {0})
delete_body id = do
  doc ← find_doc id
  throw_if (is_posted doc.status) cannot_delete_posted
  delete_items id
  modify (λ db. record db { supplier_returns = delete_where (λ r. r.id == id) db.supplier_returns })

unfoldable pub delete : ℕ → Tx (Unit {0})
delete id = transaction (delete_body id)
