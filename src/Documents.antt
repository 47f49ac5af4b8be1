-- ===== src/Documents.antt =====
-- What the services of goods receipts, buyer returns and supplier returns share: the items of a
-- request, and the deletion of batches.
use remote_order_server.Common.{
  ℕ, suc, Bool, Option, List, [], ◌∷◌, ◌==◌, select, delete_where, exists_where, Text,
}
use remote_order_server.Common.Int.{ℤ, pos, ◌+ℤ◌, ◌*ℤ◌}
use remote_order_server.Db.{Db, Env, Item, ProductBatch}

-- An item of the request's body.
pub record ItemData : Type 0 where
  pub product_id : ℕ
  pub quantity : ℤ
  pub price : ℤ
  pub total : ℤ

-- The header of the request's body; the date is given.
pub record DocData : Type 0 where
  pub number : Text
  pub date : ℕ
  pub party_id : Option ℕ
  pub warehouse_id : Option ℕ
  pub comment : Option Text
  pub items : List ItemData

-- The rows that the loop of INSERTs adds, in order: `sortOrder` counts from 0, and the `n`-th row
-- has the `n`-th new id. `total_of` gives the stored total of an item.
unfoldable pub item_rows : (ItemData → ℤ) → Env → ℕ → ℕ → ℕ → List ItemData → List Item
item_rows total_of env doc_id generated order [] = []
item_rows total_of env doc_id generated order (i ∷ items) =
    record {
      id = env.uuid generated;
      doc_id = doc_id;
      product_id = i.product_id;
      quantity = i.quantity;
      price = i.price;
      total = total_of i;
      sort_order = order;
    }
    ∷ item_rows total_of env doc_id (suc generated) (suc order) items

-- Number(item.quantity) * Number(item.price), in hundred-thousandths
abbrev pub item_total : ItemData → ℤ
item_total i = i.quantity *ℤ i.price

-- The sum that the loop of the returns accumulates.
unfoldable pub total_amount : List ItemData → ℤ
total_amount [] = pos 0
total_amount (i ∷ items) = item_total i +ℤ total_amount items

-- DELETE FROM "ProductBatch" WHERE p. The three link tables refer to "ProductBatch" with
-- ON DELETE CASCADE (migrations/add_realization_batches.ts, add_buyer_returns.ts and
-- add_supplier_returns.ts).
unfoldable pub delete_batches : (ProductBatch → Bool) → Db → Db
delete_batches p db =
    let gone : ℕ → Bool = λ i. exists_where (λ b. b.id == i) (select p db.batches) in
    record db {
      batches = delete_where p db.batches;
      realization_item_batches =
          delete_where (λ l. gone l.deduction.batch_id) db.realization_item_batches;
      supplier_return_item_batches =
          delete_where (λ l. gone l.deduction.batch_id) db.supplier_return_item_batches;
      buyer_return_item_batches = delete_where (λ l. gone l.batch_id) db.buyer_return_item_batches;
    }
