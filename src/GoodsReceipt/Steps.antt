-- ===== src/GoodsReceipt/Steps.antt =====
-- What the loop of `post` adds to the batches.
use remote_order_server.Common.{
  ℕ, suc, ◌+◌, ◌≡◌, none, some, List, [], ◌∷◌, ◌++◌, arith, length, true, false, find, ◌==◌,
  update_where,
}
use mathlib.Core.List.{append-nil, append_assoc}
use remote_order_server.Db.{Db, Env, Item, ProductBatch, GoodsReceipt, posted}
use remote_order_server.Tx.{ok, err, not_found, already_posted}
use remote_order_server.Inventory.{add_stock}
use remote_order_server.Realization.{is_posted}
use remote_order_server.GoodsReceipt.{stock_items, post_doc, post_body, items_of}

module _ (env : Env) (id date : ℕ) where
  abbrev pub new_batch : ℕ → Item → ProductBatch
  new_batch n item = record {
    id = env.uuid n;
    product_id = item.product_id;
    quantity_total = item.quantity;
    quantity_left = item.quantity;
    enter_price = item.price;
    goods_receipt_id = some id;
    buyer_return_id = none;
    created_at = date;
  }

  abbrev pub new_batches : ℕ → List Item → List ProductBatch
  new_batches n [] = []
  new_batches n (item ∷ items) = new_batch n item ∷ new_batches (suc n) items

module _ (env : Env) (id date : ℕ) where
  abbrev pub stocked : List Item → Db → Db
  stocked items db = record db {
    batches = db.batches ++ new_batches env id date db.generated items;
    generated = db.generated + length items;
  }

  pub stock_items-eq :
      (items : List Item) (db : Db) → stock_items env id date items db ≡ (ok tt, stocked items db)
  unfolding stock_items add_stock
  stock_items-eq [] db = ground (arith, append-nil db.batches)
  stock_items-eq (item ∷ items) db = ground (
    arith,
    stock_items-eq items (record db {
      batches = db.batches ++ new_batch env id date db.generated item ∷ [];
      generated = suc db.generated;
    }),
    append_assoc db.batches (new_batch env id date db.generated item ∷ [])
        (new_batches env id date (suc db.generated) items),
  )

abbrev pub received : Env → ℕ → GoodsReceipt → Db → Db
received env id doc db =
    let db₁ : Db = stocked env id doc.date (items_of id db) db in
    record db₁ {
      goods_receipts =
          update_where (λ r. r.id == id) (λ r. record r { status = posted }) db.goods_receipts;
    }

-- `post` of a document that is not there, that is posted, and of any other: the last always
-- returns, with a batch for each item and the status POSTED.
pub post_body_cases :
    (env : Env) (id : ℕ) (db : Db)
    → (find (λ r. r.id == id) db.goods_receipts ≡ none → post_body env id db ≡ (err not_found, db))
      × ((doc : GoodsReceipt)
          → find (λ r. r.id == id) db.goods_receipts ≡ some doc
          → (is_posted doc.status ≡ true → post_body env id db ≡ (err already_posted, db))
            × (is_posted doc.status ≡ false
                → post_body env id db ≡ (ok tt, received env id doc db)))
unfolding post_body post_doc
post_body_cases env id db = (
  λ f. ground arith,
  λ doc f.
      (λ d. ground arith, λ d. ground (arith, stock_items-eq env id doc.date (items_of id db) db)),
)
