-- ===== src/BuyerReturn/Steps.antt =====
-- What the loop of `post` adds to the batches and their links.
use remote_order_server.Common.{
  ℕ, suc, ◌+◌, ◌≡◌, refl, true, none, some, List, [], ◌∷◌, ◌++◌, arith, All, All-imp, ◌==◌, ==_refl,
  exists_where, length,
}
use mathlib.Core.List.{append-nil, append_assoc}
use remote_order_server.Common.Int.{ℤ, ◌-ℤ◌, ◌*ℤ◌}
use remote_order_server.Db.{Db, Env, Item, ProductBatch, ReturnDoc, ReturnedBatch}
use remote_order_server.Tx.{ok}
use remote_order_server.Inventory.{add_stock}
use remote_order_server.BuyerReturn.{cost_price, return_item, return_items, is_of_return}

module _ (env : Env) (id : ℕ) (doc : ReturnDoc) where
  abbrev pub new_batch : Item → Db → ProductBatch
  new_batch item db = record {
    id = env.uuid db.generated;
    product_id = item.product_id;
    quantity_total = item.quantity;
    quantity_left = item.quantity;
    enter_price = cost_price item.product_id db;
    goods_receipt_id = none;
    buyer_return_id = some id;
    created_at = doc.date;
  }

  abbrev pub restocked : Item → Db → Db
  restocked item db = record db {
    batches = db.batches ++ new_batch item db ∷ [];
    buyer_return_item_batches =
        db.buyer_return_item_batches
        ++ record { item_id = item.id; batch_id = env.uuid db.generated; quantity = item.quantity }
          ∷ [];
    generated = suc db.generated;
  }

  abbrev pub margin : Item → Db → ℤ
  margin item db = (item.price -ℤ cost_price item.product_id db) *ℤ item.quantity

  -- The loop restocks the items one by one, each at the cost price of the moment.
  abbrev pub restocked_all : List Item → Db → Db
  restocked_all [] db = db
  restocked_all (item ∷ items) db = restocked_all items (restocked item db)

  abbrev pub profit_of : List Item → ℤ → Db → ℤ
  profit_of [] profit db = profit
  profit_of (item ∷ items) profit db =
      profit_of items (profit -ℤ margin item db) (restocked item db)

  pub return_items-eq :
      (items : List Item) (profit : ℤ) (db : Db)
      → return_items env id doc items profit db
        ≡ (ok (profit_of items profit db), restocked_all items db)
  unfolding return_items return_item add_stock
  return_items-eq [] profit db = refl
  return_items-eq (item ∷ items) profit db =
      return_items-eq items (profit -ℤ margin item db) (restocked item db)

  -- The batches and links that the loop adds.
  abbrev pub new_batches : List Item → Db → List ProductBatch
  new_batches [] db = []
  new_batches (item ∷ items) db = new_batch item db ∷ new_batches items (restocked item db)

  abbrev pub new_links : List Item → Db → List ReturnedBatch
  new_links [] db = []
  new_links (item ∷ items) db =
      record { item_id = item.id; batch_id = env.uuid db.generated; quantity = item.quantity }
      ∷ new_links items (restocked item db)

  pub restocked_all-eq :
      (items : List Item) (db : Db)
      → restocked_all items db ≡ record db {
        batches = db.batches ++ new_batches items db;
        buyer_return_item_batches = db.buyer_return_item_batches ++ new_links items db;
        generated = db.generated + length items;
      }
  restocked_all-eq [] db =
      ground (arith, append-nil db.batches, append-nil db.buyer_return_item_batches)
  restocked_all-eq (item ∷ items) db = ground (
    arith,
    restocked_all-eq items (restocked item db),
    append_assoc db.batches (new_batch item db ∷ []) (new_batches items (restocked item db)),
    append_assoc db.buyer_return_item_batches
        (record { item_id = item.id; batch_id = env.uuid db.generated; quantity = item.quantity }
          ∷ [])
        (new_links items (restocked item db)),
  )

  pub new-IsOfReturn :
      (items : List Item) (db : Db) → All (λ b. is_of_return id b ≡ true) (new_batches items db)
  new-IsOfReturn [] db = tt
  new-IsOfReturn (item ∷ items) db = (==_refl id, new-IsOfReturn items (restocked item db))

  -- Every new link names a new batch.
  pub new_links-named :
      (items : List Item) (db : Db)
      → All
          (λ l. exists_where (λ b. b.id == l.batch_id) (new_batches items db) ≡ true)
          (new_links items db)
  new_links-named [] db = tt
  new_links-named (item ∷ items) db = (
    ground (arith, ==_refl (env.uuid db.generated)),
    All-imp _ _ (new_links items (restocked item db))
        (λ l
            (h : exists_where (λ b. b.id == l.batch_id) (new_batches items (restocked item db))
              ≡ true).
          ground arith)
        (new_links-named items (restocked item db)),
  )
