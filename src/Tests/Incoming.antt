-- ===== src/Tests/Incoming.antt =====
-- A buyer return of 2000, and its reversal.
use remote_order_server.Common.{◌≡◌, refl, none, some, [], ◌∷◌, order_by}
use remote_order_server.Common.Int.{pos, ◌-ℤ◌, ◌*ℤ◌}
use remote_order_server.Db.{Db, draft}
use remote_order_server.Tx.{ok}
use remote_order_server.Inventory.{add_stock}
use remote_order_server.BuyerReturn.{
  post_body, post_doc, return_items, return_item, unpost_body, cost_price,
}
use remote_order_server.BuyerReturn.Restore.{restock-withdraw}
use remote_order_server.Tests.{clock, shop, item_of, batch_of}

abbrev ready : Db
ready = record shop {
  buyer_returns =
      record {
        id = 75;
        number = [];
        date = 5;
        party_id = some 41;
        warehouse_id = some 1;
        comment = none;
        status = draft;
        total_amount = pos 30;
        profit = pos 0;
        created_at = 5;
      }
      ∷ [];
  buyer_return_items = item_of 76 75 2000 ∷ [];
}

abbrev back : Db
back = (post_body clock 75 ready).1

back_ok : post_body clock 75 ready ≡ (ok tt, back)
unfolding post_body post_doc return_items return_item add_stock order_by cost_price ◌-ℤ◌ ◌*ℤ◌
back_ok = refl

-- The goods come back at the price of the youngest batch.
back_batches :
    back.batches
    ≡ batch_of 12 5000 12 2
      ∷ batch_of 11 4000 10 1
      ∷ record (batch_of 500 2000 12 5) { goods_receipt_id = none; buyer_return_id = some 75 }
      ∷ []
unfolding post_body post_doc return_items return_item add_stock order_by cost_price ◌-ℤ◌ ◌*ℤ◌
back_batches = refl

restock-withdraw_example :
    ((unpost_body 75 back).0 ≡ ok tt) × ((unpost_body 75 back).1.batches ≡ ready.batches)
restock-withdraw_example = restock-withdraw clock 75 ready (refl, refl) back_ok
