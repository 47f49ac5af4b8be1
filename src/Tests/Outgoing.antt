-- ===== src/Tests/Outgoing.antt =====
-- A supplier return of 6000 from the two batches, and its reversal.
use remote_order_server.Common.{◌≡◌, refl, none, some, [], ◌∷◌, order_by}
use remote_order_server.Common.Int.{pos, ◌+ℤ◌, ◌-ℤ◌, min_ℤ}
use remote_order_server.Db.{Db, ReturnDoc, draft}
use remote_order_server.Tx.{ok}
use remote_order_server.Inventory.{deduct_loop_by, deduct_stock_by, available_batches, take_from}
use remote_order_server.Inventory.Balance.{IsBalanced}
use remote_order_server.SupplierReturn.{
  post, post_body, post_doc, post_items, record_deductions, unpost_body,
}
use remote_order_server.SupplierReturn.Restore.{supplier_return-IsBalanced}
use remote_order_server.Tests.{shop, item_of, batch_of}

abbrev return_70 : ReturnDoc
return_70 = record {
  id = 70;
  number = [];
  date = 5;
  party_id = some 40;
  warehouse_id = some 1;
  comment = none;
  status = draft;
  total_amount = pos 90;
  profit = pos 0;
  created_at = 5;
}

abbrev ready : Db
ready = record shop {
  supplier_returns = return_70 ∷ [];
  supplier_return_items = item_of 71 70 6000 ∷ [];
}

abbrev gone : Db
gone = (post_body 70 ready).1

gone_ok : post_body 70 ready ≡ (ok tt, gone)
unfolding post_body post_doc post_items record_deductions deduct_stock_by deduct_loop_by
    available_batches take_from order_by ◌-ℤ◌ min_ℤ
gone_ok = refl

gone_batches :
    gone.batches
    ≡ record (batch_of 12 5000 12 2) { quantity_left = pos 3000 }
      ∷ record (batch_of 11 4000 10 1) { quantity_left = pos 0 }
      ∷ []
unfolding post_body post_doc post_items record_deductions deduct_stock_by deduct_loop_by
    available_batches take_from order_by ◌-ℤ◌ min_ℤ
gone_batches = refl

ready-IsBalanced : IsBalanced ready
unfolding ◌+ℤ◌
ready-IsBalanced = (refl, (refl, tt))

supplier_return-IsBalanced_example :
    IsBalanced (post 70 ready).1 × IsBalanced (unpost_body 70 ready).1
supplier_return-IsBalanced_example = supplier_return-IsBalanced 70 ready ready-IsBalanced
