-- ===== src/Tests/Receipt.antt =====
-- Posting and unposting a goods receipt.
use remote_order_server.Common.{◌≡◌, refl, order_by}
use remote_order_server.Db.{Db}
use remote_order_server.Tx.{ok}
use remote_order_server.Inventory.{add_stock}
use remote_order_server.GoodsReceipt.{post_body, post_doc, stock_items, unpost_body}
use remote_order_server.GoodsReceipt.Restore.{receive-withdraw}
use remote_order_server.Tests.{clock, shop}

abbrev stocked : Db
stocked = (post_body clock 6 shop).1

stocked_ok : post_body clock 6 shop ≡ (ok tt, stocked)
unfolding post_body post_doc stock_items add_stock order_by
stocked_ok = refl

receive-withdraw_example :
    ((unpost_body 6 stocked).0 ≡ ok tt) × ((unpost_body 6 stocked).1.batches ≡ shop.batches)
receive-withdraw_example = receive-withdraw clock 6 shop refl stocked_ok
