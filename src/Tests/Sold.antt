-- ===== src/Tests/Sold.antt =====
-- The reports on sales, of a shop that sold to one client and took a part back.
use remote_order_server.Common.{
  ◌≡◌, refl, true, false, none, some, [], ◌∷◌, codes, sum_by, ◌==◌, gather, gather_one, text_eq,
}
use remote_order_server.Common.Int.{pos, ◌+ℤ◌, ◌-ℤ◌}
use remote_order_server.Db.{Db, ItemBatch, ReturnDoc, posted}
use remote_order_server.Reports.Sales.{
  Filter, by_client, by_product, client_details, is_sale_type, is_return_type,
}
use remote_order_server.Reports.{in_period, midnight}
use remote_order_server.Reports.Sales.Agree.{by_product-client_details}
use remote_order_server.Reports.Sales.Documents.{by_client-by_product}
use remote_order_server.Tests.{shop, sale_20, item_of}

abbrev link : ItemBatch
link = record {
  item_id = 21;
  deduction = record { batch_id = 12; quantity = pos 2000; enter_price = pos 12 };
}

abbrev back : ReturnDoc
back = record {
  id = 75;
  number = codes "1902261";
  date = 8;
  party_id = some 41;
  warehouse_id = some 1;
  comment = none;
  status = posted;
  total_amount = pos 90;
  profit = pos 0;
  created_at = 8;
}

abbrev sold : Db
sold = record shop {
  realizations = record sale_20 { status = posted } ∷ [];
  realization_items = item_of 21 20 2000 ∷ [];
  realization_item_batches = link ∷ [];
  buyer_returns = back ∷ [];
  buyer_return_items = item_of 76 75 1000 ∷ [];
  buyer_return_item_batches = record { item_id = 76; batch_id = 12; quantity = pos 1000 } ∷ [];
}

abbrev every : Filter
every = record { warehouse = some 1; from = some 0; to = none; sales_type = none; is_client = none }

by_product-client_details_example :
    let products = by_product true (record every { is_client = some (λ k. k == 41) }) sold in
    let details = client_details 41 every sold in
    (sum_by (λ r. r.quantity) products ≡ sum_by (λ r. r.quantity) details)
    × (sum_by (λ r. r.amount) products ≡ sum_by (λ r. r.amount) details)
    × (sum_by (λ r. r.profit) products ≡ sum_by (λ r. r.profit) details)
by_product-client_details_example =
    by_product-client_details true 41 every sold ((_, refl, refl), tt)

by_client-by_product_example :
    sum_by (λ r. r.amount) (by_client true every sold)
    ≡ sum_by (λ r. r.amount) (by_product false every sold)
unfolding ◌+ℤ◌
by_client-by_product_example =
    by_client-by_product true false every sold (tt, tt) (tt, tt) (refl, tt) (refl, tt)

kept : sum_by (λ r. r.quantity) (by_product false every sold) ≡ pos 1000
unfolding ◌+ℤ◌ ◌-ℤ◌ by_product gather in_period midnight is_sale_type gather_one is_return_type
    text_eq
kept = refl
