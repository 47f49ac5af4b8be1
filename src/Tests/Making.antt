-- ===== src/Tests/Making.antt =====
-- Realizations that are made, and price documents that are edited and copied.
use remote_order_server.Common.{
  ℕ, ◌≡◌, ◌≢◌, ◌+◌, refl, false, none, some, [], ◌∷◌, codes, arith, Text, order_by,
}
use remote_order_server.Common.Int.{pos, ◌*ℤ◌, ◌+ℤ◌, ◌-ℤ◌, min_ℤ}
use remote_order_server.Db.{Db, JsonItem, Order, Item, Realization, posted}
use remote_order_server.Tx.{ok}
use remote_order_server.Pricing.{apply}
use remote_order_server.Realization.{
  post_body, post_doc, post_items, record_deductions, post_totals, set_order_status, unpost_body,
}
use remote_order_server.Inventory.{deduct_loop_by, deduct_stock_by, available_batches, take_from}
use remote_order_server.DocNumber.{generate_doc_number, date_prefix}
use remote_order_server.Realization.Body.{items_of}
use remote_order_server.Sales.{
  SaleData, from_order, order_lines, of_json, row_of, from_order_body, insert_ordered,
  insert_header, insert_items, insert_item, sale_of_order, sale_warehouse, sale_type, new_sale,
}
use remote_order_server.Sales.Steps.{rows_of}
use remote_order_server.Sales.Posted.{edits, deletes, orders, serve_all, Holds, serve_all-Holds}
use remote_order_server.Sales.Made.{from_order-post-unpost}
use remote_order_server.PriceDocs.{apply_document}
use remote_order_server.PriceDocs.Applied.{apply_document-apply}
use remote_order_server.Tests.{clock, shop, order_30, sale_20}

abbrev sold : Realization
sold = record sale_20 { status = posted }

abbrev sold_shop : Db
sold_shop = record shop { realizations = sold ∷ [] }

abbrev nothing : SaleData
nothing = record {
  date = none;
  counterparty_id = none;
  warehouse_id = none;
  amount = none;
  comment = none;
  items = some [];
  sales_type = none;
}

never_20 : (n : ℕ) → 500 + n ≢ 20
never_20 n h = omega arith

serve_all-Holds_example :
    Holds 20 sold
      (items_of 20 sold_shop)
      (serve_all clock (edits 20 nothing ∷ orders none 30 ∷ deletes 20 ∷ []) sold_shop)
serve_all-Holds_example =
    serve_all-Holds 20 sold (items_of 20 sold_shop) clock
      (edits 20 nothing ∷ orders none 30 ∷ deletes 20 ∷ []) sold_shop refl never_20 (refl, refl)

abbrev wanted : JsonItem
wanted = record {
  id = none;
  product_id = some 7;
  quantity = some (pos 2000);
  count = none;
  price = some (pos 15);
  sell_price = none;
}

abbrev order_with_item : Order
order_with_item = record order_30 { items = wanted ∷ [] }

abbrev order_shop : Db
order_shop = record shop {
  orders = order_with_item ∷ [];
  warehouses = record { id = 1; created_at = 0 } ∷ [];
}

abbrev sold_item : Item
sold_item = record {
  id = 501;
  doc_id = 500;
  product_id = 7;
  quantity = pos 2000;
  price = pos 15;
  total = pos 30000;
  sort_order = 0;
}

made_rows :
    rows_of clock 500 1 0 (order_lines clock order_with_item order_shop.order_items)
    ≡ some (sold_item ∷ [])
unfolding rows_of order_lines of_json row_of ◌*ℤ◌
made_rows = refl

made_posts :
    post_body clock 500 (from_order clock none 30 order_shop).1
    ≡ (ok (pos 70000), (post_body clock 500 (from_order clock none 30 order_shop).1).1)
unfolding post_body post_doc post_items record_deductions post_totals set_order_status
    deduct_stock_by deduct_loop_by available_batches take_from order_by ◌-ℤ◌ min_ℤ ◌*ℤ◌ ◌+ℤ◌
    from_order from_order_body insert_ordered insert_header insert_items insert_item row_of of_json
    order_lines sale_of_order sale_warehouse sale_type new_sale generate_doc_number date_prefix
made_posts = refl

from_order-post-unpost_example :
    ((unpost_body 500 (post_body clock 500 (from_order clock none 30 order_shop).1).1).0 ≡ ok tt)
    × ((unpost_body 500 (post_body clock 500 (from_order clock none 30 order_shop).1).1).1.batches
        ≡ shop.batches)
from_order-post-unpost_example =
    from_order-post-unpost clock none order_with_item order_shop refl made_rows refl tt made_posts

apply_document-apply_example : apply_document 60 shop ≡ apply 60 false shop
apply_document-apply_example = apply_document-apply 60 shop (tt, tt) (tt, tt)

abbrev local : ℕ → Text
local t = codes "19.02.2026"
