-- ===== src/Tests.antt =====
-- The data of the tests: a small shop with two batches of one product, a realization that is not
-- posted, a goods receipt that is not posted, a price type and a price document.
mod Rough
mod Sale
mod Receipt
mod Prices
mod Repost
mod Incoming
mod Numbers
mod Outgoing
mod Payment
mod Access
mod Race
mod Planner
mod Types
mod Clients
mod Making
mod Books
mod Sold
mod Parties
use remote_order_server.Common.{ℕ, ◌+◌, false, none, some, [], ◌∷◌, codes}
use remote_order_server.Common.Int.{pos}
use remote_order_server.Db.{
  Db, Env, ProductBatch, GoodsReceipt, Realization, Item, Order, Product, PriceDocument,
  PriceDocumentItem, Lock, empty, draft, saved, posted, accepted, applied,
}

abbrev pub clock : Env
clock = record {
  now = 1000;
  uuid = λ n. 500 + n;
  round_amount = λ a. a;
  day_of = λ t. 19;
  month_of = λ t. 2;
  year_of = λ t. 2026;
}

abbrev pub batch_of : ℕ → ℕ → ℕ → ℕ → ProductBatch
batch_of id quantity price time = record {
  id = id;
  product_id = 7;
  quantity_total = pos quantity;
  quantity_left = pos quantity;
  enter_price = pos price;
  goods_receipt_id = some 5;
  buyer_return_id = none;
  created_at = time;
}

abbrev pub receipt_5 : GoodsReceipt
receipt_5 = record {
  id = 5;
  number = codes "1902261";
  date = 1;
  warehouse_id = some 1;
  provider_id = some 40;
  comment = none;
  status = posted;
  paid_amount = pos 0;
  is_deleted = false;
  created_at = 1;
}

abbrev pub receipt_6 : GoodsReceipt
receipt_6 = record receipt_5 { id = 6; status = saved; date = 9 }

abbrev pub sale_20 : Realization
sale_20 = record {
  id = 20;
  number = codes "1902261";
  date = 3;
  counterparty_id = some 41;
  warehouse_id = some 1;
  status = draft;
  amount = pos 90;
  paid_amount = pos 0;
  profit = pos 0;
  comment = none;
  order_id = some 30;
  sales_type = codes "cash";
  created_by = none;
  is_deleted = false;
  created_at = 3;
}

abbrev pub item_of : ℕ → ℕ → ℕ → Item
item_of id doc_id quantity = record {
  id = id;
  doc_id = doc_id;
  product_id = 7;
  quantity = pos quantity;
  price = pos 15;
  total = pos 90;
  sort_order = 0;
}

abbrev pub product_7 : Product
product_7 = record {
  id = 7;
  name = codes "tea";
  unit = codes "kg";
  category = none;
  prices = (codes "standard", pos 15) ∷ [];
  photos = [];
  in_box = none;
  barcode = none;
  packing = none;
  tara = none;
  deleted = false;
}

abbrev pub price_doc : PriceDocument
price_doc = record {
  id = 60;
  date = 4;
  target_price_type_id = 3;
  status = draft;
  comment = none;
  input_method = codes "MANUAL";
  source_price_type_id = none;
  markup_percentage = none;
  rounding_method = none;
  rounding_value = none;
  created_at = 8;
}

abbrev pub order_30 : Order
order_30 = record {
  id = 30;
  user_id = some 1;
  counterparty_id = some 41;
  warehouse_id = some 1;
  status = accepted;
  total = pos 90;
  items = [];
  comment = none;
  doc_number = none;
  is_deleted = false;
  created_at = 2;
}

abbrev pub price_item : PriceDocumentItem
price_item = record { document_id = 60; product_id = 7; price = pos 18 }

-- The younger batch stands first in the table.
abbrev pub shop : Db
shop = record empty {
  batches = batch_of 12 5000 12 2 ∷ batch_of 11 4000 10 1 ∷ [];
  goods_receipts = receipt_5 ∷ receipt_6 ∷ [];
  goods_receipt_items = item_of 61 6 3000 ∷ [];
  realizations = sale_20 ∷ [];
  realization_items = item_of 21 20 6000 ∷ [];
  orders = order_30 ∷ [];
  products = product_7 ∷ [];
  price_types = record { id = 3; slug = codes "retail" } ∷ [];
  price_documents = price_doc ∷ [];
  price_document_items = price_item ∷ [];
  lock = some (record { is_locked = false; locked_by = none; reason = none });
}
