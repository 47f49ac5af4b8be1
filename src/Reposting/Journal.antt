-- ===== src/Reposting/Journal.antt =====
-- The reset of price documents and the price journal.
use remote_order_server.Common.{
  ◌≡◌, ◌≢◌, sym, ◌∙◌, not, none, some, [], ◌∷◌, ◌++◌, ◌==◌, ==_ne, find, delete_where,
  select-append, Text,
}
use remote_order_server.Db.{Db, PriceDocument, PriceDocumentItem, PriceEntry, Product}
use remote_order_server.Pricing.{apply_item, journal, update_prices, price_of, applied_reason}
use remote_order_server.Common.{text_eq_refl}
use remote_order_server.Reposting.{DocRow, applied_at, reset_price_doc}

abbrev pub applied_entry : PriceDocument → Text → PriceDocumentItem → Product → PriceEntry
applied_entry doc slug item product = record {
  product_id = item.product_id;
  price_type_id = some doc.target_price_type_id;
  old_price = price_of slug product.prices;
  new_price = item.price;
  effective_date = doc.date;
  created_by = none;
  reason = some applied_reason;
  created_at = doc.date;
}

-- `apply` dates its journal entry by the document's date, and the reset deletes the entries dated
-- by the document's moment of creation. Where the two differ, the entry of an applied item
-- survives the reset.
pub apply-reset :
    (doc : PriceDocument) (slug : Text) (item : PriceDocumentItem) (row : DocRow) (db : Db)
    {product : Product}
    → find (λ p. p.id == item.product_id) db.products ≡ some product
    → doc.date ≢ row.created_at
    → (reset_price_doc row (apply_item doc slug item db).1).1.price_journal
      ≡ delete_where (applied_at row.created_at) db.price_journal
        ++ applied_entry doc slug item product ∷ []
unfolding reset_price_doc apply_item journal update_prices
apply-reset doc slug item row db {product} f d =
    rw (f, apply_item)
      (select-append (λ e. not (applied_at row.created_at e)) db.price_journal
          (applied_entry doc slug item product ∷ [])
        ∙ rw (text_eq_refl applied_reason, ==_ne row.created_at doc.date (λ e. d (sym e))))
