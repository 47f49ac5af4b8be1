-- ===== src/PriceDocs.antt =====
-- controllers/priceDocumentController.ts: price documents are created, edited, copied and applied.
-- `applyDocument` is written out here as the controller has it; services/priceDocumentService.ts
-- holds the same operation for bulk reposting.
pub mod Items
pub mod Applied
use remote_order_server.Common.{
  ℕ, suc, Bool, true, false, ◌&&◌, Option, none, some, List, [], ◌∷◌, ◌++◌, map, ◌==◌,
  if◌then◌else◌, find, select, delete_where, update_where, coalesce, get_or, text_or, Text, codes,
  trim,
}
use remote_order_server.Common.Int.{ℤ}
use remote_order_server.Db.{
  Db, Env, Product, PriceType, PriceDocument, PriceDocumentItem, draft, applied,
}
use remote_order_server.Tx.{
  Tx, ok, pure, throw_if, gets, or_throw, modify, transaction, ◌>>=◌, ◌>>◌, not_found,
}
use remote_order_server.Pricing.{price_of, with_price, journal, applied_reason}

abbrev pub no_rounding : Text
no_rounding = codes "NONE"

-- The body of POST / and of PUT /:id.
pub record PriceDocData : Type 0 where
  pub date : Option ℕ
  pub comment : Option Text
  pub target_price_type_id : Option ℕ
  pub input_method : Option Text
  pub source_price_type_id : Option ℕ
  pub markup_percentage : Option ℤ
  pub rounding_method : Option Text
  pub rounding_value : Option ℤ

-- INSERT INTO "PriceDocument", as a draft of now with a new id.
unfoldable pub insert_doc : Env → PriceDocument → Tx PriceDocument
insert_doc env doc db =
    let new : PriceDocument = record doc {
      id = env.uuid db.generated;
      status = draft;
      created_at = env.now;
    } in
    (
      ok new,
      record db { price_documents = db.price_documents ++ new ∷ []; generated = suc db.generated },
    )

-- `createDocument`, for a target and an input method that the request has.
unfoldable pub create_document : Env → PriceDocData → ℕ → Text → Tx PriceDocument
create_document env d target input_method = insert_doc env (record {
  id = 0;
  date = get_or d.date env.now;
  target_price_type_id = target;
  status = draft;
  comment = d.comment;
  input_method = input_method;
  source_price_type_id = d.source_price_type_id;
  markup_percentage = d.markup_percentage;
  rounding_method = some (text_or d.rounding_method no_rounding);
  rounding_value = d.rounding_value;
  created_at = 0;
})

-- The columns of a document that `updateDocument` sets.
unfoldable pub set_document : PriceDocData → PriceDocument → PriceDocument
set_document d doc = record doc {
  date = get_or d.date doc.date;
  comment = coalesce d.comment doc.comment;
  target_price_type_id = get_or d.target_price_type_id doc.target_price_type_id;
  input_method = get_or d.input_method doc.input_method;
  source_price_type_id = d.source_price_type_id;
  markup_percentage = d.markup_percentage;
  rounding_method = coalesce d.rounding_method doc.rounding_method;
  rounding_value = d.rounding_value;
}

-- `updateDocument`; the check of the status is commented out in the code.
unfoldable pub update_document : ℕ → PriceDocData → Tx (Unit {0})
update_document id d = do
  doc ← λ db. or_throw (find (λ p. p.id == id) db.price_documents) not_found db
  modify (λ db. record db {
    price_documents = update_where (λ p. p.id == id) (set_document d) db.price_documents;
  })

-- An element of `items`.
pub record PriceLine : Type 0 where
  pub product_id : ℕ
  pub price : ℤ

unfoldable pub insert_lines : ℕ → List PriceLine → Tx (Unit {0})
insert_lines id [] = pure tt
insert_lines id (l ∷ lines) = do
  modify (λ db. record db {
    price_document_items =
        db.price_document_items
        ++ record { document_id = id; product_id = l.product_id; price = l.price } ∷ [];
  })
  insert_lines id lines

unfoldable pub update_items_body : ℕ → List PriceLine → Tx (Unit {0})
update_items_body id lines = do
  doc ← λ db. or_throw (find (λ p. p.id == id) db.price_documents) not_found db
  modify (λ db. record db {
    price_document_items = delete_where (λ i. i.document_id == id) db.price_document_items;
  })
  insert_lines id lines

-- `updateDocumentItems`
unfoldable pub update_items : ℕ → List PriceLine → Tx (Unit {0})
update_items id lines = transaction (update_items_body id lines)

-- The rows of "PriceDocument" JOIN "PriceType", with the slug of the type.
unfoldable pub joined : List PriceType → List PriceDocument → List (PriceDocument × Text)
joined types [] = []
joined types (doc ∷ docs) =
    map (λ t. (doc, t.slug)) (select (λ t. t.id == doc.target_price_type_id) types)
    ++ joined types docs

-- The second half of a round of the loop: the journal, and the prices that were read with the new
-- price of the slug.
unfoldable pub log_and_set : PriceDocument → Text → PriceDocumentItem → Product → Tx (Unit {0})
log_and_set doc slug item product = do
  journal (record {
    product_id = item.product_id;
    price_type_id = some doc.target_price_type_id;
    old_price = price_of slug product.prices;
    new_price = item.price;
    effective_date = doc.date;
    created_by = none;
    reason = some applied_reason;
    created_at = doc.date;
  })
  modify (λ db. record db {
    products =
        update_where (λ p. p.id == item.product_id)
          (λ p. record p { prices = with_price slug item.price product.prices }) db.products;
  })

-- One round of the loop; a product that is gone is skipped.
unfoldable pub update_product : PriceDocument → Text → PriceDocumentItem → Tx (Unit {0})
update_product doc slug item db = elim (find (λ p. p.id == item.product_id) db.products) [
  | none ↦ (ok tt, db)
  | some product ↦ log_and_set doc slug item product db
]

unfoldable pub update_products : PriceDocument → Text → List PriceDocumentItem → Tx (Unit {0})
update_products doc slug [] = pure tt
update_products doc slug (item ∷ items) = do
  update_product doc slug item
  update_products doc slug items

unfoldable pub apply_document_body : ℕ → Tx (Unit {0})
apply_document_body id = do
  (doc, slug) ← λ db.
      or_throw (find (λ r. r.0.id == id) (joined db.price_types db.price_documents)) not_found db
  items ← gets (λ db. select (λ i. i.document_id == id) db.price_document_items)
  update_products doc slug items
  modify (λ db. record db {
    price_documents =
        update_where (λ d. d.id == id) (λ d. record d { status = applied }) db.price_documents;
  })

-- `applyDocument`
unfoldable pub apply_document : ℕ → Tx (Unit {0})
apply_document id = transaction (apply_document_body id)

abbrev pub line_of : PriceDocumentItem → PriceLine
line_of i = record { product_id = i.product_id; price = i.price }

module _ (locale_date : ℕ → Text) where
  -- `Copy of (…) …`.trim(); `locale_date` is toLocaleDateString.
  unfoldable pub copy_comment : PriceDocument → Text
  copy_comment doc =
      trim (codes "Copy of (" ++ locale_date doc.date ++ codes ") " ++ get_or doc.comment [])

  unfoldable pub copy_of : Env → PriceDocument → PriceDocument
  copy_of env doc = record doc {
    date = env.now;
    comment = some (copy_comment doc);
    rounding_method = some (text_or doc.rounding_method no_rounding);
  }

  unfoldable pub copy_body : Env → ℕ → Tx PriceDocument
  copy_body env id = do
    original ← λ db. or_throw (find (λ p. p.id == id) db.price_documents) not_found db
    new ← insert_doc env (copy_of env original)
    items ← gets (λ db. select (λ i. i.document_id == id) db.price_document_items)
    insert_lines new.id (map line_of items)
    pure new

  -- `copyDocument`
  unfoldable pub copy : Env → ℕ → Tx PriceDocument
  copy env id = transaction (copy_body env id)
