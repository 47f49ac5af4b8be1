-- ===== src/PriceDocs/Items.antt =====
-- The items of price documents that are edited and copied.
use remote_order_server.Common.{
  ℕ, suc, ◌≡◌, ◌≢◌, refl, ap, ap₂, ◌∙◌, true, false, some, List, [], ◌∷◌, ◌++◌, map, arith, ◌==◌,
  ==_refl, ==_ne, find, select, select-append, select-delete_other, delete_where, Text,
}
use remote_order_server.Db.{Db, Env, PriceDocument, PriceDocumentItem, draft}
use remote_order_server.Tx.{ok}
use remote_order_server.PriceDocs.{
  PriceLine, insert_lines, insert_doc, update_items_body, update_items, copy_body, copy, copy_of,
  line_of,
}
use mathlib.Core.List.{append-nil, append_assoc}

abbrev pub lines_of : ℕ → List PriceDocumentItem → List PriceDocumentItem
lines_of id = select (λ i. i.document_id == id)

-- The rows that the loop of INSERTs adds.
abbrev row : ℕ → PriceLine → PriceDocumentItem
row id l = record { document_id = id; product_id = l.product_id; price = l.price }

insert_lines-rows :
    (id : ℕ) (lines : List PriceLine) (db : Db)
    → insert_lines id lines db
      ≡ (ok tt, record db { price_document_items = db.price_document_items ++ map (row id) lines })
unfolding insert_lines
insert_lines-rows id [] db = ground (arith, append-nil db.price_document_items)
insert_lines-rows id (l ∷ lines) db = ground (
  arith,
  insert_lines-rows id lines
      (record db { price_document_items = db.price_document_items ++ row id l ∷ [] }),
  append_assoc db.price_document_items (row id l ∷ []) (map (row id) lines),
)

own_rows : (id : ℕ) (lines : List PriceLine) → lines_of id (map (row id) lines) ≡ map (row id) lines
own_rows id [] = refl
own_rows id (l ∷ lines) = rw (==_refl id, own_rows id lines)

other_rows : (id j : ℕ) (lines : List PriceLine) → j ≢ id → lines_of j (map (row id) lines) ≡ []
other_rows id j [] ne = refl
other_rows id j (l ∷ lines) ne = rw (==_ne j id ne, other_rows id j lines ne)

delete_own :
    (id : ℕ) (items : List PriceDocumentItem)
    → lines_of id (delete_where (λ i. i.document_id == id) items) ≡ []
delete_own id [] = refl
delete_own id (i ∷ items) = ground (arith, delete_own id items)

lines_back : (id : ℕ) (lines : List PriceLine) → map line_of (map (row id) lines) ≡ lines
lines_back id [] = refl
lines_back id (l ∷ lines) = ap (λ r. l ∷ r) (lines_back id lines)

update_items-found :
    (id : ℕ) (lines : List PriceLine) (db : Db) {doc : PriceDocument}
    → find (λ p. p.id == id) db.price_documents ≡ some doc
    → update_items_body id lines db ≡ (
      ok tt,
      record db {
        price_document_items =
            delete_where (λ i. i.document_id == id) db.price_document_items ++ map (row id) lines;
      },
    )
unfolding update_items_body
update_items-found id lines db f = ground (
  arith,
  insert_lines-rows id lines (record db {
    price_document_items = delete_where (λ i. i.document_id == id) db.price_document_items;
  }),
)

-- `updateDocumentItems` of a document that is found makes its items exactly those of the request,
-- in their order, and leaves those of every other document as they were.
pub update_items_lem :
    (id j : ℕ) (lines : List PriceLine) (db : Db) {doc : PriceDocument}
    → find (λ p. p.id == id) db.price_documents ≡ some doc
    → j ≢ id
    → let items : List PriceDocumentItem = (update_items id lines db).1.price_document_items in
      (map line_of (lines_of id items) ≡ lines)
      × (lines_of j items ≡ lines_of j db.price_document_items)
unfolding update_items
update_items_lem id j lines db f ne =
    let kept = delete_where (λ i. i.document_id == id) db.price_document_items in
    rw (update_items-found id lines db f) (
      ap (map line_of) (
            select-append (λ i. i.document_id == id) kept (map (row id) lines)
            ∙ ap₂ ◌++◌ (delete_own id db.price_document_items) (own_rows id lines))
          ∙ lines_back id lines,
      select-append (λ i. i.document_id == j) kept (map (row id) lines)
          ∙ ap₂ ◌++◌
              (select-delete_other (λ i. i.document_id == j) (λ i. i.document_id == id)
                db.price_document_items (λ i e. other_id i.document_id e))
              (other_rows id j lines ne)
          ∙ append-nil (lines_of j db.price_document_items),
    )
  where
    other_id : (k : ℕ) → (k == id) ≡ true → (k == j) ≡ false
    other_id k e = ground arith

module _ (locale_date : ℕ → Text) where
  new_doc : Env → PriceDocument → Db → PriceDocument
  new_doc env doc db = record (copy_of locale_date env doc) {
    id = env.uuid db.generated;
    status = draft;
    created_at = env.now;
  }

  copy-found :
      (env : Env) (id : ℕ) (db : Db) {doc : PriceDocument}
      → find (λ p. p.id == id) db.price_documents ≡ some doc
      → copy_body locale_date env id db ≡ (
        ok (new_doc env doc db),
        record db {
          price_documents = db.price_documents ++ new_doc env doc db ∷ [];
          generated = suc db.generated;
          price_document_items =
              db.price_document_items
              ++ map
                  (row (env.uuid db.generated))
                  (map line_of (lines_of id db.price_document_items));
        },
      )
  unfolding copy_body insert_doc new_doc
  copy-found env id db {doc} f = ground (
    arith,
    insert_lines-rows (env.uuid db.generated) (map line_of (lines_of id db.price_document_items))
        (record db {
          price_documents = db.price_documents ++ new_doc env doc db ∷ [];
          generated = suc db.generated;
        }),
  )

  -- A copy of a document that is found is a new draft of now, with the target of the original and
  -- its lines, in their order; and the original keeps its own, if the new id is new.
  pub copy_lem :
      (env : Env) (id : ℕ) (db : Db) {doc : PriceDocument}
      → find (λ p. p.id == id) db.price_documents ≡ some doc
      → id ≢ env.uuid db.generated
      → lines_of (env.uuid db.generated) db.price_document_items ≡ []
      → let items : List PriceDocumentItem = (copy locale_date env id db).1.price_document_items in
        (map line_of (lines_of (env.uuid db.generated) items)
          ≡ map line_of (lines_of id db.price_document_items))
        × (lines_of id items ≡ lines_of id db.price_document_items)
        × ((new : PriceDocument) × ((copy locale_date env id db).0 ≡ ok new)
            × (new.status ≡ draft)
            × (new.date ≡ env.now)
            × (new.target_price_type_id ≡ doc.target_price_type_id))
  unfolding copy copy_of new_doc
  copy_lem env id db {doc} f ne unused =
      let lines : List PriceLine = map line_of (lines_of id db.price_document_items) in
      let added : List PriceDocumentItem = map (row (env.uuid db.generated)) lines in
      rw (copy-found env id db f) (
        ap (map line_of) (
              select-append (λ i. i.document_id == env.uuid db.generated) db.price_document_items
                added
              ∙ ap₂ ◌++◌ unused (own_rows (env.uuid db.generated) lines))
            ∙ lines_back (env.uuid db.generated) lines,
        select-append (λ i. i.document_id == id) db.price_document_items added
            ∙ ap₂ ◌++◌ refl (other_rows (env.uuid db.generated) id lines ne)
            ∙ append-nil (lines_of id db.price_document_items),
        (new_doc env doc db, refl, refl, refl, refl),
      )
