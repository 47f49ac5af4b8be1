-- ===== src/PriceDocs/Applied.antt =====
-- `applyDocument` of the controller and `apply` of the service.
use remote_order_server.Common.{
  Distinct, IsKey, All-keys, update_by_key, keys-update_where, ℕ, ◌≡◌, refl, subst, sym, ap, ◌∙◌,
  Bool, true, false, Option, none, some, List, [], ◌∷◌, ◌++◌, map, arith, ◌==◌, find, select,
  update_where, Option-cases, Bool-cases, inl, inr, All, Text,
}
use remote_order_server.Db.{Db, Product, PriceType, PriceDocument, PriceDocumentItem}
use remote_order_server.Tx.{ok, settle}
use remote_order_server.Pricing.{
  with_price, journal, update_prices, apply_item, apply_items, apply_body, apply,
}
use remote_order_server.Reposting.Journal.{applied_entry}
use remote_order_server.PriceDocs.{
  joined, log_and_set, update_product, update_products, apply_document_body, apply_document,
}

abbrev first : {A : Type 0} → List A → Option A
first [] = none
first (x ∷ xs) = some x

find-select : {A : Type 0} (q : A → Bool) (xs : List A) → find q xs ≡ first (select q xs)
find-select q [] = refl
find-select q (x ∷ xs) = ground (arith, find-select q xs)

module _ (id : ℕ) where
  abbrev is_row : PriceDocument × Text → Bool
  is_row r = r.0.id == id

  find-other :
      (d : PriceDocument) (ts : List PriceType) (rest : List (PriceDocument × Text))
      → (d.id == id) ≡ false
      → find is_row (map (λ t. (d, t.slug)) ts ++ rest) ≡ find is_row rest
  find-other d [] rest e = refl
  find-other d (t ∷ ts) rest e = rw e (find-other d ts rest e)

  joined-none :
      (types : List PriceType) (docs : List PriceDocument)
      → All (λ d. (d.id == id) ≡ false) docs
      → find is_row (joined types docs) ≡ none
  unfolding joined
  joined-none types [] h = refl
  joined-none types (d ∷ docs) h =
      find-other d (select (λ t. t.id == d.target_price_type_id) types) (joined types docs) h.0
      ∙ joined-none types docs h.1

  -- The row of the document and the slug of its price type, by two queries.
  abbrev slug_of : PriceDocument → Option PriceType → Option (PriceDocument × Text)
  slug_of d none = none
  slug_of d (some t) = some (d, t.slug)

  abbrev by_two_queries : List PriceType → Option PriceDocument → Option (PriceDocument × Text)
  by_two_queries types none = none
  by_two_queries types (some d) = slug_of d (find (λ t. t.id == d.target_price_type_id) types)

  find-own :
      (d : PriceDocument) (ts : List PriceType) (rest : List (PriceDocument × Text))
      → (d.id == id) ≡ true
      → find is_row rest ≡ none
      → find is_row (map (λ t. (d, t.slug)) ts ++ rest) ≡ slug_of d (first ts)
  find-own d [] rest e k = k
  find-own d (t ∷ ts) rest e k = rw e

  -- The JOIN, for one id of the primary key.
  find-joined :
      (types : List PriceType) (docs : List PriceDocument)
      → IsKey (λ d. d.id) docs
      → find is_row (joined types docs) ≡ by_two_queries types (find (λ d. d.id == id) docs)
  unfolding joined
  find-joined types [] u = refl
  find-joined types (d ∷ docs) u =
      let q : PriceType → Bool = λ t. t.id == d.target_price_type_id in
      elim (Bool-cases (d.id == id)) [
        | inl e ↦ rw e (
            find-own d (select q types) (joined types docs) e
              (joined-none types docs (All-keys (λ d. d.id) d.id id docs e u.0))
            ∙ ap (slug_of d) (sym (find-select q types)))
        | inr e ↦
            rw e (find-other d (select q types) (joined types docs) e ∙ find-joined types docs u.1)
      ]

module _ (doc : PriceDocument) (slug : Text) (item : PriceDocumentItem) where
  -- The tables after a round for a product that is found, for the prices that the UPDATE writes.
  abbrev set_prices : (Product → Product) → Product → Db → Db
  set_prices f p db = record db {
    price_journal = db.price_journal ++ applied_entry doc slug item p ∷ [];
    products = update_where (λ q. q.id == item.product_id) f db.products;
  }

  abbrev of_read : Product → Product → Product
  of_read p q = record q { prices = with_price slug item.price p.prices }

  abbrev of_row : Product → Product
  of_row q = record q { prices = with_price slug item.price q.prices }

  update_product-found :
      (db : Db) (p : Product)
      → find (λ q. q.id == item.product_id) db.products ≡ some p
      → update_product doc slug item db ≡ (ok tt, set_prices (of_read p) p db)
  unfolding update_product log_and_set journal
  update_product-found db p e = ground arith

  apply_item-found :
      (db : Db) (p : Product)
      → find (λ q. q.id == item.product_id) db.products ≡ some p
      → apply_item doc slug item db ≡ (ok tt, set_prices of_row p db)
  unfolding apply_item update_prices journal
  apply_item-found db p e = ground arith

  rounds-none :
      (db : Db)
      → find (λ q. q.id == item.product_id) db.products ≡ none
      → (update_product doc slug item db ≡ (ok tt, db))
        × (apply_item doc slug item db ≡ (ok tt, db))
  unfolding update_product apply_item
  rounds-none db e = (ground arith, ground arith)

  -- What a round leaves, and that both rounds leave the same.
  rounds-same :
      (db : Db)
      → IsKey (λ p. p.id) db.products
      → (db' : Db) × (update_product doc slug item db ≡ (ok tt, db'))
        × (apply_item doc slug item db ≡ (ok tt, db'))
        × IsKey (λ p. p.id) db'.products
  rounds-same db u = elim (Option-cases (find (λ q. q.id == item.product_id) db.products)) [
    | inl e ↦ (db, (rounds-none db e).0, (rounds-none db e).1, u)
    | inr (p, e) ↦
        let same : set_prices (of_read p) p db ≡ set_prices of_row p db =
          ap
            (λ ps. record db {
              price_journal = db.price_journal ++ applied_entry doc slug item p ∷ [];
              products = ps;
            })
            (update_by_key (λ q. q.id) item.product_id (of_read p) of_row db.products u e refl) in
        (
          set_prices of_row p db,
          update_product-found db p e ∙ ap (λ (d : Db). (ok tt, d)) same,
          apply_item-found db p e,
          subst Distinct (sym (keys-update_where (λ q. q.id) _ of_row db.products (λ q. refl))) u,
        )
  ]

module _ (doc : PriceDocument) (slug : Text) where
  update_products-same :
      (items : List PriceDocumentItem) (db : Db)
      → IsKey (λ p. p.id) db.products
      → update_products doc slug items db ≡ apply_items doc slug items db
  unfolding update_products apply_items
  update_products-same [] db u = refl
  update_products-same (item ∷ items) db u =
      let (db', e, k, v) = rounds-same doc slug item db u in
      ground (arith, e, k, update_products-same items db' v)

module _ (id : ℕ) (db : Db) (u : IsKey (λ d. d.id) db.price_documents)
    (v : IsKey (λ p. p.id) db.products) where
  joined_row :
      find (λ r. r.0.id == id) (joined db.price_types db.price_documents)
      ≡ by_two_queries id db.price_types (find (λ d. d.id == id) db.price_documents)
  joined_row = find-joined id db.price_types db.price_documents u

  bodies_same : apply_document_body id db ≡ apply_body id db
  unfolding apply_document_body apply_body
  bodies_same = elim (Option-cases (find (λ d. d.id == id) db.price_documents)) [
    | inl f ↦ ground (arith, joined_row)
    | inr (doc, f) ↦
        elim (Option-cases (find (λ t. t.id == doc.target_price_type_id) db.price_types)) [
          | inl g ↦ ground (arith, joined_row)
          | inr (t, g) ↦
              let items : List PriceDocumentItem =
                select (λ i. i.document_id == id) db.price_document_items in
              ground (arith, joined_row, update_products-same doc t.slug items db v)
        ]
  ]

-- `applyDocument` of the controller does what `apply` of the service does in a transaction of its
-- own, whatever the tables hold, if "id" is a key of the price documents and of the products.
pub apply_document-apply :
    (id : ℕ) (db : Db)
    → IsKey (λ d. d.id) db.price_documents
    → IsKey (λ p. p.id) db.products
    → apply_document id db ≡ apply id false db
unfolding apply_document apply
apply_document-apply id db u v = ap (settle db) (bodies_same id db u v)
