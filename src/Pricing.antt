-- ===== src/Pricing.antt =====
-- services/priceService.ts, services/priceDocumentService.ts and utils/productTransformer.ts
pub mod Prices
use remote_order_server.Common.{
  ℕ, Bool, true, false, Option, none, some, List, [], ◌∷◌, ◌++◌, ◌==◌, leb, if◌then◌else◌, find,
  select, update_where, get_or, text_or, Text, codes, text_eq,
}
use remote_order_server.Common.Int.{ℤ, pos}
use remote_order_server.Db.{
  Db, Env, Product, PriceType, PriceDocument, PriceDocumentItem, PriceEntry, applied,
}
use remote_order_server.Tx.{
  Tx, ok, pure, throw, gets, or_throw, modify, in_transaction, ◌>>=◌, ◌>>◌, not_found,
  price_type_not_found, product_not_found,
}

abbrev pub PriceList : Type 0
PriceList = List (Text × ℤ)

-- Number(prices[slug] || 0)
unfoldable pub price_of : Text → PriceList → ℤ
price_of slug [] = pos 0
price_of slug ((s, p) ∷ prices) = if text_eq s slug then p else price_of slug prices

-- prices[slug] = price
unfoldable pub with_price : Text → ℤ → PriceList → PriceList
with_price slug price [] = (slug, price) ∷ []
with_price slug price ((s, p) ∷ prices) =
    if text_eq s slug then (s, price) ∷ prices else (s, p) ∷ with_price slug price prices

unfoldable pub has_price : Text → PriceList → Bool
has_price slug [] = false
has_price slug ((s, p) ∷ prices) = if text_eq s slug then true else has_price slug prices

abbrev pub standard : Text
standard = codes "standard"

unfoldable pub update_prices : ℕ → Text → ℤ → Tx (Unit {0})
update_prices product_id slug price = modify (λ db. record db {
  products =
      update_where (λ p. p.id == product_id)
        (λ p. record p { prices = with_price slug price p.prices }) db.products;
})

pub record PriceSetParams : Type 0 where
  pub product_id : ℕ
  pub new_price : ℤ
  pub price_type_id : Option ℕ
  pub user_id : Option ℕ
  pub reason : Option Text
  pub effective_date : Option ℕ

unfoldable pub target_slug : Option ℕ → Tx Text
target_slug none = pure standard
target_slug (some id) = do
  t ← λ db. or_throw (find (λ t. t.id == id) db.price_types) (price_type_not_found id) db
  pure t.slug

-- !effectiveDate || effectiveDate <= now
unfoldable pub is_effective : Env → Option ℕ → Bool
is_effective env none = true
is_effective env (some date) = leb date env.now

unfoldable pub journal : PriceEntry → Tx (Unit {0})
journal e = modify (λ db. record db { price_journal = db.price_journal ++ e ∷ [] })

-- `setPrice`; it returns the old price.
unfoldable pub set_price : Env → PriceSetParams → Tx ℤ
set_price env q = do
  slug ← target_slug q.price_type_id
  product ← λ db.
      or_throw (find (λ p. p.id == q.product_id) db.products) (product_not_found q.product_id) db
  let old_price = price_of slug product.prices
  journal (record {
    product_id = q.product_id;
    price_type_id = q.price_type_id;
    old_price = old_price;
    new_price = q.new_price;
    effective_date = get_or q.effective_date env.now;
    created_by = q.user_id;
    reason = q.reason;
    created_at = env.now;
  })
  if is_effective env q.effective_date then update_prices q.product_id slug q.new_price else pure tt
  pure old_price

abbrev pub applied_reason : Text
applied_reason = codes "Price Document Applied"

-- One round of the loop of `apply`; a product that is gone is skipped.
unfoldable pub apply_item : PriceDocument → Text → PriceDocumentItem → Tx (Unit {0})
apply_item doc slug item db = elim (find (λ p. p.id == item.product_id) db.products) [
  | none ↦ (ok tt, db)
  | some product ↦
      (journal (record {
        product_id = item.product_id;
        price_type_id = some doc.target_price_type_id;
        old_price = price_of slug product.prices;
        new_price = item.price;
        effective_date = doc.date;
        created_by = none;
        reason = some applied_reason;
        created_at = doc.date;
      })
          >> update_prices item.product_id slug item.price)
        db
]

unfoldable pub apply_items : PriceDocument → Text → List PriceDocumentItem → Tx (Unit {0})
apply_items doc slug [] = pure tt
apply_items doc slug (item ∷ items) = do apply_item doc slug item; apply_items doc slug items

unfoldable pub apply_body : ℕ → Tx (Unit {0})
apply_body id = do
  doc ← λ db. or_throw (find (λ d. d.id == id) db.price_documents) not_found db
  target ← λ db. or_throw (find (λ t. t.id == doc.target_price_type_id) db.price_types) not_found db
  items ← gets (λ db. select (λ i. i.document_id == id) db.price_document_items)
  apply_items doc target.slug items
  modify (λ db. record db {
    price_documents =
        update_where (λ d. d.id == id) (λ d. record d { status = applied }) db.price_documents;
  })

unfoldable pub apply : ℕ → Bool → Tx (Unit {0})
apply id tx_client = in_transaction tx_client (apply_body id)

-- The price that `transformProductForUser` adds for a user, if there is one; `price_type` is
-- `user.priceType || 'standard'`, and a product without prices has the empty list.
unfoldable pub price_for_user : Option (Option Text) → PriceList → Option ℤ
price_for_user none prices = none
price_for_user (some price_type) prices =
    let slug : Text = text_or price_type standard in
    some (
      if has_price slug prices
      then price_of slug prices
      else if has_price standard prices
      then price_of standard prices
      else pos 0)
