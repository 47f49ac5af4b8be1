-- ===== src/Pricing/Prices.antt =====
-- The prices of a product under `setPrice` and `apply`, and the price that a user sees.
use remote_order_server.Common.{
  ℕ, ◌≡◌, refl, true, none, some, [], ◌∷◌, ◌++◌, ◌==◌, arith, text_eq, text_eq_refl, text_eq-eq,
  Text, if◌then◌else◌, find, update_where, get_or,
}
use remote_order_server.Common.Int.{ℤ}
use remote_order_server.Db.{Db, Env, PriceEntry, Product}
use remote_order_server.Tx.{ok}
use remote_order_server.Pricing.{
  PriceList, price_of, with_price, has_price, standard, price_for_user, set_price, is_effective,
  PriceSetParams, target_slug, journal, update_prices,
}

-- Setting a price changes the price of its slug, and no other.
pub price_of-with_price :
    (s t : Text) (p : ℤ) (prices : PriceList)
    → price_of t (with_price s p prices) ≡ (if text_eq s t then p else price_of t prices)
unfolding price_of with_price
price_of-with_price s t p [] = refl
price_of-with_price s t p ((r, q) ∷ prices) = ground (
  arith,
  price_of-with_price s t p prices,
  text_eq_refl s,
  text_eq_refl t,
  text_eq-eq r s,
  text_eq-eq r t,
  text_eq-eq s t,
)

pub has_price-with_price :
    (s t : Text) (p : ℤ) (prices : PriceList)
    → has_price t (with_price s p prices) ≡ (if text_eq s t then true else has_price t prices)
unfolding has_price with_price
has_price-with_price s t p [] = refl
has_price-with_price s t p ((r, q) ∷ prices) = ground (
  arith,
  has_price-with_price s t p prices,
  text_eq_refl s,
  text_eq_refl t,
  text_eq-eq r s,
  text_eq-eq r t,
  text_eq-eq s t,
)

-- After a price is set for a slug, a user whose price type, a text that is not empty, is that slug
-- sees it. A user of another type sees the price of before, unless the slug is 'standard' and the
-- product has no price for the user's type: then the user sees the new price too.
price_for_user-with_price :
    (s u : Text) (c : ℕ) (p : ℤ) (prices : PriceList)
    → price_for_user (some (some (c ∷ u))) (with_price s p prices) ≡ (
        if text_eq s (c ∷ u)
        then some p
        else if has_price (c ∷ u) prices
        then price_for_user (some (some (c ∷ u))) prices
        else if text_eq s standard
        then some p
        else price_for_user (some (some (c ∷ u))) prices)
unfolding price_for_user
price_for_user-with_price s u c p prices = ground (
  arith,
  price_of-with_price s (c ∷ u) p prices,
  has_price-with_price s (c ∷ u) p prices,
  price_of-with_price s standard p prices,
  has_price-with_price s standard p prices,
)

-- `setPrice` of a product that is found, for the slug 'standard', returns the price of before and
-- adds one entry to the journal, with both prices. A date in the future leaves the product as it
-- was; otherwise its price for the slug is set.
pub set_price_lem :
    (env : Env) (q : PriceSetParams) (db : Db) {product : Product}
    → q.price_type_id ≡ none
    → find (λ p. p.id == q.product_id) db.products ≡ some product
    → let entry : PriceEntry = record {
      product_id = q.product_id;
      price_type_id = none;
      old_price = price_of standard product.prices;
      new_price = q.new_price;
      effective_date = get_or q.effective_date env.now;
      created_by = q.user_id;
      reason = q.reason;
      created_at = env.now;
    } in
      set_price env q db ≡ (
        ok (price_of standard product.prices),
        record db {
          price_journal = db.price_journal ++ entry ∷ [];
          products =
              if is_effective env q.effective_date
              then update_where
                  (λ p. p.id == q.product_id)
                  (λ p. record p { prices = with_price standard q.new_price p.prices })
                  db.products
              else db.products;
        },
      )
unfolding set_price target_slug journal update_prices
set_price_lem env q db {product} t f = ground arith
