-- ===== src/Inventory/Rounded.antt =====
-- `deductStock` over the doubles: on quantities on which they compute exactly it is `deduct_stock`.
use remote_order_server.Common.{
  Numbers, IsExact, min_of, min-le_left, ℕ, ◌≡◌, refl, Option, some, List, [], ◌∷◌, map, All,
}
use remote_order_server.Common.Int.{ℤ, pos, ◌-ℤ◌, ◌≤ℤ◌, ◌<ℤ◌, min_ℤ}
use remote_order_server.Db.{Db, ProductBatch}
use remote_order_server.Tx.{ok, err, insufficient_stock}
use remote_order_server.Inventory.{
  deduct_loop_by, deduct_loop, deduct_stock_by, deduct_stock, available_batches, product_label,
  take_from,
}
use remote_order_server.Inventory.Deduct.{less_taken}
use remote_order_server.Inventory.Totals.{taken_total}
use remote_order_server.Inventory.Stock.{
  UniqueIds, NoneNegative, in_stock, planned, deduct_stock_exact,
}
use remote_order_server.Inventory.Level.{Refines, withdraw, level, deduct_stock-withdraw}

module _ (js : Numbers) (P : ℤ → Type 0) (h : IsExact js P) where
  deduct_loop_by-exact :
      (rows : List ProductBatch) (n : ℤ) (table : List ProductBatch)
      → P n
      → All (λ b. P b.quantity_left) rows
      → deduct_loop_by js rows n table ≡ deduct_loop rows n table
  unfolding deduct_loop_by
  deduct_loop_by-exact [] n table wanted held = refl
  deduct_loop_by-exact (b ∷ rows) n table wanted held =
      let q : ℤ = b.quantity_left in
      let take : ℤ = min_ℤ n q in
      let small : P take = min_of P n q wanted held.0 in
      let fits : take ≤ℤ n = min-le_left n q in
      rw
        (
          h.reads q held.0,
          h.stores take small,
          h.subtracts n take wanted small fits,
          deduct_loop_by-exact rows (n -ℤ take) (take_from b.id take table)
              (h.keeps n take wanted small fits) held.1,
        )
        refl

  deduct_stock_by-exact :
      (db : Db) (p : ℕ) (w : Option ℕ) (n : ℤ)
      → P n
      → All (λ b. P b.quantity_left) (available_batches db p w)
      → deduct_stock_by js p n w db ≡ deduct_stock p n w db
  unfolding deduct_stock_by
  deduct_stock_by-exact db p w n wanted held =
      rw (deduct_loop_by-exact (available_batches db p w) n db.batches wanted held) refl

  -- `deductStock` over doubles that compute exactly on the quantity, of zero or more, and on what
  -- the batches of the product in the warehouse hold, in both cases. If the batches hold enough, it
  -- returns deductions that make up the quantity, and every batch has lost what they name.
  -- Otherwise it throws INSUFFICIENT_STOCK with the product's label, the quantity needed and the
  -- quantity missing.
  pub deduct_stock_by_exact :
      (db : Db) (p : ℕ) (w : Option ℕ) (n : ℤ)
      → P n
      → All (λ b. P b.quantity_left) (available_batches db p w)
      → pos 0 ≤ℤ n
      → (n ≤ℤ in_stock db p w
          → (deduct_stock_by js p n w db ≡ (
            ok (planned db p w n),
            record db { batches = map (less_taken (planned db p w n)) db.batches },
          ))
            × (taken_total (planned db p w n) ≡ n))
        × (in_stock db p w <ℤ n
            → (deduct_stock_by js p n w db).0
              ≡ err (insufficient_stock (product_label db.products p) n (n -ℤ in_stock db p w)))
  deduct_stock_by_exact db p w n wanted held positive =
      rw (deduct_stock_by-exact db p w n wanted held) (deduct_stock_exact db p w n positive)

  -- `deductStock` against the stock of every product in every warehouse, taken as one number each,
  -- over doubles that compute exactly on the quantity and on what the batches of the product in the
  -- warehouse hold. Where no two batches have one id and none is below zero, and the quantity is
  -- zero or more, the call returns just if the warehouse has the quantity of the product. The stock
  -- of the product in the warehouse is then less by the quantity, and the stock of every other
  -- product and warehouse is what it was. Otherwise it throws INSUFFICIENT_STOCK with the quantity
  -- and what is missing of it.
  pub deduct_stock_by-withdraw :
      (db : Db) (p w : ℕ) (n : ℤ)
      → P n
      → All (λ b. P b.quantity_left) (available_batches db p (some w))
      → UniqueIds db.batches
      → NoneNegative db.batches
      → pos 0 ≤ℤ n
      → Refines n (deduct_stock_by js p n (some w) db) (withdraw p w n (level db))
  deduct_stock_by-withdraw db p w n wanted held u low positive =
      rw (deduct_stock_by-exact db p (some w) n wanted held)
        (deduct_stock-withdraw db p w n u low positive)
