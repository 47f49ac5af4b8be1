-- ===== src/Tests/Sale.antt =====
-- Posting and unposting the realization, and the deduction it makes.
use remote_order_server.Common.{
  ap, false, order_by, List, ◌==◌, codes, ◌≡◌, refl, arith, true, some, [], ◌∷◌, ◌++◌, All, find,
  sum_by, opt_eq, IsAscending, map,
}
use remote_order_server.Common.Int.{min_ℤ, ◌*ℤ◌, ◌+ℤ◌, pos, ◌-ℤ◌, ◌≤ℤ◌, ◌<ℤ◌}
use remote_order_server.Db.{Db, ItemBatch, Realization, Deduction}
use remote_order_server.Tx.{settle, ok, err, insufficient_stock, by_name}
use remote_order_server.Inventory.{
  deduct_loop_by, deduct_stock_by, deduct_stock, available_batches, take_from, product_label,
  batch_warehouse,
}
use remote_order_server.Inventory.Balance.{IsBalanced}
use remote_order_server.Inventory.Plan.{IsFifo}
use remote_order_server.Inventory.Stock.{deduct_stock-IsFifo, in_stock, planned, UniqueIds}
use remote_order_server.Inventory.Level.{Refines, withdraw, level}
use remote_order_server.Inventory.Deduct.{less_taken}
use remote_order_server.Inventory.Totals.{taken_total}
use remote_order_server.Realization.{
  post, post_body, post_doc, post_items, record_deductions, post_totals, set_order_status,
  unpost_body, scaled,
}
use remote_order_server.Realization.Steps.{cost_of, total_of}
use remote_order_server.Realization.Body.{items_of}
use remote_order_server.Realization.Restore.{post-unpost}
use remote_order_server.Realization.Balance.{post-IsBalanced, post_profit, unpost-IsBalanced}
use remote_order_server.Inventory.Rounded.{deduct_stock_by_exact, deduct_stock_by-withdraw}
use remote_order_server.Tests.Rough.{rough, Whole, rough-IsExact}
use remote_order_server.Tests.{clock, shop, batch_of}

abbrev sold : Db
sold = (post_body clock 20 shop).1

sold_ok : post_body clock 20 shop ≡ (ok (pos 26000), sold)
unfolding post_body post_doc post_items record_deductions post_totals set_order_status
    deduct_stock_by deduct_loop_by available_batches take_from order_by ◌-ℤ◌ min_ℤ ◌*ℤ◌ ◌+ℤ◌
sold_ok = refl

-- The older batch is empty, and the younger has lost the rest.
sold_batches :
    sold.batches
    ≡ record (batch_of 12 5000 12 2) { quantity_left = pos 3000 }
      ∷ record (batch_of 11 4000 10 1) { quantity_left = pos 0 }
      ∷ []
unfolding post_body post_doc post_items record_deductions post_totals set_order_status
    deduct_stock_by deduct_loop_by available_batches take_from order_by ◌-ℤ◌ min_ℤ ◌*ℤ◌ ◌+ℤ◌
sold_batches = refl

shop-IsBalanced : IsBalanced shop
unfolding ◌+ℤ◌
shop-IsBalanced = (refl, (refl, tt))

post-unpost_example :
    ((unpost_body 20 sold).0 ≡ ok tt)
    × ((unpost_body 20 sold).1.batches ≡ shop.batches)
    × ((unpost_body 20 sold).1.realization_item_batches ≡ shop.realization_item_batches)
post-unpost_example = post-unpost clock 20 shop refl sold_ok

post-IsBalanced_example : IsBalanced (post clock 20 false shop).1
post-IsBalanced_example = post-IsBalanced clock 20 shop shop-IsBalanced

-- Here `post` returns.
sold-post : post clock 20 false shop ≡ (ok (pos 26000), sold)
unfolding post
sold-post = ap (settle shop) sold_ok

unpost-IsBalanced_example : IsBalanced (unpost_body 20 (post clock 20 false shop).1).1
unpost-IsBalanced_example =
    unpost-IsBalanced 20 (post clock 20 false shop).1
      (post-IsBalanced clock 20 shop shop-IsBalanced)

post_profit_example :
    (ls : List ItemBatch) × (sold.realization_item_batches ≡ shop.realization_item_batches ++ ls)
    × (doc : Realization) × (find (λ r. r.id == 20) shop.realizations ≡ some doc)
    × (pos 26000 ≡ scaled doc.amount -ℤ cost_of ls)
    × (All (λ i. pos 0 ≤ℤ i.quantity) (items_of 20 shop)
        → total_of ls ≡ sum_by (λ i. i.quantity) (items_of 20 shop))
post_profit_example = post_profit clock 20 shop sold_ok

-- The shop holds 9000: a call for 6000 returns and one for 11000 throws.
deduct_stock_by_exact_example :
    (pos 6000 ≤ℤ in_stock shop 7 (some 1)
      → (deduct_stock_by rough 7 (pos 6000) (some 1) shop ≡ (
        ok (planned shop 7 (some 1) (pos 6000)),
        record shop {
          batches = map (less_taken (planned shop 7 (some 1) (pos 6000))) shop.batches;
        },
      ))
        × (taken_total (planned shop 7 (some 1) (pos 6000)) ≡ pos 6000))
    × (in_stock shop 7 (some 1) <ℤ pos 6000
        → (deduct_stock_by rough 7 (pos 6000) (some 1) shop).0
          ≡ err (
              insufficient_stock
                (product_label shop.products 7)
                (pos 6000)
                (pos 6000 -ℤ in_stock shop 7 (some 1))))
unfolding available_batches order_by
deduct_stock_by_exact_example =
    deduct_stock_by_exact rough Whole rough-IsExact shop 7 (some 1) (pos 6000) (48, refl)
      ((32, refl), ((40, refl), tt)) (ground arith)

too_much :
    (deduct_stock 7 (pos 11000) (some 1) shop).0
    ≡ err (insufficient_stock (by_name (codes "tea")) (pos 11000) (pos 2000))
unfolding deduct_stock_by deduct_loop_by available_batches take_from product_label order_by ◌-ℤ◌
    min_ℤ
too_much = refl

abbrev taken : List Deduction
taken =
    record { batch_id = 11; quantity = pos 4000; enter_price = pos 10 }
    ∷ record { batch_id = 12; quantity = pos 2000; enter_price = pos 12 }
    ∷ []

abbrev after : Db
after = (deduct_stock 7 (pos 6000) (some 1) shop).1

deducted : deduct_stock 7 (pos 6000) (some 1) shop ≡ (ok taken, after)
unfolding deduct_stock_by deduct_loop_by available_batches take_from order_by ◌-ℤ◌ min_ℤ
deducted = refl

deduct_stock-IsFifo_example :
    IsFifo taken (available_batches shop 7 (some 1))
    × IsAscending (λ b. b.created_at) (available_batches shop 7 (some 1))
    × All
        (λ b.
          (b.product_id ≡ 7)
          × (pos 0 <ℤ b.quantity_left)
          × (opt_eq (batch_warehouse shop.goods_receipts shop.buyer_returns b) (some 1) ≡ true))
        (available_batches shop 7 (some 1))
deduct_stock-IsFifo_example = deduct_stock-IsFifo shop 7 (some 1) (pos 6000) deducted

distinct : UniqueIds shop.batches
distinct = (((λ e. omega arith), tt), (tt, tt))

-- Two batches that hold 9000, and a call for 6000 of them.
deduct_stock_by-withdraw_example :
    Refines
      (pos 6000)
      (deduct_stock_by rough 7 (pos 6000) (some 1) shop)
      (withdraw 7 1 (pos 6000) (level shop))
unfolding available_batches order_by
deduct_stock_by-withdraw_example =
    deduct_stock_by-withdraw rough Whole rough-IsExact shop 7 1 (pos 6000) (48, refl)
      ((32, refl), ((40, refl), tt)) distinct (ground arith, (ground arith, tt)) (ground arith)

-- A batch of 1000 and one of 101 hold 1101, but one is missing after both.
abbrev odd : Db
odd = record shop { batches = batch_of 11 1000 10 1 ∷ batch_of 12 101 12 2 ∷ [] }

leaves_dust :
    (deduct_stock_by rough 7 (pos 1101) (some 1) odd).0
    ≡ err (insufficient_stock (by_name (codes "tea")) (pos 1101) (pos 2))
unfolding deduct_stock_by deduct_loop_by available_batches take_from product_label order_by ◌-ℤ◌
    min_ℤ ◌+ℤ◌
leaves_dust = refl
