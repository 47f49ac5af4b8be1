-- ===== src/Inventory/Deduct.antt =====
-- `deductStock`: the deductions that its loop makes, apart from the table that it updates.
use remote_order_server.Common.{
  ◌≡◌, refl, sym, ◌∙◌, List, [], ◌∷◌, map, ◌==◌, if◌then◌else◌, arith, map-id, map_congr, map-map,
}
use remote_order_server.Common.Int.{ℤ, pos, ◌-ℤ◌, leb_ℤ, min_ℤ, -ℤ-zero, sub_sub, zero-+ℤ}
use remote_order_server.Db.{Deduction, ProductBatch}
use remote_order_server.Inventory.{deduct_loop_by, deduct_loop, take_from}
use remote_order_server.Inventory.Totals.{taken}

unfoldable pub plan : List ProductBatch → ℤ → List Deduction × ℤ
plan [] n = ([], n)
plan (b ∷ rows) n =
    let take = min_ℤ n b.quantity_left in
    let (ds, left) = plan rows (n -ℤ take) in
    if leb_ℤ n (pos 0)
    then ([], n)
    else (record { batch_id = b.id; quantity = take; enter_price = b.enter_price } ∷ ds, left)

pub take_all : List Deduction → List ProductBatch → List ProductBatch
take_all [] table = table
take_all (d ∷ ds) table = take_all ds (take_from d.batch_id d.quantity table)

-- The loop makes the planned deductions and takes each of them from the table.
pub deduct_loop-eq-plan :
    (rows : List ProductBatch) (n : ℤ) (table : List ProductBatch)
    → deduct_loop rows n table ≡ ((plan rows n).0, (plan rows n).1, take_all (plan rows n).0 table)
unfolding deduct_loop_by plan take_all
deduct_loop-eq-plan [] n table = refl
deduct_loop-eq-plan (b ∷ rows) n table = ground (
  arith,
  deduct_loop-eq-plan rows (n -ℤ min_ℤ n b.quantity_left)
      (take_from b.id (min_ℤ n b.quantity_left) table),
)

abbrev pub less_taken : List Deduction → ProductBatch → ProductBatch
less_taken ds b = record b { quantity_left = b.quantity_left -ℤ taken b.id ds }

less_taken-nil : (b : ProductBatch) → less_taken [] b ≡ b
less_taken-nil b = ground (arith, -ℤ-zero b.quantity_left)

less_taken-take_from :
    (d : Deduction) (ds : List Deduction) (b : ProductBatch)
    → less_taken ds (
        if b.id == d.batch_id
        then record b { quantity_left = b.quantity_left -ℤ d.quantity }
        else b)
      ≡ less_taken (d ∷ ds) b
less_taken-take_from d ds b =
    ground (arith, sub_sub b.quantity_left d.quantity (taken b.id ds), zero-+ℤ (taken b.id ds))

-- Every batch has lost just what the deductions took from it.
pub take_all-eq-map :
    (ds : List Deduction) (table : List ProductBatch)
    → take_all ds table ≡ map (less_taken ds) table
unfolding take_all take_from
take_all-eq-map [] table = sym (map-id (less_taken []) table less_taken-nil)
take_all-eq-map (d ∷ ds) table =
    take_all-eq-map ds (take_from d.batch_id d.quantity table)
    ∙ map-map (less_taken ds) _ table
    ∙ map_congr _ _ table (less_taken-take_from d ds)
