-- ===== src/Inventory/Return.antt =====
-- `returnStock`: the loop gives every batch back what the links took from it.
use remote_order_server.Common.{
  ◌≡◌, sym, ◌∙◌, List, [], ◌∷◌, map, ◌==◌, if◌then◌else◌, arith, map-id, map_congr, map-map,
}
use remote_order_server.Common.Int.{◌+ℤ◌, +ℤ-zero, +ℤ_assoc, zero-+ℤ}
use remote_order_server.Db.{ItemBatch, ProductBatch}
use remote_order_server.Inventory.{return_loop, put_back}
use remote_order_server.Inventory.Totals.{used}

abbrev pub with_used : List ItemBatch → ProductBatch → ProductBatch
with_used ls b = record b { quantity_left = b.quantity_left +ℤ used b.id ls }

with_used-nil : (b : ProductBatch) → with_used [] b ≡ b
with_used-nil b = ground (arith, +ℤ-zero b.quantity_left)

with_used-put_back :
    (l : ItemBatch) (ls : List ItemBatch) (b : ProductBatch)
    → with_used ls (
        if b.id == l.deduction.batch_id
        then record b { quantity_left = b.quantity_left +ℤ l.deduction.quantity }
        else b)
      ≡ with_used (l ∷ ls) b
with_used-put_back l ls b =
    ground
      (arith, +ℤ_assoc b.quantity_left l.deduction.quantity (used b.id ls), zero-+ℤ (used b.id ls))

pub return_loop-eq-map :
    (ls : List ItemBatch) (table : List ProductBatch)
    → return_loop ls table ≡ map (with_used ls) table
unfolding return_loop put_back
return_loop-eq-map [] table = sym (map-id (with_used []) table with_used-nil)
return_loop-eq-map (l ∷ ls) table =
    return_loop-eq-map ls (put_back l.deduction.batch_id l.deduction.quantity table)
    ∙ map-map (with_used ls) _ table
    ∙ map_congr _ _ table (with_used-put_back l ls)
