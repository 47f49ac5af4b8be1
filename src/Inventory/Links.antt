-- ===== src/Inventory/Links.antt =====
-- Batches after the items of a document took from them.
use remote_order_server.Common.{
  ℕ, ◌≡◌, ◌∙◌, List, [], ◌++◌, map, arith, ◌==◌, if◌then◌else◌, map-id, map_congr, map-map,
  sum_by-append, sum_by-map,
}
use remote_order_server.Common.Int.{pos, ◌-ℤ◌, -ℤ-zero, sub_sub}
use remote_order_server.Db.{Deduction, ItemBatch, ProductBatch}
use remote_order_server.Inventory.Deduct.{less_taken}
use remote_order_server.Inventory.Totals.{used}

abbrev pub link : ℕ → Deduction → ItemBatch
link item_id d = record { item_id = item_id; deduction = d }

abbrev pub less_used : List ItemBatch → ProductBatch → ProductBatch
less_used ls b = record b { quantity_left = b.quantity_left -ℤ used b.id ls }

pub less_used-nil : (table : List ProductBatch) → map (less_used []) table ≡ table
less_used-nil table = map-id (less_used []) table (λ b. ground (arith, -ℤ-zero b.quantity_left))

pub less_used-append :
    (ks ls : List ItemBatch) (table : List ProductBatch)
    → map (less_used ls) (map (less_used ks) table) ≡ map (less_used (ks ++ ls)) table
less_used-append ks ls table =
    map-map (less_used ls) (less_used ks) table
    ∙ map_congr _ _ table (λ b. ground (
      arith,
      sub_sub b.quantity_left (used b.id ks) (used b.id ls),
      sum_by-append
          (λ (l : ItemBatch). if l.deduction.batch_id == b.id then l.deduction.quantity else pos 0)
          ks ls,
    ))

pub less_used-link :
    (item_id : ℕ) (ds : List Deduction) (table : List ProductBatch)
    → map (less_used (map (link item_id) ds)) table ≡ map (less_taken ds) table
less_used-link item_id ds table = map_congr _ _ table (λ b. ground (
  arith,
  sum_by-map
      (λ (l : ItemBatch). if l.deduction.batch_id == b.id then l.deduction.quantity else pos 0)
      (link item_id) ds,
))
