-- ===== src/Inventory/Balance.antt =====
-- The accounting invariant of the stock: what a batch has left and what the items of realizations
-- and of supplier returns took from it make up its total.
use remote_order_server.Common.{
  ℕ, ◌≡◌, List, All, All-imp, All-map, map, ◌++◌, sum_by-append, ◌==◌, if◌then◌else◌,
}
use remote_order_server.Common.Int.{pos, ◌+ℤ◌, int_laws, parts_of_eq}
use remote_order_server.Db.{Db, ItemBatch, ProductBatch}
use remote_order_server.Inventory.Links.{less_used}
use remote_order_server.Inventory.Return.{with_used}
use remote_order_server.Inventory.Totals.{used}

-- `sales` and `returns` are the two link tables.
abbrev pub Balanced : List ItemBatch → List ItemBatch → ProductBatch → Type 0
Balanced sales returns b =
    b.quantity_left +ℤ used b.id sales +ℤ used b.id returns ≡ b.quantity_total

abbrev pub IsBalanced : Db → Type 0
IsBalanced db =
    All (Balanced db.realization_item_batches db.supplier_return_item_batches) db.batches

module _ (sales returns : List ItemBatch) (table : List ProductBatch) where
  pub Balanced-sale :
      (ls : List ItemBatch)
      → All (Balanced sales returns) table
      → All (Balanced (sales ++ ls) returns) (map (less_used ls) table)
  Balanced-sale ls h = All-map _ (less_used ls) table (
      All-imp _ _ table
        (λ b (k : Balanced sales returns b). omega (
          int_laws,
          parts_of_eq k,
          parts_of_eq (
              sum_by-append
                (λ (l : ItemBatch).
                  if l.deduction.batch_id == b.id then l.deduction.quantity else pos 0)
                sales ls),
        ))
        h)

  -- The links that go give back what they took.
  pub Balanced-undo :
      (gone kept : List ItemBatch)
      → ((i : ℕ) → used i gone +ℤ used i kept ≡ used i sales)
      → All (Balanced sales returns) table
      → All (Balanced kept returns) (map (with_used gone) table)
  Balanced-undo gone kept split h = All-map _ (with_used gone) table (
      All-imp _ _ table
        (λ b (k : Balanced sales returns b).
          omega (int_laws, parts_of_eq k, parts_of_eq (split b.id)))
        h)

-- The two link tables stand side by side.
pub Balanced-swap :
    (sales returns : List ItemBatch) (table : List ProductBatch)
    → All (Balanced sales returns) table
    → All (Balanced returns sales) table
Balanced-swap sales returns table =
    All-imp _ _ table (λ b (k : Balanced sales returns b). omega (int_laws, parts_of_eq k))
