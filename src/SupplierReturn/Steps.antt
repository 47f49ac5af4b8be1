-- ===== src/SupplierReturn/Steps.antt =====
-- What the loops of `post` leave behind.
use remote_order_server.Common.{
  ℕ, ◌≡◌, ◌∙◌, Option, List, [], ◌∷◌, ◌++◌, map, arith, All, All-append,
}
use remote_order_server.Db.{Db, Deduction, ItemBatch, Item}
use remote_order_server.Tx.{ok, >>=-ok, returned-same, ◌>>=◌}
use remote_order_server.Inventory.{deduct_stock}
use remote_order_server.Inventory.Deduct.{less_taken}
use remote_order_server.Inventory.Links.{
  link, less_used, less_used-nil, less_used-append, less_used-link,
}
use remote_order_server.Inventory.Stock.{deduct_stock-ok}
use remote_order_server.Realization.Steps.{All-link}
use mathlib.Core.List.{append-nil, append_assoc}
use remote_order_server.SupplierReturn.{record_deductions, post_items}

-- The tables after links were recorded and taken from the batches.
abbrev pub with_links : List ItemBatch → Db → Db
with_links ls db = record db {
  batches = map (less_used ls) db.batches;
  supplier_return_item_batches = db.supplier_return_item_batches ++ ls;
}

record_deductions-eq :
    (item_id : ℕ) (ds : List Deduction) (db : Db)
    → record_deductions item_id ds db ≡ (
      ok tt,
      record db {
        supplier_return_item_batches = db.supplier_return_item_batches ++ map (link item_id) ds;
      },
    )
unfolding record_deductions
record_deductions-eq item_id [] db = ground (arith, append-nil db.supplier_return_item_batches)
record_deductions-eq item_id (d ∷ ds) db = ground (
  arith,
  record_deductions-eq item_id ds (record db {
    supplier_return_item_batches = db.supplier_return_item_batches ++ link item_id d ∷ [];
  }),
  append_assoc db.supplier_return_item_batches (link item_id d ∷ []) (map (link item_id) ds),
)

with_links-append :
    (ks ls : List ItemBatch) (db : Db) → with_links ls (with_links ks db) ≡ with_links (ks ++ ls) db
with_links-append ks ls db =
    ground
      (arith, less_used-append ks ls db.batches, append_assoc db.supplier_return_item_batches ks ls)

-- What the loop over the items has done when it returns, for a property of the item ids.
pub record Posted {ℓ} (Q : ℕ → Type ℓ) (items : List Item) (db : Db) (db' : Db) : Type ℓ where
  pub links : List ItemBatch
  pub tables : db' ≡ with_links links db
  pub owned : All (λ l. Q l.item_id) links

post_item :
    (w : Option ℕ) (item : Item) (db : Db) {ds : List Deduction} {db₁ : Db}
    → deduct_stock item.product_id item.quantity w db ≡ (ok ds, db₁)
    → record_deductions item.id ds db₁ ≡ (ok tt, with_links (map (link item.id) ds) db)
post_item w item db {ds} {db₁} e =
    let (_, after) = deduct_stock-ok db item.product_id w item.quantity e in
    rw after (
      record_deductions-eq item.id ds (record db { batches = map (less_taken ds) db.batches })
      ∙ ground (arith, less_used-link item.id ds db.batches))

pub post_items-Posted {ℓ} :
    (Q : ℕ → Type ℓ) (w : Option ℕ) (items : List Item) (db : Db) {db' : Db}
    → All (λ i. Q i.id) items
    → post_items w items db ≡ (ok tt, db')
    → Posted Q items db db'
unfolding post_items
post_items-Posted Q w [] db {db'} q h = record {
  links = [];
  tables = ground (arith, less_used-nil db.batches, append-nil db.supplier_return_item_batches);
  owned = tt;
}
post_items-Posted Q w (item ∷ items) db {db'} q h =
    let (ds, db₁, e₁, h₁) =
      >>=-ok (deduct_stock item.product_id item.quantity w)
        (λ ds. record_deductions item.id ds >>= λ _. post_items w items) db h in
    let (_, db₂, e₂, h₂) = >>=-ok (record_deductions item.id ds) (λ _. post_items w items) db₁ h₁ in
    let ls : List ItemBatch = map (link item.id) ds in
    let after : db₂ ≡ with_links ls db =
      (returned-same (record_deductions item.id ds db₁) (post_item w item db e₁) e₂).1 in
    let rest : Posted Q items (with_links ls db) db' =
      post_items-Posted Q w items (with_links ls db) q.1 (rw after at h₂) in
    record {
      links = ls ++ rest.links;
      tables = rest.tables ∙ with_links-append ls rest.links db;
      owned = All-append (λ l. Q l.item_id) ls rest.links (All-link Q item.id ds q.0) rest.owned;
    }
