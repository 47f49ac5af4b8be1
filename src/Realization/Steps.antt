-- ===== src/Realization/Steps.antt =====
-- What the loops of `post` leave behind.
use remote_order_server.Common.{
  ℕ, ◌≡◌, refl, sym, ◌∙◌, Option, List, [], ◌∷◌, ◌++◌, map, arith, All, All-append, sum_by,
  sum_by-append, sum_by-map,
}
use remote_order_server.Common.Int.{
  ℤ, pos, ◌≤ℤ◌, ◌+ℤ◌, ◌*ℤ◌, +ℤ_assoc, +ℤ-zero, int_laws, parts_of_eq,
}
use remote_order_server.Db.{Db, Deduction, ItemBatch, Item}
use remote_order_server.Tx.{ok, >>=-ok, ◌>>=◌}
use remote_order_server.Inventory.Deduct.{less_taken}
use remote_order_server.Inventory.Links.{
  link, less_used, less_used-nil, less_used-append, less_used-link,
}
use remote_order_server.Inventory.Totals.{taken_total}
use remote_order_server.Inventory.{deduct_stock}
use remote_order_server.Inventory.Stock.{deduct_stock-ok, deduct_stock-total}
use mathlib.Core.List.{append-nil, append_assoc}
use remote_order_server.Realization.{record_deductions, post_items}

-- The tables after links were recorded and taken from the batches.
abbrev pub with_links : List ItemBatch → Db → Db
with_links ls db = record db {
  batches = map (less_used ls) db.batches;
  realization_item_batches = db.realization_item_batches ++ ls;
}

abbrev pub cost_of : List ItemBatch → ℤ
cost_of = sum_by (λ l. l.deduction.quantity *ℤ l.deduction.enter_price)

record_deductions-eq :
    (item_id : ℕ) (ds : List Deduction) (cost : ℤ) (db : Db)
    → record_deductions item_id ds cost db ≡ (
      ok (cost +ℤ cost_of (map (link item_id) ds)),
      record db { realization_item_batches = db.realization_item_batches ++ map (link item_id) ds },
    )
unfolding record_deductions
record_deductions-eq item_id [] cost db =
    ground (arith, +ℤ-zero cost, append-nil db.realization_item_batches)
record_deductions-eq item_id (d ∷ ds) cost db = ground (
  arith,
  record_deductions-eq item_id ds (cost +ℤ d.quantity *ℤ d.enter_price)
      (record db { realization_item_batches = db.realization_item_batches ++ link item_id d ∷ [] }),
  +ℤ_assoc cost (d.quantity *ℤ d.enter_price) (cost_of (map (link item_id) ds)),
  append_assoc db.realization_item_batches (link item_id d ∷ []) (map (link item_id) ds),
)

with_links-append :
    (ks ls : List ItemBatch) (db : Db) → with_links ls (with_links ks db) ≡ with_links (ks ++ ls) db
with_links-append ks ls db =
    ground
      (arith, less_used-append ks ls db.batches, append_assoc db.realization_item_batches ks ls)

abbrev pub total_of : List ItemBatch → ℤ
total_of = sum_by (λ l. l.deduction.quantity)

-- What the loop over the items has done when it returns, for a property of the item ids.
pub record Posted {ℓ} (Q : ℕ → Type ℓ) (items : List Item) (cost : ℤ) (db : Db) (cost' : ℤ)
    (db' : Db) : Type ℓ where
  pub links : List ItemBatch
  pub tables : db' ≡ with_links links db
  pub costs : cost' ≡ cost +ℤ cost_of links
  pub owned : All (λ l. Q l.item_id) links
  pub quantities :
      All (λ i. pos 0 ≤ℤ i.quantity) items → total_of links ≡ sum_by (λ i. i.quantity) items

pub All-link {ℓ} :
    (Q : ℕ → Type ℓ) (i : ℕ) (ds : List Deduction) → Q i → All (λ l. Q l.item_id) (map (link i) ds)
All-link Q i [] q = tt
All-link Q i (d ∷ ds) q = (q, All-link Q i ds q)

-- One item: its stock is deducted and its links are recorded.
post_item :
    (w : Option ℕ) (item : Item) (cost : ℤ) (db : Db) {ds : List Deduction} {db₁ : Db}
    → deduct_stock item.product_id item.quantity w db ≡ (ok ds, db₁)
    → record_deductions item.id ds cost db₁
      ≡ (ok (cost +ℤ cost_of (map (link item.id) ds)), with_links (map (link item.id) ds) db)
post_item w item cost db {ds} {db₁} e =
    let (_, after) = deduct_stock-ok db item.product_id w item.quantity e in
    rw after (
      record_deductions-eq item.id ds cost (record db { batches = map (less_taken ds) db.batches })
      ∙ ground (arith, less_used-link item.id ds db.batches))

-- The links of one item, then those of the others.
Posted-cons {ℓ} :
    (Q : ℕ → Type ℓ) (item : Item) (items : List Item) (ds : List Deduction) (cost : ℤ) (db : Db)
    {cost' : ℤ} {db' : Db}
    → Q item.id
    → (pos 0 ≤ℤ item.quantity → taken_total ds ≡ item.quantity)
    → Posted Q items
        (cost +ℤ cost_of (map (link item.id) ds))
        (with_links (map (link item.id) ds) db)
        cost'
        db'
    → Posted Q (item ∷ items) cost db cost' db'
Posted-cons Q item items ds cost db q total rest =
    let ls : List ItemBatch = map (link item.id) ds in
    record {
      links = ls ++ rest.links;
      tables = rest.tables ∙ with_links-append ls rest.links db;
      costs = omega (
        int_laws,
        parts_of_eq rest.costs,
        parts_of_eq (
            sum_by-append (λ (l : ItemBatch). l.deduction.quantity *ℤ l.deduction.enter_price) ls
              rest.links),
      );
      owned = All-append (λ l. Q l.item_id) ls rest.links (All-link Q item.id ds q) rest.owned;
      quantities = λ k. omega (
        int_laws,
        parts_of_eq (rest.quantities k.1),
        parts_of_eq (total k.0),
        parts_of_eq (sum_by-map (λ (l : ItemBatch). l.deduction.quantity) (link item.id) ds),
        parts_of_eq (sum_by-append (λ (l : ItemBatch). l.deduction.quantity) ls rest.links),
      );
    }

pub post_items-Posted {ℓ} :
    (Q : ℕ → Type ℓ) (w : Option ℕ) (items : List Item) (cost : ℤ) (db : Db) {cost' : ℤ} {db' : Db}
    → All (λ i. Q i.id) items
    → post_items w items cost db ≡ (ok cost', db')
    → Posted Q items cost db cost' db'
unfolding post_items
post_items-Posted Q w [] cost db {cost'} {db'} q h = record {
  links = [];
  tables = ground (arith, less_used-nil db.batches, append-nil db.realization_item_batches);
  costs = ground (arith, +ℤ-zero cost);
  owned = tt;
  quantities = λ _. refl;
}
post_items-Posted Q w (item ∷ items) cost db {cost'} {db'} q h =
    let (ds, db₁, e₁, h₁) =
      >>=-ok (deduct_stock item.product_id item.quantity w)
        (λ ds. record_deductions item.id ds cost >>= λ c. post_items w items c) db h in
    let (c₂, db₂, e₂, h₂) =
      >>=-ok (record_deductions item.id ds cost) (λ c. post_items w items c) db₁ h₁ in
    let ls : List ItemBatch = map (link item.id) ds in
    let same : (ok c₂, db₂) ≡ (ok (cost +ℤ cost_of ls), with_links ls db) =
      sym e₂ ∙ post_item w item cost db e₁ in
    let rest : Posted Q items (cost +ℤ cost_of ls) (with_links ls db) cost' db' =
      post_items-Posted Q w items (cost +ℤ cost_of ls) (with_links ls db) q.1 (cc (same, h₂)) in
    Posted-cons Q item items ds cost db q.0
      (deduct_stock-total db item.product_id w item.quantity e₁) rest
