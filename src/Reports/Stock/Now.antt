-- ===== src/Reports/Stock/Now.antt =====
-- The report of today against the stock that `deductStock` takes from.
use remote_order_server.Common.{
  ℕ, suc, ◌≡◌, subst, ◌∙◌, Bool, true, false, ◌&&◌, Option, none, some, List, ◌==◌, if◌then◌else◌,
  arith, same_opt, sum_by, sum_by-select, sum_by_congr, All, All-imp, All-zip, Bool-cases, if_same,
  inl, inr, opt_eq,
}
use remote_order_server.Common.Int.{ℤ, pos, int_laws, parts_of_eq}
use remote_order_server.Db.{Db, ProductBatch, ItemBatch}
use remote_order_server.Inventory.{batch_warehouse}
use remote_order_server.Inventory.Balance.{IsBalanced, Balanced}
use remote_order_server.Inventory.Level.{level}
use remote_order_server.Inventory.Totals.{used}
use remote_order_server.Reports.{midnight}
use remote_order_server.Reports.Stock.{
  LinkDoc, batch_date, sale_of, return_of, went_before, came_before, gone, incoming, outgoing,
  is_in, stock_balances,
}
use remote_order_server.Reports.Stock.Rows.{named, found, named-group_rows, named-having}

-- Every batch came, and every link went, with a document until the day, and the documents of the
-- links are posted.
pub record IsPast (db : Db) (day : ℕ) : Type 0 where
  pub came : All (λ b. came_before (midnight (suc day)) (batch_date db b) ≡ true) db.batches
  pub sold :
      All (λ l. went_before (midnight (suc day)) (sale_of db l) ≡ true) db.realization_item_batches
  pub sent_back :
      All
        (λ l. went_before (midnight (suc day)) (return_of db l) ≡ true)
        db.supplier_return_item_batches

gone-used :
    (doc_of : ItemBatch → Option LinkDoc) (moment i : ℕ) (links : List ItemBatch)
    → All (λ l. went_before moment (doc_of l) ≡ true) links
    → gone doc_of moment links i ≡ used i links
gone-used doc_of moment i links h =
    sum_by-select _ _ links
    ∙ sum_by_congr _ _ links
        (All-imp _ _ links (λ l (e : went_before moment (doc_of l) ≡ true). rw e) h)

found-left :
    (db : Db) (day : ℕ) (b : ProductBatch)
    → IsPast db day
    → came_before (midnight (suc day)) (batch_date db b) ≡ true
    → Balanced db.realization_item_batches db.supplier_return_item_batches b
    → found db day b ≡ b.quantity_left
unfolding incoming outgoing
found-left db day b past c k =
    let sold =
      gone-used (sale_of db) (midnight (suc day)) b.id db.realization_item_batches past.sold in
    let sent =
      gone-used (return_of db) (midnight (suc day)) b.id db.supplier_return_item_batches
        past.sent_back in
    rw (c, sold, sent) (omega (int_laws, parts_of_eq k))

kept_row :
    (warehouse bw : Option ℕ) (w : ℕ) (own : Bool) (n m : ℤ)
    → is_in warehouse (some w) ≡ true
    → n ≡ m
    → (if is_in warehouse bw then (if own && same_opt bw (some w) then n else pos 0) else pos 0)
      ≡ (if own && opt_eq bw (some w) then m else pos 0)
kept_row warehouse none w true n m h e = if_same (is_in warehouse none) (pos 0)
kept_row warehouse none w false n m h e = if_same (is_in warehouse none) (pos 0)
kept_row warehouse (some v) w false n m h e = if_same (is_in warehouse (some v)) (pos 0)
kept_row warehouse (some v) w true n m h e = elim (Bool-cases (v == w)) [
  | inl f ↦
      let same : w ≡ v = ground arith in
      let kept : is_in warehouse (some v) ≡ true =
        subst (λ i. is_in warehouse (some i) ≡ true) same h in
      rw (kept, f, e)
  | inr f ↦ rw f (if_same (is_in warehouse (some v)) (pos 0))
]

-- The stock balances of a day until which everything happened are the stock that `deductStock` takes
-- from: what the rows name for a product in a warehouse is what its batches have left there, if the
-- stock is balanced, every batch and every link has a document until the day, posted for a link, and
-- the report is not of another warehouse.
pub stock_balances-level :
    (warehouse : Option ℕ) (day p w : ℕ) (db : Db)
    → is_in warehouse (some w) ≡ true
    → IsBalanced db
    → IsPast db day
    → sum_by (named p (some w)) (stock_balances warehouse day db) ≡ level db p w
unfolding stock_balances
stock_balances-level warehouse day p w db h k past =
    named-having p (some w) _
    ∙ named-group_rows db day p (some w) _
    ∙ sum_by-select _ _ db.batches
    ∙ sum_by_congr _ _ db.batches (
        All-zip _ _ _ db.batches
          (λ b (c : came_before (midnight (suc day)) (batch_date db b) ≡ true)
              (j : Balanced db.realization_item_batches db.supplier_return_item_batches b).
            kept_row warehouse (batch_warehouse db.goods_receipts db.buyer_returns b) w
              (b.product_id == p) _ _ h (found-left db day b past c j))
          past.came k)
