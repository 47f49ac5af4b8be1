-- ===== src/Inventory/Level.antt =====
-- The stock of a product in a warehouse as one number, and `deductStock` as what it does to that.
use remote_order_server.Common.{
  ℕ, ◌≡◌, refl, ap, subst, ◌∙◌, Bool, true, false, ◌&&◌, Option, none, some, List, map, arith, inl,
  inr, ◌⊎◌, opt_eq, ◌==◌, All, All-imp, All-zip, select-All, order_by-All, Bool-cases,
  if◌then◌else◌, sum_by, sum_by-order_by, sum_by-map,
}
use remote_order_server.Common.Int.{ℤ, pos, -ℤ-zero, ◌-ℤ◌, ◌≤ℤ◌, ◌<ℤ◌, leb_ℤ}
use remote_order_server.Db.{Db, Deduction, ProductBatch}
use remote_order_server.Tx.{Result, ok, err, ProductLabel, insufficient_stock}
use remote_order_server.Inventory.{
  deduct_stock, product_label, available_batches, is_available, batch_warehouse,
}
use remote_order_server.Inventory.Deduct.{plan, less_taken}
use remote_order_server.Inventory.Spread.{
  kept_left, taken_of, TakesOf, taken-spread, left-less_taken, spread_unique, taken_of-total,
  plan-All, sum_by-select-if,
}
use remote_order_server.Inventory.Totals.{taken_total}
use remote_order_server.Inventory.Stock.{
  UniqueIds, NoneNegative, in_stock, planned, deduct_stock_exact, available_rows,
}

-- The stock of every product in every warehouse.
abbrev pub Level : Type 0
Level = ℕ → ℕ → ℤ

-- A withdrawal: all of the quantity, of the product in the warehouse, or nothing, with the quantity
-- that is missing.
unfoldable pub withdraw : ℕ → ℕ → ℤ → Level → Level ⊎ ℤ
withdraw p w n l =
    if leb_ℤ n (l p w)
    then inl (λ q v. if p == q && w == v then l q v -ℤ n else l q v)
    else inr (n -ℤ l p w)

abbrev is_kept : Db → ℕ → ℕ → ProductBatch → Bool
is_kept db q v b =
    b.product_id == q && opt_eq (batch_warehouse db.goods_receipts db.buyer_returns b) (some v)

-- What the batches of a product in a warehouse hold.
abbrev pub level : Db → Level
level db q v = sum_by (kept_left (is_kept db q v)) db.batches

-- What a call for a quantity may come to: it returns and leaves the stock, or it throws
-- INSUFFICIENT_STOCK with the quantity that was needed and the one that is missing.
abbrev pub Refines : ℤ → Result (List Deduction) × Db → Level ⊎ ℤ → Type 0
Refines n r (inl l) = ((ds : List Deduction) × (r.0 ≡ ok ds)) × ((q v : ℕ) → level r.1 q v ≡ l q v)
Refines n r (inr missing) =
    (label : ProductLabel) × (r.0 ≡ err (insufficient_stock label n missing))

opt_eq-some : (o : Option ℕ) (w : ℕ) → opt_eq o (some w) ≡ true → o ≡ some w
opt_eq-some none w h = ground arith
opt_eq-some (some v) w h = ground arith

minus_if : (b : Bool) (a t : ℤ) → a -ℤ (if b then t else pos 0) ≡ (if b then a -ℤ t else a)
minus_if true a t = refl
minus_if false a t = -ℤ-zero a

module _ (db : Db) (p w : ℕ) where
  in_stock-level : NoneNegative db.batches → in_stock db p (some w) ≡ level db p w
  unfolding available_batches is_available
  in_stock-level h =
      sum_by-order_by _ _ _
      ∙ sum_by-select-if (is_available db p (some w)) _ _ db.batches
          (All-imp _ _ db.batches (λ b (k : pos 0 ≤ℤ b.quantity_left). ground arith) h)

  -- The batches that are taken from are of the product in the warehouse, and of no other.
  rows-is_kept :
      (q v : ℕ) → All (λ b. is_kept db q v b ≡ (p == q && w == v)) (available_batches db p (some w))
  unfolding batch_warehouse
  rows-is_kept q v =
      All-imp _ _ (available_batches db p (some w)) (λ b k. rw (k.0, opt_eq-some _ w k.2))
        (available_rows db p (some w)).0

  -- What the plan takes from the batches of a class.
  plan-taken :
      (n : ℤ) (q v : ℕ)
      → UniqueIds db.batches
      → sum_by (taken_of (is_kept db q v) (planned db p (some w) n)) db.batches
        ≡ (if p == q && w == v then taken_total (planned db p (some w) n) else pos 0)
  unfolding planned available_batches
  plan-taken n q v u =
      let rows : List ProductBatch = available_batches db p (some w) in
      let c : ProductBatch → Bool = is_kept db q v in
      let own : Bool = p == q && w == v in
      let sorted : All (λ b. TakesOf c db.batches (c b) b.id) rows =
        order_by-All _ _ _ (select-All _ _ db.batches (spread_unique c db.batches u)) in
      let takes : All (λ b. TakesOf c db.batches own b.id) rows =
        All-zip _ _ _ rows
          (λ b (e : c b ≡ own) (t : TakesOf c db.batches (c b) b.id).
            subst (λ x. TakesOf c db.batches x b.id) e t)
          (rows-is_kept q v) sorted in
      taken-spread c (plan rows n).0 db.batches
      ∙ taken_of-total c db.batches own (plan rows n).0
          (plan-All (TakesOf c db.batches own) rows n takes)

  level-deducted :
      (n : ℤ) (q v : ℕ)
      → UniqueIds db.batches
      → level (record db { batches = map (less_taken (planned db p (some w) n)) db.batches }) q v
        ≡ (if p == q && w == v
            then level db q v -ℤ taken_total (planned db p (some w) n)
            else level db q v)
  unfolding batch_warehouse
  level-deducted n q v u =
      let c : ProductBatch → Bool = is_kept db q v in
      let ds : List Deduction = planned db p (some w) n in
      sum_by-map (kept_left c) (less_taken ds) db.batches
      ∙ left-less_taken c (λ es b. refl) ds db.batches
      ∙ ap (λ s. level db q v -ℤ s) (plan-taken n q v u)
      ∙ minus_if (p == q && w == v) (level db q v) (taken_total ds)

-- `deductStock` against the stock of every product in every warehouse, taken as one number each.
-- Where no two batches have one id and none is below zero, and the quantity is zero or more, the
-- call returns just if the warehouse has the quantity of the product. The stock of the product in
-- the warehouse is then less by the quantity, and the stock of every other product and warehouse is
-- what it was. Otherwise it throws INSUFFICIENT_STOCK with the quantity and what is missing of it.
pub deduct_stock-withdraw :
    (db : Db) (p w : ℕ) (n : ℤ)
    → UniqueIds db.batches
    → NoneNegative db.batches
    → pos 0 ≤ℤ n
    → Refines n (deduct_stock p n (some w) db) (withdraw p w n (level db))
unfolding withdraw
deduct_stock-withdraw db p w n u h wanted =
    let same : in_stock db p (some w) ≡ level db p w = in_stock-level db p w h in
    elim (Bool-cases (leb_ℤ n (level db p w))) [
      | inl e ↦
          let enough : n ≤ℤ in_stock db p (some w) = ground (arith, same) in
          let done = (deduct_stock_exact db p (some w) n wanted).0 enough in
          rw (e, done.0)
            ((planned db p (some w) n, refl), λ q v. level-deducted db p w n q v u ∙ rw done.1)
      | inr e ↦
          let short : in_stock db p (some w) <ℤ n = ground (arith, same) in
          rw e (
            product_label db.products p,
            (deduct_stock_exact db p (some w) n wanted).1 short
                ∙ ap (λ m. err (insufficient_stock (product_label db.products p) n (n -ℤ m))) same,
          )
    ]
