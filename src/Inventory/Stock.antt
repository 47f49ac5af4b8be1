-- ===== src/Inventory/Stock.antt =====
-- `deductStock`: when it succeeds and what it takes, from which batches and in which order; stock
-- never goes below zero.
use remote_order_server.Common.{
  ℕ, ◌≡◌, refl, ap, ◌∙◌, Bool-cases, true, Option, List, [], ◌∷◌, map, arith, inl, inr, opt_eq,
  ==_refl, ==_ne, All, All-imp, All-zip, All-map, All-select, order_by-All, order_by-IsAscending,
  IsAscending, if◌then◌else◌, sum_by-order_by, sum_by-select-le, ◌≢◌, sum_by_zero,
}
use remote_order_server.Common.Int.{
  ℤ, pos, ◌-ℤ◌, ◌≤ℤ◌, ◌<ℤ◌, leb_ℤ, ltb_ℤ, lt→ltb_ℤ, int_laws, parts_of_eq,
}
use remote_order_server.Db.{Db, Deduction, ProductBatch}
use remote_order_server.Tx.{Result, ok, err, insufficient_stock}
use remote_order_server.Inventory.{
  deduct_stock_by, deduct_stock, available_batches, is_available, batch_warehouse, product_label,
}
use remote_order_server.Inventory.Deduct.{plan, deduct_loop-eq-plan, take_all-eq-map, less_taken}
use remote_order_server.Inventory.Plan.{
  InStock, IsFifo, plan-IsFifo, taken_total-plan, plan_remaining, taken-plan-le,
}
use remote_order_server.Inventory.Totals.{taken_total, held, left_total}

-- What a row of the query meets.
available_if :
    (db : Db) (p : ℕ) (w : Option ℕ) (b : ProductBatch)
    → is_available db p w b ≡ true
    → (b.product_id ≡ p)
      × (pos 0 <ℤ b.quantity_left)
      × (opt_eq (batch_warehouse db.goods_receipts db.buyer_returns b) w ≡ true)
unfolding is_available
available_if db p w b h = ground arith

module _ (db : Db) (p : ℕ) (w : Option ℕ) where
  rows_All :
      {P : ProductBatch → Type 0}
      → ((b : ProductBatch) → is_available db p w b ≡ true → P b)
      → All P (available_batches db p w)
  unfolding available_batches
  rows_All {P} f = order_by-All P _ _ (All-select P (is_available db p w) db.batches f)

  pub available-InStock : InStock (available_batches db p w)
  available-InStock = rows_All (λ b h. (available_if db p w b h).1)

  -- The rows from which stock is taken are of the product and the warehouse, hold something, and
  -- are sorted by age.
  pub available_rows :
      All
        (λ b.
          (b.product_id ≡ p)
          × (pos 0 <ℤ b.quantity_left)
          × (opt_eq (batch_warehouse db.goods_receipts db.buyer_returns b) w ≡ true))
        (available_batches db p w)
      × IsAscending (λ b. b.created_at) (available_batches db p w)
  unfolding available_batches
  available_rows = (rows_All (available_if db p w), order_by-IsAscending (λ b. b.created_at) _)

  unfoldable pub planned : ℤ → List Deduction
  planned n = (plan (available_batches db p w) n).0

  abbrev pub in_stock : ℤ
  in_stock = left_total (available_batches db p w)

  -- The call in terms of the plan.
  pub deduct_stock-eq :
      (n : ℤ)
      → deduct_stock p n w db ≡ (
        if ltb_ℤ (pos 0) (plan (available_batches db p w) n).1
            then err (
                insufficient_stock
                  (product_label db.products p)
                  n
                  (plan (available_batches db p w) n).1)
            else ok (planned n),
        record db { batches = map (less_taken (planned n)) db.batches },
      )
  unfolding deduct_stock_by planned
  deduct_stock-eq n =
      let rows : List ProductBatch = available_batches db p w in
      rw (deduct_loop-eq-plan rows n db.batches, take_all-eq-map (plan rows n).0 db.batches)
        (ground arith)

  abbrev pub remaining : ℤ → ℤ
  remaining n = (plan (available_batches db p w) n).1

  module _ (n : ℤ) (wanted : pos 0 ≤ℤ n) where
    remaining_none : n ≤ℤ in_stock → remaining n ≡ pos 0
    remaining_none h =
        let rows : List ProductBatch = available_batches db p w in
        let (nonneg, split, _) = plan_remaining rows n available-InStock wanted in
        elim split [
          | inl e ↦ e
          | inr e ↦ omega (int_laws, parts_of_eq e, parts_of_eq (taken_total-plan rows n))
        ]

    remaining_some : in_stock <ℤ n → remaining n ≡ n -ℤ in_stock
    remaining_some h =
        let rows : List ProductBatch = available_batches db p w in
        let (_, split, fits) = plan_remaining rows n available-InStock wanted in
        elim split [
          | inl e ↦
              absurd (omega (int_laws, fits, parts_of_eq e, parts_of_eq (taken_total-plan rows n)))
          | inr e ↦ omega (int_laws, parts_of_eq e, parts_of_eq (taken_total-plan rows n))
        ]

    -- A quantity that the warehouse holds is deducted in full.
    pub deduct_stock_enough :
        n ≤ℤ in_stock
        → (deduct_stock p n w db
            ≡ (ok (planned n), record db { batches = map (less_taken (planned n)) db.batches }))
          × (taken_total (planned n) ≡ n)
    unfolding planned
    deduct_stock_enough h =
        let rows : List ProductBatch = available_batches db p w in
        let none_left : remaining n ≡ pos 0 = remaining_none h in
        (
          deduct_stock-eq n ∙ rw none_left,
          omega (int_laws, parts_of_eq none_left, parts_of_eq (taken_total-plan rows n)),
        )

    -- For more the call throws, with the quantity that is missing.
    pub deduct_stock_short :
        in_stock <ℤ n
        → (deduct_stock p n w db).0
          ≡ err (insufficient_stock (product_label db.products p) n (n -ℤ in_stock))
    deduct_stock_short h =
        let missing : remaining n ≡ n -ℤ in_stock = remaining_some h in
        rw (deduct_stock-eq n, missing, lt→ltb_ℤ (pos 0) (n -ℤ in_stock) (omega int_laws)) refl

  -- What a call that returns has done to the table.
  pub deduct_stock-ok :
      (n : ℤ) {ds : List Deduction} {db' : Db}
      → deduct_stock p n w db ≡ (ok ds, db')
      → (ds ≡ planned n) × (db' ≡ record db { batches = map (less_taken ds) db.batches })
  deduct_stock-ok n h = ground (arith, deduct_stock-eq n)

-- Ids are a primary key.
abbrev pub UniqueIds : List ProductBatch → Type 0
UniqueIds [] = Unit {0}
UniqueIds (b ∷ bs) = All (λ c. c.id ≢ b.id) bs × UniqueIds bs

abbrev pub NoneNegative : List ProductBatch → Type 0
NoneNegative = All (λ b. pos 0 ≤ℤ b.quantity_left)

held-absent : (i : ℕ) (bs : List ProductBatch) → All (λ c. c.id ≢ i) bs → held i bs ≡ pos 0
held-absent i bs h = sum_by_zero _ bs (All-imp _ _ bs (λ c (k : c.id ≢ i). ground arith) h)

held_unique : (bs : List ProductBatch) → UniqueIds bs → All (λ b. held b.id bs ≡ b.quantity_left) bs
held_unique [] u = tt
held_unique (b ∷ bs) u = (
  rw (==_refl b.id) (omega (int_laws, parts_of_eq (held-absent b.id bs u.0))),
  All-zip _ _ _ bs
      (λ c (k : c.id ≢ b.id) (h : held c.id bs ≡ c.quantity_left).
        rw (==_ne c.id b.id k) (omega (int_laws, parts_of_eq h)))
      u.0 (held_unique bs u.1),
)

module _ (db : Db) (p : ℕ) (w : Option ℕ) (n : ℤ) where
  held-available :
      (i : ℕ) → NoneNegative db.batches → held i (available_batches db p w) ≤ℤ held i db.batches
  unfolding available_batches
  held-available i h = rw (sum_by-order_by) (
      sum_by-select-le _ (is_available db p w) db.batches
        (All-imp _ _ db.batches (λ b (k : pos 0 ≤ℤ b.quantity_left). ground arith) h))

  -- Whatever is deducted, no batch goes below zero.
  pub planned-NoneNegative :
      UniqueIds db.batches
      → NoneNegative db.batches
      → NoneNegative (map (less_taken (planned db p w n)) db.batches)
  unfolding planned
  planned-NoneNegative u h = All-map _ (less_taken (planned db p w n)) db.batches (
      All-imp _ _ db.batches
        (λ b (k : held b.id db.batches ≡ b.quantity_left). omega (
          int_laws,
          parts_of_eq k,
          held-available b.id h,
          taken-plan-le b.id (available_batches db p w) n (available-InStock db p w),
        ))
        (held_unique db.batches u))

-- `deductStock` of a quantity of zero or more, in both cases. If the batches of the product in the
-- warehouse hold enough, it returns deductions that make up the quantity, and every batch has lost
-- what they name. Otherwise it throws INSUFFICIENT_STOCK with the product's label, the quantity
-- needed and the quantity missing.
pub deduct_stock_exact :
    (db : Db) (p : ℕ) (w : Option ℕ) (n : ℤ)
    → pos 0 ≤ℤ n
    → (n ≤ℤ in_stock db p w
        → (deduct_stock p n w db ≡ (
          ok (planned db p w n),
          record db { batches = map (less_taken (planned db p w n)) db.batches },
        ))
          × (taken_total (planned db p w n) ≡ n))
      × (in_stock db p w <ℤ n
          → (deduct_stock p n w db).0
            ≡ err (insufficient_stock (product_label db.products p) n (n -ℤ in_stock db p w)))
deduct_stock_exact db p w n h = (deduct_stock_enough db p w n h, deduct_stock_short db p w n h)

-- When `deductStock` returns, its deductions empty the oldest batches first: they follow a list of
-- batches that are of the product and the warehouse, hold stock and are sorted by their date, take
-- all of each but the last and no more than it holds of that, at the batch's own price.
pub deduct_stock-IsFifo :
    (db : Db) (p : ℕ) (w : Option ℕ) (n : ℤ) {ds : List Deduction} {db' : Db}
    → deduct_stock p n w db ≡ (ok ds, db')
    → IsFifo ds (available_batches db p w)
      × IsAscending (λ b. b.created_at) (available_batches db p w)
      × All
          (λ b.
            (b.product_id ≡ p)
            × (pos 0 <ℤ b.quantity_left)
            × (opt_eq (batch_warehouse db.goods_receipts db.buyer_returns b) w ≡ true))
          (available_batches db p w)
unfolding planned
deduct_stock-IsFifo db p w n h = (
  rw (deduct_stock-ok db p w n h).0 (plan-IsFifo _ n (available-InStock db p w)),
  (available_rows db p w).1,
  (available_rows db p w).0,
)

-- A call of `deductStock` that returns leaves every batch with zero or more, if ids are unique and
-- no batch was below zero before.
deduct_stock-NoneNegative :
    (db : Db) (p : ℕ) (w : Option ℕ) (n : ℤ) {ds : List Deduction} {db' : Db}
    → UniqueIds db.batches
    → NoneNegative db.batches
    → deduct_stock p n w db ≡ (ok ds, db')
    → NoneNegative db'.batches
deduct_stock-NoneNegative db p w n u h e =
    let (same, after) = deduct_stock-ok db p w n e in
    rw (after, same) (planned-NoneNegative db p w n u h)

-- The deductions of a call that returns make up the quantity.
pub deduct_stock-total :
    (db : Db) (p : ℕ) (w : Option ℕ) (n : ℤ) {ds : List Deduction} {db' : Db}
    → deduct_stock p n w db ≡ (ok ds, db')
    → pos 0 ≤ℤ n
    → taken_total ds ≡ n
deduct_stock-total db p w n {ds} e h = elim (Bool-cases (leb_ℤ n (in_stock db p w))) [
  | inl enough ↦ rw (deduct_stock-ok db p w n e).0 (deduct_stock_enough db p w n h (ground arith)).1
  | inr short ↦
      let thrown : _ = deduct_stock_short db p w n h (ground arith) in
      cc (ap (λ (r : Result (List Deduction) × Db). r.0) e)
]
