-- ===== src/Reports/Handlers/Guarded.antt =====
-- What a user of one warehouse sees of the stock.
use remote_order_server.Common.{
  ℕ, ◌≡◌, sym, subst, Bool, true, Option, none, some, List, [], ◌∷◌, select, All, arith, Bool-cases,
  inl, inr, get_or,
}
use remote_order_server.Common.Int.{ℤ}
use remote_order_server.Db.{Db, ProductBatch}
use remote_order_server.Caller.{Caller, own_warehouse, forced_warehouse}
use remote_order_server.Inventory.{batch_warehouse}
use remote_order_server.Reports.Stock.{StockRow, add_row, is_row, is_in, group_rows, stock_balances}
use remote_order_server.Reports.Movement.{movement}
use remote_order_server.Reports.Handlers.{get_stock_balances, get_movement}

-- All rows are of one warehouse.
abbrev pub AllIn : ℕ → List StockRow → Type 0
AllIn v = All (λ r. r.warehouse_id ≡ some v)

All-select :
    {A : Type 0} (P : A → Type 0) (p : A → Bool) (xs : List A) → All P xs → All P (select p xs)
All-select P p [] h = tt
All-select P p (x ∷ xs) h = elim (Bool-cases (p x)) [
  | inl e ↦ rw e (h.0, All-select P p xs h.1)
  | inr e ↦ rw e (All-select P p xs h.1)
]

All-selected : {A : Type 0} (p : A → Bool) (xs : List A) → All (λ x. p x ≡ true) (select p xs)
All-selected p [] = tt
All-selected p (x ∷ xs) = elim (Bool-cases (p x)) [
  | inl e ↦ rw e (e, All-selected p xs)
  | inr e ↦ rw e (All-selected p xs)
]

add_row-AllIn :
    (v p : ℕ) (w : Option ℕ) (n value : ℤ) (rows : List StockRow)
    → w ≡ some v
    → AllIn v rows
    → AllIn v (add_row p w n value rows)
unfolding add_row
add_row-AllIn v p w n value [] e h = (e, tt)
add_row-AllIn v p w n value (r ∷ rows) e h = elim (Bool-cases (is_row p w r)) [
  | inl k ↦ rw k (h.0, h.1)
  | inr k ↦ rw k (h.0, add_row-AllIn v p w n value rows e h.1)
]

is_in-own : (v : ℕ) (w : Option ℕ) → is_in (some v) w ≡ true → w ≡ some v
is_in-own v none h = cc h
is_in-own v (some w) h = ground arith

group_rows-AllIn :
    (db : Db) (day v : ℕ) (bs : List ProductBatch)
    → All (λ b. is_in (some v) (batch_warehouse db.goods_receipts db.buyer_returns b) ≡ true) bs
    → AllIn v (group_rows db day bs)
unfolding group_rows
group_rows-AllIn db day v [] h = tt
group_rows-AllIn db day v (b ∷ bs) h =
    add_row-AllIn v b.product_id _ _ _ _ (is_in-own v _ h.0) (group_rows-AllIn db day v bs h.1)

-- A user of one warehouse who is not an administrator sees the stock of that warehouse only, and
-- the movement of that warehouse, whatever warehouse the request names.
pub get_stock_balances-AllIn :
    (user : Option Caller) (v from to today : ℕ) (warehouse date : Option ℕ) (db : Db)
    → own_warehouse user ≡ some v
    → AllIn v (get_stock_balances user warehouse date today db)
      × (get_movement user (some from) (some to) warehouse db ≡ some (movement from to v db))
unfolding get_stock_balances get_movement stock_balances
get_stock_balances-AllIn user v from to today warehouse date db e =
    let forced : forced_warehouse user warehouse ≡ some v = rw (forced_warehouse, e) in
    (
      subst (λ w. AllIn v (stock_balances w (get_or date today) db)) (sym forced)
          (All-select _ _ _ (group_rows-AllIn db _ v _ (All-selected _ db.batches))),
      rw (get_movement, forced),
    )
