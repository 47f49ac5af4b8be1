-- ===== src/Orders/Lines.antt =====
-- The rows of "OrderItem" that the loops insert.
use remote_order_server.Common.{
  ℕ, suc, ◌+◌, ◌≡◌, ◌≢◌, subst, ap, ap₂, ◌∙◌, true, false, Option, none, some, List, [], ◌∷◌, ◌++◌,
  arith, ◌==◌, ==_refl, select, select-append, Option-cases, inl, inr, length, delete_where, All,
  ==_ne, select_every, select-none, select-delete_other, All-imp, select-deleted,
}
use remote_order_server.Db.{Db, Env, OrderItem}
use remote_order_server.Tx.{ok}
use remote_order_server.Orders.{
  OrderLine, order_row, insert_line, insert_lines, is_of_order, delete_lines, replace_lines,
}
use mathlib.Core.List.{append-nil, append_assoc}

abbrev pub lines_of : ℕ → Db → List OrderItem
lines_of id db = select (is_of_order id) db.order_items

module _ (env : Env) (order_id : ℕ) where
  abbrev pub row_at : ℕ → OrderLine → Option OrderItem
  row_at n l = order_row (env.uuid n) order_id l.product_id l.quantity l.price l.sort_order

  -- The rows that the loop adds, if it can add all of them.
  unfoldable pub rows_of : ℕ → List OrderLine → Option (List OrderItem)
  rows_of n [] = some []
  rows_of n (l ∷ lines) = elim (row_at n l) [
    | none ↦ none
    | some row ↦ elim (rows_of (suc n) lines) [ none ↦ none | some rows ↦ some (row ∷ rows) ]
  ]

  abbrev pub with_rows : List OrderItem → Db → Db
  with_rows rows db = record db {
    order_items = db.order_items ++ rows;
    generated = length rows + db.generated;
  }

  abbrev with_row : OrderItem → Db → Db
  with_row row db = record db {
    order_items = db.order_items ++ row ∷ [];
    generated = suc db.generated;
  }

  with_rows-cons :
      (row : OrderItem) (rows : List OrderItem) (db : Db)
      → with_rows rows (with_row row db) ≡ with_rows (row ∷ rows) db
  with_rows-cons row rows db =
      ap₂ (λ is (n : ℕ). record db { order_items = is; generated = n })
        (append_assoc db.order_items (row ∷ []) rows) (omega arith)

  insert_lines-cons :
      (l : OrderLine) (lines : List OrderLine) (db : Db) {row : OrderItem}
      → row_at db.generated l ≡ some row
      → insert_lines env order_id (l ∷ lines) db ≡ insert_lines env order_id lines (with_row row db)
  unfolding insert_lines insert_line
  insert_lines-cons l lines db e = ground arith

  -- The loop adds all its rows.
  pub insert_lines-rows :
      (lines : List OrderLine) (db : Db) {rows : List OrderItem}
      → rows_of db.generated lines ≡ some rows
      → insert_lines env order_id lines db ≡ (ok tt, with_rows rows db)
  unfolding insert_lines rows_of
  insert_lines-rows [] db h = ground (arith, append-nil db.order_items)
  insert_lines-rows (l ∷ lines) db {rows} h = elim (Option-cases (row_at db.generated l)) [
    | inl e ↦ ground arith
    | inr (row, e) ↦ elim (Option-cases (rows_of (suc db.generated) lines)) [
      | inl k ↦ ground arith
      | inr (rest, k) ↦
          insert_lines-cons l lines db e
          ∙ insert_lines-rows lines (with_row row db) k
          ∙ ap (λ (d : Db). (ok tt, d)) (with_rows-cons row rest db)
          ∙ ap (λ (rs : List OrderItem). (ok tt, with_rows rs db)) (ground arith)
    ]
  ]

  order_row-order :
      (n : ℕ) (l : OrderLine) {row : OrderItem} → row_at n l ≡ some row → row.order_id ≡ order_id
  unfolding order_row
  order_row-order n l e = ground arith

  -- The rows are the order's.
  rows_of-order :
      (n : ℕ) (lines : List OrderLine) {rows : List OrderItem}
      → rows_of n lines ≡ some rows
      → All (λ i. i.order_id ≡ order_id) rows
  unfolding rows_of
  rows_of-order n [] {rows} h =
      let nil : [] ≡ rows = ground arith in subst (All (λ i. i.order_id ≡ order_id)) nil tt
  rows_of-order n (l ∷ lines) {rows} h = elim (Option-cases (row_at n l)) [
    | inl e ↦ absurd (ground arith)
    | inr (row, e) ↦ elim (Option-cases (rows_of (suc n) lines)) [
      | inl k ↦ absurd (ground arith)
      | inr (rest, k) ↦
          let cons : row ∷ rest ≡ rows = ground arith in
          subst (All (λ i. i.order_id ≡ order_id)) cons
            (order_row-order n l e, rows_of-order (suc n) lines k)
    ]
  ]

  -- After the lines of an order were replaced, they are the new ones, and those of any other order
  -- are as before.
  module _ (lines : List OrderLine) (db : Db) {rows : List OrderItem}
      (h : rows_of db.generated lines ≡ some rows) where
    abbrev pub replaced : Db
    replaced = record db {
      order_items = delete_where (is_of_order order_id) db.order_items ++ rows;
      generated = length rows + db.generated;
    }

    pub replace_lines-replaced : replace_lines env order_id (some lines) db ≡ (ok tt, replaced)
    unfolding replace_lines delete_lines
    replace_lines-replaced =
        insert_lines-rows lines
          (record db { order_items = delete_where (is_of_order order_id) db.order_items }) h

    pub replaced-lines : lines_of order_id replaced ≡ rows
    replaced-lines =
        select-append (is_of_order order_id) (delete_where (is_of_order order_id) db.order_items)
          rows
        ∙ ap₂ ◌++◌ (select-deleted (is_of_order order_id) db.order_items) (
            select_every (is_of_order order_id) rows (
              All-imp _ _ rows (λ i (k : i.order_id ≡ order_id). rw k (==_refl order_id))
                (rows_of-order db.generated lines h)))

    pub replaced_others : (j : ℕ) → j ≢ order_id → lines_of j replaced ≡ lines_of j db
    replaced_others j ne =
        select-append (is_of_order j) (delete_where (is_of_order order_id) db.order_items) rows
        ∙ ap₂ ◌++◌
            (select-delete_other (is_of_order j) (is_of_order order_id) db.order_items
              (λ i e. other j ne i.order_id e))
            (select-none (is_of_order j) rows (
              All-imp _ _ rows (λ i (k : i.order_id ≡ order_id). rw k (==_ne j order_id ne))
                (rows_of-order db.generated lines h)))
        ∙ append-nil (lines_of j db)
      where
        other : (j : ℕ) → j ≢ order_id → (k : ℕ) → (k == order_id) ≡ true → (k == j) ≡ false
        other j ne k e = ground arith
