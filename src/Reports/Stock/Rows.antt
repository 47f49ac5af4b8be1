-- ===== src/Reports/Stock/Rows.antt =====
-- The rows of the report, by their sums.
use remote_order_server.Common.{
  ℕ, ◌≡◌, refl, sym, ap, ap₂, ◌∙◌, Bool, true, ◌&&◌, ◌||◌, Option, List, [], ◌∷◌, ◌==◌,
  if◌then◌else◌, arith, select, same_opt, same_opt-IsSame, sum_by, Bool-cases, if_same, inl, inr,
}
use remote_order_server.Common.Int.{
  ℤ, pos, zero-+ℤ, ◌+ℤ◌, ◌-ℤ◌, ltb_ℤ, int_laws, parts_of_eq, eq_of_parts,
}
use remote_order_server.Db.{Db, ProductBatch}
use remote_order_server.Inventory.{batch_warehouse}
use remote_order_server.Reports.Stock.{StockRow, is_row, add_row, group_rows, incoming, outgoing}

-- What the report names for a product in a warehouse, over its rows.
abbrev pub named : ℕ → Option ℕ → StockRow → ℤ
named p w r = if is_row p w r then r.balance else pos 0

-- The quantity that the report finds in a batch.
abbrev pub found : Db → ℕ → ProductBatch → ℤ
found db day b = incoming db day b -ℤ outgoing db day b

abbrev pub is_batch_of : Db → ℕ → Option ℕ → ProductBatch → Bool
is_batch_of db p w b =
    b.product_id == p && same_opt (batch_warehouse db.goods_receipts db.buyer_returns b) w

is_row-eq :
    (p q : ℕ) (w v : Option ℕ) (r : StockRow)
    → is_row q v r ≡ true
    → is_row p w r ≡ (q == p && same_opt v w)
is_row-eq p q w v r h =
    let same : r.product_id ≡ q = ground arith in
    let there : same_opt r.warehouse_id v ≡ true = ground arith in
    ap₂ (λ i j. i == p && same_opt j w) same (same_opt-IsSame.0 r.warehouse_id v there)

named-add_row :
    (p q : ℕ) (w v : Option ℕ) (n value : ℤ) (rows : List StockRow)
    → sum_by (named p w) (add_row q v n value rows)
      ≡ (if q == p && same_opt v w then n else pos 0) +ℤ sum_by (named p w) rows
unfolding add_row
named-add_row p q w v n value [] = refl
named-add_row p q w v n value (r ∷ rows) = elim (Bool-cases (is_row q v r)) [
  | inl e ↦
      let own = is_row-eq p q w v r e in
      elim (Bool-cases (q == p && same_opt v w)) [
        | inl f ↦ rw (e, own, f) (omega int_laws)
        | inr f ↦ rw (e, own, f) (omega int_laws)
      ]
  | inr e ↦ rw e (omega (int_laws, parts_of_eq (named-add_row p q w v n value rows)))
]

pub named-group_rows :
    (db : Db) (day p : ℕ) (w : Option ℕ) (bs : List ProductBatch)
    → sum_by (named p w) (group_rows db day bs)
      ≡ sum_by (λ b. if is_batch_of db p w b then found db day b else pos 0) bs
unfolding group_rows
named-group_rows db day p w [] = refl
named-group_rows db day p w (b ∷ bs) =
    named-add_row p b.product_id w _ (found db day b) _ (group_rows db day bs)
    ∙ ap₂ ◌+ℤ◌ refl (named-group_rows db day p w bs)

-- HAVING leaves out rows that name nothing.
pub named-having :
    (p : ℕ) (w : Option ℕ) (rows : List StockRow)
    → sum_by (named p w) (select (λ r. ltb_ℤ r.balance (pos 0) || ltb_ℤ (pos 0) r.balance) rows)
      ≡ sum_by (named p w) rows
named-having p w [] = refl
named-having p w (r ∷ rows) =
    elim (Bool-cases (ltb_ℤ r.balance (pos 0) || ltb_ℤ (pos 0) r.balance)) [
      | inl e ↦ rw e (ap₂ ◌+ℤ◌ refl (named-having p w rows))
      | inr e ↦
          let nothing : r.balance ≡ pos 0 = eq_of_parts r.balance (pos 0) (ground arith) in
          let none_of : named p w r ≡ pos 0 =
            ap (λ n. if is_row p w r then n else pos 0) nothing ∙ if_same (is_row p w r) (pos 0) in
          rw e (
            named-having p w rows
            ∙ sym (ap (λ n. n +ℤ sum_by (named p w) rows) none_of ∙ zero-+ℤ _))
    ]
