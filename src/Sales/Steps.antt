-- ===== src/Sales/Steps.antt =====
-- What the handlers of realizations have done when they return.
use remote_order_server.Common.{
  ℕ, suc, ◌+◌, ◌≡◌, ap, ap₂, ◌∙◌, true, false, Option, none, some, List, [], ◌∷◌, ◌++◌, arith, ◌==◌,
  find, Option-cases, inl, inr, length,
}
use remote_order_server.Db.{Db, Env, Item, Realization}
use remote_order_server.Tx.{
  Tx, Error, Result, ok, err, rejected, not_found, or_throw, throw_if, ◌>>=◌, ◌>>◌,
}
use remote_order_server.Realization.{is_posted}
use remote_order_server.Sales.{SaleItem, row_of, insert_item, insert_items}
use mathlib.Core.List.{append-nil, append_assoc}

-- The rows that the loop adds, if it can add all of them.
unfoldable pub rows_of : Env → (doc_id generated order : ℕ) → List SaleItem → Option (List Item)
rows_of env doc_id generated order [] = some []
rows_of env doc_id generated order (i ∷ items) =
    elim (row_of (env.uuid generated) doc_id order i.product_id i.quantity i.price i.total) [
      | none ↦ none
      | some row ↦ elim (rows_of env doc_id (suc generated) (suc order) items) [
        | none ↦ none
        | some rows ↦ some (row ∷ rows)
      ]
    ]

abbrev pub with_items : List Item → Db → Db
with_items rows db = record db {
  realization_items = db.realization_items ++ rows;
  generated = length rows + db.generated;
}

-- The tables after one INSERT.
abbrev with_item : Item → Db → Db
with_item row db = record db {
  realization_items = db.realization_items ++ row ∷ [];
  generated = suc db.generated;
}

with_items-cons :
    (row : Item) (rows : List Item) (db : Db)
    → with_items rows (with_item row db) ≡ with_items (row ∷ rows) db
with_items-cons row rows db =
    ap₂ (λ is (n : ℕ). record db { realization_items = is; generated = n })
      (append_assoc db.realization_items (row ∷ []) rows) (omega arith)

module _ (env : Env) (doc_id : ℕ) where
  abbrev new_row : ℕ → ℕ → SaleItem → Option Item
  new_row generated order i =
      row_of (env.uuid generated) doc_id order i.product_id i.quantity i.price i.total

  insert_items-cons :
      (order : ℕ) (i : SaleItem) (items : List SaleItem) (db : Db) {row : Item}
      → new_row db.generated order i ≡ some row
      → insert_items env doc_id order (i ∷ items) db
        ≡ insert_items env doc_id (suc order) items (with_item row db)
  unfolding insert_items insert_item
  insert_items-cons order i items db e = ground arith

  insert_items-stop :
      (order : ℕ) (i : SaleItem) (items : List SaleItem) (db : Db)
      → new_row db.generated order i ≡ none
      → insert_items env doc_id order (i ∷ items) db ≡ (err rejected, db)
  unfolding insert_items insert_item
  insert_items-stop order i items db e = ground arith

  -- The loop adds all its rows, or throws.
  pub insert_items-rows :
      (order : ℕ) (items : List SaleItem) (db : Db) {rows : List Item}
      → rows_of env doc_id db.generated order items ≡ some rows
      → insert_items env doc_id order items db ≡ (ok tt, with_items rows db)
  unfolding insert_items rows_of insert_item
  insert_items-rows order [] db {rows} h = ground (arith, append-nil db.realization_items)
  insert_items-rows order (i ∷ items) db {rows} h =
      elim (Option-cases (new_row db.generated order i)) [
        | inl e ↦ ground arith
        | inr (row, e) ↦
            elim (Option-cases (rows_of env doc_id (suc db.generated) (suc order) items)) [
              | inl k ↦ ground arith
              | inr (rest, k) ↦
                  insert_items-cons order i items db e
                  ∙ insert_items-rows (suc order) items (with_item row db) k
                  ∙ ap (λ (d : Db). (ok tt, d)) (with_items-cons row rest db)
                  ∙ ap (λ (rs : List Item). (ok tt, with_items rs db)) (ground arith)
            ]
      ]

  pub insert_items-rejected :
      (order : ℕ) (items : List SaleItem) (db : Db)
      → rows_of env doc_id db.generated order items ≡ none
      → (insert_items env doc_id order items db).0 ≡ err rejected
  unfolding insert_items rows_of insert_item
  insert_items-rejected order [] db h = cc
  insert_items-rejected order (i ∷ items) db h =
      elim (Option-cases (new_row db.generated order i)) [
        | inl e ↦ ap (λ (r : Result (Unit {0}) × Db). r.0) (insert_items-stop order i items db e)
        | inr (row, e) ↦
            elim (Option-cases (rows_of env doc_id (suc db.generated) (suc order) items)) [
              | inl k ↦
                  ap (λ (r : Result (Unit {0}) × Db). r.0) (insert_items-cons order i items db e)
                  ∙ insert_items-rejected (suc order) items (with_item row db) k
              | inr (rest, k) ↦ ground arith
            ]
      ]

-- PUT and DELETE of a document that is not there, that is posted, and of any other.
module _ (id : ℕ) (e : Error) (rest : Tx (Unit {0})) (db : Db) where
  abbrev pub guarded : Tx (Unit {0})
  guarded = do
    doc ← λ db. or_throw (find (λ r. r.id == id) db.realizations) not_found db
    throw_if (is_posted doc.status) e
    rest

  pub guarded_cases :
      (find (λ r. r.id == id) db.realizations ≡ none → guarded db ≡ (err not_found, db))
      × ((doc : Realization)
          → find (λ r. r.id == id) db.realizations ≡ some doc
          → (is_posted doc.status ≡ true → guarded db ≡ (err e, db))
            × (is_posted doc.status ≡ false → guarded db ≡ rest db))
  guarded_cases = (λ f. ground arith, λ doc f. (λ d. ground arith, λ d. ground arith))
