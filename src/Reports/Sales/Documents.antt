-- ===== src/Reports/Sales/Documents.antt =====
-- The sales by client, which add up documents, and by product, which add up their items.
use remote_order_server.Common.{
  ℕ, ◌≡◌, refl, sym, ap, ap₂, ◌∙◌, Bool, true, false, none, some, List, [], ◌∷◌, map, ◌==◌,
  if◌then◌else◌, if_same, find, find-none, select, sum_by, sum_by-append, sum_by-map, sum_by_congr,
  sum_by_add, sum_by_zero, sum_by-select, sum_by-groups, All, All-imp, arith, Bool-cases,
  Option-cases, inl, inr, IsKey, All-keys,
}
use remote_order_server.Common.Int.{ℤ, pos, ◌+ℤ◌, ◌-ℤ◌, zero-+ℤ, +ℤ-zero, int_laws, parts_of_eq}
use remote_order_server.Db.{Db, Item, Realization, ReturnDoc}
use remote_order_server.Reports.Periods.{all_of}
use remote_order_server.Reports.Movement.{joined}
use remote_order_server.Reports.Movement.Joined.{if_found, sum_by-joined}
use remote_order_server.Reports.Sales.{
  Filter, is_reported, is_reported_return, sold_row, returned_row, base_items, base_docs,
  by_product, by_client, first_cost,
}

-- The totals of the items of a document.
abbrev pub items_total : List Item → ℕ → ℤ
items_total items id = sum_by (λ i. i.total) (select (λ i. i.doc_id == id) items)

-- The join of items to their documents, of which those that pass a test count.
module _ {D : Type 0} (id : D → ℕ) (c : D → Bool) (w : Item → ℤ) where
  abbrev counted : List D → Item → ℤ
  counted ds i = elim (find (λ d. id d == i.doc_id) ds) [
    | none ↦ pos 0
    | some d ↦ if c d then w i else pos 0
  ]

  abbrev of_doc : D → Item → ℤ
  of_doc d i = if i.doc_id == id d then (if c d then w i else pos 0) else pos 0

  counted_split :
      (d : D) (ds : List D) (i : Item)
      → All (λ m. (m == id d) ≡ false) (map id ds)
      → counted (d ∷ ds) i ≡ of_doc d i +ℤ counted ds i
  counted_split d ds i apart = elim (Bool-cases (id d == i.doc_id)) [
    | inl e ↦
        let same : (i.doc_id == id d) ≡ true = ground arith in
        let absent =
          find-none (λ x. id x == i.doc_id) ds (All-keys id (id d) i.doc_id ds e apart) in
        rw (counted, of_doc, e, same, absent) (sym (+ℤ-zero _))
    | inr e ↦
        let other : (i.doc_id == id d) ≡ false = ground arith in
        rw (counted, of_doc, e, other) (sym (zero-+ℤ _))
  ]

  sum_by-of_doc :
      (d : D) (items : List Item)
      → sum_by (of_doc d) items
        ≡ (if c d then sum_by w (select (λ i. i.doc_id == id d) items) else pos 0)
  sum_by-of_doc d items = elim (Bool-cases (c d)) [
    | inl e ↦ rw e (
        sum_by_congr _ _ items (all_of _ items (λ i. rw (of_doc, e)))
        ∙ sym (sum_by-select w (λ i. i.doc_id == id d) items))
    | inr e ↦ rw e (
        sum_by_zero _ items
          (all_of _ items (λ i. rw (of_doc, e) (if_same (i.doc_id == id d) (pos 0)))))
  ]

  -- The sum over the items that are joined is the sum over the documents.
  join_sums :
      (items : List Item) (ds : List D)
      → IsKey id ds
      → sum_by (counted ds) items
        ≡ sum_by (λ d. if c d then sum_by w (select (λ i. i.doc_id == id d) items) else pos 0) ds
  join_sums items [] u = sum_by_zero _ items (all_of _ items (λ i. refl))
  join_sums items (d ∷ ds) u =
      sum_by_congr _ _ items (all_of _ items (λ i. counted_split d ds i u.0))
      ∙ sum_by_add (of_doc d) (counted ds) items
      ∙ ap₂ ◌+ℤ◌ (sum_by-of_doc d items) (join_sums items ds u.1)

  -- Documents whose amounts are those of their items, against the items.
  documents-items :
      (amount_of : D → ℤ) (items : List Item) (ds : List D)
      → IsKey id ds
      → All (λ d. amount_of d ≡ sum_by w (select (λ i. i.doc_id == id d) items)) ds
      → sum_by amount_of (select c ds) ≡ sum_by (counted ds) items
  documents-items amount_of items ds u h =
      sum_by-select amount_of c ds
      ∙ sum_by_congr _ _ ds (
          All-imp _ _ ds
            (λ d (e : amount_of d ≡ sum_by w (select (λ i. i.doc_id == id d) items)).
              ap (λ n. if c d then n else pos 0) e)
            h)
      ∙ sym (join_sums items ds u)

sum_by_minus :
    {A : Type 0} (w : A → ℤ) (xs : List A) → sum_by (λ x. pos 0 -ℤ w x) xs ≡ pos 0 -ℤ sum_by w xs
sum_by_minus w [] = omega int_laws
sum_by_minus w (x ∷ xs) = omega (int_laws, parts_of_eq (sum_by_minus w xs))

module _ (f : Filter) (db : Db) (grouping : Bool) where
  sold-counted :
      (i : Item)
      → if_found (λ x. x.amount) (sold_row grouping f db i)
        ≡ counted (λ (r : Realization). r.id) (is_reported f) (λ i. i.total) db.realizations i
  unfolding sold_row
  sold-counted i = elim (Option-cases (find (λ r. r.id == i.doc_id) db.realizations)) [
    | inl e ↦ rw (sold_row, counted, e)
    | inr (r, e) ↦ elim (Bool-cases (is_reported f r)) [
      | inl k ↦ rw (sold_row, counted, e, k)
      | inr k ↦ rw (sold_row, counted, e, k)
    ]
  ]

  returned-counted :
      (i : Item)
      → if_found (λ x. x.amount) (returned_row (first_cost db) grouping f db i)
        ≡ counted
            (λ (r : ReturnDoc). r.id)
            (is_reported_return f)
            (λ i. pos 0 -ℤ i.total)
            db.buyer_returns
            i
  unfolding returned_row
  returned-counted i = elim (Option-cases (find (λ r. r.id == i.doc_id) db.buyer_returns)) [
    | inl e ↦ rw (returned_row, counted, e)
    | inr (r, e) ↦ elim (Bool-cases (is_reported_return f r)) [
      | inl k ↦ rw (returned_row, counted, e, k)
      | inr k ↦ rw (returned_row, counted, e, k)
    ]
  ]

-- The sales by client and by product name the same amount in all, under the same filters, however
-- each is grouped, if no two realizations and no two returns have one id, and the amount of each
-- is the sum of its items.
pub by_client-by_product :
    (by_type of_type : Bool) (f : Filter) (db : Db)
    → IsKey (λ r. r.id) db.realizations
    → IsKey (λ r. r.id) db.buyer_returns
    → All (λ r. r.amount ≡ items_total db.realization_items r.id) db.realizations
    → All (λ r. r.total_amount ≡ items_total db.buyer_return_items r.id) db.buyer_returns
    → sum_by (λ r. r.amount) (by_client by_type f db)
      ≡ sum_by (λ r. r.amount) (by_product of_type f db)
unfolding by_client by_product base_docs base_items
by_client-by_product by_type of_type f db u v sold back =
    sum_by-groups _ _ _ _ _ (base_docs by_type f db) (λ g. refl)
    ∙ sum_by-append _ (map _ (select (is_reported f) db.realizations)) _
    ∙ ap₂ ◌+ℤ◌
        (sum_by-map _ _ (select (is_reported f) db.realizations)
          ∙ documents-items (λ r. r.id) (is_reported f) (λ i. i.total) _ db.realization_items
              db.realizations u sold
          ∙ sym (
              sum_by-joined _ _ db.realization_items
              ∙ sum_by_congr _ _ db.realization_items
                  (all_of _ db.realization_items (sold-counted f db of_type))))
        (sum_by-map _ _ (select (is_reported_return f) db.buyer_returns)
          ∙ documents-items (λ r. r.id) (is_reported_return f) (λ i. pos 0 -ℤ i.total) _
              db.buyer_return_items db.buyer_returns v
              (All-imp _ _ db.buyer_returns
                (λ r (e : r.total_amount ≡ items_total db.buyer_return_items r.id).
                  ap (λ n. pos 0 -ℤ n) e
                  ∙ sym (
                      sum_by_minus (λ i. i.total)
                        (select (λ i. i.doc_id == r.id) db.buyer_return_items)))
                back)
          ∙ sym (
              sum_by-joined _ _ db.buyer_return_items
              ∙ sum_by_congr _ _ db.buyer_return_items
                  (all_of _ db.buyer_return_items (returned-counted f db of_type))))
    ∙ sym (sum_by-append _ (joined (sold_row of_type f db) db.realization_items) _)
    ∙ sym (sum_by-groups _ _ _ _ _ (base_items (first_cost db) of_type f db) (λ g. refl))
