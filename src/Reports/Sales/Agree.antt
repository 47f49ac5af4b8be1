-- ===== src/Reports/Sales/Agree.antt =====
-- The sales of one counterparty, by product and in the details.
use remote_order_server.Common.{
  ℕ, ◌+◌, ◌*◌, ◌≡◌, refl, sym, ap₂, ◌∙◌, Bool, false, ◌&&◌, some, List, [], ◌∷◌, ◌==◌, find, select,
  sum_by, sum_by-append, sum_by_congr, sum_by-groups, All, All-imp, arith, Bool-cases, Option-cases,
  inl, inr,
}
use remote_order_server.Common.Int.{
  sub_ℕ, pos_part, neg_part, negsuc, ℤ, pos, ◌+ℤ◌, ◌-ℤ◌, ◌*ℤ◌, +ℤ-zero, int_laws,
}
use remote_order_server.Db.{Db, Item, ReturnedBatch}
use remote_order_server.Realization.{scaled}
use remote_order_server.Reports.Periods.{all_of}
use remote_order_server.Reports.Movement.{joined}
use remote_order_server.Reports.Movement.Joined.{if_found, sum_by-joined}
use remote_order_server.Reports.Sales.{
  Filter, ItemRow, is_reported, is_reported_return, sold_row, returned_row, base_items, by_product,
  client_details, returned_cost, first_cost, batch_price, has_price,
}

-- One link names the item of a return, with its whole quantity: what the post of a return writes.
abbrev pub IsReturnedOnce : Db → Item → Type 0
IsReturnedOnce db i =
    (l : ReturnedBatch) × (select (λ x. x.item_id == i.id) db.buyer_return_item_batches ≡ l ∷ [])
    × (l.quantity ≡ i.quantity)

find-select :
    {A : Type 0} (p q : A → Bool) (xs : List A) → find (λ x. p x && q x) xs ≡ find q (select p xs)
find-select p q [] = refl
find-select p q (x ∷ xs) = elim (Bool-cases (p x)) [
  | inl e ↦ elim (Bool-cases (q x)) [ inl k ↦ rw (e, k) | inr k ↦ rw (e, k) (find-select p q xs) ]
  | inr e ↦ rw e (find-select p q xs)
]

mul_comm : (a b : ℤ) → a *ℤ b ≡ b *ℤ a
unfolding ◌*ℤ◌
mul_comm a b = ap₂ sub_ℕ (omega arith) (omega arith)

scaled_parts :
    (t : ℤ) → pos_part (scaled t) + 1000 * neg_part t ≡ neg_part (scaled t) + 1000 * pos_part t
unfolding ◌*ℤ◌
scaled_parts (pos n) = ground arith
scaled_parts (negsuc n) = ground arith

scaled-minus : (t c : ℤ) → c -ℤ scaled t ≡ scaled (pos 0 -ℤ t) -ℤ (pos 0 -ℤ c)
scaled-minus t c = omega (int_laws, scaled_parts t, scaled_parts (pos 0 -ℤ t))

cost_once : (db : Db) (i : Item) → IsReturnedOnce db i → first_cost db i ≡ returned_cost db i
unfolding first_cost returned_cost
cost_once db i (l, one, whole) = elim (Option-cases (batch_price db l.batch_id)) [
  | inl e ↦
      rw
        (
          find-select (λ x. x.item_id == i.id) (λ x. has_price (batch_price db x.batch_id))
              db.buyer_return_item_batches,
          one,
          e,
          mul_comm (pos 0) i.quantity,
          whole,
        )
        (sym (+ℤ-zero _))
  | inr (n, e) ↦
      rw
        (
          find-select (λ x. x.item_id == i.id) (λ x. has_price (batch_price db x.batch_id))
              db.buyer_return_item_batches,
          one,
          e,
          e,
          mul_comm n i.quantity,
          whole,
        )
        (sym (+ℤ-zero _))
]

-- A column of the first report and what the second takes for it.
Tells : (ItemRow → ℤ) → (ItemRow → ℤ) → Type 0
Tells v u =
    (x y : ItemRow)
    → x.quantity ≡ y.quantity
    → x.amount ≡ y.amount
    → x.profit ≡ scaled y.amount -ℤ y.cost
    → v x ≡ u y

module _ (f : Filter) (db : Db) (grouping : Bool) (v u : ItemRow → ℤ) (h : Tells v u) where
  sold-agree :
      (i : Item) → if_found v (sold_row grouping f db i) ≡ if_found u (sold_row false f db i)
  unfolding sold_row Tells
  sold-agree i = elim (Option-cases (find (λ r. r.id == i.doc_id) db.realizations)) [
    | inl e ↦ rw (sold_row, e)
    | inr (r, e) ↦ elim (Bool-cases (is_reported f r)) [
      | inl k ↦ rw (sold_row, e, k) (h _ _ refl refl refl)
      | inr k ↦ rw (sold_row, e, k)
    ]
  ]

  returned-agree :
      (i : Item)
      → IsReturnedOnce db i
      → if_found v (returned_row (first_cost db) grouping f db i)
        ≡ if_found u (returned_row (returned_cost db) false f db i)
  unfolding returned_row Tells
  returned-agree i once = elim (Option-cases (find (λ r. r.id == i.doc_id) db.buyer_returns)) [
    | inl e ↦ rw (returned_row, e)
    | inr (r, e) ↦ elim (Bool-cases (is_reported_return f r)) [
      | inl k ↦
          rw (returned_row, e, k)
            (h _ _ refl refl (rw (cost_once db i once) (scaled-minus i.total (returned_cost db i))))
      | inr k ↦ rw (returned_row, e, k)
    ]
  ]

  base_items-agree :
      All (IsReturnedOnce db) db.buyer_return_items
      → sum_by v (base_items (first_cost db) grouping f db)
        ≡ sum_by u (base_items (returned_cost db) false f db)
  unfolding base_items
  base_items-agree once =
      sum_by-append v (joined (sold_row grouping f db) db.realization_items) _
      ∙ ap₂ ◌+ℤ◌
          (sum_by-joined _ v db.realization_items
            ∙ sum_by_congr _ _ db.realization_items (all_of _ db.realization_items sold-agree)
            ∙ sym (sum_by-joined _ u db.realization_items))
          (sum_by-joined _ v db.buyer_return_items
            ∙ sum_by_congr _ _ db.buyer_return_items
                (All-imp _ _ db.buyer_return_items returned-agree once)
            ∙ sym (sum_by-joined _ u db.buyer_return_items))
      ∙ sym (sum_by-append u (joined (sold_row false f db) db.realization_items) _)

-- The report by product, made for one counterparty, and the details of the counterparty name the same
-- quantity, the same amount and the same profit in all, however the first is grouped, if one link
-- names each item of a return, with its quantity.
pub by_product-client_details :
    (grouping : Bool) (client : ℕ) (f : Filter) (db : Db)
    → All (IsReturnedOnce db) db.buyer_return_items
    → let products = by_product grouping (record f { is_client = some (λ k. k == client) }) db in
      let details = client_details client f db in
      (sum_by (λ r. r.quantity) products ≡ sum_by (λ r. r.quantity) details)
      × (sum_by (λ r. r.amount) products ≡ sum_by (λ r. r.amount) details)
      × (sum_by (λ r. r.profit) products ≡ sum_by (λ r. r.profit) details)
unfolding by_product client_details Tells
by_product-client_details grouping client f db once =
    let mine : Filter = record f { is_client = some (λ k. k == client) } in
    (
      sum_by-groups _ _ _ _ _ (base_items (first_cost db) grouping mine db) (λ g. refl)
          ∙ base_items-agree mine db grouping (λ x. x.quantity) (λ x. x.quantity) (λ x y q a p. q)
              once
          ∙ sym (sum_by-groups _ _ _ _ _ (base_items (returned_cost db) false mine db) (λ g. refl)),
      sum_by-groups _ _ _ _ _ (base_items (first_cost db) grouping mine db) (λ g. refl)
          ∙ base_items-agree mine db grouping (λ x. x.amount) (λ x. x.amount) (λ x y q a p. a) once
          ∙ sym (sum_by-groups _ _ _ _ _ (base_items (returned_cost db) false mine db) (λ g. refl)),
      sum_by-groups _ _ _ _ _ (base_items (first_cost db) grouping mine db) (λ g. refl)
          ∙ base_items-agree mine db grouping (λ x. x.profit) (λ x. scaled x.amount -ℤ x.cost)
              (λ x y q a p. p) once
          ∙ sym (sum_by-groups _ _ _ _ _ (base_items (returned_cost db) false mine db) (λ g. refl)),
    )
