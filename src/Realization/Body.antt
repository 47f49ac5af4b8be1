-- ===== src/Realization/Body.antt =====
-- The tables after `post` and `unpost`.
use remote_order_server.Common.{
  ℕ, ◌≡◌, refl, sym, ◌∙◌, true, false, Option, none, some, List, arith, ◌==◌, find, select,
  update_where, Bool-cases, inl, inr, Option-cases,
}
use remote_order_server.Common.Int.{ℤ, pos, ◌-ℤ◌}
use remote_order_server.Db.{Db, Env, Item, Order, OrderStatus, Realization, completed, posted}
use remote_order_server.Tx.{
  ok, err, >>=-ok, thrown-ne-returned, returned-same, not_found, already_posted,
}
use remote_order_server.Realization.{
  is_posted, post_items, post_body, post_doc, post_totals, set_order_status, status_comment, scaled,
}

abbrev pub orders_after : Option ℕ → OrderStatus → List Order → List Order
orders_after none s orders = orders
orders_after (some i) s orders = update_where (λ o. o.id == i) (λ o. record o { status = s }) orders

pub set_order_status-eq :
    (o : Option ℕ) (s : OrderStatus) (db : Db)
    → set_order_status o s db ≡ (ok tt, record db { orders = orders_after o s db.orders })
unfolding set_order_status
set_order_status-eq none s db = refl
set_order_status-eq (some i) s db = refl

abbrev pub items_of : ℕ → Db → List Item
items_of id db = select (λ i. i.doc_id == id) db.realization_items

abbrev pub posted_row : Env → Option (List ℕ) → ℤ → Realization → Realization
posted_row env comment profit r = record r {
  status = posted;
  profit = env.round_amount profit;
  comment = status_comment comment profit;
}

-- The tables after the loop over the items and the two updates.
abbrev pub finished : Env → ℕ → Realization → ℤ → Db → Db
finished env id doc cost db = record db {
  realizations =
      update_where (λ r. r.id == id) (posted_row env doc.comment (scaled doc.amount -ℤ cost))
        db.realizations;
  orders = orders_after doc.order_id completed db.orders;
}

-- What a call of `post` that returns has found and done.
pub record PostOk (env : Env) (id : ℕ) (db : Db) (profit : ℤ) (db' : Db) : Type 0 where
  pub doc : Realization
  pub found : find (λ r. r.id == id) db.realizations ≡ some doc
  pub was_draft : is_posted doc.status ≡ false
  pub cost : ℤ
  pub mid : Db
  pub items : post_items doc.warehouse_id (items_of id db) (pos 0) db ≡ (ok cost, mid)
  pub profit_is : profit ≡ scaled doc.amount -ℤ cost
  pub tables : db' ≡ finished env id doc cost mid

module _ (env : Env) (id : ℕ) (db : Db) where
  post_totals-eq :
      (doc : Realization) (cost : ℤ) (mid : Db)
      → post_totals env id doc cost mid
        ≡ (ok (scaled doc.amount -ℤ cost), finished env id doc cost mid)
  unfolding post_totals
  post_totals-eq doc cost mid = ground (
    arith,
    set_order_status-eq doc.order_id completed (record mid {
      realizations =
          update_where (λ r. r.id == id) (posted_row env doc.comment (scaled doc.amount -ℤ cost))
            mid.realizations;
    }),
  )

  post_found :
      (doc : Realization) {profit : ℤ} {db' : Db}
      → find (λ r. r.id == id) db.realizations ≡ some doc
      → is_posted doc.status ≡ false
      → post_doc env id doc db ≡ (ok profit, db')
      → PostOk env id db profit db'
  unfolding post_doc
  post_found doc {profit} {db'} f d h =
      let (c, mid, e, k) =
        >>=-ok (post_items doc.warehouse_id (items_of id db) (pos 0)) (post_totals env id doc) db
          h in
      let (profit_is, tables) =
        returned-same (post_totals env id doc c mid) (post_totals-eq doc c mid) k in
      record {
        doc = doc;
        found = f;
        was_draft = d;
        cost = c;
        mid = mid;
        items = e;
        profit_is = profit_is;
        tables = tables;
      }

  -- `post` of a document that is not there, that is posted, and of any other.
  pub sale_cases :
      (find (λ r. r.id == id) db.realizations ≡ none → post_body env id db ≡ (err not_found, db))
      × ((doc : Realization)
          → find (λ r. r.id == id) db.realizations ≡ some doc
          → (is_posted doc.status ≡ true → post_body env id db ≡ (err already_posted, db))
            × (is_posted doc.status ≡ false → post_body env id db ≡ post_doc env id doc db))
  unfolding post_body
  sale_cases = (λ f. ground arith, λ doc f. (λ d. ground arith, λ d. ground arith))

  pub post_body-ok :
      {profit : ℤ} {db' : Db} → post_body env id db ≡ (ok profit, db') → PostOk env id db profit db'
  post_body-ok h = elim (Option-cases (find (λ r. r.id == id) db.realizations)) [
    | inl f ↦ absurd (thrown-ne-returned (post_body env id db) (sale_cases.0 f) h)
    | inr (doc, f) ↦ elim (Bool-cases (is_posted doc.status)) [
      | inl d ↦ absurd (thrown-ne-returned (post_body env id db) ((sale_cases.1 doc f).0 d) h)
      | inr d ↦ post_found doc f d (sym ((sale_cases.1 doc f).1 d) ∙ h)
    ]
  ]
