-- ===== src/Realization/Balance.antt =====
-- `post` and `unpost` keep the stock balanced, and what `post` takes and earns.
use remote_order_server.Common.{
  refl, ℕ, ◌≡◌, ap, ◌∙◌, false, Option, none, some, List, arith, All, ◌==◌, find, select,
  delete_where, Bool-cases, inl, inr, Option-cases, sum_by, sum_by-delete_where, ◌++◌,
}
use remote_order_server.Common.Int.{ℤ, pos, ◌-ℤ◌, ◌≤ℤ◌, int_laws, parts_of_eq}
use remote_order_server.Db.{Db, Env, ItemBatch, Realization}
use remote_order_server.Tx.{Result, settle, ok, err, not_found, not_posted}
use remote_order_server.Inventory.{is_of_doc}
use remote_order_server.Inventory.Balance.{IsBalanced, Balanced-sale, Balanced-undo}
use remote_order_server.Inventory.Return.{return_loop-eq-map}
use remote_order_server.Realization.{post, is_posted, post_body, unpost_body, scaled}
use remote_order_server.Realization.Steps.{Posted, post_items-Posted, with_links, total_of, cost_of}
use remote_order_server.Realization.Body.{PostOk, post_body-ok, items_of, finished}
use remote_order_server.Inventory.Owned.{IsItemOf, items_of-owned}
use remote_order_server.Realization.Restore.{undone, unpost_body-found, unpost_doc-eq}

module _ (env : Env) (id : ℕ) (db : Db) {profit : ℤ} {db' : Db}
    (h : post_body env id db ≡ (ok profit, db')) where
  posting : PostOk env id db profit db'
  posting = post_body-ok env id db h

  posted :
      Posted (IsItemOf db.realization_items id) (items_of id db) (pos 0) db posting.cost posting.mid
  posted =
      post_items-Posted (IsItemOf db.realization_items id) posting.doc.warehouse_id (items_of id db)
        (pos 0) db (items_of-owned id db.realization_items) posting.items

  tables_after : db' ≡ finished env id posting.doc posting.cost (with_links posted.links db)
  tables_after = posting.tables ∙ ap (finished env id posting.doc posting.cost) posted.tables

  posted-IsBalanced : IsBalanced db → IsBalanced db'
  posted-IsBalanced b = rw tables_after (
      Balanced-sale db.realization_item_batches db.supplier_return_item_batches db.batches
        posted.links b)

  -- A post that returns adds links to the end of the link table, and leaves the links that were
  -- there. The profit is the amount of the document less the cost of the new links; and where no
  -- item has a negative quantity the new links take the quantities of the items.
  pub post_profit :
      (ls : List ItemBatch) × (db'.realization_item_batches ≡ db.realization_item_batches ++ ls)
      × (doc : Realization) × (find (λ r. r.id == id) db.realizations ≡ some doc)
      × (profit ≡ scaled doc.amount -ℤ cost_of ls)
      × (All (λ i. pos 0 ≤ℤ i.quantity) (items_of id db)
          → total_of ls ≡ sum_by (λ i. i.quantity) (items_of id db))
  post_profit = (
    posted.links,
    ap (λ (d : Db). d.realization_item_batches) tables_after,
    posting.doc,
    posting.found,
    omega (int_laws, parts_of_eq posting.profit_is, parts_of_eq posted.costs),
    posted.quantities,
  )

-- The transaction `post` of a realization keeps the stock balanced, whether it throws or returns: if
-- what each batch has left and what the items of realizations and of supplier returns took from it
-- made up its total before, they do so after.
pub post-IsBalanced :
    (env : Env) (id : ℕ) (db : Db) → IsBalanced db → IsBalanced (post env id false db).1
unfolding post
post-IsBalanced env id db b = settled (post_body env id db) refl
  where
    settled : (r : Result ℤ × Db) → post_body env id db ≡ r → IsBalanced (settle db r).1
    settled (ok profit, db') e = posted-IsBalanced env id db e b
    settled (err c, db') e = b

undo_cases :
    (id : ℕ) (db : Db)
    → (find (λ r. r.id == id) db.realizations ≡ none → unpost_body id db ≡ (err not_found, db))
      × ((doc : Realization)
          → find (λ r. r.id == id) db.realizations ≡ some doc
          → is_posted doc.status ≡ false
          → unpost_body id db ≡ (err not_posted, db))
unfolding unpost_body
undo_cases id db = (λ f. ground arith, λ doc f d. ground arith)

undone-IsBalanced : (id : ℕ) (o : Option ℕ) (db : Db) → IsBalanced db → IsBalanced (undone id o db)
undone-IsBalanced id o db b =
    let p = is_of_doc db.realization_items id in
    rw (return_loop-eq-map (select p db.realization_item_batches) db.batches) (
      Balanced-undo db.realization_item_batches db.supplier_return_item_batches db.batches
        (select p db.realization_item_batches) (delete_where p db.realization_item_batches)
        (λ i. sum_by-delete_where _ p db.realization_item_batches) b)

-- An `unpost` keeps the stock balanced, whether it throws or returns.
pub unpost-IsBalanced : (id : ℕ) (db : Db) → IsBalanced db → IsBalanced (unpost_body id db).1
unpost-IsBalanced id db b = elim (Option-cases (find (λ r. r.id == id) db.realizations)) [
  | inl f ↦ rw ((undo_cases id db).0 f) b
  | inr (doc, f) ↦ elim (Bool-cases (is_posted doc.status)) [
    | inl d ↦
        rw (unpost_body-found id doc db f d, unpost_doc-eq id doc db)
          (undone-IsBalanced id doc.order_id db b)
    | inr d ↦ rw ((undo_cases id db).1 doc f d) b
  ]
]
