-- ===== src/SupplierReturn/Restore.antt =====
-- `post` and `unpost` of a supplier return: `unpost` gives back what `post` took, and both keep the
-- stock balanced.
use remote_order_server.Common.{
  ℕ, ◌≡◌, refl, ap, ◌∙◌, sym, true, false, none, some, List, [], ◌++◌, map, arith, All, ◌==◌, ltb,
  find, select, delete_where, update_where, order_by, order_by-All, Bool-cases, inl, inr,
  Option-cases, find-update_where, sum_by-delete_where,
}
use remote_order_server.Db.{Db, Item, ItemBatch, ReturnDoc, draft, posted}
use remote_order_server.Tx.{
  settle, Result, ok, err, >>=-ok, thrown-ne-returned, returned-same, not_found, already_posted,
  not_posted,
}
use remote_order_server.Inventory.{is_of_doc, return_loop}
use remote_order_server.Inventory.Balance.{IsBalanced, Balanced-sale, Balanced-undo, Balanced-swap}
use remote_order_server.Inventory.Return.{return_loop-eq-map}
use remote_order_server.Inventory.Links.{less_used}
use remote_order_server.Inventory.Owned.{
  IsItemOf, items_of-owned, own_links, other_links, return_loop-less_used,
}
use remote_order_server.Realization.{is_posted}
use remote_order_server.SupplierReturn.{
  post, post_body, post_doc, post_items, unpost_body, unpost_doc,
}
use remote_order_server.SupplierReturn.Steps.{Posted, post_items-Posted, with_links}

abbrev pub items_of : ℕ → Db → List Item
items_of id db =
    order_by (λ a b. ltb a.sort_order b.sort_order)
      (select (λ i. i.doc_id == id) db.supplier_return_items)

-- The tables after `post` and after `unpost`.
abbrev pub finished : ℕ → Db → Db
finished id db = record db {
  supplier_returns =
      update_where (λ r. r.id == id) (λ r. record r { status = posted }) db.supplier_returns;
}

abbrev pub undone : ℕ → Db → Db
undone id db =
    let p = is_of_doc db.supplier_return_items id in
    record db {
      batches = return_loop (select p db.supplier_return_item_batches) db.batches;
      supplier_return_item_batches = delete_where p db.supplier_return_item_batches;
      supplier_returns =
          update_where (λ r. r.id == id) (λ r. record r { status = draft }) db.supplier_returns;
    }

module _ (id : ℕ) (db : Db) where
  -- Before a document is posted, no link names an item of it.
  abbrev pub HasNoLinks : Type 0
  HasNoLinks = select (is_of_doc db.supplier_return_items id) db.supplier_return_item_batches ≡ []

  return_cases :
      (find (λ r. r.id == id) db.supplier_returns ≡ none → post_body id db ≡ (err not_found, db))
      × ((doc : ReturnDoc)
          → find (λ r. r.id == id) db.supplier_returns ≡ some doc
          → (is_posted doc.status ≡ true → post_body id db ≡ (err already_posted, db))
            × (is_posted doc.status ≡ false → post_body id db ≡ post_doc id doc db))
  unfolding post_body
  return_cases = (λ f. ground arith, λ doc f. (λ d. ground arith, λ d. ground arith))

  unpost_cases :
      (find (λ r. r.id == id) db.supplier_returns ≡ none → unpost_body id db ≡ (err not_found, db))
      × ((doc : ReturnDoc)
          → find (λ r. r.id == id) db.supplier_returns ≡ some doc
          → (is_posted doc.status ≡ false → unpost_body id db ≡ (err not_posted, db))
            × (is_posted doc.status ≡ true → unpost_body id db ≡ (ok tt, undone id db)))
  unfolding unpost_body unpost_doc
  unpost_cases = (λ f. ground arith, λ doc f. (λ d. ground arith, λ d. ground arith))

  items_owned : All (λ i. IsItemOf db.supplier_return_items id i.id) (items_of id db)
  items_owned = order_by-All _ _ _ (items_of-owned id db.supplier_return_items)

  -- What a call of `post` that returns has found and done.
  pub record PostOk (db' : Db) : Type 0 where
    pub doc : ReturnDoc
    pub found : find (λ r. r.id == id) db.supplier_returns ≡ some doc
    pub links : List ItemBatch
    pub owned : All (λ l. IsItemOf db.supplier_return_items id l.item_id) links
    pub tables : db' ≡ finished id (with_links links db)

module _ (id : ℕ) (db : Db) where
  post_found :
      (doc : ReturnDoc) {db' : Db}
      → find (λ r. r.id == id) db.supplier_returns ≡ some doc
      → post_doc id doc db ≡ (ok tt, db')
      → PostOk id db db'
  unfolding post_doc
  post_found doc {db'} f h =
      let (_, mid, e, k) =
        >>=-ok (post_items doc.warehouse_id (items_of id db)) (λ _ m. (ok tt, finished id m)) db
          h in
      let done : Posted (IsItemOf db.supplier_return_items id) (items_of id db) db mid =
        post_items-Posted _ doc.warehouse_id (items_of id db) db (items_owned id db) e in
      record {
        doc = doc;
        found = f;
        links = done.links;
        owned = done.owned;
        tables = (returned-same (ok tt, finished id mid) refl k).1 ∙ ap (finished id) done.tables;
      }

  post_body-ok : {db' : Db} → post_body id db ≡ (ok tt, db') → PostOk id db db'
  post_body-ok h = elim (Option-cases (find (λ r. r.id == id) db.supplier_returns)) [
    | inl f ↦ absurd (thrown-ne-returned (post_body id db) ((return_cases id db).0 f) h)
    | inr (doc, f) ↦ elim (Bool-cases (is_posted doc.status)) [
      | inl d ↦ absurd (thrown-ne-returned (post_body id db) (((return_cases id db).1 doc f).0 d) h)
      | inr d ↦ post_found doc f (sym (((return_cases id db).1 doc f).1 d) ∙ h)
    ]
  ]

-- A supplier return that was posted while no link named its items can be unposted at once, and this
-- gives back every batch and leaves the link table as they were before the post.
return-unpost :
    (id : ℕ) (db : Db) {db' : Db}
    → HasNoLinks id db
    → post_body id db ≡ (ok tt, db')
    → ((unpost_body id db').0 ≡ ok tt)
      × ((unpost_body id db').1.batches ≡ db.batches)
      × ((unpost_body id db').1.supplier_return_item_batches ≡ db.supplier_return_item_batches)
return-unpost id db {db'} fresh h =
    let done : PostOk id db db' = post_body-ok id db h in
    let ls : List ItemBatch = done.links in
    let after : Db = finished id (with_links ls db) in
    let undo : unpost_body id after ≡ (ok tt, undone id after) =
      ((unpost_cases id after).1 (record done.doc { status = posted })
          (find-update_where (λ r. r.id == id) _ db.supplier_returns (λ r e. e) ∙ rw done.found)).1
        refl in
    rw done.tables (
      ap (λ (r : Result (Unit {0}) × Db). r.0) undo,
      ap (λ (r : Result (Unit {0}) × Db). r.1.batches) undo
          ∙ ap (λ (ks : List ItemBatch). return_loop ks (map (less_used ls) db.batches))
              (own_links db.supplier_return_items id db.supplier_return_item_batches ls fresh
                done.owned)
          ∙ return_loop-less_used ls db.batches,
      ap (λ (r : Result (Unit {0}) × Db). r.1.supplier_return_item_batches) undo
          ∙ other_links db.supplier_return_items id db.supplier_return_item_batches ls fresh
              done.owned,
    )

undone-IsBalanced : (id : ℕ) (db : Db) → IsBalanced db → IsBalanced (undone id db)
undone-IsBalanced id db b =
    let p = is_of_doc db.supplier_return_items id in
    rw (return_loop-eq-map (select p db.supplier_return_item_batches) db.batches) (
      Balanced-swap (delete_where p db.supplier_return_item_batches) db.realization_item_batches _ (
        Balanced-undo db.supplier_return_item_batches db.realization_item_batches db.batches
          (select p db.supplier_return_item_batches)
          (delete_where p db.supplier_return_item_batches)
          (λ i. sum_by-delete_where _ p db.supplier_return_item_batches)
          (Balanced-swap db.realization_item_batches db.supplier_return_item_batches db.batches b)))

posted-IsBalanced :
    (id : ℕ) (db : Db) {db' : Db} → IsBalanced db → post_body id db ≡ (ok tt, db') → IsBalanced db'
posted-IsBalanced id db b h =
    let done = post_body-ok id db h in
    let ls : List ItemBatch = done.links in
    rw done.tables (
      Balanced-swap (db.supplier_return_item_batches ++ ls) db.realization_item_batches _ (
        Balanced-sale db.supplier_return_item_batches db.realization_item_batches db.batches ls
          (Balanced-swap db.realization_item_batches db.supplier_return_item_batches db.batches b)))

-- The transaction `post` and the body of `unpost` of a supplier return keep the stock balanced,
-- whether they throw or return.
pub supplier_return-IsBalanced :
    (id : ℕ) (db : Db)
    → IsBalanced db
    → IsBalanced (post id db).1 × IsBalanced (unpost_body id db).1
unfolding post
supplier_return-IsBalanced id db b = (
  settled (post_body id db) refl,
  elim (Option-cases (find (λ r. r.id == id) db.supplier_returns)) [
    | inl f ↦ rw ((unpost_cases id db).0 f) b
    | inr (doc, f) ↦ elim (Bool-cases (is_posted doc.status)) [
      | inl d ↦ rw (((unpost_cases id db).1 doc f).1 d) (undone-IsBalanced id db b)
      | inr d ↦ rw (((unpost_cases id db).1 doc f).0 d) b
    ]
  ],
)
  where
    settled : (r : Result (Unit {0}) × Db) → post_body id db ≡ r → IsBalanced (settle db r).1
    settled (ok tt, db') e = posted-IsBalanced id db b e
    settled (err c, db') e = b
