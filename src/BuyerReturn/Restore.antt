-- ===== src/BuyerReturn/Restore.antt =====
-- `unpost` of a buyer return after `post`.
use remote_order_server.Common.{
  ℕ, ◌+◌, ◌≡◌, refl, ap, ap₂, ◌∙◌, Bool, true, false, not, none, some, List, [], ◌++◌, arith, All,
  All-imp, ◌==◌, ltb, find, select, delete_where, update_where, order_by, Bool-cases, inl, inr,
  Option-cases, find-update_where, select-append, select-All, All-false_of_select, select_every,
  select-none, delete_where-none, length,
}
use mathlib.Core.List.{append-nil}
use remote_order_server.Common.Int.{pos}
use remote_order_server.Db.{Db, Env, Item, ProductBatch, ReturnDoc, posted}
use remote_order_server.Tx.{ok, err, thrown-ne-returned, returned-same, not_found, already_posted}
use remote_order_server.Documents.{delete_batches}
use remote_order_server.Realization.{is_posted}
use remote_order_server.BuyerReturn.{
  post_doc, post_body, is_of_return, is_link_of, delete_linked, unpost_doc, unpost_body,
}
use remote_order_server.BuyerReturn.Steps.{
  new_batches, new_links, profit_of, return_items-eq, restocked_all-eq, new-IsOfReturn,
  new_links-named,
}

-- Rows that a first WHERE clause does not find, and rows that a DELETE takes away.
select-deleted :
    {A : Type 0} (p g : A → Bool) (xs ys : List A)
    → select p xs ≡ []
    → All (λ y. g y ≡ true) ys
    → select p (delete_where g (xs ++ ys)) ≡ []
select-deleted p g xs ys h k =
    ap (select p) (
      select-append (λ x. not (g x)) xs ys
      ∙ ap (λ zs. delete_where g xs ++ zs)
          (select-none (λ y. not (g y)) ys (All-imp _ _ ys (λ y (e : g y ≡ true). rw e) k))
      ∙ append-nil (delete_where g xs))
    ∙ select-none p (delete_where g xs)
        (select-All _ (λ x. not (g x)) xs (All-false_of_select p xs h))

module _ (id : ℕ) (db : Db) where
  abbrev pub withdrawn : Db
  withdrawn = delete_batches (is_of_return id) db

  -- Where no link of the document is left, the fallback has nothing to delete.
  unpost_doc-batches :
      select (is_link_of id withdrawn) withdrawn.buyer_return_item_batches ≡ []
      → ((unpost_doc id db).0 ≡ ok tt) × ((unpost_doc id db).1.batches ≡ withdrawn.batches)
  unfolding unpost_doc delete_linked
  unpost_doc-batches e = rw e (refl, refl)

  -- Before a document is posted, no batch and no link names it.
  abbrev pub IsFresh : Type 0
  IsFresh =
      (select (is_of_return id) db.batches ≡ [])
      × (select (is_link_of id db) db.buyer_return_item_batches ≡ [])

abbrev pub items_of : ℕ → Db → List Item
items_of id db =
    order_by (λ a b. ltb a.sort_order b.sort_order)
      (select (λ i. i.doc_id == id) db.buyer_return_items)

module _ (env : Env) (id : ℕ) (db : Db) where
  -- The tables after `post` of a document that is found.
  abbrev pub finished : ReturnDoc → Db
  finished doc = record db {
    batches = db.batches ++ new_batches env id doc (items_of id db) db;
    buyer_return_item_batches =
        db.buyer_return_item_batches ++ new_links env id doc (items_of id db) db;
    generated = db.generated + length (items_of id db);
    buyer_returns =
        update_where (λ r. r.id == id)
          (λ r. record r {
            status = posted;
            profit = env.round_amount (profit_of env id doc (items_of id db) (pos 0) db);
          })
          db.buyer_returns;
  }

  return_cases :
      (find (λ r. r.id == id) db.buyer_returns ≡ none → post_body env id db ≡ (err not_found, db))
      × ((doc : ReturnDoc)
          → find (λ r. r.id == id) db.buyer_returns ≡ some doc
          → (is_posted doc.status ≡ true → post_body env id db ≡ (err already_posted, db))
            × (is_posted doc.status ≡ false → post_body env id db ≡ post_doc env id doc db))
  unfolding post_body
  return_cases = (λ f. ground arith, λ doc f. (λ d. ground arith, λ d. ground arith))

  post_doc-eq : (doc : ReturnDoc) → post_doc env id doc db ≡ (ok tt, finished doc)
  unfolding post_doc
  post_doc-eq doc = ground (
    arith,
    return_items-eq env id doc (items_of id db) (pos 0) db,
    restocked_all-eq env id doc (items_of id db) db,
  )

  module _ (doc : ReturnDoc) (fresh : IsFresh id db) where
    own_batches :
        (select (is_of_return id) (finished doc).batches
          ≡ new_batches env id doc (items_of id db) db)
        × (delete_where (is_of_return id) (finished doc).batches ≡ db.batches)
    own_batches =
        let bs : List ProductBatch = new_batches env id doc (items_of id db) db in
        let mine : All (λ b. is_of_return id b ≡ true) bs =
          new-IsOfReturn env id doc (items_of id db) db in
        (
          select-append (is_of_return id) db.batches bs
              ∙ ap₂ ◌++◌ fresh.0 (select_every (is_of_return id) bs mine),
          select-append (λ b. not (is_of_return id b)) db.batches bs
              ∙ ap₂ ◌++◌ (delete_where-none (is_of_return id) db.batches fresh.0) (
                  select-none (λ b. not (is_of_return id b)) bs
                    (All-imp _ _ bs (λ b (e : is_of_return id b ≡ true). rw e) mine))
              ∙ append-nil db.batches,
        )

    no_links :
        select
          (is_link_of id (withdrawn id (finished doc)))
          (withdrawn id (finished doc)).buyer_return_item_batches
        ≡ []
    unfolding delete_batches
    no_links = rw own_batches.0 (
        select-deleted (is_link_of id db) _ db.buyer_return_item_batches
          (new_links env id doc (items_of id db) db) fresh.1
          (new_links-named env id doc (items_of id db) db))

    unpost_finished :
        find (λ r. r.id == id) db.buyer_returns ≡ some doc
        → unpost_body id (finished doc) ≡ unpost_doc id (finished doc)
    unfolding unpost_body
    unpost_finished f =
        let found : find (λ r. r.id == id) (finished doc).buyer_returns
            ≡ some (record doc {
              status = posted;
              profit = env.round_amount (profit_of env id doc (items_of id db) (pos 0) db);
            }) =
          find-update_where (λ r. r.id == id) _ db.buyer_returns (λ r e. e) ∙ rw f in
        ground arith

-- A buyer return whose items no link names, and which no batch names, can be unposted at once after
-- it was posted, and the batches are those before the post.
pub restock-withdraw :
    (env : Env) (id : ℕ) (db : Db) {db' : Db}
    → IsFresh id db
    → post_body env id db ≡ (ok tt, db')
    → ((unpost_body id db').0 ≡ ok tt) × ((unpost_body id db').1.batches ≡ db.batches)
unfolding delete_batches
restock-withdraw env id db {db'} fresh h =
    elim (Option-cases (find (λ r. r.id == id) db.buyer_returns)) [
      | inl f ↦ absurd (thrown-ne-returned (post_body env id db) ((return_cases env id db).0 f) h)
      | inr (doc, f) ↦ elim (Bool-cases (is_posted doc.status)) [
        | inl d ↦
            absurd
              (thrown-ne-returned (post_body env id db) (((return_cases env id db).1 doc f).0 d) h)
        | inr d ↦
            let after : db' ≡ finished env id db doc =
              (returned-same (post_body env id db)
                (((return_cases env id db).1 doc f).1 d ∙ post_doc-eq env id db doc) h).1 in
            let (returns, batches) =
              unpost_doc-batches id (finished env id db doc) (no_links env id db doc fresh) in
            rw (after, unpost_finished env id db doc fresh f)
              (returns, batches ∙ (own_batches env id db doc fresh).1)
      ]
    ]
