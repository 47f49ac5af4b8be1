-- ===== src/GoodsReceipt/Restore.antt =====
-- `unpost` of a goods receipt: it takes back what `post` added, and refuses once goods were sold.
use remote_order_server.Common.{
  ℕ, suc, ◌≡◌, refl, ap, ap₂, ◌∙◌, true, false, not, none, some, List, [], ◌∷◌, ◌++◌, arith, All,
  All-append, All-imp, ◌==◌, ==_refl, find, select, delete_where, update_where, exists_where,
  Bool-cases, inl, inr, Option-cases, find-update_where, select-append, select-none,
  delete_where-none, All-false_of_select, exists-none,
}
use mathlib.Core.List.{append-nil}
use remote_order_server.Db.{Db, Env, Item, GoodsReceipt, ProductBatch, posted, saved}
use remote_order_server.Tx.{
  Result, ok, err, not_found, not_posted, already_sold, thrown-ne-returned, returned-same,
}
use remote_order_server.Documents.{delete_batches}
use remote_order_server.Realization.{is_posted}
use remote_order_server.GoodsReceipt.{post_body, unpost_body, is_of_receipt, is_sold, items_of}
use remote_order_server.GoodsReceipt.Steps.{new_batches, received, post_body_cases}

abbrev withdrawn : ℕ → Db → Db
withdrawn id db =
    let db₁ : Db = delete_batches (is_of_receipt id) db in
    record db₁ {
      goods_receipts =
          update_where (λ r. r.id == id) (λ r. record r { status = saved }) db₁.goods_receipts;
    }

-- The four ways in which `unpost` ends. It fails, with the tables unchanged, if the document is
-- missing, is not posted, or if a batch of it has less left than its total; otherwise it deletes
-- the batches of the document and sets the status SAVED.
unpost_body_cases :
    (id : ℕ) (db : Db)
    → (find (λ r. r.id == id) db.goods_receipts ≡ none → unpost_body id db ≡ (err not_found, db))
      × ((doc : GoodsReceipt)
          → find (λ r. r.id == id) db.goods_receipts ≡ some doc
          → (is_posted doc.status ≡ false → unpost_body id db ≡ (err not_posted, db))
            × (is_posted doc.status ≡ true
                → exists_where (is_sold id) db.batches ≡ true
                → unpost_body id db ≡ (err already_sold, db))
            × (is_posted doc.status ≡ true
                → exists_where (is_sold id) db.batches ≡ false
                → unpost_body id db ≡ (ok tt, withdrawn id db)))
unfolding unpost_body
unpost_body_cases id db =
    (λ f. ground arith, λ doc f. (λ d. ground arith, λ d s. ground arith, λ d s. ground arith))

module _ (env : Env) (id date : ℕ) where
  new-is_of_receipt :
      (n : ℕ) (items : List Item)
      → All (λ b. is_of_receipt id b ≡ true) (new_batches env id date n items)
  new-is_of_receipt n [] = tt
  new-is_of_receipt n (item ∷ items) = (==_refl id, new-is_of_receipt (suc n) items)

  new-unsold :
      (n : ℕ) (items : List Item)
      → All (λ b. is_sold id b ≡ false) (new_batches env id date n items)
  new-unsold n [] = tt
  new-unsold n (item ∷ items) = (ground arith, new-unsold (suc n) items)

-- Before a receipt is posted, no batch names it.
abbrev pub HasNoBatches : ℕ → Db → Type 0
HasNoBatches id db = select (is_of_receipt id) db.batches ≡ []

module _ (env : Env) (id : ℕ) (db : Db) (doc : GoodsReceipt) (fresh : HasNoBatches id db) where
  abbrev added : List ProductBatch
  added = new_batches env id doc.date db.generated (items_of id db)

  none_sold : exists_where (is_sold id) (db.batches ++ added) ≡ false
  none_sold = exists-none (is_sold id) (db.batches ++ added) (
      All-append _ db.batches added
        (All-imp _ _ db.batches (λ b (h : is_of_receipt id b ≡ false). rw h)
          (All-false_of_select (is_of_receipt id) db.batches fresh))
        (new-unsold env id doc.date db.generated (items_of id db)))

  batches_back : delete_where (is_of_receipt id) (db.batches ++ added) ≡ db.batches
  batches_back =
      select-append (λ b. not (is_of_receipt id b)) db.batches added
      ∙ ap₂ ◌++◌ (delete_where-none (is_of_receipt id) db.batches fresh) (
          select-none (λ b. not (is_of_receipt id b)) added
            (All-imp _ _ added (λ b (h : is_of_receipt id b ≡ true). rw h)
              (new-is_of_receipt env id doc.date db.generated (items_of id db))))
      ∙ append-nil db.batches

  unpost_received :
      find (λ r. r.id == id) db.goods_receipts ≡ some doc
      → unpost_body id (received env id doc db) ≡ (ok tt, withdrawn id (received env id doc db))
  unpost_received f =
      ((unpost_body_cases id (received env id doc db)).1 (record doc { status = posted })
          (find-update_where (λ r. r.id == id) _ db.goods_receipts (λ r e. e) ∙ rw f)).2
        refl none_sold

-- A receipt that no batch names, once posted, can be unposted at once, and the batches are those
-- before the post.
pub receive-withdraw :
    (env : Env) (id : ℕ) (db : Db) {db' : Db}
    → HasNoBatches id db
    → post_body env id db ≡ (ok tt, db')
    → ((unpost_body id db').0 ≡ ok tt) × ((unpost_body id db').1.batches ≡ db.batches)
unfolding delete_batches
receive-withdraw env id db {db'} fresh h =
    elim (Option-cases (find (λ r. r.id == id) db.goods_receipts)) [
      | inl f ↦
          absurd (thrown-ne-returned (post_body env id db) ((post_body_cases env id db).0 f) h)
      | inr (doc, f) ↦ elim (Bool-cases (is_posted doc.status)) [
        | inl d ↦
            absurd (
              thrown-ne-returned (post_body env id db) (((post_body_cases env id db).1 doc f).0 d)
                h)
        | inr d ↦
            let after : db' ≡ received env id doc db =
              (returned-same (post_body env id db) (((post_body_cases env id db).1 doc f).1 d)
                h).1 in
            let done = unpost_received env id db doc fresh f in
            rw after (
              ap (λ (r : Result (Unit {0}) × Db). r.0) done,
              ap (λ (r : Result (Unit {0}) × Db). r.1.batches) done
                  ∙ batches_back env id db doc fresh,
            )
      ]
    ]
