-- ===== src/Realization/Restore.antt =====
-- `unpost` after `post`.
use remote_order_server.Common.{
  ℕ, ◌≡◌, refl, ap, ◌∙◌, Bool, true, Option, some, List, [], map, arith, All, ◌==◌, find, select,
  delete_where, update_where, find-update_where,
}
use remote_order_server.Common.Int.{ℤ, pos, ◌-ℤ◌}
use remote_order_server.Db.{Db, Realization, Env, ItemBatch, accepted, draft}
use remote_order_server.Tx.{Result, ok}
use remote_order_server.Inventory.{is_of_doc, return_loop, return_stock}
use remote_order_server.Inventory.Owned.{
  IsItemOf, items_of-owned, own_links, other_links, return_loop-less_used,
}
use remote_order_server.Inventory.Links.{less_used}
use remote_order_server.Realization.{is_posted, scaled, post_body, unpost_body, unpost_doc}
use remote_order_server.Realization.Steps.{Posted, post_items-Posted, with_links}
use remote_order_server.Realization.Body.{
  post_body-ok, items_of, orders_after, set_order_status-eq, finished, posted_row,
}

module _ (id : ℕ) (db : Db) where
  -- Before a document is posted, no link names an item of it.
  abbrev pub HasNoLinks : Type 0
  HasNoLinks = select (is_of_doc db.realization_items id) db.realization_item_batches ≡ []

-- The tables after `unpost` of a document that is found.
abbrev pub undone : ℕ → Option ℕ → Db → Db
undone id order_id db =
    let p : ItemBatch → Bool = is_of_doc db.realization_items id in
    record db {
      batches = return_loop (select p db.realization_item_batches) db.batches;
      realization_item_batches = delete_where p db.realization_item_batches;
      realizations =
          update_where (λ r. r.id == id) (λ r. record r { status = draft; profit = pos 0 })
            db.realizations;
      orders = orders_after order_id accepted db.orders;
    }

pub unpost_doc-eq :
    (id : ℕ) (doc : Realization) (db : Db)
    → unpost_doc id doc db ≡ (ok tt, undone id doc.order_id db)
unfolding unpost_doc return_stock
unpost_doc-eq id doc db = set_order_status-eq doc.order_id accepted _

pub unpost_body-found :
    (id : ℕ) (doc : Realization) (db : Db)
    → find (λ r. r.id == id) db.realizations ≡ some doc
    → is_posted doc.status ≡ true
    → unpost_body id db ≡ unpost_doc id doc db
unfolding unpost_body
unpost_body-found id doc db f d = ground arith

module _ (env : Env) (id : ℕ) (db : Db) (doc : Realization) (cost : ℤ) (ls : List ItemBatch)
    (f : find (λ r. r.id == id) db.realizations ≡ some doc) (fresh : HasNoLinks id db)
    (owned : All (λ l. IsItemOf db.realization_items id l.item_id) ls) where
  abbrev after_post : Db
  after_post = finished env id doc cost (with_links ls db)

  unpost_posted : unpost_body id after_post ≡ (ok tt, undone id doc.order_id after_post)
  unpost_posted =
      let row : Realization = posted_row env doc.comment (scaled doc.amount -ℤ cost) doc in
      unpost_body-found id row after_post
        (find-update_where (λ r. r.id == id) _ db.realizations (λ r e. e) ∙ rw f) refl
      ∙ unpost_doc-eq id row after_post

  unpost_batches : (unpost_body id after_post).1.batches ≡ db.batches
  unpost_batches =
      ap (λ (r : Result (Unit {0}) × Db). r.1.batches) unpost_posted
      ∙ ap (λ (ks : List ItemBatch). return_loop ks (map (less_used ls) db.batches))
          (own_links db.realization_items id db.realization_item_batches ls fresh owned)
      ∙ return_loop-less_used ls db.batches

  unpost_links :
      (unpost_body id after_post).1.realization_item_batches ≡ db.realization_item_batches
  unpost_links =
      ap (λ (r : Result (Unit {0}) × Db). r.1.realization_item_batches) unpost_posted
      ∙ other_links db.realization_items id db.realization_item_batches ls fresh owned

-- A document that was posted while no link named its items can be unposted at once, and this gives
-- back every batch and leaves the link table as they were before the post.
pub post-unpost :
    (env : Env) (id : ℕ) (db : Db) {profit : ℤ} {db' : Db}
    → HasNoLinks id db
    → post_body env id db ≡ (ok profit, db')
    → ((unpost_body id db').0 ≡ ok tt)
      × ((unpost_body id db').1.batches ≡ db.batches)
      × ((unpost_body id db').1.realization_item_batches ≡ db.realization_item_batches)
post-unpost env id db {profit} {db'} fresh h =
    let done = post_body-ok env id db h in
    let posted : Posted (IsItemOf db.realization_items id) (items_of id db) (pos 0) db done.cost
        done.mid =
      post_items-Posted (IsItemOf db.realization_items id) done.doc.warehouse_id (items_of id db)
        (pos 0) db (items_of-owned id db.realization_items) done.items in
    let after : db' ≡ finished env id done.doc done.cost (with_links posted.links db) =
      done.tables ∙ ap (finished env id done.doc done.cost) posted.tables in
    rw after (
      ap (λ (r : Result (Unit {0}) × Db). r.0)
          (unpost_posted env id db done.doc done.cost posted.links done.found fresh posted.owned),
      unpost_batches env id db done.doc done.cost posted.links done.found fresh posted.owned,
      unpost_links env id db done.doc done.cost posted.links done.found fresh posted.owned,
    )
