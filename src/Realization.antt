-- ===== src/Realization.antt =====
-- services/realizationService.ts
pub mod Steps
pub mod Body
pub mod Restore
pub mod Balance
use remote_order_server.Common.{
  ℕ, Bool, true, false, not, Option, none, some, List, [], ◌∷◌, ◌++◌, ◌==◌, if◌then◌else◌, find,
  select, delete_where, update_where, Text, codes, trim, or_null,
}
use remote_order_server.Common.Int.{ℤ, pos, ◌+ℤ◌, ◌-ℤ◌, ◌*ℤ◌, ltb_ℤ}
use remote_order_server.Db.{
  Db, Env, Deduction, ItemBatch, Item, Realization, OrderStatus, accepted, completed, Status, draft,
  posted,
}
use remote_order_server.Tx.{
  Tx, Result, ok, err, pure, throw_if, gets, or_throw, modify, in_transaction, ◌>>=◌, ◌>>◌,
  not_found, already_posted, not_posted,
}
use remote_order_server.Inventory.{deduct_stock, return_stock, is_of_doc}

-- status === 'POSTED'
abbrev pub is_posted : Status → Bool
is_posted posted = true
is_posted _ = false

-- The inner loop of `post`: a row of "RealizationItemBatch" for each deduction, and its cost.
unfoldable pub record_deductions : ℕ → List Deduction → ℤ → Tx ℤ
record_deductions item_id [] cost = pure cost
record_deductions item_id (d ∷ ds) cost = do
  modify (λ db. record db {
    realization_item_batches =
        db.realization_item_batches ++ record { item_id = item_id; deduction = d } ∷ [];
  })
  record_deductions item_id ds (cost +ℤ d.quantity *ℤ d.enter_price)

-- The loop over the items, with the total cost so far.
unfoldable pub post_items : Option ℕ → List Item → ℤ → Tx ℤ
post_items warehouse_id [] cost = pure cost
post_items warehouse_id (item ∷ items) cost = do
  deductions ← deduct_stock item.product_id item.quantity warehouse_id
  cost' ← record_deductions item.id deductions cost
  post_items warehouse_id items cost'

warning : Text
warning = codes "[WARNING: Negative Profit]"

spaced : Option Text → Text
spaced none = []
spaced (some []) = []
spaced (some (c ∷ t)) = (c ∷ t) ++ codes " "

-- The comment that `post` writes.
unfoldable pub status_comment : Option Text → ℤ → Option Text
unfolding warning spaced
status_comment comment profit =
    or_null (trim (if ltb_ℤ profit (pos 0) then spaced comment ++ warning else spaced comment))

unfoldable pub set_order_status : Option ℕ → OrderStatus → Tx (Unit {0})
set_order_status none s = pure tt
set_order_status (some order_id) s = modify (λ db. record db {
  orders = update_where (λ o. o.id == order_id) (λ o. record o { status = s }) db.orders;
})

-- An amount in hundred-thousandths.
abbrev pub scaled : ℤ → ℤ
scaled amount = amount *ℤ pos 1000

-- The updates of the document and of its order; the profit is in hundred-thousandths.
unfoldable pub post_totals : Env → ℕ → Realization → ℤ → Tx ℤ
post_totals env id doc cost = do
  let profit = scaled doc.amount -ℤ cost
  modify (λ db. record db {
    realizations =
        update_where (λ r. r.id == id)
          (λ r. record r {
            status = posted;
            profit = env.round_amount profit;
            comment = status_comment doc.comment profit;
          })
          db.realizations;
  })
  set_order_status doc.order_id completed
  pure profit

unfoldable pub post_doc : Env → ℕ → Realization → Tx ℤ
post_doc env id doc = do
  items ← gets (λ db. select (λ i. i.doc_id == id) db.realization_items)
  cost ← post_items doc.warehouse_id items (pos 0)
  post_totals env id doc cost

-- The body of `post`.
unfoldable pub post_body : Env → ℕ → Tx ℤ
post_body env id = do
  doc ← λ db. or_throw (find (λ r. r.id == id) db.realizations) not_found db
  throw_if (is_posted doc.status) already_posted
  post_doc env id doc

unfoldable pub post : Env → ℕ → Bool → Tx ℤ
post env id tx_client = in_transaction tx_client (post_body env id)

unfoldable pub unpost_doc : ℕ → Realization → Tx (Unit {0})
unpost_doc id doc = do
  return_stock id
  modify (λ db. record db {
    realization_item_batches =
        delete_where (is_of_doc db.realization_items id) db.realization_item_batches;
  })
  modify (λ db. record db {
    realizations =
        update_where (λ r. r.id == id) (λ r. record r { status = draft; profit = pos 0 })
          db.realizations;
  })
  set_order_status doc.order_id accepted

-- The body of `unpost`.
unfoldable pub unpost_body : ℕ → Tx (Unit {0})
unpost_body id = do
  doc ← λ db. or_throw (find (λ r. r.id == id) db.realizations) not_found db
  throw_if (not (is_posted doc.status)) not_posted
  unpost_doc id doc

unfoldable pub unpost : ℕ → Bool → Tx (Unit {0})
unpost id tx_client = in_transaction tx_client (unpost_body id)
