-- ===== src/Finance.antt =====
-- routes/finance.ts: cash transactions and the allocation of payments to unpaid documents.
pub mod Shares
pub mod Payment
pub mod Paid
pub mod Revert
pub mod Rounded
use remote_order_server.Common.{
  Numbers, exact, ℕ, suc, Bool, true, false, not, ◌&&◌, Option, some, List, [], ◌∷◌, ◌++◌, map,
  ◌==◌, ltb, if◌then◌else◌, select, delete_where, update_where, order_by, opt_eq, get_or, Text,
  exists_where, sum_by,
}
use remote_order_server.Common.Int.{ℤ, pos, ◌+ℤ◌, ◌-ℤ◌, ltb_ℤ, leb_ℤ, min_ℤ}
use remote_order_server.Db.{
  Db, Env, CashTransaction, CashType, income, outcome, Allocation, DocumentType, realization,
  goods_receipt, Item,
}
use remote_order_server.Tx.{Tx, pure, throw_if, gets, modify, transaction, ◌>>=◌, ◌>>◌, not_found}
use remote_order_server.Realization.{is_posted}
use remote_order_server.DocNumber.{generate_doc_number}

-- A row of the queries for unpaid documents.
pub record Unpaid : Type 0 where
  pub id : ℕ
  pub amount : ℤ
  pub paid_amount : ℤ

-- COALESCE((SELECT SUM(total) FROM "GoodsReceiptItem" …), 0)
unfoldable pub receipt_amount : List Item → ℕ → ℤ
receipt_amount items id = sum_by (λ i. i.total) (select (λ i. i.doc_id == id) items)

unfoldable pub unpaid_realizations : ℕ → Db → List Unpaid
unpaid_realizations counterparty db =
    map (λ r. record { id = r.id; amount = r.amount; paid_amount = r.paid_amount })
      (order_by (λ a b. ltb a.date b.date)
        (select
          (λ r.
            opt_eq r.counterparty_id (some counterparty)
            && is_posted r.status
            && ltb_ℤ r.paid_amount r.amount)
          db.realizations))

unfoldable pub unpaid_receipts : ℕ → Db → List Unpaid
unfolding receipt_amount
unpaid_receipts counterparty db =
    map
      (λ r. record {
        id = r.id;
        amount = receipt_amount db.goods_receipt_items r.id;
        paid_amount = r.paid_amount;
      })
      (order_by (λ a b. ltb a.date b.date)
        (select
          (λ r.
            opt_eq r.provider_id (some counterparty)
            && is_posted r.status
            && ltb_ℤ r.paid_amount (receipt_amount db.goods_receipt_items r.id))
          db.goods_receipts))

-- UPDATE … SET "paidAmount" = "paidAmount" + change WHERE id = document_id
unfoldable pub pay : DocumentType → ℕ → ℤ → Db → Db
pay realization id change db = record db {
  realizations =
      update_where (λ r. r.id == id) (λ r. record r { paid_amount = r.paid_amount +ℤ change })
        db.realizations;
}
pay goods_receipt id change db = record db {
  goods_receipts =
      update_where (λ r. r.id == id) (λ r. record r { paid_amount = r.paid_amount +ℤ change })
        db.goods_receipts;
}

-- The INSERT of an allocation and the UPDATE of its document.
unfoldable pub allocate : ℕ → DocumentType → ℕ → ℤ → Db → Db
unfolding pay
allocate transaction_id kind document_id amount db =
    let a : Allocation = record {
      cash_transaction_id = transaction_id;
      document_id = document_id;
      document_type = kind;
      amount = amount;
    } in
    pay kind document_id amount (record db { allocations = db.allocations ++ a ∷ [] })

-- The FIFO loop over the unpaid documents, over numbers of JavaScript.
unfoldable pub allocate_loop_by : Numbers → ℕ → DocumentType → List Unpaid → ℤ → Db → Db
allocate_loop_by js transaction_id kind [] remaining db = db
allocate_loop_by js transaction_id kind (doc ∷ docs) remaining db =
    let doc_debt = js.minus (js.number doc.amount) (js.number doc.paid_amount) in
    let share = min_ℤ doc_debt remaining in
    let pays = ltb_ℤ (pos 0) share in
    let rest =
      allocate_loop_by js transaction_id kind docs
        (if pays then js.minus remaining share else remaining)
        (if pays then allocate transaction_id kind doc.id (js.column share) db else db) in
    if leb_ℤ remaining (pos 0) then db else rest

-- The loop on amounts on which the numbers compute exactly.
abbrev pub allocate_loop : ℕ → DocumentType → List Unpaid → ℤ → Db → Db
allocate_loop = allocate_loop_by exact

-- Step 4 of both handlers, over numbers of JavaScript.
unfoldable pub allocate_payment_by : Numbers → ℕ → CashType → Option ℕ → ℤ → Db → Db
allocate_payment_by js transaction_id income (some party) amount db =
    if ltb_ℤ (pos 0) amount
    then allocate_loop_by js transaction_id realization (unpaid_realizations party db) amount db
    else db
allocate_payment_by js transaction_id outcome (some party) amount db =
    if ltb_ℤ (pos 0) amount
    then allocate_loop_by js transaction_id goods_receipt (unpaid_receipts party db) amount db
    else db
allocate_payment_by js transaction_id _ _ amount db = db

-- Step 4 on amounts on which the numbers compute exactly.
abbrev pub allocate_payment : ℕ → CashType → Option ℕ → ℤ → Db → Db
allocate_payment = allocate_payment_by exact

-- The request's body.
pub record CashData : Type 0 where
  pub date : Option ℕ
  pub cash_type : CashType
  pub cashbox_id : ℕ
  pub amount : ℤ
  pub category_id : Option ℕ
  pub counterparty_id : Option ℕ
  pub comment : Option Text

abbrev pub new_transaction : Env → CashData → Option ℕ → Db → CashTransaction
new_transaction env d user db = record {
  id = env.uuid db.generated;
  number =
      generate_doc_number env (map (λ t. t.number) db.cash_transactions) (get_or d.date env.now);
  date = get_or d.date env.now;
  cash_type = d.cash_type;
  cashbox_id = d.cashbox_id;
  amount = d.amount;
  category_id = d.category_id;
  counterparty_id = d.counterparty_id;
  comment = d.comment;
  created_by = user;
  is_deleted = false;
}

-- POST /transactions
unfoldable pub create_body : Env → CashData → Option ℕ → Tx ℕ
create_body env d user = do
  found ← gets (λ db. exists_where (λ c. c == d.cashbox_id) db.cashboxes)
  throw_if (not found) not_found
  t ← gets (new_transaction env d user)
  modify (λ db. record db {
    cash_transactions = db.cash_transactions ++ t ∷ [];
    generated = suc db.generated;
  })
  modify (allocate_payment t.id d.cash_type d.counterparty_id d.amount)
  pure t.id

unfoldable pub create : Env → CashData → Option ℕ → Tx ℕ
create env d user = transaction (create_body env d user)

abbrev pub is_of_transaction : ℕ → Allocation → Bool
is_of_transaction id a = a.cash_transaction_id == id

-- The loop that takes allocations back from their documents: "paidAmount" - amount.
unfoldable pub revert_loop : List Allocation → Db → Db
unfolding pay
revert_loop [] db = db
revert_loop (a ∷ allocations) db =
    revert_loop allocations (pay a.document_type a.document_id (pos 0 -ℤ a.amount) db)

unfoldable pub revert : ℕ → Db → Db
unfolding revert_loop
revert id db =
    let reverted : Db = revert_loop (select (is_of_transaction id) db.allocations) db in
    record reverted { allocations = delete_where (is_of_transaction id) reverted.allocations }

-- PUT /transactions/:id
unfoldable pub update_body : Env → ℕ → CashData → Tx (Unit {0})
update_body env id d = do
  found ← gets (λ db. exists_where (λ t. t.id == id && not t.is_deleted) db.cash_transactions)
  throw_if (not found) not_found
  modify (revert id)
  modify (λ db. record db {
    cash_transactions =
        update_where (λ t. t.id == id)
          (λ t. record t {
            date = get_or d.date env.now;
            cash_type = d.cash_type;
            cashbox_id = d.cashbox_id;
            amount = d.amount;
            category_id = d.category_id;
            counterparty_id = d.counterparty_id;
            comment = d.comment;
          })
          db.cash_transactions;
  })
  modify (allocate_payment id d.cash_type d.counterparty_id d.amount)

unfoldable pub update : Env → ℕ → CashData → Tx (Unit {0})
update env id d = transaction (update_body env id d)

-- DELETE /transactions/:id
unfoldable pub delete_body : ℕ → Tx (Unit {0})
delete_body id = do
  modify (revert id)
  modify (λ db. record db {
    cash_transactions =
        update_where (λ t. t.id == id) (λ t. record t { is_deleted = true }) db.cash_transactions;
  })

unfoldable pub delete : ℕ → Tx (Unit {0})
delete id = transaction (delete_body id)
