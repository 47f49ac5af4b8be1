-- ===== src/Reports/Reconciliation.antt =====
-- GET /reconciliation: what the counterparties owe, document by document.
-- A group is resolved to the ids of its counterparties.
pub mod Owed
pub mod Closing
pub mod Balances
use remote_order_server.Common.{
  ℕ, Bool, true, false, not, ◌&&◌, Option, none, some, List, [], ◌∷◌, ◌++◌, map, if◌then◌else◌,
  select, exists_where, update_where, order_by, opt_eq, ltb, same_opt, grouped_by, group_sum,
}
use remote_order_server.Common.Int.{ℤ, pos, ◌+ℤ◌, ◌-ℤ◌}
use remote_order_server.Db.{
  Db, CashTransaction, GoodsReceipt, Item, Realization, ReturnDoc, CashType, income, outcome,
  other_type,
}
use remote_order_server.Counterparties.{parties_of}
use remote_order_server.Realization.{is_posted}
use remote_order_server.Finance.{receipt_amount}
use remote_order_server.Reports.{in_period, midnight}

pub data Kind : Type 0 where
  sale buyer_return receipt supplier_return : Kind
  cash : CashType → Kind

-- A row of the two unions, of which the second has more columns.
pub record Posting : Type 0 where
  pub doc_id : ℕ
  pub date : ℕ
  pub kind : Kind
  pub party : Option ℕ
  pub amount : ℤ

-- The columns that the unions take from each table.
abbrev pub of_sale : Realization → Posting
of_sale r = record {
  doc_id = r.id;
  date = r.date;
  kind = sale;
  party = r.counterparty_id;
  amount = r.amount;
}

abbrev pub of_return : Kind → ReturnDoc → Posting
of_return k r = record {
  doc_id = r.id;
  date = r.date;
  kind = k;
  party = r.party_id;
  amount = r.total_amount;
}

abbrev pub of_receipt : List Item → GoodsReceipt → Posting
of_receipt items r = record {
  doc_id = r.id;
  date = r.date;
  kind = receipt;
  party = r.provider_id;
  amount = receipt_amount items r.id;
}

abbrev pub of_cash : CashTransaction → Posting
of_cash t = record {
  doc_id = t.id;
  date = t.date;
  kind = cash t.cash_type;
  party = t.counterparty_id;
  amount = t.amount;
}

-- The tables of the unions: documents that are posted, and transactions that are not deleted.
unfoldable pub postings : Db → List Posting
postings db =
    map of_sale (select (λ r. is_posted r.status) db.realizations)
    ++ (map (of_return buyer_return) (select (λ r. is_posted r.status) db.buyer_returns)
        ++ (map (of_receipt db.goods_receipt_items)
              (select (λ r. is_posted r.status) db.goods_receipts)
            ++ (map (of_return supplier_return)
                  (select (λ r. is_posted r.status) db.supplier_returns)
                ++ map of_cash (select (λ t. not t.is_deleted) db.cash_transactions))))

-- What a row adds to "startBal": a CASE for each type that is named.
unfoldable pub start_weight : Kind → ℤ → ℤ
start_weight sale n = n
start_weight buyer_return n = pos 0 -ℤ n
start_weight receipt n = pos 0 -ℤ n
start_weight supplier_return n = n
start_weight (cash income) n = pos 0 -ℤ n
start_weight (cash outcome) n = n
start_weight (cash other_type) n = pos 0

-- "balanceChange": the CASE of transactions has an ELSE.
unfoldable pub change : Kind → ℤ → ℤ
change sale n = n
change buyer_return n = pos 0 -ℤ n
change receipt n = pos 0 -ℤ n
change supplier_return n = n
change (cash income) n = pos 0 -ℤ n
change (cash _) n = n

unfoldable pub debit : Kind → ℤ → ℤ
debit sale n = n
debit supplier_return n = n
debit (cash outcome) n = n
debit _ n = pos 0

unfoldable pub credit : Kind → ℤ → ℤ
credit buyer_return n = n
credit receipt n = n
credit (cash income) n = n
credit _ n = pos 0

-- "counterpartyId" = ANY(ids); one counterparty is a list of one.
abbrev pub is_of : List ℕ → Option ℕ → Bool
is_of ids party = exists_where (λ i. opt_eq party (some i)) ids

-- The query for the opening balances, made if dateFrom is given.
unfoldable pub start_balances : List ℕ → Option ℕ → Db → List (Option ℕ × ℤ)
start_balances ids none db = []
start_balances ids (some day) db =
    grouped_by (λ x. x.party) (λ x. start_weight x.kind x.amount)
      (select (λ x. is_of ids x.party && ltb x.date (midnight day)) (postings db))

-- The query for the ledger.
unfoldable pub ledger_rows : List ℕ → Option ℕ → Option ℕ → Db → List Posting
ledger_rows ids from to db =
    order_by (λ a b. ltb a.date b.date)
      (select (λ x. is_of ids x.party && in_period from to x.date) (postings db))

-- A value of `groupedLedger`.
pub record Account : Type 0 where
  pub party : Option ℕ
  pub start : ℤ
  pub closing : ℤ
  pub ledger : List (Posting × ℤ)

abbrev pub has_key : Option ℕ → List (Option ℕ) → Bool
has_key k = exists_where (λ j. same_opt j k)

-- The set `counterpartyIds`.
unfoldable pub add_key : Option ℕ → List (Option ℕ) → List (Option ℕ)
add_key k keys = if has_key k keys then keys else keys ++ k ∷ []

unfoldable pub add_keys : List (Option ℕ) → List (Option ℕ) → List (Option ℕ)
add_keys [] keys = keys
add_keys (k ∷ ks) keys = add_keys ks (add_key k keys)

unfoldable pub open_account : List (Option ℕ × ℤ) → Option ℕ → Account
open_account starts k = record {
  party = k;
  start = group_sum same_opt k starts;
  closing = group_sum same_opt k starts;
  ledger = [];
}

-- One round of the loop over the rows.
unfoldable pub enter : Posting → List Account → List Account
enter x =
    update_where (λ a. same_opt a.party x.party)
      (λ a. record a {
        closing = a.closing +ℤ change x.kind x.amount;
        ledger = a.ledger ++ (x, a.closing +ℤ change x.kind x.amount) ∷ [];
      })

unfoldable pub enter_all : List Posting → List Account → List Account
enter_all [] accounts = accounts
enter_all (x ∷ xs) accounts = enter_all xs (enter x accounts)

-- The accounts that the report shows, of the counterparties with the ids.
unfoldable pub reconcile : List ℕ → Option ℕ → Option ℕ → Db → List Account
reconcile ids from to db =
    let starts : List (Option ℕ × ℤ) = start_balances ids from db in
    let xs : List Posting = ledger_rows ids from to db in
    let keys : List (Option ℕ) =
      add_keys (map (λ x. x.party) xs) (add_keys (map (λ s. s.0) starts) []) in
    enter_all xs (map (open_account starts) keys)

-- The report of a group of counterparties, which is empty where the group is.
unfoldable pub reconcile_group : ℕ → Option ℕ → Option ℕ → Db → List Account
unfolding reconcile
reconcile_group g from to db = elim (parties_of db.counterparty_groups g db.counterparties) [
  | [] ↦ []
  | k ∷ ks ↦ reconcile (k ∷ ks) from to db
]
