-- ===== src/Reports/Reconciliation/Balances.antt =====
-- The report against what the counterparties owe.
use remote_order_server.Common.{
  ℕ, suc, ◌≡◌, refl, ap₂, ◌∙◌, Bool, true, Option, none, some, List, [], ◌∷◌, map, if◌then◌else◌,
  ◌&&◌, ltb, select, same_opt, same_opt-IsSame, group_sum, group_sum-grouped_by, sum_by,
  sum_by-select, sum_by-order_by, sum_by_congr, All, All-imp, All-map, All-append, select-All,
  Bool-cases, if_same, inl, inr, not,
}
use remote_order_server.Common.Int.{ℤ, pos, ◌+ℤ◌}
use remote_order_server.Db.{Db, CashType, income, outcome, other_type}
use remote_order_server.Reports.{in_period, midnight}
use remote_order_server.Reports.Periods.{Opens, opening, within, period_closes, all_of}
use remote_order_server.Realization.{is_posted}
use remote_order_server.Reports.Cashflow.{is_income, is_outcome}
use remote_order_server.Reports.Cashflow.Totals.{IsTyped}
use remote_order_server.Reports.Reconciliation.{
  Posting, cash, of_sale, of_return, of_receipt, of_cash, buyer_return, supplier_return, postings,
  start_weight, change, is_of, start_balances, ledger_rows, reconcile,
}
use remote_order_server.Reports.Reconciliation.Owed.{owes, owed, postings-owed}
use remote_order_server.Reports.Reconciliation.Closing.{closing_of, adds, reconcile-closing}

-- The two queries weigh a row alike.
abbrev SameWeight : Posting → Type 0
SameWeight x = start_weight x.kind x.amount ≡ change x.kind x.amount

cash-SameWeight :
    (k : CashType) (n : ℤ)
    → is_income k ≡ not (is_outcome k)
    → start_weight (cash k) n ≡ change (cash k) n
unfolding start_weight change
cash-SameWeight income n h = refl
cash-SameWeight outcome n h = refl
cash-SameWeight other_type n h = cc

rows-SameWeight :
    {A : Type 0} (row : A → Posting) (xs : List A)
    → ((a : A) → SameWeight (row a))
    → All SameWeight (map row xs)
rows-SameWeight row [] h = tt
rows-SameWeight row (x ∷ xs) h = (h x, rows-SameWeight row xs h)

postings-SameWeight : (db : Db) → All IsTyped db.cash_transactions → All SameWeight (postings db)
unfolding postings start_weight change
postings-SameWeight db h =
    let sales : List Posting = map of_sale (select (λ r. is_posted r.status) db.realizations) in
    let returned : List Posting =
      map (of_return buyer_return) (select (λ r. is_posted r.status) db.buyer_returns) in
    let supplied : List Posting =
      map (of_receipt db.goods_receipt_items)
        (select (λ r. is_posted r.status) db.goods_receipts) in
    let sent_back : List Posting =
      map (of_return supplier_return) (select (λ r. is_posted r.status) db.supplier_returns) in
    let moved : List Posting = map of_cash (select (λ t. not t.is_deleted) db.cash_transactions) in
    All-append SameWeight sales _ (rows-SameWeight of_sale _ (λ r. refl)) (
      All-append SameWeight returned _ (rows-SameWeight (of_return buyer_return) _ (λ r. refl)) (
        All-append SameWeight supplied _
          (rows-SameWeight (of_receipt db.goods_receipt_items) _ (λ r. refl))
          (All-append SameWeight sent_back moved
            (rows-SameWeight (of_return supplier_return) _ (λ r. refl))
            (All-map SameWeight of_cash (select (λ t. not t.is_deleted) db.cash_transactions) (
              select-All (λ t. SameWeight (of_cash t)) (λ t. not t.is_deleted) db.cash_transactions
                (All-imp IsTyped _ db.cash_transactions
                  (λ t (k : IsTyped t). cash-SameWeight t.cash_type t.amount k) h))))))

-- A filter on the ids keeps the rows of one of them.
of_ids :
    (ids : List ℕ) (party : Option ℕ) (p : ℕ) (c : Bool) (n m : ℤ)
    → is_of ids (some p) ≡ true
    → n ≡ m
    → (if is_of ids party && c then (if same_opt party (some p) then n else pos 0) else pos 0)
      ≡ (if c then (if same_opt party (some p) then m else pos 0) else pos 0)
of_ids ids party p c n m h e = elim (Bool-cases (same_opt party (some p))) [
  | inl f ↦
      let kept : is_of ids party ≡ true = rw (same_opt-IsSame.0 party (some p) f) h in
      rw (kept, f, e)
  | inr f ↦ rw (f, if_same, if_same)
]

module _ (ids : List ℕ) (p : ℕ) (db : Db) (h : is_of ids (some p) ≡ true) where
  start_balances-opening :
      (from : Option ℕ)
      → All IsTyped db.cash_transactions
      → group_sum same_opt (some p) (start_balances ids from db)
        ≡ opening (owes p) (λ x. x.date) from (postings db)
  unfolding start_balances group_sum
  start_balances-opening none t = refl
  start_balances-opening (some day) t =
      group_sum-grouped_by _ _ (some p) _
      ∙ sum_by-select _ _ (postings db)
      ∙ sum_by_congr _ _ (postings db) (
          All-imp _ _ (postings db)
            (λ x (e : SameWeight x). of_ids ids x.party p (ltb x.date (midnight day)) _ _ h e)
            (postings-SameWeight db t))

  ledger_rows-within :
      (from to : Option ℕ)
      → sum_by (adds (some p)) (ledger_rows ids from to db)
        ≡ within (owes p) (λ x. x.date) from to (postings db)
  unfolding ledger_rows
  ledger_rows-within from to =
      sum_by-order_by _ _ _
      ∙ sum_by-select _ _ (postings db)
      ∙ sum_by_congr _ _ (postings db)
          (all_of _ (postings db) (λ x. of_ids ids x.party p (in_period from to x.date) _ _ h refl))

  -- The closing balance of a counterparty in the reconciliation report, of the counterparty alone or
  -- with the others of a group, is what the counterparty owes by all documents and transactions until
  -- the last day, whatever the first day, if each transaction is an income or an outcome, and the
  -- period does not end before it begins.
  pub reconcile-owed :
      (from : Option ℕ) (day : ℕ)
      → Opens from day
      → All IsTyped db.cash_transactions
      → closing_of (some p) (reconcile ids from (some day) db) ≡ owed db p (midnight (suc day))
  reconcile-owed from day o t =
      reconcile-closing (some p) ids from (some day) db
      ∙ ap₂ ◌+ℤ◌ (start_balances-opening from t) (ledger_rows-within from (some day))
      ∙ period_closes (owes p) (λ x. x.date) from day (postings db) o
      ∙ postings-owed db p (midnight (suc day))
