-- ===== src/Reports/Reconciliation/Owed.antt =====
-- What a counterparty owes, table by table, against the union that the report reads.
use remote_order_server.Common.{
  ℕ, ◌≡◌, refl, ap₂, ◌∙◌, Bool, true, false, not, ◌&&◌, Option, some, List, [], ◌∷◌, map,
  if◌then◌else◌, select, opt_eq, ltb, same_opt, same_opt-some, sum_by, sum_by-append, sum_by-map,
  sum_by-select, sum_by_congr, Bool-cases, inl, inr,
}
use remote_order_server.Common.Int.{ℤ, pos, ◌+ℤ◌, ◌-ℤ◌, int_laws, parts_of_eq}
use remote_order_server.Db.{Db, ReturnDoc, CashType, income, outcome, other_type}
use remote_order_server.Realization.{is_posted}
use remote_order_server.Finance.{receipt_amount}
use remote_order_server.Reports.Periods.{before, all_of}
use remote_order_server.Reports.Cashflow.{is_income}
use remote_order_server.Reports.Reconciliation.{
  Posting, of_sale, of_return, of_receipt, of_cash, buyer_return, supplier_return, cash, postings,
  change,
}

module _ {A : Type 0} (party : A → Option ℕ) (date : A → ℕ) (amount : A → ℤ)
    (counts : A → Bool) where
  -- The sum of a table for a counterparty, before a moment.
  abbrev pub table_sum : ℕ → ℕ → List A → ℤ
  table_sum p moment = sum_by (λ x.
      if counts x && opt_eq (party x) (some p) && ltb (date x) moment then amount x else pos 0)

-- The five sums: what was sold to the counterparty, returned to it and paid to it, less what it
-- returned, supplied and paid.
abbrev pub owed : Db → ℕ → ℕ → ℤ
owed db p moment =
    table_sum (λ r. r.counterparty_id) (λ r. r.date) (λ r. r.amount) (λ r. is_posted r.status) p
      moment db.realizations
    -ℤ table_sum (λ r. r.party_id) (λ r. r.date) (λ r. r.total_amount) (λ r. is_posted r.status) p
        moment db.buyer_returns
    -ℤ table_sum (λ r. r.provider_id) (λ r. r.date)
        (λ r. receipt_amount db.goods_receipt_items r.id) (λ r. is_posted r.status) p moment
        db.goods_receipts
    +ℤ table_sum (λ r. r.party_id) (λ r. r.date) (λ r. r.total_amount) (λ r. is_posted r.status) p
        moment db.supplier_returns
    +ℤ table_sum (λ t. t.counterparty_id) (λ t. t.date)
        (λ t. if is_income t.cash_type then pos 0 -ℤ t.amount else t.amount) (λ t. not t.is_deleted)
        p moment db.cash_transactions

-- The weight of a row for a counterparty.
abbrev pub owes : ℕ → Posting → ℤ
owes p x = if same_opt x.party (some p) then change x.kind x.amount else pos 0

three_ifs :
    (a b c : Bool) (n : ℤ)
    → (if a then (if c then (if b then n else pos 0) else pos 0) else pos 0)
      ≡ (if a && b && c then n else pos 0)
three_ifs false b c n = refl
three_ifs true false true n = refl
three_ifs true false false n = refl
three_ifs true true c n = refl

module _ {A : Type 0} (row : A → Posting) (counts : A → Bool) (p moment : ℕ) where
  -- A table of the union.
  segment :
      (xs : List A)
      → before (owes p) (λ x. x.date) moment (map row (select counts xs))
        ≡ table_sum
            (λ x. (row x).party)
            (λ x. (row x).date)
            (λ x. change (row x).kind (row x).amount)
            counts
            p
            moment
            xs
  segment xs =
      sum_by-map _ row (select counts xs)
      ∙ sum_by-select _ counts xs
      ∙ sum_by_congr _ _ xs (
          all_of _ xs (λ x.
            three_ifs (counts x) (same_opt (row x).party (some p)) (ltb (row x).date moment) _
            ∙ rw (same_opt-some (row x).party p) refl))

table_sum_minus :
    {A : Type 0} (party : A → Option ℕ) (date : A → ℕ) (amount : A → ℤ) (counts : A → Bool)
    (p moment : ℕ) (xs : List A)
    → table_sum party date (λ x. pos 0 -ℤ amount x) counts p moment xs
      ≡ pos 0 -ℤ table_sum party date amount counts p moment xs
table_sum_minus party date amount counts p moment [] = omega int_laws
table_sum_minus party date amount counts p moment (x ∷ xs) =
    elim (Bool-cases (counts x && opt_eq (party x) (some p) && ltb (date x) moment)) [
      | inl e ↦
          rw e
            (omega (int_laws, parts_of_eq (table_sum_minus party date amount counts p moment xs)))
      | inr e ↦
          rw e
            (omega (int_laws, parts_of_eq (table_sum_minus party date amount counts p moment xs)))
    ]

change-cash : (k : CashType) (n : ℤ) → change (cash k) n ≡ (if is_income k then pos 0 -ℤ n else n)
unfolding change
change-cash income n = refl
change-cash outcome n = refl
change-cash other_type n = refl

regroup : (a b c d e : ℤ) → a +ℤ (pos 0 -ℤ b +ℤ (pos 0 -ℤ c +ℤ (d +ℤ e))) ≡ a -ℤ b -ℤ c +ℤ d +ℤ e
regroup a b c d e = omega int_laws

-- The union names for a counterparty what the tables name.
pub postings-owed :
    (db : Db) (p moment : ℕ) → before (owes p) (λ x. x.date) moment (postings db) ≡ owed db p moment
unfolding postings change
postings-owed db p moment =
    let posted_doc : ReturnDoc → Bool = λ r. is_posted r.status in
    let sales = segment of_sale (λ r. is_posted r.status) p moment db.realizations in
    let returned =
      segment (of_return buyer_return) posted_doc p moment db.buyer_returns
      ∙ table_sum_minus (λ r. r.party_id) (λ r. r.date) (λ r. r.total_amount) posted_doc p moment
          db.buyer_returns in
    let supplied =
      segment (of_receipt db.goods_receipt_items) (λ r. is_posted r.status) p moment
        db.goods_receipts
      ∙ table_sum_minus (λ r. r.provider_id) (λ r. r.date)
          (λ r. receipt_amount db.goods_receipt_items r.id) (λ r. is_posted r.status) p moment
          db.goods_receipts in
    let sent_back = segment (of_return supplier_return) posted_doc p moment db.supplier_returns in
    let moved =
      segment of_cash (λ t. not t.is_deleted) p moment db.cash_transactions
      ∙ sum_by_congr _ _ db.cash_transactions
          (all_of _ db.cash_transactions (λ t. rw (change-cash t.cash_type t.amount) refl)) in
    sum_by-append _ (map of_sale _) _
    ∙ ap₂ ◌+ℤ◌ sales (
        sum_by-append _ (map (of_return buyer_return) _) _
        ∙ ap₂ ◌+ℤ◌ returned (
            sum_by-append _ (map (of_receipt db.goods_receipt_items) _) _
            ∙ ap₂ ◌+ℤ◌ supplied
                (sum_by-append _ (map (of_return supplier_return) _) _ ∙ ap₂ ◌+ℤ◌ sent_back moved)))
    ∙ regroup _ _ _ _ _
