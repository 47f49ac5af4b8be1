-- ===== src/Reports/Cashflow/Totals.antt =====
-- The totals of the cash flow, and how the report of one period meets that of the next.
use remote_order_server.Common.{
  ℕ, suc, ◌≡◌, refl, sym, ap, ap₂, ◌∙◌, Bool, true, false, Option, none, some, List, [], ◌∷◌, ◌++◌,
  ◌==◌, ◌&&◌, not, if◌then◌else◌, exists_where, sum_by, sum_by-order_by, sum_by-select,
  sum_by_congr, sum_by_sub, sum_by-add_to_group, same_opt, All, All-imp, Bool-cases, inl, inr, ltb,
}
use mathlib.Core.List.{append-nil, append_assoc}
use remote_order_server.Common.Int.{ℤ, pos, +ℤ-zero, ◌+ℤ◌, ◌-ℤ◌, int_laws, parts_of_eq}
use remote_order_server.Db.{Db, CashTransaction, CashType, income, outcome, other_type}
use remote_order_server.Reports.{in_period, midnight}
use remote_order_server.Reports.Periods.{Opens, before, opening, period_closes}
use remote_order_server.Reports.Cashflow.{
  Flow, opened, is_income, is_outcome, is_counted, start_balance, rows, count, count_all, by_amount,
  cashflow,
}

-- What a transaction adds to the money.
abbrev pub net : CashTransaction → ℤ
net t = if is_income t.cash_type then t.amount else pos 0 -ℤ t.amount

-- The rows of a ledger with the balances after them.
abbrev pub running_from : ℤ → List CashTransaction → List (CashTransaction × ℤ)
running_from n [] = []
running_from n (t ∷ ts) = (t, n +ℤ net t) ∷ running_from (n +ℤ net t) ts

-- What the loop has done.
pub record Counted (f : Flow) (ts : List CashTransaction) (g : Flow) : Type 0 where
  pub closing : g.running ≡ f.running +ℤ sum_by net ts
  pub moved :
      g.running +ℤ f.total_income -ℤ f.total_outcome
      ≡ f.running +ℤ g.total_income -ℤ g.total_outcome
  pub by_income :
      sum_by (λ c. c.1) g.incomes +ℤ f.total_income ≡ sum_by (λ c. c.1) f.incomes +ℤ g.total_income
  pub by_outcome :
      sum_by (λ c. c.1) g.outcomes +ℤ f.total_outcome
      ≡ sum_by (λ c. c.1) f.outcomes +ℤ g.total_outcome
  pub rows_of : g.ledger ≡ f.ledger ++ running_from f.running ts

plus_minus : (a b : ℤ) → a +ℤ (pos 0 -ℤ b) ≡ a -ℤ b
plus_minus a b = omega int_laws

count-Counted : (t : CashTransaction) (f : Flow) → Counted f (t ∷ []) (count t f)
unfolding count
count-Counted t f = elim (Bool-cases (is_income t.cash_type)) [
  | inl e ↦
      let n : net t ≡ t.amount = rw e in
      rw e (record {
        closing = omega (int_laws, parts_of_eq n);
        moved = omega int_laws;
        by_income =
            omega (
              int_laws,
              parts_of_eq (sum_by-add_to_group same_opt t.category_id t.amount f.incomes),
            );
        by_outcome = refl;
        rows_of = rw n refl;
      })
  | inr e ↦
      let n : net t ≡ pos 0 -ℤ t.amount = rw e in
      rw e (record {
        closing = omega (int_laws, parts_of_eq n);
        moved = omega int_laws;
        by_income = refl;
        by_outcome = omega (
          int_laws,
          parts_of_eq (sum_by-add_to_group same_opt t.category_id t.amount f.outcomes),
        );
        rows_of = rw (n, plus_minus) refl;
      })
]

count_all-Counted : (ts : List CashTransaction) (f : Flow) → Counted f ts (count_all ts f)
unfolding count_all
count_all-Counted [] f = record {
  closing = omega int_laws;
  moved = refl;
  by_income = refl;
  by_outcome = refl;
  rows_of = sym (append-nil f.ledger);
}
count_all-Counted (t ∷ ts) f =
    let one = count-Counted t f in
    let rest = count_all-Counted ts (count t f) in
    let step : (count t f).running ≡ f.running +ℤ net t =
      one.closing ∙ ap (λ n. f.running +ℤ n) (+ℤ-zero (net t)) in
    record {
      closing = omega (int_laws, parts_of_eq one.closing, parts_of_eq rest.closing);
      moved = omega (int_laws, parts_of_eq one.moved, parts_of_eq rest.moved);
      by_income = omega (int_laws, parts_of_eq one.by_income, parts_of_eq rest.by_income);
      by_outcome = omega (int_laws, parts_of_eq one.by_outcome, parts_of_eq rest.by_outcome);
      rows_of = rest.rows_of ∙ rw (one.rows_of, step) (append_assoc f.ledger _ _);
    }

module _ (cashbox from to : Option ℕ) (db : Db) where
  abbrev report : ℤ × Flow
  report = cashflow cashbox from to db

  -- The closing balance of GET /cashflow is the opening one and the income less the outcome; the
  -- categories make up the two totals; and every row stands with the balance after it.
  cashflow-adds_up :
      (report.1.running ≡ report.0 +ℤ report.1.total_income -ℤ report.1.total_outcome)
      × (sum_by (λ c. c.1) report.1.incomes ≡ report.1.total_income)
      × (sum_by (λ c. c.1) report.1.outcomes ≡ report.1.total_outcome)
      × (report.1.ledger ≡ running_from report.0 (rows cashbox from to db))
  unfolding cashflow by_amount
  cashflow-adds_up =
      let c =
        count_all-Counted (rows cashbox from to db) (opened (start_balance cashbox from db)) in
      (
        omega (int_laws, parts_of_eq c.moved),
        omega (
          int_laws,
          parts_of_eq c.by_income,
          parts_of_eq (sum_by-order_by (λ (g : Option ℕ × ℤ). g.1) _ _),
        ),
        omega (
          int_laws,
          parts_of_eq c.by_outcome,
          parts_of_eq (sum_by-order_by (λ (g : Option ℕ × ℤ). g.1) _ _),
        ),
        c.rows_of,
      )

-- The type of a transaction is INCOME or OUTCOME.
abbrev pub IsTyped : CashTransaction → Type 0
IsTyped t = is_income t.cash_type ≡ not (is_outcome t.cash_type)

-- "cashboxId" is a foreign key.
abbrev pub HasCashbox : Db → CashTransaction → Type 0
HasCashbox db t = exists_where (λ c. c == t.cashbox_id) db.cashboxes ≡ true

-- The money that the transactions before a moment leave.
abbrev pub money_before : Option ℕ → ℕ → Db → ℤ
money_before cashbox moment db =
    before (λ t. if is_counted cashbox t then net t else pos 0) (λ t. t.date) moment
      db.cash_transactions

net_split :
    (k : CashType) (a : ℤ)
    → is_income k ≡ not (is_outcome k)
    → (if is_income k then a else pos 0) -ℤ (if is_outcome k then a else pos 0)
      ≡ (if is_income k then a else pos 0 -ℤ a)
net_split income a h = omega int_laws
net_split outcome a h = refl
net_split other_type a h = cc

if_sub :
    (c : Bool) (a b : ℤ)
    → (if c then a else pos 0) -ℤ (if c then b else pos 0) ≡ (if c then a -ℤ b else pos 0)
if_sub true a b = refl
if_sub false a b = omega int_laws

and_if :
    (c d : Bool) (n : ℤ)
    → (if c && d then n else pos 0) ≡ (if d then (if c then n else pos 0) else pos 0)
and_if true d n = refl
and_if false true n = refl
and_if false false n = refl

start_balance-money :
    (cashbox : Option ℕ) (day : ℕ) (db : Db)
    → All IsTyped db.cash_transactions
    → start_balance cashbox (some day) db ≡ money_before cashbox (midnight day) db
unfolding start_balance
start_balance-money cashbox day db h =
    ap₂ ◌-ℤ◌ (sum_by-select _ _ db.cash_transactions) (sum_by-select _ _ db.cash_transactions)
    ∙ sym (sum_by_sub _ _ db.cash_transactions)
    ∙ sum_by_congr _ _ db.cash_transactions (
        All-imp _ _ db.cash_transactions
          (λ t (k : IsTyped t).
            if_sub (is_counted cashbox t && ltb t.date (midnight day)) _ _
            ∙ and_if (is_counted cashbox t) (ltb t.date (midnight day)) _
            ∙ rw (net_split t.cash_type t.amount k) refl)
          h)

start_balance-opening :
    (cashbox from : Option ℕ) (db : Db)
    → All IsTyped db.cash_transactions
    → start_balance cashbox from db
      ≡ opening
          (λ t. if is_counted cashbox t then net t else pos 0)
          (λ t. t.date)
          from
          db.cash_transactions
unfolding start_balance
start_balance-opening cashbox none db h = refl
start_balance-opening cashbox (some day) db h = start_balance-money cashbox day db h

closing-money :
    (cashbox from : Option ℕ) (day : ℕ) (db : Db)
    → Opens from day
    → All IsTyped db.cash_transactions
    → All (HasCashbox db) db.cash_transactions
    → (cashflow cashbox from (some day) db).1.running ≡ money_before cashbox (midnight (suc day)) db
unfolding cashflow rows
closing-money cashbox from day db o h k =
    let w : CashTransaction → ℤ = λ t. if is_counted cashbox t then net t else pos 0 in
    let c =
      count_all-Counted (rows cashbox from (some day) db)
        (opened (start_balance cashbox from db)) in
    c.closing
    ∙ ap₂ ◌+ℤ◌ (start_balance-opening cashbox from db h) (
        sum_by-order_by net _ _
        ∙ sum_by-select net _ db.cash_transactions
        ∙ sum_by_congr _ _ db.cash_transactions (
            All-imp _ _ db.cash_transactions
              (λ t (e : HasCashbox db t).
                rw e (and_if (is_counted cashbox t) (in_period from (some day) t.date) (net t)))
              k))
    ∙ period_closes w (λ t. t.date) from day db.cash_transactions o

-- The closing balance of a period is the opening balance of a period that begins on the next day,
-- and is what all transactions until then leave, if each is an income or an outcome of a cashbox
-- that is there, and the period does not end before it begins.
pub cashflow-next :
    (cashbox from to : Option ℕ) (day : ℕ) (db : Db)
    → Opens from day
    → All IsTyped db.cash_transactions
    → All (HasCashbox db) db.cash_transactions
    → ((cashflow cashbox from (some day) db).1.running
        ≡ (cashflow cashbox (some (suc day)) to db).0)
      × ((cashflow cashbox (some (suc day)) to db).0 ≡ money_before cashbox (midnight (suc day)) db)
unfolding cashflow
cashflow-next cashbox from to day db o h k =
    let opening = start_balance-money cashbox (suc day) db h in
    (closing-money cashbox from day db o h k ∙ sym opening, opening)
