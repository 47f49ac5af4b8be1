-- ===== src/Reports/Cashflow.antt =====
-- GET /cashflow. An amount is a number; the names of cashboxes, categories and counterparties are
-- left out.
pub mod Totals
use remote_order_server.Common.{
  ℕ, Bool, true, false, not, ◌&&◌, Option, none, some, List, [], ◌∷◌, ◌++◌, ◌==◌, if◌then◌else◌,
  select, exists_where, order_by, ltb, sum_by, add_to_group, same_opt,
}
use remote_order_server.Common.Int.{ℤ, pos, ◌+ℤ◌, ◌-ℤ◌, ltb_ℤ}
use remote_order_server.Db.{Db, CashTransaction, CashType, income, outcome}
use remote_order_server.Reports.{in_period, is_given, midnight}

abbrev pub is_income : CashType → Bool
is_income income = true
is_income _ = false

abbrev pub is_outcome : CashType → Bool
is_outcome outcome = true
is_outcome _ = false

-- What the loop over the rows carries.
pub record Flow : Type 0 where
  pub running : ℤ
  pub total_income : ℤ
  pub total_outcome : ℤ
  pub incomes : List (Option ℕ × ℤ)
  pub outcomes : List (Option ℕ × ℤ)
  pub ledger : List (CashTransaction × ℤ)

abbrev pub is_counted : Option ℕ → CashTransaction → Bool
is_counted cashbox t = not t.is_deleted && is_given cashbox t.cashbox_id

-- The query for the opening balance.
unfoldable pub start_balance : Option ℕ → Option ℕ → Db → ℤ
start_balance cashbox none db = pos 0
start_balance cashbox (some day) db =
    let rows : List CashTransaction =
      select (λ t. is_counted cashbox t && ltb t.date (midnight day)) db.cash_transactions in
    sum_by (λ t. if is_income t.cash_type then t.amount else pos 0) rows
    -ℤ sum_by (λ t. if is_outcome t.cash_type then t.amount else pos 0) rows

-- The query for the ledger, with the join of the cashboxes.
unfoldable pub rows : Option ℕ → Option ℕ → Option ℕ → Db → List CashTransaction
rows cashbox from to db =
    order_by (λ a b. ltb a.date b.date)
      (select
        (λ t.
          exists_where (λ c. c == t.cashbox_id) db.cashboxes
          && is_counted cashbox t
          && in_period from to t.date)
        db.cash_transactions)

-- One round of the loop: every type but INCOME goes out; no category is a category of its own.
unfoldable pub count : CashTransaction → Flow → Flow
count t f =
    if is_income t.cash_type
    then record f {
      running = f.running +ℤ t.amount;
      total_income = f.total_income +ℤ t.amount;
      incomes = add_to_group same_opt t.category_id t.amount f.incomes;
      ledger = f.ledger ++ (t, f.running +ℤ t.amount) ∷ [];
    }
    else record f {
      running = f.running -ℤ t.amount;
      total_outcome = f.total_outcome +ℤ t.amount;
      outcomes = add_to_group same_opt t.category_id t.amount f.outcomes;
      ledger = f.ledger ++ (t, f.running -ℤ t.amount) ∷ [];
    }

unfoldable pub count_all : List CashTransaction → Flow → Flow
count_all [] f = f
count_all (t ∷ ts) f = count_all ts (count t f)

-- Object.values(…).sort((a, b) => b.amount - a.amount)
unfoldable pub by_amount : List (Option ℕ × ℤ) → List (Option ℕ × ℤ)
by_amount = order_by (λ a b. ltb_ℤ b.1 a.1)

-- Before the loop.
abbrev pub opened : ℤ → Flow
opened start = record {
  running = start;
  total_income = pos 0;
  total_outcome = pos 0;
  incomes = [];
  outcomes = [];
  ledger = [];
}

-- What GET /cashflow answers: the opening balance, and the flow, whose `running` is the closing one.
unfoldable pub cashflow : Option ℕ → Option ℕ → Option ℕ → Db → ℤ × Flow
cashflow cashbox from to db =
    let start : ℤ = start_balance cashbox from db in
    let f : Flow = count_all (rows cashbox from to db) (opened start) in
    (start, record f { incomes = by_amount f.incomes; outcomes = by_amount f.outcomes })
