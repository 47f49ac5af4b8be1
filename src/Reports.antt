-- ===== src/Reports.antt =====
-- routes/reports.ts: what the reports have in common. A date of a request is the number of a day,
-- and a moment is a number of milliseconds, both from the same midnight.
pub mod Periods
pub mod Cashflow
pub mod Reconciliation
pub mod Stock
pub mod Movement
pub mod Sales
pub mod Handlers
use remote_order_server.Common.{ℕ, suc, ◌*◌, Bool, true, ◌&&◌, Option, none, some, leb, ltb, ◌==◌}

-- $1::date
unfoldable pub midnight : ℕ → ℕ
midnight day = day * 86400000

-- date >= $1::date
unfoldable pub is_since : Option ℕ → ℕ → Bool
is_since none t = true
is_since (some day) t = leb (midnight day) t

-- date < $1::date + interval '1 day'
unfoldable pub is_until : Option ℕ → ℕ → Bool
is_until none t = true
is_until (some day) t = ltb t (midnight (suc day))

-- The filter on the dates, with the three cases of what is given.
unfoldable pub in_period : Option ℕ → Option ℕ → ℕ → Bool
unfolding is_since is_until
in_period from to t = is_since from t && is_until to t

-- A filter that is added where the parameter is given.
abbrev pub is_given : Option ℕ → ℕ → Bool
is_given none k = true
is_given (some j) k = k == j
