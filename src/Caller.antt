-- ===== src/Caller.antt =====
-- What the handlers read of `req.user`, and the warehouse that they force on users other than
-- administrators (routes/realization.ts, routes/admin.ts and the controllers of documents).
use remote_order_server.Common.{
  ℕ, Bool, true, Option, none, some, Text, codes, text_eq, opt_eq, if◌then◌else◌,
}

pub record Caller : Type 0 where
  pub id : Option ℕ
  pub role : Text
  pub warehouse_id : Option ℕ

-- user && user.role !== 'admin' && user.warehouseId
abbrev pub own_warehouse : Option Caller → Option ℕ
own_warehouse none = none
own_warehouse (some u) = if text_eq u.role (codes "admin") then none else u.warehouse_id

-- The warehouse of a request after `warehouseId = user.warehouseId`.
abbrev pub forced_warehouse : Option Caller → Option ℕ → Option ℕ
forced_warehouse user w = elim (own_warehouse user) [ some own ↦ some own | none ↦ w ]

-- The condition that a query adds for a user of one warehouse.
abbrev pub may_see : Option Caller → Option ℕ → Bool
may_see user w = elim (own_warehouse user) [ some own ↦ opt_eq w (some own) | none ↦ true ]

abbrev pub caller_id : Option Caller → Option ℕ
caller_id none = none
caller_id (some u) = u.id
