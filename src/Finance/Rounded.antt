-- ===== src/Finance/Rounded.antt =====
-- The allocation of a payment over the doubles: on amounts on which they compute exactly it is
-- `allocate_payment`.
use remote_order_server.Common.{
  Numbers, IsExact, min_of, min-le_right, ℕ, ◌≡◌, refl, some, List, [], ◌∷◌, ◌++◌, All, Bool-cases,
  inl, inr, arith,
}
use remote_order_server.Common.Int.{ℤ, pos, ◌-ℤ◌, ◌≤ℤ◌, ◌<ℤ◌, ltb_ℤ, min_ℤ}
use remote_order_server.Db.{
  Db, Allocation, DocumentType, income, outcome, realization, goods_receipt,
}
use remote_order_server.Finance.{
  Unpaid, allocate, allocate_loop_by, allocate_loop, allocate_payment_by, allocate_payment,
  unpaid_realizations, unpaid_receipts,
}
use remote_order_server.Finance.Shares.{InDebt, IsFair, debt}
use remote_order_server.Finance.Payment.{
  unpaid_realizations-InDebt, unpaid_receipts-InDebt, allocate_payment-IsFair,
}

module _ (js : Numbers) (P : ℤ → Type 0) (h : IsExact js P) where
  abbrev pub PlainDebts : List Unpaid → Type 0
  PlainDebts = All (λ d. P d.amount × P d.paid_amount)

  allocate_loop_by-exact :
      (t : ℕ) (kind : DocumentType) (docs : List Unpaid) (r : ℤ) (db : Db)
      → InDebt docs
      → PlainDebts docs
      → P r
      → allocate_loop_by js t kind docs r db ≡ allocate_loop t kind docs r db
  unfolding allocate_loop_by
  allocate_loop_by-exact t kind [] r db owes plain left = refl
  allocate_loop_by-exact t kind (d ∷ docs) r db owes plain left =
      let low : d.paid_amount ≤ℤ d.amount = omega (arith, owes.0) in
      let part : ℤ = min_ℤ (debt d) r in
      let owed : P (debt d) = h.keeps d.amount d.paid_amount plain.0.0 plain.0.1 low in
      let small : P part = min_of P (debt d) r owed left in
      let fits : part ≤ℤ r = min-le_right (debt d) r in
      let smaller =
        allocate_loop_by-exact t kind docs (r -ℤ part) (allocate t kind d.id part db) owes.1 plain.1
          (h.keeps r part left small fits) in
      rw
        (
          h.reads d.amount plain.0.0,
          h.reads d.paid_amount plain.0.1,
          h.subtracts d.amount d.paid_amount plain.0.0 plain.0.1 low,
          h.stores part small,
          h.subtracts r part left small fits,
        )
        (elim (Bool-cases (ltb_ℤ (pos 0) part)) [
          | inl p ↦ rw (p, smaller) refl
          | inr p ↦ rw (p, allocate_loop_by-exact t kind docs r db owes.1 plain.1 left) refl
        ])

  allocate_payment_by-income :
      (t party : ℕ) (amount : ℤ) (db : Db)
      → P amount
      → PlainDebts (unpaid_realizations party db)
      → allocate_payment_by js t income (some party) amount db
        ≡ allocate_payment t income (some party) amount db
  unfolding allocate_payment_by
  allocate_payment_by-income t party amount db paid plain =
      rw
        (allocate_loop_by-exact t realization (unpaid_realizations party db) amount db
          (unpaid_realizations-InDebt party db) plain paid)
        refl

  allocate_payment_by-outcome :
      (t party : ℕ) (amount : ℤ) (db : Db)
      → P amount
      → PlainDebts (unpaid_receipts party db)
      → allocate_payment_by js t outcome (some party) amount db
        ≡ allocate_payment t outcome (some party) amount db
  unfolding allocate_payment_by
  allocate_payment_by-outcome t party amount db paid plain =
      rw
        (allocate_loop_by-exact t goods_receipt (unpaid_receipts party db) amount db
          (unpaid_receipts-InDebt party db) plain paid)
        refl

  -- A payment that comes in is allocated to the unpaid realizations of the counterparty, and one
  -- that goes out to its unpaid receipts, where the doubles compute exactly on the payment and on
  -- the amounts and the paid amounts of those documents: new allocations are added, each of a
  -- positive amount; they make up the payment or the whole debt, whichever is less; and none of the
  -- documents gets more than it owes.
  pub allocate_payment_by-IsFair :
      (t party : ℕ) (amount : ℤ) (db : Db)
      → P amount
      → PlainDebts (unpaid_realizations party db)
      → PlainDebts (unpaid_receipts party db)
      → pos 0 <ℤ amount
      → ((ls : List Allocation) × ((allocate_payment_by js t income
              (some party)
              amount
              db).allocations
            ≡ db.allocations ++ ls)
          × IsFair (unpaid_realizations party db) amount ls)
        × ((ls : List Allocation) × ((allocate_payment_by js t outcome
                (some party)
                amount
                db).allocations
              ≡ db.allocations ++ ls)
            × IsFair (unpaid_receipts party db) amount ls)
  allocate_payment_by-IsFair t party amount db paid sales receipts positive =
      rw
        (
          allocate_payment_by-income t party amount db paid sales,
          allocate_payment_by-outcome t party amount db paid receipts,
        )
        (allocate_payment-IsFair t party amount db positive)
