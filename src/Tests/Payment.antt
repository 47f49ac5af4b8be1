-- ===== src/Tests/Payment.antt =====
-- A payment of 40 for a posted realization that owes 60, and its reversal.
use remote_order_server.Common.{◌≡◌, refl, some, List, [], ◌∷◌, ◌++◌, arith, order_by}
use remote_order_server.Common.Int.{pos, ◌+ℤ◌, ◌-ℤ◌, min_ℤ}
use remote_order_server.Db.{Db, Allocation, income, outcome, posted, realization}
use remote_order_server.Finance.{
  allocate_loop_by, allocate_payment_by, allocate_payment, allocate, unpaid_realizations,
  unpaid_receipts, revert,
}
use remote_order_server.Finance.Shares.{IsFair}
use remote_order_server.Finance.Rounded.{allocate_payment_by-IsFair}
use remote_order_server.Tests.Rough.{rough, Whole, rough-IsExact}
use remote_order_server.Finance.Revert.{allocate_payment-revert}
use remote_order_server.Tests.{shop, sale_20}

abbrev owing : Db
owing = record shop { realizations = record sale_20 { status = posted; paid_amount = pos 30 } ∷ [] }

paid_40 :
    (allocate_payment 80 income (some 41) (pos 40) owing).allocations
    ≡ record {
      cash_transaction_id = 80;
      document_id = 20;
      document_type = realization;
      amount = pos 40;
    }
      ∷ []
unfolding allocate_payment_by allocate_loop_by allocate unpaid_realizations order_by ◌-ℤ◌ ◌+ℤ◌ min_ℤ
paid_40 = refl

abbrev in_debt : Db
in_debt = record shop {
  realizations = record sale_20 { status = posted; amount = pos 500; paid_amount = pos 125 } ∷ [];
}

allocate_payment_by-IsFair_example :
    ((ls : List Allocation) × ((allocate_payment_by rough 80 income
          (some 41)
          (pos 250)
          in_debt).allocations
        ≡ in_debt.allocations ++ ls)
      × IsFair (unpaid_realizations 41 in_debt) (pos 250) ls)
    × ((ls : List Allocation) × ((allocate_payment_by rough 80 outcome
            (some 41)
            (pos 250)
            in_debt).allocations
          ≡ in_debt.allocations ++ ls)
        × IsFair (unpaid_receipts 41 in_debt) (pos 250) ls)
unfolding unpaid_realizations unpaid_receipts order_by
allocate_payment_by-IsFair_example =
    allocate_payment_by-IsFair rough Whole rough-IsExact 80 41 (pos 250) in_debt (2, refl)
      (((4, refl), (1, refl)), tt) tt (omega arith)

allocate_payment-revert_example :
    revert 80 (allocate_payment 80 income (some 41) (pos 40) owing) ≡ owing
allocate_payment-revert_example = allocate_payment-revert 80 income (some 41) (pos 40) owing refl
