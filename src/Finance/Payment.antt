-- ===== src/Finance/Payment.antt =====
-- What `allocate_payment` allocates.
use remote_order_server.Common.{ℕ, ◌≡◌, some, List, ◌++◌, arith, All-map, All-select, order_by-All}
use remote_order_server.Common.Int.{ℤ, pos, ◌<ℤ◌, lt→ltb_ℤ}
use remote_order_server.Db.{Db, Allocation, income, outcome, realization, goods_receipt}
use remote_order_server.Finance.{
  allocate_payment_by, allocate_payment, unpaid_realizations, unpaid_receipts,
}
use remote_order_server.Finance.Shares.{InDebt, IsFair, shares, shares-IsFair, allocate_loop-shares}

pub unpaid_realizations-InDebt : (party : ℕ) (db : Db) → InDebt (unpaid_realizations party db)
unfolding unpaid_realizations
unpaid_realizations-InDebt party db =
    All-map _ _ _ (order_by-All _ _ _ (All-select _ _ db.realizations (λ r h. ground arith)))

pub unpaid_receipts-InDebt : (party : ℕ) (db : Db) → InDebt (unpaid_receipts party db)
unfolding unpaid_receipts
unpaid_receipts-InDebt party db =
    All-map _ _ _ (order_by-All _ _ _ (All-select _ _ db.goods_receipts (λ r h. ground arith)))

-- A payment that comes in is allocated to the unpaid realizations of the counterparty, and one that
-- goes out to its unpaid receipts: new allocations are added, each of a positive amount; they make
-- up the payment or the whole debt, whichever is less; and none of the documents gets more than it
-- owes.
pub allocate_payment-IsFair :
    (t party : ℕ) (amount : ℤ) (db : Db)
    → pos 0 <ℤ amount
    → ((ls : List Allocation) × ((allocate_payment t income (some party) amount db).allocations
          ≡ db.allocations ++ ls)
        × IsFair (unpaid_realizations party db) amount ls)
      × ((ls : List Allocation) × ((allocate_payment t outcome (some party) amount db).allocations
            ≡ db.allocations ++ ls)
          × IsFair (unpaid_receipts party db) amount ls)
unfolding allocate_payment_by
allocate_payment-IsFair t party amount db h = rw (lt→ltb_ℤ (pos 0) amount h) (
  (
    shares t realization (unpaid_realizations party db) amount,
    allocate_loop-shares t realization _ amount db,
    shares-IsFair t realization _ amount (unpaid_realizations-InDebt party db) (omega arith),
  ),
  (
    shares t goods_receipt (unpaid_receipts party db) amount,
    allocate_loop-shares t goods_receipt _ amount db,
    shares-IsFair t goods_receipt _ amount (unpaid_receipts-InDebt party db) (omega arith),
  ),
)
