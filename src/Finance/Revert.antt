-- ===== src/Finance/Revert.antt =====
-- Taking the payments of a transaction back.
use remote_order_server.Common.{
  ℕ, ◌≡◌, refl, sym, ap, ap₂, ◌∙◌, Bool-cases, inl, inr, true, not, List, [], ◌∷◌, ◌++◌, map, ◌==◌,
  All, All-imp, select, delete_where, select-append, select_every, select-none, delete_where-none,
  sum_by-append, Option, some, none,
}
use mathlib.Core.List.{append-nil}
use remote_order_server.Common.Int.{ℤ, pos, ◌-ℤ◌, int_laws, parts_of_eq, ltb_ℤ}
use remote_order_server.Db.{
  Db, Allocation, DocumentType, realization, goods_receipt, CashType, income, outcome, other_type,
}
use remote_order_server.Finance.{
  allocate_loop_by, allocate_payment_by, Unpaid, allocate_loop, allocate_payment, revert,
  revert_loop, is_of_transaction,
}
use remote_order_server.Finance.Shares.{shares, shares_own}
use remote_order_server.Finance.Paid.{
  pays, paid_to, all_paid, all_paid_zero, all_paid-append, entry, pay-eq, with_allocations,
  allocate_loop-eq,
}

abbrev pub negated : Allocation → Allocation
negated a = record a { amount = pos 0 -ℤ a.amount }

pub revert_loop-eq :
    (ls : List Allocation) (db : Db) → revert_loop ls db ≡ all_paid (map negated ls) db
unfolding revert_loop
revert_loop-eq [] db = sym (all_paid_zero [] db (λ k i. refl))
revert_loop-eq (a ∷ ls) db =
    revert_loop-eq ls _
    ∙ ap (all_paid (map negated ls))
        (pay-eq a.cash_transaction_id a.document_type a.document_id (pos 0 -ℤ a.amount) db)
    ∙ all_paid-append (negated a ∷ []) (map negated ls) db

-- Payments and their reversals cancel.
module _ (i t : ℕ) where
  pays-negated :
      (kind k : DocumentType) (j : ℕ) (c : ℤ)
      → pays kind i (negated (entry t k j c)) ≡ pos 0 -ℤ pays kind i (entry t k j c)
  pays-negated realization realization j c = elim (Bool-cases (i == j)) [
    | inl e ↦ rw e
    | inr e ↦ rw e (omega int_laws)
  ]
  pays-negated realization goods_receipt j c = omega int_laws
  pays-negated goods_receipt realization j c = omega int_laws
  pays-negated goods_receipt goods_receipt j c = elim (Bool-cases (i == j)) [
    | inl e ↦ rw e
    | inr e ↦ rw e (omega int_laws)
  ]

paid_to-map :
    (kind : DocumentType) (i : ℕ) (ls : List Allocation)
    → paid_to kind i (map negated ls) ≡ pos 0 -ℤ paid_to kind i ls
paid_to-map kind i [] = omega int_laws
paid_to-map kind i (a ∷ ls) = omega (
  int_laws,
  parts_of_eq (pays-negated i a.cash_transaction_id kind a.document_type a.document_id a.amount),
  parts_of_eq (paid_to-map kind i ls),
)

paid_to-cancel :
    (kind : DocumentType) (i : ℕ) (ls : List Allocation)
    → paid_to kind i (ls ++ map negated ls) ≡ pos 0
paid_to-cancel kind i ls = omega (
  int_laws,
  parts_of_eq (sum_by-append (pays kind i) ls (map negated ls)),
  parts_of_eq (paid_to-map kind i ls),
)

module _ (t : ℕ) (db : Db) (fresh : select (is_of_transaction t) db.allocations ≡ []) where
  own_allocations :
      (ls : List Allocation)
      → All (λ a. is_of_transaction t a ≡ true) ls
      → (select (is_of_transaction t) (db.allocations ++ ls) ≡ ls)
        × (delete_where (is_of_transaction t) (db.allocations ++ ls) ≡ db.allocations)
  own_allocations ls own = (
    select-append (is_of_transaction t) db.allocations ls
        ∙ ap₂ ◌++◌ fresh (select_every (is_of_transaction t) ls own),
    select-append (λ a. not (is_of_transaction t a)) db.allocations ls
        ∙ ap₂ ◌++◌ (delete_where-none (is_of_transaction t) db.allocations fresh) (
            select-none (λ a. not (is_of_transaction t a)) ls
              (All-imp _ _ ls (λ a (h : is_of_transaction t a ≡ true). rw h) own))
        ∙ append-nil db.allocations,
  )

  revert-allocated :
      (ls : List Allocation)
      → All (λ a. is_of_transaction t a ≡ true) ls
      → revert t (all_paid ls (with_allocations (db.allocations ++ ls) db)) ≡ db
  unfolding revert
  revert-allocated ls own =
      let (mine, others) = own_allocations ls own in
      rw (mine, revert_loop-eq ls (all_paid ls (with_allocations (db.allocations ++ ls) db)))
        (ap (λ old. all_paid (map negated ls) (all_paid ls (with_allocations old db))) others
          ∙ all_paid-append ls (map negated ls) db
          ∙ all_paid_zero (ls ++ map negated ls) db (λ kind i. paid_to-cancel kind i ls))

  allocate_loop-revert :
      (kind : DocumentType) (docs : List Unpaid) (r : ℤ)
      → revert t (allocate_loop t kind docs r db) ≡ db
  allocate_loop-revert kind docs r =
      ap (revert t) (allocate_loop-eq t kind docs r db)
      ∙ revert-allocated (shares t kind docs r) (shares_own t kind docs r)

  revert_none : revert t db ≡ db
  unfolding allocate_loop_by
  revert_none = allocate_loop-revert realization [] (pos 0)

-- Step 2 of PUT, and DELETE, undo step 4 of POST: reverting the allocations of a transaction that
-- had none before its payment was allocated gives back the paid amount of every document and the
-- allocations of before, whatever the type, the counterparty and the amount.
pub allocate_payment-revert :
    (t : ℕ) (kind : CashType) (party : Option ℕ) (amount : ℤ) (db : Db)
    → select (is_of_transaction t) db.allocations ≡ []
    → revert t (allocate_payment t kind party amount db) ≡ db
unfolding allocate_payment_by
allocate_payment-revert t income (some party) amount db fresh =
    elim (Bool-cases (ltb_ℤ (pos 0) amount)) [
      | inl e ↦ rw e (allocate_loop-revert t db fresh realization _ amount)
      | inr e ↦ rw e (revert_none t db fresh)
    ]
allocate_payment-revert t outcome (some party) amount db fresh =
    elim (Bool-cases (ltb_ℤ (pos 0) amount)) [
      | inl e ↦ rw e (allocate_loop-revert t db fresh goods_receipt _ amount)
      | inr e ↦ rw e (revert_none t db fresh)
    ]
allocate_payment-revert t income none amount db fresh = revert_none t db fresh
allocate_payment-revert t outcome none amount db fresh = revert_none t db fresh
allocate_payment-revert t other_type party amount db fresh = revert_none t db fresh
