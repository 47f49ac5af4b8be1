-- ===== src/Finance/Shares.antt =====
-- The allocation of a payment: the shares of the unpaid documents.
use remote_order_server.Common.{
  ==_refl, true, ℕ, ◌≡◌, refl, ap, sym, ◌∙◌, Bool-cases, List, [], ◌∷◌, ◌++◌, ◌==◌, if◌then◌else◌,
  arith, inl, inr, All, All-imp, sum_by, sum_by_nonneg,
}
use mathlib.Core.List.{append-nil, append_assoc}
use remote_order_server.Common.Int.{
  ℤ, pos, ◌+ℤ◌, ◌-ℤ◌, ◌≤ℤ◌, ◌<ℤ◌, leb_ℤ, ltb_ℤ, min_ℤ, int_laws, +ℤ-zero, min_ℤ_split, min_ℤ_right,
  min_ℤ_left,
}
use remote_order_server.Db.{Db, Allocation, DocumentType, realization, goods_receipt}
use remote_order_server.Finance.{
  allocate_loop_by, is_of_transaction, Unpaid, pay, allocate, allocate_loop,
}

abbrev pub debt : Unpaid → ℤ
debt d = d.amount -ℤ d.paid_amount

abbrev pub total_debt : List Unpaid → ℤ
total_debt = sum_by debt

-- What the query for unpaid documents asks of its rows.
abbrev pub InDebt : List Unpaid → Type 0
InDebt = All (λ d. d.paid_amount <ℤ d.amount)

-- What is owed for the rows with one id, and what allocations pay for it.
abbrev pub debt_of : ℕ → List Unpaid → ℤ
debt_of i = sum_by (λ d. if d.id == i then debt d else pos 0)

abbrev pub share_of : ℕ → List Allocation → ℤ
share_of i = sum_by (λ a. if a.document_id == i then a.amount else pos 0)

abbrev pub allocated : List Allocation → ℤ
allocated = sum_by (λ a. a.amount)

module _ (transaction_id : ℕ) (kind : DocumentType) where
  abbrev pub share : Unpaid → ℤ → Allocation
  share doc amount = record {
    cash_transaction_id = transaction_id;
    document_id = doc.id;
    document_type = kind;
    amount = amount;
  }

  unfoldable pub shares : List Unpaid → ℤ → List Allocation
  shares [] remaining = []
  shares (doc ∷ docs) remaining =
      let part = min_ℤ (debt doc) remaining in
      let pays = ltb_ℤ (pos 0) part in
      let rest = shares docs (if pays then remaining -ℤ part else remaining) in
      if leb_ℤ remaining (pos 0) then [] else if pays then share doc part ∷ rest else rest

pub pay-allocations :
    (kind : DocumentType) (i : ℕ) (c : ℤ) (db : Db) → (pay kind i c db).allocations ≡ db.allocations
unfolding pay
pay-allocations realization i c db = refl
pay-allocations goods_receipt i c db = refl

module _ (t : ℕ) (kind : DocumentType) where
  allocate-allocations :
      (doc : Unpaid) (c : ℤ) (db : Db)
      → (allocate t kind doc.id c db).allocations ≡ db.allocations ++ share t kind doc c ∷ []
  unfolding allocate
  allocate-allocations doc c db = pay-allocations kind doc.id c _

  -- The loop adds the shares to the allocations.
  pub allocate_loop-shares :
      (docs : List Unpaid) (r : ℤ) (db : Db)
      → (allocate_loop t kind docs r db).allocations ≡ db.allocations ++ shares t kind docs r
  unfolding allocate_loop_by shares
  allocate_loop-shares [] r db = sym (append-nil db.allocations)
  allocate_loop-shares (doc ∷ docs) r db =
      let part : ℤ = min_ℤ (debt doc) r in
      elim (Bool-cases (leb_ℤ r (pos 0))) [
        | inl e ↦ rw e (sym (append-nil db.allocations))
        | inr e ↦ elim (Bool-cases (ltb_ℤ (pos 0) part)) [
          | inl p ↦
              rw (e, p)
                (allocate_loop-shares docs (r -ℤ part) (allocate t kind doc.id part db)
                  ∙ rw (allocate-allocations doc part db) (
                      append_assoc db.allocations (share t kind doc part ∷ [])
                        (shares t kind docs (r -ℤ part))))
          | inr p ↦ rw (e, p) (allocate_loop-shares docs r db)
        ]
      ]

  shares_done : (docs : List Unpaid) (r : ℤ) → r ≤ℤ pos 0 → shares t kind docs r ≡ []
  unfolding shares
  shares_done [] r h = refl
  shares_done (d ∷ docs) r h = ground arith

  module _ (d : Unpaid) (docs : List Unpaid) (r : ℤ) (some_left : pos 0 <ℤ r) where
    shares_part : r ≤ℤ debt d → shares t kind (d ∷ docs) r ≡ share t kind d r ∷ []
    unfolding shares
    shares_part h =
        ground (arith, min_ℤ_right (debt d) r h, shares_done docs (r -ℤ r) (omega int_laws))

    shares_full :
        pos 0 <ℤ debt d
        → debt d <ℤ r
        → shares t kind (d ∷ docs) r ≡ share t kind d (debt d) ∷ shares t kind docs (r -ℤ debt d)
    unfolding shares min_ℤ
    shares_full owes h = ground arith

pub shares_own :
    (t : ℕ) (kind : DocumentType) (docs : List Unpaid) (r : ℤ)
    → All (λ a. is_of_transaction t a ≡ true) (shares t kind docs r)
unfolding shares
shares_own t kind [] r = tt
shares_own t kind (d ∷ docs) r =
    let part : ℤ = min_ℤ (debt d) r in
    elim (Bool-cases (leb_ℤ r (pos 0))) [
      | inl e ↦ rw e tt
      | inr e ↦ elim (Bool-cases (ltb_ℤ (pos 0) part)) [
        | inl p ↦ rw (e, p) (==_refl t, shares_own t kind docs (r -ℤ part))
        | inr p ↦ rw (e, p) (shares_own t kind docs r)
      ]
    ]

-- Allocations that are positive, make up the payment or the whole debt, whichever is less, and pay
-- for no document more than it owes.
abbrev pub IsFair : List Unpaid → ℤ → List Allocation → Type 0
IsFair docs r ls =
    All (λ a. pos 0 <ℤ a.amount) ls
    × (allocated ls ≡ min_ℤ (total_debt docs) r)
    × ((i : ℕ) → share_of i ls ≤ℤ debt_of i docs)

total_debt_nonneg : (docs : List Unpaid) → InDebt docs → pos 0 ≤ℤ total_debt docs
total_debt_nonneg docs h =
    sum_by_nonneg debt docs
      (All-imp _ _ docs (λ d (k : d.paid_amount <ℤ d.amount). omega int_laws) h)

debt_of_nonneg : (i : ℕ) (docs : List Unpaid) → InDebt docs → pos 0 ≤ℤ debt_of i docs
debt_of_nonneg i docs h = sum_by_nonneg _ docs (
    All-imp _ _ docs
      (λ d (k : d.paid_amount <ℤ d.amount). elim (Bool-cases (d.id == i)) [
        | inl e ↦ rw e (omega int_laws)
        | inr e ↦ rw e (omega int_laws)
      ])
      h)

IsFair-none : (docs : List Unpaid) (r : ℤ) → InDebt docs → r ≡ pos 0 → IsFair docs r []
IsFair-none docs r h z = (
  tt,
  rw z (sym (min_ℤ_right (total_debt docs) (pos 0) (total_debt_nonneg docs h))),
  λ i. debt_of_nonneg i docs h,
)

module _ (t : ℕ) (kind : DocumentType) (d : Unpaid) (docs : List Unpaid) (r : ℤ)
    (h : InDebt (d ∷ docs)) where
  IsFair-part : pos 0 <ℤ r → r ≤ℤ debt d → IsFair (d ∷ docs) r (share t kind d r ∷ [])
  IsFair-part n k = (
    (n, tt),
    +ℤ-zero r
        ∙ sym
            (min_ℤ_right (total_debt (d ∷ docs)) r (omega (int_laws, total_debt_nonneg docs h.1))),
    λ i. elim (Bool-cases (d.id == i)) [
      | inl e ↦ rw e (omega (int_laws, debt_of_nonneg i docs h.1))
      | inr e ↦ rw e (omega (int_laws, debt_of_nonneg i docs h.1))
    ],
  )

  IsFair-full :
      (ls : List Allocation)
      → IsFair docs (r -ℤ debt d) ls
      → IsFair (d ∷ docs) r (share t kind d (debt d) ∷ ls)
  IsFair-full ls (positive, total, bound) = (
    (omega (int_laws, h.0), positive),
    ap (λ s. debt d +ℤ s) total ∙ min_ℤ_split (debt d) (total_debt docs) r,
    λ i. elim (Bool-cases (d.id == i)) [
      | inl e ↦ rw e (omega (int_laws, bound i))
      | inr e ↦ rw e (omega (int_laws, bound i))
    ],
  )

-- The shares of documents that owe something are fair.
pub shares-IsFair :
    (t : ℕ) (kind : DocumentType) (docs : List Unpaid) (r : ℤ)
    → InDebt docs
    → pos 0 ≤ℤ r
    → IsFair docs r (shares t kind docs r)
unfolding shares
shares-IsFair t kind [] r h n = (tt, sym (min_ℤ_left (pos 0) r n), λ i. omega arith)
shares-IsFair t kind (d ∷ docs) r h n = elim (Bool-cases (leb_ℤ r (pos 0))) [
  | inl e ↦
      let le : r ≤ℤ pos 0 = ground arith in
      rw (shares_done t kind (d ∷ docs) r le) (IsFair-none (d ∷ docs) r h (omega int_laws))
  | inr e ↦
      let wanted : pos 0 <ℤ r = ground arith in
      elim (Bool-cases (leb_ℤ r (debt d))) [
        | inl f ↦
            let le : r ≤ℤ debt d = ground arith in
            rw (shares_part t kind d docs r wanted le) (IsFair-part t kind d docs r h wanted le)
        | inr f ↦
            let less : debt d <ℤ r = ground arith in
            rw (shares_full t kind d docs r wanted (omega (int_laws, h.0)) less) (
              IsFair-full t kind d docs r h _
                (shares-IsFair t kind docs (r -ℤ debt d) h.1 (omega int_laws)))
      ]
]
