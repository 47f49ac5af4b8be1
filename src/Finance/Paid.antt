-- ===== src/Finance/Paid.antt =====
-- What the allocation loop pays, as a change of every row of the two tables.
use remote_order_server.Common.{
  ℕ, ◌≡◌, refl, sym, ap, ap₂, ◌∙◌, Bool-cases, inl, inr, List, [], ◌∷◌, ◌++◌, map, ◌==◌,
  if◌then◌else◌, map-id, map_congr, map-map, sum_by, sum_by-append,
}
use mathlib.Core.List.{append-nil, append_assoc}
use remote_order_server.Common.Int.{
  ℤ, pos, ◌+ℤ◌, ◌-ℤ◌, +ℤ-zero, int_laws, parts_of_eq, min_ℤ, leb_ℤ, ltb_ℤ,
}
use remote_order_server.Db.{
  Db, Allocation, DocumentType, realization, goods_receipt, Realization, GoodsReceipt,
}
use remote_order_server.Finance.{allocate_loop_by, Unpaid, pay, allocate, allocate_loop}
use remote_order_server.Finance.Shares.{shares, share, debt}

-- What an allocation pays for a document of a kind with an id.
abbrev pub pays : DocumentType → ℕ → Allocation → ℤ
pays realization i a = elim a.document_type [
  | realization ↦ if i == a.document_id then a.amount else pos 0
  | goods_receipt ↦ pos 0
]
pays goods_receipt i a = elim a.document_type [
  | realization ↦ pos 0
  | goods_receipt ↦ if i == a.document_id then a.amount else pos 0
]

abbrev pub paid_to : DocumentType → ℕ → List Allocation → ℤ
paid_to kind i = sum_by (pays kind i)

abbrev pub paid : List Allocation → Realization → Realization
paid ls r = record r { paid_amount = r.paid_amount +ℤ paid_to realization r.id ls }

abbrev pub paid_receipt : List Allocation → GoodsReceipt → GoodsReceipt
paid_receipt ls r = record r { paid_amount = r.paid_amount +ℤ paid_to goods_receipt r.id ls }

-- The tables after every document has got what the allocations pay for it.
abbrev pub all_paid : List Allocation → Db → Db
all_paid ls db = record db {
  realizations = map (paid ls) db.realizations;
  goods_receipts = map (paid_receipt ls) db.goods_receipts;
}

-- Allocations that pay every document nothing in all change nothing.
pub all_paid_zero :
    (ls : List Allocation) (db : Db)
    → ((kind : DocumentType) (i : ℕ) → paid_to kind i ls ≡ pos 0)
    → all_paid ls db ≡ db
all_paid_zero ls db h =
    ap₂ (λ rs gs. record db { realizations = rs; goods_receipts = gs })
      (map-id (paid ls) db.realizations (λ r. rw (h realization r.id, +ℤ-zero r.paid_amount)))
      (map-id (paid_receipt ls) db.goods_receipts
        (λ r. rw (h goods_receipt r.id, +ℤ-zero r.paid_amount)))

abbrev set_paid : Realization → ℤ → Realization
set_paid r p = record r { paid_amount = p }

abbrev set_paid_receipt : GoodsReceipt → ℤ → GoodsReceipt
set_paid_receipt r p = record r { paid_amount = p }

module _ (ks ls : List Allocation) where
  paid_total :
      (kind : DocumentType) (i : ℕ) (p : ℤ)
      → p +ℤ paid_to kind i ks +ℤ paid_to kind i ls ≡ p +ℤ paid_to kind i (ks ++ ls)
  paid_total kind i p = omega (int_laws, parts_of_eq (sum_by-append (pays kind i) ks ls))

  pub all_paid-append : (db : Db) → all_paid ls (all_paid ks db) ≡ all_paid (ks ++ ls) db
  all_paid-append db =
      ap₂ (λ rs gs. record db { realizations = rs; goods_receipts = gs })
        (map-map (paid ls) (paid ks) db.realizations
          ∙ map_congr _ (paid (ks ++ ls)) db.realizations
              (λ r. ap (set_paid r) (paid_total realization r.id r.paid_amount)))
        (map-map (paid_receipt ls) (paid_receipt ks) db.goods_receipts
          ∙ map_congr _ (paid_receipt (ks ++ ls)) db.goods_receipts
              (λ r. ap (set_paid_receipt r) (paid_total goods_receipt r.id r.paid_amount)))

abbrev pub entry : ℕ → DocumentType → ℕ → ℤ → Allocation
entry t kind i c = record {
  cash_transaction_id = t;
  document_id = i;
  document_type = kind;
  amount = c;
}

pub pay-eq :
    (t : ℕ) (kind : DocumentType) (i : ℕ) (c : ℤ) (db : Db)
    → pay kind i c db ≡ all_paid (entry t kind i c ∷ []) db
unfolding pay
pay-eq t realization i c db =
    ap₂ (λ rs gs. record db { realizations = rs; goods_receipts = gs })
      (map_congr _ (paid (entry t realization i c ∷ [])) db.realizations (λ r.
        elim (Bool-cases (r.id == i)) [
          | inl e ↦ rw e (ap (set_paid r) (omega int_laws))
          | inr e ↦ rw e (ap (set_paid r) (omega int_laws))
        ]))
      (sym (
        map-id (paid_receipt (entry t realization i c ∷ [])) db.goods_receipts
          (λ r. ap (set_paid_receipt r) (omega int_laws))))
pay-eq t goods_receipt i c db =
    ap₂ (λ rs gs. record db { realizations = rs; goods_receipts = gs })
      (sym (
        map-id (paid (entry t goods_receipt i c ∷ [])) db.realizations
          (λ r. ap (set_paid r) (omega int_laws))))
      (map_congr _ (paid_receipt (entry t goods_receipt i c ∷ [])) db.goods_receipts (λ r.
        elim (Bool-cases (r.id == i)) [
          | inl e ↦ rw e (ap (set_paid_receipt r) (omega int_laws))
          | inr e ↦ rw e (ap (set_paid_receipt r) (omega int_laws))
        ]))

-- What the loop pays.
abbrev pub with_allocations : List Allocation → Db → Db
with_allocations ls db = record db { allocations = ls }

module _ (t : ℕ) (kind : DocumentType) where
  allocate-eq :
      (doc : Unpaid) (c : ℤ) (db : Db)
      → allocate t kind doc.id c db
        ≡ all_paid
            (share t kind doc c ∷ [])
            (with_allocations (db.allocations ++ share t kind doc c ∷ []) db)
  unfolding allocate
  allocate-eq doc c db = pay-eq t kind doc.id c _

  pub allocate_loop-eq :
      (docs : List Unpaid) (r : ℤ) (db : Db)
      → allocate_loop t kind docs r db
        ≡ all_paid
            (shares t kind docs r)
            (with_allocations (db.allocations ++ shares t kind docs r) db)
  unfolding allocate_loop_by shares
  allocate_loop-eq [] r db = sym (
      all_paid_zero [] _ (λ k i. refl)
      ∙ ap (λ ls. with_allocations ls db) (append-nil db.allocations))
  allocate_loop-eq (doc ∷ docs) r db =
      let part : ℤ = min_ℤ (debt doc) r in
      elim (Bool-cases (leb_ℤ r (pos 0))) [
        | inl e ↦ rw e (
            sym (
              all_paid_zero [] _ (λ k i. refl)
              ∙ ap (λ ls. with_allocations ls db) (append-nil db.allocations)))
        | inr e ↦ elim (Bool-cases (ltb_ℤ (pos 0) part)) [
          | inl p ↦
              let s : Allocation = share t kind doc part in
              let rest : List Allocation = shares t kind docs (r -ℤ part) in
              rw (e, p)
                (allocate_loop-eq docs (r -ℤ part) (allocate t kind doc.id part db)
                  ∙ ap (λ (d : Db). all_paid rest (with_allocations (d.allocations ++ rest) d))
                      (allocate-eq doc part db)
                  ∙ all_paid-append (s ∷ []) rest
                      (with_allocations (db.allocations ++ s ∷ [] ++ rest) db)
                  ∙ ap (λ ls. all_paid (s ∷ rest) (with_allocations ls db))
                      (append_assoc db.allocations (s ∷ []) rest))
          | inr p ↦ rw (e, p) (allocate_loop-eq docs r db)
        ]
      ]
