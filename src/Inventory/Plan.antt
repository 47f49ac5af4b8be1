-- ===== src/Inventory/Plan.antt =====
-- What the loop of `deductStock` plans: how much, from which batches, in which order.
use remote_order_server.Common.{
  ℕ, ◌≡◌, refl, ◌⊎◌, List, [], ◌∷◌, ◌==◌, arith, Bool-cases, inl, inr, All, All-imp, sum_by_nonneg,
}
use remote_order_server.Common.Int.{
  ℤ, pos, ◌+ℤ◌, ◌-ℤ◌, ◌≤ℤ◌, ◌<ℤ◌, leb_ℤ, min_ℤ, int_laws, parts_of_eq, sub_self,
}
use remote_order_server.Db.{Deduction, ProductBatch}
use remote_order_server.Inventory.Deduct.{plan}
use remote_order_server.Inventory.Totals.{taken, taken_total, held, left_total}

abbrev pub from_batch : ProductBatch → ℤ → Deduction
from_batch b take = record { batch_id = b.id; quantity = take; enter_price = b.enter_price }

pub plan_done : (rows : List ProductBatch) (n : ℤ) → n ≤ℤ pos 0 → plan rows n ≡ ([], n)
unfolding plan
plan_done [] n h = refl
plan_done (b ∷ rows) n h = ground arith

plan_zero : (rows : List ProductBatch) (n : ℤ) → plan rows (n -ℤ n) ≡ ([], pos 0)
plan_zero rows n = rw (sub_self n) (plan_done rows (pos 0) (omega arith))

module _ (b : ProductBatch) (rows : List ProductBatch) (n : ℤ) (wanted : pos 0 <ℤ n) where
  pub plan_part : n ≤ℤ b.quantity_left → plan (b ∷ rows) n ≡ (from_batch b n ∷ [], pos 0)
  unfolding plan min_ℤ
  plan_part h = ground (arith, plan_zero rows n)

  pub plan_full :
      b.quantity_left <ℤ n
      → plan (b ∷ rows) n ≡ (
        from_batch b b.quantity_left ∷ (plan rows (n -ℤ b.quantity_left)).0,
        (plan rows (n -ℤ b.quantity_left)).1,
      )
  unfolding plan min_ℤ
  plan_full h = ground arith

-- The four ways in which the loop goes on, as an induction principle.
module _ {ℓ} (P : List ProductBatch → ℤ → List Deduction → ℤ → Type ℓ)
    (stop : (rows : List ProductBatch) (n : ℤ) → n ≤ℤ pos 0 → P rows n [] n)
    (out : (n : ℤ) → pos 0 <ℤ n → P [] n [] n)
    (part : (b : ProductBatch) (rows : List ProductBatch) (n : ℤ)
      → pos 0 <ℤ n
      → n ≤ℤ b.quantity_left
      → P (b ∷ rows) n (from_batch b n ∷ []) (pos 0))
    (full : (b : ProductBatch) (rows : List ProductBatch) (n : ℤ) (ds : List Deduction) (r : ℤ)
      → pos 0 <ℤ n
      → b.quantity_left <ℤ n
      → P rows (n -ℤ b.quantity_left) ds r
      → P (b ∷ rows) n (from_batch b b.quantity_left ∷ ds) r) where
  pub plan_induction : (rows : List ProductBatch) (n : ℤ) → P rows n (plan rows n).0 (plan rows n).1
  plan_induction [] n = elim (Bool-cases (leb_ℤ n (pos 0))) [
    | inl e ↦ rw (plan_done [] n (ground arith)) (stop [] n (ground arith))
    | inr e ↦ unfold plan in out n (ground arith)
  ]
  plan_induction (b ∷ rows) n = elim (Bool-cases (leb_ℤ n (pos 0))) [
    | inl e ↦ rw (plan_done (b ∷ rows) n (ground arith)) (stop (b ∷ rows) n (ground arith))
    | inr e ↦
        let wanted : pos 0 <ℤ n = ground arith in
        elim (Bool-cases (leb_ℤ n b.quantity_left)) [
          | inl f ↦
              rw (plan_part b rows n wanted (ground arith)) (part b rows n wanted (ground arith))
          | inr f ↦
              let short : b.quantity_left <ℤ n = ground arith in
              rw (plan_full b rows n wanted short)
                (full b rows n _ _ wanted short (plan_induction rows (n -ℤ b.quantity_left)))
        ]
  ]

-- The deductions and what remains make up what was needed.
pub taken_total-plan :
    (rows : List ProductBatch) (n : ℤ) → taken_total (plan rows n).0 +ℤ (plan rows n).1 ≡ n
taken_total-plan =
    plan_induction (λ rows n ds r. taken_total ds +ℤ r ≡ n) (λ rows n h. omega int_laws)
      (λ n h. omega int_laws) (λ b rows n h k. omega int_laws)
      (λ b rows n ds r h k ih. omega (int_laws, parts_of_eq ih))

abbrev pub InStock : List ProductBatch → Type 0
InStock = All (λ b. pos 0 <ℤ b.quantity_left)

left_total_nonneg : (rows : List ProductBatch) → InStock rows → pos 0 ≤ℤ left_total rows
left_total_nonneg rows h =
    sum_by_nonneg _ rows (All-imp _ _ rows (λ b (k : pos 0 <ℤ b.quantity_left). omega arith) h)

held_nonneg : (i : ℕ) (rows : List ProductBatch) → InStock rows → pos 0 ≤ℤ held i rows
held_nonneg i rows h =
    sum_by_nonneg _ rows (All-imp _ _ rows (λ b (k : pos 0 <ℤ b.quantity_left). ground arith) h)

-- Something remains only when the rows are empty; no row gives more than it holds.
pub plan_remaining :
    (rows : List ProductBatch) (n : ℤ)
    → InStock rows
    → pos 0 ≤ℤ n
    → (pos 0 ≤ℤ (plan rows n).1)
      × (((plan rows n).1 ≡ pos 0) ⊎ (taken_total (plan rows n).0 ≡ left_total rows))
      × (taken_total (plan rows n).0 ≤ℤ left_total rows)
plan_remaining =
    plan_induction
      (λ rows n ds r.
        InStock rows
        → pos 0 ≤ℤ n
        → (pos 0 ≤ℤ r)
          × ((r ≡ pos 0) ⊎ (taken_total ds ≡ left_total rows))
          × (taken_total ds ≤ℤ left_total rows))
      (λ rows n h stock k. (k, inl (omega int_laws), left_total_nonneg rows stock))
      (λ n h stock k. (k, inr refl, omega arith))
      (λ b rows n h k stock l.
        (omega arith, inl refl, omega (int_laws, left_total_nonneg rows stock.1)))
      (λ b rows n ds r h k ih stock l.
        let (a, c, d) = ih stock.1 (omega int_laws) in
        (a, elim c [ inl e ↦ inl e | inr e ↦ inr (rw e) ], omega int_laws))

-- No batch gives more than the rows with its id hold.
pub taken-plan-le :
    (i : ℕ) (rows : List ProductBatch) (n : ℤ)
    → InStock rows
    → taken i (plan rows n).0 ≤ℤ held i rows
taken-plan-le i =
    plan_induction (λ rows n ds r. InStock rows → taken i ds ≤ℤ held i rows)
      (λ rows n h stock. held_nonneg i rows stock) (λ n h stock. omega arith)
      (λ b rows n h k stock. elim (Bool-cases (b.id == i)) [
        | inl e ↦ rw e (omega (int_laws, held_nonneg i rows stock.1))
        | inr e ↦ rw e (omega (int_laws, held_nonneg i rows stock.1))
      ])
      (λ b rows n ds r h k ih stock. omega (int_laws, ih stock.1))

-- The deductions empty the rows one after the other; only the last may leave something.
abbrev pub IsFifo : List Deduction → List ProductBatch → Type 0
IsFifo [] rows = Unit {0}
IsFifo (d ∷ ds) [] = ⊥
IsFifo (d ∷ []) (b ∷ rows) =
    (d.batch_id ≡ b.id)
    × (d.enter_price ≡ b.enter_price)
    × (pos 0 <ℤ d.quantity)
    × (d.quantity ≤ℤ b.quantity_left)
IsFifo (d ∷ e ∷ ds) (b ∷ rows) =
    (d.batch_id ≡ b.id)
    × (d.enter_price ≡ b.enter_price)
    × (d.quantity ≡ b.quantity_left)
    × IsFifo (e ∷ ds) rows

IsFifo-cons :
    (b : ProductBatch) (rows : List ProductBatch) (ds : List Deduction)
    → pos 0 <ℤ b.quantity_left
    → IsFifo ds rows
    → IsFifo (from_batch b b.quantity_left ∷ ds) (b ∷ rows)
IsFifo-cons b rows [] h k = (refl, refl, h, omega arith)
IsFifo-cons b rows (d ∷ ds) h k = (refl, refl, refl, k)

pub plan-IsFifo : (rows : List ProductBatch) (n : ℤ) → InStock rows → IsFifo (plan rows n).0 rows
plan-IsFifo =
    plan_induction (λ rows n ds r. InStock rows → IsFifo ds rows) (λ rows n h stock. tt)
      (λ n h stock. tt) (λ b rows n h k stock. (refl, refl, h, k))
      (λ b rows n ds r h k ih stock. IsFifo-cons b rows ds stock.0 (ih stock.1))
