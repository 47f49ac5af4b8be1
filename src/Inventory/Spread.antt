-- ===== src/Inventory/Spread.antt =====
-- Deductions from the batches of one class: what they take from it in all.
use remote_order_server.Common.{
  ℕ, ◌≡◌, ◌≢◌, refl, sym, ap, ap₂, subst, ◌∙◌, Bool, true, false, List, [], ◌∷◌, arith, inl, inr,
  ◌==◌, ==_refl, ==_ne, All, All-imp, All-zip, Bool-cases, if_same, if◌then◌else◌, sum_by,
  sum_by_zero, select,
}
use remote_order_server.Common.Int.{ℤ, pos, +ℤ-zero, zero-+ℤ, ◌+ℤ◌, ◌-ℤ◌, int_laws, parts_of_eq}
use remote_order_server.Db.{Deduction, ProductBatch}
use remote_order_server.Inventory.Deduct.{plan, less_taken}
use remote_order_server.Inventory.Plan.{plan_induction}
use remote_order_server.Inventory.Totals.{taken, taken_total}
use remote_order_server.Inventory.Stock.{UniqueIds}

-- What a batch holds for its class.
abbrev pub kept_left : (ProductBatch → Bool) → ProductBatch → ℤ
kept_left c b = if c b then b.quantity_left else pos 0

module _ (c : ProductBatch → Bool) where
  -- What a deduction takes from the batches of a class.
  abbrev pub spread : List ProductBatch → ℕ → ℤ → ℤ
  spread bs i n = sum_by (λ b. if c b then (if i == b.id then n else pos 0) else pos 0) bs

  abbrev pub taken_of : List Deduction → ProductBatch → ℤ
  taken_of ds b = if c b then taken b.id ds else pos 0

  taken-cons :
      (d : Deduction) (ds : List Deduction) (bs : List ProductBatch)
      → sum_by (taken_of (d ∷ ds)) bs ≡ spread bs d.batch_id d.quantity +ℤ sum_by (taken_of ds) bs
  taken-cons d ds [] = omega int_laws
  taken-cons d ds (b ∷ bs) = elim (Bool-cases (c b)) [
    | inl e ↦ rw e (omega (int_laws, parts_of_eq (taken-cons d ds bs)))
    | inr e ↦ rw e (omega (int_laws, parts_of_eq (taken-cons d ds bs)))
  ]

  pub taken-spread :
      (ds : List Deduction) (bs : List ProductBatch)
      → sum_by (taken_of ds) bs ≡ sum_by (λ d. spread bs d.batch_id d.quantity) ds
  taken-spread [] bs = sum_by_zero (taken_of []) bs (zeros bs)
    where
      zeros : (xs : List ProductBatch) → All (λ b. taken_of [] b ≡ pos 0) xs
      zeros [] = tt
      zeros (x ∷ xs) = (ground arith, zeros xs)
  taken-spread (d ∷ ds) bs =
      taken-cons d ds bs ∙ ap (λ s. spread bs d.batch_id d.quantity +ℤ s) (taken-spread ds bs)

  -- The stock of a class loses what is taken from its batches.
  pub left-less_taken :
      ((ds : List Deduction) (b : ProductBatch) → c (less_taken ds b) ≡ c b)
      → (ds : List Deduction) (bs : List ProductBatch)
      → sum_by (λ b. kept_left c (less_taken ds b)) bs
        ≡ sum_by (kept_left c) bs -ℤ sum_by (taken_of ds) bs
  left-less_taken same ds [] = omega int_laws
  left-less_taken same ds (b ∷ bs) = elim (Bool-cases (c b)) [
    | inl e ↦ rw (same ds b, e) (omega (int_laws, parts_of_eq (left-less_taken same ds bs)))
    | inr e ↦ rw (same ds b, e) (omega (int_laws, parts_of_eq (left-less_taken same ds bs)))
  ]

  -- A deduction from a batch of the class takes its quantity, and no other takes anything.
  abbrev pub TakesOf : List ProductBatch → Bool → ℕ → Type 0
  TakesOf bs own i = (n : ℤ) → spread bs i n ≡ (if own then n else pos 0)

  spread-absent :
      (i : ℕ) (n : ℤ) (bs : List ProductBatch) → All (λ b. b.id ≢ i) bs → spread bs i n ≡ pos 0
  spread-absent i n bs h = sum_by_zero _ bs (All-imp _ _ bs (λ b (k : b.id ≢ i). ground arith) h)

  pub spread_unique : (bs : List ProductBatch) → UniqueIds bs → All (λ b. TakesOf bs (c b) b.id) bs
  spread_unique [] u = tt
  spread_unique (b ∷ bs) u = (
    (λ n. rw (==_refl b.id, spread-absent b.id n bs u.0, +ℤ-zero)),
    All-zip _ _ _ bs
        (λ x (k : x.id ≢ b.id) (h : TakesOf bs (c x) x.id).
          λ n. rw (==_ne b.id x.id (λ e. k (sym e)), h n, if_same (c b) (pos 0), zero-+ℤ))
        u.0 (spread_unique bs u.1),
  )

  -- Deductions from batches that are all of the class, or all outside it.
  pub taken_of-total :
      (bs : List ProductBatch) (own : Bool) (ds : List Deduction)
      → All (λ d. TakesOf bs own d.batch_id) ds
      → sum_by (λ d. spread bs d.batch_id d.quantity) ds ≡ (if own then taken_total ds else pos 0)
  taken_of-total bs own [] h = sym (if_same own (pos 0))
  taken_of-total bs true (d ∷ ds) h = ap₂ ◌+ℤ◌ (h.0 d.quantity) (taken_of-total bs true ds h.1)
  taken_of-total bs false (d ∷ ds) h =
      ap₂ ◌+ℤ◌ (h.0 d.quantity) (taken_of-total bs false ds h.1) ∙ zero-+ℤ (pos 0)

-- A plan names batches of the rows only.
pub plan-All :
    (P : ℕ → Type 0) (rows : List ProductBatch) (n : ℤ)
    → All (λ b. P b.id) rows
    → All (λ d. P d.batch_id) (plan rows n).0
plan-All P =
    plan_induction (λ rows n ds r. All (λ b. P b.id) rows → All (λ d. P d.batch_id) ds)
      (λ rows n stop h. tt) (λ n wanted h. tt) (λ b rows n wanted fits h. (h.0, tt))
      (λ b rows n ds r wanted short rest h. (h.0, rest h.1))

-- A WHERE clause as a weight.
pub sum_by-select-if :
    (p : ProductBatch → Bool) (v w : ProductBatch → ℤ) (bs : List ProductBatch)
    → All (λ b. (if p b then v b else pos 0) ≡ w b) bs
    → sum_by v (select p bs) ≡ sum_by w bs
sum_by-select-if p v w [] h = refl
sum_by-select-if p v w (b ∷ bs) h = elim (Bool-cases (p b)) [
  | inl e ↦ rw e (
      ap₂ ◌+ℤ◌ (subst (λ t. (if t then v b else pos 0) ≡ w b) e h.0)
        (sum_by-select-if p v w bs h.1))
  | inr e ↦ rw e (
      sym (zero-+ℤ _)
      ∙ ap₂ ◌+ℤ◌ (subst (λ t. (if t then v b else pos 0) ≡ w b) e h.0)
          (sum_by-select-if p v w bs h.1))
]
