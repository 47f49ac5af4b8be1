-- ===== src/Common/Sums.antt =====
-- Sums of a weight over the rows of a table.
use remote_order_server.Common.Tests.{Bool-cases, if◌then◌else◌}
use remote_order_server.Common.Int.{ℤ, pos, ◌+ℤ◌, ◌-ℤ◌, ◌≤ℤ◌, int_laws, parts_of_eq}
use remote_order_server.Common.Lists.{All}
use remote_order_server.Common.Sql.{select, delete_where, order_by, insert_by}
use mathlib.Core.Path.{◌≡◌, refl, ap₂}
use mathlib.Core.Logic.{inl, inr}
use mathlib.Core.Bool.{Bool}
use mathlib.Core.List.{List, [], ◌∷◌, ◌++◌, map}

module _ {ℓ} {A : Type ℓ} where
  abbrev pub sum_by : (A → ℤ) → List A → ℤ
  sum_by w [] = pos 0
  sum_by w (x ∷ xs) = w x +ℤ sum_by w xs

module _ {ℓ} {A : Type ℓ} (w : A → ℤ) where
  pub sum_by-append : (xs ys : List A) → sum_by w (xs ++ ys) ≡ sum_by w xs +ℤ sum_by w ys
  sum_by-append [] ys = omega int_laws
  sum_by-append (x ∷ xs) ys = omega (int_laws, parts_of_eq (sum_by-append xs ys))

  -- A DELETE splits the sum into what goes and what stays.
  pub sum_by-delete_where :
      (p : A → Bool) (xs : List A)
      → sum_by w (select p xs) +ℤ sum_by w (delete_where p xs) ≡ sum_by w xs
  sum_by-delete_where p [] = omega int_laws
  sum_by-delete_where p (x ∷ xs) = elim (Bool-cases (p x)) [
    | inl e ↦ rw e (omega (int_laws, parts_of_eq (sum_by-delete_where p xs)))
    | inr e ↦ rw e (omega (int_laws, parts_of_eq (sum_by-delete_where p xs)))
  ]

  sum_by-insert_by :
      (before : A → A → Bool) (x : A) (xs : List A)
      → sum_by w (insert_by before x xs) ≡ w x +ℤ sum_by w xs
  unfolding insert_by
  sum_by-insert_by before x [] = refl
  sum_by-insert_by before x (y ∷ ys) = elim (Bool-cases (before y x)) [
    | inl e ↦ rw e (omega (int_laws, parts_of_eq (sum_by-insert_by before x ys)))
    | inr e ↦ rw e
  ]

  -- ORDER BY keeps every sum.
  pub sum_by-order_by :
      (before : A → A → Bool) (xs : List A) → sum_by w (order_by before xs) ≡ sum_by w xs
  unfolding order_by
  sum_by-order_by before [] = refl
  sum_by-order_by before (x ∷ xs) = omega (
    int_laws,
    parts_of_eq (sum_by-insert_by before x (order_by before xs)),
    parts_of_eq (sum_by-order_by before xs),
  )

  pub sum_by_nonneg : (xs : List A) → All (λ x. pos 0 ≤ℤ w x) xs → pos 0 ≤ℤ sum_by w xs
  sum_by_nonneg [] h = omega int_laws
  sum_by_nonneg (x ∷ xs) h = omega (int_laws, h.0, sum_by_nonneg xs h.1)

  -- Of weights that are not negative, a WHERE clause keeps no more than the whole sum.
  pub sum_by-select-le :
      (p : A → Bool) (xs : List A)
      → All (λ x. pos 0 ≤ℤ w x) xs
      → sum_by w (select p xs) ≤ℤ sum_by w xs
  sum_by-select-le p [] h = omega int_laws
  sum_by-select-le p (x ∷ xs) h = elim (Bool-cases (p x)) [
    | inl e ↦ rw e (omega (int_laws, sum_by-select-le p xs h.1))
    | inr e ↦ rw e (omega (int_laws, h.0, sum_by-select-le p xs h.1))
  ]

  pub sum_by_zero : (xs : List A) → All (λ x. w x ≡ pos 0) xs → sum_by w xs ≡ pos 0
  sum_by_zero [] h = refl
  sum_by_zero (x ∷ xs) h = omega (int_laws, parts_of_eq h.0, parts_of_eq (sum_by_zero xs h.1))

  -- A WHERE clause as a weight.
  pub sum_by-select :
      (p : A → Bool) (xs : List A)
      → sum_by w (select p xs) ≡ sum_by (λ x. if p x then w x else pos 0) xs
  sum_by-select p [] = refl
  sum_by-select p (x ∷ xs) = elim (Bool-cases (p x)) [
    | inl e ↦ rw e (ap₂ ◌+ℤ◌ refl (sum_by-select p xs))
    | inr e ↦ rw e (omega (int_laws, parts_of_eq (sum_by-select p xs)))
  ]

  pub sum_by_congr : (v : A → ℤ) (xs : List A) → All (λ x. w x ≡ v x) xs → sum_by w xs ≡ sum_by v xs
  sum_by_congr v [] h = refl
  sum_by_congr v (x ∷ xs) h = ap₂ ◌+ℤ◌ h.0 (sum_by_congr v xs h.1)

  pub sum_by_add :
      (v : A → ℤ) (xs : List A) → sum_by (λ x. w x +ℤ v x) xs ≡ sum_by w xs +ℤ sum_by v xs
  sum_by_add v [] = omega int_laws
  sum_by_add v (x ∷ xs) = omega (int_laws, parts_of_eq (sum_by_add v xs))

  pub sum_by_sub :
      (v : A → ℤ) (xs : List A) → sum_by (λ x. w x -ℤ v x) xs ≡ sum_by w xs -ℤ sum_by v xs
  sum_by_sub v [] = omega int_laws
  sum_by_sub v (x ∷ xs) = omega (int_laws, parts_of_eq (sum_by_sub v xs))

pub sum_by-map {ℓ} :
    {A B : Type ℓ} (w : B → ℤ) (f : A → B) (xs : List A)
    → sum_by w (map f xs) ≡ sum_by (λ x. w (f x)) xs
sum_by-map w f [] = refl
sum_by-map w f (x ∷ xs) = ap₂ ◌+ℤ◌ refl (sum_by-map w f xs)
