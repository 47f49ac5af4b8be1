-- ===== src/Common/Groups.antt =====
-- GROUP BY: a list of keys, each with the sum of the weights of its rows.
use remote_order_server.Common.Tests.{Bool-cases, opt_eq, ◌==◌, if◌then◌else◌}
use remote_order_server.Common.Int.{ℤ, pos, ◌+ℤ◌, int_laws, parts_of_eq}
use remote_order_server.Common.Sums.{sum_by}
use mathlib.Core.Path.{◌≡◌, refl, subst, ap, ap₂, ◌∙◌}
use mathlib.Core.Logic.{inl, inr}
use mathlib.Core.Bool.{Bool, true, false}
use mathlib.Core.Option.{Option, none, some}
use Prim.Native.Nat.{ℕ}
use native.Mathlib.Omega.{arith}
use mathlib.Core.List.{List, [], ◌∷◌, map}

module _ {ℓ} {K : Type ℓ} (same : K → K → Bool) where
  -- One row comes to its group, or opens one.
  unfoldable pub add_to_group : K → ℤ → List (K × ℤ) → List (K × ℤ)
  add_to_group k n [] = (k, n) ∷ []
  add_to_group k n ((j, m) ∷ groups) =
      if same j k then (j, m +ℤ n) ∷ groups else (j, m) ∷ add_to_group k n groups

  -- What the groups name for a key, zero if they name nothing.
  unfoldable pub group_sum : K → List (K × ℤ) → ℤ
  group_sum k [] = pos 0
  group_sum k ((j, m) ∷ groups) = if same j k then m else group_sum k groups

  -- The test of the keys is their equality.
  abbrev pub IsSame : Type ℓ
  IsSame = ((i j : K) → same i j ≡ true → i ≡ j) × ((i : K) → same i i ≡ true)

  pub group_sum-add_to_group :
      IsSame
      → (k j : K) (n : ℤ) (groups : List (K × ℤ))
      → group_sum k (add_to_group j n groups)
        ≡ (if same j k then group_sum k groups +ℤ n else group_sum k groups)
  unfolding add_to_group group_sum
  group_sum-add_to_group s k j n [] = elim (Bool-cases (same j k)) [
    | inl e ↦ rw e (omega int_laws)
    | inr e ↦ rw e
  ]
  group_sum-add_to_group s k j n ((i, m) ∷ groups) = elim (Bool-cases (same i j)) [
    | inl e ↦
        let own : i ≡ j = s.0 i j e in
        elim (Bool-cases (same i k)) [
          | inl f ↦ rw (e, f, subst (λ x. same x k ≡ true) own f)
          | inr f ↦ rw (e, f, subst (λ x. same x k ≡ false) own f)
        ]
    | inr e ↦ elim (Bool-cases (same i k)) [
      | inl f ↦ let own : i ≡ k = s.0 i k f in rw (e, f, elsewhere own e)
      | inr f ↦ rw (e, f) (group_sum-add_to_group s k j n groups)
    ]
  ]
    where
      elsewhere : i ≡ k → same i j ≡ false → same j k ≡ false
      elsewhere own e = elim (Bool-cases (same j k)) [
        | inl g ↦ cc (ap₂ same own (s.0 j k g), s.1 k)
        | inr g ↦ g
      ]

  -- The sums of the groups make up the sum of the rows.
  pub sum_by-add_to_group :
      (k : K) (n : ℤ) (groups : List (K × ℤ))
      → sum_by (λ g. g.1) (add_to_group k n groups) ≡ sum_by (λ g. g.1) groups +ℤ n
  unfolding add_to_group
  sum_by-add_to_group k n [] = omega int_laws
  sum_by-add_to_group k n ((j, m) ∷ groups) = elim (Bool-cases (same j k)) [
    | inl e ↦ rw e (omega int_laws)
    | inr e ↦ rw e (omega (int_laws, parts_of_eq (sum_by-add_to_group k n groups)))
  ]

-- Nullable keys, where GROUP BY takes NULL for one value.
abbrev pub same_opt : Option ℕ → Option ℕ → Bool
same_opt none none = true
same_opt (some a) (some b) = a == b
same_opt _ _ = false

pub same_opt-IsSame : IsSame same_opt
same_opt-IsSame = (equal, own)
  where
    equal : (i j : Option ℕ) → same_opt i j ≡ true → i ≡ j
    equal none none h = refl
    equal (some a) (some b) h = ground arith
    equal none (some b) h = cc
    equal (some a) none h = cc

    own : (i : Option ℕ) → same_opt i i ≡ true
    own none = refl
    own (some a) = ground arith

pub same_opt-some : (o : Option ℕ) (p : ℕ) → same_opt o (some p) ≡ opt_eq o (some p)
same_opt-some none p = refl
same_opt-some (some a) p = refl

-- The groups of the rows, each with the sum of their weights.
module _ {A : Type 0} (key : A → Option ℕ) (w : A → ℤ) where
  unfoldable pub grouped_by : List A → List (Option ℕ × ℤ)
  grouped_by [] = []
  grouped_by (x ∷ xs) = add_to_group same_opt (key x) (w x) (grouped_by xs)

  pub group_sum-grouped_by :
      (k : Option ℕ) (xs : List A)
      → group_sum same_opt k (grouped_by xs)
        ≡ sum_by (λ x. if same_opt (key x) k then w x else pos 0) xs
  unfolding grouped_by group_sum
  group_sum-grouped_by k [] = refl
  group_sum-grouped_by k (x ∷ xs) =
      group_sum-add_to_group same_opt same_opt-IsSame k (key x) (w x) (grouped_by xs)
      ∙ (elim (Bool-cases (same_opt (key x) k)) [
        | inl e ↦ rw e (omega (int_laws, parts_of_eq (group_sum-grouped_by k xs)))
        | inr e ↦ rw e (omega (int_laws, parts_of_eq (group_sum-grouped_by k xs)))
      ])

-- GROUP BY with the rows of each group.
module _ {A K : Type 0} (same : K → K → Bool) (key : A → K) where
  unfoldable pub gather_one : A → List (K × List A) → List (K × List A)
  gather_one x [] = (key x, x ∷ []) ∷ []
  gather_one x ((j, ys) ∷ groups) =
      if same j (key x) then (j, x ∷ ys) ∷ groups else (j, ys) ∷ gather_one x groups

  unfoldable pub gather : List A → List (K × List A)
  gather [] = []
  gather (x ∷ xs) = gather_one x (gather xs)

  sum_by-gather_one :
      (w : A → ℤ) (x : A) (groups : List (K × List A))
      → sum_by (λ g. sum_by w g.1) (gather_one x groups) ≡ w x +ℤ sum_by (λ g. sum_by w g.1) groups
  unfolding gather_one
  sum_by-gather_one w x [] = omega int_laws
  sum_by-gather_one w x ((j, ys) ∷ groups) = elim (Bool-cases (same j (key x))) [
    | inl e ↦ rw e (omega int_laws)
    | inr e ↦ rw e (omega (int_laws, parts_of_eq (sum_by-gather_one w x groups)))
  ]

  -- The sums of the groups make up the sum of the rows.
  sum_by-gather : (w : A → ℤ) (xs : List A) → sum_by (λ g. sum_by w g.1) (gather xs) ≡ sum_by w xs
  unfolding gather
  sum_by-gather w [] = refl
  sum_by-gather w (x ∷ xs) =
      sum_by-gather_one w x (gather xs) ∙ ap (λ n. w x +ℤ n) (sum_by-gather w xs)

  -- A column that names a sum of each group.
  pub sum_by-groups :
      {B : Type 0} (v : B → ℤ) (w : A → ℤ) (of_group : K × List A → B) (xs : List A)
      → ((g : K × List A) → v (of_group g) ≡ sum_by w g.1)
      → sum_by v (map of_group (gather xs)) ≡ sum_by w xs
  sum_by-groups v w of_group xs h = columns (gather xs) ∙ sum_by-gather w xs
    where
      columns :
          (groups : List (K × List A))
          → sum_by v (map of_group groups) ≡ sum_by (λ g. sum_by w g.1) groups
      columns [] = refl
      columns (g ∷ groups) = ap₂ ◌+ℤ◌ (h g) (columns groups)
