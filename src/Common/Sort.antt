-- ===== src/Common/Sort.antt =====
-- The rows of a SELECT: what a WHERE clause asks of them, and the order of an ORDER BY.
use remote_order_server.Common.Tests.{ltb, Bool-cases}
use remote_order_server.Common.Lists.{All, All-imp}
use remote_order_server.Common.Sql.{select, order_by, insert_by}
use Prim.Native.Nat.{ℕ, ◌≤◌}
use mathlib.Core.Path.{◌≡◌}
use mathlib.Core.Logic.{inl, inr}
use mathlib.Core.Bool.{Bool, true, false}
use mathlib.Core.List.{List, [], ◌∷◌}
use native.Mathlib.Omega.{arith}

module _ {ℓ κ} {A : Type ℓ} (P : A → Type κ) where
  pub select-All : (p : A → Bool) (xs : List A) → All P xs → All P (select p xs)
  select-All p [] h = tt
  select-All p (x ∷ xs) h = elim (Bool-cases (p x)) [
    | inl e ↦ rw e (h.0, select-All p xs h.1)
    | inr e ↦ rw e (select-All p xs h.1)
  ]

  pub All-select : (p : A → Bool) (xs : List A) → ((x : A) → p x ≡ true → P x) → All P (select p xs)
  All-select p [] f = tt
  All-select p (x ∷ xs) f = elim (Bool-cases (p x)) [
    | inl e ↦ rw e (f x e, All-select p xs f)
    | inr e ↦ rw e (All-select p xs f)
  ]

  insert_by-All :
      (before : A → A → Bool) (x : A) (xs : List A) → P x → All P xs → All P (insert_by before x xs)
  unfolding insert_by
  insert_by-All before x [] h hs = (h, tt)
  insert_by-All before x (y ∷ ys) h hs = elim (Bool-cases (before y x)) [
    | inl e ↦ rw e (hs.0, insert_by-All before x ys h hs.1)
    | inr e ↦ rw e (h, hs)
  ]

  pub order_by-All : (before : A → A → Bool) (xs : List A) → All P xs → All P (order_by before xs)
  unfolding order_by
  order_by-All before [] hs = tt
  order_by-All before (x ∷ xs) hs =
      insert_by-All before x (order_by before xs) hs.0 (order_by-All before xs hs.1)

module _ {ℓ} {A : Type ℓ} (key : A → ℕ) where
  -- No row has a greater key than one that comes after it.
  abbrev pub IsAscending : List A → Type ℓ
  IsAscending [] = Unit
  IsAscending (x ∷ xs) = All (λ y. key x ≤ key y) xs × IsAscending xs

module _ {ℓ} {A : Type ℓ} (key : A → ℕ) where
  abbrev by_key : A → A → Bool
  by_key a b = ltb (key a) (key b)

  insert_by-IsAscending :
      (x : A) (xs : List A) → IsAscending key xs → IsAscending key (insert_by by_key x xs)
  unfolding insert_by
  insert_by-IsAscending x [] h = (tt, tt)
  insert_by-IsAscending x (y ∷ ys) h = elim (Bool-cases (ltb (key y) (key x))) [
    | inl e ↦ rw e (
      insert_by-All (λ z. key y ≤ key z) by_key x ys (ground arith) h.0,
      insert_by-IsAscending x ys h.1,
    )
    | inr e ↦
        let least : key x ≤ key y = ground arith in
        rw e ((least, All-imp _ _ ys (λ z (le : key y ≤ key z). omega arith) h.0), h)
  ]

  pub order_by-IsAscending :
      (xs : List A) → IsAscending key (order_by (λ a b. ltb (key a) (key b)) xs)
  unfolding order_by
  order_by-IsAscending [] = tt
  order_by-IsAscending (x ∷ xs) =
      insert_by-IsAscending x (order_by by_key xs) (order_by-IsAscending xs)

module _ {ℓ} {A : Type ℓ} (before : A → A → Bool) where
  -- No row comes first that has to come after a later one.
  abbrev pub InOrder : List A → Type ℓ
  InOrder [] = Unit
  InOrder (x ∷ xs) = All (λ y. before y x ≡ false) xs × InOrder xs

module _ {ℓ} {A : Type ℓ} (before : A → A → Bool)
    (asym : (x y : A) → before x y ≡ true → before y x ≡ false)
    (trans : (x y z : A) → before y x ≡ false → before z y ≡ false → before z x ≡ false) where
  insert_by-InOrder :
      (x : A) (xs : List A) → InOrder before xs → InOrder before (insert_by before x xs)
  unfolding insert_by
  insert_by-InOrder x [] h = (tt, tt)
  insert_by-InOrder x (y ∷ ys) h = elim (Bool-cases (before y x)) [
    | inl e ↦ rw e (
      insert_by-All (λ z. before z y ≡ false) before x ys (asym y x e) h.0,
      insert_by-InOrder x ys h.1,
    )
    | inr e ↦ rw e ((e, All-imp _ _ ys (λ z (k : before z y ≡ false). trans x y z e k) h.0), h)
  ]

  pub order_by-InOrder : (xs : List A) → InOrder before (order_by before xs)
  unfolding order_by
  order_by-InOrder [] = tt
  order_by-InOrder (x ∷ xs) = insert_by-InOrder x (order_by before xs) (order_by-InOrder xs)
