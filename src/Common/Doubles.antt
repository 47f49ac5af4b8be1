-- ===== src/Common/Doubles.antt =====
-- The numbers of JavaScript. An integer counts a unit in which the decimals of the columns and the
-- doubles are whole; what the code computes with is a parameter.
use remote_order_server.Common.Tests.{Bool-cases}
use remote_order_server.Common.Int.{ℤ, ◌-ℤ◌, ◌≤ℤ◌, min_ℤ, leb_ℤ}
use mathlib.Core.Path.{◌≡◌}
use mathlib.Core.Logic.{inl, inr}
use native.Mathlib.Omega.{arith}

-- The double of a column, the difference of two doubles, and what a column becomes or changes by
-- when a double is stored in it, added to it or taken from it, rounded to the column's digits.
pub record Numbers : Type 0 where
  pub number : ℤ → ℤ
  pub minus : ℤ → ℤ → ℤ
  pub column : ℤ → ℤ

-- Numbers that compute as decimals do.
abbrev pub exact : Numbers
exact = record { number = λ n. n; minus = λ a b. a -ℤ b; column = λ n. n }

-- On the values of a class the doubles compute exactly: those of IEEE 754 do on the multiples of
-- 1/8, or of 1/4, from zero to 2 ^ 50, which a DECIMAL of three, or of two, digits holds.
pub record IsExact (js : Numbers) (P : ℤ → Type 0) : Type 0 where
  pub reads : (a : ℤ) → P a → js.number a ≡ a
  pub subtracts : (a b : ℤ) → P a → P b → b ≤ℤ a → js.minus a b ≡ a -ℤ b
  pub keeps : (a b : ℤ) → P a → P b → b ≤ℤ a → P (a -ℤ b)
  pub stores : (a : ℤ) → P a → js.column a ≡ a

pub min_of : (P : ℤ → Type 0) (a b : ℤ) → P a → P b → P (min_ℤ a b)
unfolding min_ℤ
min_of P a b h k = elim (Bool-cases (leb_ℤ a b)) [ inl e ↦ rw e h | inr e ↦ rw e k ]

pub min-le_left : (a b : ℤ) → min_ℤ a b ≤ℤ a
unfolding min_ℤ
min-le_left a b = ground arith

pub min-le_right : (a b : ℤ) → min_ℤ a b ≤ℤ b
unfolding min_ℤ
min-le_right a b = ground arith
